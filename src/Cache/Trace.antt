-- ===== src/Cache/Trace.antt =====
-- Sequences of calls on the cache of a run and of writes that others make behind it, with the
-- records that are stale after each.
use temporaless.Prelude.{
  ◌≡◌, refl, sym, ap, ◌∙◌, Bool, true, false, ◌&&◌, Option, none, some, List, [], ◌∷◌,
  text_eq_sound, if◌then◌else◌, arith, is_some,
}
use temporaless.Action.{Result, ok, err, Action, proceed, lift, bind-ok, and_then-ok}
use temporaless.Key.{WorkflowKey, run_of, same_workflow_run}
use temporaless.Message.{TimerStatus}
use temporaless.Validate.{is_ok}
use temporaless.Store.{Part, RecordOf, KeyOf, key_of, Store, validate_record}
use temporaless.Cache.{
  State, in_scope, refresh, get, put, delete, list, prefetch, new_run_scoped_cache,
}
use temporaless.Cache.Checks.{load, loaded, validate_found_record}
use temporaless.Cache.Laws.{StoreLaws, readable, key_in}
use temporaless.Cache.Coherent.{Stale, fresh, mark, clear, Coherent}

-- The calls of the run, and the writes of others: of another worker, of a scanner, of a sender.
pub data Call : Type 0 where
  reads refreshes deletes others_delete : (p : Part) → KeyOf p → Call
  puts others_put : (p : Part) → Option (RecordOf p) → Call
  lists : Part → WorkflowKey → TimerStatus → Call
  prefetches : Call

module _ {W : Type 0} (inner : Store W) (scope : WorkflowKey) where
  -- After a write of a record of the run: the cache has its outcome, or has not.
  abbrev pub after_write : Bool → (p : Part) → KeyOf p → Stale → Stale
  after_write true p key stale = clear p key.id stale
  after_write false p key stale =
      if same_workflow_run scope (run_of key) then mark p key.id stale else stale

  abbrev pub after_refresh : Bool → (p : Part) → KeyOf p → Stale → Stale
  after_refresh true p key stale = clear p key.id stale
  after_refresh false p key stale = stale

  abbrev pub Snapshot : Type 0
  Snapshot = State inner scope × Stale

  abbrev pub behind : {A : Type 0} → Action W A → State inner scope → State inner scope
  behind m (w, c) = ((m w).1, c)

  unfoldable pub step : Call → Snapshot → Snapshot
  step (reads p key) (s, stale) = ((get inner scope p key s).1, stale)
  step (refreshes p key) (s, stale) =
      let (r, s') = refresh inner scope p key s in
      (s', after_refresh (is_ok r && in_scope inner scope (run_of key)) p key stale)
  step (puts p r) (s, stale) =
      let (result, s') = put inner scope p r s in
      let known = is_ok result && in_scope inner scope (run_of (key_of p r)) && readable p r in
      (s', after_write known p (key_of p r) stale)
  step (deletes p key) (s, stale) =
      let (result, s') = delete inner scope p key s in
      (s', after_write (is_ok result && in_scope inner scope (run_of key)) p key stale)
  step (lists p key status) (s, stale) = ((list inner scope p key status s).1, stale)
  step prefetches (s, stale) = ((prefetch inner scope s).1, stale)
  step (others_put p r) (s, stale) =
      (behind (inner.put p r) s, after_write false p (key_of p r) stale)
  step (others_delete p key) (s, stale) =
      (behind (inner.delete p key) s, after_write false p key stale)

  unfoldable pub perform : List Call → Snapshot → Snapshot
  perform [] x = x
  perform (call ∷ calls) x = perform calls (step call x)

  -- Before the first call of a run.
  abbrev pub start : W → Snapshot
  start w = ((w, new_run_scoped_cache), fresh)

  pub in_scope-key :
      (p : Part) (key : KeyOf p)
      → in_scope inner scope (run_of key) ≡ true
      → key ≡ key_in p scope key.id
  in_scope-key p key h = ground (
    arith,
    text_eq_sound key.namespace scope.namespace,
    text_eq_sound key.workflow_id scope.workflow_id,
    text_eq_sound key.run_id scope.run_id,
  )

  module _ (laws : StoreLaws inner) where
    abbrev pub Sound : Snapshot → Type 0
    Sound ((w, c), stale) = Coherent scope (laws.view w) stale c

    loaded-ok :
        (p : Part) (key : KeyOf p) (rec : Option (RecordOf p)) (found : Bool)
        {v : Option (RecordOf p)}
        → loaded p key (rec, found) ≡ ok v
        → (v ≡ rec) × (found ≡ is_some rec)
    unfolding validate_found_record
    loaded-ok p key none true h = cc
    loaded-ok p key (some r) true h =
        let (_, _, same) = and_then-ok (validate_record p (some r) key) (λ _. ok (some r)) h in
        (cc, refl)
    loaded-ok p key none false h = (cc, refl)
    loaded-ok p key (some r) false h = cc

    pub load_view :
        (p : Part) (key : KeyOf p) (w : W) {v : Option (RecordOf p)}
        → (load inner p key w).0 ≡ ok v
        → laws.view w p key ≡ ok v
    unfolding load
    load_view p key w h =
        let ((rec, found), (got, rest)) =
          bind-ok (λ a. lift (loaded p key a)) (inner.get p key w) h in
        let (same, flag) = loaded-ok p key rec found rest in
        laws.get_view p key w got flag ∙ ap ok (sym same)

    lift_world :
        {A B : Type 0} (f : A → Result B) (r : Result A × W) → (proceed (λ a. lift (f a)) r).1 ≡ r.1
    lift_world f (ok a, w) = refl
    lift_world f (err x, w) = refl

    pub load_quiet :
        (p : Part) (key : KeyOf p) (w : W) (q : Part) (k : KeyOf q)
        → laws.view (load inner p key w).1 q k ≡ laws.view w q k
    unfolding load
    load_quiet p key w q k =
        ap (λ x. laws.view x q k) (lift_world (loaded p key) (inner.get p key w))
        ∙ laws.get_quiet p key w q k
