-- ===== src/Cache/Writes.antt =====
-- Every write through the cache, and every write behind it, leaves the cache coherent: the record is
-- known, or it is stale.
use temporaless.Prelude.{
  ◌≡◌, refl, sym, ap, ◌∙◌, subst, Bool, true, false, ◌&&◌, ◌||◌, Option, none, Text, if◌then◌else◌,
  Bool-cases, inl, inr, arith,
}
use temporaless.Action.{Result, ok, err, ◌>>◌, proceed, done}
use temporaless.Key.{WorkflowKey, run_of, same_workflow_run}
use temporaless.Validate.{is_ok}
use temporaless.OpenDal.Ledger.{same_workflow_run_refl}
use temporaless.Store.{Part, RecordOf, KeyOf, key_of, Store}
use temporaless.Cache.{Cache, in_scope, put, delete, keep, on_cache}
use temporaless.Cache.Laws.{StoreLaws, other_record, readable, key_in}
use temporaless.Cache.Says.{same_slot, same_slot_refl}
use temporaless.Cache.Apart.{other_id, other_run}
use temporaless.Cache.Coherent.{Stale, clear, Coherent, Coherent-moved, Coherent-keep}
use temporaless.Cache.Trace.{after_write, in_scope-key, Sound}
use temporaless.Cache.Reads.{clear_other}

module _ {W : Type 0} (inner : Store W) (scope : WorkflowKey) (laws : StoreLaws inner) where
  -- The change that a write of a record makes to the others.
  abbrev Alone : (p : Part) → KeyOf p → W → W → Type 0
  Alone p key w w' =
      (q : Part) (k : _) → other_record p key q k ≡ true → laws.view w' q k ≡ laws.view w q k

  unmarked : (same old : Bool) → (same || old) ≡ false → (same ≡ false) × (old ≡ false)
  unmarked same old h = ground arith

  -- A record that is not stale after a write with an outcome that the cache does not have.
  spared :
      (p : Part) (key : KeyOf p) (w w' : W) (stale : Stale)
      → Alone p key w w'
      → (q : Part) (j : Text) → after_write inner scope false p key stale q j ≡ false
      → (stale q j ≡ false) × (laws.view w' q (key_in q scope j) ≡ laws.view w q (key_in q scope j))
  spared p key w w' stale alone q j fine =
      elim (Bool-cases (same_workflow_run scope (run_of key))) [
        | inl own ↦
            let (other, fine') = unmarked (same_slot p key.id q j) (stale q j) (rw (own) at fine) in
            (fine', alone q (key_in q scope j) (other_id scope p key q j other))
        | inr far ↦ (rw (far) at fine, alone q (key_in q scope j) (other_run scope p key q j far))
      ]

  marked :
      (p : Part) (key : KeyOf p) (stale : Stale)
      → key ≡ key_in p scope key.id
      → after_write inner scope false p key stale p key.id ≡ true
  marked p key stale own =
      let same : same_workflow_run scope (run_of key) ≡ true =
        ap (λ k. same_workflow_run scope (run_of k)) own ∙ same_workflow_run_refl scope in
      rw (same, same_slot_refl p key.id)

  -- A write that the cache keeps, of which readers see the record or not.
  outcome_known :
      (visible : Bool) (p : Part) (key : KeyOf p) (v : Option (RecordOf p)) (w w' : W) (c : Cache)
      (stale : Stale)
      → key ≡ key_in p scope key.id
      → (visible ≡ true → laws.view w' p key ≡ ok v)
      → Alone p key w w'
      → Coherent scope (laws.view w) stale c
      → Coherent scope
          (laws.view w')
          (after_write inner scope visible p key stale)
          (keep p key.id v c)
  outcome_known true p key v w w' c stale own new alone h =
      Coherent-keep scope (laws.view w) (laws.view w') stale (clear p key.id stale) c p key.id v
        (λ _. ap (laws.view w' p) (sym own) ∙ new refl)
        (λ q j other fine. (
          clear_other inner scope laws (same_slot p key.id q j) (stale q j) other fine,
          alone q (key_in q scope j) (other_id scope p key q j other),
        ))
        h
  outcome_known false p key v w w' c stale own new alone h =
      let stale' = after_write inner scope false p key stale in
      Coherent-keep scope (laws.view w) (laws.view w') stale stale' c p key.id v
        (λ fine. let wrong : true ≡ false = sym (marked p key stale own) ∙ fine in cc)
        (λ q j other fine. spared p key w w' stale alone q j fine) h

  pub outcome_unknown :
      (p : Part) (key : KeyOf p) (w w' : W) (c : Cache) (stale : Stale)
      → Alone p key w w'
      → Coherent scope (laws.view w) stale c
      → Coherent scope (laws.view w') (after_write inner scope false p key stale) c
  outcome_unknown p key w w' c stale alone h =
      Coherent-moved scope (laws.view w) (laws.view w') stale
        (after_write inner scope false p key stale) c (spared p key w w' stale alone) h

  -- The end of a write with the result `r` of the store.
  written :
      {A : Type 0} (b visible : Bool) (p : Part) (key : KeyOf p) (v : Option (RecordOf p)) (w : W)
      (r : Result A × W) (c : Cache) (stale : Stale)
      → (b ≡ true → key ≡ key_in p scope key.id)
      → ((a : A) → r.0 ≡ ok a → visible ≡ true → laws.view r.1 p key ≡ ok v)
      → Alone p key w r.1
      → Coherent scope (laws.view w) stale c
      → let x =
          proceed
            (λ a. do if b then on_cache inner scope (keep p key.id v) else done tt; done a)
            (r.0, (r.1, c)) in
        Sound inner scope laws
          (x.1, after_write inner scope (is_ok x.0 && b && visible) p key stale)
  written true visible p key v w (ok a, w') c stale own new alone h =
      outcome_known visible p key v w w' c stale (own refl) (new a refl) alone h
  written false visible p key v w (ok a, w') c stale own new alone h =
      outcome_unknown p key w w' c stale alone h
  written b visible p key v w (err x, w') c stale own new alone h =
      outcome_unknown p key w w' c stale alone h

  -- The same at the end of `PutActivity`, `PutTimer` and `PutEvent`.
  written_last :
      (b visible : Bool) (p : Part) (key : KeyOf p) (v : Option (RecordOf p)) (w : W)
      (r : Result Unit × W) (c : Cache) (stale : Stale)
      → (b ≡ true → key ≡ key_in p scope key.id)
      → ((a : Unit) → r.0 ≡ ok a → visible ≡ true → laws.view r.1 p key ≡ ok v)
      → Alone p key w r.1
      → Coherent scope (laws.view w) stale c
      → let x =
          proceed
            (λ _. if b then on_cache inner scope (keep p key.id v) else done tt)
            (r.0, (r.1, c)) in
        Sound inner scope laws
          (x.1, after_write inner scope (is_ok x.0 && b && visible) p key stale)
  written_last true visible p key v w (ok a, w') c stale own new alone h =
      outcome_known visible p key v w w' c stale (own refl) (new a refl) alone h
  written_last false visible p key v w (ok a, w') c stale own new alone h =
      outcome_unknown p key w w' c stale alone h
  written_last b visible p key v w (err x, w') c stale own new alone h =
      outcome_unknown p key w w' c stale alone h

  both : (a b : Bool) → (a && b && true) ≡ (a && b)
  both a b = ground arith

  pub Sound-delete :
      (p : Part) (key : KeyOf p) (w : W) (c : Cache) (stale : Stale)
      → Coherent scope (laws.view w) stale c
      → let x = delete inner scope p key (w, c) in
        Sound inner scope laws (
          x.1,
          after_write inner scope (is_ok x.0 && in_scope inner scope (run_of key)) p key stale,
        )
  unfolding delete
  Sound-delete p key w c stale h =
      let x = delete inner scope p key (w, c) in
      let b = in_scope inner scope (run_of key) in
      subst (λ z. Coherent scope (laws.view x.1.0) (after_write inner scope z p key stale) x.1.1)
        (both (is_ok x.0) b)
        (written b true p key none w (inner.delete p key w) c stale (in_scope-key inner scope p key)
          (λ a answered _. laws.delete_view p key w answered) (laws.delete_others p key w) h)

  pub Sound-put :
      (p : Part) (r : Option (RecordOf p)) (w : W) (c : Cache) (stale : Stale)
      → Coherent scope (laws.view w) stale c
      → let x = put inner scope p r (w, c) in
        let known = is_ok x.0 && in_scope inner scope (run_of (key_of p r)) && readable p r in
        Sound inner scope laws (x.1, after_write inner scope known p (key_of p r) stale)
  unfolding put
  Sound-put p r w c stale h =
      let key = key_of p r in
      written_last (in_scope inner scope (run_of key)) (readable p r) p key r w (inner.put p r w) c
        stale (in_scope-key inner scope p key)
        (λ a answered visible. laws.put_view p r w answered visible) (laws.put_others p r w) h
