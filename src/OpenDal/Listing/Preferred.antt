-- ===== src/OpenDal/Listing/Preferred.antt =====
-- The timers of a run, as `ListTimers` gives them.
use temporaless.Prelude.{
  ◌≢◌, In, text_eq_refl, arith, ◌≡◌, refl, sym, ap, subst, ◌∙◌, ◌⊎◌, inl, inr, ℕ, true, false, some,
  List, [], ◌∷◌, Text, text_eq, All, All-sort_by, sort_by,
}
use temporaless.Action.{Error, Result, ok, err, Action, done, ends-bind, lift, ◌>>=◌}
use temporaless.Key.{
  WorkflowKey, timer, key_from_proto, workflow_key_with_defaults, run_of, record_path,
  record_dir_path, due_run_root,
}
use temporaless.Key.Located.{or_default-or_default}
use temporaless.Message.{TimerRecord, TimerStatus, DueTimerEntry, due_timer_entry}
use temporaless.Env.{Env, Lawful}
use temporaless.Env.Ensures.{
  Objects, Ensures, ensures-reads, ensures-bind, ensures-result, ensures-weaken, Then, Reads-lift,
}
use temporaless.OpenDal.View.{timer_on, timer_point_on}
use temporaless.OpenDal.Timers.Put.{timer_key}
use temporaless.OpenDal.Walk.{walk_open_dal, ensures-walk}
use temporaless.OpenDal.Entry.{listed_on}
use temporaless.OpenDal.Listing.{
  list_timers, read_ledger, read_points, Found, with_status, has_status, timer_id_less,
  placeholder_key, entry_key, is_shadowed,
}
use temporaless.OpenDal.Listing.Agree.{Lists, no_list, lists}
use temporaless.OpenDal.Listing.Timers.{
  All-with_status, IsEntryOf, IsTimerOf, Entries, Covers, ensures-read_ledger,
}
use temporaless.OpenDal.Listing.Points.{Timers, ensures-read_points}

module _ ⦃e : Env⦄ where
  open e use {World, objects, ctx_err, unmarshal}

  -- The timers of a run, from a walk of its ledger: a record is what a read of its key gives; or it
  -- is the canonical point of its key, and no ledger entry of the walk is of that key.
  abbrev pub IsPreferred : WorkflowKey → Objects e → List Text → TimerRecord → Type 0
  IsPreferred key o due_paths r =
      (workflow_key_with_defaults key ≡ workflow_key_with_defaults (run_of (timer_key r)))
      × ((timer_on (timer_key r) o ≡ ok (some r))
          ⊎ ((timer_point_on (key_from_proto r.key) o ≡ ok (some r))
              × ((p : Text) (entry : DueTimerEntry)
                  → In p due_paths
                  → listed_on due_timer_entry p o ≡ ok entry
                  → entry_key entry ≢ timer_key r)))

  module _ (laws : Lawful e) (o : Objects e) (key : WorkflowKey) where
    -- A covered key is the key of no point.
    not_shadowed : (q : Text) (qs : List Text) → is_shadowed q qs ≡ false → In q qs → ⊥
    unfolding is_shadowed
    not_shadowed q [] h there = there
    not_shadowed q (x ∷ xs) h (inl same) =
        let found : text_eq x q ≡ true = subst (λ z. text_eq z q ≡ true) same (text_eq_refl q) in
        (let h' = rw found at h in cc)
    not_shadowed q (x ∷ xs) h (inr later) = not_shadowed q xs (ground arith) later

    record_path-defaults :
        (r : TimerRecord) (q : Text)
        → record_path timer (key_from_proto r.key) ≡ ok q
        → record_path timer (timer_key r) ≡ ok q
    unfolding record_path
    record_path-defaults r q h =
        rw (or_default-or_default (key_from_proto {k = timer} r.key).namespace) h

    IsTimerOf-IsPreferred :
        (due_paths shadows : List Text)
        → Covers laws o key due_paths shadows
        → (r : TimerRecord) → IsTimerOf key o shadows r
        → IsPreferred key o due_paths r
    IsTimerOf-IsPreferred due_paths shadows covers r (inl (seen, run)) = (run, inl seen)
    IsTimerOf-IsPreferred due_paths shadows covers r (inr (point, run, (q, located, free))) = (
      run,
      inr (
        point,
        λ p entry there read same. not_shadowed q shadows free (
            covers p entry q there read
              (ap (λ k. record_path timer k) same ∙ record_path-defaults r q located)),
      ),
    )

    All-map :
        {A : Type 0} (P Q : A → Type 0) (xs : List A) → ((x : A) → P x → Q x) → All P xs → All Q xs
    All-map P Q [] f h = tt
    All-map P Q (x ∷ xs) f h = (f x h.0, All-map P Q xs f h.1)

    -- A listing that answers gives preferred records, of the status asked for.
    abbrev pub ListsTimers :
        TimerStatus → List Text → Result (List TimerRecord) → Objects e → Type 0
    ListsTimers status due_paths =
        Lists (λ r. IsPreferred key o due_paths r × (has_status status r ≡ true)) o

    -- What is collected goes into the rest.
    ensures-collected :
        {B : Type 0} {m : Action World Found} {k : Found → Action World B} (G : Found → Type 0)
        {P : Result B → Objects e → Type 0}
        → Ensures o m (λ r o'. (o' ≡ o) × ((found : Found) → r ≡ ok found → G found))
        → ((x : Error) → P (err x) o)
        → ((found : Found) → G found → Ensures o (k found) P)
        → Ensures o (m >>= k) P
    ensures-collected {B} {k} G {P} h failed rest = ensures-bind (ensures-weaken h settle)
      where
        settle :
            (r : Result Found) (o' : Objects e)
            → (o' ≡ o) × ((found : Found) → r ≡ ok found → G found)
            → Then k P r o'
        settle (err x) o' (same, _) = subst (P (err x)) (sym same) (failed x)
        settle (ok found) o' (same, all) =
            subst (λ z. Ensures z (k found) P) (sym same) (rest found (all found refl))

    abbrev no_timers : Found
    no_timers = record { records_by_id = []; shadow_point_paths = [] }

    -- From the ledger entries to the end of `ListTimers`.
    abbrev listed_timers : ℕ → TimerStatus → List Text → Action World (List TimerRecord)
    listed_timers fuel status due_paths = do
      shadows ← read_ledger key due_paths no_timers
      dir ← lift (record_dir_path timer (placeholder_key timer key))
      paths ← walk_open_dal fuel dir
      found ← read_points key paths shadows
      done (sort_by timer_id_less (with_status status found.records_by_id))

    ensures-listed :
        (fuel : ℕ) (status : TimerStatus) (due_paths : List Text)
        → Ensures o (listed_timers fuel status due_paths) (ListsTimers status due_paths)
    ensures-listed fuel status due_paths =
        ensures-collected
          (λ found.
            Entries laws o key found
            × Covers laws o key due_paths found.shadow_point_paths
            × ((q : Text) → In q [] → In q found.shadow_point_paths))
          (ensures-read_ledger laws o key due_paths no_timers tt) (no_list o)
          λ found (entries, covers, _).
            ensures-reads (Reads-lift (record_dir_path timer (placeholder_key timer key)))
              (no_list o)
              λ dir _. ensures-bind (
                ensures-walk laws o _ (no_list o) (λ paths. points found entries covers paths) fuel
                  (dir ∷ []) [])
      where
        points :
            (found : Found)
            → Entries laws o key found
            → Covers laws o key due_paths found.shadow_point_paths
            → (paths : List Text)
            → Ensures o
                (do
                  found' ← read_points key paths found
                  done (sort_by timer_id_less (with_status status found'.records_by_id)))
                (ListsTimers status due_paths)
        points found entries covers paths =
            let shadows = found.shadow_point_paths in
            ensures-collected (Timers laws o key shadows)
              (ensures-read_points laws o key shadows paths found (
                refl,
                All-map (λ x. IsEntryOf key o x.1) (λ x. IsTimerOf key o shadows x.1)
                    found.records_by_id (λ x h. inl h) entries,
              ))
              (no_list o)
              λ found' (_, all).
                let preferred =
                  All-map (λ x. IsTimerOf key o shadows x.1) (λ x. IsPreferred key o due_paths x.1)
                    found'.records_by_id (λ x. IsTimerOf-IsPreferred due_paths shadows covers x.1)
                    all in
                ensures-result
                  (ok (sort_by timer_id_less (with_status status found'.records_by_id)))
                  (lists o (sort_by timer_id_less (with_status status found'.records_by_id)) (
                    All-sort_by timer_id_less _ (with_status status found'.records_by_id) (
                      All-with_status (IsPreferred key o due_paths) status found'.records_by_id
                        preferred)))

  -- An end of `ListTimers`: no object has changed, and a list that it gives has preferred timers of
  -- the status, from a walk of the ledger of the run.
  abbrev pub ListedTimers :
      ℕ → WorkflowKey → TimerStatus → World → Result (List TimerRecord) × World → Type 0
  ListedTimers fuel key status s end =
      (objects end.1 ≡ objects s)
      × ((rs : List TimerRecord)
          → end.0 ≡ ok rs
          → (due_dir : Text) × (due_run_root key ≡ ok due_dir)
            × ((due_paths : List Text) × ((walk_open_dal fuel due_dir (ctx_err s).1).0
                  ≡ ok due_paths)
                × All (λ r. IsPreferred key (objects s) due_paths r × (has_status status r ≡ true))
                    rs))

  -- `ListTimers` changes no object. It walks the ledger of the run, and every record that it gives
  -- has the status asked for and is of the run: it is what a read of its key gives; or it is the
  -- canonical point of its key, and no ledger entry that the walk has found is of that key.
  pub list_timers-ListedTimers :
      (laws : Lawful e) (fuel : ℕ) (key : WorkflowKey) (status : TimerStatus) (s : World)
      → ListedTimers fuel key status s (list_timers fuel key status s)
  unfolding list_timers
  list_timers-ListedTimers laws fuel key status s =
      let Ends = ListedTimers fuel key status s in
      let s1 = (ctx_err s).1 in
      let quiet = laws.ctx_err_quiet s in
      ends-bind Ends _ (ctx_err s) (λ x _. (quiet, λ rs wrong. cc))
        λ _ _.
          ends-bind Ends _ (due_run_root key, s1) (λ x _. (quiet, λ rs wrong. cc))
            λ due_dir rooted.
              let walked = walk_open_dal fuel due_dir s1 in
              let kept : objects walked.1 ≡ objects s =
                (ensures-walk laws (objects s) (λ r o'. o' ≡ objects s) (λ x. refl) (λ ps. refl)
                    fuel (due_dir ∷ []) []).at
                  s1 quiet in
              ends-bind Ends _ walked (λ x _. (kept, λ rs wrong. cc))
                λ due_paths found.
                  let (same, all) =
                    (ensures-listed laws (objects s) key fuel status due_paths).at walked.1 kept in
                  (same, λ rs given. (due_dir, rooted, (due_paths, found, all rs given)))
