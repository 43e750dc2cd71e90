-- ===== src/OpenDal/Scan/Wakes.antt =====
-- What a scan gives and what it leaves behind, wherever it stops.
use temporaless.Prelude.{
  ◌≡◌, refl, sym, ap, subst, ◌∙◌, ◌⊎◌, inl, inr, ℕ, true, false, not, ◌||◌, Bool-cases, Option,
  none, some, List, [], ◌∷◌, ◌++◌, Text, ltb, ◌==◌, if◌then◌else◌, All, All-append, All-sort_by,
  sort_by,
}
use temporaless.Action.{
  Error, Result, ok, err, Action, done, fail, lift, ◌>>=◌, ◌>>◌, not_found, require, plain, joined,
  corrupt_record,
}
use temporaless.Key.{timer, record_path, with_defaults, run_of, extension}
use temporaless.Message.{
  TimerStatus, TimerRecord, WorkflowRecord, DueTimerEntry, Time, due_timer_entry,
}
use temporaless.Env.{Env, Lawful, with_object}
use temporaless.Env.Tree.{Direct}
use temporaless.Env.Ensures.{
  Objects, Ensures, ensures-reads, ensures-bind, ensures-result, ensures-attempt, ensures-weaken,
  ensures-read_last, Reads-ctx_err, Reads-lift, Then,
}
use temporaless.Validate.{is_in_progress}
use temporaless.Validate.Listed.{DueTimer, validate_due_timer}
use temporaless.OpenDal.Point.{get_workflow}
use temporaless.OpenDal.Due.{prepared_record, is_canceled, is_scheduled, validate_due_entry}
use temporaless.OpenDal.View.{
  timer_on, workflow_on, timer_point_on, get_timer_point_lem, get_workflow_lem,
}
use temporaless.OpenDal.Timers.{put_timer, shown}
use temporaless.OpenDal.Timers.Put.{put_timer-atomic, timer_key, Outcome}
use temporaless.OpenDal.Timers.Frame.{Owns, point, entry-ne-point, timer_on-other, with_object-ne}
use temporaless.OpenDal.Quarantine.{quarantine_due_entry-copied, Quarantined, quarantine_target}
use temporaless.OpenDal.Delete.{ensures-delete_if_exists}
use temporaless.OpenDal.Walk.{ensures-walk}
use temporaless.OpenDal.Entry.{
  listed_on, listed_on-ok, Reads-read_listed_proto, validate_due_entry-Checked, timer_on-Checked,
  Checked,
}
use temporaless.OpenDal.Listing.{entry_key, entry_workflow_key}
use temporaless.OpenDal.Scan.{
  LedgerRoot, scan_entry, scan_found, scan_paths, scan_roots, due_timers, set_aside, finish_delete,
  has_point, is_exact, wakes_of, readable, due_less, fire_time,
}
use temporaless.OpenDal.Scan.Kept.{Kept, Kept-refl, Kept-trans, Kept-of_timer, timer_on-agree}
use temporaless.OpenDal.Scan.Accepted.{entry-accepted, run_of_entry, workflow_on-Kept}
use temporaless.Key.Quarantined.{Located-ne-invalid}
use temporaless.OpenDal.Scan.Roots.{IsLedger, Owns-ne-quarantine, ensures-due_roots, Rooted}

scheduled-live : (s : TimerStatus) → is_scheduled s ≡ true → is_canceled s ≡ false
scheduled-live TimerStatus.scheduled h = refl
scheduled-live _ h = cc

module _ ⦃e : Env⦄ where
  open e use {World, Data, unmarshal, digest}

  -- The check of a due timer accepts the wake, and its timer and its run are the stored ones.
  pub record IsWake (asked : Text) (now : Time) (o : Objects e) (due : DueTimer) : Type 0 where
    pub accepted : validate_due_timer due asked now ≡ ok tt
    pub timer_stored : timer_on due.key o ≡ ok due.timer_record
    pub workflow_stored : workflow_on (run_of due.key) o ≡ ok due.workflow

  module _ (asked : Text) (now : Time) (start : Objects e) where
    -- The end of a part of a scan that began on the objects `start`.
    pub record Scanned (result : Result (List DueTimer)) (o' : Objects e) : Type 0 where
      pub kept : Kept start o'
      pub wakes : (due : List DueTimer) → result ≡ ok due → All (IsWake asked now start) due

    failed : {o : Objects e} → Kept start o → (x : Error) → Scanned (err x) o
    failed kept x = record { kept = kept; wakes = λ due wrong. cc }

    found :
        {o : Objects e} (due : List DueTimer)
        → Kept start o
        → All (IsWake asked now start) due
        → Scanned (ok due) o
    found due kept h = record {
      kept = kept;
      wakes = λ ds same. subst (All (IsWake asked now start)) (ok-injective same) h;
    }
      where
        ok-injective :
            {xs ys : List DueTimer} → ◌≡◌ {A = Result (List DueTimer)} (ok xs) (ok ys) → xs ≡ ys
        ok-injective same = cc

    -- Two parts of a scan, one after the other.
    scanned-append :
        {o : Objects e} {m n : Action World (List DueTimer)}
        → Ensures o m Scanned
        → ((o' : Objects e) → Kept start o' → Ensures o' n Scanned)
        → Ensures o (do a ← m; b ← n; done (a ++ b)) Scanned
    scanned-append {m} {n} first second =
        ensures-bind {k = λ a. n >>= λ b. done (a ++ b)} (ensures-weaken first settle)
      where
        last :
            (a : List DueTimer)
            → All (IsWake asked now start) a
            → (r : Result (List DueTimer)) (o' : Objects e) → Scanned r o'
            → Then (λ b. done (a ++ b)) Scanned r o'
        last a ha (err x) o' h = failed h.kept x
        last a ha (ok b) o' h =
            ensures-result (ok (a ++ b))
              (found (a ++ b) h.kept (All-append _ a b ha (h.wakes b refl)))

        settle :
            (r : Result (List DueTimer)) (o' : Objects e)
            → Scanned r o'
            → Then (λ a. n >>= λ b. done (a ++ b)) Scanned r o'
        settle (err x) o' h = failed h.kept x
        settle (ok a) o' h =
            ensures-bind (ensures-weaken (second o' h.kept) (last a (h.wakes a refl)))

    module _ (laws : Lawful e) {root : LedgerRoot} (ledger : IsLedger asked root) where
      -- A copy in the quarantine is no part of a timer or record.
      Kept-quarantined :
          {o o' : Objects e} (p : Text)
          → Quarantined (quarantine_target root.quarantine_path p) p o o'
          → Kept o o'
      Kept-quarantined {o} {o'} p h = record {
        timers = λ key.
            timer_on-agree key o o'
              (λ q own. h.others q (λ same. Owns-ne-quarantine ledger _ key own (sym same)));
        records = λ q ((a, located), _). h.others q (λ same.
            Located-ne-invalid q a ledger.name _ located ledger.name-NoSlash
              (sym same ∙ ap (λ r. r ++ (digest p ++ extension)) ledger.quarantine));
      }

      ensures-set_aside :
          {o : Objects e} (p : Text) (x : Error)
          → Kept start o
          → Ensures o (set_aside root p x) Scanned
      unfolding set_aside
      ensures-set_aside {o} p x kept =
          ensures-bind {k = λ copied. fail (elim copied [ ok _ ↦ x | err y ↦ joined x y ])} (
            ensures-attempt (
              ensures-weaken (quarantine_due_entry-copied laws root.quarantine_path p o) (λ r o' h.
                ensures-result (err _) (failed (Kept-trans kept (Kept-quarantined p h)) _))))

      module _ {o : Objects e} (kept : Kept start o) {p : Text} {x : DueTimerEntry} {d : Data}
          (checked : Checked root.path p x) (there : o p ≡ some d)
          (read : unmarshal due_timer_entry d ≡ ok x) where
        -- A change of the canonical point under its entry changes no timer.
        Kept-point :
            {q : Text} (v : Option Data)
            → record_path timer (entry_key x) ≡ ok q
            → Kept o (with_object o q v)
        Kept-point {q} v at =
            Kept-of_timer (entry_key x)
              (timer_on-Checked checked (with_object o q v)
                  (with_object-ne o q p v
                      (λ same. entry-ne-point (entry_key x) checked.at at (sym same))
                    ∙ there)
                  read
                ∙ sym (timer_on-Checked checked o there read))
              (λ other differ. timer_on-other (entry_key x) other o q v (point at) differ)
              (λ z other.
                with_object-ne o q z v (λ same. other (subst (Owns (entry_key x)) same (point at))))

        ensures-finish_delete :
            (found' : Result (Option TimerRecord))
            → Ensures o (finish_delete (entry_key x) found') Scanned
        unfolding finish_delete
        ensures-finish_delete found' = elim (Bool-cases (has_point found')) [
          | inl stands ↦ rw stands (
              ensures-reads (Reads-lift (record_path timer (entry_key x))) (failed kept) λ q at.
                let gone = Kept-trans kept (Kept-point none at) in
                ensures-bind {k = λ _. done []} (
                  ensures-delete_if_exists laws q (failed kept) (failed gone)
                    (λ _. ensures-result (ok []) (found [] kept tt))
                    (λ _. ensures-result (ok []) (found [] gone tt))))
          | inr absent ↦ rw absent (ensures-result (ok []) (found [] kept tt))
        ]

        Kept-repaired :
            {complete : Type 0} {o' : Objects e}
            → Outcome (timer_key (prepared_record x)) (shown (prepared_record x)) o complete o'
            → Kept o o'
        Kept-repaired {o'} h =
            let shows = timer_on-Checked checked o there read in
            let same =
              subst
                (λ k.
                  (timer_on k o' ≡ timer_on k o) ⊎ (timer_on k o' ≡ ok (shown (prepared_record x))))
                checked.key h.atomic in
            Kept-of_timer (entry_key x)
              (elim same [ inl still ↦ still | inr new ↦ new ∙ sym shows ])
              (λ other differ. h.others other (λ one. differ (one ∙ ap with_defaults checked.key)))
              (λ q other. h.untouched q (λ own. other (subst (λ k. Owns k q) checked.key own)))

        ensures-repair : Ensures o (do put_timer (some (prepared_record x)); done []) Scanned
        ensures-repair =
            ensures-bind {k = λ _. done []}
              (ensures-weaken (put_timer-atomic laws (prepared_record x) o) settle)
          where
            settle :
                (r : Result Unit) (o' : Objects e)
                → Outcome
                    (timer_key (prepared_record x))
                    (shown (prepared_record x))
                    o
                    (r ≡ ok tt)
                    o'
                → Then (λ _. done []) Scanned r o'
            settle (ok tt) o' h =
                ensures-result (ok []) (found [] (Kept-trans kept (Kept-repaired h)) tt)
            settle (err y) o' h = failed (Kept-trans kept (Kept-repaired h)) y

        IsWake-of_entry :
            (w : Option WorkflowRecord)
            → is_scheduled (prepared_record x).status ≡ true
            → ltb now (fire_time x.fire_at) ≡ false
            → workflow_on (entry_workflow_key x) o ≡ ok w
            → All (IsWake asked now start) (wakes_of x w)
        IsWake-of_entry none scheduled' due run = tt
        IsWake-of_entry (some w) scheduled' due run = elim (Bool-cases (is_in_progress w.status)) [
          | inl progress ↦ rw progress (
            record {
              accepted = entry-accepted ledger checked o now w scheduled' due run progress;
              timer_stored =
                  sym (kept.timers (entry_key x))
                  ∙ timer_on-Checked checked o there read
                  ∙ rw (scheduled-live (prepared_record x).status scheduled');
              workflow_stored =
                  sym (workflow_on-Kept (run_of (entry_key x)) kept)
                  ∙ subst (λ k. workflow_on k o ≡ ok (some w)) (run_of_entry ledger checked) run;
            },
            tt,
          )
          | inr over ↦ rw over tt
        ]

        abbrev after : Result (Option TimerRecord) → Action World (List DueTimer)
        after found' =
            lift (readable found')
            >> (if is_canceled (prepared_record x).status
                then finish_delete (entry_key x) found'
                else if not (is_exact (prepared_record x) found')
                then (do put_timer (some (prepared_record x)); done [])
                else if not (is_scheduled (prepared_record x).status)
                    || ltb now (fire_time x.fire_at)
                then done []
                else (do w ← get_workflow (entry_workflow_key x); done (wakes_of x w)))

        ensures-wake :
            is_scheduled (prepared_record x).status ≡ true
            → ltb now (fire_time x.fire_at) ≡ false
            → Ensures o (do w ← get_workflow (entry_workflow_key x); done (wakes_of x w)) Scanned
        ensures-wake scheduled' due =
            ensures-reads (get_workflow_lem laws (entry_workflow_key x)) (failed kept)
              λ w run. ensures-result (ok _) (found _ kept (IsWake-of_entry w scheduled' due run))

        ensures-after : (found' : Result (Option TimerRecord)) → Ensures o (after found') Scanned
        ensures-after found' = ensures-reads (Reads-lift (readable found')) (failed kept) λ _ _.
            elim (Bool-cases (is_canceled (prepared_record x).status)) [
              | inl canceled ↦ rw canceled (ensures-finish_delete found')
              | inr live ↦ elim (Bool-cases (is_exact (prepared_record x) found')) [
                | inr stale ↦ rw (live, stale) ensures-repair
                | inl exact ↦ elim (Bool-cases (is_scheduled (prepared_record x).status)) [
                  | inr fired ↦ rw (live, exact, fired) (ensures-result (ok []) (found [] kept tt))
                  | inl scheduled' ↦ elim (Bool-cases (ltb now (fire_time x.fire_at))) [
                    | inl early ↦
                        rw (live, exact, scheduled', early)
                          (ensures-result (ok []) (found [] kept tt))
                    | inr due ↦ rw (live, exact, scheduled', due) (ensures-wake scheduled' due)
                  ]
                ]
              ]
            ]

        ensures-scan_entry : Ensures o (scan_entry now x) Scanned
        unfolding scan_entry
        ensures-scan_entry = ensures-bind {k = after} (
            ensures-attempt (
              ensures-read_last (get_timer_point_lem laws (entry_key x))
                (ensures-after (timer_point_on (entry_key x) o)) (λ y. ensures-after (err y))))

      ensures-scan_found :
          {o : Objects e} (kept : Kept start o) (p : Text) (result : Result DueTimerEntry)
          → ((x : DueTimerEntry) → result ≡ ok x → listed_on due_timer_entry p o ≡ ok x)
          → Ensures o (scan_found root now p result) Scanned
      unfolding scan_found
      ensures-scan_found {o} kept p (ok x) h =
          elim (Bool-cases
            (validate_due_entry root.path p x (entry_key x) (entry_workflow_key x))) [
              | inl valid ↦
                  let (d, there, read) = listed_on-ok due_timer_entry p o (h x refl) in
                  rw valid (
                    ensures-scan_entry kept (validate_due_entry-Checked root.path p x valid) there
                      read)
              | inr wrong ↦ rw wrong (ensures-set_aside p corrupt_record kept)
            ]
      ensures-scan_found kept p (err not_found) h = ensures-result (ok []) (found [] kept tt)
      ensures-scan_found kept p (err y) h = ensures-set_aside p y kept

      ensures-scan_paths :
          (ps : List Text) {o : Objects e}
          → Kept start o
          → Ensures o (scan_paths root now ps) Scanned
      unfolding scan_paths
      ensures-scan_paths [] kept = ensures-result (ok []) (found [] kept tt)
      ensures-scan_paths (p ∷ ps) {o} kept =
          let next = λ (o' : Objects e) (k : Kept start o'). ensures-scan_paths ps k in
          ensures-bind
            {k = λ x. do a ← scan_found root now p x; b ← scan_paths root now ps; done (a ++ b)}
            (ensures-attempt (
              ensures-read_last (Reads-read_listed_proto laws due_timer_entry p)
                (scanned-append
                  (ensures-scan_found kept p (listed_on due_timer_entry p o) (λ x same. same)) next)
                (λ y. scanned-append (ensures-scan_found kept p (err y) (λ x wrong. cc)) next)))

    module _ (laws : Lawful e) where
      ensures-scan_roots :
          (fuel : ℕ) (roots : List LedgerRoot)
          → All (IsLedger asked) roots
          → {o : Objects e} → Kept start o
          → Ensures o (scan_roots fuel now roots) Scanned
      unfolding scan_roots
      ensures-scan_roots fuel [] h kept = ensures-result (ok []) (found [] kept tt)
      ensures-scan_roots fuel (root ∷ roots) (ledger, h) {o} kept =
          let next = λ (o' : Objects e) (k : Kept start o'). ensures-scan_roots fuel roots h k in
          ensures-bind
            {k = λ paths. do
              a ← scan_paths root now paths
              b ← scan_roots fuel now roots
              done (a ++ b)}
            (ensures-walk laws o _ (failed kept)
              (λ paths. scanned-append (ensures-scan_paths laws ledger paths kept) next) fuel
              (root.path ∷ []) [])

  -- `DueTimers` from any objects, with every outcome of its calls. It leaves every timer as it was,
  -- and every object that is the record of something else. If it succeeds, each wake that it gives
  -- passes the check of due timers for the namespace and the time asked for, and holds the timer and
  -- the run in progress that were stored when the scan began.
  pub due_timers-scanned :
      (laws : Lawful e) (direct : Direct e) (fuel : ℕ) (asked : Text) (now : Time) (o : Objects e)
      → Ensures o (due_timers fuel asked now) (Scanned asked now o)
  unfolding due_timers
  due_timers-scanned laws direct fuel asked now o =
      let stop = failed asked now o (Kept-refl o) in
      ensures-reads (Reads-ctx_err laws) stop λ _ _.
        ensures-reads (Reads-lift (require (not (now == 0)) plain)) stop
          λ _ _. ensures-bind (ensures-weaken (ensures-due_roots laws direct o asked) settle)
    where
      sorted :
          (r : Result (List DueTimer)) (o' : Objects e)
          → Scanned asked now o r o'
          → Then (λ due. done (sort_by due_less due)) (Scanned asked now o) r o'
      sorted (err x) o' h = failed asked now o h.kept x
      sorted (ok due) o' h = ensures-result (ok _) (
          found asked now o (sort_by due_less due) h.kept
            (All-sort_by due_less (IsWake asked now o) due (h.wakes due refl)))

      settle :
          (r : Result (List LedgerRoot)) (o' : Objects e)
          → Rooted laws direct o asked r o'
          → Then
              (λ roots. scan_roots fuel now roots >>= λ due. done (sort_by due_less due))
              (Scanned asked now o)
              r
              o'
      settle (err x) o' (same, _) =
          subst (λ z. Scanned asked now o (err x) z) (sym same) (failed asked now o (Kept-refl o) x)
      settle (ok roots) o' (same, all) =
          subst
            (λ z.
              Ensures z (scan_roots fuel now roots >>= λ due. done (sort_by due_less due))
                (Scanned asked now o))
            (sym same)
            (ensures-bind (
              ensures-weaken
                (ensures-scan_roots asked now o laws fuel roots (all roots refl) (Kept-refl o))
                sorted))
