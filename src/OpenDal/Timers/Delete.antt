-- ===== src/OpenDal/Timers/Delete.antt =====
-- `DeleteTimer`: a canceled ledger entry is written and then the canonical point is deleted.
use temporaless.Prelude.{
  ◌≡◌, ◌≢◌, refl, sym, ◌∙◌, ap, subst, Bool, true, false, ◌&&◌, not, Option, none, some, Text,
  Bool-cases, inl, inr, if◌then◌else◌, is_some, arith,
}
use temporaless.Action.{
  and_then-ok, Error, Result, ok, err, done, ◌>>=◌, ◌>>◌, is_corrupt, and_then,
}
use temporaless.Key.{TimerKey, timer, with_defaults, record_path}
use temporaless.Message.{TimerRecord, DueTimerEntry}
use temporaless.Env.{Env, Lawful, with_object}
use temporaless.Env.Ensures.{
  Objects, Ensures, ensures-reads, ensures-bind, ensures-result, ensures-attempt, ensures-read_last,
  Reads-lift, Reads-ctx_err, Reads-is_exist,
}
use temporaless.OpenDal.Due.{prepared_record, is_canceled}
use temporaless.OpenDal.Point.{delete_if_exists}
use temporaless.OpenDal.Delete.{ensures-delete_if_exists}
use temporaless.OpenDal.Ledger.{with_defaults-with_defaults, ensures-put_due_entry}
use temporaless.OpenDal.View.{
  due_on, timer_point_on, timer_on, entry_or_point, optional, get_due_entry_lem,
  get_timer_point_lem,
}
use temporaless.OpenDal.Timers.{
  delete_timer, record_to_cancel, put_tombstone, tombstone, nothing_to_delete, minimal_tombstone,
  point_to_cancel,
}
use temporaless.OpenDal.Timers.Frame.{with_object-same}
use temporaless.OpenDal.Timers.Keys.{
  Owns-with_defaults, record_path-with_defaults, timer_on-with_defaults, due_on-key, point_on-key,
}
use temporaless.OpenDal.Timers.Put.{
  Outcome, Outcome-same, timer_key, entry_written, both_written, never_complete,
}

not_some-none : {A : Type 0} (x : Option A) → not (is_some x) ≡ true → x ≡ none
not_some-none none h = refl
not_some-none (some a) h = cc

canceled_of : (a b : Bool) → (not a && b) ≡ true → b ≡ true
canceled_of a b h = ground arith

absurd_ok : {C : Type 0} → ◌≡◌ {A = Result Bool} (ok true) (ok false) → C
absurd_ok wrong = cc

ok-injective : {a b : Bool} → ◌≡◌ {A = Result Bool} (ok a) (ok b) → a ≡ b
ok-injective same = cc

module _ ⦃e : Env⦄ where
  open e use {Data}

  optional-none :
      {A : Type 0} (f : Data → Result A) (x : Option Data) → optional f x ≡ ok none → x ≡ none
  optional-none f none h = refl
  optional-none f (some d) h = let (a, _, wrong) = and_then-ok (f d) (λ b. ok (some b)) h in cc

  -- An outcome for the key with its defaults is one for the key.
  Outcome-with_defaults :
      {key : TimerKey} {new : Option TimerRecord} {o o' : Objects e} {complete : Type 0}
      → Outcome (with_defaults key) new o complete o'
      → Outcome key new o complete o'
  Outcome-with_defaults {key} {o} {o'} h = record {
    finished = λ c. sym (timer_on-with_defaults key o') ∙ h.finished c;
    atomic = elim h.atomic [
      | inl kept ↦ inl (sym (timer_on-with_defaults key o') ∙ kept ∙ timer_on-with_defaults key o)
      | inr made ↦ inr (sym (timer_on-with_defaults key o') ∙ made)
    ];
    others =
        λ other differ. h.others other (λ same. differ (same ∙ with_defaults-with_defaults key));
    untouched = λ q other. h.untouched q (λ own. other (Owns-with_defaults key own));
  }

  -- How a delete ends; `done false` is given only if there was no timer, and changes nothing.
  pub record Deleted (key : TimerKey) (o : Objects e) (result : Result Bool) (o' : Objects e)
      : Type 0 where
    pub change : Outcome key none o (result ≡ ok true) o'
    pub absent : result ≡ ok false → (timer_on key o ≡ ok none) × (o' ≡ o)

  module _ (laws : Lawful e) (key : TimerKey) (o : Objects e) where
    failed : (x : Error) → Deleted key o (err x) o
    failed x = record { change = Outcome-same never_complete; absent = λ same. cc }

    module _ {P : Result (Option TimerRecord) → Objects e → Type 0}
        (wrong : (x : Error) → P (err x) o)
        (something : (r : TimerRecord) → timer_key r ≡ with_defaults key → P (ok (some r)) o) where
      ensures-corrupt_point : (x : Error) → Ensures o (point_to_cancel key (err x)) P
      unfolding point_to_cancel
      ensures-corrupt_point x = elim (Bool-cases (is_corrupt x)) [
        | inl corrupt ↦ rw corrupt (
            ensures-result (ok (some (minimal_tombstone key)))
              (something (minimal_tombstone key) (with_defaults-with_defaults key)))
        | inr other ↦ rw other (ensures-result (err x) (wrong x))
      ]

      ensures-point_to_cancel :
          (found : Result (Option TimerRecord))
          → timer_point_on key o ≡ found
          → (timer_point_on key o ≡ ok none → P (ok none) o)
          → Ensures o (point_to_cancel key found) P
      unfolding point_to_cancel
      ensures-point_to_cancel (ok none) there nothing = ensures-result (ok none) (nothing there)
      ensures-point_to_cancel (ok (some r)) there nothing =
          ensures-result (ok (some r)) (something r (point_on-key key o there))
      ensures-point_to_cancel (err x) there nothing = ensures-corrupt_point x

      ensures-record_to_cancel :
          (found : Option DueTimerEntry)
          → due_on key o ≡ ok found
          → (timer_point_on key o ≡ ok none → P (ok none) o)
          → Ensures o (record_to_cancel key found) P
      unfolding record_to_cancel
      ensures-record_to_cancel none at nothing = ensures-bind {k = point_to_cancel key} (
          ensures-attempt (
            ensures-read_last (get_timer_point_lem laws key)
              (ensures-point_to_cancel (timer_point_on key o) refl nothing) ensures-corrupt_point))
      ensures-record_to_cancel (some x) at nothing =
          ensures-result (ok (some (prepared_record x)))
            (something (prepared_record x) (due_on-key key o at))

    -- A canceled record leaves no timer, at the key of the call.
    canceled :
        (r : TimerRecord) {o' : Objects e} {result : Result Bool}
        → timer_key r ≡ with_defaults key
        → result ≢ ok false
        → Outcome (timer_key r) none o (result ≡ ok true) o'
        → Deleted key o result o'
    canceled r {o'} {result} same other h = record {
      change = Outcome-with_defaults (subst (λ k. Outcome k none o (result ≡ ok true) o') same h);
      absent = λ wrong. absurd (other wrong);
    }

    ensures-tombstone :
        {path : Text} (r : TimerRecord)
        → record_path timer key ≡ ok path
        → timer_key r ≡ with_defaults key
        → Ensures o (put_tombstone (some r) >> (delete_if_exists path >> done true)) (Deleted key o)
    unfolding put_tombstone
    ensures-tombstone {path} r at same =
        let at' : record_path timer (timer_key (tombstone r)) ≡ ok path =
          ap (record_path timer) same ∙ record_path-with_defaults key ∙ at in
        ensures-bind (
          ensures-bind (
            ensures-put_due_entry laws (tombstone r) failed λ p d shadow made.
              let written : (x : Error) → Deleted key o (err x) (with_object o p (some d)) =
                λ x. canceled r same (λ wrong. cc) (entry_written laws (tombstone r) shadow made) in
              let both : (x : Error)
                  → Deleted key o (err x) (with_object (with_object o p (some d)) path none) =
                λ x.
                  canceled r same (λ wrong. cc)
                    (both_written laws (tombstone r) shadow made none at') in
              (
                ensures-result (ok tt) (
                    ensures-bind (
                      ensures-delete_if_exists laws path written both
                        (λ absent. ensures-result (ok true) (
                          canceled r same (λ wrong. cc)
                            (entry_written laws (tombstone r) shadow made)))
                        (λ b. ensures-result (ok true) (
                          canceled r same (λ wrong. cc)
                            (both_written laws (tombstone r) shadow made none at'))))),
                written,
              )))

    -- The timer of a key without an entry and without a point.
    timer_on-none :
        due_on key o ≡ ok none → timer_point_on key o ≡ ok none → timer_on key o ≡ ok none
    timer_on-none due there = ap (λ x. and_then x (entry_or_point key o)) due ∙ there

    absent_point :
        {path : Text}
        → record_path timer key ≡ ok path
        → o path ≡ none
        → timer_point_on key o ≡ ok none
    absent_point at there = rw (at, and_then, there)

    -- Nothing is deleted where there is no timer.
    nothing_there :
        {path : Text} (found : Option DueTimerEntry)
        → record_path timer key ≡ ok path
        → due_on key o ≡ ok found
        → nothing_to_delete (is_some (o path)) found ≡ true
        → Deleted key o (ok false) o
    nothing_there {path} none at due h = record {
      change = Outcome-same (λ wrong. cc);
      absent = λ _. (timer_on-none due (absent_point at (not_some-none (o path) h)), refl);
    }
    nothing_there {path} (some x) at due h = record {
      change = Outcome-same (λ wrong. cc);
      absent = λ _. (
        ap (λ y. and_then y (entry_or_point key o)) due
            ∙ rw (canceled_of (is_some (o path)) (is_canceled (prepared_record x).status) h),
        refl,
      );
    }

    -- A point that the reads have found missing is missing.
    ensures-no_tombstone :
        {path : Text}
        → record_path timer key ≡ ok path
        → timer_point_on key o ≡ ok none
        → due_on key o ≡ ok none
        → Ensures o (put_tombstone none >> (delete_if_exists path >> done true)) (Deleted key o)
    unfolding put_tombstone
    ensures-no_tombstone {path} at there due =
        let gone : o path ≡ none = optional-none _ (o path) (rw (at, and_then) at there) in
        let kept : with_object o path none ≡ o = with_object-same o path none gone in
        let deleted : Deleted key o (ok true) o = record {
          change = record {
            finished = λ _. timer_on-none due there;
            atomic = inl refl;
            others = λ _ _. refl;
            untouched = λ _ _. refl;
          };
          absent = λ wrong. absurd_ok wrong;
        } in
        ensures-bind {m = done tt} {k = λ _. delete_if_exists path >> done true} (
          ensures-result (ok tt) (
            ensures-bind (
              ensures-delete_if_exists laws path failed
                (λ x. subst (Deleted key o (err x)) (sym kept) (failed x))
                (λ _. ensures-result (ok true) deleted)
                (λ b.
                  ensures-result (ok true) (subst (Deleted key o (ok true)) (sym kept) deleted)))))

    ensures-cancel :
        {path : Text} (found : Option DueTimerEntry)
        → record_path timer key ≡ ok path
        → due_on key o ≡ ok found
        → Ensures o
            (record_to_cancel key found >>= λ r.
              put_tombstone r >> (delete_if_exists path >> done true))
            (Deleted key o)
    unfolding record_to_cancel put_tombstone
    ensures-cancel {path} none at due = ensures-bind (
        ensures-record_to_cancel failed (λ r same. ensures-tombstone r at same) none due
          (λ there. ensures-no_tombstone at there due))
    ensures-cancel {path} (some x) at due =
        ensures-bind {k = λ r. put_tombstone r >> (delete_if_exists path >> done true)} (
          ensures-result (ok (some (prepared_record x)))
            (ensures-tombstone (prepared_record x) at (due_on-key key o due)))

    delete_branch :
        {path : Text} (exists : Bool) (found : Option DueTimerEntry)
        → record_path timer key ≡ ok path
        → is_some (o path) ≡ exists
        → due_on key o ≡ ok found
        → Ensures o
            (if nothing_to_delete exists found
              then done false
              else (record_to_cancel key found >>= λ r.
                  put_tombstone r >> (delete_if_exists path >> done true)))
            (Deleted key o)
    delete_branch {path} exists found at there due =
        elim (Bool-cases (nothing_to_delete exists found)) [
          | inl nothing ↦ rw nothing (
              ensures-result (ok false)
                (nothing_there found at due (ap (λ b. nothing_to_delete b found) there ∙ nothing)))
          | inr something ↦ rw something (ensures-cancel found at due)
        ]

    -- `DeleteTimer` from any objects, with every outcome of its calls. If it answers `true` the timer
    -- is gone, and if it answers `false` there was none and no object has changed. If it fails, at
    -- whichever of its calls, the timer is what it was or gone. The timers of all other keys stay as
    -- they were, and so does every object but the ledger entry and the canonical point of the key.
    pub delete_timer-atomic : Ensures o (delete_timer key) (Deleted key o)
    unfolding delete_timer
    delete_timer-atomic = ensures-reads (Reads-ctx_err laws) failed λ _ _.
        ensures-reads (Reads-lift (record_path timer key)) failed λ path at.
          ensures-reads (Reads-is_exist laws path) failed λ exists there.
            ensures-reads (get_due_entry_lem laws key) failed
              λ found due. delete_branch exists found at (ok-injective there) due
