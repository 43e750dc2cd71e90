-- ===== src/OpenDal/Timers/Put.antt =====
-- `PutTimer`: the ledger entry is written and then the canonical point.
use temporaless.Prelude.{◌≡◌, ◌≢◌, refl, sym, subst, ◌∙◌, ◌⊎◌, inl, inr, Option, some, Text}
use temporaless.Action.{Error, ok, err}
use temporaless.Key.{TimerKey, timer, key_from_proto, with_defaults, record_path, record_dir_path}
use temporaless.Message.{TimerRecord, timer_record, due_timer_entry}
use temporaless.Env.{Env, Lawful, with_object}
use temporaless.Env.Ensures.{
  Objects, Ensures, ensures-reads, ensures-bind, ensures-write, Reads-lift, Reads-create_dir,
  Reads-ctx_err,
}
use temporaless.Validate.{validate_timer_record}
use temporaless.OpenDal.Due.{due_entry}
use temporaless.OpenDal.Ledger.{IsShadow, ensures-put_due_entry}
use temporaless.OpenDal.View.{timer_on}
use temporaless.OpenDal.Timers.{shown, put_timer}
use temporaless.OpenDal.Timers.Frame.{
  entry, point, with_object-ne, with_object_self, Owns, entry-ne-point, timer_on-shadow,
  timer_on-other,
}

-- The key of a record, with its defaults.
abbrev pub timer_key : TimerRecord → TimerKey
timer_key r = with_defaults (key_from_proto r.key)

module _ ⦃e : Env⦄ where
  open e use {Data, marshal}

  -- The objects that are not the timer's stay as they were.
  abbrev pub Untouched : TimerKey → Objects e → Objects e → Type 0
  Untouched key o o' = (q : Text) → (Owns key q → ⊥) → o' q ≡ o q

  Untouched-with_object :
      {key : TimerKey} (o : Objects e) {p : Text} (v : Option Data)
      → Owns key p
      → Untouched key o (with_object o p v)
  Untouched-with_object {key} o {p} v own q other =
      with_object-ne o p q v (λ same. other (subst (Owns key) same own))

  -- The end of a change of one timer: `new` is what a complete change shows.
  pub record Outcome (key : TimerKey) (new : Option TimerRecord) (o : Objects e) (complete : Type 0)
      (o' : Objects e) : Type 0 where
    pub finished : complete → timer_on key o' ≡ ok new
    pub atomic : (timer_on key o' ≡ timer_on key o) ⊎ (timer_on key o' ≡ ok new)
    pub others :
        (other : TimerKey)
        → with_defaults other ≢ with_defaults key
        → timer_on other o' ≡ timer_on other o
    pub untouched : Untouched key o o'

  -- A change that has not begun.
  pub Outcome-same :
      {key : TimerKey} {new : Option TimerRecord} {o : Objects e} {complete : Type 0}
      → (complete → ⊥)
      → Outcome key new o complete o
  Outcome-same never = record {
    finished = λ c. absurd (never c);
    atomic = inl refl;
    others = λ other differ. refl;
    untouched = λ q other. refl;
  }

  pub Outcome-new :
      {key : TimerKey} {new : Option TimerRecord} {o o' : Objects e} {complete : Type 0}
      → timer_on key o' ≡ ok new
      → ((other : TimerKey)
          → with_defaults other ≢ with_defaults key
          → timer_on other o' ≡ timer_on other o)
      → Untouched key o o'
      → Outcome key new o complete o'
  Outcome-new new others untouched = record {
    finished = λ c. new;
    atomic = inr new;
    others = others;
    untouched = untouched;
  }

  module _ (laws : Lawful e) (r : TimerRecord) {o : Objects e} {p : Text} {d : Data}
      (shadow : IsShadow (timer_key r) r p)
      (made : marshal due_timer_entry (due_entry (timer_key r) r) ≡ ok d) where
    pub entry_written :
        {complete : Type 0} → Outcome (timer_key r) (shown r) o complete (with_object o p (some d))
    entry_written =
        Outcome-new
          (timer_on-shadow laws (with_object o p (some d)) shadow made
            (with_object_self o p (some d)))
          (λ other differ. timer_on-other (timer_key r) other o p (some d) (entry shadow.at) differ)
          (Untouched-with_object o (some d) (entry shadow.at))

    pub both_written :
        {complete : Type 0} {q : Text} (v : Option Data)
        → record_path timer (timer_key r) ≡ ok q
        → Outcome (timer_key r) (shown r) o complete (with_object (with_object o p (some d)) q v)
    both_written {q} v at =
        let o' = with_object o p (some d) in
        let apart = entry-ne-point (timer_key r) shadow.at at in
        Outcome-new
          (timer_on-shadow laws (with_object o' q v) shadow made
            (with_object-ne o' q p v (λ same. apart (sym same)) ∙ with_object_self o p (some d)))
          (λ other differ.
            timer_on-other (timer_key r) other o' q v (point at) differ
            ∙ timer_on-other (timer_key r) other o p (some d) (entry shadow.at) differ)
          (λ x other.
            Untouched-with_object o' v (point at) x other
            ∙ Untouched-with_object o (some d) (entry shadow.at) x other)

  pub never_complete : {A : Type 0} {x : Error} {a : A} → err x ≡ ok a → ⊥
  never_complete same = cc

  -- `PutTimer` from any objects, with every outcome of its calls. If it succeeds the timer is the
  -- given record, or none if the record is canceled. If it fails, at whichever of its calls, the
  -- timer is what it was or what it was to be. The timers of all other keys stay as they were, and
  -- so does every object but the ledger entry and the canonical point of the key.
  pub put_timer-atomic :
      (laws : Lawful e) (r : TimerRecord) (o : Objects e)
      → Ensures o
          (put_timer (some r))
          (λ result o'. Outcome (timer_key r) (shown r) o (result ≡ ok tt) o')
  unfolding put_timer
  put_timer-atomic laws r o =
      let key = timer_key r in
      let failed : (x : Error) → Outcome key (shown r) o (err x ≡ ok tt) o =
        λ x. Outcome-same never_complete in
      ensures-reads (Reads-ctx_err laws) failed λ _ _.
        ensures-reads (Reads-lift (validate_timer_record (some r) key)) failed λ _ _.
          ensures-reads (Reads-lift (record_path timer key)) failed λ q at.
            ensures-reads (Reads-lift (record_dir_path timer key)) failed λ dir _.
              ensures-reads (Reads-lift (marshal timer_record r)) failed λ body _.
                ensures-reads (Reads-create_dir laws dir) failed λ _ _.
                  ensures-reads (Reads-ctx_err laws) failed λ _ _. ensures-bind (
                    ensures-put_due_entry laws r failed λ p d shadow made. (
                      ensures-write laws q body (both_written laws r shadow made (some body) at)
                          (λ x. entry_written laws r shadow made)
                          (λ x. both_written laws r shadow made (some body) at),
                      λ x. entry_written laws r shadow made,
                    ))
