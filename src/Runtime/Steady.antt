-- ===== src/Runtime/Steady.antt =====
-- Acknowledging consumed timers leaves the timer alone that is excepted.
use temporaless.Prelude.{
  ◌≡◌, refl, sym, ap, ◌∙◌, subst, Bool, true, false, not, ◌||◌, Option, none, some, [], ◌∷◌, Text,
  text_eq, if◌then◌else◌, Bool-cases, inl, inr, sort_by, All-sort_by,
}
use temporaless.Action.{Result, ok, Action, done, lift, attempt, require, timer_conflict}
use temporaless.Key.{TimerKey, with_defaults, key_eq}
use temporaless.Message.{TimerRecord}
use temporaless.Store.{timers, key_of}
use temporaless.Cache.Laws.{other_record}
use temporaless.Cache.Apart.{key_other_id}
use temporaless.Runtime.TimerDetails.{Calendar, is_sleep, is_poll, is_settled, status_of}
use temporaless.Runtime.Waits.{
  Workflow, Running, Consumed, stored, timer_key_of, as_fired, forget_consumed_wake_timer, by_id,
  acknowledge_found, acknowledge_one, acknowledge_each, acknowledge_consumed_wake_timers,
}
use temporaless.Runtime.Laws.{WaitLaws, Own, ends-bind}

module _ {W : Type 0} ⦃n : Calendar⦄ (workflow : Workflow W) (l : WaitLaws workflow)
    (except : Text) where
  -- The excepted timer, as readers find it.
  abbrev pub excepted : W → Result (Option TimerRecord)
  excepted w = l.laws.view w timers (timer_key_of workflow except)

  abbrev pub Steady : {A : Type 0} → Running workflow → Result A × Running workflow → Type 0
  Steady s x = excepted x.1.0 ≡ excepted s.0

  not_excepted :
      (id : Text) (key k : TimerKey)
      → key ≡ timer_key_of workflow id
      → with_defaults k ≡ with_defaults key
      → text_eq id except ≡ false
      → other_record timers k timers (timer_key_of workflow except) ≡ true
  not_excepted id key k own same other =
      let named : key.id ≡ id = ap (λ x. x.id) own in
      subst (λ z. not (key_eq z (with_defaults (timer_key_of workflow except))) ≡ true) (sym same)
        (key_other_id key (timer_key_of workflow except) (rw (named, other)))

  Steady-acknowledge_found :
      (id : Text) (key : TimerKey) (r : TimerRecord) (s : Running workflow)
      → key ≡ timer_key_of workflow id
      → with_defaults (key_of timers (some r)) ≡ with_defaults key
      → text_eq id except ≡ false
      → Steady s (acknowledge_found workflow id (some r) s)
  unfolding acknowledge_found
  Steady-acknowledge_found id key r s own same other =
      ends-bind (Steady s) _
        (lift (require (is_sleep r.timer_kind || is_poll r.timer_kind) timer_conflict) s)
        (λ e _. refl)
        λ _ _.
          let (t, w') = workflow.now s.0 in
          let put_fired =
            stored workflow (workflow.store.put timers (some (as_fired workflow r t))) in
          let moved : excepted (put_fired (w', s.1)).1.0 ≡ excepted s.0 =
            l.laws.put_others timers (some (as_fired workflow r t)) w' timers
              (timer_key_of workflow except)
              (not_excepted id key (key_of timers (some r)) own same other)
            ∙ l.now_quiet s.0 timers (timer_key_of workflow except) in
          ends-bind (Steady s) _ (put_fired (w', s.1)) (λ e _. moved) (λ _ _. moved)

  Steady-answered :
      (id : Text) (key : TimerKey) (found_record : Option TimerRecord) (found : Bool)
      (s : Running workflow)
      → key ≡ timer_key_of workflow id
      → ((r : TimerRecord)
          → found_record ≡ some r
          → with_defaults (key_of timers (some r)) ≡ with_defaults key)
      → text_eq id except ≡ false
      → Steady s (
          (if not found || is_settled (status_of found_record)
              then forget_consumed_wake_timer workflow id
              else acknowledge_found workflow id found_record)
            s)
  unfolding acknowledge_found
  Steady-answered id key none true s own same other = refl
  Steady-answered id key none false s own same other = refl
  Steady-answered id key (some r) false s own same other = refl
  Steady-answered id key (some r) true s own same other = elim (Bool-cases (is_settled r.status)) [
    | inl settled ↦ rw settled
    | inr waiting ↦ rw waiting (Steady-acknowledge_found id key r s own (same r refl) other)
  ]

  Steady-acknowledge_one :
      (id : Text) (key : TimerKey) (s : Running workflow)
      → key ≡ timer_key_of workflow id
      → text_eq id except ≡ false
      → Steady s (acknowledge_one workflow id key s)
  unfolding acknowledge_one
  Steady-acknowledge_one id key s own other =
      let asked = stored workflow (workflow.store.get timers key) s in
      let quiet = l.laws.get_quiet timers key s.0 timers (timer_key_of workflow except) in
      ends-bind (Steady s) _ asked (λ e _. quiet)
        λ a got.
          Steady-answered id key a.0 a.1 asked.1 own
            (λ r there. l.get_own key s.0 (got ∙ ap (λ x. ok (x, a.1)) there)) other
          ∙ quiet

  attempt_state :
      {A : Type 0} (m : Action (Running workflow) A) (s : Running workflow)
      → Steady s (m s)
      → Steady s (attempt m s)
  attempt_state m s h = h

  Steady-acknowledge_each :
      (entries : Consumed) (s : Running workflow)
      → Own workflow entries
      → Steady s (acknowledge_each workflow except entries s)
  unfolding acknowledge_each
  Steady-acknowledge_each [] s own = refl
  Steady-acknowledge_each ((id, key) ∷ rest) s own =
      let m = if text_eq id except then done tt else acknowledge_one workflow id key in
      let first : excepted (m s).1.0 ≡ excepted s.0 = elim (Bool-cases (text_eq id except)) [
        | inl same ↦ rw same
        | inr other ↦ rw other (Steady-acknowledge_one id key s own.0 other)
      ] in
      Steady-acknowledge_each rest (m s).1 own.1 ∙ first

  pub Steady-acknowledge :
      (s : Running workflow)
      → Own workflow s.1
      → Steady s (acknowledge_consumed_wake_timers workflow except s)
  unfolding acknowledge_consumed_wake_timers
  Steady-acknowledge s own =
      Steady-acknowledge_each (sort_by (by_id workflow) s.1) s
        (All-sort_by (by_id workflow) (λ entry. entry.1 ≡ timer_key_of workflow entry.0) s.1 own)

  acknowledge_each-ok :
      (entries : Consumed) (s : Running workflow)
      → (acknowledge_each workflow except entries s).0 ≡ ok tt
  unfolding acknowledge_each
  acknowledge_each-ok [] s = refl
  acknowledge_each-ok ((id, key) ∷ rest) s =
      acknowledge_each-ok rest
        ((if text_eq id except then done tt else acknowledge_one workflow id key) s).1

  pub acknowledge-ok :
      (s : Running workflow) → (acknowledge_consumed_wake_timers workflow except s).0 ≡ ok tt
  unfolding acknowledge_consumed_wake_timers
  acknowledge-ok s = acknowledge_each-ok (sort_by (by_id workflow) s.1) s
