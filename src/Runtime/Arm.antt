-- ===== src/Runtime/Arm.antt =====
-- Where `ArmPoll` gives a wake time, the store holds the timer that wakes the run then.
use temporaless.Prelude.{
  ◌≡◌, refl, sym, ap, ◌∙◌, Bool, true, false, ◌⊎◌, inl, inr, Option, none, some, Text,
  if◌then◌else◌, Bool-cases, ltb,
}
use temporaless.Action.{
  Error, Result, ok, err, lift, proceed, require, plain, invalid_key, joined, timer_conflict, ◌>>◌,
  done, and_then,
}
use temporaless.Key.{timer, validate_key, with_defaults, valid_id}
use temporaless.Message.{ℤ, Time, TimerRecord, TimerStatus, TimerKind, Duration}
use temporaless.Retry.{is_positive}
use temporaless.Store.{timers, key_of}
use temporaless.Runtime.Errors.{wraps, is_conflict, workflow_infrastructure_error}
use temporaless.Runtime.TimerDetails.{
  Calendar, PollOptions, poll_timer_details, poll_interval, interval_of, is_poll,
}
use temporaless.Runtime.Waits.{
  Workflow, Running, timer_key_of, new_timer, after, as_infrastructure,
  acknowledge_consumed_wake_timers, get_timer_authoritative,
}
use temporaless.Runtime.Polls.{
  rearmed, arm_judged, arm_verified, arm_written, arm_with, arm_found, arm_on, arm_poll,
}
use temporaless.Runtime.Checked.{
  Passed, timer_details_sound, timer_details-conflict, infrastructure-kind, joined-conflict,
}
use temporaless.Runtime.Laws.{WaitLaws, Own, ends-bind}
use temporaless.Runtime.Steady.{Steady-acknowledge, acknowledge-ok}
use temporaless.Runtime.Sleep.{IsOther, IsScheduled, timer_in, require-IsOther}

plain_error : {e : Error} → ◌≡◌ {A = Result ℤ} (err plain) (err e) → IsOther e
plain_error {e} h = let same : plain ≡ e = cc in inl (sym same)

chosen-IsOther :
    (b : Bool) (d : ℤ) {e : Error}
    → ◌≡◌ {A = Result ℤ} (if b then ok d else err plain) (err e)
    → IsOther e
chosen-IsOther true d h = cc
chosen-IsOther false d h = plain_error h

interval_of-IsOther :
    ⦃n : Calendar⦄ (interval : Option Duration) {e : Error}
    → interval_of interval ≡ err e
    → IsOther e
interval_of-IsOther none h = plain_error h
interval_of-IsOther (some d) h = chosen-IsOther _ _ h

after_check-IsOther :
    (b : Bool) (r : Result ℤ) {e : Error}
    → (r ≡ err e → IsOther e)
    → and_then (require b plain) (λ _. r) ≡ err e
    → IsOther e
after_check-IsOther true r rest h = rest h
after_check-IsOther false r rest h = plain_error h

interval-IsOther :
    ⦃n : Calendar⦄ (options : PollOptions) {e : Error} → poll_interval options ≡ err e → IsOther e
unfolding poll_interval
interval-IsOther options h =
    after_check-IsOther (valid_id options.timer_id) (interval_of options.interval)
      (interval_of-IsOther options.interval) h

module _ {W : Type 0} ⦃n : Calendar⦄ (workflow : Workflow W) (l : WaitLaws workflow)
    (timer_id : Text) where
  -- How `ArmPoll` can end.
  abbrev pub Armed : Result Time × Running workflow → Type 0
  Armed x =
      ((t : Time) × (x.0 ≡ ok t) × IsScheduled workflow l timer_id x.1.0 t)
      ⊎ ((e : Error) × (x.0 ≡ err e) × IsOther e)

  other : (e : Error) (s : Running workflow) → IsOther e → Armed (err e, s)
  other e s h = inr (e, refl, h)

  other_infrastructure :
      (x : Error) (s : Running workflow) → Armed (err (workflow_infrastructure_error x), s)
  other_infrastructure x s =
      other (workflow_infrastructure_error x) s (inr (inr (infrastructure-kind x)))

  abbrev Checks : Option TimerRecord → Result (Time × TimerStatus) → Type 0
  Checks found d =
      ((at : Time) (status : TimerStatus)
        → d ≡ ok (at, status)
        → Passed is_poll is_positive found at status)
      × ((e : Error) → d ≡ err e → wraps is_conflict e ≡ true)

  details-Checks :
      (found : Option TimerRecord) (interval : ℤ)
      → Checks found (poll_timer_details found (timer_key_of workflow timer_id) interval)
  unfolding poll_timer_details
  details-Checks found interval = (
    timer_details_sound is_poll is_positive found (timer_key_of workflow timer_id) interval,
    timer_details-conflict is_poll is_positive found (timer_key_of workflow timer_id) interval,
  )

  Armed-acknowledged :
      (t : Time) (s : Running workflow)
      → Own workflow s.1
      → IsScheduled workflow l timer_id s.0 t
      → Armed ((do acknowledge_consumed_wake_timers workflow timer_id; done t) s)
  Armed-acknowledged t s own (r, there, status, fires) =
      let x = acknowledge_consumed_wake_timers workflow timer_id s in
      let kept = Steady-acknowledge workflow l timer_id s own in
      ends-bind Armed (λ _. done t) x
        (λ e wrong.
          let both : err e ≡ ok tt = sym wrong ∙ acknowledge-ok workflow l timer_id s in cc)
        (λ _ _. inl (t, refl, (r, kept ∙ there, status, fires)))

  Armed-judged :
      (x : Error) (found : Option TimerRecord) (d : Result (Time × TimerStatus))
      (s : Running workflow)
      → Checks found d
      → Armed (arm_judged workflow x d s)
  unfolding arm_judged
  Armed-judged x found (err z) s (_, conflict) =
      let infra = workflow_infrastructure_error x in
      other (joined z infra) s (inr (inr (inl (joined-conflict z infra (conflict z refl)))))
  Armed-judged x found (ok (at, TimerStatus.scheduled)) s checks = other_infrastructure x s
  Armed-judged x found (ok (at, TimerStatus.fired)) s checks =
      other (joined timer_conflict (workflow_infrastructure_error x)) s (inr (inr (inl refl)))
  Armed-judged x found (ok (at, TimerStatus.canceled)) s checks =
      other (joined timer_conflict (workflow_infrastructure_error x)) s (inr (inr (inl refl)))
  Armed-judged x found (ok (at, TimerStatus.unspecified)) s checks =
      other (joined timer_conflict (workflow_infrastructure_error x)) s (inr (inr (inl refl)))
  Armed-judged x found (ok (at, TimerStatus.unknown k)) s checks =
      other (joined timer_conflict (workflow_infrastructure_error x)) s (inr (inr (inl refl)))

  Armed-verified :
      (interval : ℤ) (x : Error) (answer : Result (Option TimerRecord × Bool))
      (s : Running workflow)
      → Armed (arm_verified workflow (timer_key_of workflow timer_id) interval x answer s)
  unfolding arm_verified
  Armed-verified interval x (err y) s = other_infrastructure (joined x y) s
  Armed-verified interval x (ok (r, false)) s = other_infrastructure x s
  Armed-verified interval x (ok (found, true)) s =
      Armed-judged x found (poll_timer_details found (timer_key_of workflow timer_id) interval) s
        (details-Checks found interval)

  Armed-written :
      (interval : ℤ) (t : Time) (result : Result (Unit {0})) (s : Running workflow)
      → Own workflow s.1
      → ((u : Unit) → result ≡ ok u → IsScheduled workflow l timer_id s.0 (after t interval))
      → Armed (arm_written workflow timer_id (timer_key_of workflow timer_id) interval t result s)
  unfolding arm_written
  Armed-written interval t (ok u) s own there =
      Armed-acknowledged (after t interval) s own (there u refl)
  Armed-written interval t (err x) s own there =
      let answer = get_timer_authoritative workflow (timer_key_of workflow timer_id) s.0 in
      Armed-verified interval x answer.0 (answer.1, s.1)

  Armed-with :
      (interval : ℤ) (t : Time) (r : TimerRecord) (s : Running workflow)
      → Own workflow s.1
      → with_defaults (key_of timers (some r)) ≡ with_defaults (timer_key_of workflow timer_id)
      → Armed (arm_with workflow timer_id (timer_key_of workflow timer_id) interval t r s)
  unfolding arm_with
  Armed-with interval t r s own same =
      let r' = rearmed workflow r (after t interval) in
      let write = workflow.store.put timers (some r') s.0 in
      Armed-written interval t write.0 (write.1, s.1) own
        (λ u answered. (
          r',
          l.view_defaults write.1 (timer_key_of workflow timer_id) (key_of timers (some r))
                (sym same)
              ∙ l.laws.put_view timers (some r') s.0 answered refl,
          refl,
          l.as_time-new_timestamp (after t interval),
        ))

  Armed-found :
      (interval : ℤ) (t : Time) (found : Option TimerRecord) (d : Result (Time × TimerStatus))
      (s : Running workflow)
      → Own workflow s.1
      → Checks found d
      → ((r : TimerRecord)
          → found ≡ some r
          → (timer_in workflow l timer_id s.0 ≡ ok (some r))
            × (with_defaults (key_of timers (some r))
                ≡ with_defaults (timer_key_of workflow timer_id)))
      → Armed (arm_found workflow timer_id (timer_key_of workflow timer_id) interval t found d s)
  unfolding arm_found
  Armed-found interval t found (err e) s own (_, conflict) there =
      other e s (inr (inr (inl (conflict e refl))))
  Armed-found interval t none (ok d) s own checks there =
      other timer_conflict s (inr (inr (inl refl)))
  Armed-found interval t (some r) (ok (at, TimerStatus.canceled)) s own checks there =
      other timer_conflict s (inr (inr (inl refl)))
  Armed-found interval t (some r) (ok (at, TimerStatus.scheduled)) s own (passed, _) there =
      let (held, own_key) = there r refl in
      let (r', same, status, fires, _) = passed at TimerStatus.scheduled refl in
      elim (Bool-cases (ltb t at)) [
        | inl early ↦ rw early (Armed-acknowledged at s own (r', held ∙ ap ok same, status, fires))
        | inr due ↦ rw due (Armed-with interval t r s own own_key)
      ]
  Armed-found interval t (some r) (ok (at, TimerStatus.fired)) s own checks there =
      Armed-with interval t r s own (there r refl).1
  Armed-found interval t (some r) (ok (at, TimerStatus.unspecified)) s own checks there =
      Armed-with interval t r s own (there r refl).1
  Armed-found interval t (some r) (ok (at, TimerStatus.unknown k)) s own checks there =
      Armed-with interval t r s own (there r refl).1

  Armed-answered :
      (interval : ℤ) (t : Time) (answer : Result (Option TimerRecord × Bool)) (s : Running workflow)
      → Own workflow s.1
      → ((r : TimerRecord)
          → answer ≡ ok (some r, true)
          → (timer_in workflow l timer_id s.0 ≡ ok (some r))
            × (with_defaults (key_of timers (some r))
                ≡ with_defaults (timer_key_of workflow timer_id)))
      → Armed (
          proceed
            (arm_on workflow timer_id (timer_key_of workflow timer_id) interval t)
            (as_infrastructure workflow answer, s))
  unfolding arm_on
  Armed-answered interval t (err x) s own there = other_infrastructure x s
  Armed-answered interval t (ok (found, true)) s own there =
      Armed-found interval t found
        (poll_timer_details found (timer_key_of workflow timer_id) interval) s own
        (details-Checks found interval) (λ r same. there r (ap (λ z. ok (z, true)) same))
  Armed-answered interval t (ok (found, false)) s own there =
      Armed-with interval t
        (new_timer workflow TimerKind.poll (timer_key_of workflow timer_id) interval t) s own refl

-- However `ArmPoll` ends, at whichever of its calls: it gives a wake time and the store holds the
-- timer of the options as SCHEDULED for that time, or it fails with an error of its arguments, with
-- a conflict or a corrupt record, or with an infrastructure error.
pub arm_poll-Armed :
    {W : Type 0} ⦃n : Calendar⦄ (workflow : Workflow W) (l : WaitLaws workflow)
    (options : PollOptions) (s : Running workflow)
    → Own workflow s.1
    → Armed workflow l options.timer_id (arm_poll workflow options s)
unfolding arm_poll validate_key
arm_poll-Armed workflow l options s own =
    let key = timer_key_of workflow options.timer_id in
    let Ends = Armed workflow l options.timer_id in
    ends-bind Ends _ (lift (poll_interval options) s)
      (λ e h. inr (e, refl, interval-IsOther options h))
      λ interval _.
        ends-bind Ends _ (lift (validate_key timer key) s)
          (λ e h. inr (e, refl, require-IsOther _ invalid_key (inr (inl refl)) h))
          λ _ _.
            let (t, w1) = workflow.now s.0 in
            let answer = workflow.store.get timers key w1 in
            Armed-answered workflow l options.timer_id interval t answer.0 (answer.1, s.1) own
              (λ r same. (
                l.laws.get_quiet timers key w1 timers key ∙ l.laws.get_view timers key w1 same refl,
                l.get_own key w1 same,
              ))
