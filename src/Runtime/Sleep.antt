-- ===== src/Runtime/Sleep.antt =====
-- Where `Sleep` leaves the run waiting, the store holds the timer that wakes it.
use temporaless.Prelude.{
  ◌≡◌, refl, sym, ap, ◌∙◌, subst, Bool, true, false, not, ◌⊎◌, inl, inr, Option, some, Text,
  text_eq_refl, lookup, insert, lookup-insert, Bool-cases, ltb,
}
use temporaless.Action.{
  Error, Result, ok, err, lift, proceed, require, plain, invalid_key, joined, timer_conflict,
  timer_pending,
}
use temporaless.Key.{timer, validate_key}
use temporaless.Message.{ℤ, Time, TimerRecord, TimerStatus, TimerKind}
use temporaless.Retry.{is_negative}
use temporaless.Store.{timers}
use temporaless.Runtime.Errors.{
  wraps, is_conflict, is_infrastructure, workflow_infrastructure_error,
}
use temporaless.Runtime.TimerDetails.{Calendar, sleep_timer_details, is_sleep, fire_time_of}
use temporaless.Runtime.Waits.{
  Workflow, Running, Consumed, timer_key_of, new_timer, acknowledge_consumed_wake_timers,
  pending_or_consumed, sleep_found, sleep_verified, sleep_judged, sleep_written, sleep_on, sleep,
  after, get_timer_authoritative, as_infrastructure,
}
use temporaless.Runtime.Checked.{
  Passed, timer_details_sound, timer_details-conflict, infrastructure-kind, joined-conflict,
  NamesNoWait, joined-NamesNoWait, infrastructure-NamesNoWait, timer_details-NamesNoWait,
}
use temporaless.Runtime.Laws.{WaitLaws, StoreErrors, Own, ends-bind}
use temporaless.Runtime.Steady.{Steady-acknowledge, acknowledge-ok}

-- The error of a wait for the timer, alone or with an error of the write of the timer, which names
-- no wait.
abbrev pub IsPendingAt : Text → Time → Error → Type 0
IsPendingAt id t e =
    (e ≡ timer_pending id t) ⊎ ((x : Error) × (e ≡ joined (timer_pending id t) x) × NamesNoWait x)

-- An error of the arguments, a conflict, or an error of the infrastructure.
abbrev pub IsOther : Error → Type 0
IsOther e =
    (e ≡ plain)
    ⊎ (e ≡ invalid_key)
    ⊎ (wraps is_conflict e ≡ true)
    ⊎ (wraps is_infrastructure e ≡ true)

pub require-IsOther :
    (b : Bool) (e : Error) {x : Error} → IsOther e → require b e ≡ err x → IsOther x
require-IsOther true e is h = cc
require-IsOther false e {x} is h = let same : e ≡ x = cc in subst IsOther same is

require-NamesNoWait :
    (b : Bool) (e : Error) {x : Error} → NamesNoWait e → require b e ≡ err x → NamesNoWait x
require-NamesNoWait true e quiet h = cc
require-NamesNoWait false e {x} quiet h = let same : e ≡ x = cc in subst NamesNoWait same quiet

module _ {W : Type 0} ⦃n : Calendar⦄ (workflow : Workflow W) (l : WaitLaws workflow)
    (timer_id : Text) where
  -- What readers find of the timer.
  abbrev pub timer_in : W → Result (Option TimerRecord)
  timer_in w = l.laws.view w timers (timer_key_of workflow timer_id)

  abbrev pub IsScheduled : W → Time → Type 0
  IsScheduled w t =
      (r : TimerRecord) × (timer_in w ≡ ok (some r))
      × (r.status ≡ TimerStatus.scheduled)
      × (fire_time_of r ≡ t)

  abbrev pub IsFired : W → Type 0
  IsFired w = (r : TimerRecord) × (timer_in w ≡ ok (some r)) × (r.status ≡ TimerStatus.fired)

  abbrev pub IsRegistered : Consumed → Type 0
  IsRegistered consumed = lookup timer_id consumed ≡ some (timer_key_of workflow timer_id)

  -- How `Sleep` can end.
  abbrev pub Slept : Result (Unit {0}) × Running workflow → Type 0
  Slept x =
      ((x.0 ≡ ok tt) × (IsFired x.1.0 ⊎ ((t : Time) × IsScheduled x.1.0 t × IsRegistered x.1.1)))
      ⊎ ((e : Error) × (x.0 ≡ err e)
          × (((t : Time) × IsPendingAt timer_id t e × IsScheduled x.1.0 t)
              ⊎ (IsOther e × NamesNoWait e)))

  other : (e : Error) (s : Running workflow) → IsOther e → NamesNoWait e → Slept (err e, s)
  other e s h quiet = inr (e, refl, inr (h, quiet))

  other_infrastructure :
      (x : Error) (s : Running workflow)
      → NamesNoWait x
      → Slept (err (workflow_infrastructure_error x), s)
  other_infrastructure x s quiet =
      other (workflow_infrastructure_error x) s (inr (inr (infrastructure-kind x)))
        (infrastructure-NamesNoWait x quiet)

  -- A conflict, which names no wait.
  abbrev IsConflict : Error → Type 0
  IsConflict e = (wraps is_conflict e ≡ true) × NamesNoWait e

  Slept-pending_or_consumed :
      (t fire_at : Time) (s : Running workflow)
      → Own workflow s.1
      → IsScheduled s.0 fire_at
      → Slept (pending_or_consumed workflow timer_id (timer_key_of workflow timer_id) t fire_at s)
  unfolding pending_or_consumed
  Slept-pending_or_consumed t fire_at s own (r, there, status, fires) =
      let x = acknowledge_consumed_wake_timers workflow timer_id s in
      let kept : IsScheduled x.1.0 fire_at =
        (r, Steady-acknowledge workflow l timer_id s own ∙ there, status, fires) in
      ends-bind Slept _ x
        (λ e wrong.
          let both : err e ≡ ok tt = sym wrong ∙ acknowledge-ok workflow l timer_id s in cc)
        λ _ _. elim (Bool-cases (ltb t fire_at)) [
          | inl early ↦
              rw early (inr (timer_pending timer_id fire_at, refl, inl (fire_at, inl refl, kept)))
          | inr due ↦ rw due (inl (refl, inr (fire_at, kept, registered x.1.1)))
        ]
    where
      registered :
          (consumed : Consumed)
          → IsRegistered (insert timer_id (timer_key_of workflow timer_id) consumed)
      registered consumed = rw (
        lookup-insert timer_id timer_id (timer_key_of workflow timer_id) consumed,
        text_eq_refl timer_id,
      )

  Slept-found :
      (t : Time) (found : Option TimerRecord) (d : Result (Time × TimerStatus))
      (s : Running workflow)
      → Own workflow s.1
      → ((r : TimerRecord) → found ≡ some r → timer_in s.0 ≡ ok (some r))
      → ((at : Time) (status : TimerStatus)
          → d ≡ ok (at, status)
          → Passed is_sleep (λ x. not (is_negative x)) found at status)
      → ((e : Error) → d ≡ err e → IsConflict e)
      → Slept (sleep_found workflow timer_id (timer_key_of workflow timer_id) t d s)
  unfolding sleep_found
  Slept-found t found (err e) s own there passed conflict =
      other e s (inr (inr (inl (conflict e refl).0))) (conflict e refl).1
  Slept-found t found (ok (at, TimerStatus.fired)) s own there passed conflict =
      let (r, same, status, _, _) = passed at TimerStatus.fired refl in
      inl (refl, inl (r, there r same, status))
  Slept-found t found (ok (at, TimerStatus.canceled)) s own there passed conflict =
      other timer_conflict s (inr (inr (inl refl))) refl
  Slept-found t found (ok (at, TimerStatus.scheduled)) s own there passed conflict =
      let (r, same, status, fires, _) = passed at TimerStatus.scheduled refl in
      Slept-pending_or_consumed t at s own (r, there r same, status, fires)
  Slept-found t found (ok (at, TimerStatus.unspecified)) s own there passed conflict =
      let (r, same, status, fires, wrong) = passed at TimerStatus.unspecified refl in cc
  Slept-found t found (ok (at, TimerStatus.unknown k)) s own there passed conflict =
      let (r, same, status, fires, wrong) = passed at (TimerStatus.unknown k) refl in cc

  details-Passed :
      (found : Option TimerRecord) (duration at : _) (status : TimerStatus)
      → sleep_timer_details found (timer_key_of workflow timer_id) duration ≡ ok (at, status)
      → Passed is_sleep (λ x. not (is_negative x)) found at status
  unfolding sleep_timer_details
  details-Passed found duration at status h =
      timer_details_sound is_sleep (λ x. not (is_negative x)) found (timer_key_of workflow timer_id)
        duration at status h

  details-IsConflict :
      (found : Option TimerRecord) (duration : ℤ) (e : Error)
      → sleep_timer_details found (timer_key_of workflow timer_id) duration ≡ err e
      → IsConflict e
  unfolding sleep_timer_details
  details-IsConflict found duration e h = (
    timer_details-conflict is_sleep (λ x. not (is_negative x)) found
        (timer_key_of workflow timer_id) duration e h,
    timer_details-NamesNoWait is_sleep (λ x. not (is_negative x)) found
        (timer_key_of workflow timer_id) duration e h,
  )

  Slept-judged :
      (x : Error) (found : Option TimerRecord) (d : Result (Time × TimerStatus))
      (s : Running workflow)
      → ((r : TimerRecord) → found ≡ some r → timer_in s.0 ≡ ok (some r))
      → ((at : Time) (status : TimerStatus)
          → d ≡ ok (at, status)
          → Passed is_sleep (λ x. not (is_negative x)) found at status)
      → ((e : Error) → d ≡ err e → IsConflict e)
      → NamesNoWait x
      → Slept (sleep_judged workflow timer_id x d s)
  unfolding sleep_judged
  Slept-judged x found (err z) s held passed conflict quiet =
      let infra = workflow_infrastructure_error x in
      other (joined z infra) s (inr (inr (inl (joined-conflict z infra (conflict z refl).0))))
        (joined-NamesNoWait z infra (conflict z refl).1 (infrastructure-NamesNoWait x quiet))
  Slept-judged x found (ok (at, TimerStatus.scheduled)) s held passed conflict quiet =
      let (r, same, status, fires, _) = passed at TimerStatus.scheduled refl in
      let infra = workflow_infrastructure_error x in
      inr (
        joined (timer_pending timer_id at) infra,
        refl,
        inl (
          at,
          inr (infra, refl, infrastructure-NamesNoWait x quiet),
          (r, held r same, status, fires),
        ),
      )
  Slept-judged x found (ok (at, TimerStatus.fired)) s held passed conflict quiet =
      let (r, same, status, _, _) = passed at TimerStatus.fired refl in
      inl (refl, inl (r, held r same, status))
  Slept-judged x found (ok (at, TimerStatus.canceled)) s held passed conflict quiet =
      other (joined timer_conflict (workflow_infrastructure_error x)) s (inr (inr (inl refl)))
        (infrastructure-NamesNoWait x quiet)
  Slept-judged x found (ok (at, TimerStatus.unspecified)) s held passed conflict quiet =
      other (joined timer_conflict (workflow_infrastructure_error x)) s (inr (inr (inl refl)))
        (infrastructure-NamesNoWait x quiet)
  Slept-judged x found (ok (at, TimerStatus.unknown k)) s held passed conflict quiet =
      other (joined timer_conflict (workflow_infrastructure_error x)) s (inr (inr (inl refl)))
        (infrastructure-NamesNoWait x quiet)

  -- The answer of the read after a write that failed.
  Slept-verified :
      (duration : ℤ) (x : Error) (answer : Result (Option TimerRecord × Bool))
      (s : Running workflow)
      → ((r : TimerRecord) → answer ≡ ok (some r, true) → timer_in s.0 ≡ ok (some r))
      → NamesNoWait x
      → ((y : Error) → answer ≡ err y → NamesNoWait y)
      → Slept
          (sleep_verified workflow timer_id (timer_key_of workflow timer_id) duration x answer s)
  unfolding sleep_verified
  Slept-verified duration x (err y) s held quiet failed =
      other_infrastructure (joined x y) s (joined-NamesNoWait x y quiet (failed y refl))
  Slept-verified duration x (ok (r, false)) s held quiet failed = other_infrastructure x s quiet
  Slept-verified duration x (ok (found, true)) s held quiet failed =
      Slept-judged x found (sleep_timer_details found (timer_key_of workflow timer_id) duration) s
        (λ r same. held r (ap (λ z. ok (z, true)) same)) (details-Passed found duration)
        (details-IsConflict found duration) quiet

  module _ (errors : StoreErrors workflow) where
    Slept-written :
        (duration : ℤ) (t : Time) (result : Result (Unit {0})) (s : Running workflow)
        → Own workflow s.1
        → ((u : Unit)
            → result ≡ ok u
            → timer_in s.0
              ≡ ok (
                  some (
                    new_timer workflow TimerKind.sleep
                      (timer_key_of workflow timer_id)
                      duration
                      t)))
        → ((x : Error) → result ≡ err x → NamesNoWait x)
        → Slept
            (sleep_written workflow timer_id (timer_key_of workflow timer_id) duration t result s)
    unfolding sleep_written
    Slept-written duration t (ok u) s own there failed =
        Slept-pending_or_consumed t (after t duration) s own (
          new_timer workflow TimerKind.sleep (timer_key_of workflow timer_id) duration t,
          there u refl,
          refl,
          l.as_time-new_timestamp (after t duration),
        )
    Slept-written duration t (err x) s own there failed =
        let answer = get_timer_authoritative workflow (timer_key_of workflow timer_id) s.0 in
        Slept-verified duration x answer.0 (answer.1, s.1)
          (λ r same. l.authoritative_view (timer_key_of workflow timer_id) s.0 same) (failed x refl)
          (errors.authoritative_error (timer_key_of workflow timer_id) s.0)

    Slept-on :
        (duration : ℤ) (t : Time) (found : Option TimerRecord) (present : Bool)
        (s : Running workflow)
        → Own workflow s.1
        → ((r : TimerRecord) → found ≡ some r → present ≡ true → timer_in s.0 ≡ ok (some r))
        → Slept (
            sleep_on workflow timer_id
              (timer_key_of workflow timer_id)
              duration
              t
              (found, present)
              s)
    unfolding sleep_on
    Slept-on duration t found true s own there =
        Slept-found t found (sleep_timer_details found (timer_key_of workflow timer_id) duration) s
          own (λ r same. there r same refl) (details-Passed found duration)
          (details-IsConflict found duration)
    Slept-on duration t found false s own there =
        let r = new_timer workflow TimerKind.sleep (timer_key_of workflow timer_id) duration t in
        let write = workflow.store.put timers (some r) s.0 in
        Slept-written duration t write.0 (write.1, s.1) own
          (λ u answered. l.laws.put_view timers (some r) s.0 answered refl)
          (errors.put_error (some r) s.0)

    Slept-answered :
        (duration : ℤ) (t : Time) (answer : Result (Option TimerRecord × Bool))
        (s : Running workflow)
        → Own workflow s.1
        → ((r : TimerRecord) → answer ≡ ok (some r, true) → timer_in s.0 ≡ ok (some r))
        → ((x : Error) → answer ≡ err x → NamesNoWait x)
        → Slept (
            proceed
              (sleep_on workflow timer_id (timer_key_of workflow timer_id) duration t)
              (as_infrastructure workflow answer, s))
    Slept-answered duration t (err x) s own there failed = other_infrastructure x s (failed x refl)
    Slept-answered duration t (ok (found, present)) s own there failed =
        Slept-on duration t found present s own
          (λ r same flag. there r (ap (λ z. ok (z, present)) same ∙ ap (λ z. ok (some r, z)) flag))

    -- However `Sleep` ends, at whichever of its calls, one of three things holds. It returns, and the
    -- store holds the timer as FIRED, or as SCHEDULED and the invocation has it among the timers that
    -- it has consumed. Or it fails with the pending error of a wake time, alone or with an error of
    -- a write that names no wait, and the store holds the timer as SCHEDULED for that time. Or it
    -- fails with an error that wraps no pending error of a timer: one of its arguments, a conflict or
    -- a corrupt record, or an infrastructure error. The errors of the store name no wait.
    pub sleep-Slept :
        (duration : ℤ) (s : Running workflow)
        → Own workflow s.1
        → Slept (sleep workflow timer_id duration s)
    unfolding sleep validate_key
    sleep-Slept duration s own =
        let key = timer_key_of workflow timer_id in
        ends-bind Slept _ (lift (require (not (is_negative duration)) plain) s)
          (λ e h.
            other e s (require-IsOther _ plain (inl refl) h) (require-NamesNoWait _ plain refl h))
          λ _ _.
            ends-bind Slept _ (lift (validate_key timer key) s)
              (λ e h.
                other e s (require-IsOther _ invalid_key (inr (inl refl)) h)
                  (require-NamesNoWait _ invalid_key refl h))
              λ _ _.
                let (t, w1) = workflow.now s.0 in
                let answer = workflow.store.get timers key w1 in
                Slept-answered duration t answer.0 (answer.1, s.1) own
                  (λ r same.
                    l.laws.get_quiet timers key w1 timers key
                    ∙ l.laws.get_view timers key w1 same refl)
                  (errors.get_error key w1)
