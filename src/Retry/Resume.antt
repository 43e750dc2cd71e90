-- ===== src/Retry/Resume.antt =====
-- A record that waits for its next attempt: `assertRetryingActivity` and
-- `activityRetryTimerExpectation` of core/go/workflow/workflow.go.
pub mod Sound
use temporaless.Prelude.{
  ℕ, ◌+◌, ◌≡◌, ◌<◌, refl, subst, Bool, true, false, not, ◌&&◌, ◌||◌, inl, inr, Option, none, some,
  List, [], ◌∷◌, Text, text_eq, text_eq_refl, In, codes, length, ltb, ltb→lt, ◌==◌, if◌then◌else◌,
  arith, is_some,
}
use temporaless.Action.{Result, ok, err, and_then, require, activity_conflict}
use temporaless.Message.{
  ℤ, RetryPolicy, Duration, Timestamp, Time, ActivityFailure, ActivityAttempt, ActivityRecord,
  ActivityStatus,
}
use temporaless.Retry.{
  Numbers, RetryPlan, retry_policy_duration, retry_interval_after_attempt, is_negative, is_positive,
  int_less,
}
use temporaless.Retry.Schedule.{require-true}

-- `ReservedNames.user_panic_error_code`
abbrev pub user_panic_error_code : Text
user_panic_error_code = codes "temporaless.user_panic"

unfoldable pub last_attempt : List ActivityAttempt → Option ActivityAttempt
last_attempt [] = none
last_attempt (a ∷ []) = some a
last_attempt (a ∷ b ∷ bs) = last_attempt (b ∷ bs)

-- `plan.nonRetryable[code]`
unfoldable pub is_non_retryable : Text → List Text → Bool
unfolding text_eq
is_non_retryable code [] = false
is_non_retryable code (c ∷ cs) = text_eq c code || is_non_retryable code cs

abbrev pub is_retrying : ActivityStatus → Bool
is_retrying ActivityStatus.retrying = true
is_retrying _ = false

module _ ⦃n : Numbers⦄ where
  open n use {as_duration, timestamp_valid, as_time, equal_failure, equal_policy}

  -- A delay that is absent, or exact and not negative.
  abbrev pub valid_retry_after : Option Duration → Bool
  valid_retry_after value = elim (retry_policy_duration value) [
    | ok d ↦ not (is_negative d)
    | err x ↦ false
  ]

  -- The attempts are numbered from `want` on, and each has failed.
  unfoldable pub attempts_in_order : ℕ → List ActivityAttempt → Bool
  attempts_in_order want [] = true
  attempts_in_order want (a ∷ rest) =
      a.attempt == want
      && (elim a.failure [ none ↦ false | some f ↦ valid_retry_after f.retry_after ])
      && attempts_in_order (want + 1) rest

  -- `retry_after.AsDuration()`, where an absent message is zero.
  abbrev pub duration_or_zero : Option Duration → ℤ
  duration_or_zero none = ℤ.pos 0
  duration_or_zero (some d) = as_duration d

  -- The delay of the policy, or the longer one that the failure asked for.
  unfoldable pub effective_interval : ActivityAttempt → ActivityFailure → RetryPlan → Result ℤ
  effective_interval a f plan = and_then (retry_interval_after_attempt a.attempt plan) (λ d.
      ok
        (if int_less d (duration_or_zero f.retry_after) then duration_or_zero f.retry_after else d))

  abbrev pub durable_expected : RetryPlan → ℤ → Bool
  durable_expected plan d =
      is_positive plan.durable_threshold && not (int_less d plan.durable_threshold)

  abbrev pub same_bool : Bool → Bool → Bool
  same_bool true b = b
  same_bool false b = not b

  abbrev pub has_failure : Option ActivityFailure → ActivityFailure → Bool
  has_failure none f = false
  has_failure (some g) f = equal_failure g f

  abbrev pub next_is_valid : Option Timestamp → Bool
  next_is_valid none = true
  next_is_valid (some t) = timestamp_valid t

  -- The checks from the last attempt on.
  unfoldable pub last_checks :
      ActivityRecord → Text → RetryPlan → ActivityAttempt → ActivityFailure → Bool
  last_checks r retry_timer_id plan a f =
      has_failure r.failure f
      && not (text_eq f.code user_panic_error_code)
      && not (is_non_retryable f.code plan.non_retryable)
      && (elim (effective_interval a f plan) [
        | err x ↦ false
        | ok d ↦ same_bool (durable_expected plan d) (is_some r.next_attempt_at)
      ])
      && text_eq r.retry_timer_id retry_timer_id
      && next_is_valid r.next_attempt_at

  abbrev pub of_last : (ActivityAttempt → ActivityFailure → Bool) → Option ActivityAttempt → Bool
  of_last checks none = false
  of_last checks (some a) = elim a.failure [ none ↦ false | some f ↦ checks a f ]

  -- Every check gives `ErrActivityConflict`.
  unfoldable pub assert_retrying_activity :
      ActivityRecord → Option RetryPolicy → Text → RetryPlan → Result (Unit {0})
  assert_retrying_activity r normalized_policy retry_timer_id plan =
      require
        (equal_policy r.retry_policy normalized_policy
          && ltb (length r.attempts) plan.max_attempts
          && attempts_in_order 1 r.attempts
          && of_last (last_checks r retry_timer_id plan) (last_attempt r.attempts))
        activity_conflict

  -- The time of the wake and its delay, from a last attempt that failed.
  unfoldable pub expected_wake :
      ActivityRecord → RetryPlan → Timestamp → Option ActivityAttempt → Result (Time × ℤ)
  expected_wake r plan next none = err activity_conflict
  expected_wake r plan next (some a) = elim a.failure [
    | none ↦ err activity_conflict
    | some f ↦ and_then (require (has_failure r.failure f) activity_conflict) (λ _.
        elim (effective_interval a f plan) [
          | err x ↦ err activity_conflict
          | ok d ↦
              and_then (require (not (int_less d plan.durable_threshold)) activity_conflict)
                (λ _. ok (as_time next, d))
        ])
  ]

  unfoldable pub activity_retry_timer_expectation :
      Option ActivityRecord → RetryPlan → Result (Time × ℤ)
  activity_retry_timer_expectation none plan = err activity_conflict
  activity_retry_timer_expectation (some r) plan =
      and_then (require (is_retrying r.status) activity_conflict) (λ _. elim r.next_attempt_at [
        | none ↦ err activity_conflict
        | some next ↦
            and_then (require (is_positive plan.durable_threshold) activity_conflict)
              (λ _. expected_wake r plan next (last_attempt r.attempts))
      ])
