-- ===== src/Retry.antt =====
-- The retry plans of core/go/workflow/workflow.go: the policy of an activity as checked numbers, the
-- schedule of its intervals, the canonical policy that records keep, and the check of a record that
-- waits for its next attempt.
pub mod Schedule
pub mod Codes
pub mod Canonical
pub mod Resume
use temporaless.Prelude.{
  ℕ, zero, suc, ◌+◌, ◌-◌, ◌≤◌, ◌<◌, ◌≡◌, Bool, true, false, not, ◌&&◌, ◌||◌, Option, none, some,
  List, [], ◌∷◌, Text, text_eq, text_lt, codes, ltb, leb, ◌==◌, if◌then◌else◌, length, sort_by,
  is_some,
}
use temporaless.Action.{Error, Result, ok, err, and_then, require, plain, activity_conflict}
use temporaless.Message.{
  ℤ, Duration, RetryPolicy, ActivityFailure, ActivityAttempt, ActivityRecord, ActivityStatus, Time,
  Timestamp,
}
use temporaless.Env.{Env}

-- Tests of `time.Duration`s and of the other 64-bit integers.
abbrev pub is_negative : ℤ → Bool
is_negative (ℤ.pos n) = false
is_negative (ℤ.negsuc n) = true

abbrev pub is_positive : ℤ → Bool
is_positive (ℤ.pos n) = ltb 0 n
is_positive (ℤ.negsuc n) = false

abbrev pub is_zero : ℤ → Bool
is_zero (ℤ.pos n) = n == 0
is_zero (ℤ.negsuc n) = false

abbrev pub int_less : ℤ → ℤ → Bool
int_less (ℤ.pos a) (ℤ.pos b) = ltb a b
int_less (ℤ.pos a) (ℤ.negsuc b) = false
int_less (ℤ.negsuc a) (ℤ.pos b) = true
int_less (ℤ.negsuc a) (ℤ.negsuc b) = ltb b a

abbrev pub int_same : ℤ → ℤ → Bool
int_same (ℤ.pos a) (ℤ.pos b) = a == b
int_same (ℤ.negsuc a) (ℤ.negsuc b) = a == b
int_same _ _ = false

-- `proto.Equal` of two durations.
abbrev pub same_duration : Duration → Duration → Bool
same_duration a b = int_same a.seconds b.seconds && int_same a.nanos b.nanos

-- What the code takes from Go, from the well-known protobuf types and from proto. A `float64` is its IEEE bits.
pub record Numbers : Type 0 where
  pub times : ℕ → ℕ → ℕ
  pub at_least : ℕ → ℕ → Bool
  pub greater : ℕ → ℕ → Bool
  pub is_nan : ℕ → Bool
  pub is_inf : ℕ → Bool
  pub float_zero : ℕ
  pub float_one : ℕ
  -- `==` on floats, for which 0 and -0 are equal
  pub float_same : ℕ → ℕ → Bool
  -- `float64(d)` and `time.Duration(x)`, which cuts the fraction off
  pub float_of : ℤ → ℕ
  pub duration_of : ℕ → ℤ
  -- CheckValid, AsDuration, which clamps to 64 bits, and New
  pub duration_valid : Duration → Bool
  pub as_duration : Duration → ℤ
  pub new_duration : ℤ → Duration
  -- CheckValid and AsTime of a timestamp
  pub timestamp_valid : Timestamp → Bool
  pub as_time : Timestamp → Time
  -- proto.Equal of failures and of policies
  pub equal_failure : ActivityFailure → ActivityFailure → Bool
  pub equal_policy : Option RetryPolicy → Option RetryPolicy → Bool

-- `math.MaxInt64`
abbrev pub max_int64 : ℤ
max_int64 = ℤ.pos 9223372036854775807

-- `RuntimeDefaults.maximum_retry_attempts`
abbrev pub maximum_retry_attempts : ℕ
maximum_retry_attempts = 100

pub record RetryPlan : Type 0 where
  pub max_attempts : ℕ
  pub initial_interval : ℤ
  pub backoff_coefficient : ℕ
  pub maximum_interval : ℤ
  pub durable_threshold : ℤ
  pub non_retryable : List Text

-- Neighbours that are equal, once.
unfoldable pub unique_codes : List Text → List Text
unfolding text_eq
unique_codes [] = []
unique_codes (c ∷ []) = c ∷ []
unique_codes (c ∷ d ∷ ds) =
    let rest = unique_codes (d ∷ ds) in if text_eq c d then rest else c ∷ rest

module _ ⦃n : Numbers⦄ where
  open n use {
    times, at_least, greater, is_nan, is_inf, float_zero, float_one, float_same, float_of,
    duration_of, duration_valid, as_duration, new_duration,
  }

  unfoldable pub next_interval : ℤ → RetryPlan → Result ℤ
  next_interval prev plan =
      let next_nanos = times (float_of prev) plan.backoff_coefficient in
      if is_positive plan.maximum_interval && at_least next_nanos (float_of plan.maximum_interval)
      then ok plan.maximum_interval
      else if is_nan next_nanos || is_inf next_nanos || greater next_nanos (float_of max_int64)
      then err plain
      else if is_positive prev && not (is_positive (duration_of next_nanos))
      then err plain
      else ok (duration_of next_nanos)

  -- The loop from `failed_attempt`, with `rounds` rounds to go. The last round computes nothing.
  unfoldable pub validate_from : ℕ → ℕ → ℤ → RetryPlan → Result (Unit {0})
  validate_from zero failed_attempt interval plan = ok tt
  validate_from (suc rounds) failed_attempt interval plan =
      elim (leb plan.max_attempts (failed_attempt + 1)) [
        | true ↦ validate_from rounds (failed_attempt + 1) interval plan
        | false ↦
            and_then (next_interval interval plan)
              (λ next. validate_from rounds (failed_attempt + 1) next plan)
      ]

  abbrev pub validate_retry_schedule : RetryPlan → Result (Unit {0})
  validate_retry_schedule plan = validate_from (plan.max_attempts - 1) 1 plan.initial_interval plan

  -- So many intervals further.
  unfoldable pub advance : ℕ → ℤ → RetryPlan → Result ℤ
  advance zero interval plan = ok interval
  advance (suc rounds) interval plan =
      and_then (next_interval interval plan) (λ next. advance rounds next plan)

  unfoldable pub retry_interval_after_attempt : ℕ → RetryPlan → Result ℤ
  retry_interval_after_attempt attempt plan =
      and_then (require (not (attempt == 0)) plain)
        (λ _. advance (attempt - 1) plan.initial_interval plan)

  -- A duration that `time.Duration` can hold exactly.
  unfoldable pub retry_policy_duration : Option Duration → Result ℤ
  retry_policy_duration none = ok (ℤ.pos 0)
  retry_policy_duration (some value) = and_then (require (duration_valid value) plain) (λ _.
      and_then (require (same_duration value (new_duration (as_duration value))) plain)
        (λ _. ok (as_duration value)))

  abbrev pub single_attempt : RetryPlan
  single_attempt = record {
    max_attempts = 1;
    initial_interval = ℤ.pos 0;
    backoff_coefficient = float_one;
    maximum_interval = ℤ.pos 0;
    durable_threshold = ℤ.pos 0;
    non_retryable = [];
  }

  -- The plan of a policy before its checks.
  abbrev pub unchecked_plan : RetryPolicy → ℤ → ℤ → ℤ → RetryPlan
  unchecked_plan policy initial_interval maximum_interval durable_threshold = record {
    max_attempts = policy.maximum_attempts;
    initial_interval = initial_interval;
    backoff_coefficient =
        if float_same policy.backoff_coefficient float_zero
        then float_one
        else policy.backoff_coefficient;
    maximum_interval = maximum_interval;
    durable_threshold = durable_threshold;
    non_retryable = policy.non_retryable_error_codes;
  }

  -- The checks of `planRetries`, each of which gives an error without a class.
  unfoldable pub plan_checks : RetryPlan → Bool
  plan_checks plan =
      not (plan.max_attempts == 0)
      && leb plan.max_attempts maximum_retry_attempts
      && not (is_negative plan.initial_interval)
      && not (ltb 1 plan.max_attempts && not (is_positive plan.initial_interval))
      && not (
          is_nan plan.backoff_coefficient
          || is_inf plan.backoff_coefficient
          || not (greater plan.backoff_coefficient float_zero))
      && not (is_negative plan.maximum_interval)
      && not (
          is_positive plan.maximum_interval && int_less plan.maximum_interval plan.initial_interval)
      && not (is_negative plan.durable_threshold)

  unfoldable pub plan_retries : Option RetryPolicy → Result RetryPlan
  plan_retries none = ok single_attempt
  plan_retries (some policy) =
      and_then (retry_policy_duration policy.initial_interval) (λ initial_interval.
        and_then (retry_policy_duration policy.maximum_interval) (λ maximum_interval.
          and_then (retry_policy_duration policy.durable_backoff_threshold) (λ durable_threshold.
            let plan = unchecked_plan policy initial_interval maximum_interval durable_threshold in
            and_then (require (plan_checks plan) plain)
              (λ _. and_then (validate_retry_schedule plan) (λ _. ok plan)))))

  abbrev pub unless_zero : ℤ → Option Duration
  unless_zero d = if is_zero d then none else some (new_duration d)

  unfoldable pub normalize_retry_policy : Option RetryPolicy → RetryPlan → Option RetryPolicy
  normalize_retry_policy none plan = none
  normalize_retry_policy (some policy) plan = some (record {
    initial_interval = unless_zero plan.initial_interval;
    backoff_coefficient = plan.backoff_coefficient;
    maximum_interval = unless_zero plan.maximum_interval;
    maximum_attempts = plan.max_attempts;
    non_retryable_error_codes = unique_codes (sort_by text_lt policy.non_retryable_error_codes);
    durable_backoff_threshold = unless_zero plan.durable_threshold;
  })
