-- ===== src/Examples/Retry.antt =====
-- Retry plans over whole numbers in place of floats.
use temporaless.Prelude.{
  ℕ, ◌*◌, ◌≡◌, ◌≤◌, ◌<◌, ◌↔◌, refl, true, false, Option, none, some, [], ◌∷◌, Text, codes, text_eq,
  ltb, leb, ◌==◌, In, arith,
}
use temporaless.Action.{ok}
use temporaless.Message.{
  ℤ, RetryPolicy, Duration, Timestamp, ActivityFailure, ActivityAttempt, ActivityRecord,
  ActivityStatus,
}
use temporaless.Env.Memory.{magnitude}
use temporaless.Retry.{
  Numbers, RetryPlan, plan_retries, plan_checks, retry_policy_duration, validate_from,
  next_interval, maximum_retry_attempts, retry_interval_after_attempt, advance,
  normalize_retry_policy, int_less,
}
use temporaless.Retry.Schedule.{Truncates, IsInterval, plan_retries_sound}
use temporaless.Retry.Codes.{canonical}
use temporaless.Retry.Resume.Sound.{assert_retrying_activity_sound, assert-expectation, IsResumable}
use temporaless.Retry.Canonical.{Positive, normalize_retry_policy-canonical, with_codes}
use temporaless.Retry.Resume.{
  assert_retrying_activity, activity_retry_timer_expectation, last_attempt, last_checks,
  attempts_in_order, effective_interval, is_non_retryable,
}
use temporaless.Examples.Records.{fetch}

abbrev whole : ℤ → ℕ
whole (ℤ.pos k) = k
whole (ℤ.negsuc k) = 0

instance abbrev whole_numbers : Numbers
whole_numbers = record {
  times = λ a b. a * b;
  at_least = λ a b. leb b a;
  greater = λ a b. ltb b a;
  is_nan = λ a. false;
  is_inf = λ a. false;
  float_zero = 0;
  float_one = 1;
  float_same = λ a b. a == b;
  float_of = whole;
  duration_of = λ a. ℤ.pos a;
  duration_valid = λ d. true;
  as_duration = λ d. d.seconds;
  new_duration = λ d. record { seconds = d; nanos = ℤ.pos 0 };
  timestamp_valid = λ t. true;
  as_time = λ t. magnitude t.nanos;
  equal_failure = λ a b. text_eq a.code b.code;
  equal_policy = λ a b. true;
}

whole_numbers-Truncates : Truncates whole_numbers
whole_numbers-Truncates = record { duration_below = below }
  where
    below : (x : ℕ) (m : ℤ) → false ≡ false → leb (whole m) x ≡ false → int_less m (ℤ.pos x) ≡ false
    below x (ℤ.pos k) h small = ground arith
    below x (ℤ.negsuc k) h small = absurd (ground arith)

whole_numbers-Positive : Positive whole_numbers
whole_numbers-Positive = record { greater-ne-zero = λ x h. ground arith }

abbrev of_seconds : ℕ → Option Duration
of_seconds k = some (record { seconds = ℤ.pos k; nanos = ℤ.pos 0 })

abbrev doubling : RetryPolicy
doubling = record {
  initial_interval = of_seconds 1;
  backoff_coefficient = 2;
  maximum_interval = of_seconds 5;
  maximum_attempts = 5;
  non_retryable_error_codes = codes "b" ∷ codes "a" ∷ codes "b" ∷ [];
  durable_backoff_threshold = of_seconds 2;
}

abbrev doubling_plan : RetryPlan
doubling_plan = record {
  max_attempts = 5;
  initial_interval = ℤ.pos 1;
  backoff_coefficient = 2;
  maximum_interval = ℤ.pos 5;
  durable_threshold = ℤ.pos 2;
  non_retryable = doubling.non_retryable_error_codes;
}

doubling_planned : plan_retries (some doubling) ≡ ok doubling_plan
unfolding plan_retries plan_checks retry_policy_duration validate_from next_interval
doubling_planned = refl

plan_retries_sound_example :
    (1 ≤ 5)
    × (5 ≤ maximum_retry_attempts)
    × ((attempt : ℕ)
        → 1 ≤ attempt
        → attempt < 5
        → (d : ℤ) × (retry_interval_after_attempt attempt doubling_plan ≡ ok d)
          × IsInterval doubling_plan d)
plan_retries_sound_example =
    plan_retries_sound whole_numbers-Truncates (some doubling) doubling_planned

normalize_retry_policy-canonical_example :
    (plan_retries (normalize_retry_policy (some doubling) doubling_plan)
      ≡ ok (with_codes doubling_plan (canonical doubling_plan.non_retryable)))
    × (normalize_retry_policy
          (normalize_retry_policy (some doubling) doubling_plan)
          (with_codes doubling_plan (canonical doubling_plan.non_retryable))
        ≡ normalize_retry_policy (some doubling) doubling_plan)
    × ((code : Text)
        → In code (canonical doubling_plan.non_retryable) ↔ In code doubling_plan.non_retryable)
normalize_retry_policy-canonical_example =
    normalize_retry_policy-canonical whole_numbers-Positive doubling doubling_planned

abbrev timeout : ActivityFailure
timeout = record { code = codes "timeout"; message = []; retry_after = none }

abbrev attempt_of : ℕ → ActivityAttempt
attempt_of k = record {
  attempt = k;
  started_at = none;
  completed_at = none;
  failure = some timeout;
}

abbrev next_time : Timestamp
next_time = record { seconds = ℤ.pos 0; nanos = ℤ.pos 9 }

-- Two attempts have failed, and the delay after the second is a durable one.
abbrev waiting : ActivityRecord
waiting = record fetch {
  status = ActivityStatus.retrying;
  failure = some timeout;
  attempts = attempt_of 1 ∷ attempt_of 2 ∷ [];
  next_attempt_at = some next_time;
  retry_timer_id = codes "retry";
}

waiting_asserted : assert_retrying_activity waiting none (codes "retry") doubling_plan ≡ ok tt
unfolding assert_retrying_activity last_checks attempts_in_order last_attempt effective_interval
    is_non_retryable retry_interval_after_attempt advance next_interval retry_policy_duration
    text_eq
waiting_asserted = refl

assert_retrying_activity_sound_example : IsResumable waiting none (codes "retry") doubling_plan
assert_retrying_activity_sound_example =
    assert_retrying_activity_sound waiting none (codes "retry") doubling_plan waiting_asserted

assert-expectation_example :
    (d : ℤ) × (activity_retry_timer_expectation (some waiting) doubling_plan ≡ ok (9, d))
    × (int_less d doubling_plan.durable_threshold ≡ false)
assert-expectation_example =
    assert-expectation waiting none (codes "retry") doubling_plan next_time waiting_asserted refl
      refl
