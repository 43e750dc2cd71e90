-- ===== src/Retry/Resume/Sound.antt =====
-- What the check of a RETRYING record says, and the timer that wakes it.
use temporaless.Prelude.{
  ℕ, zero, suc, ◌+◌, ◌≡◌, ◌≢◌, ◌↔◌, ◌<◌, Bool-cases, text_eq_sound, if◌then◌else◌, refl, subst,
  Bool, true, false, not, ◌&&◌, inl, inr, Option, none, some, List, [], ◌∷◌, Text, text_eq,
  text_eq_refl, In, length, ltb, ltb→lt, arith, is_some,
}
use temporaless.Action.{Result, ok, err, and_then-ok, activity_conflict}
use temporaless.Message.{
  ℤ, RetryPolicy, Timestamp, ActivityFailure, ActivityAttempt, ActivityRecord, ActivityStatus,
}
use temporaless.Retry.{Numbers, RetryPlan, retry_interval_after_attempt, is_positive, int_less}
use temporaless.Retry.Schedule.{require-true}
use temporaless.Retry.Resume.{
  user_panic_error_code, last_attempt, is_non_retryable, attempts_in_order, effective_interval,
  duration_or_zero, valid_retry_after, durable_expected, same_bool, has_failure, next_is_valid,
  last_checks, of_last, assert_retrying_activity, expected_wake, activity_retry_timer_expectation,
}

some-injective : {A : Type 0} {a b : A} → ◌≡◌ {A = Option A} (some a) (some b) → a ≡ b
some-injective h = cc

module _ ⦃n : Numbers⦄ where
  open n use {as_duration, timestamp_valid, as_time, equal_failure, equal_policy}

  -- The attempt at an index of the list, from 0.
  abbrev pub attempt_at : List ActivityAttempt → ℕ → Option ActivityAttempt
  attempt_at [] i = none
  attempt_at (a ∷ rest) zero = some a
  attempt_at (a ∷ rest) (suc i) = attempt_at rest i

  -- An attempt with this number has failed.
  abbrev pub IsFailure : ℕ → ActivityAttempt → Type 0
  IsFailure number a = (a.attempt ≡ number) × ((f : ActivityFailure) × (a.failure ≡ some f))

  -- A record that can go on, and the delay before it does.
  pub record IsResumable (r : ActivityRecord) (policy : Option RetryPolicy) (retry_timer_id : Text)
      (plan : RetryPlan) : Type 0 where
    pub same_policy : equal_policy r.retry_policy policy ≡ true
    pub same_timer : r.retry_timer_id ≡ retry_timer_id
    pub numbered :
        (i : ℕ) (a : ActivityAttempt) → attempt_at r.attempts i ≡ some a → IsFailure (i + 1) a
    pub last : ActivityAttempt
    pub is_last : last_attempt r.attempts ≡ some last
    pub number : last.attempt ≡ length r.attempts
    pub remaining : length r.attempts < plan.max_attempts
    pub failure : ActivityFailure
    pub failed : last.failure ≡ some failure
    pub same_failure : has_failure r.failure failure ≡ true
    pub retryable : In failure.code plan.non_retryable → ⊥
    pub no_panic : failure.code ≢ user_panic_error_code
    pub interval : ℤ
    pub is_interval : effective_interval last failure plan ≡ ok interval
    pub policy_delay : ℤ
    pub is_policy_delay : retry_interval_after_attempt (length r.attempts) plan ≡ ok policy_delay
    pub not_below_policy : int_less interval policy_delay ≡ false
    pub not_below_asked : int_less interval (duration_or_zero failure.retry_after) ≡ false
    pub durable : same_bool (durable_expected plan interval) (is_some r.next_attempt_at) ≡ true
    pub timed : (is_some r.next_attempt_at ≡ true) ↔ (
        (is_positive plan.durable_threshold ≡ true)
        × (int_less interval plan.durable_threshold ≡ false))

  is_non_retryable_complete :
      (code : Text) (cs : List Text) → In code cs → is_non_retryable code cs ≡ true
  unfolding is_non_retryable
  is_non_retryable_complete code [] h = absurd h
  is_non_retryable_complete code (c ∷ cs) (inl same) =
      let t : text_eq c code ≡ true = subst (λ z. text_eq z code ≡ true) same (text_eq_refl code) in
      rw t
  is_non_retryable_complete code (c ∷ cs) (inr h) =
      rw (is_non_retryable_complete code cs h) ground arith

  last_attempt-number :
      (want : ℕ) (rest : List ActivityAttempt) {a : ActivityAttempt}
      → attempts_in_order want rest ≡ true
      → last_attempt rest ≡ some a
      → a.attempt + 1 ≡ want + length rest
  unfolding attempts_in_order last_attempt
  last_attempt-number want [] h last = cc
  last_attempt-number want (b ∷ []) {a} h last =
      let same : b ≡ a = some-injective last in
      subst (λ z. z.attempt + 1 ≡ want + 1) same (ground arith)
  last_attempt-number want (b ∷ c ∷ cs) {a} h last =
      omega (arith, last_attempt-number (want + 1) (c ∷ cs) (ground arith) last)

  attempts_in_order_sound :
      (want : ℕ) (rest : List ActivityAttempt)
      → attempts_in_order want rest ≡ true
      → (i : ℕ) (a : ActivityAttempt) → attempt_at rest i ≡ some a
      → IsFailure (i + want) a
  unfolding attempts_in_order
  attempts_in_order_sound want [] h i a there = cc
  attempts_in_order_sound want (b ∷ rest) h zero a there =
      let same : b ≡ a = some-injective there in
      let start : want ≡ 0 + want = omega arith in
      subst (λ m. IsFailure m a) start
        (subst (IsFailure want) same (ground arith, failed b.failure refl (ground arith)))
    where
      failed :
          (x : Option ActivityFailure)
          → b.failure ≡ x
          → (elim x as (λ _. Bool) [ none ↦ false | some f ↦ valid_retry_after f.retry_after ])
            ≡ true
          → (f : ActivityFailure) × (b.failure ≡ some f)
      failed none there h = cc
      failed (some f) there h = (f, there)
  attempts_in_order_sound want (b ∷ rest) h (suc i) a there =
      let (number, failed) = attempts_in_order_sound (want + 1) rest (ground arith) i a there in
      (omega arith, failed)

  int_less_irrefl : (a : ℤ) → int_less a a ≡ false
  int_less_irrefl (ℤ.pos a) = ground arith
  int_less_irrefl (ℤ.negsuc a) = ground arith

  int_less_asymm : (a b : ℤ) → int_less a b ≡ true → int_less b a ≡ false
  int_less_asymm (ℤ.pos a) (ℤ.pos b) h = ground arith
  int_less_asymm (ℤ.pos a) (ℤ.negsuc b) h = cc
  int_less_asymm (ℤ.negsuc a) (ℤ.pos b) h = refl
  int_less_asymm (ℤ.negsuc a) (ℤ.negsuc b) h = ground arith

  -- The longer of two delays is not below either.
  longer :
      (d asked interval : ℤ)
      → ◌≡◌ {A = Result ℤ} (ok (if int_less d asked then asked else d)) (ok interval)
      → (int_less interval d ≡ false) × (int_less interval asked ≡ false)
  longer d asked interval h = elim (Bool-cases (int_less d asked)) [
    | inl less ↦
        let same : asked ≡ interval = cc in
        subst (λ x. (int_less x d ≡ false) × (int_less x asked ≡ false)) same
          (int_less_asymm d asked less, int_less_irrefl asked)
    | inr more ↦
        let same : d ≡ interval = cc in
        subst (λ x. (int_less x d ≡ false) × (int_less x asked ≡ false)) same
          (int_less_irrefl d, more)
  ]

  effective_interval_sound :
      (a : ActivityAttempt) (f : ActivityFailure) (plan : RetryPlan) (interval : ℤ)
      → effective_interval a f plan ≡ ok interval
      → (d : ℤ) × (retry_interval_after_attempt a.attempt plan ≡ ok d)
        × ((int_less interval d ≡ false)
            × (int_less interval (duration_or_zero f.retry_after) ≡ false))
  unfolding effective_interval
  effective_interval_sound a f plan interval h =
      let (d, computed, same) = and_then-ok (retry_interval_after_attempt a.attempt plan) _ h in
      (d, computed, longer d (duration_or_zero f.retry_after) interval same)

  of_last_sound :
      (checks : ActivityAttempt → ActivityFailure → Bool) (x : Option ActivityAttempt)
      → of_last checks x ≡ true
      → (a : ActivityAttempt) × (x ≡ some a)
        × ((f : ActivityFailure) × (a.failure ≡ some f) × (checks a f ≡ true))
  of_last_sound checks none h = cc
  of_last_sound checks (some a) h = (a, refl, from a.failure refl h)
    where
      from :
          (x : Option ActivityFailure)
          → a.failure ≡ x
          → (elim x as (λ _. Bool) [ none ↦ false | some f ↦ checks a f ]) ≡ true
          → (f : ActivityFailure) × (a.failure ≡ some f) × (checks a f ≡ true)
      from none there h = cc
      from (some f) there h = (f, there, h)

  interval_sound :
      (checks : ℤ → Bool) (x : Result ℤ)
      → (elim x as (λ _. Bool) [ err y ↦ false | ok d ↦ checks d ]) ≡ true
      → (d : ℤ) × (x ≡ ok d) × (checks d ≡ true)
  interval_sound checks (err y) h = cc
  interval_sound checks (ok d) h = (d, refl, h)

  four :
      (a b c d : Bool)
      → (a && b && c && d) ≡ true
      → (a ≡ true) × (b ≡ true) × (c ≡ true) × (d ≡ true)
  four a b c d h = (ground arith, ground arith, ground arith, ground arith)

  six :
      (a b c d f g : Bool)
      → (a && not b && not c && d && f && g) ≡ true
      → (a ≡ true) × (b ≡ false) × (c ≡ false) × (d ≡ true) × (f ≡ true)
  six a b c d f g h = (ground arith, ground arith, ground arith, ground arith, ground arith)

  -- What the checks of the last attempt say.
  last_checks_sound :
      (r : ActivityRecord) (retry_timer_id : Text) (plan : RetryPlan) (a : ActivityAttempt)
      (f : ActivityFailure)
      → last_checks r retry_timer_id plan a f ≡ true
      → (has_failure r.failure f ≡ true)
        × (text_eq f.code user_panic_error_code ≡ false)
        × (text_eq r.retry_timer_id retry_timer_id ≡ true)
        × (is_non_retryable f.code plan.non_retryable ≡ false)
        × ((d : ℤ) × (effective_interval a f plan ≡ ok d)
            × (same_bool (durable_expected plan d) (is_some r.next_attempt_at) ≡ true))
  unfolding last_checks
  last_checks_sound r retry_timer_id plan a f h =
      let timing = λ (d : ℤ). same_bool (durable_expected plan d) (is_some r.next_attempt_at) in
      let (same, no_panic, free, timed, timer) =
        six (has_failure r.failure f) (text_eq f.code user_panic_error_code)
          (is_non_retryable f.code plan.non_retryable)
          (elim (effective_interval a f plan) as (λ _. Bool) [ err x ↦ false | ok d ↦ timing d ])
          (text_eq r.retry_timer_id retry_timer_id) (next_is_valid r.next_attempt_at) h in
      (same, no_panic, timer, free, interval_sound timing (effective_interval a f plan) timed)

  not_listed : (code : Text) (cs : List Text) → is_non_retryable code cs ≡ false → In code cs → ⊥
  not_listed code cs free h = let found = is_non_retryable_complete code cs h in cc

  not_panic :
      (code : Text) → text_eq code user_panic_error_code ≡ false → code ≢ user_panic_error_code
  not_panic code free same =
      let found = subst (λ c. text_eq code c ≡ true) same (text_eq_refl code) in cc

  exactly_if :
      (a b c : Bool) → same_bool (a && not b) c ≡ true → (c ≡ true) ↔ ((a ≡ true) × (b ≡ false))
  exactly_if a b c h = (λ hc. (ground arith, ground arith), λ (ha, hb). ground arith)

  -- A record that passes the check can go on: it has the policy and the timer id of the call, its
  -- attempts are numbered from 1 and have failed, one is left, and the last one failed with the
  -- failure of the record and a code that may be retried and is not the one of a panic. The delay
  -- before the next attempt can be computed again, and is not below the delay of the policy after
  -- that many attempts or the one that the failure asked for; the record has a time for the next
  -- attempt exactly if the durable threshold is positive and that delay is not below it.
  pub assert_retrying_activity_sound :
      (r : ActivityRecord) (policy : Option RetryPolicy) (retry_timer_id : Text) (plan : RetryPlan)
      → assert_retrying_activity r policy retry_timer_id plan ≡ ok tt
      → IsResumable r policy retry_timer_id plan
  unfolding assert_retrying_activity
  assert_retrying_activity_sound r policy retry_timer_id plan h =
      let checks = last_checks r retry_timer_id plan in
      let (agreed, below, order, lasts) =
        four (equal_policy r.retry_policy policy) (ltb (length r.attempts) plan.max_attempts)
          (attempts_in_order 1 r.attempts) (of_last checks (last_attempt r.attempts))
          (require-true _ activity_conflict h) in
      let (a, last, (f, failed, passed)) = of_last_sound checks (last_attempt r.attempts) lasts in
      let (same, no_panic, timer, free, (d, computed, durable)) =
        last_checks_sound r retry_timer_id plan a f passed in
      let (delay, is_delay, (over, over_asked)) = effective_interval_sound a f plan d computed in
      let count : a.attempt ≡ length r.attempts =
        omega (arith, last_attempt-number 1 r.attempts order last) in
      record {
        same_policy = agreed;
        same_timer = text_eq_sound r.retry_timer_id retry_timer_id timer;
        numbered = attempts_in_order_sound 1 r.attempts order;
        last = a;
        is_last = last;
        number = count;
        remaining = ltb→lt (length r.attempts) plan.max_attempts below;
        failure = f;
        failed = failed;
        same_failure = same;
        retryable = not_listed f.code plan.non_retryable free;
        no_panic = not_panic f.code no_panic;
        interval = d;
        is_interval = computed;
        policy_delay = delay;
        is_policy_delay =
            subst (λ n. retry_interval_after_attempt n plan ≡ ok delay) count is_delay;
        not_below_policy = over;
        not_below_asked = over_asked;
        durable = durable;
        timed =
            exactly_if (is_positive plan.durable_threshold) (int_less d plan.durable_threshold)
              (is_some r.next_attempt_at) durable;
      }

  durable_parts :
      (plan : RetryPlan) (d : ℤ)
      → same_bool (durable_expected plan d) true ≡ true
      → (is_positive plan.durable_threshold ≡ true)
        × (not (int_less d plan.durable_threshold) ≡ true)
  durable_parts plan d h = (ground arith, ground arith)

  expected_wake-ok :
      (r : ActivityRecord) (plan : RetryPlan) (next : Timestamp) (a : ActivityAttempt)
      {f : ActivityFailure} {d : ℤ}
      → a.failure ≡ some f
      → has_failure r.failure f ≡ true
      → effective_interval a f plan ≡ ok d
      → not (int_less d plan.durable_threshold) ≡ true
      → expected_wake r plan next (some a) ≡ ok (as_time next, d)
  unfolding expected_wake
  expected_wake-ok r plan next a there same computed long = rw (there, same, computed, long)

  -- Where a RETRYING record that passes the check has a time for its next attempt, the timer that
  -- wakes it can be told from the record alone: its time is that one, and its delay is not below the
  -- durable threshold.
  pub assert-expectation :
      (r : ActivityRecord) (policy : Option RetryPolicy) (retry_timer_id : Text) (plan : RetryPlan)
      (next : Timestamp)
      → assert_retrying_activity r policy retry_timer_id plan ≡ ok tt
      → r.status ≡ ActivityStatus.retrying
      → r.next_attempt_at ≡ some next
      → (d : ℤ) × (activity_retry_timer_expectation (some r) plan ≡ ok (as_time next, d))
        × (int_less d plan.durable_threshold ≡ false)
  unfolding activity_retry_timer_expectation
  assert-expectation r policy retry_timer_id plan next h status timed =
      let resumable = assert_retrying_activity_sound r policy retry_timer_id plan h in
      let (durable', long) = durable_parts plan resumable.interval (
        subst (λ x. same_bool (durable_expected plan resumable.interval) (is_some x) ≡ true) timed
          resumable.durable) in
      (
        resumable.interval,
        rw (status, timed, durable', resumable.is_last)
            (expected_wake-ok r plan next resumable.last resumable.failed resumable.same_failure
              resumable.is_interval long),
        ground arith,
      )
