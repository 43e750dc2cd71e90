-- ===== src/Retry/Canonical.antt =====
-- The canonical policy: what `normalizeRetryPolicy` writes into a record, read back.
use temporaless.Prelude.{
  ℕ, zero, suc, ◌+◌, ◌-◌, ◌≡◌, ◌↔◌, refl, sym, ap, subst, ◌∙◌, true, false, Bool-cases, inl, inr,
  Option, none, some, List, Text, In, leb, if◌then◌else◌, arith,
}
use temporaless.Action.{Result, ok, and_then, and_then-ok, require, plain}
use temporaless.Message.{ℤ, RetryPolicy, Duration}
use temporaless.Retry.{
  Numbers, RetryPlan, next_interval, validate_from, validate_retry_schedule, plan_retries,
  plan_checks, unchecked_plan, normalize_retry_policy, unless_zero, is_zero, int_same,
  same_duration, retry_policy_duration,
}
use temporaless.Retry.Schedule.{require-true, ok-injective, plan_retries-checked}
use temporaless.Retry.Codes.{canonical, canonical-canonical, In-canonical}

int_same_sound : (a b : ℤ) → int_same a b ≡ true → a ≡ b
int_same_sound (ℤ.pos a) (ℤ.pos b) h = ap ℤ.pos (ground arith)
int_same_sound (ℤ.pos a) (ℤ.negsuc b) h = cc
int_same_sound (ℤ.negsuc a) (ℤ.pos b) h = cc
int_same_sound (ℤ.negsuc a) (ℤ.negsuc b) h = ap ℤ.negsuc (ground arith)

same_duration_sound : (a b : Duration) → same_duration a b ≡ true → a ≡ b
same_duration_sound a b h =
    ground (arith, int_same_sound a.seconds b.seconds, int_same_sound a.nanos b.nanos)

is_zero_sound : (d : ℤ) → is_zero d ≡ true → ℤ.pos 0 ≡ d
is_zero_sound (ℤ.pos k) h = ap ℤ.pos (ground arith)
is_zero_sound (ℤ.negsuc k) h = cc

-- A float above zero is not zero.
pub record Positive (n : Numbers) : Type 0 where
  pub greater-ne-zero :
      (x : ℕ) → n.greater x n.float_zero ≡ true → n.float_same x n.float_zero ≡ false

-- The plan with other codes.
abbrev pub with_codes : RetryPlan → List Text → RetryPlan
with_codes plan codes = record plan { non_retryable = codes }

module _ ⦃n : Numbers⦄ where
  open n use {greater, float_zero, float_one, float_same, new_duration, as_duration, duration_valid}

  read_duration :
      (v : Duration) {d : ℤ} → retry_policy_duration (some v) ≡ ok d → v ≡ new_duration d
  unfolding retry_policy_duration
  read_duration v h =
      let exact = same_duration v (new_duration (as_duration v)) in
      let (_, _, h1) =
        and_then-ok (require (duration_valid v) plain)
          (λ _. and_then (require exact plain) (λ _. ok (as_duration v))) h in
      let (_, same, h2) = and_then-ok (require exact plain) (λ _. ok (as_duration v)) h1 in
      same_duration_sound v (new_duration (as_duration v)) (require-true exact plain same)
      ∙ ap new_duration (ok-injective h2)

  -- A duration that was read is written so that it reads again.
  retry_policy_duration-unless_zero :
      (value : Option Duration) {d : ℤ}
      → retry_policy_duration value ≡ ok d
      → retry_policy_duration (unless_zero d) ≡ ok d
  unfolding retry_policy_duration
  retry_policy_duration-unless_zero value {d} h = elim (Bool-cases (is_zero d)) [
    | inl nothing ↦ rw nothing (ap ok (is_zero_sound d nothing))
    | inr other ↦ rw other (again value other h)
  ]
    where
      again :
          (v : Option Duration)
          → is_zero d ≡ false
          → retry_policy_duration v ≡ ok d
          → retry_policy_duration (some (new_duration d)) ≡ ok d
      again none other h =
          let wrong : is_zero (ℤ.pos 0) ≡ false =
            subst (λ z. is_zero z ≡ false) (sym (ok-injective h)) other in
          cc
      again (some v) other h =
          subst (λ z. retry_policy_duration (some z) ≡ ok d) (read_duration v h) h

  validate_from-with_codes :
      (rounds attempt : ℕ) (interval : ℤ) (plan : RetryPlan) (codes : List Text)
      → validate_from rounds attempt interval (with_codes plan codes)
        ≡ validate_from rounds attempt interval plan
  unfolding validate_from next_interval
  validate_from-with_codes zero attempt interval plan codes = refl
  validate_from-with_codes (suc rounds) attempt interval plan codes =
      let again = λ (i : ℤ). validate_from-with_codes rounds (attempt + 1) i plan codes in
      λ i. elim (leb plan.max_attempts (attempt + 1)) as (λ _. Result (Unit {0})) [
        | true ↦ again interval i
        | false ↦ and_then (next_interval interval plan) (λ next. again next i)
      ]

  -- What the parts of a policy are, once it has made a plan.
  record Planned (policy : RetryPolicy) (plan : RetryPlan) : Type 0 where
    initial : retry_policy_duration policy.initial_interval ≡ ok plan.initial_interval
    maximum : retry_policy_duration policy.maximum_interval ≡ ok plan.maximum_interval
    threshold : retry_policy_duration policy.durable_backoff_threshold ≡ ok plan.durable_threshold
    whole :
        unchecked_plan policy plan.initial_interval plan.maximum_interval plan.durable_threshold
        ≡ plan

  plan_retries-Planned :
      (policy : RetryPolicy) {plan : RetryPlan}
      → plan_retries (some policy) ≡ ok plan
      → Planned policy plan
  unfolding plan_retries
  plan_retries-Planned policy {plan} h =
      let (a, ra, h1) = and_then-ok (retry_policy_duration policy.initial_interval) _ h in
      let (b, rb, h2) = and_then-ok (retry_policy_duration policy.maximum_interval) _ h1 in
      let (c, rc, h3) = and_then-ok (retry_policy_duration policy.durable_backoff_threshold) _ h2 in
      let (_, _, h4) =
        and_then-ok (require (plan_checks (unchecked_plan policy a b c)) plain) _ h3 in
      let (_, _, h5) = and_then-ok (validate_retry_schedule (unchecked_plan policy a b c)) _ h4 in
      let same = ok-injective h5 in
      record {
        initial = ra ∙ ap (λ p. ok p.initial_interval) same;
        maximum = rb ∙ ap (λ p. ok p.maximum_interval) same;
        threshold = rc ∙ ap (λ p. ok p.durable_threshold) same;
        whole =
            subst
              (λ p.
                unchecked_plan policy p.initial_interval p.maximum_interval p.durable_threshold ≡ p)
              same refl;
      }

  -- The end of `plan_retries`.
  abbrev finish : RetryPlan → Result RetryPlan
  finish plan =
      and_then (require (plan_checks plan) plain)
        (λ _. and_then (validate_retry_schedule plan) (λ _. ok plan))

  finish-ok :
      (plan : RetryPlan)
      → plan_checks plan ≡ true
      → validate_retry_schedule plan ≡ ok tt
      → finish plan ≡ ok plan
  finish-ok plan checks schedule =
      ap
        (λ b.
          and_then (require b plain) (λ _. and_then (validate_retry_schedule plan) (λ _. ok plan)))
        checks
      ∙ ap (λ r. and_then r (λ _. ok plan)) schedule

  plan_checks-with_codes :
      (plan : RetryPlan) (codes : List Text)
      → plan_checks (with_codes plan codes) ≡ plan_checks plan
  unfolding plan_checks
  plan_checks-with_codes plan codes = refl

  Planned-plan_retries :
      {policy : RetryPolicy} {plan : RetryPlan}
      → Planned policy plan
      → plan_checks plan ≡ true
      → validate_retry_schedule plan ≡ ok tt
      → plan_retries (some policy) ≡ ok plan
  unfolding plan_retries
  Planned-plan_retries {plan} planned checks schedule =
      rw (planned.initial, and_then, planned.maximum, planned.threshold)
        (ap finish planned.whole ∙ finish-ok plan checks schedule)

  -- A coefficient that passed the checks is kept.
  same_coefficient :
      (laws : Positive n) (plan : RetryPlan)
      → plan_checks plan ≡ true
      → (if float_same plan.backoff_coefficient float_zero
          then float_one
          else plan.backoff_coefficient)
        ≡ plan.backoff_coefficient
  unfolding plan_checks
  same_coefficient laws plan h =
      let positive : greater plan.backoff_coefficient float_zero ≡ true = ground arith in
      rw (laws.greater-ne-zero plan.backoff_coefficient positive)

  -- The canonical policy of a plan makes the same plan again, with the same set of codes that are not
  -- retried, and is its own canonical policy.
  pub normalize_retry_policy-canonical :
      (laws : Positive n) (policy : RetryPolicy) {plan : RetryPlan}
      → plan_retries (some policy) ≡ ok plan
      → (plan_retries (normalize_retry_policy (some policy) plan)
          ≡ ok (with_codes plan (canonical plan.non_retryable)))
        × (normalize_retry_policy
              (normalize_retry_policy (some policy) plan)
              (with_codes plan (canonical plan.non_retryable))
            ≡ normalize_retry_policy (some policy) plan)
        × ((code : Text) → In code (canonical plan.non_retryable) ↔ In code plan.non_retryable)
  unfolding plan_retries normalize_retry_policy
  normalize_retry_policy-canonical laws policy {plan} h =
      let planned = plan_retries-Planned policy h in
      let (checks, schedule) = plan_retries-checked policy h in
      let codes : policy.non_retryable_error_codes ≡ plan.non_retryable =
        ap (λ p. p.non_retryable) planned.whole in
      let attempts : policy.maximum_attempts ≡ plan.max_attempts =
        ap (λ p. p.max_attempts) planned.whole in
      let plan' = with_codes plan (canonical plan.non_retryable) in
      (
        Planned-plan_retries {plan = plan'}
            (record {
              initial = retry_policy_duration-unless_zero policy.initial_interval planned.initial;
              maximum = retry_policy_duration-unless_zero policy.maximum_interval planned.maximum;
              threshold =
                  retry_policy_duration-unless_zero policy.durable_backoff_threshold
                    planned.threshold;
              whole = λ i. record plan {
                backoff_coefficient = same_coefficient laws plan checks i;
                non_retryable = canonical (codes i);
              };
            })
            (plan_checks-with_codes plan (canonical plan.non_retryable) ∙ checks)
            (validate_from-with_codes (plan.max_attempts - 1) 1 plan.initial_interval plan
                (canonical plan.non_retryable)
              ∙ schedule),
        ap
            (λ cs. some (record {
              initial_interval = unless_zero plan.initial_interval;
              backoff_coefficient = plan.backoff_coefficient;
              maximum_interval = unless_zero plan.maximum_interval;
              maximum_attempts = plan.max_attempts;
              non_retryable_error_codes = cs;
              durable_backoff_threshold = unless_zero plan.durable_threshold;
            }))
            (canonical-canonical policy.non_retryable_error_codes),
        λ code. In-canonical code plan.non_retryable,
      )
