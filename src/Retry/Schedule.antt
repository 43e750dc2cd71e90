-- ===== src/Retry/Schedule.antt =====
-- The intervals of a checked plan.
use temporaless.Prelude.{
  ℕ, zero, suc, ◌+◌, ◌-◌, ◌≤◌, ◌<◌, ◌≡◌, refl, ap, subst, ◌∙◌, Bool, true, false, not, ◌&&◌, ◌⊎◌,
  inl, inr, Option, none, some, leb, ◌==◌, if◌then◌else◌, arith,
}
use temporaless.Action.{Error, Result, ok, err, and_then, and_then-ok, require, plain}
use temporaless.Message.{ℤ, RetryPolicy}
use temporaless.Retry.{
  Numbers, RetryPlan, next_interval, validate_from, validate_retry_schedule, advance,
  retry_interval_after_attempt, plan_retries, plan_checks, unchecked_plan, is_positive, int_less,
  retry_policy_duration, maximum_retry_attempts,
}

-- What the bounds rely on: a float that is below that of a duration is cut to one not above it.
pub record Truncates (n : Numbers) : Type 0 where
  pub duration_below :
      (x : ℕ) (m : ℤ)
      → n.is_nan x ≡ false
      → n.at_least x (n.float_of m) ≡ false
      → int_less m (n.duration_of x) ≡ false

-- An interval that a plan may wait: positive, and not above the maximum if there is one.
pub record IsInterval (plan : RetryPlan) (d : ℤ) : Type 0 where
  pub positive : is_positive d ≡ true
  pub bounded : is_positive plan.maximum_interval ≡ true → int_less plan.maximum_interval d ≡ false

int_less-irreflexive : (d : ℤ) → int_less d d ≡ false
int_less-irreflexive (ℤ.pos k) = ground arith
int_less-irreflexive (ℤ.negsuc k) = ground arith

pub ok-injective : {A : Type 0} {a b : A} → ◌≡◌ {A = Result A} (ok a) (ok b) → a ≡ b
ok-injective h = cc

pub require-true : (b : Bool) (x : Error) {u : Unit} → require b x ≡ ok u → b ≡ true
require-true true x h = refl
require-true false x h = cc

module _ ⦃n : Numbers⦄ where
  open n use {times, at_least, greater, is_nan, is_inf, float_of, duration_of}

  next_cases :
      (capped wrong stuck : Bool) (m x : ℤ) {d : ℤ}
      → ◌≡◌ {A = Result ℤ}
          (if capped then ok m else if wrong then err plain else if stuck then err plain else ok x)
          (ok d)
      → ((capped ≡ true) × (m ≡ d))
        ⊎ ((capped ≡ false) × (wrong ≡ false) × (stuck ≡ false) × (x ≡ d))
  next_cases true wrong stuck m x h = inl (refl, ok-injective h)
  next_cases false true stuck m x h = cc
  next_cases false false true m x h = cc
  next_cases false false false m x h = inr (refl, refl, refl, ok-injective h)

  next_interval-IsInterval :
      (laws : Truncates n) (prev : ℤ) (plan : RetryPlan) {d : ℤ}
      → is_positive prev ≡ true
      → next_interval prev plan ≡ ok d
      → IsInterval plan d
  unfolding next_interval
  next_interval-IsInterval laws prev plan {d} up h =
      let next = times (float_of prev) plan.backoff_coefficient in
      let m = plan.maximum_interval in
      elim (next_cases (is_positive m && at_least next (float_of m)) _ _ m (duration_of next) h) [
        | inl (capped, same) ↦
            subst (IsInterval plan) same
              (record { positive = ground arith; bounded = λ _. int_less-irreflexive m })
        | inr (free, right, moving, same) ↦ subst (IsInterval plan) same (record {
          positive = ground arith;
          bounded = λ limited. laws.duration_below next m (ground arith) (ground arith);
        })
      ]

  -- A round that is not the last computes an interval.
  checked_round :
      (last : Bool) (kept gone : Result (Unit {0}))
      → last ≡ false
      → elim last [ true ↦ kept | false ↦ gone ] ≡ ok tt
      → gone ≡ ok tt
  checked_round true kept gone other h = cc
  checked_round false kept gone other h = h

  -- A plan whose rounds are checked can go on for as many rounds but the last.
  validate_from-advance :
      (laws : Truncates n) (rounds attempt : ℕ) (interval : ℤ) (plan : RetryPlan)
      → validate_from rounds attempt interval plan ≡ ok tt
      → attempt + rounds ≡ plan.max_attempts
      → IsInterval plan interval
      → (k : ℕ) → attempt + k < plan.max_attempts
      → (d : ℤ) × (advance k interval plan ≡ ok d) × IsInterval plan d
  unfolding validate_from advance
  validate_from-advance laws rounds attempt interval plan h total good zero small =
      (interval, refl, good)
  validate_from-advance laws zero attempt interval plan h total good (suc k) small =
      absurd (omega arith)
  validate_from-advance laws (suc rounds) attempt interval plan h total good (suc k) small =
      let more : leb plan.max_attempts (attempt + 1) ≡ false = ground arith in
      let (next, got, rest) =
        and_then-ok (next_interval interval plan) _
          (checked_round (leb plan.max_attempts (attempt + 1)) _ _ more h) in
      let (d, same, good') =
        validate_from-advance laws rounds (attempt + 1) next plan rest (omega arith)
          (next_interval-IsInterval laws interval plan good.positive got) k (omega arith) in
      (d, ap (λ r. and_then r (λ z. advance k z plan)) got ∙ same, good')

  -- The bounds of a plan that passes, and its first interval.
  plan_checks-first :
      (plan : RetryPlan)
      → plan_checks plan ≡ true
      → (1 ≤ plan.max_attempts)
        × (plan.max_attempts ≤ 100)
        × (1 < plan.max_attempts → IsInterval plan plan.initial_interval)
  unfolding plan_checks
  plan_checks-first plan h = (
    ground arith,
    ground arith,
    λ more. record { positive = ground arith; bounded = λ limited. ground arith },
  )

  -- A plan of a policy that is there is checked, and so is its schedule.
  pub plan_retries-checked :
      (policy : RetryPolicy) {plan : RetryPlan}
      → plan_retries (some policy) ≡ ok plan
      → (plan_checks plan ≡ true) × (validate_retry_schedule plan ≡ ok tt)
  unfolding plan_retries
  plan_retries-checked policy {plan} h =
      let (a, _, h1) = and_then-ok (retry_policy_duration policy.initial_interval) _ h in
      let (b, _, h2) = and_then-ok (retry_policy_duration policy.maximum_interval) _ h1 in
      let (c, _, h3) = and_then-ok (retry_policy_duration policy.durable_backoff_threshold) _ h2 in
      let (_, checks, h4) =
        and_then-ok (require (plan_checks (unchecked_plan policy a b c)) plain) _ h3 in
      let (_, schedule, h5) =
        and_then-ok (validate_retry_schedule (unchecked_plan policy a b c)) _ h4 in
      let same = ok-injective h5 in
      (
        subst (λ p. plan_checks p ≡ true) same
            (require-true (plan_checks (unchecked_plan policy a b c)) plain checks),
        subst (λ p. validate_retry_schedule p ≡ ok tt) same schedule,
      )

  -- A policy that makes a plan allows between one attempt and the supported maximum, and the
  -- interval after every failed attempt but the last can be computed: it is positive, and not above
  -- the maximum interval where the policy sets one.
  pub plan_retries_sound :
      (laws : Truncates n) (policy : Option RetryPolicy) {plan : RetryPlan}
      → plan_retries policy ≡ ok plan
      → (1 ≤ plan.max_attempts)
        × (plan.max_attempts ≤ maximum_retry_attempts)
        × ((attempt : ℕ)
            → 1 ≤ attempt
            → attempt < plan.max_attempts
            → (d : ℤ) × (retry_interval_after_attempt attempt plan ≡ ok d) × IsInterval plan d)
  unfolding plan_retries retry_interval_after_attempt
  plan_retries_sound laws none {plan} h =
      let one : 1 ≡ plan.max_attempts = ap (λ p. p.max_attempts) (ok-injective h) in
      (omega arith, omega arith, λ attempt low high. absurd (omega arith))
  plan_retries_sound laws (some policy) {plan} h =
      let (checks, schedule) = plan_retries-checked policy h in
      let (low, high, first) = plan_checks-first plan checks in
      (
        low,
        high,
        λ attempt from below.
            let started : not (attempt == 0) ≡ true = ground arith in
            let (d, same, good) =
              validate_from-advance laws (plan.max_attempts - 1) 1 plan.initial_interval plan
                schedule (omega arith) (first (omega arith)) (attempt - 1) (omega arith) in
            (d, rw started same, good),
      )
