-- ===== src/Runtime/Checked.antt =====
-- What the checks of a wake timer let through, and what they fail with.
use temporaless.Prelude.{
  ◌≡◌, refl, sym, ap, subst, Bool, true, false, ◌&&◌, ◌||◌, Option, none, some, if◌then◌else◌,
  Bool-cases, ◌⊎◌, inl, inr, arith,
}
use temporaless.Action.{
  Error, Result, ok, err, joined, infrastructure, activity_failed, timer_conflict, is_corrupt,
  corrupt_record,
}
use temporaless.Key.{TimerKey}
use temporaless.Message.{ℤ, Time, TimerRecord, TimerStatus, TimerKind}
use temporaless.Validate.{check, validate_timer_record}
use temporaless.Validate.Listed.{is_empty}
use temporaless.Runtime.Errors.{
  wraps, is_conflict, is_timer_pending, is_infrastructure, workflow_infrastructure_error,
}
use temporaless.Runtime.TimerDetails.{
  Calendar, timer_details, checked_details, duration_is, time_valid, fired_at_fits, fire_time_of,
}

or_last : (a b : Bool) → b ≡ true → (a || b) ≡ true
or_last a b h = ground arith

pub joined-conflict :
    (a b : Error) → wraps is_conflict a ≡ true → wraps is_conflict (joined a b) ≡ true
joined-conflict a b h = rw h refl

-- An error that names no wake time.
abbrev pub NamesNoWait : Error → Type 0
NamesNoWait e = wraps is_timer_pending e ≡ false

pub joined-NamesNoWait : (a b : Error) → NamesNoWait a → NamesNoWait b → NamesNoWait (joined a b)
joined-NamesNoWait a b ha hb = rw (ha, hb) refl

pub infrastructure-NamesNoWait :
    (x : Error) → NamesNoWait x → NamesNoWait (workflow_infrastructure_error x)
unfolding workflow_infrastructure_error
infrastructure-NamesNoWait x h = elim (Bool-cases (is_corrupt x || wraps is_infrastructure x)) [
  | inl as_is ↦ rw as_is h
  | inr wrapped ↦ rw wrapped h
]

check-NamesNoWait : (b : Bool) (x : Error) → check b ≡ err x → NamesNoWait x
check-NamesNoWait true x h = cc
check-NamesNoWait false x h =
    let same : corrupt_record ≡ x = cc in ap (wraps is_timer_pending) (sym same)

validated-NamesNoWait :
    (found : Option TimerRecord) (key : TimerKey) (x : Error)
    → validate_timer_record found key ≡ err x
    → NamesNoWait x
unfolding validate_timer_record
validated-NamesNoWait none key x h =
    let same : corrupt_record ≡ x = cc in ap (wraps is_timer_pending) (sym same)
validated-NamesNoWait (some r) key x h = check-NamesNoWait _ x h

module _ ⦃n : Calendar⦄ (is_kind : TimerKind → Bool) (passes : ℤ → Bool) where
  -- A record that passes, with what the details say of it.
  abbrev pub Passed : Option TimerRecord → Time → TimerStatus → Type 0
  Passed found t status =
      (r : TimerRecord) × (found ≡ some r)
      × (r.status ≡ status)
      × (fire_time_of r ≡ t)
      × (fired_at_fits status r.fired_at ≡ true)

  last_of_six : (a b c d e f : Bool) → (a && b && c && d && e && f) ≡ true → f ≡ true
  last_of_six a b c d e f h = ground arith

  chosen :
      (b : Bool) (p q : Time × TimerStatus)
      → ◌≡◌ {A = Result (Time × TimerStatus)} (if b then ok p else err timer_conflict) (ok q)
      → (b ≡ true) × (p.0 ≡ q.0) × (p.1 ≡ q.1)
  chosen true p q h = (refl, cc, cc)
  chosen false p q h = cc

  rejected :
      (b : Bool) (p : Time × TimerStatus) (e : Error)
      → ◌≡◌ {A = Result (Time × TimerStatus)} (if b then ok p else err timer_conflict) (err e)
      → wraps is_conflict e ≡ true
  rejected true p e h = cc
  rejected false p e h = let same : timer_conflict ≡ e = cc in ap (wraps is_conflict) (sym same)

  checked_details_sound :
      (found : Option TimerRecord) (duration : ℤ) (t : Time) (status : TimerStatus)
      → checked_details is_kind passes found duration ≡ ok (t, status)
      → Passed found t status
  unfolding checked_details
  checked_details_sound none duration t status h = cc
  checked_details_sound (some r) duration t status h =
      let (passed, time_same, status_same) = chosen _ (fire_time_of r, r.status) (t, status) h in
      let fits =
        last_of_six (is_kind r.timer_kind) (is_empty r.retry_activity_id)
          (duration_is passes duration r.duration) (time_valid r.created_at) (time_valid r.fire_at)
          (fired_at_fits r.status r.fired_at) passed in
      (
        r,
        refl,
        status_same,
        time_same,
        subst (λ x. fired_at_fits x r.fired_at ≡ true) status_same fits,
      )

  checked_details-conflict :
      (found : Option TimerRecord) (duration : ℤ) (e : Error)
      → checked_details is_kind passes found duration ≡ err e
      → wraps is_conflict e ≡ true
  unfolding checked_details
  checked_details-conflict none duration e h =
      let same : timer_conflict ≡ e = cc in ap (wraps is_conflict) (sym same)
  checked_details-conflict (some r) duration e h = rejected _ (fire_time_of r, r.status) e h

  after_validation :
      (v : Result (Unit {0})) (d : Result (Time × TimerStatus)) (p : Time × TimerStatus)
      → (elim v [ err x ↦ err (joined timer_conflict x) | ok _ ↦ d ]) ≡ ok p
      → d ≡ ok p
  after_validation (ok u) d p h = h
  after_validation (err x) d p h = cc

  conflict_either :
      (v : Result (Unit {0})) (d : Result (Time × TimerStatus)) (e : Error)
      → (elim v [ err x ↦ err (joined timer_conflict x) | ok _ ↦ d ]) ≡ err e
      → (d ≡ err e) ⊎ (wraps is_conflict e ≡ true)
  conflict_either (ok u) d e h = inl h
  conflict_either (err x) d e h =
      let same : joined timer_conflict x ≡ e = cc in inr (ap (wraps is_conflict) (sym same))

  pub timer_details_sound :
      (found : Option TimerRecord) (key : TimerKey) (duration : ℤ) (t : Time) (status : TimerStatus)
      → timer_details is_kind passes found key duration ≡ ok (t, status)
      → Passed found t status
  unfolding timer_details
  timer_details_sound found key duration t status h =
      checked_details_sound found duration t status
        (after_validation (validate_timer_record found key) _ (t, status) h)

  pub timer_details-conflict :
      (found : Option TimerRecord) (key : TimerKey) (duration : ℤ) (e : Error)
      → timer_details is_kind passes found key duration ≡ err e
      → wraps is_conflict e ≡ true
  unfolding timer_details
  timer_details-conflict found key duration e h =
      elim (conflict_either (validate_timer_record found key) _ e h) [
        | inl failed ↦ checked_details-conflict found duration e failed
        | inr conflict ↦ conflict
      ]

  no_other :
      (b : Bool) (p : Time × TimerStatus) (e : Error)
      → ◌≡◌ {A = Result (Time × TimerStatus)} (if b then ok p else err timer_conflict) (err e)
      → NamesNoWait e
  no_other true p e h = cc
  no_other false p e h =
      let same : timer_conflict ≡ e = cc in ap (wraps is_timer_pending) (sym same)

  checked_details-NamesNoWait :
      (found : Option TimerRecord) (duration : ℤ) (e : Error)
      → checked_details is_kind passes found duration ≡ err e
      → NamesNoWait e
  unfolding checked_details
  checked_details-NamesNoWait none duration e h =
      let same : timer_conflict ≡ e = cc in ap (wraps is_timer_pending) (sym same)
  checked_details-NamesNoWait (some r) duration e h = no_other _ (fire_time_of r, r.status) e h

  either-NamesNoWait :
      (v : Result (Unit {0})) (d : Result (Time × TimerStatus)) (e : Error)
      → ((x : Error) → v ≡ err x → NamesNoWait x)
      → (d ≡ err e → NamesNoWait e)
      → (elim v [ err x ↦ err (joined timer_conflict x) | ok _ ↦ d ]) ≡ err e
      → NamesNoWait e
  either-NamesNoWait (ok u) d e invalid checked h = checked h
  either-NamesNoWait (err x) d e invalid checked h =
      let same : joined timer_conflict x ≡ e = cc in
      subst NamesNoWait same (joined-NamesNoWait timer_conflict x refl (invalid x refl))

  pub timer_details-NamesNoWait :
      (found : Option TimerRecord) (key : TimerKey) (duration : ℤ) (e : Error)
      → timer_details is_kind passes found key duration ≡ err e
      → NamesNoWait e
  unfolding timer_details
  timer_details-NamesNoWait found key duration e h =
      either-NamesNoWait (validate_timer_record found key) _ e (validated-NamesNoWait found key)
        (checked_details-NamesNoWait found duration e) h

either_of :
    (a b c : Bool) → (a || b) ≡ true → (a ≡ true → c ≡ true) → (b ≡ true → c ≡ true) → c ≡ true
either_of a b c h f g = ground arith

is_corrupt-conflict : (x : Error) → is_corrupt x ≡ true → wraps is_conflict x ≡ true
is_corrupt-conflict (joined a b) h =
    either_of (is_corrupt a) (is_corrupt b) (wraps is_conflict a || wraps is_conflict b) h
      (λ ha. rw (is_corrupt-conflict a ha) refl)
      (λ hb. or_last (wraps is_conflict a) (wraps is_conflict b) (is_corrupt-conflict b hb))
is_corrupt-conflict (infrastructure a) h = is_corrupt-conflict a h
is_corrupt-conflict (activity_failed a) h = is_corrupt-conflict a h
is_corrupt-conflict x h = cc

-- An infrastructure error is one, or is a corrupt record.
pub infrastructure-kind :
    (x : Error)
    → (wraps is_conflict (workflow_infrastructure_error x) ≡ true)
      ⊎ (wraps is_infrastructure (workflow_infrastructure_error x) ≡ true)
unfolding workflow_infrastructure_error
infrastructure-kind x = elim (Bool-cases (is_corrupt x)) [
  | inl corrupt ↦ rw corrupt (inl (is_corrupt-conflict x corrupt))
  | inr other ↦ elim (Bool-cases (wraps is_infrastructure x)) [
    | inl already ↦ rw (other, already) (inr already)
    | inr plain ↦ rw (other, plain) (inr refl)
  ]
]
