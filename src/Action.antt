-- ===== src/Action.antt =====
-- The errors of the storage package, fallible code as a value, and fallible code that also changes
-- a state: what was written before an error stays written, so the state comes back beside the error.
use temporaless.Prelude.{◌≡◌, refl, ap, ℕ, Bool, true, false, ◌||◌, Text}

-- Errors up to what `errors.Is` and `errors.As` can tell: the sentinels of core/go/storage
-- (`ErrCorruptRecord`, `ErrStaleLatestPointer`, `ErrEventDeliveryUnsupported`), a protovalidate
-- error, a finished context, the codes of an object-store error, and errors without a class; and of
-- core/go/workflow: its sentinels, the pending errors with the id and the wake time, an
-- infrastructure error around its cause, and the error of an activity body around its cause; and of
-- adapters/go/janitor: its sentinels, the two on claims as one.
-- `out_of_fuel` is no error of the code: a loop of the model ends with it where its fuel ends.
pub data Error : Type 0 where
  corrupt_record stale_latest_pointer event_delivery_unsupported : Error
  invalid_key context_done not_found plain : Error
  backend : ℕ → Error
  joined : Error → Error → Error
  activity_conflict timer_conflict workflow_conflict : Error
  claim_busy claim_release dependency_pending : Error
  timer_pending event_pending : Text → ℕ → Error
  infrastructure activity_failed : Error → Error
  run_listing_data_loss claim_unsupported : Error
  out_of_fuel : Error

-- `errors.Is(err, ErrCorruptRecord)`
abbrev pub is_corrupt : Error → Bool
is_corrupt corrupt_record = true
is_corrupt (joined a b) = is_corrupt a || is_corrupt b
is_corrupt (infrastructure e) = is_corrupt e
is_corrupt (activity_failed e) = is_corrupt e
is_corrupt _ = false

-- `errors.Is(err, ErrStaleLatestPointer)`
abbrev pub is_stale : Error → Bool
is_stale stale_latest_pointer = true
is_stale (joined a b) = is_stale a || is_stale b
is_stale (infrastructure e) = is_stale e
is_stale (activity_failed e) = is_stale e
is_stale _ = false

-- The errors that a call of the object store or of the context gives.
abbrev pub is_fault : Error → Bool
is_fault context_done = true
is_fault not_found = true
is_fault (backend n) = true
is_fault _ = false

pub data Result {ℓ} (A : Type ℓ) : Type ℓ where
  ok : A → Result A
  err : Error → Result A

abbrev pub and_then {ℓ κ} : {A : Type ℓ} {B : Type κ} → Result A → (A → Result B) → Result B
and_then (ok a) f = f a
and_then (err e) f = err e

pub and_then-ok :
    {A B : Type 0} (m : Result A) (f : A → Result B) {b : B}
    → and_then m f ≡ ok b
    → (a : A) × (m ≡ ok a) × (f a ≡ ok b)
and_then-ok (ok a) f h = (a, refl, h)
and_then-ok (err e) f h = cc

-- `if !b { return err }`
abbrev pub require : Bool → Error → Result (Unit {0})
require true e = ok tt
require false e = err e

abbrev pub Action {ℓ} : Type ℓ → Type ℓ → Type ℓ
Action S A = S → Result A × S

module _ {ℓ} {S A : Type ℓ} where
  abbrev pub done : A → Action S A
  done a s = (ok a, s)

  abbrev pub fail : Error → Action S A
  fail e s = (err e, s)

  abbrev pub lift : Result A → Action S A
  lift r s = (r, s)

  -- The result of a call as a value, for code that looks at the error.
  abbrev pub attempt : Action S A → Action S (Result A)
  attempt m s = let (r, s') = m s in (ok r, s')

module _ {ℓ} {S A B : Type ℓ} where
  abbrev pub proceed : (A → Action S B) → Result A × S → Result B × S
  proceed f (ok a, s) = f a s
  proceed f (err e, s) = (err e, s)

  infixl 10 ◌>>=◌ ◌>>◌
  abbrev pub ◌>>=◌ : Action S A → (A → Action S B) → Action S B
  ◌>>=◌ m f s = proceed f (m s)

  abbrev pub ◌>>◌ : Action S A → Action S B → Action S B
  m >> n = m >>= λ _. n

  -- A composition that succeeds has parts that succeed.
  pub bind-ok :
      (k : A → Action S B) (r : Result A × S) {b : B}
      → (proceed k r).0 ≡ ok b
      → (a : A) × ((r.0 ≡ ok a) × ((k a r.1).0 ≡ ok b))
  bind-ok k (ok a, s) h = (a, (refl, h))
  bind-ok k (err x, s) h = cc

  -- A composition that succeeds, with the state that each part leaves.
  pub bind-step :
      (k : A → Action S B) (r : Result A × S) {b : B} {t : S}
      → proceed k r ≡ (ok b, t)
      → (a : A) × ((s : S) × (r ≡ (ok a, s)) × (k a s ≡ (ok b, t)))
  bind-step k (ok a, s) h = (a, (s, refl, h))
  bind-step k (err x, s) h = absurd (err-ne-ok (ap (λ p. p.0) h))
    where
      err-ne-ok : {x : Error} {b : B} → ◌≡◌ {A = Result B} (err x) (ok b) → ⊥
      err-ne-ok h = cc

  -- A composition fails with an error of one of its parts.
  pub bind-ne-err :
      (x : Error) (k : A → Action S B) (r : Result A × S)
      → (r.0 ≡ err x → ⊥)
      → ((a : A) → r.0 ≡ ok a → (k a r.1).0 ≡ err x → ⊥)
      → (proceed k r).0 ≡ err x
      → ⊥
  bind-ne-err x k (ok a, s) first rest h = rest a refl h
  bind-ne-err x k (err y, s) first rest h = first cc

-- What holds of both ends of a composition.
pub ends-bind :
    {S A B : Type 0} (P : Result B × S → Type 0) (k : A → Action S B) (r : Result A × S)
    → ((e : Error) → r.0 ≡ err e → P (err e, r.1))
    → ((a : A) → r.0 ≡ ok a → P (k a r.1))
    → P (proceed k r)
ends-bind P k (ok a, s) failed next = next a refl
ends-bind P k (err e, s) failed next = failed e refl
