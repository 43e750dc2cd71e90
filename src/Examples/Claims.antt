-- ===== src/Examples/Claims.antt =====
-- A run of the concurrency slots over a set of claims.
use temporaless.Prelude.{
  ◌+◌, ◌≡◌, ◌≢◌, refl, sym, subst, Bool, true, false, Option, none, some, [], ◌∷◌, codes,
  text_eq_refl, if◌then◌else◌, Bool-cases, inl, inr,
}
use temporaless.Action.{Result, ok, err, plain, Action}
use temporaless.Key.{ClaimKey, key_eq}
use temporaless.Message.{ℤ}
use temporaless.Runtime.Slots.{ClaimStore, acquire_concurrency_slot}
use temporaless.Runtime.Acquire.{ClaimLaws, Acquired, acquire_concurrency_slot-Acquired}
use temporaless.Examples.Shelf.{key_eq_sound}
use temporaless.Examples.Slot.{nanos_calendar}

abbrev Claims : Type 0
Claims = ClaimKey → Bool

abbrev with_claim : ClaimKey → Claims → Claims
with_claim key w k = if key_eq key k then true else w k

abbrev try_key : Option ClaimKey → Action Claims Bool
try_key none w = (err plain, w)
try_key (some key) w = if w key then (ok false, w) else (ok true, with_claim key w)

abbrev claim_set : ClaimStore Claims
claim_set = record {
  ctx_err = λ w. (ok tt, w);
  now = λ w. (7, w);
  try_create_claim = λ r. try_key r.key;
  delete_claim = λ key w. (ok (w key), λ k. if key_eq key k then false else w k);
  decimal = λ i. (48 + i) ∷ [];
}

key_eq_refl : (key : ClaimKey) → key_eq key key ≡ true
unfolding key_eq
key_eq_refl key = rw (
  text_eq_refl key.namespace,
  text_eq_refl key.workflow_id,
  text_eq_refl key.run_id,
  text_eq_refl key.id,
)

other_claim : (key k : ClaimKey) → k ≢ key → key_eq key k ≡ false
other_claim key k other = elim (Bool-cases (key_eq key k)) [
  | inl same ↦ absurd (other (sym (key_eq_sound key k same)))
  | inr off ↦ off
]

created_at :
    (key : ClaimKey) (w : Claims)
    → (try_key (some key) w).0 ≡ ok true
    → (w key ≡ false)
      × ((try_key (some key) w).1 key ≡ true)
      × ((k : ClaimKey) → k ≢ key → (try_key (some key) w).1 k ≡ w k)
created_at key w h = elim (Bool-cases (w key)) [
  | inl there ↦ let wrong : ◌≡◌ {A = Result Bool} (ok false) (ok true) = rw there at h in cc
  | inr free ↦ (free, rw (free, key_eq_refl key), λ k other. rw (free, other_claim key k other))
]

not_created_at :
    (key : ClaimKey) (w : Claims)
    → (try_key (some key) w).0 ≡ ok false
    → (w key ≡ true) × ((k : ClaimKey) → (try_key (some key) w).1 k ≡ w k)
not_created_at key w h = elim (Bool-cases (w key)) [
  | inl there ↦ (there, λ k. rw there)
  | inr free ↦ let wrong : ◌≡◌ {A = Result Bool} (ok true) (ok false) = rw free at h in cc
]

claim_set-ClaimLaws : ClaimLaws claim_set
claim_set-ClaimLaws = record {
  held = λ w. w;
  ctx_quiet = λ w k. refl;
  now_quiet = λ w k. refl;
  created = λ r key w same.
      subst
        (λ o.
          (try_key o w).0 ≡ ok true
          → (w key ≡ false)
            × ((try_key o w).1 key ≡ true)
            × ((k : ClaimKey) → k ≢ key → (try_key o w).1 k ≡ w k))
        (sym same) (created_at key w);
  not_created = λ r key w same.
      subst
        (λ o.
          (try_key o w).0 ≡ ok false → (w key ≡ true) × ((k : ClaimKey) → (try_key o w).1 k ≡ w k))
        (sym same) (not_created_at key w);
}

acquire_concurrency_slot-Acquired_example :
    Acquired claim_set
      (codes "default")
      (codes "batch")
      claim_set-ClaimLaws
      (λ k. false)
      0
      2
      (acquire_concurrency_slot claim_set
        (codes "default")
        (codes "batch")
        2
        (codes "me")
        (ℤ.pos 30)
        (λ k. false))
acquire_concurrency_slot-Acquired_example =
    acquire_concurrency_slot-Acquired claim_set (codes "default") (codes "batch")
      claim_set-ClaimLaws 2 (codes "me") (ℤ.pos 30) (λ k. false)
