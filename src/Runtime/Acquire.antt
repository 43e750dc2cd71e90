-- ===== src/Runtime/Acquire.antt =====
-- What acquiring a concurrency slot does to the claims.
use temporaless.Prelude.{
  ℕ, zero, suc, ◌+◌, ◌<◌, ◌≤◌, ◌≡◌, ◌≢◌, refl, sym, ◌∙◌, subst, Bool, true, false, Option, none,
  some, Text, if◌then◌else◌, ◌⊎◌, inl, inr, arith, ltb, Bool-cases, ltb→lt,
}
use temporaless.Action.{Result, ok, err, done}
use temporaless.Key.{ClaimKey, with_defaults}
use temporaless.Message.{ℤ}
use temporaless.Validate.Listed.{ClaimRecord}
use temporaless.Runtime.TimerDetails.{Calendar}
use temporaless.Runtime.Slots.{
  ClaimStore, slot_id, claim_key_of, slot_claim, acquire_from, acquire_concurrency_slot,
}
use temporaless.Runtime.Laws.{ends-bind}

-- A create-only store: a claim is made where there is none, and an answer says which it was. A call
-- that fails may have made the claim.
pub record ClaimLaws {W : Type 0} (store : ClaimStore W) : Type 0 where
  pub held : W → ClaimKey → Bool
  pub ctx_quiet : (w : W) (k : ClaimKey) → held (store.ctx_err w).1 k ≡ held w k
  pub now_quiet : (w : W) (k : ClaimKey) → held (store.now w).1 k ≡ held w k
  pub created :
      (r : ClaimRecord) (key : ClaimKey) (w : W)
      → r.key ≡ some key
      → (store.try_create_claim r w).0 ≡ ok true
      → (held w key ≡ false)
        × (held (store.try_create_claim r w).1 key ≡ true)
        × ((k : ClaimKey) → k ≢ key → held (store.try_create_claim r w).1 k ≡ held w k)
  pub not_created :
      (r : ClaimRecord) (key : ClaimKey) (w : W)
      → r.key ≡ some key
      → (store.try_create_claim r w).0 ≡ ok false
      → (held w key ≡ true) × ((k : ClaimKey) → held (store.try_create_claim r w).1 k ≡ held w k)

same_or_later : (i j : ℕ) → i ≤ j → (i ≡ j) ⊎ (i + 1 ≤ j)
same_or_later i j h = elim (Bool-cases (ltb i j)) [
  | inl before ↦ inr (let lt = ltb→lt i j before in omega arith)
  | inr other ↦ inl (ground arith)
]

module _ {W : Type 0} ⦃n : Calendar⦄ (store : ClaimStore W) (namespace concurrency_key : Text)
    (laws : ClaimLaws store) where
  open laws use {held}

  -- The claim of the slot with an index.
  abbrev pub slot_key : ℕ → ClaimKey
  slot_key i =
      with_defaults
        (claim_key_of store namespace concurrency_key (slot_id store namespace concurrency_key i))

  -- From the index `i` on, with a number of slots, started on the claims of `w`.
  abbrev pub Acquired : W → ℕ → ℕ → Result (Option Text) × W → Type 0
  Acquired w i left (err e, w') = Unit
  Acquired w i left (ok none, w') =
      ((j : ℕ) → i ≤ j → j < i + left → held w (slot_key j) ≡ true)
      × ((k : ClaimKey) → held w' k ≡ held w k)
  Acquired w i left (ok (some id), w') =
      (j : ℕ) × (i ≤ j)
      × (j < i + left)
      × (id ≡ slot_id store namespace concurrency_key j)
      × ((h : ℕ) → i ≤ h → h < j → held w (slot_key h) ≡ true)
      × (held w (slot_key j) ≡ false)
      × (held w' (slot_key j) ≡ true)
      × ((k : ClaimKey) → k ≢ slot_key j → held w' k ≡ held w k)

  widen :
      (w w3 : W) (i left : ℕ) (x : Result (Option Text) × W)
      → held w (slot_key i) ≡ true
      → ((k : ClaimKey) → held w3 k ≡ held w k)
      → Acquired w3 (i + 1) left x
      → Acquired w i (suc left) x
  widen w w3 i left (err e, w') full same h = tt
  widen w w3 i left (ok none, w') full same (all_full, quiet) = (
    λ j low high. elim (same_or_later i j low) [
      | inl at ↦ subst (λ z. held w (slot_key z) ≡ true) at full
      | inr later ↦ sym (same (slot_key j)) ∙ all_full j later (omega arith)
    ],
    λ k. quiet k ∙ same k,
  )
  widen w w3 i left (ok (some id), w') full same
        (j, low, high, named, before, free, now_held, others) =
      (
        j,
        omega arith,
        omega arith,
        named,
        λ h low' high'. elim (same_or_later i h low') [
          | inl at ↦ subst (λ z. held w (slot_key z) ≡ true) at full
          | inr later ↦ sym (same (slot_key h)) ∙ before h later high'
        ],
        sym (same (slot_key j)) ∙ free,
        now_held,
        λ k other. others k other ∙ same k,
      )

  Acquired-acquire_from :
      (owner_id : Text) (lease : ℤ) (left i : ℕ) (w : W)
      → Acquired w i left (acquire_from store namespace concurrency_key owner_id lease left i w)
  unfolding acquire_from
  Acquired-acquire_from owner_id lease zero i w = (λ j low high. absurd (omega arith), λ k. refl)
  Acquired-acquire_from owner_id lease (suc left) i w =
      ends-bind (Acquired w i (suc left)) _ (store.ctx_err w) (λ e _. tt)
        λ _ _.
          let w1 = (store.ctx_err w).1 in
          let (t, w2) = store.now w1 in
          let r = slot_claim store namespace concurrency_key owner_id lease i t in
          let same : (k : ClaimKey) → held w2 k ≡ held w k =
            λ k. laws.now_quiet w1 k ∙ laws.ctx_quiet w k in
          let tried = store.try_create_claim r w2 in
          let rest = acquire_from store namespace concurrency_key owner_id lease left (i + 1) in
          ends-bind (Acquired w i (suc left)) _ tried (λ e _. tt)
            λ created.
              elim created
                as (λ b.
                  tried.0 ≡ ok b
                  → Acquired w i (suc left) (
                      (if b then done (some (slot_id store namespace concurrency_key i)) else rest)
                        tried.1)) [
                          | true ↦ λ got.
                              let (free, now_held, others) =
                                laws.created r (slot_key i) w2 refl got in
                              (
                                i,
                                omega arith,
                                omega arith,
                                refl,
                                λ h low high. absurd (omega arith),
                                sym (same (slot_key i)) ∙ free,
                                now_held,
                                λ k other. others k other ∙ same k,
                              )
                          | false ↦ λ got.
                              let (full, quiet) = laws.not_created r (slot_key i) w2 refl got in
                              widen w tried.1 i left (rest tried.1) (sym (same (slot_key i)) ∙ full)
                                (λ k. quiet k ∙ same k)
                                (Acquired-acquire_from owner_id lease left (i + 1) tried.1)
                        ]

  -- Acquiring a slot of a key with a limit, with every outcome of its calls. If it gives a slot, the
  -- index of the slot is below the limit, all slots before it were held, its own claim was not held
  -- and is held now, and no other claim has changed. If it gives none, every slot below the limit
  -- was held, and no claim has changed.
  pub acquire_concurrency_slot-Acquired :
      (limit : ℕ) (owner_id : Text) (lease : ℤ) (w : W)
      → Acquired w 0 limit
          (acquire_concurrency_slot store namespace concurrency_key limit owner_id lease w)
  unfolding acquire_concurrency_slot
  acquire_concurrency_slot-Acquired limit owner_id lease w =
      Acquired-acquire_from owner_id lease limit 0 w
