-- ===== src/Prelude/Lists.antt =====
-- Lists: what they hold, and sorting by a test, as `sort.Strings` and `sort.Slice` do.
use Prim.Native.Nat.{ℕ, suc}
use mathlib.Core.Path.{◌≡◌}
use mathlib.Core.Logic.{◌↔◌, ◌⊎◌, inl, inr}
use mathlib.Core.Bool.{Bool, true, false}
use mathlib.Core.List.{List, [], ◌∷◌, ◌++◌}
use temporaless.Prelude.Tests.{if◌then◌else◌, Bool-cases}

module _ {ℓ} {A : Type ℓ} where
  abbrev pub length : List A → ℕ
  length [] = 0
  length (x ∷ xs) = suc (length xs)

abbrev pub In : {A : Type 0} → A → List A → Type 0
In x [] = ⊥
In x (y ∷ ys) = (x ≡ y) ⊎ In x ys

abbrev pub All {ℓ κ} : {A : Type ℓ} → (A → Type κ) → List A → Type κ
All P [] = Unit
All P (x ∷ xs) = P x × All P xs

module _ {A : Type 0} where
  pub In-append_left : (x : A) (xs ys : List A) → In x xs → In x (xs ++ ys)
  In-append_left x [] ys h = absurd h
  In-append_left x (y ∷ xs) ys (inl e) = inl e
  In-append_left x (y ∷ xs) ys (inr h) = inr (In-append_left x xs ys h)

  pub In-append_right : (x : A) (xs ys : List A) → In x ys → In x (xs ++ ys)
  In-append_right x [] ys h = h
  In-append_right x (y ∷ xs) ys h = inr (In-append_right x xs ys h)

  pub In-append : (x : A) (xs ys : List A) → In x (xs ++ ys) → In x xs ⊎ In x ys
  In-append x [] ys h = inr h
  In-append x (y ∷ xs) ys (inl e) = inl (inl e)
  In-append x (y ∷ xs) ys (inr h) = elim (In-append x xs ys h) [
    | inl a ↦ inl (inr a)
    | inr b ↦ inr b
  ]

  pub All-append {κ} : (P : A → Type κ) (xs ys : List A) → All P xs → All P ys → All P (xs ++ ys)
  All-append P [] ys hx hy = hy
  All-append P (x ∷ xs) ys hx hy = (hx.0, All-append P xs ys hx.1 hy)

  pub All-map {κ μ} :
      {P : A → Type κ} {Q : A → Type μ}
      → ((x : A) → P x → Q x)
      → (xs : List A) → All P xs
      → All Q xs
  All-map f [] h = tt
  All-map f (x ∷ xs) h = (f x h.0, All-map f xs h.1)

module _ {A : Type 0} (less : A → A → Bool) where
  unfoldable pub insert_sorted : A → List A → List A
  insert_sorted x [] = x ∷ []
  insert_sorted x (y ∷ ys) = if less x y then x ∷ y ∷ ys else y ∷ insert_sorted x ys

  unfoldable pub sort_by : List A → List A
  unfolding insert_sorted
  sort_by [] = []
  sort_by (x ∷ xs) = insert_sorted x (sort_by xs)

  -- The head of the list is not less than `x`.
  abbrev pub NotBefore : A → List A → Type 0
  NotBefore x [] = Unit
  NotBefore x (y ∷ ys) = less y x ≡ false

  -- No element is less than the one before it.
  abbrev pub IsSorted : List A → Type 0
  IsSorted [] = Unit
  IsSorted (x ∷ xs) = NotBefore x xs × IsSorted xs

  In-insert_sorted : (f x : A) (ys : List A) → In f (insert_sorted x ys) ↔ In f (x ∷ ys)
  unfolding insert_sorted
  In-insert_sorted f x [] = (λ h. h, λ h. h)
  In-insert_sorted f x (y ∷ ys) = elim (Bool-cases (less x y)) [
    | inl first ↦ rw first (λ h. h, λ h. h)
    | inr later ↦
        let (to, from) = In-insert_sorted f x ys in
        rw later (
          λ h. elim h [
            | inl e ↦ inr (inl e)
            | inr t ↦ elim (to t) [ inl e ↦ inl e | inr r ↦ inr (inr r) ]
          ],
          λ h. elim h [
            | inl e ↦ inr (from (inl e))
            | inr t ↦ elim t [ inl e ↦ inl e | inr r ↦ inr (from (inr r)) ]
          ],
        )
  ]

  -- Sorting keeps what the list holds.
  pub In-sort_by : (f : A) (xs : List A) → In f (sort_by xs) ↔ In f xs
  unfolding sort_by
  In-sort_by f [] = (λ h. h, λ h. h)
  In-sort_by f (x ∷ xs) =
      let (to, from) = In-insert_sorted f x (sort_by xs) in
      let (to', from') = In-sort_by f xs in
      (
        λ h. elim (to h) [ inl e ↦ inl e | inr t ↦ inr (to' t) ],
        λ h. from (elim h [ inl e ↦ inl e | inr t ↦ inr (from' t) ]),
      )

  All-insert_sorted :
      (P : A → Type 0) (x : A) (ys : List A) → P x → All P ys → All P (insert_sorted x ys)
  unfolding insert_sorted
  All-insert_sorted P x [] hx hs = (hx, tt)
  All-insert_sorted P x (y ∷ ys) hx hs = elim (Bool-cases (less x y)) [
    | inl first ↦ rw first (hx, hs)
    | inr later ↦ rw later (hs.0, All-insert_sorted P x ys hx hs.1)
  ]

  pub All-sort_by : (P : A → Type 0) (xs : List A) → All P xs → All P (sort_by xs)
  unfolding sort_by
  All-sort_by P [] h = tt
  All-sort_by P (x ∷ xs) h = All-insert_sorted P x (sort_by xs) h.0 (All-sort_by P xs h.1)

  module _ (asymmetric : (a b : A) → less a b ≡ true → less b a ≡ false) where
    NotBefore-insert_sorted :
        (x y : A) (ys : List A)
        → less y x ≡ false
        → NotBefore x ys
        → NotBefore x (insert_sorted y ys)
    unfolding insert_sorted
    NotBefore-insert_sorted x y [] h hs = h
    NotBefore-insert_sorted x y (z ∷ ys) h hs = elim (Bool-cases (less y z)) [
      | inl first ↦ rw first h
      | inr later ↦ rw later hs
    ]

    insert_sorted-IsSorted : (x : A) (ys : List A) → IsSorted ys → IsSorted (insert_sorted x ys)
    unfolding insert_sorted
    insert_sorted-IsSorted x [] h = (tt, tt)
    insert_sorted-IsSorted x (y ∷ ys) h = elim (Bool-cases (less x y)) [
      | inl first ↦ rw first (asymmetric x y first, h)
      | inr later ↦
          rw later (NotBefore-insert_sorted y x ys later h.0, insert_sorted-IsSorted x ys h.1)
    ]

    pub sort_by-IsSorted : (xs : List A) → IsSorted (sort_by xs)
    unfolding sort_by
    sort_by-IsSorted [] = tt
    sort_by-IsSorted (x ∷ xs) = insert_sorted-IsSorted x (sort_by xs) (sort_by-IsSorted xs)
