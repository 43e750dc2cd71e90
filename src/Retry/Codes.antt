-- ===== src/Retry/Codes.antt =====
-- The codes of the canonical policy: sorted and without repetitions.
use temporaless.Prelude.{
  ◌≡◌, ◌↔◌, refl, sym, ap, subst, ◌∙◌, true, false, Bool-cases, inl, inr, List, [], ◌∷◌, Text,
  text_eq, text_eq_sound, text_lt, text_lt_asymm, In, In-sort_by, sort_by, insert_sorted, IsSorted,
  sort_by-IsSorted, arith,
}
use temporaless.Retry.{unique_codes}

text_lt_total : (a b : Text) → text_eq a b ≡ false → text_lt b a ≡ false → text_lt a b ≡ true
unfolding text_lt text_eq
text_lt_total [] [] h k = cc
text_lt_total [] (y ∷ ys) h k = refl
text_lt_total (x ∷ xs) [] h k = cc
text_lt_total (x ∷ xs) (y ∷ ys) h k = ground (arith, text_lt_total xs ys)

-- Every code is less than the one after it.
abbrev IsStrict : List Text → Type 0
IsStrict [] = Unit
IsStrict (c ∷ []) = Unit
IsStrict (c ∷ d ∷ ds) = (text_lt c d ≡ true) × IsStrict (d ∷ ds)

sort_by-IsStrict : (cs : List Text) → IsStrict cs → sort_by text_lt cs ≡ cs
unfolding sort_by insert_sorted
sort_by-IsStrict [] h = refl
sort_by-IsStrict (c ∷ []) h = refl
sort_by-IsStrict (c ∷ d ∷ ds) (less, h) =
    ap (insert_sorted text_lt c) (sort_by-IsStrict (d ∷ ds) h) ∙ rw less

text_lt-text_eq : (a b : Text) → text_lt a b ≡ true → text_eq a b ≡ false
text_lt-text_eq a b h = elim (Bool-cases (text_eq a b)) [
  | inl same ↦
      let self : text_lt a a ≡ true =
        subst (λ z. text_lt a z ≡ true) (sym (text_eq_sound a b same)) h in
      let no = text_lt_asymm a a self in cc
  | inr other ↦ other
]

unique_codes-IsStrict : (cs : List Text) → IsStrict cs → unique_codes cs ≡ cs
unfolding unique_codes
unique_codes-IsStrict [] h = refl
unique_codes-IsStrict (c ∷ []) h = refl
unique_codes-IsStrict (c ∷ d ∷ ds) (less, h) =
    rw (text_lt-text_eq c d less, unique_codes-IsStrict (d ∷ ds) h)

-- The first code stays.
unique_codes-first :
    (c : Text) (cs : List Text) → (ds : List Text) × (unique_codes (c ∷ cs) ≡ c ∷ ds)
unfolding unique_codes
unique_codes-first c [] = ([], refl)
unique_codes-first c (d ∷ ds) =
    let (rest, same) = unique_codes-first d ds in
    elim (Bool-cases (text_eq c d)) [
      | inl equal ↦ (rest, rw equal (same ∙ ap (λ z. z ∷ rest) (sym (text_eq_sound c d equal))))
      | inr other ↦ (unique_codes (d ∷ ds), rw other)
    ]

IsStrict-unique_codes : (cs : List Text) → IsSorted text_lt cs → IsStrict (unique_codes cs)
unfolding unique_codes
IsStrict-unique_codes [] h = tt
IsStrict-unique_codes (c ∷ []) h = tt
IsStrict-unique_codes (c ∷ d ∷ ds) (order, h) =
    let (rest, same) = unique_codes-first d ds in
    let strict = IsStrict-unique_codes (d ∷ ds) h in
    elim (Bool-cases (text_eq c d)) [
      | inl equal ↦ rw equal strict
      | inr other ↦ rw other (
          subst (λ z. IsStrict (c ∷ z)) (sym same)
            (text_lt_total c d other order, subst IsStrict same strict))
    ]

In-unique_codes : (x : Text) (cs : List Text) → In x (unique_codes cs) ↔ In x cs
unfolding unique_codes
In-unique_codes x [] = (λ h. h, λ h. h)
In-unique_codes x (c ∷ []) = (λ h. h, λ h. h)
In-unique_codes x (c ∷ d ∷ ds) =
    let (to, from) = In-unique_codes x (d ∷ ds) in
    elim (Bool-cases (text_eq c d)) [
      | inl equal ↦ rw equal (
        λ h. inr (to h),
        λ h. elim h [ inl e ↦ from (inl (e ∙ text_eq_sound c d equal)) | inr t ↦ from t ],
      )
      | inr other ↦ rw other (
        λ h. elim h [ inl e ↦ inl e | inr t ↦ inr (to t) ],
        λ h. elim h [ inl e ↦ inl e | inr t ↦ inr (from t) ],
      )
    ]

-- The codes of the canonical policy.
abbrev pub canonical : List Text → List Text
canonical cs = unique_codes (sort_by text_lt cs)

pub canonical-canonical : (cs : List Text) → canonical (canonical cs) ≡ canonical cs
canonical-canonical cs =
    let strict =
      IsStrict-unique_codes (sort_by text_lt cs) (sort_by-IsSorted text_lt text_lt_asymm cs) in
    ap unique_codes (sort_by-IsStrict (canonical cs) strict)
    ∙ unique_codes-IsStrict (canonical cs) strict

pub In-canonical : (x : Text) (cs : List Text) → In x (canonical cs) ↔ In x cs
In-canonical x cs =
    let (to, from) = In-unique_codes x (sort_by text_lt cs) in
    let (to', from') = In-sort_by text_lt x cs in (λ h. to' (to h), λ h. from (from' h))
