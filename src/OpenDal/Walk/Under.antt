-- ===== src/OpenDal/Walk/Under.antt =====
-- The record files below a directory, and what the filters of a listing keep.
use temporaless.Prelude.{
  ◌≡◌, ◌≢◌, refl, sym, subst, ◌↔◌, inl, inr, Bool, true, false, not, ◌&&◌, if◌then◌else◌,
  has_suffix, text_eq, text_eq_refl, text_eq_ne, List, [], ◌∷◌, Text, In, arith,
}
use temporaless.Key.{slash, extension}
use temporaless.Env.Tree.{subdirs}
use temporaless.OpenDal.Walk.{files_in}

-- A path that a walk of the directory `d` gives: the file of a record, and not `d` itself.
abbrev pub IsRecordFile : Text → Text → Type 0
IsRecordFile d f = (f ≢ d) × (has_suffix (slash ∷ []) f ≡ false) × (has_suffix extension f ≡ true)

abbrev pub IsSubdir : Text → Text → Type 0
IsSubdir d d' = (d' ≢ d) × (has_suffix (slash ∷ []) d' ≡ true)

-- The file of a record lies below a directory: it is a child of it, or lies below a directory that
-- is a child of it.
pub data Under (children : Text → List Text) (f : Text) : Text → Type 0 where
  file : {d : Text} → In f (children d) → IsRecordFile d f → Under children f d
  below :
      {d d' : Text} → In d' (children d) → IsSubdir d d' → Under children f d' → Under children f d

ne-text_eq : (a b : Text) → text_eq a b ≡ false → a ≢ b
ne-text_eq a b h same = let there = subst (λ c. text_eq a c ≡ true) same (text_eq_refl a) in cc

-- Where a test keeps exactly the entries that `P` holds of, so does the list of the kept ones.
keep-In :
    (P : Text → Type 0) (f p : Text) (ps kept : List Text) (b : Bool)
    → ((b ≡ true) ↔ P p)
    → (In f kept ↔ (In f ps × P f))
    → In f (if b then p ∷ kept else kept) ↔ (In f (p ∷ ps) × P f)
keep-In P f p ps kept true (sound, _) (to, from) = (
  λ h. elim h [
    | inl same ↦ (inl same, subst P (sym same) (sound refl))
    | inr rest ↦ (inr (to rest).0, (to rest).1)
  ],
  λ (h, good). elim h [ inl same ↦ inl same | inr rest ↦ inr (from (rest, good)) ],
)
keep-In P f p ps kept false (_, complete) (to, from) = (
  λ h. (inr (to h).0, (to h).1),
  λ (h, good). elim h [
    | inl same ↦ absurd (dropped (subst P same good))
    | inr rest ↦ from (rest, good)
  ],
)
  where
    dropped : P p → ⊥
    dropped good = let wrong = complete good in cc

three_tests : (a b c : Bool) → (not a && not b && c) ≡ true → (a ≡ false) × (b ≡ false) × (c ≡ true)
three_tests a b c h = (ground arith, ground arith, ground arith)

two_tests : (a b : Bool) → (not a && b) ≡ true → (a ≡ false) × (b ≡ true)
two_tests a b h = (ground arith, ground arith)

IsRecordFile-iff :
    (d p : Text)
    → ((not (text_eq p d) && not (has_suffix (slash ∷ []) p) && has_suffix extension p) ≡ true)
      ↔ IsRecordFile d p
IsRecordFile-iff d p = (
  λ h.
      let (other, no_dir, record_file) = three_tests (text_eq p d) _ _ h in
      (ne-text_eq p d other, no_dir, record_file),
  λ (other, no_dir, record_file). rw (text_eq_ne p d other, no_dir, record_file) refl,
)

IsSubdir-iff :
    (d p : Text) → ((not (text_eq p d) && has_suffix (slash ∷ []) p) ≡ true) ↔ IsSubdir d p
IsSubdir-iff d p = (
  λ h. let (other, dir) = two_tests (text_eq p d) _ h in (ne-text_eq p d other, dir),
  λ (other, dir). rw (text_eq_ne p d other, dir) refl,
)

pub In-files_in :
    (d f : Text) (ps : List Text) → In f (files_in d ps) ↔ (In f ps × IsRecordFile d f)
unfolding files_in
In-files_in d f [] = (λ h. absurd h, λ (h, good). h)
In-files_in d f (p ∷ ps) =
    keep-In (IsRecordFile d) f p ps (files_in d ps) _ (IsRecordFile-iff d p) (In-files_in d f ps)

pub In-subdirs : (d d' : Text) (ps : List Text) → In d' (subdirs d ps) ↔ (In d' ps × IsSubdir d d')
unfolding subdirs
In-subdirs d d' [] = (λ h. absurd h, λ (h, good). h)
In-subdirs d d' (p ∷ ps) =
    keep-In (IsSubdir d) d' p ps (subdirs d ps) _ (IsSubdir-iff d p) (In-subdirs d d' ps)
