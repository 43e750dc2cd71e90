-- ===== src/Prelude/Maps.antt =====
-- Go maps with string keys, as association lists without repeated keys.
use mathlib.Core.Path.{◌≡◌, refl, sym}
use mathlib.Core.Bool.{false}
use mathlib.Core.Option.{Option, none, some}
use mathlib.Core.List.{List, [], ◌∷◌}
use temporaless.Prelude.Tests.{if◌then◌else◌, Bool-cases}
use mathlib.Core.Logic.{inl, inr}
use temporaless.Prelude.Strings.{Text, text_eq, text_eq_sound, text_eq_sym}

module _ {V : Type 0} where
  -- `v, ok := m[k]`
  unfoldable pub lookup : Text → List (Text × V) → Option V
  lookup k [] = none
  lookup k ((j, w) ∷ m) = if text_eq j k then some w else lookup k m

  -- `m[k] = v`
  unfoldable pub insert : Text → V → List (Text × V) → List (Text × V)
  insert k v [] = (k, v) ∷ []
  insert k v ((j, w) ∷ m) = if text_eq j k then (k, v) ∷ m else (j, w) ∷ insert k v m

  pub lookup-insert :
      (k j : Text) (v : V) (m : List (Text × V))
      → lookup j (insert k v m) ≡ (if text_eq k j then some v else lookup j m)
  unfolding lookup insert
  lookup-insert k j v [] = refl
  lookup-insert k j v ((i, w) ∷ m) = elim (Bool-cases (text_eq i k)) [
    | inl same ↦ elim (Bool-cases (text_eq k j)) [
      | inl at ↦ rw (same, lookup, at)
      | inr off ↦
          let moved : text_eq i j ≡ false = rw (text_eq_sound i k same, off) in
          rw (same, lookup, off, moved)
    ]
    | inr other ↦ elim (Bool-cases (text_eq i j)) [
      | inl at ↦
          let moved : text_eq k j ≡ false =
            rw (sym (text_eq_sound i j at), text_eq_sym k i, other) in
          rw (other, lookup, at, moved)
      | inr off ↦ rw (other, lookup, off, lookup-insert k j v m)
    ]
  ]
