-- ===== src/Key/Slash.antt =====
-- Identifiers and the `/` that separates the segments of a path.
use mathlib.Core.List.{append_cancel_right}
use temporaless.Prelude.{ℕ, ◌≡◌, ◌≢◌, true, [], ◌∷◌, ◌++◌, Text, arith, &&-true}
use temporaless.Key.{slash, id_char, id_chars, valid_id, extension}

abbrev pub NoSlash : Text → Type 0
NoSlash [] = Unit
NoSlash (c ∷ cs) = (c ≢ slash) × NoSlash cs

id_char-ne-slash : (c : ℕ) → id_char c ≡ true → c ≢ slash
id_char-ne-slash c h e = ground arith

id_chars-NoSlash : (id : Text) → id_chars id ≡ true → NoSlash id
unfolding id_chars
id_chars-NoSlash [] h = tt
id_chars-NoSlash (c ∷ cs) h =
    let (hc, hcs) = &&-true (id_char c) (id_chars cs) h in
    (id_char-ne-slash c hc, id_chars-NoSlash cs hcs)

pub valid_id-NoSlash : (id : Text) → valid_id id ≡ true → NoSlash id
unfolding valid_id
valid_id-NoSlash id h = id_chars-NoSlash id (ground arith)

-- The text before the first `/` and the text after it are determined.
pub split_slash :
    (a b : Text) {x y : Text}
    → NoSlash a
    → NoSlash b
    → a ++ (slash ∷ x) ≡ b ++ (slash ∷ y)
    → (a ≡ b) × (x ≡ y)
split_slash [] [] ha hb e = ground arith
split_slash [] (c ∷ b) ha hb e = ground arith
split_slash (c ∷ a) [] ha hb e = ground arith
split_slash (c ∷ a) (d ∷ b) {x} {y} ha hb e =
    let t : a ++ (slash ∷ x) ≡ b ++ (slash ∷ y) = ground arith in
    ground (arith, split_slash a b {x = x} {y = y} ha.1 hb.1 t)

-- A text with no `/` is no text that has one.
pub slash_free : (a b x : Text) → NoSlash a → a ≢ b ++ (slash ∷ x)
slash_free [] [] x h e = cc
slash_free [] (d ∷ b) x h e = cc
slash_free (c ∷ a) [] x h e = ground arith
slash_free (c ∷ a) (d ∷ b) x h e = slash_free a b x h.1 (ground arith)

NoSlash-append : (a b : Text) → NoSlash a → NoSlash b → NoSlash (a ++ b)
NoSlash-append [] b ha hb = hb
NoSlash-append (c ∷ a) b ha hb = (ha.0, NoSlash-append a b ha.1 hb)

extension-NoSlash : NoSlash extension
extension-NoSlash = omega arith

pub id-extension-NoSlash : (id : Text) → NoSlash id → NoSlash (id ++ extension)
id-extension-NoSlash id h = NoSlash-append id extension h extension-NoSlash

pub extension_cancel : (a b : Text) → a ++ extension ≡ b ++ extension → a ≡ b
extension_cancel a b e = append_cancel_right a b extension e
