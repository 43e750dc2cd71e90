-- ===== src/Key/Quarantined.antt =====
-- The paths below `_due_invalid`, which no address has.
use temporaless.Prelude.{
  ◌≡◌, refl, ◌≢◌, true, ◌∷◌, ◌++◌, Text, codes, arith, append_assoc, sym, ap, ◌∙◌, text_eq, length,
}
use temporaless.Key.{
  Kind, activity, timer, event, claim, slash, due_invalid_root, system_workflow_id,
}
use temporaless.Key.Slash.{NoSlash, split_slash}
use temporaless.Key.Distinct.{
  Address, workflow_at, record_at, due_at, latest_at, IsValid, tail, namespace_of, object-tail,
  namespace-NoSlash, in_namespace, in_namespace-injective, reserved, due_segment, latest_segment,
  due-NoSlash, latest-NoSlash,
}
use temporaless.Key.Located.{Located, Located-object}

abbrev invalid_segment : Text
invalid_segment = codes "_due_invalid"

invalid-NoSlash : NoSlash invalid_segment
invalid-NoSlash = omega arith

invalid-reserved : (k : Kind) → system_workflow_id k invalid_segment ≡ true
unfolding text_eq
invalid-reserved activity = refl
invalid-reserved timer = refl
invalid-reserved event = refl
invalid-reserved claim = refl

due_invalid_root-in_namespace :
    (n rest : Text)
    → due_invalid_root n ++ rest ≡ in_namespace n (invalid_segment ++ (slash ∷ rest))
unfolding due_invalid_root
due_invalid_root-in_namespace n rest = simp append_assoc

tail-ne-invalid :
    (a : Address) (rest : Text) → IsValid a → tail a ≢ invalid_segment ++ (slash ∷ rest)
tail-ne-invalid (workflow_at n w r) rest (_, hw, _, sys) t =
    let (x, _) = split_slash w invalid_segment hw invalid-NoSlash t in
    reserved activity w invalid_segment sys (invalid-reserved activity) x
tail-ne-invalid (record_at k n w r i) rest (_, hw, _, _, sys) t =
    let (x, _) = split_slash w invalid_segment hw invalid-NoSlash t in
    reserved k w invalid_segment sys (invalid-reserved k) x
tail-ne-invalid (due_at n w r i) rest h t =
    let (x, _) = split_slash due_segment invalid_segment due-NoSlash invalid-NoSlash t in
    absurd (omega (arith, ap length x))
tail-ne-invalid (latest_at n w) rest h t =
    let (x, _) = split_slash latest_segment invalid_segment latest-NoSlash invalid-NoSlash t in
    absurd (omega (arith, ap length x))

-- No record, ledger entry or pointer lies below `_due_invalid`.
pub Located-ne-invalid :
    (p : Text) (a : Address) (n rest : Text)
    → Located p a
    → NoSlash n
    → p ≢ due_invalid_root n ++ rest
Located-ne-invalid p a n rest located hn same =
    let (valid, at) = Located-object p a located in
    let (_, t) =
      in_namespace-injective (namespace_of a) n (tail a) (invalid_segment ++ (slash ∷ rest))
        (namespace-NoSlash a valid) hn
        (sym (object-tail a) ∙ sym at ∙ same ∙ due_invalid_root-in_namespace n rest) in
    tail-ne-invalid a rest valid t
