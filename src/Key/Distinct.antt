-- ===== src/Key/Distinct.antt =====
-- The flat v2 layout: the objects that have a path, with the addresses that stand for them, and the
-- lemmas that read an address off a path.
use mathlib.Core.List.{append_cancel_left}
use temporaless.Prelude.{
  ◌≡◌, refl, ◌≢◌, true, false, [], ◌∷◌, ◌++◌, Text, codes, arith, append_assoc, sym, ap, subst, ◌∙◌,
  ℕ, text_eq,
}
use mathlib.Core.Bool.{false≢true}
use temporaless.Key.{
  Kind, activity, timer, event, claim, slash, storage_root_prefix, extension, kind_segment,
  starts_with_underscore, system_workflow_id, workflow_object, record_object, due_object,
  latest_object, run_prefix,
}
use temporaless.Key.Slash.{NoSlash, split_slash, extension_cancel}

-- What the store keeps: runs, records of a run, shadows of timers, pointers to latest runs.
pub data Address : Type 0 where
  workflow_at : Text → Text → Text → Address
  record_at : Kind → Text → Text → Text → Text → Address
  due_at : Text → Text → Text → Text → Address
  latest_at : Text → Text → Address

-- The object path of an address.
unfoldable pub object : Address → Text
object (workflow_at n w r) = workflow_object (record { namespace = n; workflow_id = w; run_id = r })
object (record_at k n w r i) =
    record_object k (record { namespace = n; workflow_id = w; run_id = r; id = i })
object (due_at n w r i) = due_object (record { namespace = n; workflow_id = w; run_id = r; id = i })
object (latest_at n w) = latest_object n w

-- What the constraints of the key messages give about an address.
abbrev pub IsValid : Address → Type 0
IsValid (workflow_at n w r) = NoSlash n × NoSlash w × NoSlash r × (starts_with_underscore w ≡ false)
IsValid (record_at k n w r i) =
    NoSlash n × NoSlash w × NoSlash r × NoSlash i × (system_workflow_id k w ≡ false)
IsValid (due_at n w r i) = NoSlash n × NoSlash w × NoSlash r × NoSlash i
IsValid (latest_at n w) = NoSlash n × NoSlash w

abbrev pub in_namespace : Text → Text → Text
in_namespace n rest = storage_root_prefix ++ (slash ∷ (n ++ (slash ∷ rest)))

abbrev in_run : Text → Text → Text → Text
in_run w r rest = w ++ (slash ∷ (r ++ (slash ∷ rest)))

-- The part of the path below the namespace.
abbrev pub tail : Address → Text
tail (workflow_at n w r) = in_run w r (codes "workflow.binpb")
tail (record_at k n w r i) = in_run w r (kind_segment k ++ (slash ∷ (i ++ extension)))
tail (due_at n w r i) = codes "_due" ++ (slash ∷ in_run w r (i ++ extension))
tail (latest_at n w) = codes "_latest" ++ (slash ∷ (w ++ extension))

abbrev pub namespace_of : Address → Text
namespace_of (workflow_at n w r) = n
namespace_of (record_at k n w r i) = n
namespace_of (due_at n w r i) = n
namespace_of (latest_at n w) = n

pub object-tail : (a : Address) → object a ≡ in_namespace (namespace_of a) (tail a)
unfolding object run_prefix due_object
object-tail (workflow_at n w r) = refl
object-tail (record_at k n w r i) = refl
object-tail (due_at n w r i) = simp append_assoc
object-tail (latest_at n w) = refl

pub namespace-NoSlash : (a : Address) → IsValid a → NoSlash (namespace_of a)
namespace-NoSlash (workflow_at n w r) h = h.0
namespace-NoSlash (record_at k n w r i) h = h.0
namespace-NoSlash (due_at n w r i) h = h.0
namespace-NoSlash (latest_at n w) h = h.0

pub in_namespace-injective :
    (n m x y : Text)
    → NoSlash n
    → NoSlash m
    → in_namespace n x ≡ in_namespace m y
    → (n ≡ m) × (x ≡ y)
in_namespace-injective n m x y hn hm e = split_slash n m hn hm (
    ground (
      arith,
      append_cancel_left storage_root_prefix (slash ∷ (n ++ (slash ∷ x)))
          (slash ∷ (m ++ (slash ∷ y))) e,
    ))

in_run-injective :
    (w r v s x y : Text)
    → NoSlash w
    → NoSlash v
    → NoSlash r
    → NoSlash s
    → in_run w r x ≡ in_run v s y
    → (w ≡ v) × (r ≡ s) × (x ≡ y)
in_run-injective w r v s x y hw hv hr hs e =
    let (ew, e') = split_slash w v hw hv e in
    let (er, ex) = split_slash r s hr hs e' in (ew, er, ex)

kind_segment-NoSlash : (k : Kind) → NoSlash (kind_segment k)
kind_segment-NoSlash activity = omega arith
kind_segment-NoSlash timer = omega arith
kind_segment-NoSlash event = omega arith
kind_segment-NoSlash claim = omega arith

abbrev first : Text → ℕ
first [] = 0
first (c ∷ cs) = c

abbrev second : Text → ℕ
second [] = 0
second (c ∷ cs) = first cs

-- The four segments differ in their first letter.
kind_segment-injective : (k j : Kind) → kind_segment k ≡ kind_segment j → k ≡ j
kind_segment-injective activity activity e = refl
kind_segment-injective timer timer e = refl
kind_segment-injective event event e = refl
kind_segment-injective claim claim e = refl
kind_segment-injective k j e = absurd (omega (arith, ap first e))

workflow-record :
    (k : Kind) (rest : Text) → codes "workflow.binpb" ≢ kind_segment k ++ (slash ∷ rest)
workflow-record activity rest e = omega (arith, ap first e)
workflow-record timer rest e = omega (arith, ap first e)
workflow-record event rest e = omega (arith, ap first e)
workflow-record claim rest e = omega (arith, ap first e)

abbrev pub due_segment : Text
due_segment = codes "_due"

abbrev pub latest_segment : Text
latest_segment = codes "_latest"

system_segments :
    (k : Kind)
    → (system_workflow_id k due_segment ≡ true) × (system_workflow_id k latest_segment ≡ true)
unfolding text_eq
system_segments activity = (refl, refl)
system_segments timer = (refl, refl)
system_segments event = (refl, refl)
system_segments claim = (refl, refl)

-- A workflow id is not one of the framework's own segments.
pub reserved :
    (k : Kind) (w segment : Text)
    → system_workflow_id k w ≡ false
    → system_workflow_id k segment ≡ true
    → w ≢ segment
reserved k w segment h s e =
    let h' : system_workflow_id k segment ≡ false =
      subst (λ v. system_workflow_id k v ≡ false) e h in
    false≢true (sym h' ∙ s)

pub due-NoSlash : NoSlash due_segment
due-NoSlash = omega arith

pub latest-NoSlash : NoSlash latest_segment
latest-NoSlash = omega arith

-- Below one namespace the tails of valid addresses differ.
tail-injective :
    (a b : Address)
    → IsValid a
    → IsValid b
    → namespace_of a ≡ namespace_of b
    → tail a ≡ tail b
    → a ≡ b
tail-injective (workflow_at n w r) (workflow_at m v s) (_, hw, hr, _) (_, hv, hs, _) e t =
    let (ew, er, _) = in_run-injective w r v s _ _ hw hv hr hs t in cc
tail-injective (workflow_at n w r) (record_at k m v s i) (_, hw, hr, _) (_, hv, hs, _, _) e t =
    let (_, _, x) = in_run-injective w r v s _ _ hw hv hr hs t in
    absurd (workflow-record k (i ++ extension) x)
tail-injective (workflow_at n w r) (due_at m v s i) (_, hw, _, sys) h e t =
    let (x, _) = split_slash w due_segment hw due-NoSlash t in
    absurd (reserved activity w due_segment sys (system_segments activity).0 x)
tail-injective (workflow_at n w r) (latest_at m v) (_, hw, _, sys) h e t =
    let (x, _) = split_slash w latest_segment hw latest-NoSlash t in
    absurd (reserved activity w latest_segment sys (system_segments activity).1 x)
tail-injective (record_at k n w r i) (workflow_at m v s) (_, hw, hr, _, _) (_, hv, hs, _) e t =
    let (_, _, x) = in_run-injective v s w r _ _ hv hw hs hr (sym t) in
    absurd (workflow-record k (i ++ extension) x)
tail-injective (record_at k n w r i) (record_at j m v s q) (_, hw, hr, _, _) (_, hv, hs, _, _) e t =
    let (ew, er, x) = in_run-injective w r v s _ _ hw hv hr hs t in
    let (ek, x') =
      split_slash (kind_segment k) (kind_segment j) (kind_segment-NoSlash k)
        (kind_segment-NoSlash j) x in
    let kinds = kind_segment-injective k j ek in let ids = extension_cancel i q x' in cc
tail-injective (record_at k n w r i) (due_at m v s q) (_, hw, _, _, sys) h e t =
    let (x, _) = split_slash w due_segment hw due-NoSlash t in
    absurd (reserved k w due_segment sys (system_segments k).0 x)
tail-injective (record_at k n w r i) (latest_at m v) (_, hw, _, _, sys) h e t =
    let (x, _) = split_slash w latest_segment hw latest-NoSlash t in
    absurd (reserved k w latest_segment sys (system_segments k).1 x)
tail-injective (due_at n w r i) (workflow_at m v s) h (_, hv, _, sys) e t =
    let (x, _) = split_slash v due_segment hv due-NoSlash (sym t) in
    absurd (reserved activity v due_segment sys (system_segments activity).0 x)
tail-injective (due_at n w r i) (record_at k m v s q) h (_, hv, _, _, sys) e t =
    let (x, _) = split_slash v due_segment hv due-NoSlash (sym t) in
    absurd (reserved k v due_segment sys (system_segments k).0 x)
tail-injective (due_at n w r i) (due_at m v s q) (_, hw, hr, _) (_, hv, hs, _) e t =
    let (_, t') = split_slash due_segment due_segment due-NoSlash due-NoSlash t in
    let (ew, er, x) = in_run-injective w r v s _ _ hw hv hr hs t' in
    let ids = extension_cancel i q x in cc
tail-injective (due_at n w r i) (latest_at m v) h h' e t =
    let (x, _) = split_slash due_segment latest_segment due-NoSlash latest-NoSlash t in
    absurd (omega (arith, ap second x))
tail-injective (latest_at n w) (workflow_at m v s) h (_, hv, _, sys) e t =
    let (x, _) = split_slash v latest_segment hv latest-NoSlash (sym t) in
    absurd (reserved activity v latest_segment sys (system_segments activity).1 x)
tail-injective (latest_at n w) (record_at k m v s q) h (_, hv, _, _, sys) e t =
    let (x, _) = split_slash v latest_segment hv latest-NoSlash (sym t) in
    absurd (reserved k v latest_segment sys (system_segments k).1 x)
tail-injective (latest_at n w) (due_at m v s q) h h' e t =
    let (x, _) = split_slash due_segment latest_segment due-NoSlash latest-NoSlash (sym t) in
    absurd (omega (arith, ap second x))
tail-injective (latest_at n w) (latest_at m v) h h' e t =
    let (_, t') = split_slash latest_segment latest_segment latest-NoSlash latest-NoSlash t in
    let names = extension_cancel w v t' in cc

-- Two addresses that satisfy the identifier constraints and have one object path are one address:
-- workflows, records of the four kinds, due-ledger entries and latest pointers never collide.
pub object-injective : (a b : Address) → IsValid a → IsValid b → object a ≡ object b → a ≡ b
object-injective a b ha hb e =
    let (en, et) =
      in_namespace-injective (namespace_of a) (namespace_of b) (tail a) (tail b)
        (namespace-NoSlash a ha) (namespace-NoSlash b hb)
        (sym (object-tail a) ∙ e ∙ object-tail b) in
    tail-injective a b ha hb en et
