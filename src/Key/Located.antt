-- ===== src/Key/Located.antt =====
-- The path functions of the key types, and the addresses of the keys that they are called with.
use temporaless.Prelude.{
  ◌≡◌, refl, sym, ◌∙◌, Bool, true, false, not, [], ◌∷◌, Text, arith, codes, subst,
}
use temporaless.Action.{ok, and_then, require, invalid_key}
use temporaless.Key.{
  WorkflowKey, RecordKey, Kind, timer, or_default, workflow_key_with_defaults, with_defaults,
  valid_workflow_key, valid_key, validate_workflow_key, validate_key, workflow_path, record_path,
  due_entry_path, latest_workflow_run_pointer_path, workflow_object, record_object, due_object,
  latest_object,
}
use temporaless.Key.Slash.{NoSlash, valid_id-NoSlash}
use temporaless.Key.Distinct.{
  Address, workflow_at, record_at, due_at, latest_at, object, IsValid, object-injective,
}

abbrev pub workflow_address : WorkflowKey → Address
workflow_address key = workflow_at key.namespace key.workflow_id key.run_id

abbrev pub record_address : (k : Kind) → RecordKey k → Address
record_address k key = record_at k key.namespace key.workflow_id key.run_id key.id

abbrev pub due_address : {k : Kind} → RecordKey k → Address
due_address key = due_at key.namespace key.workflow_id key.run_id key.id

pub or_default-or_default : (n : Text) → or_default (or_default n) ≡ or_default n
or_default-or_default [] = refl
or_default-or_default (c ∷ cs) = refl

pub require-ok : (b : Bool) {x : Unit} → require b invalid_key ≡ ok x → b ≡ true
require-ok true h = refl
require-ok false h = cc

-- A path is given for a valid key only.
pub path_inversion :
    (b : Bool) (path : Text) {p : Text}
    → and_then (require b invalid_key) (λ _. ok path) ≡ ok p
    → (b ≡ true) × (p ≡ path)
path_inversion true path h = (refl, cc)
path_inversion false path h = cc

not-false : (b : Bool) → not b ≡ true → b ≡ false
not-false b h = ground arith

pub valid_workflow_key-IsValid :
    (key : WorkflowKey) → valid_workflow_key key ≡ true → IsValid (workflow_address key)
unfolding valid_workflow_key
valid_workflow_key-IsValid key h = ground (
  arith,
  valid_id-NoSlash key.namespace,
  valid_id-NoSlash key.workflow_id,
  valid_id-NoSlash key.run_id,
)

pub valid_key-IsValid :
    (k : Kind) (key : RecordKey k) → valid_key k key ≡ true → IsValid (record_address k key)
unfolding valid_key
valid_key-IsValid k key h = ground (
  arith,
  valid_id-NoSlash key.namespace,
  valid_id-NoSlash key.workflow_id,
  valid_id-NoSlash key.run_id,
  valid_id-NoSlash key.id,
)

-- A path function gives this path for a key of this address.
abbrev pub Located : Text → Address → Type 0
Located p (workflow_at n w r) =
    (key : WorkflowKey) × (workflow_key_with_defaults key
      ≡ record { namespace = n; workflow_id = w; run_id = r })
    × (workflow_path key ≡ ok p)
Located p (record_at k n w r i) =
    (key : RecordKey k) × (with_defaults key
      ≡ record { namespace = n; workflow_id = w; run_id = r; id = i })
    × (record_path k key ≡ ok p)
Located p (due_at n w r i) =
    (key : RecordKey timer) × (with_defaults key
      ≡ record { namespace = n; workflow_id = w; run_id = r; id = i })
    × (due_entry_path key ≡ ok p)
Located p (latest_at n w) =
    (namespace : Text) × (or_default namespace ≡ n)
    × (latest_workflow_run_pointer_path namespace w ≡ ok p)

-- Validation fills in the namespace that the path functions have filled in before.
pub validate_workflow_key-with_defaults :
    (key : WorkflowKey)
    → validate_workflow_key (workflow_key_with_defaults key)
      ≡ require (valid_workflow_key (workflow_key_with_defaults key)) invalid_key
unfolding validate_workflow_key
validate_workflow_key-with_defaults key = rw (or_default-or_default key.namespace)

pub validate_key-with_defaults :
    (k : Kind) (key : RecordKey k)
    → validate_key k (with_defaults key) ≡ require (valid_key k (with_defaults key)) invalid_key
unfolding validate_key
validate_key-with_defaults k key = rw (or_default-or_default key.namespace)

pub workflow_path_lem :
    (key : WorkflowKey) {p : Text}
    → workflow_path key ≡ ok p
    → (valid_workflow_key (workflow_key_with_defaults key) ≡ true)
      × (p ≡ workflow_object (workflow_key_with_defaults key))
unfolding workflow_path
workflow_path_lem key h = path_inversion _ _ (rw (validate_workflow_key-with_defaults key) at h)

pub record_path_lem :
    (k : Kind) (key : RecordKey k) {p : Text}
    → record_path k key ≡ ok p
    → (valid_key k (with_defaults key) ≡ true) × (p ≡ record_object k (with_defaults key))
unfolding record_path
record_path_lem k key h = path_inversion _ _ (rw (validate_key-with_defaults k key) at h)

pub due_entry_path_lem :
    (key : RecordKey timer) {p : Text}
    → due_entry_path key ≡ ok p
    → (valid_key timer (with_defaults key) ≡ true) × (p ≡ due_object (with_defaults key))
unfolding due_entry_path
due_entry_path_lem key h = path_inversion _ _ (rw (validate_key-with_defaults timer key) at h)

pub latest_path_lem :
    (n w : Text) {p : Text}
    → latest_workflow_run_pointer_path n w ≡ ok p
    → (valid_workflow_key
          (record { namespace = or_default n; workflow_id = w; run_id = codes "placeholder" })
        ≡ true)
      × (p ≡ latest_object (or_default n) w)
unfolding latest_workflow_run_pointer_path
latest_path_lem n w h = path_inversion _ _ (rw (validate_workflow_key-with_defaults _) at h)

pub Located-object : (p : Text) (a : Address) → Located p a → IsValid a × (p ≡ object a)
unfolding object
Located-object p (workflow_at n w r) (key, e, h) =
    let (v, path) = workflow_path_lem key h in
    subst (λ x. IsValid (workflow_address x) × (p ≡ workflow_object x)) e
      (valid_workflow_key-IsValid (workflow_key_with_defaults key) v, path)
Located-object p (record_at k n w r i) (key, e, h) =
    let (v, path) = record_path_lem k key h in
    subst (λ x. IsValid (record_address k x) × (p ≡ record_object k x)) e
      (valid_key-IsValid k (with_defaults key) v, path)
Located-object p (due_at n w r i) (key, e, h) =
    let (v, path) = due_entry_path_lem key h in
    let (hn, hw, hr, hi, _) = valid_key-IsValid timer (with_defaults key) v in
    subst (λ x. IsValid (due_address x) × (p ≡ due_object x)) e ((hn, hw, hr, hi), path)
Located-object p (latest_at n w) (m, e, h) =
    let (v, path) = latest_path_lem m w h in
    let (hn, hw, _, _) = valid_workflow_key-IsValid _ v in
    subst (λ x. (NoSlash x × NoSlash w) × (p ≡ latest_object x w)) e ((hn, hw), path)

-- If the path functions give one path for two addresses, the addresses are the same: one object
-- path is never shared by two workflow runs, records of a run, timer shadows or latest pointers,
-- whatever their kinds, up to the default of an empty namespace.
pub paths_distinct : (p : Text) (a b : Address) → Located p a → Located p b → a ≡ b
paths_distinct p a b ha hb =
    let (va, ea) = Located-object p a ha in
    let (vb, eb) = Located-object p b hb in object-injective a b va vb (sym ea ∙ eb)
