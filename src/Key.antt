-- ===== src/Key.antt =====
-- core/go/storage/key.go: the keys of the five record kinds, their defaults, their validation
-- (protovalidate with the constraints that api/temporaless/v1/temporaless.proto declares on the key
-- messages) and their object paths. A Go key struct and its protobuf message have the same fields
-- and are one type here; a message pointer that may be nil is an `Option`.
pub mod Slash
pub mod Distinct
pub mod Located
pub mod Quarantined
use temporaless.Prelude.{
  ℕ, Bool, true, false, not, ◌&&◌, ◌||◌, Option, none, some, [], ◌∷◌, ◌++◌, Text, codes, text_eq,
  leb, ◌==◌,
}
use temporaless.Action.{Result, ok, invalid_key, and_then, require}

pub record WorkflowKey : Type 0 where
  pub namespace : Text
  pub workflow_id : Text
  pub run_id : Text

pub data Kind : Type 0 where
  activity timer event claim : Kind

-- `ActivityKey`, `TimerKey`, `EventKey` and `ClaimKey`, whose fourth field is `id` here.
pub record RecordKey (k : Kind) : Type 0 where
  pub namespace : Text
  pub workflow_id : Text
  pub run_id : Text
  pub id : Text

abbrev pub ActivityKey : Type 0
ActivityKey = RecordKey activity

abbrev pub TimerKey : Type 0
TimerKey = RecordKey timer

abbrev pub EventKey : Type 0
EventKey = RecordKey event

abbrev pub ClaimKey : Type 0
ClaimKey = RecordKey claim

abbrev pub default_namespace : Text
default_namespace = codes "default"

-- `if key.Namespace == "" { key.Namespace = DefaultNamespace }`
abbrev pub or_default : Text → Text
or_default [] = default_namespace
or_default (c ∷ cs) = c ∷ cs

abbrev pub workflow_key_with_defaults : WorkflowKey → WorkflowKey
workflow_key_with_defaults key = record key { namespace = or_default key.namespace }

abbrev pub with_defaults : {k : Kind} → RecordKey k → RecordKey k
with_defaults key = record key { namespace = or_default key.namespace }

abbrev pub workflow_key_from_proto : Option WorkflowKey → WorkflowKey
workflow_key_from_proto none = record { namespace = []; workflow_id = []; run_id = [] }
workflow_key_from_proto (some key) = key

abbrev pub key_from_proto : {k : Kind} → Option (RecordKey k) → RecordKey k
key_from_proto none = record { namespace = []; workflow_id = []; run_id = []; id = [] }
key_from_proto (some key) = key

-- `NewWorkflowKey`, and `NewActivityKey` and the like.
abbrev pub new_workflow_key : Text → Text → WorkflowKey
new_workflow_key workflow_id run_id = record {
  namespace = default_namespace;
  workflow_id = workflow_id;
  run_id = run_id;
}

abbrev pub new_key : (k : Kind) → Text → Text → Text → RecordKey k
new_key k workflow_id run_id id = record {
  namespace = default_namespace;
  workflow_id = workflow_id;
  run_id = run_id;
  id = id;
}

-- The `Proto` methods: the message is there, with the defaults of the key.
abbrev pub workflow_key_proto : WorkflowKey → Option WorkflowKey
workflow_key_proto key = some (workflow_key_with_defaults key)

abbrev pub key_proto : {k : Kind} → RecordKey k → Option (RecordKey k)
key_proto key = some (with_defaults key)

-- The workflow run that a record belongs to.
abbrev pub run_of : {k : Kind} → RecordKey k → WorkflowKey
run_of key = record {
  namespace = key.namespace;
  workflow_id = key.workflow_id;
  run_id = key.run_id;
}

-- The character class `[A-Za-z0-9._:=-]` of the pattern.
abbrev pub id_char : ℕ → Bool
id_char c =
    (leb b'A' c && leb c b'Z')
    || (leb b'a' c && leb c b'z')
    || (leb b'0' c && leb c b'9')
    || c == b'.'
    || c == b'_'
    || c == b':'
    || c == b'='
    || c == b'-'

unfoldable pub id_chars : Text → Bool
id_chars [] = true
id_chars (c ∷ cs) = id_char c && id_chars cs

-- `min_len: 1`, `pattern`, and `not_dot_path`: the constraints on every identifier.
unfoldable pub valid_id : Text → Bool
unfolding id_chars text_eq
valid_id id =
    not (text_eq id []) && id_chars id && not (text_eq id (codes ".") || text_eq id (codes ".."))

abbrev pub starts_with_underscore : Text → Bool
starts_with_underscore [] = false
starts_with_underscore (c ∷ cs) = c == b'_'

abbrev pub concurrency_workflow_id : Text
concurrency_workflow_id = codes "__concurrency__"

-- `not_system_prefix` on the workflow id of each kind.
abbrev pub system_workflow_id : Kind → Text → Bool
system_workflow_id claim id = not (text_eq id concurrency_workflow_id) && starts_with_underscore id
system_workflow_id _ id = starts_with_underscore id

unfoldable pub valid_workflow_key : WorkflowKey → Bool
valid_workflow_key key =
    (valid_id key.namespace && not (starts_with_underscore key.namespace))
    && (valid_id key.workflow_id && not (starts_with_underscore key.workflow_id))
    && valid_id key.run_id

unfoldable pub valid_key : (k : Kind) → RecordKey k → Bool
valid_key k key =
    (valid_id key.namespace && not (starts_with_underscore key.namespace))
    && (valid_id key.workflow_id && not (system_workflow_id k key.workflow_id))
    && valid_id key.run_id
    && valid_id key.id

unfoldable pub validate_workflow_key : WorkflowKey → Result (Unit {0})
validate_workflow_key key =
    require (valid_workflow_key (workflow_key_with_defaults key)) invalid_key

unfoldable pub validate_key : (k : Kind) → RecordKey k → Result (Unit {0})
validate_key k key = require (valid_key k (with_defaults key)) invalid_key

abbrev pub slash : ℕ
slash = b'/'

abbrev pub storage_root_prefix : Text
storage_root_prefix = codes "temporaless/v2"

-- `prefix/namespace/workflow/run` followed by `rest`.
unfoldable pub run_prefix : Text → Text → Text → Text → Text
run_prefix namespace workflow_id run_id rest =
    storage_root_prefix
    ++ (slash ∷ (namespace ++ (slash ∷ (workflow_id ++ (slash ∷ (run_id ++ rest))))))

abbrev pub extension : Text
extension = codes ".binpb"

abbrev pub kind_segment : Kind → Text
kind_segment activity = codes "activity"
kind_segment timer = codes "timer"
kind_segment event = codes "event"
kind_segment claim = codes "claim"

abbrev pub workflow_object : WorkflowKey → Text
workflow_object key = run_prefix key.namespace key.workflow_id key.run_id (codes "/workflow.binpb")

abbrev pub kind_dir : (k : Kind) → RecordKey k → Text
kind_dir k key =
    run_prefix key.namespace key.workflow_id key.run_id (slash ∷ (kind_segment k ++ (slash ∷ [])))

abbrev pub record_object : (k : Kind) → RecordKey k → Text
record_object k key =
    run_prefix key.namespace key.workflow_id key.run_id
      (slash ∷ (kind_segment k ++ (slash ∷ (key.id ++ extension))))

unfoldable pub workflow_path : WorkflowKey → Result Text
unfolding validate_workflow_key
workflow_path key =
    let key' = workflow_key_with_defaults key in
    and_then (validate_workflow_key key') (λ _. ok (workflow_object key'))

unfoldable pub workflow_dir_path : WorkflowKey → Result Text
unfolding validate_workflow_key
workflow_dir_path key =
    let key' = workflow_key_with_defaults key in
    and_then (validate_workflow_key key')
      (λ _. ok (run_prefix key'.namespace key'.workflow_id key'.run_id (slash ∷ [])))

unfoldable pub record_path : (k : Kind) → RecordKey k → Result Text
unfolding validate_key
record_path k key =
    let key' = with_defaults key in and_then (validate_key k key') (λ _. ok (record_object k key'))

unfoldable pub record_dir_path : (k : Kind) → RecordKey k → Result Text
unfolding validate_key
record_dir_path k key =
    let key' = with_defaults key in and_then (validate_key k key') (λ _. ok (kind_dir k key'))

-- The latest-run pointer of a workflow, for keys that are valid and defaulted.
abbrev pub latest_object : Text → Text → Text
latest_object namespace workflow_id =
    storage_root_prefix
    ++ (slash ∷ (namespace ++ (codes "/_latest/" ++ (workflow_id ++ extension))))

unfoldable pub latest_workflow_run_pointer_path : Text → Text → Result Text
unfolding validate_workflow_key
latest_workflow_run_pointer_path namespace workflow_id =
    let key : WorkflowKey =
      workflow_key_with_defaults (record {
        namespace = namespace;
        workflow_id = workflow_id;
        run_id = codes "placeholder";
      }) in
    and_then (validate_workflow_key key) (λ _. ok (latest_object key.namespace key.workflow_id))

-- opendal.go, `dueRoot`, `dueInvalidRoot`, `dueEntryPath` and `dueRunRoot`.
unfoldable pub due_root : Text → Text
due_root namespace = storage_root_prefix ++ (slash ∷ (namespace ++ codes "/_due/"))

unfoldable pub due_invalid_root : Text → Text
due_invalid_root namespace = storage_root_prefix ++ (slash ∷ (namespace ++ codes "/_due_invalid/"))

unfoldable pub due_object : TimerKey → Text
unfolding due_root
due_object key =
    due_root key.namespace
    ++ (key.workflow_id ++ (slash ∷ (key.run_id ++ (slash ∷ (key.id ++ extension)))))

unfoldable pub due_entry_path : TimerKey → Result Text
unfolding due_object validate_key
due_entry_path key =
    let key' = with_defaults key in and_then (validate_key timer key') (λ _. ok (due_object key'))

unfoldable pub due_run_root : WorkflowKey → Result Text
unfolding due_root validate_workflow_key
due_run_root key =
    let key' = workflow_key_with_defaults key in
    and_then (validate_workflow_key key') (λ _.
      ok (due_root key'.namespace ++ (key'.workflow_id ++ (slash ∷ (key'.run_id ++ (slash ∷ []))))))

-- `==` on key structs, `sameWorkflowRun`.
unfoldable pub workflow_key_eq : WorkflowKey → WorkflowKey → Bool
unfolding text_eq
workflow_key_eq a b =
    text_eq a.namespace b.namespace
    && text_eq a.workflow_id b.workflow_id
    && text_eq a.run_id b.run_id

unfoldable pub key_eq : {k : Kind} → RecordKey k → RecordKey k → Bool
unfolding text_eq
key_eq a b =
    text_eq a.namespace b.namespace
    && text_eq a.workflow_id b.workflow_id
    && text_eq a.run_id b.run_id
    && text_eq a.id b.id

unfoldable pub same_workflow_run : WorkflowKey → WorkflowKey → Bool
unfolding workflow_key_eq
same_workflow_run left right =
    workflow_key_eq (workflow_key_with_defaults left) (workflow_key_with_defaults right)
