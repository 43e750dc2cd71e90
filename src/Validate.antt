-- ===== src/Validate.antt =====
-- core/go/storage/validate.go: the checks of a payload against the key that the caller asked for.
-- A payload that fails gives `ErrCorruptRecord`, whichever of the checks it is.
pub mod Listed
pub mod Sound
use temporaless.Prelude.{
  ◌*◌, ◌≡◌, Bool, true, false, not, ◌&&◌, ◌||◌, Option, none, some, [], ◌∷◌, Text, text_eq, ◌==◌,
  ltb, leb, codes, is_some, if◌then◌else◌,
}
use temporaless.Action.{Result, ok, err, corrupt_record, stale_latest_pointer, and_then, require}
use temporaless.Key.{
  WorkflowKey, Kind, RecordKey, ActivityKey, TimerKey, EventKey, activity, timer, event,
  workflow_key_from_proto, key_from_proto, workflow_key_with_defaults, with_defaults, run_of,
  validate_workflow_key, validate_key, workflow_key_eq, key_eq,
}
use temporaless.Message.{
  ℤ, SchemaVersion, WorkflowStatus, TimerStatus, DueTimerEntry, Timestamp, Time, WorkflowRecord,
  ActivityRecord, TimerRecord, EventRecord, LatestWorkflowRunPointer,
}
use temporaless.Env.{Env}

abbrev pub is_ok {ℓ} : {A : Type ℓ} → Result A → Bool
is_ok (ok a) = true
is_ok (err e) = false

-- `return corruptRecordf(…)` unless the test holds.
abbrev pub check : Bool → Result (Unit {0})
check b = require b corrupt_record

abbrev pub workflow_schema : SchemaVersion → Bool
workflow_schema SchemaVersion.workflow = true
workflow_schema _ = false

abbrev pub schema_of : Kind → SchemaVersion → Bool
schema_of Kind.activity SchemaVersion.activity = true
schema_of Kind.timer SchemaVersion.timer = true
schema_of Kind.event SchemaVersion.event = true
schema_of Kind.claim SchemaVersion.claim = true
schema_of _ _ = false

-- The key of a payload is valid and is the one asked for, both with their defaults.
unfoldable pub workflow_key_matches : Option WorkflowKey → WorkflowKey → Bool
workflow_key_matches key requested =
    let actual = workflow_key_with_defaults (workflow_key_from_proto key) in
    is_ok (validate_workflow_key actual)
    && workflow_key_eq actual (workflow_key_with_defaults requested)

unfoldable pub key_matches : (k : Kind) → Option (RecordKey k) → RecordKey k → Bool
key_matches k key requested =
    let actual = with_defaults (key_from_proto key) in
    is_ok (validate_key k actual) && key_eq actual (with_defaults requested)

unfoldable pub validate_activity_record : Option ActivityRecord → ActivityKey → Result (Unit {0})
validate_activity_record none requested = err corrupt_record
validate_activity_record (some r) requested =
    check (schema_of activity r.schema_version && key_matches activity r.key requested)

unfoldable pub validate_timer_record : Option TimerRecord → TimerKey → Result (Unit {0})
validate_timer_record none requested = err corrupt_record
validate_timer_record (some r) requested =
    check (schema_of timer r.schema_version && key_matches timer r.key requested)

unfoldable pub validate_event_record : Option EventRecord → EventKey → Result (Unit {0})
validate_event_record none requested = err corrupt_record
validate_event_record (some r) requested =
    check (schema_of event r.schema_version && key_matches event r.key requested)

-- `workflowStatusHasLatestPointer`
abbrev pub workflow_status_has_latest_pointer : WorkflowStatus → Bool
workflow_status_has_latest_pointer WorkflowStatus.in_progress = true
workflow_status_has_latest_pointer WorkflowStatus.completed = true
workflow_status_has_latest_pointer WorkflowStatus.failed = true
workflow_status_has_latest_pointer _ = false

abbrev pub is_in_progress : WorkflowStatus → Bool
is_in_progress WorkflowStatus.in_progress = true
is_in_progress _ = false

-- Whether a run has ended.
abbrev pub is_terminal : WorkflowStatus → Bool
is_terminal WorkflowStatus.completed = true
is_terminal WorkflowStatus.failed = true
is_terminal _ = false

abbrev pub int_eq : ℤ → ℤ → Bool
int_eq (ℤ.pos a) (ℤ.pos b) = a == b
int_eq (ℤ.negsuc a) (ℤ.negsuc b) = a == b
int_eq _ _ = false

abbrev pub same_status : WorkflowStatus → WorkflowStatus → Bool
same_status WorkflowStatus.in_progress WorkflowStatus.in_progress = true
same_status WorkflowStatus.completed WorkflowStatus.completed = true
same_status WorkflowStatus.failed WorkflowStatus.failed = true
same_status WorkflowStatus.unspecified WorkflowStatus.unspecified = true
same_status (WorkflowStatus.unknown a) (WorkflowStatus.unknown b) = int_eq a b
same_status _ _ = false

-- The Unix epoch, January 1 of 1970, as a time.
abbrev pub unix_epoch : Time
unix_epoch = 62135596800 * 1000000000

module _ ⦃e : Env⦄ where
  open e use {check_valid, as_time}

  -- An absent timestamp passes.
  abbrev pub valid_if_present : Option Timestamp → Bool
  valid_if_present none = true
  valid_if_present (some t) = check_valid t

  abbrev pub present_and_valid : Option Timestamp → Bool
  present_and_valid none = false
  present_and_valid (some t) = check_valid t

  unfoldable pub validate_workflow_record : Option WorkflowRecord → WorkflowKey → Result (Unit {0})
  validate_workflow_record none requested = err corrupt_record
  validate_workflow_record (some r) requested = check (
      workflow_schema r.schema_version
      && workflow_key_matches r.key requested
      && valid_if_present r.run_order_time)

  unfoldable pub validate_event_delivery_record : Option EventRecord → EventKey → Result (Unit {0})
  unfolding validate_event_record
  validate_event_delivery_record none requested = err corrupt_record
  validate_event_delivery_record (some r) requested =
      and_then (validate_event_record (some r) requested)
        (λ _. check (is_some r.payload && present_and_valid r.received_at))

  -- `ValidateLatestWorkflowRunPointer`
  unfoldable pub validate_latest_workflow_run_pointer :
      Option LatestWorkflowRunPointer → Text → Text → Result (Unit {0})
  validate_latest_workflow_run_pointer none namespace workflow_id = err corrupt_record
  validate_latest_workflow_run_pointer (some p) namespace workflow_id =
      let requested : WorkflowKey = workflow_key_with_defaults (record {
        namespace = namespace;
        workflow_id = workflow_id;
        run_id = codes "placeholder";
      }) in
      let actual = workflow_key_with_defaults (workflow_key_from_proto p.key) in
      and_then (validate_workflow_key requested) (λ _. check (
        is_ok (validate_workflow_key actual)
        && (text_eq actual.namespace requested.namespace
            && text_eq actual.workflow_id requested.workflow_id)
        && workflow_status_has_latest_pointer p.status
        && present_and_valid p.record_time
        && present_and_valid p.updated_at
        && present_and_valid p.run_order_time))

  -- The time of an optional timestamp that is checked before it is read.
  abbrev checked_time : Timestamp → Result (Option Time)
  checked_time t = and_then (check (check_valid t)) (λ _. ok (some (as_time t)))

  abbrev created_time : WorkflowRecord → Result (Option Time)
  created_time r = elim r.created_at [ none ↦ ok none | some t ↦ checked_time t ]

  -- `persistedWorkflowRecordTime`: the completion time of a finished run, or its creation time.
  unfoldable pub persisted_workflow_record_time : WorkflowRecord → Result (Option Time)
  persisted_workflow_record_time r =
      if is_terminal r.status
      then (elim r.completed_at [ none ↦ created_time r | some t ↦ checked_time t ])
      else created_time r

  -- A missing timestamp reads as the Unix epoch.
  abbrev pub optional_time : Option Timestamp → Time
  optional_time none = unix_epoch
  optional_time (some t) = as_time t

  -- The order time of a run: its own, or the record time.
  abbrev expected_run_order_time : WorkflowRecord → Time → Result Time
  expected_run_order_time r record_time = elim r.run_order_time [
    | none ↦ ok record_time
    | some t ↦ and_then (check (check_valid t)) (λ _. ok (as_time t))
  ]

  abbrev reference_times :
      LatestWorkflowRunPointer → WorkflowRecord → Option Time → Result (Unit {0})
  reference_times p r none = ok tt
  reference_times p r (some record_time) =
      and_then (require (optional_time p.record_time == record_time) stale_latest_pointer) (λ _.
        and_then (expected_run_order_time r record_time)
          (λ order. require (optional_time p.run_order_time == order) stale_latest_pointer))

  -- `ValidateLatestWorkflowRunReference`
  unfoldable pub validate_latest_workflow_run_reference :
      Option LatestWorkflowRunPointer → Option WorkflowRecord → Result (Unit {0})
  validate_latest_workflow_run_reference none r = err corrupt_record
  validate_latest_workflow_run_reference (some p) none = err corrupt_record
  validate_latest_workflow_run_reference (some p) (some r) =
      and_then (validate_workflow_record (some r) (workflow_key_from_proto p.key)) (λ _.
        and_then (require (same_status p.status r.status) stale_latest_pointer)
          (λ _. and_then (persisted_workflow_record_time r) (reference_times p r)))
