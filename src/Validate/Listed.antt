-- ===== src/Validate/Listed.antt =====
-- The checks of payloads that come from a listing or from a scan: `validateListedActivity`,
-- `validateListedTimer` and `validateListedEvent` of core/go/storage/opendal.go, `ValidateDueTimer`
-- and `ValidateClaimRecord` of core/go/storage/validate.go.
use temporaless.Prelude.{
  Bool, true, false, not, ◌&&◌, ◌||◌, Option, none, some, [], Text, text_eq, ltb,
}
use temporaless.Action.{Result, err, corrupt_record, and_then}
use temporaless.Key.{
  WorkflowKey, Kind, RecordKey, TimerKey, ClaimKey, claim, activity, timer, event, key_from_proto,
  with_defaults, run_of, record_path, same_workflow_run,
}
use temporaless.Message.{
  ℤ, SchemaVersion, TimerStatus, Timestamp, Time, WorkflowRecord, ActivityRecord, TimerRecord,
  EventRecord,
}
use temporaless.Env.{Env}
use temporaless.Validate.{
  check, schema_of, key_matches, validate_activity_record, validate_timer_record,
  validate_event_record, validate_workflow_record, is_in_progress,
}

pub data ClaimResourceType : Type 0 where
  unspecified_resource workflow_resource activity_resource timer_resource concurrency_key :
      ClaimResourceType
  unknown_resource : ℤ → ClaimResourceType

pub record ClaimRecord : Type 0 where
  pub schema_version : SchemaVersion
  pub key : Option ClaimKey
  pub owner_id : Text
  pub resource_type : ClaimResourceType
  pub resource_id : Text
  pub lease_expires_at : Option Timestamp
  pub created_at : Option Timestamp
  pub heartbeat_at : Option Timestamp

unfoldable pub validate_claim_record : Option ClaimRecord → ClaimKey → Result (Unit {0})
validate_claim_record none requested = err corrupt_record
validate_claim_record (some r) requested =
    check (schema_of claim r.schema_version && key_matches claim r.key requested)

-- What the three checks of listed payloads share: the payload is valid for its own key, that key
-- belongs to the listed run, and the payload lies at the path of that key.
unfoldable pub validate_listed :
    (k : Kind) → Result (Unit {0}) → Text → WorkflowKey → RecordKey k → Result (Unit {0})
validate_listed k validated path target key = and_then validated (λ _.
    and_then (check (same_workflow_run target (run_of key)))
      (λ _. and_then (record_path k key) (λ expected. check (text_eq expected path))))

unfoldable pub validate_listed_activity :
    Text → WorkflowKey → Option ActivityRecord → Result (Unit {0})
unfolding validate_listed
validate_listed_activity path target none =
    validate_listed activity (validate_activity_record none (key_from_proto none)) path target
      (key_from_proto none)
validate_listed_activity path target (some r) =
    let key = key_from_proto r.key in
    validate_listed activity (validate_activity_record (some r) key) path target key

unfoldable pub validate_listed_timer : Text → WorkflowKey → Option TimerRecord → Result (Unit {0})
unfolding validate_listed
validate_listed_timer path target none =
    validate_listed timer (validate_timer_record none (key_from_proto none)) path target
      (key_from_proto none)
validate_listed_timer path target (some r) =
    let key = key_from_proto r.key in
    validate_listed timer (validate_timer_record (some r) key) path target key

unfoldable pub validate_listed_event : Text → WorkflowKey → Option EventRecord → Result (Unit {0})
unfolding validate_listed
validate_listed_event path target none =
    validate_listed event (validate_event_record none (key_from_proto none)) path target
      (key_from_proto none)
validate_listed_event path target (some r) =
    let key = key_from_proto r.key in
    validate_listed event (validate_event_record (some r) key) path target key

pub record DueTimer : Type 0 where
  pub key : TimerKey
  pub timer_record : Option TimerRecord
  pub workflow : Option WorkflowRecord

abbrev pub scheduled : TimerStatus → Bool
scheduled TimerStatus.scheduled = true
scheduled _ = false

abbrev pub is_empty : Text → Bool
is_empty [] = true
is_empty _ = false

module _ ⦃e : Env⦄ where
  open e use {check_valid, as_time}

  -- `fire_at` is there, valid and not after `now`.
  abbrev pub fired_by : Option Timestamp → Time → Bool
  fired_by none now = false
  fired_by (some t) now = check_valid t && not (ltb now (as_time t))

  abbrev pub timer_is_due : Option TimerRecord → Time → Bool
  timer_is_due none now = false
  timer_is_due (some r) now = scheduled r.status && fired_by r.fire_at now

  abbrev pub workflow_is_in_progress : Option WorkflowRecord → Bool
  workflow_is_in_progress none = false
  workflow_is_in_progress (some w) = is_in_progress w.status

  -- Every check after the first two gives `ErrCorruptRecord`.
  unfoldable pub validate_due_timer : DueTimer → Text → Time → Result (Unit {0})
  validate_due_timer due namespace now =
      and_then (validate_timer_record due.timer_record due.key) (λ _.
        and_then (validate_workflow_record due.workflow (run_of due.key)) (λ _. check (
          (is_empty namespace || text_eq (with_defaults due.key).namespace namespace)
          && timer_is_due due.timer_record now
          && workflow_is_in_progress due.workflow)))
