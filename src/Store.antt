-- ===== src/Store.antt =====
-- core/go/storage/store.go: the interface `Store` that the runtime uses. What it promises of three of
-- its record kinds has one form for each kind, so these are parts of one family here.
use temporaless.Prelude.{Bool, Option, none, some, List, Text}
use temporaless.Action.{Action, Result}
use temporaless.Key.{WorkflowKey, Kind, RecordKey, activity, timer, event, key_from_proto}
use temporaless.Message.{
  WorkflowRecord, ActivityRecord, TimerRecord, EventRecord, LatestWorkflowRunPointer, Time,
  TimerStatus,
}
use temporaless.Validate.{validate_activity_record, validate_timer_record, validate_event_record}
use temporaless.Validate.Listed.{DueTimer}

-- The record kinds that belong to a run and that the store can list.
pub data Part : Type 0 where
  activities timers events : Part

abbrev pub kind : Part → Kind
kind activities = activity
kind timers = timer
kind events = event

abbrev pub RecordOf : Part → Type 0
RecordOf activities = ActivityRecord
RecordOf timers = TimerRecord
RecordOf events = EventRecord

abbrev pub KeyOf : Part → Type 0
KeyOf p = RecordKey (kind p)

-- `record.GetKey()`, for a record that may be nil.
abbrev pub key_field : (p : Part) → RecordOf p → Option (KeyOf p)
key_field activities r = r.key
key_field timers r = r.key
key_field events r = r.key

-- `ActivityKeyFromProto(record.GetKey())` and the like.
abbrev pub key_of : (p : Part) → Option (RecordOf p) → KeyOf p
key_of p none = key_from_proto none
key_of p (some r) = key_from_proto (key_field p r)

-- `ValidateActivityRecord` and the like.
abbrev pub validate_record : (p : Part) → Option (RecordOf p) → KeyOf p → Result (Unit {0})
validate_record activities = validate_activity_record
validate_record timers = validate_timer_record
validate_record events = validate_event_record

-- `ActivityStore`, `EventStore`, `TimerStore` and `WorkflowStore` with `DueTimers`. `W` is the state
-- of the store and of what it talks to. A pointer that an implementation may leave nil is an
-- `Option`, beside the `found` flag. The status is read when timers are listed.
pub record Store (W : Type 0) : Type 0 where
  pub get : (p : Part) → KeyOf p → Action W (Option (RecordOf p) × Bool)
  pub put : (p : Part) → Option (RecordOf p) → Action W Unit
  pub list : (p : Part) → WorkflowKey → TimerStatus → Action W (List (Option (RecordOf p)))
  pub delete : (p : Part) → KeyOf p → Action W Bool
  pub get_workflow : WorkflowKey → Action W (Option WorkflowRecord × Bool)
  pub put_workflow : Option WorkflowRecord → Action W Unit
  pub get_latest_workflow_run : Text → Text → Action W (Option LatestWorkflowRunPointer × Bool)
  pub delete_workflow : WorkflowKey → Action W Bool
  pub due_timers : Text → Time → Action W (List DueTimer)
