-- ===== src/Message.antt =====
-- The protobuf messages of api/temporaless/v1/temporaless.proto that the store keeps. A message
-- field that may be absent is an `Option`; an enum is open, so it has a constructor for the numbers
-- that the schema does not name. `Timestamp` and `Duration` are the well-known types, `AnyValue` is
-- `google.protobuf.Any`, and a `double` is its 64 bits.
use temporaless.Prelude.{ℕ, Option, List, Text}
use temporaless.Key.{WorkflowKey, ActivityKey, TimerKey, EventKey}

pub data ℤ : Type 0 where
  pos : ℕ → ℤ
  negsuc : ℕ → ℤ

pub record Timestamp : Type 0 where
  pub seconds : ℤ
  pub nanos : ℤ

pub record Duration : Type 0 where
  pub seconds : ℤ
  pub nanos : ℤ

-- A `time.Time` in nanoseconds since the zero time, January 1 of year 1 in UTC.
abbrev pub Time : Type 0
Time = ℕ

pub record AnyValue : Type 0 where
  pub type_url : Text
  pub value : Text

pub data SchemaVersion : Type 0 where
  unspecified activity workflow timer claim event : SchemaVersion
  unknown : ℤ → SchemaVersion

pub data WorkflowStatus : Type 0 where
  unspecified completed failed in_progress : WorkflowStatus
  unknown : ℤ → WorkflowStatus

pub data ActivityStatus : Type 0 where
  unspecified completed failed retrying : ActivityStatus
  unknown : ℤ → ActivityStatus

pub data TimerStatus : Type 0 where
  unspecified scheduled fired canceled : TimerStatus
  unknown : ℤ → TimerStatus

pub data TimerKind : Type 0 where
  unspecified sleep activity_retry poll : TimerKind
  unknown : ℤ → TimerKind

pub record ActivityFailure : Type 0 where
  pub code : Text
  pub message : Text
  pub retry_after : Option Duration

pub record ActivityAttempt : Type 0 where
  pub attempt : ℕ
  pub started_at : Option Timestamp
  pub completed_at : Option Timestamp
  pub failure : Option ActivityFailure

pub record RetryPolicy : Type 0 where
  pub initial_interval : Option Duration
  pub backoff_coefficient : ℕ
  pub maximum_interval : Option Duration
  pub maximum_attempts : ℕ
  pub non_retryable_error_codes : List Text
  pub durable_backoff_threshold : Option Duration

pub record WorkflowRecord : Type 0 where
  pub schema_version : SchemaVersion
  pub key : Option WorkflowKey
  pub workflow_type : Text
  pub input : Option AnyValue
  pub status : WorkflowStatus
  pub result : Option AnyValue
  pub failure : Option ActivityFailure
  pub created_at : Option Timestamp
  pub completed_at : Option Timestamp
  pub annotations : List (Text × Text)
  pub run_order_time : Option Timestamp

pub record ActivityRecord : Type 0 where
  pub schema_version : SchemaVersion
  pub key : Option ActivityKey
  pub activity_type : Text
  pub input : Option AnyValue
  pub status : ActivityStatus
  pub result : Option AnyValue
  pub failure : Option ActivityFailure
  pub created_at : Option Timestamp
  pub completed_at : Option Timestamp
  pub attempts : List ActivityAttempt
  pub annotations : List (Text × Text)
  pub next_attempt_at : Option Timestamp
  pub retry_policy : Option RetryPolicy
  pub retry_timer_id : Text

pub record TimerRecord : Type 0 where
  pub schema_version : SchemaVersion
  pub key : Option TimerKey
  pub timer_kind : TimerKind
  pub duration : Option Duration
  pub status : TimerStatus
  pub fire_at : Option Timestamp
  pub created_at : Option Timestamp
  pub fired_at : Option Timestamp
  pub retry_activity_id : Text

pub record EventRecord : Type 0 where
  pub schema_version : SchemaVersion
  pub key : Option EventKey
  pub payload : Option AnyValue
  pub received_at : Option Timestamp

pub record DueTimerEntry : Type 0 where
  pub key : Option TimerKey
  pub workflow_key : Option WorkflowKey
  pub fire_at : Option Timestamp
  pub prepared : Option TimerRecord

pub record LatestWorkflowRunPointer : Type 0 where
  pub key : Option WorkflowKey
  pub status : WorkflowStatus
  pub record_time : Option Timestamp
  pub updated_at : Option Timestamp
  pub run_order_time : Option Timestamp

-- The messages that objects hold.
pub data Message : Type 0 where
  workflow_record activity_record timer_record event_record : Message
  due_timer_entry latest_workflow_run_pointer : Message

abbrev pub Body : Message → Type 0
Body workflow_record = WorkflowRecord
Body activity_record = ActivityRecord
Body timer_record = TimerRecord
Body event_record = EventRecord
Body due_timer_entry = DueTimerEntry
Body latest_workflow_run_pointer = LatestWorkflowRunPointer
