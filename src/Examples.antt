-- ===== src/Examples.antt =====
-- Runs of the store over a bucket in memory, at concrete keys and records.
pub mod Records
pub mod Latest
pub mod Listing
pub mod Scan
pub mod Shelf
pub mod Replay
pub mod Slot
pub mod Waits
pub mod Claims
pub mod Sweeps
pub mod Retry
use temporaless.Prelude.{◌≡◌, ◌≢◌, true, refl, ◌⊎◌, text_eq, if◌then◌else◌, none, some, [], codes}
use temporaless.Action.{Error, ok, err, is_fault, not_found}
use temporaless.Key.{
  WorkflowKey, TimerKey, EventKey, timer, event, record_path, validate_key, workflow_path,
  with_defaults, valid_workflow_key, validate_workflow_key, valid_key, valid_id, id_chars,
  run_prefix, workflow_key_eq, key_eq, latest_workflow_run_pointer_path, workflow_key_from_proto,
}
use temporaless.Key.Distinct.{Address, record_at}
use temporaless.Key.Located.{paths_distinct}
use temporaless.Message.{
  ℤ, TimerRecord, TimerStatus, TimerKind, SchemaVersion, Timestamp, WorkflowRecord, WorkflowStatus,
  LatestWorkflowRunPointer, AnyValue,
}
use temporaless.Env.Memory.{memory, memory-Lawful, memory-Finds, Bucket, Blob}
use temporaless.Env.Ensures.{Ensures}
use temporaless.OpenDal.View.{timer_on, workflow_on}
use temporaless.OpenDal.View.Found.{get_timer-timer_on}
use temporaless.OpenDal.Timers.{shown, put_timer, get_timer, delete_timer}
use temporaless.OpenDal.Timers.Put.{Outcome, timer_key, put_timer-atomic}
use temporaless.OpenDal.Timers.Delete.{Deleted, delete_timer-atomic}
use temporaless.Validate.{
  validate_workflow_record, workflow_key_matches, validate_latest_workflow_run_pointer,
  validate_latest_workflow_run_reference, persisted_workflow_record_time,
  validate_event_delivery_record, validate_event_record, key_matches,
}
use temporaless.OpenDal.Point.{decode, read_point, get_workflow}
use temporaless.OpenDal.Latest.{
  clock, dereferenced, dereference, get_latest_workflow_run, get_latest_workflow_run_pointer,
}
use temporaless.OpenDal.Latest.Reference.{latest_on, latest_run-exists}
use temporaless.Delivery.{
  EventDeliveryStore, EventDeliveryCapability, EventDeliveryDisposition, Delivered, deliver_event,
  deliver_event_sound,
}

abbrev pub no_objects : Bucket
no_objects p = none

abbrev pub nap : TimerKey
nap = record { namespace = []; workflow_id = codes "wf"; run_id = codes "r1"; id = codes "nap" }

abbrev pub sleep_timer : TimerRecord
sleep_timer = record {
  schema_version = SchemaVersion.timer;
  key = some nap;
  timer_kind = TimerKind.sleep;
  duration = none;
  status = TimerStatus.scheduled;
  fire_at = some (record { seconds = ℤ.pos 0; nanos = ℤ.pos 5 });
  created_at = none;
  fired_at = none;
  retry_activity_id = [];
}

put_timer-atomic_example : Ensures no_objects (put_timer (some sleep_timer)) (λ result o'.
    Outcome (timer_key sleep_timer) (shown sleep_timer) no_objects (result ≡ ok tt) o')
put_timer-atomic_example = put_timer-atomic memory-Lawful sleep_timer no_objects

delete_timer-atomic_example : Ensures no_objects (delete_timer nap) (Deleted nap no_objects)
delete_timer-atomic_example = delete_timer-atomic memory-Lawful nap no_objects

get_timer-timer_on_example :
    ((get_timer nap no_objects).1 ≡ no_objects)
    × (((get_timer nap no_objects).0 ≡ timer_on nap no_objects)
        ⊎ ((x : Error) × ((get_timer nap no_objects).0 ≡ err x)
            × (is_fault x ≡ true)
            × (x ≢ not_found)))
get_timer-timer_on_example = get_timer-timer_on memory-Lawful memory-Finds nap no_objects

nap_path : record_path timer nap ≡ ok (codes "temporaless/v2/default/wf/r1/timer/nap.binpb")
unfolding record_path validate_key valid_key valid_id id_chars run_prefix
nap_path = refl

abbrev nap_address : Address
nap_address = record_at timer (codes "default") (codes "wf") (codes "r1") (codes "nap")

paths_distinct_example : nap_address ≡ nap_address
unfolding record_path
paths_distinct_example =
    paths_distinct (codes "temporaless/v2/default/wf/r1/timer/nap.binpb") nap_address nap_address
      (nap, refl, nap_path) (with_defaults nap, refl, nap_path)

abbrev pub run_key : WorkflowKey
run_key = record { namespace = codes "default"; workflow_id = codes "wf"; run_id = codes "r1" }

abbrev at_second : Timestamp
at_second = record { seconds = ℤ.pos 0; nanos = ℤ.pos 1 }

abbrev pub completed_run : WorkflowRecord
completed_run = record {
  schema_version = SchemaVersion.workflow;
  key = some run_key;
  workflow_type = codes "job";
  input = none;
  status = WorkflowStatus.completed;
  result = none;
  failure = none;
  created_at = none;
  completed_at = some at_second;
  annotations = [];
  run_order_time = none;
}

abbrev pointer : LatestWorkflowRunPointer
pointer = record {
  key = some run_key;
  status = WorkflowStatus.completed;
  record_time = some at_second;
  updated_at = some at_second;
  run_order_time = some at_second;
}

abbrev pub one_run : Bucket
one_run p =
    if text_eq p (codes "temporaless/v2/default/wf/r1/workflow.binpb")
    then some (Blob.workflow completed_run)
    else if text_eq p (codes "temporaless/v2/default/_latest/wf.binpb")
    then some (Blob.latest pointer)
    else none

one_run-latest :
    (get_latest_workflow_run (codes "default") (codes "wf") one_run).0 ≡ ok (some pointer)
unfolding get_latest_workflow_run get_latest_workflow_run_pointer dereference get_workflow
    read_point latest_workflow_run_pointer_path validate_workflow_key valid_workflow_key valid_id
    id_chars decode validate_latest_workflow_run_pointer dereferenced validate_workflow_record
    workflow_key_matches workflow_path validate_latest_workflow_run_reference workflow_key_eq
    text_eq run_prefix persisted_workflow_record_time
one_run-latest = refl

latest_run-exists_example :
    (latest_on (codes "default") (codes "wf") one_run ≡ ok (some pointer))
    × ((r : WorkflowRecord) × (workflow_on (workflow_key_from_proto pointer.key) one_run
          ≡ ok (some r))
        × (pointer.status ≡ r.status))
    × ((get_latest_workflow_run (codes "default") (codes "wf") one_run).1 ≡ one_run)
latest_run-exists_example =
    latest_run-exists memory-Lawful (codes "default") (codes "wf") one_run pointer one_run-latest

abbrev pub wake_key : EventKey
wake_key = record {
  namespace = [];
  workflow_id = codes "wf";
  run_id = codes "r1";
  id = codes "wake";
}

abbrev creating_store : EventDeliveryStore
creating_store = record {
  event_delivery_capability = λ s. (ok EventDeliveryCapability.create_only, s);
  deliver_event = λ r s. (ok EventDeliveryDisposition.created, s);
}

abbrev payload : AnyValue
payload = record { type_url = codes "t"; value = [] }

delivered :
    (deliver_event (some creating_store) wake_key (some (ok payload)) no_objects).0
    ≡ ok EventDeliveryDisposition.created
unfolding deliver_event clock validate_event_delivery_record validate_event_record key_matches
    validate_key valid_key valid_id id_chars key_eq text_eq
delivered = refl

deliver_event_sound_example :
    Delivered
      (some creating_store)
      wake_key
      (some (ok payload))
      no_objects
      EventDeliveryDisposition.created
      no_objects
unfolding deliver_event clock validate_event_delivery_record validate_event_record key_matches
    validate_key valid_key valid_id id_chars key_eq text_eq
deliver_event_sound_example =
    deliver_event_sound (some creating_store) wake_key (some (ok payload)) no_objects delivered
