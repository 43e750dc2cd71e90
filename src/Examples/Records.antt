-- ===== src/Examples/Records.antt =====
-- Runs of the writes and deletes of points over a bucket in memory.
use temporaless.Prelude.{Text, none, some, [], codes}
use temporaless.Key.{ActivityKey, activity, event, key_from_proto, record_path, workflow_path}
use temporaless.Message.{ActivityRecord, EventRecord, SchemaVersion, ActivityStatus}
use temporaless.Env.Memory.{memory, memory-Lawful, memory-Finds}
use temporaless.Env.Ensures.{Ensures}
use temporaless.OpenDal.Point.{
  put_activity, put_event, delete_activity, delete_event, delete_workflow,
}
use temporaless.OpenDal.View.{activity_on, event_on, workflow_on}
use temporaless.OpenDal.Quarantine.{
  Quarantined, quarantine_due_entry, quarantine_target, Keeps, quarantine_due_entry-kept,
}
use temporaless.OpenDal.Records.{
  Changed, Answered, put_activity-atomic, put_event-atomic, delete_activity-atomic,
  delete_event-atomic, delete_workflow-atomic,
}
use temporaless.Examples.{no_objects, wake_key, run_key, one_run}

abbrev fetch_key : ActivityKey
fetch_key = record {
  namespace = [];
  workflow_id = codes "wf";
  run_id = codes "r1";
  id = codes "fetch";
}

abbrev pub fetch : ActivityRecord
fetch = record {
  schema_version = SchemaVersion.activity;
  key = some fetch_key;
  activity_type = codes "fetch";
  input = none;
  status = ActivityStatus.completed;
  result = none;
  failure = none;
  created_at = none;
  completed_at = none;
  attempts = [];
  annotations = [];
  next_attempt_at = none;
  retry_policy = none;
  retry_timer_id = [];
}

put_activity-atomic_example : Ensures no_objects (put_activity (some fetch)) (λ result o'.
    Changed
      (record_path activity (key_from_proto fetch.key))
      (activity_on (key_from_proto fetch.key))
      (some fetch)
      no_objects
      (Answered result)
      o')
put_activity-atomic_example = put_activity-atomic memory-Lawful fetch no_objects

abbrev wake : EventRecord
wake = record {
  schema_version = SchemaVersion.event;
  key = some wake_key;
  payload = none;
  received_at = none;
}

put_event-atomic_example : Ensures no_objects (put_event (some wake)) (λ result o'.
    Changed
      (record_path event (key_from_proto wake.key))
      (event_on (key_from_proto wake.key))
      (some wake)
      no_objects
      (Answered result)
      o')
put_event-atomic_example = put_event-atomic memory-Lawful wake no_objects

delete_activity-atomic_example : Ensures one_run (delete_activity fetch_key) (λ result o'.
    Changed
      (record_path activity fetch_key)
      (activity_on fetch_key)
      none
      one_run
      (Answered result)
      o')
delete_activity-atomic_example = delete_activity-atomic memory-Lawful fetch_key one_run

delete_event-atomic_example : Ensures one_run (delete_event wake_key) (λ result o'.
    Changed (record_path event wake_key) (event_on wake_key) none one_run (Answered result) o')
delete_event-atomic_example = delete_event-atomic memory-Lawful wake_key one_run

delete_workflow-atomic_example : Ensures one_run (delete_workflow run_key) (λ result o'.
    Changed (workflow_path run_key) (workflow_on run_key) none one_run (Answered result) o')
delete_workflow-atomic_example = delete_workflow-atomic memory-Lawful run_key one_run

-- An object of the bucket, as an entry that cannot be used.
abbrev stored_entry : Text
stored_entry = codes "temporaless/v2/default/_latest/wf.binpb"

quarantine_due_entry-kept_example :
    Ensures one_run
      (quarantine_due_entry (codes "temporaless/v2/default/_due_invalid/") stored_entry)
      (λ result o'.
        Quarantined
          (quarantine_target (codes "temporaless/v2/default/_due_invalid/") stored_entry)
          stored_entry
          one_run
          o'
        × Keeps memory-Lawful
            (codes "temporaless/v2/default/_due_invalid/")
            stored_entry
            one_run
            result
            o')
quarantine_due_entry-kept_example =
    quarantine_due_entry-kept memory-Lawful (codes "temporaless/v2/default/_due_invalid/")
      stored_entry one_run memory-Finds
