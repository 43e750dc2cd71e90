-- ===== src/OpenDal/Point.antt =====
-- Records at their points: the reads, writes and deletes of activities, events and workflow runs,
-- and the reads of canonical timer points.
use temporaless.Prelude.{Bool, true, false, Option, none, some, Text, if◌then◌else◌}
use temporaless.Action.{
  Result, ok, err, Action, done, fail, lift, attempt, ◌>>=◌, ◌>>◌, corrupt_record, not_found,
}
use temporaless.Key.{
  WorkflowKey, ActivityKey, TimerKey, EventKey, activity, timer, event, key_from_proto,
  workflow_path, record_path, record_dir_path,
}
use temporaless.Message.{
  Message, Body, workflow_record, activity_record, timer_record, event_record, WorkflowRecord,
  ActivityRecord, TimerRecord, EventRecord,
}
use temporaless.Env.{Env}
use temporaless.Validate.{
  validate_workflow_record, validate_activity_record, validate_timer_record, validate_event_record,
}

-- A payload that does not decode is corrupt, whatever the decoder says.
abbrev pub or_corrupt {ℓ} : {A : Type ℓ} → Result A → Result A
or_corrupt (ok a) = ok a
or_corrupt (err x) = err corrupt_record

module _ ⦃e : Env⦄ where
  open e use {World, Data, is_exist, read, write, create_dir, delete, ctx_err, marshal, unmarshal}

  -- The bytes of an object, as a checked message.
  unfoldable pub decode : (m : Message) → (Body m → Result (Unit {0})) → Data → Result (Body m)
  decode m validate d = elim (or_corrupt (unmarshal m d)) [
    | ok b ↦ elim (validate b) [ ok _ ↦ ok b | err x ↦ err x ]
    | err x ↦ err x
  ]

  -- From `IsExist` to the end of a read.
  unfoldable pub read_point :
      (m : Message) → Text → (Body m → Result (Unit {0})) → Action World (Option (Body m))
  read_point m path validate = do
    exists ← is_exist path
    if exists
        then (do ctx_err; d ← read path; b ← lift (decode m validate d); done (some b))
        else done none

  -- From `Marshal` to the end of a write.
  unfoldable pub write_point : (m : Message) → Text → Text → Body m → Action World Unit
  write_point m path dir b = do d ← lift (marshal m b); create_dir dir; ctx_err; write path d

  unfoldable pub get_activity : ActivityKey → Action World (Option ActivityRecord)
  get_activity key = do
    ctx_err
    path ← lift (record_path activity key)
    read_point activity_record path (λ r. validate_activity_record (some r) key)

  unfoldable pub get_workflow : WorkflowKey → Action World (Option WorkflowRecord)
  get_workflow key = do
    ctx_err
    path ← lift (workflow_path key)
    read_point workflow_record path (λ r. validate_workflow_record (some r) key)

  unfoldable pub get_timer_point : TimerKey → Action World (Option TimerRecord)
  get_timer_point key = do
    ctx_err
    path ← lift (record_path timer key)
    read_point timer_record path (λ r. validate_timer_record (some r) key)

  unfoldable pub get_event : EventKey → Action World (Option EventRecord)
  get_event key = do
    ctx_err
    path ← lift (record_path event key)
    read_point event_record path (λ r. validate_event_record (some r) key)

  unfoldable pub put_activity : Option ActivityRecord → Action World Unit
  put_activity none = do ctx_err; lift (validate_activity_record none (key_from_proto none))
  put_activity (some r) = do
    ctx_err
    let key = key_from_proto r.key
    lift (validate_activity_record (some r) key)
    path ← lift (record_path activity key)
    dir ← lift (record_dir_path activity key)
    write_point activity_record path dir r

  unfoldable pub put_event : Option EventRecord → Action World Unit
  put_event none = do ctx_err; lift (validate_event_record none (key_from_proto none))
  put_event (some r) = do
    ctx_err
    let key = key_from_proto r.key
    lift (validate_event_record (some r) key)
    path ← lift (record_path event key)
    dir ← lift (record_dir_path event key)
    write_point event_record path dir r

  -- What the result of a delete means: an object that is gone already counts as not deleted.
  unfoldable pub delete_settled : Result (Unit {0}) → Action World Bool
  delete_settled (ok _) = done true
  delete_settled (err not_found) = done false
  delete_settled (err x) = fail x

  unfoldable pub delete_if_exists : Text → Action World Bool
  delete_if_exists path = do
    exists ← is_exist path
    if exists then (do deleted ← attempt (delete path); delete_settled deleted) else done false

  unfoldable pub delete_activity : ActivityKey → Action World Bool
  delete_activity key = do ctx_err; path ← lift (record_path activity key); delete_if_exists path

  unfoldable pub delete_event : EventKey → Action World Bool
  delete_event key = do ctx_err; path ← lift (record_path event key); delete_if_exists path

  unfoldable pub delete_workflow : WorkflowKey → Action World Bool
  delete_workflow key = do ctx_err; path ← lift (workflow_path key); delete_if_exists path
