-- ===== src/OpenDal/Latest.antt =====
-- Workflow runs and the derived pointer to the latest run of a workflow id.
pub mod Reference
pub mod Order
pub mod Publish
pub mod Workflow
use temporaless.Prelude.{
  ◌≡◌, Bool, true, false, not, Option, none, some, Text, ◌==◌, ltb, codes, if◌then◌else◌,
}
use temporaless.Action.{
  Result, ok, err, Action, done, fail, lift, attempt, ◌>>=◌, ◌>>◌, plain, and_then, require,
  is_stale,
}
use temporaless.Key.{
  WorkflowKey, workflow_key_from_proto, workflow_key_with_defaults, workflow_path,
  workflow_dir_path, latest_workflow_run_pointer_path,
}
use temporaless.Message.{
  WorkflowRecord, WorkflowStatus, Timestamp, Time, LatestWorkflowRunPointer, workflow_record,
  latest_workflow_run_pointer,
}
use temporaless.Env.{Env}
use temporaless.Validate.{
  is_terminal, workflow_status_has_latest_pointer, validate_workflow_record,
  validate_latest_workflow_run_pointer, validate_latest_workflow_run_reference, optional_time,
}
use temporaless.OpenDal.Point.{read_point, write_point, get_workflow}
use temporaless.OpenDal.Due.{parent_dir}

module _ ⦃e : Env⦄ where
  open e use {
    World, Data, now, ctx_err, create_dir, write, marshal, check_valid, as_time, new_timestamp,
  }

  -- time.Now
  unfoldable pub clock : Action World Time
  clock s = let (t, s') = now s in (ok t, s')

  -- An absent or invalid timestamp is an error without a class.
  abbrev pub require_valid : Option Timestamp → Result (Unit {0})
  require_valid none = err plain
  require_valid (some t) = require (check_valid t) plain

  -- A timestamp that is present, as a time.
  abbrev pub time_of : Timestamp → Result Time
  time_of t = and_then (require (check_valid t) plain) (λ _. ok (as_time t))

  unfoldable pub created_or_now : WorkflowRecord → Action World Time
  created_or_now r = elim r.created_at [ none ↦ clock | some t ↦ lift (time_of t) ]

  -- `workflowLatestPointerRecordTime`
  unfoldable pub workflow_latest_pointer_record_time : WorkflowRecord → Action World Time
  unfolding created_or_now
  workflow_latest_pointer_record_time r =
      if is_terminal r.status
      then (elim r.completed_at [ none ↦ created_or_now r | some t ↦ lift (time_of t) ])
      else created_or_now r

  -- Later in the order of runs, or as late and recorded no earlier.
  abbrev pub replaces : Time → Time → Time → Time → Bool
  replaces order record_time existing_order existing_record_time =
      if order == existing_order
      then not (ltb record_time existing_record_time)
      else ltb existing_order order

  -- `shouldReplaceLatestWorkflowRun`
  unfoldable pub should_replace_latest_workflow_run :
      LatestWorkflowRunPointer → Time → Time → Result Bool
  should_replace_latest_workflow_run existing order record_time =
      and_then (require_valid existing.run_order_time) (λ _.
        and_then (require_valid existing.record_time) (λ _. ok (
          replaces order record_time (optional_time existing.run_order_time)
            (optional_time existing.record_time))))

  -- `getLatestWorkflowRunPointer`
  unfoldable pub get_latest_workflow_run_pointer :
      Text → Text → Action World (Option LatestWorkflowRunPointer)
  get_latest_workflow_run_pointer namespace workflow_id = do
    ctx_err
    path ← lift (latest_workflow_run_pointer_path namespace workflow_id)
    read_point latest_workflow_run_pointer path
        (λ p. validate_latest_workflow_run_pointer (some p) namespace workflow_id)

  abbrev pub pointer_to :
      WorkflowKey → WorkflowStatus → Time → Time → Time → LatestWorkflowRunPointer
  pointer_to key status record_time order updated = record {
    key = some (workflow_key_with_defaults key);
    status = status;
    record_time = some (new_timestamp record_time);
    updated_at = some (new_timestamp updated);
    run_order_time = some (new_timestamp order);
  }

  -- The second half of `putLatestWorkflowRun`.
  unfoldable pub write_latest_workflow_run :
      WorkflowKey → WorkflowStatus → Time → Time → Action World Unit
  write_latest_workflow_run key status record_time order = do
    updated ← clock
    d ← lift (marshal latest_workflow_run_pointer (pointer_to key status record_time order updated))
    path ← lift (latest_workflow_run_pointer_path key.namespace key.workflow_id)
    create_dir (parent_dir path)
    ctx_err
    write path d

  -- The pointer that is there stays unless the incoming run replaces it.
  unfoldable pub put_over :
      Option LatestWorkflowRunPointer
      → WorkflowKey
      → WorkflowStatus
      → Time
      → Time
      → Action World Unit
  put_over none key status record_time order =
      write_latest_workflow_run key status record_time order
  put_over (some p) key status record_time order = do
    replace ← lift (should_replace_latest_workflow_run p order record_time)
    if replace then write_latest_workflow_run key status record_time order else done tt

  unfoldable pub put_latest_workflow_run : WorkflowRecord → Time → Time → Action World Unit
  put_latest_workflow_run r record_time order = do
    ctx_err
    let key = workflow_key_with_defaults (workflow_key_from_proto r.key)
    existing ← get_latest_workflow_run_pointer key.namespace key.workflow_id
    put_over existing key r.status record_time order

  -- The time that orders runs: the record's own, or its record time.
  abbrev pub run_order : WorkflowRecord → Time → Time
  run_order r record_time = elim r.run_order_time [ none ↦ record_time | some t ↦ as_time t ]

  -- The times of the pointer, for the statuses that have one.
  unfoldable pub pointer_times : WorkflowRecord → Action World (Option Time)
  pointer_times r =
      if workflow_status_has_latest_pointer r.status
      then (do t ← workflow_latest_pointer_record_time r; done (some t))
      else done none

  unfoldable pub publish : WorkflowRecord → Option Time → Action World Unit
  publish r none = done tt
  publish r (some t) = put_latest_workflow_run r t (run_order r t)

  unfoldable pub put_workflow : Option WorkflowRecord → Action World Unit
  put_workflow none = do
    ctx_err
    lift (validate_workflow_record none (workflow_key_from_proto none))
  put_workflow (some r) = do
    ctx_err
    let key = workflow_key_from_proto r.key
    lift (validate_workflow_record (some r) key)
    times ← pointer_times r
    path ← lift (workflow_path key)
    dir ← lift (workflow_dir_path key)
    write_point workflow_record path dir r
    publish r times

  -- The answer to a caller: the pointer, unless its run has moved on.
  abbrev pub answered :
      LatestWorkflowRunPointer → Result (Unit {0}) → Result (Option LatestWorkflowRunPointer)
  answered p (ok _) = ok (some p)
  answered p (err x) = if is_stale x then ok none else err x

  -- The pointer of a run that is gone is not returned.
  unfoldable pub dereferenced :
      LatestWorkflowRunPointer → Option WorkflowRecord → Result (Option LatestWorkflowRunPointer)
  dereferenced p none = ok none
  dereferenced p (some r) = answered p (validate_latest_workflow_run_reference (some p) (some r))

  unfoldable pub dereference :
      Option LatestWorkflowRunPointer → Action World (Option LatestWorkflowRunPointer)
  dereference none = done none
  dereference (some p) = do
    reference ← get_workflow (workflow_key_from_proto p.key)
    lift (dereferenced p reference)

  unfoldable pub get_latest_workflow_run :
      Text → Text → Action World (Option LatestWorkflowRunPointer)
  get_latest_workflow_run namespace workflow_id = do
    pointer ← get_latest_workflow_run_pointer namespace workflow_id
    dereference pointer
