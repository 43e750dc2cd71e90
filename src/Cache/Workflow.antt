-- ===== src/Cache/Workflow.antt =====
-- core/go/workflow/cache.go: the workflow record of the run in scope, and the reads that the cache
-- does not keep, `GetLatestWorkflowRun` and `DueTimers`.
use temporaless.Prelude.{
  Bool, true, Option, none, some, List, [], ◌∷◌, Text, is_some, if◌then◌else◌,
}
use temporaless.Action.{Result, ok, err, Action, done, lift, ◌>>=◌, ◌>>◌, and_then, is_stale}
use temporaless.Key.{WorkflowKey, workflow_key_from_proto}
use temporaless.Message.{WorkflowRecord, LatestWorkflowRunPointer, Time}
use temporaless.Env.{Env}
use temporaless.Validate.{
  validate_workflow_record, validate_latest_workflow_run_pointer,
  validate_latest_workflow_run_reference,
}
use temporaless.Validate.Listed.{DueTimer, validate_due_timer}
use temporaless.Store.{Store}
use temporaless.Cache.{Cache, State, in_scope, on_store, on_cache}
use temporaless.Cache.Checks.{validate_found_record}

-- `WorkflowKeyFromProto(record.GetKey())`, for a record that may be nil.
abbrev pub workflow_key_of : Option WorkflowRecord → WorkflowKey
workflow_key_of none = workflow_key_from_proto none
workflow_key_of (some r) = workflow_key_from_proto r.key

abbrev pub pointer_key_of : Option LatestWorkflowRunPointer → WorkflowKey
pointer_key_of none = workflow_key_from_proto none
pointer_key_of (some r) = workflow_key_from_proto r.key

-- `c.workflowKnown = true; c.workflow = record`
abbrev pub know_workflow : Option WorkflowRecord → Cache → Cache
know_workflow r c = record c { workflow_known = true; workflow = r }

-- `c.workflowKnown = true; if found { c.workflow = rec }`
abbrev pub note_workflow : Option WorkflowRecord → Cache → Cache
note_workflow none c = record c { workflow_known = true }
note_workflow (some r) c = know_workflow (some r) c

module _ ⦃e : Env⦄ where
  abbrev pub loaded_workflow :
      WorkflowKey → Option WorkflowRecord × Bool → Result (Option WorkflowRecord)
  loaded_workflow key (rec, found) =
      and_then (validate_found_record found (is_some rec))
        (λ _. if found then and_then (validate_workflow_record rec key) (λ _. ok rec) else ok none)

  -- What the pointer gives with the record that it points to.
  abbrev pub dereferenced_latest :
      Option LatestWorkflowRunPointer
      → Option WorkflowRecord
      → Result (Option LatestWorkflowRunPointer)
  dereferenced_latest pointer none = ok none
  dereferenced_latest pointer (some r) =
      elim (validate_latest_workflow_run_reference pointer (some r)) [
        | ok _ ↦ ok pointer
        | err x ↦ if is_stale x then ok none else err x
      ]

  module _ {W : Type 0} (inner : Store W) (scope : WorkflowKey) where
    unfoldable pub load_workflow : WorkflowKey → Action W (Option WorkflowRecord)
    load_workflow key = do answer ← inner.get_workflow key; lift (loaded_workflow key answer)

    unfoldable pub get_workflow : WorkflowKey → Action (State inner scope) (Option WorkflowRecord)
    get_workflow key (w, c) =
        if in_scope inner scope key
        then (if c.workflow_known
            then (ok c.workflow, (w, c))
            else (do
              rec ← on_store inner scope (load_workflow key)
              on_cache inner scope (note_workflow rec)
              done rec)
                (w, c))
        else on_store inner scope (load_workflow key) (w, c)

    unfoldable pub put_workflow : Option WorkflowRecord → Action (State inner scope) Unit
    put_workflow r = do
      on_store inner scope (inner.put_workflow r)
      if in_scope inner scope (workflow_key_of r)
          then on_cache inner scope (know_workflow r)
          else done tt

    unfoldable pub delete_workflow : WorkflowKey → Action (State inner scope) Bool
    delete_workflow key = do
      deleted ← on_store inner scope (inner.delete_workflow key)
      if in_scope inner scope key then on_cache inner scope (know_workflow none) else done tt
      done deleted

    unfoldable pub latest_found :
        Text → Text → Option LatestWorkflowRunPointer → Action W (Option LatestWorkflowRunPointer)
    latest_found namespace workflow_id pointer = do
      lift (validate_latest_workflow_run_pointer pointer namespace workflow_id)
      reference ← load_workflow (pointer_key_of pointer)
      lift (dereferenced_latest pointer reference)

    unfoldable pub get_latest_workflow_run :
        Text → Text → Action (State inner scope) (Option LatestWorkflowRunPointer)
    get_latest_workflow_run namespace workflow_id = on_store inner scope (do
      (pointer, found) ← inner.get_latest_workflow_run namespace workflow_id
      lift (validate_found_record found (is_some pointer))
      if found then latest_found namespace workflow_id pointer else done none)

    unfoldable pub checked_due : Text → Time → List DueTimer → Result (Unit {0})
    checked_due namespace now [] = ok tt
    checked_due namespace now (item ∷ rest) =
        let checked_rest = checked_due namespace now rest in
        and_then (validate_due_timer item namespace now) (λ _. checked_rest)

    unfoldable pub due_timers : Text → Time → Action (State inner scope) (List DueTimer)
    due_timers namespace now =
        on_store inner scope
          (do due ← inner.due_timers namespace now; lift (checked_due namespace now due); done due)
