-- ===== src/Runtime/Errors.antt =====
-- core/go/workflow/workflow.go: which errors leave a run in progress, `workflowInfrastructureError`
-- and `isWorkflowContinuationError`.
use temporaless.Prelude.{Bool, true, false, not, ◌&&◌, ◌||◌, if◌then◌else◌}
use temporaless.Action.{
  Error, corrupt_record, context_done, joined, activity_conflict, timer_conflict, workflow_conflict,
  claim_busy, claim_release, dependency_pending, timer_pending, event_pending, infrastructure,
  activity_failed, is_corrupt,
}

-- `errors.Is` and `errors.As`: the error or one that it wraps passes the test.
abbrev pub wraps : (Error → Bool) → Error → Bool
wraps test (joined a b) = test (joined a b) || wraps test a || wraps test b
wraps test (infrastructure e) = test (infrastructure e) || wraps test e
wraps test (activity_failed e) = test (activity_failed e) || wraps test e
wraps test e = test e

abbrev pub is_infrastructure : Error → Bool
is_infrastructure (infrastructure e) = true
is_infrastructure _ = false

abbrev pub is_claim_release : Error → Bool
is_claim_release claim_release = true
is_claim_release _ = false

abbrev pub is_activity_failed : Error → Bool
is_activity_failed (activity_failed e) = true
is_activity_failed _ = false

abbrev pub is_timer_pending : Error → Bool
is_timer_pending (timer_pending id wake_at) = true
is_timer_pending _ = false

-- The errors that end a run: a conflict or a corrupt record.
abbrev pub is_conflict : Error → Bool
is_conflict workflow_conflict = true
is_conflict activity_conflict = true
is_conflict timer_conflict = true
is_conflict corrupt_record = true
is_conflict _ = false

-- The errors that leave a run for a later call.
abbrev pub is_pending : Error → Bool
is_pending context_done = true
is_pending (timer_pending id wake_at) = true
is_pending claim_busy = true
is_pending (event_pending id wake_at) = true
is_pending dependency_pending = true
is_pending (infrastructure e) = true
is_pending _ = false

unfoldable pub workflow_infrastructure_error : Error → Error
workflow_infrastructure_error cause =
    if is_corrupt cause || wraps is_infrastructure cause then cause else infrastructure cause

unfoldable pub is_workflow_continuation_error : Error → Bool
is_workflow_continuation_error e =
    if wraps is_claim_release e
    then true
    else not (wraps is_activity_failed e || wraps is_conflict e) && wraps is_pending e
