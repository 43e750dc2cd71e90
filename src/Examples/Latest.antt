-- ===== src/Examples/Latest.antt =====
-- Runs of the latest-run pointer over a bucket in memory, and payloads that pass their checks.
use temporaless.Prelude.{◌≡◌, refl, true, some, [], codes, arith, text_eq}
use temporaless.Action.{ok}
use temporaless.Key.{
  timer, workflow_key_from_proto, workflow_key_with_defaults, valid_workflow_key, record_path,
  validate_key, valid_key, valid_id, id_chars, run_prefix, workflow_key_eq, key_eq,
  same_workflow_run, validate_workflow_key,
}
use temporaless.Message.{WorkflowRecord, WorkflowStatus}
use temporaless.Env.Memory.{memory, memory-Lawful}
use temporaless.Env.Ensures.{Ensures}
use temporaless.Validate.{
  validate_workflow_record, validate_timer_record, key_matches, workflow_key_matches,
}
use temporaless.Validate.Listed.{DueTimer, validate_due_timer, validate_listed}
use temporaless.OpenDal.Latest.{put_workflow, put_latest_workflow_run}
use temporaless.OpenDal.Latest.Publish.{Advanced, put_latest_workflow_run-forward}
use temporaless.OpenDal.Latest.Workflow.{Published, put_workflow-publishes}
use temporaless.OpenDal.Records.{Answered}
use temporaless.Examples.{completed_run, one_run, nap, sleep_timer, run_key}

put_workflow-publishes_example :
    Ensures one_run
      (put_workflow (some completed_run))
      (λ result o'. Published completed_run one_run (Answered result) o')
put_workflow-publishes_example = put_workflow-publishes memory-Lawful completed_run one_run

completed_run-valid :
    valid_workflow_key (workflow_key_with_defaults (workflow_key_from_proto completed_run.key))
    ≡ true
unfolding valid_workflow_key valid_id id_chars
completed_run-valid = refl

put_latest_workflow_run-forward_example :
    Ensures one_run (put_latest_workflow_run completed_run 2 3) (λ result o'.
      Advanced
        (workflow_key_with_defaults (workflow_key_from_proto completed_run.key)).namespace
        (workflow_key_from_proto completed_run.key).workflow_id
        3
        2
        one_run
        (result ≡ ok tt)
        o')
put_latest_workflow_run-forward_example =
    put_latest_workflow_run-forward memory-Lawful completed_run 2 3 one_run completed_run-valid refl
      (omega arith) (omega arith)

nap_listed :
    validate_listed timer (ok tt) (codes "temporaless/v2/default/wf/r1/timer/nap.binpb") run_key nap
    ≡ ok tt
unfolding validate_listed record_path validate_key valid_key valid_id id_chars run_prefix
    same_workflow_run workflow_key_eq text_eq
nap_listed = refl

abbrev running : WorkflowRecord
running = record completed_run { status = WorkflowStatus.in_progress }

abbrev due_nap : DueTimer
due_nap = record { key = nap; timer_record = some sleep_timer; workflow = some running }

nap_due : validate_due_timer due_nap [] 9 ≡ ok tt
unfolding validate_due_timer validate_timer_record validate_workflow_record key_matches
    workflow_key_matches validate_key validate_workflow_key valid_workflow_key valid_key valid_id
    id_chars workflow_key_eq key_eq text_eq
nap_due = refl
