-- ===== src/Validate/Sound.antt =====
-- What the checks of listed payloads let through.
use temporaless.Prelude.{◌≡◌, refl, ap, ◌∙◌, Bool, true, false, Text, text_eq, text_eq_sound, arith}
use temporaless.Action.{Result, ok, and_then-ok}
use temporaless.Key.{
  WorkflowKey, RecordKey, Kind, workflow_key_with_defaults, run_of, record_path, same_workflow_run,
  workflow_key_eq,
}
use temporaless.Validate.{check}
use temporaless.Validate.Listed.{validate_listed}

pub check-true : (b : Bool) {u : Unit} → check b ≡ ok u → b ≡ true
check-true true h = refl
check-true false h = cc

pub workflow_key_eq_sound : (a b : WorkflowKey) → workflow_key_eq a b ≡ true → a ≡ b
unfolding workflow_key_eq
workflow_key_eq_sound a b h = ground (
  arith,
  text_eq_sound a.namespace b.namespace,
  text_eq_sound a.workflow_id b.workflow_id,
  text_eq_sound a.run_id b.run_id,
)

-- A listed payload that passes lies at the path of its key, and its key is of the listed run.
pub validate_listed-located :
    (k : Kind) (validated : Result (Unit {0})) (path : Text) (target : WorkflowKey)
    (key : RecordKey k) {u : Unit}
    → validate_listed k validated path target key ≡ ok u
    → (record_path k key ≡ ok path)
      × (workflow_key_with_defaults target ≡ workflow_key_with_defaults (run_of key))
unfolding validate_listed same_workflow_run
validate_listed-located k validated path target key h =
    let (_, _, h1) = and_then-ok validated _ h in
    let (_, same, h2) = and_then-ok (check (same_workflow_run target (run_of key))) _ h1 in
    let (expected, at, h3) = and_then-ok (record_path k key) _ h2 in
    (
      at ∙ ap ok (text_eq_sound expected path (check-true (text_eq expected path) h3)),
      workflow_key_eq_sound _ _ (check-true _ same),
    )
