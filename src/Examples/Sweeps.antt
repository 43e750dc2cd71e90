-- ===== src/Examples/Sweeps.antt =====
-- A run of the janitor over the shelf.
use temporaless.Prelude.{◌≡◌, refl, Bool, true, none, some, List, [], ◌∷◌}
use temporaless.Action.{Error, ok, err}
use temporaless.Key.{WorkflowKey}
use temporaless.Message.{ℤ, TimerStatus}
use temporaless.Env.Memory.{memory}
use temporaless.Store.{Part, activities, timers, events}
use temporaless.Janitor.{Janitor, SweepRequest, RunDeletionPlan, plan_sweep, sweep, delete_runs}
use temporaless.Janitor.Quiet.{ReadLaws, sweep-planned}
use temporaless.Examples.Shelf.{shelf}
use temporaless.Examples.Slot.{nanos_calendar}

abbrev shelf_janitor : Janitor Bool
shelf_janitor = record {
  ctx_err = λ w. (ok tt, w);
  list_workflows = λ namespace token w. (ok (none ∷ [], []), w);
  store = shelf;
  claim_store = none;
  store_claims = none;
}

list_same :
    (p : Part) (run : WorkflowKey) (status : TimerStatus) (w : Bool)
    → (shelf.list p run status w).1 ≡ w
list_same activities run status w = refl
list_same timers run status w = refl
list_same events run status w = refl

abbrev shelf_reads : ReadLaws shelf_janitor
shelf_reads = record {
  Seen = Bool;
  seen = λ w. w;
  ctx_quiet = λ w. refl;
  query_quiet = λ namespace token w. refl;
  list_quiet = list_same;
  get_workflow_quiet = λ key w. refl;
  capability_quiet = λ c w wrong. cc;
  claims_quiet = λ c f wrong. cc;
}

abbrev old_runs : SweepRequest
old_runs = record {
  namespace = [];
  now = some (record { seconds = ℤ.pos 0; nanos = ℤ.pos 100 });
  max_age = some (record { seconds = ℤ.pos 10; nanos = ℤ.pos 0 });
}

sweep-planned_example :
    let planned = plan_sweep shelf_janitor 3 old_runs true in
    (planned.1 ≡ true)
    × ((x : Error)
        → planned.0 ≡ err x
        → ((sweep shelf_janitor 3 old_runs true).0 ≡ ok (0, some x))
          × ((sweep shelf_janitor 3 old_runs true).1 ≡ true))
    × ((plans : List RunDeletionPlan)
        → planned.0 ≡ ok plans
        → sweep shelf_janitor 3 old_runs true ≡ delete_runs shelf_janitor 0 plans planned.1)
sweep-planned_example = sweep-planned shelf_janitor shelf_reads 3 old_runs true
