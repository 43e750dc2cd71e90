-- ===== src/Cache/Checks.antt =====
-- core/go/workflow/cache.go: the reads of the store behind the cache, and the checks of what it
-- gives.
use temporaless.Prelude.{
  Bool, true, false, not, ◌||◌, Option, none, some, List, [], ◌∷◌, Text, is_some, if◌then◌else◌,
}
use temporaless.Action.{Result, ok, err, Action, lift, ◌>>=◌, corrupt_record, and_then}
use temporaless.Key.{WorkflowKey, same_workflow_run}
use temporaless.Message.{TimerStatus}
use temporaless.Validate.{check}
use temporaless.OpenDal.Listing.{same_timer_status}
use temporaless.Store.{
  Part, activities, timers, events, RecordOf, KeyOf, key_of, validate_record, Store,
}

-- `found == present`, or a corrupt record.
unfoldable pub validate_found_record : Bool → Bool → Result (Unit {0})
validate_found_record true present = check present
validate_found_record false present = check (not present)

abbrev pub loaded : (p : Part) → KeyOf p → Option (RecordOf p) × Bool → Result (Option (RecordOf p))
loaded p key (rec, found) =
    and_then (validate_found_record found (is_some rec))
      (λ _. if found then and_then (validate_record p rec key) (λ _. ok rec) else ok none)

-- `loadActivity`, `loadTimer` and `loadEvent`
unfoldable pub load : {W : Type 0} → Store W → (p : Part) → KeyOf p → Action W (Option (RecordOf p))
load inner p key = do answer ← inner.get p key; lift (loaded p key answer)

unfoldable pub same_cached_workflow_run : WorkflowKey → Text → Text → Text → Bool
unfolding same_workflow_run
same_cached_workflow_run key namespace workflow_id run_id =
    same_workflow_run key
      (record { namespace = namespace; workflow_id = workflow_id; run_id = run_id })

abbrev pub is_unspecified : TimerStatus → Bool
is_unspecified TimerStatus.unspecified = true
is_unspecified _ = false

-- `status == TIMER_STATUS_UNSPECIFIED || record.GetStatus() == status`, for timers.
abbrev pub status_shown : (p : Part) → TimerStatus → RecordOf p → Bool
status_shown activities status r = true
status_shown timers status r = is_unspecified status || same_timer_status r.status status
status_shown events status r = true

unfoldable pub validate_list_entry :
    (p : Part) → WorkflowKey → TimerStatus → RecordOf p → Result (Unit {0})
unfolding same_cached_workflow_run
validate_list_entry p run status r =
    let key = key_of p (some r) in
    and_then (validate_record p (some r) key) (λ _.
      and_then (check (same_cached_workflow_run run key.namespace key.workflow_id key.run_id))
        (λ _. check (status_shown p status r)))

-- `validateActivityList`, `validateTimerList` and `validateEventList`: the listed records, none of
-- which is nil.
unfoldable pub checked_list :
    (p : Part) → WorkflowKey → TimerStatus → List (Option (RecordOf p)) → Result (List (RecordOf p))
checked_list p run status [] = ok []
checked_list p run status (none ∷ rs) =
    and_then (validate_record p none (key_of p none)) (λ _. err corrupt_record)
checked_list p run status (some r ∷ rs) =
    let rest = checked_list p run status rs in
    and_then (validate_list_entry p run status r) (λ _. and_then rest (λ rs'. ok (r ∷ rs')))
