-- ===== src/Examples/Replay.antt =====
-- Runs of the record cache over the shelf.
use temporaless.Prelude.{◌≡◌, false, true, refl, Option, none, some, List, [], ◌∷◌, insert, text_eq}
use temporaless.Action.{ok, err, plain}
use temporaless.Key.{
  run_of, same_workflow_run, workflow_key_eq, validate_key, valid_key, valid_id, id_chars, key_eq,
}
use temporaless.Validate.{validate_activity_record, key_matches}
use temporaless.Store.{activities, RecordOf}
use temporaless.Cache.{
  State, in_scope, get, put, delete, refresh, prefetch, new_run_scoped_cache, keep, keep_all,
}
use temporaless.Cache.Checks.{load, checked_list, validate_list_entry, same_cached_workflow_run}
use temporaless.Cache.Coherent.{Stale}
use temporaless.Cache.Trace.{
  Call, Sound, reads, refreshes, others_delete, puts, step, perform, start,
}
use temporaless.Cache.Replay.{step-Sound, start-Sound}
use temporaless.Cache.Prefetched.{get-prefetch, failed-unchanged}
use temporaless.Examples.Shelf.{shelf, shelf_run, shelf_key, shelf_record, shelf-StoreLaws}

-- The run reads the activity, another worker deletes it, the run refreshes it.
abbrev deleted_then_refreshed : List Call
deleted_then_refreshed =
    reads activities shelf_key
    ∷ others_delete activities shelf_key
    ∷ refreshes activities shelf_key
    ∷ []

abbrev after_refresh : State shelf shelf_run × Stale
after_refresh = perform shelf shelf_run deleted_then_refreshed (start shelf shelf_run true)

in_run : in_scope shelf shelf_run (run_of shelf_key) ≡ true
unfolding text_eq
in_run = refl

step-Sound_example :
    Sound shelf shelf_run shelf-StoreLaws
      (step shelf shelf_run (puts activities (some shelf_record)) (start shelf shelf_run false))
step-Sound_example =
    step-Sound shelf shelf_run shelf-StoreLaws (puts activities (some shelf_record))
      (start shelf shelf_run false) (start-Sound shelf shelf_run shelf-StoreLaws false)

prefetched : (prefetch shelf shelf_run (true, new_run_scoped_cache)).0 ≡ ok tt
unfolding prefetch checked_list validate_list_entry same_cached_workflow_run same_workflow_run
    workflow_key_eq text_eq keep_all keep insert validate_activity_record key_matches validate_key
    valid_key valid_id id_chars key_eq
prefetched = refl

get-prefetch_example :
    (v : Option (RecordOf activities)) × (get shelf shelf_run activities shelf_key
        (prefetch shelf shelf_run (true, new_run_scoped_cache)).1
      ≡ (ok v, (prefetch shelf shelf_run (true, new_run_scoped_cache)).1))
get-prefetch_example =
    get-prefetch shelf shelf_run activities shelf_key (true, new_run_scoped_cache) prefetched in_run

failed-unchanged_example :
    let c = new_run_scoped_cache in
    let key = shelf_key in
    let put_none = put shelf shelf_run activities none (false, c) in
    let deleted = delete shelf shelf_run activities key (false, c) in
    let refreshed = refresh shelf shelf_run activities key (false, c) in
    let fetched = prefetch shelf shelf_run (false, c) in
    (put_none.0 ≡ err plain
      → (put_none.1.1 ≡ c) × ((shelf.put activities none false).0 ≡ err plain))
    × (deleted.0 ≡ err plain
        → (deleted.1.1 ≡ c) × ((shelf.delete activities key false).0 ≡ err plain))
    × (refreshed.0 ≡ err plain
        → (refreshed.1.1 ≡ c) × ((load shelf activities key false).0 ≡ err plain))
    × (fetched.0 ≡ err plain → fetched.1.1 ≡ c)
failed-unchanged_example =
    failed-unchanged shelf shelf_run activities shelf_key none false new_run_scoped_cache plain
