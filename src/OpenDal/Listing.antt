-- ===== src/OpenDal/Listing.antt =====
-- `ListActivities`, `ListEvents` and `ListTimers`: the records of one run.
pub mod Agree
pub mod Timers
pub mod Points
pub mod Preferred
use temporaless.Prelude.{
  ℕ, ◌≡◌, Bool, true, false, ◌&&◌, ◌||◌, Option, none, some, List, [], ◌∷◌, Text, text_eq, text_lt,
  has_suffix, codes, if◌then◌else◌, sort_by,
}
use temporaless.Action.{
  Error, Result, ok, err, Action, done, fail, lift, attempt, ◌>>=◌, ◌>>◌, is_corrupt,
  corrupt_record, and_then, require,
}
use temporaless.Key.{
  WorkflowKey, RecordKey, Kind, TimerKey, activity, timer, event, slash, extension, key_from_proto,
  workflow_key_from_proto, with_defaults, workflow_key_with_defaults, record_dir_path, record_path,
  due_run_root, due_root, same_workflow_run,
}
use temporaless.Message.{
  Message, Body, ActivityRecord, EventRecord, TimerRecord, TimerStatus, DueTimerEntry,
  activity_record, event_record, timer_record, due_timer_entry,
}
use temporaless.Env.{Env}
use temporaless.Validate.{check, int_eq}
use temporaless.Validate.Listed.{
  validate_listed_activity, validate_listed_timer, validate_listed_event,
}
use temporaless.OpenDal.Due.{prepared_record, is_canceled, validate_due_entry}
use temporaless.OpenDal.Quarantine.{read_listed_proto}
use temporaless.OpenDal.Walk.{walk_open_dal}

-- The key in a run whose directory holds the records of a kind.
abbrev pub placeholder_key : (k : Kind) → WorkflowKey → RecordKey k
placeholder_key k key = record {
  namespace = key.namespace;
  workflow_id = key.workflow_id;
  run_id = key.run_id;
  id = codes "placeholder";
}

abbrev pub same_timer_status : TimerStatus → TimerStatus → Bool
same_timer_status TimerStatus.unspecified TimerStatus.unspecified = true
same_timer_status TimerStatus.scheduled TimerStatus.scheduled = true
same_timer_status TimerStatus.fired TimerStatus.fired = true
same_timer_status TimerStatus.canceled TimerStatus.canceled = true
same_timer_status (TimerStatus.unknown a) (TimerStatus.unknown b) = int_eq a b
same_timer_status _ _ = false

-- Every record passes the unspecified status.
abbrev pub has_status : TimerStatus → TimerRecord → Bool
has_status TimerStatus.unspecified r = true
has_status status r = same_timer_status r.status status

abbrev pub timer_id_of : TimerRecord → Text
timer_id_of r = (key_from_proto {k = timer} r.key).id

abbrev pub timer_id_less : TimerRecord → TimerRecord → Bool
timer_id_less a b = text_lt (timer_id_of a) (timer_id_of b)

-- The map from timer ids to records, and the set of the points that a ledger entry covers.
pub record Found : Type 0 where
  pub records_by_id : List (Text × TimerRecord)
  pub shadow_point_paths : List Text

unfoldable pub assign : Text → TimerRecord → List (Text × TimerRecord) → List (Text × TimerRecord)
unfolding text_eq
assign k v [] = (k, v) ∷ []
assign k v ((j, w) ∷ m) = if text_eq j k then (k, v) ∷ m else (j, w) ∷ assign k v m

unfoldable pub is_shadowed : Text → List Text → Bool
unfolding text_eq
is_shadowed p [] = false
is_shadowed p (q ∷ qs) = text_eq q p || is_shadowed p qs

unfoldable pub with_status : TimerStatus → List (Text × TimerRecord) → List TimerRecord
with_status status [] = []
with_status status ((k, r) ∷ m) =
    if has_status status r then r ∷ with_status status m else with_status status m

-- The timer key of an entry, with its defaults.
abbrev pub entry_key : DueTimerEntry → TimerKey
entry_key entry = with_defaults (key_from_proto entry.key)

abbrev pub entry_workflow_key : DueTimerEntry → WorkflowKey
entry_workflow_key entry = workflow_key_with_defaults (workflow_key_from_proto entry.workflow_key)

module _ ⦃e : Env⦄ where
  open e use {World, ctx_err}

  -- The loop of `ListActivities` and `ListEvents`.
  unfoldable pub read_listed :
      (m : Message) → (Text → Body m → Result (Unit {0})) → List Text → Action World (List (Body m))
  read_listed m validate [] = done []
  read_listed m validate (p ∷ ps) =
      if has_suffix extension p
      then (do
        r ← read_listed_proto m p
        lift (validate p r)
        rest ← read_listed m validate ps
        done (r ∷ rest))
      else read_listed m validate ps

  unfoldable pub list_activities : ℕ → WorkflowKey → Action World (List ActivityRecord)
  list_activities fuel key = do
    ctx_err
    dir ← lift (record_dir_path activity (placeholder_key activity key))
    paths ← walk_open_dal fuel dir
    read_listed activity_record (λ path r. validate_listed_activity path key (some r)) paths

  unfoldable pub list_events : ℕ → WorkflowKey → Action World (List EventRecord)
  list_events fuel key = do
    ctx_err
    dir ← lift (record_dir_path event (placeholder_key event key))
    paths ← walk_open_dal fuel dir
    read_listed event_record (λ path r. validate_listed_event path key (some r)) paths

  -- A ledger entry of the listed run covers its point, and is the timer unless it is canceled.
  abbrev pub note_entry : DueTimerEntry → Text → Found → Found
  note_entry entry point_path found = record {
    records_by_id =
        if is_canceled (prepared_record entry).status
        then found.records_by_id
        else assign (entry_key entry).id (prepared_record entry) found.records_by_id;
    shadow_point_paths = point_path ∷ found.shadow_point_paths;
  }

  unfoldable pub read_ledger : WorkflowKey → List Text → Found → Action World Found
  read_ledger key [] found = done found
  read_ledger key (p ∷ ps) found = do
    entry ← read_listed_proto due_timer_entry p
    lift (
        check (
          validate_due_entry (due_root (workflow_key_with_defaults key).namespace) p entry
            (entry_key entry) (entry_workflow_key entry)))
    lift (check (same_workflow_run key (entry_workflow_key entry)))
    point_path ← lift (record_path timer (entry_key entry))
    read_ledger key ps (note_entry entry point_path found)

  -- A point that a ledger entry covers is left out, also where it does not decode.
  abbrev pub note_point : Text → Result TimerRecord → Found → Result Found
  note_point p (err x) found =
      if is_shadowed p found.shadow_point_paths && is_corrupt x then ok found else err x
  note_point p (ok r) found = and_then (record_path timer (key_from_proto r.key)) (λ point_path.
      ok (
        if is_shadowed point_path found.shadow_point_paths
        then found
        else record found { records_by_id = assign (timer_id_of r) r found.records_by_id }))

  unfoldable pub read_listed_timer : WorkflowKey → Text → Action World TimerRecord
  read_listed_timer key p = do
    r ← read_listed_proto timer_record p
    lift (validate_listed_timer p key (some r))
    done r

  unfoldable pub read_points : WorkflowKey → List Text → Found → Action World Found
  read_points key [] found = done found
  read_points key (p ∷ ps) found =
      if has_suffix extension p
      then (do
        r ← attempt (read_listed_timer key p)
        found' ← lift (note_point p r found)
        read_points key ps found')
      else read_points key ps found

  unfoldable pub list_timers : ℕ → WorkflowKey → TimerStatus → Action World (List TimerRecord)
  list_timers fuel key status = do
    ctx_err
    due_dir ← lift (due_run_root key)
    due_paths ← walk_open_dal fuel due_dir
    shadows ← read_ledger key due_paths (record { records_by_id = []; shadow_point_paths = [] })
    dir ← lift (record_dir_path timer (placeholder_key timer key))
    paths ← walk_open_dal fuel dir
    found ← read_points key paths shadows
    done (sort_by timer_id_less (with_status status found.records_by_id))
