-- ===== src/OpenDal/Scan.antt =====
-- `DueTimers` with `dueRoots`: the scan of the due ledgers, which completes interrupted deletes,
-- repairs canonical points, copies aside the entries that it cannot use, and gives the timers to wake.
pub mod Roots
pub mod Kept
pub mod Accepted
pub mod Wakes
pub mod Order
use temporaless.Prelude.{
  ℕ, Bool, true, false, not, ◌&&◌, ◌||◌, Option, none, some, List, [], ◌∷◌, ◌++◌, Text, text_eq,
  text_lt, ltb, leb, ◌==◌, has_suffix, codes, if◌then◌else◌, sort_by,
}
use temporaless.Action.{
  Error, Result, ok, err, Action, done, fail, lift, attempt, ◌>>=◌, ◌>>◌, is_corrupt,
  corrupt_record, not_found, plain, joined, require,
}
use temporaless.Key.{
  WorkflowKey, TimerKey, timer, slash, storage_root_prefix, validate_workflow_key, record_path,
  due_root, due_invalid_root,
}
use temporaless.Message.{
  TimerRecord, WorkflowRecord, DueTimerEntry, Timestamp, Time, due_timer_entry,
}
use temporaless.Env.{Env}
use temporaless.Validate.{is_in_progress, unix_epoch}
use temporaless.Validate.Listed.{DueTimer}
use temporaless.OpenDal.Point.{get_timer_point, get_workflow, delete_if_exists}
use temporaless.OpenDal.Due.{prepared_record, is_canceled, is_scheduled, validate_due_entry}
use temporaless.OpenDal.Timers.{put_timer}
use temporaless.OpenDal.Quarantine.{quarantine_due_entry, read_listed_proto}
use temporaless.OpenDal.Walk.{walk_open_dal}
use temporaless.OpenDal.Listing.{entry_key, entry_workflow_key}

-- `dueLedgerRoot`
pub record LedgerRoot : Type 0 where
  pub path : Text
  pub quarantine_path : Text

abbrev pub root_less : LedgerRoot → LedgerRoot → Bool
root_less a b = text_lt a.path b.path

abbrev pub root_of : Text → LedgerRoot
root_of namespace = record {
  path = due_root namespace;
  quarantine_path = due_invalid_root namespace;
}

-- `strings.TrimSuffix(path, "/")`
unfoldable pub trim_slash : Text → Text
trim_slash [] = []
trim_slash (c ∷ []) = if c == slash then [] else c ∷ []
trim_slash (c ∷ d ∷ ds) = c ∷ trim_slash (d ∷ ds)

abbrev pub all_namespaces : Text
all_namespaces = storage_root_prefix ++ (slash ∷ [])

abbrev pub listed_root : Text → LedgerRoot
listed_root path = record {
  path = trim_slash path ++ codes "/_due/";
  quarantine_path = trim_slash path ++ codes "/_due_invalid/";
}

abbrev pub placeholder_run : Text → WorkflowKey
placeholder_run namespace = record {
  namespace = namespace;
  workflow_id = codes "placeholder";
  run_id = codes "placeholder";
}

-- The order of the wakes: by time, then by key.
unfoldable pub key_less : TimerKey → TimerKey → Bool
unfolding text_eq
key_less a b =
    if not (text_eq a.namespace b.namespace)
    then text_lt a.namespace b.namespace
    else if not (text_eq a.workflow_id b.workflow_id)
    then text_lt a.workflow_id b.workflow_id
    else if not (text_eq a.run_id b.run_id)
    then text_lt a.run_id b.run_id
    else text_lt a.id b.id

module _ ⦃e : Env⦄ where
  open e use {World, ctx_err, list, equal_timer, as_time}

  -- `fire_at.AsTime()`, where an absent timestamp is the epoch.
  abbrev pub fire_time : Option Timestamp → Time
  fire_time none = unix_epoch
  fire_time (some t) = as_time t

  abbrev pub wake_time : DueTimer → Time
  wake_time due = elim due.timer_record [ none ↦ unix_epoch | some r ↦ fire_time r.fire_at ]

  unfoldable pub due_less : DueTimer → DueTimer → Bool
  due_less a b =
      if not (wake_time a == wake_time b)
      then ltb (wake_time a) (wake_time b)
      else key_less a.key b.key

  unfoldable pub roots_in : List Text → Action World (List LedgerRoot)
  unfolding text_eq has_suffix
  roots_in [] = done []
  roots_in (p ∷ ps) = do
    ctx_err
    rest ← roots_in ps
    done (
        if text_eq p all_namespaces || not (has_suffix (slash ∷ []) p)
        then rest
        else listed_root p ∷ rest)

  unfoldable pub listed_roots : Result (List Text × Option Error) → Action World (List LedgerRoot)
  listed_roots (ok (entries, stopped)) = do
    roots ← roots_in entries
    elim stopped [ none ↦ done (sort_by root_less roots) | some x ↦ fail x ]
  listed_roots (err not_found) = done []
  listed_roots (err x) = fail x

  -- The ledger of the namespace, or those of all namespaces if none is given.
  unfoldable pub due_roots : Text → Action World (List LedgerRoot)
  due_roots [] = do listed ← attempt (list all_namespaces); listed_roots listed
  due_roots (c ∷ cs) = do
    lift (validate_workflow_key (placeholder_run (c ∷ cs)))
    done (root_of (c ∷ cs) ∷ [])

  -- A tombstone stands for a delete that may have stopped before its point was gone.
  abbrev pub has_point : Result (Option TimerRecord) → Bool
  has_point (ok none) = false
  has_point _ = true

  unfoldable pub finish_delete :
      TimerKey → Result (Option TimerRecord) → Action World (List DueTimer)
  finish_delete key point =
      if has_point point
      then (do path ← lift (record_path timer key); delete_if_exists path; done [])
      else done []

  -- Whether the canonical point is the record that the ledger prepares.
  abbrev pub is_exact : TimerRecord → Result (Option TimerRecord) → Bool
  is_exact prepared (ok (some point)) = equal_timer point prepared
  is_exact prepared _ = false

  abbrev pub wakes_of : DueTimerEntry → Option WorkflowRecord → List DueTimer
  wakes_of entry none = []
  wakes_of entry (some w) =
      if is_in_progress w.status
      then record {
        key = entry_key entry;
        timer_record = some (prepared_record entry);
        workflow = some w;
      }
        ∷ []
      else []

  -- An error of the point that is not a corrupt record ends the scan.
  abbrev pub readable : Result (Option TimerRecord) → Result (Unit {0})
  readable (ok found) = ok tt
  readable (err x) = require (is_corrupt x) x

  unfoldable pub scan_entry : Time → DueTimerEntry → Action World (List DueTimer)
  scan_entry now entry = do
    point ← attempt (get_timer_point (entry_key entry))
    lift (readable point)
    if is_canceled (prepared_record entry).status
        then finish_delete (entry_key entry) point
        else if not (is_exact (prepared_record entry) point)
        then (do put_timer (some (prepared_record entry)); done [])
        else if not (is_scheduled (prepared_record entry).status)
            || ltb now (fire_time entry.fire_at)
        then done []
        else (do w ← get_workflow (entry_workflow_key entry); done (wakes_of entry w))

  -- The scan fails with the error, and with that of the copy if there is one.
  unfoldable pub set_aside : LedgerRoot → Text → Error → Action World (List DueTimer)
  set_aside root path x = do
    copied ← attempt (quarantine_due_entry root.quarantine_path path)
    fail (elim copied [ ok _ ↦ x | err y ↦ joined x y ])

  unfoldable pub scan_found :
      LedgerRoot → Time → Text → Result DueTimerEntry → Action World (List DueTimer)
  scan_found root now path (ok entry) =
      if validate_due_entry root.path path entry (entry_key entry) (entry_workflow_key entry)
      then scan_entry now entry
      else set_aside root path corrupt_record
  scan_found root now path (err not_found) = done []
  scan_found root now path (err x) = set_aside root path x

  unfoldable pub scan_paths : LedgerRoot → Time → List Text → Action World (List DueTimer)
  scan_paths root now [] = done []
  scan_paths root now (p ∷ ps) = do
    entry ← attempt (read_listed_proto due_timer_entry p)
    due ← scan_found root now p entry
    rest ← scan_paths root now ps
    done (due ++ rest)

  unfoldable pub scan_roots : ℕ → Time → List LedgerRoot → Action World (List DueTimer)
  scan_roots fuel now [] = done []
  scan_roots fuel now (root ∷ roots) = do
    paths ← walk_open_dal fuel root.path
    due ← scan_paths root now paths
    rest ← scan_roots fuel now roots
    done (due ++ rest)

  unfoldable pub due_timers : ℕ → Text → Time → Action World (List DueTimer)
  due_timers fuel namespace now = do
    ctx_err
    lift (require (not (now == 0)) plain)
    roots ← due_roots namespace
    due ← scan_roots fuel now roots
    done (sort_by due_less due)
