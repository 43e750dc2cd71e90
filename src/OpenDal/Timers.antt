-- ===== src/OpenDal/Timers.antt =====
-- Timers: a ledger entry covers its canonical point. A delete leaves a canceled entry behind.
pub mod Frame
pub mod Put
pub mod Keys
pub mod Delete
use temporaless.Prelude.{Bool, true, false, not, ◌&&◌, ◌||◌, Option, none, some, if◌then◌else◌}
use temporaless.Action.{Result, ok, err, Action, done, fail, lift, attempt, ◌>>=◌, ◌>>◌, is_corrupt}
use temporaless.Key.{TimerKey, timer, key_from_proto, with_defaults, record_path, record_dir_path}
use temporaless.Message.{TimerRecord, TimerStatus, SchemaVersion, DueTimerEntry, timer_record}
use temporaless.Env.{Env}
use temporaless.Validate.{validate_timer_record}
use temporaless.OpenDal.Point.{get_timer_point, delete_if_exists}
use temporaless.OpenDal.Due.{
  empty_timer_record, prepared_record, is_canceled, get_due_entry, put_due_entry,
}

module _ ⦃e : Env⦄ where
  open e use {World, is_exist, write, create_dir, ctx_err, marshal}

  -- What a prepared entry shows: nothing, once it is canceled.
  abbrev pub shown : TimerRecord → Option TimerRecord
  shown r = if is_canceled r.status then none else some r

  unfoldable pub get_timer : TimerKey → Action World (Option TimerRecord)
  get_timer key = do
    entry ← get_due_entry key
    elim entry [ some x ↦ done (shown (prepared_record x)) | none ↦ get_timer_point key ]

  unfoldable pub put_timer : Option TimerRecord → Action World Unit
  put_timer none = do
    ctx_err
    lift (validate_timer_record none (with_defaults (key_from_proto none)))
  put_timer (some r) = do
    ctx_err
    let key = with_defaults (key_from_proto r.key)
    lift (validate_timer_record (some r) key)
    path ← lift (record_path timer key)
    dir ← lift (record_dir_path timer key)
    d ← lift (marshal timer_record r)
    create_dir dir
    ctx_err
    put_due_entry r
    write path d

  -- The tombstone of a timer whose point cannot be read: its identity is the key asked for.
  abbrev pub minimal_tombstone : TimerKey → TimerRecord
  minimal_tombstone key = record empty_timer_record {
    schema_version = SchemaVersion.timer;
    key = some (with_defaults key);
    status = TimerStatus.canceled;
  }

  -- The point's record is the one to cancel; a corrupt point gets a minimal tombstone.
  unfoldable pub point_to_cancel :
      TimerKey → Result (Option TimerRecord) → Action World (Option TimerRecord)
  point_to_cancel key (ok found) = done found
  point_to_cancel key (err x) = if is_corrupt x then done (some (minimal_tombstone key)) else fail x

  -- The record to cancel: the ledger's, or the point's.
  unfoldable pub record_to_cancel :
      TimerKey → Option DueTimerEntry → Action World (Option TimerRecord)
  record_to_cancel key (some x) = done (some (prepared_record x))
  record_to_cancel key none = do point ← attempt (get_timer_point key); point_to_cancel key point

  -- `tombstone.Status = CANCELED; tombstone.FiredAt = nil`
  abbrev pub tombstone : TimerRecord → TimerRecord
  tombstone r = record r { status = TimerStatus.canceled; fired_at = none }

  unfoldable pub put_tombstone : Option TimerRecord → Action World Unit
  put_tombstone none = done tt
  put_tombstone (some r) = do put_due_entry (tombstone r); done tt

  -- Whether there is no timer to delete: no point, and no live entry.
  abbrev pub nothing_to_delete : Bool → Option DueTimerEntry → Bool
  nothing_to_delete point_exists none = not point_exists
  nothing_to_delete point_exists (some x) =
      not point_exists && is_canceled (prepared_record x).status

  unfoldable pub delete_timer : TimerKey → Action World Bool
  delete_timer key = do
    ctx_err
    path ← lift (record_path timer key)
    point_exists ← is_exist path
    entry ← get_due_entry key
    if nothing_to_delete point_exists entry
        then done false
        else (do r ← record_to_cancel key entry; put_tombstone r; delete_if_exists path; done true)
