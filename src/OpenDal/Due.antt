-- ===== src/OpenDal/Due.antt =====
-- The due ledger: one entry for each timer, which holds the whole prepared record. It is written
-- before the canonical point and read before it.
use temporaless.Prelude.{
  Bool, true, false, ◌&&◌, Option, none, some, [], ◌∷◌, Text, text_eq, ◌==◌, if◌then◌else◌, is_some,
}
use temporaless.Action.{Result, ok, err, Action, done, lift, ◌>>=◌, ◌>>◌, plain, require, and_then}
use temporaless.Key.{
  WorkflowKey, TimerKey, timer, slash, key_from_proto, workflow_key_from_proto, with_defaults,
  workflow_key_with_defaults, run_of, validate_key, validate_workflow_key, same_workflow_run,
  due_root, due_entry_path, key_eq,
}
use temporaless.Message.{
  Timestamp, TimerRecord, TimerStatus, TimerKind, SchemaVersion, DueTimerEntry, due_timer_entry,
}
use temporaless.Env.{Env}
use temporaless.Validate.{is_ok, check, validate_timer_record, valid_if_present}
use temporaless.OpenDal.Point.{or_corrupt}

abbrev pub empty_timer_record : TimerRecord
empty_timer_record = record {
  schema_version = SchemaVersion.unspecified;
  key = none;
  timer_kind = TimerKind.unspecified;
  duration = none;
  status = TimerStatus.unspecified;
  fire_at = none;
  created_at = none;
  fired_at = none;
  retry_activity_id = [];
}

-- `entry.GetRecord()`: an absent message reads as an empty one.
abbrev pub prepared_record : DueTimerEntry → TimerRecord
prepared_record entry = elim entry.prepared [ none ↦ empty_timer_record | some r ↦ r ]

abbrev pub is_canceled : TimerStatus → Bool
is_canceled TimerStatus.canceled = true
is_canceled _ = false

abbrev pub is_scheduled : TimerStatus → Bool
is_scheduled TimerStatus.scheduled = true
is_scheduled _ = false

-- The statuses of a ledger entry; a scheduled one has a time to fire.
abbrev pub due_status : TimerStatus → Option Timestamp → Bool
due_status TimerStatus.scheduled fire_at = is_some fire_at
due_status TimerStatus.fired fire_at = true
due_status TimerStatus.canceled fire_at = true
due_status _ fire_at = false

-- `path[:strings.LastIndex(path, "/")+1]`
unfoldable pub parent_dir : Text → Text
parent_dir [] = []
parent_dir (c ∷ cs) = elim (parent_dir cs) [
  | [] ↦ if c == slash then c ∷ [] else []
  | d ∷ ds ↦ c ∷ d ∷ ds
]

-- The entry that shadows a record at its key.
abbrev pub due_entry : TimerKey → TimerRecord → DueTimerEntry
due_entry key r = record {
  key = some (with_defaults key);
  workflow_key = some (workflow_key_with_defaults (run_of key));
  fire_at = r.fire_at;
  prepared = some r;
}

module _ ⦃e : Env⦄ where
  open e use {
    World, Data, is_exist, read, write, create_dir, ctx_err, marshal, unmarshal, check_valid,
    as_time,
  }

  -- Both absent, or both valid and at one instant.
  abbrev pub matching_fire_at : Option Timestamp → Option Timestamp → Bool
  matching_fire_at none none = true
  matching_fire_at (some a) (some b) = check_valid a && check_valid b && as_time a == as_time b
  matching_fire_at _ _ = false

  abbrev pub due_path_is : TimerKey → Text → Bool
  due_path_is key path = elim (due_entry_path key) [
    | ok expected ↦ text_eq expected path
    | err x ↦ false
  ]

  -- `validateDueEntry`, whose errors all become `ErrCorruptRecord` at its callers.
  unfoldable pub validate_due_entry : Text → Text → DueTimerEntry → TimerKey → WorkflowKey → Bool
  validate_due_entry root ledger_path entry timer_key workflow_key = elim entry.prepared [
    | none ↦ false
    | some r ↦
        is_ok (validate_key timer timer_key)
        && is_ok (validate_workflow_key workflow_key)
        && same_workflow_run workflow_key (run_of timer_key)
        && text_eq (due_root timer_key.namespace) root
        && is_ok (validate_timer_record (some r) timer_key)
        && due_status r.status r.fire_at
        && matching_fire_at r.fire_at entry.fire_at
        && due_path_is timer_key ledger_path
  ]

  -- The entry that a ledger object holds, for the key that was asked for.
  unfoldable pub decode_due_entry : TimerKey → Text → Data → Result DueTimerEntry
  decode_due_entry key path d = and_then (or_corrupt (unmarshal due_timer_entry d)) (λ entry.
      let timer_key = with_defaults (key_from_proto entry.key) in
      let workflow_key = workflow_key_with_defaults (workflow_key_from_proto entry.workflow_key) in
      and_then
        (check (
          validate_due_entry (due_root (with_defaults key).namespace) path entry timer_key
            workflow_key))
        (λ _. and_then (check (key_eq timer_key (with_defaults key))) (λ _. ok entry)))

  unfoldable pub get_due_entry : TimerKey → Action World (Option DueTimerEntry)
  get_due_entry key = do
    ctx_err
    path ← lift (due_entry_path key)
    exists ← is_exist path
    if exists
        then (do
          ctx_err
          d ← read path
          entry ← lift (decode_due_entry key path d)
          done (some entry))
        else done none

  unfoldable pub put_due_entry : TimerRecord → Action World Text
  put_due_entry r = do
    let key = with_defaults (key_from_proto r.key)
    lift (validate_timer_record (some r) key)
    lift (require (due_status r.status r.fire_at) plain)
    lift (require (valid_if_present r.fire_at) plain)
    path ← lift (due_entry_path key)
    d ← lift (marshal due_timer_entry (due_entry key r))
    create_dir (parent_dir path)
    ctx_err
    write path d
    done path
