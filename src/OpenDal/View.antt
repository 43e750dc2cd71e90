-- ===== src/OpenDal/View.antt =====
-- What the reads of the store give, as functions of the objects alone.
pub mod Found
use temporaless.Prelude.{◌≡◌, refl, Option, none, some, Text, if◌then◌else◌, is_some}
use temporaless.Action.{Action, lift, Result, ok, and_then, done, ◌>>=◌, ◌>>◌}
use temporaless.Key.{
  WorkflowKey, TimerKey, ActivityKey, EventKey, activity, timer, event, workflow_path, record_path,
  due_entry_path,
}
use temporaless.Message.{
  Message, Body, workflow_record, activity_record, timer_record, event_record, WorkflowRecord,
  ActivityRecord, TimerRecord, EventRecord, DueTimerEntry,
}
use temporaless.Env.{Env, Lawful}
use temporaless.Env.Ensures.{
  Objects, Reads, stored, Reads-bind, Reads-lift, Reads-done, Reads-if, Reads-same, Reads-ctx_err,
  Reads-is_exist, Reads-read,
}
use temporaless.Validate.{
  validate_workflow_record, validate_activity_record, validate_timer_record, validate_event_record,
}
use temporaless.OpenDal.Point.{
  decode, read_point, get_activity, get_workflow, get_event, get_timer_point,
}
use temporaless.OpenDal.Due.{prepared_record, decode_due_entry, get_due_entry}
use temporaless.OpenDal.Timers.{shown, get_timer}

module _ ⦃e : Env⦄ where
  open e use {Data, ctx_err}

  -- An object that is absent is no error.
  abbrev pub optional {ℓ} : {A : Type ℓ} → (Data → Result A) → Option Data → Result (Option A)
  optional f none = ok none
  optional f (some d) = and_then (f d) (λ a. ok (some a))

  abbrev pub point_on :
      (m : Message) → (Body m → Result (Unit {0})) → Text → Objects e → Result (Option (Body m))
  point_on m validate path o = optional (decode m validate) (o path)

  abbrev pub activity_on : ActivityKey → Objects e → Result (Option ActivityRecord)
  activity_on key o =
      and_then (record_path activity key)
        (λ path. point_on activity_record (λ r. validate_activity_record (some r) key) path o)

  abbrev pub event_on : EventKey → Objects e → Result (Option EventRecord)
  event_on key o =
      and_then (record_path event key)
        (λ path. point_on event_record (λ r. validate_event_record (some r) key) path o)

  abbrev pub workflow_on : WorkflowKey → Objects e → Result (Option WorkflowRecord)
  workflow_on key o =
      and_then (workflow_path key)
        (λ path. point_on workflow_record (λ r. validate_workflow_record (some r) key) path o)

  abbrev pub timer_point_on : TimerKey → Objects e → Result (Option TimerRecord)
  timer_point_on key o =
      and_then (record_path timer key)
        (λ path. point_on timer_record (λ r. validate_timer_record (some r) key) path o)

  abbrev pub due_on : TimerKey → Objects e → Result (Option DueTimerEntry)
  due_on key o =
      and_then (due_entry_path key) (λ path. optional (decode_due_entry key path) (o path))

  abbrev pub entry_or_point :
      TimerKey → Objects e → Option DueTimerEntry → Result (Option TimerRecord)
  entry_or_point key o none = timer_point_on key o
  entry_or_point key o (some x) = ok (shown (prepared_record x))

  -- The timer of a key: its ledger entry, or else its canonical point.
  abbrev pub timer_on : TimerKey → Objects e → Result (Option TimerRecord)
  timer_on key o = and_then (due_on key o) (entry_or_point key o)

  if_exists :
      {A : Type 0} (f : Data → Result A) (x : Option Data)
      → (if is_some x
          then and_then (stored x) (λ d. and_then (f d) (λ a. ok (some a)))
          else ok none)
        ≡ optional f x
  if_exists f none = refl
  if_exists f (some d) = refl

  module _ (laws : Lawful e) where
    pub Reads-read_point :
        (m : Message) (path : Text) (validate : Body m → Result Unit)
        → Reads (read_point m path validate) (point_on m validate path)
    unfolding read_point
    Reads-read_point m path validate =
        Reads-same
          (Reads-bind (Reads-is_exist laws path) (λ exists.
            Reads-if exists
              (Reads-bind (Reads-ctx_err laws) (λ _.
                Reads-bind (Reads-read laws path)
                  (λ d. Reads-bind (Reads-lift (decode m validate d)) (λ b. Reads-done (some b)))))
              (Reads-done none)))
          (λ o. if_exists (decode m validate) (o path))

    -- The start of every method: the context, then the path of the key.
    pub Reads-key :
        {A : Type 0} (path : Result Text) {k : Text → Action e.World A}
        {g : Text → Objects e → Result A}
        → ((p : Text) → Reads (k p) (g p))
        → Reads (do ctx_err; p ← lift path; k p) (λ o. and_then path (λ p. g p o))
    Reads-key path next = Reads-bind (Reads-ctx_err laws) (λ _. Reads-bind (Reads-lift path) next)

    -- `GetActivity` changes no object and gives what `activity_on` reads off them, or a fault.
    pub get_activity_lem : (key : ActivityKey) → Reads (get_activity key) (activity_on key)
    unfolding get_activity
    get_activity_lem key =
        Reads-key (record_path activity key) (λ path.
          Reads-read_point activity_record path (λ r. validate_activity_record (some r) key))

    pub get_event_lem : (key : EventKey) → Reads (get_event key) (event_on key)
    unfolding get_event
    get_event_lem key =
        Reads-key (record_path event key)
          (λ path. Reads-read_point event_record path (λ r. validate_event_record (some r) key))

    pub get_workflow_lem : (key : WorkflowKey) → Reads (get_workflow key) (workflow_on key)
    unfolding get_workflow
    get_workflow_lem key =
        Reads-key (workflow_path key) (λ path.
          Reads-read_point workflow_record path (λ r. validate_workflow_record (some r) key))

    pub get_timer_point_lem : (key : TimerKey) → Reads (get_timer_point key) (timer_point_on key)
    unfolding get_timer_point
    get_timer_point_lem key =
        Reads-key (record_path timer key)
          (λ path. Reads-read_point timer_record path (λ r. validate_timer_record (some r) key))

    pub get_due_entry_lem : (key : TimerKey) → Reads (get_due_entry key) (due_on key)
    unfolding get_due_entry
    get_due_entry_lem key = Reads-key (due_entry_path key) (λ path.
        Reads-same
          (Reads-bind (Reads-is_exist laws path) (λ exists.
            Reads-if exists
              (Reads-bind (Reads-ctx_err laws) (λ _. Reads-bind (Reads-read laws path) (λ d.
                Reads-bind (Reads-lift (decode_due_entry key path d)) (λ x. Reads-done (some x)))))
              (Reads-done none)))
          (λ o. if_exists (decode_due_entry key path) (o path)))

    Reads-entry_or_point :
        (key : TimerKey) (entry : Option DueTimerEntry)
        → Reads
            (elim entry [ some x ↦ done (shown (prepared_record x)) | none ↦ get_timer_point key ])
            (λ o. entry_or_point key o entry)
    Reads-entry_or_point key none = get_timer_point_lem key
    Reads-entry_or_point key (some x) = Reads-done (shown (prepared_record x))

    -- `GetTimer` changes no object. Without a fault it gives the record of the ledger entry, nothing
    -- if that is canceled, the canonical point if there is no entry, and an error where one of the
    -- two does not validate.
    pub get_timer_lem : (key : TimerKey) → Reads (get_timer key) (timer_on key)
    unfolding get_timer
    get_timer_lem key = Reads-bind (get_due_entry_lem key) (Reads-entry_or_point key)
