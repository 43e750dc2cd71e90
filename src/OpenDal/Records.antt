-- ===== src/OpenDal/Records.antt =====
-- Writing and deleting the point of an activity, an event or a workflow run: what the object of the
-- record and all other objects are afterwards, wherever the method stops.
use temporaless.Prelude.{◌≡◌, ◌≢◌, refl, ap, ◌∙◌, ◌⊎◌, inl, inr, Bool, Option, none, some, Text}
use temporaless.Action.{Error, Result, ok, err, and_then, lift, ◌>>=◌, ◌>>◌}
use temporaless.Key.{
  WorkflowKey, ActivityKey, EventKey, activity, event, key_from_proto, workflow_path, record_path,
  record_dir_path,
}
use temporaless.Message.{
  Message, Body, ActivityRecord, EventRecord, activity_record, event_record, workflow_record,
}
use temporaless.Env.{Env, Lawful, with_object}
use temporaless.Env.Ensures.{
  Objects, Ensures, ensures-reads, ensures-write, Reads-lift, Reads-ctx_err, Reads-create_dir,
}
use temporaless.Validate.{validate_activity_record, validate_event_record, validate_workflow_record}
use temporaless.OpenDal.Point.{
  decode, write_point, put_activity, put_event, delete_if_exists, delete_activity, delete_event,
  delete_workflow,
}
use temporaless.OpenDal.View.{point_on, activity_on, event_on, workflow_on}
use temporaless.OpenDal.Delete.{ensures-delete_if_exists}
use temporaless.OpenDal.Timers.Frame.{with_object-ne, with_object_self}

module _ ⦃e : Env⦄ where
  open e use {Data, marshal, ctx_err}

  -- The end of a change of the object at `path`, of which readers see `view`; `new` is what a
  -- complete change shows.
  pub record Changed {A : Type 0} (path : Result Text) (view : Objects e → Result (Option A))
      (new : Option A) (o : Objects e) (complete : Type 0) (o' : Objects e) : Type 0 where
    pub finished : complete → view o' ≡ ok new
    pub atomic : (o' ≡ o) ⊎ (view o' ≡ ok new)
    pub others : (q : Text) → path ≢ ok q → o' q ≡ o q

  -- A method that answers, whatever the answer.
  abbrev pub Answered : {A : Type 0} → Result A → Type 0
  Answered {A} result = (a : A) × (result ≡ ok a)

  no_answer : {A : Type 0} {x : Error} → Answered {A = A} (err x) → ⊥
  no_answer (a, wrong) = cc

  module _ (m : Message) (validate : Body m → Result (Unit {0})) (path : Result Text) where
    -- What readers see of the object.
    abbrev seen : Objects e → Result (Option (Body m))
    seen o = and_then path (λ p. point_on m validate p o)

    untouched :
        {o : Objects e} {new : Option (Body m)} {complete : Type 0}
        → (complete → ⊥)
        → Changed path seen new o complete o
    untouched never = record {
      finished = λ c. absurd (never c);
      atomic = inl refl;
      others = λ q _. refl;
    }

    replaced :
        {o : Objects e} {p : Text} {new : Option (Body m)} {complete : Type 0} (v : Option Data)
        → path ≡ ok p
        → seen (with_object o p v) ≡ ok new
        → Changed path seen new o complete (with_object o p v)
    replaced {o} {p} v at new = record {
      finished = λ _. new;
      atomic = inr new;
      others = λ q other. with_object-ne o p q v (λ same. other (at ∙ ap ok same));
    }

    seen_written :
        (laws : Lawful e) (o : Objects e) {p : Text} {d : Data} {u : Unit} (b : Body m)
        → path ≡ ok p
        → validate b ≡ ok u
        → marshal m b ≡ ok d
        → seen (with_object o p (some d)) ≡ ok (some b)
    unfolding decode
    seen_written laws o {p} {d} b at valid made =
        rw (at, and_then, with_object_self o p (some d), laws.unmarshal-marshal m b d made, valid)

    seen_deleted : (o : Objects e) {p : Text} → path ≡ ok p → o p ≡ none → seen o ≡ ok none
    seen_deleted o at gone = rw (at, and_then, gone)

    pub ensures-write_point :
        (laws : Lawful e) {o : Objects e} {p : Text} {u : Unit} (dir : Text) (b : Body m)
        → path ≡ ok p
        → validate b ≡ ok u
        → Ensures o
            (write_point m p dir b)
            (λ result o'. Changed path seen (some b) o (Answered result) o')
    unfolding write_point
    ensures-write_point laws {o} {p} dir b at valid =
        let failed : (x : Error) → Changed path seen (some b) o (Answered {A = Unit} (err x)) o =
          λ x. untouched no_answer in
        ensures-reads (Reads-lift (marshal m b)) failed λ d made.
          ensures-reads (Reads-create_dir laws dir) failed λ _ _.
            ensures-reads (Reads-ctx_err laws) failed λ _ _.
              let new = seen_written laws o b at valid made in
              ensures-write laws p d (replaced (some d) at new) (λ x. untouched no_answer)
                (λ x. replaced (some d) at new)

    -- The three delete methods share this text.
    ensures-delete :
        (laws : Lawful e) {o : Objects e}
        → Ensures o
            (do ctx_err; p ← lift path; delete_if_exists p)
            (λ result o'. Changed path seen none o (Answered result) o')
    ensures-delete laws {o} =
        let failed : (x : Error) → Changed path seen none o (Answered {A = Bool} (err x)) o =
          λ x. untouched no_answer in
        ensures-reads (Reads-ctx_err laws) failed λ _ _.
          ensures-reads (Reads-lift path) failed λ p at.
            let gone = seen_deleted (with_object o p none) at (with_object_self o p none) in
            ensures-delete_if_exists laws p failed (λ x. replaced none at gone)
              (λ absent. record {
                finished = λ _. seen_deleted o at absent;
                atomic = inl refl;
                others = λ q _. refl;
              })
              (λ b. replaced none at gone)

  module _ (laws : Lawful e) where
    -- `PutActivity` from any objects, with every outcome of its calls. If it succeeds the activity
    -- is the given record. If it fails, at whichever of its calls, no object has changed or the
    -- activity is the given record. All objects at other paths stay as they were.
    pub put_activity-atomic :
        (r : ActivityRecord) (o : Objects e)
        → Ensures o (put_activity (some r)) (λ result o'.
          Changed
            (record_path activity (key_from_proto r.key))
            (activity_on (key_from_proto r.key))
            (some r)
            o
            (Answered result)
            o')
    unfolding put_activity
    put_activity-atomic r o =
        let key = key_from_proto r.key in
        let validate : ActivityRecord → Result Unit = λ a. validate_activity_record (some a) key in
        let failed =
          λ (x : Error). untouched activity_record validate (record_path activity key) no_answer in
        ensures-reads (Reads-ctx_err laws) failed λ _ _.
          ensures-reads (Reads-lift (validate_activity_record (some r) key)) failed λ _ valid.
            ensures-reads (Reads-lift (record_path activity key)) failed λ p at.
              ensures-reads (Reads-lift (record_dir_path activity key)) failed λ dir _.
                ensures-write_point activity_record validate (record_path activity key) laws dir r
                  at valid

    -- `PutEvent` from any objects, with every outcome of its calls. If it succeeds the event is the
    -- given record. If it fails, at whichever of its calls, no object has changed or the event is
    -- the given record. All objects at other paths stay as they were.
    pub put_event-atomic :
        (r : EventRecord) (o : Objects e)
        → Ensures o (put_event (some r)) (λ result o'.
          Changed
            (record_path event (key_from_proto r.key))
            (event_on (key_from_proto r.key))
            (some r)
            o
            (Answered result)
            o')
    unfolding put_event
    put_event-atomic r o =
        let key = key_from_proto r.key in
        let validate : EventRecord → Result Unit = λ a. validate_event_record (some a) key in
        let failed =
          λ (x : Error). untouched event_record validate (record_path event key) no_answer in
        ensures-reads (Reads-ctx_err laws) failed λ _ _.
          ensures-reads (Reads-lift (validate_event_record (some r) key)) failed λ _ valid.
            ensures-reads (Reads-lift (record_path event key)) failed λ p at.
              ensures-reads (Reads-lift (record_dir_path event key)) failed λ dir _.
                ensures-write_point event_record validate (record_path event key) laws dir r at
                  valid

    -- `DeleteActivity` from any objects, with every outcome of its calls. If it answers, `true` or
    -- `false`, there is no activity. If it fails, at whichever of its calls, no object has changed
    -- or there is no activity. All objects at other paths stay as they were.
    pub delete_activity-atomic :
        (key : ActivityKey) (o : Objects e)
        → Ensures o (delete_activity key) (λ result o'.
          Changed (record_path activity key) (activity_on key) none o (Answered result) o')
    unfolding delete_activity
    delete_activity-atomic key o =
        ensures-delete activity_record (λ r. validate_activity_record (some r) key)
          (record_path activity key) laws

    -- `DeleteEvent` from any objects, with every outcome of its calls. If it answers, `true` or
    -- `false`, there is no event. If it fails, at whichever of its calls, no object has changed or
    -- there is no event. All objects at other paths stay as they were.
    pub delete_event-atomic :
        (key : EventKey) (o : Objects e)
        → Ensures o (delete_event key) (λ result o'.
          Changed (record_path event key) (event_on key) none o (Answered result) o')
    unfolding delete_event
    delete_event-atomic key o =
        ensures-delete event_record (λ r. validate_event_record (some r) key)
          (record_path event key) laws

    -- `DeleteWorkflow` from any objects, with every outcome of its calls. If it answers, `true` or
    -- `false`, there is no workflow run. If it fails, at whichever of its calls, no object has
    -- changed or there is no workflow run. All objects at other paths stay as they were.
    pub delete_workflow-atomic :
        (key : WorkflowKey) (o : Objects e)
        → Ensures o
            (delete_workflow key)
            (λ result o'. Changed (workflow_path key) (workflow_on key) none o (Answered result) o')
    unfolding delete_workflow
    delete_workflow-atomic key o =
        ensures-delete workflow_record (λ r. validate_workflow_record (some r) key)
          (workflow_path key) laws
