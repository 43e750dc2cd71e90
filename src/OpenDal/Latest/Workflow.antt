-- ===== src/OpenDal/Latest/Workflow.antt =====
-- `PutWorkflow`: the run first, then its latest-run pointer.
use temporaless.Prelude.{
  ◌≡◌, ◌≢◌, refl, ◌∙◌, subst, ◌⊎◌, inl, inr, ◌<◌, Bool, true, ◌&&◌, Option, none, some, Text, arith,
}
use temporaless.Action.{Error, Result, ok, err, and_then, lift, done, ◌>>=◌, ◌>>◌}
use temporaless.Key.{
  WorkflowKey, workflow_key_from_proto, workflow_key_with_defaults, workflow_path,
  workflow_dir_path, latest_workflow_run_pointer_path,
}
use temporaless.Key.Distinct.{workflow_at, latest_at}
use temporaless.Key.Located.{workflow_address, workflow_path_lem, paths_distinct}
use temporaless.Message.{WorkflowRecord, Time, LatestWorkflowRunPointer, workflow_record}
use temporaless.Env.{Env, Lawful, year_10000}
use temporaless.Env.Ensures.{
  Objects, Ensures, Then, ensures-reads, ensures-bind, ensures-result, ensures-weaken, Reads-lift,
  Reads-ctx_err,
}
use temporaless.Validate.{
  validate_workflow_record, valid_if_present, workflow_key_matches, workflow_schema,
  workflow_status_has_latest_pointer,
}
use temporaless.OpenDal.Point.{write_point}
use temporaless.OpenDal.View.{workflow_on}
use temporaless.OpenDal.Records.{Changed, Answered, ensures-write_point}
use temporaless.OpenDal.Ledger.{require-true}
use temporaless.OpenDal.Latest.{put_workflow, publish, run_order}
use temporaless.OpenDal.Latest.Reference.{latest_on}
use temporaless.OpenDal.Latest.Order.{ensures-pointer_times}
use temporaless.OpenDal.Latest.Publish.{
  InOrder, InOrder-refl, Advanced, put_latest_workflow_run-forward,
}

-- A run and a latest-run pointer have different objects.
run-ne-pointer :
    (key : WorkflowKey) (n w : Text) {p : Text}
    → workflow_path key ≡ ok p
    → latest_workflow_run_pointer_path n w ≢ ok p
run-ne-pointer key n w {p} run pointer = apart (
    paths_distinct p (workflow_address (workflow_key_with_defaults key)) (latest_at _ w)
      (key, refl, run) (n, refl, pointer))
  where
    apart : {n w r n' w' : Text} → workflow_at n w r ≡ latest_at n' w' → ⊥
    apart same = cc

module _ ⦃e : Env⦄ where
  open e use {Data, as_time, check_valid}

  abbrev pub key_of : WorkflowRecord → WorkflowKey
  key_of r = workflow_key_from_proto r.key

  -- The namespace of a record's pointer.
  abbrev pub namespace_of : WorkflowRecord → Text
  namespace_of r = (workflow_key_with_defaults (key_of r)).namespace

  -- The end of a `PutWorkflow`.
  pub record Published (r : WorkflowRecord) (o : Objects e) (complete : Type 0) (o' : Objects e)
      : Type 0 where
    pub finished : complete → workflow_on (key_of r) o' ≡ ok (some r)
    pub run_first : (o' ≡ o) ⊎ (workflow_on (key_of r) o' ≡ ok (some r))
    pub forward :
        (p : LatestWorkflowRunPointer)
        → latest_on (namespace_of r) (key_of r).workflow_id o ≡ ok (some p)
        → (q : LatestWorkflowRunPointer) × (latest_on (namespace_of r) (key_of r).workflow_id o'
            ≡ ok (some q))
          × InOrder p q
    pub others :
        (q : Text)
        → workflow_path (key_of r) ≢ ok q
        → latest_workflow_run_pointer_path (namespace_of r) (key_of r).workflow_id ≢ ok q
        → o' q ≡ o q

  Published-same :
      {r : WorkflowRecord} {o : Objects e} {complete : Type 0}
      → (complete → ⊥)
      → Published r o complete o
  Published-same never = record {
    finished = λ c. absurd (never c);
    run_first = inl refl;
    forward = λ p there. (p, there, InOrder-refl p);
    others = λ q _ _. refl;
  }

  no_answer : {x : Error} → Answered {A = Unit {0}} (err x) → ⊥
  no_answer (a, wrong) = cc

  -- The stored pointer depends on its own object alone.
  latest_on-frame :
      (n w : Text) (o o' : Objects e)
      → ((q : Text) → latest_workflow_run_pointer_path n w ≡ ok q → o' q ≡ o q)
      → latest_on n w o' ≡ latest_on n w o
  latest_on-frame n w o o' same =
      and_then-same (latest_workflow_run_pointer_path n w) (λ q at. rw (same q at))
    where
      and_then-same :
          {B : Type 0} (m : Result Text) {f g : Text → Result B}
          → ((a : Text) → m ≡ ok a → f a ≡ g a)
          → and_then m f ≡ and_then m g
      and_then-same (ok a) h = h a refl
      and_then-same (err x) h = refl

  workflow_on-frame :
      (key : WorkflowKey) (o o' : Objects e) {p : Text}
      → workflow_path key ≡ ok p
      → o' p ≡ o p
      → workflow_on key o' ≡ workflow_on key o
  workflow_on-frame key o o' at same = rw (at, same)

  -- A run that is written and a pointer that has moved on from there.
  Published-Advanced :
      (r : WorkflowRecord) (o o1 o' : Objects e) {p : Text} {order t : Time}
      {moved written complete : Type 0}
      → workflow_path (key_of r) ≡ ok p
      → written
      → Changed (workflow_path (key_of r)) (workflow_on (key_of r)) (some r) o written o1
      → Advanced (namespace_of r) (key_of r).workflow_id order t o1 moved o'
      → Published r o complete o'
  Published-Advanced r o o1 o' {p} at done changed advanced =
      let there : workflow_on (key_of r) o' ≡ ok (some r) =
        workflow_on-frame (key_of r) o1 o' at
          (advanced.others p (run-ne-pointer (key_of r) (namespace_of r) (key_of r).workflow_id at))
        ∙ changed.finished done in
      record {
        finished = λ _. there;
        run_first = inr there;
        forward = λ q before. advanced.forward q (
            latest_on-frame (namespace_of r) (key_of r).workflow_id o o1
              (λ x pointer. changed.others x λ run. run-ne-pointer (key_of r) _ _ run pointer)
            ∙ before);
        others = λ q run pointer. advanced.others q pointer ∙ changed.others q run;
      }

  -- A run that is written or not, and a pointer that is as it was.
  Published-Changed :
      (r : WorkflowRecord) (o o1 : Objects e) {complete : Type 0}
      → Changed (workflow_path (key_of r)) (workflow_on (key_of r)) (some r) o complete o1
      → Published r o complete o1
  Published-Changed r o o1 changed = record {
    finished = changed.finished;
    run_first = changed.atomic;
    forward = λ p before. (
      p,
      latest_on-frame (namespace_of r) (key_of r).workflow_id o o1
            (λ x pointer. changed.others x λ run. run-ne-pointer (key_of r) _ _ run pointer)
          ∙ before,
      InOrder-refl p,
    );
    others = λ q run _. changed.others q run;
  }

  run_order_time-valid :
      (r : WorkflowRecord) {u : Unit}
      → validate_workflow_record (some r) (key_of r) ≡ ok u
      → valid_if_present r.run_order_time ≡ true
  unfolding validate_workflow_record
  run_order_time-valid r h =
      both (workflow_schema r.schema_version) (workflow_key_matches r.key (key_of r)) _
        (require-true _ _ h)
    where
      both : (a b c : Bool) → (a && b && c) ≡ true → c ≡ true
      both a b c h = ground arith

  module _ (laws : Lawful e) (r : WorkflowRecord) (o : Objects e) where
    run_order-early :
        (t : Time)
        → valid_if_present r.run_order_time ≡ true
        → t < year_10000
        → run_order r t < year_10000
    run_order-early t valid early = by_order r.run_order_time valid
      where
        by_order :
            (x : Option _)
            → valid_if_present x ≡ true
            → (elim x [ none ↦ t | some s ↦ as_time s ]) < year_10000
        by_order none h = early
        by_order (some s) h = laws.as_time-lt-year_10000 s h

    abbrev Publishes : Result (Unit {0}) → Objects e → Type 0
    Publishes result o' = Published r o (Answered result) o'

    module _ {p : Text} {u : Unit} (at : workflow_path (key_of r) ≡ ok p)
        (valid : validate_workflow_record (some r) (key_of r) ≡ ok u) where
      after_write :
          (times : Option Time)
          → ((t : Time)
              → times ≡ some t
              → (workflow_status_has_latest_pointer r.status ≡ true) × (t < year_10000))
          → (result : Result (Unit {0})) (o1 : Objects e)
          → Changed
              (workflow_path (key_of r))
              (workflow_on (key_of r))
              (some r)
              o
              (Answered result)
              o1
          → Then (λ _. publish r times) Publishes result o1
      unfolding publish
      after_write times bounds (err x) o1 changed = Published-Changed r o o1 changed
      after_write none bounds (ok tt) o1 changed =
          ensures-result (ok tt) (Published-Changed r o o1 changed)
      after_write (some t) bounds (ok tt) o1 changed =
          let (has, early) = bounds t refl in
          let (v, _) = workflow_path_lem (key_of r) at in
          ensures-weaken
            (put_latest_workflow_run-forward laws r t (run_order r t) o1 v has
              (run_order-early t (run_order_time-valid r valid) early) early)
            (λ result o' advanced. Published-Advanced r o o1 o' at (tt, refl) changed advanced)

      write_and_publish :
          (times : Option Time) (dir : Text)
          → ((t : Time)
              → times ≡ some t
              → (workflow_status_has_latest_pointer r.status ≡ true) × (t < year_10000))
          → Ensures o (write_point workflow_record p dir r >>= (λ _. publish r times)) Publishes
      write_and_publish times dir bounds = ensures-bind (
          ensures-weaken
            (ensures-write_point workflow_record (λ x. validate_workflow_record (some x) (key_of r))
              (workflow_path (key_of r)) laws dir r at valid)
            (after_write times bounds))

    from_paths :
        {u : Unit}
        → validate_workflow_record (some r) (key_of r) ≡ ok u
        → (times : Option Time)
        → ((t : Time)
            → times ≡ some t
            → (workflow_status_has_latest_pointer r.status ≡ true) × (t < year_10000))
        → Ensures o
            (do
              path ← lift (workflow_path (key_of r))
              dir ← lift (workflow_dir_path (key_of r))
              write_point workflow_record path dir r
              publish r times)
            Publishes
    from_paths valid times bounds =
        let failed = λ (x : Error). Published-same (no_answer {x = x}) in
        ensures-reads (Reads-lift (workflow_path (key_of r))) failed λ p at.
          ensures-reads (Reads-lift (workflow_dir_path (key_of r))) failed
            λ dir _. write_and_publish at valid times dir bounds

    -- `PutWorkflow` from any objects, with every outcome of its calls. If it succeeds the run is the
    -- given record. If it fails, at whichever of its calls, no object has changed or the run is the
    -- given record: the pointer is never ahead of the run. A latest-run pointer that was there is
    -- followed by one that is not earlier than it, by the order time of the run and then by the
    -- record time. All objects but the run and the pointer stay as they were.
    pub put_workflow-publishes :
        Ensures o (put_workflow (some r)) (λ result o'. Published r o (Answered result) o')
    unfolding put_workflow
    put_workflow-publishes =
        let failed = λ (x : Error). Published-same (no_answer {x = x}) in
        ensures-reads (Reads-ctx_err laws) failed λ _ _.
          ensures-reads (Reads-lift (validate_workflow_record (some r) (key_of r))) failed
            λ _ valid.
              ensures-pointer_times laws _ r failed (λ _. from_paths valid none (λ t wrong. cc))
                (λ t has early.
                  from_paths valid (some t)
                    (λ t' same. (has, subst (λ x. x < year_10000) (some-same same) early)))
      where
        some-same : {a b : Time} → ◌≡◌ {A = Option Time} (some a) (some b) → a ≡ b
        some-same same = cc
