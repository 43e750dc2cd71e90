-- ===== src/OpenDal/Latest/Publish.antt =====
-- `putLatestWorkflowRun`: how the latest-run pointer of a workflow id moves.
use temporaless.Prelude.{
  ◌≡◌, ◌≢◌, refl, sym, ap, ◌∙◌, subst, inr, ◌<◌, ◌≤◌, Bool, true, false, if◌then◌else◌, Option,
  none, some, Text, arith, text_eq_refl,
}
use temporaless.Action.{Error, Result, ok, err, and_then, done}
use temporaless.Key.{
  WorkflowKey, or_default, workflow_key_from_proto, workflow_key_with_defaults, valid_workflow_key,
  validate_workflow_key, latest_workflow_run_pointer_path,
}
use temporaless.Key.Located.{or_default-or_default, latest_path_lem}
use temporaless.Message.{
  WorkflowRecord, WorkflowStatus, Time, LatestWorkflowRunPointer, latest_workflow_run_pointer,
}
use temporaless.Env.{Env, Lawful, with_object, year_10000}
use temporaless.Env.Ensures.{
  Objects, Ensures, ensures-reads, ensures-bind, ensures-result, ensures-write, Reads-lift,
  Reads-ctx_err, Reads-create_dir,
}
use temporaless.Validate.{
  validate_latest_workflow_run_pointer, workflow_status_has_latest_pointer, optional_time,
}
use temporaless.OpenDal.Due.{parent_dir}
use temporaless.OpenDal.Point.{decode}
use temporaless.OpenDal.Timers.Frame.{with_object-ne, with_object_self}
use temporaless.OpenDal.Latest.{
  pointer_to, replaces, write_latest_workflow_run, put_over, put_latest_workflow_run,
  should_replace_latest_workflow_run,
}
use temporaless.OpenDal.Latest.Reference.{latest_on, get_latest_workflow_run_pointer_lem}
use temporaless.OpenDal.Latest.Order.{
  PointerNotLater, NotLaterThanPointer, replaces-NotLater, keeps-NotLater, should_replace_lem,
  ensures-clock,
}

module _ ⦃e : Env⦄ where
  open e use {Data, marshal, as_time, new_timestamp}

  -- One pointer is not later than another.
  abbrev pub InOrder : LatestWorkflowRunPointer → LatestWorkflowRunPointer → Type 0
  InOrder p q = PointerNotLater p (optional_time q.run_order_time) (optional_time q.record_time)

  -- The end of an attempt to move the pointer of a workflow id to the given times.
  pub record Advanced (n w : Text) (order t : Time) (o : Objects e) (complete : Type 0)
      (o' : Objects e) : Type 0 where
    pub forward :
        (p : LatestWorkflowRunPointer)
        → latest_on n w o ≡ ok (some p)
        → (q : LatestWorkflowRunPointer) × (latest_on n w o' ≡ ok (some q)) × InOrder p q
    pub reached :
        complete
        → (q : LatestWorkflowRunPointer) × (latest_on n w o' ≡ ok (some q))
          × NotLaterThanPointer order t q
    pub others : (q : Text) → latest_workflow_run_pointer_path n w ≢ ok q → o' q ≡ o q

  pub InOrder-refl : (p : LatestWorkflowRunPointer) → InOrder p p
  InOrder-refl p = inr (refl, omega arith)

  Advanced-same :
      {n w : Text} {order t : Time} {o : Objects e} {complete : Type 0}
      → (complete
          → (q : LatestWorkflowRunPointer) × (latest_on n w o ≡ ok (some q))
            × NotLaterThanPointer order t q)
      → Advanced n w order t o complete o
  Advanced-same reached = record {
    forward = λ p there. (p, there, InOrder-refl p);
    reached = reached;
    others = λ q _. refl;
  }

  never : {x : Error} {P : Type 0} → ◌≡◌ {A = Result (Unit {0})} (err x) (ok tt) → P
  never wrong = cc

  module _ (laws : Lawful e) (key : WorkflowKey)
      (valid : valid_workflow_key (workflow_key_with_defaults key) ≡ true) (status : WorkflowStatus)
      (has : workflow_status_has_latest_pointer status ≡ true) (order t : Time)
      (order_early : order < year_10000) (early : t < year_10000) where
    abbrev at_key : WorkflowKey
    at_key = workflow_key_with_defaults key

    abbrev new_pointer : Time → LatestWorkflowRunPointer
    new_pointer updated = pointer_to at_key status t order updated

    -- What is written passes the checks of its reader.
    new_pointer-valid :
        (updated : Time) {path : Text}
        → latest_workflow_run_pointer_path at_key.namespace at_key.workflow_id ≡ ok path
        → updated < year_10000
        → validate_latest_workflow_run_pointer
            (some (new_pointer updated))
            at_key.namespace
            at_key.workflow_id
          ≡ ok tt
    unfolding validate_latest_workflow_run_pointer validate_workflow_key
    new_pointer-valid updated at now_early =
        let (v, _) = latest_path_lem at_key.namespace at_key.workflow_id at in
        let v' = rw (or_default-or_default key.namespace) at v in
        rw (
          or_default-or_default key.namespace,
          or_default-or_default key.namespace,
          or_default-or_default key.namespace,
          v',
          valid,
          has,
          text_eq_refl (or_default key.namespace),
          text_eq_refl key.workflow_id,
          laws.check_valid-new_timestamp t early,
          laws.check_valid-new_timestamp order order_early,
          laws.check_valid-new_timestamp updated now_early,
        )

    -- The pointer is there after a write.
    written_pointer :
        (o : Objects e) (updated : Time) {path : Text} {d : Data}
        → latest_workflow_run_pointer_path at_key.namespace at_key.workflow_id ≡ ok path
        → updated < year_10000
        → marshal latest_workflow_run_pointer (new_pointer updated) ≡ ok d
        → latest_on at_key.namespace at_key.workflow_id (with_object o path (some d))
          ≡ ok (some (new_pointer updated))
    unfolding decode
    written_pointer o updated {path} {d} at now_early made = rw (
      at,
      and_then,
      with_object_self o path (some d),
      laws.unmarshal-marshal latest_workflow_run_pointer (new_pointer updated) d made,
      new_pointer-valid updated at now_early,
    )

    at_times : (updated : Time) → NotLaterThanPointer order t (new_pointer updated)
    at_times updated = inr (
      sym (laws.as_time-new_timestamp order),
      subst (λ x. t ≤ x) (sym (laws.as_time-new_timestamp t)) (omega arith),
    )

    not_later_new :
        (p : LatestWorkflowRunPointer) (updated : Time)
        → PointerNotLater p order t
        → InOrder p (new_pointer updated)
    not_later_new p updated h =
        rw (laws.as_time-new_timestamp order, laws.as_time-new_timestamp t) h

    Advanced-written :
        (o : Objects e) (updated : Time) (d : Data) {path : Text} {complete : Type 0}
        → latest_workflow_run_pointer_path at_key.namespace at_key.workflow_id ≡ ok path
        → latest_on at_key.namespace at_key.workflow_id (with_object o path (some d))
          ≡ ok (some (new_pointer updated))
        → ((p : LatestWorkflowRunPointer)
            → latest_on at_key.namespace at_key.workflow_id o ≡ ok (some p)
            → PointerNotLater p order t)
        → Advanced at_key.namespace at_key.workflow_id order t o complete
            (with_object o path (some d))
    Advanced-written o updated d {path} at there behind = record {
      forward = λ p before. (new_pointer updated, there, not_later_new p updated (behind p before));
      reached = λ _. (new_pointer updated, there, at_times updated);
      others = λ q other. with_object-ne o path q (some d) (λ same. other (at ∙ ap ok same));
    }

    abbrev Advance : Objects e → Result (Unit {0}) → Objects e → Type 0
    Advance o result o' = Advanced at_key.namespace at_key.workflow_id order t o (result ≡ ok tt) o'

    ensures-write_latest :
        (o : Objects e)
        → ((p : LatestWorkflowRunPointer)
            → latest_on at_key.namespace at_key.workflow_id o ≡ ok (some p)
            → PointerNotLater p order t)
        → Ensures o (write_latest_workflow_run at_key status t order) (Advance o)
    unfolding write_latest_workflow_run
    ensures-write_latest o behind =
        let failed = λ (x : Error).
          Advanced-same {o = o} {complete = ◌≡◌ {A = Result (Unit {0})} (err x) (ok tt)} never in
        ensures-bind (
          ensures-clock laws λ updated now_early.
            ensures-reads (Reads-lift (marshal latest_workflow_run_pointer (new_pointer updated)))
              failed
              λ d made.
                ensures-reads
                  (Reads-lift
                    (latest_workflow_run_pointer_path at_key.namespace at_key.workflow_id))
                  failed
                  λ path at. ensures-reads (Reads-create_dir laws (parent_dir path)) failed λ _ _.
                    ensures-reads (Reads-ctx_err laws) failed λ _ _.
                      let there = written_pointer o updated at now_early made in
                      ensures-write laws path d (Advanced-written o updated d at there behind)
                        failed (λ x. Advanced-written o updated d at there behind))

    some-injective :
        {p q : LatestWorkflowRunPointer}
        → ◌≡◌ {A = Result (Option LatestWorkflowRunPointer)} (ok (some p)) (ok (some q))
        → p ≡ q
    some-injective same = cc

    absurd_none :
        {p : LatestWorkflowRunPointer} {P : Type 0}
        → ◌≡◌ {A = Result (Option LatestWorkflowRunPointer)} (ok none) (ok (some p))
        → P
    absurd_none wrong = cc

    ensures-put_over :
        (o : Objects e) (existing : Option LatestWorkflowRunPointer)
        → latest_on at_key.namespace at_key.workflow_id o ≡ ok existing
        → Ensures o (put_over existing at_key status t order) (Advance o)
    unfolding put_over
    ensures-put_over o none there =
        ensures-write_latest o (λ p before. absurd_none (sym there ∙ before))
    ensures-put_over o (some p) there =
        ensures-reads (Reads-lift (should_replace_latest_workflow_run p order t))
          (λ x. Advanced-same never)
          (λ replace decided. branch replace (should_replace_lem p order t replace decided))
      where
        branch :
            (replace : Bool)
            → replaces order t (optional_time p.run_order_time) (optional_time p.record_time)
              ≡ replace
            → Ensures o
                (if replace then write_latest_workflow_run at_key status t order else done tt)
                (Advance o)
        branch true later = ensures-write_latest o (λ q before.
            subst (λ x. PointerNotLater x order t) (some-injective (sym there ∙ before))
              (replaces-NotLater order t (optional_time p.run_order_time)
                (optional_time p.record_time) later))
        branch false earlier = ensures-result (ok tt) (
            Advanced-same λ _. (
              p,
              there,
              keeps-NotLater order t (optional_time p.run_order_time) (optional_time p.record_time)
                  earlier,
            ))

  -- `putLatestWorkflowRun` from any objects, with every outcome of its calls, for a record with a
  -- valid key, a status that has a pointer and times that a timestamp can hold. A pointer that was
  -- there is followed by one that is not earlier than it. If the call succeeds, the pointer that is
  -- there then is not earlier than the given times. All other objects stay as they were.
  pub put_latest_workflow_run-forward :
      (laws : Lawful e) (r : WorkflowRecord) (t order : Time) (o : Objects e)
      → valid_workflow_key (workflow_key_with_defaults (workflow_key_from_proto r.key)) ≡ true
      → workflow_status_has_latest_pointer r.status ≡ true
      → order < year_10000
      → t < year_10000
      → Ensures o (put_latest_workflow_run r t order) (λ result o'.
        Advanced
          (workflow_key_with_defaults (workflow_key_from_proto r.key)).namespace
          (workflow_key_from_proto r.key).workflow_id
          order
          t
          o
          (result ≡ ok tt)
          o')
  unfolding put_latest_workflow_run
  put_latest_workflow_run-forward laws r t order o valid has order_early early =
      let key = workflow_key_from_proto r.key in
      ensures-reads (Reads-ctx_err laws) (λ x. Advanced-same never)
        λ _ _.
          ensures-reads
            (get_latest_workflow_run_pointer_lem laws (workflow_key_with_defaults key).namespace
              key.workflow_id)
            (λ x. Advanced-same never)
            (ensures-put_over laws key valid r.status has order t order_early early o)
