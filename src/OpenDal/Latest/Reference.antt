-- ===== src/OpenDal/Latest/Reference.antt =====
-- `GetLatestWorkflowRun`: the stored pointer and the run that it names.
use temporaless.Prelude.{
  ◌≡◌, refl, sym, ap, subst, ◌∙◌, true, inl, inr, Option, none, some, Text, arith,
}
use temporaless.Action.{and_then-ok, Result, ok, err, and_then, require, stale_latest_pointer}
use temporaless.Key.{workflow_key_from_proto, latest_workflow_run_pointer_path}
use temporaless.Message.{
  ℤ, WorkflowRecord, WorkflowStatus, LatestWorkflowRunPointer, latest_workflow_run_pointer,
}
use temporaless.Env.{Env, Lawful}
use temporaless.Env.Ensures.{Objects, Reads, Reads-bind, Reads-done, Reads-lift}
use temporaless.Validate.{
  same_status, int_eq, validate_workflow_record, validate_latest_workflow_run_pointer,
  validate_latest_workflow_run_reference,
}
use temporaless.OpenDal.View.{point_on, workflow_on, get_workflow_lem, Reads-key, Reads-read_point}
use temporaless.OpenDal.Ledger.{require-true}
use temporaless.OpenDal.Latest.{
  get_latest_workflow_run_pointer, get_latest_workflow_run, dereference, dereferenced, answered,
}

int_eq_sound : (a b : ℤ) → int_eq a b ≡ true → a ≡ b
int_eq_sound (ℤ.pos a) (ℤ.pos b) h = ground arith
int_eq_sound (ℤ.pos a) (ℤ.negsuc b) h = cc
int_eq_sound (ℤ.negsuc a) (ℤ.pos b) h = cc
int_eq_sound (ℤ.negsuc a) (ℤ.negsuc b) h = ground arith

same_status_sound : (a b : WorkflowStatus) → same_status a b ≡ true → a ≡ b
same_status_sound (WorkflowStatus.unknown a) (WorkflowStatus.unknown b) h =
    ground (arith, int_eq_sound a b)
same_status_sound a b h = ground arith

module _ ⦃e : Env⦄ where
  open e use {World, objects}

  -- The stored pointer of a workflow id.
  abbrev pub latest_on : Text → Text → Objects e → Result (Option LatestWorkflowRunPointer)
  latest_on namespace workflow_id o =
      and_then (latest_workflow_run_pointer_path namespace workflow_id) (λ path.
        point_on latest_workflow_run_pointer
          (λ p. validate_latest_workflow_run_pointer (some p) namespace workflow_id) path o)

  abbrev dereferenced_on :
      Objects e → Option LatestWorkflowRunPointer → Result (Option LatestWorkflowRunPointer)
  dereferenced_on o none = ok none
  dereferenced_on o (some p) =
      and_then (workflow_on (workflow_key_from_proto p.key) o) (dereferenced p)

  -- The pointer that callers see.
  abbrev pub latest_run_on : Text → Text → Objects e → Result (Option LatestWorkflowRunPointer)
  latest_run_on namespace workflow_id o =
      and_then (latest_on namespace workflow_id o) (dereferenced_on o)

  module _ (laws : Lawful e) where
    pub get_latest_workflow_run_pointer_lem :
        (n w : Text) → Reads (get_latest_workflow_run_pointer n w) (latest_on n w)
    unfolding get_latest_workflow_run_pointer
    get_latest_workflow_run_pointer_lem n w =
        Reads-key laws (latest_workflow_run_pointer_path n w) (λ path.
          Reads-read_point laws latest_workflow_run_pointer path
            (λ p. validate_latest_workflow_run_pointer (some p) n w))

    Reads-dereference :
        (pointer : Option LatestWorkflowRunPointer)
        → Reads (dereference pointer) (λ o. dereferenced_on o pointer)
    unfolding dereference
    Reads-dereference none = Reads-done none
    Reads-dereference (some p) =
        Reads-bind (get_workflow_lem laws (workflow_key_from_proto p.key))
          (λ reference. Reads-lift (dereferenced p reference))

    -- `GetLatestWorkflowRun` changes no object and gives what `latest_run_on` reads off them, or a
    -- fault.
    pub get_latest_workflow_run_lem :
        (n w : Text) → Reads (get_latest_workflow_run n w) (latest_run_on n w)
    unfolding get_latest_workflow_run
    get_latest_workflow_run_lem n w =
        Reads-bind (get_latest_workflow_run_pointer_lem n w) Reads-dereference

  answered-some :
      (p q : LatestWorkflowRunPointer) (v : Result (Unit {0}))
      → answered p v ≡ ok (some q)
      → (v ≡ ok tt) × (q ≡ p)
  answered-some p q (ok _) h = (refl, cc)
  answered-some p q (err x) h = ground arith

  reference-status :
      (p : LatestWorkflowRunPointer) (r : WorkflowRecord) {u : Unit}
      → validate_latest_workflow_run_reference (some p) (some r) ≡ ok u
      → p.status ≡ r.status
  unfolding validate_latest_workflow_run_reference
  reference-status p r h =
      let (_, _, h1) =
        and_then-ok (validate_workflow_record (some r) (workflow_key_from_proto p.key)) _ h in
      let (_, same, _) =
        and_then-ok (require (same_status p.status r.status) stale_latest_pointer) _ h1 in
      same_status_sound p.status r.status (require-true _ stale_latest_pointer same)

  dereferenced-some :
      (p q : LatestWorkflowRunPointer) (reference : Option WorkflowRecord)
      → dereferenced p reference ≡ ok (some q)
      → (q ≡ p) × ((r : WorkflowRecord) × (reference ≡ some r) × (p.status ≡ r.status))
  unfolding dereferenced
  dereferenced-some p q none h = cc
  dereferenced-some p q (some r) h =
      let (valid, same) = answered-some p q _ h in (same, (r, refl, reference-status p r valid))

  dereferenced_on-some :
      (o : Objects e) (pointer : Option LatestWorkflowRunPointer) (q : LatestWorkflowRunPointer)
      → dereferenced_on o pointer ≡ ok (some q)
      → (pointer ≡ some q)
        × ((r : WorkflowRecord) × (workflow_on (workflow_key_from_proto q.key) o ≡ ok (some r))
            × (q.status ≡ r.status))
  dereferenced_on-some o none q h = cc
  dereferenced_on-some o (some p) q h =
      let (reference, there, found) =
        and_then-ok (workflow_on (workflow_key_from_proto p.key) o) (dereferenced p) h in
      let (same, (r, at, status)) = dereferenced-some p q reference found in
      subst
        (λ x.
          (some p ≡ some x)
          × ((r : WorkflowRecord) × (workflow_on (workflow_key_from_proto x.key) o ≡ ok (some r))
              × (x.status ≡ r.status)))
        (sym same) (refl, (r, there ∙ ap ok at, status))

  read_latest_run :
      (n w : Text) (o : Objects e) (q : LatestWorkflowRunPointer)
      → latest_run_on n w o ≡ ok (some q)
      → (latest_on n w o ≡ ok (some q))
        × ((r : WorkflowRecord) × (workflow_on (workflow_key_from_proto q.key) o ≡ ok (some r))
            × (q.status ≡ r.status))
  read_latest_run n w o q h =
      let (pointer, stored, found) = and_then-ok (latest_on n w o) (dereferenced_on o) h in
      let (same, run) = dereferenced_on-some o pointer q found in (stored ∙ ap ok same, run)

  -- A latest run that `GetLatestWorkflowRun` answers with is never invented, whatever faults its
  -- calls meet: the stored pointer of the workflow id is the answer, the run that it names is in the
  -- store, the run has the status that the pointer says, and the call has changed no object.
  pub latest_run-exists :
      (laws : Lawful e) (n w : Text) (s : World) (q : LatestWorkflowRunPointer)
      → (get_latest_workflow_run n w s).0 ≡ ok (some q)
      → (latest_on n w (objects s) ≡ ok (some q))
        × ((r : WorkflowRecord) × (workflow_on (workflow_key_from_proto q.key) (objects s)
              ≡ ok (some r))
            × (q.status ≡ r.status))
        × (objects (get_latest_workflow_run n w s).1 ≡ objects s)
  latest_run-exists laws n w s q h =
      let reads = get_latest_workflow_run_lem laws n w in
      elim (reads.result s) [
        | inl same ↦
            let (there, run) = read_latest_run n w (objects s) q (sym same ∙ h) in
            (there, run, reads.quiet s)
        | inr (x, wrong, fault) ↦ cc
      ]
