-- ===== src/OpenDal/Latest/Order.antt =====
-- The order of latest-run pointers, `shouldReplaceLatestWorkflowRun`, and the times that
-- `PutWorkflow` takes from a record or from the clock.
use temporaless.Prelude.{
  ◌≡◌, sym, ◌∙◌, subst, ◌⊎◌, inl, inr, ◌<◌, ◌≤◌, Bool, true, false, Option, none, some, arith,
  Bool-cases, if◌then◌else◌,
}
use temporaless.Action.{and_then-ok, Error, Result, ok, err, Action, plain, lift, done, ◌>>=◌}
use temporaless.Message.{WorkflowRecord, Timestamp, Time, LatestWorkflowRunPointer}
use temporaless.Env.{Env, Lawful, year_10000}
use temporaless.Env.Ensures.{Objects, Ensures, ensures-bind, ensures-result}
use temporaless.Validate.{is_terminal, optional_time, workflow_status_has_latest_pointer}
use temporaless.OpenDal.Latest.{
  clock, time_of, created_or_now, workflow_latest_pointer_record_time, replaces,
  should_replace_latest_workflow_run, require_valid, pointer_times,
}

-- Not later: by the order time of the run, then by the record time.
abbrev pub NotLater : Time → Time → Time → Time → Type 0
NotLater order record_time order' record_time' =
    (order < order') ⊎ ((order ≡ order') × (record_time ≤ record_time'))

module _ ⦃e : Env⦄ where
  open e use {World, check_valid, as_time}

  pub replaces-NotLater :
      (order t order' t' : Time) → replaces order t order' t' ≡ true → NotLater order' t' order t
  replaces-NotLater order t order' t' h = grind arith

  pub keeps-NotLater :
      (order t order' t' : Time) → replaces order t order' t' ≡ false → NotLater order t order' t'
  keeps-NotLater order t order' t' h = grind arith

  -- The times of a pointer that is not later than (`order`, `record_time`), and the other way round.
  abbrev pub PointerNotLater : LatestWorkflowRunPointer → Time → Time → Type 0
  PointerNotLater p order record_time =
      NotLater (optional_time p.run_order_time) (optional_time p.record_time) order record_time

  abbrev pub NotLaterThanPointer : Time → Time → LatestWorkflowRunPointer → Type 0
  NotLaterThanPointer order record_time p =
      NotLater order record_time (optional_time p.run_order_time) (optional_time p.record_time)

  -- Without an error, a pointer is replaced exactly by runs that are not earlier, up to ties.
  pub should_replace_lem :
      (p : LatestWorkflowRunPointer) (order t : Time) (b : Bool)
      → should_replace_latest_workflow_run p order t ≡ ok b
      → replaces order t (optional_time p.run_order_time) (optional_time p.record_time) ≡ b
  unfolding should_replace_latest_workflow_run
  should_replace_lem p order t b h =
      let (_, _, h1) = and_then-ok (require_valid p.run_order_time) _ h in
      let (_, _, h2) = and_then-ok (require_valid p.record_time) _ h1 in ok-injective h2
    where
      ok-injective : {a b : Bool} → ◌≡◌ {A = Result Bool} (ok a) (ok b) → a ≡ b
      ok-injective same = cc

  module _ (laws : Lawful e) where
    pub ensures-clock :
        {o : Objects e} {P : Result Time → Objects e → Type 0}
        → ((t : Time) → t < year_10000 → P (ok t) o)
        → Ensures o clock P
    unfolding clock
    ensures-clock {o} {P} next = record {
      at = λ s so.
          subst (P (ok (e.now s).0)) (sym (laws.now_quiet s ∙ so))
            (next (e.now s).0 (laws.now-lt-year_10000 s));
    }

    ensures-time_of :
        {o : Objects e} {P : Result Time → Objects e → Type 0} (t : Timestamp)
        → ((x : Error) → P (err x) o)
        → ((t : Time) → t < year_10000 → P (ok t) o)
        → Ensures o (lift (time_of t)) P
    ensures-time_of {o} {P} t failed next = elim (Bool-cases (check_valid t)) [
      | inl valid ↦
          rw valid (
            ensures-result (ok (as_time t)) (next (as_time t) (laws.as_time-lt-year_10000 t valid)))
      | inr invalid ↦ rw invalid (ensures-result (err plain) (failed plain))
    ]

    module _ {o : Objects e} {P : Result Time → Objects e → Type 0}
        (failed : (x : Error) → P (err x) o) (next : (t : Time) → t < year_10000 → P (ok t) o) where
      created_or_clock :
          (t : Option Timestamp) → Ensures o (elim t [ none ↦ clock | some t ↦ lift (time_of t) ]) P
      created_or_clock none = ensures-clock next
      created_or_clock (some t) = ensures-time_of t failed next

      ensures-created_or_now : (r : WorkflowRecord) → Ensures o (created_or_now r) P
      unfolding created_or_now
      ensures-created_or_now r = created_or_clock r.created_at

      completed_or_created :
          (r : WorkflowRecord) (t : Option Timestamp)
          → Ensures o (elim t [ none ↦ created_or_now r | some t ↦ lift (time_of t) ]) P
      completed_or_created r none = ensures-created_or_now r
      completed_or_created r (some t) = ensures-time_of t failed next

      by_status :
          (r : WorkflowRecord) (b : Bool)
          → Ensures o
              (if b
                then (elim r.completed_at [ none ↦ created_or_now r | some t ↦ lift (time_of t) ])
                else created_or_now r)
              P
      by_status r true = completed_or_created r r.completed_at
      by_status r false = ensures-created_or_now r

      ensures-record_time :
          (r : WorkflowRecord) → Ensures o (workflow_latest_pointer_record_time r) P
      unfolding workflow_latest_pointer_record_time created_or_now
      ensures-record_time r = by_status r (is_terminal r.status)

    -- The times are taken before anything is written.
    pub ensures-pointer_times :
        {B : Type 0} {o : Objects e} (k : Option Time → Action World B)
        {P : Result B → Objects e → Type 0} (r : WorkflowRecord)
        → ((x : Error) → P (err x) o)
        → (workflow_status_has_latest_pointer r.status ≡ false → Ensures o (k none) P)
        → ((t : Time)
            → workflow_status_has_latest_pointer r.status ≡ true
            → t < year_10000
            → Ensures o (k (some t)) P)
        → Ensures o (pointer_times r >>= k) P
    unfolding pointer_times
    ensures-pointer_times {o} k {P} r failed without with_times =
        elim (Bool-cases (workflow_status_has_latest_pointer r.status)) [
          | inl there ↦ rw there (
              ensures-bind {m = workflow_latest_pointer_record_time r >>= (λ t. done (some t))}
                {k = k}
                (ensures-bind (
                  ensures-record_time failed
                    (λ t early. ensures-result (ok (some t)) (with_times t there early)) r)))
          | inr absent ↦
              rw absent
                (ensures-bind {m = done none} {k = k} (ensures-result (ok none) (without absent)))
        ]
