-- ===== src/Janitor.antt =====
-- adapters/go/janitor/janitor.go: the sweep of completed runs over any store, with a query for the
-- candidates and a claim store if there is one.
pub mod Quiet
use temporaless.Prelude.{
  ℕ, zero, suc, ◌+◌, Bool, true, false, not, ◌&&◌, ◌||◌, Option, none, some, List, [], ◌∷◌, ◌++◌,
  Text, text_eq, ltb, if◌then◌else◌,
}
use temporaless.Action.{
  Error, Result, ok, err, Action, done, fail, lift, attempt, ◌>>=◌, ◌>>◌, require, and_then, plain,
  joined, out_of_fuel, run_listing_data_loss, claim_unsupported,
}
use temporaless.Key.{
  WorkflowKey, ClaimKey, RecordKey, Kind, claim, or_default, key_from_proto, run_of, validate_key,
  validate_workflow_key, workflow_key_with_defaults, workflow_key_from_proto, workflow_key_eq,
  same_workflow_run,
}
use temporaless.Message.{
  ℤ, Duration, Timestamp, Time, WorkflowRecord, WorkflowStatus, ActivityRecord, TimerRecord,
  EventRecord, TimerStatus,
}
use temporaless.Env.{Env}
use temporaless.Validate.{validate_workflow_record}
use temporaless.Validate.Listed.{ClaimRecord, is_empty}
use temporaless.Retry.{is_positive}
use temporaless.Store.{Part, activities, timers, events, RecordOf, key_of, kind, Store}
use temporaless.Cache.Workflow.{workflow_key_of}
use temporaless.Runtime.TimerDetails.{Calendar}
use temporaless.Runtime.Slots.{ClaimCapability}

-- A `ClaimStore`, with the listing if it is a `ClaimRunStore`.
pub record RunClaims (W : Type 0) : Type 0 where
  pub claim_capability : Action W ClaimCapability
  pub delete_claim : ClaimKey → Action W Bool
  pub list_claims : Option (WorkflowKey → Action W (List (Option ClaimRecord)))

-- What a sweep is given. `store_claims` is the store itself if it is a claim store.
pub record Janitor (W : Type 0) : Type 0 where
  pub ctx_err : Action W Unit
  pub list_workflows : Text → Text → Action W (List (Option WorkflowRecord) × Text)
  pub store : Store W
  pub claim_store : Option (RunClaims W)
  pub store_claims : Option (RunClaims W)

pub record SweepRequest : Type 0 where
  pub namespace : Text
  pub now : Option Timestamp
  pub max_age : Option Duration

pub record RunDeletionPlan : Type 0 where
  pub key : WorkflowKey
  pub claims : List (Option ClaimRecord)
  pub activity_records : List (Option ActivityRecord)
  pub timer_records : List (Option TimerRecord)
  pub event_records : List (Option EventRecord)

abbrev pub is_completed : WorkflowStatus → Bool
is_completed WorkflowStatus.completed = true
is_completed _ = false

abbrev pub claim_key_from : Option ClaimRecord → ClaimKey
claim_key_from none = key_from_proto none
claim_key_from (some r) = key_from_proto r.key

unfoldable pub validate_workflow_candidate : Text → WorkflowKey → Result (Unit {0})
unfolding text_eq validate_workflow_key
validate_workflow_candidate namespace key = elim (validate_workflow_key key) [
  | err x ↦ err (joined run_listing_data_loss x)
  | ok _ ↦
      require (is_empty namespace || text_eq (or_default key.namespace) namespace)
        run_listing_data_loss
]

unfoldable pub validate_listed_run_record_key :
    {k : Kind} → WorkflowKey → RecordKey k → Result (Unit {0})
unfolding validate_key same_workflow_run
validate_listed_run_record_key {k} target key = elim (validate_key k key) [
  | err x ↦ err (joined run_listing_data_loss x)
  | ok _ ↦ require (same_workflow_run target (run_of key)) run_listing_data_loss
]

-- A loop that stops at the first error.
unfoldable pub check_each : {A : Type 0} → (A → Result (Unit {0})) → List A → Result (Unit {0})
check_each check [] = ok tt
check_each check (x ∷ xs) = let rest = check_each check xs in and_then (check x) (λ _. rest)

unfoldable pub is_seen : Text → List Text → Bool
unfolding text_eq
is_seen token [] = false
is_seen token (t ∷ ts) = text_eq t token || is_seen token ts

unfoldable pub is_seen_run : WorkflowKey → List WorkflowKey → Bool
unfolding workflow_key_eq
is_seen_run key [] = false
is_seen_run key (k ∷ ks) = workflow_key_eq k key || is_seen_run key ks

-- The claim store that is given, or the store itself if it is one.
abbrev pub chosen_claims : {W : Type 0} → Janitor W → Option (RunClaims W)
chosen_claims janitor = elim janitor.claim_store [ none ↦ janitor.store_claims | some c ↦ some c ]

module _ {W : Type 0} ⦃e : Env⦄ ⦃n : Calendar⦄ (janitor : Janitor W) where
  open n use {check_valid, as_time, duration_valid, as_duration}

  -- `claimRunStore`: the listing, or an unsupported store.
  abbrev pub listing_for :
      RunClaims W
      → ClaimCapability
      → Result (Option (WorkflowKey → Action W (List (Option ClaimRecord))))
  listing_for claims ClaimCapability.unspecified = ok none
  listing_for claims ClaimCapability.no_claims = ok none
  listing_for claims ClaimCapability.create_only_claims = elim claims.list_claims [
    | none ↦ err claim_unsupported
    | some list_claims ↦ ok (some list_claims)
  ]
  listing_for claims _ = err claim_unsupported

  unfoldable pub preflight :
      Option (RunClaims W) → Action W (Option (WorkflowKey → Action W (List (Option ClaimRecord))))
  preflight none = done none
  preflight (some claims) = do
    capability ← claims.claim_capability
    lift (listing_for claims capability)

  -- The pages of the query, one for each unit of fuel.
  unfoldable pub collect : ℕ → Text → Text → List Text → Action W (List (Option WorkflowRecord))
  collect zero namespace token seen = fail out_of_fuel
  collect (suc fuel) namespace token seen = do
    (records, next) ← janitor.list_workflows namespace token
    if is_empty next
        then done records
        else if is_seen next seen
        then fail plain
        else (do rest ← collect fuel namespace next (next ∷ seen); done (records ++ rest))

  unfoldable pub list_claims_of :
      Option (WorkflowKey → Action W (List (Option ClaimRecord)))
      → WorkflowKey
      → Action W (List (Option ClaimRecord))
  list_claims_of none key = done []
  list_claims_of (some list_claims) key = list_claims key

  abbrev pub check_part : (p : Part) → WorkflowKey → List (Option (RecordOf p)) → Result (Unit {0})
  check_part p key = check_each (λ r. validate_listed_run_record_key key (key_of p r))

  -- The checks of the four lists.
  unfoldable pub checked_plan :
      WorkflowKey
      → List (Option ClaimRecord)
      → List (Option ActivityRecord)
      → List (Option TimerRecord)
      → List (Option EventRecord)
      → Result RunDeletionPlan
  checked_plan key claims acts tims evts =
      let of_claims =
        check_each (λ r. validate_listed_run_record_key key (claim_key_from r)) claims in
      and_then of_claims (λ _. and_then (check_part activities key acts) (λ _.
        and_then (check_part timers key tims) (λ _. and_then (check_part events key evts) (λ _.
          ok (record {
            key = key;
            claims = claims;
            activity_records = acts;
            timer_records = tims;
            event_records = evts;
          })))))

  unfoldable pub snapshot_run :
      Option (WorkflowKey → Action W (List (Option ClaimRecord)))
      → WorkflowKey
      → Action W RunDeletionPlan
  snapshot_run listing key = do
    claims ← list_claims_of listing key
    acts ← janitor.store.list activities key TimerStatus.unspecified
    tims ← janitor.store.list timers key TimerStatus.unspecified
    evts ← janitor.store.list events key TimerStatus.unspecified
    lift (checked_plan key claims acts tims evts)

  -- `completedAt.AsTime().After(cutoff)` with the cutoff `now - max_age`, without a difference.
  abbrev pub is_young : Time → ℕ → Time → Bool
  is_young now max_age completed_at = ltb now (completed_at + max_age)

  abbrev pub completed_time : WorkflowRecord → Result Time
  completed_time r = elim r.completed_at [
    | none ↦ err run_listing_data_loss
    | some t ↦ if check_valid t then ok (as_time t) else err run_listing_data_loss
  ]

  abbrev pub old_enough : Time → ℕ → WorkflowRecord → Result Bool
  old_enough now max_age r =
      and_then (completed_time r) (λ completed_at. ok (not (is_young now max_age completed_at)))

  -- Whether the authoritative record is of a completed run that is old enough.
  unfoldable pub eligible : Time → ℕ → WorkflowKey → Option WorkflowRecord → Result Bool
  eligible now max_age key none = and_then (validate_workflow_record none key) (λ _. ok false)
  eligible now max_age key (some r) =
      and_then (validate_workflow_record (some r) key)
        (λ _. if is_completed r.status then old_enough now max_age r else ok false)

  unfoldable pub plan_eligible :
      Option (WorkflowKey → Action W (List (Option ClaimRecord)))
      → WorkflowKey
      → Bool
      → Action W (List RunDeletionPlan)
  plan_eligible listing key false = done []
  plan_eligible listing key true = do plan ← snapshot_run listing key; done (plan ∷ [])

  unfoldable pub plan_found :
      Option (WorkflowKey → Action W (List (Option ClaimRecord)))
      → Time
      → ℕ
      → WorkflowKey
      → Option WorkflowRecord × Bool
      → Action W (List RunDeletionPlan)
  plan_found listing now max_age key (r, false) = done []
  plan_found listing now max_age key (r, true) = do
    is_eligible ← lift (eligible now max_age key r)
    plan_eligible listing key is_eligible

  -- A candidate of the query: a record of the namespace, of a run that was not a candidate before.
  unfoldable pub accepted_candidate :
      Text → List WorkflowKey → Option WorkflowRecord → Result WorkflowKey
  accepted_candidate namespace seen none = err run_listing_data_loss
  accepted_candidate namespace seen (some candidate) =
      let key = workflow_key_of (some candidate) in
      let with_namespace = workflow_key_with_defaults key in
      and_then (validate_workflow_candidate namespace key) (λ _.
        and_then (require (not (is_seen_run with_namespace seen)) run_listing_data_loss)
          (λ _. ok with_namespace))

  unfoldable pub plan_all :
      Option (WorkflowKey → Action W (List (Option ClaimRecord)))
      → Text
      → Time
      → ℕ
      → List WorkflowKey
      → List (Option WorkflowRecord)
      → Action W (List RunDeletionPlan)
  plan_all listing namespace now max_age seen [] = done []
  plan_all listing namespace now max_age seen (candidate ∷ rest) = do
    janitor.ctx_err
    key ← lift (accepted_candidate namespace seen candidate)
    answer ← janitor.store.get_workflow key
    plans ← plan_found listing now max_age key answer
    others ← plan_all listing namespace now max_age (key ∷ seen) rest
    done (plans ++ others)

  -- `deleteRun`
  unfoldable pub delete_each : {A : Type 0} → (A → Action W Bool) → List A → Action W Unit
  delete_each delete [] = done tt
  delete_each delete (x ∷ xs) = do delete x; delete_each delete xs

  unfoldable pub delete_claims : Option (RunClaims W) → List (Option ClaimRecord) → Action W Unit
  delete_claims none records = done tt
  delete_claims (some claims) records =
      delete_each (λ r. claims.delete_claim (claim_key_from r)) records

  abbrev pub delete_part : (p : Part) → List (Option (RecordOf p)) → Action W Unit
  delete_part p = delete_each (λ r. janitor.store.delete p (key_of p r))

  unfoldable pub delete_run : RunDeletionPlan → Action W Unit
  delete_run plan = do
    delete_claims (chosen_claims janitor) plan.claims
    delete_part activities plan.activity_records
    delete_part timers plan.timer_records
    delete_part events plan.event_records
    janitor.store.delete_workflow plan.key
    done tt

  abbrev pub counted :
      ℕ → Result (Unit {0}) → Action W (ℕ × Option Error) → Action W (ℕ × Option Error)
  counted deleted (ok _) rest = rest
  counted deleted (err x) rest = done (deleted, some x)

  -- The number of runs that are deleted, and the error that the sweep stopped at.
  unfoldable pub delete_runs : ℕ → List RunDeletionPlan → Action W (ℕ × Option Error)
  delete_runs deleted [] = done (deleted, none)
  delete_runs deleted (plan ∷ plans) = do
    result ← attempt (do janitor.ctx_err; delete_run plan)
    counted deleted result (delete_runs (deleted + 1) plans)

  abbrev pub checked_now : Option Timestamp → Result Time
  checked_now none = err plain
  checked_now (some t) = if check_valid t then ok (as_time t) else err plain

  abbrev pub positive_age : ℤ → Result ℕ
  positive_age (ℤ.pos zero) = err plain
  positive_age (ℤ.pos (suc d)) = ok (suc d)
  positive_age (ℤ.negsuc d) = err plain

  abbrev pub checked_age : Option Duration → Result ℕ
  checked_age none = err plain
  checked_age (some d) = if duration_valid d then positive_age (as_duration d) else err plain

  -- The checks of the request: the time and the age in nanoseconds, which is positive.
  abbrev pub checked_request : SweepRequest → Result (Time × ℕ)
  checked_request request =
      and_then (checked_now request.now)
        (λ now. and_then (checked_age request.max_age) (λ max_age. ok (now, max_age)))

  -- Everything before the first deletion.
  unfoldable pub plan_sweep : ℕ → SweepRequest → Action W (List RunDeletionPlan)
  plan_sweep fuel request = do
    (now, max_age) ← lift (checked_request request)
    listing ← preflight (chosen_claims janitor)
    completed ← collect fuel request.namespace [] []
    plan_all listing request.namespace now max_age [] completed

  abbrev pub swept : Result (List RunDeletionPlan) → Action W (ℕ × Option Error)
  swept (ok plans) = delete_runs 0 plans
  swept (err x) = done (0, some x)

  -- `Sweep`, with a query, a store and a request.
  unfoldable pub sweep : ℕ → SweepRequest → Action W (ℕ × Option Error)
  sweep fuel request = do plans ← attempt (plan_sweep fuel request); swept plans
