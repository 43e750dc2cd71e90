-- ===== src/Janitor/Quiet.antt =====
-- A sweep deletes nothing before every eligible run is planned.
use temporaless.Prelude.{
  ℕ, zero, suc, ◌≡◌, refl, ◌∙◌, subst, Bool, true, false, Option, none, some, List, [], ◌∷◌, ◌++◌,
  Text, Option-cases, inl, inr, Bool-cases,
}
use temporaless.Action.{
  Error, Result, ok, err, Action, done, lift, ◌>>=◌, proceed, bind-ok, claim_unsupported,
}
use temporaless.Key.{WorkflowKey}
use temporaless.Message.{Time, WorkflowRecord, TimerStatus}
use temporaless.Env.{Env}
use temporaless.Validate.Listed.{ClaimRecord, is_empty}
use temporaless.Store.{Part, activities, timers, events}
use temporaless.Runtime.TimerDetails.{Calendar}
use temporaless.Runtime.Slots.{ClaimCapability}
use temporaless.Janitor.{
  RunClaims, Janitor, SweepRequest, RunDeletionPlan, chosen_claims, listing_for, preflight, collect,
  list_claims_of, snapshot_run, plan_found, plan_eligible, eligible, accepted_candidate, plan_all,
  plan_sweep, sweep, delete_runs, checked_request, is_seen,
}

-- What an observer sees of the records and of the claims, and that no call of a sweep that only
-- reads changes it.
pub record ReadLaws {W : Type 0} (janitor : Janitor W) : Type 1 where
  pub Seen : Type 0
  pub seen : W → Seen
  pub ctx_quiet : (w : W) → seen (janitor.ctx_err w).1 ≡ seen w
  pub query_quiet :
      (namespace token : Text) (w : W) → seen (janitor.list_workflows namespace token w).1 ≡ seen w
  pub list_quiet :
      (p : Part) (run : WorkflowKey) (status : TimerStatus) (w : W)
      → seen (janitor.store.list p run status w).1 ≡ seen w
  pub get_workflow_quiet :
      (key : WorkflowKey) (w : W) → seen (janitor.store.get_workflow key w).1 ≡ seen w
  pub capability_quiet :
      (c : RunClaims W) (w : W)
      → chosen_claims janitor ≡ some c
      → seen (c.claim_capability w).1 ≡ seen w
  pub claims_quiet :
      (c : RunClaims W) (list_claims : WorkflowKey → Action W (List (Option ClaimRecord)))
      → chosen_claims janitor ≡ some c
      → c.list_claims ≡ some list_claims
      → (key : WorkflowKey) (w : W) → seen (list_claims key w).1 ≡ seen w

module _ {W : Type 0} ⦃e : Env⦄ ⦃n : Calendar⦄ (janitor : Janitor W) (laws : ReadLaws janitor) where
  open laws use {seen}

  abbrev Listing : Type 0
  Listing = Option (WorkflowKey → Action W (List (Option ClaimRecord)))

  abbrev QuietListing : Listing → Type 0
  QuietListing none = Unit
  QuietListing (some f) = (key : WorkflowKey) (w : W) → seen (f key w).1 ≡ seen w

  abbrev Quiet : {A : Type 0} → Action W A → Type 0
  Quiet m = (w : W) → seen (m w).1 ≡ seen w

  Quiet-proceed :
      {A B : Type 0} (k : A → Action W B) (r : Result A × W) (w : W)
      → seen r.1 ≡ seen w
      → ((a : A) → Quiet (k a))
      → seen (proceed k r).1 ≡ seen w
  Quiet-proceed k (ok a, w') w first next = next a w' ∙ first
  Quiet-proceed k (err x, w') w first next = first

  Quiet-bind :
      {A B : Type 0} (m : Action W A) (k : A → Action W B)
      → Quiet m
      → ((a : A) → Quiet (k a))
      → Quiet (m >>= k)
  Quiet-bind m k first next w = Quiet-proceed k (m w) w (first w) next

  Quiet-lift : {A : Type 0} (r : Result A) → Quiet (lift r)
  Quiet-lift r w = refl

  claims_of :
      (listing : Listing) (key : WorkflowKey)
      → QuietListing listing
      → Quiet (list_claims_of janitor listing key)
  unfolding list_claims_of
  claims_of none key quiet w = refl
  claims_of (some f) key quiet w = quiet key w

  Quiet-snapshot_run :
      (listing : Listing) (key : WorkflowKey)
      → QuietListing listing
      → Quiet (snapshot_run janitor listing key)
  unfolding snapshot_run
  Quiet-snapshot_run listing key quiet =
      Quiet-bind (list_claims_of janitor listing key) _ (claims_of listing key quiet) λ claims.
        Quiet-bind (janitor.store.list activities key TimerStatus.unspecified) _
          (laws.list_quiet activities key TimerStatus.unspecified)
          λ acts.
            Quiet-bind (janitor.store.list timers key TimerStatus.unspecified) _
              (laws.list_quiet timers key TimerStatus.unspecified)
              λ tims.
                Quiet-bind (janitor.store.list events key TimerStatus.unspecified) _
                  (laws.list_quiet events key TimerStatus.unspecified) λ evts. λ w. refl

  Quiet-plan_eligible :
      (listing : Listing) (key : WorkflowKey) (b : Bool)
      → QuietListing listing
      → Quiet (plan_eligible janitor listing key b)
  unfolding plan_eligible
  Quiet-plan_eligible listing key false quiet = λ w. refl
  Quiet-plan_eligible listing key true quiet =
      Quiet-bind (snapshot_run janitor listing key) (λ plan. done (plan ∷ []))
        (Quiet-snapshot_run listing key quiet) (λ plan w. refl)

  Quiet-plan_found :
      (listing : Listing) (now : Time) (max_age : ℕ) (key : WorkflowKey) (r : Option WorkflowRecord)
      (found : Bool)
      → QuietListing listing
      → Quiet (plan_found janitor listing now max_age key (r, found))
  unfolding plan_found
  Quiet-plan_found listing now max_age key r false quiet = λ w. refl
  Quiet-plan_found listing now max_age key r true quiet =
      Quiet-bind (lift (eligible janitor now max_age key r)) (plan_eligible janitor listing key)
        (λ w. refl) (λ b. Quiet-plan_eligible listing key b quiet)

  Quiet-plan_all :
      (listing : Listing) (namespace : Text) (now : Time) (max_age : ℕ)
      (seen_runs : List WorkflowKey) (records : List (Option WorkflowRecord))
      → QuietListing listing
      → Quiet (plan_all janitor listing namespace now max_age seen_runs records)
  unfolding plan_all
  Quiet-plan_all listing namespace now max_age seen_runs [] quiet = λ w. refl
  Quiet-plan_all listing namespace now max_age seen_runs (candidate ∷ rest) quiet =
      Quiet-bind janitor.ctx_err _ laws.ctx_quiet λ _.
        Quiet-bind (lift (accepted_candidate janitor namespace seen_runs candidate)) _ (λ w. refl)
          λ key.
            Quiet-bind (janitor.store.get_workflow key) _ (laws.get_workflow_quiet key) λ answer.
              Quiet-bind (plan_found janitor listing now max_age key answer) _
                (Quiet-plan_found listing now max_age key answer.0 answer.1 quiet)
                λ plans.
                  Quiet-bind (plan_all janitor listing namespace now max_age (key ∷ seen_runs) rest)
                    (λ others. done (plans ++ others))
                    (Quiet-plan_all listing namespace now max_age (key ∷ seen_runs) rest quiet)
                    (λ others w. refl)

  Quiet-collect :
      (fuel : ℕ) (namespace token : Text) (tokens : List Text)
      → Quiet (collect janitor fuel namespace token tokens)
  unfolding collect
  Quiet-collect zero namespace token tokens = λ w. refl
  Quiet-collect (suc fuel) namespace token tokens =
      Quiet-bind (janitor.list_workflows namespace token) _ (laws.query_quiet namespace token)
        λ page. elim (Bool-cases (is_empty page.1)) [
          | inl last ↦ λ w. rw last refl
          | inr more ↦ elim (Bool-cases (is_seen page.1 tokens)) [
            | inl again ↦ λ w. rw (more, again) refl
            | inr new ↦ λ w.
                rw (more, new)
                  (Quiet-bind (collect janitor fuel namespace page.1 (page.1 ∷ tokens))
                    (λ rest. done (page.0 ++ rest))
                    (Quiet-collect fuel namespace page.1 (page.1 ∷ tokens)) (λ rest w. refl) w)
          ]
        ]

  QuietListing-of :
      (c : RunClaims W) (capability : ClaimCapability) (listing : Listing)
      → chosen_claims janitor ≡ some c
      → listing_for janitor c capability ≡ ok listing
      → QuietListing listing
  QuietListing-of c capability none chosen h = tt
  QuietListing-of c ClaimCapability.create_only_claims (some f) chosen h =
      elim (Option-cases c.list_claims) [
        | inl missing ↦
            let wrong : ◌≡◌ {A = Result Listing} (err claim_unsupported) (ok (some f)) =
              rw missing at h in
            cc
        | inr (g, there) ↦
            let same : ◌≡◌ {A = Result Listing} (ok (some g)) (ok (some f)) = rw there at h in
            laws.claims_quiet c f chosen (there ∙ cc)
      ]
  QuietListing-of c ClaimCapability.unspecified (some f) chosen h = cc
  QuietListing-of c ClaimCapability.no_claims (some f) chosen h = cc
  QuietListing-of c ClaimCapability.cas_claims (some f) chosen h = cc
  QuietListing-of c (ClaimCapability.unknown k) (some f) chosen h = cc

  preflighted :
      (o : Option (RunClaims W)) (w : W)
      → chosen_claims janitor ≡ o
      → (seen (preflight janitor o w).1 ≡ seen w)
        × ((listing : Listing) → (preflight janitor o w).0 ≡ ok listing → QuietListing listing)
  unfolding preflight
  preflighted none w chosen = (
    refl,
    λ listing h. let same : ◌≡◌ {A = Listing} none listing = cc in subst QuietListing same tt,
  )
  preflighted (some c) w chosen = (
    Quiet-bind c.claim_capability _ (λ w'. laws.capability_quiet c w' chosen) (λ _ w'. refl) w,
    λ listing h.
        let (capability, (_, rest)) =
          bind-ok (λ capability. lift (listing_for janitor c capability)) (c.claim_capability w)
            h in
        QuietListing-of c capability listing chosen rest,
  )

  Quiet-with :
      {A B : Type 0} (P : A → Type 0) (k : A → Action W B) (r : Result A × W) (w : W)
      → seen r.1 ≡ seen w
      → ((a : A) → r.0 ≡ ok a → P a)
      → ((a : A) → P a → Quiet (k a))
      → seen (proceed k r).1 ≡ seen w
  Quiet-with P k (ok a, w') w first holds next = next a (holds a refl) w' ∙ first
  Quiet-with P k (err x, w') w first holds next = first

  Quiet-plan_sweep : (fuel : ℕ) (request : SweepRequest) → Quiet (plan_sweep janitor fuel request)
  unfolding plan_sweep
  Quiet-plan_sweep fuel request =
      Quiet-bind (lift (checked_request janitor request)) _ (λ w. refl)
        λ numbers w.
          let (first, holds) = preflighted (chosen_claims janitor) w refl in
          Quiet-with QuietListing _ (preflight janitor (chosen_claims janitor) w) w first holds
            λ listing quiet.
              Quiet-bind (collect janitor fuel request.namespace [] []) _
                (Quiet-collect fuel request.namespace [] [])
                λ completed.
                  Quiet-plan_all listing request.namespace numbers.0 numbers.1 [] completed quiet

  -- A sweep deletes nothing before every run is planned: whatever the store, the query and the
  -- claim store answer, the planning leaves what is seen of the records and the claims as it was. If
  -- the planning fails, for any candidate, the sweep gives its error with the count 0, and what is
  -- seen is as it was.
  -- If it succeeds, the sweep is the deletion of the planned runs.
  pub sweep-planned :
      (fuel : ℕ) (request : SweepRequest) (w : W)
      → let planned = plan_sweep janitor fuel request w in
        (seen planned.1 ≡ seen w)
        × ((x : Error)
            → planned.0 ≡ err x
            → ((sweep janitor fuel request w).0 ≡ ok (0, some x))
              × (seen (sweep janitor fuel request w).1 ≡ seen w))
        × ((plans : List RunDeletionPlan)
            → planned.0 ≡ ok plans
            → sweep janitor fuel request w ≡ delete_runs janitor 0 plans planned.1)
  unfolding sweep
  sweep-planned fuel request w =
      let planned = plan_sweep janitor fuel request w in
      let quiet = Quiet-plan_sweep fuel request w in
      (quiet, λ x h. (rw h refl, rw h quiet), λ plans h. rw h refl)
