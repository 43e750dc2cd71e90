-- ===== src/OpenDal/Listing/Agree.antt =====
-- The records that the listings give, against what the reads of single records give.
use temporaless.Prelude.{
  ◌≡◌, refl, subst, inl, inr, ℕ, some, List, [], ◌∷◌, Text, has_suffix, Bool-cases, All,
}
use temporaless.Action.{Error, Result, ok, err, done, and_then, and_then-ok}
use temporaless.Key.{
  WorkflowKey, activity, event, key_from_proto, workflow_key_with_defaults, run_of, record_dir_path,
  extension,
}
use temporaless.Message.{Message, Body, ActivityRecord, EventRecord, activity_record, event_record}
use temporaless.Env.{Env, Lawful}
use temporaless.Env.Ensures.{
  Objects, Ensures, ensures-reads, ensures-bind, ensures-result, ensures-weaken, Then, Reads-lift,
  Reads-ctx_err,
}
use temporaless.Validate.{validate_activity_record, validate_event_record}
use temporaless.Validate.Listed.{validate_listed, validate_listed_activity, validate_listed_event}
use temporaless.Validate.Sound.{validate_listed-located}
use temporaless.OpenDal.Point.{decode, or_corrupt}
use temporaless.OpenDal.View.{activity_on, event_on, optional}
use temporaless.OpenDal.Walk.{ensures-walk}
use temporaless.OpenDal.Entry.{listed_on, listed_on-ok, Reads-read_listed_proto}
use temporaless.OpenDal.Listing.{read_listed, list_activities, list_events, placeholder_key}

module _ ⦃e : Env⦄ where
  open e use {unmarshal}

  -- The end of a listing: no object has changed, and all that it gives is as `G` says.
  abbrev pub Lists : {A : Type 0} → (A → Type 0) → Objects e → Result (List A) → Objects e → Type 0
  Lists G o result o' = (o' ≡ o) × ((rs : List _) → result ≡ ok rs → All G rs)

  pub no_list : {A : Type 0} {G : A → Type 0} (o : Objects e) (x : Error) → Lists G o (err x) o
  no_list o x = (refl, λ rs wrong. cc)

  pub lists :
      {A : Type 0} {G : A → Type 0} (o : Objects e) (rs : List A) → All G rs → Lists G o (ok rs) o
  lists {A} {G} o rs h = (refl, λ qs same. subst (All G) (ok-injective same) h)
    where
      ok-injective : {xs ys : List A} → ◌≡◌ {A = Result (List A)} (ok xs) (ok ys) → xs ≡ ys
      ok-injective same = cc

  module _ (laws : Lawful e) (o : Objects e) where
    module _ (m : Message) (validate : Text → Body m → Result (Unit {0})) (G : Body m → Type 0)
        (good : (p : Text) (b : Body m) → listed_on m p o ≡ ok b → validate p b ≡ ok tt → G b) where
      ensures-read_listed : (ps : List Text) → Ensures o (read_listed m validate ps) (Lists G o)
      unfolding read_listed
      ensures-read_listed [] = ensures-result (ok []) (lists o [] tt)
      ensures-read_listed (p ∷ ps) =
          let rest = ensures-read_listed ps in
          elim (Bool-cases (has_suffix extension p)) [
            | inl record_file ↦ rw record_file (
                ensures-reads (Reads-read_listed_proto laws m p) (no_list o) λ b found.
                  ensures-reads (Reads-lift (validate p b)) (no_list o) λ _ valid.
                    ensures-bind {k = λ bs. done (b ∷ bs)}
                      (ensures-weaken rest (λ r o'. cons b (good p b found valid) r o')))
            | inr other ↦ rw other rest
          ]
        where
          cons :
              (b : Body m)
              → G b
              → (r : Result (List (Body m))) (o' : Objects e) → Lists G o r o'
              → Then (λ bs. done (b ∷ bs)) (Lists G o) r o'
          cons b h (err x) o' (same, _) = (same, λ rs wrong. cc)
          cons b h (ok bs) o' (same, all) =
              ensures-result (ok (b ∷ bs)) (same, (lists o' (b ∷ bs) (h, all bs refl)).1)

    -- A listed activity is the one that a read of its key gives, and belongs to the run.
    pub record IsActivityOf (key : WorkflowKey) (r : ActivityRecord) : Type 0 where
      pub stored : activity_on (key_from_proto r.key) o ≡ ok (some r)
      pub run :
          workflow_key_with_defaults key
          ≡ workflow_key_with_defaults (run_of (key_from_proto {k = activity} r.key))

    pub record IsEventOf (key : WorkflowKey) (r : EventRecord) : Type 0 where
      pub stored : event_on (key_from_proto r.key) o ≡ ok (some r)
      pub run :
          workflow_key_with_defaults key
          ≡ workflow_key_with_defaults (run_of (key_from_proto {k = event} r.key))

    activity-good :
        (key : WorkflowKey) (p : Text) (r : ActivityRecord)
        → listed_on activity_record p o ≡ ok r
        → validate_listed_activity p key (some r) ≡ ok tt
        → IsActivityOf key r
    unfolding validate_listed_activity validate_listed decode
    activity-good key p r found valid =
        let own = key_from_proto {k = activity} r.key in
        let (d, there, read) = listed_on-ok activity_record p o found in
        let (_, checked, _) = and_then-ok (validate_activity_record (some r) own) _ valid in
        let (at, run) =
          validate_listed-located activity (validate_activity_record (some r) own) p key own
            valid in
        record { stored = rw (at, and_then, there, optional, read, or_corrupt, checked); run = run }

    event-good :
        (key : WorkflowKey) (p : Text) (r : EventRecord)
        → listed_on event_record p o ≡ ok r
        → validate_listed_event p key (some r) ≡ ok tt
        → IsEventOf key r
    unfolding validate_listed_event validate_listed decode
    event-good key p r found valid =
        let own = key_from_proto {k = event} r.key in
        let (d, there, read) = listed_on-ok event_record p o found in
        let (_, checked, _) = and_then-ok (validate_event_record (some r) own) _ valid in
        let (at, run) =
          validate_listed-located event (validate_event_record (some r) own) p key own valid in
        record { stored = rw (at, and_then, there, optional, read, or_corrupt, checked); run = run }

    -- `ListActivities` changes no object, and every record that it gives is the one that
    -- `GetActivity` gives for its key, of a key in the listed run.
    pub list_activities-stored :
        (fuel : ℕ) (key : WorkflowKey)
        → Ensures o (list_activities fuel key) (Lists (IsActivityOf key) o)
    unfolding list_activities
    list_activities-stored fuel key = ensures-reads (Reads-ctx_err laws) (no_list o) λ _ _.
        ensures-reads (Reads-lift (record_dir_path activity (placeholder_key activity key)))
          (no_list o)
          λ dir _. ensures-bind (
            ensures-walk laws o _ (no_list o)
              (λ paths.
                ensures-read_listed activity_record (λ p r. validate_listed_activity p key (some r))
                  (IsActivityOf key) (activity-good key) paths)
              fuel (dir ∷ []) [])

    -- `ListEvents` changes no object, and every record that it gives is the one that `GetEvent` gives
    -- for its key, of a key in the listed run.
    pub list_events-stored :
        (fuel : ℕ) (key : WorkflowKey) → Ensures o (list_events fuel key) (Lists (IsEventOf key) o)
    unfolding list_events
    list_events-stored fuel key = ensures-reads (Reads-ctx_err laws) (no_list o) λ _ _.
        ensures-reads (Reads-lift (record_dir_path event (placeholder_key event key))) (no_list o)
          λ dir _. ensures-bind (
            ensures-walk laws o _ (no_list o)
              (λ paths.
                ensures-read_listed event_record (λ p r. validate_listed_event p key (some r))
                  (IsEventOf key) (event-good key) paths)
              fuel (dir ∷ []) [])
