-- ===== src/OpenDal/Listing/Timers.antt =====
-- The loop of `ListTimers` over the ledger entries of a run.
use temporaless.Prelude.{
  In, ◌≡◌, refl, sym, ap, subst, ◌∙◌, ◌⊎◌, inl, inr, true, false, some, List, [], ◌∷◌, Text,
  text_eq, Bool-cases, All,
}
use temporaless.Action.{Error, Result, ok, err}
use temporaless.Key.{
  WorkflowKey, timer, key_from_proto, workflow_key_with_defaults, run_of, record_path, due_root,
  same_workflow_run,
}
use temporaless.Key.Located.{or_default-or_default}
use temporaless.Message.{TimerRecord, TimerStatus, DueTimerEntry, due_timer_entry}
use temporaless.Env.{Env, Lawful}
use temporaless.Env.Ensures.{
  Objects, Ensures, ensures-reads, ensures-result, ensures-weaken, Reads-lift,
}
use temporaless.Validate.Sound.{check-true, workflow_key_eq_sound}
use temporaless.OpenDal.Due.{prepared_record, is_canceled}
use temporaless.OpenDal.View.{timer_on, timer_point_on}
use temporaless.OpenDal.Timers.{shown}
use temporaless.OpenDal.Timers.Put.{timer_key}
use temporaless.OpenDal.Entry.{
  listed_on, listed_on-ok, Reads-read_listed_proto, validate_due_entry-Checked, timer_on-Checked,
  Checked,
}
use temporaless.OpenDal.Listing.{
  read_ledger, note_entry, Found, assign, with_status, has_status, entry_key, entry_workflow_key,
  is_shadowed,
}

same_workflow_run_sound :
    (a b : WorkflowKey)
    → same_workflow_run a b ≡ true
    → workflow_key_with_defaults a ≡ workflow_key_with_defaults b
unfolding same_workflow_run
same_workflow_run_sound a b h =
    workflow_key_eq_sound (workflow_key_with_defaults a) (workflow_key_with_defaults b) h

pub run_of-timer_key :
    (r : TimerRecord)
    → workflow_key_with_defaults (run_of (timer_key r))
      ≡ workflow_key_with_defaults (run_of (key_from_proto {k = timer} r.key))
run_of-timer_key r = rw (or_default-or_default (key_from_proto {k = timer} r.key).namespace)

-- All records of a map are as `G` says.
abbrev pub AllFound : (TimerRecord → Type 0) → List (Text × TimerRecord) → Type 0
AllFound G m = All (λ (x : Text × TimerRecord). G x.1) m

pub AllFound-assign :
    (G : TimerRecord → Type 0) (k : Text) (v : TimerRecord) (m : List (Text × TimerRecord))
    → G v
    → AllFound G m
    → AllFound G (assign k v m)
unfolding assign
AllFound-assign G k v [] h hs = (h, tt)
AllFound-assign G k v ((j, w) ∷ m) h hs = elim (Bool-cases (text_eq j k)) [
  | inl same ↦ rw same (h, hs.1)
  | inr other ↦ rw other (hs.0, AllFound-assign G k v m h hs.1)
]

pub All-with_status :
    (G : TimerRecord → Type 0) (status : TimerStatus) (m : List (Text × TimerRecord))
    → AllFound G m
    → All (λ r. G r × (has_status status r ≡ true)) (with_status status m)
unfolding with_status
All-with_status G status [] h = tt
All-with_status G status ((k, r) ∷ m) h = elim (Bool-cases (has_status status r)) [
  | inl there ↦ rw there ((h.0, there), All-with_status G status m h.1)
  | inr other ↦ rw other (All-with_status G status m h.1)
]

module _ ⦃e : Env⦄ where
  open e use {World, objects, ctx_err, unmarshal}

  shown-live : (r : TimerRecord) → is_canceled r.status ≡ false → shown r ≡ some r
  shown-live r h = rw h

  -- A record of the listed run that a read of its key gives.
  abbrev pub IsEntryOf : WorkflowKey → Objects e → TimerRecord → Type 0
  IsEntryOf key o r =
      (timer_on (timer_key r) o ≡ ok (some r))
      × (workflow_key_with_defaults key ≡ workflow_key_with_defaults (run_of (timer_key r)))

  -- A canonical point of the listed run, at none of the `shadows`.
  abbrev pub IsPointOf : WorkflowKey → Objects e → List Text → TimerRecord → Type 0
  IsPointOf key o shadows r =
      (timer_point_on (key_from_proto r.key) o ≡ ok (some r))
      × (workflow_key_with_defaults key ≡ workflow_key_with_defaults (run_of (timer_key r)))
      × ((q : Text) × (record_path timer (key_from_proto r.key) ≡ ok q)
          × (is_shadowed q shadows ≡ false))

  abbrev pub IsTimerOf : WorkflowKey → Objects e → List Text → TimerRecord → Type 0
  IsTimerOf key o shadows r = IsEntryOf key o r ⊎ IsPointOf key o shadows r

  module _ (laws : Lawful e) (o : Objects e) (key : WorkflowKey) where
    -- The records of the ledger entries that were read.
    abbrev pub Entries : Found → Type 0
    Entries found = AllFound (IsEntryOf key o) found.records_by_id

    -- The points of the entries at `ps` are covered.
    abbrev pub Covers : List Text → List Text → Type 0
    Covers ps shadows =
        (p : Text) (entry : DueTimerEntry) (q : Text)
        → In p ps
        → listed_on due_timer_entry p o ≡ ok entry
        → record_path timer (entry_key entry) ≡ ok q
        → In q shadows

    -- The end of the loop over the ledger.
    abbrev pub ReadsEntries : List Text → Found → Result Found → Objects e → Type 0
    ReadsEntries ps before result o' =
        (o' ≡ o)
        × ((found : Found)
            → result ≡ ok found
            → Entries found
              × Covers ps found.shadow_point_paths
              × ((q : Text) → In q before.shadow_point_paths → In q found.shadow_point_paths))

    no_entries : (ps : List Text) (before : Found) (x : Error) → ReadsEntries ps before (err x) o
    no_entries ps before x = (refl, λ found wrong. cc)

    entry-IsEntryOf :
        (p : Text) (entry : DueTimerEntry)
        → listed_on due_timer_entry p o ≡ ok entry
        → Checked (due_root (workflow_key_with_defaults key).namespace) p entry
        → same_workflow_run key (entry_workflow_key entry) ≡ true
        → is_canceled (prepared_record entry).status ≡ false
        → IsEntryOf key o (prepared_record entry)
    entry-IsEntryOf p entry found checked run live =
        let (d, there, read) = listed_on-ok due_timer_entry p o found in
        let r = prepared_record entry in
        let seen = timer_on-Checked checked o there read in
        (
          ap (λ k. timer_on k o) checked.key ∙ seen ∙ ap ok (shown-live r live),
          same_workflow_run_sound key (entry_workflow_key entry) run
              ∙ same_workflow_run_sound (entry_workflow_key entry) (run_of (entry_key entry))
                  checked.workflow
              ∙ ap (λ k. workflow_key_with_defaults (run_of k)) (sym checked.key),
        )

    note_entry-Entries :
        (p point_path : Text) (entry : DueTimerEntry) (found : Found)
        → listed_on due_timer_entry p o ≡ ok entry
        → Checked (due_root (workflow_key_with_defaults key).namespace) p entry
        → same_workflow_run key (entry_workflow_key entry) ≡ true
        → Entries found
        → Entries (note_entry entry point_path found)
    note_entry-Entries p point_path entry found there checked run h =
        elim (Bool-cases (is_canceled (prepared_record entry).status)) [
          | inl canceled ↦ rw canceled h
          | inr live ↦ rw live (
              AllFound-assign (IsEntryOf key o) (entry_key entry).id (prepared_record entry)
                found.records_by_id (entry-IsEntryOf p entry there checked run live) h)
        ]

    pub ensures-read_ledger :
        (ps : List Text) (found : Found)
        → Entries found
        → Ensures o (read_ledger key ps found) (ReadsEntries ps found)
    unfolding read_ledger
    ensures-read_ledger [] found h =
        ensures-result (ok found) (refl, λ f same. ended f (ok-injective same))
      where
        ok-injective : {a b : Found} → ◌≡◌ {A = Result Found} (ok a) (ok b) → a ≡ b
        ok-injective same = cc

        ended :
            (f : Found)
            → found ≡ f
            → Entries f
              × Covers [] f.shadow_point_paths
              × ((q : Text) → In q found.shadow_point_paths → In q f.shadow_point_paths)
        ended f same =
            subst
              (λ f.
                Entries f
                × Covers [] f.shadow_point_paths
                × ((q : Text) → In q found.shadow_point_paths → In q f.shadow_point_paths))
              same (h, λ p entry q none_left. absurd none_left, λ q there. there)
    ensures-read_ledger (p ∷ ps) found h =
        let failed = no_entries (p ∷ ps) found in
        ensures-reads (Reads-read_listed_proto laws due_timer_entry p) failed λ entry there.
          ensures-reads (Reads-lift _) failed λ _ valid.
            ensures-reads (Reads-lift _) failed λ _ run.
              ensures-reads (Reads-lift (record_path timer (entry_key entry))) failed
                λ point_path located.
                  ensures-weaken
                    (ensures-read_ledger ps (note_entry entry point_path found) (
                      note_entry-Entries p point_path entry found there
                        (validate_due_entry-Checked _ p entry (check-true _ valid))
                        (check-true _ run) h))
                    (covered p ps found entry point_path there located)
      where
        covered :
            (p : Text) (ps : List Text) (found : Found) (entry : DueTimerEntry) (point_path : Text)
            → listed_on due_timer_entry p o ≡ ok entry
            → record_path timer (entry_key entry) ≡ ok point_path
            → (r : Result Found) (o' : Objects e)
            → ReadsEntries ps (note_entry entry point_path found) r o'
            → ReadsEntries (p ∷ ps) found r o'
        covered p ps found entry point_path there located r o' (same, all) = (
          same,
          λ f is.
              let (entries, covers, more) = all f is in
              (
                entries,
                λ p' entry' q at read q_is. elim at [
                  | inl here ↦
                      let read' =
                        subst (λ x. listed_on due_timer_entry x o ≡ ok entry') here read in
                      let e_same : entry ≡ entry' = cc in
                      let q_same : point_path ≡ q =
                        (let h' = ap (λ z. record_path timer (entry_key z)) e_same in cc) in
                      more q (inl (sym q_same))
                  | inr later ↦ covers p' entry' q later read q_is
                ],
                λ q before. more q (inr before),
              ),
        )
