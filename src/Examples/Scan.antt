-- ===== src/Examples/Scan.antt =====
-- Scans of the due ledger over a bucket in memory that shows its directories.
use temporaless.Prelude.{
  ◌≡◌, refl, sym, inl, inr, subst, true, Bool-cases, Option, none, some, List, [], ◌∷◌, ◌++◌, ◌⊎◌,
  In, Text, codes, text_eq, text_eq_sound, text_lt, has_suffix, if◌then◌else◌, sort_by,
  insert_sorted, arith,
}
use temporaless.Action.{Error, Result, ok}
use temporaless.Key.{slash, TimerKey, with_defaults, run_of, workflow_key_with_defaults}
use temporaless.Key.Slash.{NoSlash}
use temporaless.Message.{TimerStatus, ℤ, DueTimerEntry, WorkflowRecord, WorkflowStatus, TimerRecord}
use temporaless.Env.{Env}
use temporaless.Env.Tree.{Direct, subdirs}
use temporaless.Env.Memory.{memory_with, memory_with-Lawful, Bucket, Blob}
use temporaless.Env.Ensures.{Ensures}
use temporaless.Validate.Listed.{DueTimer}
use temporaless.OpenDal.Scan.{due_timers, due_less}
use temporaless.OpenDal.Scan.Wakes.{Scanned, due_timers-scanned}
use temporaless.OpenDal.Scan.Order.{IsInOrder, due_timers-IsInOrder}
use temporaless.OpenDal.Scan.{due_roots, scan_roots, scan_paths, scan_found, scan_entry}
use temporaless.Key.{
  validate_workflow_key, valid_workflow_key, valid_id, due_root, validate_key, due_entry_path,
  due_object, id_chars, key_eq, record_path, run_prefix, same_workflow_run, valid_key,
  workflow_key_eq, workflow_path,
}
use temporaless.OpenDal.Walk.{walk, files_in}
use temporaless.OpenDal.Quarantine.{read_listed_proto}
use temporaless.OpenDal.Due.{validate_due_entry}
use temporaless.OpenDal.Point.{decode, get_timer_point, get_workflow, read_point}
use temporaless.Validate.{
  key_matches, validate_timer_record, validate_workflow_record, workflow_key_matches,
}
use temporaless.OpenDal.Listing.{list_timers}
use temporaless.OpenDal.Listing.Preferred.{ListedTimers, list_timers-ListedTimers}
use temporaless.Examples.{completed_run, run_key, nap, sleep_timer}

abbrev ledger : Text
ledger = codes "temporaless/v2/default/_due/"

unfoldable ledger_listing : Text → List Text
unfolding text_eq
ledger_listing p =
    if text_eq p ledger
    then (ledger ++ codes "wf/") ∷ []
    else if text_eq p (ledger ++ codes "wf/")
    then (ledger ++ codes "wf/r1/") ∷ []
    else if text_eq p (ledger ++ codes "wf/r1/")
    then (ledger ++ codes "wf/r1/nap.binpb") ∷ (ledger ++ codes "wf/r1/tea.binpb") ∷ []
    else []

-- The entries of a listing of `p`, as an operator gives them.
abbrev Entries : Text → List Text → Type 0
Entries p entries =
    (d : Text)
    → In d entries
    → has_suffix (slash ∷ []) d ≡ true
    → (d ≡ p) ⊎ ((name : Text) × NoSlash name × (d ≡ p ++ (name ++ (slash ∷ []))))

ledger_listing-Entries : (p : Text) → Entries p (ledger_listing p)
unfolding ledger_listing has_suffix text_eq
ledger_listing-Entries p = elim (Bool-cases (text_eq p ledger)) [
  | inl same ↦
      subst (λ q. Entries q (ledger_listing q)) (sym (text_eq_sound p ledger same)) at_ledger
  | inr other ↦ elim (Bool-cases (text_eq p (ledger ++ codes "wf/"))) [
    | inl same ↦
        subst (λ q. Entries q (ledger_listing q))
          (sym (text_eq_sound p (ledger ++ codes "wf/") same)) at_workflow
    | inr other' ↦ elim (Bool-cases (text_eq p (ledger ++ codes "wf/r1/"))) [
      | inl same ↦
          subst (λ q. Entries q (ledger_listing q))
            (sym (text_eq_sound p (ledger ++ codes "wf/r1/") same)) at_run
      | inr other'' ↦ rw (other, other', other'') (λ d there. absurd there)
    ]
  ]
]
  where
    at_ledger : Entries ledger ((ledger ++ codes "wf/") ∷ [])
    at_ledger d (inl same) dir = inr (codes "wf", omega arith, same)
    at_ledger d (inr wrong) dir = absurd wrong

    at_workflow : Entries (ledger ++ codes "wf/") ((ledger ++ codes "wf/r1/") ∷ [])
    at_workflow d (inl same) dir = inr (codes "r1", omega arith, same)
    at_workflow d (inr wrong) dir = absurd wrong

    not_directory :
        {d f : Text} → d ≡ f → has_suffix (slash ∷ []) d ≡ true → has_suffix (slash ∷ []) f ≡ true
    not_directory same dir = subst (λ z. has_suffix (slash ∷ []) z ≡ true) same dir

    at_run :
        Entries
          (ledger ++ codes "wf/r1/")
          ((ledger ++ codes "wf/r1/nap.binpb") ∷ (ledger ++ codes "wf/r1/tea.binpb") ∷ [])
    at_run d (inl same) dir =
        let t : has_suffix (slash ∷ []) (ledger ++ codes "wf/r1/nap.binpb") ≡ true =
          not_directory same dir in
        cc
    at_run d (inr (inl same)) dir =
        let t : has_suffix (slash ∷ []) (ledger ++ codes "wf/r1/tea.binpb") ≡ true =
          not_directory same dir in
        cc
    at_run d (inr (inr wrong)) dir = absurd wrong

ledger_direct : Direct (memory_with ledger_listing)
ledger_direct = record {
  list_direct = λ p s entries stopped d same there dir.
      ledger_listing-Entries p d (subst (In d) (entries_same same) there) dir;
}
  where
    entries_same :
        {es fs : List Text} {x y : Option Error}
        → ◌≡◌ {A = Result (List Text × Option Error)} (ok (es, x)) (ok (fs, y))
        → fs ≡ es
    entries_same same = cc

abbrev running_run : WorkflowRecord
running_run = record completed_run { status = WorkflowStatus.in_progress }

abbrev nap_entry : DueTimerEntry
nap_entry = record {
  key = some (with_defaults nap);
  workflow_key = some (workflow_key_with_defaults (run_of nap));
  fire_at = sleep_timer.fire_at;
  prepared = some sleep_timer;
}

abbrev tea : TimerKey
tea = record {
  namespace = codes "default";
  workflow_id = codes "wf";
  run_id = codes "r1";
  id = codes "tea";
}

abbrev tea_timer : TimerRecord
tea_timer = record sleep_timer {
  key = some tea;
  fire_at = some (record { seconds = ℤ.pos 0; nanos = ℤ.pos 3 });
}

abbrev tea_entry : DueTimerEntry
tea_entry = record nap_entry {
  key = some tea;
  fire_at = tea_timer.fire_at;
  prepared = some tea_timer;
}

-- A run in progress with two timers, of an entry and a point each.
abbrev sleeping : Bucket
sleeping p =
    if text_eq p (codes "temporaless/v2/default/wf/r1/workflow.binpb")
    then some (Blob.workflow running_run)
    else if text_eq p (codes "temporaless/v2/default/_due/wf/r1/nap.binpb")
    then some (Blob.due nap_entry)
    else if text_eq p (codes "temporaless/v2/default/wf/r1/timer/nap.binpb")
    then some (Blob.timer sleep_timer)
    else if text_eq p (codes "temporaless/v2/default/_due/wf/r1/tea.binpb")
    then some (Blob.due tea_entry)
    else if text_eq p (codes "temporaless/v2/default/wf/r1/timer/tea.binpb")
    then some (Blob.timer tea_timer)
    else none

due_timers-scanned_example :
    Ensures ⦃e = memory_with ledger_listing⦄ sleeping
      (due_timers ⦃e = memory_with ledger_listing⦄ 4 (codes "default") 9)
      (Scanned ⦃e = memory_with ledger_listing⦄ (codes "default") 9 sleeping)
due_timers-scanned_example =
    due_timers-scanned ⦃e = memory_with ledger_listing⦄ (memory_with-Lawful ledger_listing)
      ledger_direct 4 (codes "default") 9 sleeping

abbrev nap_wake : DueTimer
nap_wake = record {
  key = with_defaults nap;
  timer_record = some sleep_timer;
  workflow = some running_run;
}

abbrev tea_wake : DueTimer
tea_wake = record { key = tea; timer_record = some tea_timer; workflow = some running_run }

-- In this bucket each point is the record that its entry prepares, so `proto.Equal` answers true.
abbrev exact_points : Env
exact_points = record (memory_with ledger_listing) { equal_timer = λ a b. true }

nap_wakes :
    (due_timers ⦃e = exact_points⦄ 4 (codes "default") 9 sleeping).0 ≡ ok (tea_wake ∷ nap_wake ∷ [])
unfolding due_timers subdirs ledger_listing has_suffix sort_by insert_sorted text_eq text_lt
    due_roots validate_workflow_key valid_workflow_key valid_id scan_roots walk due_root scan_paths
    files_in scan_found read_listed_proto validate_due_entry validate_key due_entry_path due_object
    id_chars key_eq record_path run_prefix same_workflow_run valid_key workflow_key_eq workflow_path
    decode get_timer_point get_workflow read_point scan_entry key_matches validate_timer_record
    validate_workflow_record workflow_key_matches due_less
nap_wakes = refl

due_timers-IsInOrder_example : IsInOrder ⦃e = exact_points⦄ (tea_wake ∷ nap_wake ∷ [])
due_timers-IsInOrder_example =
    due_timers-IsInOrder ⦃e = exact_points⦄ 4 (codes "default") 9 sleeping nap_wakes

list_timers-ListedTimers_example :
    ListedTimers ⦃e = memory_with ledger_listing⦄ 4 run_key TimerStatus.scheduled sleeping
      (list_timers ⦃e = memory_with ledger_listing⦄ 4 run_key TimerStatus.scheduled sleeping)
list_timers-ListedTimers_example =
    list_timers-ListedTimers ⦃e = memory_with ledger_listing⦄ (memory_with-Lawful ledger_listing) 4
      run_key TimerStatus.scheduled sleeping
