-- ===== src/OpenDal/Scan/Accepted.antt =====
-- A due ledger entry against the check of a due timer.
use temporaless.Prelude.{
  ◌≡◌, refl, sym, ap, subst, ◌∙◌, inl, inr, true, false, ◌&&◌, ◌||◌, Option, none, some, Text,
  codes, text_eq, text_eq_refl, ltb, arith,
}
use temporaless.Action.{Result, ok, err, and_then, and_then-ok}
use temporaless.Key.{
  WorkflowKey, timer, workflow_path, workflow_key_with_defaults, with_defaults, run_of, due_root,
  same_workflow_run, key_from_proto, workflow_key_from_proto,
}
use temporaless.Key.Slash.{NoSlash}
use temporaless.Key.Distinct.{in_namespace-injective}
use temporaless.Key.Located.{
  Located-object, workflow_address, due_address, paths_distinct, or_default-or_default,
}
use temporaless.Message.{
  WorkflowRecord, TimerStatus, DueTimerEntry, Timestamp, Time, workflow_record,
}
use temporaless.Env.{Env}
use temporaless.Env.Ensures.{Objects}
use temporaless.Validate.{is_in_progress, validate_workflow_record}
use temporaless.Validate.Listed.{validate_due_timer, fired_by, scheduled, is_empty}
use temporaless.Validate.Sound.{workflow_key_eq_sound}
use temporaless.OpenDal.Point.{decode}
use temporaless.OpenDal.Due.{prepared_record, is_scheduled, due_status, matching_fire_at}
use temporaless.OpenDal.View.{workflow_on, optional}
use temporaless.OpenDal.Timers.Frame.{owner-ne-workflow_address, owner, owner-Located}
use temporaless.OpenDal.Entry.{Checked}
use temporaless.OpenDal.Listing.{entry_key, entry_workflow_key}
use temporaless.OpenDal.Scan.{LedgerRoot, fire_time}
use temporaless.OpenDal.Scan.Kept.{IsForeign, Kept}
use temporaless.OpenDal.Scan.Roots.{IsLedger}

due_root-injective : (n m : Text) → NoSlash n → NoSlash m → due_root n ≡ due_root m → n ≡ m
unfolding due_root
due_root-injective n m hn hm same =
    (in_namespace-injective n m (codes "_due/") (codes "_due/") hn hm same).0

-- A run is not part of a timer.
pub workflow_path-IsForeign :
    (key : WorkflowKey) {p : Text} → workflow_path key ≡ ok p → IsForeign p
workflow_path-IsForeign key {p} at = (
  (workflow_address (workflow_key_with_defaults key), (key, refl, at)),
  λ k own. owner-ne-workflow_address own (workflow_key_with_defaults key) (
      paths_distinct p (workflow_address (workflow_key_with_defaults key)) (owner own)
        (key, refl, at) (owner-Located own)),
)

defaults_twice :
    (key : WorkflowKey)
    → workflow_key_with_defaults (workflow_key_with_defaults key) ≡ workflow_key_with_defaults key
defaults_twice key = ap (λ n. record key { namespace = n }) (or_default-or_default key.namespace)

module _ ⦃e : Env⦄ where
  open e use {Data, unmarshal, check_valid, as_time}

  -- Objects that keep the records keep the runs.
  pub workflow_on-Kept :
      (key : WorkflowKey) {o o' : Objects e} → Kept o o' → workflow_on key o' ≡ workflow_on key o
  workflow_on-Kept key {o} {o'} kept =
      from (workflow_path key) (λ q at. kept.records q (workflow_path-IsForeign key at))
    where
      from :
          (path : Result Text)
          → ((q : Text) → path ≡ ok q → o' q ≡ o q)
          → and_then path (λ q.
            optional (decode workflow_record (λ r. validate_workflow_record (some r) key)) (o' q))
            ≡ and_then path (λ q.
              optional (decode workflow_record (λ r. validate_workflow_record (some r) key)) (o q))
      from (ok q) same =
          ap (optional (decode workflow_record (λ r. validate_workflow_record (some r) key)))
            (same q refl)
      from (err x) same = refl

  decoded-valid :
      (key : WorkflowKey) (x : Option Data) {w : WorkflowRecord}
      → optional (decode workflow_record (λ r. validate_workflow_record (some r) key)) x
        ≡ ok (some w)
      → validate_workflow_record (some w) key ≡ ok tt
  unfolding decode
  decoded-valid key none same = cc
  decoded-valid key (some d) same = ground arith

  -- A run that is read is valid for its key.
  workflow_on-valid :
      (key : WorkflowKey) (o : Objects e) {w : WorkflowRecord}
      → workflow_on key o ≡ ok (some w)
      → validate_workflow_record (some w) key ≡ ok tt
  workflow_on-valid key o {w} h =
      let (path, _, found) = and_then-ok (workflow_path key) _ h in decoded-valid key (o path) found

  fires_by :
      (status : TimerStatus) (fire_at entry_fire_at : Option Timestamp) (now : Time)
      → due_status status fire_at ≡ true
      → is_scheduled status ≡ true
      → matching_fire_at fire_at entry_fire_at ≡ true
      → ltb now (fire_time entry_fire_at) ≡ false
      → (scheduled status && fired_by fire_at now) ≡ true
  fires_by TimerStatus.scheduled none x now h s m late = cc
  fires_by TimerStatus.scheduled (some a) none now h s m late = cc
  fires_by TimerStatus.scheduled (some a) (some b) now h s m late = ground arith
  fires_by _ fire_at x now h s m late = cc

  module _ {asked p : Text} {root : LedgerRoot} {x : DueTimerEntry} (ledger : IsLedger asked root)
      (checked : Checked root.path p x) where
    pub run_of_entry : entry_workflow_key x ≡ run_of (entry_key x)
    unfolding same_workflow_run
    run_of_entry =
        sym (defaults_twice (workflow_key_from_proto x.workflow_key))
        ∙ workflow_key_eq_sound (workflow_key_with_defaults (entry_workflow_key x))
            (workflow_key_with_defaults (run_of (entry_key x))) checked.workflow
        ∙ defaults_twice (run_of (key_from_proto {k = timer} x.key))

    -- The key of an entry has its defaults already.
    defaulted : (with_defaults (entry_key x)).namespace ≡ (entry_key x).namespace
    defaulted = or_default-or_default (key_from_proto {k = timer} x.key).namespace

    namespace_of_entry : (entry_key x).namespace ≡ ledger.name
    namespace_of_entry =
        let ((plain_name, _, _, _), _) =
          Located-object p (due_address (with_defaults (entry_key x)))
            (entry_key x, refl, checked.at) in
        due_root-injective (entry_key x).namespace ledger.name (subst NoSlash defaulted plain_name)
          ledger.name-NoSlash (checked.rooted ∙ ledger.root_path)

    in_asked : (is_empty asked || text_eq (with_defaults (entry_key x)).namespace asked) ≡ true
    in_asked = elim ledger.wanted [
      | inl all ↦
          subst (λ n. (is_empty n || text_eq (with_defaults (entry_key x)).namespace n) ≡ true)
            (sym all) refl
      | inr one ↦
          let same =
            subst (λ n. text_eq n asked ≡ true) (one ∙ sym namespace_of_entry ∙ sym defaulted)
              (text_eq_refl asked) in
          ground arith
    ]

    -- A scheduled entry that has come due, whose run is in progress, passes the check of due timers.
    pub entry-accepted :
        (o : Objects e) (now : Time) (w : WorkflowRecord)
        → is_scheduled (prepared_record x).status ≡ true
        → ltb now (fire_time x.fire_at) ≡ false
        → workflow_on (entry_workflow_key x) o ≡ ok (some w)
        → is_in_progress w.status ≡ true
        → validate_due_timer
            (record {
              key = entry_key x;
              timer_record = some (prepared_record x);
              workflow = some w;
            })
            asked
            now
          ≡ ok tt
    unfolding validate_due_timer
    entry-accepted o now w scheduled' due run progress =
        let fires =
          fires_by (prepared_record x).status (prepared_record x).fire_at x.fire_at now
            checked.status scheduled' checked.fire_at due in
        let valid =
          workflow_on-valid (run_of (entry_key x)) o
            (subst (λ k. workflow_on k o ≡ ok (some w)) run_of_entry run) in
        rw (checked.valid, and_then, valid, in_asked, fires, progress)
