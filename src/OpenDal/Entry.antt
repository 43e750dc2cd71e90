-- ===== src/OpenDal/Entry.antt =====
-- A ledger object that a listing found and that passes `validateDueEntry`: what the readers of its
-- timer see.
use temporaless.Prelude.{
  ◌≡◌, refl, sym, ap, subst, ◌∙◌, Bool, true, false, ◌&&◌, Option, none, some, Text, text_eq,
  text_eq_sound, text_eq_refl, arith,
}
use temporaless.Action.{Error, Result, ok, err, and_then}
use temporaless.Key.{
  timer, key_from_proto, run_of, validate_key, validate_workflow_key, same_workflow_run, due_root,
  due_entry_path,
}
use temporaless.Key.Located.{or_default-or_default}
use temporaless.Message.{Message, Body, TimerRecord, DueTimerEntry, due_timer_entry}
use temporaless.Env.{Env, Lawful}
use temporaless.Env.Ensures.{
  Objects, Reads, Reads-bind, Reads-lift, Reads-ctx_err, Reads-read, stored,
}
use temporaless.Validate.{is_ok, validate_timer_record}
use temporaless.OpenDal.Point.{or_corrupt}
use temporaless.OpenDal.Due.{
  prepared_record, due_status, matching_fire_at, due_path_is, validate_due_entry, decode_due_entry,
}
use temporaless.OpenDal.View.{due_on, timer_on, optional}
use temporaless.OpenDal.Timers.{shown}
use temporaless.OpenDal.Timers.Put.{timer_key}
use temporaless.OpenDal.Timers.Keys.{validate_timer_record-key}
use temporaless.OpenDal.Ledger.{with_defaults-with_defaults, key_eq_refl}
use temporaless.OpenDal.Quarantine.{read_listed_proto}
use temporaless.OpenDal.Listing.{entry_key, entry_workflow_key}

or_corrupt-ok : {A : Type 0} (r : Result A) {a : A} → or_corrupt r ≡ ok a → r ≡ ok a
or_corrupt-ok (ok a) h = h
or_corrupt-ok (err x) h = cc

stored-ok :
    {A : Type 0} (x : Option A) {d : A}
    → ◌≡◌ {A = Result A} (elim x [ none ↦ err Error.not_found | some d ↦ ok d ]) (ok d)
    → x ≡ some d
stored-ok none h = cc
stored-ok (some d) h = cc

is_ok-ok : (m : Result (Unit {0})) → is_ok m ≡ true → m ≡ ok tt
is_ok-ok (ok tt) h = refl
is_ok-ok (err x) h = cc

module _ ⦃e : Env⦄ where
  open e use {Data, unmarshal}

  -- What `readListedProto` gives.
  abbrev pub listed_on : (m : Message) → Text → Objects e → Result (Body m)
  listed_on m p o = and_then (stored (o p)) (λ d. or_corrupt (unmarshal m d))

  pub Reads-read_listed_proto :
      (laws : Lawful e) (m : Message) (p : Text) → Reads (read_listed_proto m p) (listed_on m p)
  unfolding read_listed_proto
  Reads-read_listed_proto laws m p =
      Reads-bind (Reads-ctx_err laws)
        (λ _. Reads-bind (Reads-read laws p) (λ d. Reads-lift (or_corrupt (unmarshal m d))))

  pub listed_on-ok :
      (m : Message) (p : Text) (o : Objects e) {b : Body m}
      → listed_on m p o ≡ ok b
      → (d : Data) × (o p ≡ some d) × (unmarshal m d ≡ ok b)
  listed_on-ok m p o h = from (o p) refl h
    where
      from :
          (x : Option Data) {b : Body m}
          → o p ≡ x
          → and_then (stored x) (λ d. or_corrupt (unmarshal m d)) ≡ ok b
          → (d : Data) × (o p ≡ some d) × (unmarshal m d ≡ ok b)
      from none at h = cc
      from (some d) at h = (d, at, or_corrupt-ok (unmarshal m d) h)

  -- What the checks of an entry say, one by one.
  pub record Checked (root path : Text) (entry : DueTimerEntry) : Type 0 where
    pub prepared : entry.prepared ≡ some (prepared_record entry)
    pub rooted : due_root (entry_key entry).namespace ≡ root
    pub at : due_entry_path (entry_key entry) ≡ ok path
    pub key : timer_key (prepared_record entry) ≡ entry_key entry
    pub valid : validate_timer_record (some (prepared_record entry)) (entry_key entry) ≡ ok tt
    pub status : due_status (prepared_record entry).status (prepared_record entry).fire_at ≡ true
    pub fire_at : matching_fire_at (prepared_record entry).fire_at entry.fire_at ≡ true
    pub again :
        validate_due_entry
          (due_root (entry_key entry).namespace)
          path
          entry
          (entry_key entry)
          (entry_workflow_key entry)
        ≡ true
    pub workflow : same_workflow_run (entry_workflow_key entry) (run_of (entry_key entry)) ≡ true

  eight :
      (a b c d f g h k : Bool)
      → (a && b && c && d && f && g && h && k) ≡ true
      → (c ≡ true)
        × (d ≡ true)
        × (f ≡ true)
        × (g ≡ true)
        × (h ≡ true)
        × (k ≡ true)
        × ((d' : Bool) → d' ≡ true → (a && b && c && d' && f && g && h && k) ≡ true)
  eight a b c d f g h k all = (
    ground arith,
    ground arith,
    ground arith,
    ground arith,
    ground arith,
    ground arith,
    λ d' same. ground arith,
  )

  due_path_is-ok :
      (x : Result Text) {path : Text}
      → (elim x as (λ _. Bool) [ ok expected ↦ text_eq expected path | err y ↦ false ]) ≡ true
      → x ≡ ok path
  due_path_is-ok (ok expected) {path} h = ap ok (text_eq_sound expected path h)
  due_path_is-ok (err y) h = cc

  -- The tests of an entry whose prepared record is `r`.
  abbrev tests : Text → Text → DueTimerEntry → TimerRecord → Bool
  tests root path entry r =
      is_ok (validate_key timer (entry_key entry))
      && is_ok (validate_workflow_key (entry_workflow_key entry))
      && same_workflow_run (entry_workflow_key entry) (run_of (entry_key entry))
      && text_eq (due_root (entry_key entry).namespace) root
      && is_ok (validate_timer_record (some r) (entry_key entry))
      && due_status r.status r.fire_at
      && matching_fire_at r.fire_at entry.fire_at
      && due_path_is (entry_key entry) path

  validate_due_entry-tests :
      (root path : Text) (entry : DueTimerEntry)
      → validate_due_entry root path entry (entry_key entry) (entry_workflow_key entry) ≡ true
      → (entry.prepared ≡ some (prepared_record entry))
        × (tests root path entry (prepared_record entry) ≡ true)
  unfolding validate_due_entry
  validate_due_entry-tests root path entry h = from entry.prepared refl h
    where
      from :
          (x : Option TimerRecord)
          → entry.prepared ≡ x
          → (elim x as (λ _. Bool) [ none ↦ false | some r ↦ tests root path entry r ]) ≡ true
          → (entry.prepared ≡ some (prepared_record entry))
            × (tests root path entry (prepared_record entry) ≡ true)
      from none there h = cc
      from (some r) there h = (rw there, rw there h)

  tests-validate_due_entry :
      (root path : Text) (entry : DueTimerEntry)
      → entry.prepared ≡ some (prepared_record entry)
      → tests root path entry (prepared_record entry) ≡ true
      → validate_due_entry root path entry (entry_key entry) (entry_workflow_key entry) ≡ true
  unfolding validate_due_entry
  tests-validate_due_entry root path entry there h = from entry.prepared refl (there) h
    where
      from :
          (x : Option TimerRecord)
          → entry.prepared ≡ x
          → x ≡ some (prepared_record entry)
          → tests root path entry (prepared_record entry) ≡ true
          → (elim x as (λ _. Bool) [ none ↦ false | some r ↦ tests root path entry r ]) ≡ true
      from none at there h = cc
      from (some r) at there h =
          let same : r ≡ prepared_record entry = cc in
          subst (λ y. tests root path entry y ≡ true) (sym same) h

  pub validate_due_entry-Checked :
      (root path : Text) (entry : DueTimerEntry)
      → validate_due_entry root path entry (entry_key entry) (entry_workflow_key entry) ≡ true
      → Checked root path entry
  validate_due_entry-Checked root path entry h =
      let (there, all) = validate_due_entry-tests root path entry h in
      let (run, rooted, valid, status, fire_at, at, swap) =
        eight (is_ok (validate_key timer (entry_key entry)))
          (is_ok (validate_workflow_key (entry_workflow_key entry)))
          (same_workflow_run (entry_workflow_key entry) (run_of (entry_key entry)))
          (text_eq (due_root (entry_key entry).namespace) root)
          (is_ok (validate_timer_record (some (prepared_record entry)) (entry_key entry)))
          (due_status (prepared_record entry).status (prepared_record entry).fire_at)
          (matching_fire_at (prepared_record entry).fire_at entry.fire_at)
          (due_path_is (entry_key entry) path) all in
      let valid' =
        is_ok-ok (validate_timer_record (some (prepared_record entry)) (entry_key entry)) valid in
      record {
        prepared = there;
        rooted = text_eq_sound (due_root (entry_key entry).namespace) root rooted;
        at = due_path_is-ok (due_entry_path (entry_key entry)) at;
        key =
            validate_timer_record-key (prepared_record entry) (entry_key entry) valid'
            ∙ with_defaults-with_defaults (key_from_proto entry.key);
        valid = valid';
        status = status;
        fire_at = fire_at;
        again = tests-validate_due_entry (due_root (entry_key entry).namespace) path entry there (
            swap
              (text_eq (due_root (entry_key entry).namespace)
                (due_root (entry_key entry).namespace))
              (text_eq_refl (due_root (entry_key entry).namespace)));
        workflow = run;
      }

  module _ {root path : Text} {entry : DueTimerEntry} (checked : Checked root path entry) where
    -- The ledger entry of the key is this entry.
    pub due_on-Checked :
        (o : Objects e) {d : Data}
        → o path ≡ some d
        → unmarshal due_timer_entry d ≡ ok entry
        → due_on (entry_key entry) o ≡ ok (some entry)
    unfolding decode_due_entry
    due_on-Checked o {d} there read = rw (
      checked.at,
      and_then,
      there,
      optional,
      read,
      or_corrupt,
      or_default-or_default (key_from_proto {k = timer} entry.key).namespace,
      checked.again,
      key_eq_refl (entry_key entry),
    )

    pub timer_on-Checked :
        (o : Objects e) {d : Data}
        → o path ≡ some d
        → unmarshal due_timer_entry d ≡ ok entry
        → timer_on (entry_key entry) o ≡ ok (shown (prepared_record entry))
    timer_on-Checked o there read = rw (due_on-Checked o there read, and_then)
