-- ===== src/OpenDal/Ledger.antt =====
-- What `putDueEntry` writes, and how `getDueEntry` reads it back.
use temporaless.Prelude.{
  ◌≡◌, refl, ap, Bool, true, false, Option, none, some, Text, text_eq_refl, arith,
}
use temporaless.Action.{Error, plain, Result, ok, err, require}
use temporaless.Key.{
  Kind, TimerKey, RecordKey, WorkflowKey, timer, key_from_proto, with_defaults,
  workflow_key_with_defaults, run_of, validate_key, validate_workflow_key, valid_key,
  valid_workflow_key, same_workflow_run, due_root, due_entry_path, key_eq, workflow_key_eq,
}
use temporaless.Key.Located.{or_default-or_default, due_entry_path_lem}
use temporaless.Message.{TimerRecord, Timestamp, due_timer_entry}
use temporaless.Env.{Env, Lawful, with_object}
use temporaless.Env.Ensures.{
  Objects, Ensures, ensures-reads, ensures-bind, ensures-write, ensures-result, Reads-lift,
  Reads-create_dir, Reads-ctx_err,
}
use temporaless.Validate.{is_ok, validate_timer_record, valid_if_present}
use temporaless.OpenDal.Due.{
  due_path_is, due_status, matching_fire_at, validate_due_entry, decode_due_entry, due_entry,
  parent_dir, put_due_entry,
}

pub with_defaults-with_defaults :
    {k : Kind} (key : RecordKey k) → with_defaults (with_defaults key) ≡ with_defaults key
with_defaults-with_defaults key = rw (or_default-or_default key.namespace)

pub require-true : (b : Bool) (x : Error) {u : Unit} → require b x ≡ ok u → b ≡ true
require-true true x h = refl
require-true false x h = cc

valid_key-run_of :
    (key : TimerKey) → valid_key timer key ≡ true → valid_workflow_key (run_of key) ≡ true
unfolding valid_key valid_workflow_key
valid_key-run_of key h = ground arith

workflow_key_eq_refl : (key : WorkflowKey) → workflow_key_eq key key ≡ true
unfolding workflow_key_eq
workflow_key_eq_refl key =
    ground
      (arith, text_eq_refl key.namespace, text_eq_refl key.workflow_id, text_eq_refl key.run_id)

pub key_eq_refl : (key : TimerKey) → key_eq key key ≡ true
unfolding key_eq
key_eq_refl key = ground (
  arith,
  text_eq_refl key.namespace,
  text_eq_refl key.workflow_id,
  text_eq_refl key.run_id,
  text_eq_refl key.id,
)

-- A key with its defaults filled in passes the checks that its path has passed.
is_ok-validate_key :
    (key : TimerKey) {path : Text}
    → due_entry_path key ≡ ok path
    → is_ok (validate_key timer key) ≡ true
unfolding validate_key
is_ok-validate_key key at = let (v, _) = due_entry_path_lem key at in rw v

is_ok-validate_run :
    (key : TimerKey) {path : Text}
    → due_entry_path key ≡ ok path
    → is_ok (validate_workflow_key (run_of key)) ≡ true
unfolding validate_workflow_key
is_ok-validate_run key at =
    let (v, _) = due_entry_path_lem key at in rw (valid_key-run_of (with_defaults key) v)

due_path_is-own :
    ⦃e : Env⦄ (key : TimerKey) {path : Text}
    → due_entry_path key ≡ ok path
    → due_path_is key path ≡ true
due_path_is-own key {path} at = rw (at, due_path_is) (text_eq_refl path)

pub same_workflow_run_refl : (key : WorkflowKey) → same_workflow_run key key ≡ true
unfolding same_workflow_run
same_workflow_run_refl key = workflow_key_eq_refl (workflow_key_with_defaults key)

module _ ⦃e : Env⦄ where
  open e use {marshal, unmarshal, check_valid, as_time}

  matching_refl : (t : Option Timestamp) → valid_if_present t ≡ true → matching_fire_at t t ≡ true
  matching_refl none h = refl
  matching_refl (some t) h = ground arith

  -- What a ledger entry has to meet, for a key with its defaults.
  pub record IsShadow (key : TimerKey) (r : TimerRecord) (path : Text) : Type 0 where
    pub defaulted : with_defaults key ≡ key
    pub at : due_entry_path key ≡ ok path
    pub valid : validate_timer_record (some r) key ≡ ok tt
    pub status : due_status r.status r.fire_at ≡ true
    pub fire_at : valid_if_present r.fire_at ≡ true

  module _ {key : TimerKey} {r : TimerRecord} {path : Text} (shadow : IsShadow key r path) where
    validate-due_entry :
        validate_due_entry (due_root key.namespace) path (due_entry key r) key (run_of key) ≡ true
    unfolding validate_due_entry
    validate-due_entry = ground (
      arith,
      is_ok-validate_key key shadow.at,
      is_ok-validate_run key shadow.at,
      workflow_key_eq_refl (workflow_key_with_defaults (run_of key)),
      same_workflow_run_refl (run_of key),
      text_eq_refl (due_root key.namespace),
      shadow.valid,
      shadow.status,
      matching_refl r.fire_at shadow.fire_at,
      due_path_is-own key shadow.at,
    )

    -- The entry that is written decodes to itself.
    pub decode-due_entry :
        (laws : Lawful e) {d : e.Data}
        → marshal due_timer_entry (due_entry key r) ≡ ok d
        → decode_due_entry key path d ≡ ok (due_entry key r)
    unfolding decode_due_entry validate_due_entry
    decode-due_entry laws {d} written = rw (
      laws.unmarshal-marshal due_timer_entry (due_entry key r) d written,
      or_default-or_default key.namespace,
      ap (λ (k : TimerKey). k.namespace) shadow.defaulted,
      validate-due_entry,
      key_eq_refl key,
    )

  -- `putDueEntry` fails with the objects as they were or with the entry written, or succeeds with
  -- the entry written. What it writes is a shadow that decodes.
  pub ensures-put_due_entry :
      (laws : Lawful e) (r : TimerRecord) {o : Objects e} {P : Result Text → Objects e → Type 0}
      → ((x : Error) → P (err x) o)
      → ((p : Text) (d : e.Data)
          → IsShadow (with_defaults (key_from_proto r.key)) r p
          → marshal due_timer_entry (due_entry (with_defaults (key_from_proto r.key)) r) ≡ ok d
          → P (ok p) (with_object o p (some d))
            × ((x : Error) → P (err x) (with_object o p (some d))))
      → Ensures o (put_due_entry r) P
  unfolding put_due_entry
  ensures-put_due_entry laws r {o} {P} failed written =
      let key = with_defaults (key_from_proto r.key) in
      ensures-reads (Reads-lift (validate_timer_record (some r) key)) failed λ _ valid.
        ensures-reads (Reads-lift (require (due_status r.status r.fire_at) plain)) failed
          λ _ status.
            ensures-reads (Reads-lift (require (valid_if_present r.fire_at) plain)) failed
              λ _ fire_at. ensures-reads (Reads-lift (due_entry_path key)) failed λ p at.
                ensures-reads (Reads-lift (marshal due_timer_entry (due_entry key r))) failed
                  λ d made. ensures-reads (Reads-create_dir laws (parent_dir p)) failed λ _ _.
                    ensures-reads (Reads-ctx_err laws) failed λ _ _.
                      let shadow : IsShadow key r p = record {
                        defaulted = with_defaults-with_defaults (key_from_proto r.key);
                        at = at;
                        valid = valid;
                        status = require-true _ _ status;
                        fire_at = require-true _ _ fire_at;
                      } in
                      let (done_well, torn) = written p d shadow made in
                      ensures-bind
                        (ensures-write laws p d (ensures-result (ok p) done_well) failed torn)
