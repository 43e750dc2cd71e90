-- ===== src/OpenDal/Timers/Keys.antt =====
-- Timers and the default namespace, and the keys of the records that the reads return.
use temporaless.Prelude.{
  sym, ◌∙◌, ◌≡◌, refl, ◌∙◌, ap, subst, Bool, true, false, Option, none, some, [], ◌∷◌, Text, arith,
  text_eq_sound,
}
use temporaless.Action.{and_then-ok, Result, ok, err, and_then}
use temporaless.Key.{
  WorkflowKey, TimerKey, timer, key_from_proto, with_defaults, record_path, due_entry_path, key_eq,
}
use temporaless.Message.{TimerRecord, DueTimerEntry, due_timer_entry, timer_record}
use temporaless.Env.{Env}
use temporaless.Env.Ensures.{Objects}
use temporaless.Validate.{is_ok, validate_timer_record, key_matches, check}
use temporaless.OpenDal.Due.{prepared_record, decode_due_entry, validate_due_entry}
use temporaless.OpenDal.Point.{decode, or_corrupt}
use temporaless.OpenDal.Timers.Frame.{Owns, entry, point}
use temporaless.OpenDal.Ledger.{with_defaults-with_defaults}
use temporaless.OpenDal.View.{due_on, timer_point_on, timer_on, optional}
use temporaless.OpenDal.Timers.Put.{timer_key}

pub key_eq_sound : (a b : TimerKey) → key_eq a b ≡ true → a ≡ b
unfolding key_eq
key_eq_sound a b h = ground (
  arith,
  text_eq_sound a.namespace b.namespace,
  text_eq_sound a.workflow_id b.workflow_id,
  text_eq_sound a.run_id b.run_id,
  text_eq_sound a.id b.id,
)

-- A record that passes is a record of the key that was asked for.
pub validate_timer_record-key :
    (r : TimerRecord) (key : TimerKey) {u : Unit}
    → validate_timer_record (some r) key ≡ ok u
    → timer_key r ≡ with_defaults key
unfolding validate_timer_record key_matches
validate_timer_record-key r key h = key_eq_sound (timer_key r) (with_defaults key) (ground arith)

some-injective' :
    {A : Type 0} {a b : A} → ◌≡◌ {A = Result (Option A)} (ok (some a)) (ok (some b)) → a ≡ b
some-injective' h = cc

is_ok-ok : (m : Result (Unit {0})) → is_ok m ≡ true → m ≡ ok tt
is_ok-ok (ok tt) h = refl
is_ok-ok (err x) h = cc

record_path-namespace :
    (n w r i : Text)
    → record_path timer
        (with_defaults (record { namespace = n; workflow_id = w; run_id = r; id = i }))
      ≡ record_path timer (record { namespace = n; workflow_id = w; run_id = r; id = i })
unfolding record_path
record_path-namespace [] w r i = refl
record_path-namespace (c ∷ cs) w r i = refl

due_entry_path-namespace :
    (n w r i : Text)
    → due_entry_path (with_defaults (record { namespace = n; workflow_id = w; run_id = r; id = i }))
      ≡ due_entry_path (record { namespace = n; workflow_id = w; run_id = r; id = i })
unfolding due_entry_path
due_entry_path-namespace [] w r i = refl
due_entry_path-namespace (c ∷ cs) w r i = refl

pub due_entry_path-with_defaults :
    (key : TimerKey) → due_entry_path (with_defaults key) ≡ due_entry_path key
due_entry_path-with_defaults key =
    due_entry_path-namespace key.namespace key.workflow_id key.run_id key.id

module _ ⦃e : Env⦄ where
  open e use {Data, marshal, unmarshal}

  timer_on-namespace :
      (n w r i : Text) (o : Objects e)
      → timer_on (with_defaults (record { namespace = n; workflow_id = w; run_id = r; id = i })) o
        ≡ timer_on (record { namespace = n; workflow_id = w; run_id = r; id = i }) o
  unfolding due_entry_path decode_due_entry record_path validate_timer_record key_matches
  timer_on-namespace [] w r i o = refl
  timer_on-namespace (c ∷ cs) w r i o = refl

  -- An empty namespace and the default one name the same timer.
  pub timer_on-with_defaults :
      (key : TimerKey) (o : Objects e) → timer_on (with_defaults key) o ≡ timer_on key o
  timer_on-with_defaults key o =
      timer_on-namespace key.namespace key.workflow_id key.run_id key.id o

  prepared-valid :
      (root path : Text) (x : DueTimerEntry) (key : TimerKey) (run : WorkflowKey)
      → validate_due_entry root path x key run ≡ true
      → is_ok (validate_timer_record (some (prepared_record x)) key) ≡ true
  unfolding validate_due_entry
  prepared-valid root path x key run h = ground arith

  checks_inversion :
      {A : Type 0} (a b : Bool) (x y : A)
      → and_then (check a) (λ _. and_then (check b) (λ _. ok x)) ≡ ok y
      → (a ≡ true) × (b ≡ true) × (x ≡ y)
  checks_inversion true true x y h = (refl, refl, cc)
  checks_inversion true false x y h = cc
  checks_inversion false b x y h = cc

  decoded-key :
      (key : TimerKey) (path : Text) (d : Data) {x : DueTimerEntry}
      → decode_due_entry key path d ≡ ok x
      → timer_key (prepared_record x) ≡ with_defaults key
  unfolding decode_due_entry
  decoded-key key path d {x} h =
      let (x', got, h1) = and_then-ok (or_corrupt (unmarshal due_timer_entry d)) _ h in
      let (valid, same, out) = checks_inversion _ _ x' x h1 in
      let tk : TimerKey = with_defaults (key_from_proto x'.key) in
      let checked =
        validate_timer_record-key (prepared_record x') tk
          (is_ok-ok _ (prepared-valid _ path x' tk _ valid)) in
      subst (λ y. timer_key (prepared_record y) ≡ with_defaults key) out
        (checked
          ∙ with_defaults-with_defaults (key_from_proto x'.key)
          ∙ key_eq_sound tk (with_defaults key) same)

  optional-key :
      (key : TimerKey) (path : Text) (d : Option Data) {x : DueTimerEntry}
      → optional (decode_due_entry key path) d ≡ ok (some x)
      → timer_key (prepared_record x) ≡ with_defaults key
  optional-key key path none h = cc
  optional-key key path (some d) {x} h =
      let (y, decoded, same) = and_then-ok (decode_due_entry key path d) _ h in
      decoded-key key path d (decoded ∙ ap ok (some-injective' same))

  optional-point :
      (key : TimerKey) (d : Option Data) {r : TimerRecord}
      → optional (decode timer_record (λ b. validate_timer_record (some b) key)) d ≡ ok (some r)
      → timer_key r ≡ with_defaults key
  unfolding decode
  optional-point key none h = cc
  optional-point key (some d) {r} h = validate_timer_record-key r key {u = tt} (ground arith)

  -- The entry of a key holds a record of that key.
  pub due_on-key :
      (key : TimerKey) (o : Objects e) {x : DueTimerEntry}
      → due_on key o ≡ ok (some x)
      → timer_key (prepared_record x) ≡ with_defaults key
  due_on-key key o h =
      let (path, at, found) = and_then-ok (due_entry_path key) _ h in
      optional-key key path (o path) found

  pub point_on-key :
      (key : TimerKey) (o : Objects e) {r : TimerRecord}
      → timer_point_on key o ≡ ok (some r)
      → timer_key r ≡ with_defaults key
  point_on-key key o h =
      let (path, at, found) = and_then-ok (record_path timer key) _ h in
      optional-point key (o path) found

pub record_path-with_defaults :
    (key : TimerKey) → record_path timer (with_defaults key) ≡ record_path timer key
record_path-with_defaults key =
    record_path-namespace key.namespace key.workflow_id key.run_id key.id

-- A key and the key with its defaults own the same objects.
pub Owns-with_defaults : (key : TimerKey) {p : Text} → Owns (with_defaults key) p → Owns key p
Owns-with_defaults key (entry at) = entry (sym (due_entry_path-with_defaults key) ∙ at)
Owns-with_defaults key (point at) = point (sym (record_path-with_defaults key) ∙ at)
