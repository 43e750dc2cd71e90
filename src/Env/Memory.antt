-- ===== src/Env/Memory.antt =====
-- An environment without faults: a bucket in memory whose objects are the messages themselves, and a
-- stopped clock. It shows that the documented behaviour can be met, and serves the tests.
use native.Mathlib.Decide.{ℕ_discrete}
use temporaless.Prelude.{
  List, ◌∷◌, ◌==◌, if◌then◌else◌, ℕ, ◌≡◌, refl, subst, ltb, lt→ltb, ltb→lt, ◌↔◌, inl, inr, Bool,
  true, false, Option, none, some, [], Text, arith, is_some, Option-cases,
}
use temporaless.Action.{Result, ok, err, not_found, plain}
use temporaless.Key.{slash}
use temporaless.Key.Slash.{NoSlash}
use temporaless.Message.{
  ℤ, Message, Body, WorkflowRecord, ActivityRecord, TimerRecord, EventRecord, DueTimerEntry,
  LatestWorkflowRunPointer, workflow_record, activity_record, timer_record, event_record,
  due_timer_entry, latest_workflow_run_pointer,
}
use temporaless.Env.{Env, Lawful, Finds, with_object, year_10000}

pub data Blob : Type 0 where
  workflow : WorkflowRecord → Blob
  activity : ActivityRecord → Blob
  timer : TimerRecord → Blob
  event : EventRecord → Blob
  due : DueTimerEntry → Blob
  latest : LatestWorkflowRunPointer → Blob

abbrev pub Bucket : Type 0
Bucket = Text → Option Blob

abbrev pub blob : (m : Message) → Body m → Blob
blob workflow_record r = workflow r
blob activity_record r = activity r
blob timer_record r = timer r
blob event_record r = event r
blob due_timer_entry r = due r
blob latest_workflow_run_pointer r = latest r

abbrev pub unblob : (m : Message) → Blob → Result (Body m)
unblob workflow_record (workflow r) = ok r
unblob activity_record (activity r) = ok r
unblob timer_record (timer r) = ok r
unblob event_record (event r) = ok r
unblob due_timer_entry (due r) = ok r
unblob latest_workflow_run_pointer (latest r) = ok r
unblob _ _ = err plain

unblob-blob : (m : Message) (b : Body m) → unblob m (blob m b) ≡ ok b
unblob-blob workflow_record b = refl
unblob-blob activity_record b = refl
unblob-blob timer_record b = refl
unblob-blob event_record b = refl
unblob-blob due_timer_entry b = refl
unblob-blob latest_workflow_run_pointer b = refl

ok-injective : {a b : Blob} → ◌≡◌ {A = Result Blob} (ok a) (ok b) → a ≡ b
ok-injective h = cc

pub TimerRecord-discrete : Discrete TimerRecord
TimerRecord-discrete = hlevel ℕ_discrete

abbrev pub same_timer : TimerRecord → TimerRecord → Bool
same_timer a b = elim (TimerRecord-discrete a b) [ yes _ ↦ true | no _ ↦ false ]

same_timer_iff : (a b : TimerRecord) → (same_timer a b ≡ true) ↔ (a ≡ b)
same_timer_iff a b = ground arith

abbrev pub magnitude : ℤ → ℕ
magnitude (ℤ.pos n) = n
magnitude (ℤ.negsuc n) = n

abbrev pub read_blob : Option Blob → Result Blob
read_blob none = err not_found
read_blob (some b) = ok b

abbrev pub delete_blob : Text → Bucket → Result (Unit {0}) × Bucket
delete_blob p s = elim (s p) [
  | none ↦ (err not_found, with_object s p none)
  | some b ↦ (ok tt, with_object s p none)
]

-- A name of a path without its slashes.
abbrev pub dashes : Text → Text
dashes [] = []
dashes (c ∷ cs) = (if c == slash then b'-' else c) ∷ dashes cs

dashes-NoSlash : (p : Text) → NoSlash (dashes p)
dashes-NoSlash [] = tt
dashes-NoSlash (c ∷ cs) = (λ same. ground arith, dashes-NoSlash cs)

-- The bucket with the given listings.
abbrev pub memory_with : (Text → List Text) → Env
memory_with children = record {
  World = Bucket;
  Data = Blob;
  objects = λ s. s;
  is_exist = λ p s. (ok (is_some (s p)), s);
  read = λ p s. (read_blob (s p), s);
  write = λ p d s. (ok tt, with_object s p (some d));
  create_dir = λ p s. (ok tt, s);
  delete = delete_blob;
  list = λ p s. (ok (children p, none), s);
  ctx_err = λ s. (ok tt, s);
  now = λ s. (0, s);
  marshal = λ m b. ok (blob m b);
  unmarshal = unblob;
  equal_timer = same_timer;
  check_valid = λ t. ltb (magnitude t.nanos) year_10000;
  as_time = λ t. magnitude t.nanos;
  new_timestamp = λ t. record { seconds = ℤ.pos 0; nanos = ℤ.pos t };
  digest = dashes;
}

pub memory_with-Lawful : (children : Text → List Text) → Lawful (memory_with children)
memory_with-Lawful children = record {
  is_exist_quiet = λ p s. refl;
  read_quiet = λ p s. refl;
  create_dir_quiet = λ p s. refl;
  list_quiet = λ p s. refl;
  ctx_err_quiet = λ s. refl;
  now_quiet = λ s. refl;
  is_exist_result = λ p s. inl refl;
  read_result = λ p s. elim (Option-cases (s p)) [
    | inl absent ↦ inr (not_found, rw absent, refl)
    | inr (d, there) ↦ inl (d, there, rw there)
  ];
  create_dir_result = λ p s. inl refl;
  ctx_err_result = λ s. inl refl;
  list_result = λ p s. inl ((children p, none), refl);
  write_result = λ p d s. inl (refl, refl);
  delete_result = λ p s. elim (Option-cases (s p)) [
    | inl absent ↦ inr ((not_found, rw (absent, delete_blob), refl), inr (rw (absent, delete_blob)))
    | inr (d, there) ↦ inl (rw (there, delete_blob), rw (there, delete_blob))
  ];
  delete_not_found = λ p s h. elim (Option-cases (s p)) [
    | inl absent ↦ rw (absent, delete_blob)
    | inr (d, there) ↦ rw (there, delete_blob)
  ];
  unmarshal-marshal = λ m b d h. subst (λ x. unblob m x ≡ ok b) (ok-injective h) (unblob-blob m b);
  equal_timer_iff = same_timer_iff;
  as_time-new_timestamp = λ t. refl;
  check_valid-new_timestamp = λ t h. lt→ltb t year_10000 h;
  as_time-lt-year_10000 = λ t h. ltb→lt (magnitude t.nanos) year_10000 h;
  now-lt-year_10000 = λ s. omega arith;
  digest_hex = dashes-NoSlash;
}

instance abbrev pub memory : Env
memory = memory_with (λ p. [])

pub memory-Lawful : Lawful memory
memory-Lawful = memory_with-Lawful (λ p. [])

pub memory-Finds : Finds memory
memory-Finds = record {
  read_not_found = λ p s h. elim (Option-cases (s p)) [
    | inl absent ↦ absent
    | inr (d, there) ↦ (let h' = rw there at h in cc)
  ];
  is_exist_found = λ p s h. cc;
  ctx_err_found = λ s h. cc;
}
