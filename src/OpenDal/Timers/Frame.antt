-- ===== src/OpenDal/Timers/Frame.antt =====
-- The objects of a timer, its ledger entry and its canonical point, and changes of other objects.
use temporaless.Prelude.{
  ◌≡◌, ◌≢◌, refl, sym, ◌∙◌, ap, subst, fun_ext, Option, none, some, Text, text_eq, text_eq_ne,
  text_eq_refl, text_eq_sound, Bool-cases, inl, inr, arith,
}
use temporaless.Action.{Result, ok, err, and_then}
use temporaless.Key.{WorkflowKey, TimerKey, timer, with_defaults, record_path, due_entry_path}
use temporaless.Key.Distinct.{Address}
use temporaless.Key.Located.{Located, workflow_address, due_address, record_address, paths_distinct}
use temporaless.Message.{TimerRecord, DueTimerEntry, due_timer_entry, timer_record}
use temporaless.Validate.{validate_timer_record}
use temporaless.Env.{Env, Lawful, with_object}
use temporaless.Env.Ensures.{Objects}
use temporaless.OpenDal.Point.{decode}
use temporaless.OpenDal.Due.{decode_due_entry, due_entry}
use temporaless.OpenDal.View.{due_on, timer_on, timer_point_on, entry_or_point, optional}
use temporaless.OpenDal.Timers.{shown}
use temporaless.OpenDal.Ledger.{IsShadow, decode-due_entry}

pub with_object-ne {ℓ} :
    {D : Type ℓ} (o : Text → Option D) (p q : Text) (v : Option D)
    → p ≢ q
    → with_object o p v q ≡ o q
with_object-ne o p q v differ = rw (text_eq_ne p q differ)

pub with_object_self {ℓ} :
    {D : Type ℓ} (o : Text → Option D) (p : Text) (v : Option D) → with_object o p v p ≡ v
with_object_self o p v = rw (text_eq_refl p)

pub with_object-same {ℓ} :
    {D : Type ℓ} (o : Text → Option D) (p : Text) (v : Option D) → o p ≡ v → with_object o p v ≡ o
with_object-same o p v there = fun_ext λ q. elim (Bool-cases (text_eq p q)) [
  | inl same ↦ rw same (sym there ∙ ap o (text_eq_sound p q same))
  | inr other ↦ rw other
]

-- A lookup behind a path that may not be given is not touched by a write elsewhere.
and_then-frame :
    {D A : Type 0} (o : Text → Option D) (p : Text) (v : Option D) (path : Result Text)
    (f : Text → Option D → Result A)
    → ((q : Text) → path ≡ ok q → p ≢ q)
    → and_then path (λ q. f q (with_object o p v q)) ≡ and_then path (λ q. f q (o q))
and_then-frame o p v (ok q) f apart = ap (f q) (with_object-ne o p q v (apart q refl))
and_then-frame o p v (err x) f apart = refl

-- The path of the ledger entry or of the canonical point of a key.
pub data Owns (key : TimerKey) (p : Text) : Type 0 where
  entry : due_entry_path key ≡ ok p → Owns key p
  point : record_path timer key ≡ ok p → Owns key p

pub owner : {key : TimerKey} {p : Text} → Owns key p → Address
owner {key} (entry at) = due_address (with_defaults key)
owner {key} (point at) = record_address timer (with_defaults key)

pub owner-Located : {key : TimerKey} {p : Text} (own : Owns key p) → Located p (owner own)
unfolding owner
owner-Located {key} (entry at) = (key, refl, at)
owner-Located {key} (point at) = (key, refl, at)

pub owner-ne-workflow_address :
    {key : TimerKey} {p : Text} (own : Owns key p) (run : WorkflowKey)
    → workflow_address run ≢ owner own
unfolding owner
owner-ne-workflow_address (entry at) run same = cc
owner-ne-workflow_address (point at) run same = cc

-- Objects of timers with different keys are different objects.
owner-injective :
    {a b : TimerKey} {p q : Text} (x : Owns a p) (y : Owns b q)
    → owner x ≡ owner y
    → with_defaults a ≡ with_defaults b
unfolding owner
owner-injective (entry _) (entry _) same = ground arith
owner-injective (entry _) (point _) same = cc
owner-injective (point _) (entry _) same = cc
owner-injective (point _) (point _) same = ground arith

pub Owns-ne :
    {a b : TimerKey} {p q : Text} → Owns a p → Owns b q → with_defaults a ≢ with_defaults b → p ≢ q
Owns-ne {b} {p} {q} x y differ same = differ (
    owner-injective x y (
      paths_distinct p (owner x) (owner y) (owner-Located x)
        (subst (λ t. Located t (owner y)) (sym same) (owner-Located y))))

-- The two objects of one timer differ.
pub entry-ne-point :
    (key : TimerKey) {p q : Text} → due_entry_path key ≡ ok p → record_path timer key ≡ ok q → p ≢ q
entry-ne-point key {p} {q} at at' same =
    let clash : due_address (with_defaults key) ≡ record_address timer (with_defaults key) =
      paths_distinct p (due_address (with_defaults key)) (record_address timer (with_defaults key))
        (key, refl, at) (key, refl, at' ∙ ap ok (sym same)) in
    cc

module _ ⦃e : Env⦄ where
  open e use {Data, marshal}

  due_on-frame :
      (key : TimerKey) (o : Objects e) (p : Text) (v : Option Data)
      → ((q : Text) → due_entry_path key ≡ ok q → p ≢ q)
      → due_on key (with_object o p v) ≡ due_on key o
  due_on-frame key o p v apart =
      and_then-frame o p v (due_entry_path key) (λ q. optional (decode_due_entry key q)) apart

  timer_point_on-frame :
      (key : TimerKey) (o : Objects e) (p : Text) (v : Option Data)
      → ((q : Text) → record_path timer key ≡ ok q → p ≢ q)
      → timer_point_on key (with_object o p v) ≡ timer_point_on key o
  timer_point_on-frame key o p v apart =
      and_then-frame o p v (record_path timer key)
        (λ q. optional (decode timer_record (λ r. validate_timer_record (some r) key))) apart

  pub entry_or_point-same :
      (key : TimerKey) (o o' : Objects e)
      → timer_point_on key o ≡ timer_point_on key o'
      → (x : Option DueTimerEntry) → entry_or_point key o x ≡ entry_or_point key o' x
  entry_or_point-same key o o' same none = same
  entry_or_point-same key o o' same (some x) = refl

  -- A write outside the two objects of a timer does not change the timer.
  pub timer_on-frame :
      (key : TimerKey) (o : Objects e) (p : Text) (v : Option Data)
      → ((q : Text) → Owns key q → p ≢ q)
      → timer_on key (with_object o p v) ≡ timer_on key o
  timer_on-frame key o p v apart =
      let dues = due_on-frame key o p v (λ q at. apart q (entry at)) in
      let points = timer_point_on-frame key o p v (λ q at. apart q (point at)) in
      λ i. and_then (dues i) (fun_ext (entry_or_point-same key (with_object o p v) o points) i)

  -- An entry of the ledger decides what its timer is, whatever stands at the canonical point.
  pub timer_on-shadow :
      (laws : Lawful e) {key : TimerKey} {r : TimerRecord} {p : Text} {d : Data} (o : Objects e)
      → IsShadow key r p
      → marshal due_timer_entry (due_entry key r) ≡ ok d
      → o p ≡ some d
      → timer_on key o ≡ ok (shown r)
  timer_on-shadow laws o shadow made there =
      rw (shadow.at, and_then, there, optional, decode-due_entry shadow laws made)

  -- Writing one object of a timer leaves the timers of all other keys alone.
  pub timer_on-other :
      (key other : TimerKey) (o : Objects e) (p : Text) (v : Option Data)
      → Owns key p
      → with_defaults other ≢ with_defaults key
      → timer_on other (with_object o p v) ≡ timer_on other o
  timer_on-other key other o p v own differ =
      timer_on-frame other o p v (λ q theirs. Owns-ne own theirs (λ same. differ (sym same)))
