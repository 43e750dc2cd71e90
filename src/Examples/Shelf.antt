-- ===== src/Examples/Shelf.antt =====
-- A store with a place for one activity, of one run: it holds the activity or not.
use native.Mathlib.Decide.{ℕ_discrete}
use temporaless.Prelude.{
  ◌≡◌, refl, sym, ap, subst, Bool, true, false, not, ◌&&◌, Option, none, some, List, [], ◌∷◌, Text,
  text_eq, text_eq_sound, text_eq_refl, codes, if◌then◌else◌, Bool-cases, ◌⊎◌, inl, inr, map, All,
  arith, is_some,
}
use temporaless.Action.{Result, ok, err, plain, Action, fail}
use temporaless.Key.{
  WorkflowKey, Kind, or_default, workflow_key_eq, ActivityKey, new_workflow_key, new_key, RecordKey,
  activity, key_eq, with_defaults, same_workflow_run,
}
use temporaless.Message.{ActivityRecord, ActivityStatus, SchemaVersion, TimerStatus}
use temporaless.Store.{Part, activities, timers, events, RecordOf, KeyOf, key_of, Store}
use temporaless.Cache.Laws.{View, StoreLaws, other_record, key_in, unlisted}

abbrev pub shelf_run : WorkflowKey
shelf_run = new_workflow_key (codes "wf") (codes "run-1")

abbrev pub shelf_key : ActivityKey
shelf_key = new_key activity (codes "wf") (codes "run-1") (codes "a1")

abbrev pub shelf_record : ActivityRecord
shelf_record = record {
  schema_version = SchemaVersion.activity;
  key = some shelf_key;
  activity_type = codes "T";
  input = none;
  status = ActivityStatus.completed;
  result = none;
  failure = none;
  created_at = none;
  completed_at = none;
  attempts = [];
  annotations = [];
  next_attempt_at = none;
  retry_policy = none;
  retry_timer_id = [];
}

pub ActivityRecord-discrete : Discrete ActivityRecord
ActivityRecord-discrete = hlevel ℕ_discrete

abbrev same_activity : ActivityRecord → ActivityRecord → Bool
same_activity a b = elim (ActivityRecord-discrete a b) [ yes _ ↦ true | no _ ↦ false ]

same_activity_sound : (a b : ActivityRecord) → same_activity a b ≡ true → a ≡ b
same_activity_sound a b h = ground arith

abbrev is_shelf_record : Option ActivityRecord → Bool
is_shelf_record none = false
is_shelf_record (some r) = same_activity r shelf_record

abbrev on_shelf : ActivityKey → Bool
on_shelf key = key_eq shelf_key (with_defaults key)

abbrev held : Bool → (p : Part) → KeyOf p → Option (RecordOf p)
held w activities key = if on_shelf key && w then some shelf_record else none
held w timers key = none
held w events key = none

abbrev shelf_put : (p : Part) → Option (RecordOf p) → Action Bool Unit
shelf_put activities r w = if is_shelf_record r then (ok tt, true) else (err plain, w)
shelf_put timers r w = (err plain, w)
shelf_put events r w = (err plain, w)

abbrev shelf_delete : (p : Part) → KeyOf p → Action Bool Bool
shelf_delete activities key w = (ok (on_shelf key && w), not (on_shelf key) && w)
shelf_delete timers key w = (ok false, w)
shelf_delete events key w = (ok false, w)

abbrev shelf_list :
    (p : Part) → WorkflowKey → TimerStatus → Action Bool (List (Option (RecordOf p)))
shelf_list activities run status w =
    (ok (if same_workflow_run shelf_run run && w then some shelf_record ∷ [] else []), w)
shelf_list timers run status w = (ok [], w)
shelf_list events run status w = (ok [], w)

abbrev pub shelf : Store Bool
shelf = record {
  get = λ p key w. (ok (held w p key, is_some (held w p key)), w);
  put = shelf_put;
  list = shelf_list;
  delete = shelf_delete;
  get_workflow = λ key. fail plain;
  put_workflow = λ r. fail plain;
  get_latest_workflow_run = λ namespace workflow_id. fail plain;
  delete_workflow = λ key. fail plain;
  due_timers = λ namespace now. fail plain;
}

-- What readers find on the shelf.
abbrev shelf_view : Bool → View
shelf_view w p key = ok (held w p key)

on_shelf_own : on_shelf shelf_key ≡ true
unfolding key_eq text_eq
on_shelf_own = refl

stored :
    (r : ActivityRecord)
    → r ≡ shelf_record
    → held true activities (key_of activities (some r)) ≡ some r
stored r same =
    subst (λ x. held true activities (key_of activities (some x)) ≡ some x) (sym same)
      (rw on_shelf_own refl)

shelf_put_view :
    (p : Part) (r : Option (RecordOf p)) (w : Bool) {u : Unit}
    → (shelf_put p r w).0 ≡ ok u
    → shelf_view (shelf_put p r w).1 p (key_of p r) ≡ ok r
shelf_put_view activities none w h = cc
shelf_put_view activities (some r) w h = elim (Bool-cases (same_activity r shelf_record)) [
  | inl same ↦ rw same (ap ok (stored r (same_activity_sound r shelf_record same)))
  | inr other ↦ let wrong = rw other at h in cc
]
shelf_put_view timers r w h = cc
shelf_put_view events r w h = cc

pub key_eq_sound : {k : Kind} (a b : RecordKey k) → key_eq a b ≡ true → a ≡ b
unfolding key_eq
key_eq_sound a b h = ground (
  arith,
  text_eq_sound a.namespace b.namespace,
  text_eq_sound a.workflow_id b.workflow_id,
  text_eq_sound a.run_id b.run_id,
  text_eq_sound a.id b.id,
)

alone : (b : Bool) → (not b && true) ≡ true → b ≡ false
alone b h = ground arith

pub not-true : (b : Bool) → not b ≡ true → b ≡ false
not-true b h = ground arith

three : (a b c d : Bool) → (a && b && c) ≡ true → (a && b && c && d) ≡ d
three a b c d h = ground arith

three_false : (a b c d : Bool) → (a && b && c) ≡ false → (a && b && c && d) ≡ false
three_false a b c d h = ground arith

own_run :
    (run : WorkflowKey) (id : Text)
    → same_workflow_run shelf_run run ≡ true
    → on_shelf (key_in activities run id) ≡ text_eq shelf_key.id id
unfolding key_eq same_workflow_run workflow_key_eq
own_run run id h =
    three (text_eq shelf_run.namespace (or_default run.namespace))
      (text_eq shelf_run.workflow_id run.workflow_id) (text_eq shelf_run.run_id run.run_id)
      (text_eq shelf_key.id id) h

other_run :
    (run : WorkflowKey) (id : Text)
    → same_workflow_run shelf_run run ≡ false
    → on_shelf (key_in activities run id) ≡ false
unfolding key_eq same_workflow_run workflow_key_eq
other_run run id h =
    three_false (text_eq shelf_run.namespace (or_default run.namespace))
      (text_eq shelf_run.workflow_id run.workflow_id) (text_eq shelf_run.run_id run.run_id)
      (text_eq shelf_key.id id) h

-- Another record than the one that was written does not lie on the shelf, if that one does.
elsewhere :
    (key k : ActivityKey)
    → not (key_eq (with_defaults key) (with_defaults k)) ≡ true
    → on_shelf key ≡ true
    → on_shelf k ≡ false
elsewhere key k other own =
    let same : shelf_key ≡ with_defaults key = key_eq_sound shelf_key (with_defaults key) own in
    not-true (on_shelf k) (subst (λ x. not (key_eq x (with_defaults k)) ≡ true) (sym same) other)

put_others_shelf :
    (p : Part) (r : Option (RecordOf p)) (w : Bool) (q : Part) (k : KeyOf q)
    → other_record p (key_of p r) q k ≡ true
    → shelf_view (shelf_put p r w).1 q k ≡ shelf_view w q k
put_others_shelf activities none w q k h = refl
put_others_shelf activities (some r) w activities k h =
    elim (Bool-cases (same_activity r shelf_record)) [
      | inl same ↦ rw (
        same,
        elsewhere (key_of activities (some r)) k h
            (rw (same_activity_sound r shelf_record same, on_shelf_own)),
      )
      | inr other ↦ rw other
    ]
put_others_shelf activities (some r) w timers k h = refl
put_others_shelf activities (some r) w events k h = refl
put_others_shelf timers r w q k h = refl
put_others_shelf events r w q k h = refl

delete_view_shelf :
    (p : Part) (key : KeyOf p) (w : Bool) → shelf_view (shelf_delete p key w).1 p key ≡ ok none
delete_view_shelf activities key w = ground arith
delete_view_shelf timers key w = refl
delete_view_shelf events key w = refl

delete_others_shelf :
    (p : Part) (key : KeyOf p) (w : Bool) (q : Part) (k : KeyOf q)
    → other_record p key q k ≡ true
    → shelf_view (shelf_delete p key w).1 q k ≡ shelf_view w q k
delete_others_shelf activities key w activities k h = elim (Bool-cases (on_shelf key)) [
  | inl own ↦ rw (own, elsewhere key k h own)
  | inr other ↦ rw other
]
delete_others_shelf activities key w timers k h = refl
delete_others_shelf activities key w events k h = refl
delete_others_shelf timers key w q k h = refl
delete_others_shelf events key w q k h = refl

first_is :
    (a r : ActivityRecord) (rs : List ActivityRecord)
    → ◌≡◌ {A = Result (List (Option ActivityRecord))} (ok (some a ∷ [])) (ok (some r ∷ map some rs))
    → (r ≡ a) × (rs ≡ [])
first_is a r [] h = (cc, refl)
first_is a r (x ∷ rs) h = cc

empty_is :
    (rs : List ActivityRecord)
    → ◌≡◌ {A = Result (List (Option ActivityRecord))} (ok []) (ok (map some rs))
    → rs ≡ []
empty_is [] h = refl
empty_is (x ∷ rs) h = cc

-- What the listing of a run gives.
on_list :
    (b w : Bool) (rs : List ActivityRecord)
    → ◌≡◌ {A = Result (List (Option ActivityRecord))}
        (ok (if b && w then some shelf_record ∷ [] else []))
        (ok (map some rs))
    → ((rs ≡ shelf_record ∷ []) × (b ≡ true) × (w ≡ true)) ⊎ ((rs ≡ []) × ((b && w) ≡ false))
on_list false w rs h = inr (empty_is rs h, refl)
on_list true false rs h = inr (empty_is rs h, refl)
on_list true true [] h = cc
on_list true true (r ∷ rs) h =
    let (same, last) = first_is shelf_record r rs h in inl (cc, refl, refl)

list_listed_shelf :
    (p : Part) (run : WorkflowKey) (status : TimerStatus) (w : Bool) (rs : List (RecordOf p))
    → (shelf_list p run status w).0 ≡ ok (map some rs)
    → All (λ r. shelf_view w p (key_in p run (key_of p (some r)).id) ≡ ok (some r)) rs
list_listed_shelf timers run status w [] h = tt
list_listed_shelf timers run status w (r ∷ rs) h = cc
list_listed_shelf events run status w [] h = tt
list_listed_shelf events run status w (r ∷ rs) h = cc
list_listed_shelf activities run status w rs h =
    elim (on_list (same_workflow_run shelf_run run) w rs h) [
      | inl (one, own, there) ↦
          subst
            (All (λ r.
              shelf_view w activities (key_in activities run (key_of activities (some r)).id)
              ≡ ok (some r)))
            (sym one) (rw (own_run run shelf_key.id own, text_eq_refl shelf_key.id, there) refl, tt)
      | inr (none_listed, _) ↦
          subst
            (All (λ r.
              shelf_view w activities (key_in activities run (key_of activities (some r)).id)
              ≡ ok (some r)))
            (sym none_listed) tt
    ]

hidden :
    (run : WorkflowKey) (id : Text) (b w : Bool)
    → same_workflow_run shelf_run run ≡ b
    → (b && w) ≡ false
    → shelf_view w activities (key_in activities run id) ≡ ok none
hidden run id false w far h = rw (other_run run id far)
hidden run id true false far h = ground arith
hidden run id true true far h = cc

list_unlisted_shelf :
    (p : Part) (run : WorkflowKey) (status : TimerStatus) (w : Bool) (rs : List (RecordOf p))
    (id : Text)
    → (shelf_list p run status w).0 ≡ ok (map some rs)
    → unlisted p id rs ≡ true
    → shelf_view w p (key_in p run id) ≡ ok none
unfolding unlisted
list_unlisted_shelf timers run status w rs id h u = refl
list_unlisted_shelf events run status w rs id h u = refl
list_unlisted_shelf activities run status w rs id h u =
    elim (on_list (same_workflow_run shelf_run run) w rs h) [
      | inl (one, own, there) ↦
          let off : (not (text_eq shelf_key.id id) && true) ≡ true =
            subst (λ xs. unlisted activities id xs ≡ true) one u in
          rw (own_run run id own, alone (text_eq shelf_key.id id) off)
      | inr (_, nothing) ↦ hidden run id (same_workflow_run shelf_run run) w refl nothing
    ]

list_quiet_shelf :
    (p : Part) (run : WorkflowKey) (status : TimerStatus) (w : Bool) (q : Part) (k : KeyOf q)
    → shelf_view (shelf_list p run status w).1 q k ≡ shelf_view w q k
list_quiet_shelf activities run status w q k = refl
list_quiet_shelf timers run status w q k = refl
list_quiet_shelf events run status w q k = refl

pub shelf-StoreLaws : StoreLaws shelf
shelf-StoreLaws = record {
  view = shelf_view;
  get_view = λ p key w got flag. cc;
  get_quiet = λ p key w q k. refl;
  put_view = λ p r w done visible. shelf_put_view p r w done;
  put_others = put_others_shelf;
  delete_view = λ p key w done. delete_view_shelf p key w;
  delete_others = delete_others_shelf;
  list_quiet = list_quiet_shelf;
  list_listed = λ p run status w rs kept. list_listed_shelf p run status w rs;
  list_unlisted = λ p run status w rs id kept. list_unlisted_shelf p run status w rs id;
}
