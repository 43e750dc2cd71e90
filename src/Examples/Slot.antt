-- ===== src/Examples/Slot.antt =====
-- A store with a place for one timer, of one run, and a stopped clock.
use temporaless.Prelude.{
  ◌≡◌, refl, sym, ap, ◌∙◌, subst, Bool, true, false, not, Option, none, some, codes, if◌then◌else◌,
  Bool-cases, ◌⊎◌, inl, inr, is_some,
}
use temporaless.Action.{Error, Result, ok, err, plain, Action, fail}
use temporaless.Key.{TimerKey, new_key, timer, key_eq, with_defaults}
use temporaless.Message.{ℤ, TimerRecord}
use temporaless.Store.{Part, activities, timers, events, RecordOf, KeyOf, key_of, Store}
use temporaless.Cache.Laws.{View, StoreLaws, other_record}
use temporaless.Runtime.Errors.{wraps, is_timer_pending}
use temporaless.Runtime.TimerDetails.{Calendar}
use temporaless.Runtime.Waits.{Workflow, get_timer_authoritative}
use temporaless.Runtime.Laws.{WaitLaws, StoreErrors}
use temporaless.Env.Memory.{magnitude}
use temporaless.Examples.Shelf.{key_eq_sound, not-true}

abbrev pub slot_key : TimerKey
slot_key = new_key timer (codes "wf") (codes "run-1") (codes "nap")

abbrev pub of_slot : TimerKey → Bool
of_slot key = key_eq slot_key (with_defaults key)

-- The timer that is kept is of the slot.
abbrev pub Slot : Type 0
Slot = Option ((r : TimerRecord) × (of_slot (key_of timers (some r)) ≡ true))

abbrev pub kept_timer : Slot → Option TimerRecord
kept_timer none = none
kept_timer (some (r, _)) = some r

abbrev slot_view : (p : Part) → KeyOf p → Slot → Option (RecordOf p)
slot_view activities key w = none
slot_view events key w = none
slot_view timers key w = if of_slot key then kept_timer w else none

abbrev put_if :
    (r : TimerRecord)
    → (of_slot (key_of timers (some r)) ≡ true) ⊎ (of_slot (key_of timers (some r)) ≡ false)
    → Action Slot Unit
put_if r (inl own) w = (ok tt, some (r, own))
put_if r (inr other) w = (err plain, w)

abbrev slot_put : (p : Part) → Option (RecordOf p) → Action Slot Unit
slot_put timers (some r) w = put_if r (Bool-cases (of_slot (key_of timers (some r)))) w
slot_put timers none w = (err plain, w)
slot_put activities r w = (err plain, w)
slot_put events r w = (err plain, w)

abbrev slot_delete : (p : Part) → KeyOf p → Action Slot Bool
slot_delete timers key w = (ok (of_slot key), if of_slot key then none else w)
slot_delete activities key w = (ok false, w)
slot_delete events key w = (ok false, w)

abbrev pub slot : Store Slot
slot = record {
  get = λ p key w. (ok (slot_view p key w, is_some (slot_view p key w)), w);
  put = slot_put;
  list = λ p run status. fail plain;
  delete = slot_delete;
  get_workflow = λ key. fail plain;
  put_workflow = λ r. fail plain;
  get_latest_workflow_run = λ namespace workflow_id. fail plain;
  delete_workflow = λ key. fail plain;
  due_timers = λ namespace now. fail plain;
}

instance abbrev pub nanos_calendar : Calendar
nanos_calendar = record {
  check_valid = λ t. true;
  as_time = λ t. magnitude t.nanos;
  new_timestamp = λ t. record { seconds = ℤ.pos 0; nanos = ℤ.pos t };
  duration_valid = λ d. true;
  as_duration = λ d. d.seconds;
  new_duration = λ d. record { seconds = d; nanos = ℤ.pos 0 };
}

abbrev pub slot_run : Workflow Slot
slot_run = record {
  store = slot;
  refresh_timer = none;
  now = λ w. (7, w);
  workflow_id = codes "wf";
  run_id = codes "run-1";
}

abbrev view_of : Slot → View
view_of w p key = ok (slot_view p key w)

elsewhere :
    (key k : TimerKey)
    → not (key_eq (with_defaults key) (with_defaults k)) ≡ true
    → of_slot key ≡ true
    → of_slot k ≡ false
elsewhere key k other own =
    let same : slot_key ≡ with_defaults key = key_eq_sound slot_key (with_defaults key) own in
    not-true (of_slot k) (subst (λ x. not (key_eq x (with_defaults k)) ≡ true) (sym same) other)

put_if_view :
    (r : TimerRecord) (w : Slot)
    (d : (of_slot (key_of timers (some r)) ≡ true) ⊎ (of_slot (key_of timers (some r)) ≡ false))
    {u : Unit}
    → (put_if r d w).0 ≡ ok u
    → view_of (put_if r d w).1 timers (key_of timers (some r)) ≡ ok (some r)
put_if_view r w (inl own) h = rw own refl
put_if_view r w (inr other) h = cc

slot_put_view :
    (p : Part) (r : Option (RecordOf p)) (w : Slot) {u : Unit}
    → (slot_put p r w).0 ≡ ok u
    → view_of (slot_put p r w).1 p (key_of p r) ≡ ok r
slot_put_view timers (some r) w h =
    put_if_view r w (Bool-cases (of_slot (key_of timers (some r)))) h
slot_put_view timers none w h = cc
slot_put_view activities r w h = cc
slot_put_view events r w h = cc

put_if_others :
    (r : TimerRecord) (w : Slot)
    (d : (of_slot (key_of timers (some r)) ≡ true) ⊎ (of_slot (key_of timers (some r)) ≡ false))
    (k : TimerKey)
    → other_record timers (key_of timers (some r)) timers k ≡ true
    → view_of (put_if r d w).1 timers k ≡ view_of w timers k
put_if_others r w (inl own) k h = rw (elsewhere (key_of timers (some r)) k h own) refl
put_if_others r w (inr other) k h = refl

slot_put_others :
    (p : Part) (r : Option (RecordOf p)) (w : Slot) (q : Part) (k : KeyOf q)
    → other_record p (key_of p r) q k ≡ true
    → view_of (slot_put p r w).1 q k ≡ view_of w q k
slot_put_others timers (some r) w timers k h =
    put_if_others r w (Bool-cases (of_slot (key_of timers (some r)))) k h
slot_put_others timers (some r) w activities k h = refl
slot_put_others timers (some r) w events k h = refl
slot_put_others timers none w q k h = refl
slot_put_others activities r w q k h = refl
slot_put_others events r w q k h = refl

slot_delete_view :
    (p : Part) (key : KeyOf p) (w : Slot) → view_of (slot_delete p key w).1 p key ≡ ok none
slot_delete_view timers key w = elim (Bool-cases (of_slot key)) [
  | inl own ↦ rw own refl
  | inr other ↦ rw other refl
]
slot_delete_view activities key w = refl
slot_delete_view events key w = refl

slot_delete_others :
    (p : Part) (key : KeyOf p) (w : Slot) (q : Part) (k : KeyOf q)
    → other_record p key q k ≡ true
    → view_of (slot_delete p key w).1 q k ≡ view_of w q k
slot_delete_others timers key w timers k h = elim (Bool-cases (of_slot key)) [
  | inl own ↦ rw (elsewhere key k h own) refl
  | inr other ↦ rw other refl
]
slot_delete_others timers key w activities k h = refl
slot_delete_others timers key w events k h = refl
slot_delete_others activities key w q k h = refl
slot_delete_others events key w q k h = refl

abbrev slot_laws : StoreLaws slot
slot_laws = record {
  view = view_of;
  get_view = λ p key w got flag. cc;
  get_quiet = λ p key w q k. refl;
  put_view = λ p r w done visible. slot_put_view p r w done;
  put_others = slot_put_others;
  delete_view = λ p key w done. slot_delete_view p key w;
  delete_others = slot_delete_others;
  list_quiet = λ p run status w q k. refl;
  list_listed = λ p run status w rs kept wrong. cc;
  list_unlisted = λ p run status w rs id kept wrong. cc;
}

own_if :
    (b : Bool) (w : Slot) {r : TimerRecord} {found : Bool} {other : Bool}
    → ◌≡◌ {A = Result (Option TimerRecord × Bool)}
        (ok ((if b then kept_timer w else none), other))
        (ok (some r, found))
    → (b ≡ true) × (of_slot (key_of timers (some r)) ≡ true)
own_if true (some (r', own)) {r} h =
    let same : r' ≡ r = cc in (refl, subst (λ x. of_slot (key_of timers (some x)) ≡ true) same own)
own_if true none h = cc
own_if false w h = cc

slot_get_own :
    (key : TimerKey) (w : Slot) {r : TimerRecord} {found : Bool}
    → (slot.get timers key w).0 ≡ ok (some r, found)
    → with_defaults (key_of timers (some r)) ≡ with_defaults key
slot_get_own key w {r} h =
    let (asked, own) = own_if (of_slot key) w h in
    sym (key_eq_sound slot_key (with_defaults (key_of timers (some r))) own)
    ∙ key_eq_sound slot_key (with_defaults key) asked

slot_authoritative :
    (key : TimerKey) (w : Slot) {r : TimerRecord}
    → (get_timer_authoritative slot_run key w).0 ≡ ok (some r, true)
    → view_of (get_timer_authoritative slot_run key w).1 timers key ≡ ok (some r)
unfolding get_timer_authoritative
slot_authoritative key w h = cc

put_if-error :
    (r : TimerRecord) (w : Slot)
    (d : (of_slot (key_of timers (some r)) ≡ true) ⊎ (of_slot (key_of timers (some r)) ≡ false))
    (x : Error)
    → (put_if r d w).0 ≡ err x
    → wraps is_timer_pending x ≡ false
put_if-error r w (inl own) x h = cc
put_if-error r w (inr other) x h =
    let same : plain ≡ x = cc in ap (wraps is_timer_pending) (sym same)

slot-put_error :
    (r : Option TimerRecord) (w : Slot) (x : Error)
    → (slot.put timers r w).0 ≡ err x
    → wraps is_timer_pending x ≡ false
slot-put_error (some r) w x h = put_if-error r w (Bool-cases (of_slot (key_of timers (some r)))) x h
slot-put_error none w x h = let same : plain ≡ x = cc in ap (wraps is_timer_pending) (sym same)

slot-authoritative_error :
    (key : TimerKey) (w : Slot) (x : Error)
    → (get_timer_authoritative slot_run key w).0 ≡ err x
    → wraps is_timer_pending x ≡ false
unfolding get_timer_authoritative
slot-authoritative_error key w x h = cc

pub slot-StoreErrors : StoreErrors slot_run
slot-StoreErrors = record {
  get_error = λ key w x h. cc;
  put_error = slot-put_error;
  authoritative_error = slot-authoritative_error;
}

pub slot-WaitLaws : WaitLaws slot_run
slot-WaitLaws = record {
  laws = slot_laws;
  now_quiet = λ w q k. refl;
  get_own = slot_get_own;
  view_defaults =
      λ w k k' same. ap (λ x. ok (if key_eq slot_key x then kept_timer w else none)) same;
  authoritative_view = slot_authoritative;
  as_time-new_timestamp = λ t. refl;
}
