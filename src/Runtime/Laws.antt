-- ===== src/Runtime/Laws.antt =====
-- What the waits rely on: the laws of the store, a clock that changes no record, reads that give the
-- record that was asked for, and an authoritative read.
use temporaless.Prelude.{◌≡◌, Bool, true, false, Option, some, All}
pub use temporaless.Action.{ends-bind}
use temporaless.Action.{ok, err, Error}
use temporaless.Key.{TimerKey, with_defaults}
use temporaless.Message.{TimerRecord, Time}
use temporaless.Store.{timers, Part, KeyOf, key_of}
use temporaless.Cache.Laws.{StoreLaws}
use temporaless.Runtime.Errors.{wraps, is_timer_pending}
use temporaless.Runtime.TimerDetails.{Calendar}
use temporaless.Runtime.Waits.{Workflow, Consumed, timer_key_of, get_timer_authoritative}

module _ {W : Type 0} ⦃n : Calendar⦄ (workflow : Workflow W) where
  pub record WaitLaws : Type 0 where
    pub laws : StoreLaws workflow.store
    pub now_quiet :
        (w : W) (q : Part) (k : KeyOf q) → laws.view (workflow.now w).1 q k ≡ laws.view w q k
    -- a record that is read is the one of the key
    pub get_own :
        (key : TimerKey) (w : W) {r : TimerRecord} {found : Bool}
        → (workflow.store.get timers key w).0 ≡ ok (some r, found)
        → with_defaults (key_of timers (some r)) ≡ with_defaults key
    -- a key without a namespace is one with the default
    pub view_defaults :
        (w : W) (k k' : TimerKey)
        → with_defaults k ≡ with_defaults k'
        → laws.view w timers k ≡ laws.view w timers k'
    -- the flag of a read goes with the record
    pub authoritative_view :
        (key : TimerKey) (w : W) {r : TimerRecord}
        → (get_timer_authoritative workflow key w).0 ≡ ok (some r, true)
        → laws.view (get_timer_authoritative workflow key w).1 timers key ≡ ok (some r)
    pub as_time-new_timestamp : (t : Time) → n.as_time (n.new_timestamp t) ≡ t

  -- The errors of the store are errors of storage: none names a wait for a timer.
  pub record StoreErrors : Type 0 where
    pub get_error :
        (key : TimerKey) (w : W) (x : Error)
        → (workflow.store.get timers key w).0 ≡ err x
        → wraps is_timer_pending x ≡ false
    pub put_error :
        (r : Option TimerRecord) (w : W) (x : Error)
        → (workflow.store.put timers r w).0 ≡ err x
        → wraps is_timer_pending x ≡ false
    pub authoritative_error :
        (key : TimerKey) (w : W) (x : Error)
        → (get_timer_authoritative workflow key w).0 ≡ err x
        → wraps is_timer_pending x ≡ false

  -- The consumed timers are timers of the run under their ids.
  abbrev pub Own : Consumed → Type 0
  Own = All (λ entry. entry.1 ≡ timer_key_of workflow entry.0)
