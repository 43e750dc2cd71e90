-- ===== src/Runtime/Waits.antt =====
-- core/go/workflow/workflow.go: `Sleep`, `ArmPoll`, `ResolvePoll` and `WaitEvent` over any store,
-- with the wake timers that an invocation has consumed.
use temporaless.Prelude.{
  ◌+◌, ◌-◌, Bool, true, false, not, ◌||◌, Option, none, some, List, [], ◌∷◌, Text, text_eq, text_lt,
  ltb, if◌then◌else◌, is_some, insert, sort_by,
}
use temporaless.Action.{
  Error, Result, ok, err, Action, done, fail, lift, attempt, ◌>>=◌, ◌>>◌, require, plain, joined,
  timer_conflict, timer_pending,
}
use temporaless.Key.{TimerKey, EventKey, timer, validate_key, key_proto, default_namespace}
use temporaless.Message.{ℤ, Time, TimerRecord, TimerStatus, TimerKind, SchemaVersion}
use temporaless.Retry.{is_negative}
use temporaless.Store.{timers, Store}
use temporaless.Runtime.Errors.{workflow_infrastructure_error}
use temporaless.Runtime.TimerDetails.{
  Calendar, is_sleep, is_poll, is_settled, status_of, sleep_timer_details,
}

-- `consumedWakeTimers`, the timers that this invocation has waited for and that are still SCHEDULED.
abbrev pub Consumed : Type 0
Consumed = List (Text × TimerKey)

unfoldable pub forget : Text → Consumed → Consumed
unfolding text_eq
forget id [] = []
forget id ((j, key) ∷ rest) =
    let others = forget id rest in if text_eq j id then others else (j, key) ∷ others

-- A time after a duration. A time is counted from year 1, where it stops.
abbrev pub after : Time → ℤ → Time
after t (ℤ.pos n) = t + n
after t (ℤ.negsuc n) = t - (n + 1)

-- A `Workflow`, as far as its waits use it: its store, how an authoritative read of a timer goes
-- past the cache where the store is a `runScopedCache`, the clock, and the ids of the run.
pub record Workflow (W : Type 0) : Type 0 where
  pub store : Store W
  pub refresh_timer : Option (TimerKey → Action W (Option TimerRecord))
  pub now : W → Time × W
  pub workflow_id : Text
  pub run_id : Text

module _ {W : Type 0} ⦃n : Calendar⦄ (workflow : Workflow W) where
  open n use {new_timestamp, new_duration}

  -- The store, and the wake timers that the invocation has consumed.
  abbrev pub Running : Type 0
  Running = W × Consumed

  abbrev pub stored : {A : Type 0} → Action W A → Action Running A
  stored m (w, consumed) = let (r, w') = m w in (r, (w', consumed))

  abbrev pub as_infrastructure : {A : Type 0} → Result A → Result A
  as_infrastructure (ok a) = ok a
  as_infrastructure (err x) = err (workflow_infrastructure_error x)

  abbrev pub timer_key_of : Text → TimerKey
  timer_key_of id = record {
    namespace = default_namespace;
    workflow_id = workflow.workflow_id;
    run_id = workflow.run_id;
    id = id;
  }

  abbrev pub event_key_of : Text → EventKey
  event_key_of id = record {
    namespace = default_namespace;
    workflow_id = workflow.workflow_id;
    run_id = workflow.run_id;
    id = id;
  }

  abbrev pub clock : Action Running Time
  clock (w, consumed) = let (t, w') = workflow.now w in (ok t, (w', consumed))

  abbrev pub with_presence : Option TimerRecord → Option TimerRecord × Bool
  with_presence found = (found, is_some found)

  -- `getTimerAuthoritative`
  unfoldable pub get_timer_authoritative : TimerKey → Action W (Option TimerRecord × Bool)
  get_timer_authoritative key = elim workflow.refresh_timer [
    | none ↦ workflow.store.get timers key
    | some refresh ↦ (do found ← refresh key; done (with_presence found))
  ]

  abbrev pub register_consumed_wake_timer : TimerKey → Action Running Unit
  register_consumed_wake_timer key (w, consumed) = (ok tt, (w, insert key.id key consumed))

  abbrev pub forget_consumed_wake_timer : Text → Action Running Unit
  forget_consumed_wake_timer id (w, consumed) = (ok tt, (w, forget id consumed))

  abbrev pub as_fired : TimerRecord → Time → TimerRecord
  as_fired r t = record r { status = TimerStatus.fired; fired_at = some (new_timestamp t) }

  -- The update of one consumed timer, with the record that is found, which may be nil.
  unfoldable pub acknowledge_found : Text → Option TimerRecord → Action Running Unit
  acknowledge_found id none = fail timer_conflict
  acknowledge_found id (some r) = do
    lift (require (is_sleep r.timer_kind || is_poll r.timer_kind) timer_conflict)
    t ← clock
    stored (workflow.store.put timers (some (as_fired r t)))
    forget_consumed_wake_timer id

  unfoldable pub acknowledge_one : Text → TimerKey → Action Running Unit
  acknowledge_one id key = do
    (found_record, found) ← stored (workflow.store.get timers key)
    if not found || is_settled (status_of found_record)
        then forget_consumed_wake_timer id
        else acknowledge_found id found_record

  -- The loop, which goes on after a timer that fails; its callers drop its error.
  unfoldable pub acknowledge_each : Text → Consumed → Action Running Unit
  unfolding text_eq
  acknowledge_each except [] = done tt
  acknowledge_each except ((id, key) ∷ rest) = do
    attempt (if text_eq id except then done tt else acknowledge_one id key)
    acknowledge_each except rest

  abbrev pub by_id : Text × TimerKey → Text × TimerKey → Bool
  by_id a b = text_lt a.0 b.0

  -- `_ = workflow.acknowledgeConsumedWakeTimers(ctx, exceptTimerID)`
  unfoldable pub acknowledge_consumed_wake_timers : Text → Action Running Unit
  acknowledge_consumed_wake_timers except (w, consumed) =
      acknowledge_each except (sort_by by_id consumed) (w, consumed)

  abbrev pub new_timer : TimerKind → TimerKey → ℤ → Time → TimerRecord
  new_timer timer_kind key duration t = record {
    schema_version = SchemaVersion.timer;
    key = key_proto key;
    timer_kind = timer_kind;
    duration = some (new_duration duration);
    status = TimerStatus.scheduled;
    fire_at = some (new_timestamp (after t duration));
    created_at = some (new_timestamp t);
    fired_at = none;
    retry_activity_id = [];
  }

  -- Waiting for a scheduled timer, or having waited for it.
  unfoldable pub pending_or_consumed : Text → TimerKey → Time → Time → Action Running Unit
  pending_or_consumed timer_id key t fire_at = do
    acknowledge_consumed_wake_timers timer_id
    if ltb t fire_at
        then fail (timer_pending timer_id fire_at)
        else register_consumed_wake_timer key

  -- The timer is there.
  unfoldable pub sleep_found :
      Text → TimerKey → Time → Result (Time × TimerStatus) → Action Running Unit
  sleep_found timer_id key t (err x) = fail x
  sleep_found timer_id key t (ok (fire_at, TimerStatus.fired)) = done tt
  sleep_found timer_id key t (ok (fire_at, TimerStatus.canceled)) = fail timer_conflict
  sleep_found timer_id key t (ok (fire_at, _)) = pending_or_consumed timer_id key t fire_at

  -- The write failed, and yet the timer is there.
  unfoldable pub sleep_judged : Text → Error → Result (Time × TimerStatus) → Action Running Unit
  sleep_judged timer_id x (err z) = fail (joined z (workflow_infrastructure_error x))
  sleep_judged timer_id x (ok (fire_at, TimerStatus.scheduled)) =
      fail (joined (timer_pending timer_id fire_at) (workflow_infrastructure_error x))
  sleep_judged timer_id x (ok (fire_at, TimerStatus.fired)) = done tt
  sleep_judged timer_id x (ok (fire_at, _)) =
      fail (joined timer_conflict (workflow_infrastructure_error x))

  -- The write failed; `verified` is what an authoritative read then gives.
  unfoldable pub sleep_verified :
      Text → TimerKey → ℤ → Error → Result (Option TimerRecord × Bool) → Action Running Unit
  sleep_verified timer_id key duration x (err y) = fail (workflow_infrastructure_error (joined x y))
  sleep_verified timer_id key duration x (ok (r, false)) = fail (workflow_infrastructure_error x)
  sleep_verified timer_id key duration x (ok (r, true)) =
      sleep_judged timer_id x (sleep_timer_details r key duration)

  unfoldable pub sleep_written :
      Text → TimerKey → ℤ → Time → Result (Unit {0}) → Action Running Unit
  sleep_written timer_id key duration t (ok _) =
      pending_or_consumed timer_id key t (after t duration)
  sleep_written timer_id key duration t (err x) = do
    verified ← attempt (stored (get_timer_authoritative key))
    sleep_verified timer_id key duration x verified

  unfoldable pub sleep_on :
      Text → TimerKey → ℤ → Time → Option TimerRecord × Bool → Action Running Unit
  sleep_on timer_id key duration t (found_record, true) =
      sleep_found timer_id key t (sleep_timer_details found_record key duration)
  sleep_on timer_id key duration t (found_record, false) = do
    written ←
        attempt
          (stored (workflow.store.put timers (some (new_timer TimerKind.sleep key duration t))))
    sleep_written timer_id key duration t written

  -- `Sleep`
  unfoldable pub sleep : Text → ℤ → Action Running Unit
  sleep timer_id duration = do
    lift (require (not (is_negative duration)) plain)
    lift (validate_key timer (timer_key_of timer_id))
    t ← clock
    answer ← attempt (stored (workflow.store.get timers (timer_key_of timer_id)))
    found ← lift (as_infrastructure answer)
    sleep_on timer_id (timer_key_of timer_id) duration t found
