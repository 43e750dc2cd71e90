-- ===== src/Runtime/Polls.antt =====
-- core/go/workflow/workflow.go: `ArmPoll`, `ResolvePoll` and `WaitEvent`.
use temporaless.Prelude.{Bool, true, false, Option, none, some, Text, ltb, if◌then◌else◌}
use temporaless.Action.{
  Error, Result, ok, err, Action, done, fail, lift, attempt, ◌>>=◌, ◌>>◌, require, plain, joined,
  timer_conflict, workflow_conflict, corrupt_record, event_pending, and_then,
}
use temporaless.Key.{TimerKey, timer, event, validate_key}
use temporaless.Message.{ℤ, Time, TimerRecord, TimerStatus, TimerKind, EventRecord, AnyValue}
use temporaless.Env.{Env}
use temporaless.Validate.{validate_event_delivery_record}
use temporaless.Store.{timers, events}
use temporaless.Runtime.Errors.{workflow_infrastructure_error}
use temporaless.Runtime.TimerDetails.{
  Calendar, PollOptions, poll_timer_details, poll_interval, validate_poll_options,
}
use temporaless.Runtime.Waits.{
  Workflow, Running, stored, clock, timer_key_of, event_key_of, as_infrastructure, new_timer, after,
  get_timer_authoritative, acknowledge_consumed_wake_timers, register_consumed_wake_timer,
}

abbrev pub or_corrupt_payload : {P : Type 0} → Result P → Result P
or_corrupt_payload (ok p) = ok p
or_corrupt_payload (err y) = err (joined corrupt_record y)

-- The payload of the event as a message of the type that is asked for.
unfoldable pub open_payload :
    {P : Type 0} → (AnyValue → Bool) → (AnyValue → Result P) → Option EventRecord → Result P
open_payload message_is unmarshal_to none = err plain
open_payload message_is unmarshal_to (some r) = elim r.payload [
  | none ↦ err plain
  | some payload ↦
      and_then (require (message_is payload) workflow_conflict)
        (λ _. or_corrupt_payload (unmarshal_to payload))
]

module _ {W : Type 0} ⦃n : Calendar⦄ (workflow : Workflow W) where
  open n use {new_timestamp}

  -- A record that is set for its next poll.
  abbrev pub rearmed : TimerRecord → Time → TimerRecord
  rearmed r fire_at = record r {
    status = TimerStatus.scheduled;
    fire_at = some (new_timestamp fire_at);
    fired_at = none;
  }

  -- The write failed, and yet the timer is there. The code returns its time beside the error.
  unfoldable pub arm_judged : Error → Result (Time × TimerStatus) → Action (Running workflow) Time
  arm_judged x (err z) = fail (joined z (workflow_infrastructure_error x))
  arm_judged x (ok (fire_at, TimerStatus.scheduled)) = fail (workflow_infrastructure_error x)
  arm_judged x (ok (fire_at, _)) = fail (joined timer_conflict (workflow_infrastructure_error x))

  unfoldable pub arm_verified :
      TimerKey → ℤ → Error → Result (Option TimerRecord × Bool) → Action (Running workflow) Time
  arm_verified key interval x (err y) = fail (workflow_infrastructure_error (joined x y))
  arm_verified key interval x (ok (r, false)) = fail (workflow_infrastructure_error x)
  arm_verified key interval x (ok (r, true)) = arm_judged x (poll_timer_details r key interval)

  unfoldable pub arm_written :
      Text → TimerKey → ℤ → Time → Result (Unit {0}) → Action (Running workflow) Time
  arm_written timer_id key interval t (ok _) = do
    acknowledge_consumed_wake_timers workflow timer_id
    done (after t interval)
  arm_written timer_id key interval t (err x) = do
    verified ← attempt (stored workflow (get_timer_authoritative workflow key))
    arm_verified key interval x verified

  unfoldable pub arm_with :
      Text → TimerKey → ℤ → Time → TimerRecord → Action (Running workflow) Time
  arm_with timer_id key interval t r = do
    written ←
        attempt (stored workflow (workflow.store.put timers (some (rearmed r (after t interval)))))
    arm_written timer_id key interval t written

  -- The timer is there. The checks let no nil record through.
  unfoldable pub arm_found :
      Text
      → TimerKey
      → ℤ
      → Time
      → Option TimerRecord
      → Result (Time × TimerStatus)
      → Action (Running workflow) Time
  arm_found timer_id key interval t found (err x) = fail x
  arm_found timer_id key interval t none (ok _) = fail timer_conflict
  arm_found timer_id key interval t (some r) (ok (fire_at, TimerStatus.canceled)) =
      fail timer_conflict
  arm_found timer_id key interval t (some r) (ok (fire_at, TimerStatus.scheduled)) =
      if ltb t fire_at
      then (do acknowledge_consumed_wake_timers workflow timer_id; done fire_at)
      else arm_with timer_id key interval t r
  arm_found timer_id key interval t (some r) (ok (fire_at, _)) = arm_with timer_id key interval t r

  unfoldable pub arm_on :
      Text → TimerKey → ℤ → Time → Option TimerRecord × Bool → Action (Running workflow) Time
  arm_on timer_id key interval t (found, true) =
      arm_found timer_id key interval t found (poll_timer_details found key interval)
  arm_on timer_id key interval t (found, false) =
      arm_with timer_id key interval t (new_timer workflow TimerKind.poll key interval t)

  -- `ArmPoll`
  unfoldable pub arm_poll : PollOptions → Action (Running workflow) Time
  arm_poll options = do
    interval ← lift (poll_interval options)
    lift (validate_key timer (timer_key_of workflow options.timer_id))
    t ← clock workflow
    answer ←
        attempt
          (stored workflow (workflow.store.get timers (timer_key_of workflow options.timer_id)))
    found ← lift (as_infrastructure workflow answer)
    arm_on options.timer_id (timer_key_of workflow options.timer_id) interval t found

  unfoldable pub resolve_found : TimerKey → Time × TimerStatus → Action (Running workflow) Unit
  resolve_found key (fire_at, TimerStatus.scheduled) = register_consumed_wake_timer workflow key
  resolve_found key (fire_at, _) = done tt

  -- `ResolvePoll`, with options.
  unfoldable pub resolve_poll : PollOptions → Action (Running workflow) Unit
  resolve_poll options = do
    interval ← lift (poll_interval options)
    answer ←
        attempt
          (stored workflow (workflow.store.get timers (timer_key_of workflow options.timer_id)))
    (r, found) ← lift (as_infrastructure workflow answer)
    if found
        then (do
          details ← lift (poll_timer_details r (timer_key_of workflow options.timer_id) interval)
          resolve_found (timer_key_of workflow options.timer_id) details)
        else done tt

  -- The event is not there: a pending error, with a wake time if the wait polls.
  unfoldable pub wait_pending :
      {P : Type 0} → Text → Option PollOptions → Action (Running workflow) P
  wait_pending event_id none = fail (event_pending event_id 0)
  wait_pending event_id (some options) = do
    wake_at ← arm_poll options
    fail (event_pending event_id wake_at)

  abbrev pub resolve_if_polled : Option PollOptions → Action (Running workflow) Unit
  resolve_if_polled none = done tt
  resolve_if_polled (some options) = resolve_poll options

  -- `WaitEvent`, with what protobuf says of a payload.
  unfoldable pub wait_event :
      {P : Type 0}
      → ⦃e : Env⦄ → (AnyValue → Bool)
      → (AnyValue → Result P)
      → Text
      → Option PollOptions
      → Action (Running workflow) P
  wait_event message_is unmarshal_to event_id poll = do
    lift (validate_key event (event_key_of workflow event_id))
    lift (validate_poll_options poll)
    answer ← attempt (stored workflow (workflow.store.get events (event_key_of workflow event_id)))
    (r, found) ← lift (as_infrastructure workflow answer)
    if found
        then (do
          lift (validate_event_delivery_record r (event_key_of workflow event_id))
          resolve_if_polled poll
          lift (open_payload message_is unmarshal_to r))
        else wait_pending event_id poll
