-- ===== src/Runtime/TimerDetails.antt =====
-- core/go/workflow/workflow.go: what a wake timer must be to be resumed, `sleepTimerDetails` and
-- `pollTimerDetails`, and the options of a poll.
use temporaless.Prelude.{
  Bool, true, false, not, ◌&&◌, Option, none, some, Text, if◌then◌else◌, is_some,
}
use temporaless.Action.{Result, ok, err, and_then, require, plain, joined, timer_conflict}
use temporaless.Key.{TimerKey, valid_id}
use temporaless.Message.{ℤ, Duration, Timestamp, Time, TimerRecord, TimerStatus, TimerKind}
use temporaless.Validate.{validate_timer_record}
use temporaless.Validate.Listed.{is_empty}
use temporaless.Retry.{is_negative, is_positive, int_same, same_duration}

-- What the runtime takes from Go and from the well-known protobuf types.
pub record Calendar : Type 0 where
  pub check_valid : Timestamp → Bool
  pub as_time : Timestamp → Time
  pub new_timestamp : Time → Timestamp
  pub duration_valid : Duration → Bool
  pub as_duration : Duration → ℤ
  pub new_duration : ℤ → Duration

abbrev pub is_sleep : TimerKind → Bool
is_sleep TimerKind.sleep = true
is_sleep _ = false

abbrev pub is_poll : TimerKind → Bool
is_poll TimerKind.poll = true
is_poll _ = false

abbrev pub is_settled : TimerStatus → Bool
is_settled TimerStatus.fired = true
is_settled TimerStatus.canceled = true
is_settled _ = false

-- `GetStatus` and `GetTimerKind` of a record that may be nil.
abbrev pub status_of : Option TimerRecord → TimerStatus
status_of none = TimerStatus.unspecified
status_of (some r) = r.status

abbrev pub kind_of : Option TimerRecord → TimerKind
kind_of none = TimerKind.unspecified
kind_of (some r) = r.timer_kind

-- `PollOptions`
pub record PollOptions : Type 0 where
  pub timer_id : Text
  pub interval : Option Duration

module _ ⦃n : Calendar⦄ where
  open n use {check_valid, as_time, new_timestamp, duration_valid, as_duration, new_duration}

  -- A duration that is there and is exactly the expected one, of a sign that passes.
  abbrev pub duration_is : (ℤ → Bool) → ℤ → Option Duration → Bool
  duration_is passes expected none = false
  duration_is passes expected (some d) =
      duration_valid d
      && same_duration d (new_duration (as_duration d))
      && passes (as_duration d)
      && int_same (as_duration d) expected

  abbrev pub time_valid : Option Timestamp → Bool
  time_valid none = false
  time_valid (some t) = check_valid t

  -- The `fired_at` that belongs to a status.
  abbrev pub fired_at_fits : TimerStatus → Option Timestamp → Bool
  fired_at_fits TimerStatus.scheduled fired_at = not (is_some fired_at)
  fired_at_fits TimerStatus.fired fired_at = time_valid fired_at
  fired_at_fits TimerStatus.canceled fired_at = not (is_some fired_at)
  fired_at_fits _ fired_at = false

  abbrev pub fire_time_of : TimerRecord → Time
  fire_time_of r = elim r.fire_at [ none ↦ 0 | some t ↦ as_time t ]

  unfoldable pub checked_details :
      (TimerKind → Bool) → (ℤ → Bool) → Option TimerRecord → ℤ → Result (Time × TimerStatus)
  checked_details is_kind passes none duration = err timer_conflict
  checked_details is_kind passes (some r) duration =
      if is_kind r.timer_kind
        && is_empty r.retry_activity_id
        && duration_is passes duration r.duration
        && time_valid r.created_at
        && time_valid r.fire_at
        && fired_at_fits r.status r.fired_at
      then ok (fire_time_of r, r.status)
      else err timer_conflict

  -- What `sleepTimerDetails` and `pollTimerDetails` share: a record that fails a check is a conflict.
  unfoldable pub timer_details :
      (TimerKind → Bool)
      → (ℤ → Bool)
      → Option TimerRecord
      → TimerKey
      → ℤ
      → Result (Time × TimerStatus)
  timer_details is_kind passes record_found key duration =
      elim (validate_timer_record record_found key) [
        | err x ↦ err (joined timer_conflict x)
        | ok _ ↦ checked_details is_kind passes record_found duration
      ]

  unfoldable pub sleep_timer_details :
      Option TimerRecord → TimerKey → ℤ → Result (Time × TimerStatus)
  sleep_timer_details = timer_details is_sleep (λ d. not (is_negative d))

  unfoldable pub poll_timer_details :
      Option TimerRecord → TimerKey → ℤ → Result (Time × TimerStatus)
  poll_timer_details = timer_details is_poll is_positive

  abbrev pub interval_of : Option Duration → Result ℤ
  interval_of none = err plain
  interval_of (some d) =
      if duration_valid d
        && same_duration d (new_duration (as_duration d))
        && is_positive (as_duration d)
      then ok (as_duration d)
      else err plain

  -- `pollInterval`. The schema puts the constraints of an identifier on the id of the timer.
  unfoldable pub poll_interval : PollOptions → Result ℤ
  poll_interval options =
      and_then (require (valid_id options.timer_id) plain) (λ _. interval_of options.interval)

  -- `ValidatePollOptions`, where no options are valid.
  unfoldable pub validate_poll_options : Option PollOptions → Result (Unit {0})
  validate_poll_options none = ok tt
  validate_poll_options (some options) = and_then (poll_interval options) (λ _. ok tt)
