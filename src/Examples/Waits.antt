-- ===== src/Examples/Waits.antt =====
-- Runs of the waits over the slot for one timer.
use temporaless.Prelude.{◌≡◌, ℕ, none, some, List, [], ◌∷◌, map, codes}
use temporaless.Action.{Error, Result, ok, err, plain, claim_busy}
use temporaless.Runtime.Errors.{is_workflow_continuation_error}
use temporaless.Runtime.FanOut.{settle, any_continuation, settle-continuation}
use temporaless.Message.{ℤ}
use temporaless.Runtime.TimerDetails.{PollOptions}
use temporaless.Runtime.Waits.{sleep}
use temporaless.Runtime.Polls.{arm_poll}
use temporaless.Runtime.Sleep.{Slept, sleep-Slept}
use temporaless.Runtime.Arm.{Armed, arm_poll-Armed}
use temporaless.Examples.Slot.{slot_run, slot-WaitLaws, slot-StoreErrors, nanos_calendar}

sleep-Slept_example :
    Slept slot_run slot-WaitLaws (codes "nap") (sleep slot_run (codes "nap") (ℤ.pos 5) (none, []))
sleep-Slept_example =
    sleep-Slept slot_run slot-WaitLaws (codes "nap") slot-StoreErrors (ℤ.pos 5) (none, []) tt

abbrev every_five : PollOptions
every_five = record {
  timer_id = codes "nap";
  interval = some (record { seconds = ℤ.pos 5; nanos = ℤ.pos 0 });
}

arm_poll-Armed_example :
    Armed slot_run slot-WaitLaws (codes "nap") (arm_poll slot_run every_five (none, []))
arm_poll-Armed_example = arm_poll-Armed slot_run slot-WaitLaws every_five (none, []) tt

-- A branch that succeeds, one that fails, and one whose claim is busy.
abbrev branches : List (Result ℕ)
branches = ok 1 ∷ err plain ∷ err claim_busy ∷ []

settle-continuation_example :
    ((ps : List ℕ) → settle branches ≡ ok ps → branches ≡ map ok ps)
    × ((e : Error)
        → settle branches ≡ err e
        → is_workflow_continuation_error e ≡ any_continuation branches)
settle-continuation_example = settle-continuation branches
