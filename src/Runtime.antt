-- ===== src/Runtime.antt =====
-- core/go/workflow/workflow.go: the workflow runtime over a store: the errors that leave a run in
-- progress, and the waits.
pub mod Errors
pub mod TimerDetails
pub mod Waits
pub mod Checked
pub mod Laws
pub mod Polls
pub mod Steady
pub mod FanOut
pub mod Slots
pub mod Acquire
pub mod Sleep
pub mod Arm
