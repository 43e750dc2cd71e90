-- ===== src/Lib.antt =====
-- Temporaless keeps durable workflow state as protobuf objects in a bucket, without a server. This
-- library is about its Go storage package, core/go/storage: the keys and object paths, the checks of
-- payloads, and the OpenDAL store, with the schema of api/temporaless/v1/temporaless.proto; and about
-- the record cache, waits, fan-out, slots and retry plans of the workflow runtime, core/go/workflow,
-- with the janitor, adapters/go/janitor.
--
-- How the parts correspond to the code:
--   Key            core/go/storage/key.go and the path functions of opendal.go. The four record keys
--                  are one record over the kind; `Validate` is the declared protovalidate rules.
--   Message        the stored messages of the schema.
--   Validate       core/go/storage/validate.go, and the checks of listed payloads in opendal.go.
--   Env            what the package calls: opendal.Operator, the context, the clock, protobuf and
--                  SHA-256, as a record of operations. `Lawful` names their documented behaviour,
--                  and `Finds` that of the code `NotFound`.
--   OpenDal.Point  Get, Put and Delete of activities, events and workflow runs.
--   OpenDal.Due    the due-ledger entry: putDueEntry, getDueEntry, validateDueEntry.
--   OpenDal.Timers GetTimer, PutTimer, DeleteTimer.
--   OpenDal.Latest PutWorkflow, GetLatestWorkflowRun and the latest-run pointer.
--   OpenDal.Quarantine
--                  quarantineDueEntry and readListedProto.
--   OpenDal.Walk   walkOpenDAL; Env.Tree says what a listing of a directory documents.
--   OpenDal.Listing
--                  ListActivities, ListEvents and ListTimers.
--   OpenDal.Scan   DueTimers and dueRoots. Where two wakes have one time and one key, the code
--                  leaves their order to sort.Slice; here the sort is stable.
--   Retry          core/go/workflow/workflow.go, planRetries to retryIntervalAfterAttempt with
--                  nextInterval, assertRetryingActivity and activityRetryTimerExpectation. `Numbers`
--                  is what these take from float64 and the protobuf types.
--   Store          the interface Store of core/go/storage/store.go, as the runtime sees it.
--   Cache          core/go/workflow/cache.go, the record cache of a run: Cache the tables and their
--                  methods, Cache.Checks the checks, Cache.Workflow the run record and the reads that
--                  are not kept, Cache.Methods the methods by name. `StoreLaws` names what it relies
--                  on in a store.
--   Runtime        core/go/workflow/workflow.go: Runtime.Errors the errors that leave a run in
--                  progress, Runtime.TimerDetails the checks of wake timers, Runtime.Waits Sleep and
--                  the consumed wake timers, Runtime.Polls ArmPoll, ResolvePoll and WaitEvent.
--                  Runtime.FanOut is fanout.go and Runtime.Slots is concurrency.go.
--                  `Calendar` is what they take from the protobuf types, `WaitLaws` what they rely on,
--                  and `StoreErrors` that the errors of a store name no wait for a timer.
--   Janitor        adapters/go/janitor/janitor.go; a page of the query takes one unit of fuel.
--   Delivery       core/go/storage/events.go and the delivery methods of opendal.go.
--
-- How the code is modelled. A method is an `Action`: from a world to a result and a world, so what
-- was written before an error stays written. The operations of `Env` may fail at any call, with a
-- write or delete that took effect or did not; a crash is the case where the next call fails. So a
-- statement `Ensures o m P` covers every place where a method can stop. Error texts are left out:
-- an error is what `errors.Is` and `errors.As` can tell. A `time.Time` is the number of nanoseconds
-- since year 1. Strings are lists of bytes. A walk takes fuel, one unit for each directory that it
-- lists, and ends with the error `out_of_fuel` of the model where that is too little; fuel for the
-- number of directories below the root is enough. The other loops run over a list.
--
-- Not modelled: concurrent writers, and the mutexes of the pointer writes and of the cache;
-- NewOpenDALStore; execution.go, which declares a contract without an implementation; the rest of
-- the workflow runtime of core/go/workflow (Run, activities and their claims), the other adapters
-- and the commands, which use the store; generated code and the SDKs in other languages.
pub mod Prelude
pub mod Action
pub mod Key
pub mod Message
pub mod Env
pub mod Validate
pub mod OpenDal
pub mod Delivery
pub mod Retry
pub mod Store
pub mod Cache
pub mod Runtime
pub mod Janitor
pub mod Examples
