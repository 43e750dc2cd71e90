-- ===== src/Cache.antt =====
-- core/go/workflow/cache.go: the record cache of one run in front of a store. The methods for
-- activities, timers and events have one text and are one family here, with a table for each part.
-- A Go map from ids to pointers is an association list; an entry `none` is a nil pointer, the record
-- that is known to be missing.
pub mod Checks
pub mod Workflow
pub mod Methods
pub mod Laws
pub mod Says
pub mod Coherent
pub mod Apart
pub mod Trace
pub mod Reads
pub mod Writes
pub mod Lists
pub mod Replay
pub mod Prefetched
use temporaless.Prelude.{
  Bool, true, false, not, ◌&&◌, Option, none, some, List, [], ◌∷◌, Text, text_eq, if◌then◌else◌,
  is_some, lookup, insert,
}
use temporaless.Action.{Result, ok, err, Action, done, lift, attempt, ◌>>=◌, ◌>>◌}
use temporaless.Key.{WorkflowKey, RecordKey, ActivityKey, TimerKey, EventKey, run_of}
use temporaless.Message.{WorkflowRecord, ActivityRecord, TimerRecord, EventRecord, TimerStatus}
use temporaless.Store.{Part, activities, timers, events, RecordOf, KeyOf, kind, key_of, Store}
use temporaless.Cache.Checks.{load, checked_list, is_unspecified, status_shown}

-- `activitiesListed` and `activities`, and the same for timers and events.
pub record Table (R : Type 0) : Type 0 where
  pub listed : Bool
  pub entries : List (Text × Option R)

abbrev pub Tables : Type 0
Tables = (p : Part) → Table (RecordOf p)

-- `runScopedCache` without its store and its scope, which do not change.
pub record Cache : Type 0 where
  pub workflow_known : Bool
  pub workflow : Option WorkflowRecord
  pub tables : Tables

-- `newRunScopedCache`
abbrev pub new_run_scoped_cache : Cache
new_run_scoped_cache = record {
  workflow_known = false;
  workflow = none;
  tables = λ p. record { listed = false; entries = [] };
}

-- The assignment to a field of the cache.
abbrev pub set_table : (p : Part) → Table (RecordOf p) → Tables → Tables
set_table activities t old activities = t
set_table activities t old timers = old timers
set_table activities t old events = old events
set_table timers t old timers = t
set_table timers t old activities = old activities
set_table timers t old events = old events
set_table events t old events = t
set_table events t old activities = old activities
set_table events t old timers = old timers

-- `c.activities[id] = rec`, and the same for timers and events.
unfoldable pub keep : (p : Part) → Text → Option (RecordOf p) → Cache → Cache
keep p id v c =
    let t = c.tables p in
    record c { tables = set_table p (record t { entries = insert id v t.entries }) c.tables }

-- `c.activitiesListed = true`, and the same for timers and events.
abbrev pub mark_listed : (p : Part) → Cache → Cache
mark_listed p c = record c { tables = set_table p (record (c.tables p) { listed = true }) c.tables }

-- The loop that keeps what a store listed, and the flag after it.
unfoldable pub keep_all : (p : Part) → List (RecordOf p) → Cache → Cache
keep_all p [] c = c
keep_all p (r ∷ rs) c = keep_all p rs (keep p (key_of p (some r)).id (some r) c)

-- The loop over a table that leaves out what is missing or has another status.
unfoldable pub present :
    (p : Part) → TimerStatus → List (Text × Option (RecordOf p)) → List (RecordOf p)
present p status [] = []
present p status ((id, none) ∷ rest) = present p status rest
present p status ((id, some r) ∷ rest) =
    if status_shown p status r then r ∷ present p status rest else present p status rest

-- Whether a list with the status is kept.
abbrev pub keeps : Part → TimerStatus → Bool
keeps timers status = is_unspecified status
keeps activities status = true
keeps events status = true

module _ {W : Type 0} (inner : Store W) (scope : WorkflowKey) where
  abbrev pub State : Type 0
  State = W × Cache

  -- `inScope`, on the key as it is given.
  abbrev pub in_scope : WorkflowKey → Bool
  in_scope key =
      text_eq key.namespace scope.namespace
      && text_eq key.workflow_id scope.workflow_id
      && text_eq key.run_id scope.run_id

  -- A call of the store behind the cache.
  abbrev pub on_store : {A : Type 0} → Action W A → Action State A
  on_store m (w, c) = let (r, w') = m w in (r, (w', c))

  abbrev pub on_cache : (Cache → Cache) → Action State Unit
  on_cache f (w, c) = (ok tt, (w, f c))

  -- `refreshActivity` and `refreshTimer`
  unfoldable pub refresh : (p : Part) → KeyOf p → Action State (Option (RecordOf p))
  refresh p key =
      if in_scope (run_of key)
      then (do rec ← on_store (load inner p key); on_cache (keep p key.id rec); done rec)
      else on_store (load inner p key)

  -- What `GetActivity` does with what the cache has for the id.
  unfoldable pub get_missed :
      (p : Part)
      → KeyOf p
      → Option (Option (RecordOf p))
      → Bool
      → Action State (Option (RecordOf p))
  get_missed p key (some rec) listed = done rec
  get_missed p key none true = done none
  get_missed p key none false = refresh p key

  -- `GetActivity`, `GetTimer` and `GetEvent`
  unfoldable pub get : (p : Part) → KeyOf p → Action State (Option (RecordOf p))
  get p key (w, c) =
      if in_scope (run_of key)
      then get_missed p key (lookup key.id (c.tables p).entries) (c.tables p).listed (w, c)
      else on_store (load inner p key) (w, c)

  -- `PutActivity`, `PutTimer` and `PutEvent`
  unfoldable pub put : (p : Part) → Option (RecordOf p) → Action State Unit
  put p r = do
    on_store (inner.put p r)
    if in_scope (run_of (key_of p r)) then on_cache (keep p (key_of p r).id r) else done tt

  -- `DeleteActivity`, `DeleteTimer` and `DeleteEvent`
  unfoldable pub delete : (p : Part) → KeyOf p → Action State Bool
  delete p key = do
    deleted ← on_store (inner.delete p key)
    if in_scope (run_of key) then on_cache (keep p key.id none) else done tt
    done deleted

  -- `ListActivities`, `ListTimers` and `ListEvents` of a run out of scope, and of the run in scope
  -- where the list is not kept.
  abbrev pub list_through :
      (p : Part) → WorkflowKey → TimerStatus → Action State (List (RecordOf p))
  list_through p key status = do
    records ← on_store (inner.list p key status)
    lift (checked_list p key status records)

  abbrev pub keep_list : (p : Part) → List (RecordOf p) → Action State Unit
  keep_list p records = on_cache (λ c. mark_listed p (keep_all p records c))

  -- Only the list without a filter is kept. No filter applies to activities and events.
  unfoldable pub list_missed :
      (p : Part) → WorkflowKey → TimerStatus → Action State (List (RecordOf p))
  list_missed p key status =
      if keeps p status
      then (do records ← list_through p key status; keep_list p records; done records)
      else list_through p key status

  -- `ListActivities`, `ListTimers` and `ListEvents`. Go gives the records of a table in any order.
  unfoldable pub list : (p : Part) → WorkflowKey → TimerStatus → Action State (List (RecordOf p))
  list p key status (w, c) =
      if in_scope key
      then (if (c.tables p).listed
          then (ok (present p status (c.tables p).entries), (w, c))
          else list_missed p key status (w, c))
      else list_through p key status (w, c)

  abbrev pub fetch_list : (p : Part) → Action State (Result (List (Option (RecordOf p))))
  fetch_list p = attempt (on_store (inner.list p scope TimerStatus.unspecified))

  abbrev pub checked_fetch :
      (p : Part) → List (Option (RecordOf p)) → Action State (List (RecordOf p))
  checked_fetch p records = lift (checked_list p scope TimerStatus.unspecified records)

  -- `prefetch`. The three lists are fetched at once and all of them end; the first error is given.
  unfoldable pub prefetch : Action State Unit
  prefetch = do
    acts ← fetch_list activities
    tims ← fetch_list timers
    evts ← fetch_list events
    acts' ← lift acts
    tims' ← lift tims
    evts' ← lift evts
    listed_activities ← checked_fetch activities acts'
    listed_timers ← checked_fetch timers tims'
    listed_events ← checked_fetch events evts'
    keep_list activities listed_activities
    keep_list timers listed_timers
    keep_list events listed_events
