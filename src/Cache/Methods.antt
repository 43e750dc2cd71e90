-- ===== src/Cache/Methods.antt =====
-- core/go/workflow/cache.go: the methods of the cache by their names, each the family of its text at
-- one part.
use temporaless.Prelude.{Bool, Option, List}
use temporaless.Action.{Action, Result}
use temporaless.Key.{WorkflowKey, ActivityKey, TimerKey, EventKey}
use temporaless.Message.{ActivityRecord, TimerRecord, EventRecord, TimerStatus}
use temporaless.Store.{activities, timers, events, Store}
use temporaless.Cache.{State, get, put, delete, list, refresh}
use temporaless.Cache.Checks.{load, checked_list}

abbrev validate_activity_list :
    WorkflowKey → List (Option ActivityRecord) → Result (List ActivityRecord)
validate_activity_list key records = checked_list activities key TimerStatus.unspecified records

abbrev validate_timer_list :
    WorkflowKey → List (Option TimerRecord) → TimerStatus → Result (List TimerRecord)
validate_timer_list key records status = checked_list timers key status records

abbrev validate_event_list : WorkflowKey → List (Option EventRecord) → Result (List EventRecord)
validate_event_list key records = checked_list events key TimerStatus.unspecified records

module _ {W : Type 0} (inner : Store W) where
  abbrev load_activity : ActivityKey → Action W (Option ActivityRecord)
  load_activity = load inner activities

  abbrev load_timer : TimerKey → Action W (Option TimerRecord)
  load_timer = load inner timers

  abbrev load_event : EventKey → Action W (Option EventRecord)
  load_event = load inner events

  module _ (scope : WorkflowKey) where
    abbrev pub get_activity : ActivityKey → Action (State inner scope) (Option ActivityRecord)
    get_activity = get inner scope activities

    abbrev pub refresh_activity : ActivityKey → Action (State inner scope) (Option ActivityRecord)
    refresh_activity = refresh inner scope activities

    abbrev pub put_activity : Option ActivityRecord → Action (State inner scope) Unit
    put_activity = put inner scope activities

    abbrev pub list_activities : WorkflowKey → Action (State inner scope) (List ActivityRecord)
    list_activities key = list inner scope activities key TimerStatus.unspecified

    abbrev pub delete_activity : ActivityKey → Action (State inner scope) Bool
    delete_activity = delete inner scope activities

    abbrev pub get_timer : TimerKey → Action (State inner scope) (Option TimerRecord)
    get_timer = get inner scope timers

    abbrev pub refresh_timer : TimerKey → Action (State inner scope) (Option TimerRecord)
    refresh_timer = refresh inner scope timers

    abbrev pub put_timer : Option TimerRecord → Action (State inner scope) Unit
    put_timer = put inner scope timers

    abbrev pub list_timers :
        WorkflowKey → TimerStatus → Action (State inner scope) (List TimerRecord)
    list_timers = list inner scope timers

    abbrev pub delete_timer : TimerKey → Action (State inner scope) Bool
    delete_timer = delete inner scope timers

    abbrev pub get_event : EventKey → Action (State inner scope) (Option EventRecord)
    get_event = get inner scope events

    abbrev pub put_event : Option EventRecord → Action (State inner scope) Unit
    put_event = put inner scope events

    abbrev pub list_events : WorkflowKey → Action (State inner scope) (List EventRecord)
    list_events key = list inner scope events key TimerStatus.unspecified

    abbrev pub delete_event : EventKey → Action (State inner scope) Bool
    delete_event = delete inner scope events
