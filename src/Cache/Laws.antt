-- ===== src/Cache/Laws.antt =====
-- What the cache relies on in a store: a record is what the last write of it left, as long as no
-- one else writes, and calls change no other record.
use temporaless.Prelude.{
  ◌≡◌, Bool, true, false, ◌&&◌, not, Option, none, some, List, [], ◌∷◌, Text, text_eq, is_some, map,
  All,
}
use temporaless.Action.{Result, ok}
use temporaless.Key.{WorkflowKey, key_eq, with_defaults}
use temporaless.Message.{TimerStatus}
use temporaless.Store.{Part, activities, timers, events, RecordOf, KeyOf, key_of, Store}
use temporaless.OpenDal.Due.{is_canceled}
use temporaless.Cache.{keeps}

abbrev pub same_part : Part → Part → Bool
same_part activities activities = true
same_part timers timers = true
same_part events events = true
same_part _ _ = false

-- Two records that are not one record of the store: the namespace of a key has its default.
abbrev pub other_record : (p : Part) → KeyOf p → (q : Part) → KeyOf q → Bool
other_record activities k activities k' = not (key_eq (with_defaults k) (with_defaults k'))
other_record timers k timers k' = not (key_eq (with_defaults k) (with_defaults k'))
other_record events k events k' = not (key_eq (with_defaults k) (with_defaults k'))
other_record _ _ _ _ = true

-- A record that readers find once it is put: a timer that is canceled reads as a missing one.
abbrev pub readable : (p : Part) → Option (RecordOf p) → Bool
readable p none = false
readable timers (some r) = not (is_canceled r.status)
readable activities (some r) = true
readable events (some r) = true

-- The key of the run with an id.
abbrev pub key_in : (p : Part) → WorkflowKey → Text → KeyOf p
key_in p run id = record {
  namespace = run.namespace;
  workflow_id = run.workflow_id;
  run_id = run.run_id;
  id = id;
}

-- No listed record has the id.
unfoldable pub unlisted : (p : Part) → Text → List (RecordOf p) → Bool
unfolding text_eq
unlisted p id [] = true
unlisted p id (r ∷ rs) = not (text_eq (key_of p (some r)).id id) && unlisted p id rs

abbrev pub View : Type 0
View = (p : Part) → KeyOf p → Result (Option (RecordOf p))

pub record StoreLaws {W : Type 0} (inner : Store W) : Type 0 where
  -- what an authoritative read of a record gives
  pub view : W → View
  pub get_view :
      (p : Part) (key : KeyOf p) (w : W) {r : Option (RecordOf p)} {found : Bool}
      → (inner.get p key w).0 ≡ ok (r, found)
      → found ≡ is_some r
      → view w p key ≡ ok r
  pub get_quiet :
      (p : Part) (key : KeyOf p) (w : W) (q : Part) (k : KeyOf q)
      → view (inner.get p key w).1 q k ≡ view w q k
  pub put_view :
      (p : Part) (r : Option (RecordOf p)) (w : W) {u : Unit}
      → (inner.put p r w).0 ≡ ok u
      → readable p r ≡ true
      → view (inner.put p r w).1 p (key_of p r) ≡ ok r
  pub put_others :
      (p : Part) (r : Option (RecordOf p)) (w : W) (q : Part) (k : KeyOf q)
      → other_record p (key_of p r) q k ≡ true
      → view (inner.put p r w).1 q k ≡ view w q k
  pub delete_view :
      (p : Part) (key : KeyOf p) (w : W) {b : Bool}
      → (inner.delete p key w).0 ≡ ok b
      → view (inner.delete p key w).1 p key ≡ ok none
  pub delete_others :
      (p : Part) (key : KeyOf p) (w : W) (q : Part) (k : KeyOf q)
      → other_record p key q k ≡ true
      → view (inner.delete p key w).1 q k ≡ view w q k
  pub list_quiet :
      (p : Part) (run : WorkflowKey) (status : TimerStatus) (w : W) (q : Part) (k : KeyOf q)
      → view (inner.list p run status w).1 q k ≡ view w q k
  -- a list without a filter holds every record of the run
  pub list_listed :
      (p : Part) (run : WorkflowKey) (status : TimerStatus) (w : W) (rs : List (RecordOf p))
      → keeps p status ≡ true
      → (inner.list p run status w).0 ≡ ok (map some rs)
      → All (λ r. view w p (key_in p run (key_of p (some r)).id) ≡ ok (some r)) rs
  pub list_unlisted :
      (p : Part) (run : WorkflowKey) (status : TimerStatus) (w : W) (rs : List (RecordOf p))
      (id : Text)
      → keeps p status ≡ true
      → (inner.list p run status w).0 ≡ ok (map some rs)
      → unlisted p id rs ≡ true
      → view w p (key_in p run id) ≡ ok none
