-- ===== src/Env.antt =====
-- What the storage package calls and does not implement: the OpenDAL operator over one bucket, the
-- context, the clock, the protobuf runtime and SHA-256. `World` is the state of all of these, with
-- the faults that are still to come; `objects` is what the bucket holds.
pub mod Ensures
pub mod Memory
pub mod Tree
use temporaless.Prelude.{
  ℕ, ◌≡◌, ◌≢◌, Bool, true, Option, none, some, List, Text, text_eq, if◌then◌else◌, ◌⊎◌, ◌<◌, ◌*◌,
  ◌↔◌, is_some,
}
use temporaless.Action.{Action, Error, Result, ok, err, not_found, is_fault}
use temporaless.Key.Slash.{NoSlash}
use temporaless.Message.{Message, Body, Timestamp, Time, TimerRecord}

pub record Env : Type 1 where
  pub World : Type 0
  pub Data : Type 0
  pub objects : World → Text → Option Data
  -- opendal.Operator: IsExist, Read, Write, CreateDir, Delete, and List with its lister drained:
  -- the entries that it gave, and the error that it stopped or closed with
  pub is_exist : Text → Action World Bool
  pub read : Text → Action World Data
  pub write : Text → Data → Action World Unit
  pub create_dir : Text → Action World Unit
  pub delete : Text → Action World Unit
  pub list : Text → Action World (List Text × Option Error)
  -- ctx.Err and time.Now
  pub ctx_err : Action World Unit
  pub now : World → Time × World
  -- proto.Marshal (deterministic), proto.Unmarshal, proto.Equal
  pub marshal : (m : Message) → Body m → Result Data
  pub unmarshal : (m : Message) → Data → Result (Body m)
  pub equal_timer : TimerRecord → TimerRecord → Bool
  -- timestamppb: CheckValid, AsTime, New
  pub check_valid : Timestamp → Bool
  pub as_time : Timestamp → Time
  pub new_timestamp : Time → Timestamp
  -- the hexadecimal SHA-256 of a path
  pub digest : Text → Text

abbrev pub with_object {ℓ} : {D : Type ℓ} → (Text → Option D) → Text → Option D → Text → Option D
with_object objects p d q = if text_eq p q then d else objects q

-- The call failed by a fault of the object store or of the context.
abbrev pub Faulty {ℓ} : {A : Type ℓ} → Result A → Type ℓ
Faulty r = (x : Error) × (r ≡ err x) × (is_fault x ≡ true)

-- The end of year 9999, the last instant that a timestamp can hold.
abbrev pub year_10000 : Time
year_10000 = 315537897600 * 1000000000

-- The documented behaviour that the theorems rely on. Every call of the store may fail. Calls that
-- only look change no object; a write or a delete that fails has taken place or has not.
pub record Lawful (e : Env) : Type 0 where
  pub is_exist_quiet : (p : Text) (s : e.World) → e.objects (e.is_exist p s).1 ≡ e.objects s
  pub read_quiet : (p : Text) (s : e.World) → e.objects (e.read p s).1 ≡ e.objects s
  pub create_dir_quiet : (p : Text) (s : e.World) → e.objects (e.create_dir p s).1 ≡ e.objects s
  pub list_quiet : (p : Text) (s : e.World) → e.objects (e.list p s).1 ≡ e.objects s
  pub ctx_err_quiet : (s : e.World) → e.objects (e.ctx_err s).1 ≡ e.objects s
  pub now_quiet : (s : e.World) → e.objects (e.now s).1 ≡ e.objects s
  pub is_exist_result :
      (p : Text) (s : e.World)
      → ((e.is_exist p s).0 ≡ ok (is_some (e.objects s p))) ⊎ Faulty (e.is_exist p s).0
  pub read_result :
      (p : Text) (s : e.World)
      → ((d : e.Data) × (e.objects s p ≡ some d) × ((e.read p s).0 ≡ ok d)) ⊎ Faulty (e.read p s).0
  pub create_dir_result :
      (p : Text) (s : e.World) → ((e.create_dir p s).0 ≡ ok tt) ⊎ Faulty (e.create_dir p s).0
  pub ctx_err_result : (s : e.World) → ((e.ctx_err s).0 ≡ ok tt) ⊎ Faulty (e.ctx_err s).0
  pub list_result :
      (p : Text) (s : e.World)
      → ((entries : List Text × Option Error) × ((e.list p s).0 ≡ ok entries))
        ⊎ Faulty (e.list p s).0
  pub write_result :
      (p : Text) (d : e.Data) (s : e.World)
      → (((e.write p d s).0 ≡ ok tt)
          × (e.objects (e.write p d s).1 ≡ with_object (e.objects s) p (some d)))
        ⊎ (Faulty (e.write p d s).0
            × ((e.objects (e.write p d s).1 ≡ e.objects s)
                ⊎ (e.objects (e.write p d s).1 ≡ with_object (e.objects s) p (some d))))
  pub delete_result :
      (p : Text) (s : e.World)
      → (((e.delete p s).0 ≡ ok tt)
          × (e.objects (e.delete p s).1 ≡ with_object (e.objects s) p none))
        ⊎ (Faulty (e.delete p s).0
            × ((e.objects (e.delete p s).1 ≡ e.objects s)
                ⊎ (e.objects (e.delete p s).1 ≡ with_object (e.objects s) p none)))
  pub delete_not_found :
      (p : Text) (s : e.World)
      → (e.delete p s).0 ≡ err not_found
      → e.objects (e.delete p s).1 ≡ with_object (e.objects s) p none
  pub unmarshal-marshal :
      (m : Message) (b : Body m) (d : e.Data) → e.marshal m b ≡ ok d → e.unmarshal m d ≡ ok b
  pub equal_timer_iff : (a b : TimerRecord) → (e.equal_timer a b ≡ true) ↔ (a ≡ b)
  pub as_time-new_timestamp : (t : Time) → e.as_time (e.new_timestamp t) ≡ t
  pub check_valid-new_timestamp :
      (t : Time) → t < year_10000 → e.check_valid (e.new_timestamp t) ≡ true
  pub as_time-lt-year_10000 : (t : Timestamp) → e.check_valid t ≡ true → e.as_time t < year_10000
  pub now-lt-year_10000 : (s : e.World) → (e.now s).0 < year_10000
  -- hexadecimal digits hold no `/`
  pub digest_hex : (p : Text) → NoSlash (e.digest p)

-- What the code `NotFound` of an object-store error documents: a read gives it where the object is
-- absent. `IsExist` answers without it, and no context ends with it.
pub record Finds (e : Env) : Type 0 where
  pub read_not_found :
      (p : Text) (s : e.World) → (e.read p s).0 ≡ err not_found → e.objects s p ≡ none
  pub is_exist_found : (p : Text) (s : e.World) → (e.is_exist p s).0 ≢ err not_found
  pub ctx_err_found : (s : e.World) → (e.ctx_err s).0 ≢ err not_found
