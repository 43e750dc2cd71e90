-- ===== src/Delivery.antt =====
-- core/go/storage/events.go: the delivery of an event payload through a store that can create an
-- object once, and the part of core/go/storage/opendal.go that refuses it.
use temporaless.Prelude.{
  ◌≡◌, refl, ap, ◌∙◌, ℕ, Bool, true, false, ◌&&◌, Option, none, some, text_eq, ◌⊎◌, inl, inr,
}
use temporaless.Action.{
  bind-ok, bind-step, Error, Result, ok, err, Action, done, fail, lift, ◌>>=◌, ◌>>◌, plain,
  event_delivery_unsupported,
}
use temporaless.Key.{key_proto, EventKey, event, validate_key, key_from_proto, key_eq}
use temporaless.Message.{ℤ, Time, SchemaVersion, AnyValue, EventRecord}
use temporaless.Env.{Env}
use temporaless.Validate.{validate_event_delivery_record}
use temporaless.OpenDal.Latest.{clock}

pub data EventDeliveryCapability : Type 0 where
  unspecified no_atomic_create create_only : EventDeliveryCapability
  unknown : ℤ → EventDeliveryCapability

pub data EventDeliveryDisposition : Type 0 where
  unspecified created idempotent : EventDeliveryDisposition
  unknown : ℤ → EventDeliveryDisposition

abbrev same_key : Option EventKey → Option EventKey → Bool
same_key none none = true
same_key (some a) (some b) = key_eq a b
same_key _ _ = false

abbrev same_any : Option AnyValue → Option AnyValue → Bool
same_any none none = true
same_any (some a) (some b) = text_eq a.type_url b.type_url && text_eq a.value b.value
same_any _ _ = false

-- `SameEventPayload`
unfoldable pub same_event_payload : Option EventRecord → Option EventRecord → Bool
same_event_payload (some left) (some right) =
    same_key left.key right.key && same_any left.payload right.payload
same_event_payload _ _ = false

-- The capability must be create-only.
abbrev pub require_create_only : EventDeliveryCapability → Result (Unit {0})
require_create_only EventDeliveryCapability.create_only = ok tt
require_create_only EventDeliveryCapability.unspecified = err event_delivery_unsupported
require_create_only EventDeliveryCapability.no_atomic_create = err event_delivery_unsupported
require_create_only (EventDeliveryCapability.unknown n) = err plain

abbrev pub accepted : EventDeliveryDisposition → Result EventDeliveryDisposition
accepted EventDeliveryDisposition.created = ok EventDeliveryDisposition.created
accepted EventDeliveryDisposition.idempotent = ok EventDeliveryDisposition.idempotent
accepted _ = err plain

module _ ⦃e : Env⦄ where
  open e use {World, ctx_err, new_timestamp, objects}

  pub record EventDeliveryStore : Type 0 where
    pub event_delivery_capability : Action World EventDeliveryCapability
    pub deliver_event : Option EventRecord → Action World EventDeliveryDisposition

  abbrev pub delivered_record : EventKey → AnyValue → ℕ → EventRecord
  delivered_record key packed t = record {
    schema_version = SchemaVersion.event;
    key = key_proto key;
    payload = some packed;
    received_at = some (new_timestamp t);
  }

  -- `DeliverEvent`. A payload is what `pack` (anypb.MarshalFrom) makes of it.
  unfoldable pub deliver_event :
      Option EventDeliveryStore
      → EventKey
      → Option (Result AnyValue)
      → Action World EventDeliveryDisposition
  deliver_event none key payload = fail plain
  deliver_event (some store) key none = do lift (validate_key event key); fail plain
  deliver_event (some store) key (some pack) = do
    lift (validate_key event key)
    capability ← store.event_delivery_capability
    lift (require_create_only capability)
    packed ← lift pack
    t ← clock
    lift (validate_event_delivery_record (some (delivered_record key packed t)) key)
    disposition ← store.deliver_event (some (delivered_record key packed t))
    lift (accepted disposition)

  unfoldable pub send_event :
      Option EventDeliveryStore → EventKey → Option (Result AnyValue) → Action World Unit
  unfolding deliver_event
  send_event store key payload = do deliver_event store key payload; done tt

  -- `OpenDALStore.DeliverEvent`
  unfoldable pub refuse_delivery : Option EventRecord → Action World EventDeliveryDisposition
  refuse_delivery none = do
    ctx_err
    lift (validate_event_delivery_record none (key_from_proto none))
    fail event_delivery_unsupported
  refuse_delivery (some r) = do
    ctx_err
    lift (validate_event_delivery_record (some r) (key_from_proto r.key))
    fail event_delivery_unsupported

  abbrev pub open_dal_delivery : EventDeliveryStore
  open_dal_delivery = record {
    event_delivery_capability = done EventDeliveryCapability.no_atomic_create;
    deliver_event = refuse_delivery;
  }

  absurd_fail :
      {A : Type 0} {x : Error} {a : A} {P : Type 0} → ◌≡◌ {A = Result A} (err x) (ok a) → P
  absurd_fail h = cc

  accepted-cases :
      (d d' : EventDeliveryDisposition)
      → accepted d ≡ ok d'
      → (d' ≡ EventDeliveryDisposition.created) ⊎ (d' ≡ EventDeliveryDisposition.idempotent)
  accepted-cases EventDeliveryDisposition.created d' h = inl cc
  accepted-cases EventDeliveryDisposition.idempotent d' h = inr cc
  accepted-cases EventDeliveryDisposition.unspecified d' h = cc
  accepted-cases (EventDeliveryDisposition.unknown n) d' h = cc

  accepted-same : (d d' : EventDeliveryDisposition) → accepted d ≡ ok d' → d ≡ d'
  accepted-same EventDeliveryDisposition.created d' h = cc
  accepted-same EventDeliveryDisposition.idempotent d' h = cc
  accepted-same EventDeliveryDisposition.unspecified d' h = cc
  accepted-same (EventDeliveryDisposition.unknown n) d' h = cc

  create_only-required :
      (c : EventDeliveryCapability) {u : Unit}
      → require_create_only c ≡ ok u
      → c ≡ EventDeliveryCapability.create_only
  create_only-required EventDeliveryCapability.create_only h = refl
  create_only-required EventDeliveryCapability.unspecified h = cc
  create_only-required EventDeliveryCapability.no_atomic_create h = cc
  create_only-required (EventDeliveryCapability.unknown n) h = cc

  -- What a delivery that succeeds has done: the payload was given and packed, the store has called
  -- itself create-only, and it was handed the record of the key and the packed payload, which passes
  -- the check of delivered records. Its answer is the answer of the delivery, and its last step.
  pub record Delivered (store : Option EventDeliveryStore) (key : EventKey)
      (payload : Option (Result AnyValue)) (s : World) (d : EventDeliveryDisposition) (end : World)
      : Type 0 where
    pub disposition :
        (d ≡ EventDeliveryDisposition.created) ⊎ (d ≡ EventDeliveryDisposition.idempotent)
    pub chosen : EventDeliveryStore
    pub has_store : store ≡ some chosen
    pub create_only :
        (chosen.event_delivery_capability s).0 ≡ ok EventDeliveryCapability.create_only
    pub packed : AnyValue
    pub has_payload : payload ≡ some (ok packed)
    pub time : Time
    pub valid_key : validate_key event key ≡ ok tt
    pub valid_record :
        validate_event_delivery_record (some (delivered_record key packed time)) key ≡ ok tt
    pub before : World
    pub handed : chosen.deliver_event (some (delivered_record key packed time)) before ≡ (ok d, end)

  Delivered-handed :
      (store : EventDeliveryStore) (key : EventKey) (pack : Result AnyValue) (s s1 s2 s6 s7 : World)
      (d' d : EventDeliveryDisposition) {end : World} {u : Unit} (c : EventDeliveryCapability)
      (packed : AnyValue) (t : Time)
      → s ≡ s1
      → validate_key event key ≡ ok tt
      → store.event_delivery_capability s1 ≡ (ok c, s2)
      → require_create_only c ≡ ok u
      → pack ≡ ok packed
      → validate_event_delivery_record (some (delivered_record key packed t)) key ≡ ok tt
      → store.deliver_event (some (delivered_record key packed t)) s6 ≡ (ok d', s7)
      → accepted d' ≡ ok d
      → s7 ≡ end
      → Delivered (some store) key (some pack) s d end
  Delivered-handed store key pack s s1 s2 s6 s7 d' d c packed t first valid claimed only given
        checked answered same last =
      record {
        disposition = accepted-cases d' _ same;
        chosen = store;
        has_store = refl;
        create_only =
            ap (λ w. (store.event_delivery_capability w).0) first
            ∙ (ap (λ r. r.0) claimed ∙ ap ok (create_only-required c only));
        packed = packed;
        has_payload = ap some given;
        time = t;
        valid_key = valid;
        valid_record = checked;
        before = s6;
        handed =
            answered ∙ (ap (λ x. (ok x, s7)) (accepted-same d' d same) ∙ ap (λ w. (ok d, w)) last);
      }

  -- A delivery that succeeds has a store, a valid key and a payload that was packed. The store has
  -- called itself create-only. It was handed the record of the key and the payload at some time, and
  -- that record passes the check of delivered records; what it answered, created or idempotent, is
  -- what the delivery reports, and nothing is done after it.
  pub deliver_event_sound :
      (store : Option EventDeliveryStore) (key : EventKey) (payload : Option (Result AnyValue))
      (s : World) {d : EventDeliveryDisposition}
      → (deliver_event store key payload s).0 ≡ ok d
      → Delivered store key payload s d (deliver_event store key payload s).1
  unfolding deliver_event
  deliver_event_sound none key payload s h = cc
  deliver_event_sound (some store) key none s h =
      let (_, (_, wrong)) = bind-ok _ (validate_key event key, s) h in absurd_fail wrong
  deliver_event_sound (some store) key (some pack) s h =
      let end = (deliver_event (some store) key (some pack) s).1 in
      let (_, (s1, valid, h1)) = bind-step _ (validate_key event key, s) (ap (λ r. (r, end)) h) in
      let (c, (s2, claimed, h2)) = bind-step _ (store.event_delivery_capability s1) h1 in
      let (_, (s3, only, h3)) = bind-step _ (require_create_only c, s2) h2 in
      let (packed, (s4, given, h4)) = bind-step _ (pack, s3) h3 in
      let (t, (s5, _, h5)) = bind-step _ (clock s4) h4 in
      let (_, (s6, checked, h6)) =
        bind-step _ (validate_event_delivery_record (some (delivered_record key packed t)) key, s5)
          h5 in
      let (d', (s7, answered, h7)) =
        bind-step _ (store.deliver_event (some (delivered_record key packed t)) s6) h6 in
      Delivered-handed store key pack s s1 s2 s6 s7 d' _ c packed t (ap (λ r. r.1) valid)
        (ap (λ r. r.0) valid) claimed (ap (λ r. r.0) only) (ap (λ r. r.0) given)
        (ap (λ r. r.0) checked) answered (ap (λ r. r.0) h7) (ap (λ r. r.1) h7)
