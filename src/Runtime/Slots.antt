-- ===== src/Runtime/Slots.antt =====
-- core/go/workflow/concurrency.go: the slots of a concurrency key, and
-- core/go/workflow/claim_capability.go.
use temporaless.Prelude.{
  ℕ, zero, suc, ◌+◌, Bool, true, false, Option, none, some, Text, ◌++◌, codes, if◌then◌else◌,
}
use temporaless.Action.{ok, Action, done, ◌>>=◌, ◌>>◌}
use temporaless.Key.{ClaimKey, key_proto, concurrency_workflow_id}
use temporaless.Message.{ℤ, SchemaVersion, Time}
use temporaless.Validate.Listed.{ClaimRecord, ClaimResourceType}
use temporaless.Runtime.TimerDetails.{Calendar}
use temporaless.Runtime.Waits.{after}

pub data ClaimCapability : Type 0 where
  unspecified no_claims create_only_claims cas_claims : ClaimCapability
  unknown : ℤ → ClaimCapability

-- `ClaimStore`, as far as the slots use it, with the context, the clock and `fmt.Sprintf("%d")`.
pub record ClaimStore (W : Type 0) : Type 0 where
  pub ctx_err : Action W Unit
  pub now : W → Time × W
  pub try_create_claim : ClaimRecord → Action W Bool
  pub delete_claim : ClaimKey → Action W Bool
  pub decimal : ℕ → Text

unfoldable pub supports_create_only_claims : ClaimCapability → Bool
supports_create_only_claims ClaimCapability.create_only_claims = true
supports_create_only_claims _ = false

module _ {W : Type 0} ⦃n : Calendar⦄ (store : ClaimStore W) (namespace concurrency_key : Text) where
  open n use {new_timestamp}

  -- `concurrencySlotIDPrefix` and the index
  abbrev pub slot_id : ℕ → Text
  slot_id i = codes "slot:" ++ store.decimal i

  abbrev pub claim_key_of : Text → ClaimKey
  claim_key_of id = record {
    namespace = namespace;
    workflow_id = concurrency_workflow_id;
    run_id = concurrency_key;
    id = id;
  }

  abbrev pub slot_claim : Text → ℤ → ℕ → Time → ClaimRecord
  slot_claim owner_id lease i t = record {
    schema_version = SchemaVersion.claim;
    key = key_proto (claim_key_of (slot_id i));
    owner_id = owner_id;
    resource_type = ClaimResourceType.concurrency_key;
    resource_id = concurrency_key;
    lease_expires_at = some (new_timestamp (after t lease));
    created_at = some (new_timestamp t);
    heartbeat_at = some (new_timestamp t);
  }

  abbrev pub clock : Action W Time
  clock w = let (t, w') = store.now w in (ok t, w')

  -- The loop from the index `i` on, with the number of slots that are left.
  unfoldable pub acquire_from : Text → ℤ → ℕ → ℕ → Action W (Option Text)
  acquire_from owner_id lease zero i = done none
  acquire_from owner_id lease (suc left) i = do
    store.ctx_err
    t ← clock
    created ← store.try_create_claim (slot_claim owner_id lease i t)
    if created then done (some (slot_id i)) else acquire_from owner_id lease left (i + 1)

  -- `acquireConcurrencySlot`; `none` is the empty string.
  unfoldable pub acquire_concurrency_slot : ℕ → Text → ℤ → Action W (Option Text)
  acquire_concurrency_slot limit owner_id lease = acquire_from owner_id lease limit 0

  -- `releaseConcurrencySlot`
  unfoldable pub release_concurrency_slot : Text → Action W Unit
  release_concurrency_slot id = do store.delete_claim (claim_key_of id); done tt
