-- ===== src/InferenceRuntime/Registry/Preflight.antt =====
-- crates/engines/inference-runtime/src/runtime.rs: what the admission of a request checks before the backend creates
-- its sequence, and `preflight_generation_resources`, which checks the same ahead of it.
use llm_app.Prelude.{
  ℕ, Bool, true, false, not, ◌&&◌, ◌||◌, ◌==◌, ltb, Option, none, some, length, Result, ok, err,
  contains_key, u32_max, u64_max, saturating_add,
}
use llm_app.Prelude.Transactions.{◌>>=◌, ◌>>◌, lift, read, succeed, demand}
use llm_app.Contracts.Capacity.{CapacityResource}
use llm_app.Contracts.Lifecycle.{ModelLifecycleState, LifecycleError}
use llm_app.Contracts.Model.{
  ModelHandle, SequenceConfiguration, configuration_eq, SequencePlan, ModelError, MemoryFootprint,
}
use llm_app.Contracts.Backend.{Backend}
use llm_app.InferenceRuntime.Errors.{RuntimeError}
use llm_app.InferenceRuntime.Footprints.{admit_footprint, checked_add_footprint}
use llm_app.InferenceRuntime.Registry.{
  InferenceRuntime, ModelSlot, Runtime, exact_model, checked_add_one,
}
use llm_app.InferenceRuntime.Registry.Loading.{reject_if_shutting_down}

-- What the admission has computed when the backend is asked for the sequence.
pub record RequestAdmission : Type 0 where
  pub handle : ModelHandle
  pub request_id : ℕ
  pub sequence_id : ℕ
  pub plan : SequencePlan
  pub workspace_footprint : MemoryFootprint
  pub committed_footprint : MemoryFootprint
  pub next_active_requests : ℕ
  pub next_generation_workspaces : ℕ
  pub next_reserved_generation_workspace : MemoryFootprint
  pub backend_next_reserved : MemoryFootprint
  pub committed_next_reserved : MemoryFootprint
  pub backend_next_slot_reserved : MemoryFootprint
  pub committed_next_slot_reserved : MemoryFootprint

abbrev pub is_open : ModelLifecycleState → Bool
is_open ModelLifecycleState.ready = true
is_open (ModelLifecycleState.active n) = true
is_open _ = false

abbrev pub model_result {ℓ} : {A : Type ℓ} → Result ModelError A → Result RuntimeError A
model_result (ok a) = ok a
model_result (err e) = err (RuntimeError.model e)

abbrev capacity_error : CapacityResource → ℕ → ℕ → RuntimeError
capacity_error resource count limit =
    RuntimeError.capacity_exhausted
      (record { resource = resource; required = saturating_add u64_max count 1; available = limit })

-- The plan is for the sequence that was asked for, with the logits that the caller made room for.
abbrev pub is_requested : SequenceConfiguration → Option ℕ → SequencePlan → Bool
is_requested configuration none plan = configuration_eq plan.configuration configuration
is_requested configuration (some expected) plan =
    configuration_eq plan.configuration configuration && plan.logits_capacity == expected

module _ {B : Backend} where
  pub check_identities : ℕ → ℕ → Runtime B (Unit {0})
  check_identities request_id sequence_id = do
    active ← read λ rt.
        contains_key rt.request_index request_id || contains_key rt.pending_request_index request_id
    demand (not active) (RuntimeError.request_already_active request_id)
    used ← read λ rt.
        contains_key rt.sequence_index sequence_id
        || contains_key rt.pending_sequence_index sequence_id
    demand (not used) (RuntimeError.sequence_already_active sequence_id)

  pub check_request_limit : Runtime B (Unit {0})
  check_request_limit = do
    count ← read λ (rt : InferenceRuntime B).
        saturating_add u32_max rt.active_requests rt.pending_cleanup_sequences
    limit ← read λ rt. rt.limits.maximum_active_requests
    demand (ltb count limit) (capacity_error CapacityResource.active_requests count limit)

  pub check_open : ModelHandle → ModelSlot B → Runtime B (Unit {0})
  check_open handle slot = do
    demand (not slot.poisoned) (RuntimeError.model_degraded handle.id)
    demand (is_open slot.lifecycle.state) (RuntimeError.lifecycle LifecycleError.invalid_transition)

  pub check_sequence_limit : ModelSlot B → Runtime B (Unit {0})
  check_sequence_limit slot =
      let count = saturating_add u64_max (length slot.requests) (length slot.pending_sequences) in
      let limit = slot.descriptor.capabilities.maximum_sequences in
      demand (ltb count limit) (capacity_error CapacityResource.active_sequences count limit)

  pub preflight_generation_resources :
      ModelHandle → ℕ → ℕ → SequenceConfiguration → MemoryFootprint → ℕ → Runtime B (Unit {0})
  preflight_generation_resources handle request_id sequence_id configuration workspace
        expected_logits =
      do
        reject_if_shutting_down
        check_identities request_id sequence_id
        check_request_limit
        slot ← exact_model {B = B} handle
        check_open handle slot
        check_sequence_limit slot
        plan ← lift (model_result (B.plan_sequence slot.model configuration))
        demand (is_requested configuration (some expected_logits) plan)
            RuntimeError.backend_contract_violation
        committed ← lift (checked_add_footprint plan.expected_footprint workspace)
        reserved ← read λ rt. rt.reserved_footprint
        budget ← read λ rt. rt.limits.memory_budget
        next ← lift (admit_footprint reserved committed budget)
        succeed tt

  -- The part of `start_request_with_reservation` before the backend creates the sequence, which changes
  -- nothing. A request of the generation scheduler says how many logits it expects.
  pub admit_request :
      ModelHandle
      → ℕ
      → ℕ
      → SequenceConfiguration
      → MemoryFootprint
      → Option ℕ
      → Runtime B RequestAdmission
  admit_request handle request_id sequence_id configuration workspace expected_logits = do
    reject_if_shutting_down
    check_identities request_id sequence_id
    check_request_limit
    active ← read λ rt. rt.active_requests
    next_active ← lift (checked_add_one active)
    workspaces ← read λ rt. rt.generation_workspaces
    next_workspaces ←
        lift (elim expected_logits [
          | none ↦ ok workspaces
          | some expected ↦ checked_add_one workspaces
        ])
    held ← read λ rt. rt.reserved_generation_workspace
    next_held ← lift (elim expected_logits [
      | none ↦ ok held
      | some expected ↦ checked_add_footprint held workspace
    ])
    slot ← exact_model {B = B} handle
    check_open handle slot
    demand (not (contains_key slot.requests request_id))
        (RuntimeError.request_already_active request_id)
    check_sequence_limit slot
    plan ← lift (model_result (B.plan_sequence slot.model configuration))
    demand (is_requested configuration expected_logits plan) RuntimeError.backend_contract_violation
    committed ← lift (checked_add_footprint plan.expected_footprint workspace)
    reserved ← read λ rt. rt.reserved_footprint
    budget ← read λ rt. rt.limits.memory_budget
    backend_next ← lift (admit_footprint reserved plan.expected_footprint budget)
    committed_next ← lift (admit_footprint reserved committed budget)
    backend_slot ← lift (checked_add_footprint slot.reserved_footprint plan.expected_footprint)
    committed_slot ← lift (checked_add_footprint slot.reserved_footprint committed)
    succeed (record {
      handle = handle;
      request_id = request_id;
      sequence_id = sequence_id;
      plan = plan;
      workspace_footprint = workspace;
      committed_footprint = committed;
      next_active_requests = next_active;
      next_generation_workspaces = next_workspaces;
      next_reserved_generation_workspace = next_held;
      backend_next_reserved = backend_next;
      committed_next_reserved = committed_next;
      backend_next_slot_reserved = backend_slot;
      committed_next_slot_reserved = committed_slot;
    })
