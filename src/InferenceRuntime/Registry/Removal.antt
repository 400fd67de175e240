-- ===== src/InferenceRuntime/Registry/Removal.antt =====
-- crates/engines/inference-runtime/src/runtime.rs: the end of a request (`remove_request`) and of a model
-- (`release_model_with_primary`), with the quarantine of what the backend fails to destroy.
pub mod Release
pub mod Endings
pub mod Requests
pub mod Refusals
mod Tests
use llm_app.Prelude.{ℕ, Bool, true, false, ◌&&◌, some, List, [], ◌∷◌, ok, err, ok_or}
use llm_app.Prelude.{get, insert, remove}
use llm_app.Prelude.Transactions.{◌>>=◌, ◌>>◌, lift, read, refuse, succeed, update, demand}
use llm_app.Contracts.Capacity.{CancellationReason}
use llm_app.Contracts.Lifecycle.{
  ModelLifecycleState, LifecycleAction, LifecycleError, finish_request, complete_unload,
}
use llm_app.Contracts.Model.{MemoryFootprint, footprint_eq, SequenceError, SynchronizationError}
use llm_app.Contracts.Backend.{Backend, FinishReason}
use llm_app.InferenceRuntime.Errors.{
  RuntimeError, CleanupFailureReport, CleanupResource, CleanupRetryState, RuntimeOperation,
  FailureClass, failure_class,
}
use llm_app.InferenceRuntime.Footprints.{checked_add_footprint, checked_sub_footprint}
use llm_app.InferenceRuntime.Registry.{
  ModelSlot, RequestSlot, PendingSequence, Runtime, request_model_id, slot_of, put_slot, transition,
  checked_sub_one, checked_add_one, cleanup_retention_error, maximum_cleanup_attempts,
}

pub finish_operation : FinishReason → RuntimeOperation
finish_operation (FinishReason.cancelled reason) = RuntimeOperation.cancellation
finish_operation _ = RuntimeOperation.completion

pub finish_failure_class : FinishReason → FailureClass
finish_failure_class (FinishReason.cancelled reason) = FailureClass.cancellation
finish_failure_class (FinishReason.buffer_exhausted capacity) = FailureClass.capacity
finish_failure_class _ = FailureClass.completion

abbrev pub is_release : LifecycleAction → Bool
is_release LifecycleAction.release_model = true
is_release _ = false

abbrev pub is_unloading : ModelLifecycleState → Bool
is_unloading ModelLifecycleState.unloading = true
is_unloading _ = false

abbrev pub is_empty {ℓ} : {A : Type ℓ} → List A → Bool
is_empty [] = true
is_empty (x ∷ xs) = false

module _ {B : Backend} where
  -- What `release_model_with_primary` wants of a model.
  abbrev pub is_releasable : ModelSlot B → Bool
  is_releasable slot =
      is_empty slot.requests
      && is_empty slot.pending_sequences
      && is_unloading slot.lifecycle.state
      && footprint_eq slot.reserved_footprint slot.model_footprint

  quarantine_model :
      ℕ → RuntimeOperation → FailureClass → SynchronizationError → Runtime B (Unit {0})
  quarantine_model model_id operation failure cleanup = do
    let report : CleanupFailureReport = record {
      primary_operation = operation;
      primary_failure = failure;
      cleanup_operation = RuntimeOperation.model_unload;
      cleanup_failure = failure_class (RuntimeError.synchronization cleanup);
    }
    slot ← slot_of {B = B} model_id
    attempts ← read maximum_cleanup_attempts
    let state : CleanupRetryState = record {
      resource = CleanupResource.model model_id;
      failure = report;
      attempts = 1;
      maximum_attempts = attempts;
    }
    update λ rt. record rt {
      models = remove model_id rt.models;
      pending_models =
          insert model_id
            (record {
              model = slot.model;
              footprint = slot.model_footprint;
              failure = report;
              attempts = 1;
              cancelled_requests = slot.cancelled_requests_during_unload;
            })
            rt.pending_models;
      last_cleanup = some state;
    }
    refuse (cleanup_retention_error state)

  discard_model : ℕ → Runtime B (Unit {0})
  discard_model model_id = do
    transition model_id complete_unload
    slot ← slot_of {B = B} model_id
    update λ rt. record rt { models = remove model_id rt.models }
    reserved ← read λ rt. rt.reserved_footprint
    next ← lift (checked_sub_footprint reserved slot.model_footprint)
    update λ rt. record rt { reserved_footprint = next }

  pub release_model_with_primary : ℕ → RuntimeOperation → FailureClass → Runtime B (Unit {0})
  unfolding quarantine_model discard_model slot_of
  release_model_with_primary model_id operation failure = do
    slot ← slot_of {B = B} model_id
    demand (is_releasable slot) (RuntimeError.lifecycle LifecycleError.invalid_transition)
    let prepared = B.prepare_unload slot.model
    put_slot model_id (record slot { model = prepared.1 })
    elim prepared.0 [
      | err cleanup ↦ quarantine_model model_id operation failure cleanup
      | ok done ↦ discard_model model_id
    ]

  pub release_model : ℕ → Runtime B (Unit {0})
  unfolding release_model_with_primary
  release_model model_id =
      release_model_with_primary model_id RuntimeOperation.model_unload FailureClass.completion

  abbrev pub pending_sequence : ℕ → CleanupFailureReport → RequestSlot B → PendingSequence B
  pending_sequence request_id report request = record {
    request_id = request_id;
    sequence_id = B.id request.sequence;
    sequence = request.sequence;
    footprint = request.backend_footprint;
    failure = report;
    attempts = 1;
  }

  -- A sequence that the backend fails to destroy stays owned and charged, without its workspace.
  unfoldable pub quarantine_request :
      ℕ → ℕ → RuntimeOperation → FailureClass → SequenceError → Runtime B (Unit {0})
  quarantine_request model_id request_id operation failure cleanup = do
    let report : CleanupFailureReport = record {
      primary_operation = operation;
      primary_failure = failure;
      cleanup_operation = RuntimeOperation.sequence_destruction;
      cleanup_failure = failure_class (RuntimeError.sequence cleanup);
    }
    slot ← slot_of {B = B} model_id
    request ← lift (ok_or (get slot.requests request_id) RuntimeError.backend_contract_violation)
    let sequence_id = B.id request.sequence
    put_slot model_id (record slot { requests = remove request_id slot.requests })
    reserved ← lift (checked_sub_footprint slot.reserved_footprint request.workspace_footprint)
    put_slot model_id (record slot {
      requests = remove request_id slot.requests;
      reserved_footprint = reserved;
      pending_sequences =
          insert request_id (pending_sequence request_id report request) slot.pending_sequences;
      poisoned = true;
    })
    action ← transition model_id finish_request
    update λ rt. record rt {
      request_index = remove request_id rt.request_index;
      sequence_index = remove sequence_id rt.sequence_index;
      pending_request_index = insert request_id model_id rt.pending_request_index;
      pending_sequence_index = insert sequence_id request_id rt.pending_sequence_index;
    }
    active ← read λ rt. rt.active_requests
    fewer ← lift (checked_sub_one active)
    update λ rt. record rt { active_requests = fewer }
    pending ← read λ rt. rt.pending_cleanup_sequences
    more ← lift (checked_add_one pending)
    attempts ← read maximum_cleanup_attempts
    let state : CleanupRetryState = record {
      resource = CleanupResource.sequence model_id request_id sequence_id;
      failure = report;
      attempts = 1;
      maximum_attempts = attempts;
    }
    update λ rt. record rt { pending_cleanup_sequences = more; last_cleanup = some state }
    refuse (cleanup_retention_error state)

  -- A sequence that is destroyed gives its memory back; the workspace is released by its owner.
  pub retire_request : ℕ → ℕ → RuntimeOperation → FailureClass → Runtime B (Unit {0})
  unfolding release_model_with_primary
  retire_request model_id request_id operation failure = do
    slot ← slot_of {B = B} model_id
    request ← lift (ok_or (get slot.requests request_id) RuntimeError.backend_contract_violation)
    put_slot model_id (record slot { requests = remove request_id slot.requests })
    charged ← lift (checked_add_footprint request.backend_footprint request.workspace_footprint)
    reserved ← lift (checked_sub_footprint slot.reserved_footprint charged)
    put_slot model_id
        (record slot { requests = remove request_id slot.requests; reserved_footprint = reserved })
    action ← transition model_id finish_request
    update λ rt. record rt {
      request_index = remove request_id rt.request_index;
      sequence_index = remove (B.id request.sequence) rt.sequence_index;
    }
    active ← read λ rt. rt.active_requests
    fewer ← lift (checked_sub_one active)
    update λ rt. record rt { active_requests = fewer }
    total ← read λ rt. rt.reserved_footprint
    next ← lift (checked_sub_footprint total request.backend_footprint)
    update λ rt. record rt { reserved_footprint = next }
    elim (is_release action) [
      | true ↦ release_model_with_primary model_id operation failure
      | false ↦ succeed tt
    ]

  unfoldable pub remove_request : ℕ → RuntimeOperation → FailureClass → Runtime B (Unit {0})
  unfolding quarantine_request retire_request request_model_id slot_of
  remove_request request_id operation failure = do
    model_id ← request_model_id request_id
    slot ← slot_of {B = B} model_id
    request ←
        lift (ok_or (get slot.requests request_id) (RuntimeError.request_not_active request_id))
    let destroyed = B.destroy_sequence slot.model request.sequence
    put_slot model_id (record slot {
      model = destroyed.1;
      requests = insert request_id (record request { sequence = destroyed.2 }) slot.requests;
    })
    elim destroyed.0 [
      | err cleanup ↦ quarantine_request model_id request_id operation failure cleanup
      | ok done ↦ retire_request model_id request_id operation failure
    ]

  pub complete_request : ℕ → FinishReason → Runtime B FinishReason
  unfolding remove_request
  complete_request request_id reason = do
    remove_request request_id (finish_operation reason) (finish_failure_class reason)
    succeed reason

  pub cancel_request : ℕ → CancellationReason → Runtime B FinishReason
  unfolding remove_request
  cancel_request request_id reason = do
    remove_request request_id RuntimeOperation.cancellation FailureClass.cancellation
    succeed (FinishReason.cancelled reason)

  pub fail_request : ℕ → RuntimeOperation → FailureClass → Runtime B (Unit {0})
  unfolding remove_request
  fail_request = remove_request

  pub release_generation_workspace : MemoryFootprint → Runtime B (Unit {0})
  release_generation_workspace footprint = do
    workspaces ← read λ rt. rt.generation_workspaces
    fewer ← lift (checked_sub_one workspaces)
    workspace ← read λ rt. rt.reserved_generation_workspace
    next_workspace ← lift (checked_sub_footprint workspace footprint)
    reserved ← read λ rt. rt.reserved_footprint
    next ← lift (checked_sub_footprint reserved footprint)
    update λ rt. record rt {
      generation_workspaces = fewer;
      reserved_generation_workspace = next_workspace;
      reserved_footprint = next;
    }
