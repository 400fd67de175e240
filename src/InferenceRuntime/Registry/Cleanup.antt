-- ===== src/InferenceRuntime/Registry/Cleanup.antt =====
-- crates/engines/inference-runtime/src/runtime.rs: `poll_cleanup`, which retries at most one quarantined cleanup.
pub mod Retries
pub mod Polls
mod Tests
use llm_app.Prelude.{
  ℕ, Bool, true, false, not, ltb, if◌then◌else◌, Option, none, some, List, [], ◌∷◌, ok, err, ok_or,
  Result,
}
use llm_app.Prelude.{get, insert, remove, find_key}
use llm_app.Prelude.Transactions.{◌>>=◌, ◌>>◌, lift, read, refuse, succeed, update}
use llm_app.Contracts.Backend.{Backend}
use llm_app.InferenceRuntime.Errors.{
  RuntimeError, RuntimeOperation, FailureClass, CleanupResource, CleanupRetryState, CleanupPoll,
  is_exhausted,
}
use llm_app.InferenceRuntime.Footprints.{checked_sub_footprint}
use llm_app.InferenceRuntime.Registry.{
  InferenceRuntime, ModelSlot, PendingSequence, PendingModel, Runtime, slot_of, put_slot,
  checked_sub_one, checked_add_one, maximum_cleanup_attempts,
}
use llm_app.InferenceRuntime.Registry.Removal.{release_model_with_primary, is_empty, is_unloading}
use llm_app.InferenceRuntime.Registry.Execution.{is_cleanup_error}

pub retry_outcome : CleanupRetryState → CleanupPoll
retry_outcome state =
    if is_exhausted state then CleanupPoll.exhausted state else CleanupPoll.retry_failed state

-- A release that leaves the model in quarantine has still released the sequence.
abbrev pub release_outcome :
    CleanupRetryState → Result RuntimeError (Unit {0}) → Result RuntimeError CleanupPoll
release_outcome state (ok done) = ok (CleanupPoll.released state)
release_outcome state (err e) =
    if is_cleanup_error e then ok (CleanupPoll.released state) else err e

abbrev pub first_of : Option ℕ → ℕ → Option (ℕ × ℕ) → Option (ℕ × ℕ)
first_of (some request_id) model_id rest = some (model_id, request_id)
first_of none model_id rest = rest

module _ {B : Backend} where
  abbrev pub can_retry_sequence : ℕ → PendingSequence B → Bool
  can_retry_sequence maximum pending = ltb pending.attempts maximum

  abbrev pub can_retry_model : ℕ → PendingModel B → Bool
  can_retry_model maximum pending = ltb pending.attempts maximum

  -- The first sequence, by model and request, that has an attempt left.
  pub find_sequence : ℕ → List (ℕ × ModelSlot B) → Option (ℕ × ℕ)
  find_sequence maximum [] = none
  find_sequence maximum ((model_id, slot) ∷ models) =
      let rest = find_sequence maximum models in
      first_of (find_key (can_retry_sequence maximum) slot.pending_sequences) model_id rest

  pub find_model : ℕ → List (ℕ × PendingModel B) → Option ℕ
  find_model maximum = find_key (can_retry_model maximum)

  release_after : ℕ → RuntimeOperation → FailureClass → CleanupRetryState → Runtime B CleanupPoll
  release_after model_id operation failure state rt =
      let released = release_model_with_primary model_id operation failure rt in
      (release_outcome state released.0, released.1)

  release_sequence : ℕ → ℕ → CleanupRetryState → Runtime B CleanupPoll
  release_sequence model_id request_id state = do
    slot ← slot_of {B = B} model_id
    removed ←
        lift (ok_or (get slot.pending_sequences request_id) RuntimeError.backend_contract_violation)
    put_slot model_id (record slot { pending_sequences = remove request_id slot.pending_sequences })
    reserved ← lift (checked_sub_footprint slot.reserved_footprint removed.footprint)
    put_slot model_id (record slot {
      pending_sequences = remove request_id slot.pending_sequences;
      reserved_footprint = reserved;
      poisoned = not (is_empty (remove request_id slot.pending_sequences));
    })
    update λ rt. record rt {
      pending_request_index = remove request_id rt.pending_request_index;
      pending_sequence_index = remove removed.sequence_id rt.pending_sequence_index;
    }
    pending ← read λ rt. rt.pending_cleanup_sequences
    fewer ← lift (checked_sub_one pending)
    update λ rt. record rt { pending_cleanup_sequences = fewer }
    total ← read λ rt. rt.reserved_footprint
    next ← lift (checked_sub_footprint total removed.footprint)
    update λ rt. record rt { reserved_footprint = next }
    elim (is_unloading slot.lifecycle.state) [
      | true ↦
          release_after model_id removed.failure.primary_operation removed.failure.primary_failure
            state
      | false ↦ succeed (CleanupPoll.released state)
    ]

  pub retry_sequence : ℕ → ℕ → Runtime B CleanupPoll
  unfolding release_sequence
  retry_sequence model_id request_id = do
    slot ← slot_of {B = B} model_id
    pending ←
        lift (ok_or (get slot.pending_sequences request_id) RuntimeError.backend_contract_violation)
    attempts ← lift (checked_add_one pending.attempts)
    maximum ← read maximum_cleanup_attempts
    let state : CleanupRetryState = record {
      resource = CleanupResource.sequence model_id request_id pending.sequence_id;
      failure = pending.failure;
      attempts = attempts;
      maximum_attempts = maximum;
    }
    let destroyed = B.destroy_sequence slot.model pending.sequence
    put_slot model_id (record slot {
      model = destroyed.1;
      pending_sequences =
          insert request_id (record pending { attempts = attempts; sequence = destroyed.2 })
            slot.pending_sequences;
    })
    update λ rt. record rt { last_cleanup = some state }
    elim destroyed.0 [
      | err e ↦ succeed (retry_outcome state)
      | ok done ↦ release_sequence model_id request_id state
    ]

  -- A quarantined model, which is in no slot.
  pub pending_model_of : ℕ → Runtime B (PendingModel B)
  pending_model_of model_id rt =
      (ok_or (get rt.pending_models model_id) (RuntimeError.model_not_loaded model_id), rt)

  release_pending_model : ℕ → CleanupRetryState → Runtime B CleanupPoll
  release_pending_model model_id state = do
    pending ← pending_model_of model_id
    update λ rt. record rt { pending_models = remove model_id rt.pending_models }
    total ← read λ rt. rt.reserved_footprint
    next ← lift (checked_sub_footprint total pending.footprint)
    update λ rt. record rt { reserved_footprint = next }
    succeed (CleanupPoll.released state)

  retry_model : ℕ → Runtime B CleanupPoll
  unfolding release_pending_model
  retry_model model_id = do
    pending ← pending_model_of model_id
    attempts ← lift (checked_add_one pending.attempts)
    maximum ← read maximum_cleanup_attempts
    let state : CleanupRetryState = record {
      resource = CleanupResource.model model_id;
      failure = pending.failure;
      attempts = attempts;
      maximum_attempts = maximum;
    }
    let prepared = B.prepare_unload pending.model
    update λ rt. record rt {
      pending_models =
          insert model_id (record pending { attempts = attempts; model = prepared.1 })
            rt.pending_models;
    }
    update λ rt. record rt { last_cleanup = some state }
    elim prepared.0 [
      | err e ↦ succeed (retry_outcome state)
      | ok done ↦ release_pending_model model_id state
    ]

  retry_any_model : Option ℕ → Runtime B CleanupPoll
  unfolding retry_model
  retry_any_model none = succeed CleanupPoll.idle
  retry_any_model (some model_id) = retry_model model_id

  retry_any : Option (ℕ × ℕ) → Runtime B CleanupPoll
  unfolding retry_sequence retry_any_model find_model
  retry_any (some (model_id, request_id)) rt = retry_sequence model_id request_id rt
  retry_any none rt =
      retry_any_model (find_model (maximum_cleanup_attempts rt) rt.pending_models) rt

  pub poll_cleanup : Runtime B CleanupPoll
  unfolding retry_any find_sequence
  poll_cleanup rt = retry_any (find_sequence (maximum_cleanup_attempts rt) rt.models) rt
