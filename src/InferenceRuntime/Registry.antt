-- ===== src/InferenceRuntime/Registry.antt =====
-- crates/engines/inference-runtime/src/runtime.rs: `InferenceRuntime`, the synchronous registry with exclusive
-- ownership of every loaded model, over any backend. A `BTreeMap` is an ascending list of entries.
pub mod Accounting
pub mod Removal
pub mod Execution
pub mod Cleanup
pub mod Loading
pub mod Preflight
pub mod Starting
pub mod Examples
use llm_app.Prelude.{
  ℕ, ◌+◌, ◌-◌, contains_key, Bool, true, false, ◌==◌, leb, ltb, if◌then◌else◌, not, ◌&&◌, ◌||◌,
  Option, none, some, List, [], ◌∷◌, length, Result, ok, err, ok_or, get, insert, remove, u32_max,
  u64_max, checked_add,
}
use llm_app.Prelude.Transactions.{Transaction, ◌>>=◌, ◌>>◌, lift, read, refuse, succeed, update}
use llm_app.Contracts.Lifecycle.{
  ModelLifecycle, ModelLifecycleState, LifecycleAction, LifecycleError,
}
use llm_app.Contracts.Lifecycle
use llm_app.Contracts.Model.{ModelHandle, handle_eq, MemoryFootprint, no_footprint, ModelDescriptor}
use llm_app.Contracts.Backend.{Backend, GenerationUsage}
use llm_app.InferenceRuntime.Errors.{
  RuntimeError, RuntimeLimits, CleanupFailureReport, CleanupResource, CleanupRetryState,
  RuntimeOperation, FailureClass, is_exhausted,
}

pub record RequestSlot (B : Backend) : Type 0 where
  pub sequence : B.Sequence
  pub backend_footprint : MemoryFootprint
  pub workspace_footprint : MemoryFootprint
  pub usage : GenerationUsage

pub record PendingSequence (B : Backend) : Type 0 where
  pub request_id : ℕ
  pub sequence_id : ℕ
  pub sequence : B.Sequence
  pub footprint : MemoryFootprint
  pub failure : CleanupFailureReport
  pub attempts : ℕ

pub record ModelSlot (B : Backend) : Type 0 where
  pub handle : ModelHandle
  pub descriptor : ModelDescriptor
  pub lifecycle : ModelLifecycle
  pub model : B.Model
  pub model_footprint : MemoryFootprint
  pub reserved_footprint : MemoryFootprint
  pub requests : List (ℕ × RequestSlot B)
  pub pending_sequences : List (ℕ × PendingSequence B)
  pub poisoned : Bool
  pub cancelled_requests_during_unload : ℕ

pub record PendingModel (B : Backend) : Type 0 where
  pub model : B.Model
  pub footprint : MemoryFootprint
  pub failure : CleanupFailureReport
  pub attempts : ℕ
  pub cancelled_requests : ℕ

pub record InferenceRuntime (B : Backend) : Type 0 where
  pub loader : B.Loader
  pub limits : RuntimeLimits
  pub models : List (ℕ × ModelSlot B)
  pub pending_models : List (ℕ × PendingModel B)
  pub request_index : List (ℕ × ℕ)
  pub sequence_index : List (ℕ × ℕ)
  pub pending_request_index : List (ℕ × ℕ)
  pub pending_sequence_index : List (ℕ × ℕ)
  pub generations : List (ℕ × ℕ)
  pub reserved_footprint : MemoryFootprint
  pub reserved_generation_workspace : MemoryFootprint
  pub active_requests : ℕ
  pub generation_workspaces : ℕ
  pub pending_cleanup_sequences : ℕ
  pub last_cleanup : Option CleanupRetryState
  pub maintenance_error : Option RuntimeError
  pub shutting_down : Bool

pub new : (B : Backend) → B.Loader → RuntimeLimits → InferenceRuntime B
new B loader limits = record {
  loader = loader;
  limits = limits;
  models = [];
  pending_models = [];
  request_index = [];
  sequence_index = [];
  pending_request_index = [];
  pending_sequence_index = [];
  generations = [];
  reserved_footprint = no_footprint;
  reserved_generation_workspace = no_footprint;
  active_requests = 0;
  generation_workspaces = 0;
  pending_cleanup_sequences = 0;
  last_cleanup = none;
  maintenance_error = none;
  shutting_down = false;
}

abbrev pub lifecycle_result :
    Result LifecycleError LifecycleAction → Result RuntimeError LifecycleAction
lifecycle_result (ok action) = ok action
lifecycle_result (err e) = err (RuntimeError.lifecycle e)

pub cleanup_retention_error : CleanupRetryState → RuntimeError
cleanup_retention_error s =
    if is_exhausted s
    then RuntimeError.cleanup_retry_exhausted s
    else RuntimeError.cleanup_failed s.failure

-- The counters are `u32`s.
abbrev pub checked_sub_one : ℕ → Result RuntimeError ℕ
checked_sub_one n = if leb 1 n then ok (n - 1) else err RuntimeError.backend_contract_violation

abbrev pub checked_add_one : ℕ → Result RuntimeError ℕ
checked_add_one n = ok_or (checked_add u32_max n 1) RuntimeError.backend_contract_violation

-- A method on `&mut self` with a result.
abbrev pub Runtime : Backend → Type 0 → Type 0
Runtime B = Transaction (InferenceRuntime B) RuntimeError

module _ {B : Backend} where
  abbrev pub maximum_cleanup_attempts : InferenceRuntime B → ℕ
  maximum_cleanup_attempts rt = rt.limits.cleanup_maximum_attempts

  pub request_model_id : ℕ → Runtime B ℕ
  request_model_id request_id rt =
      (ok_or (get rt.request_index request_id) (RuntimeError.request_not_active request_id), rt)

  -- `models.get_mut(&model_id).ok_or(ModelNotLoaded)`; a write through it is `put_slot`.
  pub slot_of : ℕ → Runtime B (ModelSlot B)
  slot_of model_id rt =
      (ok_or (get rt.models model_id) (RuntimeError.model_not_loaded model_id), rt)

  abbrev pub put_slot : ℕ → ModelSlot B → Runtime B (Unit {0})
  put_slot model_id slot = update λ rt. record rt { models = insert model_id slot rt.models }

  pub exact_model : ModelHandle → Runtime B (ModelSlot B)
  unfolding slot_of
  exact_model handle = do
    slot ← slot_of handle.id
    if handle_eq slot.handle handle
        then succeed slot
        else refuse (RuntimeError.stale_model_handle handle slot.handle)

  -- A call on the lifecycle of a slot, with the slot as it is then.
  pub transition : ℕ → (ModelLifecycle → Lifecycle.Outcome) → Runtime B LifecycleAction
  unfolding slot_of
  transition model_id call = do
    slot ← slot_of model_id
    put_slot model_id (record slot { lifecycle = (call slot.lifecycle).1 })
    lift (lifecycle_result (call slot.lifecycle).0)

  pub sequence_cleanup_state : InferenceRuntime B → ℕ → PendingSequence B → CleanupRetryState
  sequence_cleanup_state rt model_id pending = record {
    resource = CleanupResource.sequence model_id pending.request_id pending.sequence_id;
    failure = pending.failure;
    attempts = pending.attempts;
    maximum_attempts = maximum_cleanup_attempts rt;
  }

  pub model_cleanup_retry_state : InferenceRuntime B → ℕ → PendingModel B → CleanupRetryState
  model_cleanup_retry_state rt model_id pending = record {
    resource = CleanupResource.model model_id;
    failure = pending.failure;
    attempts = pending.attempts;
    maximum_attempts = maximum_cleanup_attempts rt;
  }

  pub request_cleanup_state : InferenceRuntime B → ℕ → Option CleanupRetryState
  unfolding sequence_cleanup_state
  request_cleanup_state rt request_id = elim (get rt.pending_request_index request_id) [
    | none ↦ none
    | some model_id ↦ elim (get rt.models model_id) [
      | none ↦ none
      | some slot ↦ elim (get slot.pending_sequences request_id) [
        | none ↦ none
        | some pending ↦ some (sequence_cleanup_state rt model_id pending)
      ]
    ]
  ]

  pub is_request_active : InferenceRuntime B → ℕ → Bool
  is_request_active rt request_id = contains_key rt.request_index request_id

  pub is_request_cleanup_pending : InferenceRuntime B → ℕ → Bool
  is_request_cleanup_pending rt request_id = contains_key rt.pending_request_index request_id

  pub model_cleanup_state : InferenceRuntime B → ℕ → Option CleanupRetryState
  unfolding model_cleanup_retry_state
  model_cleanup_state rt model_id = elim (get rt.pending_models model_id) [
    | none ↦ none
    | some pending ↦ some (model_cleanup_retry_state rt model_id pending)
  ]
