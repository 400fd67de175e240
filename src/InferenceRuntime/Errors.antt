-- ===== src/InferenceRuntime/Errors.antt =====
-- crates/engines/inference-runtime/src/error.rs, and the limits of configuration.rs.
use llm_app.Prelude.{ℕ, Bool, leb}
use llm_app.Contracts.Capacity.{CapacityExhausted}
use llm_app.Contracts.Lifecycle.{LifecycleError}
use llm_app.Contracts.Model.{
  ModelHandle, MemoryBudget, LoadError, ModelError, SequenceError, SynchronizationError,
}

pub data RuntimeOperation : Type 0 where
  model_admission sequence_admission prefill decode sampling completion cancellation
        sequence_destruction model_unload shutdown :
      RuntimeOperation

pub data FailureClass : Type 0 where
  backend_contract load model sequence synchronization lifecycle capacity sampling completion
        cancellation shutdown invariant :
      FailureClass

pub record CleanupFailureReport : Type 0 where
  pub primary_operation : RuntimeOperation
  pub primary_failure : FailureClass
  pub cleanup_operation : RuntimeOperation
  pub cleanup_failure : FailureClass

pub data CleanupResource : Type 0 where
  model : ℕ → CleanupResource
  sequence : (model_id request_id sequence_id : ℕ) → CleanupResource

pub record CleanupRetryState : Type 0 where
  pub resource : CleanupResource
  pub failure : CleanupFailureReport
  pub attempts : ℕ
  pub maximum_attempts : ℕ

abbrev pub is_exhausted : CleanupRetryState → Bool
is_exhausted s = leb s.maximum_attempts s.attempts

pub data CleanupPoll : Type 0 where
  idle : CleanupPoll
  released retry_failed exhausted : CleanupRetryState → CleanupPoll

pub data SamplingFailure : Type 0 where
  invalid_configuration no_candidate invalid_input : SamplingFailure
  capacity_exhausted : CapacityExhausted → SamplingFailure

pub data MemoryKind : Type 0 where
  host device : MemoryKind

pub data RuntimeError : Type 0 where
  model_already_loaded model_not_loaded request_already_active request_not_active
        sequence_already_active model_generation_exhausted model_degraded :
      ℕ → RuntimeError
  stale_model_handle : (provided current : ModelHandle) → RuntimeError
  shutting_down memory_arithmetic_overflow memory_arithmetic_underflow backend_contract_violation :
      RuntimeError
  loaded_model_limit : (required available : ℕ) → RuntimeError
  capacity_exhausted : CapacityExhausted → RuntimeError
  insufficient_memory : MemoryKind → (required_bytes available_bytes : ℕ) → RuntimeError
  load : LoadError → RuntimeError
  model : ModelError → RuntimeError
  sequence : SequenceError → RuntimeError
  synchronization : SynchronizationError → RuntimeError
  lifecycle : LifecycleError → RuntimeError
  sampling : SamplingFailure → RuntimeError
  cleanup_failed : CleanupFailureReport → RuntimeError
  cleanup_retry_exhausted : CleanupRetryState → RuntimeError

unfoldable pub failure_class : RuntimeError → FailureClass
failure_class (RuntimeError.load e) = FailureClass.load
failure_class (RuntimeError.model e) = FailureClass.model
failure_class (RuntimeError.sequence e) = FailureClass.sequence
failure_class (RuntimeError.synchronization e) = FailureClass.synchronization
failure_class (RuntimeError.lifecycle e) = FailureClass.lifecycle
failure_class (RuntimeError.capacity_exhausted c) = FailureClass.capacity
failure_class (RuntimeError.insufficient_memory k r a) = FailureClass.capacity
failure_class (RuntimeError.loaded_model_limit r a) = FailureClass.capacity
failure_class (RuntimeError.sampling f) = FailureClass.sampling
failure_class RuntimeError.shutting_down = FailureClass.shutdown
failure_class RuntimeError.backend_contract_violation = FailureClass.backend_contract
failure_class (RuntimeError.cleanup_failed report) = report.primary_failure
failure_class (RuntimeError.cleanup_retry_exhausted s) = s.failure.primary_failure
failure_class (RuntimeError.model_already_loaded n) = FailureClass.invariant
failure_class (RuntimeError.model_not_loaded n) = FailureClass.invariant
failure_class (RuntimeError.request_already_active n) = FailureClass.invariant
failure_class (RuntimeError.request_not_active n) = FailureClass.invariant
failure_class (RuntimeError.sequence_already_active n) = FailureClass.invariant
failure_class (RuntimeError.model_generation_exhausted n) = FailureClass.invariant
failure_class (RuntimeError.model_degraded n) = FailureClass.invariant
failure_class (RuntimeError.stale_model_handle p c) = FailureClass.invariant
failure_class RuntimeError.memory_arithmetic_overflow = FailureClass.invariant
failure_class RuntimeError.memory_arithmetic_underflow = FailureClass.invariant

pub record RuntimeLimits : Type 0 where
  pub maximum_loaded_models : ℕ
  pub maximum_active_requests : ℕ
  pub memory_budget : MemoryBudget
  pub cleanup_maximum_attempts : ℕ
