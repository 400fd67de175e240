-- ===== src/Contracts/Model.antt =====
-- crates/features/domain-contracts/src: model.rs, the handle of identifiers.rs, and the backend's errors of
-- error.rs.
use llm_app.Prelude.{ℕ, Bool, true, false, ◌&&◌, ◌==◌, u64_max, saturating_add, ℕ_discrete}
use llm_app.Contracts.Capacity.{CapacityExhausted, CancellationReason, BackendFailure}

pub record ModelHandle : Type 0 where
  pub id : ℕ
  pub generation : ℕ

abbrev pub handle_eq : ModelHandle → ModelHandle → Bool
handle_eq a b = a.id == b.id && a.generation == b.generation

pub data ModelArchitecture : Type 0 where
  llama mistral gemma qwen : ModelArchitecture
  other : ℕ → ModelArchitecture

pub data ScalarType : Type 0 where
  f32 f16 bf16 i8 u8 : ScalarType
  other : ℕ → ScalarType

pub data QuantizationFormat : Type 0 where
  unquantized int8 int4 : QuantizationFormat
  gguf other : ℕ → QuantizationFormat

pub data DeviceKind : Type 0 where
  cpu cuda metal : DeviceKind
  accelerator : ℕ → DeviceKind

-- `CapabilitySet` is its bits.
pub record ModelCapabilities : Type 0 where
  pub operations : ℕ
  pub maximum_context_tokens : ℕ
  pub maximum_sequences : ℕ
  pub maximum_prefill_batch : ℕ

pub record MemoryFootprint : Type 0 where
  pub host_weight_bytes : ℕ
  pub device_weight_bytes : ℕ
  pub host_working_bytes : ℕ
  pub device_working_bytes : ℕ
  pub cache_bytes_per_token : ℕ

-- `MemoryFootprint::default`.
abbrev pub no_footprint : MemoryFootprint
no_footprint = record {
  host_weight_bytes = 0;
  device_weight_bytes = 0;
  host_working_bytes = 0;
  device_working_bytes = 0;
  cache_bytes_per_token = 0;
}

pub host_bytes : MemoryFootprint → ℕ
host_bytes f = saturating_add u64_max f.host_weight_bytes f.host_working_bytes

pub device_bytes : MemoryFootprint → ℕ
device_bytes f = saturating_add u64_max f.device_weight_bytes f.device_working_bytes

abbrev pub footprint_eq : MemoryFootprint → MemoryFootprint → Bool
footprint_eq a b =
    a.host_weight_bytes == b.host_weight_bytes
    && a.device_weight_bytes == b.device_weight_bytes
    && a.host_working_bytes == b.host_working_bytes
    && a.device_working_bytes == b.device_working_bytes
    && a.cache_bytes_per_token == b.cache_bytes_per_token

pub record MemoryBudget : Type 0 where
  pub host_limit : ℕ
  pub device_limit : ℕ

pub record ModelMetadata : Type 0 where
  pub architecture : ModelArchitecture
  pub scalar_type : ScalarType
  pub quantization : QuantizationFormat
  pub vocabulary_size : ℕ
  pub context_length : ℕ

ModelMetadata-discrete : Discrete ModelMetadata
ModelMetadata-discrete = hlevel ℕ_discrete

pub metadata_eq : ModelMetadata → ModelMetadata → Bool
unfolding ModelMetadata-discrete
metadata_eq a b = elim (ModelMetadata-discrete a b) [ yes e ↦ true | no e ↦ false ]

pub record ModelDescriptor : Type 0 where
  pub backend : ℕ
  pub metadata : ModelMetadata
  pub capabilities : ModelCapabilities
  pub estimated_footprint : MemoryFootprint

pub record LoadConfiguration : Type 0 where
  pub handle : ModelHandle
  pub device : ℕ
  pub device_kind : DeviceKind
  pub memory_budget : MemoryBudget

pub record LoadPlan : Type 0 where
  pub descriptor : ModelDescriptor
  pub expected_footprint : MemoryFootprint

pub record SequenceConfiguration : Type 0 where
  pub maximum_tokens : ℕ
  pub maximum_prefill_batch : ℕ

abbrev pub configuration_eq : SequenceConfiguration → SequenceConfiguration → Bool
configuration_eq a b =
    a.maximum_tokens == b.maximum_tokens && a.maximum_prefill_batch == b.maximum_prefill_batch

pub record SequencePlan : Type 0 where
  pub configuration : SequenceConfiguration
  pub expected_footprint : MemoryFootprint
  pub logits_capacity : ℕ

pub data LoadError : Type 0 where
  invalid_source unsupported_architecture unsupported_format invalid_configuration : LoadError
  capacity_exhausted : CapacityExhausted → LoadError
  insufficient_memory : (required_bytes available_bytes : ℕ) → LoadError
  cancelled : CancellationReason → LoadError
  backend : BackendFailure → LoadError

pub data ModelError : Type 0 where
  invalid_state unsupported : ModelError
  capacity_exhausted : CapacityExhausted → ModelError
  backend : BackendFailure → ModelError

pub data SequenceError : Type 0 where
  invalid_state unsupported : SequenceError
  capacity_exhausted : CapacityExhausted → SequenceError
  cancelled : CancellationReason → SequenceError
  backend : BackendFailure → SequenceError

pub data SynchronizationError : Type 0 where
  invalid_state : SynchronizationError
  cancelled : CancellationReason → SynchronizationError
  backend : BackendFailure → SynchronizationError
