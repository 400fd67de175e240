-- ===== src/Contracts/Capacity.antt =====
-- crates/features/domain-contracts/src: capacity.rs, time.rs, error.rs and the reasons of generation.rs.
-- Identifiers are newtypes over `u64` (`TokenId` over `u32`) and are plain numbers here.
use llm_app.Prelude.{ℕ, ◌-◌}

pub data CapacityResource : Type 0 where
  tokens logits candidate_indices repetition_history decode_bytes output_bytes output_records
        backend_scratch active_requests active_sequences prefill_batch context_entries
        sampling_indices sampling_mask task_nodes task_edges :
      CapacityResource

pub record CapacityExhausted : Type 0 where
  pub resource : CapacityResource
  pub required : ℕ
  pub available : ℕ

pub data CancellationReason : Type 0 where
  user_requested model_unload drain_timeout runtime_shutdown parent_task : CancellationReason

pub data BackendFailureKind : Type 0 where
  invalid_model unsupported host_memory device_memory device_execution synchronization
        foreign_function invalid_state internal :
      BackendFailureKind

pub record BackendFailure : Type 0 where
  pub backend : ℕ
  pub kind : BackendFailureKind
  pub failure_code : ℕ

-- `MonotonicMillis::elapsed_since` saturates at zero, as `-` does here.
abbrev pub elapsed_since : ℕ → ℕ → ℕ
elapsed_since now earlier = now - earlier
