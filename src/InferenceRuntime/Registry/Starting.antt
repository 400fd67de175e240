-- ===== src/InferenceRuntime/Registry/Starting.antt =====
-- crates/engines/inference-runtime/src/runtime.rs: `start_request_with_reservation`, the admission of a request and
-- of its sequence.
use llm_app.Prelude.{ℕ, true, ◌&&◌, ◌==◌, if◌then◌else◌, Option, none, some, ok, err, insert}
use llm_app.Prelude.Transactions.{◌>>=◌, ◌>>◌, lift, read, refuse, succeed, update}
use llm_app.Contracts.Lifecycle.{ModelLifecycleState, LifecycleError}
use llm_app.Contracts.Lifecycle
use llm_app.Contracts.Model.{
  ModelHandle, SequenceConfiguration, SequenceError, MemoryFootprint, no_footprint,
}
use llm_app.Contracts.Backend.{Backend}
use llm_app.InferenceRuntime.Errors.{
  RuntimeError, RuntimeOperation, CleanupFailureReport, CleanupResource, CleanupRetryState,
  failure_class,
}
use llm_app.InferenceRuntime.Registry.{
  Runtime, slot_of, put_slot, checked_add_one, cleanup_retention_error, maximum_cleanup_attempts,
}
use llm_app.InferenceRuntime.Registry.Preflight.{RequestAdmission, model_result, admit_request}

pub record RequestStartReceipt : Type 0 where
  pub request_id : ℕ
  pub sequence_id : ℕ
  pub logits_capacity : ℕ
  pub reserved_footprint : MemoryFootprint

module _ {B : Backend} where
  -- A sequence that is refused and cannot be destroyed stays charged, without its workspace.
  pub quarantine_sequence :
      RequestAdmission → B.Sequence → RuntimeError → SequenceError → Runtime B RequestStartReceipt
  quarantine_sequence a sequence primary cleanup = do
    let report : CleanupFailureReport = record {
      primary_operation = RuntimeOperation.sequence_admission;
      primary_failure = failure_class primary;
      cleanup_operation = RuntimeOperation.sequence_destruction;
      cleanup_failure = failure_class (RuntimeError.sequence cleanup);
    }
    slot ← slot_of {B = B} a.handle.id
    put_slot a.handle.id (record slot {
      pending_sequences =
          insert a.request_id
            (record {
              request_id = a.request_id;
              sequence_id = a.sequence_id;
              sequence = sequence;
              footprint = a.plan.expected_footprint;
              failure = report;
              attempts = 1;
            })
            slot.pending_sequences;
      reserved_footprint = a.backend_next_slot_reserved;
      poisoned = true;
    })
    update λ rt. record rt {
      pending_request_index = insert a.request_id a.handle.id rt.pending_request_index;
      pending_sequence_index = insert a.sequence_id a.request_id rt.pending_sequence_index;
    }
    pending ← read λ rt. rt.pending_cleanup_sequences
    more ← lift (checked_add_one pending)
    maximum ← read maximum_cleanup_attempts
    let state : CleanupRetryState = record {
      resource = CleanupResource.sequence a.handle.id a.request_id a.sequence_id;
      failure = report;
      attempts = 1;
      maximum_attempts = maximum;
    }
    update λ rt. record rt {
      pending_cleanup_sequences = more;
      reserved_footprint = a.backend_next_reserved;
      last_cleanup = some state;
    }
    refuse (cleanup_retention_error state)

  pub refuse_sequence : RequestAdmission → B.Sequence → RuntimeError → Runtime B RequestStartReceipt
  refuse_sequence a sequence primary = do
    slot ← slot_of {B = B} a.handle.id
    let destroyed = B.destroy_sequence slot.model sequence
    put_slot a.handle.id (record slot { model = destroyed.1 })
    elim destroyed.0 [
      | ok done ↦ refuse primary
      | err cleanup ↦ quarantine_sequence a destroyed.2 primary cleanup
    ]

  pub commit_request : RequestAdmission → B.Sequence → Runtime B RequestStartReceipt
  commit_request a sequence = do
    slot ← slot_of {B = B} a.handle.id
    put_slot a.handle.id (record slot {
      requests =
          insert a.request_id
            (record {
              sequence = sequence;
              backend_footprint = a.plan.expected_footprint;
              workspace_footprint = a.workspace_footprint;
              usage = record { prompt_tokens = 0; generated_tokens = 0 };
            })
            slot.requests;
      reserved_footprint = a.committed_next_slot_reserved;
    })
    update λ rt. record rt {
      request_index = insert a.request_id a.handle.id rt.request_index;
      sequence_index = insert a.sequence_id a.request_id rt.sequence_index;
      active_requests = a.next_active_requests;
      reserved_footprint = a.committed_next_reserved;
      generation_workspaces = a.next_generation_workspaces;
      reserved_generation_workspace = a.next_reserved_generation_workspace;
    }
    succeed (record {
      request_id = a.request_id;
      sequence_id = a.sequence_id;
      logits_capacity = a.plan.logits_capacity;
      reserved_footprint = a.committed_footprint;
    })

  pub conclude_start : RequestAdmission → B.Sequence → Runtime B RequestStartReceipt
  conclude_start a sequence = do
    slot ← slot_of {B = B} a.handle.id
    let started = Lifecycle.start_request slot.lifecycle
    if B.id sequence == a.sequence_id
          && B.token_capacity sequence == a.plan.configuration.maximum_tokens
        then put_slot a.handle.id (record slot { lifecycle = started.1 }) >> elim started.0 [
          | ok action ↦ commit_request a sequence
          | err e ↦ refuse_sequence a sequence (RuntimeError.lifecycle e)
        ]
        else refuse_sequence a sequence RuntimeError.backend_contract_violation

  pub start_request_with_reservation :
      ModelHandle
      → ℕ
      → ℕ
      → SequenceConfiguration
      → MemoryFootprint
      → Option ℕ
      → Runtime B RequestStartReceipt
  start_request_with_reservation handle request_id sequence_id configuration workspace
        expected_logits =
      do
        a ← admit_request handle request_id sequence_id configuration workspace expected_logits
        slot ← slot_of {B = B} a.handle.id
        let created = B.create_sequence slot.model a.sequence_id configuration
        put_slot a.handle.id (record slot { model = created.1 })
        sequence ← lift (model_result created.0)
        conclude_start a sequence

  pub start_request : ModelHandle → ℕ → ℕ → SequenceConfiguration → Runtime B RequestStartReceipt
  start_request handle request_id sequence_id configuration =
      start_request_with_reservation handle request_id sequence_id configuration no_footprint none

  pub start_generation_request :
      ModelHandle
      → ℕ
      → ℕ
      → SequenceConfiguration
      → MemoryFootprint
      → ℕ
      → Runtime B RequestStartReceipt
  start_generation_request handle request_id sequence_id configuration workspace expected_logits =
      start_request_with_reservation handle request_id sequence_id configuration workspace
        (some expected_logits)
