-- ===== src/InferenceRuntime/Registry/Removal/Tests.antt =====
-- Runs of the end of a request (crates/engines/inference-runtime/src/runtime.rs), and its theorems at them.
use llm_app.Prelude.{◌∷◌, ◌≡◌, refl, [], err}
use llm_app.InferenceRuntime.Errors.{RuntimeError, RuntimeOperation, FailureClass}
use llm_app.InferenceRuntime.Footprints.{checked_sub_footprint, checked_add_footprint}
use llm_app.Contracts.Lifecycle.{finish_request, ModelLifecycleState, LifecycleError}
use llm_app.Contracts.Capacity.{CancellationReason}
use llm_app.InferenceRuntime.Registry.{
  InferenceRuntime, new, slot_of, request_model_id, transition, get, ok, ModelSlot, some, true,
}
use llm_app.InferenceRuntime.Registry.Accounting.{IsBalanced}
use llm_app.InferenceRuntime.Registry.Removal.{remove_request, quarantine_request}
use llm_app.InferenceRuntime.Registry.Removal.Release.{FailsOrderly}
use llm_app.InferenceRuntime.Registry.Removal.Requests.{remove_request-IsBalanced}
use llm_app.InferenceRuntime.Registry.{PendingSequence}
use llm_app.InferenceRuntime.Errors.{failure_class}
use llm_app.Contracts.Lifecycle.{LifecycleAction}
use llm_app.InferenceRuntime.Registry.Removal.Refusals.{remove_request-quarantine}
use llm_app.InferenceRuntime.Registry.Examples.{registry_in, registry_in-IsBalanced}
use llm_app.InferenceRuntime.Examples.{bytes, request, toy, registry, active_slot}

abbrev unloading : InferenceRuntime toy
unloading = registry_in (ModelLifecycleState.cancelling 2 CancellationReason.model_unload)

abbrev quarantined : InferenceRuntime toy
quarantined = (remove_request 9 RuntimeOperation.cancellation FailureClass.cancellation unloading).1

abbrev quarantined_sequence : PendingSequence toy
quarantined_sequence = record {
  request_id = 9;
  sequence_id = 9;
  sequence = 9;
  footprint = bytes 0 10;
  failure = record {
    primary_operation = RuntimeOperation.cancellation;
    primary_failure = FailureClass.cancellation;
    cleanup_operation = RuntimeOperation.sequence_destruction;
    cleanup_failure = FailureClass.sequence;
  };
  attempts = 1;
}

abbrev quarantined_slot : ModelSlot toy
quarantined_slot = record active_slot {
  lifecycle = record { state = ModelLifecycleState.cancelling 1 CancellationReason.model_unload };
  requests = (5, request 5) ∷ [];
  pending_sequences = (9, quarantined_sequence) ∷ [];
  poisoned = true;
}

quarantined_there : get quarantined.models 1 ≡ some quarantined_slot
unfolding new finish_request checked_sub_footprint remove_request quarantine_request slot_of
    request_model_id transition failure_class
quarantined_there = refl

quarantined_index : get quarantined.request_index 5 ≡ some 1
unfolding new finish_request checked_sub_footprint remove_request quarantine_request slot_of
    request_model_id transition
quarantined_index = refl

last_action : (finish_request quarantined_slot.lifecycle).0 ≡ ok LifecycleAction.release_model
unfolding finish_request
last_action = refl

-- The sequence that cannot be destroyed is quarantined, and the other one goes.
ended :
    (remove_request 9 RuntimeOperation.completion FailureClass.completion
      registry).1.pending_cleanup_sequences
    ≡ 1
unfolding new finish_request checked_sub_footprint checked_add_footprint remove_request
    quarantine_request slot_of request_model_id transition
ended = refl

remove_request-IsBalanced_example :
    IsBalanced (remove_request 9 RuntimeOperation.completion FailureClass.completion registry).1
    × FailsOrderly (remove_request 9 RuntimeOperation.completion FailureClass.completion registry).0
remove_request-IsBalanced_example =
    remove_request-IsBalanced 9 RuntimeOperation.completion FailureClass.completion registry
      (registry_in-IsBalanced (ModelLifecycleState.active 2) refl)

remove_request-quarantine_example :
    (remove_request 5 RuntimeOperation.cancellation FailureClass.cancellation quarantined).0
    ≡ err (RuntimeError.lifecycle LifecycleError.invalid_transition)
remove_request-quarantine_example =
    remove_request-quarantine 1 5 RuntimeOperation.cancellation FailureClass.cancellation
      quarantined quarantined_slot (request 5) 9 quarantined_sequence []
      (remove_request-IsBalanced 9 RuntimeOperation.cancellation FailureClass.cancellation unloading
        (registry_in-IsBalanced (ModelLifecycleState.cancelling 2 CancellationReason.model_unload)
          refl)).0
      quarantined_index quarantined_there refl refl last_action refl
