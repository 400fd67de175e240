-- ===== src/InferenceRuntime/Registry/Cleanup/Tests.antt =====
-- A poll of the cleanup of crates/engines/inference-runtime/src/runtime.rs, and its theorem at it.
use llm_app.Prelude.{◌≤◌, refl, arith}
use llm_app.Prelude.{u32_max}
use llm_app.Contracts.Lifecycle.{ModelLifecycleState, finish_request}
use llm_app.InferenceRuntime.Errors.{RuntimeOperation, FailureClass}
use llm_app.InferenceRuntime.Footprints.{checked_sub_footprint}
use llm_app.InferenceRuntime.Registry.{InferenceRuntime, new, slot_of, request_model_id, transition}
use llm_app.InferenceRuntime.Registry.Accounting.{IsBalanced}
use llm_app.InferenceRuntime.Registry.Removal.{remove_request, quarantine_request}
use llm_app.InferenceRuntime.Registry.Removal.Release.{FailsOrderly}
use llm_app.InferenceRuntime.Registry.Removal.Requests.{remove_request-IsBalanced}
use llm_app.InferenceRuntime.Registry.Cleanup.{poll_cleanup}
use llm_app.InferenceRuntime.Registry.Cleanup.Polls.{poll_cleanup-IsBalanced}
use llm_app.InferenceRuntime.Registry.Examples.{registry_in, registry_in-IsBalanced}
use llm_app.InferenceRuntime.Examples.{toy}

-- The registry with one quarantined sequence.
abbrev quarantined : InferenceRuntime toy
quarantined =
    (remove_request 9 RuntimeOperation.cancellation FailureClass.cancellation
      (registry_in (ModelLifecycleState.active 2))).1

quarantined-IsBalanced : IsBalanced quarantined
quarantined-IsBalanced =
    (remove_request-IsBalanced 9 RuntimeOperation.cancellation FailureClass.cancellation
      (registry_in (ModelLifecycleState.active 2))
      (registry_in-IsBalanced (ModelLifecycleState.active 2) refl)).0

three_attempts : quarantined.limits.cleanup_maximum_attempts ≤ u32_max
unfolding new remove_request quarantine_request finish_request checked_sub_footprint slot_of
    request_model_id transition
three_attempts = omega arith

poll_cleanup-IsBalanced_example :
    IsBalanced (poll_cleanup quarantined).1 × FailsOrderly (poll_cleanup quarantined).0
poll_cleanup-IsBalanced_example =
    poll_cleanup-IsBalanced quarantined quarantined-IsBalanced three_attempts
