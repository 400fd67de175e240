-- ===== src/InferenceRuntime/Registry/Execution/Tests.antt =====
-- A run of `decode` and `prefill` of crates/engines/inference-runtime/src/runtime.rs, and their theorems at it.
use llm_app.Prelude.{ℕ, ◌≡◌, refl, true, List, [], ◌∷◌, ok}
use llm_app.Contracts.Lifecycle.{ModelLifecycleState}
use llm_app.Contracts.Backend.{PrefillInput, PrefillOutcome, prefill_checked, prepare}
use llm_app.InferenceRuntime.Registry.{InferenceRuntime, new, slot_of, request_model_id}
use llm_app.InferenceRuntime.Registry.Accounting.{IsBalanced}
use llm_app.InferenceRuntime.Registry.Examples.{registry_in, registry_in-IsBalanced}
use llm_app.InferenceRuntime.Registry.Execution.{
  prefill, decode, prefill_found, find_request, conclude_prefill, prefill_usage,
}
use llm_app.InferenceRuntime.Registry.Execution.Steps.{
  FailsExecution, prefill-IsBalanced, decode-IsBalanced,
}
use llm_app.InferenceRuntime.Examples.{toy}

abbrev input : PrefillInput
input = record { tokens = 3 ∷ 4 ∷ []; emit_logits = true }

abbrev logits : List ℕ
logits = 0 ∷ 0 ∷ 0 ∷ 0 ∷ 0 ∷ 0 ∷ 0 ∷ 0 ∷ []

abbrev active : InferenceRuntime toy
active = registry_in (ModelLifecycleState.active 2)

prefilled :
    (prefill {B = toy} 5 input logits active).0
    ≡ ok (record {
      outcome = PrefillOutcome.ready 2 1 8;
      usage = record { prompt_tokens = 2; generated_tokens = 0 };
    })
unfolding prefill prefill_found find_request conclude_prefill prefill_usage new prefill_checked
    prepare slot_of request_model_id
prefilled = refl

prefill-IsBalanced_example :
    IsBalanced (prefill {B = toy} 5 input logits active).1
    × FailsExecution (prefill {B = toy} 5 input logits active).0
prefill-IsBalanced_example =
    prefill-IsBalanced 5 input logits active
      (registry_in-IsBalanced (ModelLifecycleState.active 2) refl)

decode-IsBalanced_example :
    IsBalanced (decode {B = toy} 9 3 logits active).1
    × FailsExecution (decode {B = toy} 9 3 logits active).0
decode-IsBalanced_example =
    decode-IsBalanced 9 3 logits active (registry_in-IsBalanced (ModelLifecycleState.active 2) refl)
