-- ===== src/InferenceRuntime/Registry/Loading/Tests.antt =====
-- The admission of a second model (crates/engines/inference-runtime/src/runtime.rs) into a registry with one.
use llm_app.Prelude.{refl}
use llm_app.Contracts.Lifecycle.{ModelLifecycleState}
use llm_app.Contracts.Model.{DeviceKind}
use llm_app.InferenceRuntime.Registry.Accounting.{IsBalanced}
use llm_app.InferenceRuntime.Registry.Loading.{load_model}
use llm_app.InferenceRuntime.Registry.Loading.Admitted.{load_model-IsBalanced}
use llm_app.InferenceRuntime.Registry.Examples.{registry_in, registry_in-IsBalanced}
use llm_app.InferenceRuntime.Examples.{toy}

load_model-IsBalanced_example :
    IsBalanced
      (load_model {B = toy} 2 tt 0 DeviceKind.cpu (registry_in (ModelLifecycleState.active 2))).1
load_model-IsBalanced_example =
    load_model-IsBalanced 2 tt 0 DeviceKind.cpu (registry_in (ModelLifecycleState.active 2))
      (registry_in-IsBalanced (ModelLifecycleState.active 2) refl)
