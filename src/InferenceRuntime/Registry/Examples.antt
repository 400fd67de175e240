-- ===== src/InferenceRuntime/Registry/Examples.antt =====
-- Registries of crates/engines/inference-runtime/src/runtime.rs that the tests start from, and that they are balanced.
use llm_app.Prelude.{◌≡◌, refl, subst, inl, inr, [], arith}
use llm_app.Prelude.{insert, get-insert-some}
use llm_app.Contracts.Lifecycle.{ModelLifecycleState}
use llm_app.Contracts.Lifecycle.Requests.{requests}
use llm_app.InferenceRuntime.Footprints.{each_part}
use llm_app.InferenceRuntime.Registry.{InferenceRuntime, ModelSlot, new}
use llm_app.InferenceRuntime.Registry.Accounting.{IsBalanced, SlotIsBalanced}
use llm_app.InferenceRuntime.Examples.{toy, registry, active_slot}

-- The model's slot and the registry, in a lifecycle that counts two requests.
abbrev pub slot_in : ModelLifecycleState → ModelSlot toy
slot_in s = record active_slot { lifecycle = record { state = s } }

abbrev pub registry_in : ModelLifecycleState → InferenceRuntime toy
registry_in s = record registry { models = insert 1 (slot_in s) [] }

slot_in-SlotIsBalanced : (s : ModelLifecycleState) → requests s ≡ 2 → SlotIsBalanced (slot_in s)
slot_in-SlotIsBalanced s two = record {
  reserved = each_part _ refl refl refl refl refl;
  wide = each_part _ (omega arith) (omega arith) (omega arith) (omega arith) (omega arith);
  counted = two;
  requests_ascend = ((omega arith, tt), (tt, tt));
  pending_ascend = tt;
  apart = λ r v h. refl;
}

pub registry_in-IsBalanced : (s : ModelLifecycleState) → requests s ≡ 2 → IsBalanced (registry_in s)
unfolding new
registry_in-IsBalanced s two = record {
  slots = λ m slot h. elim (get-insert-some [] 1 m (slot_in s) slot tt h) [
    | inl (e, same) ↦ subst SlotIsBalanced same (slot_in-SlotIsBalanced s two)
    | inr (n, before) ↦ absurd (ground arith)
  ];
  models_ascend = (tt, tt);
  quarantine_ascends = tt;
  apart = λ m slot h. refl;
  reserved = each_part _ refl refl refl refl refl;
  active = refl;
  pending = refl;
  counted = omega arith;
}
