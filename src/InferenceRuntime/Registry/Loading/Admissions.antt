-- ===== src/InferenceRuntime/Registry/Loading/Admissions.antt =====
-- The part of `load_model` (crates/engines/inference-runtime/src/runtime.rs) before the backend loads: it changes
-- nothing, and what it finds.
use llm_app.Prelude.{ℕ, ◌≡◌, refl, none, Result, ok, err, arith, Result-cases, inl, inr}
use llm_app.Prelude.{get}
use llm_app.Contracts.Backend.{Backend}
use llm_app.Contracts.Lifecycle.{ModelLifecycleState}
use llm_app.Contracts.Lifecycle.Owner.{begin_load-new}
use llm_app.Contracts.Model.{LoadConfiguration, DeviceKind}
use llm_app.InferenceRuntime.Errors.{RuntimeError}
use llm_app.InferenceRuntime.Footprints.{remaining_budget, admit_footprint}
use llm_app.InferenceRuntime.Registry.{InferenceRuntime}
use llm_app.InferenceRuntime.Registry.Loading.{
  Admission, reject_if_shutting_down, next_handle, check_model_limit, admit_model,
}

module _ {B : Backend} where
  -- What an admission found in the registry, which it left as it was.
  pub record IsAdmitted (a : Admission) (rt : InferenceRuntime B) : Type 0 where
    pub loading : a.lifecycle ≡ record { state = ModelLifecycleState.loading }
    pub no_model : get rt.models a.model_id ≡ none
    pub no_quarantine : get rt.pending_models a.model_id ≡ none
    pub admitted :
        admit_footprint rt.reserved_footprint a.plan.expected_footprint rt.limits.memory_budget
        ≡ ok a.next_reserved

  abbrev pub Admits :
      InferenceRuntime B
      → Result RuntimeError (Admission × LoadConfiguration) × InferenceRuntime B
      → Type 0
  Admits rt (err e, rt') = rt' ≡ rt
  Admits rt (ok (a, configuration), rt') = (rt' ≡ rt) × IsAdmitted a rt

  reject_same : (rt : InferenceRuntime B) → (reject_if_shutting_down rt).1 ≡ rt
  unfolding reject_if_shutting_down
  reject_same rt = refl

  handle_same : (model_id : ℕ) (rt : InferenceRuntime B) → (next_handle model_id rt).1 ≡ rt
  unfolding next_handle
  handle_same model_id rt = ground arith

  limit_same : (model_id : ℕ) (rt : InferenceRuntime B) → (check_model_limit model_id rt).1 ≡ rt
  unfolding check_model_limit
  limit_same model_id rt = ground arith

  limit_free :
      (model_id : ℕ) (rt : InferenceRuntime B)
      → (check_model_limit model_id rt).0 ≡ ok tt
      → (get rt.models model_id ≡ none) × (get rt.pending_models model_id ≡ none)
  unfolding check_model_limit
  limit_free model_id rt h = (ground arith, ground arith)

  pub admit_model-Admits :
      (model_id : ℕ) (source : B.Source) (device : ℕ) (device_kind : DeviceKind)
      (rt : InferenceRuntime B)
      → Admits rt (admit_model {B = B} model_id source device device_kind rt)
  unfolding admit_model
  admit_model-Admits model_id source device device_kind rt =
      elim (Result-cases (reject_if_shutting_down rt).0) [
        | inl (e, h) ↦ rw h (reject_same rt)
        | inr (x, h) ↦ elim (Result-cases (check_model_limit model_id rt).0) [
          | inl (e, g) ↦ rw (h, reject_same rt, g) (limit_same model_id rt)
          | inr (y, g) ↦ elim (Result-cases (next_handle model_id rt).0) [
            | inl (e, f) ↦
                rw (h, reject_same rt, g, limit_same model_id rt, f) (handle_same model_id rt)
            | inr (handle, f) ↦
                rw
                  (
                    h,
                    reject_same rt,
                    g,
                    limit_same model_id rt,
                    f,
                    handle_same model_id rt,
                    begin_load-new,
                  )
                  (let configuration : LoadConfiguration = record {
                    handle = handle;
                    device = device;
                    device_kind = device_kind;
                    memory_budget = remaining_budget rt.limits.memory_budget rt.reserved_footprint;
                  } in
                    elim (Result-cases (B.plan_load rt.loader source configuration)) [
                      | inl (e, p) ↦ rw p refl
                      | inr (plan, p) ↦
                          elim (Result-cases (
                            admit_footprint rt.reserved_footprint plan.expected_footprint
                              rt.limits.memory_budget)) [
                                | inl (e, q) ↦ rw (p, q) refl
                                | inr (next, q) ↦
                                    let (no_model, no_quarantine) = limit_free model_id rt g in
                                    rw (p, q)
                                      (
                                        refl,
                                        record {
                                          loading = refl;
                                          no_model = no_model;
                                          no_quarantine = no_quarantine;
                                          admitted = q;
                                        },
                                      )
                              ]
                    ])
          ]
        ]
      ]
