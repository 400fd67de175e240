-- ===== src/InferenceRuntime/Registry/Loading/Admitted.antt =====
-- `load_model` of crates/engines/inference-runtime/src/runtime.rs keeps the accounts, whatever the backend answers.
use llm_app.Prelude.{
  sym, ◌+◌, total-insert_new, get-insert-some, get-insert_ne, insert-IsAscending, ℕ, ◌≡◌, refl,
  none, Result, ok, err, arith, inl, inr, ℕ_discrete, subst, ◌∙◌, Bool-cases,
}
use llm_app.Prelude.{get}
use llm_app.Prelude.Transactions.{continue}
use llm_app.Contracts.Backend.{Backend}
use llm_app.Contracts.Lifecycle.{
  moved, LifecycleAction, complete_load, ModelLifecycle, ModelLifecycleState,
}
use llm_app.Contracts.Lifecycle.Owner.{complete_load-loading}
use llm_app.Contracts.Model.{LoadError, LoadConfiguration, DeviceKind, SynchronizationError}
use llm_app.InferenceRuntime.Errors.{RuntimeError}
use llm_app.InferenceRuntime.Footprints.{
  part-wide, Part, part, part-checked_add_footprint, admit_footprint_ok,
}
use llm_app.InferenceRuntime.Registry.{InferenceRuntime}
use llm_app.InferenceRuntime.Registry.Accounting.{
  IsBalanced, SlotIsBalanced, owned_bytes, retained_bytes, active_of, pending_of,
}
use llm_app.InferenceRuntime.Registry.Loading.{
  load_admitted, rejected_loaded, completed_load, load_result, load_model, Admission,
  quarantine_loaded, commit_loaded, reject_loaded, conclude_load, is_planned, fresh_slot,
}
use llm_app.InferenceRuntime.Registry.Loading.Admissions.{IsAdmitted, Admits, admit_model-Admits}

completes :
    (l : ModelLifecycle)
    → l ≡ record { state = ModelLifecycleState.loading }
    → complete_load l ≡ moved ModelLifecycleState.ready LifecycleAction.nothing
completes l h = rw h complete_load-loading

module _ {B : Backend} where
  -- The backend's loader keeps no accounts.
  reloaded :
      (rt : InferenceRuntime B) (loader : B.Loader)
      → IsBalanced rt
      → IsBalanced {B = B} (record rt { loader = loader })
  reloaded rt loader b = record {
    slots = b.slots;
    models_ascend = b.models_ascend;
    quarantine_ascends = b.quarantine_ascends;
    apart = b.apart;
    reserved = b.reserved;
    active = b.active;
    pending = b.pending;
    counted = b.counted;
  }

  -- The admission's sums.
  next_bytes :
      (a : Admission) (rt : InferenceRuntime B)
      → IsAdmitted a rt
      → (k : Part)
      → part k a.next_reserved ≡ part k rt.reserved_footprint + part k a.plan.expected_footprint
  next_bytes a rt i k =
      part-checked_add_footprint k rt.reserved_footprint a.plan.expected_footprint a.next_reserved
        (admit_footprint_ok rt.reserved_footprint a.plan.expected_footprint a.next_reserved
          rt.limits.memory_budget i.admitted).0

  quarantine_loaded-IsBalanced :
      (a : Admission) (model : B.Model) (primary : RuntimeError) (cleanup : SynchronizationError)
      (rt : InferenceRuntime B)
      → IsBalanced rt
      → IsAdmitted a rt
      → IsBalanced (quarantine_loaded {B = B} a model primary cleanup rt).1
  unfolding quarantine_loaded
  quarantine_loaded-IsBalanced a model primary cleanup rt b i = record {
    slots = b.slots;
    models_ascend = b.models_ascend;
    quarantine_ascends = insert-IsAscending a.model_id _ rt.pending_models b.quarantine_ascends;
    apart = λ j s h. elim (ℕ_discrete j a.model_id) [
      | yes e ↦
          let none_here : get rt.models j ≡ none = rw e i.no_model in
          absurd (ground (arith, h, none_here))
      | no n ↦ get-insert_ne j a.model_id _ rt.pending_models b.quarantine_ascends n ∙ b.apart j s h
    ];
    reserved = λ k. omega (
      arith,
      b.reserved k,
      next_bytes a rt i k,
      total-insert_new (retained_bytes k) rt.pending_models a.model_id _ i.no_quarantine,
    );
    active = b.active;
    pending = b.pending;
    counted = b.counted;
  }

  fresh_slot-SlotIsBalanced :
      (a : Admission) (model : B.Model) (rt : InferenceRuntime B)
      → IsAdmitted a rt
      → SlotIsBalanced {B = B} (fresh_slot a model (record { state = ModelLifecycleState.ready }))
  fresh_slot-SlotIsBalanced a model rt i =
      let summed =
        (admit_footprint_ok rt.reserved_footprint a.plan.expected_footprint a.next_reserved
          rt.limits.memory_budget i.admitted).0 in
      record {
        reserved = λ k. omega arith;
        wide = λ k. omega (
          arith,
          part-wide k rt.reserved_footprint a.plan.expected_footprint a.next_reserved summed,
        );
        counted = refl;
        requests_ascend = tt;
        pending_ascend = tt;
        apart = λ r v h. refl;
      }

  commit_loaded-IsBalanced :
      (a : Admission) (model : B.Model) (rt : InferenceRuntime B)
      → IsBalanced rt
      → IsAdmitted a rt
      → IsBalanced
          (commit_loaded {B = B} a model (record { state = ModelLifecycleState.ready }) rt).1
  unfolding commit_loaded
  commit_loaded-IsBalanced a model rt b i = record {
    slots = λ j s h. elim (get-insert-some rt.models a.model_id j _ s b.models_ascend h) [
      | inl (e, same) ↦ subst SlotIsBalanced same (fresh_slot-SlotIsBalanced a model rt i)
      | inr (n, before) ↦ b.slots j s before
    ];
    models_ascend = insert-IsAscending a.model_id _ rt.models b.models_ascend;
    quarantine_ascends = b.quarantine_ascends;
    apart = λ j s h. elim (get-insert-some rt.models a.model_id j _ s b.models_ascend h) [
      | inl (e, same) ↦ rw e i.no_quarantine
      | inr (n, before) ↦ b.apart j s before
    ];
    reserved = λ k. omega (
      arith,
      b.reserved k,
      next_bytes a rt i k,
      total-insert_new (owned_bytes k) rt.models a.model_id _ i.no_model,
    );
    active = omega (arith, b.active, total-insert_new active_of rt.models a.model_id _ i.no_model);
    pending =
        omega (arith, b.pending, total-insert_new pending_of rt.models a.model_id _ i.no_model);
    counted = b.counted;
  }

  rejected_loaded-IsBalanced :
      (a : Admission) (primary : RuntimeError)
      (prepared : Result SynchronizationError (Unit {0}) × B.Model) (rt : InferenceRuntime B)
      → IsBalanced rt
      → IsAdmitted a rt
      → IsBalanced (rejected_loaded {B = B} a primary prepared rt).1
  unfolding rejected_loaded
  rejected_loaded-IsBalanced a primary (ok done, model) rt b i = b
  rejected_loaded-IsBalanced a primary (err cleanup, model) rt b i =
      quarantine_loaded-IsBalanced a model primary cleanup rt b i

  conclude_load-IsBalanced :
      (a : Admission) (model : B.Model) (rt : InferenceRuntime B)
      → IsBalanced rt
      → IsAdmitted a rt
      → IsBalanced (conclude_load {B = B} a model rt).1
  unfolding conclude_load completed_load reject_loaded
  conclude_load-IsBalanced a model rt b i = elim (Bool-cases (is_planned B a model)) [
    | inl p ↦ rw (p, completes a.lifecycle i.loading) (commit_loaded-IsBalanced a model rt b i)
    | inr p ↦ rw p (rejected_loaded-IsBalanced a _ (B.prepare_unload model) rt b i)
  ]

  loaded-IsBalanced :
      (a : Admission) (loaded : Result LoadError B.Model) (loader : B.Loader)
      (rt : InferenceRuntime B)
      → IsBalanced rt
      → IsAdmitted a rt
      → IsBalanced
          (continue
            (conclude_load {B = B} a)
            (load_result loaded)
            (record rt { loader = loader })).1
  loaded-IsBalanced a (err e) loader rt b i = reloaded rt loader b
  loaded-IsBalanced a (ok model) loader rt b i =
      conclude_load-IsBalanced a model _ (reloaded rt loader b) (record {
        loading = i.loading;
        no_model = i.no_model;
        no_quarantine = i.no_quarantine;
        admitted = i.admitted;
      })

  admitted-IsBalanced :
      (source : B.Source) (rt : InferenceRuntime B)
      (outcome : Result RuntimeError (Admission × LoadConfiguration) × InferenceRuntime B)
      → IsBalanced rt
      → Admits rt outcome
      → IsBalanced (load_admitted {B = B} source outcome.0 outcome.1).1
  unfolding load_admitted
  admitted-IsBalanced source rt (err e, rt') b same = subst IsBalanced (sym same) b
  admitted-IsBalanced source rt (ok (a, configuration), rt') b (same, i) =
      let loaded = B.load rt'.loader source configuration in
      loaded-IsBalanced a loaded.0 loaded.1 rt' (subst IsBalanced (sym same) b)
        (subst (IsAdmitted a) (sym same) i)

  -- Whatever model is to be loaded and whatever the backend answers, `load_model` keeps the accounts of
  -- a balanced registry balanced, also when it fails.
  pub load_model-IsBalanced :
      (model_id : ℕ) (source : B.Source) (device : ℕ) (device_kind : DeviceKind)
      (rt : InferenceRuntime B)
      → IsBalanced rt
      → IsBalanced (load_model {B = B} model_id source device device_kind rt).1
  unfolding load_model
  load_model-IsBalanced model_id source device device_kind rt b =
      admitted-IsBalanced source rt _ b (admit_model-Admits model_id source device device_kind rt)
