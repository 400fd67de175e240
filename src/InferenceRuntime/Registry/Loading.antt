-- ===== src/InferenceRuntime/Registry/Loading.antt =====
-- crates/engines/inference-runtime/src/runtime.rs: `load_model`, the admission of a model.
pub mod Admissions
pub mod Admitted
mod Tests
use llm_app.Prelude.{
  ℕ, ◌+◌, Bool, not, ◌&&◌, ◌||◌, ltb, if◌then◌else◌, none, some, [], length, Result, ok, err, ok_or,
  get, insert, contains_key, u32_max, u64_max, checked_add, saturating_add,
}
use llm_app.Prelude.Transactions.{◌>>=◌, ◌>>◌, lift, read, refuse, succeed, update, demand}
use llm_app.Contracts.Lifecycle.{ModelLifecycle, begin_load, complete_load}
use llm_app.Contracts.Lifecycle
use llm_app.Contracts.Model.{
  ModelHandle, handle_eq, metadata_eq, ModelDescriptor, DeviceKind, LoadConfiguration, LoadPlan,
  LoadError, MemoryFootprint, SynchronizationError,
}
use llm_app.Contracts.Backend.{Backend}
use llm_app.InferenceRuntime.Errors.{
  RuntimeError, RuntimeOperation, FailureClass, CleanupFailureReport, CleanupResource,
  CleanupRetryState, failure_class,
}
use llm_app.InferenceRuntime.Footprints.{remaining_budget, admit_footprint}
use llm_app.InferenceRuntime.Registry.{
  InferenceRuntime, ModelSlot, PendingModel, Runtime, lifecycle_result, cleanup_retention_error,
  maximum_cleanup_attempts, false,
}

pub record LoadReceipt : Type 0 where
  pub handle : ModelHandle
  pub descriptor : ModelDescriptor
  pub reserved_footprint : MemoryFootprint

pub saturating_u32 : ℕ → ℕ
saturating_u32 n = if ltb u32_max n then u32_max else n

abbrev pub load_result {ℓ} : {A : Type ℓ} → Result LoadError A → Result RuntimeError A
load_result (ok a) = ok a
load_result (err e) = err (RuntimeError.load e)

-- What the admission has computed when the backend is asked to load.
pub record Admission : Type 0 where
  pub model_id : ℕ
  pub handle : ModelHandle
  pub plan : LoadPlan
  pub next_reserved : MemoryFootprint
  pub lifecycle : ModelLifecycle

-- Whether the backend loaded what it planned.
abbrev pub is_planned : (B : Backend) → Admission → B.Model → Bool
is_planned B a model =
    handle_eq (B.handle model) a.handle && metadata_eq (B.metadata model) a.plan.descriptor.metadata

module _ {B : Backend} where
  pub reject_if_shutting_down : Runtime B (Unit {0})
  reject_if_shutting_down rt =
      (if rt.shutting_down then err RuntimeError.shutting_down else ok tt, rt)

  pub next_handle : ℕ → Runtime B ModelHandle
  next_handle model_id = do
    generations ← read λ rt. rt.generations
    let current : ℕ = elim (get generations model_id) [ none ↦ 0 | some generation ↦ generation ]
    next ←
        lift
          (ok_or (checked_add u64_max current 1) (RuntimeError.model_generation_exhausted model_id))
    succeed (record { id = model_id; generation = next })

  -- The models that are resident or quarantined.
  abbrev pub occupied : InferenceRuntime B → ℕ
  occupied rt = saturating_add u64_max (length rt.models) (length rt.pending_models)

  check_model_limit : ℕ → Runtime B (Unit {0})
  check_model_limit model_id = do
    taken ← read λ rt. contains_key rt.models model_id || contains_key rt.pending_models model_id
    demand (not taken) (RuntimeError.model_already_loaded model_id)
    count ← read occupied
    limit ← read λ rt. rt.limits.maximum_loaded_models
    demand (ltb count limit)
        (RuntimeError.loaded_model_limit (saturating_add u32_max (saturating_u32 count) 1) limit)

  -- A loaded model that is not the planned one and cannot be unloaded stays charged, in quarantine.
  quarantine_loaded :
      Admission → B.Model → RuntimeError → SynchronizationError → Runtime B LoadReceipt
  quarantine_loaded a model primary cleanup = do
    let report : CleanupFailureReport = record {
      primary_operation = RuntimeOperation.model_admission;
      primary_failure = failure_class primary;
      cleanup_operation = RuntimeOperation.model_unload;
      cleanup_failure = failure_class (RuntimeError.synchronization cleanup);
    }
    maximum ← read maximum_cleanup_attempts
    let state : CleanupRetryState = record {
      resource = CleanupResource.model a.model_id;
      failure = report;
      attempts = 1;
      maximum_attempts = maximum;
    }
    update λ rt. record rt {
      pending_models =
          insert a.model_id
            (record {
              model = model;
              footprint = a.plan.expected_footprint;
              failure = report;
              attempts = 1;
              cancelled_requests = 0;
            })
            rt.pending_models;
      generations = insert a.model_id a.handle.generation rt.generations;
      reserved_footprint = a.next_reserved;
      last_cleanup = some state;
    }
    refuse (cleanup_retention_error state)

  rejected_loaded :
      Admission
      → RuntimeError
      → Result SynchronizationError (Unit {0}) × B.Model
      → Runtime B LoadReceipt
  rejected_loaded a primary (ok done, model) = refuse primary
  rejected_loaded a primary (err cleanup, model) = quarantine_loaded a model primary cleanup

  reject_loaded : Admission → B.Model → RuntimeError → Runtime B LoadReceipt
  reject_loaded a model primary = rejected_loaded a primary (B.prepare_unload model)

  abbrev pub fresh_slot : Admission → B.Model → ModelLifecycle → ModelSlot B
  fresh_slot a model lifecycle = record {
    handle = a.handle;
    descriptor = a.plan.descriptor;
    lifecycle = lifecycle;
    model = model;
    model_footprint = a.plan.expected_footprint;
    reserved_footprint = a.plan.expected_footprint;
    requests = [];
    pending_sequences = [];
    poisoned = false;
    cancelled_requests_during_unload = 0;
  }

  commit_loaded : Admission → B.Model → ModelLifecycle → Runtime B LoadReceipt
  commit_loaded a model lifecycle = do
    update λ rt. record rt {
      models = insert a.model_id (fresh_slot a model lifecycle) rt.models;
      generations = insert a.model_id a.handle.generation rt.generations;
      reserved_footprint = a.next_reserved;
    }
    succeed (record {
      handle = a.handle;
      descriptor = a.plan.descriptor;
      reserved_footprint = a.plan.expected_footprint;
    })

  completed_load : Admission → B.Model → Lifecycle.Outcome → Runtime B LoadReceipt
  completed_load a model (ok action, lifecycle) = commit_loaded a model lifecycle
  completed_load a model (err e, lifecycle) = reject_loaded a model (RuntimeError.lifecycle e)

  conclude_load : Admission → B.Model → Runtime B LoadReceipt
  conclude_load a model =
      if is_planned B a model
      then completed_load a model (complete_load a.lifecycle)
      else reject_loaded a model RuntimeError.backend_contract_violation

  -- The part of `load_model` before the backend loads, which changes nothing.
  pub admit_model : ℕ → B.Source → ℕ → DeviceKind → Runtime B (Admission × LoadConfiguration)
  admit_model model_id source device device_kind = do
    reject_if_shutting_down
    check_model_limit model_id
    handle ← next_handle model_id
    reserved ← read λ rt. rt.reserved_footprint
    budget ← read λ rt. rt.limits.memory_budget
    let configuration : LoadConfiguration = record {
      handle = handle;
      device = device;
      device_kind = device_kind;
      memory_budget = remaining_budget budget reserved;
    }
    let begun = begin_load Lifecycle.new
    lift (lifecycle_result begun.0)
    loader ← read λ rt. rt.loader
    plan ← lift (load_result (B.plan_load loader source configuration))
    next_reserved ← lift (admit_footprint reserved plan.expected_footprint budget)
    succeed (
      record {
        model_id = model_id;
        handle = handle;
        plan = plan;
        next_reserved = next_reserved;
        lifecycle = begun.1;
      },
      configuration,
    )

  load_admitted :
      B.Source → Result RuntimeError (Admission × LoadConfiguration) → Runtime B LoadReceipt
  load_admitted source (err e) = refuse e
  load_admitted source (ok (a, configuration)) = do
    loader ← read λ rt. rt.loader
    let loaded = B.load loader source configuration
    update λ rt. record rt { loader = loaded.1 }
    model ← lift (load_result loaded.0)
    conclude_load a model

  pub load_model : ℕ → B.Source → ℕ → DeviceKind → Runtime B LoadReceipt
  load_model model_id source device device_kind rt =
      let admitted = admit_model model_id source device device_kind rt in
      load_admitted source admitted.0 admitted.1
