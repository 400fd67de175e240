-- ===== src/Contracts/Lifecycle.antt =====
-- crates/features/domain-contracts/src/lifecycle.rs: the lifecycle of one loaded model.
-- A method on `&mut self` returns its result beside the new lifecycle.
pub mod Requests
pub mod Unload
pub mod Owner
mod Tests
use llm_app.Prelude.{
  ℕ, zero, suc, ◌+◌, ◌-◌, Bool, if◌then◌else◌, leb, ◌==◌, none, some, Result, ok, err, u32_max,
  checked_add, List, [], ◌∷◌,
}
use llm_app.Contracts.Capacity.{
  CapacityExhausted, CapacityResource, CancellationReason, BackendFailure, elapsed_since,
}

pub record DrainTimeout : Type 0 where
  pub milliseconds : ℕ

pub record DrainWindow : Type 0 where
  pub started_at : ℕ
  pub timeout : DrainTimeout

pub data UnloadPolicy : Type 0 where
  reject_if_busy cancel_active : UnloadPolicy
  drain : DrainTimeout → UnloadPolicy

pub data LifecycleFailurePhase : Type 0 where
  loading active unloading : LifecycleFailurePhase

pub data ModelLifecycleState : Type 0 where
  absent loading ready unloading : ModelLifecycleState
  active : ℕ → ModelLifecycleState
  draining : ℕ → DrainWindow → ModelLifecycleState
  cancelling : ℕ → CancellationReason → ModelLifecycleState
  failed : LifecycleFailurePhase → BackendFailure → ModelLifecycleState

pub data LifecycleAction : Type 0 where
  nothing release_model unload_complete : LifecycleAction
  cancel_requests : CancellationReason → LifecycleAction

pub data LifecycleError : Type 0 where
  invalid_transition zero_drain_timeout : LifecycleError
  busy : ℕ → LifecycleError
  capacity_exhausted : CapacityExhausted → LifecycleError

pub record ModelLifecycle : Type 0 where
  pub state : ModelLifecycleState

abbrev pub Outcome : Type 0
Outcome = Result LifecycleError LifecycleAction × ModelLifecycle

abbrev pub moved : ModelLifecycleState → LifecycleAction → Outcome
moved state action = (ok action, record { state = state })

abbrev pub refused : ModelLifecycle → LifecycleError → Outcome
refused l e = (err e, l)

-- `DrainTimeout::from_millis`.
pub from_millis : ℕ → Result LifecycleError DrainTimeout
from_millis zero = err LifecycleError.zero_drain_timeout
from_millis (suc n) = ok (record { milliseconds = suc n })

pub has_expired : DrainWindow → ℕ → Bool
has_expired window now = leb window.timeout.milliseconds (elapsed_since now window.started_at)

pub new : ModelLifecycle
new = record { state = ModelLifecycleState.absent }

pub begin_load : ModelLifecycle → Outcome
begin_load l = elim l.state [
  | ModelLifecycleState.absent ↦ moved ModelLifecycleState.loading LifecycleAction.nothing
  | _ ↦ refused l LifecycleError.invalid_transition
]

pub complete_load : ModelLifecycle → Outcome
complete_load l = elim l.state [
  | ModelLifecycleState.loading ↦ moved ModelLifecycleState.ready LifecycleAction.nothing
  | _ ↦ refused l LifecycleError.invalid_transition
]

pub fail :
    LifecycleFailurePhase → BackendFailure → ModelLifecycle → LifecycleAction × ModelLifecycle
fail phase failure l =
    (LifecycleAction.nothing, record { state = ModelLifecycleState.failed phase failure })

pub clear_failure : ModelLifecycle → Outcome
clear_failure l = elim l.state [
  | ModelLifecycleState.failed phase failure ↦
      moved ModelLifecycleState.absent LifecycleAction.unload_complete
  | _ ↦ refused l LifecycleError.invalid_transition
]

pub start_request : ModelLifecycle → Outcome
start_request l = elim l.state [
  | ModelLifecycleState.ready ↦ moved (ModelLifecycleState.active 1) LifecycleAction.nothing
  | ModelLifecycleState.active n ↦ elim (checked_add u32_max n 1) [
    | none ↦ refused l (
        LifecycleError.capacity_exhausted (record {
          resource = CapacityResource.active_requests;
          required = u32_max + 1;
          available = n;
        }))
    | some next ↦ moved (ModelLifecycleState.active next) LifecycleAction.nothing
  ]
  | _ ↦ refused l LifecycleError.invalid_transition
]

unfoldable pub finish_request : ModelLifecycle → Outcome
finish_request l = elim l.state [
  | ModelLifecycleState.active n ↦
      if n == 1
      then moved ModelLifecycleState.ready LifecycleAction.nothing
      else moved (ModelLifecycleState.active (n - 1)) LifecycleAction.nothing
  | ModelLifecycleState.draining n window ↦
      if n == 1
      then moved ModelLifecycleState.unloading LifecycleAction.release_model
      else moved (ModelLifecycleState.draining (n - 1) window) LifecycleAction.nothing
  | ModelLifecycleState.cancelling n reason ↦
      if n == 1
      then moved ModelLifecycleState.unloading LifecycleAction.release_model
      else moved (ModelLifecycleState.cancelling (n - 1) reason) LifecycleAction.nothing
  | _ ↦ refused l LifecycleError.invalid_transition
]

unload_active : UnloadPolicy → ℕ → ℕ → ModelLifecycle → Outcome
unload_active UnloadPolicy.reject_if_busy now n l = refused l (LifecycleError.busy n)
unload_active UnloadPolicy.cancel_active now n l =
    moved (ModelLifecycleState.cancelling n CancellationReason.model_unload)
      (LifecycleAction.cancel_requests CancellationReason.model_unload)
unload_active (UnloadPolicy.drain timeout) now n l =
    moved (ModelLifecycleState.draining n (record { started_at = now; timeout = timeout }))
      LifecycleAction.nothing

pub request_unload : UnloadPolicy → ℕ → ModelLifecycle → Outcome
unfolding unload_active
request_unload policy now l = elim l.state [
  | ModelLifecycleState.absent ↦ (ok LifecycleAction.unload_complete, l)
  | ModelLifecycleState.ready ↦ moved ModelLifecycleState.unloading LifecycleAction.release_model
  | ModelLifecycleState.active n ↦ unload_active policy now n l
  | _ ↦ refused l LifecycleError.invalid_transition
]

pub poll : ℕ → ModelLifecycle → Outcome
unfolding has_expired
poll now l = elim l.state [
  | ModelLifecycleState.draining n window ↦
      if has_expired window now
      then moved (ModelLifecycleState.cancelling n CancellationReason.drain_timeout)
          (LifecycleAction.cancel_requests CancellationReason.drain_timeout)
      else (ok LifecycleAction.nothing, l)
  | ModelLifecycleState.unloading ↦ refused l LifecycleError.invalid_transition
  | ModelLifecycleState.failed phase failure ↦ refused l LifecycleError.invalid_transition
  | _ ↦ (ok LifecycleAction.nothing, l)
]

pub complete_unload : ModelLifecycle → Outcome
complete_unload l = elim l.state [
  | ModelLifecycleState.unloading ↦ moved ModelLifecycleState.absent LifecycleAction.unload_complete
  | _ ↦ refused l LifecycleError.invalid_transition
]

-- One call on the lifecycle by its owner. `fail` cannot itself fail.
pub data Call : Type 0 where
  begin_loads completes_load clears_failure starts finishes completes_unload : Call
  fails : LifecycleFailurePhase → BackendFailure → Call
  requests_unload : UnloadPolicy → ℕ → Call
  polls : ℕ → Call

pub perform : Call → ModelLifecycle → Outcome
unfolding begin_load complete_load clear_failure start_request finish_request complete_unload fail
    request_unload poll
perform Call.begin_loads l = begin_load l
perform Call.completes_load l = complete_load l
perform Call.clears_failure l = clear_failure l
perform Call.starts l = start_request l
perform Call.finishes l = finish_request l
perform Call.completes_unload l = complete_unload l
perform (Call.fails phase failure) l = let (action, l') = fail phase failure l in (ok action, l')
perform (Call.requests_unload policy now) l = request_unload policy now l
perform (Call.polls now) l = poll now l

pub run : ModelLifecycle → List Call → ModelLifecycle
run l [] = l
run l (c ∷ cs) = run (perform c l).1 cs
