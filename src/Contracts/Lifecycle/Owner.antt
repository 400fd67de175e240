-- ===== src/Contracts/Lifecycle/Owner.antt =====
-- What the inference runtime, which owns a lifecycle, relies on in crates/features/domain-contracts/src/lifecycle.rs.
use llm_app.Prelude.{◌+◌, ◌-◌, ◌≤◌, ◌≡◌, refl, inl, inr, ◌==◌, ok, Bool-cases, arith}
use llm_app.Contracts.Lifecycle
use llm_app.Contracts.Lifecycle.{
  begin_load, complete_load, ModelLifecycle, ModelLifecycleState, LifecycleAction, finish_request,
  complete_unload, moved,
}
use llm_app.Contracts.Lifecycle.Requests.{requests}

pub complete_unload-unloading :
    (l : ModelLifecycle)
    → l.state ≡ ModelLifecycleState.unloading
    → complete_unload l ≡ moved ModelLifecycleState.absent LifecycleAction.unload_complete
unfolding complete_unload
complete_unload-unloading l h = rw h refl

pub begin_load-new :
    begin_load Lifecycle.new ≡ moved ModelLifecycleState.loading LifecycleAction.nothing
unfolding begin_load Lifecycle.new
begin_load-new = refl

pub complete_load-loading :
    complete_load (record { state = ModelLifecycleState.loading })
    ≡ moved ModelLifecycleState.ready LifecycleAction.nothing
unfolding complete_load
complete_load-loading = refl

-- A request that is counted finishes, and the last one of an unload asks for the release.
pub record Finishes (l : ModelLifecycle) : Type 0 where
  pub action : LifecycleAction
  pub next : ModelLifecycle
  pub finished : finish_request l ≡ (ok action, next)
  pub counted : requests next.state + 1 ≡ requests l.state
  pub releases : action ≡ LifecycleAction.release_model → next.state ≡ ModelLifecycleState.unloading

pub finish_request-Finishes : (l : ModelLifecycle) → 1 ≤ requests l.state → Finishes l
unfolding finish_request
finish_request-Finishes l h = finished l.state h
  where
    finished : (s : ModelLifecycleState) → 1 ≤ requests s → Finishes (record { state = s })
    finished (ModelLifecycleState.active n) h = elim (Bool-cases (n == 1)) [
      | inl e ↦ record {
        action = LifecycleAction.nothing;
        next = record { state = ModelLifecycleState.ready };
        finished = rw e refl;
        counted = ground arith;
        releases = λ r. absurd (ground arith);
      }
      | inr e ↦ record {
        action = LifecycleAction.nothing;
        next = record { state = ModelLifecycleState.active (n - 1) };
        finished = rw e refl;
        counted = omega arith;
        releases = λ r. absurd (ground arith);
      }
    ]
    finished (ModelLifecycleState.draining n window) h = elim (Bool-cases (n == 1)) [
      | inl e ↦ record {
        action = LifecycleAction.release_model;
        next = record { state = ModelLifecycleState.unloading };
        finished = rw e refl;
        counted = ground arith;
        releases = λ r. refl;
      }
      | inr e ↦ record {
        action = LifecycleAction.nothing;
        next = record { state = ModelLifecycleState.draining (n - 1) window };
        finished = rw e refl;
        counted = omega arith;
        releases = λ r. absurd (ground arith);
      }
    ]
    finished (ModelLifecycleState.cancelling n reason) h = elim (Bool-cases (n == 1)) [
      | inl e ↦ record {
        action = LifecycleAction.release_model;
        next = record { state = ModelLifecycleState.unloading };
        finished = rw e refl;
        counted = ground arith;
        releases = λ r. refl;
      }
      | inr e ↦ record {
        action = LifecycleAction.nothing;
        next = record { state = ModelLifecycleState.cancelling (n - 1) reason };
        finished = rw e refl;
        counted = omega arith;
        releases = λ r. absurd (ground arith);
      }
    ]
    finished ModelLifecycleState.absent h = absurd (omega arith)
    finished ModelLifecycleState.loading h = absurd (omega arith)
    finished ModelLifecycleState.ready h = absurd (omega arith)
    finished ModelLifecycleState.unloading h = absurd (omega arith)
    finished (ModelLifecycleState.failed phase failure) h = absurd (omega arith)
