-- ===== src/Contracts/Lifecycle/Tests.antt =====
-- Runs of the lifecycle of crates/features/domain-contracts/src/lifecycle.rs, and its theorems at them.
use llm_app.Prelude.{◌+◌, ◌≤◌, ◌≡◌, refl, ◌≢◌, ◌↔◌, List, [], ◌∷◌, ok, err, arith}
use llm_app.Contracts.Capacity.{CancellationReason}
use llm_app.Contracts.Lifecycle.{
  DrainTimeout, UnloadPolicy, ModelLifecycleState, ModelLifecycle, LifecycleAction, LifecycleError,
  Call, perform, run, new, start_request, request_unload, poll,
}
use llm_app.Contracts.Lifecycle.Requests.{
  IsValid, requests, started, finished, run-IsValid, requests-run, perform_err,
}
use llm_app.Contracts.Lifecycle.Unload.{
  perform-release_model_iff, IsClosing, run-IsClosing, start_request-run, run-unloading, poll_drain,
}

abbrev ten_seconds : DrainTimeout
ten_seconds = record { milliseconds = 10_000 }

-- Two requests start, and the model is asked to drain at time 500.
abbrev history : List Call
history =
    Call.begin_loads
    ∷ Call.completes_load
    ∷ Call.starts
    ∷ Call.starts
    ∷ Call.requests_unload (UnloadPolicy.drain ten_seconds) 500
    ∷ []

abbrev two_draining : ModelLifecycle
two_draining = record {
  state = ModelLifecycleState.draining 2 (record { started_at = 500; timeout = ten_seconds });
}

abbrev two_active : ModelLifecycle
two_active = record { state = ModelLifecycleState.active 2 }

history_drains : run new history ≡ two_draining
unfolding run new perform
history_drains = refl

run-IsValid_example : IsValid (run new history)
unfolding new
run-IsValid_example = run-IsValid new history tt (omega arith)

requests-run_example :
    requests (run new history).state + finished new history
    ≡ requests new.state + started new history
unfolding new
requests-run_example = requests-run new history tt (omega arith) (omega arith)

perform_err_example : (perform Call.starts two_draining).1 ≡ two_draining
unfolding perform
perform_err_example = perform_err Call.starts two_draining LifecycleError.invalid_transition refl

perform-release_model_iff_example :
    ((perform Call.finishes two_draining).0 ≡ ok LifecycleAction.release_model) ↔ (
      (two_draining.state ≢ ModelLifecycleState.unloading)
      × ((perform Call.finishes two_draining).1.state ≡ ModelLifecycleState.unloading))
perform-release_model_iff_example = perform-release_model_iff Call.finishes two_draining

abbrev attempts : List Call
attempts = Call.starts ∷ Call.polls 600 ∷ Call.finishes ∷ Call.completes_load ∷ []

run-IsClosing_example :
    IsClosing (run two_draining attempts).state × (requests (run two_draining attempts).state ≤ 2)
run-IsClosing_example = run-IsClosing two_draining attempts tt (omega arith)

start_request-run_example :
    start_request (run two_draining attempts)
    ≡ (err LifecycleError.invalid_transition, run two_draining attempts)
start_request-run_example = start_request-run two_draining attempts tt (omega arith)

abbrev ending : List Call
ending = Call.finishes ∷ Call.polls 20_000 ∷ Call.finishes ∷ []

run-unloading_example : (run two_draining ending).state ≡ ModelLifecycleState.unloading
run-unloading_example =
    run-unloading two_draining ending tt (omega arith) (omega arith) (omega arith)

poll_drain_example :
    ((poll 10_500 (request_unload (UnloadPolicy.drain ten_seconds) 500 two_active).1).0
      ≡ ok (LifecycleAction.cancel_requests CancellationReason.drain_timeout))
    ↔ (10_500 ≤ 10_500)
poll_drain_example = poll_drain two_active 2 500 10_500 ten_seconds refl (omega arith)
