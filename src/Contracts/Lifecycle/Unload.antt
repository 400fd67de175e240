-- ===== src/Contracts/Lifecycle/Unload.antt =====
-- Unloading a model: crates/features/domain-contracts/src/lifecycle.rs, `request_unload`, `poll`,
-- `finish_request` and the two steps after the last request.
use llm_app.Prelude.{ℕ, suc, ◌+◌, ◌-◌, ◌≤◌, ◌≡◌, ◌≢◌, ◌↔◌, List, [], ◌∷◌, ok, err, arith, All}
use llm_app.Contracts.Capacity.{CancellationReason}
use llm_app.Contracts.Lifecycle.{
  DrainTimeout, UnloadPolicy, ModelLifecycleState, ModelLifecycle, LifecycleAction, LifecycleError,
  Call, perform, run, start_request, request_unload, poll,
}
use llm_app.Contracts.Lifecycle.Requests.{IsValid, requests, TimeoutIsValid, perform-IsValid}

-- A call asks for the model's release exactly when it takes the lifecycle into `Unloading` from
-- another state.
pub perform-release_model_iff :
    (c : Call) (l : ModelLifecycle)
    → ((perform c l).0 ≡ ok LifecycleAction.release_model) ↔ (
        (l.state ≢ ModelLifecycleState.unloading)
        × ((perform c l).1.state ≡ ModelLifecycleState.unloading))
unfolding perform
perform-release_model_iff Call.begin_loads l = ground arith
perform-release_model_iff _ l = ground arith

-- An unload was accepted and is not complete.
abbrev pub IsClosing : ModelLifecycleState → Type 0
IsClosing (ModelLifecycleState.draining n window) = Unit
IsClosing (ModelLifecycleState.cancelling n reason) = Unit
IsClosing ModelLifecycleState.unloading = Unit
IsClosing _ = ⊥

-- Calls that neither report a failure nor complete the unload.
abbrev pub KeepsClosing : Call → Type 0
KeepsClosing Call.completes_unload = ⊥
KeepsClosing (Call.fails phase failure) = ⊥
KeepsClosing _ = Unit

perform-IsClosing :
    (c : Call) (l : ModelLifecycle)
    → IsClosing l.state
    → KeepsClosing c
    → IsClosing (perform c l).1.state × (requests (perform c l).1.state ≤ requests l.state)
unfolding perform
perform-IsClosing Call.begin_loads l h k = ground arith
perform-IsClosing _ l h k = ground arith

-- Once an unload is under way, no sequence of calls that leaves out failures and the completion of
-- the unload gets out of it or raises the request count.
pub run-IsClosing :
    (l : ModelLifecycle) (cs : List Call)
    → IsClosing l.state
    → All KeepsClosing cs
    → IsClosing (run l cs).state × (requests (run l cs).state ≤ requests l.state)
unfolding run
run-IsClosing l [] h k = (h, omega arith)
run-IsClosing l (c ∷ cs) h k =
    let (h', le) = perform-IsClosing c l h k.0 in
    let (closing, le') = run-IsClosing (perform c l).1 cs h' k.1 in (closing, omega arith)

start_request-IsClosing :
    (l : ModelLifecycle)
    → IsClosing l.state
    → start_request l ≡ (err LifecycleError.invalid_transition, l)
unfolding start_request
start_request-IsClosing l h = ground arith

-- From a lifecycle in which an unload is under way (`Draining`, `Cancelling` or `Unloading`), and after
-- any sequence of calls from there that leaves out failures and the completion of the unload,
-- `start_request` is refused with `InvalidTransition` and leaves the lifecycle as it is.
pub start_request-run :
    (l : ModelLifecycle) (cs : List Call)
    → IsClosing l.state
    → All KeepsClosing cs
    → start_request (run l cs) ≡ (err LifecycleError.invalid_transition, run l cs)
start_request-run l cs h k = start_request-IsClosing (run l cs) (run-IsClosing l cs h k).0

-- The calls that come while the last requests run out.
abbrev pub IsWindDown : Call → Type 0
IsWindDown Call.finishes = Unit
IsWindDown (Call.polls now) = Unit
IsWindDown _ = ⊥

abbrev pub finishes : List Call → ℕ
finishes [] = 0
finishes (Call.finishes ∷ cs) = suc (finishes cs)
finishes (_ ∷ cs) = finishes cs

wind_down-poll :
    (l : ModelLifecycle) (now : ℕ)
    → IsClosing l.state
    → IsValid l
    → IsClosing (perform (Call.polls now) l).1.state
      × (requests (perform (Call.polls now) l).1.state ≡ requests l.state)
unfolding perform
wind_down-poll l now h v = ground arith

wind_down-finish :
    (l : ModelLifecycle)
    → IsClosing l.state
    → IsValid l
    → IsClosing (perform Call.finishes l).1.state
      × (requests (perform Call.finishes l).1.state ≡ requests l.state - 1)
unfolding perform
wind_down-finish l h v = ground arith

unloading_of_idle :
    (l : ModelLifecycle)
    → IsClosing l.state
    → IsValid l
    → requests l.state ≡ 0
    → l.state ≡ ModelLifecycleState.unloading
unloading_of_idle l h v e = ground arith

-- Draining and cancelling end: when all the requests that were counted have finished, with any
-- polls in between, the lifecycle is `Unloading`.
pub run-unloading :
    (l : ModelLifecycle) (cs : List Call)
    → IsClosing l.state
    → IsValid l
    → All IsWindDown cs
    → requests l.state ≤ finishes cs
    → (run l cs).state ≡ ModelLifecycleState.unloading
unfolding run
run-unloading l [] h v k enough = unloading_of_idle l h v (omega arith)
run-unloading l (Call.finishes ∷ cs) h v k enough =
    let (closing, fewer) = wind_down-finish l h v in
    run-unloading (perform Call.finishes l).1 cs closing (perform-IsValid Call.finishes l v tt) k.1
      (omega arith)
run-unloading l (Call.polls now ∷ cs) h v k enough =
    let (closing, same) = wind_down-poll l now h v in
    run-unloading (perform (Call.polls now) l).1 cs closing
      (perform-IsValid (Call.polls now) l v tt) k.1 (omega arith)
run-unloading l (_ ∷ cs) h v k enough = absurd k.0

-- After a drain of `n` active requests is accepted at `start`, a poll cancels them, for the reason
-- that the drain timed out, exactly from `start` plus the timeout on.
pub poll_drain :
    (l : ModelLifecycle) (n start now : ℕ) (timeout : DrainTimeout)
    → l.state ≡ ModelLifecycleState.active n
    → TimeoutIsValid timeout
    → ((poll now (request_unload (UnloadPolicy.drain timeout) start l).1).0
        ≡ ok (LifecycleAction.cancel_requests CancellationReason.drain_timeout))
      ↔ (start + timeout.milliseconds ≤ now)
unfolding poll request_unload
poll_drain l n start now timeout e v = ground arith
