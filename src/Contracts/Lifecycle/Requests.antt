-- ===== src/Contracts/Lifecycle/Requests.antt =====
-- The request count of the model lifecycle (crates/features/domain-contracts/src/lifecycle.rs).
use llm_app.Prelude.{All, ℕ, ◌+◌, ◌≤◌, ◌≡◌, refl, List, [], ◌∷◌, ok, err, u32_max, arith}
use llm_app.Contracts.Lifecycle.{
  DrainTimeout, UnloadPolicy, ModelLifecycleState, ModelLifecycle, LifecycleError, Call, perform,
  run, Outcome,
}

-- A stored timeout is a `NonZeroU64`.
abbrev pub TimeoutIsValid : DrainTimeout → Type 0
TimeoutIsValid t = 1 ≤ t.milliseconds

abbrev pub CountIsValid : ℕ → Type 0
CountIsValid n = (1 ≤ n) × (n ≤ u32_max)

abbrev pub StateIsValid : ModelLifecycleState → Type 0
StateIsValid (ModelLifecycleState.active n) = CountIsValid n
StateIsValid (ModelLifecycleState.draining n window) =
    CountIsValid n × TimeoutIsValid window.timeout
StateIsValid (ModelLifecycleState.cancelling n reason) = CountIsValid n
StateIsValid _ = Unit

abbrev pub IsValid : ModelLifecycle → Type 0
IsValid l = StateIsValid l.state

-- A caller can build a drain policy only from a nonzero timeout.
abbrev pub CallIsValid : Call → Type 0
CallIsValid (Call.requests_unload (UnloadPolicy.drain timeout) now) = TimeoutIsValid timeout
CallIsValid _ = Unit

abbrev pub CallsAreValid : List Call → Type 0
CallsAreValid [] = Unit
CallsAreValid (c ∷ cs) = CallIsValid c × CallsAreValid cs

pub perform-IsValid :
    (c : Call) (l : ModelLifecycle) → IsValid l → CallIsValid c → IsValid (perform c l).1
unfolding perform
perform-IsValid Call.begin_loads l v h = ground arith
perform-IsValid _ l v h = ground arith

-- Whatever is called, in whatever order, a lifecycle in which every request count is between one
-- and `u32::MAX` and every stored drain timeout is nonzero stays so, if each drain policy that the
-- calls pass has a nonzero timeout.
pub run-IsValid :
    (l : ModelLifecycle) (cs : List Call) → IsValid l → CallsAreValid cs → IsValid (run l cs)
unfolding run
run-IsValid l [] v h = v
run-IsValid l (c ∷ cs) v h = run-IsValid (perform c l).1 cs (perform-IsValid c l v h.0) h.1

-- The requests that the lifecycle counts as running.
abbrev pub requests : ModelLifecycleState → ℕ
requests (ModelLifecycleState.active n) = n
requests (ModelLifecycleState.draining n window) = n
requests (ModelLifecycleState.cancelling n reason) = n
requests _ = 0

abbrev pub accepted : Outcome → ℕ
accepted (ok action, l) = 1
accepted (err e, l) = 0

abbrev pub started_by : Call → ModelLifecycle → ℕ
started_by Call.starts l = accepted (perform Call.starts l)
started_by _ l = 0

abbrev pub finished_by : Call → ModelLifecycle → ℕ
finished_by Call.finishes l = accepted (perform Call.finishes l)
finished_by _ l = 0

-- The requests that a history starts and finishes, counting the accepted calls.
pub started : ModelLifecycle → List Call → ℕ
started l [] = 0
started l (c ∷ cs) = started_by c l + started (perform c l).1 cs

pub finished : ModelLifecycle → List Call → ℕ
finished l [] = 0
finished l (c ∷ cs) = finished_by c l + finished (perform c l).1 cs

abbrev pub IsNotFailure : Call → Type 0
IsNotFailure (Call.fails phase failure) = ⊥
IsNotFailure _ = Unit

perform-requests :
    (c : Call) (l : ModelLifecycle)
    → IsValid l
    → IsNotFailure c
    → requests (perform c l).1.state + finished_by c l ≡ requests l.state + started_by c l
unfolding perform
perform-requests Call.begin_loads l v h = ground arith
perform-requests _ l v h = ground arith

-- In a history of valid calls without a reported failure, the requests still counted and those
-- finished are together those counted at first and those started since.
pub requests-run :
    (l : ModelLifecycle) (cs : List Call)
    → IsValid l
    → CallsAreValid cs
    → All IsNotFailure cs
    → requests (run l cs).state + finished l cs ≡ requests l.state + started l cs
unfolding run started finished
requests-run l [] v h k = refl
requests-run l (c ∷ cs) v h k = omega (
  arith,
  perform-requests c l v k.0,
  requests-run (perform c l).1 cs (perform-IsValid c l v h.0) h.1 k.1,
)

-- A call that is refused, and not only reported so, leaves the lifecycle as it was.
pub perform_err :
    (c : Call) (l : ModelLifecycle) (e : LifecycleError)
    → (perform c l).0 ≡ err e
    → (perform c l).1 ≡ l
unfolding perform
perform_err Call.begin_loads l e h = ground arith
perform_err _ l e h = ground arith
