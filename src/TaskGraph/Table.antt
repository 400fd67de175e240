-- ===== src/TaskGraph/Table.antt =====
-- crates/features/task-graph/src/lib.rs: `TaskStateTable`, the runtime state of a graph's tasks.
-- `start`, `succeed_attempt`, `fail_attempt` and `cancel` write only after their last check, so
-- their error leaves the table as it was; `propagate_blocked` returns the table beside its result.
pub mod Moves
mod Passes
pub mod Prerequisites
pub mod Steps
pub mod Budget
pub mod Changes
pub mod Blocking
pub mod Ready
pub mod Invariants
pub mod Tokens
pub mod Order
mod Tests
use llm_app.Prelude.{
  ltb, ℕ, zero, suc, ◌+◌, Bool, true, false, not, ◌&&◌, ◌||◌, ◌==◌, leb, if◌then◌else◌, Option,
  none, some, List, [], ◌∷◌, length, get_elem?, set, Result, ok, err, ok_or, ensure, ◌>>=◌, ◌>>◌,
  u16_max, u64_max, saturating_add,
}
use llm_app.Contracts.Capacity.{CapacityExhausted, CapacityResource}
use llm_app.TaskGraph.Types.{
  TaskNode, TaskDependency, TaskGraph, node_index, TaskAttempt, TaskStatus, TaskRuntimeState,
  TaskGraphError, status_eq, attempt_eq,
}

pub record TaskStateTable : Type 0 where
  pub states : List TaskRuntimeState

unfoldable pub new : TaskGraph → List TaskRuntimeState → Result TaskGraphError TaskStateTable
new graph states =
    if length states == length graph.nodes
    then ok (record { states = states })
    else err (TaskGraphError.state_length_mismatch (length graph.nodes) (length states))

pub state : TaskGraph → ℕ → TaskStateTable → Option TaskRuntimeState
state graph task_id table = elim (node_index graph task_id) [
  | none ↦ none
  | some index ↦ get_elem? table.states index
]

-- `NonZeroU16::new`.
abbrev pub non_zero : ℕ → Option ℕ
non_zero zero = none
non_zero (suc n) = some (suc n)

abbrev pub is_unsuccessful : TaskStatus → Bool
is_unsuccessful TaskStatus.exhausted = true
is_unsuccessful TaskStatus.cancelled = true
is_unsuccessful TaskStatus.blocked = true
is_unsuccessful _ = false

-- The state of a dependency's prerequisite, with the errors of the two loops that read it.
pub prerequisite_state :
    TaskGraph → List TaskRuntimeState → TaskDependency → Result TaskGraphError TaskRuntimeState
prerequisite_state graph states d = do
  index ← ok_or (node_index graph d.prerequisite) (TaskGraphError.unknown_task d.prerequisite)
  ok_or (get_elem? states index)
      (TaskGraphError.state_length_mismatch (length graph.nodes) (length states))

pub prerequisites_loop :
    TaskGraph → List TaskRuntimeState → ℕ → List TaskDependency → Result TaskGraphError Bool
prerequisites_loop graph states task_id [] = ok true
prerequisites_loop graph states task_id (d ∷ ds) =
    let rest = prerequisites_loop graph states task_id ds in
    if d.dependent == task_id
    then (prerequisite_state graph states d >>= λ s.
        if status_eq s.status TaskStatus.succeeded then rest else ok false)
    else rest

pub prerequisites_succeeded : TaskGraph → List TaskRuntimeState → ℕ → Result TaskGraphError Bool
prerequisites_succeeded graph states task_id =
    prerequisites_loop graph states task_id graph.dependencies

pub unsuccessful_loop :
    TaskGraph → List TaskRuntimeState → ℕ → List TaskDependency → Result TaskGraphError Bool
unsuccessful_loop graph states task_id [] = ok false
unsuccessful_loop graph states task_id (d ∷ ds) =
    let rest = unsuccessful_loop graph states task_id ds in
    if d.dependent == task_id
    then (prerequisite_state graph states d >>= λ s.
        if is_unsuccessful s.status then ok true else rest)
    else rest

pub has_unsuccessful_prerequisite :
    TaskGraph → List TaskRuntimeState → ℕ → Result TaskGraphError Bool
has_unsuccessful_prerequisite graph states task_id =
    unsuccessful_loop graph states task_id graph.dependencies

abbrev pub is_startable : TaskStatus → Bool
is_startable status = status_eq status TaskStatus.pending || status_eq status TaskStatus.failed

abbrev pub Update : Type 0 → Type 0
Update A = Result TaskGraphError (A × TaskStateTable)

pub start : TaskGraph → ℕ → TaskStateTable → Update TaskAttempt
start graph task_id table = do
  index ← ok_or (node_index graph task_id) (TaskGraphError.unknown_task task_id)
  node ← ok_or (get_elem? graph.nodes index) (TaskGraphError.unknown_task task_id)
  current ← ok_or (get_elem? table.states index) (TaskGraphError.unknown_task task_id)
  ensure (is_startable current.status) (TaskGraphError.invalid_transition task_id current.status)
  succeeded ← prerequisites_succeeded graph table.states task_id
  ensure succeeded (TaskGraphError.invalid_transition task_id current.status)
  ensure (not (leb node.budget.maximum_attempts current.attempts))
      (TaskGraphError.attempt_limit_reached task_id)
  number ←
      ok_or (non_zero (saturating_add u16_max current.attempts 1))
        (TaskGraphError.attempt_limit_reached task_id)
  ok (
    record { task = task_id; number = number },
    record {
      states = set table.states index (record { status = TaskStatus.running; attempts = number });
    },
  )

abbrev active_attempt : ℕ → TaskRuntimeState → Option TaskAttempt
active_attempt task s = elim (non_zero s.attempts) [
  | none ↦ none
  | some number ↦ some (record { task = task; number = number })
]

abbrev is_active : Option TaskAttempt → TaskAttempt → Bool
is_active none attempt = false
is_active (some active) attempt = attempt_eq active attempt

pub validate_attempt : TaskGraph → TaskAttempt → TaskStateTable → Result TaskGraphError ℕ
validate_attempt graph attempt table = do
  index ← ok_or (node_index graph attempt.task) (TaskGraphError.unknown_task attempt.task)
  s ← ok_or (get_elem? table.states index) (TaskGraphError.unknown_task attempt.task)
  ensure
      (status_eq s.status TaskStatus.running && is_active (active_attempt attempt.task s) attempt)
      (TaskGraphError.invalid_attempt attempt (active_attempt attempt.task s) s.status)
  ok index

pub succeed_attempt : TaskGraph → TaskAttempt → TaskStateTable → Update (Unit {0})
unfolding validate_attempt
succeed_attempt graph attempt table = do
  index ← validate_attempt graph attempt table
  s ← ok_or (get_elem? table.states index) (TaskGraphError.unknown_task attempt.task)
  ok (tt, record { states = set table.states index (record s { status = TaskStatus.succeeded }) })

pub fail_attempt : TaskGraph → TaskAttempt → TaskStateTable → Update (Unit {0})
unfolding validate_attempt
fail_attempt graph attempt table = do
  index ← validate_attempt graph attempt table
  node ← ok_or (get_elem? graph.nodes index) (TaskGraphError.unknown_task attempt.task)
  s ← ok_or (get_elem? table.states index) (TaskGraphError.unknown_task attempt.task)
  ok (
    tt,
    record {
      states = set table.states index (record s {
        status =
            if leb node.budget.maximum_attempts s.attempts
            then TaskStatus.exhausted
            else TaskStatus.failed;
      });
    },
  )

abbrev pub is_cancellable : TaskStatus → Bool
is_cancellable TaskStatus.pending = true
is_cancellable TaskStatus.failed = true
is_cancellable TaskStatus.running = true
is_cancellable _ = false

pub cancel : TaskGraph → ℕ → TaskStateTable → Update (Unit {0})
cancel graph task_id table = do
  index ← ok_or (node_index graph task_id) (TaskGraphError.unknown_task task_id)
  s ← ok_or (get_elem? table.states index) (TaskGraphError.unknown_task task_id)
  ensure (is_cancellable s.status) (TaskGraphError.invalid_transition task_id s.status)
  ok (tt, record { states = set table.states index (record s { status = TaskStatus.cancelled }) })

-- One pass of the `loop` of `propagate_blocked` over the nodes from `index` on. The `get_mut` of
-- the source reads the entry that `get` found just before.
pub sweep :
    TaskGraph → ℕ → List TaskNode → TaskStateTable → ℕ → Result TaskGraphError ℕ × TaskStateTable
sweep graph index [] table changed = (ok changed, table)
sweep graph index (n ∷ ns) table changed = elim (get_elem? table.states index) [
  | none ↦
      (err (TaskGraphError.state_length_mismatch (length graph.nodes) (length table.states)), table)
  | some current ↦ elim (status_eq current.status TaskStatus.pending) [
    | false ↦ sweep graph (suc index) ns table changed
    | true ↦ elim (has_unsuccessful_prerequisite graph table.states n.id) [
      | err e ↦ (err e, table)
      | ok false ↦ sweep graph (suc index) ns table changed
      | ok true ↦
          sweep graph (suc index) ns
            (record {
              states = set table.states index (record current { status = TaskStatus.blocked });
            })
            (changed + 1)
    ]
  ]
]

-- The `loop`, on fuel: `none` means that the fuel ran out.
pub propagate :
    ℕ → TaskGraph → ℕ → TaskStateTable → Option (Result TaskGraphError ℕ × TaskStateTable)
propagate zero graph total table = none
propagate (suc fuel) graph total table =
    let (outcome, table') = sweep graph 0 graph.nodes table 0 in
    elim outcome [
      | err e ↦ some (err e, table')
      | ok changed ↦ elim (changed == 0) [
        | true ↦ some (ok (saturating_add u64_max total changed), table')
        | false ↦ propagate fuel graph (saturating_add u64_max total changed) table'
      ]
    ]

-- Each pass but the last blocks a task, so one more than the entries is enough fuel.
pub propagate_blocked :
    TaskGraph → TaskStateTable → Option (Result TaskGraphError ℕ × TaskStateTable)
propagate_blocked graph table = propagate (suc (length table.states)) graph 0 table

-- The condition of `ready_tasks`; the prerequisites are read only for a pending or failed task.
pub is_ready :
    TaskGraph → List TaskRuntimeState → TaskNode → TaskRuntimeState → Result TaskGraphError Bool
is_ready graph states n s =
    if is_startable s.status
    then (prerequisites_succeeded graph states n.id >>= λ succeeded.
        ok (succeeded && not (leb n.budget.maximum_attempts s.attempts)))
    else ok false

pub ready_loop :
    TaskGraph → TaskStateTable → ℕ → List TaskNode → List ℕ → ℕ → Result TaskGraphError ℕ × List ℕ
ready_loop graph table index [] output written = (ok written, output)
ready_loop graph table index (n ∷ ns) output written = elim (get_elem? table.states index) [
  | none ↦ (
    err (TaskGraphError.state_length_mismatch (length graph.nodes) (length table.states)),
    output,
  )
  | some s ↦ elim (is_ready graph table.states n s) [
    | err e ↦ (err e, output)
    | ok false ↦ ready_loop graph table (suc index) ns output written
    | ok true ↦ elim (ltb written (length output)) [
      | false ↦ (
        err (
            TaskGraphError.capacity_exhausted (record {
              resource = CapacityResource.task_nodes;
              required = saturating_add u64_max written 1;
              available = length output;
            })),
        output,
      )
      | true ↦ ready_loop graph table (suc index) ns (set output written n.id) (written + 1)
    ]
  ]
]

pub ready_tasks : TaskGraph → TaskStateTable → List ℕ → Result TaskGraphError ℕ × List ℕ
ready_tasks graph table output = ready_loop graph table 0 graph.nodes output 0

-- One call on the table by its owner.
pub data Call : Type 0 where
  starts cancels : ℕ → Call
  succeeds fails : TaskAttempt → Call
  propagates : Call

-- The table after a call: a refused call leaves it, `propagate_blocked` keeps what it wrote.
abbrev pub after {ℓ} :
    {A : Type ℓ} → TaskStateTable → Result TaskGraphError (A × TaskStateTable) → TaskStateTable
after table (ok (a, table')) = table'
after table (err e) = table

abbrev pub after_propagation :
    TaskStateTable → Option (Result TaskGraphError ℕ × TaskStateTable) → TaskStateTable
after_propagation table none = table
after_propagation table (some (outcome, table')) = table'

pub perform : TaskGraph → Call → TaskStateTable → TaskStateTable
perform graph (Call.starts task_id) table = after table (start graph task_id table)
perform graph (Call.cancels task_id) table = after table (cancel graph task_id table)
perform graph (Call.succeeds attempt) table = after table (succeed_attempt graph attempt table)
perform graph (Call.fails attempt) table = after table (fail_attempt graph attempt table)
perform graph Call.propagates table = after_propagation table (propagate_blocked graph table)

pub run : TaskGraph → TaskStateTable → List Call → TaskStateTable
run graph table [] = table
run graph table (c ∷ cs) = run graph (perform graph c table) cs
