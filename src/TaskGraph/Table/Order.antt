-- ===== src/TaskGraph/Table/Order.antt =====
-- The order in which crates/features/task-graph/src/lib.rs lets tasks run.
use llm_app.Prelude.{
  ℕ, zero, suc, ◌≤◌, ◌≡◌, inl, inr, some, List, [], ◌∷◌, get_elem?, All, Option-cases, arith,
}
use llm_app.TaskGraph.Types.{
  TaskDependency, TaskNode, TaskGraph, TaskStatus, TaskRuntimeState, node_index,
}
use llm_app.TaskGraph.Table.{TaskStateTable, state, Call, run}
use llm_app.TaskGraph.Table.Prerequisites.{
  EveryPrerequisite, prerequisites_succeeded_iff, SomePrerequisite, IsUnsuccessful,
  has_unsuccessful_prerequisite-true,
}
use llm_app.TaskGraph.Table.Steps.{
  Move, starts, succeeds, fails, exhausts, cancels, blocks, Steps, BudgetsAreValid, run-Steps,
}
use llm_app.TaskGraph.Table.Budget.{IsTerminal, Steps-IsTerminal}
use llm_app.TaskGraph.Table.Invariants.{ForTasks, Steps-ForTasks}

abbrev pub IsSucceeded : TaskStatus → Type 0
IsSucceeded status = status ≡ TaskStatus.succeeded

Steps-state :
    (graph : TaskGraph) (t u : TaskStateTable) (task_id : ℕ) (s : TaskRuntimeState)
    → Steps graph t u
    → state graph task_id t ≡ some s
    → IsTerminal s.status
    → state graph task_id u ≡ some s
unfolding state
Steps-state graph t u task_id s steps e h = elim (Option-cases (node_index graph task_id)) [
  | inl f ↦ absurd (ground arith)
  | inr (i, f) ↦ ground (arith, Steps-IsTerminal i s steps)
]

Steps-EveryPrerequisite :
    (graph : TaskGraph) (t u : TaskStateTable) (task_id : ℕ) (ds : List TaskDependency)
    → Steps graph t u
    → EveryPrerequisite graph t.states task_id IsSucceeded ds
    → EveryPrerequisite graph u.states task_id IsSucceeded ds
Steps-EveryPrerequisite graph t u task_id [] steps h = tt
Steps-EveryPrerequisite graph t u task_id (d ∷ ds) steps h = (
  λ own.
      let (s, e, f) = h.0 own in
      (s, Steps-state graph t u d.prerequisite s steps e (ground arith), f),
  Steps-EveryPrerequisite graph t u task_id ds steps h.1,
)

Steps-SomePrerequisite :
    (graph : TaskGraph) (t u : TaskStateTable) (task_id : ℕ) (ds : List TaskDependency)
    → Steps graph t u
    → SomePrerequisite graph t.states task_id IsUnsuccessful ds
    → SomePrerequisite graph u.states task_id IsUnsuccessful ds
Steps-SomePrerequisite graph t u task_id [] steps h = absurd h
Steps-SomePrerequisite graph t u task_id (d ∷ ds) steps (inl (own, s, e, f)) =
    inl (own, s, Steps-state graph t u d.prerequisite s steps e (ground arith), f)
Steps-SomePrerequisite graph t u task_id (d ∷ ds) steps (inr h) =
    inr (Steps-SomePrerequisite graph t u task_id ds steps h)

-- A task that was ever started has all of its prerequisites succeeded, and a blocked one has an
-- unsuccessful prerequisite.
pub record IsOrdered (graph : TaskGraph) (t : TaskStateTable) (n : TaskNode) (s : TaskRuntimeState)
    : Type 0 where
  pub started :
      1 ≤ s.attempts → EveryPrerequisite graph t.states n.id IsSucceeded graph.dependencies
  pub blocked :
      s.status ≡ TaskStatus.blocked
      → SomePrerequisite graph t.states n.id IsUnsuccessful graph.dependencies

Steps-IsOrdered :
    (graph : TaskGraph) (t u : TaskStateTable) (n : TaskNode) (s : TaskRuntimeState)
    → Steps graph t u
    → IsOrdered graph t n s
    → IsOrdered graph u n s
Steps-IsOrdered graph t u n s steps v = record {
  started = λ h. Steps-EveryPrerequisite graph t u n.id graph.dependencies steps (v.started h);
  blocked = λ h. Steps-SomePrerequisite graph t u n.id graph.dependencies steps (v.blocked h);
}

module _ (graph : TaskGraph) (t : TaskStateTable) (n : TaskNode) (b a : TaskRuntimeState) where
  Move-IsOrdered : Move graph t n b a → IsOrdered graph t n b → IsOrdered graph t n a
  Move-IsOrdered (starts was ready left e) v = record {
    started = λ h. (prerequisites_succeeded_iff graph t.states n.id).0 ready;
    blocked = λ h. absurd (ground arith);
  }
  Move-IsOrdered (blocks was found e) v = record {
    started = λ h. v.started (ground arith);
    blocked = λ h. has_unsuccessful_prerequisite-true graph t.states n.id found;
  }
  Move-IsOrdered (succeeds was e) v = record {
    started = λ h. v.started (ground arith);
    blocked = λ h. absurd (ground arith);
  }
  Move-IsOrdered (fails was left e) v = record {
    started = λ h. v.started (ground arith);
    blocked = λ h. absurd (ground arith);
  }
  Move-IsOrdered (exhausts was spent e) v = record {
    started = λ h. v.started (ground arith);
    blocked = λ h. absurd (ground arith);
  }
  Move-IsOrdered (cancels was e) v = record {
    started = λ h. v.started (ground arith);
    blocked = λ h. absurd (ground arith);
  }

-- No task was started or blocked yet, as in a table of default states.
abbrev pub IsFresh : TaskStateTable → Type 0
IsFresh t = All (λ s. (s.attempts ≡ 0) × (s.status ≡ TaskStatus.pending)) t.states

IsFresh-get :
    (ss : List TaskRuntimeState) (i : ℕ) (s : TaskRuntimeState)
    → All (λ (r : TaskRuntimeState). (r.attempts ≡ 0) × (r.status ≡ TaskStatus.pending)) ss
    → get_elem? ss i ≡ some s
    → (s.attempts ≡ 0) × (s.status ≡ TaskStatus.pending)
IsFresh-get [] i s h e = cc
IsFresh-get (r ∷ ss) zero s h e = ground arith
IsFresh-get (r ∷ ss) (suc i) s h e = IsFresh-get ss i s h.1 e

-- From a table of default states, under any sequence of calls: whenever a task has an attempt,
-- every dependency that names it leads to a task in the table that has succeeded; and whenever it
-- is blocked, some dependency that names it leads to a task that is exhausted, cancelled or blocked.
-- Budgets are those of a `NonZeroU16`.
pub run-IsOrdered :
    (graph : TaskGraph) (t : TaskStateTable) (cs : List Call)
    → BudgetsAreValid graph
    → IsFresh t
    → ForTasks (IsOrdered graph) graph (run graph t cs)
run-IsOrdered graph t cs budgets fresh =
    Steps-ForTasks (IsOrdered graph) (Steps-IsOrdered graph) (Move-IsOrdered graph)
      (run-Steps graph t cs budgets)
      (λ i n s e f.
        let (no_attempt, waits) = IsFresh-get t.states i s fresh f in
        record { started = λ h. absurd (omega arith); blocked = λ h. absurd (ground arith) })
