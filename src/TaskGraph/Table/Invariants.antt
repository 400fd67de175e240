-- ===== src/TaskGraph/Table/Invariants.antt =====
-- Invariants that speak of each task of a table and hold through every call
-- (crates/features/task-graph/src/lib.rs).
use llm_app.Prelude.{ℕ, ◌≡◌, sym, ◌∙◌, some, get_elem?, set, arith}
use llm_app.Prelude.{ℕ_discrete, get_elem?-set_ne, get_elem?-set_self, get_elem?-lt}
use llm_app.TaskGraph.Types.{TaskNode, TaskGraph, TaskRuntimeState}
use llm_app.TaskGraph.Table.{TaskStateTable}
use llm_app.TaskGraph.Table.Steps.{Move, Steps, done, step}

-- A property of each task's node and state, within the whole table.
abbrev pub ForTasks :
    (TaskStateTable → TaskNode → TaskRuntimeState → Type 0) → TaskGraph → TaskStateTable → Type 0
ForTasks Q graph t =
    (i : ℕ) (n : TaskNode) (s : TaskRuntimeState)
    → get_elem? graph.nodes i ≡ some n
    → get_elem? t.states i ≡ some s
    → Q t n s

-- What a move establishes for the task that it moves, and every step keeps for the others, holds
-- through any sequence of steps.
module _ {graph : TaskGraph} (Q : TaskStateTable → TaskNode → TaskRuntimeState → Type 0)
    (keeps : (t u : TaskStateTable) (n : TaskNode) (s : TaskRuntimeState)
      → Steps graph t u
      → Q t n s
      → Q u n s)
    (moves : (t : TaskStateTable) (n : TaskNode) (b a : TaskRuntimeState)
      → Move graph t n b a
      → Q t n b
      → Q t n a) where
  pub Steps-ForTasks :
      {t u : TaskStateTable} → Steps graph t u → ForTasks Q graph t → ForTasks Q graph u
  Steps-ForTasks done v = v
  Steps-ForTasks (step {t} index n b a e f m rest) v = Steps-ForTasks rest after_move
    where
      moved : TaskStateTable
      moved = record { states = set t.states index a }

      after_move : ForTasks Q graph moved
      after_move i k s g h =
          keeps t moved k s (step index n b a e f m done) (elim (ℕ_discrete index i) [
            | no other ↦ v i k s g (sym (get_elem?-set_ne t.states index i a other) ∙ h)
            | yes same ↦
                let named : k ≡ n = ground (arith, e, g) in
                let written : get_elem? (set t.states index a) index ≡ some a =
                  get_elem?-set_self t.states index a (get_elem?-lt t.states index f) in
                let equal : s ≡ a = ground (arith, written, h) in
                rw (named, equal) (moves t n b a m (v index n b e f))
          ])
