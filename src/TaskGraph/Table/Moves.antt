-- ===== src/TaskGraph/Table/Moves.antt =====
-- Each call on the state table (crates/features/task-graph/src/lib.rs) moves one task by one step.
use llm_app.Prelude.{
  Option-cases, ℕ, ◌+◌, ◌≤◌, ◌<◌, ◌≡◌, ◌⊎◌, inl, inr, true, some, get_elem?, set, ok, arith,
  u16_max,
}
use llm_app.TaskGraph.Types.{
  TaskNode, TaskGraph, node_index, TaskAttempt, TaskStatus, TaskRuntimeState,
}
use llm_app.TaskGraph.Table.{TaskStateTable, prerequisites_succeeded, start, validate_attempt}

-- What a successful `start` found and wrote.
pub record Started (graph : TaskGraph) (task_id : ℕ) (t u : TaskStateTable) (a : TaskAttempt)
    : Type 0 where
  pub index : ℕ
  pub found : node_index graph task_id ≡ some index
  pub node : TaskNode
  pub has_node : get_elem? graph.nodes index ≡ some node
  pub before : TaskRuntimeState
  pub had : get_elem? t.states index ≡ some before
  pub was : (before.status ≡ TaskStatus.pending) ⊎ (before.status ≡ TaskStatus.failed)
  pub ready : prerequisites_succeeded graph t.states task_id ≡ ok true
  pub budget : before.attempts < node.budget.maximum_attempts
  pub task : a.task ≡ task_id
  pub written :
      u.states ≡ set t.states index (record { status = TaskStatus.running; attempts = a.number })
  pub positive : 1 ≤ a.number
  pub counted : before.attempts < u16_max → a.number ≡ before.attempts + 1

module _ (graph : TaskGraph) (task_id : ℕ) (t u : TaskStateTable) (a : TaskAttempt) where
  start_inv_at :
      (index : ℕ) (node : TaskNode) (before : TaskRuntimeState)
      → node_index graph task_id ≡ some index
      → get_elem? graph.nodes index ≡ some node
      → get_elem? t.states index ≡ some before
      → start graph task_id t ≡ ok (a, u)
      → Started graph task_id t u a
  unfolding start
  start_inv_at index node before found has_node had h = record {
    index = index;
    found = found;
    node = node;
    has_node = has_node;
    before = before;
    had = had;
    was = ground arith;
    ready = ground arith;
    budget = ground arith;
    task = ground arith;
    written = ground arith;
    positive = ground arith;
    counted = ground arith;
  }

  pub start_inv : start graph task_id t ≡ ok (a, u) → Started graph task_id t u a
  unfolding start
  start_inv h = elim (Option-cases (node_index graph task_id)) [
    | inl e ↦ absurd (ground arith)
    | inr (index, e) ↦ elim (Option-cases (get_elem? graph.nodes index)) [
      | inl f ↦ absurd (ground arith)
      | inr (node, f) ↦ elim (Option-cases (get_elem? t.states index)) [
        | inl g ↦ absurd (ground arith)
        | inr (before, g) ↦ start_inv_at index node before e f g h
      ]
    ]
  ]

-- What an accepted attempt token says of the table.
pub record Running (graph : TaskGraph) (attempt : TaskAttempt) (t : TaskStateTable) : Type 0 where
  pub index : ℕ
  pub found : node_index graph attempt.task ≡ some index
  pub before : TaskRuntimeState
  pub had : get_elem? t.states index ≡ some before
  pub was : before.status ≡ TaskStatus.running
  pub current : before.attempts ≡ attempt.number
  pub positive : 1 ≤ attempt.number

module _ (graph : TaskGraph) (attempt : TaskAttempt) (t : TaskStateTable) where
  validate_attempt_at :
      (index i : ℕ) (before : TaskRuntimeState)
      → node_index graph attempt.task ≡ some index
      → get_elem? t.states index ≡ some before
      → validate_attempt graph attempt t ≡ ok i
      → (i ≡ index)
        × (before.status ≡ TaskStatus.running)
        × (before.attempts ≡ attempt.number)
        × (1 ≤ attempt.number)
  unfolding validate_attempt
  validate_attempt_at index i before found had h = ground arith

  pub validate_attempt_inv :
      (i : ℕ)
      → validate_attempt graph attempt t ≡ ok i
      → (r : Running graph attempt t) × (i ≡ r.index)
  unfolding validate_attempt
  validate_attempt_inv i h = elim (Option-cases (node_index graph attempt.task)) [
    | inl e ↦ absurd (ground arith)
    | inr (index, e) ↦ elim (Option-cases (get_elem? t.states index)) [
      | inl g ↦ absurd (ground arith)
      | inr (before, g) ↦
          let (same, was, current, positive) = validate_attempt_at index i before e g h in
          (
            record {
              index = index;
              found = e;
              before = before;
              had = g;
              was = was;
              current = current;
              positive = positive;
            },
            same,
          )
    ]
  ]
