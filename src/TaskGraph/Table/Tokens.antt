-- ===== src/TaskGraph/Table/Tokens.antt =====
-- Attempt tokens of crates/features/task-graph/src/lib.rs: what `start` hands out, and when a
-- completion is stale.
use llm_app.Prelude.{ℕ, ◌≤◌, ◌<◌, ◌≡◌, sym, subst, ◌∙◌, some, List, get_elem?, set, ok, err, arith}
use llm_app.Prelude.{ℕ_discrete, get_elem?-set_ne, get_elem?-set_self, get_elem?-lt, u16_max}
use llm_app.TaskGraph.Types.{
  TaskNode, TaskGraph, TaskAttempt, TaskStatus, TaskRuntimeState, TaskGraphError, node_index,
  attempt_eq_iff,
}
use llm_app.TaskGraph.Table.{
  TaskStateTable, state, start, validate_attempt, succeed_attempt, fail_attempt, Call, run,
}
use llm_app.TaskGraph.Table.Moves.{Started, start_inv}
use llm_app.TaskGraph.Table.Steps.{
  Move, starts, succeeds, fails, exhausts, cancels, blocks, Steps, done, step, BudgetsAreValid,
  run-Steps, budget-le_u16_max,
}

Move-attempts :
    {graph : TaskGraph} {t : TaskStateTable} {n : TaskNode} {b a : TaskRuntimeState}
    → Move graph t n b a
    → b.attempts ≤ a.attempts
Move-attempts (starts was ready left e) = ground arith
Move-attempts (succeeds was e) = ground arith
Move-attempts (fails was left e) = ground arith
Move-attempts (exhausts was spent e) = ground arith
Move-attempts (cancels was e) = ground arith
Move-attempts (blocks was ready e) = ground arith

Steps-attempts :
    {graph : TaskGraph} {t u : TaskStateTable} (i : ℕ) (s : TaskRuntimeState)
    → Steps graph t u
    → get_elem? t.states i ≡ some s
    → (r : TaskRuntimeState) × (get_elem? u.states i ≡ some r) × (s.attempts ≤ r.attempts)
Steps-attempts i s done e = (s, e, omega arith)
Steps-attempts i s (step {t} index n b a f g m rest) e = elim (ℕ_discrete index i) [
  | yes same ↦
      let here : get_elem? t.states index ≡ some s = rw same e in
      let equal : b ≡ s = cc in
      let written : get_elem? (set t.states index a) index ≡ some a =
        get_elem?-set_self t.states index a (get_elem?-lt t.states index g) in
      let (r, h, le) =
        Steps-attempts i a rest
          (subst (λ (j : ℕ). get_elem? (set t.states index a) j ≡ some a) same written) in
      (r, h, ground (arith, Move-attempts m))
  | no other ↦
      let (r, h, le) = Steps-attempts i s rest (get_elem?-set_ne t.states index i a other ∙ e) in
      (r, h, le)
]

-- What the table says of a task that was just started.
Started-get_elem? :
    (graph : TaskGraph) (task_id : ℕ) (t u : TaskStateTable) (a : TaskAttempt)
    → (r : Started graph task_id t u a)
    → get_elem? u.states r.index
      ≡ some (record { status = TaskStatus.running; attempts = a.number })
Started-get_elem? graph task_id t u a r = rw r.written (
    get_elem?-set_self t.states r.index
      (record { status = TaskStatus.running; attempts = a.number })
      (get_elem?-lt t.states r.index r.had))

validate_attempt_stale :
    (graph : TaskGraph) (t : TaskStateTable) (a b : TaskAttempt) (index : ℕ)
    → node_index graph a.task ≡ some index
    → get_elem? t.states index ≡ some (record { status = TaskStatus.running; attempts = b.number })
    → b.task ≡ a.task
    → a.number < b.number
    → validate_attempt graph a t
      ≡ err (TaskGraphError.invalid_attempt a (some b) TaskStatus.running)
unfolding validate_attempt
validate_attempt_stale graph t a b index found had same older = ground (arith, attempt_eq_iff b a)

validate_attempt_fresh :
    (graph : TaskGraph) (t : TaskStateTable) (a : TaskAttempt) (index : ℕ)
    → node_index graph a.task ≡ some index
    → get_elem? t.states index ≡ some (record { status = TaskStatus.running; attempts = a.number })
    → 1 ≤ a.number
    → validate_attempt graph a t ≡ ok index
unfolding validate_attempt
validate_attempt_fresh graph t a index found had positive = ground (arith, attempt_eq_iff a a)

-- The token that `start` returns is accepted at once by `succeed_attempt`, and the task is then
-- `Succeeded` with that many attempts.
pub succeed_attempt-start :
    (graph : TaskGraph) (task_id : ℕ) (t u : TaskStateTable) (a : TaskAttempt)
    → start graph task_id t ≡ ok (a, u)
    → (v : TaskStateTable) × (succeed_attempt graph a u ≡ ok (tt, v))
      × (state graph task_id v
          ≡ some (record { status = TaskStatus.succeeded; attempts = a.number }))
unfolding succeed_attempt state
succeed_attempt-start graph task_id t u a h =
    let r : Started graph task_id t u a = start_inv graph task_id t u a h in
    let had = Started-get_elem? graph task_id t u a r in
    let found : node_index graph a.task ≡ some r.index = rw r.task r.found in
    let done_state : TaskRuntimeState = record {
      status = TaskStatus.succeeded;
      attempts = a.number;
    } in
    let written =
      get_elem?-set_self u.states r.index done_state (get_elem?-lt u.states r.index had) in
    (
      record { states = set u.states r.index done_state },
      ground (arith, validate_attempt_fresh graph u a r.index found had r.positive),
      ground (arith, r.found),
    )

-- Once a task was started again, whatever was called in between, both completions refuse the earlier
-- token and name the current one, and the later token has the greater number. Budgets are those of
-- a `NonZeroU16`.
pub start-stale :
    (graph : TaskGraph) (task_id : ℕ) (t u w : TaskStateTable) (a b : TaskAttempt) (cs : List Call)
    → BudgetsAreValid graph
    → start graph task_id t ≡ ok (a, u)
    → start graph task_id (run graph u cs) ≡ ok (b, w)
    → (a.number < b.number)
      × (succeed_attempt graph a w
          ≡ err (TaskGraphError.invalid_attempt a (some b) TaskStatus.running))
      × (fail_attempt graph a w
          ≡ err (TaskGraphError.invalid_attempt a (some b) TaskStatus.running))
unfolding succeed_attempt fail_attempt
start-stale graph task_id t u w a b cs budgets h k =
    let r : Started graph task_id t u a = start_inv graph task_id t u a h in
    let q : Started graph task_id (run graph u cs) w b =
      start_inv graph task_id (run graph u cs) w b k in
    let at : q.index ≡ r.index = ground (arith, r.found, q.found) in
    let (s, f, le) =
      Steps-attempts r.index (record { status = TaskStatus.running; attempts = a.number })
        (run-Steps graph u cs budgets) (Started-get_elem? graph task_id t u a r) in
    let same : s ≡ q.before = ground (arith, q.had, f) in
    let small : q.node.budget.maximum_attempts ≤ u16_max =
      budget-le_u16_max graph.nodes q.index q.node budgets q.has_node in
    let older : a.number < b.number = ground (arith, q.budget, q.counted) in
    let found : node_index graph a.task ≡ some q.index = rw r.task q.found in
    let stale =
      validate_attempt_stale graph w a b q.index found
        (Started-get_elem? graph task_id (run graph u cs) w b q) (q.task ∙ sym r.task) older in
    (older, ground (arith, stale), ground (arith, stale))
