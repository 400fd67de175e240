-- ===== src/TaskGraph/Table/Steps.antt =====
-- The state machine of one task, and the calls on the table of crates/features/task-graph/src/lib.rs
-- as sequences of its moves.
use llm_app.Prelude.{
  ℕ, zero, suc, ◌+◌, ◌≤◌, ◌<◌, ◌≡◌, refl, sym, ap, subst, ◌⊎◌, inl, inr, true, Option, none, some,
  List, [], ◌∷◌, All, length, get_elem?, set, position-get_elem?, Option-cases, Bool-cases,
  Result-cases, Result, ok, err, arith, leb, u16_max, u64_max, saturating_add, ==_iff, ◌==◌,
}
use llm_app.TaskGraph.Types.{
  TaskNode, TaskGraph, node_index, TaskAttempt, TaskStatus, TaskRuntimeState, TaskGraphError,
}
use llm_app.TaskGraph.Table.{
  TaskStateTable, prerequisites_succeeded, has_unsuccessful_prerequisite, start, validate_attempt,
  succeed_attempt, fail_attempt, cancel, is_cancellable, sweep, propagate, propagate_blocked, Call,
  after, after_propagation, perform, run,
}
use llm_app.TaskGraph.Table.Passes.{block, sweep_cases, stopped, settled, again, propagate_inv}
use llm_app.TaskGraph.Table.Moves.{Started, start_inv, Running, validate_attempt_inv}

-- What may happen to the state `b` of a task in the table `t`. Only `starts` counts an attempt.
pub data Move (graph : TaskGraph) (t : TaskStateTable) (n : TaskNode) (b a : TaskRuntimeState)
    : Type 0 where
  starts :
      (b.status ≡ TaskStatus.pending) ⊎ (b.status ≡ TaskStatus.failed)
      → prerequisites_succeeded graph t.states n.id ≡ ok true
      → b.attempts < n.budget.maximum_attempts
      → a ≡ record { status = TaskStatus.running; attempts = b.attempts + 1 }
      → Move graph t n b a
  succeeds :
      b.status ≡ TaskStatus.running
      → a ≡ record b { status = TaskStatus.succeeded }
      → Move graph t n b a
  fails :
      b.status ≡ TaskStatus.running
      → b.attempts < n.budget.maximum_attempts
      → a ≡ record b { status = TaskStatus.failed }
      → Move graph t n b a
  exhausts :
      b.status ≡ TaskStatus.running
      → n.budget.maximum_attempts ≤ b.attempts
      → a ≡ record b { status = TaskStatus.exhausted }
      → Move graph t n b a
  cancels :
      is_cancellable b.status ≡ true
      → a ≡ record b { status = TaskStatus.cancelled }
      → Move graph t n b a
  blocks :
      b.status ≡ TaskStatus.pending
      → has_unsuccessful_prerequisite graph t.states n.id ≡ ok true
      → a ≡ record b { status = TaskStatus.blocked }
      → Move graph t n b a

pub data Steps (graph : TaskGraph) : TaskStateTable → TaskStateTable → Type 0 where
  done : {t : TaskStateTable} → Steps graph t t
  step :
      {t u : TaskStateTable} (index : ℕ) (n : TaskNode) (b a : TaskRuntimeState)
      → get_elem? graph.nodes index ≡ some n
      → get_elem? t.states index ≡ some b
      → Move graph t n b a
      → Steps graph (record { states = set t.states index a }) u
      → Steps graph t u

pub Steps-trans :
    {graph : TaskGraph} {t u v : TaskStateTable}
    → Steps graph t u
    → Steps graph u v
    → Steps graph t v
Steps-trans done r = r
Steps-trans (step index n b a e f m s) r = step index n b a e f m (Steps-trans s r)

-- `NonZeroU16` bounds the attempts of every node.
abbrev pub BudgetsAreValid : TaskGraph → Type 0
BudgetsAreValid graph =
    All (λ n. (1 ≤ n.budget.maximum_attempts) × (n.budget.maximum_attempts ≤ u16_max)) graph.nodes

pub budget-le_u16_max :
    (ns : List TaskNode) (i : ℕ) (n : TaskNode)
    → All (λ n. (1 ≤ n.budget.maximum_attempts) × (n.budget.maximum_attempts ≤ u16_max)) ns
    → get_elem? ns i ≡ some n
    → n.budget.maximum_attempts ≤ u16_max
budget-le_u16_max [] i n h e = cc
budget-le_u16_max (m ∷ ns) zero n h e = ground arith
budget-le_u16_max (m ∷ ns) (suc i) n h e = budget-le_u16_max ns i n h.1 e

module _ (graph : TaskGraph) where
  one_step :
      (t u : TaskStateTable) (index : ℕ) (n : TaskNode) (b a : TaskRuntimeState)
      → get_elem? graph.nodes index ≡ some n
      → get_elem? t.states index ≡ some b
      → Move graph t n b a
      → u.states ≡ set t.states index a
      → Steps graph t u
  one_step t u index n b a e f m w =
      subst (λ (s : List TaskRuntimeState). Steps graph t (record { states = s })) (sym w)
        (step index n b a e f m done)

  -- The node that an identity leads to.
  found_node :
      (task_id index : ℕ)
      → node_index graph task_id ≡ some index
      → (n : TaskNode) × (get_elem? graph.nodes index ≡ some n) × (n.id ≡ task_id)
  found_node task_id index e =
      let (n, f, passes) =
        position-get_elem? (λ (n : TaskNode). n.id == task_id) graph.nodes index e in
      (n, f, (==_iff n.id task_id).0 passes)

  pub found_node_id :
      (task_id index : ℕ) (n : TaskNode)
      → node_index graph task_id ≡ some index
      → get_elem? graph.nodes index ≡ some n
      → n.id ≡ task_id
  found_node_id task_id index n e f =
      let (m, g, same) = found_node task_id index e in let named : m ≡ n = cc in rw (← named) same

  start-Steps :
      (task_id : ℕ) (t u : TaskStateTable) (a : TaskAttempt)
      → BudgetsAreValid graph
      → start graph task_id t ≡ ok (a, u)
      → Steps graph t u
  start-Steps task_id t u a valid h =
      let r : Started graph task_id t u a = start_inv graph task_id t u a h in
      let same : r.node.id ≡ task_id = found_node_id task_id r.index r.node r.found r.has_node in
      let le : r.node.budget.maximum_attempts ≤ u16_max =
        budget-le_u16_max graph.nodes r.index r.node valid r.has_node in
      let number : a.number ≡ r.before.attempts + 1 = ground (arith, r.counted, r.budget) in
      one_step t u r.index r.node r.before
        (record { status = TaskStatus.running; attempts = a.number }) r.has_node r.had
        (starts r.was
          (subst (λ (k : ℕ). prerequisites_succeeded graph t.states k ≡ ok true) (sym same) r.ready)
          r.budget (ap (λ (k : ℕ). record { status = TaskStatus.running; attempts = k }) number))
        r.written

  succeed_attempt_inv :
      (attempt : TaskAttempt) (t u : TaskStateTable) (x : Unit {0})
      → succeed_attempt graph attempt t ≡ ok (x, u)
      → (r : Running graph attempt t) × (u.states
          ≡ set t.states r.index (record r.before { status = TaskStatus.succeeded }))
  unfolding succeed_attempt
  succeed_attempt_inv attempt t u x h = elim (Result-cases (validate_attempt graph attempt t)) [
    | inl (e, refused) ↦ absurd (ground arith)
    | inr (i, e) ↦
        let (r, same) = validate_attempt_inv graph attempt t i e in (r, ground (arith, r.had))
  ]

  succeed_attempt-Steps :
      (attempt : TaskAttempt) (t u : TaskStateTable) (x : Unit {0})
      → succeed_attempt graph attempt t ≡ ok (x, u)
      → Steps graph t u
  succeed_attempt-Steps attempt t u x h =
      let (r, written) = succeed_attempt_inv attempt t u x h in
      let (n, f, same) = found_node attempt.task r.index r.found in
      one_step t u r.index n r.before (record r.before { status = TaskStatus.succeeded }) f r.had
        (succeeds r.was refl) written

  fail_attempt_inv :
      (attempt : TaskAttempt) (t u : TaskStateTable) (x : Unit {0})
      → fail_attempt graph attempt t ≡ ok (x, u)
      → (r : Running graph attempt t) × (n : TaskNode) × (a : TaskRuntimeState) × (get_elem?
            graph.nodes r.index
          ≡ some n)
        × (u.states ≡ set t.states r.index a)
        × Move graph t n r.before a
  unfolding fail_attempt
  fail_attempt_inv attempt t u x h = elim (Result-cases (validate_attempt graph attempt t)) [
    | inl (e, refused) ↦ absurd (ground arith)
    | inr (i, e) ↦
        let (r, same) = validate_attempt_inv graph attempt t i e in
        let (n, f, named) = found_node attempt.task r.index r.found in
        elim (Bool-cases (leb n.budget.maximum_attempts r.before.attempts)) [
          | inl spent ↦ (
            r,
            n,
            record r.before { status = TaskStatus.exhausted },
            f,
            ground (arith, r.had),
            exhausts r.was (ground arith) refl,
          )
          | inr left ↦ (
            r,
            n,
            record r.before { status = TaskStatus.failed },
            f,
            ground (arith, r.had),
            fails r.was (ground arith) refl,
          )
        ]
  ]

  fail_attempt-Steps :
      (attempt : TaskAttempt) (t u : TaskStateTable) (x : Unit {0})
      → fail_attempt graph attempt t ≡ ok (x, u)
      → Steps graph t u
  fail_attempt-Steps attempt t u x h =
      let (r, n, a, f, written, move) = fail_attempt_inv attempt t u x h in
      one_step t u r.index n r.before a f r.had move written

  cancel-Steps :
      (task_id : ℕ) (t u : TaskStateTable) (x : Unit {0})
      → cancel graph task_id t ≡ ok (x, u)
      → Steps graph t u
  unfolding cancel
  cancel-Steps task_id t u x h = elim (Option-cases (node_index graph task_id)) [
    | inl e ↦ absurd (ground arith)
    | inr (index, e) ↦ elim (Option-cases (get_elem? t.states index)) [
      | inl g ↦ absurd (ground arith)
      | inr (b, g) ↦
          let (n, f, same) = found_node task_id index e in
          one_step t u index n b (record b { status = TaskStatus.cancelled }) f g
            (cancels (ground arith) refl) (ground arith)
    ]
  ]

  -- `ns` are the nodes from `index` on.
  abbrev IsTail : ℕ → List TaskNode → Type 0
  IsTail index ns = (k : ℕ) → get_elem? ns k ≡ get_elem? graph.nodes (index + k)

  IsTail-next :
      (index : ℕ) (n : TaskNode) (ns : List TaskNode)
      → IsTail index (n ∷ ns)
      → IsTail (suc index) ns
  IsTail-next index n ns tail k =
      let e : suc index + k ≡ index + suc k = omega arith in rw e (tail (suc k))

  IsTail-head :
      (index : ℕ) (n : TaskNode) (ns : List TaskNode)
      → IsTail index (n ∷ ns)
      → get_elem? graph.nodes index ≡ some n
  IsTail-head index n ns tail = let e : index + 0 ≡ index = omega arith in rw e at (sym (tail 0))

  sweep-Steps :
      (index : ℕ) (ns : List TaskNode) (t : TaskStateTable) (changed : ℕ)
      → IsTail index ns
      → Steps graph t (sweep graph index ns t changed).1
  unfolding sweep
  sweep-Steps index [] t changed tail = done
  sweep-Steps index (n ∷ ns) t changed tail =
      sweep_cases (λ (r : Result TaskGraphError ℕ × TaskStateTable). Steps graph t r.1) graph index
        n ns t changed (λ e. done)
        (λ b f g. sweep-Steps (suc index) ns t changed (IsTail-next index n ns tail))
        (λ b f g k.
          step index n b (record b { status = TaskStatus.blocked }) (IsTail-head index n ns tail) f
            (blocks g k refl)
            (sweep-Steps (suc index) ns (block t index b) (changed + 1)
              (IsTail-next index n ns tail)))

  sweep_all-Steps : (t : TaskStateTable) → Steps graph t (sweep graph 0 graph.nodes t 0).1
  sweep_all-Steps t =
      sweep-Steps 0 graph.nodes t 0 (λ k. let e : 0 + k ≡ k = omega arith in rw e refl)

  propagate-Steps :
      (fuel total : ℕ) (t u : TaskStateTable) (r : Result TaskGraphError ℕ)
      → propagate fuel graph total t ≡ some (r, u)
      → Steps graph t u
  unfolding propagate
  propagate-Steps zero total t u r h = cc
  propagate-Steps (suc fuel) total t u r h = elim (propagate_inv fuel graph total t u r h) [
    | stopped e f g ↦ rw g (sweep_all-Steps t)
    | settled f g k ↦ rw k (sweep_all-Steps t)
    | again c f g k ↦ Steps-trans (sweep_all-Steps t) (
        propagate-Steps fuel (saturating_add u64_max total c) (sweep graph 0 graph.nodes t 0).1 u r
          k)
  ]

after-Steps {ℓ} :
    {A : Type ℓ} (graph : TaskGraph) (t : TaskStateTable)
    (r : Result TaskGraphError (A × TaskStateTable))
    → ((a : A) (u : TaskStateTable) → r ≡ ok (a, u) → Steps graph t u)
    → Steps graph t (after t r)
after-Steps graph t (ok (a, u)) h = h a u refl
after-Steps graph t (err e) h = done

after_propagation-Steps :
    (graph : TaskGraph) (t : TaskStateTable) (o : Option (Result TaskGraphError ℕ × TaskStateTable))
    → ((r : Result TaskGraphError ℕ) (u : TaskStateTable) → o ≡ some (r, u) → Steps graph t u)
    → Steps graph t (after_propagation t o)
after_propagation-Steps graph t none h = done
after_propagation-Steps graph t (some (r, u)) h = h r u refl

-- Every call on the table is a sequence of moves of single tasks, each allowed by the state machine
-- of a task at the table where it happens, if the attempt budgets are those of a `NonZeroU16`.
pub perform-Steps :
    (graph : TaskGraph) (c : Call) (t : TaskStateTable)
    → BudgetsAreValid graph
    → Steps graph t (perform graph c t)
unfolding perform propagate_blocked
perform-Steps graph (Call.starts task_id) t valid =
    after-Steps graph t (start graph task_id t) (λ a u h. start-Steps graph task_id t u a valid h)
perform-Steps graph (Call.cancels task_id) t valid =
    after-Steps graph t (cancel graph task_id t) (λ a u h. cancel-Steps graph task_id t u a h)
perform-Steps graph (Call.succeeds attempt) t valid =
    after-Steps graph t (succeed_attempt graph attempt t)
      (λ a u h. succeed_attempt-Steps graph attempt t u a h)
perform-Steps graph (Call.fails attempt) t valid =
    after-Steps graph t (fail_attempt graph attempt t)
      (λ a u h. fail_attempt-Steps graph attempt t u a h)
perform-Steps graph Call.propagates t valid =
    after_propagation-Steps graph t (propagate_blocked graph t)
      (λ r u h. propagate-Steps graph (suc (length t.states)) 0 t u r h)

pub run-Steps :
    (graph : TaskGraph) (t : TaskStateTable) (cs : List Call)
    → BudgetsAreValid graph
    → Steps graph t (run graph t cs)
unfolding run
run-Steps graph t [] valid = done
run-Steps graph t (c ∷ cs) valid =
    Steps-trans (perform-Steps graph c t valid) (run-Steps graph (perform graph c t) cs valid)
