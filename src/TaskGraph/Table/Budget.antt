-- ===== src/TaskGraph/Table/Budget.antt =====
-- Attempts, terminal states and stale tokens of crates/features/task-graph/src/lib.rs.
use llm_app.Prelude.{
  ℕ, zero, suc, ◌≤◌, ◌<◌, ◌≡◌, ◌∙◌, some, List, [], ◌∷◌, get_elem?, set, get_elem?-set_ne, arith,
  ℕ_discrete,
}
use llm_app.TaskGraph.Types.{TaskNode, TaskGraph, TaskStatus, TaskRuntimeState}
use llm_app.TaskGraph.Table.{TaskStateTable, Call, run}
use llm_app.TaskGraph.Table.Steps.{
  Move, starts, succeeds, fails, exhausts, cancels, blocks, Steps, done, step, BudgetsAreValid,
  run-Steps,
}

-- What the status of a task says about its attempts.
abbrev pub StatusFits : TaskStatus → (attempts budget : ℕ) → Type 0
StatusFits TaskStatus.pending attempts budget = attempts ≡ 0
StatusFits TaskStatus.blocked attempts budget = attempts ≡ 0
StatusFits TaskStatus.running attempts budget = 1 ≤ attempts
StatusFits TaskStatus.succeeded attempts budget = 1 ≤ attempts
StatusFits TaskStatus.failed attempts budget = (1 ≤ attempts) × (attempts < budget)
StatusFits TaskStatus.exhausted attempts budget = attempts ≡ budget
StatusFits TaskStatus.cancelled attempts budget = Unit

abbrev pub EntryIsValid : TaskNode → TaskRuntimeState → Type 0
EntryIsValid n s =
    (s.attempts ≤ n.budget.maximum_attempts)
    × StatusFits s.status s.attempts n.budget.maximum_attempts

-- One entry for each node, each within its budget.
abbrev pub EntriesAreValid : List TaskNode → List TaskRuntimeState → Type 0
EntriesAreValid [] [] = Unit
EntriesAreValid (n ∷ ns) (s ∷ ss) = EntryIsValid n s × EntriesAreValid ns ss
EntriesAreValid _ _ = ⊥

EntriesAreValid-set :
    (ns : List TaskNode) (ss : List TaskRuntimeState) (i : ℕ) (n : TaskNode) (a : TaskRuntimeState)
    → EntriesAreValid ns ss
    → get_elem? ns i ≡ some n
    → EntryIsValid n a
    → EntriesAreValid ns (set ss i a)
EntriesAreValid-set [] [] i n a v e h = v
EntriesAreValid-set [] (s ∷ ss) i n a v e h = absurd v
EntriesAreValid-set (m ∷ ns) [] i n a v e h = absurd v
EntriesAreValid-set (m ∷ ns) (s ∷ ss) zero n a v e h = let same : m ≡ n = cc in (rw same h, v.1)
EntriesAreValid-set (m ∷ ns) (s ∷ ss) (suc i) n a v e h =
    (v.0, EntriesAreValid-set ns ss i n a v.1 e h)

EntriesAreValid-get :
    (ns : List TaskNode) (ss : List TaskRuntimeState) (i : ℕ) (n : TaskNode) (s : TaskRuntimeState)
    → EntriesAreValid ns ss
    → get_elem? ns i ≡ some n
    → get_elem? ss i ≡ some s
    → EntryIsValid n s
EntriesAreValid-get [] [] i n s v e f = cc
EntriesAreValid-get [] (r ∷ ss) i n s v e f = absurd v
EntriesAreValid-get (m ∷ ns) [] i n s v e f = absurd v
EntriesAreValid-get (m ∷ ns) (r ∷ ss) zero n s v e f =
    let same : m ≡ n = cc in let same' : r ≡ s = cc in rw (← same, ← same') v.0
EntriesAreValid-get (m ∷ ns) (r ∷ ss) (suc i) n s v e f = EntriesAreValid-get ns ss i n s v.1 e f

Move-EntryIsValid :
    {graph : TaskGraph} {t : TaskStateTable} {n : TaskNode} {b a : TaskRuntimeState}
    → Move graph t n b a
    → EntryIsValid n b
    → EntryIsValid n a
Move-EntryIsValid (starts was ready left e) v = ground arith
Move-EntryIsValid (succeeds was e) v = ground arith
Move-EntryIsValid (fails was left e) v = ground arith
Move-EntryIsValid (exhausts was spent e) v = ground arith
Move-EntryIsValid (cancels was e) v = ground arith
Move-EntryIsValid (blocks was ready e) v = ground arith

abbrev pub IsBudgeted : TaskGraph → TaskStateTable → Type 0
IsBudgeted graph t = EntriesAreValid graph.nodes t.states

Steps-IsBudgeted :
    {graph : TaskGraph} {t u : TaskStateTable}
    → Steps graph t u
    → IsBudgeted graph t
    → IsBudgeted graph u
Steps-IsBudgeted done v = v
Steps-IsBudgeted {graph} (step {t} index n b a e f m s) v = Steps-IsBudgeted s (
    EntriesAreValid-set graph.nodes t.states index n a v e
      (Move-EntryIsValid m (EntriesAreValid-get graph.nodes t.states index n b v e f)))

-- In a table that has one entry for each node, each with at most the attempts of its budget and as
-- many as its status says, every sequence of calls keeps it so: a pending or blocked task has none,
-- a running or succeeded one has some, a failed one has some and may try again, an exhausted one has
-- spent its budget. Budgets are those of a `NonZeroU16`.
pub run-IsBudgeted :
    (graph : TaskGraph) (t : TaskStateTable) (cs : List Call)
    → BudgetsAreValid graph
    → IsBudgeted graph t
    → IsBudgeted graph (run graph t cs)
run-IsBudgeted graph t cs budgets v = Steps-IsBudgeted (run-Steps graph t cs budgets) v

abbrev pub IsTerminal : TaskStatus → Type 0
IsTerminal TaskStatus.succeeded = Unit
IsTerminal TaskStatus.exhausted = Unit
IsTerminal TaskStatus.cancelled = Unit
IsTerminal TaskStatus.blocked = Unit
IsTerminal _ = ⊥

Move-not-IsTerminal :
    {graph : TaskGraph} {t : TaskStateTable} {n : TaskNode} {b a : TaskRuntimeState}
    → Move graph t n b a
    → ¬ IsTerminal b.status
Move-not-IsTerminal (starts was ready left e) v = ground arith
Move-not-IsTerminal (succeeds was e) v = ground arith
Move-not-IsTerminal (fails was left e) v = ground arith
Move-not-IsTerminal (exhausts was spent e) v = ground arith
Move-not-IsTerminal (cancels was e) v = ground arith
Move-not-IsTerminal (blocks was ready e) v = ground arith

pub Steps-IsTerminal :
    {graph : TaskGraph} {t u : TaskStateTable} (i : ℕ) (s : TaskRuntimeState)
    → Steps graph t u
    → get_elem? t.states i ≡ some s
    → IsTerminal s.status
    → get_elem? u.states i ≡ some s
Steps-IsTerminal i s done e h = e
Steps-IsTerminal i s (step {t} index n b a f g m rest) e h = elim (ℕ_discrete index i) [
  | yes same ↦
      let here : get_elem? t.states index ≡ some s = rw same e in
      let equal : b ≡ s = cc in absurd (Move-not-IsTerminal m (rw equal h))
  | no other ↦ Steps-IsTerminal i s rest (get_elem?-set_ne t.states index i a other ∙ e) h
]

-- A task that has succeeded, is exhausted, cancelled or blocked keeps its state, attempts included,
-- whatever is called afterwards, if the budgets are those of a `NonZeroU16`.
pub run-IsTerminal :
    (graph : TaskGraph) (t : TaskStateTable) (cs : List Call) (i : ℕ) (s : TaskRuntimeState)
    → BudgetsAreValid graph
    → get_elem? t.states i ≡ some s
    → IsTerminal s.status
    → get_elem? (run graph t cs).states i ≡ some s
run-IsTerminal graph t cs i s budgets e h = Steps-IsTerminal i s (run-Steps graph t cs budgets) e h
