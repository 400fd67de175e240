-- ===== src/TaskGraph/Table/Passes.antt =====
-- The cases of one round of a pass of `propagate_blocked` (crates/features/task-graph/src/lib.rs).
use llm_app.Prelude.{
  ℕ, suc, ◌+◌, ◌≡◌, ◌⊎◌, inl, inr, true, false, some, List, ◌∷◌, get_elem?, set, Option-cases,
  Bool-cases, Result-cases, Result, ok, err, saturating_add, arith, u64_max, ◌==◌, ◌<◌,
}
use llm_app.TaskGraph.Types.{
  TaskNode, TaskGraph, TaskStatus, TaskRuntimeState, TaskGraphError, status_eq, status_eq_iff,
}
use llm_app.TaskGraph.Table.{TaskStateTable, has_unsuccessful_prerequisite, sweep, propagate}

-- The table after the entry at an index is blocked.
abbrev pub block : TaskStateTable → ℕ → TaskRuntimeState → TaskStateTable
block t index b = record { states = set t.states index (record b { status = TaskStatus.blocked }) }

pub sweep_cases {ℓ} :
    (P : Result TaskGraphError ℕ × TaskStateTable → Type ℓ) (graph : TaskGraph) (index : ℕ)
    (n : TaskNode) (ns : List TaskNode) (t : TaskStateTable) (changed : ℕ)
    → ((e : TaskGraphError) → P (err e, t))
    → ((b : TaskRuntimeState)
        → get_elem? t.states index ≡ some b
        → (status_eq b.status TaskStatus.pending ≡ false)
          ⊎ (has_unsuccessful_prerequisite graph t.states n.id ≡ ok false)
        → P (sweep graph (suc index) ns t changed))
    → ((b : TaskRuntimeState)
        → get_elem? t.states index ≡ some b
        → b.status ≡ TaskStatus.pending
        → has_unsuccessful_prerequisite graph t.states n.id ≡ ok true
        → P (sweep graph (suc index) ns (block t index b) (changed + 1)))
    → P (sweep graph index (n ∷ ns) t changed)
unfolding sweep
sweep_cases P graph index n ns t changed stops skips writes =
    elim (Option-cases (get_elem? t.states index)) [
      | inl e ↦ rw (e, sweep) (stops _)
      | inr (b, e) ↦ elim (Bool-cases (status_eq b.status TaskStatus.pending)) [
        | inr other ↦ rw (e, sweep) (rw (other, sweep) (skips b e (inl other)))
        | inl waits ↦ elim (Result-cases (has_unsuccessful_prerequisite graph t.states n.id)) [
          | inl (error, f) ↦ rw (e, sweep) (rw (waits, sweep) (rw (f, sweep) (stops error)))
          | inr (answer, f) ↦ elim (Bool-cases answer) [
            | inl g ↦
                rw (e, sweep)
                  (rw (waits, sweep)
                    (rw (f, sweep)
                      (rw (g, sweep)
                        (writes b e ((status_eq_iff b.status TaskStatus.pending).0 waits)
                          (rw g at f)))))
            | inr g ↦
                rw (e, sweep)
                  (rw (waits, sweep) (rw (f, sweep) (rw (g, sweep) (skips b e (inr (rw g at f))))))
          ]
        ]
      ]
    ]

-- How a run of the `loop` with fuel goes on after its first pass: an error ends it, a pass without
-- a change ends it, any other is followed by the rest of the loop.
pub data Continues (fuel : ℕ) (graph : TaskGraph) (total : ℕ) (t u : TaskStateTable)
    (r : Result TaskGraphError ℕ) : Type 0 where
  stopped :
      (e : TaskGraphError)
      → r ≡ err e
      → u ≡ (sweep graph 0 graph.nodes t 0).1
      → Continues fuel graph total t u r
  settled :
      (sweep graph 0 graph.nodes t 0).0 ≡ ok 0
      → r ≡ ok (saturating_add u64_max total 0)
      → u ≡ (sweep graph 0 graph.nodes t 0).1
      → Continues fuel graph total t u r
  again :
      (c : ℕ)
      → (sweep graph 0 graph.nodes t 0).0 ≡ ok c
      → 0 < c
      → propagate fuel graph (saturating_add u64_max total c) (sweep graph 0 graph.nodes t 0).1
        ≡ some (r, u)
      → Continues fuel graph total t u r

pub propagate_inv :
    (fuel : ℕ) (graph : TaskGraph) (total : ℕ) (t u : TaskStateTable) (r : Result TaskGraphError ℕ)
    → propagate (suc fuel) graph total t ≡ some (r, u)
    → Continues fuel graph total t u r
unfolding propagate
propagate_inv fuel graph total t u r h = elim (Result-cases (sweep graph 0 graph.nodes t 0).0) [
  | inl (e, f) ↦ stopped e (ground arith) (ground arith)
  | inr (c, f) ↦ elim (Bool-cases (c == 0)) [
    | inl zero_changed ↦ settled (ground arith) (ground arith) (ground arith)
    | inr g ↦ again c f (ground arith) (ground arith)
  ]
]
