-- ===== src/TaskGraph/Table/Blocking.antt =====
-- `propagate_blocked` of crates/features/task-graph/src/lib.rs: it ends, and where it ends.
use llm_app.Prelude.{
  ℕ, zero, suc, ◌+◌, ◌≤◌, ◌≡◌, refl, ◌⊎◌, false, if◌then◌else◌, some, List, [], ◌∷◌, length,
  get_elem?, set, Result, ok, err, arith, u64_max, ◌∙◌, saturating_add, length-set, get_elem?-some,
  ◌<◌, Bool-cases, inr, ◌==◌, inl, sym,
}
use llm_app.TaskGraph.Types.{
  TaskNode, TaskGraph, TaskStatus, TaskRuntimeState, TaskGraphError, status_eq, status_eq_iff,
}
use llm_app.TaskGraph.Table.{
  TaskStateTable, has_unsuccessful_prerequisite, sweep, propagate_blocked, propagate,
  is_unsuccessful,
}
use llm_app.TaskGraph.Table.Changes.{
  Blocks, Blocks-refl, Blocks-trans, sweep-SweepBlocks, SweepBlocks-ok,
}
use llm_app.TaskGraph.Table.Passes.{block, sweep_cases, propagate_inv, stopped, settled, again}
use llm_app.TaskGraph.Table.Prerequisites.{
  EveryPrerequisite, PrerequisitesAreKnown, has_unsuccessful_prerequisite-false,
  has_unsuccessful_prerequisite_total,
}

-- The tasks that still wait.
pendings : List TaskRuntimeState → ℕ
pendings [] = 0
pendings (s ∷ ss) = (if status_eq s.status TaskStatus.pending then 1 else 0) + pendings ss

pendings-le : (ss : List TaskRuntimeState) → pendings ss ≤ length ss
unfolding pendings
pendings-le [] = omega arith
pendings-le (s ∷ ss) = ground (arith, pendings-le ss)

pendings-block :
    (ss : List TaskRuntimeState) (i : ℕ) (b : TaskRuntimeState)
    → get_elem? ss i ≡ some b
    → b.status ≡ TaskStatus.pending
    → pendings (set ss i (record b { status = TaskStatus.blocked })) + 1 ≡ pendings ss
unfolding pendings
pendings-block [] i b e h = cc
pendings-block (s ∷ ss) zero b e h = ground arith
pendings-block (s ∷ ss) (suc i) b e h = omega (arith, pendings-block ss i b e h)

-- A pass counts the tasks that it blocks.
abbrev Counts : ℕ → TaskStateTable → Result TaskGraphError ℕ × TaskStateTable → Type 0
Counts changed t (ok c, u) = (changed ≤ c) × (pendings u.states + c ≡ pendings t.states + changed)
Counts changed t (err e, u) = Unit

sweep-Counts :
    (graph : TaskGraph) (index : ℕ) (ns : List TaskNode) (t : TaskStateTable) (changed : ℕ)
    → Counts changed t (sweep graph index ns t changed)
unfolding sweep
sweep-Counts graph index [] t changed = (omega arith, refl)
sweep-Counts graph index (n ∷ ns) t changed =
    sweep_cases (Counts changed t) graph index n ns t changed (λ e. tt)
      (λ b f g. sweep-Counts graph (suc index) ns t changed)
      (λ b f g k.
        Counts-block (block t index b) (sweep graph (suc index) ns (block t index b) (changed + 1))
          (sweep-Counts graph (suc index) ns (block t index b) (changed + 1))
          (pendings-block t.states index b f g))
  where
    Counts-block :
        (v : TaskStateTable) (r : Result TaskGraphError ℕ × TaskStateTable)
        → Counts (changed + 1) v r
        → pendings v.states + 1 ≡ pendings t.states
        → Counts changed t r
    Counts-block v (ok c, u) h e = omega arith
    Counts-block v (err error, u) h e = tt

-- Among the nodes from `index` on, a pending task has no unsuccessful prerequisite.
abbrev Quiet : TaskGraph → ℕ → List TaskNode → TaskStateTable → Type 0
Quiet graph index ns t =
    (k : ℕ) (n : TaskNode) (b : TaskRuntimeState)
    → get_elem? ns k ≡ some n
    → get_elem? t.states (index + k) ≡ some b
    → b.status ≡ TaskStatus.pending
    → has_unsuccessful_prerequisite graph t.states n.id ≡ ok false

abbrev QuietEnd :
    TaskGraph
    → ℕ
    → List TaskNode
    → TaskStateTable
    → ℕ
    → Result TaskGraphError ℕ × TaskStateTable
    → Type 0
QuietEnd graph index ns t changed r = r.0 ≡ ok changed → (r.1 ≡ t) × Quiet graph index ns t

sweep-QuietEnd :
    (graph : TaskGraph) (index : ℕ) (ns : List TaskNode) (t : TaskStateTable) (changed : ℕ)
    → QuietEnd graph index ns t changed (sweep graph index ns t changed)
unfolding sweep
sweep-QuietEnd graph index [] t changed = λ h. (refl, λ k n b e f g. cc)
sweep-QuietEnd graph index (n ∷ ns) t changed =
    sweep_cases (QuietEnd graph index (n ∷ ns) t changed) graph index n ns t changed (λ e h. cc)
      (λ b f g h.
        let (same, quiet) = sweep-QuietEnd graph (suc index) ns t changed h in
        (same, quiet_cons b f g quiet))
      (λ b f g k h. absurd (
        grows (block t index b) (sweep graph (suc index) ns (block t index b) (changed + 1))
          (sweep-Counts graph (suc index) ns (block t index b) (changed + 1)) h))
  where
    grows :
        (v : TaskStateTable) (r : Result TaskGraphError ℕ × TaskStateTable)
        → Counts (changed + 1) v r
        → r.0 ≡ ok changed
        → ⊥
    grows v (ok c, u) h e = ground arith
    grows v (err error, u) h e = cc

    quiet_cons :
        (b : TaskRuntimeState)
        → get_elem? t.states index ≡ some b
        → (status_eq b.status TaskStatus.pending ≡ false)
          ⊎ (has_unsuccessful_prerequisite graph t.states n.id ≡ ok false)
        → Quiet graph (suc index) ns t
        → Quiet graph index (n ∷ ns) t
    quiet_cons b f g quiet zero m s e k p =
        let at : index + 0 ≡ index = omega arith in
        let same : s ≡ b = ground (arith, rw at at k) in
        ground (arith, status_eq_iff b.status TaskStatus.pending)
    quiet_cons b f g quiet (suc j) m s e k p =
        let at : suc index + j ≡ index + suc j = omega arith in quiet j m s e (rw at k) p

-- A pass cannot fail on a table that fits a graph whose dependencies lead to nodes.
abbrev Completes : TaskStateTable → Result TaskGraphError ℕ × TaskStateTable → Type 0
Completes t r = (c : ℕ) × (r.0 ≡ ok c) × (length r.1.states ≡ length t.states)

module _ (graph : TaskGraph) (known : PrerequisitesAreKnown graph graph.dependencies) where
  sweep-Completes :
      (index : ℕ) (ns : List TaskNode) (t : TaskStateTable) (changed : ℕ)
      → length graph.nodes ≡ length t.states
      → index + length ns ≡ length t.states
      → Completes t (sweep graph index ns t changed)
  unfolding sweep
  sweep-Completes index [] t changed fits tail = (changed, refl, refl)
  sweep-Completes index (n ∷ ns) t changed fits tail =
      let (b, f) = get_elem?-some t.states index (omega arith) in
      let (answer, e) = has_unsuccessful_prerequisite_total graph t.states n.id fits known in
      let same : length (block t index b).states ≡ length t.states =
        length-set t.states index (record b { status = TaskStatus.blocked }) in
      elim (Bool-cases (status_eq b.status TaskStatus.pending)) [
        | inr other ↦
            rw (f, sweep)
              (rw (other, sweep) (sweep-Completes (suc index) ns t changed fits (omega arith)))
        | inl waits ↦ elim (Bool-cases answer) [
          | inr g ↦
              rw (f, sweep)
                (rw (waits, sweep)
                  (rw (e, sweep)
                    (rw (g, sweep) (sweep-Completes (suc index) ns t changed fits (omega arith)))))
          | inl g ↦
              let (c, k, l) =
                sweep-Completes (suc index) ns (block t index b) (changed + 1) (fits ∙ sym same)
                  (omega arith) in
              rw (f, sweep) (rw (waits, sweep) (rw (e, sweep) (rw (g, sweep) (c, k, l ∙ same))))
        ]
      ]

  propagate_total :
      (fuel total : ℕ) (t : TaskStateTable)
      → length graph.nodes ≡ length t.states
      → pendings t.states < fuel
      → (k : ℕ) × (u : TaskStateTable) × (propagate fuel graph total t ≡ some (ok k, u))
  unfolding propagate
  propagate_total zero total t fits enough = absurd (omega arith)
  propagate_total (suc fuel) total t fits enough =
      let (c, e, same) = sweep-Completes 0 graph.nodes t 0 fits (omega arith) in
      let next : ℕ = saturating_add u64_max total c in
      elim (Bool-cases (c == 0)) [
        | inl none_changed ↦ (
          next,
          (sweep graph 0 graph.nodes t 0).1,
          rw (e, propagate) (rw (none_changed, propagate) refl),
        )
        | inr some_changed ↦
            let (k, u, f) =
              propagate_total fuel next (sweep graph 0 graph.nodes t 0).1 (fits ∙ sym same) (
                fewer (sweep graph 0 graph.nodes t 0) c e some_changed enough
                  (sweep-Counts graph 0 graph.nodes t 0)) in
            (k, u, rw (e, propagate) (rw (some_changed, propagate) f))
      ]
    where
      fewer :
          (r : Result TaskGraphError ℕ × TaskStateTable) (c : ℕ)
          → r.0 ≡ ok c
          → (c == 0) ≡ false
          → pendings t.states < suc fuel
          → Counts 0 t r
          → pendings r.1.states < fuel
      fewer (ok d, u) c e f g h = ground arith
      fewer (err error, u) c e f g h = cc

-- `propagate_blocked` ends, and with a result, on every table that has one entry for each node of a
-- graph in which every dependency's prerequisite is a node: the fuel of the model is enough.
pub propagate_blocked_total :
    (graph : TaskGraph) (t : TaskStateTable)
    → PrerequisitesAreKnown graph graph.dependencies
    → length graph.nodes ≡ length t.states
    → (k : ℕ) × (u : TaskStateTable) × (propagate_blocked graph t ≡ some (ok k, u))
unfolding propagate_blocked
propagate_blocked_total graph t known fits =
    propagate_total graph known (suc (length t.states)) 0 t fits
      (omega (arith, pendings-le t.states))

Counts-ok :
    (t : TaskStateTable) (r : Result TaskGraphError ℕ × TaskStateTable) (c : ℕ)
    → r.0 ≡ ok c
    → Counts 0 t r
    → pendings r.1.states + c ≡ pendings t.states
Counts-ok t (ok d, u) c e h = ground arith
Counts-ok t (err error, u) c e h = cc

propagate_settles :
    (graph : TaskGraph) (fuel total k : ℕ) (t u : TaskStateTable)
    → total + pendings t.states ≤ u64_max
    → propagate fuel graph total t ≡ some (ok k, u)
    → Quiet graph 0 graph.nodes u × ((j : ℕ) × (k ≡ total + j) × Blocks j t.states u.states)
unfolding propagate
propagate_settles graph zero total k t u small h = cc
propagate_settles graph (suc fuel) total k t u small h =
    elim (propagate_inv fuel graph total t u (ok k) h) [
      | stopped e f g ↦ cc
      | settled f g l ↦
          let (same, quiet) = sweep-QuietEnd graph 0 graph.nodes t 0 f in
          let equal : u ≡ t = l ∙ same in
          (rw equal quiet, (0, ground arith, rw equal (Blocks-refl t.states)))
      | again c f g l ↦
          let v : TaskStateTable = (sweep graph 0 graph.nodes t 0).1 in
          let counted : pendings v.states + c ≡ pendings t.states =
            Counts-ok t (sweep graph 0 graph.nodes t 0) c f
              (sweep-Counts graph 0 graph.nodes t 0) in
          let blocked : Blocks c t.states v.states =
            SweepBlocks-ok t (sweep graph 0 graph.nodes t 0) c f
              (sweep-SweepBlocks graph 0 graph.nodes t 0) in
          let added : saturating_add u64_max total c ≡ total + c = ground arith in
          let (quiet, (j, e, rest)) =
            propagate_settles graph fuel (saturating_add u64_max total c) k v u (omega arith) l in
          (quiet, (c + j, omega arith, Blocks-trans c j t.states v.states u.states blocked rest))
    ]

-- When `propagate_blocked` returns a count `k`, exactly `k` entries of the table have changed: each
-- was `Pending` and is now `Blocked`, with its attempts as before. Every other entry is unchanged,
-- the number of entries too, and no task that is still pending has an unsuccessful prerequisite.
-- (A table of at most `u64::MAX` entries.)
pub propagate_blocked_settles :
    (graph : TaskGraph) (t u : TaskStateTable) (k : ℕ)
    → length t.states ≤ u64_max
    → propagate_blocked graph t ≡ some (ok k, u)
    → Blocks k t.states u.states
      × ((i : ℕ) (n : TaskNode) (s : TaskRuntimeState)
          → get_elem? graph.nodes i ≡ some n
          → get_elem? u.states i ≡ some s
          → s.status ≡ TaskStatus.pending
          → EveryPrerequisite graph u.states n.id
              (λ status. is_unsuccessful status ≡ false)
              graph.dependencies)
unfolding propagate_blocked
propagate_blocked_settles graph t u k small h =
    let (quiet, (j, e, blocked)) =
      propagate_settles graph (suc (length t.states)) 0 k t u (omega (arith, pendings-le t.states))
        h in
    let same : j ≡ k = omega arith in
    (
      rw same at blocked,
      λ i n s e f p.
          let at : 0 + i ≡ i = omega arith in
          has_unsuccessful_prerequisite-false graph u.states n.id (quiet i n s e (rw at f) p),
    )
