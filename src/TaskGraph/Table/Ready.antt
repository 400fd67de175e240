-- ===== src/TaskGraph/Table/Ready.antt =====
-- `ready_tasks` of crates/features/task-graph/src/lib.rs against `start`.
use llm_app.Prelude.{
  ℕ, zero, suc, ◌+◌, ◌≡◌, refl, sym, ap, subst, ◌≢◌, ◌↔◌, ◌⊎◌, inl, inr, true, false, ◌==◌, ltb,
  none, some, List, [], ◌∷◌, ◌++◌, length, get_elem?, set, All, ok, err, Bool-cases, Option-cases,
  Result-cases, ltb→lt, arith,
}
use llm_app.Prelude.{take, take-set, append_assoc, append-nil, saturating_add, u16_max, position}
use llm_app.TaskGraph.Types.{
  TaskNode, TaskGraph, TaskAttempt, TaskStatus, TaskRuntimeState, node_index,
}
use llm_app.TaskGraph.Table.{
  TaskStateTable, is_ready, prerequisites_succeeded, ready_loop, ready_tasks, start,
}
use llm_app.TaskGraph.Table.Moves.{Started, start_inv}
use llm_app.TaskGraph.Table.Steps.{found_node_id}

-- The identities that the loop should list: of the nodes from `index` on, those that are ready.
pub ready_ids : TaskGraph → TaskStateTable → ℕ → List TaskNode → List ℕ
ready_ids graph t index [] = []
ready_ids graph t index (n ∷ ns) = elim (get_elem? t.states index) [
  | none ↦ ready_ids graph t (suc index) ns
  | some s ↦ elim (is_ready graph t.states n s) [
    | err e ↦ ready_ids graph t (suc index) ns
    | ok false ↦ ready_ids graph t (suc index) ns
    | ok true ↦ n.id ∷ ready_ids graph t (suc index) ns
  ]
]

ready_loop-ready_ids :
    (graph : TaskGraph) (t : TaskStateTable) (index : ℕ) (ns : List TaskNode) (output out : List ℕ)
    (written k : ℕ)
    → ready_loop graph t index ns output written ≡ (ok k, out)
    → take k out ≡ take written output ++ ready_ids graph t index ns
unfolding ready_loop ready_ids
ready_loop-ready_ids graph t index [] output out written k h = rw append-nil (ground arith)
ready_loop-ready_ids graph t index (n ∷ ns) output out written k h =
    elim (Option-cases (get_elem? t.states index)) [
      | inl e ↦ absurd (ground arith)
      | inr (s, e) ↦ elim (Result-cases (is_ready graph t.states n s)) [
        | inl (error, f) ↦ absurd (ground arith)
        | inr (answer, f) ↦ elim (Bool-cases answer) [
          | inr g ↦
              let ih =
                ready_loop-ready_ids graph t (suc index) ns output out written k (ground arith) in
              ground (arith, ih)
          | inl g ↦ elim (Bool-cases (ltb written (length output))) [
            | inr full ↦ absurd (ground arith)
            | inl room ↦
                let ih =
                  ready_loop-ready_ids graph t (suc index) ns (set output written n.id) out
                    (written + 1) k (ground arith) in
                let first : take (written + 1) (set output written n.id)
                    ≡ take written output ++ n.id ∷ [] =
                  let sum : written + 1 ≡ suc written = omega arith in
                  rw sum (take-set written output n.id (ltb→lt written (length output) room)) in
                ground (
                  arith,
                  ih,
                  append_assoc (take written output) (n.id ∷ []) (ready_ids graph t (suc index) ns),
                )
          ]
        ]
      ]
    ]

-- No two nodes share an identity.
abbrev pub IdsAreUnique : List TaskNode → Type 0
IdsAreUnique [] = Unit
IdsAreUnique (n ∷ ns) = All (λ m. m.id ≢ n.id) ns × IdsAreUnique ns

All-get :
    (P : TaskNode → Type 0) (ns : List TaskNode) (i : ℕ) (n : TaskNode)
    → All P ns
    → get_elem? ns i ≡ some n
    → P n
All-get P [] i n h e = cc
All-get P (m ∷ ns) zero n h e = let same : m ≡ n = cc in subst P same h.0
All-get P (m ∷ ns) (suc i) n h e = All-get P ns i n h.1 e

position_unique :
    (ns : List TaskNode) (i : ℕ) (n : TaskNode)
    → IdsAreUnique ns
    → get_elem? ns i ≡ some n
    → position (λ (m : TaskNode). m.id == n.id) ns ≡ some i
position_unique [] i n h e = cc
position_unique (m ∷ ns) zero n h e = ground arith
position_unique (m ∷ ns) (suc i) n h e =
    let other : n.id ≢ m.id = All-get (λ (k : TaskNode). k.id ≢ m.id) ns i n h.0 e in
    ground (arith, position_unique ns i n h.1 e)

abbrev pub Has : ℕ → List ℕ → Type 0
Has a [] = ⊥
Has a (x ∷ xs) = (x ≡ a) ⊎ Has a xs

-- What makes a task ready, at its index.
record IsReady (graph : TaskGraph) (t : TaskStateTable) (i : ℕ) (n : TaskNode) : Type 0 where
  s : TaskRuntimeState
  had : get_elem? t.states i ≡ some s
  ready : is_ready graph t.states n s ≡ ok true

ready_ids_cons :
    (graph : TaskGraph) (t : TaskStateTable) (index : ℕ) (n : TaskNode) (ns : List TaskNode)
    → (ready_ids graph t index (n ∷ ns) ≡ ready_ids graph t (suc index) ns)
      ⊎ (IsReady graph t index n
          × (ready_ids graph t index (n ∷ ns) ≡ n.id ∷ ready_ids graph t (suc index) ns))
unfolding ready_ids
ready_ids_cons graph t index n ns = elim (Option-cases (get_elem? t.states index)) [
  | inl e ↦ inl (ground arith)
  | inr (s, e) ↦ elim (Result-cases (is_ready graph t.states n s)) [
    | inl (error, f) ↦ inl (ground arith)
    | inr (answer, f) ↦ elim (Bool-cases answer) [
      | inl g ↦ inr (record { s = s; had = e; ready = rw g at f }, ground arith)
      | inr g ↦ inl (ground arith)
    ]
  ]
]

ready_ids_complete :
    (graph : TaskGraph) (t : TaskStateTable) (index k i : ℕ) (ns : List TaskNode) (n : TaskNode)
    → index + k ≡ i
    → get_elem? ns k ≡ some n
    → IsReady graph t i n
    → Has n.id (ready_ids graph t index ns)
unfolding ready_ids
ready_ids_complete graph t index k i [] n at e r = cc
ready_ids_complete graph t index zero i (m ∷ ns) n at e r =
    let same : i ≡ index = omega arith in
    let f : get_elem? t.states index ≡ some r.s = rw same at r.had in
    let named : m ≡ n = cc in
    let g : is_ready graph t.states m r.s ≡ ok true = rw named r.ready in
    rw (f, ready_ids) (rw (g, ready_ids) (inl (ap (λ (k : TaskNode). k.id) named)))
ready_ids_complete graph t index (suc k) i (m ∷ ns) n at e r =
    let ih = ready_ids_complete graph t (suc index) k i ns n (omega arith) e r in
    elim (ready_ids_cons graph t index m ns) [
      | inl same ↦ rw same ih
      | inr (first, more) ↦ rw more (inr ih)
    ]

ready_ids_sound :
    (graph : TaskGraph) (t : TaskStateTable) (index a : ℕ) (ns : List TaskNode)
    → Has a (ready_ids graph t index ns)
    → (k : ℕ) × (n : TaskNode) × (get_elem? ns k ≡ some n)
      × (n.id ≡ a)
      × IsReady graph t (index + k) n
unfolding ready_ids
ready_ids_sound graph t index a [] h = absurd h
ready_ids_sound graph t index a (m ∷ ns) h = elim (ready_ids_cons graph t index m ns) [
  | inl same ↦ later (ready_ids_sound graph t (suc index) a ns (subst (Has a) same h))
  | inr (first, more) ↦
      elim (Has_cons m.id (ready_ids graph t (suc index) ns) (subst (Has a) more h)) [
        | inl here ↦ (0, m, refl, here, let at : index + 0 ≡ index = omega arith in rw at first)
        | inr there ↦ later (ready_ids_sound graph t (suc index) a ns there)
      ]
]
  where
    Has_cons : (x : ℕ) (xs : List ℕ) → Has a (x ∷ xs) → (x ≡ a) ⊎ Has a xs
    Has_cons x xs h = h

    later :
        (k : ℕ) × (n : TaskNode) × (get_elem? ns k ≡ some n)
          × (n.id ≡ a)
          × IsReady graph t (suc index + k) n
        → (k : ℕ) × (n : TaskNode) × (get_elem? (m ∷ ns) k ≡ some n)
          × (n.id ≡ a)
          × IsReady graph t (index + k) n
    later (k, n, e, named, r) =
        (suc k, n, e, named, let at : index + suc k ≡ suc index + k = omega arith in rw at r)

module _ (graph : TaskGraph) (t : TaskStateTable) (task_id i : ℕ) (n : TaskNode) where
  IsReady-start :
      node_index graph task_id ≡ some i
      → get_elem? graph.nodes i ≡ some n
      → n.id ≡ task_id
      → IsReady graph t i n
      → (r : TaskAttempt × TaskStateTable) × (start graph task_id t ≡ ok r)
  unfolding start is_ready
  IsReady-start found e named r =
      let number : ℕ = saturating_add u16_max r.s.attempts 1 in
      (
        (
          record { task = task_id; number = number },
          record {
            states = set t.states i (record { status = TaskStatus.running; attempts = number });
          },
        ),
        ground (arith, r.had, r.ready),
      )

  start-IsReady :
      {r : TaskAttempt × TaskStateTable}
      → node_index graph task_id ≡ some i
      → get_elem? graph.nodes i ≡ some n
      → n.id ≡ task_id
      → start graph task_id t ≡ ok r
      → IsReady graph t i n
  unfolding is_ready
  start-IsReady {r} found e named h =
      let v : Started graph task_id t r.1 r.0 = start_inv graph task_id t r.1 r.0 h in
      let at : v.index ≡ i = ground (arith, v.found) in
      let same : v.node ≡ n = ground (arith, v.has_node) in
      let f : prerequisites_succeeded graph t.states n.id ≡ ok true = rw named v.ready in
      record { s = v.before; had = rw at at v.had; ready = ground (arith, v.was, v.budget) }

-- A task is listed by a successful `ready_tasks` exactly when `start` would accept it, in a graph
-- whose nodes have different identities.
pub ready_tasks-start :
    (graph : TaskGraph) (t : TaskStateTable) (output out : List ℕ) (k task_id : ℕ)
    → IdsAreUnique graph.nodes
    → ready_tasks graph t output ≡ (ok k, out)
    → Has task_id (take k out)
      ↔ ((r : TaskAttempt × TaskStateTable) × (start graph task_id t ≡ ok r))
unfolding ready_tasks
ready_tasks-start graph t output out k task_id unique h = (accepted, listed)
  where
    listing : take k out ≡ ready_ids graph t 0 graph.nodes
    listing = ready_loop-ready_ids graph t 0 graph.nodes output out 0 k h

    accepted :
        Has task_id (take k out)
        → (r : TaskAttempt × TaskStateTable) × (start graph task_id t ≡ ok r)
    accepted has =
        let (i, n, e, named, r) =
          ready_ids_sound graph t 0 task_id graph.nodes (subst (Has task_id) listing has) in
        let at : 0 + i ≡ i = omega arith in
        let found : node_index graph task_id ≡ some i =
          subst (λ (a : ℕ). node_index graph a ≡ some i) named
            (position_unique graph.nodes i n unique e) in
        IsReady-start graph t task_id i n found e named (rw at at r)

    listed :
        ((r : TaskAttempt × TaskStateTable) × (start graph task_id t ≡ ok r))
        → Has task_id (take k out)
    listed (r, e) =
        let v : Started graph task_id t r.1 r.0 = start_inv graph task_id t r.1 r.0 e in
        let named : v.node.id ≡ task_id =
          found_node_id graph task_id v.index v.node v.found v.has_node in
        subst (Has task_id) (sym listing) (
          subst (λ (a : ℕ). Has a (ready_ids graph t 0 graph.nodes)) named
            (ready_ids_complete graph t 0 v.index v.index graph.nodes v.node (omega arith)
              v.has_node (start-IsReady graph t task_id v.index v.node v.found v.has_node named e)))
