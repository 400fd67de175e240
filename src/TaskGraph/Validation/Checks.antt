-- ===== src/TaskGraph/Validation/Checks.antt =====
-- What a graph satisfies that `validate_graph` (crates/features/task-graph/src/lib.rs) accepts, in the
-- terms on which the state table relies.
use llm_app.Prelude.{
  ℕ, zero, suc, ◌≤◌, ◌≡◌, refl, ◌≢◌, ◌↔◌, inl, inr, Bool, true, false, ◌==◌, some, List, [], ◌∷◌,
  length, All, ok, Bool-cases, arith,
}
use llm_app.Prelude.{any, position, find, ==-ne}
use llm_app.TaskGraph.Types.{
  TaskNode, TaskDependency, TaskGraph, node_index, dependency_eq, dependency_eq_iff,
  TaskRuntimeState,
}
use llm_app.TaskGraph.Table.Ready.{IdsAreUnique}
use llm_app.TaskGraph.Table.Prerequisites.{PrerequisitesAreKnown}
use llm_app.TaskGraph.Validation.{
  GraphValidationScratch, validate_scratch, validate_nodes, is_none, dependencies_loop,
  validate_dependencies, prepare, validate_graph,
}
use llm_app.TaskGraph.Table.{TaskStateTable, new, propagate_blocked}
use llm_app.TaskGraph.Table.Blocking.{propagate_blocked_total}

any-All :
    (id : ℕ) (ns : List TaskNode)
    → any (λ (right : TaskNode). right.id == id) ns ≡ false
    → All (λ (m : TaskNode). m.id ≢ id) ns
any-All id [] h = tt
any-All id (n ∷ ns) h = (ground arith, any-All id ns (ground arith))

All-any :
    (id : ℕ) (ns : List TaskNode)
    → All (λ (m : TaskNode). m.id ≢ id) ns
    → any (λ (right : TaskNode). right.id == id) ns ≡ false
All-any id [] h = refl
All-any id (n ∷ ns) h = ground (arith, h.0, All-any id ns h.1)

-- `validate_nodes` accepts exactly the lists of nodes in which no two share an identity.
pub validate_nodes_iff : (ns : List TaskNode) → (validate_nodes ns ≡ ok tt) ↔ IdsAreUnique ns
unfolding validate_nodes
validate_nodes_iff [] = (λ h. tt, λ h. refl)
validate_nodes_iff (n ∷ ns) = elim (Bool-cases (any (λ (right : TaskNode). right.id == n.id) ns)) [
  | inl twice ↦ (λ h. absurd (ground arith), λ h. absurd (false_true twice (All-any n.id ns h.0)))
  | inr once ↦ (
    λ h. (any-All n.id ns once, (validate_nodes_iff ns).0 (ground arith)),
    λ h. ground (arith, (validate_nodes_iff ns).1 h.1),
  )
]
  where
    false_true : {b : Bool} → b ≡ true → b ≡ false → ⊥
    false_true e f = cc

-- What the pairwise checks ask of each dependency: two different known tasks, and no repetition.
abbrev pub DependencyIsValid : TaskGraph → TaskDependency → Type 0
DependencyIsValid graph d =
    ((i : ℕ) × (node_index graph d.prerequisite ≡ some i))
    × ((i : ℕ) × (node_index graph d.dependent ≡ some i))
    × (d.prerequisite ≢ d.dependent)

abbrev pub DependenciesAreValid : TaskGraph → List TaskDependency → Type 0
DependenciesAreValid graph [] = Unit
DependenciesAreValid graph (d ∷ ds) =
    DependencyIsValid graph d × All (λ e. e ≢ d) ds × DependenciesAreValid graph ds

find-position :
    (id : ℕ) (ns : List TaskNode)
    → is_none (find (λ (n : TaskNode). n.id == id) ns) ≡ false
    → (i : ℕ) × (position (λ (n : TaskNode). n.id == id) ns ≡ some i)
find-position id [] h = cc
find-position id (n ∷ ns) h = elim (Bool-cases (n.id == id)) [
  | inl here ↦ (0, ground arith)
  | inr there ↦ let (i, e) = find-position id ns (ground arith) in (suc i, ground arith)
]

position-find :
    (id i : ℕ) (ns : List TaskNode)
    → position (λ (n : TaskNode). n.id == id) ns ≡ some i
    → is_none (find (λ (n : TaskNode). n.id == id) ns) ≡ false
position-find id i [] h = cc
position-find id zero (n ∷ ns) h = ground arith
position-find id (suc i) (n ∷ ns) h = elim (Bool-cases (n.id == id)) [
  | inl here ↦ ground arith
  | inr there ↦ ground (arith, position-find id i ns)
]

any_dependency-All :
    (d : TaskDependency) (ds : List TaskDependency)
    → any (λ right. dependency_eq right d) ds ≡ false
    → All (λ (e : TaskDependency). e ≢ d) ds
any_dependency-All d [] h = tt
any_dependency-All d (e ∷ ds) h =
    (ground (arith, dependency_eq_iff e d), any_dependency-All d ds (ground arith))

All-any_dependency :
    (d : TaskDependency) (ds : List TaskDependency)
    → All (λ (e : TaskDependency). e ≢ d) ds
    → any (λ right. dependency_eq right d) ds ≡ false
All-any_dependency d [] h = refl
All-any_dependency d (e ∷ ds) h =
    ground (arith, h.0, dependency_eq_iff e d, All-any_dependency d ds h.1)

dependencies_loop_valid :
    (graph : TaskGraph) (ds : List TaskDependency)
    → dependencies_loop graph ds ≡ ok tt
    → DependenciesAreValid graph ds
unfolding dependencies_loop
dependencies_loop_valid graph [] h = tt
dependencies_loop_valid graph (d ∷ ds) h = (
  (
    find-position d.prerequisite graph.nodes (ground arith),
    find-position d.dependent graph.nodes (ground arith),
    ground arith,
  ),
  any_dependency-All d ds (ground arith),
  dependencies_loop_valid graph ds (ground arith),
)

dependencies_loop_ok :
    (graph : TaskGraph) (ds : List TaskDependency)
    → DependenciesAreValid graph ds
    → dependencies_loop graph ds ≡ ok tt
unfolding dependencies_loop
dependencies_loop_ok graph [] h = refl
dependencies_loop_ok graph (d ∷ ds) (((i, e), (j, f), other), once, rest) =
    rw (position-find d.prerequisite i graph.nodes e, dependencies_loop)
      (rw (position-find d.dependent j graph.nodes f, dependencies_loop)
        (rw (==-ne d.prerequisite d.dependent other, dependencies_loop)
          (rw (All-any_dependency d ds once, dependencies_loop)
            (dependencies_loop_ok graph ds rest))))

-- `validate_dependencies` accepts exactly when every dependency joins two different tasks of the
-- graph and no dependency is repeated.
pub validate_dependencies_iff :
    (graph : TaskGraph)
    → (validate_dependencies graph ≡ ok tt) ↔ DependenciesAreValid graph graph.dependencies
unfolding validate_dependencies
validate_dependencies_iff graph = (
  dependencies_loop_valid graph graph.dependencies,
  dependencies_loop_ok graph graph.dependencies,
)

-- A graph that `validate_graph` accepts has nodes of different identities and valid dependencies, and
-- both slices of the scratch have room for every node.
pub validate_graph-IsValid :
    (graph : TaskGraph) (scratch : GraphValidationScratch)
    → validate_graph graph scratch ≡ some (ok tt)
    → IdsAreUnique graph.nodes
      × DependenciesAreValid graph graph.dependencies
      × (length graph.nodes ≤ length scratch.incoming_counts)
      × (length graph.nodes ≤ length scratch.queue)
unfolding validate_graph prepare validate_scratch
validate_graph-IsValid graph scratch h = (
  (validate_nodes_iff graph.nodes).0 (ground arith),
  (validate_dependencies_iff graph).0 (ground arith),
  ground arith,
  ground arith,
)

prerequisites_known :
    (graph : TaskGraph) (ds : List TaskDependency)
    → DependenciesAreValid graph ds
    → PrerequisitesAreKnown graph ds
prerequisites_known graph [] h = tt
prerequisites_known graph (d ∷ ds) h = (h.0.0, prerequisites_known graph ds h.2)

-- For a graph that `validate_graph` accepts and a table that `TaskStateTable::new` accepts for it,
-- `propagate_blocked` ends with a count: no error and no endless loop.
pub propagate_blocked-validate_graph :
    (graph : TaskGraph) (scratch : GraphValidationScratch) (states : List TaskRuntimeState)
    (t : TaskStateTable)
    → validate_graph graph scratch ≡ some (ok tt)
    → new graph states ≡ ok t
    → (k : ℕ) × (u : TaskStateTable) × (propagate_blocked graph t ≡ some (ok k, u))
unfolding new
propagate_blocked-validate_graph graph scratch states t h e =
    let v = validate_graph-IsValid graph scratch h in
    propagate_blocked_total graph t (prerequisites_known graph graph.dependencies v.1)
      (ground arith)
