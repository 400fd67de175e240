-- ===== src/TaskGraph/Validation/Tests.antt =====
-- Runs of `validate_graph` of crates/features/task-graph/src/lib.rs, and its theorems at them.
use llm_app.Prelude.{ℕ, ◌≤◌, ◌≡◌, refl, ◌≢◌, ◌↔◌, none, some, List, [], ◌∷◌, ok, err}
use llm_app.TaskGraph.Types.{
  TaskNode, TaskKind, ModelPolicy, ArtifactKind, TaskDependency, TaskGraph, TaskGraphError,
  TaskStatus, TaskRuntimeState,
}
use llm_app.TaskGraph.Table.{TaskStateTable, propagate_blocked, new}
use llm_app.TaskGraph.Table.Ready.{IdsAreUnique}
use llm_app.TaskGraph.Validation.{
  GraphValidationScratch, validate_nodes, validate_dependencies, validate_graph, prepare, traverse,
  count_incoming, seed_queue, enqueue, write_queue, release_dependents, validate_scratch,
}
use llm_app.TaskGraph.Validation.Checks.{
  validate_nodes_iff, validate_dependencies_iff, DependenciesAreValid, validate_graph-IsValid,
  propagate_blocked-validate_graph,
}
use llm_app.TaskGraph.Validation.Termination.{validate_graph_total}

abbrev task : ℕ → TaskNode
task id = record {
  id = id;
  kind = TaskKind.review;
  model_policy = ModelPolicy.deterministic;
  budget = record { maximum_input_tokens = 8; maximum_output_tokens = 8; maximum_attempts = 1 };
  output = record { kind = ArtifactKind.diagnostics; maximum_bytes = 0 };
}

abbrev edge : ℕ → ℕ → TaskDependency
edge prerequisite dependent = record { prerequisite = prerequisite; dependent = dependent }

abbrev diamond : TaskGraph
diamond = record {
  nodes = task 4 ∷ task 3 ∷ task 2 ∷ task 1 ∷ [];
  dependencies = edge 1 2 ∷ edge 1 3 ∷ edge 2 4 ∷ edge 3 4 ∷ [];
}

abbrev ring : TaskGraph
ring = record {
  nodes = task 1 ∷ task 2 ∷ task 3 ∷ [];
  dependencies = edge 1 2 ∷ edge 2 3 ∷ edge 3 2 ∷ [];
}

abbrev scratch : GraphValidationScratch
scratch = record { incoming_counts = 9 ∷ 9 ∷ 9 ∷ 9 ∷ 9 ∷ []; queue = 7 ∷ 7 ∷ 7 ∷ 7 ∷ [] }

diamond_valid : validate_graph diamond scratch ≡ some (ok tt)
unfolding validate_graph prepare validate_scratch validate_nodes validate_dependencies
    count_incoming seed_queue enqueue write_queue traverse release_dependents
diamond_valid = refl

ring_cyclic : validate_graph ring scratch ≡ some (err TaskGraphError.cycle_detected)
unfolding validate_graph prepare validate_scratch validate_nodes validate_dependencies
    count_incoming seed_queue enqueue write_queue traverse release_dependents
ring_cyclic = refl

validate_nodes_iff_example : (validate_nodes diamond.nodes ≡ ok tt) ↔ IdsAreUnique diamond.nodes
validate_nodes_iff_example = validate_nodes_iff diamond.nodes

validate_dependencies_iff_example :
    (validate_dependencies ring ≡ ok tt) ↔ DependenciesAreValid ring ring.dependencies
validate_dependencies_iff_example = validate_dependencies_iff ring

validate_graph-IsValid_example :
    IdsAreUnique diamond.nodes
    × DependenciesAreValid diamond diamond.dependencies
    × (4 ≤ 5)
    × (4 ≤ 4)
validate_graph-IsValid_example = validate_graph-IsValid diamond scratch diamond_valid

validate_graph_total_example : validate_graph ring scratch ≢ none
validate_graph_total_example = validate_graph_total ring scratch

abbrev waiting : TaskRuntimeState
waiting = record { status = TaskStatus.pending; attempts = 0 }

abbrev cancelled_first : List TaskRuntimeState
cancelled_first =
    waiting ∷ waiting ∷ waiting ∷ record { status = TaskStatus.cancelled; attempts = 0 } ∷ []

propagate_blocked-validate_graph_example :
    (k : ℕ) × (u : TaskStateTable) × (propagate_blocked diamond
        (record { states = cancelled_first })
      ≡ some (ok k, u))
unfolding new
propagate_blocked-validate_graph_example =
    propagate_blocked-validate_graph diamond scratch cancelled_first
      (record { states = cancelled_first }) diamond_valid refl
