-- ===== src/TaskGraph/Artifacts/Tests.antt =====
-- A flow for `validate_artifact_flow` of crates/features/task-graph/src/lib.rs, and its theorem there.
use llm_app.Prelude.{ℕ, ◌≡◌, refl, [], ◌∷◌, All, ok, err}
use llm_app.TaskGraph.Types.{
  TaskNode, TaskKind, ModelPolicy, ArtifactKind, ArtifactRole, TaskGraph, ArtifactFlow,
  ArtifactReference, TaskGraphError,
}
use llm_app.TaskGraph.Artifacts.{
  validate_artifact_flow, validate_artifact_tasks, check_known, validate_workflow_inputs,
  validate_task_outputs, validate_task_output_contracts, check_contract, check_source,
  validate_task_inputs,
}
use llm_app.TaskGraph.Artifacts.Provenance.{
  HasSource, HasOneOutput, validate_artifact_flow-HasSource,
}

abbrev task : ℕ → ArtifactKind → TaskNode
task id kind = record {
  id = id;
  kind = TaskKind.draft;
  model_policy = ModelPolicy.any_compatible;
  budget = record { maximum_input_tokens = 8; maximum_output_tokens = 8; maximum_attempts = 1 };
  output = record { kind = kind; maximum_bytes = 0 };
}

abbrev specification : ArtifactReference
specification = record { id = 100; kind = ArtifactKind.text; role = ArtifactRole.specification }

abbrev draft : ArtifactReference
draft = record { id = 101; kind = ArtifactKind.source_code; role = ArtifactRole.draft }

abbrev review : ArtifactReference
review = record { id = 102; kind = ArtifactKind.diagnostics; role = ArtifactRole.review }

abbrev graph : TaskGraph
graph = record {
  nodes = task 1 ArtifactKind.source_code ∷ task 2 ArtifactKind.diagnostics ∷ [];
  dependencies = record { prerequisite = 1; dependent = 2 } ∷ [];
}

abbrev flow : ArtifactFlow
flow = record {
  workflow_inputs = specification ∷ [];
  task_inputs =
      record { consumer = 1; artifact = specification }
      ∷ record { consumer = 2; artifact = draft }
      ∷ [];
  task_outputs =
      record { producer = 1; artifact = draft } ∷ record { producer = 2; artifact = review } ∷ [];
}

flow_valid : validate_artifact_flow graph flow ≡ ok tt
unfolding validate_artifact_flow validate_artifact_tasks check_known validate_workflow_inputs
    validate_task_outputs validate_task_output_contracts check_contract validate_task_inputs
    check_source
flow_valid = refl

-- Without the dependency the draft may not reach the review.
flow_undeclared :
    validate_artifact_flow (record graph { dependencies = [] }) flow
    ≡ err (TaskGraphError.missing_artifact_dependency 1 2 101)
unfolding validate_artifact_flow validate_artifact_tasks check_known validate_workflow_inputs
    validate_task_outputs validate_task_output_contracts check_contract validate_task_inputs
    check_source
flow_undeclared = refl

validate_artifact_flow-HasSource_example :
    All (HasSource graph flow) flow.task_inputs × All (HasOneOutput flow.task_outputs) graph.nodes
validate_artifact_flow-HasSource_example = validate_artifact_flow-HasSource graph flow flow_valid
