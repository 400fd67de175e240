-- ===== src/TaskGraph/Artifacts.antt =====
-- crates/features/task-graph/src/lib.rs: `validate_artifact_flow` and its parts.
pub mod Provenance
mod Tests
use llm_app.Prelude.{
  ℕ, zero, suc, ◌+◌, ◌-◌, ◌≤◌, ◌<◌, ◌≡◌, refl, sym, ap, subst, ◌∙◌, ◌≢◌, ◌↔◌, ◌⊎◌, inl, inr, Bool,
  true, false, not, ◌&&◌, ◌||◌, ◌==◌, ltb, leb, if◌then◌else◌, Option, none, some, List, [], ◌∷◌,
  ◌++◌, length, get_elem?, set, All, Result, ok, err, ok_or, ensure, ◌>>=◌, ◌>>◌, Bool-cases,
  Option-cases, Result-cases, ==_iff, ltb→lt, lt→ltb, leb→le, arith,
}
use llm_app.Prelude.{any, find, map}
use llm_app.TaskGraph.Types.{
  TaskNode, TaskDependency, TaskGraph, node, TaskGraphError, ArtifactFlow, ArtifactReference,
  TaskArtifactInput, TaskArtifactOutput, artifact_kind_eq, reference_eq, artifact_input_eq,
}

-- Both loops of `validate_artifact_tasks` look their task up in the graph.
pub check_known : TaskGraph → List ℕ → Result TaskGraphError (Unit {0})
check_known graph [] = ok tt
check_known graph (task ∷ rest) =
    let later = check_known graph rest in
    elim (node graph task) [ none ↦ err (TaskGraphError.unknown_task task) | some n ↦ later ]

pub validate_artifact_tasks : TaskGraph → ArtifactFlow → Result TaskGraphError (Unit {0})
validate_artifact_tasks graph flow =
    check_known graph (map (λ i. i.consumer) flow.task_inputs)
    >> check_known graph (map (λ o. o.producer) flow.task_outputs)

pub validate_workflow_inputs : List ArtifactReference → Result TaskGraphError (Unit {0})
validate_workflow_inputs [] = ok tt
validate_workflow_inputs (input ∷ rest) =
    let later = validate_workflow_inputs rest in
    if any (λ other. other.id == input.id) rest
    then err (TaskGraphError.duplicate_workflow_input input.id)
    else later

pub outputs_loop :
    List ArtifactReference → List TaskArtifactOutput → Result TaskGraphError (Unit {0})
outputs_loop workflow_inputs [] = ok tt
outputs_loop workflow_inputs (output ∷ rest) =
    let later = outputs_loop workflow_inputs rest in
    if any (λ input. input.id == output.artifact.id) workflow_inputs
    then err (TaskGraphError.workflow_input_produced_by_task output.artifact.id)
    else if any (λ other. other.artifact.id == output.artifact.id) rest
    then err (TaskGraphError.duplicate_artifact_producer output.artifact.id)
    else later

pub validate_task_outputs : ArtifactFlow → Result TaskGraphError (Unit {0})
unfolding outputs_loop
validate_task_outputs flow = outputs_loop flow.workflow_inputs flow.task_outputs

-- The outputs of one task, as `filter` yields them.
abbrev pub outputs_of : ℕ → List TaskArtifactOutput → List TaskArtifactOutput
outputs_of task [] = []
outputs_of task (output ∷ rest) =
    let others = outputs_of task rest in if output.producer == task then output ∷ others else others

pub check_contract : TaskNode → List TaskArtifactOutput → Result TaskGraphError (Unit {0})
check_contract n [] = err (TaskGraphError.missing_task_output n.id)
check_contract n (output ∷ another ∷ rest) = err (TaskGraphError.duplicate_task_output n.id)
check_contract n (output ∷ []) =
    if artifact_kind_eq output.artifact.kind n.output.kind
    then ok tt
    else err (TaskGraphError.task_output_kind_mismatch n.id n.output.kind output.artifact.kind)

pub contracts_loop : List TaskArtifactOutput → List TaskNode → Result TaskGraphError (Unit {0})
contracts_loop task_outputs [] = ok tt
contracts_loop task_outputs (n ∷ ns) =
    let later = contracts_loop task_outputs ns in
    check_contract n (outputs_of n.id task_outputs) >> later

pub validate_task_output_contracts : TaskGraph → ArtifactFlow → Result TaskGraphError (Unit {0})
unfolding contracts_loop
validate_task_output_contracts graph flow = contracts_loop flow.task_outputs graph.nodes

pub validate_artifact_reference :
    (expected actual : ArtifactReference) → Result TaskGraphError (Unit {0})
validate_artifact_reference expected actual =
    if reference_eq expected actual
    then ok tt
    else err (TaskGraphError.artifact_reference_mismatch expected actual)

-- An input whose artifact a task should produce.
pub check_produced :
    TaskGraph → TaskArtifactInput → Option TaskArtifactOutput → Result TaskGraphError (Unit {0})
unfolding validate_artifact_reference
check_produced graph input none = err (TaskGraphError.unknown_artifact input.artifact.id)
check_produced graph input (some output) = do
  validate_artifact_reference output.artifact input.artifact
  ensure (not (output.producer == input.consumer))
      (TaskGraphError.self_artifact_consumption input.consumer input.artifact.id)
  ensure
      (any (λ d. d.prerequisite == output.producer && d.dependent == input.consumer)
        graph.dependencies)
      (TaskGraphError.missing_artifact_dependency output.producer input.consumer input.artifact.id)

-- The rest of the loop body for one input: its source is a workflow input or a task's output.
pub check_source : TaskGraph → ArtifactFlow → TaskArtifactInput → Result TaskGraphError (Unit {0})
unfolding check_produced validate_artifact_reference
check_source graph flow input =
    elim (find (λ (source : ArtifactReference). source.id == input.artifact.id)
      flow.workflow_inputs) [
        | some source ↦ validate_artifact_reference source input.artifact
        | none ↦ check_produced graph input (
            find (λ (output : TaskArtifactOutput). output.artifact.id == input.artifact.id)
              flow.task_outputs)
      ]

pub inputs_loop :
    TaskGraph → ArtifactFlow → List TaskArtifactInput → Result TaskGraphError (Unit {0})
inputs_loop graph flow [] = ok tt
inputs_loop graph flow (input ∷ rest) =
    let later = inputs_loop graph flow rest in
    if any (λ other. artifact_input_eq other input) rest
    then err (TaskGraphError.duplicate_task_artifact_input input)
    else (check_source graph flow input >> later)

pub validate_task_inputs : TaskGraph → ArtifactFlow → Result TaskGraphError (Unit {0})
unfolding inputs_loop
validate_task_inputs graph flow = inputs_loop graph flow flow.task_inputs

pub validate_artifact_flow : TaskGraph → ArtifactFlow → Result TaskGraphError (Unit {0})
validate_artifact_flow graph flow = do
  validate_artifact_tasks graph flow
  validate_workflow_inputs flow.workflow_inputs
  validate_task_outputs flow
  validate_task_output_contracts graph flow
  validate_task_inputs graph flow
