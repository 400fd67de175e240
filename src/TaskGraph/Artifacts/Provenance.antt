-- ===== src/TaskGraph/Artifacts/Provenance.antt =====
-- The provenance of artifacts that `validate_artifact_flow` of crates/features/task-graph/src/lib.rs
-- guarantees.
use llm_app.Prelude.{
  ◌≡◌, refl, sym, subst, ◌≢◌, ◌⊎◌, inl, inr, Bool, true, ◌&&◌, ◌==◌, some, List, [], ◌∷◌, All, ok,
  Bool-cases, Option-cases, arith,
}
use llm_app.Prelude.{any, find}
use llm_app.TaskGraph.Types.{
  TaskNode, TaskDependency, TaskGraph, ArtifactFlow, ArtifactReference, TaskArtifactInput,
  TaskArtifactOutput, artifact_kind_eq_iff, reference_eq_iff,
}
use llm_app.TaskGraph.Artifacts.{
  outputs_of, check_contract, contracts_loop, validate_task_output_contracts, check_source,
  inputs_loop, validate_task_inputs, validate_artifact_flow,
}

-- `a` stands on the list.
abbrev pub Holds {ℓ} : {A : Type ℓ} → (A → Type 0) → List A → Type 0
Holds P [] = ⊥
Holds P (x ∷ xs) = P x ⊎ Holds P xs

find-Holds {ℓ} :
    {A : Type ℓ} (test : A → Bool) (P : A → Type 0) (xs : List A) (a : A)
    → find test xs ≡ some a
    → (test a ≡ true → P a)
    → Holds P xs
find-Holds test P [] a e h = cc
find-Holds test P (x ∷ xs) a e h = elim (Bool-cases (test x)) [
  | inl here ↦ let same : x ≡ a = ground arith in inl (subst P (sym same) (h (rw same at here)))
  | inr there ↦ inr (find-Holds test P xs a (ground arith) h)
]

any-Holds {ℓ} :
    {A : Type ℓ} (test : A → Bool) (P : A → Type 0) (xs : List A)
    → any test xs ≡ true
    → ((a : A) → test a ≡ true → P a)
    → Holds P xs
any-Holds test P [] e h = cc
any-Holds test P (x ∷ xs) e h = elim (Bool-cases (test x)) [
  | inl here ↦ inl (h x here)
  | inr there ↦ inr (any-Holds test P xs (ground arith) h)
]

-- Where the artifact of an input comes from: a workflow input with the same reference, or another
-- task that declares it as an output and that the consumer depends on directly.
abbrev pub HasSource : TaskGraph → ArtifactFlow → TaskArtifactInput → Type 0
HasSource graph flow input =
    Holds (λ source. source ≡ input.artifact) flow.workflow_inputs
    ⊎ Holds
        (λ output.
          (output.artifact ≡ input.artifact)
          × (output.producer ≢ input.consumer)
          × Holds (λ d. (d.prerequisite ≡ output.producer) × (d.dependent ≡ input.consumer))
              graph.dependencies)
        flow.task_outputs

check_source-HasSource :
    (graph : TaskGraph) (flow : ArtifactFlow) (input : TaskArtifactInput)
    → check_source graph flow input ≡ ok tt
    → HasSource graph flow input
unfolding check_source
check_source-HasSource graph flow input h =
    elim (Option-cases (
      find (λ (source : ArtifactReference). source.id == input.artifact.id) flow.workflow_inputs)) [
        | inr (source, e) ↦ inl (
            find-Holds (λ (source : ArtifactReference). source.id == input.artifact.id)
              (λ (source : ArtifactReference). source ≡ input.artifact) flow.workflow_inputs source
              e (λ t. ground (arith, reference_eq_iff source input.artifact)))
        | inl e ↦
            elim (Option-cases (
              find (λ (output : TaskArtifactOutput). output.artifact.id == input.artifact.id)
                flow.task_outputs)) [
                  | inl f ↦ absurd (ground arith)
                  | inr (output, f) ↦ inr (
                      find-Holds
                        (λ (output : TaskArtifactOutput). output.artifact.id == input.artifact.id) _
                        flow.task_outputs output f
                        (λ t. (
                          ground (arith, reference_eq_iff output.artifact input.artifact),
                          ground arith,
                          any-Holds
                              (λ (d : TaskDependency).
                                d.prerequisite == output.producer && d.dependent == input.consumer)
                              _ graph.dependencies (ground arith)
                              (λ d p. (ground arith, ground arith)),
                        )))
                ]
      ]

inputs_loop-HasSource :
    (graph : TaskGraph) (flow : ArtifactFlow) (inputs : List TaskArtifactInput)
    → inputs_loop graph flow inputs ≡ ok tt
    → All (HasSource graph flow) inputs
unfolding inputs_loop
inputs_loop-HasSource graph flow [] h = tt
inputs_loop-HasSource graph flow (input ∷ rest) h = (
  check_source-HasSource graph flow input (ground arith),
  inputs_loop-HasSource graph flow rest (ground arith),
)

-- The task declares one output, of the kind that its contract asks for.
abbrev pub HasOneOutput : List TaskArtifactOutput → TaskNode → Type 0
HasOneOutput outputs n =
    (output : TaskArtifactOutput) × (outputs_of n.id outputs ≡ output ∷ [])
    × (output.artifact.kind ≡ n.output.kind)

check_contract-one :
    (n : TaskNode) (outputs : List TaskArtifactOutput)
    → check_contract n outputs ≡ ok tt
    → (output : TaskArtifactOutput) × (outputs ≡ output ∷ [])
      × (output.artifact.kind ≡ n.output.kind)
unfolding check_contract
check_contract-one n [] h = cc
check_contract-one n (output ∷ another ∷ rest) h = cc
check_contract-one n (output ∷ []) h =
    (output, refl, ground (arith, artifact_kind_eq_iff output.artifact.kind n.output.kind))

contracts_loop-HasOneOutput :
    (outputs : List TaskArtifactOutput) (ns : List TaskNode)
    → contracts_loop outputs ns ≡ ok tt
    → All (HasOneOutput outputs) ns
unfolding contracts_loop
contracts_loop-HasOneOutput outputs [] h = tt
contracts_loop-HasOneOutput outputs (n ∷ ns) h = (
  check_contract-one n (outputs_of n.id outputs) (ground arith),
  contracts_loop-HasOneOutput outputs ns (ground arith),
)

-- In a flow that `validate_artifact_flow` accepts, every declared input of a task has a source: a
-- workflow input with the same reference, or a different task that declares exactly this reference
-- as an output and is a direct dependency of the consumer; and every task of the graph has exactly
-- one output, of the kind of its contract.
pub validate_artifact_flow-HasSource :
    (graph : TaskGraph) (flow : ArtifactFlow)
    → validate_artifact_flow graph flow ≡ ok tt
    → All (HasSource graph flow) flow.task_inputs × All (HasOneOutput flow.task_outputs) graph.nodes
unfolding validate_artifact_flow validate_task_inputs validate_task_output_contracts
validate_artifact_flow-HasSource graph flow h = (
  inputs_loop-HasSource graph flow flow.task_inputs (ground arith),
  contracts_loop-HasOneOutput flow.task_outputs graph.nodes (ground arith),
)
