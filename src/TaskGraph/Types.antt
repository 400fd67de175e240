-- ===== src/TaskGraph/Types.antt =====
-- crates/features/task-graph/src/lib.rs: the data of a workflow graph, its errors and look-ups.
use llm_app.Prelude.{
  ℕ, ◌≡◌, ◌↔◌, Bool, true, false, ◌&&◌, ◌==◌, Option, List, arith, find, position,
}
use llm_app.Contracts.Capacity.{CapacityExhausted}

pub data TaskKind : Type 0 where
  draft review compile_check validate normalize_diagnostics revise aggregate : TaskKind
  other : ℕ → TaskKind

pub data ArtifactKind : Type 0 where
  text source_code diagnostics tokens : ArtifactKind
  other : ℕ → ArtifactKind

pub data ArtifactRole : Type 0 where
  specification draft raw_diagnostics normalized_diagnostics review revision final_validation :
      ArtifactRole
  other : ℕ → ArtifactRole

pub record TaskOutputContract : Type 0 where
  pub kind : ArtifactKind
  pub maximum_bytes : ℕ

pub data ModelPolicy : Type 0 where
  exact preferred_backend : ℕ → ModelPolicy
  any_compatible deterministic : ModelPolicy

-- `maximum_attempts` is a `NonZeroU16`.
pub record TaskBudget : Type 0 where
  pub maximum_input_tokens : ℕ
  pub maximum_output_tokens : ℕ
  pub maximum_attempts : ℕ

pub record TaskNode : Type 0 where
  pub id : ℕ
  pub kind : TaskKind
  pub model_policy : ModelPolicy
  pub budget : TaskBudget
  pub output : TaskOutputContract

pub record TaskDependency : Type 0 where
  pub prerequisite : ℕ
  pub dependent : ℕ

pub record ArtifactReference : Type 0 where
  pub id : ℕ
  pub kind : ArtifactKind
  pub role : ArtifactRole

pub record TaskArtifactInput : Type 0 where
  pub consumer : ℕ
  pub artifact : ArtifactReference

pub record TaskArtifactOutput : Type 0 where
  pub producer : ℕ
  pub artifact : ArtifactReference

pub record ArtifactFlow : Type 0 where
  pub workflow_inputs : List ArtifactReference
  pub task_inputs : List TaskArtifactInput
  pub task_outputs : List TaskArtifactOutput

pub record TaskGraph : Type 0 where
  pub nodes : List TaskNode
  pub dependencies : List TaskDependency

-- `TaskGraph::node` and `TaskGraph::node_index`.
abbrev pub node : TaskGraph → ℕ → Option TaskNode
node graph task_id = find (λ n. n.id == task_id) graph.nodes

abbrev pub node_index : TaskGraph → ℕ → Option ℕ
node_index graph task_id = position (λ n. n.id == task_id) graph.nodes

-- `number` is a `NonZeroU16`.
pub record TaskAttempt : Type 0 where
  pub task : ℕ
  pub number : ℕ

pub data TaskStatus : Type 0 where
  pending running succeeded failed exhausted cancelled blocked : TaskStatus

pub record TaskRuntimeState : Type 0 where
  pub status : TaskStatus
  pub attempts : ℕ

pub data TaskGraphError : Type 0 where
  duplicate_task unknown_task self_dependency attempt_limit_reached duplicate_workflow_input
        workflow_input_produced_by_task duplicate_artifact_producer missing_task_output
        duplicate_task_output unknown_artifact :
      ℕ → TaskGraphError
  duplicate_dependency : TaskDependency → TaskGraphError
  cycle_detected : TaskGraphError
  capacity_exhausted : CapacityExhausted → TaskGraphError
  state_length_mismatch : (required available : ℕ) → TaskGraphError
  invalid_transition : (task : ℕ) (state : TaskStatus) → TaskGraphError
  task_output_kind_mismatch : (task : ℕ) (expected actual : ArtifactKind) → TaskGraphError
  artifact_reference_mismatch : (expected actual : ArtifactReference) → TaskGraphError
  duplicate_task_artifact_input : TaskArtifactInput → TaskGraphError
  self_artifact_consumption : (task artifact : ℕ) → TaskGraphError
  missing_artifact_dependency : (producer consumer artifact : ℕ) → TaskGraphError
  invalid_attempt :
      (attempt : TaskAttempt) (active : Option TaskAttempt) (state : TaskStatus) → TaskGraphError

-- The derived `PartialEq` of the types that the crate compares.
abbrev pub dependency_eq : TaskDependency → TaskDependency → Bool
dependency_eq a b = a.prerequisite == b.prerequisite && a.dependent == b.dependent

abbrev pub attempt_eq : TaskAttempt → TaskAttempt → Bool
attempt_eq a b = a.task == b.task && a.number == b.number

abbrev pub status_eq : TaskStatus → TaskStatus → Bool
status_eq TaskStatus.pending TaskStatus.pending = true
status_eq TaskStatus.running TaskStatus.running = true
status_eq TaskStatus.succeeded TaskStatus.succeeded = true
status_eq TaskStatus.failed TaskStatus.failed = true
status_eq TaskStatus.exhausted TaskStatus.exhausted = true
status_eq TaskStatus.cancelled TaskStatus.cancelled = true
status_eq TaskStatus.blocked TaskStatus.blocked = true
status_eq _ _ = false

abbrev pub artifact_kind_eq : ArtifactKind → ArtifactKind → Bool
artifact_kind_eq ArtifactKind.text ArtifactKind.text = true
artifact_kind_eq ArtifactKind.source_code ArtifactKind.source_code = true
artifact_kind_eq ArtifactKind.diagnostics ArtifactKind.diagnostics = true
artifact_kind_eq ArtifactKind.tokens ArtifactKind.tokens = true
artifact_kind_eq (ArtifactKind.other a) (ArtifactKind.other b) = a == b
artifact_kind_eq _ _ = false

abbrev pub artifact_role_eq : ArtifactRole → ArtifactRole → Bool
artifact_role_eq ArtifactRole.specification ArtifactRole.specification = true
artifact_role_eq ArtifactRole.draft ArtifactRole.draft = true
artifact_role_eq ArtifactRole.raw_diagnostics ArtifactRole.raw_diagnostics = true
artifact_role_eq ArtifactRole.normalized_diagnostics ArtifactRole.normalized_diagnostics = true
artifact_role_eq ArtifactRole.review ArtifactRole.review = true
artifact_role_eq ArtifactRole.revision ArtifactRole.revision = true
artifact_role_eq ArtifactRole.final_validation ArtifactRole.final_validation = true
artifact_role_eq (ArtifactRole.other a) (ArtifactRole.other b) = a == b
artifact_role_eq _ _ = false

abbrev pub reference_eq : ArtifactReference → ArtifactReference → Bool
reference_eq a b =
    a.id == b.id && (artifact_kind_eq a.kind b.kind && artifact_role_eq a.role b.role)

abbrev pub artifact_input_eq : TaskArtifactInput → TaskArtifactInput → Bool
artifact_input_eq a b = a.consumer == b.consumer && reference_eq a.artifact b.artifact

pub dependency_eq_iff : (a b : TaskDependency) → (dependency_eq a b ≡ true) ↔ (a ≡ b)
dependency_eq_iff a b = ground arith

pub attempt_eq_iff : (a b : TaskAttempt) → (attempt_eq a b ≡ true) ↔ (a ≡ b)
attempt_eq_iff a b = ground arith

pub status_eq_iff : (a b : TaskStatus) → (status_eq a b ≡ true) ↔ (a ≡ b)
status_eq_iff a b = ground arith

pub artifact_kind_eq_iff : (a b : ArtifactKind) → (artifact_kind_eq a b ≡ true) ↔ (a ≡ b)
artifact_kind_eq_iff a b = ground arith

artifact_role_eq_iff : (a b : ArtifactRole) → (artifact_role_eq a b ≡ true) ↔ (a ≡ b)
artifact_role_eq_iff a b = ground arith

pub reference_eq_iff : (a b : ArtifactReference) → (reference_eq a b ≡ true) ↔ (a ≡ b)
reference_eq_iff a b =
    ground (arith, artifact_kind_eq_iff a.kind b.kind, artifact_role_eq_iff a.role b.role)
