-- ===== src/TaskGraph/Table/Prerequisites.antt =====
-- The two loops over a task's prerequisites in crates/features/task-graph/src/lib.rs, described by
-- the dependencies that they read, and their behaviour when the table changes.
use llm_app.Prelude.{
  ℕ, ◌<◌, ◌≡◌, refl, ◌↔◌, ◌⊎◌, inl, inr, Bool, true, false, ◌==◌, some, List, [], ◌∷◌, length, All,
  ok, Bool-cases, Result-cases, ==_iff, arith,
}
use llm_app.Prelude.{position_lt, get_elem?-some}
use llm_app.TaskGraph.Types.{
  TaskNode, node_index, TaskDependency, TaskGraph, TaskStatus, TaskRuntimeState,
}
use llm_app.TaskGraph.Table.{
  state, prerequisite_state, prerequisites_loop, prerequisites_succeeded, unsuccessful_loop,
  has_unsuccessful_prerequisite, is_unsuccessful,
}

-- Every dependency of the task on the list leads to a state that has the property.
abbrev pub EveryPrerequisite :
    TaskGraph → List TaskRuntimeState → ℕ → (TaskStatus → Type 0) → List TaskDependency → Type 0
EveryPrerequisite graph states task_id P ds =
    All
      (λ d.
        d.dependent ≡ task_id
        → (s : TaskRuntimeState) × (state graph d.prerequisite (record { states = states })
            ≡ some s)
          × P s.status)
      ds

prerequisite_state-some :
    (graph : TaskGraph) (states : List TaskRuntimeState) (d : TaskDependency) (s : TaskRuntimeState)
    → prerequisite_state graph states d ≡ ok s
    → state graph d.prerequisite (record { states = states }) ≡ some s
unfolding prerequisite_state state
prerequisite_state-some graph states d s h = ground arith

prerequisite_state-ok :
    (graph : TaskGraph) (states : List TaskRuntimeState) (d : TaskDependency) (s : TaskRuntimeState)
    → state graph d.prerequisite (record { states = states }) ≡ some s
    → prerequisite_state graph states d ≡ ok s
unfolding prerequisite_state state
prerequisite_state-ok graph states d s h = ground arith

abbrev IsSucceeded : TaskStatus → Type 0
IsSucceeded status = status ≡ TaskStatus.succeeded

module _ (graph : TaskGraph) (states : List TaskRuntimeState) (task_id : ℕ) where
  prerequisites_loop_all :
      (ds : List TaskDependency)
      → prerequisites_loop graph states task_id ds ≡ ok true
      → EveryPrerequisite graph states task_id IsSucceeded ds
  unfolding prerequisites_loop
  prerequisites_loop_all [] h = tt
  prerequisites_loop_all (d ∷ ds) h = elim (Bool-cases (d.dependent == task_id)) [
    | inr other ↦ (λ e. absurd (ground arith), prerequisites_loop_all ds (ground arith))
    | inl own ↦ elim (Result-cases (prerequisite_state graph states d)) [
      | inl (e, f) ↦ absurd (ground arith)
      | inr (s, f) ↦ (
        λ e. (s, prerequisite_state-some graph states d s f, ground arith),
        prerequisites_loop_all ds (ground arith),
      )
    ]
  ]

  prerequisites_loop_ok :
      (ds : List TaskDependency)
      → EveryPrerequisite graph states task_id IsSucceeded ds
      → prerequisites_loop graph states task_id ds ≡ ok true
  unfolding prerequisites_loop
  prerequisites_loop_ok [] h = refl
  prerequisites_loop_ok (d ∷ ds) h = elim (Bool-cases (d.dependent == task_id)) [
    | inr other ↦ ground (arith, prerequisites_loop_ok ds h.1)
    | inl own ↦
        let (s, e, f) = h.0 ((==_iff d.dependent task_id).0 own) in
        ground (arith, prerequisites_loop_ok ds h.1, prerequisite_state-ok graph states d s e)
  ]

-- The test for a task's prerequisites passes exactly when all of them are in the table and have
-- succeeded.
pub prerequisites_succeeded_iff :
    (graph : TaskGraph) (states : List TaskRuntimeState) (task_id : ℕ)
    → (prerequisites_succeeded graph states task_id ≡ ok true)
      ↔ EveryPrerequisite graph states task_id
          (λ status. status ≡ TaskStatus.succeeded)
          graph.dependencies
unfolding prerequisites_succeeded
prerequisites_succeeded_iff graph states task_id = (
  prerequisites_loop_all graph states task_id graph.dependencies,
  prerequisites_loop_ok graph states task_id graph.dependencies,
)

-- Some dependency of the task on the list leads to a state that has the property.
abbrev pub SomePrerequisite :
    TaskGraph → List TaskRuntimeState → ℕ → (TaskStatus → Type 0) → List TaskDependency → Type 0
SomePrerequisite graph states task_id P [] = ⊥
SomePrerequisite graph states task_id P (d ∷ ds) =
    ((d.dependent ≡ task_id)
      × (s : TaskRuntimeState) × (state graph d.prerequisite (record { states = states }) ≡ some s)
      × P s.status)
    ⊎ SomePrerequisite graph states task_id P ds

abbrev pub IsUnsuccessful : TaskStatus → Type 0
IsUnsuccessful status = is_unsuccessful status ≡ true

-- Each dependency leads to a node, and each node has an entry.
abbrev pub PrerequisitesAreKnown : TaskGraph → List TaskDependency → Type 0
PrerequisitesAreKnown graph ds = All (λ d. (i : ℕ) × (node_index graph d.prerequisite ≡ some i)) ds

module _ (graph : TaskGraph) (states : List TaskRuntimeState) (task_id : ℕ) where
  unsuccessful_loop_some :
      (ds : List TaskDependency)
      → unsuccessful_loop graph states task_id ds ≡ ok true
      → SomePrerequisite graph states task_id IsUnsuccessful ds
  unfolding unsuccessful_loop
  unsuccessful_loop_some [] h = cc
  unsuccessful_loop_some (d ∷ ds) h = elim (Bool-cases (d.dependent == task_id)) [
    | inr other ↦ inr (unsuccessful_loop_some ds (ground arith))
    | inl own ↦ elim (Result-cases (prerequisite_state graph states d)) [
      | inl (e, f) ↦ absurd (ground arith)
      | inr (s, f) ↦ elim (Bool-cases (is_unsuccessful s.status)) [
        | inl bad ↦
            inl (
              (==_iff d.dependent task_id).0 own,
              s,
              prerequisite_state-some graph states d s f,
              bad,
            )
        | inr good ↦ inr (unsuccessful_loop_some ds (ground arith))
      ]
    ]
  ]

  unsuccessful_loop_all :
      (ds : List TaskDependency)
      → unsuccessful_loop graph states task_id ds ≡ ok false
      → EveryPrerequisite graph states task_id (λ status. is_unsuccessful status ≡ false) ds
  unfolding unsuccessful_loop
  unsuccessful_loop_all [] h = tt
  unsuccessful_loop_all (d ∷ ds) h = elim (Bool-cases (d.dependent == task_id)) [
    | inr other ↦ (λ e. absurd (ground arith), unsuccessful_loop_all ds (ground arith))
    | inl own ↦ elim (Result-cases (prerequisite_state graph states d)) [
      | inl (e, f) ↦ absurd (ground arith)
      | inr (s, f) ↦ (
        λ e. (s, prerequisite_state-some graph states d s f, ground arith),
        unsuccessful_loop_all ds (ground arith),
      )
    ]
  ]

  unsuccessful_loop_total :
      (ds : List TaskDependency)
      → length graph.nodes ≡ length states
      → PrerequisitesAreKnown graph ds
      → (b : Bool) × (unsuccessful_loop graph states task_id ds ≡ ok b)
  unfolding unsuccessful_loop prerequisite_state
  unsuccessful_loop_total [] same h = (false, refl)
  unsuccessful_loop_total (d ∷ ds) same h =
      let (b, e) = unsuccessful_loop_total ds same h.1 in
      let (i, f) = h.0 in
      let lt : i < length states =
        omega (arith, position_lt (λ (n : TaskNode). n.id == d.prerequisite) graph.nodes i f) in
      let (s, g) = get_elem?-some states i lt in
      elim (Bool-cases (d.dependent == task_id)) [
        | inr other ↦ (b, ground arith)
        | inl own ↦ elim (Bool-cases (is_unsuccessful s.status)) [
          | inl bad ↦ (true, ground arith)
          | inr good ↦ (b, ground arith)
        ]
      ]

module _ (graph : TaskGraph) (states : List TaskRuntimeState) (task_id : ℕ) where
  pub has_unsuccessful_prerequisite-true :
      has_unsuccessful_prerequisite graph states task_id ≡ ok true
      → SomePrerequisite graph states task_id IsUnsuccessful graph.dependencies
  unfolding has_unsuccessful_prerequisite
  has_unsuccessful_prerequisite-true h =
      unsuccessful_loop_some graph states task_id graph.dependencies h

  pub has_unsuccessful_prerequisite-false :
      has_unsuccessful_prerequisite graph states task_id ≡ ok false
      → EveryPrerequisite graph states task_id
          (λ status. is_unsuccessful status ≡ false)
          graph.dependencies
  unfolding has_unsuccessful_prerequisite
  has_unsuccessful_prerequisite-false h =
      unsuccessful_loop_all graph states task_id graph.dependencies h

  pub has_unsuccessful_prerequisite_total :
      length graph.nodes ≡ length states
      → PrerequisitesAreKnown graph graph.dependencies
      → (b : Bool) × (has_unsuccessful_prerequisite graph states task_id ≡ ok b)
  unfolding has_unsuccessful_prerequisite
  has_unsuccessful_prerequisite_total same h =
      unsuccessful_loop_total graph states task_id graph.dependencies same h
