-- ===== src/TaskGraph/Table/Tests.antt =====
-- Runs of the state table of crates/features/task-graph/src/lib.rs, and its theorems at them.
use llm_app.Prelude.{
  ℕ, ◌<◌, ◌≡◌, refl, ◌↔◌, true, false, some, List, [], ◌∷◌, get_elem?, ok, err, arith,
}
use llm_app.Prelude.{take}
use llm_app.TaskGraph.Types.{
  TaskNode, TaskKind, ModelPolicy, ArtifactKind, TaskGraph, TaskAttempt, TaskStatus,
  TaskRuntimeState, TaskGraphError,
}
use llm_app.TaskGraph.Table.{
  TaskStateTable, Call, run, perform, start, state, succeed_attempt, fail_attempt,
  prerequisites_succeeded, propagate_blocked, ready_tasks, is_unsuccessful, propagate, ready_loop,
  prerequisites_loop, sweep, is_ready, prerequisite_state, has_unsuccessful_prerequisite,
  unsuccessful_loop,
}
use llm_app.TaskGraph.Table.Steps.{Steps, perform-Steps}
use llm_app.TaskGraph.Table.Budget.{IsBudgeted, run-IsBudgeted, run-IsTerminal}
use llm_app.TaskGraph.Table.Prerequisites.{EveryPrerequisite, prerequisites_succeeded_iff}
use llm_app.TaskGraph.Table.Invariants.{ForTasks}
use llm_app.TaskGraph.Table.Order.{IsOrdered, run-IsOrdered}
use llm_app.TaskGraph.Table.Tokens.{succeed_attempt-start, start-stale}
use llm_app.TaskGraph.Table.Blocking.{propagate_blocked_total, propagate_blocked_settles}
use llm_app.TaskGraph.Table.Changes.{Blocks}
use llm_app.TaskGraph.Table.Ready.{Has, ready_tasks-start}

abbrev task : ℕ → ℕ → TaskNode
task id maximum_attempts = record {
  id = id;
  kind = TaskKind.draft;
  model_policy = ModelPolicy.any_compatible;
  budget = record {
    maximum_input_tokens = 64;
    maximum_output_tokens = 64;
    maximum_attempts = maximum_attempts;
  };
  output = record { kind = ArtifactKind.text; maximum_bytes = 0 };
}

-- A draft (10) that may be tried twice, its review (20), and a revision (30) of the review.
abbrev workflow : TaskGraph
workflow = record {
  nodes = task 10 2 ∷ task 20 1 ∷ task 30 1 ∷ [];
  dependencies =
      record { prerequisite = 10; dependent = 20 }
      ∷ record { prerequisite = 20; dependent = 30 }
      ∷ [];
}

abbrev waiting : TaskRuntimeState
waiting = record { status = TaskStatus.pending; attempts = 0 }

abbrev fresh : TaskStateTable
fresh = record { states = waiting ∷ waiting ∷ waiting ∷ [] }

abbrev first_try : TaskAttempt
first_try = record { task = 10; number = 1 }

abbrev second_try : TaskAttempt
second_try = record { task = 10; number = 2 }

abbrev drafting : TaskStateTable
drafting = record {
  states = record { status = TaskStatus.running; attempts = 1 } ∷ waiting ∷ waiting ∷ [];
}

abbrev drafting_again : TaskStateTable
drafting_again = record {
  states = record { status = TaskStatus.running; attempts = 2 } ∷ waiting ∷ waiting ∷ [];
}

abbrev history : List Call
history =
    Call.starts 10
    ∷ Call.fails first_try
    ∷ Call.starts 10
    ∷ Call.fails second_try
    ∷ Call.propagates
    ∷ []

-- The draft is exhausted, and the tasks behind it are blocked.
abbrev given_up : TaskStateTable
given_up = record {
  states =
      record { status = TaskStatus.exhausted; attempts = 2 }
      ∷ record { status = TaskStatus.blocked; attempts = 0 }
      ∷ record { status = TaskStatus.blocked; attempts = 0 }
      ∷ [];
}

abbrev drafted : TaskStateTable
drafted = record {
  states = record { status = TaskStatus.exhausted; attempts = 2 } ∷ waiting ∷ waiting ∷ [];
}

start_draft : start workflow 10 fresh ≡ ok (first_try, drafting)
unfolding start prerequisites_succeeded prerequisites_loop
start_draft = refl

start_review :
    start workflow 20 fresh ≡ err (TaskGraphError.invalid_transition 20 TaskStatus.pending)
unfolding start prerequisites_succeeded prerequisites_loop prerequisite_state
start_review = refl

propagate_two : propagate_blocked workflow drafted ≡ some (ok 2, given_up)
unfolding propagate_blocked propagate sweep has_unsuccessful_prerequisite unsuccessful_loop
    prerequisite_state
propagate_two = refl

perform-Steps_example : Steps workflow drafted (perform workflow Call.propagates drafted)
perform-Steps_example = perform-Steps workflow Call.propagates drafted (omega arith)

run-IsBudgeted_example : IsBudgeted workflow (run workflow fresh history)
run-IsBudgeted_example = run-IsBudgeted workflow fresh history (omega arith) (omega arith)

run-IsTerminal_example :
    get_elem? (run workflow given_up history).states 1
    ≡ some (record { status = TaskStatus.blocked; attempts = 0 })
run-IsTerminal_example =
    run-IsTerminal workflow given_up history 1
      (record { status = TaskStatus.blocked; attempts = 0 }) (omega arith) refl tt

prerequisites_succeeded_iff_example :
    (prerequisites_succeeded workflow fresh.states 20 ≡ ok true)
    ↔ EveryPrerequisite workflow fresh.states 20
        (λ status. status ≡ TaskStatus.succeeded)
        workflow.dependencies
prerequisites_succeeded_iff_example = prerequisites_succeeded_iff workflow fresh.states 20

run-IsOrdered_example : ForTasks (IsOrdered workflow) workflow (run workflow fresh history)
run-IsOrdered_example = run-IsOrdered workflow fresh history (omega arith) (ground arith)

succeed_attempt-start_example :
    (v : TaskStateTable) × (succeed_attempt workflow first_try drafting ≡ ok (tt, v))
    × (state workflow 10 v ≡ some (record { status = TaskStatus.succeeded; attempts = 1 }))
succeed_attempt-start_example =
    succeed_attempt-start workflow 10 fresh drafting first_try start_draft

abbrev retry : List Call
retry = Call.fails first_try ∷ []

restart : start workflow 10 (run workflow drafting retry) ≡ ok (second_try, drafting_again)
unfolding run perform fail_attempt start prerequisites_succeeded prerequisites_loop
restart = refl

start-stale_example :
    (1 < 2)
    × (succeed_attempt workflow first_try drafting_again
        ≡ err (TaskGraphError.invalid_attempt first_try (some second_try) TaskStatus.running))
    × (fail_attempt workflow first_try drafting_again
        ≡ err (TaskGraphError.invalid_attempt first_try (some second_try) TaskStatus.running))
start-stale_example =
    start-stale workflow 10 fresh drafting drafting_again first_try second_try retry (omega arith)
      start_draft restart

propagate_blocked_total_example :
    (k : ℕ) × (u : TaskStateTable) × (propagate_blocked workflow drafted ≡ some (ok k, u))
propagate_blocked_total_example =
    propagate_blocked_total workflow drafted ((0, refl), ((1, refl), tt)) refl

propagate_blocked_settles_example :
    Blocks 2 drafted.states given_up.states
    × ((i : ℕ) (n : TaskNode) (s : TaskRuntimeState)
        → get_elem? workflow.nodes i ≡ some n
        → get_elem? given_up.states i ≡ some s
        → s.status ≡ TaskStatus.pending
        → EveryPrerequisite workflow given_up.states n.id
            (λ status. is_unsuccessful status ≡ false)
            workflow.dependencies)
propagate_blocked_settles_example =
    propagate_blocked_settles workflow drafted given_up 2 (omega arith) propagate_two

ready_draft : ready_tasks workflow fresh (0 ∷ 0 ∷ []) ≡ (ok 1, 10 ∷ 0 ∷ [])
unfolding ready_tasks ready_loop is_ready prerequisites_succeeded prerequisites_loop
    prerequisite_state
ready_draft = refl

ready_tasks-start_example :
    Has 10 (take 1 (10 ∷ 0 ∷ []))
    ↔ ((r : TaskAttempt × TaskStateTable) × (start workflow 10 fresh ≡ ok r))
ready_tasks-start_example =
    ready_tasks-start workflow fresh (0 ∷ 0 ∷ []) (10 ∷ 0 ∷ []) 1 10 (ground arith) ready_draft
