-- ===== src/ContextPlanner/Tests.antt =====
-- A plan of crates/features/context-planner/src/lib.rs, and its theorems at it.
use llm_app.Prelude.{ℕ, ◌+◌, ◌≤◌, ◌≡◌, refl, List, [], ◌∷◌, ◌++◌, ok, arith}
use mathlib.Core.List.{Perm}
use llm_app.ContextPlanner.{
  ContextEntry, ContextRole, ContextSource, ContextPersistence, ContextContent, ContextBudget,
  PlanWorkspace, ContextPlan, plan, validate_workspace, validate_unique_ids, split_entries,
  split_entry, write_index, prefix, admit, admit_entry, sort_by, candidate_order, ordinal_order,
  min,
}
use llm_app.ContextPlanner.Sorting.{InOrder, tokens_of}
use llm_app.ContextPlanner.Splitting.{pinned_from, indices_from}
use llm_app.ContextPlanner.Plans.{plan-perm, plan-tokens_of, plan-InOrder}

abbrev entry : ℕ → ContextPersistence → ℕ → ℕ → ContextEntry
entry id persistence priority estimated_tokens = record {
  id = id;
  ordinal = min id 3;
  role = ContextRole.user;
  source = ContextSource.user;
  priority = priority;
  persistence = persistence;
  estimated_tokens = estimated_tokens;
  content = ContextContent.text [];
}

-- The last two entries have the same ordinal, and the identities the other way round.
abbrev history : List ContextEntry
history =
    entry 1 ContextPersistence.pinned 0 30
    ∷ entry 2 ContextPersistence.ephemeral 5 40
    ∷ entry 4 ContextPersistence.ephemeral 9 20
    ∷ entry 3 ContextPersistence.retained 5 40
    ∷ []

abbrev budget : ContextBudget
budget = record { maximum_tokens = 120; reserved_output_tokens = 20 }

abbrev workspace : PlanWorkspace
workspace = record {
  ordering = 0 ∷ 0 ∷ 0 ∷ 0 ∷ [];
  selected = 0 ∷ 0 ∷ 0 ∷ 0 ∷ [];
  dropped = 0 ∷ 0 ∷ 0 ∷ 0 ∷ [];
}

-- The retained entry goes before the ephemeral one of equal priority, which no longer fits.
abbrev planned : ContextPlan
planned = record {
  selected = 0 ∷ 3 ∷ 2 ∷ [];
  dropped = 1 ∷ [];
  input_tokens = 90;
  reserved_output_tokens = 20;
  maximum_tokens = 120;
}

plan_runs : plan history budget workspace ≡ ok planned
unfolding plan validate_workspace validate_unique_ids split_entries split_entry write_index prefix
    admit admit_entry sort_by candidate_order ordinal_order
plan_runs = refl

plan-perm_example :
    Perm (planned.selected ++ planned.dropped) (indices_from 0 history)
    × ((others : List ℕ) × Perm planned.selected (pinned_from 0 history ++ others))
plan-perm_example = plan-perm history budget workspace planned (omega arith) plan_runs

plan-tokens_of_example :
    (planned.input_tokens ≡ tokens_of history planned.selected) × (90 + 20 ≤ 120)
plan-tokens_of_example =
    plan-tokens_of history budget workspace planned (omega arith) (omega arith) plan_runs

plan-InOrder_example : InOrder history planned.selected × InOrder history planned.dropped
plan-InOrder_example = plan-InOrder history budget workspace planned plan_runs
