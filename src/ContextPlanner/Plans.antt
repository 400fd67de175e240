-- ===== src/ContextPlanner/Plans.antt =====
-- What a plan of crates/features/context-planner/src/lib.rs promises.
use llm_app.Prelude.{
  ℕ, suc, ◌+◌, ◌≤◌, ◌≡◌, refl, ap, ◌∙◌, inl, inr, some, List, [], ◌∷◌, ◌++◌, get_elem?, ok,
  Result-cases, arith,
}
use llm_app.Prelude.{take, u32_max, append_assoc}
use llm_app.ContextPlanner.{
  ContextEntry, ContextBudget, PlanWorkspace, ContextPlan, available_input_tokens, Split, Admitted,
  split_entries, admit, sort_by, candidate_order, ordinal_order, prefix, validate_unique_ids, plan,
}
use llm_app.ContextPlanner.Sorting.{
  tokens_of, tokens_at, sort_by-perm, InOrder, IsSorted-InOrder, sort_by-IsSorted,
  ordinal_order-turns, tokens_of-append, tokens_of-sort_by,
}
use llm_app.ContextPlanner.Splitting.{
  Splits, split_entries-Splits, pinned_from, pinned_sum, indices_from, candidates_from,
  pinned_from-candidates_from-perm,
}
use llm_app.ContextPlanner.Admission.{Admits, admit-Admits}
use mathlib.Core.List.{Perm}
use mathlib.Core.List.Perm

abbrev at_start : PlanWorkspace → Split
at_start workspace = record {
  ordering = workspace.ordering;
  selected = workspace.selected;
  candidate_length = 0;
  selected_length = 0;
  pinned_tokens = 0;
}

abbrev after_split : PlanWorkspace → Split → Admitted
after_split workspace s = record {
  selected = s.selected;
  dropped = workspace.dropped;
  selected_length = s.selected_length;
  dropped_length = 0;
  admitted_tokens = s.pinned_tokens;
}

-- The two loops of a successful `plan`, and what it made of their end.
pub record Planned (entries : List ContextEntry) (budget : ContextBudget)
    (workspace : PlanWorkspace) (p : ContextPlan) : Type 0 where
  s : Split
  a : Admitted
  unique : validate_unique_ids entries ≡ ok tt
  pinned_fit : s.pinned_tokens ≤ available_input_tokens budget
  first : split_entries 0 entries (at_start workspace) ≡ ok s
  second :
      admit entries
        (available_input_tokens budget)
        (sort_by (candidate_order entries) (take s.candidate_length s.ordering))
        (after_split workspace s)
      ≡ ok a
  selected : p.selected ≡ sort_by (ordinal_order entries) (take a.selected_length a.selected)
  dropped : p.dropped ≡ sort_by (ordinal_order entries) (take a.dropped_length a.dropped)
  tokens : p.input_tokens ≡ a.admitted_tokens

plan_inv :
    (entries : List ContextEntry) (budget : ContextBudget) (workspace : PlanWorkspace)
    (p : ContextPlan)
    → plan entries budget workspace ≡ ok p
    → Planned entries budget workspace p
unfolding plan prefix
plan_inv entries budget workspace p h =
    elim (Result-cases (split_entries 0 entries (at_start workspace))) [
      | inl (error, f) ↦ absurd (ground arith)
      | inr (s, f) ↦
          elim (Result-cases (
            admit entries (available_input_tokens budget)
              (sort_by (candidate_order entries) (take s.candidate_length s.ordering))
              (after_split workspace s))) [
                | inl (error, g) ↦ absurd (ground arith)
                | inr (a, g) ↦ record {
                  s = s;
                  a = a;
                  unique = ground arith;
                  pinned_fit = ground arith;
                  first = f;
                  second = g;
                  selected = ground arith;
                  dropped = ground arith;
                  tokens = ground arith;
                }
              ]
    ]

-- The pinned tokens are those at the pinned indices.
pinned_sum-tokens_of :
    (all : List ContextEntry) (index : ℕ) (entries : List ContextEntry)
    → ((k : ℕ) → get_elem? entries k ≡ get_elem? all (index + k))
    → pinned_sum entries ≡ tokens_of all (pinned_from index entries)
unfolding pinned_sum tokens_of pinned_from tokens_at
pinned_sum-tokens_of all index [] tail = refl
pinned_sum-tokens_of all index (entry ∷ entries) tail =
    let at : index + 0 ≡ index = omega arith in
    let here : some entry ≡ get_elem? all index = rw at at (tail 0) in
    let ih =
      pinned_sum-tokens_of all (suc index) entries
        (λ k. let next : suc index + k ≡ index + suc k = omega arith in rw next (tail (suc k))) in
    ground (arith, ih)

module _ (entries : List ContextEntry) (budget : ContextBudget) (workspace : PlanWorkspace)
    (p : ContextPlan) where
  -- What the second loop chose, beside the pinned entries.
  abbrev Chosen : Planned entries budget workspace p → Type 0
  Chosen v =
      Admits entries (available_input_tokens budget)
        (sort_by (candidate_order entries) (take v.s.candidate_length v.s.ordering))
        (after_split workspace v.s) v.a

  chosen : (v : Planned entries budget workspace p) → budget.maximum_tokens ≤ u32_max → Chosen v
  chosen v small =
      admit-Admits entries (available_input_tokens budget)
        (sort_by (candidate_order entries) (take v.s.candidate_length v.s.ordering))
        (after_split workspace v.s) v.a (omega arith) v.second

  splits : (v : Planned entries budget workspace p) → Splits 0 entries (at_start workspace) v.s
  splits v = split_entries-Splits 0 entries (at_start workspace) v.s v.first

  -- The selection before it is sorted: the pinned entries, then the admitted candidates.
  selection :
      (v : Planned entries budget workspace p) (c : Chosen v)
      → take v.a.selected_length v.a.selected ≡ pinned_from 0 entries ++ c.chosen
  selection v c = c.selected ∙ ap (λ (xs : List ℕ). xs ++ c.chosen) (splits v).pinned

  selected-perm :
      (v : Planned entries budget workspace p) (c : Chosen v)
      → Perm p.selected (pinned_from 0 entries ++ c.chosen)
  selected-perm v c =
      rw (v.selected, selection v c)
        (sort_by-perm (ordinal_order entries) (pinned_from 0 entries ++ c.chosen))

  dropped-perm : (v : Planned entries budget workspace p) (c : Chosen v) → Perm p.dropped c.left
  dropped-perm v c = rw (v.dropped, c.dropped) (sort_by-perm (ordinal_order entries) c.left)

  all-perm :
      (v : Planned entries budget workspace p) (c : Chosen v)
      → Perm (p.selected ++ p.dropped) (indices_from 0 entries)
  all-perm v c = Perm.trans (Perm.append (selected-perm v c) (dropped-perm v c)) (
      rw (append_assoc (pinned_from 0 entries) c.chosen c.left) (
        Perm.trans
          (Perm.append (Perm.refl (pinned_from 0 entries)) (
            Perm.trans c.split (
              Perm.trans
                (sort_by-perm (candidate_order entries) (take v.s.candidate_length v.s.ordering))
                (rw (splits v).candidates (Perm.refl (candidates_from 0 entries))))))
          (pinned_from-candidates_from-perm 0 entries)))

-- The selected and the dropped indices of a plan are together each index of an entry once, and all
-- pinned entries are selected: the selection rearranges them and further indices. The budget's
-- maximum is a `u32`.
pub plan-perm :
    (entries : List ContextEntry) (budget : ContextBudget) (workspace : PlanWorkspace)
    (p : ContextPlan)
    → budget.maximum_tokens ≤ u32_max
    → plan entries budget workspace ≡ ok p
    → Perm (p.selected ++ p.dropped) (indices_from 0 entries)
      × ((others : List ℕ) × Perm p.selected (pinned_from 0 entries ++ others))
plan-perm entries budget workspace p small h =
    let v = plan_inv entries budget workspace p h in
    let c = chosen entries budget workspace p v small in
    (
      all-perm entries budget workspace p v c,
      (c.chosen, selected-perm entries budget workspace p v c),
    )

-- The input tokens of a plan are the estimated tokens of the selected entries, and they fit beside the
-- reserved output into the maximum, when the reservation does (as `ContextBudget::new` checks) and
-- the maximum is a `u32`.
pub plan-tokens_of :
    (entries : List ContextEntry) (budget : ContextBudget) (workspace : PlanWorkspace)
    (p : ContextPlan)
    → budget.maximum_tokens ≤ u32_max
    → budget.reserved_output_tokens ≤ budget.maximum_tokens
    → plan entries budget workspace ≡ ok p
    → (p.input_tokens ≡ tokens_of entries p.selected)
      × (p.input_tokens + budget.reserved_output_tokens ≤ budget.maximum_tokens)
plan-tokens_of entries budget workspace p small reserved h =
    let v = plan_inv entries budget workspace p h in
    let c = chosen entries budget workspace p v small in
    let (less, sum) = (splits entries budget workspace p v).tokens (omega (arith, v.pinned_fit)) in
    let pins =
      pinned_sum-tokens_of entries 0 entries
        (λ k. let at : 0 + k ≡ k = omega arith in rw at refl) in
    let sorted : tokens_of entries p.selected
        ≡ tokens_of entries (pinned_from 0 entries ++ c.chosen) =
      rw (v.selected, selection entries budget workspace p v c)
        (tokens_of-sort_by entries (ordinal_order entries) (pinned_from 0 entries ++ c.chosen)) in
    (
      omega (arith, v.tokens, c.tokens, tokens_of-append entries (pinned_from 0 entries) c.chosen),
      omega (arith, v.tokens, c.within v.pinned_fit),
    )

-- Of any two indices among those that a plan selects, the one listed first leads to the entry of the
-- smaller ordinal, or of an equal ordinal and an identity that is not greater; and so among those that
-- it drops.
pub plan-InOrder :
    (entries : List ContextEntry) (budget : ContextBudget) (workspace : PlanWorkspace)
    (p : ContextPlan)
    → plan entries budget workspace ≡ ok p
    → InOrder entries p.selected × InOrder entries p.dropped
plan-InOrder entries budget workspace p h =
    let v = plan_inv entries budget workspace p h in
    let turns = ordinal_order-turns entries in
    let sorted : (xs : List ℕ) → InOrder entries (sort_by (ordinal_order entries) xs) =
      λ xs. IsSorted-InOrder entries _ (sort_by-IsSorted (ordinal_order entries) turns xs) in
    (
      rw v.selected (sorted (take v.a.selected_length v.a.selected)),
      rw v.dropped (sorted (take v.a.dropped_length v.a.dropped)),
    )
