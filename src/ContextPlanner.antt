-- ===== src/ContextPlanner.antt =====
-- crates/features/context-planner/src/lib.rs: deterministic context planning over caller-owned storage.
-- The workspace slices are lists; of what they hold afterwards only the parts that the plan borrows
-- are returned. `sort_unstable_by` is an insertion sort: it is used on indices of entries whose
-- identities differ, where the comparison leaves no choice.
pub mod Splitting
pub mod Admission
pub mod Sorting
pub mod Plans
mod Tests
use llm_app.Prelude.{
  ℕ, zero, suc, ◌+◌, ◌-◌, ◌≤◌, ◌<◌, ◌≡◌, refl, sym, ap, subst, ◌∙◌, ◌≢◌, ◌↔◌, ◌⊎◌, inl, inr, Bool,
  true, false, not, ◌&&◌, ◌||◌, ◌==◌, ltb, leb, if◌then◌else◌, Option, none, some, List, [], ◌∷◌,
  ◌++◌, length, get_elem?, set, All, Result, ok, err, ok_or, ensure, ◌>>=◌, ◌>>◌, Bool-cases,
  Option-cases, Result-cases, ==_iff, ltb→lt, lt→ltb, leb→le, arith,
}
use Prim.Native.Nat.{compare, Ordering}
use llm_app.Prelude.{any, take, min, saturating_add, u32_max, u64_max}
use llm_app.Contracts.Capacity.{CapacityExhausted, CapacityResource}

pub data ContextRole : Type 0 where
  system user assistant tool retrieved diagnostic : ContextRole

pub data ContextSource : Type 0 where
  application user model tool retrieval validator : ContextSource

pub data ContextPersistence : Type 0 where
  pinned retained ephemeral : ContextPersistence

-- Text is given by its bytes.
pub data ContextContent : Type 0 where
  text tokens : List ℕ → ContextContent
  artifact : ℕ → ContextContent

pub record ContextEntry : Type 0 where
  pub id : ℕ
  pub ordinal : ℕ
  pub role : ContextRole
  pub source : ContextSource
  pub priority : ℕ
  pub persistence : ContextPersistence
  pub estimated_tokens : ℕ
  pub content : ContextContent

pub record ContextBudget : Type 0 where
  pub maximum_tokens : ℕ
  pub reserved_output_tokens : ℕ

pub record PlanWorkspace : Type 0 where
  pub ordering : List ℕ
  pub selected : List ℕ
  pub dropped : List ℕ

pub data PlanningError : Type 0 where
  invalid_budget : PlanningError
  duplicate_entry_id : ℕ → PlanningError
  pinned_budget_exceeded : (required_tokens available_tokens : ℕ) → PlanningError
  capacity_exhausted : CapacityExhausted → PlanningError

-- The borrowed entries are an argument of what reads them.
pub record ContextPlan : Type 0 where
  pub selected : List ℕ
  pub dropped : List ℕ
  pub input_tokens : ℕ
  pub reserved_output_tokens : ℕ
  pub maximum_tokens : ℕ

-- `ContextBudget::new`.
pub new_budget : ℕ → ℕ → Result PlanningError ContextBudget
new_budget maximum_tokens reserved_output_tokens =
    if (maximum_tokens == 0) || ltb maximum_tokens reserved_output_tokens
    then err PlanningError.invalid_budget
    else ok (record {
      maximum_tokens = maximum_tokens;
      reserved_output_tokens = reserved_output_tokens;
    })

abbrev pub available_input_tokens : ContextBudget → ℕ
available_input_tokens budget = budget.maximum_tokens - budget.reserved_output_tokens

abbrev pub is_pinned : ContextEntry → Bool
is_pinned entry = elim entry.persistence [ ContextPersistence.pinned ↦ true | _ ↦ false ]

abbrev pub persistence_rank : ContextPersistence → ℕ
persistence_rank ContextPersistence.pinned = 2
persistence_rank ContextPersistence.retained = 1
persistence_rank ContextPersistence.ephemeral = 0

abbrev pub then_with : Ordering → Ordering → Ordering
then_with Ordering.lt next = Ordering.lt
then_with Ordering.eq next = next
then_with Ordering.gt next = Ordering.gt

-- The order of two entries where both indices have one, and of the indices otherwise.
abbrev pub by_entries :
    (ContextEntry → ContextEntry → Ordering) → List ContextEntry → ℕ → ℕ → Ordering
by_entries order entries left right = elim (get_elem? entries left) [
  | some left_entry ↦ elim (get_elem? entries right) [
    | some right_entry ↦ order left_entry right_entry
    | none ↦ Ordering.lt
  ]
  | none ↦ elim (get_elem? entries right) [
    | some right_entry ↦ Ordering.gt
    | none ↦ compare left right
  ]
]

pub candidate_order : List ContextEntry → ℕ → ℕ → Ordering
candidate_order = by_entries λ l r. then_with (compare r.priority l.priority) (
    then_with (compare (persistence_rank r.persistence) (persistence_rank l.persistence))
      (then_with (compare r.ordinal l.ordinal) (compare l.id r.id)))

pub ordinal_order : List ContextEntry → ℕ → ℕ → Ordering
ordinal_order = by_entries λ l r. then_with (compare l.ordinal r.ordinal) (compare l.id r.id)

-- `sort_unstable_by`.
pub insert_by : (ℕ → ℕ → Ordering) → ℕ → List ℕ → List ℕ
insert_by order x [] = x ∷ []
insert_by order x (y ∷ ys) =
    let rest = insert_by order x ys in elim (order x y) [ Ordering.gt ↦ y ∷ rest | _ ↦ x ∷ y ∷ ys ]

pub sort_by : (ℕ → ℕ → Ordering) → List ℕ → List ℕ
unfolding insert_by
sort_by order [] = []
sort_by order (x ∷ xs) = insert_by order x (sort_by order xs)

pub workspace_capacity : ℕ → ℕ → PlanningError
workspace_capacity required available = PlanningError.capacity_exhausted (record {
  resource = CapacityResource.context_entries;
  required = required;
  available = available;
})

pub validate_workspace : ℕ → PlanWorkspace → Result PlanningError (Unit {0})
validate_workspace required workspace =
    let available =
      min (min (length workspace.ordering) (length workspace.selected))
        (length workspace.dropped) in
    if ltb available required then err (workspace_capacity required available) else ok tt

pub validate_unique_ids : List ContextEntry → Result PlanningError (Unit {0})
validate_unique_ids [] = ok tt
validate_unique_ids (left ∷ rest) =
    let later = validate_unique_ids rest in
    if any (λ right. right.id == left.id) rest
    then err (PlanningError.duplicate_entry_id left.id)
    else later

pub write_index : List ℕ → ℕ → ℕ → Result PlanningError (List ℕ)
write_index output position value =
    if ltb position (length output)
    then ok (set output position value)
    else err (workspace_capacity (saturating_add u64_max position 1) (length output))

-- `slice.get_mut(..n)`.
pub prefix : ℕ → List ℕ → Result PlanningError (List ℕ)
prefix n xs = if leb n (length xs) then ok (take n xs) else err (workspace_capacity n (length xs))

-- The variables of the first loop, which sets the pinned entries apart.
pub record Split : Type 0 where
  pub ordering : List ℕ
  pub selected : List ℕ
  pub candidate_length : ℕ
  pub selected_length : ℕ
  pub pinned_tokens : ℕ

pub split_entry : ℕ → ContextEntry → Split → Result PlanningError Split
split_entry index entry s =
    if is_pinned entry
    then (write_index s.selected s.selected_length index >>= λ selected. ok (record s {
      selected = selected;
      selected_length = s.selected_length + 1;
      pinned_tokens = saturating_add u64_max s.pinned_tokens entry.estimated_tokens;
    }))
    else (write_index s.ordering s.candidate_length index >>= λ ordering.
        ok (record s { ordering = ordering; candidate_length = s.candidate_length + 1 }))

pub split_entries : ℕ → List ContextEntry → Split → Result PlanningError Split
split_entries index [] s = ok s
split_entries index (entry ∷ entries) s =
    split_entry index entry s >>= λ s'. split_entries (suc index) entries s'

-- The variables of the second loop, which admits candidates while they fit.
pub record Admitted : Type 0 where
  pub selected : List ℕ
  pub dropped : List ℕ
  pub selected_length : ℕ
  pub dropped_length : ℕ
  pub admitted_tokens : ℕ

pub admit_entry : ℕ → ℕ → ContextEntry → Admitted → Result PlanningError Admitted
admit_entry available index entry a =
    let total = saturating_add u64_max a.admitted_tokens entry.estimated_tokens in
    if leb total available
    then (write_index a.selected a.selected_length index >>= λ selected. ok (record a {
      selected = selected;
      selected_length = a.selected_length + 1;
      admitted_tokens = total;
    }))
    else (write_index a.dropped a.dropped_length index >>= λ dropped.
        ok (record a { dropped = dropped; dropped_length = a.dropped_length + 1 }))

pub admit : List ContextEntry → ℕ → List ℕ → Admitted → Result PlanningError Admitted
admit entries available [] a = ok a
admit entries available (index ∷ candidates) a = do
  entry ←
      ok_or (get_elem? entries index)
        (workspace_capacity (saturating_add u64_max index 1) (length entries))
  a' ← admit_entry available index entry a
  admit entries available candidates a'

pub plan : List ContextEntry → ContextBudget → PlanWorkspace → Result PlanningError ContextPlan
plan entries budget workspace = do
  validate_workspace (length entries) workspace
  validate_unique_ids entries
  let available = available_input_tokens budget
  s ← split_entries 0 entries (record {
    ordering = workspace.ordering;
    selected = workspace.selected;
    candidate_length = 0;
    selected_length = 0;
    pinned_tokens = 0;
  })
  ensure (not (ltb available s.pinned_tokens))
      (PlanningError.pinned_budget_exceeded s.pinned_tokens available)
  candidates ← prefix s.candidate_length s.ordering
  a ← admit entries available (sort_by (candidate_order entries) candidates) (record {
    selected = s.selected;
    dropped = workspace.dropped;
    selected_length = s.selected_length;
    dropped_length = 0;
    admitted_tokens = s.pinned_tokens;
  })
  selected ← prefix a.selected_length a.selected
  dropped ← prefix a.dropped_length a.dropped
  ensure (leb a.admitted_tokens u32_max)
      (PlanningError.pinned_budget_exceeded a.admitted_tokens available)
  ok (record {
    selected = sort_by (ordinal_order entries) selected;
    dropped = sort_by (ordinal_order entries) dropped;
    input_tokens = a.admitted_tokens;
    reserved_output_tokens = budget.reserved_output_tokens;
    maximum_tokens = budget.maximum_tokens;
  })
