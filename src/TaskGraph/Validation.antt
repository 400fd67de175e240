-- ===== src/TaskGraph/Validation.antt =====
-- crates/features/task-graph/src/lib.rs: `validate_graph` over caller-owned scratch.
-- The scratch is a pair of slices; what it holds afterwards is not part of the contract, so only the
-- result is returned.
pub mod Checks
pub mod Termination
mod Tests
use llm_app.Prelude.{
  ℕ, zero, suc, ◌+◌, ◌-◌, ◌≤◌, ◌<◌, ◌≡◌, refl, sym, ap, subst, ◌∙◌, ◌≢◌, ◌↔◌, ◌⊎◌, inl, inr, Bool,
  true, false, not, ◌&&◌, ◌||◌, ◌==◌, ltb, leb, if◌then◌else◌, Option, none, some, List, [], ◌∷◌,
  ◌++◌, length, get_elem?, set, All, Result, ok, err, ok_or, ensure, ◌>>=◌, ◌>>◌, Bool-cases,
  Option-cases, Result-cases, ==_iff, ltb→lt, lt→ltb, leb→le, arith,
}
use llm_app.Prelude.{any, replicate, saturating_add, checked_add, u32_max, u64_max, min}
use llm_app.Contracts.Capacity.{CapacityExhausted, CapacityResource}
use llm_app.TaskGraph.Types.{
  TaskNode, TaskDependency, TaskGraph, node, node_index, TaskGraphError, dependency_eq,
}

pub record GraphValidationScratch : Type 0 where
  pub incoming_counts : List ℕ
  pub queue : List ℕ

pub node_capacity : ℕ → ℕ → TaskGraphError
node_capacity required available =
    TaskGraphError.capacity_exhausted (record {
      resource = CapacityResource.task_nodes;
      required = required;
      available = available;
    })

pub validate_scratch : ℕ → GraphValidationScratch → Result TaskGraphError (Unit {0})
validate_scratch required scratch =
    let available = min (length scratch.incoming_counts) (length scratch.queue) in
    if ltb available required then err (node_capacity required available) else ok tt

pub validate_nodes : List TaskNode → Result TaskGraphError (Unit {0})
validate_nodes [] = ok tt
validate_nodes (left ∷ rest) =
    let later = validate_nodes rest in
    if any (λ right. right.id == left.id) rest
    then err (TaskGraphError.duplicate_task left.id)
    else later

abbrev pub is_none {ℓ} : {A : Type ℓ} → Option A → Bool
is_none none = true
is_none (some a) = false

pub dependencies_loop : TaskGraph → List TaskDependency → Result TaskGraphError (Unit {0})
dependencies_loop graph [] = ok tt
dependencies_loop graph (d ∷ ds) =
    let later = dependencies_loop graph ds in
    if is_none (node graph d.prerequisite)
    then err (TaskGraphError.unknown_task d.prerequisite)
    else if is_none (node graph d.dependent)
    then err (TaskGraphError.unknown_task d.dependent)
    else if d.prerequisite == d.dependent
    then err (TaskGraphError.self_dependency d.prerequisite)
    else if any (λ right. dependency_eq right d) ds
    then err (TaskGraphError.duplicate_dependency d)
    else later

pub validate_dependencies : TaskGraph → Result TaskGraphError (Unit {0})
unfolding dependencies_loop
validate_dependencies graph = dependencies_loop graph graph.dependencies

pub write_queue : List ℕ → ℕ → ℕ → Result TaskGraphError (List ℕ)
write_queue queue position value =
    if ltb position (length queue)
    then ok (set queue position value)
    else err (node_capacity (saturating_add u64_max position 1) (length queue))

-- The first loop: how many dependencies each node waits for.
pub count_incoming : TaskGraph → List TaskDependency → List ℕ → Result TaskGraphError (List ℕ)
count_incoming graph [] counts = ok counts
count_incoming graph (d ∷ ds) counts = do
  index ← ok_or (node_index graph d.dependent) (TaskGraphError.unknown_task d.dependent)
  current ←
      ok_or (get_elem? counts index)
        (node_capacity (saturating_add u64_max index 1) (length counts))
  next ← ok_or (checked_add u32_max current 1) (
      TaskGraphError.capacity_exhausted (record {
        resource = CapacityResource.task_edges;
        required = u32_max + 1;
        available = current;
      }))
  count_incoming graph ds (set counts index next)

-- The traversal's variables.
pub record Traversal : Type 0 where
  pub counts : List ℕ
  pub queue : List ℕ
  pub queue_length : ℕ

pub enqueue : ℕ → Traversal → Result TaskGraphError Traversal
enqueue index t = do
  queue ← write_queue t.queue t.queue_length index
  ok (record t { queue = queue; queue_length = t.queue_length + 1 })

-- The second loop: the nodes that wait for nothing, from `index` on.
pub seed_queue : ℕ → List ℕ → Traversal → Result TaskGraphError Traversal
seed_queue index [] t = ok t
seed_queue index (count ∷ rest) t = do
  t' ← if count == 0 then enqueue index t else ok t
  seed_queue (suc index) rest t'

-- The inner loop: the dependencies of a node that was taken from the queue.
pub release_dependents :
    TaskGraph → ℕ → List TaskDependency → Traversal → Result TaskGraphError Traversal
release_dependents graph id [] t = ok t
release_dependents graph id (d ∷ ds) t = elim (d.prerequisite == id) [
  | false ↦ release_dependents graph id ds t
  | true ↦ do
    index ← ok_or (node_index graph d.dependent) (TaskGraphError.unknown_task d.dependent)
    count ←
        ok_or (get_elem? t.counts index)
          (node_capacity (saturating_add u64_max index 1) (length t.counts))
    ensure (not (count == 0)) (TaskGraphError.duplicate_dependency d)
    let released = record t { counts = set t.counts index (count - 1) }
    t' ← if count - 1 == 0 then enqueue index released else ok released
    release_dependents graph id ds t'
]

-- The `while`, on fuel: `none` means that the fuel ran out. The result is the number of visits.
pub traverse : ℕ → TaskGraph → (head visited : ℕ) → Traversal → Option (Result TaskGraphError ℕ)
traverse zero graph head visited t = none
traverse (suc fuel) graph head visited t = elim (ltb head t.queue_length) [
  | false ↦ some (ok visited)
  | true ↦ elim (get_elem? t.queue head) [
    | none ↦ some (err (node_capacity (saturating_add u64_max head 1) (length t.queue)))
    | some index ↦ elim (get_elem? graph.nodes index) [
      | none ↦ some (err (node_capacity (saturating_add u64_max index 1) (length graph.nodes)))
      | some n ↦ elim (release_dependents graph n.id graph.dependencies t) [
        | err e ↦ some (err e)
        | ok t' ↦ traverse fuel graph (head + 1) (visited + 1) t'
      ]
    ]
  ]
]

-- Everything before the `while`.
pub prepare : TaskGraph → GraphValidationScratch → Result TaskGraphError Traversal
prepare graph scratch = do
  validate_scratch (length graph.nodes) scratch
  validate_nodes graph.nodes
  validate_dependencies graph
  ensure (leb (length graph.nodes) (length scratch.incoming_counts))
      (node_capacity (length graph.nodes) (length scratch.incoming_counts))
  counts ← count_incoming graph graph.dependencies (replicate (length graph.nodes) 0)
  seed_queue 0 counts (record { counts = counts; queue = scratch.queue; queue_length = 0 })

abbrev conclude :
    TaskGraph → Option (Result TaskGraphError ℕ) → Option (Result TaskGraphError (Unit {0}))
conclude graph none = none
conclude graph (some (err e)) = some (err e)
conclude graph (some (ok visited)) =
    if visited == length graph.nodes then some (ok tt) else some (err TaskGraphError.cycle_detected)

-- The queue never outgrows its slice, so one more than its length is enough fuel.
pub validate_graph : TaskGraph → GraphValidationScratch → Option (Result TaskGraphError (Unit {0}))
validate_graph graph scratch = elim (prepare graph scratch) [
  | err e ↦ some (err e)
  | ok t ↦ conclude graph (traverse (suc (length scratch.queue)) graph 0 0 t)
]
