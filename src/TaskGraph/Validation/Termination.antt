-- ===== src/TaskGraph/Validation/Termination.antt =====
-- The `while` of `validate_graph` (crates/features/task-graph/src/lib.rs) ends.
use llm_app.Prelude.{
  ℕ, zero, suc, ◌+◌, ◌-◌, ◌≤◌, ◌<◌, ◌≡◌, refl, ◌∙◌, ◌≢◌, inl, inr, Bool, true, false, ◌==◌, ltb,
  if◌then◌else◌, Option, none, some, List, [], ◌∷◌, length, get_elem?, set, Result, ok, err, ◌>>=◌,
  ◌>>◌, Bool-cases, Option-cases, arith, replicate,
}
use llm_app.Prelude.{length-set}
use llm_app.TaskGraph.Types.{TaskDependency, TaskGraph, TaskGraphError, node_index, TaskNode}
use llm_app.TaskGraph.Validation.{
  GraphValidationScratch, Traversal, write_queue, enqueue, seed_queue, release_dependents, traverse,
  prepare, conclude, validate_graph, count_incoming, validate_dependencies, validate_nodes,
  validate_scratch,
}

-- The queued entries fit the slice, which keeps its length.
pub record Fits (size : ℕ) (t : Traversal) : Type 0 where
  pub sized : length t.queue ≡ size
  pub within : t.queue_length ≤ size

abbrev pub FitsIfOk : ℕ → Result TaskGraphError Traversal → Type 0
FitsIfOk size (ok t) = Fits size t
FitsIfOk size (err e) = Unit

enqueue-Fits : (size index : ℕ) (t : Traversal) → Fits size t → FitsIfOk size (enqueue index t)
unfolding enqueue write_queue
enqueue-Fits size index t v = elim (Bool-cases (ltb t.queue_length (length t.queue))) [
  | inr full ↦ rw full tt
  | inl room ↦ rw room (record {
    sized = length-set t.queue t.queue_length index ∙ v.sized;
    within = ground (arith, v.sized);
  })
]

enqueue_if-Fits :
    (size index : ℕ) (test : Bool) (t : Traversal)
    → Fits size t
    → FitsIfOk size (if test then enqueue index t else ok t)
enqueue_if-Fits size index true t v = enqueue-Fits size index t v
enqueue_if-Fits size index false t v = v

FitsIfOk-bind :
    (size : ℕ) (r : Result TaskGraphError Traversal)
    (next : Traversal → Result TaskGraphError Traversal)
    → FitsIfOk size r
    → ((t : Traversal) → Fits size t → FitsIfOk size (next t))
    → FitsIfOk size (r >>= next)
FitsIfOk-bind size (ok t) next v h = h t v
FitsIfOk-bind size (err e) next v h = tt

FitsIfOk-then :
    (size : ℕ) (r : Result TaskGraphError (Unit {0})) (next : Result TaskGraphError Traversal)
    → FitsIfOk size next
    → FitsIfOk size (r >> next)
FitsIfOk-then size (ok x) next v = v
FitsIfOk-then size (err e) next v = tt

FitsIfOk-start :
    (size : ℕ) (r : Result TaskGraphError (List ℕ))
    (next : List ℕ → Result TaskGraphError Traversal)
    → ((counts : List ℕ) → FitsIfOk size (next counts))
    → FitsIfOk size (r >>= next)
FitsIfOk-start size (ok counts) next v = v counts
FitsIfOk-start size (err e) next v = tt

seed_queue-Fits :
    (size index : ℕ) (counts : List ℕ) (t : Traversal)
    → Fits size t
    → FitsIfOk size (seed_queue index counts t)
unfolding seed_queue
seed_queue-Fits size index [] t v = v
seed_queue-Fits size index (count ∷ rest) t v =
    FitsIfOk-bind size (if count == 0 then enqueue index t else ok t)
      (λ u. seed_queue (suc index) rest u) (enqueue_if-Fits size index (count == 0) t v)
      (λ u w. seed_queue-Fits size (suc index) rest u w)

release_dependents-Fits :
    (graph : TaskGraph) (size id : ℕ) (ds : List TaskDependency) (t : Traversal)
    → Fits size t
    → FitsIfOk size (release_dependents graph id ds t)
unfolding release_dependents
release_dependents-Fits graph size id [] t v = v
release_dependents-Fits graph size id (d ∷ ds) t v = elim (Bool-cases (d.prerequisite == id)) [
  | inr other ↦ rw (other, release_dependents) (release_dependents-Fits graph size id ds t v)
  | inl own ↦ elim (Option-cases (node_index graph d.dependent)) [
    | inl e ↦ rw (own, release_dependents) (rw (e, release_dependents) tt)
    | inr (index, e) ↦ elim (Option-cases (get_elem? t.counts index)) [
      | inl f ↦
          rw (own, release_dependents) (rw (e, release_dependents) (rw (f, release_dependents) tt))
      | inr (count, f) ↦
          let released : Traversal = record t { counts = set t.counts index (count - 1) } in
          let kept : FitsIfOk size (
              (if count - 1 == 0 then enqueue index released else ok released) >>= λ u.
              release_dependents graph id ds u) =
            FitsIfOk-bind size (if count - 1 == 0 then enqueue index released else ok released)
              (λ u. release_dependents graph id ds u)
              (enqueue_if-Fits size index (count - 1 == 0) released
                (record { sized = v.sized; within = v.within }))
              (λ u w. release_dependents-Fits graph size id ds u w) in
          elim (Bool-cases (count == 0)) [
            | inl spent ↦
                rw (own, release_dependents)
                  (rw (e, release_dependents)
                    (rw (f, release_dependents) (rw (spent, release_dependents) tt)))
            | inr some_left ↦
                rw (own, release_dependents)
                  (rw (e, release_dependents)
                    (rw (f, release_dependents) (rw (some_left, release_dependents) kept)))
          ]
    ]
  ]
]

traverse-ne-none :
    (graph : TaskGraph) (fuel head visited size : ℕ) (t : Traversal)
    → Fits size t
    → head ≤ size
    → size < head + fuel
    → traverse fuel graph head visited t ≢ none
unfolding traverse
traverse-ne-none graph zero head visited size t v within enough = absurd (omega arith)
traverse-ne-none graph (suc fuel) head visited size t v within enough =
    elim (Bool-cases (ltb head t.queue_length)) [
      | inr over ↦ rw (over, traverse) (λ h. cc)
      | inl more ↦ elim (Option-cases (get_elem? t.queue head)) [
        | inl e ↦ rw (more, traverse) (rw (e, traverse) (λ h. cc))
        | inr (index, e) ↦ elim (Option-cases (get_elem? graph.nodes index)) [
          | inl f ↦ rw (more, traverse) (rw (e, traverse) (rw (f, traverse) (λ h. cc)))
          | inr (n, f) ↦
              rw (more, traverse)
                (rw (e, traverse)
                  (rw (f, traverse)
                    (visit n (release_dependents graph n.id graph.dependencies t)
                      (release_dependents-Fits graph size n.id graph.dependencies t v)
                      (λ u w.
                        traverse-ne-none graph fuel (head + 1) (visited + 1) size u w
                          (ground (arith, v.within)) (omega arith)))))
        ]
      ]
    ]
  where
    visit :
        (n : TaskNode) (r : Result TaskGraphError Traversal)
        → FitsIfOk size r
        → ((u : Traversal) → Fits size u → traverse fuel graph (head + 1) (visited + 1) u ≢ none)
        → ◌≢◌ {A = Option (Result TaskGraphError ℕ)}
            (elim r [
              | err e ↦ some (err e)
              | ok u ↦ traverse fuel graph (head + 1) (visited + 1) u
            ])
            none
    visit n (ok u) w h = h u w
    visit n (err e) w h = λ k. cc

prepare-Fits :
    (graph : TaskGraph) (scratch : GraphValidationScratch)
    → FitsIfOk (length scratch.queue) (prepare graph scratch)
unfolding prepare
prepare-Fits graph scratch = FitsIfOk-then size (validate_scratch (length graph.nodes) scratch) _ (
    FitsIfOk-then size (validate_nodes graph.nodes) _ (
      FitsIfOk-then size (validate_dependencies graph) _ (
        FitsIfOk-then size _ _ (
          FitsIfOk-start size
            (count_incoming graph graph.dependencies (replicate (length graph.nodes) 0)) _
            (λ counts.
              seed_queue-Fits size 0 counts
                (record { counts = counts; queue = scratch.queue; queue_length = 0 })
                (record { sized = refl; within = omega arith }))))))
  where
    size : ℕ
    size = length scratch.queue

conclude-ne-none :
    (graph : TaskGraph) (o : Option (Result TaskGraphError ℕ)) → o ≢ none → conclude graph o ≢ none
conclude-ne-none graph none h = absurd (h refl)
conclude-ne-none graph (some (err e)) h = λ k. cc
conclude-ne-none graph (some (ok visited)) h = ground arith

-- `validate_graph` ends on every graph and every scratch: the fuel of the model is enough.
pub validate_graph_total :
    (graph : TaskGraph) (scratch : GraphValidationScratch) → validate_graph graph scratch ≢ none
unfolding validate_graph
validate_graph_total graph scratch = ended (prepare graph scratch) (prepare-Fits graph scratch)
  where
    ended :
        (r : Result TaskGraphError Traversal)
        → FitsIfOk (length scratch.queue) r
        → ◌≢◌ {A = Option (Result TaskGraphError (Unit {0}))}
            (elim r [
              | err e ↦ some (err e)
              | ok t ↦ conclude graph (traverse (suc (length scratch.queue)) graph 0 0 t)
            ])
            none
    ended (err e) v = λ k. cc
    ended (ok t) v = conclude-ne-none graph (traverse (suc (length scratch.queue)) graph 0 0 t) (
        traverse-ne-none graph (suc (length scratch.queue)) 0 0 (length scratch.queue) t v
          (omega arith) (omega arith))
