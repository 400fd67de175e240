-- ===== src/TaskGraph/Table/Changes.antt =====
-- What `propagate_blocked` of crates/features/task-graph/src/lib.rs writes: how the entries of a table
-- differ before and after a pass, and before and after the whole loop.
use llm_app.Prelude.{
  ℕ, zero, suc, ◌+◌, ◌≡◌, refl, ◌∙◌, ◌⊎◌, inl, inr, some, List, [], ◌∷◌, get_elem?, set, Result, ok,
  err, arith,
}
use llm_app.TaskGraph.Types.{TaskNode, TaskGraph, TaskStatus, TaskRuntimeState, TaskGraphError}
use llm_app.TaskGraph.Table.{TaskStateTable, sweep}
use llm_app.TaskGraph.Table.Passes.{block, sweep_cases}

-- Exactly `k` entries of the first table are blocked in the second, all of them pending before and
-- with the attempts that they had; each other entry is as it was, and none is added or lost.
abbrev pub Blocks : ℕ → List TaskRuntimeState → List TaskRuntimeState → Type 0
Blocks k [] [] = k ≡ 0
Blocks k [] (b ∷ ys) = ⊥
Blocks k (a ∷ xs) [] = ⊥
Blocks k (a ∷ xs) (b ∷ ys) =
    ((b ≡ a) × Blocks k xs ys)
    ⊎ ((a.status ≡ TaskStatus.pending)
        × (b ≡ record { status = TaskStatus.blocked; attempts = a.attempts })
        × ((j : ℕ) × (k ≡ suc j) × Blocks j xs ys))

pub Blocks-refl : (xs : List TaskRuntimeState) → Blocks 0 xs xs
Blocks-refl [] = refl
Blocks-refl (a ∷ xs) = inl (refl, Blocks-refl xs)

pub Blocks-trans :
    (j k : ℕ) (xs ys zs : List TaskRuntimeState)
    → Blocks j xs ys
    → Blocks k ys zs
    → Blocks (j + k) xs zs
Blocks-trans j k [] [] [] h l = omega arith
Blocks-trans j k [] [] (c ∷ zs) h l = absurd l
Blocks-trans j k [] (b ∷ ys) zs h l = absurd h
Blocks-trans j k (a ∷ xs) [] zs h l = absurd h
Blocks-trans j k (a ∷ xs) (b ∷ ys) [] h l = absurd l
Blocks-trans j k (a ∷ xs) (b ∷ ys) (c ∷ zs) (inl (e, h)) (inl (f, l)) =
    inl (f ∙ e, Blocks-trans j k xs ys zs h l)
Blocks-trans j k (a ∷ xs) (b ∷ ys) (c ∷ zs) (inl (e, h)) (inr (p, f, (i, s, l))) =
    inr (ground arith, ground arith, (j + i, omega arith, Blocks-trans j i xs ys zs h l))
Blocks-trans j k (a ∷ xs) (b ∷ ys) (c ∷ zs) (inr (p, e, (i, s, h))) (inl (f, l)) =
    inr (p, f ∙ e, (i + k, omega arith, Blocks-trans i k xs ys zs h l))
Blocks-trans j k (a ∷ xs) (b ∷ ys) (c ∷ zs) (inr (p, e, (i, s, h))) (inr (q, f, r)) =
    absurd (ground arith)

Blocks-block :
    (ss : List TaskRuntimeState) (i : ℕ) (b : TaskRuntimeState)
    → get_elem? ss i ≡ some b
    → b.status ≡ TaskStatus.pending
    → Blocks 1 ss (set ss i (record b { status = TaskStatus.blocked }))
Blocks-block [] i b e h = cc
Blocks-block (s ∷ ss) zero b e h = inr (ground arith, ground arith, (0, refl, Blocks-refl ss))
Blocks-block (s ∷ ss) (suc i) b e h = inl (refl, Blocks-block ss i b e h)

-- A pass that started at the count `changed` blocks as many entries as it adds to it.
abbrev pub SweepBlocks : ℕ → TaskStateTable → Result TaskGraphError ℕ × TaskStateTable → Type 0
SweepBlocks changed t (ok c, u) = (j : ℕ) × (c ≡ changed + j) × Blocks j t.states u.states
SweepBlocks changed t (err e, u) = Unit

pub sweep-SweepBlocks :
    (graph : TaskGraph) (index : ℕ) (ns : List TaskNode) (t : TaskStateTable) (changed : ℕ)
    → SweepBlocks changed t (sweep graph index ns t changed)
unfolding sweep
sweep-SweepBlocks graph index [] t changed = (0, omega arith, Blocks-refl t.states)
sweep-SweepBlocks graph index (n ∷ ns) t changed =
    sweep_cases (SweepBlocks changed t) graph index n ns t changed (λ e. tt)
      (λ b f g. sweep-SweepBlocks graph (suc index) ns t changed)
      (λ b f g k.
        after_block (block t index b) (sweep graph (suc index) ns (block t index b) (changed + 1))
          (Blocks-block t.states index b f g)
          (sweep-SweepBlocks graph (suc index) ns (block t index b) (changed + 1)))
  where
    after_block :
        (v : TaskStateTable) (r : Result TaskGraphError ℕ × TaskStateTable)
        → Blocks 1 t.states v.states
        → SweepBlocks (changed + 1) v r
        → SweepBlocks changed t r
    after_block v (ok c, u) h (j, e, l) =
        (1 + j, omega arith, Blocks-trans 1 j t.states v.states u.states h l)
    after_block v (err error, u) h l = tt

pub SweepBlocks-ok :
    (t : TaskStateTable) (r : Result TaskGraphError ℕ × TaskStateTable) (c : ℕ)
    → r.0 ≡ ok c
    → SweepBlocks 0 t r
    → Blocks c t.states r.1.states
SweepBlocks-ok t (ok d, u) c e (j, f, h) = let same : j ≡ c = ground arith in rw same at h
SweepBlocks-ok t (err error, u) c e h = cc
