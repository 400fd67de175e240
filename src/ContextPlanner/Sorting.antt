-- ===== src/ContextPlanner/Sorting.antt =====
-- The sorts of crates/features/context-planner/src/lib.rs: they rearrange, and they leave no index in
-- front of one that the comparison puts before it.
use llm_app.Prelude.{
  ℕ, ◌+◌, ◌≡◌, refl, ◌≢◌, ◌⊎◌, inl, inr, none, some, List, [], ◌∷◌, ◌++◌, get_elem?, arith, ◌<◌,
  ◌≤◌, All,
}
use Prim.Native.Nat.{Ordering}
use mathlib.Core.List.{Perm}
use mathlib.Core.List.Perm
use llm_app.ContextPlanner.{ContextEntry, ordinal_order, candidate_order, insert_by, sort_by}

insert_by-perm :
    (order : ℕ → ℕ → Ordering) (x : ℕ) (xs : List ℕ) → Perm (insert_by order x xs) (x ∷ xs)
unfolding insert_by
insert_by-perm order x [] = Perm.refl (x ∷ [])
insert_by-perm order x (y ∷ ys) = elim (Ordering-cases (order x y)) [
  | inl gt ↦
      rw (gt, insert_by) (Perm.trans (Perm.cons y (insert_by-perm order x ys)) (Perm.swap x y ys))
  | inr (inl lt) ↦ rw (lt, insert_by) (Perm.refl (x ∷ y ∷ ys))
  | inr (inr eq) ↦ rw (eq, insert_by) (Perm.refl (x ∷ y ∷ ys))
]
  where
    Ordering-cases : (o : Ordering) → (o ≡ Ordering.gt) ⊎ ((o ≡ Ordering.lt) ⊎ (o ≡ Ordering.eq))
    Ordering-cases Ordering.gt = inl refl
    Ordering-cases Ordering.lt = inr (inl refl)
    Ordering-cases Ordering.eq = inr (inr refl)

pub sort_by-perm : (order : ℕ → ℕ → Ordering) (xs : List ℕ) → Perm (sort_by order xs) xs
unfolding sort_by
sort_by-perm order [] = Perm.refl []
sort_by-perm order (x ∷ xs) =
    Perm.trans (insert_by-perm order x (sort_by order xs)) (Perm.cons x (sort_by-perm order xs))

-- Each index but the last is not after its neighbour.
abbrev pub IsSorted : (ℕ → ℕ → Ordering) → List ℕ → Type 0
IsSorted order [] = Unit
IsSorted order (x ∷ []) = Unit
IsSorted order (x ∷ y ∷ ys) = (order x y ≢ Ordering.gt) × IsSorted order (y ∷ ys)

module _ (order : ℕ → ℕ → Ordering)
    (turns : (x y : ℕ) → order x y ≡ Ordering.gt → order y x ≢ Ordering.gt) where
  insert_by-IsSorted :
      (x : ℕ) (xs : List ℕ) → IsSorted order xs → IsSorted order (insert_by order x xs)
  unfolding insert_by
  insert_by-IsSorted x [] h = tt
  insert_by-IsSorted x (y ∷ []) h = ground (arith, turns x y)
  insert_by-IsSorted x (y ∷ z ∷ zs) h =
      ground (arith, turns x y, turns x z, insert_by-IsSorted x (z ∷ zs) h.1)

  pub sort_by-IsSorted : (xs : List ℕ) → IsSorted order (sort_by order xs)
  unfolding sort_by
  sort_by-IsSorted [] = tt
  sort_by-IsSorted (x ∷ xs) = insert_by-IsSorted x (sort_by order xs) (sort_by-IsSorted xs)

pub ordinal_order-turns :
    (entries : List ContextEntry) (x y : ℕ)
    → ordinal_order entries x y ≡ Ordering.gt
    → ordinal_order entries y x ≢ Ordering.gt
unfolding ordinal_order
ordinal_order-turns entries x y h = ground arith

pub candidate_order-turns :
    (entries : List ContextEntry) (x y : ℕ)
    → candidate_order entries x y ≡ Ordering.gt
    → candidate_order entries y x ≢ Ordering.gt
unfolding candidate_order
candidate_order-turns entries x y h = ground arith

-- The order that a plan promises: a smaller ordinal first, and of equal ordinals a smaller identity.
abbrev pub Precedes : ContextEntry → ContextEntry → Type 0
Precedes l r = (l.ordinal < r.ordinal) ⊎ ((l.ordinal ≡ r.ordinal) × (l.id ≤ r.id))

-- Of any two indices on the list that lead to entries, the earlier one's entry precedes.
abbrev pub InOrder : List ContextEntry → List ℕ → Type 0
InOrder entries [] = Unit
InOrder entries (x ∷ xs) =
    All
      (λ y.
        (l r : ContextEntry)
        → get_elem? entries x ≡ some l
        → get_elem? entries y ≡ some r
        → Precedes l r)
      xs
    × InOrder entries xs

ordinal_order-Precedes :
    (entries : List ContextEntry) (x y : ℕ) (l r : ContextEntry)
    → ordinal_order entries x y ≢ Ordering.gt
    → get_elem? entries x ≡ some l
    → get_elem? entries y ≡ some r
    → Precedes l r
unfolding ordinal_order
ordinal_order-Precedes entries x y l r h e f = ground arith

ordinal_order_trans :
    (entries : List ContextEntry) (x y z : ℕ)
    → ordinal_order entries x y ≢ Ordering.gt
    → ordinal_order entries y z ≢ Ordering.gt
    → ordinal_order entries x z ≢ Ordering.gt
unfolding ordinal_order
ordinal_order_trans entries x y z h k = ground arith

-- In a sorted list the first index leads to an entry that precedes those of all others.
InOrder-head :
    (entries : List ContextEntry) (x : ℕ) (xs : List ℕ)
    → IsSorted (ordinal_order entries) (x ∷ xs)
    → All
        (λ y.
          (l r : ContextEntry)
          → get_elem? entries x ≡ some l
          → get_elem? entries y ≡ some r
          → Precedes l r)
        xs
InOrder-head entries x [] h = tt
InOrder-head entries x (y ∷ []) h = (λ l r. ordinal_order-Precedes entries x y l r h.0, tt)
InOrder-head entries x (y ∷ z ∷ zs) h = (
  λ l r. ordinal_order-Precedes entries x y l r h.0,
  InOrder-head entries x (z ∷ zs) (ordinal_order_trans entries x y z h.0 h.1.0, h.1.1),
)

pub IsSorted-InOrder :
    (entries : List ContextEntry) (xs : List ℕ)
    → IsSorted (ordinal_order entries) xs
    → InOrder entries xs
IsSorted-InOrder entries [] h = tt
IsSorted-InOrder entries (x ∷ []) h = (tt, tt)
IsSorted-InOrder entries (x ∷ y ∷ ys) h =
    (InOrder-head entries x (y ∷ ys) h, IsSorted-InOrder entries (y ∷ ys) h.1)

-- The estimated tokens of the entries that a list of indices leads to.
unfoldable pub tokens_at : List ContextEntry → ℕ → ℕ
tokens_at entries index = elim (get_elem? entries index) [
  | none ↦ 0
  | some entry ↦ entry.estimated_tokens
]

unfoldable pub tokens_of : List ContextEntry → List ℕ → ℕ
tokens_of entries [] = 0
tokens_of entries (index ∷ rest) = tokens_at entries index + tokens_of entries rest

pub tokens_of-append :
    (entries : List ContextEntry) (xs ys : List ℕ)
    → tokens_of entries (xs ++ ys) ≡ tokens_of entries xs + tokens_of entries ys
unfolding tokens_of
tokens_of-append entries [] ys = omega arith
tokens_of-append entries (x ∷ xs) ys = omega (arith, tokens_of-append entries xs ys)

tokens_of-insert_by :
    (entries : List ContextEntry) (order : ℕ → ℕ → Ordering) (x : ℕ) (xs : List ℕ)
    → tokens_of entries (insert_by order x xs) ≡ tokens_at entries x + tokens_of entries xs
unfolding tokens_of insert_by
tokens_of-insert_by entries order x [] = omega arith
tokens_of-insert_by entries order x (y ∷ ys) =
    ground (arith, tokens_of-insert_by entries order x ys)

pub tokens_of-sort_by :
    (entries : List ContextEntry) (order : ℕ → ℕ → Ordering) (xs : List ℕ)
    → tokens_of entries (sort_by order xs) ≡ tokens_of entries xs
unfolding tokens_of sort_by
tokens_of-sort_by entries order [] = refl
tokens_of-sort_by entries order (x ∷ xs) = omega (
  arith,
  tokens_of-insert_by entries order x (sort_by order xs),
  tokens_of-sort_by entries order xs,
)
