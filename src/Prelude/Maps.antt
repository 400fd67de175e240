-- ===== src/Prelude/Maps.antt =====
-- Rust's `BTreeMap` from numbers: a list of entries in ascending order of their keys.
use Prim.Native.Nat.{ℕ, ◌+◌, ◌<◌, ◌≤◌}
use mathlib.Core.List.{List, [], ◌∷◌}
use mathlib.Core.Option.{Option, none, some}
use mathlib.Core.Bool.{Bool, true, false}
use native.Mathlib.Omega.{arith}
use mathlib.Core.Path.{◌≡◌, refl, sym, subst, ◌∙◌}
use mathlib.Core.Logic.{inl, inr, ◌≢◌, ◌⊎◌}
use native.Mathlib.Decide.{ℕ_discrete}
use llm_app.Prelude.Lists.{length}
use llm_app.Prelude.Tests.{Bool-cases, ltb, ◌==◌, if◌then◌else◌}

module _ {ℓ} {V : Type ℓ} where
  abbrev pub get : List (ℕ × V) → ℕ → Option V
  get [] k = none
  get ((j, v) ∷ m) k = if k == j then some v else if ltb k j then none else get m k

  abbrev pub contains_key : List (ℕ × V) → ℕ → Bool
  contains_key m k = elim (get m k) [ none ↦ false | some v ↦ true ]

  -- Also writes through a `get_mut`, at a key that is there.
  abbrev pub insert : ℕ → V → List (ℕ × V) → List (ℕ × V)
  insert k v [] = (k, v) ∷ []
  insert k v ((j, w) ∷ m) =
      let rest = insert k v m in
      if k == j then (k, v) ∷ m else if ltb k j then (k, v) ∷ (j, w) ∷ m else (j, w) ∷ rest

  abbrev pub remove : ℕ → List (ℕ × V) → List (ℕ × V)
  remove k [] = []
  remove k ((j, w) ∷ m) =
      let rest = remove k m in if k == j then m else if ltb k j then (j, w) ∷ m else (j, w) ∷ rest

  abbrev pub first_key : List (ℕ × V) → Option ℕ
  first_key [] = none
  first_key ((j, w) ∷ m) = some j

  -- A quantity summed over the values.
  abbrev pub total : (V → ℕ) → List (ℕ × V) → ℕ
  total f [] = 0
  total f ((j, w) ∷ m) = f w + total f m

  pub total-insert :
      (f : V → ℕ) (m : List (ℕ × V)) (k : ℕ) (v w : V)
      → get m k ≡ some v
      → total f (insert k w m) + f v ≡ total f m + f w
  total-insert f [] k v w h = absurd (ground arith)
  total-insert f ((j, u) ∷ m) k v w h = ground (arith, total-insert f m k v w)

  pub total-insert_new :
      (f : V → ℕ) (m : List (ℕ × V)) (k : ℕ) (w : V)
      → get m k ≡ none
      → total f (insert k w m) ≡ total f m + f w
  total-insert_new f [] k w h = omega arith
  total-insert_new f ((j, u) ∷ m) k w h = ground (arith, total-insert_new f m k w)

  pub total-remove :
      (f : V → ℕ) (m : List (ℕ × V)) (k : ℕ) (v : V)
      → get m k ≡ some v
      → total f (remove k m) + f v ≡ total f m
  total-remove f [] k v h = absurd (ground arith)
  total-remove f ((j, u) ∷ m) k v h = ground (arith, total-remove f m k v)

  pub get-insert_self : (m : List (ℕ × V)) (k : ℕ) (v : V) → get (insert k v m) k ≡ some v
  get-insert_self [] k v = ground arith
  get-insert_self ((j, u) ∷ m) k v = ground (arith, get-insert_self m k v)

  -- Insertion and removal keep the keys in order.
  abbrev pub Above : ℕ → List (ℕ × V) → Type 0
  Above k [] = Unit
  Above k ((j, w) ∷ m) = (k < j) × Above k m

  abbrev pub IsAscending : List (ℕ × V) → Type 0
  IsAscending [] = Unit
  IsAscending ((j, w) ∷ m) = Above j m × IsAscending m

  Above-lower : (i j : ℕ) (m : List (ℕ × V)) → i < j → Above j m → Above i m
  Above-lower i j [] h a = tt
  Above-lower i j ((l, w) ∷ m) h a = (omega (arith, a.0), Above-lower i j m h a.1)

  Above-get : (k : ℕ) (m : List (ℕ × V)) → Above k m → get m k ≡ none
  Above-get k [] a = refl
  Above-get k ((j, w) ∷ m) a = ground (arith, a.0)

  Above-insert : (i k : ℕ) (v : V) (m : List (ℕ × V)) → i < k → Above i m → Above i (insert k v m)
  Above-insert i k v [] h a = (h, tt)
  Above-insert i k v ((j, w) ∷ m) h a = elim (Bool-cases (k == j)) [
    | inl e ↦ rw e (h, a.1)
    | inr e ↦ elim (Bool-cases (ltb k j)) [
      | inl f ↦ rw (e, f) (h, a)
      | inr f ↦ rw (e, f) (a.0, Above-insert i k v m h a.1)
    ]
  ]

  Above-remove : (i k : ℕ) (m : List (ℕ × V)) → Above i m → Above i (remove k m)
  Above-remove i k [] a = tt
  Above-remove i k ((j, w) ∷ m) a = elim (Bool-cases (k == j)) [
    | inl e ↦ rw e a.1
    | inr e ↦ elim (Bool-cases (ltb k j)) [
      | inl f ↦ rw (e, f) a
      | inr f ↦ rw (e, f) (a.0, Above-remove i k m a.1)
    ]
  ]

  pub insert-IsAscending :
      (k : ℕ) (v : V) (m : List (ℕ × V)) → IsAscending m → IsAscending (insert k v m)
  insert-IsAscending k v [] a = (tt, tt)
  insert-IsAscending k v ((j, w) ∷ m) a = elim (Bool-cases (k == j)) [
    | inl e ↦
        let same : k ≡ j = ground arith in rw e (subst (λ (i : ℕ). Above i m) (sym same) a.0, a.1)
    | inr e ↦ elim (Bool-cases (ltb k j)) [
      | inl f ↦ rw (e, f) ((ground arith, Above-lower k j m (ground arith) a.0), a)
      | inr f ↦ rw (e, f) (Above-insert j k v m (ground arith) a.0, insert-IsAscending k v m a.1)
    ]
  ]

  pub remove-IsAscending : (k : ℕ) (m : List (ℕ × V)) → IsAscending m → IsAscending (remove k m)
  remove-IsAscending k [] a = tt
  remove-IsAscending k ((j, w) ∷ m) a = elim (Bool-cases (k == j)) [
    | inl e ↦ rw e a.1
    | inr e ↦ elim (Bool-cases (ltb k j)) [
      | inl f ↦ rw (e, f) a
      | inr f ↦ rw (e, f) (Above-remove j k m a.0, remove-IsAscending k m a.1)
    ]
  ]

  pub get-remove_self : (k : ℕ) (m : List (ℕ × V)) → IsAscending m → get (remove k m) k ≡ none
  get-remove_self k [] a = refl
  get-remove_self k ((j, w) ∷ m) a = elim (Bool-cases (k == j)) [
    | inl e ↦
        let same : k ≡ j = ground arith in
        rw e (Above-get k m (subst (λ (i : ℕ). Above i m) (sym same) a.0))
    | inr e ↦ elim (Bool-cases (ltb k j)) [
      | inl f ↦ rw (e, f) (rw (e, f) refl)
      | inr f ↦ rw (e, f) (rw (e, f) (get-remove_self k m a.1))
    ]
  ]

  Above-get-none : (i k : ℕ) (m : List (ℕ × V)) → i < k → Above k m → get m i ≡ none
  Above-get-none i k m h a = Above-get i m (Above-lower i k m h a)

  pub get-insert_ne :
      (i k : ℕ) (v : V) (m : List (ℕ × V)) → IsAscending m → i ≢ k → get (insert k v m) i ≡ get m i
  get-insert_ne i k v [] a h = ground arith
  get-insert_ne i k v ((j, w) ∷ m) a h =
      ground (arith, get-insert_ne i k v m a.1 h, Above-get-none i j m)

  pub get-remove_ne :
      (i k : ℕ) (m : List (ℕ × V)) → IsAscending m → i ≢ k → get (remove k m) i ≡ get m i
  get-remove_ne i k [] a h = refl
  get-remove_ne i k ((j, w) ∷ m) a h =
      ground (arith, get-remove_ne i k m a.1 h, Above-get-none i j m, a.0)

  pub insert-insert :
      (k : ℕ) (v w : V) (m : List (ℕ × V)) → insert k w (insert k v m) ≡ insert k w m
  insert-insert k v w [] = ground arith
  insert-insert k v w ((j, u) ∷ m) = ground (arith, insert-insert k v w m)

  pub length-remove :
      (m : List (ℕ × V)) (k : ℕ) (v : V) → get m k ≡ some v → length (remove k m) + 1 ≡ length m
  length-remove [] k v h = absurd (ground arith)
  length-remove ((j, u) ∷ m) k v h = ground (arith, length-remove m k v)

  pub length-insert_new :
      (m : List (ℕ × V)) (k : ℕ) (v : V) → get m k ≡ none → length (insert k v m) ≡ length m + 1
  length-insert_new [] k v h = omega arith
  length-insert_new ((j, u) ∷ m) k v h = ground (arith, length-insert_new m k v)

  pub length-insert_self :
      (m : List (ℕ × V)) (k : ℕ) (v w : V) → get m k ≡ some v → length (insert k w m) ≡ length m
  length-insert_self [] k v w h = absurd (ground arith)
  length-insert_self ((j, u) ∷ m) k v w h = ground (arith, length-insert_self m k v w)

  pub remove-insert : (k : ℕ) (v : V) (m : List (ℕ × V)) → remove k (insert k v m) ≡ remove k m
  remove-insert k v [] = ground arith
  remove-insert k v ((j, u) ∷ m) = ground (arith, remove-insert k v m)

  pub get-remove-some :
      (m : List (ℕ × V)) (k j : ℕ) (v : V)
      → IsAscending m
      → get (remove k m) j ≡ some v
      → (j ≢ k) × (get m j ≡ some v)
  get-remove-some m k j v a h = elim (ℕ_discrete j k) [
    | yes e ↦
        let gone : get (remove k m) j ≡ none = rw e (get-remove_self k m a) in
        absurd (ground (arith, gone))
    | no n ↦ (n, sym (get-remove_ne j k m a n) ∙ h)
  ]

  pub get-insert-some :
      (m : List (ℕ × V)) (k j : ℕ) (w v : V)
      → IsAscending m
      → get (insert k w m) j ≡ some v
      → ((j ≡ k) × (w ≡ v)) ⊎ ((j ≢ k) × (get m j ≡ some v))
  get-insert-some m k j w v a h = elim (ℕ_discrete j k) [
    | yes e ↦
        let there : get (insert k w m) j ≡ some w = rw e (get-insert_self m k w) in inl (e, cc)
    | no n ↦ inr (n, sym (get-insert_ne j k w m a n) ∙ h)
  ]

  pub value_in_total :
      (f : V → ℕ) (m : List (ℕ × V)) (k : ℕ) (v : V) → get m k ≡ some v → f v ≤ total f m
  value_in_total f m k v h = omega (arith, total-remove f m k v h)

  -- A key that is not there is not there after another key's entry is replaced or removed.
  pub get-insert-none :
      (m : List (ℕ × V)) (k j : ℕ) (v w : V)
      → IsAscending m
      → get m k ≡ some v
      → get m j ≡ none
      → get (insert k w m) j ≡ none
  get-insert-none m k j v w a h g = elim (ℕ_discrete j k) [
    | yes e ↦ let here : get m j ≡ some v = rw e h in absurd (ground (arith, g, here))
    | no n ↦ get-insert_ne j k w m a n ∙ g
  ]

  pub get-remove-none :
      (m : List (ℕ × V)) (k j : ℕ) → IsAscending m → get m j ≡ none → get (remove k m) j ≡ none
  get-remove-none m k j a g = elim (ℕ_discrete j k) [
    | yes e ↦ rw e (get-remove_self k m a)
    | no n ↦ get-remove_ne j k m a n ∙ g
  ]
