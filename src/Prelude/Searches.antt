-- ===== src/Prelude/Searches.antt =====
-- The first entry of a Rust `BTreeMap` that passes a test (`iter().find_map(..)`).
use Prim.Native.Nat.{ℕ, ◌<◌}
use mathlib.Core.List.{List, [], ◌∷◌}
use mathlib.Core.Option.{Option, none, some}
use mathlib.Core.Bool.{Bool, true}
use native.Mathlib.Omega.{arith}
use mathlib.Core.Path.{◌≡◌, refl, sym, ◌∙◌}
use mathlib.Core.Logic.{inl, inr}
use llm_app.Prelude.Tests.{Bool-cases, ltb, ◌==◌, if◌then◌else◌}
use llm_app.Prelude.Maps.{get, Above, IsAscending}

module _ {ℓ} {V : Type ℓ} where
  -- The first key, in ascending order, whose value passes a test.
  pub find_key : (V → Bool) → List (ℕ × V) → Option ℕ
  find_key test [] = none
  find_key test ((j, w) ∷ m) = let rest = find_key test m in if test w then some j else rest

  pub Above-lt : (j k : ℕ) (v : V) (m : List (ℕ × V)) → Above j m → get m k ≡ some v → j < k
  Above-lt j k v [] a h = absurd (ground arith)
  Above-lt j k v ((i, w) ∷ m) a h = elim (Bool-cases (k == i)) [
    | inl e ↦ ground (arith, a.0)
    | inr e ↦ elim (Bool-cases (ltb k i)) [
      | inl f ↦ absurd (ground arith)
      | inr f ↦ Above-lt j k v m a.1 (sym (rw (e, f) refl) ∙ h)
    ]
  ]

  pub get-cons :
      (j k : ℕ) (w v : V) (m : List (ℕ × V))
      → j < k
      → get m k ≡ some v
      → get ((j, w) ∷ m) k ≡ some v
  get-cons j k w v m l h = ground (arith, h)

  -- What is found is there and passes the test.
  pub find_key-get :
      (test : V → Bool) (m : List (ℕ × V)) (k : ℕ)
      → IsAscending m
      → find_key test m ≡ some k
      → (v : V) × (get m k ≡ some v) × (test v ≡ true)
  unfolding find_key
  find_key-get test [] k a h = absurd (ground arith)
  find_key-get test ((j, w) ∷ m) k a h = elim (Bool-cases (test w)) [
    | inl t ↦ let same : j ≡ k = ground (arith, t) in (w, ground (arith, same), t)
    | inr t ↦
        let later : find_key test m ≡ some k = ground (arith, t, h) in
        let (v, there, passes) = find_key-get test m k a.1 later in
        (v, get-cons j k w v m (Above-lt j k v m a.0 there) there, passes)
  ]
