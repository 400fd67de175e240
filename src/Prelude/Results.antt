-- ===== src/Prelude/Results.antt =====
-- Rust's `Result`, with `?` as a bind. A method on `&mut self` returns its result beside the new state.
use mathlib.Core.Logic.{◌⊎◌, inl, inr}
use mathlib.Core.Bool.{Bool, true, false}
use mathlib.Core.Path.{◌≡◌, refl}
use mathlib.Core.Option.{Option, none, some}

pub data Result {ℓ κ} (E : Type ℓ) (T : Type κ) : Type (ℓ ⊔ κ) where
  err : E → Result E T
  ok : T → Result E T

-- `Option::ok_or`.
abbrev pub ok_or {ℓ κ} : {E : Type ℓ} {T : Type κ} → Option T → E → Result E T
ok_or (some value) failure = ok value
ok_or none failure = err failure

-- `if !test { return Err(failure) }`.
abbrev pub ensure {ℓ} : {E : Type ℓ} → Bool → E → Result E (Unit {0})
ensure false failure = err failure
ensure true failure = ok tt

module _ {ℓ κ μ} {E : Type ℓ} {T : Type κ} {U : Type μ} where
  infixl 5 ◌>>=◌ ◌>>◌
  abbrev pub ◌>>=◌ : Result E T → (T → Result E U) → Result E U
  err failure >>= next = err failure
  ok value >>= next = next value

  abbrev pub ◌>>◌ : Result E T → Result E U → Result E U
  err failure >> next = err failure
  ok value >> next = next

pub Result-cases {ℓ κ} :
    {E : Type ℓ} {T : Type κ} (r : Result E T)
    → ((failure : E) × (r ≡ err failure)) ⊎ ((value : T) × (r ≡ ok value))
Result-cases (err failure) = inl (failure, refl)
Result-cases (ok value) = inr (value, refl)
