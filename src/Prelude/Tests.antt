-- ===== src/Prelude/Tests.antt =====
-- Boolean tests on the native numbers, the conditional, machine bounds and saturating arithmetic.
use Prim.Native.Nat.{ℕ, ◌+◌, ◌≤◌, ◌<◌, compare, Ordering}
use mathlib.Core.Path.{◌≡◌, refl}
use mathlib.Core.Logic.{◌↔◌, ◌⊎◌, ◌≢◌, inl, inr}
use mathlib.Core.Bool.{Bool, true, false}
use mathlib.Core.Option.{Option, none, some}
use native.Mathlib.Omega.{arith}

abbrev pub ltb : ℕ → ℕ → Bool
ltb a b = elim (compare a b) [ Ordering.lt ↦ true | _ ↦ false ]

abbrev pub leb : ℕ → ℕ → Bool
leb a b = elim (compare a b) [ Ordering.gt ↦ false | _ ↦ true ]

infix 50 ◌==◌
abbrev pub ◌==◌ : ℕ → ℕ → Bool
a == b = elim (compare a b) [ Ordering.eq ↦ true | _ ↦ false ]

infix 1 if◌then◌else◌
abbrev pub if◌then◌else◌ {ℓ} : {A : Type ℓ} → Bool → A → A → A
if true then x else y = x
if false then x else y = y

pub ltb→lt : (a b : ℕ) → ltb a b ≡ true → a < b
ltb→lt a b h = ground arith

pub lt→ltb : (a b : ℕ) → a < b → ltb a b ≡ true
lt→ltb a b h = ground arith

pub leb→le : (a b : ℕ) → leb a b ≡ true → a ≤ b
leb→le a b h = ground arith

pub ==_iff : (a b : ℕ) → ((a == b) ≡ true) ↔ (a ≡ b)
==_iff a b = ground arith

pub ==-refl : (a : ℕ) → (a == a) ≡ true
==-refl a = ground arith

pub ==-ne : (a b : ℕ) → a ≢ b → (a == b) ≡ false
==-ne a b h = ground arith

-- To split on a computed value and keep the equation.
pub Bool-cases : (b : Bool) → (b ≡ true) ⊎ (b ≡ false)
Bool-cases true = inl refl
Bool-cases false = inr refl

pub Option-cases {ℓ} : {A : Type ℓ} (o : Option A) → (o ≡ none) ⊎ ((a : A) × (o ≡ some a))
Option-cases none = inl refl
Option-cases (some a) = inr (a, refl)

-- The largest values of the machine integers. `usize` has 64 bits on the supported targets.
abbrev pub u8_max : ℕ
u8_max = 255

abbrev pub u16_max : ℕ
u16_max = 65_535

abbrev pub u32_max : ℕ
u32_max = 4_294_967_295

abbrev pub u64_max : ℕ
u64_max = 18_446_744_073_709_551_615

-- `checked_add` and `saturating_add` of an integer type with the given largest value.
abbrev pub checked_add : ℕ → ℕ → ℕ → Option ℕ
checked_add bound a b = if leb (a + b) bound then some (a + b) else none

abbrev pub saturating_add : ℕ → ℕ → ℕ → ℕ
saturating_add bound a b = if leb (a + b) bound then a + b else bound
