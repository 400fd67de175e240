-- ===== src/Prelude/Transactions.antt =====
-- Methods on `&mut self` that return a Rust `Result`: the state that an early return leaves behind is kept.
use mathlib.Core.Bool.{Bool, true, false}
use llm_app.Prelude.Results.{Result, ok, err}

abbrev pub Transaction : Type 0 → Type 0 → Type 0 → Type 0
Transaction S E A = S → Result E A × S

module _ {S E : Type 0} where
  infixl 5 ◌>>=◌ ◌>>◌
  abbrev pub continue : {A C : Type 0} → (A → Transaction S E C) → Result E A → S → Result E C × S
  continue next (err failure) s = (err failure, s)
  continue next (ok value) s = next value s

  abbrev pub ◌>>=◌ :
      {A C : Type 0} → Transaction S E A → (A → Transaction S E C) → Transaction S E C
  ◌>>=◌ m next s = continue next (m s).0 (m s).1

  abbrev pub ◌>>◌ : {A C : Type 0} → Transaction S E A → Transaction S E C → Transaction S E C
  ◌>>◌ m next = m >>= λ _. next

  abbrev pub succeed : {A : Type 0} → A → Transaction S E A
  succeed value s = (ok value, s)

  abbrev pub refuse : {A : Type 0} → E → Transaction S E A
  refuse failure s = (err failure, s)

  abbrev pub lift : {A : Type 0} → Result E A → Transaction S E A
  lift result s = (result, s)

  abbrev pub update : (S → S) → Transaction S E (Unit {0})
  update change s = (ok tt, change s)

  abbrev pub read : {A : Type 0} → (S → A) → Transaction S E A
  read view s = (ok (view s), s)

  -- `if !test { return Err(failure) }`.
  abbrev pub demand : Bool → E → Transaction S E (Unit {0})
  demand true failure s = (ok tt, s)
  demand false failure s = (err failure, s)
