-- ===== src/Ftr/Floats.antt =====
-- Python's floats as an interface: the operations that the research pipeline calls. How they round is
-- not used.
use marketmind_open.Common.{ℕ, Bool}
use marketmind_open.Common.Int.{ℤ}
use marketmind_open.Decimal.{Decimal}

pub record Floats (F : Type 0) : Type 0 where
  -- `float(d)` of a Decimal, and the literal n / 10 ^ k.
  pub float : Decimal → F
  pub constant : ℕ → ℕ → F
  -- `a / b` of two ints.
  pub int_div : ℤ → ℕ → F
  pub fadd : F → F → F
  pub fdiv : F → F → F
  pub fneg : F → F
  -- `x < y` and `x <= y`; `y > x` and `y >= x` are the same tests.
  pub lt : F → F → Bool
  pub le : F → F → Bool
  -- `x < n` for an int.
  pub lt_int : F → ℕ → Bool
