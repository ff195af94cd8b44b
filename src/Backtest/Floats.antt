-- ===== src/Backtest/Floats.antt =====
-- Python's floats as the backtest calls them: their operations and tests, with no law of rounding.
use marketmind_open.Common.{ℕ, Bool, not, if◌then◌else◌}
use marketmind_open.Common.Result.{Result, ok, err, zero_division}

pub record Floats (F : Type 0) : Type 0 where
  -- The literal n / 10 ^ k.
  pub constant : ℕ → ℕ → F
  pub fadd : F → F → F
  pub fsub : F → F → F
  pub fmul : F → F → F
  pub fneg : F → F
  pub fabs : F → F
  -- `a / b` where b is not 0.0.
  pub fdiv : F → F → F
  -- `x < y`, `x <= y` and `x == y`; `y > x` and `y >= x` are the same tests as the first two.
  pub lt : F → F → Bool
  pub le : F → F → Bool
  pub eq : F → F → Bool
  -- Neither infinite nor a NaN.
  pub is_finite : F → Bool

module _ {F : Type 0} (fl : Floats F) where
  open fl use {constant, lt, eq, fdiv}

  abbrev pub nought : F
  nought = constant 0 0

  abbrev pub one : F
  one = constant 1 0

  -- `x != x`
  abbrev pub is_nan : F → Bool
  is_nan x = not (eq x x)

  -- `a / b` raises where b is 0.0.
  abbrev pub divide : F → F → Result F
  divide a b = if eq b nought then err zero_division else ok (fdiv a b)

  -- `max(a, b)` and `min(a, b)` return the first unless the second is beyond it.
  abbrev pub fmax : F → F → F
  fmax a b = if lt a b then b else a

  abbrev pub fmin : F → F → F
  fmin a b = if lt b a then b else a
