-- ===== src/Backtest/Exact.antt =====
-- Decimals in place of floats, for the tests.
use marketmind_open.Common.{◌≡◌, ◌*◌, ◌/◌, ◌&&◌, true, arith}
use marketmind_open.Common.Int.{ℤ, pos, abs, ltb_ℤ, leb_ℤ, ◌+ℤ◌, ◌-ℤ◌}
use marketmind_open.Decimal.{Decimal, scale, literal, signed}
use marketmind_open.Backtest.Floats.{Floats}

abbrev pub exact : Floats Decimal
exact = record {
  constant = literal;
  fadd = λ a b. a +ℤ b;
  fsub = λ a b. a -ℤ b;
  fmul = λ a b. signed a b (abs a * abs b / scale);
  fneg = λ a. pos 0 -ℤ a;
  fabs = λ a. pos (abs a);
  fdiv = λ a b. signed a b (abs a * scale / abs b);
  lt = ltb_ℤ;
  le = leb_ℤ;
  eq = λ a b. leb_ℤ a b && leb_ℤ b a;
  is_finite = λ a. true;
}

pub ltb_ℤ_trans : (x y z : ℤ) → ltb_ℤ x y ≡ true → ltb_ℤ y z ≡ true → ltb_ℤ x z ≡ true
ltb_ℤ_trans x y z h k = ground arith
