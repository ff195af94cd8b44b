-- ===== src/Ftr/Exact.antt =====
-- Decimals in place of floats, for the tests.
use marketmind_open.Common.{◌*◌, ◌/◌}
use marketmind_open.Common.Int.{pos, abs, ltb_ℤ, leb_ℤ, ◌+ℤ◌, ◌-ℤ◌}
use marketmind_open.Decimal.{Decimal, scale, literal, signed}
use marketmind_open.Ftr.Floats.{Floats}

abbrev exact_div : Decimal → Decimal → Decimal
exact_div a b = signed a b (abs a * scale / abs b)

abbrev pub exact : Floats Decimal
exact = record {
  float = λ d. d;
  constant = literal;
  int_div = λ a n. signed a (pos 0) (abs a * scale / n);
  fadd = λ a b. a +ℤ b;
  fdiv = exact_div;
  fneg = λ a. pos 0 -ℤ a;
  lt = ltb_ℤ;
  le = leb_ℤ;
  lt_int = λ a n. ltb_ℤ a (literal n 0);
}
