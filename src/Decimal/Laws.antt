-- ===== src/Decimal/Laws.antt =====
-- What decimal arithmetic gives on magnitudes, and the bounds that rounding to 28 digits keeps.
use marketmind_open.Common.{ℕ, ◌+◌, ◌-◌, ◌*◌, ◌^◌, ◌≤◌, ◌<◌, ◌≡◌, ap, arith}
use marketmind_open.Common.Int.{pos, ◌+ℤ◌, ◌-ℤ◌}
use marketmind_open.Common.Result.{ok}
use marketmind_open.Decimal.{rounded, scale, fix, add, sub, mul, div}
use marketmind_open.Decimal.Round.{
  coefficient_limit, shifted, round_ratio-ge, round_ratio-le, round_ratio_error,
}

pub rounded-ge :
    (p d c e : ℕ) → 0 < d → c ≤ coefficient_limit → shifted c e * d ≤ p → shifted c e ≤ rounded p d
unfolding rounded
rounded-ge p d c e = round_ratio-ge p p d c e

pub rounded-le :
    (p d c e : ℕ) → 0 < d → c ≤ coefficient_limit → p ≤ shifted c e * d → rounded p d ≤ shifted c e
unfolding rounded
rounded-le p d c e = round_ratio-le p p d c e

-- From 28 digits on, the error is at most one part in 2 * 10 ^ 27.
pub rounded_error :
    (p d : ℕ)
    → 0 < d
    → d * 10 ^ 27 ≤ p
    → (2 * 10 ^ 27 * (rounded p d * d) ≤ (2 * 10 ^ 27 + 1) * p)
      × (2 * 10 ^ 27 * p ≤ 2 * 10 ^ 27 * (rounded p d * d) + p)
unfolding rounded
rounded_error p d = round_ratio_error p p d

+ℤ-pos : (a b : ℕ) → pos a +ℤ pos b ≡ pos (a + b)
unfolding ◌+ℤ◌
+ℤ-pos a b = ground arith

-ℤ-pos : (a b : ℕ) → b ≤ a → pos a -ℤ pos b ≡ pos (a - b)
unfolding ◌-ℤ◌
-ℤ-pos a b h = ground arith

pub add-pos : (a b : ℕ) → add (pos a) (pos b) ≡ pos (rounded (a + b) 1)
unfolding add
add-pos a b = ap fix (+ℤ-pos a b)

pub sub-pos : (a b : ℕ) → b ≤ a → sub (pos a) (pos b) ≡ pos (rounded (a - b) 1)
unfolding sub
sub-pos a b h = ap fix (-ℤ-pos a b h)

pub div-pos : (a b : ℕ) → 0 < b → div (pos a) (pos b) ≡ ok (pos (rounded (a * scale) b))
unfolding div
div-pos a b h = ground arith

pub mul-pos : (a b : ℕ) → mul (pos a) (pos b) ≡ pos (rounded (a * b) scale)
unfolding mul
mul-pos a b = ground arith
