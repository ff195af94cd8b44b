-- ===== src/Decimal.antt =====
-- The standard library's `decimal.Decimal`, as shared/src/marketmind_shared/trader/money.py and the
-- trader use it. A finite decimal is the whole number of units of 10 ^ -60 that it holds, so equal
-- values with different exponents are one decimal. Arithmetic is exact and then rounded to 28
-- digits, half to even, as in the default context. NaN, infinities and the largest exponent are left
-- out, and a result below 10 ^ -33 keeps 60 decimals instead of 28 digits.
pub mod Round
pub mod Laws
use marketmind_open.Common.{ℕ, ◌*◌, ◌^◌, ◌-◌, ◌/◌, Bool, ltb, ◌==◌, if◌then◌else◌}
use marketmind_open.Common.Int.{ℤ, pos, negsuc, abs, neg_ℕ, ◌+ℤ◌, ◌-ℤ◌, ltb_ℤ, leb_ℤ}
use marketmind_open.Common.Result.{Result, ok, err, invalid_operation, division_by_zero}
use marketmind_open.Decimal.Round.{round_ratio, coefficient_limit}

abbrev pub Decimal : Type 0
Decimal = ℤ

-- The units of Decimal("1").
abbrev pub scale : ℕ
scale = 10 ^ 60

-- The literal n / 10 ^ k.
abbrev pub literal : ℕ → ℕ → Decimal
literal n k = pos (n * 10 ^ (60 - k))

abbrev pub nought : Decimal
nought = pos 0

-- p / d to 28 digits. There are fewer than p digits to drop.
unfoldable pub rounded : ℕ → ℕ → ℕ
rounded p d = round_ratio p p d

-- The sign of a product or a quotient of the two decimals, put on a magnitude.
abbrev pub signed : Decimal → Decimal → ℕ → Decimal
signed (pos _) (pos _) n = pos n
signed (pos _) (negsuc _) n = neg_ℕ n
signed (negsuc _) (pos _) n = neg_ℕ n
signed (negsuc _) (negsuc _) n = pos n

-- An exact value, rounded to the context.
unfoldable pub fix : ℤ → Decimal
fix a = signed a (pos 0) (rounded (abs a) 1)

unfoldable pub add : Decimal → Decimal → Decimal
unfolding fix ◌+ℤ◌
add a b = fix (a +ℤ b)

unfoldable pub sub : Decimal → Decimal → Decimal
unfolding fix ◌-ℤ◌
sub a b = fix (a -ℤ b)

-- Unary minus rounds too.
unfoldable pub neg : Decimal → Decimal
unfolding fix ◌-ℤ◌
neg a = fix (pos 0 -ℤ a)

unfoldable pub mul : Decimal → Decimal → Decimal
mul a b = signed a b (rounded (abs a * abs b) scale)

unfoldable pub div : Decimal → Decimal → Result Decimal
div a b =
    if abs b == 0
    then (if abs a == 0 then err invalid_operation else err division_by_zero)
    else ok (signed a b (rounded (abs a * scale) (abs b)))

-- The builtins `min` and `max` return the first of two equal operands, and do not round.
abbrev pub min : Decimal → Decimal → Decimal
min a b = if ltb_ℤ b a then b else a

abbrev pub max : Decimal → Decimal → Decimal
max a b = if ltb_ℤ a b then b else a

-- `value.quantize(quantum, rounding=...)`: a coefficient of more than 28 digits raises.
unfoldable pub quantize : (ℕ → ℕ → ℕ) → ℕ → Decimal → Result Decimal
quantize rounding quantum a =
    let c = rounding (abs a) quantum in
    if ltb c coefficient_limit then ok (signed a (pos 0) (c * quantum)) else err invalid_operation

-- ROUND_DOWN and ROUND_HALF_EVEN.
abbrev pub round_down : ℕ → ℕ → ℕ
round_down p d = p / d
