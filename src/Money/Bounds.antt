-- ===== src/Money/Bounds.antt =====
-- Quantised values stay near what they stand for, and slippage never helps the trader.
use marketmind_open.Common.{ℕ, ◌+◌, ◌-◌, ◌*◌, ◌/◌, ◌^◌, ◌≤◌, ◌<◌, ◌≡◌, ◌∙◌, ap, arith}
use marketmind_open.Common.Int.{pos, abs}
use marketmind_open.Common.Result.{ok, ◌>>=◌}
use marketmind_open.Decimal
use marketmind_open.Decimal.{Decimal, scale, rounded, signed}
use marketmind_open.Decimal.Round.{
  coefficient_limit, half_even, half_even-ge, half_even-le, half_even_error,
}
use marketmind_open.Decimal.Laws.{rounded-ge, rounded-le, add-pos, sub-pos, div-pos, mul-pos}
use marketmind_open.Money.{
  price_quant, size_quant, quantize_price, quantize_size, apply_slippage_buy, apply_slippage_sell,
}

-- A quantised size is the whole number of quanta next to the given size towards zero.
pub quantize_size_bounds :
    (v : Decimal) {q : Decimal}
    → quantize_size v ≡ ok q
    → (k : ℕ) × (q ≡ signed v (pos 0) (k * size_quant))
      × (k * size_quant ≤ abs v)
      × (abs v < k * size_quant + size_quant)
unfolding quantize_size
quantize_size_bounds v h = (abs v / size_quant, ground arith, omega arith, omega arith)

pub quantize_size_total :
    (n : ℕ)
    → n ≤ 10 ^ 27 * size_quant
    → quantize_size (pos n) ≡ ok (pos (n / size_quant * size_quant))
unfolding quantize_size
quantize_size_total n h = ground arith

-- A quantised price is a whole number of quanta, at most half a quantum from the given price.
pub quantize_price_nearest :
    (v : Decimal) {q : Decimal}
    → quantize_price v ≡ ok q
    → (k : ℕ) × (q ≡ signed v (pos 0) (k * price_quant))
      × (2 * (k * price_quant) ≤ 2 * abs v + price_quant)
      × (2 * abs v ≤ 2 * (k * price_quant) + price_quant)
unfolding quantize_price
quantize_price_nearest v h =
    let (above, below) = half_even_error (abs v) price_quant (omega arith) in
    (half_even (abs v) price_quant, ground arith, above, below)

-- slippage_bps / 10000 is at most 1.
abbrev fraction : ℕ → ℕ
fraction b = rounded (b * scale) (10000 * scale)

fraction_le : (b : ℕ) → b ≤ 10000 * scale → fraction b ≤ scale
fraction_le b h =
    omega
      (arith, rounded-le (b * scale) (10000 * scale) 1 60 (omega arith) (omega arith) (omega arith))

-- 1 + slippage_bps / 10000 is from 1 to 2.
factor_bounds :
    (b : ℕ)
    → b ≤ 10000 * scale
    → (scale ≤ rounded (scale + fraction b) 1) × (rounded (scale + fraction b) 1 ≤ 2 * scale)
factor_bounds b h = (
  omega (arith, rounded-ge (scale + fraction b) 1 1 60 (omega arith) (omega arith) (omega arith)),
  omega (
    arith,
    rounded-le (scale + fraction b) 1 2 60 (omega arith) (omega arith)
        (omega (arith, fraction_le b h)),
  ),
)

-- A price of k quanta times a factor from 1 to 2 stays from k to 2 * k quanta.
grown_bounds :
    (k f : ℕ)
    → k ≤ 10 ^ 27
    → scale ≤ f
    → f ≤ 2 * scale
    → (k * price_quant ≤ rounded (k * price_quant * f) scale)
      × (rounded (k * price_quant * f) scale ≤ 2 * k * price_quant)
grown_bounds k f h low high = (
  omega (
    arith,
    rounded-ge (k * price_quant * f) scale k 52 (omega arith) (omega arith) (grind arith),
  ),
  omega (
    arith,
    rounded-le (k * price_quant * f) scale (2 * k) 52 (omega arith) (omega arith) (grind arith),
  ),
)

quantize_price_between :
    (n lo hi : ℕ)
    → lo * price_quant ≤ n
    → n ≤ hi * price_quant
    → hi < coefficient_limit
    → (k : ℕ) × (quantize_price (pos n) ≡ ok (pos (k * price_quant))) × (lo ≤ k) × (k ≤ hi)
unfolding quantize_price
quantize_price_between n lo hi a b c =
    let low = half_even-ge n price_quant lo (omega arith) a in
    let high = half_even-le n price_quant hi (omega arith) b in
    (half_even n price_quant, ground arith, low, high)

apply_slippage_buy-pos :
    (a b : ℕ)
    → apply_slippage_buy (pos a) (pos b)
      ≡ quantize_price (pos (rounded (a * rounded (scale + fraction b) 1) scale))
unfolding apply_slippage_buy
apply_slippage_buy-pos a b =
    rw (div-pos b (10000 * scale) (omega arith), ◌>>=◌)
      (ap quantize_price (ap (Decimal.mul (pos a)) (add-pos scale (fraction b)) ∙ mul-pos a _))

-- For a price of k quanta, at most 10 ^ 27, and slippage from 0 to 10000 basis points: a purchase is
-- filled, at no less than the price and at no more than twice the price.
pub apply_slippage_buy_bounds :
    (k b : ℕ)
    → k ≤ 10 ^ 27
    → b ≤ 10000 * scale
    → (m : ℕ) × (apply_slippage_buy (pos (k * price_quant)) (pos b) ≡ ok (pos (m * price_quant)))
      × (k ≤ m)
      × (m ≤ 2 * k)
apply_slippage_buy_bounds k b hk hb =
    let (low, high) = factor_bounds b hb in
    let (above, below) = grown_bounds k (rounded (scale + fraction b) 1) hk low high in
    let (m, e, lo, hi) = quantize_price_between _ k (2 * k) above below (omega arith) in
    (m, apply_slippage_buy-pos _ b ∙ e, lo, hi)

-- 1 - slippage_bps / 10000 is at most 1.
cut_le : (b : ℕ) → rounded (scale - fraction b) 1 ≤ scale
cut_le b =
    omega (arith, rounded-le (scale - fraction b) 1 1 60 (omega arith) (omega arith) (omega arith))

shrunk_le :
    (k f : ℕ) → k ≤ 10 ^ 27 → f ≤ scale → rounded (k * price_quant * f) scale ≤ k * price_quant
shrunk_le k f h low =
    omega
      (arith, rounded-le (k * price_quant * f) scale k 52 (omega arith) (omega arith) (grind arith))

apply_slippage_sell-pos :
    (a b : ℕ)
    → b ≤ 10000 * scale
    → apply_slippage_sell (pos a) (pos b)
      ≡ quantize_price (pos (rounded (a * rounded (scale - fraction b) 1) scale))
unfolding apply_slippage_sell
apply_slippage_sell-pos a b h =
    rw (div-pos b (10000 * scale) (omega arith), ◌>>=◌)
      (ap quantize_price
        (ap (Decimal.mul (pos a)) (sub-pos scale (fraction b) (fraction_le b h)) ∙ mul-pos a _))

-- For a price of k quanta, at most 10 ^ 27, and slippage from 0 to 10000 basis points: a sale is
-- filled, at no more than the price and at no less than zero.
pub apply_slippage_sell_bounds :
    (k b : ℕ)
    → k ≤ 10 ^ 27
    → b ≤ 10000 * scale
    → (m : ℕ) × (apply_slippage_sell (pos (k * price_quant)) (pos b) ≡ ok (pos (m * price_quant)))
      × (m ≤ k)
apply_slippage_sell_bounds k b hk hb =
    let below = shrunk_le k (rounded (scale - fraction b) 1) hk (cut_le b) in
    let (m, e, _, hi) = quantize_price_between _ 0 k (omega arith) below (omega arith) in
    (m, apply_slippage_sell-pos _ b hb ∙ e, hi)
