-- ===== src/Money.antt =====
-- shared/src/marketmind_shared/trader/money.py: prices, sizes and fees.
pub mod Bounds
mod Tests
use marketmind_open.Common.{ℕ, ◌*◌, ◌^◌}
use marketmind_open.Common.Int.{pos}
use marketmind_open.Common.Result.{Result, ok, err, ◌>>=◌}
use marketmind_open.Decimal
use marketmind_open.Decimal.{Decimal, literal, round_down}
use marketmind_open.Decimal.Round.{half_even}

-- `_PRICE_QUANT` and `_SIZE_QUANT`: 0.00000001, in units.
abbrev pub price_quant : ℕ
price_quant = 10 ^ 52

abbrev pub size_quant : ℕ
size_quant = 10 ^ 52

unfoldable pub quantize_price : Decimal → Result Decimal
unfolding Decimal.quantize
quantize_price value = Decimal.quantize half_even price_quant value

unfoldable pub quantize_size : Decimal → Result Decimal
unfolding Decimal.quantize
quantize_size value = Decimal.quantize round_down size_quant value

unfoldable pub apply_slippage_buy : Decimal → Decimal → Result Decimal
apply_slippage_buy open_price slippage_bps = do
  fraction ← Decimal.div slippage_bps (literal 10000 0)
  quantize_price (Decimal.mul open_price (Decimal.add (literal 1 0) fraction))

unfoldable pub apply_slippage_sell : Decimal → Decimal → Result Decimal
apply_slippage_sell open_price slippage_bps = do
  fraction ← Decimal.div slippage_bps (literal 10000 0)
  quantize_price (Decimal.mul open_price (Decimal.sub (literal 1 0) fraction))

unfoldable pub fee_for_fill : Decimal → Decimal → Decimal → Result Decimal
fee_for_fill fill_price size fee_bps = do
  let notional = Decimal.mul fill_price size
  fee ← Decimal.div (Decimal.mul notional fee_bps) (literal 10000 0)
  quantize_price fee
