-- ===== src/Money/Tests.antt =====
-- Prices, sizes and fees at concrete inputs.
use marketmind_open.Common.{◌^◌, ◌≡◌, refl}
use marketmind_open.Common.Int.{◌+ℤ◌}
use marketmind_open.Common.Result.{ok, err, invalid_operation}
use marketmind_open.Decimal.{literal, fix, rounded, add, mul, div}
use marketmind_open.Decimal.Round.{half_even, round_ratio}
use marketmind_open.Money.{quantize_price, quantize_size, apply_slippage_buy, fee_for_fill}

-- 1 / 3 has 28 threes.
third : div (literal 1 0) (literal 3 0) ≡ ok (literal 3333333333333333333333333333 28)
unfolding div rounded round_ratio half_even
third = refl

fee : fee_for_fill (literal 1005 1) (literal 2 0) (literal 10 0) ≡ ok (literal 201 3)
unfolding fee_for_fill div mul rounded round_ratio half_even quantize_price
fee = refl

too_large : quantize_size (literal (10 ^ 20) 0) ≡ err invalid_operation
unfolding quantize_size
too_large = refl

buy_fill : apply_slippage_buy (literal 100 0) (literal 10 0) ≡ ok (literal 1001 1)
unfolding apply_slippage_buy div mul add ◌+ℤ◌ fix rounded round_ratio half_even quantize_price
buy_fill = refl

-- 1.0000000049 at eight decimals.
nearest : quantize_price (literal 10000000049 10) ≡ ok (literal 1 0)
unfolding quantize_price half_even
nearest = refl

cut : quantize_size (literal 10000000099 10) ≡ ok (literal 1 0)
unfolding quantize_size
cut = refl
