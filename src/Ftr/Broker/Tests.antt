-- ===== src/Ftr/Broker/Tests.antt =====
-- The broker on the profile `kraken_pro_uk_tier0`.
use marketmind_open.Common.{◌≡◌, refl, true, [], ◌∷◌}
use marketmind_open.Common.Int.{◌+ℤ◌, ◌-ℤ◌, ltb_ℤ}
use marketmind_open.Common.Result.{ok}
use marketmind_open.Decimal
use marketmind_open.Decimal.{literal, nought, fix, rounded}
use marketmind_open.Decimal.Round.{round_ratio, half_even}
use marketmind_open.Ftr.Broker.{
  VenueProfile, PaperBroker, worsen, fee, book_buy, affordable_qty, buy_qty, execute_buy,
}
use marketmind_open.Ftr.Broker.Replay.{buys, execute, execute_all, IsLedger, execute_all-IsLedger}

abbrev kraken : VenueProfile
kraken = record {
  name = "kraken_pro_uk_tier0";
  half_spread_bps = λ symbol. literal 2 0;
  slippage_bps = literal 3 0;
  taker_fee_bps = literal 40 0;
}

abbrev opened : PaperBroker
opened = record { profile = kraken; cash = literal 10000 0; positions = []; fills = [] }

-- 2000 at 50025 are 0.03998 in steps of 0.00001.
abbrev bought : PaperBroker
bought =
    book_buy opened "BTC/USDT" 0 (literal 50000 0) (literal 50025 0) (literal 3998 5)
      (literal 7999998 6)

buys_part :
    execute_all (buys "BTC/USDT" 0 (literal 50000 0) (literal 2000 0) ∷ []) opened ≡ ok bought
unfolding execute_all execute execute_buy affordable_qty buy_qty book_buy worsen fee Decimal.div
    Decimal.mul Decimal.add Decimal.sub fix rounded round_ratio half_even ◌+ℤ◌ ◌-ℤ◌
buys_part = refl

execute_all-IsLedger_example : IsLedger (literal 10000 0) bought
execute_all-IsLedger_example =
    execute_all-IsLedger (literal 10000 0)
      (buys "BTC/USDT" 0 (literal 50000 0) (literal 2000 0) ∷ []) opened bought
      (record { settled = refl; one_per_symbol = tt; held = tt }) buys_part

-- A buy for more than the cash leaves cash below zero: one step less does not make up for the fee.
overdraws :
    (b : PaperBroker) × (execute_buy opened "BTC/USDT" 0 (literal 50000 0) (literal 100000 0)
      ≡ ok (true, b))
    × (ltb_ℤ b.cash nought ≡ true)
unfolding execute_buy affordable_qty buy_qty book_buy worsen fee Decimal.div Decimal.mul Decimal.add
    Decimal.sub fix rounded round_ratio half_even ◌+ℤ◌ ◌-ℤ◌
overdraws = (_, refl, refl)
