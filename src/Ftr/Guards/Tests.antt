-- ===== src/Ftr/Guards/Tests.antt =====
-- Guards over floats that are exact decimals.
use marketmind_open.Common.{◌+◌, ◌*◌, ◌≡◌, refl, true, false, some, List, [], ◌∷◌, All}
use marketmind_open.Common.Int.{◌+ℤ◌, ◌-ℤ◌}
use marketmind_open.Common.Result.{ok}
use marketmind_open.Clock.{Instant, second, day}
use marketmind_open.Decimal
use marketmind_open.Decimal.{Decimal, scale, literal, rounded, fix, signed}
use marketmind_open.Decimal.Round.{round_ratio, half_even}
use marketmind_open.Ftr.Exact.{exact}
use marketmind_open.Ftr.Guards.{
  FtrSettings, GuardState, GuardDecision, EntryRequest, initial, allow, block, ReasonCode,
  drawdown_trips, daily_loss_trips, position_pct, exceeds_position, exceeds_gross, in_cooldown,
  check_limits, check_day, check_drawdown, check_entry,
}
use marketmind_open.Ftr.Guards.Conditions.{IsPermitted}
use marketmind_open.Ftr.Guards.Allowed.{check_entry_allows}
use marketmind_open.Ftr.Guards.Stops.{
  Call, rolled, marked, requested, calls, IsBlocked, drawdown_kill_lasts,
}

abbrev settings : FtrSettings Decimal
settings = record {
  max_position_pct = literal 20 2;
  max_gross_exposure_pct = literal 1 0;
  daily_loss_stop_pct = literal 2 2;
  max_drawdown_stop_pct = literal 10 2;
  max_trades_per_day_global = 8;
  per_symbol_cooldown_hours = 4;
}

abbrev morning : Instant
morning = 20000 * day + 36000 * second

-- 1500 of 10000, with nothing held.
abbrev entry : EntryRequest Decimal
entry = record {
  strategy_id = "trend";
  symbol = "BTC/USDT";
  now = morning;
  equity = literal 10000 0;
  target_notional = literal 1500 0;
  gross_exposure_pct = literal 0 0;
}

abbrev rolled_in : GuardState
rolled_in = record initial {
  current_day = some 20000;
  day_start_equity = literal 10000 0;
  peak_equity = literal 10000 0;
}

allowed_first : check_entry exact settings false false entry rolled_in ≡ ok (allow, rolled_in)
unfolding check_entry check_drawdown check_day check_limits drawdown_trips daily_loss_trips
    position_pct exceeds_position exceeds_gross in_cooldown Decimal.div Decimal.sub fix rounded
    round_ratio half_even ◌+ℤ◌ ◌-ℤ◌
allowed_first = refl

check_entry_allows_example :
    IsPermitted exact settings false false entry rolled_in × (rolled_in ≡ rolled_in)
check_entry_allows_example =
    (check_entry_allows exact settings false false entry rolled_in rolled_in).0 allowed_first

-- At 8900 of a peak of 10000 both stops would trip; the kill comes first.
abbrev fallen : EntryRequest Decimal
fallen = record entry { equity = literal 8900 0 }

kill_comes_first :
    check_entry exact settings false false fallen rolled_in
    ≡ ok (block ReasonCode.skip_guardrail, record rolled_in { drawdown_killed = true })
unfolding check_entry check_drawdown check_day check_limits drawdown_trips daily_loss_trips
    position_pct exceeds_position exceeds_gross in_cooldown Decimal.div Decimal.sub fix rounded
    round_ratio half_even ◌+ℤ◌ ◌-ℤ◌
kill_comes_first = refl

abbrev requests : List (Call Decimal)
requests =
    marked (literal 12000 0)
    ∷ rolled (morning + 3600 * second) (literal 12000 0)
    ∷ requested false false entry
    ∷ []

drawdown_kill_lasts_example :
    (ds : List GuardDecision) × (st' : GuardState) × (calls exact settings requests
        (record rolled_in { drawdown_killed = true })
      ≡ ok (ds, st'))
    × All IsBlocked ds
    × (st'.drawdown_killed ≡ true)
drawdown_kill_lasts_example =
    drawdown_kill_lasts exact settings requests (record rolled_in { drawdown_killed = true }) refl
