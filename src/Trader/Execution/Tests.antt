-- ===== src/Trader/Execution/Tests.antt =====
-- The executor on the scenario's book.
use mathlib.Core.List.Memᴰ.{head}
use marketmind_open.Common.{
  Memᴰ, sym, subst, List, [], ◌+◌, ◌≤◌, ◌≡◌, refl, none, some, ◌∷◌, length, arith,
}
use marketmind_open.Common.Int.{◌+ℤ◌, ◌-ℤ◌}
use marketmind_open.Common.Result.{ok, err, unique_violation}
use marketmind_open.Decimal.{literal, rounded, fix, add, sub, mul, div, neg}
use marketmind_open.Decimal.Round.{round_ratio, half_even}
use marketmind_open.Money.{apply_slippage_buy, apply_slippage_sell, fee_for_fill, quantize_price}
use marketmind_open.Trader.Schema.{SignalKind}
use marketmind_open.Trader.Tables.{Db, insert_signal, insert_order, insert_fill, insert_position}
use marketmind_open.Trader.Scenario.{
  second_candle, long_position, buy_signal, buy_order, fillable, held, noon,
}
use marketmind_open.Trader.Execution.Fills.{
  OrderWithMeta, PositionWithMeta, compute_fill, find_first_stop_breach, entry_fee_of, realised_pnl,
  realised_pnl_pct, execute_stop_close, candle_open_at, execute_buy_fill,
}
use marketmind_open.Trader.Execution.Cycle.{
  ExecutionResult, load_open_positions_with_meta, load_pending_orders_with_meta, join_order,
  join_position, scan_stop, scan_stops, fill_order, process_order, process_orders, nothing_done,
  fill_pending, process_one_cycle,
}
use marketmind_open.Trader.Execution.Accounts.{process_one_cycle_accounts}
use marketmind_open.Trader.Execution.Advances.{IsSingle}
use marketmind_open.Trader.Execution.Conflict.{IsFree, process_one_cycle-IsFree}

abbrev one_filled : ExecutionResult
one_filled = record nothing_done {
  pending_orders_loaded = 1;
  pending_orders_filled = 1;
  positions_opened = 1;
}

bought : process_one_cycle fillable ≡ ok (one_filled, held)
unfolding process_one_cycle scan_stops fill_pending process_orders process_order fill_order
    load_open_positions_with_meta load_pending_orders_with_meta join_order candle_open_at
    execute_buy_fill compute_fill insert_fill insert_position apply_slippage_buy fee_for_fill
    quantize_price div mul add sub neg fix ◌+ℤ◌ ◌-ℤ◌ rounded round_ratio half_even
bought = refl

fillable-IsSingle : IsSingle fillable
fillable-IsSingle version symbol = omega arith

process_one_cycle_accounts_example :
    IsSingle held
    × (length held.fills ≡ length fillable.fills + 0 + 1)
    × (1 + 0 + 0 ≡ 1)
    × (1 ≡ 1 + 0)
    × (0 ≤ 0)
process_one_cycle_accounts_example = process_one_cycle_accounts fillable bought fillable-IsSingle

abbrev buy_with_meta : OrderWithMeta
buy_with_meta = record {
  order = buy_order;
  timeframe = "1h";
  signal_kind = SignalKind.buy;
  proposed_stop_price = literal 95 0;
  proposed_take_profit_price = none;
  fee_bps = literal 10 0;
  slippage_bps = literal 5 0;
}

filled_buy : execute_buy_fill buy_with_meta (literal 101 0) fillable ≡ ok held
unfolding execute_buy_fill compute_fill insert_fill insert_position apply_slippage_buy fee_for_fill
    quantize_price div mul add sub neg fix ◌+ℤ◌ ◌-ℤ◌ rounded round_ratio half_even
filled_buy = refl

-- The second candle's low is below the stop.
stopped :
    (r : ExecutionResult) × (db : Db) × (process_one_cycle held ≡ ok (r, db))
    × (r.positions_closed_by_stop ≡ 1)
unfolding process_one_cycle scan_stops scan_stop fill_pending process_orders
    load_open_positions_with_meta load_pending_orders_with_meta join_position find_first_stop_breach
    execute_stop_close compute_fill insert_signal insert_order entry_fee_of realised_pnl
    realised_pnl_pct insert_fill apply_slippage_sell fee_for_fill quantize_price div mul add sub neg
    fix ◌+ℤ◌ ◌-ℤ◌ rounded round_ratio half_even
stopped = (_, _, refl, refl)

abbrev long_with_meta : PositionWithMeta
long_with_meta = record {
  position = long_position;
  timeframe = "1h";
  fee_bps = literal 10 0;
  slippage_bps = literal 5 0;
}

held_loads : load_open_positions_with_meta held ≡ long_with_meta ∷ []
unfolding load_open_positions_with_meta join_position
held_loads = refl

breached : find_first_stop_breach long_with_meta held ≡ some second_candle
unfolding find_first_stop_breach
breached = refl

process_one_cycle-IsFree_example : IsFree long_with_meta noon held
process_one_cycle-IsFree_example =
    process_one_cycle-IsFree held stopped.2
      (subst (λ (xs : List PositionWithMeta). Memᴰ long_with_meta xs) (sym held_loads) (head refl))
      breached

-- With a processed EXIT signal for the second candle, the stop cannot close.
abbrev exit_signalled : Db
exit_signalled = record held {
  signals =
      record buy_signal {
        id = 14;
        signal = SignalKind.exit;
        candle_close_ts = noon;
        processed_at = some noon;
      }
      ∷ held.signals;
  next_id = 15;
}

not_stopped : process_one_cycle exit_signalled ≡ err unique_violation
unfolding process_one_cycle scan_stops scan_stop fill_pending process_orders
    load_open_positions_with_meta load_pending_orders_with_meta join_position find_first_stop_breach
    execute_stop_close compute_fill insert_signal insert_order entry_fee_of realised_pnl
    realised_pnl_pct insert_fill apply_slippage_sell fee_for_fill quantize_price div mul add sub neg
    fix ◌+ℤ◌ ◌-ℤ◌ rounded round_ratio half_even
not_stopped = refl
