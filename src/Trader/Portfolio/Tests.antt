-- ===== src/Trader/Portfolio/Tests.antt =====
-- Snapshots of the scenario's book.
use Prim.Native.String.{String}
use text.Mathlib.Text.{◌==◌ as str_eq}
use marketmind_open.Clock.{second}
use marketmind_open.Common.{
  ◌+◌, ◌*◌, arith, ℕ, ◌*◌, ◌^◌, ◌==◌, ◌≡◌, refl, none, some, [], ◌∷◌, select,
}
use marketmind_open.Common.Int.{pos, neg_ℕ, ◌+ℤ◌, ◌-ℤ◌}
use marketmind_open.Common.Result.{ok}
use marketmind_open.Decimal.{literal, rounded, fix, add, sub, mul, div, neg}
use marketmind_open.Decimal.Round.{round_ratio, half_even}
use marketmind_open.Money.{apply_slippage_buy, apply_slippage_sell, fee_for_fill, quantize_price}
use marketmind_open.Trader.Schema.{OrderSide, SignalKind, BreakdownEntry, OrderRow, SnapshotRow}
use marketmind_open.Trader.Tables.{Db, insert_fill, insert_position}
use marketmind_open.Trader.Scenario.{settings, buy_order, long_position, fillable, held}
use marketmind_open.Trader.Risk.State.{compute_portfolio_state, latest_close_of}
use marketmind_open.Trader.Execution.Fills.{
  OrderWithMeta, FillCalculation, compute_fill, entry_fee_of, realised_pnl, realised_pnl_pct,
  execute_buy_fill, execute_exit_fill,
}
use marketmind_open.Trader.Portfolio.{
  net_cash_from_fills, load_open_positions, load_closed_positions, latest_close_per_symbol,
  previous_peak_equity, drawdown_pct_of, equity_of, total_from, aggregate_breakdowns, change_entry,
  add_open, add_closed, compute_and_persist_snapshot, fetch_latest_snapshot,
}
use marketmind_open.Trader.Portfolio.Peak.{
  TracksPeak, compute_and_persist_snapshot_peak, compute_and_persist_snapshot_read,
}
use marketmind_open.Trader.Portfolio.Breakdown.{entry_of, totals_of, aggregate_breakdowns_entries}
use marketmind_open.Trader.Portfolio.Cash.{execute_buy_fill_cash}

abbrev held_entry : BreakdownEntry
held_entry = record {
  realised_pnl = literal 0 0;
  unrealised_pnl = neg_ℕ (10101 * 10 ^ 58);
  open_positions = 1;
}

-- 20 units bought at 101.0505 with a fee of 2.02101, worth 96 each.
abbrev held_snapshot : SnapshotRow
held_snapshot = record {
  id = 14;
  ts = held.now;
  cash = literal 797696899 5;
  equity = literal 989696899 5;
  unrealised_pnl = neg_ℕ (10101 * 10 ^ 58);
  realised_pnl_cumulative = literal 0 0;
  peak_equity = literal 10000 0;
  drawdown = literal 10303101 5;
  drawdown_pct = literal 10303101 9;
  open_positions_count = 1;
  per_strategy_breakdown = (1, held_entry) ∷ [];
  per_symbol_breakdown = ("BTC/USDT", held_entry) ∷ [];
}

abbrev persisted : Db
persisted = record held { snapshots = held_snapshot ∷ []; next_id = 15 }

snapshot : compute_and_persist_snapshot settings held ≡ ok (held_snapshot, persisted)
unfolding compute_and_persist_snapshot equity_of load_open_positions load_closed_positions
    latest_close_per_symbol latest_close_of net_cash_from_fills total_from previous_peak_equity
    drawdown_pct_of aggregate_breakdowns change_entry add_open add_closed div mul add sub neg fix
    ◌+ℤ◌ ◌-ℤ◌ rounded round_ratio half_even
snapshot = refl

compute_and_persist_snapshot_peak_example :
    TracksPeak (previous_peak_equity settings.trader_starting_cash_gbp held) held_snapshot
compute_and_persist_snapshot_peak_example = compute_and_persist_snapshot_peak settings held snapshot

-- A minute later.
abbrev later : Db
later = record persisted { now = persisted.now + 60 * second }

abbrev second_snapshot : SnapshotRow
second_snapshot = record held_snapshot { id = 15; ts = later.now }

abbrev persisted_again : Db
persisted_again = record later { snapshots = held_snapshot ∷ second_snapshot ∷ []; next_id = 16 }

again : compute_and_persist_snapshot settings later ≡ ok (second_snapshot, persisted_again)
unfolding compute_and_persist_snapshot equity_of load_open_positions load_closed_positions
    latest_close_per_symbol latest_close_of net_cash_from_fills total_from previous_peak_equity
    drawdown_pct_of aggregate_breakdowns change_entry add_open add_closed div mul add sub neg fix
    ◌+ℤ◌ ◌-ℤ◌ rounded round_ratio half_even
again = refl

compute_and_persist_snapshot_read_example :
    (fetch_latest_snapshot persisted_again ≡ some second_snapshot)
    × (previous_peak_equity settings.trader_starting_cash_gbp persisted_again
        ≡ second_snapshot.peak_equity)
    × (compute_portfolio_state settings persisted_again ≡ record {
      cash = second_snapshot.cash;
      equity = second_snapshot.equity;
      peak_equity = second_snapshot.peak_equity;
      drawdown_pct = second_snapshot.drawdown_pct;
      starting_equity = settings.trader_starting_cash_gbp;
    })
compute_and_persist_snapshot_read_example =
    compute_and_persist_snapshot_read settings later again (omega arith, tt)

aggregate_breakdowns_entries_example :
    ((version : ℕ)
      → entry_of ◌==◌ version (aggregate_breakdowns (long_position ∷ []) [] []).0
        ≡ totals_of []
            (select (λ p. version == p.strategy_version_id) (long_position ∷ []))
            (select (λ p. version == p.strategy_version_id) []))
    × ((symbol : String)
        → entry_of str_eq symbol (aggregate_breakdowns (long_position ∷ []) [] []).1
          ≡ totals_of []
              (select (λ p. str_eq symbol p.symbol) (long_position ∷ []))
              (select (λ p. str_eq symbol p.symbol) []))
aggregate_breakdowns_entries_example = aggregate_breakdowns_entries [] (long_position ∷ []) []

abbrev buy_with_meta : OrderWithMeta
buy_with_meta = record {
  order = buy_order;
  timeframe = "1h";
  signal_kind = SignalKind.buy;
  proposed_stop_price = literal 95 0;
  proposed_take_profit_price = none;
  fee_bps = literal 10 0;
  slippage_bps = literal 5 0;
}

bought : execute_buy_fill buy_with_meta (literal 101 0) fillable ≡ ok held
unfolding execute_buy_fill compute_fill insert_fill insert_position apply_slippage_buy fee_for_fill
    quantize_price div mul add sub neg fix ◌+ℤ◌ ◌-ℤ◌ rounded round_ratio half_even
bought = refl

execute_buy_fill_cash_example :
    (fill : FillCalculation) × (compute_fill OrderSide.buy
        (literal 101 0)
        (literal 20 0)
        (literal 5 0)
        (literal 10 0)
      ≡ ok fill)
    × (net_cash_from_fills held
        ≡ net_cash_from_fills fillable +ℤ (pos 0 -ℤ (fill.notional +ℤ fill.fee)))
execute_buy_fill_cash_example =
    execute_buy_fill_cash buy_with_meta (literal 101 0) fillable buy_order bought refl refl

-- An exit of the position, ordered for the next candle.
abbrev sell_order : OrderRow
sell_order = record buy_order { id = 20; signal_id = 19; side = OrderSide.sell }

abbrev exitable : Db
exitable = record held { orders = sell_order ∷ held.orders; next_id = 21 }

abbrev sell_with_meta : OrderWithMeta
sell_with_meta = record buy_with_meta { order = sell_order; signal_kind = SignalKind.exit }

sold : (db : Db) × (execute_exit_fill sell_with_meta long_position (literal 110 0) exitable ≡ ok db)
unfolding execute_exit_fill compute_fill insert_fill entry_fee_of realised_pnl realised_pnl_pct
    apply_slippage_sell fee_for_fill quantize_price div mul add sub neg fix ◌+ℤ◌ ◌-ℤ◌ rounded
    round_ratio half_even
sold = (_, refl)
