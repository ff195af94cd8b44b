-- ===== src/Trader/Risk/State.antt =====
-- The queries of workers/src/marketmind_workers/trader/risk.py that gather the inputs of a risk
-- decision.
use Prim.Native.String.{String}
use text.Mathlib.Text.{◌==◌ as str_eq}
use marketmind_open.Common.{ℕ, ◌&&◌, Option, none, some, map, leb, ◌==◌, find, select}
use marketmind_open.Common.Int.{pos, abs, ◌-ℤ◌}
use marketmind_open.Clock.{Instant}
use marketmind_open.Decimal
use marketmind_open.Decimal.{Decimal, nought}
use marketmind_open.Trader.Schema.{TraderSettings, PositionRow, CandleRow, SnapshotRow, VersionRow}
use marketmind_open.Trader.Tables.{Db, is_open, is_open_for, latest, numeric_mul, numeric_sum}
use marketmind_open.Trader.Risk.Checks.{PortfolioState, WindowPnL, RiskInputs}

abbrev pub snapshot_ts : SnapshotRow → Instant
snapshot_ts s = s.ts

abbrev pub candle_close : CandleRow → Instant
candle_close c = c.close_ts

unfoldable pub compute_portfolio_state : TraderSettings → Db → PortfolioState
compute_portfolio_state settings db = elim (latest snapshot_ts db.snapshots) [
  | none ↦ record {
    cash = settings.trader_starting_cash_gbp;
    equity = settings.trader_starting_cash_gbp;
    peak_equity = settings.trader_starting_cash_gbp;
    drawdown_pct = nought;
    starting_equity = settings.trader_starting_cash_gbp;
  }
  | some s ↦ record {
    cash = s.cash;
    equity = s.equity;
    peak_equity = s.peak_equity;
    drawdown_pct = s.drawdown_pct;
    starting_equity = settings.trader_starting_cash_gbp;
  }
]

unfoldable pub anchor_equity_at : Instant → PortfolioState → Db → Decimal
anchor_equity_at anchor_ts portfolio db =
    elim (latest snapshot_ts (select (λ s. leb s.ts anchor_ts) db.snapshots)) [
      | none ↦ portfolio.starting_equity
      | some s ↦ s.equity
    ]

unfoldable pub compute_window_pnl : Instant → PortfolioState → Db → WindowPnL
unfolding anchor_equity_at
compute_window_pnl anchor_ts portfolio db =
    let anchor_equity = anchor_equity_at anchor_ts portfolio db in
    record { anchor_equity = anchor_equity; pnl = Decimal.sub portfolio.equity anchor_equity }

-- size * ABS(entry_price - stop_price)
abbrev pub position_risk : PositionRow → Decimal
position_risk p = numeric_mul p.size (pos (abs (p.entry_price -ℤ p.stop_price)))

unfoldable pub compute_total_open_risk : Db → Decimal
compute_total_open_risk db = numeric_sum (map position_risk (select is_open db.positions))

-- The latest close of a symbol, across timeframes.
unfoldable pub latest_close_of : String → Db → Option Decimal
latest_close_of symbol db =
    elim (latest candle_close (select (λ c. str_eq c.symbol symbol && c.is_closed) db.candles)) [
      | none ↦ none
      | some c ↦ some c.close_price
    ]

-- With no closed candle the sum is NULL, so zero.
unfoldable pub compute_symbol_existing_notional : String → Db → Decimal
unfolding latest_close_of
compute_symbol_existing_notional symbol db = elim (latest_close_of symbol db) [
  | none ↦ nought
  | some close ↦ numeric_sum (
      map (λ p. numeric_mul p.size close)
        (select (λ p. str_eq p.symbol symbol && is_open p) db.positions))
]

unfoldable pub latest_candle_close_ts : String → String → Db → Option Instant
latest_candle_close_ts symbol timeframe db =
    elim (latest candle_close (
      select (λ c. str_eq c.symbol symbol && str_eq c.timeframe timeframe && c.is_closed)
        db.candles)) [ none ↦ none | some c ↦ some c.close_ts ]

unfoldable pub load_version_for_risk : ℕ → Db → Option VersionRow
load_version_for_risk version_id db = find (λ v. v.id == version_id) db.versions

unfoldable pub open_position_size : ℕ → String → Db → Option Decimal
open_position_size version_id symbol db = elim (find (is_open_for version_id symbol) db.positions) [
  | none ↦ none
  | some p ↦ some p.size
]

-- The state that `process_pending_signals` gathers for one signal, the windows starting at the two
-- anchors.
unfoldable pub gather_inputs :
    TraderSettings → Instant → Instant → String → Instant → Db → RiskInputs
unfolding compute_portfolio_state compute_window_pnl compute_total_open_risk
    compute_symbol_existing_notional
gather_inputs settings midnight monday symbol latest_close db =
    let portfolio = compute_portfolio_state settings db in
    record {
      portfolio = portfolio;
      daily_pnl = compute_window_pnl midnight portfolio db;
      weekly_pnl = compute_window_pnl monday portfolio db;
      latest_candle_close_ts = latest_close;
      total_open_risk = compute_total_open_risk db;
      symbol_existing_notional = compute_symbol_existing_notional symbol db;
    }
