-- ===== src/Trader/Schema.antt =====
-- The enums of shared/src/marketmind_shared/schemas/trader.py, the part of `TraderSettings`
-- (workers/src/marketmind_workers/trader/config.py) that the components read, and the rows of the
-- trader's tables. UUIDs are numbers; the texts that are only stored or compared are strings.
use Prim.Native.String.{String}
use marketmind_open.Common.{ℕ, Option, Bool, List}
use marketmind_open.Clock.{Instant}
use marketmind_open.Decimal.{Decimal}

pub data SignalKind : Type 0 where
  buy sell exit hold : SignalKind

pub data OrderSide : Type 0 where
  buy sell : OrderSide

pub data OrderStatus : Type 0 where
  pending filled rejected : OrderStatus

pub data PositionStatus : Type 0 where
  opened closed : PositionStatus

pub data CloseReason : Type 0 where
  signal_exit stop_hit take_profit_hit manual : CloseReason

pub data Severity : Type 0 where
  info warning critical : Severity

pub data RiskEventType : Type 0 where
  block kill_switch daily_loss_breach weekly_loss_breach stale_data volatility_regime :
      RiskEventType
  strategy_disabled strategy_not_paper_approved drift_breach : RiskEventType

pub record TraderSettings : Type 0 where
  pub trader_starting_cash_gbp : Decimal
  pub trader_max_risk_per_trade_pct : Decimal
  pub trader_max_portfolio_risk_pct : Decimal
  pub trader_max_daily_loss_pct : Decimal
  pub trader_max_weekly_loss_pct : Decimal
  pub trader_max_drawdown_pct : Decimal
  pub trader_data_staleness_seconds : ℕ

-- trader_strategy_versions
pub record VersionRow : Type 0 where
  pub id : ℕ
  pub strategy_id : ℕ
  pub version : ℕ
  pub template : String
  pub parameters : String
  pub symbols : List String
  pub timeframes : List String
  pub risk_pct : Decimal
  pub fee_bps : Decimal
  pub slippage_bps : Decimal
  pub enabled : Bool
  pub approved_for_paper : Bool

-- trader_candles
pub record CandleRow : Type 0 where
  pub symbol : String
  pub timeframe : String
  pub open_ts : Instant
  pub close_ts : Instant
  pub open_price : Decimal
  pub high : Decimal
  pub low : Decimal
  pub close_price : Decimal
  pub volume : Decimal
  pub is_closed : Bool

-- trader_signals
pub record SignalRow : Type 0 where
  pub id : ℕ
  pub strategy_version_id : ℕ
  pub symbol : String
  pub timeframe : String
  pub candle_close_ts : Instant
  pub signal : SignalKind
  pub reason : String
  pub proposed_entry_price : Decimal
  pub proposed_stop_price : Decimal
  pub proposed_take_profit_price : Option Decimal
  pub created_at : Instant
  pub processed_at : Option Instant

-- trader_paper_orders
pub record OrderRow : Type 0 where
  pub id : ℕ
  pub signal_id : ℕ
  pub strategy_version_id : ℕ
  pub symbol : String
  pub side : OrderSide
  pub requested_size : Decimal
  pub requested_at : Instant
  pub status : OrderStatus
  pub rejection_reason : Option String
  pub intended_fill_ts : Instant

-- trader_paper_fills
pub record FillRow : Type 0 where
  pub id : ℕ
  pub order_id : ℕ
  pub fill_ts : Instant
  pub fill_price : Decimal
  pub size : Decimal
  pub fee : Decimal
  pub slippage_bps_applied : Decimal
  pub notional : Decimal

-- trader_paper_positions
pub record PositionRow : Type 0 where
  pub id : ℕ
  pub strategy_version_id : ℕ
  pub symbol : String
  pub entry_order_id : ℕ
  pub exit_order_id : Option ℕ
  pub entry_price : Decimal
  pub entry_ts : Instant
  pub exit_price : Option Decimal
  pub exit_ts : Option Instant
  pub size : Decimal
  pub stop_price : Decimal
  pub take_profit_price : Option Decimal
  pub status : PositionStatus
  pub realised_pnl : Option Decimal
  pub realised_pnl_pct : Option Decimal
  pub close_reason : Option CloseReason

-- One entry of a breakdown in a snapshot.
pub record BreakdownEntry : Type 0 where
  pub realised_pnl : Decimal
  pub unrealised_pnl : Decimal
  pub open_positions : ℕ

-- trader_portfolio_snapshots
pub record SnapshotRow : Type 0 where
  pub id : ℕ
  pub ts : Instant
  pub cash : Decimal
  pub equity : Decimal
  pub unrealised_pnl : Decimal
  pub realised_pnl_cumulative : Decimal
  pub peak_equity : Decimal
  pub drawdown : Decimal
  pub drawdown_pct : Decimal
  pub open_positions_count : ℕ
  pub per_strategy_breakdown : List (ℕ × BreakdownEntry)
  pub per_symbol_breakdown : List (String × BreakdownEntry)

-- A value in the details of a risk event; a decimal is stored as its text.
pub data Detail : Type 0 where
  text : String → Detail
  number : Decimal → Detail
  time : Instant → Detail
  seconds : ℕ → Detail
  kind : SignalKind → Detail

-- trader_risk_events
pub record RiskEventRow : Type 0 where
  pub id : ℕ
  pub event_type : RiskEventType
  pub severity : Severity
  pub strategy_version_id : Option ℕ
  pub symbol : Option String
  pub signal_id : Option ℕ
  pub details : List (String × Detail)
