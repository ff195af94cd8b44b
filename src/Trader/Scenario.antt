-- ===== src/Trader/Scenario.antt =====
-- A small book for the tests of the trader: one version, one symbol, one hourly candle and a BUY
-- signal at its close.
use marketmind_open.Common.{◌+◌, ◌*◌, none, some, [], ◌∷◌, true}
use marketmind_open.Clock.{Instant, second, day}
use marketmind_open.Decimal.{literal}
use marketmind_open.Trader.Schema.{
  SignalKind, OrderSide, OrderStatus, PositionStatus, TraderSettings, VersionRow, CandleRow,
  SignalRow, OrderRow, FillRow, PositionRow,
}
use marketmind_open.Trader.Tables.{Db}

abbrev pub settings : TraderSettings
settings = record {
  trader_starting_cash_gbp = literal 10000 0;
  trader_max_risk_per_trade_pct = literal 1 2;
  trader_max_portfolio_risk_pct = literal 4 2;
  trader_max_daily_loss_pct = literal 3 2;
  trader_max_weekly_loss_pct = literal 7 2;
  trader_max_drawdown_pct = literal 15 2;
  trader_data_staleness_seconds = 7200;
}

abbrev pub ten_o_clock : Instant
ten_o_clock = 20000 * day + 36000 * second

abbrev pub eleven_o_clock : Instant
eleven_o_clock = 20000 * day + 39600 * second

abbrev pub noon : Instant
noon = 20000 * day + 43200 * second

abbrev pub version : VersionRow
version = record {
  id = 1;
  strategy_id = 1;
  version = 1;
  template = "breakout";
  parameters = "";
  symbols = "BTC/USDT" ∷ [];
  timeframes = "1h" ∷ [];
  risk_pct = literal 1 2;
  fee_bps = literal 10 0;
  slippage_bps = literal 5 0;
  enabled = true;
  approved_for_paper = true;
}

abbrev pub first_candle : CandleRow
first_candle = record {
  symbol = "BTC/USDT";
  timeframe = "1h";
  open_ts = ten_o_clock;
  close_ts = eleven_o_clock;
  open_price = literal 99 0;
  high = literal 101 0;
  low = literal 98 0;
  close_price = literal 100 0;
  volume = literal 10 0;
  is_closed = true;
}

-- The candle in which an order for the signal is filled; its low breaches the stop.
abbrev pub second_candle : CandleRow
second_candle = record first_candle {
  open_ts = eleven_o_clock;
  close_ts = noon;
  open_price = literal 101 0;
  high = literal 102 0;
  low = literal 94 0;
  close_price = literal 96 0;
}

abbrev pub buy_signal : SignalRow
buy_signal = record {
  id = 10;
  strategy_version_id = 1;
  symbol = "BTC/USDT";
  timeframe = "1h";
  candle_close_ts = eleven_o_clock;
  signal = SignalKind.buy;
  reason = "breakout";
  proposed_entry_price = literal 100 0;
  proposed_stop_price = literal 95 0;
  proposed_take_profit_price = none;
  created_at = eleven_o_clock + 2 * second;
  processed_at = none;
}

abbrev pub signalled : Db
signalled = record {
  versions = version ∷ [];
  candles = first_candle ∷ [];
  signals = buy_signal ∷ [];
  orders = [];
  fills = [];
  positions = [];
  snapshots = [];
  risk_events = [];
  next_id = 11;
  now = eleven_o_clock + 5 * second;
}

-- 1 % of 10000, over a stop distance of 5.
abbrev pub buy_order : OrderRow
buy_order = record {
  id = 11;
  signal_id = 10;
  strategy_version_id = 1;
  symbol = "BTC/USDT";
  side = OrderSide.buy;
  requested_size = literal 20 0;
  requested_at = signalled.now;
  status = OrderStatus.pending;
  rejection_reason = none;
  intended_fill_ts = eleven_o_clock;
}

abbrev pub ordered : Db
ordered = record signalled {
  signals = record buy_signal { processed_at = some signalled.now } ∷ [];
  orders = buy_order ∷ [];
  next_id = 12;
}

-- An hour later the second candle is there.
abbrev pub fillable : Db
fillable = record ordered { candles = first_candle ∷ second_candle ∷ []; now = noon + 5 * second }

abbrev pub entry_fill : FillRow
entry_fill = record {
  id = 12;
  order_id = 11;
  fill_ts = eleven_o_clock;
  fill_price = literal 1010505 4;
  size = literal 20 0;
  fee = literal 202101 5;
  slippage_bps_applied = literal 5 0;
  notional = literal 202101 2;
}

abbrev pub long_position : PositionRow
long_position = record {
  id = 13;
  strategy_version_id = 1;
  symbol = "BTC/USDT";
  entry_order_id = 11;
  exit_order_id = none;
  entry_price = literal 1010505 4;
  entry_ts = eleven_o_clock;
  exit_price = none;
  exit_ts = none;
  size = literal 20 0;
  stop_price = literal 95 0;
  take_profit_price = none;
  status = PositionStatus.opened;
  realised_pnl = none;
  realised_pnl_pct = none;
  close_reason = none;
}

abbrev pub held : Db
held = record fillable {
  orders = record buy_order { status = OrderStatus.filled } ∷ [];
  fills = entry_fill ∷ [];
  positions = long_position ∷ [];
  next_id = 14;
}
