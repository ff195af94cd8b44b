-- ===== src/Trader/Execution/Fills.antt =====
-- The fill arithmetic and the writes of workers/src/marketmind_workers/trader/execution.py: a stop
-- close, a purchase, an exit and a rejection.
use Prim.Native.String.{String}
use text.Mathlib.Text.{◌==◌ as str_eq}
use marketmind_open.Common.{ℕ, ◌&&◌, Bool, Option, none, some, leb, ◌==◌, find, select}
use marketmind_open.Common.Int.{leb_ℤ}
use marketmind_open.Common.Result.{Result, ok, ◌>>=◌}
use marketmind_open.Clock.{Instant}
use marketmind_open.Decimal
use marketmind_open.Decimal.{Decimal, nought}
use marketmind_open.Money.{apply_slippage_buy, apply_slippage_sell, fee_for_fill, quantize_price}
use marketmind_open.Trader.Schema.{
  SignalKind, OrderSide, OrderStatus, PositionStatus, CloseReason, SignalRow, OrderRow, FillRow,
  PositionRow, CandleRow,
}
use marketmind_open.Trader.Tables.{
  Db, insert_signal, insert_order, insert_fill, insert_position, update_order, update_position,
  earliest,
}

pub record FillCalculation : Type 0 where
  pub fill_price : Decimal
  pub fee : Decimal
  pub notional : Decimal
  pub slippage_bps_applied : Decimal

abbrev pub slipped : OrderSide → Decimal → Decimal → Result Decimal
slipped OrderSide.buy price bps = apply_slippage_buy price bps
slipped OrderSide.sell price bps = apply_slippage_sell price bps

unfoldable pub compute_fill :
    OrderSide → Decimal → Decimal → Decimal → Decimal → Result FillCalculation
compute_fill side reference_price size slippage_bps fee_bps = do
  fill_price ← slipped side reference_price slippage_bps
  fee ← fee_for_fill fill_price size fee_bps
  notional ← quantize_price (Decimal.mul fill_price size)
  ok (record {
    fill_price = fill_price;
    fee = fee;
    notional = notional;
    slippage_bps_applied = slippage_bps;
  })

-- A position with its version's costs and the timeframe of its entry signal. The other columns of
-- the join are those of the position.
pub record PositionWithMeta : Type 0 where
  pub position : PositionRow
  pub timeframe : String
  pub fee_bps : Decimal
  pub slippage_bps : Decimal

pub record OrderWithMeta : Type 0 where
  pub order : OrderRow
  pub timeframe : String
  pub signal_kind : SignalKind
  pub proposed_stop_price : Decimal
  pub proposed_take_profit_price : Option Decimal
  pub fee_bps : Decimal
  pub slippage_bps : Decimal

-- The closed candles of the position's symbol and timeframe, from its entry on, that touch the stop.
abbrev pub breaches : PositionWithMeta → CandleRow → Bool
breaches pos c =
    str_eq c.symbol pos.position.symbol
    && str_eq c.timeframe pos.timeframe
    && c.is_closed
    && leb pos.position.entry_ts c.open_ts
    && leb_ℤ c.low pos.position.stop_price

abbrev pub candle_open_ts : CandleRow → Instant
candle_open_ts c = c.open_ts

unfoldable pub find_first_stop_breach : PositionWithMeta → Db → Option CandleRow
find_first_stop_breach pos db = earliest candle_open_ts (select (breaches pos) db.candles)

-- The fee of the entry fill, or zero where the fill is missing.
unfoldable pub entry_fee_of : ℕ → Db → Decimal
entry_fee_of entry_order_id db = elim (find (λ f. f.order_id == entry_order_id) db.fills) [
  | none ↦ nought
  | some f ↦ f.fee
]

-- (exit_price - entry_price) * size - entry_fee - exit_fee
unfoldable pub realised_pnl : PositionRow → FillCalculation → Decimal → Decimal
realised_pnl p fill entry_fee =
    Decimal.sub
      (Decimal.sub (Decimal.mul (Decimal.sub fill.fill_price p.entry_price) p.size) entry_fee)
      fill.fee

unfoldable pub realised_pnl_pct : PositionRow → Decimal → Result Decimal
realised_pnl_pct p pnl = Decimal.div pnl (Decimal.mul p.entry_price p.size)

abbrev pub fill_row : ℕ → ℕ → Instant → Decimal → FillCalculation → FillRow
fill_row id order_id ts size fill = record {
  id = id;
  order_id = order_id;
  fill_ts = ts;
  fill_price = fill.fill_price;
  size = size;
  fee = fill.fee;
  slippage_bps_applied = fill.slippage_bps_applied;
  notional = fill.notional;
}

-- The UPDATE that closes a position.
abbrev pub closed_by :
    ℕ → FillCalculation → Instant → Decimal → Decimal → CloseReason → PositionRow → PositionRow
closed_by order_id fill ts pnl pnl_pct reason p = record p {
  status = PositionStatus.closed;
  exit_order_id = some order_id;
  exit_price = some fill.fill_price;
  exit_ts = some ts;
  realised_pnl = some pnl;
  realised_pnl_pct = some pnl_pct;
  close_reason = some reason;
}

-- The audit trail of a stop close: a processed EXIT signal and a filled SELL order.
abbrev pub stop_signal : PositionWithMeta → Instant → Db → SignalRow
stop_signal pos breach_close_ts db = record {
  id = db.next_id;
  strategy_version_id = pos.position.strategy_version_id;
  symbol = pos.position.symbol;
  timeframe = pos.timeframe;
  candle_close_ts = breach_close_ts;
  signal = SignalKind.exit;
  reason = "stop_hit";
  proposed_entry_price = pos.position.stop_price;
  proposed_stop_price = pos.position.stop_price;
  proposed_take_profit_price = none;
  created_at = db.now;
  processed_at = some db.now;
}

abbrev pub stop_order : PositionWithMeta → Instant → ℕ → Db → OrderRow
stop_order pos breach_open_ts signal_id db = record {
  id = db.next_id;
  signal_id = signal_id;
  strategy_version_id = pos.position.strategy_version_id;
  symbol = pos.position.symbol;
  side = OrderSide.sell;
  requested_size = pos.position.size;
  requested_at = db.now;
  status = OrderStatus.filled;
  rejection_reason = none;
  intended_fill_ts = breach_open_ts;
}

unfoldable pub execute_stop_close : PositionWithMeta → Instant → Instant → Db → Result Db
execute_stop_close pos breach_open_ts breach_close_ts db = do
  let p = pos.position
  fill ← compute_fill OrderSide.sell p.stop_price p.size pos.slippage_bps pos.fee_bps
  let pnl = realised_pnl p fill (entry_fee_of p.entry_order_id db)
  pnl_pct ← realised_pnl_pct p pnl
  db₁ ← insert_signal (stop_signal pos breach_close_ts db) db
  db₂ ← insert_order (stop_order pos breach_open_ts db.next_id db₁) db₁
  db₃ ← insert_fill (fill_row db₂.next_id db₁.next_id breach_open_ts p.size fill) db₂
  ok (
      update_position p.id
        (closed_by db₁.next_id fill breach_open_ts pnl pnl_pct CloseReason.stop_hit) db₃)

-- The open of the candle that starts exactly at the instant.
unfoldable pub candle_open_at : String → String → Instant → Db → Option Decimal
candle_open_at symbol timeframe open_ts db =
    elim (find
      (λ c.
        str_eq c.symbol symbol
        && str_eq c.timeframe timeframe
        && c.open_ts == open_ts
        && c.is_closed)
      db.candles) [ none ↦ none | some c ↦ some c.open_price ]

abbrev pub filled : OrderRow → OrderRow
filled o = record o { status = OrderStatus.filled }

abbrev pub opened_by : ℕ → OrderWithMeta → FillCalculation → PositionRow
opened_by id o fill = record {
  id = id;
  strategy_version_id = o.order.strategy_version_id;
  symbol = o.order.symbol;
  entry_order_id = o.order.id;
  exit_order_id = none;
  entry_price = fill.fill_price;
  entry_ts = o.order.intended_fill_ts;
  exit_price = none;
  exit_ts = none;
  size = o.order.requested_size;
  stop_price = o.proposed_stop_price;
  take_profit_price = o.proposed_take_profit_price;
  status = PositionStatus.opened;
  realised_pnl = none;
  realised_pnl_pct = none;
  close_reason = none;
}

unfoldable pub execute_buy_fill : OrderWithMeta → Decimal → Db → Result Db
execute_buy_fill o candle_open db = do
  let size = o.order.requested_size
  fill ← compute_fill OrderSide.buy candle_open size o.slippage_bps o.fee_bps
  db₁ ← insert_fill (fill_row db.next_id o.order.id o.order.intended_fill_ts size fill) db
  let db₂ = update_order o.order.id filled db₁
  insert_position (opened_by db₂.next_id o fill) db₂

unfoldable pub execute_exit_fill : OrderWithMeta → PositionRow → Decimal → Db → Result Db
execute_exit_fill o p candle_open db = do
  fill ← compute_fill OrderSide.sell candle_open p.size o.slippage_bps o.fee_bps
  let pnl = realised_pnl p fill (entry_fee_of p.entry_order_id db)
  pnl_pct ← realised_pnl_pct p pnl
  db₁ ← insert_fill (fill_row db.next_id o.order.id o.order.intended_fill_ts p.size fill) db
  let db₂ = update_order o.order.id filled db₁
  ok (
      update_position p.id
        (closed_by o.order.id fill o.order.intended_fill_ts pnl pnl_pct CloseReason.signal_exit)
        db₂)

unfoldable pub reject_order : ℕ → String → Db → Db
reject_order order_id reason db =
    update_order order_id
      (λ o. record o { status = OrderStatus.rejected; rejection_reason = some reason }) db
