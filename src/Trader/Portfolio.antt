-- ===== src/Trader/Portfolio.antt =====
-- workers/src/marketmind_workers/trader/portfolio.py: cash from the fills, the open positions marked
-- to market, the peak and the drawdown, the two breakdowns, and the queries of the API. The
-- heartbeat that a run id asks for is not modelled.
pub mod Peak
pub mod Breakdown
pub mod Cash
pub mod Curve
mod Tests
use Prim.Native.String.{String}
use text.Mathlib.Text.{◌==◌ as str_eq}
use marketmind_open.Common.{
  ℕ, suc, ◌+◌, Bool, true, ◌&&◌, not, Option, none, some, List, [], ◌∷◌, ◌++◌, map, length, leb,
  ◌==◌, if◌then◌else◌, find, select,
}
use marketmind_open.Common.Int.{pos, ltb_ℤ, ◌+ℤ◌, ◌-ℤ◌}
use marketmind_open.Common.Result.{Result, ok, ◌>>=◌}
use marketmind_open.Clock.{Instant}
use marketmind_open.Decimal
use marketmind_open.Decimal.{Decimal, nought}
use marketmind_open.Trader.Schema.{
  OrderSide, OrderRow, FillRow, PositionRow, TraderSettings, BreakdownEntry, SnapshotRow,
}
use marketmind_open.Trader.Tables.{Db, is_open, latest, order_by, numeric_sum}
use marketmind_open.Trader.Risk.State.{snapshot_ts, latest_close_of}

-- The CASE on the side of the joined order.
abbrev pub cash_effect : OrderSide → FillRow → Decimal
cash_effect OrderSide.buy f = pos 0 -ℤ (f.notional +ℤ f.fee)
cash_effect OrderSide.sell f = f.notional -ℤ f.fee

-- Fills without their order drop out of the join; SQL adds exactly.
abbrev pub fill_effect : List OrderRow → FillRow → Decimal
fill_effect orders f = elim (find (λ o. o.id == f.order_id) orders) [
  | none ↦ nought
  | some o ↦ cash_effect o.side f
]

unfoldable pub net_cash_from_fills : Db → Decimal
net_cash_from_fills db = numeric_sum (map (fill_effect db.orders) db.fills)

unfoldable pub load_open_positions : Db → List PositionRow
load_open_positions db = select is_open db.positions

unfoldable pub load_closed_positions : Db → List PositionRow
load_closed_positions db = select (λ p. not (is_open p)) db.positions

-- COALESCE(realised_pnl, 0)
abbrev pub realised : PositionRow → Decimal
realised p = elim p.realised_pnl [ none ↦ nought | some x ↦ x ]

-- The latest close of each symbol that has a closed candle. `ANY` does not depend on the order of
-- the symbols or on duplicates.
unfoldable pub latest_close_per_symbol : List String → Db → List (String × Decimal)
latest_close_per_symbol [] db = []
latest_close_per_symbol (symbol ∷ symbols) db =
    let rest = latest_close_per_symbol symbols db in
    elim (latest_close_of symbol db) [ none ↦ rest | some close ↦ (symbol, close) ∷ rest ]

unfoldable pub previous_peak_equity : Decimal → Db → Decimal
previous_peak_equity starting_equity db = elim (latest snapshot_ts db.snapshots) [
  | none ↦ starting_equity
  | some s ↦ s.peak_equity
]

-- `latest_close.get(pos.symbol, pos.entry_price)`
abbrev pub mark_of : List (String × Decimal) → PositionRow → Decimal
mark_of latest_close p = elim (find (λ e. str_eq e.0 p.symbol) latest_close) [
  | none ↦ p.entry_price
  | some e ↦ e.1
]

abbrev pub unrealised_of : List (String × Decimal) → PositionRow → Decimal
unrealised_of latest_close p =
    Decimal.mul (Decimal.sub (mark_of latest_close p) p.entry_price) p.size

abbrev pub no_entry : BreakdownEntry
no_entry = record { realised_pnl = nought; unrealised_pnl = nought; open_positions = 0 }

module _ {K : Type 0} (same : K → K → Bool) where
  -- `setdefault(key, _BreakdownEntry())`, then the change of the entry in place.
  unfoldable pub change_entry :
      K → (BreakdownEntry → BreakdownEntry) → List (K × BreakdownEntry) → List (K × BreakdownEntry)
  change_entry key change [] = (key, change no_entry) ∷ []
  change_entry key change ((k, e) ∷ rest) =
      let others = change_entry key change rest in
      if same key k then (k, change e) ∷ rest else (k, e) ∷ others

  -- One of the two dictionaries that the loops build side by side.
  unfoldable pub add_open :
      (PositionRow → K)
      → List (String × Decimal)
      → List PositionRow
      → List (K × BreakdownEntry)
      → List (K × BreakdownEntry)
  add_open key latest_close [] entries = entries
  add_open key latest_close (p ∷ rest) entries = add_open key latest_close rest (
      change_entry (key p)
        (λ e. record e {
          unrealised_pnl = Decimal.add e.unrealised_pnl (unrealised_of latest_close p);
          open_positions = e.open_positions + 1;
        })
        entries)

  unfoldable pub add_closed :
      (PositionRow → K) → List PositionRow → List (K × BreakdownEntry) → List (K × BreakdownEntry)
  add_closed key [] entries = entries
  add_closed key (p ∷ rest) entries = add_closed key rest (
      change_entry (key p)
        (λ e. record e { realised_pnl = Decimal.add e.realised_pnl (realised p) }) entries)

-- `_aggregate_breakdowns`: by strategy version, and by symbol.
unfoldable pub aggregate_breakdowns :
    List PositionRow
    → List PositionRow
    → List (String × Decimal)
    → List (ℕ × BreakdownEntry) × List (String × BreakdownEntry)
aggregate_breakdowns open_positions closed_positions latest_close = (
  add_closed ◌==◌ (λ p. p.strategy_version_id) closed_positions
      (add_open ◌==◌ (λ p. p.strategy_version_id) latest_close open_positions []),
  add_closed str_eq (λ p. p.symbol) closed_positions
      (add_open str_eq (λ p. p.symbol) latest_close open_positions []),
)

-- A running total that starts at Decimal("0").
unfoldable pub total_from : Decimal → List Decimal → Decimal
total_from t [] = t
total_from t (x ∷ xs) = total_from (Decimal.add t x) xs

unfoldable pub drawdown_pct_of : Decimal → Decimal → Result Decimal
drawdown_pct_of peak_equity drawdown =
    if ltb_ℤ nought peak_equity then Decimal.div drawdown peak_equity else ok nought

-- The equity: cash, and the market value of the open positions.
unfoldable pub equity_of : TraderSettings → Db → Decimal
equity_of settings db =
    let open_positions = load_open_positions db in
    let latest_close = latest_close_per_symbol (map (λ p. p.symbol) open_positions) db in
    Decimal.add (Decimal.add settings.trader_starting_cash_gbp (net_cash_from_fills db))
      (total_from nought (map (λ p. Decimal.mul p.size (mark_of latest_close p)) open_positions))

-- The snapshot, and the database with its row.
unfoldable pub compute_and_persist_snapshot : TraderSettings → Db → Result (SnapshotRow × Db)
compute_and_persist_snapshot settings db = do
  let starting_cash = settings.trader_starting_cash_gbp
  let open_positions = load_open_positions db
  let closed_positions = load_closed_positions db
  let latest_close = latest_close_per_symbol (map (λ p. p.symbol) open_positions) db
  let equity = equity_of settings db
  let peak_equity = Decimal.max (previous_peak_equity starting_cash db) equity
  let drawdown = Decimal.sub peak_equity equity
  drawdown_pct ← drawdown_pct_of peak_equity drawdown
  let breakdowns = aggregate_breakdowns open_positions closed_positions latest_close
  let snapshot : SnapshotRow = record {
    id = db.next_id;
    ts = db.now;
    cash = Decimal.add starting_cash (net_cash_from_fills db);
    equity = equity;
    unrealised_pnl = total_from nought (map (unrealised_of latest_close) open_positions);
    realised_pnl_cumulative = total_from nought (map realised closed_positions);
    peak_equity = peak_equity;
    drawdown = drawdown;
    drawdown_pct = drawdown_pct;
    open_positions_count = length open_positions;
    per_strategy_breakdown = breakdowns.0;
    per_symbol_breakdown = breakdowns.1;
  }
  ok (snapshot, record db { snapshots = db.snapshots ++ snapshot ∷ []; next_id = suc db.next_id })

unfoldable pub fetch_latest_snapshot : Db → Option SnapshotRow
fetch_latest_snapshot db = latest snapshot_ts db.snapshots

-- The bounds are inclusive, and an absent one admits every row.
abbrev pub within : Option Instant → Option Instant → Instant → Bool
within since until ts =
    (elim since [ none ↦ true | some a ↦ leb a ts ])
    && (elim until [ none ↦ true | some b ↦ leb ts b ])

unfoldable pub fetch_equity_curve : Option Instant → Option Instant → Db → List (Instant × Decimal)
fetch_equity_curve since until db =
    select (λ row. within since until row.0)
      (map (λ s. (s.ts, s.equity)) (order_by snapshot_ts snapshot_ts db.snapshots))
