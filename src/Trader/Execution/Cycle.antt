-- ===== src/Trader/Execution/Cycle.antt =====
-- `process_one_cycle` of workers/src/marketmind_workers/trader/execution.py: the stop scan, then the
-- fills of the pending orders. The heartbeat that a run id asks for is not modelled.
use Prim.Native.String.{String}
use marketmind_open.Common.{ℕ, ◌+◌, Option, none, some, List, [], ◌∷◌, ◌==◌, find, select, length}
use marketmind_open.Common.Result.{Result, ok, ◌>>=◌}
use marketmind_open.Decimal.{Decimal}
use marketmind_open.Trader.Schema.{OrderSide, OrderRow, PositionRow}
use marketmind_open.Trader.Tables.{Db, is_open, is_pending, is_open_for, order_by}
use marketmind_open.Trader.Execution.Fills.{
  PositionWithMeta, OrderWithMeta, find_first_stop_breach, execute_stop_close, candle_open_at,
  execute_buy_fill, execute_exit_fill, reject_order,
}

pub record ExecutionResult : Type 0 where
  pub open_positions_scanned : ℕ
  pub positions_closed_by_stop : ℕ
  pub pending_orders_loaded : ℕ
  pub pending_orders_filled : ℕ
  pub pending_orders_waiting : ℕ
  pub pending_orders_rejected : ℕ
  pub positions_opened : ℕ
  pub positions_closed_by_signal : ℕ

abbrev pub Pass : Type 0
Pass = ExecutionResult × Db

-- The rows for which a join finds its other rows.
abbrev pub collect {ℓ κ} : {A : Type ℓ} {B : Type κ} → (A → Option B) → List A → List B
collect f [] = []
collect f (x ∷ xs) = let rest = collect f xs in elim (f x) [ none ↦ rest | some y ↦ y ∷ rest ]

infixl 5 ◌>>=?◌
abbrev ◌>>=?◌ : {A B : Type 0} → Option A → (A → Option B) → Option B
none >>=? f = none
some a >>=? f = f a

-- position → entry order → entry signal, and position → version
unfoldable pub join_position : Db → PositionRow → Option PositionWithMeta
join_position db p = find (λ o. o.id == p.entry_order_id) db.orders >>=? λ o.
    find (λ s. s.id == o.signal_id) db.signals >>=? λ s.
    find (λ v. v.id == p.strategy_version_id) db.versions >>=? λ v. some (record {
      position = p;
      timeframe = s.timeframe;
      fee_bps = v.fee_bps;
      slippage_bps = v.slippage_bps;
    })

unfoldable pub load_open_positions_with_meta : Db → List PositionWithMeta
load_open_positions_with_meta db =
    order_by (λ p. p.position.entry_ts) (λ p. p.position.entry_ts)
      (collect (join_position db) (select is_open db.positions))

unfoldable pub join_order : Db → OrderRow → Option OrderWithMeta
join_order db o = find (λ s. s.id == o.signal_id) db.signals >>=? λ s.
    find (λ v. v.id == o.strategy_version_id) db.versions >>=? λ v. some (record {
      order = o;
      timeframe = s.timeframe;
      signal_kind = s.signal;
      proposed_stop_price = s.proposed_stop_price;
      proposed_take_profit_price = s.proposed_take_profit_price;
      fee_bps = v.fee_bps;
      slippage_bps = v.slippage_bps;
    })

unfoldable pub load_pending_orders_with_meta : Db → List OrderWithMeta
load_pending_orders_with_meta db =
    order_by (λ o. o.order.intended_fill_ts) (λ o. o.order.requested_at)
      (collect (join_order db) (select is_pending db.orders))

unfoldable pub open_position_id_for : ℕ → String → Db → Option PositionWithMeta
open_position_id_for version symbol db =
    find (is_open_for version symbol) db.positions >>=? join_position db

-- Phase 1, for one position.
unfoldable pub scan_stop : PositionWithMeta → Pass → Result Pass
scan_stop pos (r, db) = elim (find_first_stop_breach pos db) [
  | none ↦ ok (r, db)
  | some c ↦ (do
    db' ← execute_stop_close pos c.open_ts c.close_ts db
    ok (record r { positions_closed_by_stop = r.positions_closed_by_stop + 1 }, db'))
]

unfoldable pub scan_stops : List PositionWithMeta → Pass → Result Pass
scan_stops [] pass = ok pass
scan_stops (pos ∷ rest) pass = scan_stop pos pass >>= scan_stops rest

-- Phase 2, for one order whose candle is there.
unfoldable pub fill_order : OrderWithMeta → Decimal → Pass → Result Pass
fill_order o candle_open (r, db) = elim o.order.side [
  | OrderSide.buy ↦ (do
    db' ← execute_buy_fill o candle_open db
    ok (
      record r {
        pending_orders_filled = r.pending_orders_filled + 1;
        positions_opened = r.positions_opened + 1;
      },
      db',
    ))
  | OrderSide.sell ↦ elim (open_position_id_for o.order.strategy_version_id o.order.symbol db) [
    | none ↦ ok (
      record r { pending_orders_rejected = r.pending_orders_rejected + 1 },
      reject_order o.order.id "position_already_closed" db,
    )
    | some pos ↦ (do
      db' ← execute_exit_fill o pos.position candle_open db
      ok (
        record r {
          pending_orders_filled = r.pending_orders_filled + 1;
          positions_closed_by_signal = r.positions_closed_by_signal + 1;
        },
        db',
      ))
  ]
]

-- Phase 2, for one order.
unfoldable pub process_order : OrderWithMeta → Pass → Result Pass
process_order o (r, db) =
    elim (candle_open_at o.order.symbol o.timeframe o.order.intended_fill_ts db) [
      | none ↦ ok (record r { pending_orders_waiting = r.pending_orders_waiting + 1 }, db)
      | some candle_open ↦ fill_order o candle_open (r, db)
    ]

unfoldable pub process_orders : List OrderWithMeta → Pass → Result Pass
process_orders [] pass = ok pass
process_orders (o ∷ rest) pass = process_order o pass >>= process_orders rest

abbrev pub nothing_done : ExecutionResult
nothing_done = record {
  open_positions_scanned = 0;
  positions_closed_by_stop = 0;
  pending_orders_loaded = 0;
  pending_orders_filled = 0;
  pending_orders_waiting = 0;
  pending_orders_rejected = 0;
  positions_opened = 0;
  positions_closed_by_signal = 0;
}

-- Phase 2: the orders are loaded after phase 1.
unfoldable pub fill_pending : Pass → Result Pass
fill_pending (r, db) =
    let pending = load_pending_orders_with_meta db in
    process_orders pending (record r { pending_orders_loaded = length pending }, db)

unfoldable pub process_one_cycle : Db → Result Pass
process_one_cycle db =
    let open_positions = load_open_positions_with_meta db in
    scan_stops open_positions
      (record nothing_done { open_positions_scanned = length open_positions }, db)
    >>= fill_pending
