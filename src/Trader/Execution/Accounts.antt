-- ===== src/Trader/Execution/Accounts.antt =====
-- What a whole execution cycle leaves behind: one fill for each close and each purchase, every order
-- under one outcome, and one open position at most for a version and a symbol.
use marketmind_open.Common.{
  ◌+◌, ◌≤◌, ◌≡◌, refl, subst, ◌⊎◌, inl, inr, List, [], ◌∷◌, length, arith, Option-cases,
}
use marketmind_open.Common.Result.{Result-cases, ok, ok-injective, after_bind}
use marketmind_open.Decimal.{Decimal}
use marketmind_open.Trader.Schema.{OrderSide}
use marketmind_open.Trader.Tables.{Db}
use marketmind_open.Trader.Execution.Fills.{
  OrderWithMeta, candle_open_at, execute_buy_fill, execute_exit_fill, reject_order,
}
use marketmind_open.Trader.Execution.Writes.{
  execute_exit_fill-FillsAndCloses, execute_buy_fill-FillsAndOpens,
}
use marketmind_open.Trader.Execution.Cycle.{
  ExecutionResult, Pass, load_open_positions_with_meta, load_pending_orders_with_meta,
  open_position_id_for, scan_stops, fill_order, process_order, process_orders, nothing_done,
  fill_pending, process_one_cycle,
}
use marketmind_open.Trader.Execution.Advances.{
  IsSingle, Advances, IsSingle-closes, IsSingle-opens, Advances-then, Advances-none,
  scan_stops-Advances,
}

side-cases : (side : OrderSide) → (side ≡ OrderSide.buy) ⊎ (side ≡ OrderSide.sell)
side-cases OrderSide.buy = inl refl
side-cases OrderSide.sell = inr refl

fill_order-Advances :
    (o : OrderWithMeta) (candle_open : Decimal) (r : ExecutionResult) (db : Db) {pass : Pass}
    → fill_order o candle_open (r, db) ≡ ok pass
    → Advances 0 1 (r, db) pass
unfolding fill_order reject_order
fill_order-Advances o candle_open r db {pass} h = elim (side-cases o.order.side) [
  | inl buys ↦ elim (Result-cases (execute_buy_fill o candle_open db)) [
    | inr (e, raised) ↦ absurd (ground arith)
    | inl (db', bought) ↦
        let same : ok (
          record r {
            pending_orders_filled = r.pending_orders_filled + 1;
            positions_opened = r.positions_opened + 1;
          },
          db',
        )
            ≡ ok pass =
          ground arith in
        let step = execute_buy_fill-FillsAndOpens o candle_open db bought in
        subst (Advances 0 1 (r, db)) (ok-injective same) (record {
          single = IsSingle-opens step;
          fills = omega (arith, step.one_fill);
          stopped = omega arith;
          counted = omega arith;
          split = omega arith;
          scanned = refl;
          loaded = refl;
        })
  ]
  | inr sells ↦
      elim (Option-cases (open_position_id_for o.order.strategy_version_id o.order.symbol db)) [
        | inl closed ↦
            let same : ok (
              record r { pending_orders_rejected = r.pending_orders_rejected + 1 },
              reject_order o.order.id "position_already_closed" db,
            )
                ≡ ok pass =
              ground arith in
            subst (Advances 0 1 (r, db)) (ok-injective same) (record {
              single = λ s. s;
              fills = refl;
              stopped = omega arith;
              counted = omega arith;
              split = refl;
              scanned = refl;
              loaded = refl;
            })
        | inr (pos, found) ↦ elim (Result-cases (execute_exit_fill o pos.position candle_open db)) [
          | inr (e, raised) ↦ absurd (ground arith)
          | inl (db', sold) ↦
              let same : ok (
                record r {
                  pending_orders_filled = r.pending_orders_filled + 1;
                  positions_closed_by_signal = r.positions_closed_by_signal + 1;
                },
                db',
              )
                  ≡ ok pass =
                ground arith in
              let step = execute_exit_fill-FillsAndCloses o pos.position candle_open db sold in
              subst (Advances 0 1 (r, db)) (ok-injective same) (record {
                single = IsSingle-closes step;
                fills = omega (arith, step.one_fill);
                stopped = omega arith;
                counted = omega arith;
                split = omega arith;
                scanned = refl;
                loaded = refl;
              })
        ]
      ]
]

process_order-Advances :
    (o : OrderWithMeta) (r : ExecutionResult) (db : Db) {pass : Pass}
    → process_order o (r, db) ≡ ok pass
    → Advances 0 1 (r, db) pass
unfolding process_order
process_order-Advances o r db {pass} h =
    elim (Option-cases (candle_open_at o.order.symbol o.timeframe o.order.intended_fill_ts db)) [
      | inl missing ↦
          let same : ok (record r { pending_orders_waiting = r.pending_orders_waiting + 1 }, db)
              ≡ ok pass =
            ground arith in
          subst (Advances 0 1 (r, db)) (ok-injective same) (record {
            single = λ s. s;
            fills = refl;
            stopped = omega arith;
            counted = omega arith;
            split = refl;
            scanned = refl;
            loaded = refl;
          })
      | inr (candle_open, found) ↦
          let same : fill_order o candle_open (r, db) ≡ ok pass = ground arith in
          fill_order-Advances o candle_open r db same
    ]

process_orders-Advances :
    (orders : List OrderWithMeta) (pass : Pass) {final : Pass}
    → process_orders orders pass ≡ ok final
    → Advances 0 (length orders) pass final
unfolding process_orders
process_orders-Advances [] pass h =
    subst (Advances 0 0 pass) (ok-injective h) (Advances-none 0 pass)
process_orders-Advances (o ∷ rest) pass h = after_bind (process_order o pass) _ h λ next first then.
    Advances-then (omega arith) (omega arith) (process_order-Advances o pass.0 pass.1 first)
      (process_orders-Advances rest next then)

-- A cycle that ends leaves at most one open position for a version and a symbol where it found so,
-- has written one fill for each stop close and each filled order, has put each loaded order under
-- one of the three outcomes, has split the filled orders into openings and closings, and has
-- stopped no more positions than it scanned.
pub process_one_cycle_accounts :
    (db : Db) {r : ExecutionResult} {db' : Db}
    → process_one_cycle db ≡ ok (r, db')
    → IsSingle db
    → IsSingle db'
      × (length db'.fills ≡ length db.fills + r.positions_closed_by_stop + r.pending_orders_filled)
      × (r.pending_orders_filled + r.pending_orders_waiting + r.pending_orders_rejected
          ≡ r.pending_orders_loaded)
      × (r.pending_orders_filled ≡ r.positions_opened + r.positions_closed_by_signal)
      × (r.positions_closed_by_stop ≤ r.open_positions_scanned)
unfolding process_one_cycle fill_pending
process_one_cycle_accounts db {r} {db'} h single =
    let positions = load_open_positions_with_meta db in
    after_bind
      (scan_stops positions (record nothing_done { open_positions_scanned = length positions }, db))
      _ h
      λ next first then.
        let f = scan_stops-Advances positions _ first in
        let g = process_orders-Advances (load_pending_orders_with_meta next.1) _ then in
        (
          g.single (f.single single),
          omega (arith, f.fills, g.fills, f.split, f.counted),
          omega (arith, f.counted, g.counted, g.loaded),
          omega (arith, f.split, g.split),
          omega (arith, f.stopped, g.stopped, f.scanned, g.scanned),
        )
