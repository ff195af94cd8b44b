-- ===== src/Trader/Portfolio/Cash.antt =====
-- The cash that the snapshots count after the executor's fills.
use marketmind_open.Common.{
  ℕ, ◌≡◌, refl, ◌∙◌, sym, ap, some, List, [], ◌∷◌, ◌++◌, map, find, ◌==◌, if◌then◌else◌, arith,
}
use marketmind_open.Common.Int.{ℤ, pos, ◌+ℤ◌, ◌-ℤ◌, +ℤ_parts, eq_of_parts}
use marketmind_open.Common.Result.{ok, ok-injective, after_bind}
use marketmind_open.Decimal.{Decimal}
use marketmind_open.Trader.Schema.{OrderSide, OrderRow, FillRow, PositionRow}
use marketmind_open.Trader.Tables.{
  Db, numeric_sum, insert_fill, insert_position, update_order, update_position,
}
use marketmind_open.Trader.Execution.Fills.{
  OrderWithMeta, FillCalculation, compute_fill, fill_row, filled, realised_pnl, realised_pnl_pct,
  entry_fee_of, execute_buy_fill, execute_exit_fill,
}
use marketmind_open.Trader.Portfolio.{cash_effect, fill_effect, net_cash_from_fills}

+ℤ_assoc : (a b c : ℤ) → a +ℤ (b +ℤ c) ≡ a +ℤ b +ℤ c
+ℤ_assoc a b c =
    eq_of_parts _ _
      (omega (arith, +ℤ_parts a (b +ℤ c), +ℤ_parts b c, +ℤ_parts (a +ℤ b) c, +ℤ_parts a b))

+ℤ_zero : (a : ℤ) → a +ℤ pos 0 ≡ pos 0 +ℤ a
+ℤ_zero a = eq_of_parts _ _ (omega (arith, +ℤ_parts a (pos 0), +ℤ_parts (pos 0) a))

numeric_sum-append :
    {A : Type 0} (effect : A → Decimal) (xs : List A) (y : A)
    → numeric_sum (map effect (xs ++ y ∷ [])) ≡ numeric_sum (map effect xs) +ℤ effect y
numeric_sum-append effect [] y = +ℤ_zero (effect y)
numeric_sum-append effect (x ∷ xs) y =
    ap (λ (s : Decimal). effect x +ℤ s) (numeric_sum-append effect xs y)
    ∙ +ℤ_assoc (effect x) (numeric_sum (map effect xs)) (effect y)

-- An order that becomes FILLED keeps its side.
fill_effect-filled :
    (id : ℕ) (orders : List OrderRow) (f : FillRow)
    → fill_effect (map (λ o. if o.id == id then filled o else o) orders) f ≡ fill_effect orders f
fill_effect-filled id [] f = refl
fill_effect-filled id (o ∷ orders) f = ground (arith, fill_effect-filled id orders f)

effects-filled :
    (id : ℕ) (orders : List OrderRow) (fills : List FillRow)
    → numeric_sum (map (fill_effect (map (λ o. if o.id == id then filled o else o) orders)) fills)
      ≡ numeric_sum (map (fill_effect orders) fills)
effects-filled id orders [] = refl
effects-filled id orders (f ∷ fills) =
    ap
      (λ (x : Decimal).
        x
        +ℤ numeric_sum
            (map (fill_effect (map (λ o. if o.id == id then filled o else o) orders)) fills))
      (fill_effect-filled id orders f)
    ∙ ap (λ (s : Decimal). fill_effect orders f +ℤ s) (effects-filled id orders fills)

-- The fill of an order that is in the table adds the effect of its side.
net_cash-fill :
    (db : Db) (row : FillRow) (o : OrderRow) {db' : Db}
    → insert_fill row db ≡ ok db'
    → find (λ x. x.id == row.order_id) db.orders ≡ some o
    → net_cash_from_fills (update_order row.order_id filled db')
      ≡ net_cash_from_fills db +ℤ cash_effect o.side row
unfolding net_cash_from_fills insert_fill
net_cash-fill db row o {db'} h found =
    let (same_orders, added) = written h in
    effects-filled row.order_id db'.orders db'.fills
    ∙ ap (λ (os : List OrderRow). numeric_sum (map (fill_effect os) db'.fills)) same_orders
    ∙ ap (λ (fs : List FillRow). numeric_sum (map (fill_effect db.orders) fs)) added
    ∙ numeric_sum-append (fill_effect db.orders) db.fills row
    ∙ ap (λ (x : Decimal). numeric_sum (map (fill_effect db.orders) db.fills) +ℤ x) effect
  where
    written :
        insert_fill row db ≡ ok db' → (db'.orders ≡ db.orders) × (db'.fills ≡ db.fills ++ row ∷ [])
    written h = ground arith

    effect : fill_effect db.orders row ≡ cash_effect o.side row
    effect = ground (arith, found)

insert_position-net_cash :
    (p : PositionRow) (a : Db) {b : Db}
    → insert_position p a ≡ ok b
    → net_cash_from_fills b ≡ net_cash_from_fills a
unfolding net_cash_from_fills insert_position
insert_position-net_cash p a h = ground arith

-- The net cash after a purchase is lower by the notional and the fee of its one fill, provided that
-- its order stands in the table as a BUY.
pub execute_buy_fill_cash :
    (o : OrderWithMeta) (candle_open : Decimal) (db : Db) (row : OrderRow) {db' : Db}
    → execute_buy_fill o candle_open db ≡ ok db'
    → find (λ x. x.id == o.order.id) db.orders ≡ some row
    → row.side ≡ OrderSide.buy
    → (fill : FillCalculation) × (compute_fill OrderSide.buy candle_open o.order.requested_size
          o.slippage_bps o.fee_bps
        ≡ ok fill)
      × (net_cash_from_fills db' ≡ net_cash_from_fills db +ℤ (pos 0 -ℤ (fill.notional +ℤ fill.fee)))
unfolding execute_buy_fill
execute_buy_fill_cash o candle_open db row {db'} h found buying =
    let ts = o.order.intended_fill_ts in
    let size = o.order.requested_size in
    after_bind (compute_fill OrderSide.buy candle_open size o.slippage_bps o.fee_bps) _ h
      λ fill computed h₁.
        after_bind (insert_fill (fill_row db.next_id o.order.id ts size fill) db) _ h₁
          λ db₁ inserted h₂. (
            fill,
            computed,
            insert_position-net_cash _ _ h₂
                ∙ net_cash-fill db (fill_row db.next_id o.order.id ts size fill) row inserted found
                ∙ ap
                    (λ (side : OrderSide).
                      net_cash_from_fills db
                      +ℤ cash_effect side (fill_row db.next_id o.order.id ts size fill))
                    buying,
          )

update_position-net_cash :
    (id : ℕ) (change : PositionRow → PositionRow) (db : Db)
    → net_cash_from_fills (update_position id change db) ≡ net_cash_from_fills db
unfolding net_cash_from_fills
update_position-net_cash id change db = refl

-- The net cash after an exit is higher by the notional less the fee of its one fill, provided that
-- its order stands in the table as a SELL.
pub execute_exit_fill_cash :
    (o : OrderWithMeta) (p : PositionRow) (candle_open : Decimal) (db : Db) (row : OrderRow)
    {db' : Db}
    → execute_exit_fill o p candle_open db ≡ ok db'
    → find (λ x. x.id == o.order.id) db.orders ≡ some row
    → row.side ≡ OrderSide.sell
    → (fill : FillCalculation) × (compute_fill OrderSide.sell candle_open p.size o.slippage_bps
          o.fee_bps
        ≡ ok fill)
      × (net_cash_from_fills db' ≡ net_cash_from_fills db +ℤ (fill.notional -ℤ fill.fee))
unfolding execute_exit_fill
execute_exit_fill_cash o p candle_open db row {db'} h found selling =
    let ts = o.order.intended_fill_ts in
    let pnl = λ (fill : FillCalculation). realised_pnl p fill (entry_fee_of p.entry_order_id db) in
    after_bind (compute_fill OrderSide.sell candle_open p.size o.slippage_bps o.fee_bps) _ h
      λ fill computed h₁. after_bind (realised_pnl_pct p (pnl fill)) _ h₁ λ pct _ h₂.
        after_bind (insert_fill (fill_row db.next_id o.order.id ts p.size fill) db) _ h₂
          λ db₁ inserted h₃.
            let new = fill_row db.next_id o.order.id ts p.size fill in
            (
              fill,
              computed,
              sym (ap net_cash_from_fills (ok-injective h₃))
                  ∙ update_position-net_cash p.id _ (update_order o.order.id filled db₁)
                  ∙ net_cash-fill db new row inserted found
                  ∙ ap (λ (side : OrderSide). net_cash_from_fills db +ℤ cash_effect side new)
                      selling,
            )
