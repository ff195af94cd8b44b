-- ===== src/Trader/Execution/Writes.antt =====
-- What each write of the executor does to the fills and the open positions.
use Prim.Native.String.{String}
use text.Mathlib.TextEquality.{eq_iff}
use marketmind_open.Common.{
  ℕ, ◌+◌, ◌≤◌, ◌≡◌, refl, ◌∙◌, ap, subst, ◌⊎◌, inl, inr, Bool-cases, Bool, true, none, List, [],
  ◌∷◌, ◌++◌, map, length, length-append, find, select, arith, ◌==◌, if◌then◌else◌,
}
use marketmind_open.Common.Result.{ok, ok-injective, after_bind}
use marketmind_open.Clock.{Instant}
use marketmind_open.Decimal.{Decimal}
use marketmind_open.Trader.Schema.{
  OrderSide, SignalRow, OrderRow, FillRow, PositionRow, CloseReason,
}
use marketmind_open.Trader.Tables.{
  Db, is_open, is_open_for, insert_signal, insert_order, insert_fill, insert_position, update_order,
  update_position,
}
use marketmind_open.Trader.Execution.Fills.{
  PositionWithMeta, OrderWithMeta, FillCalculation, compute_fill, closed_by, realised_pnl,
  realised_pnl_pct, entry_fee_of, stop_signal, stop_order, fill_row, filled, opened_by,
  execute_stop_close, execute_buy_fill, execute_exit_fill,
}

-- How many positions of a version and a symbol are open.
abbrev pub open_count : ℕ → String → Db → ℕ
open_count version symbol db = length (select (is_open_for version symbol) db.positions)

abbrev bit : Bool → ℕ
bit b = if b then 1 else 0

module _ {ℓ} {A : Type ℓ} (p : A → Bool) where
  length-select-append :
      (xs : List A) (y : A) → length (select p (xs ++ y ∷ [])) ≡ length (select p xs) + bit (p y)
  length-select-append [] y = ground arith
  length-select-append (x ∷ xs) y = ground (arith, length-select-append xs y)

  select-find-none : (xs : List A) → find p xs ≡ none → length (select p xs) ≡ 0
  select-find-none [] h = refl
  select-find-none (x ∷ xs) h = ground (arith, select-find-none xs)

  length-select-map :
      (f : A → A) (xs : List A)
      → ((x : A) → p (f x) ≡ true → p x ≡ true)
      → length (select p (map f xs)) ≤ length (select p xs)
  length-select-map f [] h = omega arith
  length-select-map f (x ∷ xs) h = ground (arith, h x, length-select-map f xs h)

-- A row that is added to a table.
insert_signal_rest :
    (row : SignalRow) (db : Db) {db' : Db}
    → insert_signal row db ≡ ok db'
    → (db'.positions ≡ db.positions) × (db'.fills ≡ db.fills)
unfolding insert_signal
insert_signal_rest row db h = ground arith

insert_order_rest :
    (row : OrderRow) (db : Db) {db' : Db}
    → insert_order row db ≡ ok db'
    → (db'.positions ≡ db.positions) × (db'.fills ≡ db.fills)
unfolding insert_order
insert_order_rest row db h = ground arith

insert_fill_rest :
    (row : FillRow) (db : Db) {db' : Db}
    → insert_fill row db ≡ ok db'
    → (db'.positions ≡ db.positions) × (length db'.fills ≡ length db.fills + 1)
unfolding insert_fill
insert_fill_rest row db h = grind (arith, length-append)

insert_position_rest :
    (row : PositionRow) (db : Db) {db' : Db}
    → insert_position row db ≡ ok db'
    → (db'.positions ≡ db.positions ++ row ∷ [])
      × (db'.fills ≡ db.fills)
      × (find (is_open_for row.strategy_version_id row.symbol) db.positions ≡ none)
unfolding insert_position
insert_position_rest row db h = ground arith

-- Closing positions opens none.
open_count-close :
    (id order_id : ℕ) (fill : FillCalculation) (ts : Instant) (pnl pct : Decimal)
    (reason : CloseReason) (version : ℕ) (symbol : String) (db : Db)
    → open_count version symbol (update_position id (closed_by order_id fill ts pnl pct reason) db)
      ≤ open_count version symbol db
open_count-close id order_id fill ts pnl pct reason version symbol db =
    length-select-map (is_open_for version symbol)
      (λ p. if p.id == id then closed_by order_id fill ts pnl pct reason p else p) db.positions
      (λ x h. ground arith)

-- One fill, and no open position that was not there.
pub record FillsAndCloses (a b : Db) : Type 0 where
  pub one_fill : length b.fills ≡ length a.fills + 1
  pub no_opening :
      (version : ℕ) (symbol : String) → open_count version symbol b ≤ open_count version symbol a

FillsAndCloses-close :
    (a b : Db) (id order_id : ℕ) (fill : FillCalculation) (ts : Instant) (pnl pct : Decimal)
    (reason : CloseReason)
    → b.positions ≡ a.positions
    → length b.fills ≡ length a.fills + 1
    → FillsAndCloses a (update_position id (closed_by order_id fill ts pnl pct reason) b)
FillsAndCloses-close a b id order_id fill ts pnl pct reason same fills = record {
  one_fill = fills;
  no_opening = λ version symbol.
      subst
        (λ (ps : List PositionRow).
          open_count version symbol
            (update_position id (closed_by order_id fill ts pnl pct reason) b)
          ≤ length (select (is_open_for version symbol) ps))
        same (open_count-close id order_id fill ts pnl pct reason version symbol b);
}

-- A stop close writes one fill, and opens nothing.
pub execute_stop_close-FillsAndCloses :
    (pos : PositionWithMeta) (open_ts close_ts : Instant) (db : Db) {db' : Db}
    → execute_stop_close pos open_ts close_ts db ≡ ok db'
    → FillsAndCloses db db'
unfolding execute_stop_close
execute_stop_close-FillsAndCloses pos open_ts close_ts db {db'} h =
    let p = pos.position in
    let pnl = λ (fill : FillCalculation). realised_pnl p fill (entry_fee_of p.entry_order_id db) in
    after_bind (compute_fill OrderSide.sell p.stop_price p.size pos.slippage_bps pos.fee_bps) _ h
      λ fill _ h₁. after_bind (realised_pnl_pct p (pnl fill)) _ h₁ λ pct _ h₂.
        after_bind (insert_signal (stop_signal pos close_ts db) db) _ h₂ λ db₁ i₁ h₃.
          after_bind (insert_order (stop_order pos open_ts db.next_id db₁) db₁) _ h₃ λ db₂ i₂ h₄.
            after_bind (insert_fill (fill_row db₂.next_id db₁.next_id open_ts p.size fill) db₂) _ h₄
              λ db₃ i₃ h₅. subst (FillsAndCloses db) (ok-injective h₅) (
                FillsAndCloses-close db db₃ p.id db₁.next_id fill open_ts (pnl fill) pct
                  CloseReason.stop_hit
                  ((insert_fill_rest _ db₂ i₃).0
                    ∙ (insert_order_rest _ db₁ i₂).0
                    ∙ (insert_signal_rest _ db i₁).0)
                  (omega (
                    arith,
                    (insert_fill_rest _ db₂ i₃).1,
                    ap length ((insert_order_rest _ db₁ i₂).1 ∙ (insert_signal_rest _ db i₁).1),
                  )))

-- So does an exit.
pub execute_exit_fill-FillsAndCloses :
    (o : OrderWithMeta) (p : PositionRow) (candle_open : Decimal) (db : Db) {db' : Db}
    → execute_exit_fill o p candle_open db ≡ ok db'
    → FillsAndCloses db db'
unfolding execute_exit_fill
execute_exit_fill-FillsAndCloses o p candle_open db {db'} h =
    let ts = o.order.intended_fill_ts in
    let pnl = λ (fill : FillCalculation). realised_pnl p fill (entry_fee_of p.entry_order_id db) in
    after_bind (compute_fill OrderSide.sell candle_open p.size o.slippage_bps o.fee_bps) _ h
      λ fill _ h₁. after_bind (realised_pnl_pct p (pnl fill)) _ h₁ λ pct _ h₂.
        after_bind (insert_fill (fill_row db.next_id o.order.id ts p.size fill) db) _ h₂
          λ db₁ i₁ h₃.
            let (same, fills) =
              insert_fill_rest (fill_row db.next_id o.order.id ts p.size fill) db i₁ in
            subst (FillsAndCloses db) (ok-injective h₃) (
              FillsAndCloses-close db (update_order o.order.id filled db₁) p.id o.order.id fill ts
                (pnl fill) pct CloseReason.signal_exit same fills)

-- One fill, and one more open position, where there was none.
pub record FillsAndOpens (version : ℕ) (symbol : String) (a b : Db) : Type 0 where
  pub one_fill : length b.fills ≡ length a.fills + 1
  pub none_before : open_count version symbol a ≡ 0
  pub one_after : open_count version symbol b ≡ 1
  pub others :
      (v : ℕ) (s : String) → (open_count v s b ≤ open_count v s a) ⊎ ((v ≡ version) × (s ≡ symbol))

is_open_for-eq :
    (version v : ℕ) (symbol s : String) (p : PositionRow)
    → p.strategy_version_id ≡ version
    → p.symbol ≡ symbol
    → is_open_for v s p ≡ true
    → (v ≡ version) × (s ≡ symbol)
is_open_for-eq version v symbol s p a b h = ground (arith, eq_iff p.symbol s)

FillsAndOpens-open :
    (a b : Db) (row : PositionRow) {c : Db}
    → b.positions ≡ a.positions
    → length b.fills ≡ length a.fills + 1
    → is_open row ≡ true
    → insert_position row b ≡ ok c
    → FillsAndOpens row.strategy_version_id row.symbol a c
FillsAndOpens-open a b row {c} same fills is_opened h =
    let (added, kept, absent) = insert_position_rest row b h in
    let appended : c.positions ≡ a.positions ++ row ∷ [] =
      added ∙ ap (λ (ps : List PositionRow). ps ++ row ∷ []) same in
    let version = row.strategy_version_id in
    let symbol = row.symbol in
    let itself : is_open_for version symbol row ≡ true =
      ground (arith, eq_iff symbol symbol, is_opened) in
    let empty : open_count version symbol a ≡ 0 =
      select-find-none (is_open_for version symbol) a.positions (
        subst (λ (ps : List PositionRow). find (is_open_for version symbol) ps ≡ none) same
          absent) in
    record {
      one_fill = ap length kept ∙ fills;
      none_before = empty;
      one_after = omega (arith, empty, counted appended version symbol, ap bit itself);
      others = λ v s. elim (Bool-cases (is_open_for v s row)) [
        | inl same_key ↦ inr (is_open_for-eq version v symbol s row refl refl same_key)
        | inr other ↦ inl (omega (arith, counted appended v s, ap bit other))
      ];
    }
  where
    counted :
        c.positions ≡ a.positions ++ row ∷ []
        → (v : ℕ) (s : String) → open_count v s c ≡ open_count v s a + bit (is_open_for v s row)
    counted e v s =
        ap (λ (ps : List PositionRow). length (select (is_open_for v s) ps)) e
        ∙ length-select-append (is_open_for v s) a.positions row

-- A purchase that succeeds writes one fill and opens the only open position of its version and
-- symbol, where there was none; no other pair of the two gains one.
pub execute_buy_fill-FillsAndOpens :
    (o : OrderWithMeta) (candle_open : Decimal) (db : Db) {db' : Db}
    → execute_buy_fill o candle_open db ≡ ok db'
    → FillsAndOpens o.order.strategy_version_id o.order.symbol db db'
unfolding execute_buy_fill
execute_buy_fill-FillsAndOpens o candle_open db h =
    let ts = o.order.intended_fill_ts in
    let size = o.order.requested_size in
    after_bind (compute_fill OrderSide.buy candle_open size o.slippage_bps o.fee_bps) _ h
      λ fill _ h₁.
        after_bind (insert_fill (fill_row db.next_id o.order.id ts size fill) db) _ h₁ λ db₁ i₁ h₂.
          let (same, fills) =
            insert_fill_rest (fill_row db.next_id o.order.id ts size fill) db i₁ in
          FillsAndOpens-open db (update_order o.order.id filled db₁) (opened_by db₁.next_id o fill)
            same fills refl h₂
