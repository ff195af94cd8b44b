-- ===== src/Trader/Tables.antt =====
-- The database as the trader's SQL sees it: the tables as lists of rows in the order of insertion,
-- and the constraints that infra/db/migrations/0008_trader_v1_signals_orders_fills.sql declares.
-- A statement that breaks a constraint raises. An exception leaves the `with psycopg.connect` block,
-- which rolls everything back, so the database is part of a result only when nothing was raised.
-- `next_id` stands for `uuid4` and the serial columns, `now` for NOW().
use Prim.Native.String.{String}
use text.Mathlib.Text.{◌==◌ as str_eq}
use marketmind_open.Common.{
  ℕ, suc, ◌*◌, ◌/◌, Bool, true, false, ◌&&◌, Option, none, some, List, [], ◌∷◌, ◌++◌, map, ltb, leb,
  ◌==◌, if◌then◌else◌, find,
}
use marketmind_open.Common.Int.{ℤ, abs, ◌+ℤ◌}
use marketmind_open.Common.Result.{Result, ok, err, unique_violation}
use marketmind_open.Clock.{Instant}
use marketmind_open.Decimal.{Decimal, signed, scale}
use marketmind_open.Trader.Schema.{
  SignalRow, OrderRow, OrderStatus, FillRow, PositionRow, PositionStatus, CandleRow, SnapshotRow,
  VersionRow, RiskEventRow,
}

pub record Db : Type 0 where
  pub versions : List VersionRow
  pub candles : List CandleRow
  pub signals : List SignalRow
  pub orders : List OrderRow
  pub fills : List FillRow
  pub positions : List PositionRow
  pub snapshots : List SnapshotRow
  pub risk_events : List RiskEventRow
  pub next_id : ℕ
  pub now : Instant

abbrev pub is_some {ℓ} : {A : Type ℓ} → Option A → Bool
is_some none = false
is_some (some _) = true

abbrev pub is_open : PositionRow → Bool
is_open p = elim p.status [ PositionStatus.opened ↦ true | PositionStatus.closed ↦ false ]

abbrev pub is_pending : OrderRow → Bool
is_pending o = elim o.status [ OrderStatus.pending ↦ true | _ ↦ false ]

-- UNIQUE (strategy_version_id, symbol, timeframe, candle_close_ts)
abbrev pub same_signal_key : SignalRow → SignalRow → Bool
same_signal_key a b =
    a.strategy_version_id == b.strategy_version_id
    && str_eq a.symbol b.symbol
    && str_eq a.timeframe b.timeframe
    && a.candle_close_ts == b.candle_close_ts

unfoldable pub insert_signal : SignalRow → Db → Result Db
insert_signal row db =
    if is_some (find (same_signal_key row) db.signals)
    then err unique_violation
    else ok (record db { signals = db.signals ++ row ∷ []; next_id = suc db.next_id })

-- UNIQUE (signal_id)
unfoldable pub insert_order : OrderRow → Db → Result Db
insert_order row db =
    if is_some (find (λ o. o.signal_id == row.signal_id) db.orders)
    then err unique_violation
    else ok (record db { orders = db.orders ++ row ∷ []; next_id = suc db.next_id })

-- UNIQUE (order_id)
unfoldable pub insert_fill : FillRow → Db → Result Db
insert_fill row db =
    if is_some (find (λ f. f.order_id == row.order_id) db.fills)
    then err unique_violation
    else ok (record db { fills = db.fills ++ row ∷ []; next_id = suc db.next_id })

-- The open position of a version and a symbol.
abbrev pub is_open_for : ℕ → String → PositionRow → Bool
is_open_for version symbol p =
    p.strategy_version_id == version && str_eq p.symbol symbol && is_open p

-- UNIQUE (strategy_version_id, symbol) WHERE status = 'OPEN'; the row to insert is open.
unfoldable pub insert_position : PositionRow → Db → Result Db
insert_position row db =
    if is_some (find (is_open_for row.strategy_version_id row.symbol) db.positions)
    then err unique_violation
    else ok (record db { positions = db.positions ++ row ∷ []; next_id = suc db.next_id })

-- UPDATE ... WHERE id = %s
abbrev pub update_order : ℕ → (OrderRow → OrderRow) → Db → Db
update_order id change db = record db {
  orders = map (λ o. if o.id == id then change o else o) db.orders;
}

abbrev pub update_position : ℕ → (PositionRow → PositionRow) → Db → Db
update_position id change db = record db {
  positions = map (λ p. if p.id == id then change p else p) db.positions;
}

abbrev pub update_signal : ℕ → (SignalRow → SignalRow) → Db → Db
update_signal id change db = record db {
  signals = map (λ s. if s.id == id then change s else s) db.signals;
}

module _ {ℓ} {A : Type ℓ} where
  -- ORDER BY a time DESC LIMIT 1. Where several rows have the latest time, PostgreSQL may return any of
  -- them; this is the last inserted one.
  abbrev pub latest : (A → Instant) → List A → Option A
  latest key [] = none
  latest key (x ∷ xs) = elim (latest key xs) [
    | none ↦ some x
    | some y ↦ if ltb (key y) (key x) then some x else some y
  ]

  -- ORDER BY a time ASC LIMIT 1; of several earliest rows, the first inserted one.
  abbrev pub earliest : (A → Instant) → List A → Option A
  earliest key [] = none
  earliest key (x ∷ xs) = elim (earliest key xs) [
    | none ↦ some x
    | some y ↦ if ltb (key y) (key x) then some y else some x
  ]

  -- Rows before a row, or not before it, by two times.
  abbrev pub before : (A → Instant) → (A → Instant) → A → A → Bool
  before key then_by x y =
      if key x == key y then leb (then_by x) (then_by y) else ltb (key x) (key y)

  abbrev pub insert_by : (A → A → Bool) → A → List A → List A
  insert_by le x [] = x ∷ []
  insert_by le x (y ∷ ys) = let rest = insert_by le x ys in if le x y then x ∷ y ∷ ys else y ∷ rest

  -- ORDER BY one time, then another, ASC.
  abbrev pub order_by : (A → Instant) → (A → Instant) → List A → List A
  order_by key then_by [] = []
  order_by key then_by (x ∷ xs) = insert_by (before key then_by) x (order_by key then_by xs)

-- NUMERIC arithmetic of the database: exact, at up to 60 decimals.
abbrev pub numeric_mul : Decimal → Decimal → Decimal
numeric_mul a b = signed a b (abs a * abs b / scale)

-- COALESCE(SUM(...), 0)
abbrev pub numeric_sum : List Decimal → Decimal
numeric_sum [] = ℤ.pos 0
numeric_sum (x ∷ xs) = x +ℤ numeric_sum xs
