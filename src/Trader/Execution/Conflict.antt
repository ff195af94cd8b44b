-- ===== src/Trader/Execution/Conflict.antt =====
-- The synthetic signal of a stop close needs the key of its candle: (version, symbol, timeframe,
-- candle_close_ts) is unique in trader_signals.
use marketmind_open.Common.{
  Memᴰ, All-lookup, ◌≡◌, refl, ◌∙◌, ap, subst, Bool, none, some, List, [], ◌∷◌, ◌++◌, find, select,
  All, inl, inr, Option-cases, arith,
}
use marketmind_open.Common.Result.{ok, Result-cases, ok-injective, after_bind}
use marketmind_open.Clock.{Instant}
use marketmind_open.Trader.Schema.{OrderSide, SignalRow, OrderRow, CandleRow, FillRow}
use marketmind_open.Trader.Tables.{
  Db, earliest, same_signal_key, insert_signal, insert_order, insert_fill,
}
use marketmind_open.Trader.Execution.Fills.{
  PositionWithMeta, FillCalculation, candle_open_ts, breaches, find_first_stop_breach, compute_fill,
  realised_pnl, realised_pnl_pct, entry_fee_of, fill_row, stop_signal, stop_order,
  execute_stop_close,
}
use marketmind_open.Trader.Execution.Cycle.{
  ExecutionResult, Pass, load_open_positions_with_meta, scan_stop, scan_stops, process_one_cycle,
}

-- The candles stay, and no signal goes away.
record Grows (a b : Db) : Type 0 where
  candles : b.candles ≡ a.candles
  signals : (p : SignalRow → Bool) → find p b.signals ≡ none → find p a.signals ≡ none

find-append_none :
    {A : Type 0} (p : A → Bool) (xs : List A) (y : A)
    → find p (xs ++ y ∷ []) ≡ none
    → find p xs ≡ none
find-append_none p [] y h = refl
find-append_none p (x ∷ xs) y h = ground (arith, find-append_none p xs y)

insert_signal_grows :
    (row : SignalRow) (db : Db) {db' : Db}
    → insert_signal row db ≡ ok db'
    → (db'.candles ≡ db.candles)
      × (db'.signals ≡ db.signals ++ row ∷ [])
      × (find (same_signal_key row) db.signals ≡ none)
unfolding insert_signal
insert_signal_grows row db h = ground arith

insert_order_keeps :
    (row : OrderRow) (db : Db) {db' : Db}
    → insert_order row db ≡ ok db'
    → (db'.candles ≡ db.candles) × (db'.signals ≡ db.signals)
unfolding insert_order
insert_order_keeps row db h = ground arith

insert_fill_keeps :
    (row : FillRow) (db : Db) {db' : Db}
    → insert_fill row db ≡ ok db'
    → (db'.candles ≡ db.candles) × (db'.signals ≡ db.signals)
unfolding insert_fill
insert_fill_keeps row db h = ground arith

-- The key of the breached candle is not taken.
abbrev pub IsFree : PositionWithMeta → Instant → Db → Type 0
IsFree pos close_ts db = find (same_signal_key (stop_signal pos close_ts db)) db.signals ≡ none

execute_stop_close-Grows :
    (pos : PositionWithMeta) (open_ts close_ts : Instant) (db : Db) {db' : Db}
    → execute_stop_close pos open_ts close_ts db ≡ ok db'
    → Grows db db' × IsFree pos close_ts db
unfolding execute_stop_close
execute_stop_close-Grows pos open_ts close_ts db {db'} h =
    let p = pos.position in
    let pnl = λ (fill : FillCalculation). realised_pnl p fill (entry_fee_of p.entry_order_id db) in
    let new = stop_signal pos close_ts db in
    after_bind (compute_fill OrderSide.sell p.stop_price p.size pos.slippage_bps pos.fee_bps) _ h
      λ fill _ h₁. after_bind (realised_pnl_pct p (pnl fill)) _ h₁ λ pct _ h₂.
        after_bind (insert_signal new db) _ h₂ λ db₁ i₁ h₃.
          after_bind (insert_order (stop_order pos open_ts db.next_id db₁) db₁) _ h₃ λ db₂ i₂ h₄.
            after_bind (insert_fill (fill_row db₂.next_id db₁.next_id open_ts p.size fill) db₂) _ h₄
              λ db₃ i₃ h₅.
                let (candles₁, signals₁, free) = insert_signal_grows new db i₁ in
                let (candles₂, signals₂) = insert_order_keeps _ db₁ i₂ in
                let (candles₃, signals₃) = insert_fill_keeps _ db₂ i₃ in
                (
                  subst (Grows db) (ok-injective h₅) (record {
                    candles = candles₃ ∙ candles₂ ∙ candles₁;
                    signals = λ q absent. find-append_none q db.signals new (
                        subst (λ (xs : List SignalRow). find q xs ≡ none)
                          (signals₃ ∙ signals₂ ∙ signals₁) absent);
                  }),
                  free,
                )

-- What a position needs for its stop to be scanned.
abbrev pub FreeIfBreached : Db → PositionWithMeta → Type 0
FreeIfBreached db pos =
    (c : CandleRow) → find_first_stop_breach pos db ≡ some c → IsFree pos c.close_ts db

scan_stop-Grows :
    (pos : PositionWithMeta) (r : ExecutionResult) (db : Db) {pass : Pass}
    → scan_stop pos (r, db) ≡ ok pass
    → Grows db pass.1 × FreeIfBreached db pos
unfolding scan_stop
scan_stop-Grows pos r db {pass} h = elim (Option-cases (find_first_stop_breach pos db)) [
  | inl calm ↦
      let same : ok (r, db) ≡ ok pass = ground arith in
      (
        subst (λ (x : Pass). Grows db x.1) (ok-injective same)
            (record { candles = refl; signals = λ p e. e }),
        λ c breach. absurd (cc),
      )
  | inr (c, breach) ↦ elim (Result-cases (execute_stop_close pos c.open_ts c.close_ts db)) [
    | inr (e, raised) ↦ absurd (ground arith)
    | inl (db', closed) ↦
        let same : db' ≡ pass.1 = ground arith in
        let (grown, free) = execute_stop_close-Grows pos c.open_ts c.close_ts db closed in
        (
          subst (Grows db) same grown,
          λ c' breach'.
              let same_c : c ≡ c' = cc in
              subst (λ (x : CandleRow). IsFree pos x.close_ts db) same_c free,
        )
  ]
]

FreeIfBreached-Grows :
    {a b : Db} (pos : PositionWithMeta) → Grows a b → FreeIfBreached b pos → FreeIfBreached a pos
unfolding find_first_stop_breach
FreeIfBreached-Grows {a} {b} pos g free c breach =
    g.signals (same_signal_key (stop_signal pos c.close_ts a)) (
      free c (
        ap (λ (cs : List CandleRow). earliest candle_open_ts (select (breaches pos) cs)) g.candles
        ∙ breach))

All-FreeIfBreached :
    {a b : Db} (positions : List PositionWithMeta)
    → Grows a b
    → All (FreeIfBreached b) positions
    → All (FreeIfBreached a) positions
All-FreeIfBreached [] g h = tt
All-FreeIfBreached (pos ∷ rest) g h =
    (FreeIfBreached-Grows pos g h.0, All-FreeIfBreached rest g h.1)

scan_stops-free :
    (positions : List PositionWithMeta) (pass : Pass) {final : Pass}
    → scan_stops positions pass ≡ ok final
    → All (FreeIfBreached pass.1) positions
unfolding scan_stops
scan_stops-free [] pass h = tt
scan_stops-free (pos ∷ rest) pass h = after_bind (scan_stop pos pass) _ h λ next first then.
    let (grown, free) = scan_stop-Grows pos pass.0 pass.1 first in
    (free, All-FreeIfBreached rest grown (scan_stops-free rest next then))

-- When a cycle ends and the stop of a position that it loaded is breached, no signal of the
-- position's version, symbol and timeframe was stored for the breached candle.
pub process_one_cycle-IsFree :
    (db : Db) {pass : Pass} {pos : PositionWithMeta} {c : CandleRow}
    → process_one_cycle db ≡ ok pass
    → Memᴰ pos (load_open_positions_with_meta db)
    → find_first_stop_breach pos db ≡ some c
    → IsFree pos c.close_ts db
unfolding process_one_cycle
process_one_cycle-IsFree db {c} h loaded breach =
    after_bind (scan_stops (load_open_positions_with_meta db) _) _ h λ next first then.
      All-lookup (FreeIfBreached db) (load_open_positions_with_meta db)
        (scan_stops-free (load_open_positions_with_meta db) _ first) loaded c breach
