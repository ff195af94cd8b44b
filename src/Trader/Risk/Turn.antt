-- ===== src/Trader/Risk/Turn.antt =====
-- What one turn of the risk manager's loop does to the counters and the tables.
use marketmind_open.Common.{
  ℕ, suc, ◌+◌, ◌≡◌, subst, List, length, length-append, arith, inl, inr, Option-cases,
}
use marketmind_open.Common.Result.{Result-cases, ok, >>=-eq-ok}
use marketmind_open.Clock.{Instant, DateTime, utc_midnight_of, utc_monday_of}
use marketmind_open.Decimal.{Decimal}
use marketmind_open.Trader.Schema.{TraderSettings, SignalRow, OrderSide, VersionRow, RiskEventRow}
use marketmind_open.Trader.Tables.{Db, insert_order}
use marketmind_open.Trader.Risk.Checks.{
  RiskInputs, Proposal, BlockDecision, approved, blocked, emit_risk_event, evaluate_risk,
}
use marketmind_open.Trader.Risk.State.{load_version_for_risk, latest_candle_close_ts, gather_inputs}
use marketmind_open.Trader.Risk.Outcome.{evaluate_risk_records}
use marketmind_open.Trader.Risk.Cycle.{
  RiskCycleResult, Pass, order_size, side_of, create_paper_order, mark_signal_processed, carry_out,
  proposal_of, decide_signal, process_signal,
}

-- The tables that the risk manager reads its inputs from.
pub record SameBooks (a b : Db) : Type 0 where
  pub versions : b.versions ≡ a.versions
  pub candles : b.candles ≡ a.candles
  pub fills : b.fills ≡ a.fills
  pub positions : b.positions ≡ a.positions
  pub snapshots : b.snapshots ≡ a.snapshots
  pub now : b.now ≡ a.now

abbrev pub outcomes : RiskCycleResult → ℕ
outcomes r =
    r.signals_approved + r.signals_blocked + r.signals_skipped_no_data
    + r.signals_skipped_missing_version

-- One signal is settled: counted once, marked, and turned into one order if it was approved.
pub record Settles (s : SignalRow) (a b : Pass) : Type 0 where
  pub books : SameBooks a.1 b.1
  pub counted : outcomes b.0 ≡ outcomes a.0 + 1
  pub marked : b.1.signals ≡ (mark_signal_processed s.id a.1).signals
  pub ordered : length b.1.orders + a.0.signals_approved ≡ length a.1.orders + b.0.signals_approved

create_paper_order-books :
    (s : SignalRow) (side : OrderSide) (size : Decimal) (db : Db) {db' : Db}
    → create_paper_order s side size db ≡ ok db'
    → SameBooks db db' × (db'.signals ≡ db.signals) × (length db'.orders ≡ length db.orders + 1)
unfolding create_paper_order insert_order
create_paper_order-books s side size db h = grind (arith, length-append)

carry_out-Settles :
    (s : SignalRow) (decision : BlockDecision) (r : RiskCycleResult) (db : Db) {pass : Pass}
    → carry_out s decision (r, db) ≡ ok pass
    → Settles s (r, db) pass × (pass.0.signals_processed ≡ r.signals_processed)
unfolding carry_out emit_risk_event
carry_out-Settles s (blocked b id) r db h = ground arith
carry_out-Settles s (approved size) r db h = elim (Option-cases (order_size s size db)) [
  | inl missing ↦ ground arith
  | inr (q, sized) ↦ elim (Result-cases (create_paper_order s (side_of s.signal) q db)) [
    | inr (e, raised) ↦ absurd (ground arith)
    | inl (db', created) ↦
        ground (arith, create_paper_order-books s (side_of s.signal) q db created)
  ]
]

-- A recorded decision leaves every table but the risk events alone.
evaluate_risk-quiet :
    (settings : TraderSettings) (p : Proposal) (inputs : RiskInputs) (now : Instant) (db : Db)
    {decision : BlockDecision} {db' : Db}
    → evaluate_risk settings p inputs now db ≡ ok (decision, db')
    → (events : List RiskEventRow) × (n : ℕ) × (db'
        ≡ record db { risk_events = events; next_id = n })
evaluate_risk-quiet settings p inputs now db {decision = approved size} h =
    (db.risk_events, db.next_id, evaluate_risk_records settings p inputs now db h)
evaluate_risk-quiet settings p inputs now db {decision = blocked b id} h =
    (_, suc id, evaluate_risk_records settings p inputs now db h)

Settles-quiet :
    (s : SignalRow) (r : RiskCycleResult) (db : Db) (events : List RiskEventRow) (n : ℕ)
    {pass : Pass}
    → Settles s (r, record db { risk_events = events; next_id = n }) pass
    → Settles s (r, db) pass
unfolding mark_signal_processed
Settles-quiet s r db events n h = record {
  books = record {
    versions = h.books.versions;
    candles = h.books.candles;
    fills = h.books.fills;
    positions = h.books.positions;
    snapshots = h.books.snapshots;
    now = h.books.now;
  };
  counted = h.counted;
  marked = h.marked;
  ordered = h.ordered;
}

decide_signal-Settles :
    (settings : TraderSettings) (now : DateTime) (s : SignalRow) (v : VersionRow) (close : Instant)
    (r : RiskCycleResult) (db : Db) {pass : Pass}
    → decide_signal settings now s v close (r, db) ≡ ok pass
    → Settles s (r, db) pass × (pass.0.signals_processed ≡ r.signals_processed)
unfolding decide_signal
decide_signal-Settles settings now s v close r db {pass} h =
    let (midnight, _, after_midnight) = >>=-eq-ok (utc_midnight_of now) _ h in
    let (monday, _, after_monday) = >>=-eq-ok (utc_monday_of now) _ after_midnight in
    let ((decision, db'), decided, carried) =
      >>=-eq-ok
        (evaluate_risk settings (proposal_of s v)
          (gather_inputs settings midnight monday s.symbol close db) now.instant db)
        _ after_monday in
    let (events, n, same) =
      evaluate_risk-quiet settings (proposal_of s v) _ now.instant db decided in
    let (settled, processed) =
      carry_out-Settles s decision r _
        (subst (λ (d : Db). carry_out s decision (r, d) ≡ ok pass) same carried) in
    (Settles-quiet s r db events n settled, processed)

-- One turn settles its signal, whichever way it goes.
pub process_signal-Settles :
    (settings : TraderSettings) (now : DateTime) (s : SignalRow) (r : RiskCycleResult) (db : Db)
    {pass : Pass}
    → process_signal settings now s (r, db) ≡ ok pass
    → Settles s (r, db) pass × (pass.0.signals_processed ≡ r.signals_processed + 1)
unfolding process_signal
process_signal-Settles settings now s r db {pass} h =
    elim (Option-cases (load_version_for_risk s.strategy_version_id db)) [
      | inl missing ↦ ground arith
      | inr (v, loaded) ↦ elim (Option-cases (latest_candle_close_ts s.symbol s.timeframe db)) [
        | inl no_data ↦ ground arith
        | inr (close, known) ↦
            let r' : RiskCycleResult = record r { signals_processed = r.signals_processed + 1 } in
            ground (arith, decide_signal-Settles settings now s v close r' db {pass = pass})
      ]
    ]
