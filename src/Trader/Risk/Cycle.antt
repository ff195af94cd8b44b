-- ===== src/Trader/Risk/Cycle.antt =====
-- `process_pending_signals` of workers/src/marketmind_workers/trader/risk.py: one pass over the
-- unprocessed signals. The heartbeat that a run id asks for is not modelled.
use marketmind_open.Common.{
  ℕ, ◌+◌, Bool, true, false, ◌&&◌, not, Option, none, some, List, [], ◌∷◌, select,
}
use marketmind_open.Common.Result.{Result, ok, ◌>>=◌}
use marketmind_open.Clock.{Instant, DateTime, utc_midnight_of, utc_monday_of}
use marketmind_open.Decimal.{Decimal}
use marketmind_open.Trader.Schema.{
  SignalKind, OrderSide, OrderStatus, TraderSettings, SignalRow, VersionRow, Severity,
  RiskEventType, text,
}
use marketmind_open.Trader.Tables.{Db, is_some, insert_order, update_signal, order_by}
use marketmind_open.Trader.Risk.Checks.{
  Proposal, BlockDecision, approved, blocked, emit_risk_event, evaluate_risk,
}
use marketmind_open.Trader.Risk.State.{
  load_version_for_risk, latest_candle_close_ts, gather_inputs, open_position_size,
}

pub record RiskCycleResult : Type 0 where
  pub signals_processed : ℕ
  pub signals_approved : ℕ
  pub signals_blocked : ℕ
  pub signals_skipped_no_data : ℕ
  pub signals_skipped_missing_version : ℕ

abbrev pub is_hold : SignalKind → Bool
is_hold SignalKind.hold = true
is_hold _ = false

abbrev pub is_unprocessed : SignalRow → Bool
is_unprocessed s = not (is_some s.processed_at) && not (is_hold s.signal)

unfoldable pub load_unprocessed_signals : Db → List SignalRow
load_unprocessed_signals db =
    order_by (λ s. s.candle_close_ts) (λ s. s.created_at) (select is_unprocessed db.signals)

unfoldable pub create_paper_order : SignalRow → OrderSide → Decimal → Db → Result Db
create_paper_order s side size db =
    insert_order
      (record {
        id = db.next_id;
        signal_id = s.id;
        strategy_version_id = s.strategy_version_id;
        symbol = s.symbol;
        side = side;
        requested_size = size;
        requested_at = db.now;
        status = OrderStatus.pending;
        rejection_reason = none;
        intended_fill_ts = s.candle_close_ts;
      })
      db

unfoldable pub mark_signal_processed : ℕ → Db → Db
mark_signal_processed id db = update_signal id (λ s. record s { processed_at = some db.now }) db

abbrev pub proposal_of : SignalRow → VersionRow → Proposal
proposal_of s v = record {
  signal_id = some s.id;
  signal_kind = s.signal;
  symbol = s.symbol;
  proposed_entry_price = s.proposed_entry_price;
  proposed_stop_price = s.proposed_stop_price;
  strategy_version_id = s.strategy_version_id;
  strategy_risk_pct = v.risk_pct;
  strategy_enabled = v.enabled;
  strategy_approved_for_paper = v.approved_for_paper;
}

abbrev pub side_of : SignalKind → OrderSide
side_of SignalKind.buy = OrderSide.buy
side_of _ = OrderSide.sell

-- The size of the order: that of the decision, or of the open position.
abbrev pub order_size : SignalRow → Option Decimal → Db → Option Decimal
order_size s (some size) db = some size
order_size s none db = open_position_size s.strategy_version_id s.symbol db

abbrev pub Pass : Type 0
Pass = RiskCycleResult × Db

abbrev pub count_blocked : RiskCycleResult → RiskCycleResult
count_blocked r = record r { signals_blocked = r.signals_blocked + 1 }

abbrev pub count_approved : RiskCycleResult → RiskCycleResult
count_approved r = record r { signals_approved = r.signals_approved + 1 }

-- What follows the decision on a signal.
unfoldable pub carry_out : SignalRow → BlockDecision → Pass → Result Pass
unfolding mark_signal_processed
carry_out s (blocked b event_id) (r, db) = ok (count_blocked r, mark_signal_processed s.id db)
carry_out s (approved size) (r, db) = elim (order_size s size db) [
  | none ↦
      let (_, db') =
        emit_risk_event RiskEventType.block Severity.warning (some s.strategy_version_id)
          (some s.symbol) (some s.id) (("reason", text "exit_without_open_position") ∷ []) db in
      ok (count_blocked r, mark_signal_processed s.id db')
  | some size ↦ (do
    db' ← create_paper_order s (side_of s.signal) size db
    ok (count_approved r, mark_signal_processed s.id db'))
]

-- The rest of a turn for a signal whose version and candle are there.
unfoldable pub decide_signal :
    TraderSettings → DateTime → SignalRow → VersionRow → Instant → Pass → Result Pass
decide_signal settings now s version latest_close (r, db) = do
  midnight ← utc_midnight_of now
  monday ← utc_monday_of now
  let inputs = gather_inputs settings midnight monday s.symbol latest_close db
  decided ← evaluate_risk settings (proposal_of s version) inputs now.instant db
  carry_out s decided.0 (r, decided.1)

-- One turn of the loop.
unfoldable pub process_signal : TraderSettings → DateTime → SignalRow → Pass → Result Pass
unfolding mark_signal_processed
process_signal settings now s (before, db) =
    let r = record before { signals_processed = before.signals_processed + 1 } in
    elim (load_version_for_risk s.strategy_version_id db) [
      | none ↦ ok (
        record r { signals_skipped_missing_version = r.signals_skipped_missing_version + 1 },
        mark_signal_processed s.id db,
      )
      | some version ↦ elim (latest_candle_close_ts s.symbol s.timeframe db) [
        | none ↦ ok (
          record r { signals_skipped_no_data = r.signals_skipped_no_data + 1 },
          mark_signal_processed s.id db,
        )
        | some latest_close ↦ decide_signal settings now s version latest_close (r, db)
      ]
    ]

unfoldable pub process_signals : TraderSettings → DateTime → List SignalRow → Pass → Result Pass
process_signals settings now [] pass = ok pass
process_signals settings now (s ∷ rows) pass =
    process_signal settings now s pass >>= process_signals settings now rows

abbrev pub no_signals : RiskCycleResult
no_signals = record {
  signals_processed = 0;
  signals_approved = 0;
  signals_blocked = 0;
  signals_skipped_no_data = 0;
  signals_skipped_missing_version = 0;
}

unfoldable pub process_pending_signals : TraderSettings → DateTime → Db → Result Pass
process_pending_signals settings now db =
    process_signals settings now (load_unprocessed_signals db) (no_signals, db)
