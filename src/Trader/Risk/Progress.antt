-- ===== src/Trader/Risk/Progress.antt =====
-- What a whole pass of the risk manager leaves behind.
use Prim.Native.String.{String}
use marketmind_open.Common.{ℕ, ◌+◌, ◌≡◌, List, [], ◌∷◌, length, arith}
use marketmind_open.Common.Result.{ok, >>=-eq-ok}
use marketmind_open.Clock.{Instant, DateTime}
use marketmind_open.Trader.Schema.{TraderSettings, SignalRow}
use marketmind_open.Trader.Tables.{Db}
use marketmind_open.Trader.Risk.State.{gather_inputs}
use marketmind_open.Trader.Risk.Cycle.{
  RiskCycleResult, Pass, load_unprocessed_signals, process_signal, process_signals,
  process_pending_signals, no_signals,
}
use marketmind_open.Trader.Risk.Turn.{SameBooks, outcomes, process_signal-Settles}

-- The books after many turns.
pub record Passes (n : ℕ) (a b : Pass) : Type 0 where
  pub books : SameBooks a.1 b.1
  pub processed : b.0.signals_processed ≡ a.0.signals_processed + n
  pub counted : outcomes b.0 ≡ outcomes a.0 + n
  pub ordered : length b.1.orders + a.0.signals_approved ≡ length a.1.orders + b.0.signals_approved

process_signals-Passes :
    (settings : TraderSettings) (now : DateTime) (rows : List SignalRow) (r : RiskCycleResult)
    (db : Db) {pass : Pass}
    → process_signals settings now rows (r, db) ≡ ok pass
    → Passes (length rows) (r, db) pass
unfolding process_signals
process_signals-Passes settings now [] r db h = ground arith
process_signals-Passes settings now (s ∷ rows) r db {pass} h =
    let ((r', db'), turned, rest) = >>=-eq-ok (process_signal settings now s (r, db)) _ h in
    ground (
      arith,
      process_signal-Settles settings now s r db turned,
      process_signals-Passes settings now rows r' db' {pass = pass} rest,
    )

-- A pass that returns has looked at every signal that was waiting. Each is counted under exactly
-- one outcome, the approved ones are as many as the new orders, and versions, positions, fills, candles and
-- snapshots are as before.
pub process_pending_signals_accounts :
    (settings : TraderSettings) (now : DateTime) (db : Db) {pass : Pass}
    → process_pending_signals settings now db ≡ ok pass
    → SameBooks db pass.1
      × (pass.0.signals_processed ≡ length (load_unprocessed_signals db))
      × (outcomes pass.0 ≡ pass.0.signals_processed)
      × (length pass.1.orders ≡ length db.orders + pass.0.signals_approved)
unfolding process_pending_signals
process_pending_signals_accounts settings now db {pass} h = ground (
  arith,
  process_signals-Passes settings now (load_unprocessed_signals db) no_signals db {pass = pass} h,
)

-- Settling one signal changes nothing that the next decision reads, whatever its windows, its symbol
-- and its latest candle: the risk manager does not see the order that it has just queued.
pub process_signal_inputs :
    (settings : TraderSettings) (now : DateTime) (s : SignalRow) (r : RiskCycleResult) (db : Db)
    (midnight monday : Instant) (symbol : String) (close : Instant) {pass : Pass}
    → process_signal settings now s (r, db) ≡ ok pass
    → gather_inputs settings midnight monday symbol close pass.1
      ≡ gather_inputs settings midnight monday symbol close db
unfolding gather_inputs
process_signal_inputs settings now s r db midnight monday symbol close {pass} h =
    let (settled, _) = process_signal-Settles settings now s r db {pass = pass} h in
    rw (settled.books.snapshots, settled.books.candles, settled.books.positions)
