-- ===== src/Trader/Risk/Drained.antt =====
-- After a pass no signal is waiting: every one that was loaded has been marked.
use marketmind_open.Common.{
  ℕ, ◌≡◌, refl, sym, ◌∙◌, subst, Bool, true, false, ◌||◌, some, List, [], ◌∷◌, arith, inl, inr,
  if◌then◌else◌, select, ◌==◌, Bool-cases, All,
}
use marketmind_open.Common.Result.{ok, >>=-eq-ok}
use marketmind_open.Clock.{Instant, DateTime}
use marketmind_open.Trader.Schema.{TraderSettings, SignalRow}
use marketmind_open.Trader.Tables.{Db, before, insert_by, order_by}
use marketmind_open.Trader.Risk.Cycle.{
  RiskCycleResult, Pass, is_unprocessed, load_unprocessed_signals, mark_signal_processed,
  process_signal, process_signals, process_pending_signals, no_signals,
}
use marketmind_open.Trader.Risk.Turn.{process_signal-Settles}

-- Whether a row with the id is among the rows.
abbrev has_id : ℕ → List SignalRow → Bool
has_id i [] = false
has_id i (s ∷ rows) = s.id == i || has_id i rows

-- Every waiting signal is among the rows that are still to come.
abbrev Covers : List SignalRow → List SignalRow → Type 0
Covers rows = All (λ s. is_unprocessed s ≡ true → has_id s.id rows ≡ true)

has_id-insert_by :
    (le : SignalRow → SignalRow → Bool) (i : ℕ) (s : SignalRow) (rows : List SignalRow)
    → has_id i (insert_by le s rows) ≡ (s.id == i || has_id i rows)
has_id-insert_by le i s [] = refl
has_id-insert_by le i s (x ∷ rows) = ground (arith, has_id-insert_by le i s rows)

has_id-order_by :
    (key then_by : SignalRow → Instant) (i : ℕ) (rows : List SignalRow)
    → has_id i (order_by key then_by rows) ≡ has_id i rows
has_id-order_by key then_by i [] = refl
has_id-order_by key then_by i (s ∷ rows) = rw (
  has_id-insert_by (before key then_by) i s (order_by key then_by rows),
  has_id-order_by key then_by i rows,
)

Covers-mono :
    (rows more sigs : List SignalRow)
    → ((i : ℕ) → has_id i rows ≡ true → has_id i more ≡ true)
    → Covers rows sigs
    → Covers more sigs
Covers-mono rows more [] f h = tt
Covers-mono rows more (s ∷ sigs) f h =
    (λ waiting. f s.id (h.0 waiting), Covers-mono rows more sigs f h.1)

has_id-keep :
    (s : SignalRow) (rest : List SignalRow) (i : ℕ)
    → has_id i rest ≡ true
    → has_id i (if is_unprocessed s then s ∷ rest else rest) ≡ true
has_id-keep s rest i h = ground arith

has_id_self :
    (s : SignalRow) (rest : List SignalRow)
    → is_unprocessed s ≡ true
    → has_id s.id (if is_unprocessed s then s ∷ rest else rest) ≡ true
has_id_self s rest h = ground arith

Covers-select : (sigs : List SignalRow) → Covers (select is_unprocessed sigs) sigs
Covers-select [] = tt
Covers-select (s ∷ sigs) = (
  has_id_self s (select is_unprocessed sigs),
  Covers-mono (select is_unprocessed sigs) _ sigs (has_id-keep s (select is_unprocessed sigs))
      (Covers-select sigs),
)

abbrev mark : SignalRow → Instant → SignalRow → SignalRow
mark s now x = if x.id == s.id then record x { processed_at = some now } else x

mark_covered :
    (s x : SignalRow) (rows : List SignalRow) (now : Instant)
    → (is_unprocessed x ≡ true → has_id x.id (s ∷ rows) ≡ true)
    → is_unprocessed (mark s now x) ≡ true
    → has_id (mark s now x).id rows ≡ true
mark_covered s x rows now h waiting = elim (Bool-cases (x.id == s.id)) [
  | inl same ↦ absurd (ground arith)
  | inr other ↦ ground arith
]

Covers-mark :
    (s : SignalRow) (rows sigs : List SignalRow) (db : Db)
    → Covers (s ∷ rows) sigs
    → Covers rows (mark_signal_processed s.id (record db { signals = sigs })).signals
unfolding mark_signal_processed
Covers-mark s rows [] db h = tt
Covers-mark s rows (x ∷ sigs) db h =
    (mark_covered s x rows db.now h.0, Covers-mark s rows sigs db h.1)

select-Covers : (sigs : List SignalRow) → Covers [] sigs → select is_unprocessed sigs ≡ []
select-Covers [] h = refl
select-Covers (s ∷ sigs) h = ground (arith, h.0, select-Covers sigs h.1)

process_signals-drained :
    (settings : TraderSettings) (now : DateTime) (rows : List SignalRow) (r : RiskCycleResult)
    (db : Db) {pass : Pass}
    → process_signals settings now rows (r, db) ≡ ok pass
    → Covers rows db.signals
    → Covers [] pass.1.signals
unfolding process_signals
process_signals-drained settings now [] r db {pass} h covered =
    let same : db.signals ≡ pass.1.signals = ground arith in subst (Covers []) same covered
process_signals-drained settings now (s ∷ rows) r db {pass} h covered =
    let ((r', db'), turned, rest) = >>=-eq-ok (process_signal settings now s (r, db)) _ h in
    let (settled, _) = process_signal-Settles settings now s r db turned in
    process_signals-drained settings now rows r' db' {pass = pass} rest
      (subst (Covers rows) (sym settled.marked) (Covers-mark s rows db.signals db covered))

-- A pass that returns leaves no signal waiting, so the next pass loads none.
pub process_pending_signals_drains :
    (settings : TraderSettings) (now : DateTime) (db : Db) {pass : Pass}
    → process_pending_signals settings now db ≡ ok pass
    → load_unprocessed_signals pass.1 ≡ []
unfolding process_pending_signals load_unprocessed_signals
process_pending_signals_drains settings now db {pass} h = rw (
    select-Covers pass.1.signals (
      process_signals-drained settings now (load_unprocessed_signals db) no_signals db {pass = pass}
        h
        (Covers-mono (select is_unprocessed db.signals) _ db.signals
          (λ i there.
            has_id-order_by (λ s. s.candle_close_ts) (λ s. s.created_at) i
              (select is_unprocessed db.signals)
            ∙ there)
          (Covers-select db.signals))))
