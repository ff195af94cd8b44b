-- ===== src/Trader/Signals/Pair.antt =====
-- `_evaluate_pair`: the lock, the guards in their order, the evaluation and what is persisted.
-- `locked` tells for which versions `try_advisory_xact_lock` fails. The transaction rolls back what
-- an exception leaves, so the store is part of a result only when nothing was raised.
use marketmind_open.Common.{
  ℕ, suc, Bool, true, false, Option, none, some, List, length, leb, ltb, if◌then◌else◌,
}
use marketmind_open.Common.Int.{ℤ, leb_ℤ}
use marketmind_open.Common.Result.{Result, ok, err}
use marketmind_open.Clock.{Instant}
use marketmind_open.Trader.Schema.{SignalKind, CandleRow, PositionRow}
use marketmind_open.Trader.Signals.Store.{
  Evaluation, Templates, Store, Pair, cold, warm, corrupt, latest_closed_candle, signal_exists,
  load_candles_df, open_position, persist_signal, audit_hold, load_strategy_state,
  handle_corrupt_state, persist_strategy_state,
}

-- The counters of a cycle: `SignalEngineResult`, and `_CycleState` while it runs.
pub record SignalEngineResult : Type 0 where
  pub versions_loaded : ℕ
  pub versions_misconfigured : ℕ
  pub pair_attempts : ℕ
  pub pair_locked_out : ℕ
  pub pair_no_data : ℕ
  pub pair_insufficient_history : ℕ
  pub pair_duplicate_signal : ℕ
  pub pair_state_guarded : ℕ
  pub pair_state_disabled : ℕ
  pub evaluations : ℕ
  pub holds : ℕ
  pub signals_persisted : ℕ

-- The counters and the store.
abbrev pub Pass : Type 0 → Type 0
Pass St = SignalEngineResult × Store St

abbrev pub locked_out : SignalEngineResult → SignalEngineResult
locked_out n = record n { pair_locked_out = suc n.pair_locked_out }

abbrev pub no_data : SignalEngineResult → SignalEngineResult
no_data n = record n { pair_no_data = suc n.pair_no_data }

abbrev pub insufficient_history : SignalEngineResult → SignalEngineResult
insufficient_history n = record n { pair_insufficient_history = suc n.pair_insufficient_history }

abbrev pub duplicate_signal : SignalEngineResult → SignalEngineResult
duplicate_signal n = record n { pair_duplicate_signal = suc n.pair_duplicate_signal }

abbrev pub state_guarded : SignalEngineResult → SignalEngineResult
state_guarded n = record n { pair_state_guarded = suc n.pair_state_guarded }

abbrev pub no_stop : Evaluation → Bool
no_stop e = leb_ℤ e.proposed_stop_price (ℤ.pos 0)

abbrev pub is_hold : SignalKind → Bool
is_hold SignalKind.hold = true
is_hold SignalKind.buy = false
is_hold SignalKind.sell = false
is_hold SignalKind.exit = false

module _ {St : Type 0} where
  -- A signal that is not a hold: nothing without a positive stop, else an insertion.
  unfoldable pub persist : Pair → Instant → Evaluation → Pass St → Pass St
  persist p close_ts e (n, s) =
      let (inserted, book) = persist_signal p close_ts e s.book in
      if no_stop e
      then (n, s)
      else (if inserted
          then (record n { signals_persisted = suc n.signals_persisted }, record s { book = book })
          else (duplicate_signal n, record s { book = book }))

  -- From `state.evaluations += 1` to the end.
  unfoldable pub record_evaluation : Pair → Instant → Evaluation → Pass St → Pass St
  record_evaluation p close_ts e (n, s) =
      let n' = record n { evaluations = suc n.evaluations } in
      if is_hold e.kind
      then (record n' { holds = suc n.holds }, audit_hold p close_ts e s)
      else persist p close_ts e (n', s)

  unfoldable pub disable : Pair → Option Instant → Pass St → Pass St
  disable p as_of_candle (n, s) = (
    record n { pair_state_disabled = suc n.pair_state_disabled },
    handle_corrupt_state p as_of_candle s,
  )

  module _ {T : Type 0} (ops : Templates T St) where
    -- `template.evaluate_stateful`, whose exceptions disable the version, and what follows it.
    unfoldable pub advance :
        Pair → T → Instant → List CandleRow → Option PositionRow → Option St → Pass St → Pass St
    advance p template close_ts candles position prior (n, s) =
        elim (ops.evaluate_stateful template candles position prior) [
          | err e ↦ disable p (some close_ts) (n, s)
          | ok result ↦
              record_evaluation p close_ts result.0
                (n, persist_strategy_state ops p close_ts result.1 s)
        ]

    -- The branch of a stateful template.
    unfoldable pub evaluate_stateful_pair :
        Pair → T → Instant → List CandleRow → Option PositionRow → Pass St → Pass St
    evaluate_stateful_pair p template close_ts candles position (n, s) =
        elim (load_strategy_state p s) [
          | corrupt as_of_candle ↦ disable p (some as_of_candle) (n, s)
          | cold ↦ advance p template close_ts candles position none (n, s)
          | warm prior prev_state_ts ↦
              if leb close_ts prev_state_ts
              then (state_guarded n, s)
              else advance p template close_ts candles position (some prior) (n, s)
        ]

    -- The branch of any other template, whose exceptions are not caught.
    unfoldable pub evaluate_stateless_pair :
        Pair → T → Instant → List CandleRow → Option PositionRow → Pass St → Result (Pass St)
    evaluate_stateless_pair p template close_ts candles position (n, s) =
        elim (ops.evaluate template candles position) [
          | err e ↦ err e
          | ok e ↦ ok (record_evaluation p close_ts e (n, s))
        ]

    -- From the check for a signal on.
    unfoldable pub evaluate_candle : Pair → T → ℕ → ℕ → Instant → Pass St → Result (Pass St)
    evaluate_candle p template min_bars fetch_bars close_ts (n, s) =
        let candles = load_candles_df p fetch_bars s.book in
        let position = open_position p s.book in
        if signal_exists p close_ts s.book
        then ok (duplicate_signal n, s)
        else (if ltb (length candles) min_bars
            then ok (insufficient_history n, s)
            else (if ops.is_stateful template
                then ok (evaluate_stateful_pair p template close_ts candles position (n, s))
                else evaluate_stateless_pair p template close_ts candles position (n, s)))

    unfoldable pub evaluate_pair : (ℕ → Bool) → Pair → T → ℕ → ℕ → Pass St → Result (Pass St)
    evaluate_pair locked p template min_bars fetch_bars (n, s) =
        if locked p.version_id
        then ok (locked_out n, s)
        else (elim (latest_closed_candle p s.book) [
          | none ↦ ok (no_data n, s)
          | some close_ts ↦ evaluate_candle p template min_bars fetch_bars close_ts (n, s)
        ])
