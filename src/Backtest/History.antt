-- ===== src/Backtest/History.antt =====
-- workers/src/marketmind_workers/backtest/trade_history.py: the completed trades and the evaluated entry
-- signals of a run. The lists hold the most recent record first, so that a reversed scan goes from the
-- head.
pub mod Runs
use marketmind_open.Common.{
  ℕ, suc, ◌+◌, Bool, true, false, ◌&&◌, Option, none, some, List, [], ◌∷◌, leb, ◌==◌, if◌then◌else◌,
}
use marketmind_open.Common.Result.{Result, ok, err, value_error}
use marketmind_open.Backtest.Floats.{Floats}

pub data TradeOutcome : Type 0 where
  win loss breakeven : TradeOutcome

abbrev pub same_outcome : TradeOutcome → TradeOutcome → Bool
same_outcome win win = true
same_outcome loss loss = true
same_outcome breakeven breakeven = true
same_outcome _ _ = false

-- The threshold is 1e-9.
unfoldable pub classify_outcome : {F : Type 0} → Floats F → F → TradeOutcome
classify_outcome fl return_pct =
    let eps = fl.constant 1 9 in
    if fl.lt eps return_pct then win else if fl.lt return_pct (fl.fneg eps) then loss else breakeven

pub record CompletedTrade (F : Type 0) : Type 0 where
  pub trade_id : ℕ
  pub entry_index : ℕ
  pub exit_index : ℕ
  pub entry_price : F
  pub exit_price : F
  pub pnl : F
  pub return_pct : F
  pub outcome : TradeOutcome

abbrev pub TradeHistory : Type 0 → Type 0
TradeHistory F = List (CompletedTrade F)

pub data TradePredicate : Type 0 where
  last_won last_lost consecutive_wins_at_least consecutive_losses_at_least : TradePredicate
  bars_since_last_at_least : TradePredicate

abbrev pub is_outcome : TradeOutcome → Option TradeOutcome → Bool
is_outcome outcome none = false
is_outcome outcome (some last) = same_outcome last outcome

module _ {F : Type 0} where
  unfoldable pub last_outcome : TradeHistory F → Option TradeOutcome
  last_outcome [] = none
  last_outcome (trade ∷ _) = some trade.outcome

  unfoldable pub trailing_run : TradeOutcome → TradeHistory F → ℕ
  trailing_run outcome [] = 0
  trailing_run outcome (trade ∷ trades) =
      if same_outcome trade.outcome outcome then suc (trailing_run outcome trades) else 0

  abbrev pub elapsed : ℕ → ℕ → TradeHistory F → Bool
  elapsed n current_bar [] = false
  elapsed n current_bar (trade ∷ _) = leb (trade.exit_index + n) current_bar

  -- `TradeHistory.evaluate_predicate` with the bar that the simulators pass.
  unfoldable pub evaluate_trades : TradePredicate → ℕ → ℕ → TradeHistory F → Bool
  unfolding last_outcome trailing_run
  evaluate_trades last_won n bar trades = is_outcome win (last_outcome trades)
  evaluate_trades last_lost n bar trades = is_outcome loss (last_outcome trades)
  evaluate_trades consecutive_wins_at_least n bar trades = leb n (trailing_run win trades)
  evaluate_trades consecutive_losses_at_least n bar trades = leb n (trailing_run loss trades)
  evaluate_trades bars_since_last_at_least n bar trades = elapsed n bar trades

pub record SignalRecord (F : Type 0) : Type 0 where
  pub signal_bar : ℕ
  pub fired : Bool
  pub return_pct : Option F
  pub outcome : Option TradeOutcome
  pub resolved_bar : Option ℕ

abbrev pub SignalHistory : Type 0 → Type 0
SignalHistory F = List (SignalRecord F)

pub data SignalPredicate : Type 0 where
  last_would_have_won last_would_have_lost last_fired : SignalPredicate

abbrev pub is_pending : Option TradeOutcome → Bool
is_pending none = true
is_pending (some _) = false

module _ {F : Type 0} (fl : Floats F) where
  -- What a record becomes when its trade has closed.
  abbrev pub filled : F → ℕ → SignalRecord F → SignalRecord F
  filled return_pct resolved_bar rec = record rec {
    return_pct = some return_pct;
    outcome = some (classify_outcome fl return_pct);
    resolved_bar = some resolved_bar;
  }

  unfoldable pub record_skipped : ℕ → F → ℕ → SignalHistory F → SignalHistory F
  record_skipped signal_bar return_pct resolved_bar signals =
      record {
        signal_bar = signal_bar;
        fired = false;
        return_pct = some return_pct;
        outcome = some (classify_outcome fl return_pct);
        resolved_bar = some resolved_bar;
      }
      ∷ signals

  unfoldable pub resolve_last_pending : F → ℕ → SignalHistory F → Result (SignalHistory F)
  resolve_last_pending return_pct resolved_bar [] = err value_error
  resolve_last_pending return_pct resolved_bar (rec ∷ signals) = elim (is_pending rec.outcome) [
    | true ↦ ok (filled return_pct resolved_bar rec ∷ signals)
    | false ↦ elim (resolve_last_pending return_pct resolved_bar signals) [
      | err e ↦ err e
      | ok rest ↦ ok (rec ∷ rest)
    ]
  ]

  -- The oldest pending record of the bar: the rest of the list is searched first.
  unfoldable pub resolve : ℕ → F → ℕ → SignalHistory F → Result (SignalHistory F)
  resolve signal_bar return_pct resolved_bar [] = err value_error
  resolve signal_bar return_pct resolved_bar (rec ∷ signals) =
      elim (resolve signal_bar return_pct resolved_bar signals) [
        | ok rest ↦ ok (rec ∷ rest)
        | err e ↦
            if rec.signal_bar == signal_bar && is_pending rec.outcome
            then ok (filled return_pct resolved_bar rec ∷ signals)
            else err value_error
      ]

abbrev pub known_by : ℕ → Option ℕ → Bool
known_by current_bar none = false
known_by current_bar (some resolved) = leb resolved current_bar

module _ {F : Type 0} where
  -- `record_fired` and `record_skipped_pending`.
  abbrev pub pending_record : Bool → ℕ → SignalRecord F
  pending_record fired signal_bar = record {
    signal_bar = signal_bar;
    fired = fired;
    return_pct = none;
    outcome = none;
    resolved_bar = none;
  }

  unfoldable pub record_fired : ℕ → SignalHistory F → SignalHistory F
  record_fired signal_bar signals = pending_record true signal_bar ∷ signals

  unfoldable pub record_skipped_pending : ℕ → SignalHistory F → SignalHistory F
  record_skipped_pending signal_bar signals = pending_record false signal_bar ∷ signals

  unfoldable pub most_recent_resolved : ℕ → SignalHistory F → Option (SignalRecord F)
  most_recent_resolved current_bar [] = none
  most_recent_resolved current_bar (rec ∷ signals) =
      if known_by current_bar rec.resolved_bar
      then some rec
      else most_recent_resolved current_bar signals

  abbrev pub judge : SignalPredicate → Option (SignalRecord F) → Bool
  judge predicate none = false
  judge last_would_have_won (some rec) = is_outcome win rec.outcome
  judge last_would_have_lost (some rec) = is_outcome loss rec.outcome
  judge last_fired (some rec) = rec.fired

  -- `SignalHistory.evaluate_predicate`
  unfoldable pub evaluate_signals : SignalPredicate → ℕ → SignalHistory F → Bool
  unfolding most_recent_resolved
  evaluate_signals predicate bar signals = judge predicate (most_recent_resolved bar signals)
