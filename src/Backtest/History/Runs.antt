-- ===== src/Backtest/History/Runs.antt =====
-- The runs of equal outcomes at the end of a history of trades.
use marketmind_open.Common.{
  ℕ, zero, suc, ◌+◌, ◌≤◌, ◌≡◌, ◌↔◌, true, [], ◌∷◌, leb, inl, inr, Bool-cases, arith,
}
use marketmind_open.Backtest.History.{
  TradeOutcome, TradeHistory, TradePredicate, win, loss, same_outcome, trailing_run,
  consecutive_wins_at_least, consecutive_losses_at_least, bars_since_last_at_least, last_won,
  last_lost, evaluate_trades,
}

-- There are n trades or more, and the last n of them have the outcome.
abbrev pub LastAre : {F : Type 0} → TradeOutcome → ℕ → TradeHistory F → Type 0
LastAre outcome zero trades = Unit
LastAre outcome (suc n) [] = ⊥
LastAre outcome (suc n) (t ∷ trades) = (t.outcome ≡ outcome) × LastAre outcome n trades

-- There is a trade, and n bars have passed since the exit index of the last one.
abbrev pub PassedSince : {F : Type 0} → ℕ → ℕ → TradeHistory F → Type 0
PassedSince n bar [] = ⊥
PassedSince n bar (t ∷ trades) = t.exit_index + n ≤ bar

-- What the predicates of a prior_trade condition ask for.
abbrev pub Asks : {F : Type 0} → TradePredicate → ℕ → ℕ → TradeHistory F → Type 0
Asks last_won n bar trades = LastAre win 1 trades
Asks last_lost n bar trades = LastAre loss 1 trades
Asks consecutive_wins_at_least n bar trades = LastAre win n trades
Asks consecutive_losses_at_least n bar trades = LastAre loss n trades
Asks bars_since_last_at_least n bar trades = PassedSince n bar trades

same_outcome_iff : (a b : TradeOutcome) → (same_outcome a b ≡ true) ↔ (a ≡ b)
same_outcome_iff a b = (ground arith, ground arith)

module _ {F : Type 0} where
  trailing_run-LastAre :
      (o : TradeOutcome) (n : ℕ) (h : TradeHistory F)
      → (leb n (trailing_run o h) ≡ true) ↔ LastAre o n h
  unfolding trailing_run
  trailing_run-LastAre o zero h = (λ e. tt, λ e. ground arith)
  trailing_run-LastAre o (suc n) [] = (ground arith, λ none. absurd none)
  trailing_run-LastAre o (suc n) (t ∷ h) =
      let same = same_outcome_iff t.outcome o in
      let rest = trailing_run-LastAre o n h in
      (
        λ e. elim (Bool-cases (same_outcome t.outcome o)) [
          | inl equal ↦ (same.0 equal, rest.0 (ground (arith, e, equal)))
          | inr differs ↦ absurd (ground (arith, e, differs))
        ],
        λ last.
            let equal = same.1 last.0 in let long = rest.1 last.1 in ground (arith, equal, long),
      )

  -- A prior_trade predicate holds exactly when the history is as it asks: the last trade, or the last n,
  -- have the outcome, or n bars have passed since the exit index of the last one.
  pub evaluate_trades-Asks :
      (predicate : TradePredicate) (n bar : ℕ) (h : TradeHistory F)
      → (evaluate_trades predicate n bar h ≡ true) ↔ Asks predicate n bar h
  unfolding evaluate_trades
  evaluate_trades-Asks consecutive_wins_at_least n bar h = trailing_run-LastAre win n h
  evaluate_trades-Asks consecutive_losses_at_least n bar h = trailing_run-LastAre loss n h
  evaluate_trades-Asks last_won n bar [] = (λ e. cc, λ none. absurd none)
  evaluate_trades-Asks last_won n bar (t ∷ h) =
      let same = same_outcome_iff t.outcome win in (λ e. (same.0 e, tt), λ asks. same.1 asks.0)
  evaluate_trades-Asks last_lost n bar [] = (λ e. cc, λ none. absurd none)
  evaluate_trades-Asks last_lost n bar (t ∷ h) =
      let same = same_outcome_iff t.outcome loss in (λ e. (same.0 e, tt), λ asks. same.1 asks.0)
  evaluate_trades-Asks bars_since_last_at_least n bar [] = (λ e. cc, λ none. absurd none)
  evaluate_trades-Asks bars_since_last_at_least n bar (t ∷ h) = (ground arith, ground arith)
