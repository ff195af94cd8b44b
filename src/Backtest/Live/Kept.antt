-- ===== src/Backtest/Live/Kept.antt =====
-- What an entry condition reads of the trades is what a checkpoint keeps of them.
use marketmind_open.Common.{
  ℕ, ◌≡◌, refl, ap, subst, Bool, if◌then◌else◌, true, false, not, List, [], ◌∷◌, arith,
}
use marketmind_open.Common.Result.{
  Result, ok, err, iterative_backtest_error, ok-injective, after_bind,
}
use marketmind_open.Backtest.History.{
  TradeOutcome, TradeHistory, SignalHistory, TradePredicate, trailing_run, evaluate_trades,
  last_won, last_lost, consecutive_wins_at_least, consecutive_losses_at_least,
  bars_since_last_at_least, win, loss,
}
use marketmind_open.Backtest.Conditions.{
  Condition, Conditions, compare, crossover, within_last_n_bars, rising, falling, and_of, or_of,
  not_of, regime_state, prior_trade, prior_signal, leaf, nil, cons, condition_uses_tier3,
}
use marketmind_open.Backtest.Evaluators.{
  EntryEval, static_entry, static_only, all_entries, any_entries, build_entry_evaluator,
  build_entries,
}
use marketmind_open.Backtest.Live.Checkpoint.{keep_trades}

-- An evaluator that tells no two histories apart of which a checkpoint keeps the same.
abbrev pub ReadsKept : {F : Type 0} → EntryEval F → Type 0
ReadsKept {F} eval =
    (bar : ℕ) (h h' : TradeHistory F) (signals : SignalHistory F)
    → keep_trades h ≡ keep_trades h'
    → eval bar h signals ≡ eval bar h' signals

module _ {F : Type 0} where
  trailing_run-kept :
      (o : TradeOutcome) (h h' : TradeHistory F)
      → keep_trades h ≡ keep_trades h'
      → trailing_run o h ≡ trailing_run o h'
  unfolding trailing_run keep_trades
  trailing_run-kept o [] [] e = refl
  trailing_run-kept o [] (t ∷ h') e = cc
  trailing_run-kept o (t ∷ h) [] e = cc
  trailing_run-kept o (t ∷ h) (t' ∷ h') e = ground (arith, e, trailing_run-kept o h h')

  evaluate_trades-kept :
      (predicate : TradePredicate) (n bar : ℕ) (h h' : TradeHistory F)
      → keep_trades h ≡ keep_trades h'
      → evaluate_trades predicate n bar h ≡ evaluate_trades predicate n bar h'
  unfolding evaluate_trades keep_trades
  evaluate_trades-kept consecutive_wins_at_least n bar h h' e = rw (trailing_run-kept win h h' e)
  evaluate_trades-kept consecutive_losses_at_least n bar h h' e = rw (trailing_run-kept loss h h' e)
  evaluate_trades-kept last_won n bar [] [] e = refl
  evaluate_trades-kept last_lost n bar [] [] e = refl
  evaluate_trades-kept bars_since_last_at_least n bar [] [] e = refl
  evaluate_trades-kept p n bar [] (t ∷ h') e = cc
  evaluate_trades-kept p n bar (t ∷ h) [] e = cc
  evaluate_trades-kept p n bar (t ∷ h) (t' ∷ h') e = ground (arith, e)

module _ {F I L : Type 0} (eval_condition : Condition F I L → ℕ → Bool) where
  abbrev AllReadKept : List (EntryEval F) → Type 0
  AllReadKept [] = Unit
  AllReadKept (eval ∷ evals) = ReadsKept eval × AllReadKept evals

  choice-ReadsKept :
      (b : Bool) (cond : Condition F I L) (built : Result (EntryEval F)) (eval : EntryEval F)
      → ((f : EntryEval F) → built ≡ ok f → ReadsKept f)
      → (if b then built else ok (static_entry eval_condition cond)) ≡ ok eval
      → ReadsKept eval
  choice-ReadsKept true cond built eval sound h = sound eval h
  choice-ReadsKept false cond built eval sound h =
      subst ReadsKept (ok-injective h) (λ bar h₁ h₂ signals e. refl)

  static_only-ReadsKept :
      (cond : Condition F I L) (eval : EntryEval F)
      → static_only eval_condition cond ≡ ok eval
      → ReadsKept eval
  static_only-ReadsKept cond eval built =
      choice-ReadsKept (condition_uses_tier3 cond) cond (err iterative_backtest_error) eval
        (λ f wrong. absurd (cc)) built

  all_entries-ReadsKept :
      (evals : List (EntryEval F))
      → AllReadKept evals
      → ReadsKept (all_entries eval_condition evals)
  all_entries-ReadsKept [] blind bar h h' signals e = refl
  all_entries-ReadsKept (eval ∷ evals) blind bar h h' signals e =
      rw (blind.0 bar h h' signals e, all_entries-ReadsKept evals blind.1 bar h h' signals e)

  any_entries-ReadsKept :
      (evals : List (EntryEval F))
      → AllReadKept evals
      → ReadsKept (any_entries eval_condition evals)
  any_entries-ReadsKept [] blind bar h h' signals e = refl
  any_entries-ReadsKept (eval ∷ evals) blind bar h h' signals e =
      rw (blind.0 bar h h' signals e, any_entries-ReadsKept evals blind.1 bar h h' signals e)

  mutual
    unfolding build_entry_evaluator

    build-ReadsKept :
        (cond : Condition F I L) (eval : EntryEval F)
        → build_entry_evaluator eval_condition cond ≡ ok eval
        → ReadsKept eval
    build-ReadsKept (and_of cs) eval h =
        choice-ReadsKept (condition_uses_tier3 (and_of cs)) (and_of cs) _ eval
          (λ f built. after_bind (build_entries eval_condition cs) _ built λ evals children made.
            subst ReadsKept (ok-injective made)
              (all_entries-ReadsKept evals (builds-ReadsKept cs evals children)))
          h
    build-ReadsKept (or_of cs) eval h =
        choice-ReadsKept (condition_uses_tier3 (or_of cs)) (or_of cs) _ eval
          (λ f built. after_bind (build_entries eval_condition cs) _ built λ evals children made.
            subst ReadsKept (ok-injective made)
              (any_entries-ReadsKept evals (builds-ReadsKept cs evals children)))
          h
    build-ReadsKept (not_of c) eval h =
        choice-ReadsKept (condition_uses_tier3 (not_of c)) (not_of c) _ eval
          (λ f built.
            after_bind (build_entry_evaluator eval_condition c) _ built λ inner child made.
              subst ReadsKept (ok-injective made)
                (λ bar h₁ h₂ signals e. ap not (build-ReadsKept c inner child bar h₁ h₂ signals e)))
          h
    build-ReadsKept (prior_trade predicate n) eval h =
        subst ReadsKept (ok-injective h)
          (λ bar h₁ h₂ signals e. evaluate_trades-kept predicate n bar h₁ h₂ e)
    build-ReadsKept (prior_signal predicate) eval h =
        subst ReadsKept (ok-injective h) (λ bar h₁ h₂ signals e. refl)
    build-ReadsKept (compare l op r tf) eval h = static_only-ReadsKept (compare l op r tf) eval h
    build-ReadsKept (crossover s t up tf) eval h =
        static_only-ReadsKept (crossover s t up tf) eval h
    build-ReadsKept (within_last_n_bars c n) eval h =
        static_only-ReadsKept (within_last_n_bars c n) eval h
    build-ReadsKept (rising s n strict tf) eval h =
        static_only-ReadsKept (rising s n strict tf) eval h
    build-ReadsKept (falling s n strict tf) eval h =
        static_only-ReadsKept (falling s n strict tf) eval h
    build-ReadsKept (regime_state a b initial) eval h =
        static_only-ReadsKept (regime_state a b initial) eval h
    build-ReadsKept (leaf l) eval h = static_only-ReadsKept (leaf l) eval h

    builds-ReadsKept :
        (cs : Conditions F I L) (evals : List (EntryEval F))
        → build_entries eval_condition cs ≡ ok evals
        → AllReadKept evals
    builds-ReadsKept nil evals h = subst AllReadKept (ok-injective h) tt
    builds-ReadsKept (cons c cs) evals h =
        after_bind (build_entry_evaluator eval_condition c) _ h λ child built rest.
          after_bind (build_entries eval_condition cs) _ rest λ children builts made.
            subst AllReadKept (ok-injective made)
              (build-ReadsKept c child built, builds-ReadsKept cs children builts)

  -- An entry condition, compiled, tells no two histories of trades apart of which a checkpoint keeps the
  -- same.
  pub build_entry_evaluator-ReadsKept :
      (cond : Condition F I L) (eval : EntryEval F)
      → build_entry_evaluator eval_condition cond ≡ ok eval
      → ReadsKept eval
  build_entry_evaluator-ReadsKept cond eval h = build-ReadsKept cond eval h
