-- ===== src/Backtest/Evaluators.antt =====
-- workers/src/marketmind_workers/backtest/iterative.py: the compilation of entry and exit conditions.
-- The sub-trees that depend on no trade are computed by the evaluators of translator.py, which are
-- parameters: a series of tests per condition, with false for a missing value, and of floats per
-- expression.
use marketmind_open.Common.{
  ℕ, zero, suc, ◌-◌, Bool, true, false, not, ◌&&◌, ◌||◌, List, [], ◌∷◌, if◌then◌else◌,
}
use marketmind_open.Common.Result.{Result, ok, err, iterative_backtest_error, ◌>>=◌}
use marketmind_open.Backtest.Floats.{Floats, one, is_nan, fmax, fmin}
use marketmind_open.Backtest.History.{
  TradeHistory, SignalHistory, evaluate_trades, evaluate_signals,
}
use marketmind_open.Backtest.Schema.{Series}
use marketmind_open.Backtest.Conditions.{
  Extremum, max, min, Expression, price, constant, indicator, lagged, scaled, percentile, ratchet,
  CompareOp, gt, ge, lt, le, eq, Condition, Conditions, compare, crossover, within_last_n_bars,
  rising, falling, and_of, or_of, not_of, regime_state, prior_trade, prior_signal, leaf, nil, cons,
  expr_uses_per_trade_ratchet, condition_uses_tier3,
}

abbrev pub EntryEval : Type 0 → Type 0
EntryEval F = ℕ → TradeHistory F → SignalHistory F → Bool

abbrev pub ExitEval : Type 0
ExitEval = ℕ → ℕ → Bool

module _ {F I L : Type 0} (eval_condition : Condition F I L → ℕ → Bool) where
  abbrev pub static_entry : Condition F I L → EntryEval F
  static_entry cond bar trades signals = eval_condition cond bar

  -- A shape that has to be of a static condition.
  abbrev pub static_only : Condition F I L → Result (EntryEval F)
  static_only cond =
      if condition_uses_tier3 cond then err iterative_backtest_error else ok (static_entry cond)

  abbrev pub all_entries : List (EntryEval F) → EntryEval F
  all_entries [] bar trades signals = true
  all_entries (child ∷ children) bar trades signals =
      child bar trades signals && all_entries children bar trades signals

  abbrev pub any_entries : List (EntryEval F) → EntryEval F
  any_entries [] bar trades signals = false
  any_entries (child ∷ children) bar trades signals =
      child bar trades signals || any_entries children bar trades signals

  unfoldable mutual
    pub build_entry_evaluator : Condition F I L → Result (EntryEval F)
    build_entry_evaluator (and_of cs) =
        let built = build_entries cs >>= λ children. ok (all_entries children) in
        if condition_uses_tier3 (and_of cs) then built else ok (static_entry (and_of cs))
    build_entry_evaluator (or_of cs) =
        let built = build_entries cs >>= λ children. ok (any_entries children) in
        if condition_uses_tier3 (or_of cs) then built else ok (static_entry (or_of cs))
    build_entry_evaluator (not_of c) =
        let built = build_entry_evaluator c >>= λ inner.
        ok (λ bar trades signals. not (inner bar trades signals)) in
        if condition_uses_tier3 (not_of c) then built else ok (static_entry (not_of c))
    build_entry_evaluator (prior_trade predicate n) =
        ok (λ bar trades signals. evaluate_trades predicate n bar trades)
    build_entry_evaluator (prior_signal predicate) =
        ok (λ bar trades signals. evaluate_signals predicate bar signals)
    build_entry_evaluator (compare l op r tf) = static_only (compare l op r tf)
    build_entry_evaluator (crossover s t above tf) = static_only (crossover s t above tf)
    build_entry_evaluator (within_last_n_bars c n) = static_only (within_last_n_bars c n)
    build_entry_evaluator (rising s n strict tf) = static_only (rising s n strict tf)
    build_entry_evaluator (falling s n strict tf) = static_only (falling s n strict tf)
    build_entry_evaluator (regime_state enter_when exit_when initial) =
        static_only (regime_state enter_when exit_when initial)
    build_entry_evaluator (leaf l) = static_only (leaf l)

    pub build_entries : Conditions F I L → Result (List (EntryEval F))
    build_entries nil = ok []
    build_entries (cons c cs) =
        build_entry_evaluator c >>= λ child. build_entries cs >>= λ children. ok (child ∷ children)

  -- The conditions of a conjunction that are static.
  abbrev pub core_of : Conditions F I L → List (Condition F I L)
  core_of nil = []
  core_of (cons c cs) = let rest = core_of cs in if condition_uses_tier3 c then rest else c ∷ rest

  abbrev pub all_hold : List (Condition F I L) → ℕ → Bool
  all_hold [] bar = true
  all_hold (c ∷ cs) bar = eval_condition c bar && all_hold cs bar

  abbrev pub raw_of : List (Condition F I L) → Result (ℕ → Bool)
  raw_of [] = err iterative_backtest_error
  raw_of (c ∷ cs) = ok (all_hold (c ∷ cs))

  unfoldable pub build_raw_signal : Condition F I L → Result (ℕ → Bool)
  build_raw_signal (and_of cs) = raw_of (core_of cs)
  build_raw_signal (compare l op r tf) = err iterative_backtest_error
  build_raw_signal (crossover s t above tf) = err iterative_backtest_error
  build_raw_signal (within_last_n_bars c n) = err iterative_backtest_error
  build_raw_signal (rising s n strict tf) = err iterative_backtest_error
  build_raw_signal (falling s n strict tf) = err iterative_backtest_error
  build_raw_signal (or_of cs) = err iterative_backtest_error
  build_raw_signal (not_of c) = err iterative_backtest_error
  build_raw_signal (regime_state enter_when exit_when i) = err iterative_backtest_error
  build_raw_signal (prior_trade predicate n) = err iterative_backtest_error
  build_raw_signal (prior_signal predicate) = err iterative_backtest_error
  build_raw_signal (leaf l) = err iterative_backtest_error

module _ {F I L : Type 0} (fl : Floats F) (eval_condition : Condition F I L → ℕ → Bool)
    (eval_expression : Expression F I → Series F) where
  open fl use {fmul}

  -- The source, the extremum and the scale of `scaled(factor, ... ratchet(...))`.
  unfoldable pub ratchet_and_scale : F → Expression F I → Result (Expression F I × Extremum × F)
  ratchet_and_scale scale (scaled expr factor) = ratchet_and_scale (fmul scale factor) expr
  ratchet_and_scale scale (ratchet source extremum reset) = ok (source, extremum, scale)
  ratchet_and_scale scale (price field) = err iterative_backtest_error
  ratchet_and_scale scale (constant value) = err iterative_backtest_error
  ratchet_and_scale scale (indicator i) = err iterative_backtest_error
  ratchet_and_scale scale (lagged expr n) = err iterative_backtest_error
  ratchet_and_scale scale (percentile expr n) = err iterative_backtest_error

  -- `count` values of a series from `bar` on.
  unfoldable pub window : Series F → ℕ → ℕ → List F
  window source zero bar = []
  window source (suc count) bar = source bar ∷ window source count (suc bar)

  -- `max` or `min` of a list with its first value apart.
  unfoldable pub extremum_of : Extremum → F → List F → F
  extremum_of extremum first [] = first
  extremum_of max first (x ∷ xs) = extremum_of max (fmax fl first x) xs
  extremum_of min first (x ∷ xs) = extremum_of min (fmin fl first x) xs

  unfoldable pub apply_op : CompareOp → F → F → Bool
  apply_op gt left right = fl.lt right left
  apply_op ge left right = fl.le right left
  apply_op lt left right = fl.lt left right
  apply_op le left right = fl.le left right
  apply_op eq left right = fl.eq left right

  abbrev pub compare_window : CompareOp → Bool → Extremum → F → List F → F → Bool
  compare_window op on_left extremum scale [] static_val = false
  compare_window op on_left extremum scale (x ∷ xs) static_val =
      let ratchet_val = fmul (extremum_of extremum x xs) scale in
      if is_nan fl ratchet_val || is_nan fl static_val
      then false
      else if on_left
      then apply_op op ratchet_val static_val
      else apply_op op static_val ratchet_val

  abbrev pub ratchet_compare : CompareOp → Bool → Expression F I → Expression F I → Result ExitEval
  ratchet_compare op on_left ratchet_side static_side =
      ratchet_and_scale (one fl) ratchet_side >>= λ unwrapped. ok (λ bar entry_bar.
        compare_window op on_left unwrapped.1 unwrapped.2
          (window (eval_expression unwrapped.0) (suc bar - entry_bar) entry_bar)
          (eval_expression static_side bar))

  unfoldable pub build_ratchet_compare_evaluator :
      Expression F I → CompareOp → Expression F I → Result ExitEval
  build_ratchet_compare_evaluator l op r =
      if expr_uses_per_trade_ratchet l
      then (if expr_uses_per_trade_ratchet r
          then err iterative_backtest_error
          else ratchet_compare op true l r)
      else if expr_uses_per_trade_ratchet r
      then ratchet_compare op false r l
      else err iterative_backtest_error

  abbrev pub all_exits : List ExitEval → ExitEval
  all_exits [] bar entry_bar = true
  all_exits (child ∷ children) bar entry_bar =
      child bar entry_bar && all_exits children bar entry_bar

  abbrev pub any_exits : List ExitEval → ExitEval
  any_exits [] bar entry_bar = false
  any_exits (child ∷ children) bar entry_bar =
      child bar entry_bar || any_exits children bar entry_bar

  abbrev pub static_exit : Condition F I L → ExitEval
  static_exit cond bar entry_bar = eval_condition cond bar

  -- The evaluator of a static condition, or what a stateful one compiles to.
  abbrev pub unless_static : Condition F I L → Result ExitEval → Result ExitEval
  unless_static cond built = if condition_uses_tier3 cond then built else ok (static_exit cond)

  unfoldable mutual
    pub build_exit_evaluator : Condition F I L → Result ExitEval
    build_exit_evaluator (and_of cs) =
        unless_static (and_of cs) (build_exits cs >>= λ children. ok (all_exits children))
    build_exit_evaluator (or_of cs) =
        unless_static (or_of cs) (build_exits cs >>= λ children. ok (any_exits children))
    build_exit_evaluator (not_of c) =
        unless_static (not_of c)
          (build_exit_evaluator c >>= λ inner. ok (λ bar entry_bar. not (inner bar entry_bar)))
    build_exit_evaluator (compare l op r tf) =
        unless_static (compare l op r tf) (build_ratchet_compare_evaluator l op r)
    build_exit_evaluator (prior_trade predicate n) = err iterative_backtest_error
    build_exit_evaluator (prior_signal predicate) = err iterative_backtest_error
    build_exit_evaluator (crossover s t above tf) =
        unless_static (crossover s t above tf) (err iterative_backtest_error)
    build_exit_evaluator (within_last_n_bars c n) =
        unless_static (within_last_n_bars c n) (err iterative_backtest_error)
    build_exit_evaluator (rising s n strict tf) =
        unless_static (rising s n strict tf) (err iterative_backtest_error)
    build_exit_evaluator (falling s n strict tf) =
        unless_static (falling s n strict tf) (err iterative_backtest_error)
    build_exit_evaluator (regime_state enter_when exit_when initial) =
        unless_static (regime_state enter_when exit_when initial) (err iterative_backtest_error)
    build_exit_evaluator (leaf l) = unless_static (leaf l) (err iterative_backtest_error)

    pub build_exits : Conditions F I L → Result (List ExitEval)
    build_exits nil = ok []
    build_exits (cons c cs) =
        build_exit_evaluator c >>= λ child. build_exits cs >>= λ children. ok (child ∷ children)
