-- ===== src/Backtest/Compile.antt =====
-- workers/src/marketmind_workers/backtest/iterative.py: the compilation of a specification, and the
-- backtest of one. The costs of fee_model.py and slippage_model.py and the range series of indicators.py
-- are parameters.
use marketmind_open.Common.{
  ℕ, Bool, true, false, Option, none, some, List, [], ◌∷◌, ◌++◌, if◌then◌else◌,
}
use marketmind_open.Common.Result.{Result, ok, err, iterative_backtest_error, ◌>>=◌}
use marketmind_open.Backtest.Floats.{Floats, fmin}
use marketmind_open.Backtest.Schema.{
  StopLossMethod, TakeProfitMethod, PositionSizing, Series, Compiled,
}
use marketmind_open.Backtest.Conditions.{Expression, Condition, condition_uses_prior_signal}
use marketmind_open.Backtest.Evaluators.{
  EntryEval, ExitEval, build_entry_evaluator, build_raw_signal, build_exit_evaluator,
}
use marketmind_open.Backtest.Iterative.{Walk, run_iterative_backtest}

pub data Direction : Type 0 where
  long short : Direction

pub record RMultipleExit (F : Type 0) : Type 0 where
  pub atr_period : ℕ
  pub atr_multiple : F
  pub stop_r : F
  pub target_r : F

pub data ExitCondition (F I L : Type 0) : Type 0 where
  stop_loss_exit : StopLossMethod F → ExitCondition F I L
  take_profit_exit : TakeProfitMethod F → ExitCondition F I L
  condition_exit : Condition F I L → ExitCondition F I L
  time_exit : ℕ → ExitCondition F I L
  r_multiple_exit : RMultipleExit F → ExitCondition F I L

-- What the simulators read of a specification.
pub record StrategySpec (F I L : Type 0) : Type 0 where
  pub direction : Direction
  pub has_filters : Bool
  pub entry : Condition F I L
  pub exits : List (ExitCondition F I L)
  pub position_sizing : PositionSizing F

-- The exits of a specification by kind.
pub record ExitRules (F : Type 0) : Type 0 where
  pub cond_exits : List ExitEval
  pub stop_method : Option (StopLossMethod F)
  pub tp_method : Option (TakeProfitMethod F)
  pub max_bars : Option ℕ

-- What is computed outside the simulators.
pub record Inputs (F I L : Type 0) : Type 0 where
  pub eval_condition : Condition F I L → ℕ → Bool
  pub eval_expression : Expression F I → Series F
  pub atr : ℕ → Series F
  pub opens : Series F
  pub highs : Series F
  pub lows : Series F
  pub closes : Series F
  pub commission : F
  pub slippage : F

module _ {F I L : Type 0} (fl : Floats F) (inputs : Inputs F I L) where
  open fl use {fmul, constant}

  -- Both multiples are cut at 20.0.
  unfoldable pub decompose_r_multiple : RMultipleExit F → StopLossMethod F × TakeProfitMethod F
  decompose_r_multiple ex = (
    StopLossMethod.atr_multiple ex.atr_period
        (fmin fl (fmul ex.stop_r ex.atr_multiple) (constant 20 0)),
    TakeProfitMethod.atr_multiple ex.atr_period
        (fmin fl (fmul ex.target_r ex.atr_multiple) (constant 20 0)),
  )

  -- One exit: a later one of the same kind replaces an earlier one.
  abbrev pub add_exit : ExitCondition F I L → ExitRules F → Result (ExitRules F)
  add_exit (stop_loss_exit method) rules = ok (record rules { stop_method = some method })
  add_exit (take_profit_exit method) rules = ok (record rules { tp_method = some method })
  add_exit (time_exit bars) rules = ok (record rules { max_bars = some bars })
  add_exit (r_multiple_exit ex) rules =
      let (stop, target) = decompose_r_multiple ex in
      ok (record rules { stop_method = some stop; tp_method = some target })
  add_exit (condition_exit cond) rules =
      build_exit_evaluator fl inputs.eval_condition inputs.eval_expression cond >>= λ built.
      ok (record rules { cond_exits = rules.cond_exits ++ built ∷ [] })

  abbrev pub add_exits : List (ExitCondition F I L) → ExitRules F → Result (ExitRules F)
  add_exits [] rules = ok rules
  add_exits (ex ∷ exits) rules = add_exit ex rules >>= add_exits exits

  unfoldable pub compile_exit_rules : List (ExitCondition F I L) → Result (ExitRules F)
  compile_exit_rules exits =
      add_exits exits
        (record { cond_exits = []; stop_method = none; tp_method = none; max_bars = none })

  abbrev pub atr_for_target : Option (TakeProfitMethod F) → Option (Series F)
  atr_for_target (some (TakeProfitMethod.atr_multiple period mult)) = some (inputs.atr period)
  atr_for_target (some (TakeProfitMethod.percent value)) = none
  atr_for_target (some (TakeProfitMethod.r_multiple r)) = none
  atr_for_target (some (TakeProfitMethod.fixed_price level)) = none
  atr_for_target none = none

  -- The period of the stop wins.
  unfoldable pub atr_for_stop :
      Option (StopLossMethod F) → Option (TakeProfitMethod F) → Option (Series F)
  atr_for_stop (some (StopLossMethod.atr_multiple period mult)) tp = some (inputs.atr period)
  atr_for_stop (some (StopLossMethod.trailing_atr period mult)) tp = some (inputs.atr period)
  atr_for_stop (some (StopLossMethod.percent value)) tp = atr_for_target tp
  atr_for_stop (some (StopLossMethod.fixed_price level)) tp = atr_for_target tp
  atr_for_stop (some (StopLossMethod.trailing_percent value)) tp = atr_for_target tp
  atr_for_stop none tp = atr_for_target tp

  abbrev pub raw_signal_of : Condition F I L → Result (Option (ℕ → Bool))
  raw_signal_of entry =
      if condition_uses_prior_signal entry
      then (build_raw_signal inputs.eval_condition entry >>= λ raw. ok (some raw))
      else ok none

  abbrev pub assemble :
      StrategySpec F I L → EntryEval F → ExitRules F → Option (ℕ → Bool) → Compiled F
  assemble spec entry_eval rules raw = record {
    opens = inputs.opens;
    highs = inputs.highs;
    lows = inputs.lows;
    closes = inputs.closes;
    entry_eval = entry_eval;
    raw_signal = raw;
    cond_exits = rules.cond_exits;
    stop_method = rules.stop_method;
    tp_method = rules.tp_method;
    max_bars = rules.max_bars;
    commission = inputs.commission;
    slippage = inputs.slippage;
    sizing = spec.position_sizing;
    atr = atr_for_stop rules.stop_method rules.tp_method;
  }

  abbrev pub compile_parts : StrategySpec F I L → Result (Compiled F)
  compile_parts spec = build_entry_evaluator inputs.eval_condition spec.entry >>= λ entry_eval.
      compile_exit_rules spec.exits >>= λ rules.
      raw_signal_of spec.entry >>= λ raw. ok (assemble spec entry_eval rules raw)

  abbrev pub unfiltered : Bool → Direction → Bool
  unfiltered false long = true
  unfiltered true long = false
  unfiltered _ short = false

  -- The guards and the compilation, up to the loop.
  unfoldable pub compile : StrategySpec F I L → Result (Compiled F)
  compile spec =
      if unfiltered spec.has_filters spec.direction
      then compile_parts spec
      else err iterative_backtest_error

  -- The backtest of a specification over n bars.
  unfoldable pub backtest : StrategySpec F I L → ℕ → F → Result (Walk F)
  backtest spec n initial_capital =
      compile spec >>= λ c. run_iterative_backtest fl c n initial_capital
