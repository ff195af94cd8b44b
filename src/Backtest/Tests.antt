-- ===== src/Backtest/Tests.antt =====
-- A strategy that buys on two signals, with a stop of 5%, over eight bars.
use marketmind_open.Common.{
  All, ℕ, zero, suc, ◌+◌, ◌≡◌, ◌≢◌, ◌↔◌, refl, Bool, true, false, ◌&&◌, ◌||◌, Option, none, some,
  List, [], ◌∷◌, leb, ltb, ◌==◌, length, arith,
}
use marketmind_open.Common.Int.{◌+ℤ◌, ◌-ℤ◌}
use marketmind_open.Common.Result.{Result, ok, err, value_error, validation_error, ◌>>=◌}
use marketmind_open.Decimal.{Decimal, literal}
use marketmind_open.Trader.Schema.{SignalKind, hold}
use marketmind_open.Backtest.Exact.{exact, ltb_ℤ_trans}
use marketmind_open.Backtest.History.{
  last_outcome, trailing_run, most_recent_resolved, record_fired, record_skipped,
  record_skipped_pending, resolve, resolve_last_pending, loss, bars_since_last_at_least,
  consecutive_losses_at_least, last_lost, last_would_have_lost, evaluate_trades, evaluate_signals,
  classify_outcome,
}
use marketmind_open.Backtest.Schema.{
  StopLossMethod, PositionSizing, Series, Compiled, Position, Trade, ExitReason,
}
use marketmind_open.Backtest.Levels.{stop_level_of, tp_level_of, update_trailing, intrabar_exit}
use marketmind_open.Backtest.Sizing.{entry_size}
use marketmind_open.Backtest.Positions.{
  open_position, close_position, closing, passes_trade, completed, phantom_return, exit_hit,
}
use marketmind_open.Backtest.Shadow.{fill_entry}
use marketmind_open.Backtest.Phantom.{phantom, phantom_loop}
use marketmind_open.Backtest.Conditions.{
  condition_uses_tier3, iter_conditions, iter_all_expressions, condition_direct_expressions,
  iter_expressions, Condition, leaf, and_of, not_of, prior_trade, prior_signal, nil, cons,
}
use marketmind_open.Backtest.Evaluators.{EntryEval, build_entry_evaluator}
use marketmind_open.Backtest.Compile.{Inputs}
use marketmind_open.Backtest.History.Runs.{LastAre, evaluate_trades-Asks}
use marketmind_open.Backtest.Levels.Trailing.{trail, Raised, trail-Raised}
use marketmind_open.Backtest.Iterative.Order.{EndBy, run_iterative_backtest-EndBy}
use marketmind_open.Backtest.Iterative.Pending.{run_iterative_backtest_settles}
use marketmind_open.Backtest.Iterative.Promise.{Agrees}
use marketmind_open.Backtest.Iterative.Agree.{run_iterative_backtest-Agrees}
use marketmind_open.Backtest.Iterative.Numbered.{walk_bars_counts}
use marketmind_open.Backtest.Live.Checkpoint.{
  Tier3State, checkpoint, cold_sim, keep_trades, restore_trades, passes_models, to_sim, to_tier3,
}
use marketmind_open.Backtest.Live.{
  new_phantom, decision_of, advance_phantom, live_close, live_fill_exit, live_check_range,
  advance_phantoms, live_decide_entry, live_decide_exit, live_step, live_steps, run_live_cycle,
}
use marketmind_open.Backtest.Live.Parity.{live_of, live_steps-walk_bars}
use marketmind_open.Backtest.Live.Peek.{advance_all, Foresees, advance_all-Foresees}
use marketmind_open.Backtest.Live.Kept.{ReadsKept, build_entry_evaluator-ReadsKept}
use marketmind_open.Backtest.Live.Resume.{run_live_cycle_resumes}
use marketmind_open.Backtest.Iterative.{
  Walk, first_walk, book_close, fill_exit, check_range, mark_equity, decide_entry, decide_exit,
  walk_bar, walk_bars, close_last, run_iterative_backtest,
}

abbrev price_of : List ℕ → Series Decimal
price_of [] bar = literal 0 0
price_of (p ∷ ps) zero = literal p 0
price_of (p ∷ ps) (suc bar) = price_of ps bar

-- The leaf k holds on the bars k and k + 4.
abbrev inputs : Inputs Decimal ℕ ℕ
inputs = record {
  eval_condition = λ cond bar. elim cond [ leaf k ↦ k == bar || k + 4 == bar | _ ↦ false ];
  eval_expression = λ e bar. literal 0 0;
  atr = λ period bar. literal 1 0;
  opens = price_of (100 ∷ 101 ∷ 102 ∷ 95 ∷ 96 ∷ 110 ∷ 111 ∷ 112 ∷ []);
  highs = price_of (102 ∷ 103 ∷ 104 ∷ 97 ∷ 98 ∷ 112 ∷ 113 ∷ 114 ∷ []);
  lows = price_of (98 ∷ 99 ∷ 100 ∷ 93 ∷ 94 ∷ 108 ∷ 109 ∷ 110 ∷ []);
  closes = price_of (101 ∷ 102 ∷ 103 ∷ 96 ∷ 97 ∷ 111 ∷ 112 ∷ 113 ∷ []);
  commission = literal 0 0;
  slippage = literal 0 0;
}

abbrev returned : {A : Type 0} → A → Result A → A
returned default (err e) = default
returned default (ok a) = a

abbrev never : EntryEval Decimal
never bar trades signals = false

-- A signal, unless the last trade lost.
abbrev after_no_loss : Condition Decimal ℕ ℕ
after_no_loss = and_of (cons (leaf 0) (cons (not_of (prior_trade last_lost 1)) nil))

-- A signal, if the last one would have lost.
abbrev after_loser : Condition Decimal ℕ ℕ
after_loser = and_of (cons (leaf 0) (cons (prior_signal last_would_have_lost) nil))

abbrev entry_of : Condition Decimal ℕ ℕ → EntryEval Decimal
entry_of cond = returned never (build_entry_evaluator inputs.eval_condition cond)

abbrev compiled : Condition Decimal ℕ ℕ → Option (ℕ → Bool) → Compiled Decimal
compiled cond raw = record {
  opens = inputs.opens;
  highs = inputs.highs;
  lows = inputs.lows;
  closes = inputs.closes;
  entry_eval = entry_of cond;
  raw_signal = raw;
  cond_exits = [];
  stop_method = some (StopLossMethod.trailing_percent (literal 5 2));
  tp_method = none;
  max_bars = some 3;
  commission = literal 0 0;
  slippage = literal 0 0;
  sizing = PositionSizing.fixed_quantity (literal 1 0);
  atr = none;
}

abbrev ungated : Compiled Decimal
ungated = compiled after_no_loss none

abbrev gated : Compiled Decimal
gated = compiled after_loser (some (λ bar. 0 == bar || 4 == bar))

abbrev start : Walk Decimal
start = first_walk exact ungated (literal 1000 0)

abbrev times : {F : Type 0} → List (Trade F) → List (ℕ × ℕ × ExitReason)
times [] = []
times (t ∷ trades) = (t.entry_time, t.exit_time, t.exit_reason) ∷ times trades

-- The first trade is stopped at the gap of bar 3, and its loss keeps the second signal out.
ungated_run :
    times (returned start (run_iterative_backtest exact ungated 8 (literal 1000 0))).trades
    ≡ (0, 3, ExitReason.stop_loss) ∷ []
unfolding run_iterative_backtest walk_bars walk_bar fill_entry fill_exit check_range decide_entry
    mark_equity decide_exit build_entry_evaluator condition_uses_tier3 iter_conditions
    iter_all_expressions condition_direct_expressions iter_expressions evaluate_trades last_outcome
    trailing_run evaluate_signals most_recent_resolved record_fired record_skipped
    resolve_last_pending classify_outcome open_position stop_level_of tp_level_of entry_size
    intrabar_exit update_trailing book_close close_last close_position closing passes_trade
    completed exit_hit phantom phantom_loop phantom_return ◌+ℤ◌ ◌-ℤ◌
ungated_run = refl

-- The phantom of the first signal loses, and the gate lets the second one in; its trade is open at the
-- end.
gated_run :
    times (returned start (run_iterative_backtest exact gated 8 (literal 1000 0))).trades
    ≡ (4, 7, ExitReason.end_of_data) ∷ []
unfolding run_iterative_backtest walk_bars walk_bar fill_entry fill_exit check_range decide_entry
    mark_equity decide_exit build_entry_evaluator condition_uses_tier3 iter_conditions
    iter_all_expressions condition_direct_expressions iter_expressions evaluate_trades last_outcome
    trailing_run evaluate_signals most_recent_resolved record_fired record_skipped
    resolve_last_pending classify_outcome open_position stop_level_of tp_level_of entry_size
    intrabar_exit update_trailing book_close close_last close_position closing passes_trade
    completed exit_hit phantom phantom_loop phantom_return ◌+ℤ◌ ◌-ℤ◌
gated_run = refl

live_steps-walk_bars_example :
    live_steps exact ungated 7 0 (live_of start)
    ≡ (walk_bars exact ungated 8 7 0 start >>= λ w. ok (live_of w))
live_steps-walk_bars_example = live_steps-walk_bars exact ungated refl 8 7 0 start (omega arith)

advance_all-Foresees_example :
    Foresees exact gated 8 0 4 (advance_all exact gated 3 1 (new_phantom exact gated 0))
advance_all-Foresees_example = advance_all-Foresees exact gated 8 2 0 (omega arith)

abbrev ended : Walk Decimal
ended = returned start (run_iterative_backtest exact ungated 8 (literal 1000 0))

run_iterative_backtest-EndBy_example : EndBy 7 ended.trades
unfolding run_iterative_backtest walk_bars walk_bar fill_entry fill_exit check_range decide_entry
    mark_equity decide_exit build_entry_evaluator condition_uses_tier3 iter_conditions
    iter_all_expressions condition_direct_expressions iter_expressions evaluate_trades last_outcome
    trailing_run evaluate_signals most_recent_resolved record_fired record_skipped
    resolve_last_pending classify_outcome open_position stop_level_of tp_level_of entry_size
    intrabar_exit update_trailing book_close close_last close_position closing passes_trade
    completed exit_hit phantom phantom_loop phantom_return ◌+ℤ◌ ◌-ℤ◌
run_iterative_backtest-EndBy_example =
    run_iterative_backtest-EndBy exact ungated 8 (literal 1000 0) ended refl

-- Each bar opens at 100.
abbrev steady : Compiled Decimal
steady = record ungated { opens = λ bar. literal 100 0 }

abbrev steady_end : Walk Decimal
steady_end = returned start (run_iterative_backtest exact steady 8 (literal 1000 0))

run_iterative_backtest-Agrees_example : All (Agrees exact steady 8) steady_end.trades
unfolding run_iterative_backtest walk_bars walk_bar fill_entry fill_exit check_range decide_entry
    mark_equity decide_exit build_entry_evaluator condition_uses_tier3 iter_conditions
    iter_all_expressions condition_direct_expressions iter_expressions evaluate_trades last_outcome
    trailing_run evaluate_signals most_recent_resolved record_fired record_skipped
    resolve_last_pending classify_outcome open_position stop_level_of tp_level_of entry_size
    intrabar_exit update_trailing book_close close_last close_position closing passes_trade
    completed exit_hit phantom phantom_loop phantom_return ◌+ℤ◌ ◌-ℤ◌
run_iterative_backtest-Agrees_example =
    run_iterative_backtest-Agrees exact steady 8 (λ bar in_range. refl) (literal 1000 0) steady_end
      refl

steady_run : times steady_end.trades ≡ (0, 3, ExitReason.stop_loss) ∷ []
unfolding run_iterative_backtest walk_bars walk_bar fill_entry fill_exit check_range decide_entry
    mark_equity decide_exit build_entry_evaluator condition_uses_tier3 iter_conditions
    iter_all_expressions condition_direct_expressions iter_expressions evaluate_trades last_outcome
    trailing_run evaluate_signals most_recent_resolved record_fired record_skipped
    resolve_last_pending classify_outcome open_position stop_level_of tp_level_of entry_size
    intrabar_exit update_trailing book_close close_last close_position closing passes_trade
    completed exit_hit phantom phantom_loop phantom_return ◌+ℤ◌ ◌-ℤ◌
steady_run = refl

run_iterative_backtest_settles_example :
    run_iterative_backtest exact gated 8 (literal 1000 0) ≢ err value_error
run_iterative_backtest_settles_example =
    run_iterative_backtest_settles exact gated 8 (literal 1000 0)

abbrev walked : Walk Decimal
walked = returned start (walk_bars exact ungated 8 5 0 start)

walk_bars_counts_example :
    evaluate_trades bars_since_last_at_least 4 5 walked.shadow.history
    ≡ (ltb 0 (length walked.shadow.history) && leb (length walked.shadow.history + 4) 5)
unfolding run_iterative_backtest walk_bars walk_bar fill_entry fill_exit check_range decide_entry
    mark_equity decide_exit build_entry_evaluator condition_uses_tier3 iter_conditions
    iter_all_expressions condition_direct_expressions iter_expressions evaluate_trades last_outcome
    trailing_run evaluate_signals most_recent_resolved record_fired record_skipped
    resolve_last_pending classify_outcome open_position stop_level_of tp_level_of entry_size
    intrabar_exit update_trailing book_close close_last close_position closing passes_trade
    completed exit_hit phantom phantom_loop phantom_return ◌+ℤ◌ ◌-ℤ◌
walk_bars_counts_example = walk_bars_counts exact ungated 8 5 (literal 1000 0) walked 4 5 refl

-- Two bars after the stop of bar 3 a wait of four bars is over: the first trade has exit index 1.
throttle_open : evaluate_trades bars_since_last_at_least 4 5 walked.shadow.history ≡ true
unfolding run_iterative_backtest walk_bars walk_bar fill_entry fill_exit check_range decide_entry
    mark_equity decide_exit build_entry_evaluator condition_uses_tier3 iter_conditions
    iter_all_expressions condition_direct_expressions iter_expressions evaluate_trades last_outcome
    trailing_run evaluate_signals most_recent_resolved record_fired record_skipped
    resolve_last_pending classify_outcome open_position stop_level_of tp_level_of entry_size
    intrabar_exit update_trailing book_close close_last close_position closing passes_trade
    completed exit_hit phantom phantom_loop phantom_return ◌+ℤ◌ ◌-ℤ◌
throttle_open = refl

evaluate_trades-Asks_example :
    (evaluate_trades consecutive_losses_at_least 1 5 walked.shadow.history ≡ true)
    ↔ LastAre loss 1 walked.shadow.history
evaluate_trades-Asks_example =
    evaluate_trades-Asks consecutive_losses_at_least 1 5 walked.shadow.history

abbrev held : Position Decimal
held = record {
  entry_bar = 0;
  entry_fill = literal 101 0;
  size = literal 1 0;
  stop_level = some (literal 96 0);
  tp_level = none;
  trail_anchor = literal 101 0;
}

-- A close at a price of zero is no trade.
refused_close :
    close_position exact ungated held 3 (literal 0 0) ExitReason.stop_loss (literal 899 0)
    ≡ err validation_error
unfolding close_position closing passes_trade ◌-ℤ◌
refused_close = refl

trail-Raised_example :
    Raised exact ungated.stop_method ungated.atr held.stop_level
      (trail exact ungated.stop_method ungated.atr 3 1 ungated.highs held).stop_level
trail-Raised_example =
    trail-Raised exact ungated.stop_method ungated.atr ltb_ℤ_trans 3 1 ungated.highs held

reads_kept : ReadsKept gated.entry_eval
unfolding run_iterative_backtest walk_bars walk_bar fill_entry fill_exit check_range decide_entry
    mark_equity decide_exit build_entry_evaluator condition_uses_tier3 iter_conditions
    iter_all_expressions condition_direct_expressions iter_expressions evaluate_trades last_outcome
    trailing_run evaluate_signals most_recent_resolved record_fired record_skipped
    resolve_last_pending classify_outcome open_position stop_level_of tp_level_of entry_size
    intrabar_exit update_trailing book_close close_last close_position closing passes_trade
    completed exit_hit phantom phantom_loop phantom_return ◌+ℤ◌ ◌-ℤ◌
reads_kept = build_entry_evaluator-ReadsKept inputs.eval_condition after_loser gated.entry_eval refl

abbrev half : Result (Tier3State Decimal × SignalKind)
half = run_live_cycle exact gated 4 none none

abbrev half_state : Tier3State Decimal × SignalKind
half_state = returned (checkpoint exact (cold_sim exact) none, hold) half

-- The checkpoint is taken after the phantom resolves.
run_live_cycle_resumes_example :
    run_live_cycle exact gated 8 (some half_state.0) (some 3)
    ≡ run_live_cycle exact gated 8 none none
unfolding run_live_cycle live_steps live_step live_fill_exit live_check_range live_close
    live_decide_entry live_decide_exit advance_phantoms advance_phantom decision_of to_sim to_tier3
    passes_models keep_trades restore_trades record_skipped_pending resolve run_iterative_backtest
    walk_bars walk_bar fill_entry fill_exit check_range decide_entry mark_equity decide_exit
    build_entry_evaluator condition_uses_tier3 iter_conditions iter_all_expressions
    condition_direct_expressions iter_expressions evaluate_trades last_outcome trailing_run
    evaluate_signals most_recent_resolved record_fired record_skipped resolve_last_pending
    classify_outcome open_position stop_level_of tp_level_of entry_size intrabar_exit
    update_trailing book_close close_last close_position closing passes_trade completed exit_hit
    phantom phantom_loop phantom_return ◌+ℤ◌ ◌-ℤ◌
run_live_cycle_resumes_example =
    run_live_cycle_resumes exact gated reads_kept 4 8 none none half_state.0 half_state.1 refl
      (omega arith) (omega arith)
