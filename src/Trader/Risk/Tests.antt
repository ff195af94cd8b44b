-- ===== src/Trader/Risk/Tests.antt =====
-- The risk manager on the scenario's book.
use marketmind_open.Common.{
  ℕ, ◌+◌, ◌*◌, ◌^◌, ◌≤◌, ◌<◌, ◌≡◌, ◌↔◌, refl, some, [], ◌∷◌, length, arith, false,
}
use marketmind_open.Common.Int.{pos, ◌+ℤ◌, ◌-ℤ◌}
use marketmind_open.Common.Result.{ok}
use marketmind_open.Clock.{utc, day, require_utc, utc_midnight_of, utc_monday_of}
use marketmind_open.Decimal.{literal, scale, rounded, fix, add, sub, mul, div, neg}
use marketmind_open.Decimal.Round.{round_ratio, half_even}
use marketmind_open.Money.{quantize_size}
use marketmind_open.Trader.Tables.{Db, insert_order}
use marketmind_open.Trader.Scenario.{
  settings, version, buy_signal, signalled, ordered, eleven_o_clock,
}
use marketmind_open.Trader.Risk.Checks.{
  Block, exposure_block, Proposal, RiskInputs, BlockDecision, approved, blocked, disabled_block,
  risk_budget, stop_distance, emit_risk_event, block_with, check_state, size_trade, check_exposure,
  check_entry, decide, evaluate_risk,
}
use marketmind_open.Trader.Risk.State.{
  load_version_for_risk, latest_candle_close_ts, compute_portfolio_state, anchor_equity_at,
  compute_window_pnl, compute_total_open_risk, latest_close_of, compute_symbol_existing_notional,
  gather_inputs,
}
use marketmind_open.Trader.Risk.Cycle.{
  RiskCycleResult, proposal_of, load_unprocessed_signals, process_signal, process_signals,
  decide_signal, carry_out, create_paper_order, mark_signal_processed, process_pending_signals,
  no_signals,
}
use marketmind_open.Trader.Risk.Gate.{IsPermitted}
use marketmind_open.Trader.Risk.Turn.{SameBooks, outcomes}
use marketmind_open.Trader.Risk.Outcome.{
  event_of, Explains, evaluate_risk_approves, evaluate_risk-Explains,
}
use marketmind_open.Trader.Risk.Sizing.{approved_size_risk, evaluate_risk_total}
use marketmind_open.Trader.Risk.Progress.{process_pending_signals_accounts, process_signal_inputs}
use marketmind_open.Trader.Risk.Drained.{process_pending_signals_drains}

abbrev proposal : Proposal
proposal = proposal_of buy_signal version

abbrev inputs : RiskInputs
inputs = record {
  portfolio = record {
    cash = literal 10000 0;
    equity = literal 10000 0;
    peak_equity = literal 10000 0;
    drawdown_pct = literal 0 0;
    starting_equity = literal 10000 0;
  };
  daily_pnl = record { anchor_equity = literal 10000 0; pnl = literal 0 0 };
  weekly_pnl = record { anchor_equity = literal 10000 0; pnl = literal 0 0 };
  latest_candle_close_ts = eleven_o_clock;
  total_open_risk = literal 0 0;
  symbol_existing_notional = literal 0 0;
}

gathered :
    gather_inputs settings (20000 * day) (19997 * day) "BTC/USDT" eleven_o_clock signalled ≡ inputs
unfolding gather_inputs compute_portfolio_state compute_window_pnl anchor_equity_at
    compute_total_open_risk compute_symbol_existing_notional latest_close_of div mul add sub neg fix
    ◌+ℤ◌ ◌-ℤ◌ rounded round_ratio half_even
gathered = refl

approved_buy :
    evaluate_risk settings proposal inputs signalled.now signalled
    ≡ ok (approved (some (literal 20 0)), signalled)
unfolding evaluate_risk check_entry check_state size_trade check_exposure decide block_with
    emit_risk_event quantize_size div mul add sub neg fix ◌+ℤ◌ ◌-ℤ◌ rounded round_ratio half_even
approved_buy = refl

evaluate_risk_approves_example :
    (evaluate_risk settings proposal inputs signalled.now signalled
      ≡ ok (approved (some (literal 20 0)), signalled))
    ↔ IsPermitted settings proposal inputs signalled.now (literal 20 0)
evaluate_risk_approves_example =
    evaluate_risk_approves settings proposal inputs signalled.now signalled (literal 20 0) refl

abbrev disabled : Proposal
disabled = record proposal { strategy_enabled = false }

abbrev disabled_recorded : Db
disabled_recorded = record signalled {
  risk_events = event_of disabled disabled_block 11 ∷ [];
  next_id = 12;
}

blocked_buy :
    evaluate_risk settings disabled inputs signalled.now signalled
    ≡ ok (blocked disabled_block 11, disabled_recorded)
unfolding evaluate_risk check_entry check_state size_trade check_exposure decide block_with
    emit_risk_event quantize_size div mul add sub neg fix ◌+ℤ◌ ◌-ℤ◌ rounded round_ratio half_even
blocked_buy = refl

-- With 4000 in the symbol, another 2000 are above half of the equity.
abbrev crowded : RiskInputs
crowded = record inputs { symbol_existing_notional = literal 4000 0 }

abbrev too_much : Block
too_much = exposure_block proposal crowded (literal 20 0)

abbrev crowded_recorded : Db
crowded_recorded = record signalled {
  risk_events = event_of proposal too_much 11 ∷ [];
  next_id = 12;
}

blocked_crowded :
    evaluate_risk settings proposal crowded signalled.now signalled
    ≡ ok (blocked too_much 11, crowded_recorded)
unfolding evaluate_risk check_entry check_state size_trade check_exposure decide block_with
    emit_risk_event quantize_size div mul add sub neg fix ◌+ℤ◌ ◌-ℤ◌ rounded round_ratio half_even
blocked_crowded = refl

evaluate_risk-Explains_example :
    Explains settings proposal crowded signalled.now too_much.event_type too_much
evaluate_risk-Explains_example =
    evaluate_risk-Explains settings proposal crowded signalled.now signalled refl blocked_crowded

budget : risk_budget settings proposal inputs ≡ pos (100 * scale)
unfolding div mul add sub neg fix ◌+ℤ◌ ◌-ℤ◌ rounded round_ratio half_even
budget = refl

distance : stop_distance proposal ≡ pos (5 * scale)
unfolding div mul add sub neg fix ◌+ℤ◌ ◌-ℤ◌ rounded round_ratio half_even
distance = refl

approved_size_risk_example :
    (n : ℕ) × (literal 20 0 ≡ pos n)
    × (0 < n)
    × (2 * 10 ^ 27 * (n * (5 * scale)) ≤ (2 * 10 ^ 27 + 1) * (100 * scale * scale))
approved_size_risk_example =
    approved_size_risk settings proposal inputs budget distance signalled.now
      (evaluate_risk_approves_example.0 approved_buy)

evaluate_risk_total_example :
    (r : BlockDecision × Db) × (evaluate_risk settings proposal inputs signalled.now signalled
      ≡ ok r)
evaluate_risk_total_example =
    evaluate_risk_total settings proposal inputs budget distance signalled.now signalled
      (omega arith) (omega arith)

abbrev one_approved : RiskCycleResult
one_approved = record no_signals { signals_processed = 1; signals_approved = 1 }

turned :
    process_signal settings (utc signalled.now) buy_signal (no_signals, signalled)
    ≡ ok (one_approved, ordered)
unfolding process_signal decide_signal carry_out create_paper_order mark_signal_processed
    load_version_for_risk latest_candle_close_ts insert_order utc_midnight_of utc_monday_of
    require_utc gather_inputs compute_portfolio_state compute_window_pnl anchor_equity_at
    compute_total_open_risk compute_symbol_existing_notional latest_close_of evaluate_risk
    check_entry check_state size_trade check_exposure decide block_with emit_risk_event
    quantize_size div mul add sub neg fix ◌+ℤ◌ ◌-ℤ◌ rounded round_ratio half_even
turned = refl

ran : process_pending_signals settings (utc signalled.now) signalled ≡ ok (one_approved, ordered)
unfolding process_pending_signals process_signals load_unprocessed_signals
ran = rw turned refl

process_pending_signals_accounts_example :
    SameBooks signalled ordered
    × (1 ≡ length (load_unprocessed_signals signalled))
    × (outcomes one_approved ≡ 1)
    × (length ordered.orders ≡ length signalled.orders + 1)
process_pending_signals_accounts_example =
    process_pending_signals_accounts settings (utc signalled.now) signalled ran

process_pending_signals_drains_example : load_unprocessed_signals ordered ≡ []
process_pending_signals_drains_example =
    process_pending_signals_drains settings (utc signalled.now) signalled ran

process_signal_inputs_example :
    gather_inputs settings (20000 * day) (19997 * day) "BTC/USDT" eleven_o_clock ordered
    ≡ gather_inputs settings (20000 * day) (19997 * day) "BTC/USDT" eleven_o_clock signalled
process_signal_inputs_example =
    process_signal_inputs settings (utc signalled.now) buy_signal no_signals signalled (20000 * day)
      (19997 * day) "BTC/USDT" eleven_o_clock turned
