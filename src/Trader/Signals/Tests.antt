-- ===== src/Trader/Signals/Tests.antt =====
-- Cycles over a small book, with templates that hold, buy or raise.
use marketmind_open.Common.{ℕ, ◌+◌, ◌≡◌, refl, Bool, true, false, none, [], ◌∷◌, length}
use marketmind_open.Common.Result.{ok, err, value_error}
use marketmind_open.Decimal.{literal}
use marketmind_open.Trader.Schema.{SignalKind}
use marketmind_open.Trader.Scenario.{version, signalled, eleven_o_clock}
use marketmind_open.Trader.Signals.Store.{
  Evaluation, Templates, Store, Pair, latest_closed_candle, signal_exists, load_candles_df,
  open_position, persist_signal, audit_hold, load_strategy_state, persist_strategy_state,
}
use marketmind_open.Trader.Signals.Pair.{
  SignalEngineResult, Pass, persist, record_evaluation, advance, evaluate_stateful_pair,
  evaluate_stateless_pair, evaluate_candle, evaluate_pair,
}
use marketmind_open.Trader.Signals.Cycle.{
  Settings, active_versions, convert_versions, load_active_versions, intersection, fetch_bars,
  attempt, over_timeframes, over_symbols, evaluate_version, over_versions, started,
  evaluate_one_cycle,
}
use marketmind_open.Trader.Signals.Counted.{outcomes}
use marketmind_open.Trader.Signals.Summary.{evaluate_one_cycle_accounts}
use marketmind_open.Trader.Signals.Repeated.{evaluate_pair_idempotent}

abbrev evaluation : SignalKind → Evaluation
evaluation kind = record {
  kind = kind;
  reason = "breakout";
  proposed_entry_price = literal 100 0;
  proposed_stop_price = literal 95 0;
  proposed_take_profit_price = none;
}

-- A template is the kind of signal it gives, and whether it is stateful; its state counts the
-- candles.
abbrev Template : Type 0
Template = SignalKind × Bool

abbrev templates : SignalKind → Bool → Templates Template ℕ
templates kind stateful = record {
  build = λ name parameters. ok (kind, stateful);
  min_bars_needed = λ template. 1;
  is_tier3 = λ template. false;
  is_stateful = λ template. template.1;
  evaluate = λ template candles position. ok (evaluation template.0);
  evaluate_stateful = λ template candles position prior. ok (evaluation template.0, length candles);
  has_tier3 = λ state. false;
}

abbrev configured : Settings
configured = record { symbols_list = "BTC/USDT" ∷ []; timeframes_list = "1h" ∷ "4h" ∷ [] }

abbrev pair : Pair
pair = record { version_id = 1; symbol = "BTC/USDT"; timeframe = "1h" }

abbrev quiet : Store ℕ
quiet = record {
  book = record signalled { signals = [] };
  states = [];
  alerts = [];
  audit_logs = [];
}

abbrev free : ℕ → Bool
free version_id = false

abbrev bought : Pass ℕ
bought = (
  record (started 1) { pair_attempts = 1; evaluations = 1; signals_persisted = 1 },
  record quiet {
    book = (persist_signal pair eleven_o_clock (evaluation SignalKind.buy) quiet.book).1;
  },
)

buys : evaluate_one_cycle (templates SignalKind.buy false) free configured quiet ≡ ok bought
unfolding evaluate_one_cycle load_active_versions convert_versions over_versions evaluate_version
    intersection over_symbols over_timeframes attempt fetch_bars evaluate_pair latest_closed_candle
    evaluate_candle signal_exists load_candles_df open_position evaluate_stateless_pair
    record_evaluation persist persist_signal
buys = refl

abbrev held : Pass ℕ
held = (
  record (started 0) { evaluations = 1; holds = 1 },
  audit_hold pair eleven_o_clock (evaluation SignalKind.hold)
      (persist_strategy_state (templates SignalKind.hold true) pair eleven_o_clock 1 quiet),
)

holds :
    evaluate_pair
      (templates SignalKind.hold true)
      free
      pair
      (SignalKind.hold, true)
      1
      6
      (started 0, quiet)
    ≡ ok held
unfolding evaluate_pair latest_closed_candle evaluate_candle signal_exists load_candles_df
    open_position evaluate_stateful_pair load_strategy_state advance persist_strategy_state
    record_evaluation audit_hold
holds = refl

evaluate_one_cycle_accounts_example :
    (bought.0.versions_loaded ≡ length (active_versions quiet.book))
    × (outcomes bought.0 ≡ bought.0.pair_attempts)
    × (length bought.1.book.signals ≡ length quiet.book.signals + bought.0.signals_persisted)
    × (length bought.1.audit_logs ≡ length quiet.audit_logs + bought.0.holds)
    × (length bought.1.alerts ≡ length quiet.alerts + bought.0.pair_state_disabled)
evaluate_one_cycle_accounts_example =
    evaluate_one_cycle_accounts (templates SignalKind.buy false) free configured quiet bought.1
      bought.0 buys

evaluate_pair_idempotent_example :
    (m' : SignalEngineResult) × (evaluate_pair
        (templates SignalKind.hold true)
        free
        pair
        (SignalKind.hold, true)
        1
        6
        (started 7, held.1)
      ≡ ok (m', held.1))
    × (m'.evaluations ≡ 0)
evaluate_pair_idempotent_example =
    evaluate_pair_idempotent (templates SignalKind.hold true) free pair (SignalKind.hold, true) 1 6
      refl (started 0) held.0 (started 7) quiet held.1 holds refl

-- A template without state that raises ends the cycle of all versions.
abbrev raising : Templates Template ℕ
raising = record (templates SignalKind.buy false) {
  evaluate = λ template candles position. err value_error;
}

cycle_aborts : evaluate_one_cycle raising free configured quiet ≡ err value_error
unfolding evaluate_one_cycle load_active_versions convert_versions over_versions evaluate_version
    intersection over_symbols over_timeframes attempt fetch_bars evaluate_pair latest_closed_candle
    evaluate_candle signal_exists load_candles_df open_position evaluate_stateless_pair
    record_evaluation persist persist_signal
cycle_aborts = refl

-- A timeframe that the enum does not have ends the cycle before any version is evaluated.
abbrev two_hours : Store ℕ
two_hours = record quiet {
  book = record quiet.book { versions = record version { timeframes = "2h" ∷ [] } ∷ [] };
}

unknown_timeframe :
    evaluate_one_cycle (templates SignalKind.buy false) free configured two_hours ≡ err value_error
unfolding evaluate_one_cycle load_active_versions convert_versions
unknown_timeframe = refl
