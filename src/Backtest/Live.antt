-- ===== src/Backtest/Live.antt =====
-- workers/src/marketmind_workers/backtest/iterative_live.py: the stepper of the live trader, which goes
-- on from a checkpoint and advances the phantom trades bar by bar.
pub mod Checkpoint
pub mod Parity
pub mod Peek
pub mod Kept
pub mod Alike
pub mod Resume
use marketmind_open.Common.{
  ℕ, zero, suc, ◌+◌, ◌-◌, ◌==◌, Bool, true, false, Option, none, some, List, [], ◌∷◌, ◌++◌, ◌⊎◌,
  inl, inr, if◌then◌else◌,
}
use marketmind_open.Common.Result.{Result, ok, ◌>>=◌}
use marketmind_open.Trader.Schema.{SignalKind, buy, exit, hold}
use marketmind_open.Backtest.Floats.{Floats, nought, one, is_nan}
use marketmind_open.Backtest.History.{SignalHistory, record_fired, record_skipped_pending, resolve}
use marketmind_open.Backtest.Schema.{Position, ExitReason, signal, Compiled}
use marketmind_open.Backtest.Levels.{update_trailing, intrabar_exit}
use marketmind_open.Backtest.Positions.{close_position, completed, phantom_return, exit_hit}
use marketmind_open.Backtest.Shadow.{Shadow, is_flat, fill_entry}
use marketmind_open.Backtest.Phantom.{no_fill, phantom_position, phantom}
use marketmind_open.Backtest.Live.Checkpoint.{LivePhantom, LiveSim, Tier3State, to_sim, to_tier3}

-- The bar after `last_bar`, and the bar before `n`, where none is -1.
abbrev pub after : Option ℕ → ℕ
after none = 0
after (some bar) = suc bar

abbrev pub before : ℕ → Option ℕ
before zero = none
before (suc bar) = some bar

abbrev pub at_bar : Option ℕ → Option ℕ → Bool
at_bar (some pending) (some bar) = pending == bar
at_bar none _ = false
at_bar (some _) none = false

unfoldable pub decision_of : {F : Type 0} → Shadow F → Option ℕ → SignalKind
decision_of s latest =
    if at_bar s.pending_entry_bar latest
    then buy
    else if at_bar s.pending_exit_bar latest
    then exit
    else hold

module _ {F : Type 0} (fl : Floats F) (c : Compiled F) where
  open fl use {fadd}

  -- A phantom still open, or its return and the bar of its close.
  abbrev pub Advanced : Type 0
  Advanced = LivePhantom F ⊎ (F × ℕ)

  abbrev pub still_open : ℕ → Position F → Option ℕ → LivePhantom F
  still_open signal_bar pos pending_exit_bar = record {
    signal_bar = signal_bar;
    position = some pos;
    pending_exit_bar = pending_exit_bar;
  }

  abbrev pub advance_open : ℕ → Position F → Option ℕ → ℕ → Advanced
  advance_open signal_bar pos (some exit_bar) bar =
      inr (phantom_return fl pos.entry_fill (c.opens bar) c.commission c.slippage, bar)
  advance_open signal_bar pos none bar =
      elim (intrabar_exit fl pos (c.lows bar) (c.highs bar) (c.opens bar)) [
        | some (hit_price, reason) ↦
            inr (phantom_return fl pos.entry_fill hit_price c.commission c.slippage, bar)
        | none ↦ inl (
            still_open signal_bar (update_trailing fl pos c.stop_method (c.highs bar) c.atr bar)
              (if exit_hit c bar signal_bar then some bar else none))
      ]

  unfoldable pub advance_phantom : LivePhantom F → ℕ → Result Advanced
  advance_phantom ph bar = elim ph.position [
    | some pos ↦ ok (advance_open ph.signal_bar pos ph.pending_exit_bar bar)
    | none ↦
        if no_fill fl c (c.opens bar)
        then ok (inr (nought fl, bar))
        else phantom_position fl c ph.signal_bar (c.opens bar) >>= λ pos.
            ok (advance_open ph.signal_bar pos ph.pending_exit_bar bar)
  ]

  -- A signal takes the outcome of its trade, found by the bar of the entry.
  abbrev pub settle_entry :
      Option (ℕ → Bool) → ℕ → F → ℕ → SignalHistory F → Result (SignalHistory F)
  settle_entry none entry_bar return_pct bar signals = ok signals
  settle_entry (some raw) entry_bar return_pct bar signals =
      resolve fl entry_bar return_pct bar signals

  unfoldable pub live_close : Position F → ℕ → F → ExitReason → ℕ → Shadow F → Result (Shadow F)
  live_close pos exit_bar raw_price reason bar s =
      let trade_id = suc s.trade_id in
      close_position fl c pos exit_bar raw_price reason s.cash >>= λ (cash, trade).
      settle_entry c.raw_signal pos.entry_bar trade.return_pct bar s.signal_history >>= λ signals.
      ok (record s {
        history = completed fl trade pos trade_id ∷ s.history;
        signal_history = signals;
        position = none;
        trade_id = trade_id;
        cash = cash;
      })

  -- The exit of step 1.
  unfoldable pub live_fill_exit : ℕ → Shadow F → Result (Shadow F)
  live_fill_exit bar s = elim s.position [
    | none ↦ ok s
    | some pos ↦ elim s.pending_exit_bar [
      | none ↦ ok s
      | some exit_bar ↦
          if is_nan fl (c.opens bar)
          then ok (record s { pending_exit_bar = none })
          else live_close pos exit_bar (c.opens bar) signal bar s >>= λ closed.
              ok (record closed { pending_exit_bar = none })
    ]
  ]

  -- Step 2.
  unfoldable pub live_check_range : ℕ → Shadow F → Result (Shadow F)
  live_check_range bar s = elim s.position [
    | none ↦ ok s
    | some pos ↦ elim (intrabar_exit fl pos (c.lows bar) (c.highs bar) (c.opens bar)) [
      | some (hit_price, reason) ↦ live_close pos bar hit_price reason bar s
      | none ↦ ok (record s {
        position = some (update_trailing fl pos c.stop_method (c.highs bar) c.atr bar);
      })
    ]
  ]

  -- What step 2.5 does with one phantom.
  abbrev pub settle_phantom :
      LivePhantom F → Advanced → SignalHistory F → Result (SignalHistory F × List (LivePhantom F))
  settle_phantom ph (inl open_phantom) signals = ok (signals, open_phantom ∷ [])
  settle_phantom ph (inr (return_pct, resolved_bar)) signals =
      resolve fl ph.signal_bar return_pct resolved_bar signals >>= λ signals'. ok (signals', [])

  -- Step 2.5: the signals, and the phantoms that stay.
  unfoldable pub advance_phantoms :
      ℕ → List (LivePhantom F) → SignalHistory F → Result (SignalHistory F × List (LivePhantom F))
  advance_phantoms bar [] signals = ok (signals, [])
  advance_phantoms bar (ph ∷ phantoms) signals = do
    advanced ← advance_phantom ph bar
    settled ← settle_phantom ph advanced signals
    rest ← advance_phantoms bar phantoms settled.0
    ok (rest.0, settled.1 ++ rest.1)

  abbrev pub new_phantom : ℕ → LivePhantom F
  new_phantom bar = record { signal_bar = bar; position = none; pending_exit_bar = none }

  abbrev pub live_act : Option (ℕ → Bool) → ℕ → Bool → LiveSim F → LiveSim F
  live_act none bar fired sim =
      if fired
      then record sim { shadow = record sim.shadow { pending_entry_bar = some bar } }
      else sim
  live_act (some raw) bar true sim =
      if raw bar
      then record sim {
        shadow = record sim.shadow {
          pending_entry_bar = some bar;
          signal_history = record_fired bar sim.shadow.signal_history;
        };
      }
      else sim
  live_act (some raw) bar false sim =
      if raw bar
      then record {
        shadow = record sim.shadow {
          signal_history = record_skipped_pending bar sim.shadow.signal_history;
        };
        phantoms = sim.phantoms ++ new_phantom bar ∷ [];
      }
      else sim

  -- Step 4.
  unfoldable pub live_decide_entry : ℕ → LiveSim F → LiveSim F
  live_decide_entry bar sim =
      let s = sim.shadow in
      if is_flat s.position s.pending_entry_bar
      then live_act c.raw_signal bar (c.entry_eval bar s.history s.signal_history) sim
      else sim

  -- Step 5.
  unfoldable pub live_decide_exit : ℕ → Shadow F → Shadow F
  live_decide_exit bar s = elim s.position [
    | none ↦ s
    | some pos ↦ elim s.pending_exit_bar [
      | some exit_bar ↦ s
      | none ↦ if exit_hit c bar pos.entry_bar then record s { pending_exit_bar = some bar } else s
    ]
  ]

  -- `_step`
  unfoldable pub live_step : ℕ → LiveSim F → Result (LiveSim F)
  live_step bar sim = fill_entry fl c bar sim.shadow >>= λ entered.
      live_fill_exit bar entered >>= λ exited. live_check_range bar exited >>= λ ranged.
      advance_phantoms bar sim.phantoms ranged.signal_history >>= λ settled.
      let decided =
        live_decide_entry bar (record {
          shadow = record ranged { signal_history = settled.0 };
          phantoms = settled.1;
        }) in
      ok (record decided { shadow = live_decide_exit bar decided.shadow })

  -- The bars of `range(bar, bar + left)`.
  unfoldable pub live_steps : ℕ → ℕ → LiveSim F → Result (LiveSim F)
  live_steps zero bar sim = ok sim
  live_steps (suc left) bar sim = live_step bar sim >>= live_steps left (suc bar)

  -- `run_live_cycle` over n bars, of which the last is `n - 1`.
  unfoldable pub run_live_cycle :
      ℕ → Option (Tier3State F) → Option ℕ → Result (Tier3State F × SignalKind)
  run_live_cycle n prior_tier3 last_bar =
      let first = after last_bar in
      live_steps (n - first) first (to_sim fl prior_tier3) >>= λ sim.
      to_tier3 fl sim (before n) >>= λ state. ok (state, decision_of sim.shadow (before n))
