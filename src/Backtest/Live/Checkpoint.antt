-- ===== src/Backtest/Live/Checkpoint.antt =====
-- workers/src/marketmind_workers/backtest/iterative_live.py: the state of the stepper and its checkpoint.
-- The fields of the models in trader.py are kept under their names.
use marketmind_open.Common.{
  ℕ, suc, Bool, true, ◌&&◌, Option, none, some, List, [], ◌∷◌, length, if◌then◌else◌,
}
use marketmind_open.Common.Result.{Result, ok, err, validation_error}
use marketmind_open.Backtest.Floats.{Floats, nought}
use marketmind_open.Backtest.History.{
  TradeOutcome, CompletedTrade, TradeHistory, SignalRecord, SignalHistory,
}
use marketmind_open.Backtest.Schema.{Position}
use marketmind_open.Backtest.Shadow.{Shadow, cold_shadow}

-- A skipped signal's trade; it has no position until its first bar.
pub record LivePhantom (F : Type 0) : Type 0 where
  pub signal_bar : ℕ
  pub position : Option (Position F)
  pub pending_exit_bar : Option ℕ

-- The oldest phantom comes first.
pub record LiveSim (F : Type 0) : Type 0 where
  pub shadow : Shadow F
  pub phantoms : List (LivePhantom F)

-- What a checkpoint keeps of a completed trade.
pub record Tier3CompletedTrade (F : Type 0) : Type 0 where
  pub entry_index : ℕ
  pub exit_index : ℕ
  pub return_pct : F
  pub outcome : TradeOutcome

-- `last_bar` is none for -1.
pub record Tier3State (F : Type 0) : Type 0 where
  pub last_bar : Option ℕ
  pub signal_history : SignalHistory F
  pub trade_history : List (Tier3CompletedTrade F)
  pub shadow_position : Option (Position F)
  pub pending_entry_bar : Option ℕ
  pub pending_exit_bar : Option ℕ
  pub pending_phantoms : List (LivePhantom F)
  pub trade_id : ℕ
  pub cash : F

abbrev pub all {ℓ} : {A : Type ℓ} → (A → Bool) → List A → Bool
all p [] = true
all p (x ∷ xs) = p x && all p xs

module _ {F : Type 0} where
  -- Trades are numbered from the oldest, and what a checkpoint does not keep is 0.0.
  abbrev pub restored : F → Tier3CompletedTrade F → ℕ → CompletedTrade F
  restored missing t trade_id = record {
    trade_id = trade_id;
    entry_index = t.entry_index;
    exit_index = t.exit_index;
    entry_price = missing;
    exit_price = missing;
    pnl = missing;
    return_pct = t.return_pct;
    outcome = t.outcome;
  }

  unfoldable pub restore_trades : F → List (Tier3CompletedTrade F) → TradeHistory F
  restore_trades missing [] = []
  restore_trades missing (t ∷ trades) =
      restored missing t (suc (length trades)) ∷ restore_trades missing trades

  abbrev pub kept : CompletedTrade F → Tier3CompletedTrade F
  kept t = record {
    entry_index = t.entry_index;
    exit_index = t.exit_index;
    return_pct = t.return_pct;
    outcome = t.outcome;
  }

  unfoldable pub keep_trades : TradeHistory F → List (Tier3CompletedTrade F)
  keep_trades [] = []
  keep_trades (t ∷ trades) = kept t ∷ keep_trades trades

module _ {F : Type 0} (fl : Floats F) where
  open fl use {is_finite}

  abbrev pub finite? : Option F → Bool
  finite? none = true
  finite? (some x) = is_finite x

  abbrev pub position_finite : Option (Position F) → Bool
  position_finite none = true
  position_finite (some p) =
      is_finite p.entry_fill
      && is_finite p.size
      && finite? p.stop_level
      && finite? p.tp_level
      && is_finite p.trail_anchor

  -- The checks of the models: no NaN and no infinity.
  unfoldable pub passes_models : Tier3State F → Bool
  passes_models t =
      all (λ (s : SignalRecord F). finite? s.return_pct) t.signal_history
      && all (λ (h : Tier3CompletedTrade F). is_finite h.return_pct) t.trade_history
      && position_finite t.shadow_position
      && all (λ (ph : LivePhantom F). position_finite ph.position) t.pending_phantoms
      && is_finite t.cash

  abbrev pub checkpoint : LiveSim F → Option ℕ → Tier3State F
  checkpoint sim last_bar = record {
    last_bar = last_bar;
    signal_history = sim.shadow.signal_history;
    trade_history = keep_trades sim.shadow.history;
    shadow_position = sim.shadow.position;
    pending_entry_bar = sim.shadow.pending_entry_bar;
    pending_exit_bar = sim.shadow.pending_exit_bar;
    pending_phantoms = sim.phantoms;
    trade_id = sim.shadow.trade_id;
    cash = sim.shadow.cash;
  }

  -- A state that a model refuses raises a ValidationError.
  unfoldable pub to_tier3 : LiveSim F → Option ℕ → Result (Tier3State F)
  unfolding keep_trades passes_models
  to_tier3 sim last_bar =
      let state = checkpoint sim last_bar in
      if passes_models state then ok state else err validation_error

  -- The defaults of the checkpoint: a cash of 10,000.0.
  abbrev pub cold_sim : LiveSim F
  cold_sim = record { shadow = cold_shadow (fl.constant 10000 0); phantoms = [] }

  unfoldable pub to_sim : Option (Tier3State F) → LiveSim F
  unfolding restore_trades
  to_sim none = cold_sim
  to_sim (some t) = record {
    shadow = record {
      history = restore_trades (nought fl) t.trade_history;
      signal_history = t.signal_history;
      position = t.shadow_position;
      pending_entry_bar = t.pending_entry_bar;
      pending_exit_bar = t.pending_exit_bar;
      trade_id = t.trade_id;
      cash = t.cash;
    };
    phantoms = t.pending_phantoms;
  }
