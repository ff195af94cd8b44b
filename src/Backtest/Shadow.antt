-- ===== src/Backtest/Shadow.antt =====
-- workers/src/marketmind_workers/backtest: the variables that iterative.py and iterative_live.py share.
use marketmind_open.Common.{ℕ, Bool, true, false, Option, none, some, [], if◌then◌else◌}
use marketmind_open.Common.Result.{Result, ok, ◌>>=◌}
use marketmind_open.Backtest.Floats.{Floats, one, is_nan}
use marketmind_open.Backtest.History.{TradeHistory, SignalHistory}
use marketmind_open.Backtest.Schema.{Position, Compiled}
use marketmind_open.Backtest.Positions.{open_position}

-- The variables that the loop of the backtest and the stepper of the live trader both have.
pub record Shadow (F : Type 0) : Type 0 where
  pub history : TradeHistory F
  pub signal_history : SignalHistory F
  pub position : Option (Position F)
  pub pending_entry_bar : Option ℕ
  pub pending_exit_bar : Option ℕ
  pub trade_id : ℕ
  pub cash : F

abbrev pub cold_shadow : {F : Type 0} → F → Shadow F
cold_shadow initial_capital = record {
  history = [];
  signal_history = [];
  position = none;
  pending_entry_bar = none;
  pending_exit_bar = none;
  trade_id = 0;
  cash = initial_capital;
}

abbrev pub is_flat : {F : Type 0} → Option (Position F) → Option ℕ → Bool
is_flat none none = true
is_flat none (some _) = false
is_flat (some _) _ = false

module _ {F : Type 0} (fl : Floats F) (c : Compiled F) where
  open fl use {fadd, fsub, fmul}

  abbrev pub bought : Option (Position F) → Shadow F → Shadow F
  bought none s = record s { position = none; pending_entry_bar = none }
  bought (some position) s = record s {
    position = some position;
    pending_entry_bar = none;
    cash = fsub s.cash (fmul (fmul position.size position.entry_fill) (fadd (one fl) c.commission));
  }

  -- The entry of step 1, which the loop and the stepper write alike.
  unfoldable pub fill_entry : ℕ → Shadow F → Result (Shadow F)
  fill_entry bar s = elim s.position [
    | some position ↦ ok s
    | none ↦ elim s.pending_entry_bar [
      | none ↦ ok s
      | some entry_bar ↦
          if is_nan fl (c.opens bar)
          then ok (record s { pending_entry_bar = none })
          else open_position fl c entry_bar (c.opens bar) s.cash >>= λ position.
              ok (bought position s)
    ]
  ]
