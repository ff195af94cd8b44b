-- ===== src/Backtest/Schema.antt =====
-- exit.py and sizing.py of the schemas, and the records of workers/src/marketmind_workers/backtest/
-- iterative.py. A series is a function of the bar, read at bars of the run only.
use marketmind_open.Common.{ℕ, Bool, Option, List}
use marketmind_open.Backtest.History.{TradeHistory, SignalHistory}

-- exit.py of the schemas.
pub data StopLossMethod (F : Type 0) : Type 0 where
  percent : F → StopLossMethod F
  atr_multiple : ℕ → F → StopLossMethod F
  fixed_price : F → StopLossMethod F
  trailing_percent : F → StopLossMethod F
  trailing_atr : ℕ → F → StopLossMethod F

pub data TakeProfitMethod (F : Type 0) : Type 0 where
  percent : F → TakeProfitMethod F
  r_multiple : F → TakeProfitMethod F
  fixed_price : F → TakeProfitMethod F
  atr_multiple : ℕ → F → TakeProfitMethod F

-- sizing.py of the schemas.
pub data PositionSizing (F : Type 0) : Type 0 where
  fixed_percent_equity : F → PositionSizing F
  risk_based : F → PositionSizing F
  fixed_quantity : F → PositionSizing F

pub record Position (F : Type 0) : Type 0 where
  pub entry_bar : ℕ
  pub entry_fill : F
  pub size : F
  pub stop_level : Option F
  pub tp_level : Option F
  pub trail_anchor : F

pub data ExitReason : Type 0 where
  signal stop_loss take_profit end_of_data : ExitReason

-- The time stamps of a trade are those of the bars.
pub record Trade (F : Type 0) : Type 0 where
  pub entry_time : ℕ
  pub exit_time : ℕ
  pub entry_price : F
  pub exit_price : F
  pub size : F
  pub pnl : F
  pub return_pct : F
  pub exit_reason : ExitReason

abbrev pub Series : Type 0 → Type 0
Series F = ℕ → F

-- A compiled specification: the prices, the evaluators and the costs.
pub record Compiled (F : Type 0) : Type 0 where
  pub opens : Series F
  pub highs : Series F
  pub lows : Series F
  pub closes : Series F
  pub entry_eval : ℕ → TradeHistory F → SignalHistory F → Bool
  pub raw_signal : Option (ℕ → Bool)
  pub cond_exits : List (ℕ → ℕ → Bool)
  pub stop_method : Option (StopLossMethod F)
  pub tp_method : Option (TakeProfitMethod F)
  pub max_bars : Option ℕ
  pub commission : F
  pub slippage : F
  pub sizing : PositionSizing F
  pub atr : Option (Series F)
