-- ===== src/Ftr/Guards.antt =====
-- workers/src/marketmind_workers/ftr/trader/guards.py: the risk guards of the paper trader. The
-- instants are aware datetimes, and whether the file KILLSWITCH exists is an input. The texts of the
-- details are left out.
pub mod Conditions
pub mod Allowed
pub mod Stops
mod Tests
use Prim.Native.String.{String}
use text.Mathlib.Text.{◌==◌ as str_eq}
use marketmind_open.Common.{
  ℕ, suc, ◌/◌, ◌*◌, Bool, true, false, ◌&&◌, ◌||◌, Option, none, some, leb, ◌==◌, if◌then◌else◌,
}
use marketmind_open.Common.Int.{ℤ, pos, ltb_ℤ, sub_ℕ}
use marketmind_open.Common.Result.{Result, ok, err, ◌>>=◌}
use marketmind_open.Decimal
use marketmind_open.Decimal.{Decimal, nought}
use marketmind_open.Clock.{Instant, day}
use marketmind_open.Ftr.Floats.{Floats}

-- The reasons of records.py.
pub data ReasonCode : Type 0 where
  enter_ev_positive skip_ev_negative skip_cost_dominates skip_prob_below_min : ReasonCode
  skip_liquidity_filter skip_cooldown skip_guardrail skip_max_trades : ReasonCode
  exit_prob_decay exit_trail_stop exit_signal_flip exit_max_hold : ReasonCode
  hold_in_position hold_no_signal enter_trend_confirmed : ReasonCode

-- The settings that the guards read.
pub record FtrSettings (F : Type 0) : Type 0 where
  pub max_position_pct : F
  pub max_gross_exposure_pct : F
  pub daily_loss_stop_pct : F
  pub max_drawdown_stop_pct : F
  pub max_trades_per_day_global : ℕ
  pub per_symbol_cooldown_hours : ℕ

-- A dict by strategy or symbol is a function. The day is none before the first one.
pub record GuardState : Type 0 where
  pub current_day : Option ℕ
  pub day_start_equity : Decimal
  pub peak_equity : Decimal
  pub trades_today_global : ℕ
  pub trades_today_by_strategy : String → ℕ
  pub last_trade_ts_by_symbol : String → Option Instant
  pub daily_halt : Bool
  pub drawdown_killed : Bool

abbrev pub GuardDecision : Type 0
GuardDecision = Bool × Option ReasonCode

abbrev pub allow : GuardDecision
allow = (true, none)

abbrev pub block : ReasonCode → GuardDecision
block reason = (false, some reason)

-- `GuardState()`
abbrev pub initial : GuardState
initial = record {
  current_day = none;
  day_start_equity = nought;
  peak_equity = nought;
  trades_today_global = 0;
  trades_today_by_strategy = λ strategy_id. 0;
  last_trade_ts_by_symbol = λ symbol. none;
  daily_halt = false;
  drawdown_killed = false;
}

abbrev pub is_day : ℕ → Option ℕ → Bool
is_day d none = false
is_day d (some d') = d == d'

unfoldable pub roll_day : Instant → Decimal → GuardState → GuardState
roll_day now equity st = if is_day (now / day) st.current_day then st else record st {
  current_day = some (now / day);
  day_start_equity = equity;
  trades_today_global = 0;
  trades_today_by_strategy = λ strategy_id. 0;
  daily_halt = false;
}

unfoldable pub update_equity : Decimal → GuardState → GuardState
update_equity equity st =
    if ltb_ℤ st.peak_equity equity then record st { peak_equity = equity } else st

unfoldable pub record_trade : String → String → Instant → GuardState → GuardState
record_trade strategy_id symbol now st = record st {
  trades_today_global = suc st.trades_today_global;
  trades_today_by_strategy = λ s.
      if str_eq s strategy_id
      then suc (st.trades_today_by_strategy strategy_id)
      else st.trades_today_by_strategy s;
  last_trade_ts_by_symbol = λ s. if str_eq s symbol then some now else st.last_trade_ts_by_symbol s;
}

-- The arguments of `check_entry`.
pub record EntryRequest (F : Type 0) : Type 0 where
  pub strategy_id : String
  pub symbol : String
  pub now : Instant
  pub equity : Decimal
  pub target_notional : Decimal
  pub gross_exposure_pct : F

module _ {F : Type 0} (floats : Floats F) (s : FtrSettings F) where
  -- (equity - base) / base, as a float, is a loss of the limit or more.
  abbrev pub is_loss : Decimal → Decimal → F → Result Bool
  is_loss equity base limit = do
    change ← Decimal.div (Decimal.sub equity base) base
    ok (floats.le (floats.float change) (floats.fneg limit))

  unfoldable pub drawdown_trips : EntryRequest F → GuardState → Result Bool
  drawdown_trips e st =
      if ltb_ℤ nought st.peak_equity
      then is_loss e.equity st.peak_equity s.max_drawdown_stop_pct
      else ok false

  unfoldable pub daily_loss_trips : EntryRequest F → GuardState → Result Bool
  daily_loss_trips e st =
      if ltb_ℤ nought e.equity && ltb_ℤ nought st.day_start_equity
      then is_loss e.equity st.day_start_equity s.daily_loss_stop_pct
      else ok false

  -- `float(target_notional / equity if equity > 0 else 0)`
  unfoldable pub position_pct : EntryRequest F → Result F
  position_pct e =
      if ltb_ℤ nought e.equity
      then Decimal.div e.target_notional e.equity >>= (λ share. ok (floats.float share))
      else ok (floats.constant 0 0)

  unfoldable pub exceeds_position : EntryRequest F → F → Bool
  exceeds_position e pct = ltb_ℤ nought e.equity && floats.lt s.max_position_pct pct

  unfoldable pub exceeds_gross : EntryRequest F → F → Bool
  exceeds_gross e pct =
      floats.lt (floats.fadd s.max_gross_exposure_pct (floats.constant 1 9))
        (floats.fadd e.gross_exposure_pct pct)

  unfoldable pub in_cooldown : EntryRequest F → GuardState → Bool
  in_cooldown e st = elim (st.last_trade_ts_by_symbol e.symbol) [
    | none ↦ false
    | some last ↦
        let seconds = floats.int_div (sub_ℕ e.now last) 1000000 in
        floats.lt_int (floats.fdiv seconds (floats.constant 3600 0)) s.per_symbol_cooldown_hours
  ]

  -- The checks that change no state.
  unfoldable pub check_limits : EntryRequest F → GuardState → F → GuardDecision
  check_limits e st pct =
      if exceeds_position e pct
      then block ReasonCode.skip_guardrail
      else (if exceeds_gross e pct
          then block ReasonCode.skip_guardrail
          else (if leb s.max_trades_per_day_global st.trades_today_global
              then block ReasonCode.skip_max_trades
              else (if in_cooldown e st then block ReasonCode.skip_cooldown else allow)))

  -- The daily-loss stop, and what follows it.
  unfoldable pub check_day : EntryRequest F → GuardState → Result (GuardDecision × GuardState)
  check_day e st = daily_loss_trips e st >>= λ lost.
      if lost
      then ok (block ReasonCode.skip_guardrail, record st { daily_halt = true })
      else (position_pct e >>= λ pct. ok (check_limits e st pct, st))

  -- The drawdown stop comes before the daily one.
  unfoldable pub check_drawdown : EntryRequest F → GuardState → Result (GuardDecision × GuardState)
  check_drawdown e st = drawdown_trips e st >>= λ killed.
      if killed
      then ok (block ReasonCode.skip_guardrail, record st { drawdown_killed = true })
      else check_day e st

  -- The kill switch is on when the flag of the database is set or the file exists.
  unfoldable pub check_entry :
      Bool → Bool → EntryRequest F → GuardState → Result (GuardDecision × GuardState)
  check_entry db_kill_flag file_exists e st =
      if db_kill_flag || file_exists
      then ok (block ReasonCode.skip_guardrail, st)
      else (if st.drawdown_killed
          then ok (block ReasonCode.skip_guardrail, st)
          else (if st.daily_halt
              then ok (block ReasonCode.skip_guardrail, st)
              else check_drawdown e st))
