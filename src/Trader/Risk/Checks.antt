-- ===== src/Trader/Risk/Checks.antt =====
-- `evaluate_risk` of workers/src/marketmind_workers/trader/risk.py: the checks in their order, the
-- first block wins and is recorded.
mod Blocks
unfoldable pub use Blocks.*
use Prim.Native.String.{String}
use marketmind_open.Common.{
  ℕ, suc, ◌+◌, ◌*◌, Bool, Option, none, some, List, [], ◌∷◌, ◌++◌, ltb, if◌then◌else◌,
}
use marketmind_open.Common.Int.{leb_ℤ, ltb_ℤ}
use marketmind_open.Common.Result.{Result, ok, ◌>>=◌}
use marketmind_open.Clock.{Instant, second}
use marketmind_open.Decimal
use marketmind_open.Decimal.{Decimal, literal, nought}
use marketmind_open.Money.{quantize_size}
use marketmind_open.Trader.Schema.{
  SignalKind, TraderSettings, Severity, RiskEventType, RiskEventRow, Detail, text, number, time,
  seconds, kind,
}
use marketmind_open.Trader.Tables.{Db}

-- Checks 1 to 5: the portfolio's state, the version's flags and the age of the data.
unfoldable pub check_state : TraderSettings → Proposal → RiskInputs → Instant → Option Block
check_state settings p inputs now =
    if leb_ℤ settings.trader_max_drawdown_pct inputs.portfolio.drawdown_pct
    then some (kill_switch_block settings inputs.portfolio)
    else if leb_ℤ inputs.daily_pnl.pnl (daily_floor settings inputs)
    then some (daily_loss_block settings inputs)
    else if leb_ℤ inputs.weekly_pnl.pnl (weekly_floor settings inputs)
    then some (weekly_loss_block settings inputs)
    else if p.strategy_enabled
    then (if p.strategy_approved_for_paper
        then (if ltb
              (inputs.latest_candle_close_ts + settings.trader_data_staleness_seconds * second) now
            then some (stale_block settings inputs now)
            else none)
        else some not_approved_block)
    else some disabled_block

-- Check 6: the size for the risk budget, or why there is none.
pub data Sizing : Type 0 where
  refused : Block → Sizing
  sized : Decimal → Sizing

abbrev pub stop_distance : Proposal → Decimal
stop_distance p = Decimal.sub p.proposed_entry_price p.proposed_stop_price

abbrev pub risk_budget : TraderSettings → Proposal → RiskInputs → Decimal
risk_budget settings p inputs =
    Decimal.mul inputs.portfolio.equity
      (Decimal.min p.strategy_risk_pct settings.trader_max_risk_per_trade_pct)

abbrev pub stop_block : Proposal → Block
stop_block p =
    warning_block "stop_at_or_above_entry"
      (("entry", number p.proposed_entry_price) ∷ ("stop", number p.proposed_stop_price) ∷ [])

abbrev pub zero_size_block : TraderSettings → Proposal → RiskInputs → Block
zero_size_block settings p inputs = warning_block "size_quantised_to_zero" (
    ("equity", number inputs.portfolio.equity)
    ∷ (
      "effective_risk_pct",
      number (Decimal.min p.strategy_risk_pct settings.trader_max_risk_per_trade_pct),
    )
    ∷ ("stop_distance", number (stop_distance p))
    ∷ [])

unfoldable pub size_trade : TraderSettings → Proposal → RiskInputs → Result Sizing
size_trade settings p inputs =
    if leb_ℤ (stop_distance p) nought then ok (refused (stop_block p)) else do
      proposed_size_raw ← Decimal.div (risk_budget settings p inputs) (stop_distance p)
      proposed_size ← quantize_size proposed_size_raw
      ok (
          if leb_ℤ proposed_size nought
          then refused (zero_size_block settings p inputs)
          else sized proposed_size)

abbrev pub new_total_risk : Proposal → RiskInputs → Decimal → Decimal
new_total_risk p inputs size =
    Decimal.add inputs.total_open_risk (Decimal.mul size (stop_distance p))

abbrev pub portfolio_risk_cap : TraderSettings → RiskInputs → Decimal
portfolio_risk_cap settings inputs =
    Decimal.mul settings.trader_max_portfolio_risk_pct inputs.portfolio.equity

abbrev pub new_symbol_notional : Proposal → RiskInputs → Decimal → Decimal
new_symbol_notional p inputs size =
    Decimal.add inputs.symbol_existing_notional (Decimal.mul size p.proposed_entry_price)

-- `_PER_SYMBOL_EXPOSURE_CAP_PCT * equity`
abbrev pub symbol_notional_cap : RiskInputs → Decimal
symbol_notional_cap inputs = Decimal.mul (literal 5 1) inputs.portfolio.equity

abbrev pub open_risk_block : TraderSettings → Proposal → RiskInputs → Decimal → Block
open_risk_block settings p inputs size = warning_block "total_open_risk_breach" (
    ("existing_open_risk", number inputs.total_open_risk)
    ∷ ("proposed_trade_risk", number (Decimal.mul size (stop_distance p)))
    ∷ ("new_total_risk", number (new_total_risk p inputs size))
    ∷ ("portfolio_risk_cap", number (portfolio_risk_cap settings inputs))
    ∷ [])

abbrev pub exposure_block : Proposal → RiskInputs → Decimal → Block
exposure_block p inputs size = warning_block "per_symbol_exposure_breach" (
    ("existing_symbol_notional", number inputs.symbol_existing_notional)
    ∷ ("proposed_trade_notional", number (Decimal.mul size p.proposed_entry_price))
    ∷ ("new_symbol_notional", number (new_symbol_notional p inputs size))
    ∷ ("symbol_notional_cap", number (symbol_notional_cap inputs))
    ∷ [])

-- Checks 7 and 8: the open risk of the portfolio and the exposure to the symbol.
unfoldable pub check_exposure : TraderSettings → Proposal → RiskInputs → Decimal → Option Block
check_exposure settings p inputs size =
    if ltb_ℤ (portfolio_risk_cap settings inputs) (new_total_risk p inputs size)
    then some (open_risk_block settings p inputs size)
    else if ltb_ℤ (symbol_notional_cap inputs) (new_symbol_notional p inputs size)
    then some (exposure_block p inputs size)
    else none

-- The entry-side checks: the first block, or the size to trade.
unfoldable pub check_entry : TraderSettings → Proposal → RiskInputs → Instant → Result Sizing
check_entry settings p inputs now = elim (check_state settings p inputs now) [
  | some b ↦ ok (refused b)
  | none ↦ (do
    sizing ← size_trade settings p inputs
    elim sizing [
      | refused b ↦ ok (refused b)
      | sized size ↦ elim (check_exposure settings p inputs size) [
        | some b ↦ ok (refused b)
        | none ↦ ok (sized size)
      ]
    ])
]

unfoldable pub decide : Proposal → Sizing → Db → BlockDecision × Db
decide p (refused b) db = block_with p b db
decide p (sized size) db = (approved (some size), db)

-- EXIT is always allowed and SELL never. All other kinds go through the checks.
unfoldable pub evaluate_risk :
    TraderSettings → Proposal → RiskInputs → Instant → Db → Result (BlockDecision × Db)
unfolding decide
evaluate_risk settings p inputs now db = elim p.signal_kind [
  | SignalKind.exit ↦ ok (approved none, db)
  | SignalKind.sell ↦ ok (block_with p (sell_block p) db)
  | _ ↦ (do sizing ← check_entry settings p inputs now; ok (decide p sizing db))
]
