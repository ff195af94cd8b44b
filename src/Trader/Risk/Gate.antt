-- ===== src/Trader/Risk/Gate.antt =====
-- What `evaluate_risk` lets through, what it records, and in which order it blocks.
use marketmind_open.Common.{◌+◌, ◌*◌, ◌≤◌, ◌≡◌, true, none, arith, inl, inr}
use marketmind_open.Common.Int.{◌≤ℤ◌, ◌<ℤ◌}
use marketmind_open.Common.Result.{Result-cases, ok}
use marketmind_open.Clock.{Instant, second}
use marketmind_open.Decimal
use marketmind_open.Decimal.{Decimal, nought}
use marketmind_open.Money.{quantize_size}
use marketmind_open.Trader.Schema.{TraderSettings}
use marketmind_open.Trader.Risk.Checks.{
  RiskInputs, Proposal, daily_floor, weekly_floor, check_state, sized, stop_distance, risk_budget,
  size_trade, new_total_risk, portfolio_risk_cap, new_symbol_notional, symbol_notional_cap,
  check_exposure, check_entry,
}

-- The eight conditions of an entry, and the size that the risk budget gives.
pub record IsPermitted (settings : TraderSettings) (p : Proposal) (inputs : RiskInputs)
    (now : Instant) (size : Decimal) : Type 0 where
  pub drawdown : inputs.portfolio.drawdown_pct <ℤ settings.trader_max_drawdown_pct
  pub daily : daily_floor settings inputs <ℤ inputs.daily_pnl.pnl
  pub weekly : weekly_floor settings inputs <ℤ inputs.weekly_pnl.pnl
  pub enabled : p.strategy_enabled ≡ true
  pub approved_for_paper : p.strategy_approved_for_paper ≡ true
  pub fresh : now ≤ inputs.latest_candle_close_ts + settings.trader_data_staleness_seconds * second
  pub stop : nought <ℤ stop_distance p
  pub raw : Decimal
  pub divided : Decimal.div (risk_budget settings p inputs) (stop_distance p) ≡ ok raw
  pub quantised : quantize_size raw ≡ ok size
  pub positive : nought <ℤ size
  pub open_risk : new_total_risk p inputs size ≤ℤ portfolio_risk_cap settings inputs
  pub exposure : new_symbol_notional p inputs size ≤ℤ symbol_notional_cap inputs

module _ (settings : TraderSettings) (p : Proposal) (inputs : RiskInputs) (now : Instant) where
  pub state_passes :
      check_state settings p inputs now ≡ none
      → (inputs.portfolio.drawdown_pct <ℤ settings.trader_max_drawdown_pct)
        × (daily_floor settings inputs <ℤ inputs.daily_pnl.pnl)
        × (weekly_floor settings inputs <ℤ inputs.weekly_pnl.pnl)
        × (p.strategy_enabled ≡ true)
        × (p.strategy_approved_for_paper ≡ true)
        × (now ≤ inputs.latest_candle_close_ts + settings.trader_data_staleness_seconds * second)
  unfolding check_state
  state_passes h = ground arith

  pub size_trade-sized :
      {size : Decimal}
      → size_trade settings p inputs ≡ ok (sized size)
      → (nought <ℤ stop_distance p)
        × ((raw : Decimal) × (Decimal.div (risk_budget settings p inputs) (stop_distance p)
              ≡ ok raw)
            × (quantize_size raw ≡ ok size))
        × (nought <ℤ size)
  unfolding size_trade
  size_trade-sized {size} h =
      elim (Result-cases (Decimal.div (risk_budget settings p inputs) (stop_distance p))) [
        | inr (e, failed) ↦ absurd (ground arith)
        | inl (raw, divided) ↦ elim (Result-cases (quantize_size raw)) [
          | inr (e, failed) ↦ absurd (ground arith)
          | inl (q, quantised) ↦ (ground arith, (raw, divided, ground arith), ground arith)
        ]
      ]

  exposure_passes :
      (size : Decimal)
      → check_exposure settings p inputs size ≡ none
      → (new_total_risk p inputs size ≤ℤ portfolio_risk_cap settings inputs)
        × (new_symbol_notional p inputs size ≤ℤ symbol_notional_cap inputs)
  unfolding check_exposure
  exposure_passes size h = ground arith

  check_entry-sized :
      {size : Decimal}
      → check_entry settings p inputs now ≡ ok (sized size)
      → (check_state settings p inputs now ≡ none)
        × (size_trade settings p inputs ≡ ok (sized size))
        × (check_exposure settings p inputs size ≡ none)
  unfolding check_entry
  check_entry-sized {size} h = ground arith

  pub check_entry-IsPermitted :
      {size : Decimal}
      → check_entry settings p inputs now ≡ ok (sized size)
      → IsPermitted settings p inputs now size
  check_entry-IsPermitted {size} h =
      let (state, trade, exposed) = check_entry-sized h in
      let (drawdown, daily, weekly, enabled, approved_for_paper, fresh) = state_passes state in
      let (stop, (raw, divided, quantised), positive) = size_trade-sized trade in
      let (open_risk, exposure) = exposure_passes size exposed in
      record {
        drawdown = drawdown;
        daily = daily;
        weekly = weekly;
        enabled = enabled;
        approved_for_paper = approved_for_paper;
        fresh = fresh;
        stop = stop;
        raw = raw;
        divided = divided;
        quantised = quantised;
        positive = positive;
        open_risk = open_risk;
        exposure = exposure;
      }

  IsPermitted-state :
      {size : Decimal}
      → IsPermitted settings p inputs now size
      → check_state settings p inputs now ≡ none
  unfolding check_state
  IsPermitted-state h = ground arith

  IsPermitted-trade :
      {size : Decimal}
      → IsPermitted settings p inputs now size
      → size_trade settings p inputs ≡ ok (sized size)
  unfolding size_trade
  IsPermitted-trade h = ground (arith, h.divided, h.quantised)

  IsPermitted-exposure :
      {size : Decimal}
      → IsPermitted settings p inputs now size
      → check_exposure settings p inputs size ≡ none
  unfolding check_exposure
  IsPermitted-exposure h = ground arith

  pub IsPermitted-check_entry :
      {size : Decimal}
      → IsPermitted settings p inputs now size
      → check_entry settings p inputs now ≡ ok (sized size)
  unfolding check_entry
  IsPermitted-check_entry h =
      ground (arith, IsPermitted-state h, IsPermitted-trade h, IsPermitted-exposure h)
