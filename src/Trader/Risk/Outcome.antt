-- ===== src/Trader/Risk/Outcome.antt =====
-- The result of `evaluate_risk`: when it approves, which check a block comes from, and what is
-- written.
use Prim.Native.String.{String}
use marketmind_open.Common.{
  ◌⊎◌, List, ap, Bool-cases, ℕ, suc, ◌+◌, ◌*◌, ◌≤◌, ◌<◌, ◌≡◌, ◌↔◌, sym, subst, true, false, none,
  some, [], ◌∷◌, ◌++◌, arith, inl, inr, Option-cases,
}
use marketmind_open.Common.Int.{◌≤ℤ◌, ◌<ℤ◌, ltb_ℤ, leb_ℤ}
use marketmind_open.Common.Result.{Result-cases, ok}
use marketmind_open.Clock.{Instant, second}
use marketmind_open.Decimal
use marketmind_open.Decimal.{Decimal, nought}
use marketmind_open.Money.{quantize_size}
use marketmind_open.Trader.Schema.{
  SignalKind, TraderSettings, RiskEventRow, RiskEventType, Detail, text,
}
use marketmind_open.Trader.Tables.{Db}
use marketmind_open.Trader.Risk.Checks.{
  RiskInputs, Proposal, Block, BlockDecision, approved, blocked, block_with, daily_floor,
  weekly_floor, stop_distance, risk_budget, portfolio_risk_cap, new_total_risk, symbol_notional_cap,
  new_symbol_notional, open_risk_block, exposure_block, stop_block, zero_size_block, check_state,
  refused, sized, size_trade, check_exposure, check_entry, evaluate_risk,
}
use marketmind_open.Trader.Risk.Gate.{
  IsPermitted, state_passes, size_trade-sized, check_entry-IsPermitted, IsPermitted-check_entry,
}

-- The row that a block leaves behind.
abbrev pub event_of : Proposal → Block → ℕ → RiskEventRow
event_of p b id = record {
  id = id;
  event_type = b.event_type;
  severity = b.severity;
  strategy_version_id = some p.strategy_version_id;
  symbol = some p.symbol;
  signal_id = p.signal_id;
  details = b.details;
}

-- What a decision has written: nothing, or its own risk event.
abbrev pub Recorded : Proposal → Db → BlockDecision → Db → Type 0
Recorded p db (approved _) db' = db' ≡ db
Recorded p db (blocked b id) db' =
    db' ≡ record db { risk_events = db.risk_events ++ event_of p b id ∷ []; next_id = suc id }

module _ (settings : TraderSettings) (p : Proposal) (inputs : RiskInputs) (now : Instant) where
  -- The state checks before the sizing all pass.
  abbrev pub Calm : Type 0
  Calm =
      (inputs.portfolio.drawdown_pct <ℤ settings.trader_max_drawdown_pct)
      × (daily_floor settings inputs <ℤ inputs.daily_pnl.pnl)
      × (weekly_floor settings inputs <ℤ inputs.weekly_pnl.pnl)

  -- The details of a block begin with a reason.
  abbrev pub Gives : String → Block → Type 0
  Gives reason b = (rest : List (String × Detail)) × (b.details ≡ ("reason", text reason) ∷ rest)

  -- The size for the risk budget.
  abbrev pub IsSize : Decimal → Type 0
  IsSize size =
      (raw : Decimal) × (Decimal.div (risk_budget settings p inputs) (stop_distance p) ≡ ok raw)
      × (quantize_size raw ≡ ok size)

  -- The open risk of the portfolio comes before the exposure to the symbol.
  abbrev pub ExplainsExposure : Decimal → Block → Type 0
  ExplainsExposure size b =
      ((portfolio_risk_cap settings inputs <ℤ new_total_risk p inputs size)
        × Gives "total_open_risk_breach" b)
      ⊎ ((new_total_risk p inputs size ≤ℤ portfolio_risk_cap settings inputs)
          × (symbol_notional_cap inputs <ℤ new_symbol_notional p inputs size)
          × Gives "per_symbol_exposure_breach" b)

  -- The checks of the trade, each after the ones before it have passed.
  abbrev pub ExplainsTrade : Block → Type 0
  ExplainsTrade b =
      ((stop_distance p ≤ℤ nought) × Gives "stop_at_or_above_entry" b)
      ⊎ ((size : Decimal) × (nought <ℤ stop_distance p)
          × IsSize size
          × (((size ≤ℤ nought) × Gives "size_quantised_to_zero" b)
              ⊎ ((nought <ℤ size) × ExplainsExposure size b)))

  abbrev pub Explains : RiskEventType → Block → Type 0
  Explains RiskEventType.kill_switch b =
      settings.trader_max_drawdown_pct ≤ℤ inputs.portfolio.drawdown_pct
  Explains RiskEventType.daily_loss_breach b =
      (inputs.portfolio.drawdown_pct <ℤ settings.trader_max_drawdown_pct)
      × (inputs.daily_pnl.pnl ≤ℤ daily_floor settings inputs)
  Explains RiskEventType.weekly_loss_breach b =
      (inputs.portfolio.drawdown_pct <ℤ settings.trader_max_drawdown_pct)
      × (daily_floor settings inputs <ℤ inputs.daily_pnl.pnl)
      × (inputs.weekly_pnl.pnl ≤ℤ weekly_floor settings inputs)
  Explains RiskEventType.strategy_disabled b = Calm × (p.strategy_enabled ≡ false)
  Explains RiskEventType.strategy_not_paper_approved b =
      Calm × (p.strategy_enabled ≡ true) × (p.strategy_approved_for_paper ≡ false)
  Explains RiskEventType.stale_data b =
      Calm
      × (p.strategy_enabled ≡ true)
      × (p.strategy_approved_for_paper ≡ true)
      × (inputs.latest_candle_close_ts + settings.trader_data_staleness_seconds * second < now)
  Explains RiskEventType.block b =
      Calm
      × (p.strategy_enabled ≡ true)
      × (p.strategy_approved_for_paper ≡ true)
      × (now ≤ inputs.latest_candle_close_ts + settings.trader_data_staleness_seconds * second)
      × ExplainsTrade b
  Explains _ b = ⊥

  state-Explains :
      {b : Block} → check_state settings p inputs now ≡ some b → Explains b.event_type b
  unfolding check_state
  state-Explains {b} h = ground arith

  kind_of : {b c : Block} → b ≡ c → b.event_type ≡ c.event_type
  kind_of same = ap (λ (x : Block). x.event_type) same

  details_of : {b c : Block} → b ≡ c → b.details ≡ c.details
  details_of same = ap (λ (x : Block). x.details) same

  exposure_explains :
      (size : Decimal) {b : Block}
      → check_exposure settings p inputs size ≡ some b
      → (b.event_type ≡ RiskEventType.block) × ExplainsExposure size b
  unfolding check_exposure
  exposure_explains size {b} h =
      elim (Bool-cases
        (ltb_ℤ (portfolio_risk_cap settings inputs) (new_total_risk p inputs size))) [
          | inl risky ↦
              let same : b ≡ open_risk_block settings p inputs size = ground (arith, h, risky) in
              (kind_of same, inl (ground (arith, risky), (_, details_of same)))
          | inr bounded ↦
              elim (Bool-cases
                (ltb_ℤ (symbol_notional_cap inputs) (new_symbol_notional p inputs size))) [
                  | inr fine ↦ absurd (ground (arith, h, bounded, fine))
                  | inl large ↦
                      let same : b ≡ exposure_block p inputs size =
                        ground (arith, h, bounded, large) in
                      (
                        kind_of same,
                        inr (ground (arith, bounded), ground (arith, large), (_, details_of same)),
                      )
                ]
        ]

  trade_explains :
      {b : Block}
      → size_trade settings p inputs ≡ ok (refused b)
      → (b.event_type ≡ RiskEventType.block) × ExplainsTrade b
  unfolding size_trade
  trade_explains {b} h = elim (Bool-cases (leb_ℤ (stop_distance p) nought)) [
    | inl crossed ↦
        let same : b ≡ stop_block p = ground (arith, h, crossed) in
        (kind_of same, inl (ground (arith, crossed), (_, details_of same)))
    | inr apart ↦
        elim (Result-cases (Decimal.div (risk_budget settings p inputs) (stop_distance p))) [
          | inr (e, raised) ↦ absurd (ground (arith, h, apart, raised))
          | inl (raw, divided) ↦ elim (Result-cases (quantize_size raw)) [
            | inr (e, raised) ↦ absurd (ground (arith, h, apart, divided, raised))
            | inl (size, quantised) ↦ elim (Bool-cases (leb_ℤ size nought)) [
              | inr positive ↦ absurd (ground (arith, h, apart, divided, quantised, positive))
              | inl none_left ↦
                  let same : b ≡ zero_size_block settings p inputs =
                    ground (arith, h, apart, divided, quantised, none_left) in
                  (
                    kind_of same,
                    inr (
                      size,
                      ground (arith, apart),
                      (raw, divided, quantised),
                      inl (ground (arith, none_left), (_, details_of same)),
                    ),
                  )
            ]
          ]
        ]
  ]

  later_explains :
      {b : Block}
      → check_entry settings p inputs now ≡ ok (refused b)
      → check_state settings p inputs now ≡ none
      → (b.event_type ≡ RiskEventType.block) × ExplainsTrade b
  unfolding check_entry
  later_explains {b} h e = elim (Result-cases (size_trade settings p inputs)) [
    | inr (x, raised) ↦ absurd (ground arith)
    | inl (refused c, r) ↦
        let same : c ≡ b = ground (arith, h, e, r) in
        trade_explains (subst (λ x. size_trade settings p inputs ≡ ok (refused x)) same r)
    | inl (sized q, r) ↦ elim (Option-cases (check_exposure settings p inputs q)) [
      | inl fine ↦ absurd (ground arith)
      | inr (c, x) ↦
          let same : c ≡ b = ground (arith, h, e, r, x) in
          let (kind, exposed) =
            exposure_explains q (subst (λ y. check_exposure settings p inputs q ≡ some y) same x) in
          let (apart, size, positive) = size_trade-sized settings p inputs now r in
          (kind, inr (q, apart, size, inr (positive, exposed)))
    ]
  ]

  entry-Explains :
      {b : Block} → check_entry settings p inputs now ≡ ok (refused b) → Explains b.event_type b
  unfolding check_entry
  entry-Explains {b} h = elim (Option-cases (check_state settings p inputs now)) [
    | inr (c, e) ↦
        let same : c ≡ b = ground arith in
        subst (λ (x : Block). Explains x.event_type x) same (state-Explains e)
    | inl e ↦
        let (kind, trade) = later_explains {b = b} h e in
        subst (λ k. Explains k b) (sym kind)
          (ground (arith, state_passes settings p inputs now e, trade))
  ]

  -- A BUY signal is approved, with a size, exactly when the eight conditions hold and this is the
  -- size of the risk budget.
  pub evaluate_risk_approves :
      (db : Db) (size : Decimal)
      → p.signal_kind ≡ SignalKind.buy
      → (evaluate_risk settings p inputs now db ≡ ok (approved (some size), db))
        ↔ IsPermitted settings p inputs now size
  unfolding evaluate_risk block_with
  evaluate_risk_approves db size buying = (
    λ h. check_entry-IsPermitted settings p inputs now (ground arith),
    λ h. ground (arith, IsPermitted-check_entry settings p inputs now h),
  )

  -- Blocks of a BUY signal come in the order of the checks: the type of the event, and for the checks of
  -- the size, the open risk and the exposure the reason in its details, tell which check failed, and
  -- every check before it has passed.
  pub evaluate_risk-Explains :
      (db : Db) {b : Block} {id : ℕ} {db' : Db}
      → p.signal_kind ≡ SignalKind.buy
      → evaluate_risk settings p inputs now db ≡ ok (blocked b id, db')
      → Explains b.event_type b
  unfolding evaluate_risk block_with
  evaluate_risk-Explains db {b} buying h = entry-Explains {b = b} (ground arith)

  -- Whatever the signal, an approval writes nothing, and a block appends exactly its own risk
  -- event, under the id that the decision names.
  pub evaluate_risk_records :
      (db : Db) {decision : BlockDecision} {db' : Db}
      → evaluate_risk settings p inputs now db ≡ ok (decision, db')
      → Recorded p db decision db'
  unfolding evaluate_risk block_with
  evaluate_risk_records db {decision = approved size} h = ground arith
  evaluate_risk_records db {decision = blocked b id} h = ground arith
