-- ===== src/Trader/Risk/Checks/Blocks.antt =====
-- What `evaluate_risk` takes and gives, and what each failed check of the state records.
use Prim.Native.String.{String}
use marketmind_open.Common.{ℕ, suc, Bool, Option, some, List, [], ◌∷◌, ◌++◌}
use marketmind_open.Clock.{Instant}
use marketmind_open.Decimal
use marketmind_open.Decimal.{Decimal, literal, nought}
use marketmind_open.Trader.Schema.{
  SignalKind, TraderSettings, Severity, RiskEventType, RiskEventRow, Detail, text, number, time,
  seconds, kind,
}
use marketmind_open.Trader.Tables.{Db}

pub record PortfolioState : Type 0 where
  pub cash : Decimal
  pub equity : Decimal
  pub peak_equity : Decimal
  pub drawdown_pct : Decimal
  pub starting_equity : Decimal

pub record WindowPnL : Type 0 where
  pub anchor_equity : Decimal
  pub pnl : Decimal

pub record RiskInputs : Type 0 where
  pub portfolio : PortfolioState
  pub daily_pnl : WindowPnL
  pub weekly_pnl : WindowPnL
  pub latest_candle_close_ts : Instant
  pub total_open_risk : Decimal
  pub symbol_existing_notional : Decimal

-- The arguments of `evaluate_risk` that describe one signal and its strategy version.
pub record Proposal : Type 0 where
  pub signal_id : Option ℕ
  pub signal_kind : SignalKind
  pub symbol : String
  pub proposed_entry_price : Decimal
  pub proposed_stop_price : Decimal
  pub strategy_version_id : ℕ
  pub strategy_risk_pct : Decimal
  pub strategy_enabled : Bool
  pub strategy_approved_for_paper : Bool

-- What a failed check puts into the risk event and into the decision. The text of
-- `BlockDecision.reason` is a rendering of it.
pub record Block : Type 0 where
  pub event_type : RiskEventType
  pub severity : Severity
  pub details : List (String × Detail)

pub data BlockDecision : Type 0 where
  approved : Option Decimal → BlockDecision
  blocked : Block → ℕ → BlockDecision

-- `_emit_risk_event`: the row, and its id.
unfoldable pub emit_risk_event :
    RiskEventType
    → Severity
    → Option ℕ
    → Option String
    → Option ℕ
    → List (String × Detail)
    → Db
    → ℕ × Db
emit_risk_event event_type severity version symbol signal details db =
    let row : RiskEventRow = record {
      id = db.next_id;
      event_type = event_type;
      severity = severity;
      strategy_version_id = version;
      symbol = symbol;
      signal_id = signal;
      details = details;
    } in
    (db.next_id, record db { risk_events = db.risk_events ++ row ∷ []; next_id = suc db.next_id })

-- A block is recorded and decided.
unfoldable pub block_with : Proposal → Block → Db → BlockDecision × Db
unfolding emit_risk_event
block_with p b db =
    let (event_id, db') =
      emit_risk_event b.event_type b.severity (some p.strategy_version_id) (some p.symbol)
        p.signal_id b.details db in
    (blocked b event_id, db')

abbrev pub warning_block : String → List (String × Detail) → Block
warning_block reason details = record {
  event_type = RiskEventType.block;
  severity = Severity.warning;
  details = ("reason", text reason) ∷ details;
}

abbrev pub sell_block : Proposal → Block
sell_block p = warning_block "sell_not_supported_in_v1" (("signal_kind", kind p.signal_kind) ∷ [])

abbrev pub kill_switch_block : TraderSettings → PortfolioState → Block
kill_switch_block settings portfolio = record {
  event_type = RiskEventType.kill_switch;
  severity = Severity.critical;
  details =
      ("drawdown_pct", number portfolio.drawdown_pct)
      ∷ ("max_drawdown_pct", number settings.trader_max_drawdown_pct)
      ∷ ("equity", number portfolio.equity)
      ∷ ("peak_equity", number portfolio.peak_equity)
      ∷ [];
}

-- `-daily_loss_cap` and `-weekly_loss_cap`.
abbrev pub daily_floor : TraderSettings → RiskInputs → Decimal
daily_floor settings inputs =
    Decimal.neg (Decimal.mul settings.trader_max_daily_loss_pct inputs.portfolio.starting_equity)

abbrev pub weekly_floor : TraderSettings → RiskInputs → Decimal
weekly_floor settings inputs =
    Decimal.neg (Decimal.mul settings.trader_max_weekly_loss_pct inputs.portfolio.starting_equity)

abbrev pub daily_loss_block : TraderSettings → RiskInputs → Block
daily_loss_block settings inputs = record {
  event_type = RiskEventType.daily_loss_breach;
  severity = Severity.critical;
  details =
      ("daily_pnl", number inputs.daily_pnl.pnl)
      ∷ ("daily_loss_cap", number (daily_floor settings inputs))
      ∷ ("anchor_equity", number inputs.daily_pnl.anchor_equity)
      ∷ [];
}

abbrev pub weekly_loss_block : TraderSettings → RiskInputs → Block
weekly_loss_block settings inputs = record {
  event_type = RiskEventType.weekly_loss_breach;
  severity = Severity.critical;
  details =
      ("weekly_pnl", number inputs.weekly_pnl.pnl)
      ∷ ("weekly_loss_cap", number (weekly_floor settings inputs))
      ∷ ("anchor_equity", number inputs.weekly_pnl.anchor_equity)
      ∷ [];
}

abbrev pub disabled_block : Block
disabled_block = record {
  event_type = RiskEventType.strategy_disabled;
  severity = Severity.warning;
  details = ("reason", text "strategy_version.enabled is False") ∷ [];
}

abbrev pub not_approved_block : Block
not_approved_block = record {
  event_type = RiskEventType.strategy_not_paper_approved;
  severity = Severity.warning;
  details = ("reason", text "strategy_version.approved_for_paper is False") ∷ [];
}

-- `staleness_seconds` is kept as the two instants that it is the difference of.
abbrev pub stale_block : TraderSettings → RiskInputs → Instant → Block
stale_block settings inputs now = record {
  event_type = RiskEventType.stale_data;
  severity = Severity.warning;
  details =
      ("latest_close_ts", time inputs.latest_candle_close_ts)
      ∷ ("now", time now)
      ∷ ("threshold_seconds", seconds settings.trader_data_staleness_seconds)
      ∷ [];
}
