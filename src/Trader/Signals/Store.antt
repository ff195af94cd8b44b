-- ===== src/Trader/Signals/Store.antt =====
-- The tables that only the signal engine writes, beside the book of the trader, and its queries. The
-- templates (workers/src/marketmind_workers/trader/templates) are an interface: what a template
-- computes from candles is not modelled. The indicators of an evaluation are left out.
use Prim.Native.String.{String}
use text.Mathlib.Text.{◌==◌ as str_eq}
use marketmind_open.Common.{
  ℕ, zero, suc, Bool, true, false, ◌&&◌, Option, none, some, List, [], ◌∷◌, ◌++◌, map, leb, ◌==◌,
  if◌then◌else◌, find, select,
}
use marketmind_open.Common.Result.{Result}
use marketmind_open.Clock.{Instant}
use marketmind_open.Decimal.{Decimal}
use marketmind_open.Trader.Schema.{SignalKind, Severity, CandleRow, SignalRow, PositionRow}
use marketmind_open.Trader.Tables.{
  Db, is_some, same_signal_key, is_open_for, latest, insert_by, order_by,
}
use marketmind_open.Trader.Risk.State.{candle_close}

-- `SignalEvaluation`
pub record Evaluation : Type 0 where
  pub kind : SignalKind
  pub reason : String
  pub proposed_entry_price : Decimal
  pub proposed_stop_price : Decimal
  pub proposed_take_profit_price : Option Decimal

-- What the engine asks of a template T with a state St. `build` raises on bad parameters.
pub record Templates (T St : Type 0) : Type 0 where
  pub build : String → String → Result T
  pub min_bars_needed : T → ℕ
  pub is_tier3 : T → Bool
  pub is_stateful : T → Bool
  pub evaluate : T → List CandleRow → Option PositionRow → Result Evaluation
  pub evaluate_stateful :
      T → List CandleRow → Option PositionRow → Option St → Result (Evaluation × St)
  pub has_tier3 : St → Bool

-- trader_strategy_state; a state that does not validate is none.
pub record StateRow (St : Type 0) : Type 0 where
  pub strategy_version_id : ℕ
  pub symbol : String
  pub timeframe : String
  pub candle_close_ts : Instant
  pub state : Option St
  pub state_schema_version : ℕ

-- trader_alerts
pub record AlertRow : Type 0 where
  pub severity : Severity
  pub subject : String
  pub strategy_version_id : ℕ
  pub symbol : String
  pub timeframe : String
  pub as_of_candle : Option Instant

-- trader_audit_logs, for the HOLD decisions
pub record AuditRow : Type 0 where
  pub strategy_version_id : ℕ
  pub symbol : String
  pub timeframe : String
  pub candle_close_ts : Instant
  pub reason : String

pub record Store (St : Type 0) : Type 0 where
  pub book : Db
  pub states : List (StateRow St)
  pub alerts : List AlertRow
  pub audit_logs : List AuditRow

-- A version, a symbol and a timeframe.
pub record Pair : Type 0 where
  pub version_id : ℕ
  pub symbol : String
  pub timeframe : String

abbrev pub is_candle_of : Pair → CandleRow → Bool
is_candle_of p c = str_eq c.symbol p.symbol && str_eq c.timeframe p.timeframe && c.is_closed

-- The close of the most recent closed candle.
unfoldable pub latest_closed_candle : Pair → Db → Option Instant
latest_closed_candle p db = elim (latest candle_close (select (is_candle_of p) db.candles)) [
  | none ↦ none
  | some c ↦ some c.close_ts
]

abbrev pub signal_at : Pair → Instant → SignalRow → Bool
signal_at p close_ts s =
    s.strategy_version_id == p.version_id
    && str_eq s.symbol p.symbol
    && str_eq s.timeframe p.timeframe
    && s.candle_close_ts == close_ts

unfoldable pub signal_exists : Pair → Instant → Db → Bool
signal_exists p close_ts db = is_some (find (signal_at p close_ts) db.signals)

abbrev pub take {ℓ} : {A : Type ℓ} → ℕ → List A → List A
take zero xs = []
take (suc n) [] = []
take (suc n) (x ∷ xs) = x ∷ take n xs

-- ORDER BY close_ts DESC
abbrev pub newest_first : List CandleRow → List CandleRow
newest_first [] = []
newest_first (c ∷ cs) = insert_by (λ x y. leb y.close_ts x.close_ts) c (newest_first cs)

abbrev pub open_of : CandleRow → Instant
open_of c = c.open_ts

-- The last n closed candles, by their opens.
unfoldable pub load_candles_df : Pair → ℕ → Db → List CandleRow
load_candles_df p n db =
    order_by open_of open_of (take n (newest_first (select (is_candle_of p) db.candles)))

unfoldable pub open_position : Pair → Db → Option PositionRow
open_position p db = find (is_open_for p.version_id p.symbol) db.positions

abbrev pub new_signal : Pair → Instant → Evaluation → Db → SignalRow
new_signal p close_ts e db = record {
  id = db.next_id;
  strategy_version_id = p.version_id;
  symbol = p.symbol;
  timeframe = p.timeframe;
  candle_close_ts = close_ts;
  signal = e.kind;
  reason = e.reason;
  proposed_entry_price = e.proposed_entry_price;
  proposed_stop_price = e.proposed_stop_price;
  proposed_take_profit_price = e.proposed_take_profit_price;
  created_at = db.now;
  processed_at = none;
}

-- ON CONFLICT DO NOTHING; whether a row was inserted.
unfoldable pub persist_signal : Pair → Instant → Evaluation → Db → Bool × Db
persist_signal p close_ts e db =
    if is_some (find (same_signal_key (new_signal p close_ts e db)) db.signals)
    then (false, db)
    else (
      true,
      record db {
        signals = db.signals ++ new_signal p close_ts e db ∷ [];
        next_id = suc db.next_id;
      },
    )

-- Nothing stored, a state and its candle, or a row that cannot be trusted.
pub data Loaded (St : Type 0) : Type 0 where
  cold : Loaded St
  warm : St → Instant → Loaded St
  corrupt : Instant → Loaded St

abbrev pub is_accepted : ℕ → Bool
is_accepted schema_version = if schema_version == 1 then true else schema_version == 2

abbrev pub audit_row : Pair → Instant → Evaluation → AuditRow
audit_row p close_ts e = record {
  strategy_version_id = p.version_id;
  symbol = p.symbol;
  timeframe = p.timeframe;
  candle_close_ts = close_ts;
  reason = e.reason;
}

abbrev pub corrupt_alert : Pair → Option Instant → AlertRow
corrupt_alert p as_of_candle = record {
  severity = Severity.warning;
  subject = "Strategy auto-disabled — corrupt stateful state";
  strategy_version_id = p.version_id;
  symbol = p.symbol;
  timeframe = p.timeframe;
  as_of_candle = as_of_candle;
}

module _ {St : Type 0} where
  unfoldable pub audit_hold : Pair → Instant → Evaluation → Store St → Store St
  audit_hold p close_ts e s = record s { audit_logs = s.audit_logs ++ audit_row p close_ts e ∷ [] }

  abbrev pub is_state_of : Pair → StateRow St → Bool
  is_state_of p r =
      r.strategy_version_id == p.version_id
      && str_eq r.symbol p.symbol
      && str_eq r.timeframe p.timeframe

  abbrev pub state_ts : StateRow St → Instant
  state_ts r = r.candle_close_ts

  unfoldable pub load_strategy_state : Pair → Store St → Loaded St
  load_strategy_state p s = elim (latest state_ts (select (is_state_of p) s.states)) [
    | none ↦ cold
    | some row ↦
        if is_accepted row.state_schema_version
        then (elim row.state [
          | none ↦ corrupt row.candle_close_ts
          | some state ↦ warm state row.candle_close_ts
        ])
        else corrupt row.candle_close_ts
  ]

  -- The version is disabled and an alert is raised.
  unfoldable pub handle_corrupt_state : Pair → Option Instant → Store St → Store St
  handle_corrupt_state p as_of_candle s = record s {
    book = record s.book {
      versions =
          map (λ v. if v.id == p.version_id then record v { enabled = false } else v)
            s.book.versions;
    };
    alerts = s.alerts ++ corrupt_alert p as_of_candle ∷ [];
  }

  abbrev pub state_at : Pair → Instant → StateRow St → Bool
  state_at p close_ts r = is_state_of p r && r.candle_close_ts == close_ts

  abbrev pub state_row : {T : Type 0} → Templates T St → Pair → Instant → St → StateRow St
  state_row ops p close_ts next_state = record {
    strategy_version_id = p.version_id;
    symbol = p.symbol;
    timeframe = p.timeframe;
    candle_close_ts = close_ts;
    state = some next_state;
    state_schema_version = if ops.has_tier3 next_state then 2 else 1;
  }

  -- ON CONFLICT DO NOTHING
  unfoldable pub persist_strategy_state :
      {T : Type 0} → Templates T St → Pair → Instant → St → Store St → Store St
  persist_strategy_state ops p close_ts next_state s =
      if is_some (find (state_at p close_ts) s.states)
      then s
      else record s { states = s.states ++ state_row ops p close_ts next_state ∷ [] }
