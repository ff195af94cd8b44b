-- ===== src/Trader/Ingestion.antt =====
-- workers/src/marketmind_workers/trader/ingestion.py: one pass over the pairs, with the filter of closed
-- candles, the insertion, the gaps and their backfill, and the error state of each pair. The adapter
-- and the asset class of a symbol are parameters. Instants are aware; the product of a timestamp and
-- 1000 is exact. The heartbeat, the log lines and the texts are left out.
pub mod Cycle
pub mod Counts
pub mod Feed
pub mod Table
mod Tests
use Prim.Native.String.{String}
use text.Mathlib.Text.{◌==◌ as str_eq}
use marketmind_open.Common.{
  ℕ, zero, suc, ◌+◌, ◌-◌, ◌*◌, ◌/◌, Bool, true, false, ◌&&◌, ◌||◌, not, Option, none, some, List,
  [], ◌∷◌, ◌++◌, map, length, ltb, leb, ◌==◌, if◌then◌else◌, find, select,
}
use marketmind_open.Common.Result.{Result, ok, err, ◌>>=◌}
use marketmind_open.Clock.{Instant, second, day, weekday, timeframe_seconds}
use marketmind_open.Decimal.{Decimal}
use marketmind_open.Trader.Schema.{CandleRow}
use marketmind_open.Trader.Tables.{is_some, order_by}
use marketmind_open.Trader.Signals.Store.{take, newest_first}
use marketmind_open.Trader.Jobs.{Counter, live_count}

abbrev pub safety_margin_seconds : ℕ
safety_margin_seconds = 30

abbrev pub gap_detection_lookback : ℕ
gap_detection_lookback = 50

abbrev pub data_feed_failure_threshold : ℕ
data_feed_failure_threshold = 3

abbrev pub redis_err_ttl : ℕ
redis_err_ttl = 86400 * second

pub record IngestionResult : Type 0 where
  pub pairs_attempted : ℕ
  pub pairs_succeeded : ℕ
  pub pairs_failed : ℕ
  pub pairs_skipped_weekend : ℕ
  pub candles_inserted : ℕ
  pub gaps_detected : ℕ
  pub backfill_attempts : ℕ
  pub stale_data_events : ℕ
  pub data_feed_failure_alerts : ℕ
  pub data_feed_recovery_alerts : ℕ

-- A row of ccxt, with its prices as decimals.
pub record Ohlcv : Type 0 where
  pub open_ms : ℕ
  pub open_price : Decimal
  pub high : Decimal
  pub low : Decimal
  pub close_price : Decimal
  pub volume : Decimal

-- With the bar in seconds, as the two helpers compute it from the timeframe.
unfoldable pub filter_closed_candles : ℕ → Instant → List Ohlcv → List Ohlcv
filter_closed_candles bar_seconds now rows =
    let cutoff_ms = (now - safety_margin_seconds * second) / 1000 in
    select (λ row. leb (row.open_ms + bar_seconds * 1000) cutoff_ms) rows

-- abs(delta - bar_seconds) > 1, for two times in order
abbrev pub is_gap : ℕ → Instant → Instant → Bool
is_gap bar_seconds earlier later =
    let delta = later - earlier in
    ltb (bar_seconds * second + second) delta || ltb (delta + second) (bar_seconds * second)

-- The times are sorted.
unfoldable pub detect_gaps_in_timestamps : ℕ → List Instant → ℕ
detect_gaps_in_timestamps bar_seconds [] = 0
detect_gaps_in_timestamps bar_seconds (t ∷ []) = 0
detect_gaps_in_timestamps bar_seconds (t ∷ t' ∷ ts) =
    let rest = detect_gaps_in_timestamps bar_seconds (t' ∷ ts) in
    if is_gap bar_seconds t t' then suc rest else rest

-- UNIQUE (symbol, timeframe, close_ts)
abbrev pub same_candle_key : CandleRow → CandleRow → Bool
same_candle_key a b =
    str_eq a.symbol b.symbol && str_eq a.timeframe b.timeframe && a.close_ts == b.close_ts

abbrev pub candle_row : String → String → ℕ → Ohlcv → CandleRow
candle_row symbol timeframe bar_seconds row = record {
  symbol = symbol;
  timeframe = timeframe;
  open_ts = row.open_ms * 1000;
  close_ts = row.open_ms * 1000 + bar_seconds * second;
  open_price = row.open_price;
  high = row.high;
  low = row.low;
  close_price = row.close_price;
  volume = row.volume;
  is_closed = true;
}

-- ON CONFLICT DO NOTHING
unfoldable pub insert_candle : CandleRow → List CandleRow → ℕ × List CandleRow
insert_candle c candles =
    if is_some (find (same_candle_key c) candles) then (0, candles) else (1, candles ++ c ∷ [])

unfoldable pub upsert_candles :
    String → String → ℕ → List Ohlcv → List CandleRow → ℕ × List CandleRow
upsert_candles symbol timeframe bar_seconds [] candles = (0, candles)
upsert_candles symbol timeframe bar_seconds (row ∷ rows) candles =
    let (inserted, candles') =
      insert_candle (candle_row symbol timeframe bar_seconds row) candles in
    let (more, candles'') = upsert_candles symbol timeframe bar_seconds rows candles' in
    (inserted + more, candles'')

abbrev pub close_of : CandleRow → Instant
close_of c = c.close_ts

-- The last closes of a pair, ascending.
unfoldable pub recent_close_ts : String → String → List CandleRow → List Instant
recent_close_ts symbol timeframe candles = map close_of (
    order_by close_of close_of (
      take gap_detection_lookback (
        newest_first
          (select (λ c. str_eq c.symbol symbol && str_eq c.timeframe timeframe) candles))))

-- The two keys of a pair: the counter, and when the alerted flag expires.
pub record ErrorKeys : Type 0 where
  pub err_count : Option Counter
  pub err_alerted : Option Instant

pub data Action : Type 0 where
  none_due fire_failure fire_recovery : Action

pub record ErrorStateUpdate : Type 0 where
  pub new_count : ℕ
  pub action : Action
  pub streak_length : ℕ

-- The flag is there and has not expired.
abbrev pub is_alerted : Instant → Option Instant → Bool
is_alerted now none = false
is_alerted now (some expires) = ltb now expires

-- With Redis; the keys of one pair, at an instant.
unfoldable pub update_error_state : Bool → Instant → ErrorKeys → ErrorStateUpdate × ErrorKeys
update_error_state true now keys =
    let prior_count = live_count keys.err_count now in
    (
      record {
        new_count = 0;
        action = if is_alerted now keys.err_alerted then fire_recovery else none_due;
        streak_length = prior_count;
      },
      record { err_count = none; err_alerted = none },
    )
update_error_state false now keys =
    let new_count = suc (live_count keys.err_count now) in
    let count = some (record { count = new_count; expires = now + redis_err_ttl }) in
    let fires = new_count == data_feed_failure_threshold && not (is_alerted now keys.err_alerted) in
    (
      record {
        new_count = new_count;
        action = if fires then fire_failure else none_due;
        streak_length = new_count;
      },
      record {
        err_count = count;
        err_alerted = if fires then some (now + redis_err_ttl) else keys.err_alerted;
      },
    )

pub data AssetClass : Type 0 where
  crypto_spot fx_spot metals_spot equity_etf equity_single crypto_perp : AssetClass

-- session_skip.py
unfoldable pub should_skip_weekend : AssetClass → Instant → Bool
should_skip_weekend asset_class now = elim asset_class [
  | crypto_spot ↦ false
  | _ ↦ leb 5 (weekday now)
]
