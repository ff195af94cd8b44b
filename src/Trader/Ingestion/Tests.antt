-- ===== src/Trader/Ingestion/Tests.antt =====
-- A pass over one pair, and outages of its feed.
use Prim.Native.String.{String}
use marketmind_open.Common.{
  ℕ, ◌+◌, ◌*◌, ◌/◌, ◌≡◌, refl, Bool, true, false, Option, none, some, List, [], ◌∷◌, length, arith,
}
use marketmind_open.Common.Result.{Result, ok}
use marketmind_open.Clock.{Instant, second, timeframe_seconds}
use marketmind_open.Decimal.{literal}
use marketmind_open.Trader.Scenario.{eleven_o_clock, noon, first_candle}
use marketmind_open.Trader.Ingestion.{
  IngestionResult, Ohlcv, filter_closed_candles, detect_gaps_in_timestamps, insert_candle,
  upsert_candles, recent_close_ts, none_due, fire_failure, update_error_state, AssetClass,
  crypto_spot, should_skip_weekend, candle_row,
}
use marketmind_open.Trader.Ingestion.Cycle.{
  Feeds, update_pair, emit_update, store, nothing_yet, check_gaps, ingest_rows, ingest_pair,
  ingest_pairs, ingest_one_cycle,
}
use marketmind_open.Trader.Ingestion.Table.{OnePerKey}
use marketmind_open.Trader.Ingestion.Counts.{ingest_one_cycle_accounts}
use marketmind_open.Trader.Ingestion.Feed.{Fetch, no_keys, updated, all_due, updated_refines}

abbrev hourly_row : ℕ → Ohlcv
hourly_row open_ms = record {
  open_ms = open_ms;
  open_price = literal 101 0;
  high = literal 102 0;
  low = literal 94 0;
  close_price = literal 96 0;
  volume = literal 8 0;
}

-- The stored candle again, the next one, and the one in flight.
abbrev rows : List Ohlcv
rows =
    hourly_row (first_candle.open_ts / 1000)
    ∷ hourly_row (eleven_o_clock / 1000)
    ∷ hourly_row (noon / 1000)
    ∷ []

abbrev recent : String → String → Option (List Ohlcv)
recent symbol timeframe = some rows

abbrev since : String → String → ℕ → Option (List Ohlcv)
since symbol timeframe since_ms = none

abbrev crypto : String → Result AssetClass
crypto symbol = ok crypto_spot

abbrev feeds : Feeds
feeds = record {
  candles = first_candle ∷ [];
  keys = λ symbol timeframe. no_keys;
  stale_events = [];
  alerts = [];
}

abbrev after : Feeds
after = record feeds {
  candles =
      first_candle ∷ candle_row "BTC/USDT" "1h" 3600 (hourly_row (eleven_o_clock / 1000)) ∷ [];
}

abbrev counted : IngestionResult
counted = record nothing_yet { pairs_attempted = 1; pairs_succeeded = 1; candles_inserted = 1 }

one_pair :
    ingest_one_cycle recent since crypto false (noon + 60 * second) (("BTC/USDT", "1h") ∷ []) feeds
    ≡ ok (counted, after)
unfolding ingest_one_cycle ingest_pairs ingest_pair ingest_rows store upsert_candles insert_candle
    filter_closed_candles update_pair emit_update check_gaps detect_gaps_in_timestamps
    recent_close_ts should_skip_weekend timeframe_seconds
one_pair = refl

ingest_one_cycle_accounts_example :
    OnePerKey after.candles
    × (length after.candles ≡ length feeds.candles + counted.candles_inserted)
    × (counted.pairs_attempted ≡ 1)
    × (counted.pairs_succeeded + counted.pairs_failed + counted.pairs_skipped_weekend
        ≡ counted.pairs_attempted)
    × (length after.alerts
        ≡ length feeds.alerts
          + counted.data_feed_failure_alerts
          + counted.data_feed_recovery_alerts)
    × (length after.stale_events ≡ length feeds.stale_events + counted.stale_data_events)
ingest_one_cycle_accounts_example =
    ingest_one_cycle_accounts recent since crypto false (noon + 60 * second)
      (("BTC/USDT", "1h") ∷ []) feeds after counted (refl, tt) one_pair

abbrev fetch : Bool → Instant → Fetch
fetch succeeded at = record { succeeded = succeeded; at = at }

-- Three failures and a success within an hour.
abbrev short_outage : List Fetch
short_outage =
    fetch true (3600 * second)
    ∷ fetch false (120 * second)
    ∷ fetch false (60 * second)
    ∷ fetch false 0
    ∷ []

updated_refines_example : (updated short_outage).1 ≡ all_due short_outage
updated_refines_example = updated_refines 0 short_outage (
  (omega arith, omega arith),
  ((omega arith, omega arith), ((omega arith, omega arith), ((omega arith, omega arith), tt))),
)

-- After an outage of more than a day the flag has expired, and nothing tells that the feed is back.
abbrev long_outage : List Fetch
long_outage =
    fetch true (26 * 3600 * second)
    ∷ fetch false (25 * 3600 * second)
    ∷ fetch false (12 * 3600 * second)
    ∷ fetch false (120 * second)
    ∷ fetch false (60 * second)
    ∷ fetch false 0
    ∷ []

long_outage_silent :
    (updated long_outage).1
    ≡ none_due ∷ none_due ∷ none_due ∷ fire_failure ∷ none_due ∷ none_due ∷ []
unfolding update_error_state
long_outage_silent = refl
