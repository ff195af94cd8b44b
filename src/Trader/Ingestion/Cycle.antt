-- ===== src/Trader/Ingestion/Cycle.antt =====
-- `ingest_one_cycle`: the pairs one by one, each with its fetch, its candles, its error state and its
-- gaps.
use Prim.Native.String.{String}
use text.Mathlib.Text.{◌==◌ as str_eq}
use marketmind_open.Common.{
  ℕ, suc, ◌+◌, ◌/◌, Bool, true, false, ◌&&◌, Option, none, some, List, [], ◌∷◌, ◌++◌, ltb,
  if◌then◌else◌,
}
use marketmind_open.Common.Result.{Result, ok, ◌>>=◌}
use marketmind_open.Clock.{Instant, timeframe_seconds}
use marketmind_open.Trader.Schema.{CandleRow}
use marketmind_open.Trader.Ingestion.{
  IngestionResult, Ohlcv, filter_closed_candles, detect_gaps_in_timestamps, upsert_candles,
  recent_close_ts, ErrorKeys, none_due, fire_failure, fire_recovery, ErrorStateUpdate,
  update_error_state, AssetClass, should_skip_weekend,
}

pub record StaleEvent : Type 0 where
  pub symbol : String
  pub timeframe : String
  pub remaining_gaps : ℕ

-- The alerts of a feed: it fails, or it is back after a streak.
pub data FeedAlert : Type 0 where
  failing recovered : String → String → ℕ → FeedAlert

-- What the pass works on: the candles, the keys of each pair, and what it has emitted.
pub record Feeds : Type 0 where
  pub candles : List CandleRow
  pub keys : String → String → ErrorKeys
  pub stale_events : List StaleEvent
  pub alerts : List FeedAlert

abbrev pub Progress : Type 0
Progress = IngestionResult × Feeds

abbrev pub set_keys :
    String → String → ErrorKeys → (String → String → ErrorKeys) → String → String → ErrorKeys
set_keys symbol timeframe value keys s t =
    if str_eq s symbol && str_eq t timeframe then value else keys s t

-- Without Redis the state machine does nothing.
unfoldable pub update_pair :
    Bool → Bool → String → String → Instant → Feeds → ErrorStateUpdate × Feeds
update_pair has_redis succeeded symbol timeframe now f =
    let (update, value) = update_error_state succeeded now (f.keys symbol timeframe) in
    if has_redis
    then (update, record f { keys = set_keys symbol timeframe value f.keys })
    else (record { new_count = 0; action = none_due; streak_length = 0 }, f)

-- The alert of an update.
unfoldable pub emit_update : String → String → ErrorStateUpdate → Progress → Progress
emit_update symbol timeframe update (n, f) = elim update.action [
  | none_due ↦ (n, f)
  | fire_failure ↦ (
    record n { data_feed_failure_alerts = suc n.data_feed_failure_alerts },
    record f { alerts = f.alerts ++ failing symbol timeframe update.new_count ∷ [] },
  )
  | fire_recovery ↦ (
    record n { data_feed_recovery_alerts = suc n.data_feed_recovery_alerts },
    record f { alerts = f.alerts ++ recovered symbol timeframe update.streak_length ∷ [] },
  )
]

-- Closed candles of a fetch, stored and counted.
unfoldable pub store : String → String → ℕ → Instant → List Ohlcv → Progress → Progress
store symbol timeframe bar_seconds now rows (n, f) =
    let (inserted, candles) =
      upsert_candles symbol timeframe bar_seconds (filter_closed_candles bar_seconds now rows)
        f.candles in
    (record n { candles_inserted = n.candles_inserted + inserted }, record f { candles = candles })

abbrev pub first_of : List Instant → Instant
first_of [] = 0
first_of (t ∷ ts) = t

abbrev pub gaps_of : String → String → ℕ → Feeds → ℕ
gaps_of symbol timeframe bar_seconds f =
    detect_gaps_in_timestamps bar_seconds (recent_close_ts symbol timeframe f.candles)

abbrev pub stale_event : String → String → ℕ → StaleEvent
stale_event symbol timeframe remaining_gaps = record {
  symbol = symbol;
  timeframe = timeframe;
  remaining_gaps = remaining_gaps;
}

-- The event of the gaps that a backfill leaves.
unfoldable pub report_gaps : String → String → ℕ → Progress → Progress
report_gaps symbol timeframe bar_seconds (n, f) =
    let remaining_gaps = gaps_of symbol timeframe bar_seconds f in
    if ltb 0 remaining_gaps
    then (
      record n { stale_data_events = suc n.stale_data_events },
      record f {
        stale_events = f.stale_events ++ stale_event symbol timeframe remaining_gaps ∷ [];
      },
    )
    else (n, f)

abbrev pub nothing_yet : IngestionResult
nothing_yet = record {
  pairs_attempted = 0;
  pairs_succeeded = 0;
  pairs_failed = 0;
  pairs_skipped_weekend = 0;
  candles_inserted = 0;
  gaps_detected = 0;
  backfill_attempts = 0;
  stale_data_events = 0;
  data_feed_failure_alerts = 0;
  data_feed_recovery_alerts = 0;
}

abbrev pub count_success : Progress → Progress
count_success (n, f) = (record n { pairs_succeeded = suc n.pairs_succeeded }, f)

-- A fetch returns rows, or raises an IngestionError.
module _ (fetch_recent_ohlcv : String → String → Option (List Ohlcv))
    (fetch_ohlcv_since : String → String → ℕ → Option (List Ohlcv))
    (infer_asset_class_from_symbol : String → Result AssetClass) (has_redis : Bool)
    (now : Instant) where
  unfoldable pub backfill : String → String → ℕ → Progress → Progress
  backfill symbol timeframe bar_seconds (n, f) =
      let since_ms = first_of (recent_close_ts symbol timeframe f.candles) / 1000 in
      elim (fetch_ohlcv_since symbol timeframe since_ms) [
        | none ↦ (n, f)
        | some rows ↦ store symbol timeframe bar_seconds now rows (n, f)
      ]

  unfoldable pub check_gaps : String → String → ℕ → Progress → Progress
  check_gaps symbol timeframe bar_seconds (n, f) =
      let gaps = gaps_of symbol timeframe bar_seconds f in
      if ltb 0 gaps
      then report_gaps symbol timeframe bar_seconds (
          backfill symbol timeframe bar_seconds (
            record n {
              gaps_detected = n.gaps_detected + gaps;
              backfill_attempts = suc n.backfill_attempts;
            },
            f,
          ))
      else (n, f)

  -- After a fetch that returned.
  unfoldable pub ingest_rows : String → String → ℕ → List Ohlcv → Progress → Progress
  ingest_rows symbol timeframe bar_seconds rows pass =
      let stored = store symbol timeframe bar_seconds now rows pass in
      let (update, f) = update_pair has_redis true symbol timeframe now stored.1 in
      count_success (
        check_gaps symbol timeframe bar_seconds (emit_update symbol timeframe update (stored.0, f)))

  -- After a fetch that raised.
  unfoldable pub ingest_failure : String → String → Progress → Progress
  ingest_failure symbol timeframe (n, f) =
      let (update, f') = update_pair has_redis false symbol timeframe now f in
      emit_update symbol timeframe update (record n { pairs_failed = suc n.pairs_failed }, f')

  unfoldable pub ingest_pair : String → String → Progress → Result Progress
  ingest_pair symbol timeframe (n, f) =
      let n' = record n { pairs_attempted = suc n.pairs_attempted } in
      infer_asset_class_from_symbol symbol >>= λ symbol_class.
      if should_skip_weekend symbol_class now
      then ok (record n' { pairs_skipped_weekend = suc n.pairs_skipped_weekend }, f)
      else (elim (fetch_recent_ohlcv symbol timeframe) [
        | none ↦ ok (ingest_failure symbol timeframe (n', f))
        | some rows ↦ timeframe_seconds timeframe >>= λ bar_seconds.
            ok (ingest_rows symbol timeframe bar_seconds rows (n', f))
      ])

  unfoldable pub ingest_pairs : List (String × String) → Progress → Result Progress
  ingest_pairs [] pass = ok pass
  ingest_pairs ((symbol, timeframe) ∷ pairs) pass = do
    pass' ← ingest_pair symbol timeframe pass
    ingest_pairs pairs pass'

  -- The pairs are symbols by timeframes.
  unfoldable pub ingest_one_cycle : List (String × String) → Feeds → Result Progress
  ingest_one_cycle pairs f = ingest_pairs pairs (nothing_yet, f)
