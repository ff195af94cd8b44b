-- ===== src/Trader/Ingestion/Counts.antt =====
-- `ingest_one_cycle`: what a pass that ends has counted and stored.
use Prim.Native.String.{String}
use marketmind_open.Common.{
  ℕ, suc, ◌+◌, ◌/◌, ◌≡◌, refl, subst, Bool, true, false, Option, List, [], ◌∷◌, length, ltb, inl,
  inr, Bool-cases, Option-cases, arith,
}
use marketmind_open.Common.Result.{Result, ok, ok-injective, after_bind}
use marketmind_open.Clock.{Instant, timeframe_seconds}
use marketmind_open.Trader.Ingestion.{
  IngestionResult, Ohlcv, recent_close_ts, AssetClass, should_skip_weekend,
}
use marketmind_open.Trader.Ingestion.Cycle.{
  Feeds, Progress, update_pair, emit_update, store, gaps_of, report_gaps, nothing_yet, first_of,
  backfill, check_gaps, ingest_rows, ingest_failure, ingest_pair, ingest_pairs, ingest_one_cycle,
}
use marketmind_open.Trader.Ingestion.Table.{
  OnePerKey, Adds, Step, Adds-trans, Step-trans, stays, store-Step, emit-Step, report-Step,
}

update-Step :
    (has_redis succeeded : Bool) (symbol timeframe : String) (now : Instant) (n : IngestionResult)
    (f : Feeds)
    → Step (n, f) (n, (update_pair has_redis succeeded symbol timeframe now f).1)
unfolding update_pair
update-Step false succeeded symbol timeframe now n f = stays (n, f)
update-Step true succeeded symbol timeframe now n f = ((refl, λ one. one, refl, refl), (refl, refl))

module _ (fetch_recent : String → String → Option (List Ohlcv))
    (fetch_since : String → String → ℕ → Option (List Ohlcv))
    (asset_class : String → Result AssetClass) (has_redis : Bool) (now : Instant) where
  backfill-Step :
      (symbol timeframe : String) (bar_seconds : ℕ) (n : IngestionResult) (f : Feeds)
      → Step
          (n, f)
          (backfill fetch_recent fetch_since asset_class has_redis now symbol timeframe bar_seconds
            (n, f))
  unfolding backfill
  backfill-Step symbol timeframe bar_seconds n f =
      let since_ms = first_of (recent_close_ts symbol timeframe f.candles) / 1000 in
      elim (Option-cases (fetch_since symbol timeframe since_ms)) [
        | inl failed ↦ rw (backfill, failed) (stays (n, f))
        | inr (rows, fetched) ↦
            rw (backfill, fetched) (store-Step symbol timeframe bar_seconds now rows n f)
      ]

  gaps-Step :
      (symbol timeframe : String) (bar_seconds : ℕ) (n : IngestionResult) (f : Feeds)
      → Step
          (n, f)
          (check_gaps fetch_recent fetch_since asset_class has_redis now symbol timeframe
            bar_seconds
            (n, f))
  unfolding check_gaps
  gaps-Step symbol timeframe bar_seconds n f =
      let gaps = gaps_of symbol timeframe bar_seconds f in
      elim (Bool-cases (ltb 0 gaps)) [
        | inr whole ↦ rw (check_gaps, whole) (stays (n, f))
        | inl found ↦
            let n' = record n {
              gaps_detected = n.gaps_detected + gaps;
              backfill_attempts = suc n.backfill_attempts;
            } in
            let filled =
              backfill fetch_recent fetch_since asset_class has_redis now symbol timeframe
                bar_seconds (n', f) in
            rw (check_gaps, found)
              (Step-trans (n, f) filled (report_gaps symbol timeframe bar_seconds filled)
                (backfill-Step symbol timeframe bar_seconds n' f)
                (report-Step symbol timeframe bar_seconds filled.0 filled.1))
      ]

  -- One more pair, under one of three outcomes.
  abbrev Pair : Progress → Progress → Type 0
  Pair (n, f) (n', f') =
      Adds (n, f) (n', f')
      × (n'.pairs_attempted ≡ suc n.pairs_attempted)
      × (n'.pairs_succeeded + n'.pairs_failed + n'.pairs_skipped_weekend
          ≡ suc (n.pairs_succeeded + n.pairs_failed + n.pairs_skipped_weekend))

  rows-Step :
      (symbol timeframe : String) (bar_seconds : ℕ) (rows : List Ohlcv) (n : IngestionResult)
      (f : Feeds)
      → Pair
          (n, f)
          (ingest_rows fetch_recent fetch_since asset_class has_redis now symbol timeframe
            bar_seconds rows
            (record n { pairs_attempted = suc n.pairs_attempted }, f))
  unfolding ingest_rows
  rows-Step symbol timeframe bar_seconds rows n f =
      let start : Progress = (record n { pairs_attempted = suc n.pairs_attempted }, f) in
      let stored = store symbol timeframe bar_seconds now rows start in
      let updated = update_pair has_redis true symbol timeframe now stored.1 in
      let emitted = emit_update symbol timeframe updated.0 (stored.0, updated.1) in
      let checked =
        check_gaps fetch_recent fetch_since asset_class has_redis now symbol timeframe bar_seconds
          emitted in
      let (adds, same) =
        Step-trans start stored checked
          (store-Step symbol timeframe bar_seconds now rows start.0 start.1)
          (Step-trans stored (stored.0, updated.1) checked
            (update-Step has_redis true symbol timeframe now stored.0 stored.1)
            (Step-trans (stored.0, updated.1) emitted checked
              (emit-Step symbol timeframe updated.0 stored.0 updated.1)
              (gaps-Step symbol timeframe bar_seconds emitted.0 emitted.1))) in
      (adds, same.0, omega (arith, same.1))

  failure-Step :
      (symbol timeframe : String) (n : IngestionResult) (f : Feeds)
      → Pair
          (n, f)
          (ingest_failure fetch_recent fetch_since asset_class has_redis now symbol timeframe
            (record n { pairs_attempted = suc n.pairs_attempted }, f))
  unfolding ingest_failure
  failure-Step symbol timeframe n f =
      let updated = update_pair has_redis false symbol timeframe now f in
      let n' = record n {
        pairs_attempted = suc n.pairs_attempted;
        pairs_failed = suc n.pairs_failed;
      } in
      let (adds, same) =
        Step-trans (n', f) (n', updated.1) (emit_update symbol timeframe updated.0 (n', updated.1))
          (update-Step has_redis false symbol timeframe now n' f)
          (emit-Step symbol timeframe updated.0 n' updated.1) in
      (adds, same.0, omega (arith, same.1))

  pair-Pair :
      (symbol timeframe : String) (n : IngestionResult) (f : Feeds) (pass : Progress)
      → ingest_pair fetch_recent fetch_since asset_class has_redis now symbol timeframe (n, f)
        ≡ ok pass
      → Pair (n, f) pass
  unfolding ingest_pair
  pair-Pair symbol timeframe n f pass ran =
      after_bind (asset_class symbol) _ ran λ symbol_class classified rest.
        elim (Bool-cases (should_skip_weekend symbol_class now)) [
          | inl weekend ↦
              subst (Pair (n, f)) (ok-injective (rw weekend at rest))
                ((refl, λ one. one, refl, refl), refl, omega arith)
          | inr weekday ↦ elim (Option-cases (fetch_recent symbol timeframe)) [
            | inl failed ↦
                subst (Pair (n, f)) (ok-injective (rw (weekday, failed) at rest))
                  (failure-Step symbol timeframe n f)
            | inr (rows, fetched) ↦
                after_bind (timeframe_seconds timeframe) _ (rw (weekday, fetched) at rest)
                  λ bar_seconds known final.
                    subst (Pair (n, f)) (ok-injective final)
                      (rows-Step symbol timeframe bar_seconds rows n f)
          ]
        ]

  -- From the start of a pass on.
  abbrev Pairs : ℕ → Progress → Progress → Type 0
  Pairs k (n, f) (n', f') =
      Adds (n, f) (n', f')
      × (n'.pairs_attempted ≡ n.pairs_attempted + k)
      × (n'.pairs_succeeded + n'.pairs_failed + n'.pairs_skipped_weekend
          ≡ n.pairs_succeeded + n.pairs_failed + n.pairs_skipped_weekend + k)

  all-Pairs :
      (pairs : List (String × String)) (pass pass' : Progress)
      → ingest_pairs fetch_recent fetch_since asset_class has_redis now pairs pass ≡ ok pass'
      → Pairs (length pairs) pass pass'
  unfolding ingest_pairs
  all-Pairs [] pass pass' ran =
      subst (Pairs 0 pass) (ok-injective ran) ((stays pass).0, omega arith, omega arith)
  all-Pairs ((symbol, timeframe) ∷ pairs) (n, f) pass' ran =
      after_bind
        (ingest_pair fetch_recent fetch_since asset_class has_redis now symbol timeframe (n, f)) _
        ran
        λ mid first rest.
          let here = pair-Pair symbol timeframe n f mid first in
          let later = all-Pairs pairs mid pass' rest in
          (
            Adds-trans (n, f) mid pass' here.0 later.0,
            omega (arith, here.1, later.1),
            omega (arith, here.2, later.2),
          )

  -- A pass that ends over a table of candles with one row per symbol, timeframe and close leaves such a
  -- table, larger by the candles it counts as inserted; it has attempted every pair and counts each
  -- under one outcome, and emits as many alerts and stale-data events as it counts.
  pub ingest_one_cycle_accounts :
      (pairs : List (String × String)) (f f' : Feeds) (n : IngestionResult)
      → OnePerKey f.candles
      → ingest_one_cycle fetch_recent fetch_since asset_class has_redis now pairs f ≡ ok (n, f')
      → OnePerKey f'.candles
        × (length f'.candles ≡ length f.candles + n.candles_inserted)
        × (n.pairs_attempted ≡ length pairs)
        × (n.pairs_succeeded + n.pairs_failed + n.pairs_skipped_weekend ≡ n.pairs_attempted)
        × (length f'.alerts
            ≡ length f.alerts + n.data_feed_failure_alerts + n.data_feed_recovery_alerts)
        × (length f'.stale_events ≡ length f.stale_events + n.stale_data_events)
  unfolding ingest_one_cycle
  ingest_one_cycle_accounts pairs f f' n one ran =
      let (adds, attempted, counted) = all-Pairs pairs (nothing_yet, f) (n, f') ran in
      (
        adds.1 one,
        omega (arith, adds.0),
        omega (arith, attempted),
        omega (arith, attempted, counted),
        omega (arith, adds.2),
        omega (arith, adds.3),
      )
