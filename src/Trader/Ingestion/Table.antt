-- ===== src/Trader/Ingestion/Table.antt =====
-- What a pass adds to the candles, and what it counts.
use Prim.Native.String.{String}
use text.Mathlib.TextEquality.{eq_iff}
use marketmind_open.Common.{
  ℕ, ◌+◌, ◌≡◌, refl, ◌∙◌, Bool, false, none, List, [], ◌∷◌, ◌++◌, length, length-append, find, ltb,
  inl, inr, Bool-cases, Option-cases, arith,
}
use marketmind_open.Clock.{Instant}
use marketmind_open.Trader.Schema.{CandleRow}
use marketmind_open.Trader.Ingestion.{
  IngestionResult, Ohlcv, filter_closed_candles, same_candle_key, candle_row, insert_candle,
  upsert_candles, Action, none_due, fire_failure, fire_recovery, ErrorStateUpdate,
}
use marketmind_open.Trader.Ingestion.Cycle.{
  Feeds, FeedAlert, stale_event, Progress, emit_update, store, gaps_of, report_gaps,
}

-- No later candle has the key of an earlier one.
abbrev pub OnePerKey : List CandleRow → Type 0
OnePerKey [] = Unit
OnePerKey (c ∷ cs) = (find (same_candle_key c) cs ≡ none) × OnePerKey cs

same_candle_key_sym : (a b : CandleRow) → same_candle_key a b ≡ same_candle_key b a
same_candle_key_sym a b = ground (
  arith,
  eq_iff a.symbol b.symbol,
  eq_iff b.symbol a.symbol,
  eq_iff a.timeframe b.timeframe,
  eq_iff b.timeframe a.timeframe,
)

find-append :
    (q : CandleRow → Bool) (new : CandleRow) (cs : List CandleRow)
    → find q cs ≡ none
    → q new ≡ false
    → find q (cs ++ new ∷ []) ≡ none
find-append q new [] h other = rw other refl
find-append q new (x ∷ cs) h other = elim (Bool-cases (q x)) [
  | inl same ↦ absurd (ground (arith, h, same))
  | inr differs ↦ ground (arith, differs, find-append q new cs (ground (arith, h, differs)) other)
]

not_found :
    (q : CandleRow → Bool) (x : CandleRow) (cs : List CandleRow)
    → find q (x ∷ cs) ≡ none
    → (q x ≡ false) × (find q cs ≡ none)
not_found q x cs h = elim (Bool-cases (q x)) [
  | inl same ↦ absurd (ground (arith, h, same))
  | inr differs ↦ (differs, ground (arith, h, differs))
]

append-OnePerKey :
    (cs : List CandleRow) (new : CandleRow)
    → OnePerKey cs
    → find (same_candle_key new) cs ≡ none
    → OnePerKey (cs ++ new ∷ [])
append-OnePerKey [] new h free = (refl, tt)
append-OnePerKey (c ∷ cs) new h free =
    let (differs, rest) = not_found (same_candle_key new) c cs free in
    (
      find-append (same_candle_key c) new cs h.0 (same_candle_key_sym c new ∙ differs),
      append-OnePerKey cs new h.1 rest,
    )

-- A table that has grown by a number of rows, with one row per key if it had.
abbrev pub Grows : ℕ → List CandleRow → List CandleRow → Type 0
Grows k cs cs' = (length cs' ≡ length cs + k) × (OnePerKey cs → OnePerKey cs')

insert_candle-Grows :
    (c : CandleRow) (cs : List CandleRow) → Grows (insert_candle c cs).0 cs (insert_candle c cs).1
unfolding insert_candle
insert_candle-Grows c cs = elim (Option-cases (find (same_candle_key c) cs)) [
  | inl free ↦
      rw (insert_candle, free) (length-append cs (c ∷ []), λ h. append-OnePerKey cs c h free)
  | inr (x, found) ↦ rw (insert_candle, found) (omega arith, λ h. h)
]

upsert_candles-Grows :
    (symbol timeframe : String) (bar_seconds : ℕ) (rows : List Ohlcv) (cs : List CandleRow)
    → Grows
        (upsert_candles symbol timeframe bar_seconds rows cs).0
        cs
        (upsert_candles symbol timeframe bar_seconds rows cs).1
unfolding upsert_candles
upsert_candles-Grows symbol timeframe bar_seconds [] cs = (omega arith, λ h. h)
upsert_candles-Grows symbol timeframe bar_seconds (row ∷ rows) cs =
    let c = candle_row symbol timeframe bar_seconds row in
    let first = insert_candle-Grows c cs in
    let later = upsert_candles-Grows symbol timeframe bar_seconds rows (insert_candle c cs).1 in
    (omega (arith, first.0, later.0), λ h. later.1 (first.1 h))

-- From one moment of the pass to a later one.
abbrev pub Adds : Progress → Progress → Type 0
Adds (n, f) (n', f') =
    (length f'.candles + n.candles_inserted ≡ length f.candles + n'.candles_inserted)
    × (OnePerKey f.candles → OnePerKey f'.candles)
    × (length f'.alerts + n.data_feed_failure_alerts + n.data_feed_recovery_alerts
        ≡ length f.alerts + n'.data_feed_failure_alerts + n'.data_feed_recovery_alerts)
    × (length f'.stale_events + n.stale_data_events ≡ length f.stale_events + n'.stale_data_events)

-- The counters of the pairs stay.
abbrev pub SamePairs : Progress → Progress → Type 0
SamePairs (n, f) (n', f') =
    (n'.pairs_attempted ≡ n.pairs_attempted)
    × (n'.pairs_succeeded + n'.pairs_failed + n'.pairs_skipped_weekend
        ≡ n.pairs_succeeded + n.pairs_failed + n.pairs_skipped_weekend)

pub Adds-trans : (a b c : Progress) → Adds a b → Adds b c → Adds a c
Adds-trans a b c h k = (
  omega (arith, h.0, k.0),
  λ one. k.1 (h.1 one),
  omega (arith, h.2, k.2),
  omega (arith, h.3, k.3),
)

pub SamePairs-trans : (a b c : Progress) → SamePairs a b → SamePairs b c → SamePairs a c
SamePairs-trans a b c h k = (omega (arith, h.0, k.0), omega (arith, h.1, k.1))

abbrev pub Step : Progress → Progress → Type 0
Step a b = Adds a b × SamePairs a b

pub Step-trans : (a b c : Progress) → Step a b → Step b c → Step a c
Step-trans a b c (h, h') (k, k') = (Adds-trans a b c h k, SamePairs-trans a b c h' k')

pub stays : (a : Progress) → Step a a
stays a = ((refl, λ h. h, refl, refl), (refl, refl))

pub store-Step :
    (symbol timeframe : String) (bar_seconds : ℕ) (now : Instant) (rows : List Ohlcv)
    (n : IngestionResult) (f : Feeds)
    → Step (n, f) (store symbol timeframe bar_seconds now rows (n, f))
unfolding store
store-Step symbol timeframe bar_seconds now rows n f =
    let grown =
      upsert_candles-Grows symbol timeframe bar_seconds (filter_closed_candles bar_seconds now rows)
        f.candles in
    ((omega (arith, grown.0), grown.1, refl, refl), (refl, refl))

pub emit-Step :
    (symbol timeframe : String) (update : ErrorStateUpdate) (n : IngestionResult) (f : Feeds)
    → Step (n, f) (emit_update symbol timeframe update (n, f))
unfolding emit_update
emit-Step symbol timeframe update n f = go update.action refl
  where
    go :
        (action : Action)
        → update.action ≡ action
        → Step (n, f) (emit_update symbol timeframe update (n, f))
    go none_due h = rw (emit_update, h) (stays (n, f))
    go fire_failure h =
        rw (emit_update, h)
          (
            (
              refl,
              λ one. one,
              omega (
                arith,
                length-append f.alerts (FeedAlert.failing symbol timeframe update.new_count ∷ []),
              ),
              refl,
            ),
            (refl, refl),
          )
    go fire_recovery h =
        rw (emit_update, h)
          (
            (
              refl,
              λ one. one,
              omega (
                arith,
                length-append f.alerts
                    (FeedAlert.recovered symbol timeframe update.streak_length ∷ []),
              ),
              refl,
            ),
            (refl, refl),
          )

pub report-Step :
    (symbol timeframe : String) (bar_seconds : ℕ) (n : IngestionResult) (f : Feeds)
    → Step (n, f) (report_gaps symbol timeframe bar_seconds (n, f))
unfolding report_gaps
report-Step symbol timeframe bar_seconds n f =
    let gaps = gaps_of symbol timeframe bar_seconds f in
    elim (Bool-cases (ltb 0 gaps)) [
      | inl left ↦
          let event = stale_event symbol timeframe gaps in
          rw (report_gaps, left)
            (
              (refl, λ one. one, refl, omega (arith, length-append f.stale_events (event ∷ []))),
              (refl, refl),
            )
      | inr none_left ↦ rw (report_gaps, none_left) (stays (n, f))
    ]
