-- ===== src/Clock/Boundaries.antt =====
-- Candles start on whole multiples of their timeframe, and the next close is the first one ahead.
use Prim.Native.String.{String}
use marketmind_open.Common.{ℕ, ◌+◌, ◌-◌, ◌*◌, ◌/◌, ◌%◌, ◌≤◌, ◌<◌, ◌≡◌, ap, lt→ltb, arith}
use marketmind_open.Common.Result.{ok, ◌>>=◌}
use marketmind_open.Clock.{
  Instant, utc, second, require_utc, timeframe_seconds, candle_open_for, candle_close_for,
  next_candle_close,
}

timeframe_seconds_bounds :
    (timeframe : String) {s : ℕ} → timeframe_seconds timeframe ≡ ok s → (0 < s) × (86400 % s ≡ 0)
unfolding timeframe_seconds
timeframe_seconds_bounds timeframe h = ground arith

-- Flooring to a whole number of timeframes, in seconds.
aligned_lem : (e s : ℕ) → 0 < s → e - e % s ≡ e / s * s
aligned_lem e s h = omega arith

aligned_bounds :
    (t s : ℕ)
    → 0 < s
    → (t / second / s * s * second ≤ t) × (t < t / second / s * s * second + s * second)
aligned_bounds t s h = omega arith

-- The candle of a known timeframe that contains an instant opens at a multiple of the timeframe, at
-- the instant or less than one timeframe before it.
pub candle_open_for_contains :
    (timeframe : String) (t : Instant) {s : ℕ}
    → timeframe_seconds timeframe ≡ ok s
    → (o : ℕ) × (candle_open_for timeframe (utc t) ≡ ok (utc (o * s * second)))
      × (o * s * second ≤ t)
      × (t < o * s * second + s * second)
unfolding candle_open_for require_utc
candle_open_for_contains timeframe t {s} h =
    let positive : 0 < s = (timeframe_seconds_bounds timeframe h).0 in
    let (low, high) = aligned_bounds t s positive in
    (
      t / second / s,
      rw (h, ◌>>=◌) (ap (λ n. ok (utc (n * second))) (aligned_lem (t / second) s positive)),
      low,
      high,
    )

-- For a known timeframe, the next close is a boundary after the instant, and the first one: it is
-- at most one timeframe ahead.
pub next_candle_close_first :
    (timeframe : String) (t : Instant) {s : ℕ}
    → timeframe_seconds timeframe ≡ ok s
    → (c : ℕ) × (next_candle_close timeframe (utc t) ≡ ok (utc (c * s * second)))
      × (t < c * s * second)
      × (c * s * second ≤ t + s * second)
unfolding next_candle_close candle_close_for require_utc
next_candle_close_first timeframe t {s} h =
    let (o, opened, low, high) = candle_open_for_contains timeframe t h in
    (
      o + 1,
      rw (opened, h, ◌>>=◌) (rw (lt→ltb _ _ high) (ap (λ n. ok (utc n)) (omega arith))),
      omega arith,
      omega arith,
    )
