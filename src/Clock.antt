-- ===== src/Clock.antt =====
-- shared/src/marketmind_shared/trader/time.py: UTC instants, candle boundaries and the windows of
-- the loss limits. Datetimes from 1970 on are counted in microseconds.
pub mod Boundaries
pub mod Windows
mod Tests
use Prim.Native.String.{String}
use text.Mathlib.Text.{◌==◌ as str_eq}
use marketmind_open.Common.{
  ℕ, ◌+◌, ◌-◌, ◌*◌, ◌/◌, ◌%◌, Option, none, some, ltb, ◌==◌, if◌then◌else◌,
}
use marketmind_open.Common.Int.{ℤ, abs}
use marketmind_open.Common.Result.{Result, ok, err, time_error, ◌>>=◌}

-- An instant of UTC, in microseconds since 1970-01-01T00:00Z.
abbrev pub Instant : Type 0
Instant = ℕ

-- A datetime and its UTC offset; a naive one has none.
pub record DateTime : Type 0 where
  pub instant : Instant
  pub offset : Option ℤ

abbrev pub utc : Instant → DateTime
utc t = record { instant = t; offset = some (ℤ.pos 0) }

abbrev pub second : ℕ
second = 1000000

abbrev pub day : ℕ
day = 86400 * second

-- What `require_utc` finds in a datetime that is not None.
unfoldable pub require_utc : DateTime → Result Instant
require_utc value = elim value.offset [
  | none ↦ err time_error
  | some offset ↦ if abs offset == 0 then ok value.instant else err time_error
]

unfoldable pub timeframe_seconds : String → Result ℕ
timeframe_seconds timeframe =
    if str_eq timeframe "1m"
    then ok 60
    else if str_eq timeframe "5m"
    then ok (5 * 60)
    else if str_eq timeframe "15m"
    then ok (15 * 60)
    else if str_eq timeframe "30m"
    then ok (30 * 60)
    else if str_eq timeframe "1h"
    then ok (60 * 60)
    else if str_eq timeframe "4h"
    then ok (4 * 60 * 60)
    else if str_eq timeframe "1d"
    then ok (24 * 60 * 60)
    else err time_error

unfoldable pub candle_open_for : String → DateTime → Result DateTime
candle_open_for timeframe instant = do
  value ← require_utc instant
  seconds ← timeframe_seconds timeframe
  let epoch_seconds = value / second
  let aligned = epoch_seconds - epoch_seconds % seconds
  ok (utc (aligned * second))

unfoldable pub candle_close_for : String → DateTime → Result DateTime
candle_close_for timeframe open_ts = do
  value ← require_utc open_ts
  seconds ← timeframe_seconds timeframe
  ok (utc (value + seconds * second))

unfoldable pub next_candle_close : String → DateTime → Result DateTime
next_candle_close timeframe after = do
  value ← require_utc after
  current_open ← candle_open_for timeframe after
  current_close ← candle_close_for timeframe current_open
  if ltb value current_close.instant then ok current_close else do
    seconds ← timeframe_seconds timeframe
    ok (utc (current_close.instant + seconds * second))

unfoldable pub utc_midnight_of : DateTime → Result Instant
utc_midnight_of instant = do value ← require_utc instant; ok (value - value % day)

-- `weekday()`: Monday is 0, and 1970-01-01 was a Thursday.
abbrev pub weekday : Instant → ℕ
weekday t = (t / day + 3) % 7

unfoldable pub utc_monday_of : DateTime → Result Instant
utc_monday_of instant = do
  _ ← require_utc instant
  midnight ← utc_midnight_of instant
  ok (midnight - weekday midnight * day)
