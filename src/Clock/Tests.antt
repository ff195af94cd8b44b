-- ===== src/Clock/Tests.antt =====
-- Boundaries and windows at concrete instants.
use marketmind_open.Common.{◌+◌, ◌*◌, ◌≡◌, refl}
use marketmind_open.Common.Result.{ok, err, time_error}
use marketmind_open.Clock.{Instant, second, day, timeframe_seconds}

abbrev past_eleven : Instant
past_eleven = 20000 * day + 39605 * second

hourly : timeframe_seconds "1h" ≡ ok 3600
unfolding timeframe_seconds
hourly = refl

weekly : timeframe_seconds "1w" ≡ err time_error
unfolding timeframe_seconds
weekly = refl
