-- ===== src/Trader/Jobs/Boundaries.antt =====
-- Each schedule's next run is ahead, at most one period, and on the schedule's grid.
use marketmind_open.Common.{ℕ, ◌+◌, ◌-◌, ◌*◌, ◌%◌, ◌≤◌, ◌<◌, ◌≡◌, refl, leb, if◌then◌else◌, arith}
use marketmind_open.Common.Result.{ok, ◌>>=◌}
use marketmind_open.Clock.{Instant, utc, require_utc, day, utc_midnight_of}
use marketmind_open.Clock.Windows.{utc_monday_of_window}
use marketmind_open.Trader.Jobs.{
  minute, hour, next_minute_boundary, next_n_minute_boundary, next_daily_at, next_monday_at,
}

-- A run is ahead, at most one period, and at an offset from a multiple of the period; 1970 began
-- `shift` into a period.
pub record IsOnGrid (period shift offset now run : ℕ) : Type 0 where
  pub ahead : now < run
  pub near : run ≤ now + period
  pub on_grid : (run + shift) % period ≡ offset

next_minute-IsOnGrid : (now : Instant) → IsOnGrid minute 0 0 now (next_minute_boundary now)
unfolding next_minute_boundary
next_minute-IsOnGrid now = record { ahead = omega arith; near = omega arith; on_grid = omega arith }

five_minutes-IsOnGrid :
    (now : Instant) → IsOnGrid (5 * minute) 0 0 now (next_n_minute_boundary now 5)
unfolding next_n_minute_boundary
five_minutes-IsOnGrid now = record {
  ahead = omega arith;
  near = omega arith;
  on_grid = omega arith;
}

-- The first occurrence of an offset in the period that began at `low`, or the next one.
abbrev first_after : ℕ → ℕ → ℕ → ℕ → ℕ
first_after period offset low now =
    if leb (low + offset) now then low + offset + period else low + offset

daily-IsOnGrid :
    (offset low now : ℕ)
    → offset < day
    → low % day ≡ 0
    → low ≤ now
    → now < low + day
    → IsOnGrid day 0 offset now (first_after day offset low now)
daily-IsOnGrid offset low now small grid le lt = ground arith

weekly-IsOnGrid :
    (offset low now : ℕ)
    → offset < 7 * day
    → (low + 3 * day) % (7 * day) ≡ 0
    → low ≤ now
    → now < low + 7 * day
    → IsOnGrid (7 * day) (3 * day) offset now (first_after (7 * day) offset low now)
weekly-IsOnGrid offset low now small grid le lt = ground arith

next_daily_at-IsOnGrid :
    (now : Instant) (at_hour at_minute : ℕ)
    → at_hour * hour + at_minute * minute < day
    → (run : ℕ) × (next_daily_at (utc now) at_hour at_minute ≡ ok run)
      × IsOnGrid day 0 (at_hour * hour + at_minute * minute) now run
unfolding next_daily_at utc_midnight_of require_utc
next_daily_at-IsOnGrid now at_hour at_minute small =
    let offset = at_hour * hour + at_minute * minute in
    (
      first_after day offset (now - now % day) now,
      refl,
      daily-IsOnGrid offset (now - now % day) now small (omega arith) (omega arith) (omega arith),
    )

next_monday_at-IsOnGrid :
    (now : Instant) (at_hour at_minute : ℕ)
    → 4 * day ≤ now
    → at_hour * hour + at_minute * minute < 7 * day
    → (run : ℕ) × (next_monday_at (utc now) at_hour at_minute ≡ ok run)
      × IsOnGrid (7 * day) (3 * day) (at_hour * hour + at_minute * minute) now run
unfolding next_monday_at
next_monday_at-IsOnGrid now at_hour at_minute late small =
    let offset = at_hour * hour + at_minute * minute in
    let (monday, midnight, found, _, whole, first, _, le, le', _, lt) =
      utc_monday_of_window now late in
    (
      first_after (7 * day) offset monday now,
      rw (found, ◌>>=◌) refl,
      weekly-IsOnGrid offset monday now small (omega (arith, whole, first)) (omega (arith, le, le'))
          lt,
    )

-- Every schedule's next run is ahead, at most one period away, and at its place in the period: the
-- cycle on the minute, the detector on the five minutes, the daily ticks at their offset in the day
-- (below a day), and the weekly tick at its offset (below a week) from the Monday.
pub next_runs-IsOnGrid :
    (now : Instant) (h m : ℕ)
    → 4 * day ≤ now
    → h * hour + m * minute < day
    → IsOnGrid minute 0 0 now (next_minute_boundary now)
      × IsOnGrid (5 * minute) 0 0 now (next_n_minute_boundary now 5)
      × ((run : ℕ) × (next_daily_at (utc now) h m ≡ ok run)
          × IsOnGrid day 0 (h * hour + m * minute) now run)
      × ((run : ℕ) × (next_monday_at (utc now) h m ≡ ok run)
          × IsOnGrid (7 * day) (3 * day) (h * hour + m * minute) now run)
next_runs-IsOnGrid now h m late small = (
  next_minute-IsOnGrid now,
  five_minutes-IsOnGrid now,
  next_daily_at-IsOnGrid now h m small,
  next_monday_at-IsOnGrid now h m late (omega (arith, small)),
)
