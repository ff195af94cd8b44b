-- ===== src/Clock/Windows.antt =====
-- The windows of the loss limits start at the UTC midnight and at the UTC Monday before an instant.
use marketmind_open.Common.{ℕ, ◌+◌, ◌-◌, ◌*◌, ◌%◌, ◌≤◌, ◌<◌, ◌≡◌, refl, arith}
use marketmind_open.Common.Result.{ok}
use marketmind_open.Clock.{Instant, utc, day, weekday, require_utc, utc_midnight_of, utc_monday_of}

-- From the Monday 1970-01-05 on, the weekly window starts at a midnight, on a Monday, less than
-- seven days before the instant, and not after the daily window.
pub utc_monday_of_window :
    (t : Instant)
    → 4 * day ≤ t
    → (m : Instant) × (d : Instant) × (utc_monday_of (utc t) ≡ ok m)
      × (utc_midnight_of (utc t) ≡ ok d)
      × (m % day ≡ 0)
      × (weekday m ≡ 0)
      × (d % day ≡ 0)
      × (m ≤ d)
      × (d ≤ t)
      × (t < d + day)
      × (t < m + 7 * day)
unfolding utc_monday_of utc_midnight_of require_utc
utc_monday_of_window t h =
    let d : ℕ = t - t % day in
    let m : ℕ = d - weekday d * day in
    (
      m,
      d,
      refl,
      refl,
      omega arith,
      omega arith,
      omega arith,
      omega arith,
      omega arith,
      omega arith,
      omega arith,
    )
