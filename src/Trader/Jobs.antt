-- ===== src/Trader/Jobs.antt =====
-- workers/src/marketmind_workers/trader/jobs.py: the boundaries of the schedules, the counters of
-- consecutive phase failures, and the ticks that run phases and schedule themselves again.
pub mod Boundaries
pub mod Streaks
pub mod Chain
mod Tests
use Prim.Native.String.{String}
use text.Mathlib.Text.{◌==◌ as str_eq}
use marketmind_open.Common.{
  ℕ, suc, ◌+◌, ◌-◌, ◌*◌, ◌/◌, ◌%◌, Bool, true, false, Option, none, some, List, [], ◌∷◌, ◌++◌, ltb,
  leb, ◌==◌, if◌then◌else◌,
}
use marketmind_open.Common.Result.{Result, ok, err, ◌>>=◌}
use marketmind_open.Clock.{Instant, DateTime, second, day, utc_midnight_of, utc_monday_of}
use marketmind_open.Trader.Schema.{Severity}

abbrev pub minute : ℕ
minute = 60 * second

abbrev pub hour : ℕ
hour = 60 * minute

unfoldable pub next_minute_boundary : Instant → Instant
next_minute_boundary now = now - now % minute + minute

-- The minutes of the hour are floored to a multiple of n, which is not zero.
unfoldable pub next_n_minute_boundary : Instant → ℕ → Instant
next_n_minute_boundary now n =
    let floor_minute = now % hour / minute / n * n in
    now - now % hour + floor_minute * minute + n * minute

unfoldable pub next_daily_at : DateTime → ℕ → ℕ → Result Instant
next_daily_at now at_hour at_minute = do
  midnight ← utc_midnight_of now
  let candidate = midnight + (at_hour * hour + at_minute * minute)
  ok (if leb candidate now.instant then candidate + day else candidate)

unfoldable pub next_monday_at : DateTime → ℕ → ℕ → Result Instant
next_monday_at now at_hour at_minute = do
  monday ← utc_monday_of now
  let candidate = monday + (at_hour * hour + at_minute * minute)
  ok (if leb candidate now.instant then candidate + 7 * day else candidate)

-- The prefix and the whole seconds of the boundary; the text joins them by an underscore.
abbrev pub JobId : Type 0
JobId = String × ℕ

abbrev pub boundary_job_id : String → Instant → JobId
boundary_job_id prefix at = (prefix, at / second)

-- A Redis counter and the instant at which it expires.
pub record Counter : Type 0 where
  pub count : ℕ
  pub expires : Instant

-- The counters by phase.
abbrev pub Redis : Type 0
Redis = String → Option Counter

abbrev pub phase_failure_threshold : ℕ
phase_failure_threshold = 3

abbrev pub phase_failure_ttl : ℕ
phase_failure_ttl = 86400 * second

abbrev pub set_key : String → Option Counter → Redis → Redis
set_key phase value redis p = if str_eq p phase then value else redis p

-- GET: a counter that has expired is not there. An absent counter counts as 0.
abbrev pub live_count : Option Counter → Instant → ℕ
live_count none now = 0
live_count (some c) now = if ltb now c.expires then c.count else 0

abbrev pub get_count : String → Instant → Redis → ℕ
get_count phase now redis = live_count (redis phase) now

-- What an alert of a phase says: its severity, its phase and the failures it counts.
pub record PhaseAlert : Type 0 where
  pub severity : Severity
  pub phase : String
  pub failures : ℕ

-- `_record_phase_outcome`: the counters, and the alert to emit.
unfoldable pub record_phase_outcome : String → Bool → Instant → Redis → Redis × Option PhaseAlert
record_phase_outcome phase true now redis =
    let prev_count = get_count phase now redis in
    (
      (if ltb 0 prev_count then set_key phase none redis else redis),
      (if leb phase_failure_threshold prev_count
          then some (record { severity = Severity.info; phase = phase; failures = prev_count })
          else none),
    )
record_phase_outcome phase false now redis =
    let new_count = suc (get_count phase now redis) in
    (
      set_key phase (some (record { count = new_count; expires = now + phase_failure_ttl })) redis,
      (if new_count == phase_failure_threshold
          then some (record { severity = Severity.critical; phase = phase; failures = new_count })
          else none),
    )

-- A tick in flight: the counters, what the phases work on, and what is scheduled.
pub record World (S : Type 0) : Type 0 where
  pub redis : Redis
  pub store : S
  pub scheduled : List (JobId × Instant)

-- A tick that ends, or one that an exception leaves.
pub data Tick (S : Type 0) : Type 0 where
  done : World S → Tick S
  raised : World S → Tick S

module _ {S : Type 0} (emit_alert : PhaseAlert → S → Result S) where
  abbrev pub emit : Redis → Option PhaseAlert → World S → Tick S
  emit redis none w = done (record w { redis = redis })
  emit redis (some alert) w = elim (emit_alert alert w.store) [
    | err e ↦ raised (record w { redis = redis })
    | ok store ↦ done (record w { redis = redis; store = store })
  ]

  -- `_run_phase`: an exception of the phase is swallowed, and what it wrote is rolled back.
  unfoldable pub run_phase : String → (S → Result S) → Instant → World S → Tick S
  run_phase phase fn now w = elim (fn w.store) [
    | err e ↦
        let (redis, alert) = record_phase_outcome phase false now w.redis in emit redis alert w
    | ok store ↦
        let (redis, alert) = record_phase_outcome phase true now w.redis in
        emit redis alert (record w { store = store })
  ]

  -- The phases of a tick, in order, each with the instant at which its outcome is recorded.
  unfoldable pub run_phases : List (String × (S → Result S) × Instant) → World S → Tick S
  run_phases [] w = done w
  run_phases ((phase, fn, now) ∷ rest) w = elim (run_phase phase fn now w) [
    | raised w' ↦ raised w'
    | done w' ↦ run_phases rest w'
  ]

  -- The calls of `enqueue_at`, the last one first.
  abbrev pub enqueue_at : Instant → JobId → World S → World S
  enqueue_at at id w = record w { scheduled = (id, at) ∷ w.scheduled }

  -- `tick_main_cycle`: nothing happens without an active run.
  unfoldable pub tick_main_cycle :
      Option ℕ → List (String × (S → Result S) × Instant) → Instant → World S → Tick S
  tick_main_cycle none phases now w = done w
  tick_main_cycle (some run_id) phases now w = elim (run_phases phases w) [
    | raised w' ↦ raised w'
    | done w' ↦
        let next_run = next_minute_boundary now in
        done (enqueue_at next_run (boundary_job_id "trader_tick_main_cycle" next_run) w')
  ]
