-- ===== src/Trader/Jobs/Tests.antt =====
-- Ticks and counters at concrete instants.
use Prim.Native.String.{String}
use marketmind_open.Common.{ℕ, ◌+◌, ◌*◌, ◌≡◌, refl, true, false, none, some, List, [], ◌∷◌, arith}
use marketmind_open.Common.Result.{Result, ok, err, value_error}
use marketmind_open.Clock.{Instant, utc, second, day}
use marketmind_open.Trader.Schema.{Severity}
use marketmind_open.Trader.Scenario.{eleven_o_clock}
use marketmind_open.Trader.Jobs.{
  minute, hour, PhaseAlert, World, done, raised, get_count, next_minute_boundary,
  next_n_minute_boundary, next_daily_at, next_monday_at, boundary_job_id, record_phase_outcome,
  run_phase, run_phases, tick_main_cycle,
}
use marketmind_open.Trader.Jobs.Boundaries.{IsOnGrid, next_runs-IsOnGrid}
use marketmind_open.Trader.Jobs.Streaks.{
  Outcome, InOrder, DailyFailures, streak, all_due, recorded, recorded_refines,
  recorded_daily_silent,
}
use marketmind_open.Trader.Jobs.Chain.{tick_main_cycle_schedules}

next_runs-IsOnGrid_example :
    IsOnGrid minute 0 0 eleven_o_clock (next_minute_boundary eleven_o_clock)
    × IsOnGrid (5 * minute) 0 0 eleven_o_clock (next_n_minute_boundary eleven_o_clock 5)
    × ((run : ℕ) × (next_daily_at (utc eleven_o_clock) 1 0 ≡ ok run)
        × IsOnGrid day 0 (1 * hour + 0 * minute) eleven_o_clock run)
    × ((run : ℕ) × (next_monday_at (utc eleven_o_clock) 1 0 ≡ ok run)
        × IsOnGrid (7 * day) (3 * day) (1 * hour + 0 * minute) eleven_o_clock run)
next_runs-IsOnGrid_example = next_runs-IsOnGrid eleven_o_clock 1 0 (omega arith) (omega arith)

abbrev failure_at : Instant → Outcome
failure_at at = record { phase = "risk"; success = false; at = at }

-- Three failures a minute apart, and then a success.
abbrev outage : List Outcome
outage =
    record { phase = "risk"; success = true; at = 180 * second }
    ∷ failure_at (120 * second)
    ∷ failure_at (60 * second)
    ∷ failure_at 0
    ∷ []

outage_alerts :
    (recorded outage).1
    ≡ record { severity = Severity.info; phase = "risk"; failures = 3 }
      ∷ record { severity = Severity.critical; phase = "risk"; failures = 3 }
      ∷ []
unfolding record_phase_outcome
outage_alerts = refl

outage-InOrder : InOrder (200 * second) outage
outage-InOrder = (omega arith, (omega arith, (omega arith, (omega arith, tt))))

recorded_refines_example :
    ((phase : String)
      → get_count phase (200 * second) (recorded outage).0 ≡ streak phase outage (200 * second))
    × ((recorded outage).1 ≡ all_due outage)
recorded_refines_example = recorded_refines outage (200 * second) outage-InOrder

abbrev drift_failure : ℕ → Outcome
drift_failure n = record { phase = "drift"; success = false; at = n * day + hour }

abbrev drifts : List Outcome
drifts = drift_failure 3 ∷ drift_failure 2 ∷ drift_failure 1 ∷ []

drifts-InOrder : InOrder (4 * day) drifts
drifts-InOrder = (omega arith, (omega arith, (omega arith, tt)))

drifts_daily : DailyFailures "drift" drifts
drifts_daily = (
  refl,
  refl,
  (omega arith, (omega arith, tt)),
  (refl, refl, (omega arith, tt), (refl, refl, tt, tt)),
)

recorded_daily_silent_example : (recorded drifts).1 ≡ []
recorded_daily_silent_example =
    recorded_daily_silent "drift" drifts (4 * day) drifts-InOrder drifts_daily

-- A phase that raises, over a store that keeps the alerts.
abbrev failing : List PhaseAlert → Result (List PhaseAlert)
failing alerts = err value_error

abbrev keep : PhaseAlert → List PhaseAlert → Result (List PhaseAlert)
keep alert alerts = ok (alert ∷ alerts)

abbrev idle : World (List PhaseAlert)
idle = record { redis = λ phase. none; store = []; scheduled = [] }

tick_main_cycle_schedules_example :
    (w' : World (List PhaseAlert)) × (tick_main_cycle keep
        (some 7)
        (("risk", failing, 0) ∷ [])
        0
        idle
      ≡ done w')
    × (w'.scheduled
        ≡ (
          boundary_job_id "trader_tick_main_cycle" (next_minute_boundary 0),
          next_minute_boundary 0,
        )
          ∷ [])
tick_main_cycle_schedules_example =
    tick_main_cycle_schedules keep (λ alert alerts. (alert ∷ alerts, refl)) 7
      (("risk", failing, 0) ∷ []) 0 idle

-- When the alert of the third failure cannot be stored, the tick raises and schedules nothing.
abbrev refuse : PhaseAlert → List PhaseAlert → Result (List PhaseAlert)
refuse alert alerts = err value_error

chain_breaks :
    (w' : World (List PhaseAlert)) × (tick_main_cycle refuse
        (some 7)
        (("risk", failing, 0)
          ∷ ("risk", failing, 60 * second)
          ∷ ("risk", failing, 120 * second)
          ∷ [])
        (180 * second)
        idle
      ≡ raised w')
    × (w'.scheduled ≡ [])
unfolding tick_main_cycle run_phases run_phase record_phase_outcome
chain_breaks = (_, refl, refl)
