-- ===== src/Trader/Jobs/Streaks.antt =====
-- The counters against the history of a phase: the failures in a row, each within a day of the next.
use Prim.Native.String.{String}
use text.Mathlib.Text.{◌==◌ as str_eq}
use text.Mathlib.TextEquality.{eq_iff}
use marketmind_open.Common.{
  ℕ, suc, ◌+◌, ◌≤◌, ◌≡◌, refl, ◌∙◌, ap, Bool, true, false, Option, none, some, List, [], ◌∷◌, All,
  ltb, leb, ◌==◌, if◌then◌else◌, arith,
}
use marketmind_open.Clock.{Instant}
use marketmind_open.Trader.Schema.{Severity}
use marketmind_open.Trader.Jobs.{
  Counter, Redis, PhaseAlert, live_count, get_count, phase_failure_threshold, phase_failure_ttl,
  record_phase_outcome,
}

-- What a phase did, and when.
pub record Outcome : Type 0 where
  pub phase : String
  pub success : Bool
  pub at : Instant

-- The specification: the failures of a phase in a row up to an instant, the last outcome first. The
-- streak expires 24 hours after its last failure.
abbrev pub streak : String → List Outcome → Instant → ℕ
streak phase [] now = 0
streak phase (o ∷ earlier) now =
    let before = streak phase earlier now in
    let until = suc (streak phase earlier o.at) in
    if str_eq o.phase phase
    then (if o.success then 0 else if ltb now (o.at + phase_failure_ttl) then until else 0)
    else before

-- The alert that the history asks for.
abbrev pub due : Outcome → List Outcome → Option PhaseAlert
due o earlier =
    let failures = streak o.phase earlier o.at in
    if o.success
    then (if leb phase_failure_threshold failures
        then some (record { severity = Severity.info; phase = o.phase; failures = failures })
        else none)
    else (if suc failures == phase_failure_threshold
        then some
            (record { severity = Severity.critical; phase = o.phase; failures = suc failures })
        else none)

abbrev pub push : Option PhaseAlert → List PhaseAlert → List PhaseAlert
push none alerts = alerts
push (some a) alerts = a ∷ alerts

abbrev pub all_due : List Outcome → List PhaseAlert
all_due [] = []
all_due (o ∷ earlier) = push (due o earlier) (all_due earlier)

-- The program: the outcomes are recorded in turn, the last one first in the list.
abbrev pub recorded : List Outcome → Redis × List PhaseAlert
recorded [] = ((λ phase. none), [])
recorded (o ∷ earlier) =
    let (redis, alerts) = recorded earlier in
    let (redis', alert) = record_phase_outcome o.phase o.success o.at redis in
    (redis', push alert alerts)

-- Later outcomes come later.
abbrev pub InOrder : Instant → List Outcome → Type 0
InOrder now [] = Unit
InOrder now (o ∷ earlier) = (o.at ≤ now) × InOrder o.at earlier

InOrder-later :
    (t now : Instant) (history : List Outcome) → t ≤ now → InOrder t history → InOrder now history
InOrder-later t now [] le h = tt
InOrder-later t now (o ∷ earlier) le h = (omega (arith, le, h.0), h.1)

expired_stays :
    (c : Option Counter) (t now : Instant) → t ≤ now → live_count c t ≡ 0 → live_count c now ≡ 0
expired_stays none t now le h = refl
expired_stays (some c) t now le h = ground arith

-- A failure restarts the day of its counter; a success takes the counter away.
count_success :
    (phase other : String) (at now : Instant) (redis : Redis)
    → at ≤ now
    → get_count other now (record_phase_outcome phase true at redis).0
      ≡ (if str_eq phase other then 0 else get_count other now redis)
unfolding record_phase_outcome
count_success phase other at now redis le =
    ground (arith, eq_iff phase other, eq_iff other phase, expired_stays (redis phase) at now le)

count_failure :
    (phase other : String) (at now : Instant) (redis : Redis)
    → get_count other now (record_phase_outcome phase false at redis).0 ≡ (
        if str_eq phase other
        then (if ltb now (at + phase_failure_ttl) then suc (get_count phase at redis) else 0)
        else get_count other now redis)
unfolding record_phase_outcome
count_failure phase other at now redis = ground (arith, eq_iff phase other, eq_iff other phase)

outcome_count :
    (phase : String) (success : Bool) (at : Instant) (earlier : List Outcome) (redis : Redis)
    (other : String) (now : Instant)
    → at ≤ now
    → get_count phase at redis ≡ streak phase earlier at
    → get_count other now redis ≡ streak other earlier now
    → get_count other now (record_phase_outcome phase success at redis).0
      ≡ streak other (record { phase = phase; success = success; at = at } ∷ earlier) now
outcome_count phase true at earlier redis other now le here there =
    count_success phase other at now redis le ∙ rw there refl
outcome_count phase false at earlier redis other now le here there =
    count_failure phase other at now redis ∙ ground (arith, here, there, eq_iff phase other)

-- After outcomes in order of time, each counter is the streak of its phase.
recorded_count :
    (history : List Outcome) (phase : String) (now : Instant)
    → InOrder now history
    → get_count phase now (recorded history).0 ≡ streak phase history now
recorded_count [] phase now h = refl
recorded_count (o ∷ earlier) phase now h =
    outcome_count o.phase o.success o.at earlier (recorded earlier).0 phase now h.0
      (recorded_count earlier o.phase o.at h.1)
      (recorded_count earlier phase now (InOrder-later o.at now earlier h.0 h.1))

alert_due :
    (phase : String) (success : Bool) (at : Instant) (earlier : List Outcome) (redis : Redis)
    → get_count phase at redis ≡ streak phase earlier at
    → (record_phase_outcome phase success at redis).1
      ≡ due (record { phase = phase; success = success; at = at }) earlier
unfolding record_phase_outcome
alert_due phase true at earlier redis h = rw h refl
alert_due phase false at earlier redis h = rw h refl

recorded_alerts :
    (history : List Outcome) (now : Instant)
    → InOrder now history
    → (recorded history).1 ≡ all_due history
recorded_alerts [] now h = refl
recorded_alerts (o ∷ earlier) now h =
    let here = recorded_count earlier o.phase o.at h.1 in
    rw (alert_due o.phase o.success o.at earlier (recorded earlier).0 here)
      (ap (push (due o earlier)) (recorded_alerts earlier o.at h.1))

-- Outcomes recorded in order of time leave, at any later instant, each counter at the streak of its
-- phase: the failures since its last success, each less than 24 hours after the one before, and zero
-- once the last one is 24 hours old. They have emitted exactly the alerts that the streaks ask for: a
-- critical one at a failure that makes the streak three and none at the others, and a recovery at a
-- success after a streak of three or more.
pub recorded_refines :
    (history : List Outcome) (now : Instant)
    → InOrder now history
    → ((phase : String) → get_count phase now (recorded history).0 ≡ streak phase history now)
      × ((recorded history).1 ≡ all_due history)
recorded_refines history now h =
    (λ phase. recorded_count history phase now h, recorded_alerts history now h)

-- Failures of one phase, each a day or more after the earlier ones.
abbrev pub DailyFailures : String → List Outcome → Type 0
DailyFailures phase [] = Unit
DailyFailures phase (o ∷ earlier) =
    (o.phase ≡ phase)
    × (o.success ≡ false)
    × All (λ b. b.at + phase_failure_ttl ≤ o.at) earlier
    × DailyFailures phase earlier

streak_expired :
    (phase : String) (o : Outcome) (earlier : List Outcome)
    → o.phase ≡ phase
    → DailyFailures phase (o ∷ earlier)
    → streak o.phase earlier o.at ≡ 0
streak_expired phase o [] here daily = refl
streak_expired phase o (b ∷ earlier) here daily =
    let (_, _, gaps, rest) = daily in
    let (same, failed, _, _) = rest in
    let alike : str_eq b.phase o.phase ≡ true = ground (arith, eq_iff b.phase o.phase) in
    let late : b.at + phase_failure_ttl ≤ o.at = gaps.0 in ground (arith, alike, failed, late)

none_due :
    (phase : String) (history : List Outcome) → DailyFailures phase history → all_due history ≡ []
none_due phase [] daily = refl
none_due phase (o ∷ earlier) daily =
    ground
      (arith, streak_expired phase o earlier daily.0 daily, daily.1, none_due phase earlier daily.3)

-- However often in a row a phase fails that runs a day or more after its last failure, no alert is
-- emitted.
pub recorded_daily_silent :
    (phase : String) (history : List Outcome) (now : Instant)
    → InOrder now history
    → DailyFailures phase history
    → (recorded history).1 ≡ []
recorded_daily_silent phase history now h daily =
    recorded_alerts history now h ∙ none_due phase history daily
