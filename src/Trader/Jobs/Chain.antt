-- ===== src/Trader/Jobs/Chain.antt =====
-- Whether a tick schedules the next one.
use Prim.Native.String.{String}
use marketmind_open.Common.{
  ℕ, ◌≡◌, refl, ◌∙◌, ap, true, false, Option, none, some, List, [], ◌∷◌, inl, inr,
}
use marketmind_open.Common.Result.{Result, Result-cases, ok}
use marketmind_open.Clock.{Instant}
use marketmind_open.Trader.Jobs.{
  JobId, Redis, PhaseAlert, World, Tick, done, next_minute_boundary, boundary_job_id,
  record_phase_outcome, emit, run_phase, run_phases, enqueue_at, tick_main_cycle,
}

module _ {S : Type 0} (emit_alert : PhaseAlert → S → Result S)
    (emits : (alert : PhaseAlert) (s : S) → (s' : S) × (emit_alert alert s ≡ ok s')) where
  -- A tick that ends without touching the schedule.
  abbrev Keeps : World S → Tick S → Type 0
  Keeps w tick = (w' : World S) × (tick ≡ done w') × (w'.scheduled ≡ w.scheduled)

  emit-Keeps :
      (redis : Redis) (alert : Option PhaseAlert) (w : World S)
      → Keeps w (emit emit_alert redis alert w)
  emit-Keeps redis none w = (record w { redis = redis }, refl, refl)
  emit-Keeps redis (some alert) w =
      let (s', emitted) = emits alert w.store in
      (record w { redis = redis; store = s' }, rw (emit, emitted) refl, refl)

  run_phase-Keeps :
      (phase : String) (fn : S → Result S) (now : Instant) (w : World S)
      → Keeps w (run_phase emit_alert phase fn now w)
  unfolding run_phase
  run_phase-Keeps phase fn now w = elim (Result-cases (fn w.store)) [
    | inr (e, failed) ↦
        let (w', ended, same) =
          emit-Keeps (record_phase_outcome phase false now w.redis).0
            (record_phase_outcome phase false now w.redis).1 w in
        (w', rw (run_phase, failed) ended, same)
    | inl (s, returned) ↦
        let (w', ended, same) =
          emit-Keeps (record_phase_outcome phase true now w.redis).0
            (record_phase_outcome phase true now w.redis).1 (record w { store = s }) in
        (w', rw (run_phase, returned) ended, same)
  ]

  run_phases-Keeps :
      (phases : List (String × (S → Result S) × Instant)) (w : World S)
      → Keeps w (run_phases emit_alert phases w)
  unfolding run_phases
  run_phases-Keeps [] w = (w, refl, refl)
  run_phases-Keeps ((phase, fn, now) ∷ rest) w =
      let (w₁, ended, same) = run_phase-Keeps phase fn now w in
      let (w₂, finished, still) = run_phases-Keeps rest w₁ in
      (w₂, rw (run_phases, ended) finished, still ∙ same)

  -- As long as alerts can be stored, a tick with an active run ends and schedules the next one at
  -- the next minute, under the id of that minute, whichever phases raise.
  pub tick_main_cycle_schedules :
      (run_id : ℕ) (phases : List (String × (S → Result S) × Instant)) (now : Instant) (w : World S)
      → (w' : World S) × (tick_main_cycle emit_alert (some run_id) phases now w ≡ done w')
        × (w'.scheduled
            ≡ (
              boundary_job_id "trader_tick_main_cycle" (next_minute_boundary now),
              next_minute_boundary now,
            )
              ∷ w.scheduled)
  unfolding tick_main_cycle
  tick_main_cycle_schedules run_id phases now w =
      let (w', ended, same) = run_phases-Keeps phases w in
      let next_run = next_minute_boundary now in
      let id = boundary_job_id "trader_tick_main_cycle" next_run in
      (
        enqueue_at emit_alert next_run id w',
        rw (tick_main_cycle, ended) refl,
        ap (λ (jobs : List (JobId × Instant)). (id, next_run) ∷ jobs) same,
      )
