-- ===== src/Trader/Runs/Single.antt =====
-- How many runs are running.
use marketmind_open.Common.{
  ℕ, suc, ◌≤◌, ◌<◌, ◌≡◌, refl, ap, false, ◌&&◌, not, Option, none, some, List, [], ◌∷◌, ◌++◌, map,
  length, All, ◌==◌, if◌then◌else◌, select, arith,
}
use Prim.Native.String.{String}
use marketmind_open.Clock.{Instant}
use marketmind_open.Trader.Runs.{
  running, crashed, Notes, empty, stale, orphaned, Run, Runs, is_running, create_bot_run,
  mark_stopped, mark_crashed, touch_heartbeat, active_run_id, mark_orphaned_runs_crashed, crash_all,
  detect_stale, boot, Event, boots, stops, beats, detects, handle, replay, no_runs,
}

abbrev running_count : List Run → ℕ
running_count rows = length (select is_running rows)

-- Ids below the next one, and at most one run that is running.
record IsSingle (t : Runs) : Type 0 where
  used : All (λ (r : Run). r.id < t.next_id) t.rows
  single : running_count t.rows ≤ 1

-- A change that keeps the id and starts nothing.
abbrev Calms : (Run → Run) → Type 0
Calms change =
    (r : Run)
    → ((change r).id ≡ r.id) × (is_running (change r) ≡ is_running r && is_running (change r))

running_count-map :
    (change : Run → Run) (rows : List Run)
    → Calms change
    → running_count (map change rows) ≤ running_count rows
running_count-map change [] h = omega arith
running_count-map change (r ∷ rows) h = ground (arith, (h r).1, running_count-map change rows h)

used-map :
    (change : Run → Run) (bound : ℕ) (rows : List Run)
    → Calms change
    → All (λ (r : Run). r.id < bound) rows
    → All (λ (r : Run). r.id < bound) (map change rows)
used-map change bound [] h used = tt
used-map change bound (r ∷ rows) h used =
    (omega (arith, (h r).0, used.0), used-map change bound rows h used.1)

map-IsSingle :
    (change : Run → Run) (t : Runs)
    → Calms change
    → IsSingle t
    → IsSingle (record t { rows = map change t.rows })
map-IsSingle change t h s = record {
  used = used-map change t.next_id t.rows h s.used;
  single = omega (arith, running_count-map change t.rows h, s.single);
}

mark_stopped-IsSingle :
    (now : Instant) (id : ℕ) (t : Runs) → IsSingle t → IsSingle (mark_stopped now id t)
unfolding mark_stopped is_running
mark_stopped-IsSingle now id t s = map-IsSingle _ t (λ r. (ground arith, ground arith)) s

mark_crashed-IsSingle :
    (reason : Notes) (id : ℕ) (t : Runs) → IsSingle t → IsSingle (mark_crashed reason id t)
unfolding mark_crashed is_running
mark_crashed-IsSingle reason id t s = map-IsSingle _ t (λ r. (ground arith, ground arith)) s

touch_heartbeat-IsSingle :
    (now : Instant) (name : Option String) (id : ℕ) (t : Runs)
    → IsSingle t
    → IsSingle (touch_heartbeat now name id t)
unfolding touch_heartbeat is_running
touch_heartbeat-IsSingle now none id t s = map-IsSingle _ t (λ r. (ground arith, ground arith)) s
touch_heartbeat-IsSingle now (some name) id t s =
    map-IsSingle _ t (λ r. (ground arith, ground arith)) s

abbrev orphan : ℕ → Run → Run
orphan current r =
    if is_running r && not (r.id == current)
    then record r { status = crashed; notes = orphaned }
    else r

abbrev booted : Instant → ℕ → Run
booted now id = record {
  id = id;
  started_at = now;
  last_heartbeat_at = now;
  status = running;
  notes = empty;
}

-- Of older runs and a new one, the new one is left running.
orphan_others :
    (now : Instant) (id : ℕ) (rows : List Run)
    → All (λ (r : Run). r.id < id) rows
    → select is_running (map (orphan id) (rows ++ booted now id ∷ [])) ≡ booted now id ∷ []
unfolding is_running
orphan_others now id [] used = ground arith
orphan_others now id (r ∷ rows) used =
    let rest = orphan_others now id rows used.1 in
    let off : is_running (orphan id r) ≡ false = ground (arith, used.0) in rw (off, rest) refl

orphan_used :
    (now : Instant) (id : ℕ) (rows : List Run)
    → All (λ (r : Run). r.id < id) rows
    → All (λ (r : Run). r.id < suc id) (map (orphan id) (rows ++ booted now id ∷ []))
unfolding is_running
orphan_used now id [] used = (ground arith, tt)
orphan_used now id (r ∷ rows) used = (ground (arith, used.0), orphan_used now id rows used.1)

boot_running :
    (now : Instant) (t : Runs)
    → IsSingle t
    → select is_running (boot now t).rows ≡ booted now t.next_id ∷ []
unfolding boot mark_orphaned_runs_crashed create_bot_run
boot_running now t s = orphan_others now t.next_id t.rows s.used

boot-IsSingle : (now : Instant) (t : Runs) → IsSingle t → IsSingle (boot now t)
unfolding boot mark_orphaned_runs_crashed create_bot_run
boot-IsSingle now t s = record {
  used = orphan_used now t.next_id t.rows s.used;
  single = let one = ap length (orphan_others now t.next_id t.rows s.used) in omega (arith, one);
}

crash_all-IsSingle : (rs : List Run) (t : Runs) → IsSingle t → IsSingle (crash_all rs t)
unfolding crash_all
crash_all-IsSingle [] t s = s
crash_all-IsSingle (r ∷ rs) t s =
    crash_all-IsSingle rs (mark_crashed stale r.id t) (mark_crashed-IsSingle stale r.id t s)

handle-IsSingle : (e : Event) (t : Runs) → IsSingle t → IsSingle (handle e t)
unfolding handle detect_stale
handle-IsSingle (boots now) t s = boot-IsSingle now t s
handle-IsSingle (stops now id) t s = mark_stopped-IsSingle now id t s
handle-IsSingle (beats now name id) t s = touch_heartbeat-IsSingle now name id t s
handle-IsSingle (detects now) t s = crash_all-IsSingle _ t s

replay-IsSingle : (events : List Event) (t : Runs) → IsSingle t → IsSingle (replay events t)
unfolding replay
replay-IsSingle [] t s = s
replay-IsSingle (e ∷ events) t s = replay-IsSingle events (handle e t) (handle-IsSingle e t s)

boot_active : (now : Instant) (t : Runs) → IsSingle t → active_run_id (boot now t) ≡ some t.next_id
unfolding active_run_id
boot_active now t s = rw (active_run_id, boot_running now t s) refl

-- After any sequence of boots, stops, heartbeats and detections at most one run is running, and a
-- further boot makes its own run the active one.
pub replay_single :
    (events : List Event) (now : Instant)
    → (length (select is_running (replay events no_runs).rows) ≤ 1)
      × (active_run_id (boot now (replay events no_runs)) ≡ some (replay events no_runs).next_id)
replay_single events now =
    let s = replay-IsSingle events no_runs (record { used = tt; single = omega arith }) in
    (s.single, boot_active now (replay events no_runs) s)
