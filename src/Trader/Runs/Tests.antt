-- ===== src/Trader/Runs/Tests.antt =====
-- A run that goes stale, and its successor.
use marketmind_open.Common.{◌≡◌, ◌≤◌, ◌*◌, refl, some, List, [], ◌∷◌, length, map, select}
use marketmind_open.Clock.{second}
use marketmind_open.Trader.Runs.{
  RunStatus, crashed, Run, Event, boots, beats, detects, is_running, create_bot_run, mark_crashed,
  touch_heartbeat, find_stale_runs, active_run_id, mark_orphaned_runs_crashed, crash_all,
  detect_stale, boot, handle, replay, no_runs,
}
use marketmind_open.Trader.Runs.Single.{replay_single}

-- A heartbeat after a minute, none for six minutes, and a detection.
abbrev story : List Event
story = boots 0 ∷ beats (60 * second) (some "risk") 0 ∷ detects (420 * second) ∷ []

abbrev status_of : Run → RunStatus
status_of r = r.status

given_up : map status_of (replay story no_runs).rows ≡ crashed ∷ []
unfolding replay handle boot create_bot_run mark_orphaned_runs_crashed touch_heartbeat detect_stale
    find_stale_runs crash_all mark_crashed is_running
given_up = refl

replay_single_example :
    (length (select is_running (replay story no_runs).rows) ≤ 1)
    × (active_run_id (boot (480 * second) (replay story no_runs))
        ≡ some (replay story no_runs).next_id)
replay_single_example = replay_single story (480 * second)
