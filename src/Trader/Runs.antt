-- ===== src/Trader/Runs.antt =====
-- workers/src/marketmind_workers/trader/heartbeat.py, and the parts of jobs.py and runner.py that
-- discover, replace and give up runs: the life of a row of trader_bot_runs. The loop name, the worker
-- and the text of the notes are left out.
pub mod Single
mod Tests
use Prim.Native.String.{String}
use marketmind_open.Common.{
  ℕ, suc, ◌+◌, ◌*◌, Bool, true, false, ◌&&◌, not, Option, none, some, List, [], ◌∷◌, ◌++◌, map,
  length, ltb, ◌==◌, if◌then◌else◌, select,
}
use marketmind_open.Clock.{Instant, second}
use marketmind_open.Trader.Tables.{latest, order_by}

pub data RunStatus : Type 0 where
  running stopped crashed : RunStatus

-- What the notes say: nothing, the phase last seen, or why the run was given up.
pub data Notes : Type 0 where
  empty stale orphaned : Notes
  phase : String → Notes

pub record Run : Type 0 where
  pub id : ℕ
  pub started_at : Instant
  pub last_heartbeat_at : Instant
  pub status : RunStatus
  pub notes : Notes

-- trader_bot_runs, and the next id.
pub record Runs : Type 0 where
  pub rows : List Run
  pub next_id : ℕ

unfoldable pub is_running : Run → Bool
is_running r = elim r.status [ running ↦ true | stopped ↦ false | crashed ↦ false ]

-- UPDATE ... WHERE id = %s
abbrev pub update : ℕ → (Run → Run) → Runs → Runs
update id change t = record t { rows = map (λ r. if r.id == id then change r else r) t.rows }

-- The start defaults to NOW().
unfoldable pub create_bot_run : Option Instant → Instant → Runs → Runs
create_bot_run started_at now t =
    let start : Instant = elim started_at [ none ↦ now | some at ↦ at ] in
    record {
      rows =
          t.rows
          ++ record {
            id = t.next_id;
            started_at = start;
            last_heartbeat_at = start;
            status = running;
            notes = empty;
          }
            ∷ [];
      next_id = suc t.next_id;
    }

unfoldable pub mark_stopped : Instant → ℕ → Runs → Runs
mark_stopped now id t = update id (λ r. record r { status = stopped; last_heartbeat_at = now }) t

unfoldable pub mark_crashed : Notes → ℕ → Runs → Runs
mark_crashed reason id t = update id (λ r. record r { status = crashed; notes = reason }) t

-- Without a phase the notes stay.
unfoldable pub touch_heartbeat : Instant → Option String → ℕ → Runs → Runs
touch_heartbeat now none id t = update id (λ r. record r { last_heartbeat_at = now }) t
touch_heartbeat now (some name) id t =
    update id (λ r. record r { last_heartbeat_at = now; notes = phase name }) t

abbrev pub heartbeat_of : Run → Instant
heartbeat_of r = r.last_heartbeat_at

abbrev pub start_of : Run → Instant
start_of r = r.started_at

abbrev pub is_stale : Instant → ℕ → Run → Bool
is_stale now threshold_seconds r =
    is_running r && ltb (r.last_heartbeat_at + threshold_seconds * second) now

-- ORDER BY last_heartbeat_at ASC
unfoldable pub find_stale_runs : Instant → ℕ → Runs → List Run
find_stale_runs now threshold_seconds t =
    order_by heartbeat_of heartbeat_of (select (is_stale now threshold_seconds) t.rows)

-- The running row that started last.
unfoldable pub active_run_id : Runs → Option ℕ
active_run_id t = elim (latest start_of (select is_running t.rows)) [
  | none ↦ none
  | some r ↦ some r.id
]

unfoldable pub mark_orphaned_runs_crashed : ℕ → Runs → Runs
mark_orphaned_runs_crashed current_run_id t = record t {
  rows =
      map
        (λ r.
          if is_running r && not (r.id == current_run_id)
          then record r { status = crashed; notes = orphaned }
          else r)
        t.rows;
}

abbrev pub stale_heartbeat_threshold : ℕ
stale_heartbeat_threshold = 300

unfoldable pub crash_all : List Run → Runs → Runs
crash_all [] t = t
crash_all (r ∷ rest) t = crash_all rest (mark_crashed stale r.id t)

-- The transaction of `tick_stale_heartbeat_detector`; each stale run then gets an alert.
unfoldable pub detect_stale : Instant → Runs → Runs
detect_stale now t = crash_all (find_stale_runs now stale_heartbeat_threshold t) t

-- Steps 5 and 6 of `main`: a new row, and no other one stays running.
unfoldable pub boot : Instant → Runs → Runs
boot now t = mark_orphaned_runs_crashed t.next_id (create_bot_run none now t)

pub data Event : Type 0 where
  boots : Instant → Event
  stops : Instant → ℕ → Event
  beats : Instant → Option String → ℕ → Event
  detects : Instant → Event

unfoldable pub handle : Event → Runs → Runs
handle (boots now) t = boot now t
handle (stops now id) t = mark_stopped now id t
handle (beats now name id) t = touch_heartbeat now name id t
handle (detects now) t = detect_stale now t

unfoldable pub replay : List Event → Runs → Runs
replay [] t = t
replay (e ∷ events) t = replay events (handle e t)

abbrev pub no_runs : Runs
no_runs = record { rows = []; next_id = 0 }
