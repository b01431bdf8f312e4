-- ===== src/Heartbeat/Survival.antt =====
-- Which workers the periodic tasks of src/usbipice/control/Heartbeat.py leave in the tables: runs
-- of the heartbeats and of the timeouts in any order.
pub mod Rows
pub mod Kept
use usbip_ice.Base.{
  ℕ, ◌+◌, Bool, true, not, ◌&&◌, ◌||◌, Option, none, List, [], ◌∷◌, ltb, if◌then◌else◌,
}
use usbip_ice.Schema.{Worker, Db}
use usbip_ice.Access.{Url}
use usbip_ice.Access.ControlDatabase
use usbip_ice.Heartbeat.{timeout_duration_seconds, heartbeat_workers}
use usbip_ice.Heartbeat.Runs.{url_of}

-- A run of the task of the heartbeats, with the workers that answer, or of that of the timeouts
pub data Task : Type 0 where
  beats : (Url → Bool) → Task
  timeouts : Task

-- What a run does to the tables: whether the database is reached, and the time
unfoldable pub run_task : Bool → ℕ → Task → Db → Db
run_task up now (beats answers) db = heartbeat_workers answers up now db
run_task up now timeouts db =
    (ControlDatabase.get_worker_timeouts up timeout_duration_seconds now db).1

abbrev pub run_tasks : List (Bool × ℕ × Task) → Db → Db
run_tasks [] db = db
run_tasks ((up, now, task) ∷ l) db = run_tasks l (run_task up now task db)

-- At each run of the timeouts, the last heartbeat that was answered is at most a minute old.
abbrev pub in_time : ℕ → Url → List (Bool × ℕ × Task) → Bool
in_time last url [] = true
in_time last url ((up, now, beats answers) ∷ l) =
    in_time (if up && answers url then now else last) url l
in_time last url ((up, now, timeouts) ∷ l) =
    (not up || not (ltb (last + timeout_duration_seconds) now)) && in_time last url l

abbrev pub last_beat : ℕ → Url → List (Bool × ℕ × Task) → ℕ
last_beat last url [] = last
last_beat last url ((up, now, beats answers) ∷ l) =
    last_beat (if up && answers url then now else last) url l
last_beat last url ((up, now, timeouts) ∷ l) = last_beat last url l

abbrev pub kept : {A : Type 0} → Bool → Option A → Option A
kept alive o = if alive then o else none

-- The worker after the runs, had it stayed
abbrev pub last_of : Worker → List (Bool × ℕ × Task) → Worker
last_of w l = record w { last_heartbeat = last_beat w.last_heartbeat (url_of w) l }
