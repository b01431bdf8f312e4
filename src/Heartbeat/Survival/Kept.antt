-- ===== src/Heartbeat/Survival/Kept.antt =====
-- What is left of a worker and its devices after runs of the periodic tasks of
-- src/usbipice/control/Heartbeat.py.
use usbip_ice.Base.{
  ℕ, Name, ◌≡◌, refl, Bool, true, false, Option, some, List, [], ◌∷◌, Bool-cases, inl, inr,
}
use usbip_ice.Schema.{Worker, Device, Reservation, Db, find_worker, find_device, find_reservation}
use usbip_ice.Schema.Keys.{IsValid}
use usbip_ice.Procedures.{is_silent}
use usbip_ice.Heartbeat.{timeout_duration_seconds}
use usbip_ice.Heartbeat.Runs.{url_of}
use usbip_ice.Heartbeat.Survival.{
  Task, beats, timeouts, run_task, run_tasks, in_time, kept, last_of,
}
use usbip_ice.Heartbeat.Survival.Rows.{
  Rows, beats-Rows, timeouts-Rows, timeouts-lost, run_task-down, run_tasks-lost,
}

module _ (n s : Name) (d : Device) (r : Option Reservation) (here : d.worker ≡ n) where
  Outcome : Worker → List (Bool × ℕ × Task) → Db → Type 0
  Outcome w l db =
      let alive = in_time w.last_heartbeat (url_of w) l in
      Rows n s (kept alive (some (last_of w l))) (kept alive (some d)) (kept alive r) db

  run_tasks-Outcome :
      (l : List (Bool × ℕ × Task)) (w : Worker) (db : Db)
      → Rows n s (some w) (some d) r db
      → Outcome w l (run_tasks l db)
  unfolding Outcome
  run_tasks-Outcome [] w db h = h
  run_tasks-Outcome ((false, now, beats answers) ∷ l) w db h =
      run_tasks-Outcome l w (run_task false now (beats answers) db)
        (rw (run_task-down now (beats answers) db) h)
  run_tasks-Outcome ((false, now, timeouts) ∷ l) w db h =
      run_tasks-Outcome l w (run_task false now timeouts db) (rw (run_task-down now timeouts db) h)
  run_tasks-Outcome ((true, now, beats answers) ∷ l) w db h =
      elim (Bool-cases (answers (url_of w))) [
        | inl e ↦ rw e (
            run_tasks-Outcome l (record w { last_heartbeat = now })
              (run_task true now (beats answers) db)
              (beats-Rows n s now db (some d) r answers w (record w { last_heartbeat = now }) h
                (rw e refl)))
        | inr e ↦ rw e (
            run_tasks-Outcome l w (run_task true now (beats answers) db)
              (beats-Rows n s now db (some d) r answers w w h (rw e refl)))
      ]
  run_tasks-Outcome ((true, now, timeouts) ∷ l) w db h =
      elim (Bool-cases (is_silent timeout_duration_seconds now w)) [
        | inl e ↦ rw e (
            run_tasks-lost n s l (run_task true now timeouts db)
              (timeouts-lost n s now db w d r here h e))
        | inr e ↦ rw e (
            run_tasks-Outcome l w (run_task true now timeouts db)
              (timeouts-Rows n s now db w d r here h e))
      ]

-- With the tables' constraints met, whatever runs of the two tasks follow: the row of a worker, and
-- that of a device of this worker and its reservation, are there afterwards exactly if at each run
-- of the timeouts that reached the database the worker's last heartbeat, as its row has it or a
-- later one that it answered and that was written, was at most a minute old. The device and its
-- reservation are then as they were, and so is the worker but for the time of that heartbeat. The
-- runs' times need not grow.
pub run_tasks-kept :
    (l : List (Bool × ℕ × Task)) (n s : Name) (w : Worker) (d : Device) (db : Db)
    → IsValid db
    → find_worker n db.workers ≡ some w
    → find_device s db.devices ≡ some d
    → d.worker ≡ n
    → (find_worker n (run_tasks l db).workers
        ≡ kept (in_time w.last_heartbeat (url_of w) l) (some (last_of w l)))
      × (find_device s (run_tasks l db).devices
          ≡ kept (in_time w.last_heartbeat (url_of w) l) (some d))
      × (find_reservation s (run_tasks l db).reservations
          ≡ kept (in_time w.last_heartbeat (url_of w) l) (find_reservation s db.reservations))
unfolding Outcome
run_tasks-kept l n s w d db v known has here =
    let h : Rows n s (some w) (some d) (find_reservation s db.reservations) db = record {
      valid = v;
      worker = known;
      device = has;
      reservation = refl;
    } in
    let o = run_tasks-Outcome n s d (find_reservation s db.reservations) here l w db h in
    (o.worker, o.device, o.reservation)
