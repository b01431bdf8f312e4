-- ===== src/Heartbeat/Survival/Rows.antt =====
-- The rows of a worker, a device and its reservation through a run of a periodic task of
-- src/usbipice/control/Heartbeat.py.
use usbip_ice.Base.{
  ℕ, Name, ◌≡◌, refl, ap, ◌∙◌, Bool, true, false, Option, none, some, List, [], ◌∷◌, map, arith,
  if◌then◌else◌,
}
use usbip_ice.Schema.{Worker, Device, Reservation, Db, find_worker, find_device, find_reservation}
use usbip_ice.Schema.Keys.{IsValid}
use usbip_ice.Procedures.Beats.{OthersOf, heartbeat_worker-OthersOf}
use usbip_ice.Procedures.{TimedOut, heartbeat_worker, handle_worker_timeouts, is_silent}
use usbip_ice.Procedures.Keeps.{heartbeat_worker-Keeps}
use usbip_ice.Procedures.Cascade.{
  Cascades, lost_worker, lost_device, handle_worker_timeouts-TimesOut, TimesOut,
}
use usbip_ice.Access.{Url, settle, execute, proc, get_data}
use usbip_ice.Access.History.{execute-IsValid}
use usbip_ice.Access.ControlDatabase
use usbip_ice.Heartbeat.{timeout_duration_seconds, beat, heartbeat_workers}
use usbip_ice.Heartbeat.Runs.{url_of, beaten, heartbeat_workers-beaten}
use usbip_ice.Heartbeat.Survival.{Task, beats, timeouts, run_task, run_tasks}

-- What a heartbeat leaves alone
abbrev SameRest : Db → Db → Type 0
SameRest db db' = (db'.devices ≡ db.devices) × (db'.reservations ≡ db.reservations) × IsValid db'

settle-SameRest :
    (db : Db) (r : Option (Unit {0} × Db))
    → OthersOf db r
    → ((settle db r).1.devices ≡ db.devices) × ((settle db r).1.reservations ≡ db.reservations)
settle-SameRest db none h = (refl, refl)
settle-SameRest db (some (_, db')) h = h

heartbeat-SameRest :
    (name : Name) (now : ℕ) (db : Db)
    → IsValid db
    → SameRest db (ControlDatabase.heartbeat true name now db).1
unfolding ControlDatabase.heartbeat proc
heartbeat-SameRest name now db v =
    let (d, r) =
      settle-SameRest db (heartbeat_worker name now db) (heartbeat_worker-OthersOf name now db) in
    (d, r, execute-IsValid true (heartbeat_worker-Keeps name now) db v)

beat-SameRest :
    (answers : Url → Bool) (now : ℕ) (ws : List (Name × Url)) (db : Db)
    → IsValid db
    → SameRest db (beat answers true now ws db)
unfolding beat
beat-SameRest answers now [] db v = (refl, refl, v)
beat-SameRest answers now ((name, url) ∷ ws) db v =
    let (d, r, v') = one (answers url) in
    let (d', r', v'') =
      beat-SameRest answers now ws
        (if answers url then (ControlDatabase.heartbeat true name now db).1 else db) v' in
    (d' ∙ d, r' ∙ r, v'')
  where
    one :
        (heard : Bool)
        → SameRest db (if heard then (ControlDatabase.heartbeat true name now db).1 else db)
    one true = heartbeat-SameRest name now db v
    one false = (refl, refl, v)

heartbeat_workers-SameRest :
    (answers : Url → Bool) (now : ℕ) (db : Db)
    → IsValid db
    → SameRest db (heartbeat_workers answers true now db)
unfolding heartbeat_workers ControlDatabase.get_workers get_data execute
heartbeat_workers-SameRest answers now db v =
    beat-SameRest answers now (map (λ (w : Worker). (w.worker_name, url_of w)) db.workers) db v

settle-Cascades :
    (now : ℕ) (db : Db) (r : Option (List TimedOut × Db))
    → TimesOut timeout_duration_seconds now db r
    → Cascades (is_silent timeout_duration_seconds now) db (settle db r).1
settle-Cascades now db none h = elim h [ ]
settle-Cascades now db (some (rows, db')) h = h.0

-- The deletion of the silent workers
timeouts-Cascades :
    (now : ℕ) (db : Db)
    → IsValid db
    → Cascades (is_silent timeout_duration_seconds now) db (run_task true now timeouts db)
unfolding run_task ControlDatabase.get_worker_timeouts get_data execute
timeouts-Cascades now db v =
    settle-Cascades now db (handle_worker_timeouts timeout_duration_seconds now db)
      (handle_worker_timeouts-TimesOut timeout_duration_seconds now db v)

-- The rows of the worker, of a device and of its reservation
pub record Rows (n s : Name) (o : Option Worker) (d : Option Device) (r : Option Reservation)
    (db : Db) : Type 0 where
  pub valid : IsValid db
  pub worker : find_worker n db.workers ≡ o
  pub device : find_device s db.devices ≡ d
  pub reservation : find_reservation s db.reservations ≡ r

module _ (n s : Name) (now : ℕ) (db : Db) where
  module _ (o : Option Device) (r : Option Reservation) where
    pub beats-Rows :
        (answers : Url → Bool) (w w' : Worker)
        → Rows n s (some w) o r db
        → beaten answers now w ≡ w'
        → Rows n s (some w') o r (run_task true now (beats answers) db)
    unfolding run_task
    beats-Rows answers w w' h e =
        let (d, r, v) = heartbeat_workers-SameRest answers now db h.valid in
        record {
          valid = v;
          worker = heartbeat_workers-beaten answers now db h.valid n ∙ rw h.worker (ap some e);
          device = rw d h.device;
          reservation = rw r h.reservation;
        }

  lost-beats :
      (answers : Url → Bool)
      → Rows n s none none none db
      → Rows n s none none none (run_task true now (beats answers) db)
  unfolding run_task
  lost-beats answers h =
      let (d, e, v) = heartbeat_workers-SameRest answers now db h.valid in
      record {
        valid = v;
        worker = heartbeat_workers-beaten answers now db h.valid n ∙ rw h.worker refl;
        device = rw d h.device;
        reservation = rw e h.reservation;
      }

  lost-timeouts :
      Rows n s none none none db → Rows n s none none none (run_task true now timeouts db)
  lost-timeouts h =
      let c = timeouts-Cascades now db h.valid in
      record {
        valid = c.valid_after;
        worker = c.worker_after n ∙ ground (arith, h.worker);
        device = c.device_after s ∙ ground (arith, h.device);
        reservation = c.reservation_after s ∙ ground (arith, h.reservation);
      }

  module _ (w : Worker) (d : Device) (r : Option Reservation) (here : d.worker ≡ n)
      (h : Rows n s (some w) (some d) r db) where
    lost_worker-silent :
        lost_worker (is_silent timeout_duration_seconds now) db n
        ≡ is_silent timeout_duration_seconds now w
    lost_worker-silent = rw (lost_worker, h.worker) refl

    lost_device-silent :
        lost_device (is_silent timeout_duration_seconds now) db s
        ≡ is_silent timeout_duration_seconds now w
    lost_device-silent = ground (arith, h.device, here, h.worker)

    pub timeouts-Rows :
        is_silent timeout_duration_seconds now w ≡ false
        → Rows n s (some w) (some d) r (run_task true now timeouts db)
    timeouts-Rows e =
        let c = timeouts-Cascades now db h.valid in
        record {
          valid = c.valid_after;
          worker = c.worker_after n ∙ rw (lost_worker-silent, e) h.worker;
          device = c.device_after s ∙ rw (lost_device-silent, e) h.device;
          reservation = c.reservation_after s ∙ rw (lost_device-silent, e) h.reservation;
        }

    pub timeouts-lost :
        is_silent timeout_duration_seconds now w ≡ true
        → Rows n s none none none (run_task true now timeouts db)
    timeouts-lost e =
        let c = timeouts-Cascades now db h.valid in
        record {
          valid = c.valid_after;
          worker = c.worker_after n ∙ rw (lost_worker-silent, e) refl;
          device = c.device_after s ∙ rw (lost_device-silent, e) refl;
          reservation = c.reservation_after s ∙ rw (lost_device-silent, e) refl;
        }

pub run_task-down : (now : ℕ) (t : Task) (db : Db) → run_task false now t db ≡ db
unfolding run_task heartbeat_workers ControlDatabase.get_workers ControlDatabase.get_worker_timeouts
    get_data execute
run_task-down now (beats answers) db = refl
run_task-down now timeouts db = refl

pub run_tasks-lost :
    (n s : Name) (l : List (Bool × ℕ × Task)) (db : Db)
    → Rows n s none none none db
    → Rows n s none none none (run_tasks l db)
run_tasks-lost n s [] db h = h
run_tasks-lost n s ((false, now, t) ∷ l) db h =
    run_tasks-lost n s l (run_task false now t db) (rw (run_task-down now t db) h)
run_tasks-lost n s ((true, now, beats answers) ∷ l) db h =
    run_tasks-lost n s l (run_task true now (beats answers) db) (lost-beats n s now db answers h)
run_tasks-lost n s ((true, now, timeouts) ∷ l) db h =
    run_tasks-lost n s l (run_task true now timeouts db) (lost-timeouts n s now db h)
