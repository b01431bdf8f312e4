-- ===== src/Access/History.antt =====
-- Any sequence of the database calls that the control server and the workers make.
use usbip_ice.Base.{ℕ, Name, ◌≡◌, Bool, true, false, Option, none, some, List, [], ◌∷◌, contains}
use usbip_ice.Schema.{DeviceState, available, Db, reserved_serials}
use usbip_ice.Schema.Keys.{IsValid, IsFree}
use usbip_ice.Procedures.{Query, update_device_status}
use usbip_ice.Procedures.Keeps.{
  After, Keeps, add_worker-Keeps, remove_worker-Keeps, heartbeat_worker-Keeps,
  handle_worker_timeouts-Keeps, add_device-Keeps,
}
use usbip_ice.Procedures.Status.{update_device_status-IsValid, update_device_status-IsFree}
use usbip_ice.Reservations.Keeps.{
  make_reservations-Keeps, extend_reservations-Keeps, extend_all_reservations-Keeps,
  end_reservations-Keeps, end_all_reservations-Keeps, handle_reservation_timeouts-Keeps,
}
use usbip_ice.Access.{settle, execute, proc, get_data}
use usbip_ice.Access.ControlDatabase
use usbip_ice.Access.WorkerDatabase

-- The calls that change the tables, with what `up` says of the connection and the time.
pub data Call : Type 0 where
  reserve : ℕ → Name → ℕ → Call
  extend : Name → List Name → ℕ → Call
  extend_all : Name → ℕ → Call
  end_chosen : Name → List Name → Call
  end_all : Name → Call
  heartbeat : Name → ℕ → Call
  worker_timeouts : ℕ → ℕ → Call
  reservation_timeouts : ℕ → Call
  start_worker : Name → Name → ℕ → ℕ → Call
  add_device : Name → Name → Call
  update_status : Name → DeviceState → Call
  exit_worker : Name → Call

unfoldable pub apply : Bool → Call → Db → Db
unfolding execute proc get_data ControlDatabase.reserve ControlDatabase.extend
    ControlDatabase.extend_all ControlDatabase.end_chosen ControlDatabase.end_all
    ControlDatabase.heartbeat ControlDatabase.get_worker_timeouts
    ControlDatabase.get_reservation_timeouts WorkerDatabase.init WorkerDatabase.add_device
    WorkerDatabase.update_status WorkerDatabase.on_exit
apply up (reserve amount client now) db = (ControlDatabase.reserve up amount client now db).1
apply up (extend name chosen now) db = (ControlDatabase.extend up name chosen now db).1
apply up (extend_all name now) db = (ControlDatabase.extend_all up name now db).1
apply up (end_chosen name chosen) db = (ControlDatabase.end_chosen up name chosen db).1
apply up (end_all name) db = (ControlDatabase.end_all up name db).1
apply up (heartbeat name now) db = (ControlDatabase.heartbeat up name now db).1
apply up (worker_timeouts s now) db = (ControlDatabase.get_worker_timeouts up s now db).1
apply up (reservation_timeouts now) db = (ControlDatabase.get_reservation_timeouts up now db).1
apply up (start_worker name ip port now) db = (WorkerDatabase.init up name ip port now db).1
apply up (add_device name serial) db = (WorkerDatabase.add_device up name serial db).1
apply up (update_status serial status) db = (WorkerDatabase.update_status up serial status db).1
apply up (exit_worker name) db = WorkerDatabase.on_exit up name db

abbrev pub run : List (Bool × Call) → Db → Db
run [] db = db
run ((up, c) ∷ cs) db = run cs (apply up c db)

-- A worker reports a device as available only while nobody holds it.
abbrev pub Admissible : Call → Db → Type 0
Admissible (update_status serial status) db =
    status ≡ available → contains serial (reserved_serials db.reservations) ≡ false
Admissible _ db = Unit

abbrev pub AllAdmissible : List (Bool × Call) → Db → Type 0
AllAdmissible [] db = Unit
AllAdmissible ((up, c) ∷ cs) db = Admissible c db × AllAdmissible cs (apply up c db)

module _ {A : Type 0} (P : Db → Type 0) where
  settle-After : (r : Option (A × Db)) (db : Db) → P db → After P r → P (settle db r).1
  settle-After none db p a = p
  settle-After (some (a, db')) db p q = q

  execute-After :
      (up : Bool) (q : Query A) (db : Db) → P db → After P (q db) → P (execute up q db).1
  unfolding execute
  execute-After false q db p a = p
  execute-After true q db p a = settle-After (q db) db p a

module _ {A : Type 0} (up : Bool) {q : Query A} (k : Keeps q) (db : Db) where
  pub execute-IsValid : IsValid db → IsValid (execute up q db).1
  execute-IsValid v = execute-After IsValid up q db v (k.valid db v)

  execute-IsFree : IsValid db → IsFree db → IsFree (execute up q db).1
  execute-IsFree v f = execute-After IsFree up q db f (k.free db v f)

apply-IsValid : (up : Bool) (c : Call) (db : Db) → IsValid db → IsValid (apply up c db)
unfolding apply
apply-IsValid up (reserve amount client now) db v =
    execute-IsValid up (make_reservations-Keeps amount client now) db v
apply-IsValid up (extend name chosen now) db v =
    execute-IsValid up (extend_reservations-Keeps name chosen now) db v
apply-IsValid up (extend_all name now) db v =
    execute-IsValid up (extend_all_reservations-Keeps name now) db v
apply-IsValid up (end_chosen name chosen) db v =
    execute-IsValid up (end_reservations-Keeps name chosen) db v
apply-IsValid up (end_all name) db v = execute-IsValid up (end_all_reservations-Keeps name) db v
apply-IsValid up (heartbeat name now) db v =
    execute-IsValid up (heartbeat_worker-Keeps name now) db v
apply-IsValid up (worker_timeouts s now) db v =
    execute-IsValid up (handle_worker_timeouts-Keeps s now) db v
apply-IsValid up (reservation_timeouts now) db v =
    execute-IsValid up (handle_reservation_timeouts-Keeps now) db v
apply-IsValid up (start_worker name ip port now) db v =
    execute-IsValid up (add_worker-Keeps name ip port now) db v
apply-IsValid up (add_device name serial) db v =
    execute-IsValid up (add_device-Keeps serial name) db v
apply-IsValid up (exit_worker name) db v = execute-IsValid up (remove_worker-Keeps name) db v
apply-IsValid up (update_status serial status) db v =
    execute-After IsValid up (update_device_status serial status) db v
      (update_device_status-IsValid serial status db v)

apply-IsFree :
    (up : Bool) (c : Call) (db : Db)
    → IsValid db
    → IsFree db
    → Admissible c db
    → IsFree (apply up c db)
unfolding apply
apply-IsFree up (reserve amount client now) db v f a =
    execute-IsFree up (make_reservations-Keeps amount client now) db v f
apply-IsFree up (extend name chosen now) db v f a =
    execute-IsFree up (extend_reservations-Keeps name chosen now) db v f
apply-IsFree up (extend_all name now) db v f a =
    execute-IsFree up (extend_all_reservations-Keeps name now) db v f
apply-IsFree up (end_chosen name chosen) db v f a =
    execute-IsFree up (end_reservations-Keeps name chosen) db v f
apply-IsFree up (end_all name) db v f a = execute-IsFree up (end_all_reservations-Keeps name) db v f
apply-IsFree up (heartbeat name now) db v f a =
    execute-IsFree up (heartbeat_worker-Keeps name now) db v f
apply-IsFree up (worker_timeouts s now) db v f a =
    execute-IsFree up (handle_worker_timeouts-Keeps s now) db v f
apply-IsFree up (reservation_timeouts now) db v f a =
    execute-IsFree up (handle_reservation_timeouts-Keeps now) db v f
apply-IsFree up (start_worker name ip port now) db v f a =
    execute-IsFree up (add_worker-Keeps name ip port now) db v f
apply-IsFree up (add_device name serial) db v f a =
    execute-IsFree up (add_device-Keeps serial name) db v f
apply-IsFree up (exit_worker name) db v f a = execute-IsFree up (remove_worker-Keeps name) db v f
apply-IsFree up (update_status serial status) db v f a =
    execute-After IsFree up (update_device_status serial status) db f
      (update_device_status-IsFree serial status db f a)

-- From tables that meet their constraints, whatever the calls and the failures of the connection,
-- the tables meet them afterwards.
pub run-IsValid : (cs : List (Bool × Call)) (db : Db) → IsValid db → IsValid (run cs db)
run-IsValid [] db v = v
run-IsValid ((up, c) ∷ cs) db v = run-IsValid cs (apply up c db) (apply-IsValid up c db v)

-- From tables that meet their constraints and list no reserved device as available, where workers
-- report a device as available only while nobody holds it, no reserved device is ever listed as
-- available, whatever the other calls and the failures of the connection.
pub run-IsFree :
    (cs : List (Bool × Call)) (db : Db)
    → IsValid db
    → IsFree db
    → AllAdmissible cs db
    → IsFree (run cs db)
run-IsFree [] db v f a = f
run-IsFree ((up, c) ∷ cs) db v f a =
    run-IsFree cs (apply up c db) (apply-IsValid up c db v) (apply-IsFree up c db v f a.0) a.1
