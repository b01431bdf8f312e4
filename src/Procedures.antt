-- ===== src/Procedures.antt =====
-- The stored procedures of src/usbipice/control/flyway/migrations/ (V1.1, V1.2, V1.3). A call is
-- one transaction: `none` is an exception, after which the tables are as before. Time counts in
-- seconds, and CURRENT_TIMESTAMP is the argument `now`.
pub mod Cascade
pub mod Keeps
pub mod Status
pub mod Beats
use usbip_ice.Base.{
  ℕ, Name, ◌+◌, String, Bool, true, false, not, ◌&&◌, Option, none, some, List, [], ◌∷◌, ◌++◌, map,
  ◌==◌, ltb, if◌then◌else◌, contains, filter, filter_map, str_eq,
}
use usbip_ice.Schema.{
  DeviceState, Worker, Device, Reservation, Db, worker_names, serials, find_worker, find_device,
  set_status,
}

abbrev pub Query : Type 0 → Type 0
Query A = Db → Option (A × Db)

-- `interval '1 hour'`
abbrev pub hour : ℕ
hour = 3600

pub add_worker : Name → Name → ℕ → ℕ → Query Unit
add_worker wname host port now db =
    if contains wname (worker_names db.workers)
    then none
    else some (
      tt,
      record db {
        workers =
            db.workers
            ++ record { worker_name = wname; host = host; server_port = port; last_heartbeat = now }
              ∷ [];
      },
    )

-- The deletion of workers, with the cascades to their devices and to those devices' reservations.
pub delete_workers : (Worker → Bool) → Db → Db
delete_workers doomed db =
    let gone : List Name = worker_names (filter doomed db.workers) in
    let kept = filter (λ (d : Device). not (contains d.worker gone)) db.devices in
    let lost : List Name = serials (filter (λ (d : Device). contains d.worker gone) db.devices) in
    record {
      workers = filter (λ w. not (doomed w)) db.workers;
      devices = kept;
      reservations = filter (λ r. not (contains r.device lost)) db.reservations;
    }

abbrev reservation_columns : List String
reservation_columns = "device" ∷ "clientname" ∷ "until" ∷ []

abbrev device_columns : List String
device_columns = "serialid" ∷ "worker" ∷ "devicestatus" ∷ []

abbrev has_column : String → List String → Bool
has_column c [] = false
has_column c (x ∷ xs) = if str_eq c x then true else has_column c xs

-- A query that names a column of no table in it raises.
abbrev columns_exist : List String → List String → Bool
columns_exist [] known = true
columns_exist (c ∷ cs) known = has_column c known && columns_exist cs known

-- The unquoted `NotificationUrl` is the name notificationurl.
abbrev removed_columns : List String
removed_columns = "notificationurl" ∷ "device" ∷ []

pub remove_worker : Name → Query (List Name)
unfolding delete_workers
remove_worker wname db =
    if not (contains wname (worker_names db.workers))
    then none
    else if not (columns_exist removed_columns (reservation_columns ++ device_columns))
    then none
    else some (
      filter_map
          (λ (r : Reservation). elim (find_device r.device db.devices) [
            | none ↦ none
            | some d ↦ if d.worker == wname then some r.device else none
          ])
          db.reservations,
      delete_workers (λ w. w.worker_name == wname) db,
    )

pub heartbeat_worker : Name → ℕ → Query Unit
heartbeat_worker wname now db =
    if not (contains wname (worker_names db.workers))
    then none
    else some (
      tt,
      record db {
        workers =
            map
              (λ (w : Worker).
                if w.worker_name == wname then record w { last_heartbeat = now } else w)
              db.workers;
      },
    )

pub record TimedOut : Type 0 where
  pub serial : Name
  pub client_id : Name
  pub worker : Name

-- `LastHeartbeat < CURRENT_TIMESTAMP - s seconds`
abbrev pub is_silent : ℕ → ℕ → Worker → Bool
is_silent s now w = ltb (w.last_heartbeat + s) now

abbrev pub timed_out_row : ℕ → ℕ → Db → Reservation → Option TimedOut
timed_out_row s now db r = elim (find_device r.device db.devices) [
  | none ↦ none
  | some d ↦ elim (find_worker d.worker db.workers) [
    | none ↦ none
    | some w ↦
        if is_silent s now w
        then some (record { serial = r.device; client_id = r.client_name; worker = d.worker })
        else none
  ]
]

unfoldable pub handle_worker_timeouts : ℕ → ℕ → Query (List TimedOut)
unfolding delete_workers
handle_worker_timeouts s now db =
    some (filter_map (timed_out_row s now db) db.reservations, delete_workers (is_silent s now) db)

pub add_device : Name → Name → Query Unit
add_device deviceserial worker db =
    if not (contains worker (worker_names db.workers))
    then none
    else if contains deviceserial (serials db.devices)
    then none
    else some (
      tt,
      record db {
        devices =
            db.devices
            ++ record {
              serial_id = deviceserial;
              worker = worker;
              device_status = DeviceState.await_flash_default;
            }
              ∷ [];
      },
    )

pub update_device_status : Name → DeviceState → Query Unit
update_device_status deviceserial dstate db =
    if not (contains deviceserial (serials db.devices))
    then none
    else some (tt, record db { devices = set_status dstate (deviceserial ∷ []) db.devices })
