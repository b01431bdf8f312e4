-- ===== src/Reservations.antt =====
-- The stored procedures on reservations, of
-- src/usbipice/control/flyway/migrations/V1.3__ReservationProc.sql. A call is one transaction:
-- `none` is an exception, after which the tables are as before. An amount is not negative.
pub mod Insert
pub mod Reserve
pub mod Release
pub mod Keeps
use usbip_ice.Base.{
  ℕ, Name, ◌+◌, ◌≡◌, Bool, true, false, not, ◌&&◌, Option, none, some, List, [], ◌∷◌, ◌++◌, map,
  ◌==◌, ltb, if◌then◌else◌, contains, take, filter, filter_map,
}
use usbip_ice.Schema.{
  DeviceState, Worker, Device, Reservation, Db, serials, reserved_serials, is_available,
  find_worker, find_device, set_status,
}
use usbip_ice.Procedures.{Query, hour}

-- A row {serial, host, port} that a reservation returns.
pub record Granted : Type 0 where
  pub serial : Name
  pub ip : Name
  pub server_port : ℕ

-- A row {serial, client, host, port} of a reservation that ends.
pub record Ended : Type 0 where
  pub serial : Name
  pub client_id : Name
  pub worker_ip : Name
  pub worker_port : ℕ

abbrev pub available_row : List Worker → Device → Option Granted
available_row ws d =
    if is_available d.device_status
    then elim (find_worker d.worker ws) [
      | none ↦ none
      | some w ↦ some (record { serial = d.serial_id; ip = w.host; server_port = w.server_port })
    ]
    else none

abbrev pub granted_serials : List Granted → List Name
granted_serials = map (λ g. g.serial)

-- `INSERT INTO Reservations`: the primary key refuses a second reservation of a device.
unfoldable pub insert_rows : List Reservation → List Reservation → Option (List Reservation)
insert_rows [] rs = some rs
insert_rows (r ∷ new) rs =
    if contains r.device (reserved_serials rs) then none else insert_rows new (rs ++ r ∷ [])

abbrev pub new_reservation : Name → ℕ → Granted → Reservation
new_reservation client now g = record {
  device = g.serial;
  client_name = client;
  until = now + hour;
}

-- The temporary table `res` of `makeReservations`.
unfoldable pub grants : ℕ → Db → List Granted
grants amount db = take amount (filter_map (available_row db.workers) db.devices)

unfoldable pub make_reservations : ℕ → Name → ℕ → Query (List Granted)
unfolding grants insert_rows
make_reservations amount client now db =
    let res = grants amount db in
    elim (insert_rows (map (new_reservation client now) res) db.reservations) [
      | none ↦ none
      | some rs ↦ some (
        res,
        record db {
          devices = set_status DeviceState.reserved (granted_serials res) db.devices;
          reservations = rs;
        },
      )
    ]

-- `UPDATE Reservations SET Until = … WHERE mine RETURNING Device`
pub extend_where : (Reservation → Bool) → ℕ → Query (List Name)
extend_where mine now db = some (
  reserved_serials (filter mine db.reservations),
  record db {
    reservations =
        map (λ (r : Reservation). if mine r then record r { until = now + hour } else r)
          db.reservations;
  },
)

abbrev pub owned : Name → List Name → Reservation → Bool
owned client chosen r = contains r.device chosen && r.client_name == client

abbrev pub owned_by : Name → Reservation → Bool
owned_by client r = r.client_name == client

pub extend_reservations : Name → List Name → ℕ → Query (List Name)
unfolding extend_where
extend_reservations client chosen now = extend_where (owned client chosen) now

pub extend_all_reservations : Name → ℕ → Query (List Name)
unfolding extend_where
extend_all_reservations client now = extend_where (owned_by client) now

-- The reservation with its worker's address, by the joins with Device and Worker.
abbrev pub ended_row : Db → Reservation → Option Ended
ended_row db r = elim (find_device r.device db.devices) [
  | none ↦ none
  | some d ↦ elim (find_worker d.worker db.workers) [
    | none ↦ none
    | some w ↦ some (record {
      serial = r.device;
      client_id = r.client_name;
      worker_ip = w.host;
      worker_port = w.server_port;
    })
  ]
]

-- The part that `endReservations`, `endAllReservations` and `handleReservationTimeouts` share:
-- `res` holds the devices of the reservations that `ends` selects.
pub release : (Reservation → Bool) → Query (List Ended)
release ends db =
    let res : List Name = reserved_serials (filter ends db.reservations) in
    some (
      filter_map (ended_row db)
          (filter (λ (r : Reservation). contains r.device res) db.reservations),
      record db {
        devices = set_status DeviceState.await_flash_default res db.devices;
        reservations = filter (λ (r : Reservation). not (contains r.device res)) db.reservations;
      },
    )

pub end_reservations : Name → List Name → Query (List Ended)
unfolding release
end_reservations client chosen = release (owned client chosen)

pub end_all_reservations : Name → Query (List Ended)
unfolding release
end_all_reservations client = release (owned_by client)

-- `RETURN QUERY` raises unless the query has as many columns as the function declares.
abbrev pub return_query {ℓ} : {A : Type ℓ} → ℕ → ℕ → A → Option A
return_query declared columns rows = if declared == columns then some rows else none

-- `Until < CURRENT_TIMESTAMP`
abbrev pub is_overdue : ℕ → Reservation → Bool
is_overdue now r = ltb r.until now

-- Declared with the columns (Device, ClientName); its query has four, with the worker's address.
pub handle_reservation_timeouts : ℕ → Query (List Ended)
unfolding release
handle_reservation_timeouts now db = elim (release (is_overdue now) db) [
  | none ↦ none
  | some (rows, db') ↦ elim (return_query 2 4 rows) [ none ↦ none | some rows ↦ some (rows, db') ]
]

unfoldable pub get_reservations_ending_soon : ℕ → ℕ → Query (List Name)
get_reservations_ending_soon mins now db =
    some (reserved_serials (filter (λ r. ltb r.until (now + mins)) db.reservations), db)

unfoldable pub get_device_callback : Name → Query (List Name)
get_device_callback deviceserial db =
    if not (contains deviceserial (serials db.devices))
    then none
    else some (
      map (λ (r : Reservation). r.client_name)
          (filter (λ r. r.device == deviceserial) db.reservations),
      db,
    )

unfoldable pub get_device_worker : Name → Query (List (Name × ℕ))
get_device_worker deviceserial db = elim (find_device deviceserial db.devices) [
  | none ↦ none
  | some d ↦ elim (find_worker d.worker db.workers) [
    | none ↦ some ([], db)
    | some w ↦ some ((w.host, w.server_port) ∷ [], db)
  ]
]
