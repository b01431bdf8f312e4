-- ===== src/Schema.antt =====
-- The tables of src/usbipice/control/flyway/migrations/V1__Tables.sql, and reads of them. A table
-- is a list of rows, in the order in which a query meets them.
pub mod Keys
use usbip_ice.Base.{
  ℕ, Name, ◌≡◌, Bool, true, false, Option, none, some, List, [], ◌∷◌, map, ◌==◌, if◌then◌else◌,
  contains,
}

-- `CREATE TYPE DeviceState`, and `class DeviceState` in utils/Database.py
pub data DeviceState : Type 0 where
  available reserved await_flash_default flashing_default testing broken : DeviceState

pub record Worker : Type 0 where
  pub worker_name : Name
  pub host : Name
  pub server_port : ℕ
  pub last_heartbeat : ℕ

pub record Device : Type 0 where
  pub serial_id : Name
  pub worker : Name
  pub device_status : DeviceState

pub record Reservation : Type 0 where
  pub device : Name
  pub client_name : Name
  pub until : ℕ

pub record Db : Type 0 where
  pub workers : List Worker
  pub devices : List Device
  pub reservations : List Reservation

abbrev pub worker_names : List Worker → List Name
worker_names = map (λ w. w.worker_name)

abbrev pub serials : List Device → List Name
serials = map (λ d. d.serial_id)

abbrev pub reserved_serials : List Reservation → List Name
reserved_serials = map (λ r. r.device)

abbrev pub is_available : DeviceState → Bool
is_available available = true
is_available _ = false

-- An inner join on a primary key finds at most the one row with the key.
abbrev pub find_worker : Name → List Worker → Option Worker
find_worker n [] = none
find_worker n (w ∷ ws) = if n == w.worker_name then some w else find_worker n ws

abbrev pub find_device : Name → List Device → Option Device
find_device s [] = none
find_device s (d ∷ ds) = if s == d.serial_id then some d else find_device s ds

abbrev pub find_reservation : Name → List Reservation → Option Reservation
find_reservation s [] = none
find_reservation s (r ∷ rs) = if s == r.device then some r else find_reservation s rs

-- `UPDATE Device SET DeviceStatus = state WHERE SerialID IN chosen`
abbrev pub set_status : DeviceState → List Name → List Device → List Device
set_status state chosen =
    map (λ d. if contains d.serial_id chosen then record d { device_status = state } else d)
