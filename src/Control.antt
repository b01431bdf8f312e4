-- ===== src/Control.antt =====
-- `class Control` of src/usbipice/control/Control.py. What a GET to a worker answers is only
-- logged, so a server's state keeps the requests that it makes.
pub mod Threads
pub mod Ending
use usbip_ice.Base.{
  ℕ, Name, Bool, true, false, Option, none, some, List, [], ◌∷◌, ◌++◌, map, String,
}
use usbip_ice.Requests.{Members}
use usbip_ice.Control.Threads.{Act, run, start}
use usbip_ice.Schema.{Db}
use usbip_ice.Reservations.{Granted, Ended}
use usbip_ice.Access.{Url}
use usbip_ice.Access.ControlDatabase
use usbip_ice.Events.{Sender}
use usbip_ice.Events.Package.{send_device_reservation_end}

-- A URL before its endpoint: `http://{ip}:{port}`, or any other text.
pub data Target : Type 0 where
  http : Url → Target
  text : Name → Target

-- A GET of `/unreserve` with {"serial": serial}
pub record Unreserve : Type 0 where
  pub worker_url : Target
  pub serial : Name

-- A GET of `/reserve` at a worker, with {"serial": serial, "kind": kind, "args": args}
pub record Reserve : Type 0 where
  pub worker_url : Url
  pub serial : Name
  pub kind : Name
  pub args : Members

pub record Server (A : Type 0) : Type 0 where
  pub db : Db
  pub event_sender : Sender A
  pub unreserves : List Unreserve
  pub reserves : List Reserve

module _ {C A : Type 0} (emit : ℕ → Bool) (dumps : Name → C → Option A)
    (event_named : String → C) where
  -- `__notifyEnd`
  unfoldable pub notify_end : Name → Name → Target → Server A → Server A
  unfolding send_device_reservation_end
  notify_end client_id serial worker_url c = record c {
    event_sender =
        send_device_reservation_end emit dumps event_named serial client_id c.event_sender;
    unreserves = c.unreserves ++ record { worker_url = worker_url; serial = serial } ∷ [];
  }

  -- The loop `for row in data` of `end` and of `endAll`.
  pub notify_all : Name → List Ended → Server A → Server A
  unfolding notify_end
  notify_all client_id [] c = c
  notify_all client_id (row ∷ rows) c = notify_all client_id rows (
      notify_end client_id row.serial (http (record { ip = row.worker_ip; port = row.worker_port }))
        c)

  -- On `False` from the database the loop raises a TypeError, here `none`.
  unfoldable pub finish : Name → Option (List Ended) × Db → Server A → Option (List Name) × Server A
  unfolding notify_all
  finish client_id (none, db) c = (none, record c { db = db })
  finish client_id (some rows, db) c =
      (some (map (λ (r : Ended). r.serial) rows), notify_all client_id rows (record c { db = db }))

  -- `end`
  unfoldable pub end_chosen : Bool → Name → List Name → Server A → Option (List Name) × Server A
  unfolding finish
  end_chosen up client_id chosen c =
      finish client_id (ControlDatabase.end_chosen up client_id chosen c.db) c

  pub end_all : Bool → Name → Server A → Option (List Name) × Server A
  unfolding finish
  end_all up client_id c = finish client_id (ControlDatabase.end_all up client_id c.db) c

-- What `send_reserve` sends for a row
abbrev pub reserve_of : Name → Members → Granted → Reserve
reserve_of kind args row = record {
  worker_url = record { ip = row.ip; port = row.server_port };
  serial = row.serial;
  kind = kind;
  args = args;
}

-- The requests of the threads that the loop over the rows starts, in the order `acts` of the
-- loop's turns and the threads' reads
abbrev pub requests : List Act → Name → Members → Option (List Granted) → List Reserve
requests acts kind args none = []
requests acts kind args (some rows) = map (reserve_of kind args) (run acts (start rows)).sent

module _ {A : Type 0} where
  unfoldable pub extend :
      Bool → Name → List Name → ℕ → Server A → Option (List (List Name)) × Server A
  extend up client_id chosen now c =
      let (rows, db') = ControlDatabase.extend up client_id chosen now c.db in
      (rows, record c { db = db' })

  unfoldable pub extend_all : Bool → Name → ℕ → Server A → Option (List (List Name)) × Server A
  extend_all up client_id now c =
      let (rows, db') = ControlDatabase.extend_all up client_id now c.db in
      (rows, record c { db = db' })

  unfoldable pub reserve :
      List Act → Bool → Name → ℕ → Name → Members → ℕ → Server A → Option (List Granted) × Server A
  reserve acts up client_id amount kind args now c =
      let (rows, db') = ControlDatabase.reserve up amount client_id now c.db in
      (rows, record c { db = db'; reserves = c.reserves ++ requests acts kind args rows })
