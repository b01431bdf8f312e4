-- ===== src/Heartbeat.antt =====
-- The periodic tasks of src/usbipice/control/Heartbeat.py. Each function is one run of the task
-- that the scheduler starts; `answers url` says whether a worker's `/heartbeat` gives status 200.
pub mod Runs
pub mod Survival
pub mod Notices
use usbip_ice.Base.{
  ℕ, Name, ◌*◌, Bool, true, false, Option, none, some, List, [], ◌∷◌, ◌++◌, String, if◌then◌else◌,
}
use usbip_ice.Schema.{Db}
use usbip_ice.Procedures.{TimedOut}
use usbip_ice.Reservations.{Ended}
use usbip_ice.Access.{Url}
use usbip_ice.Access.ControlDatabase
use usbip_ice.Events.{Sender}
use usbip_ice.Events.Package.{
  send_device_reservation_end, send_device_failure, send_device_reservation_ending_soon,
}
use usbip_ice.Control.{Target, text, Unreserve, Server}

-- `HeartbeatConfig`
abbrev pub timeout_duration_seconds : ℕ
timeout_duration_seconds = 60

abbrev pub reservation_expiring_notify_at_seconds : ℕ
reservation_expiring_notify_at_seconds = 20 * 60

-- The loop over the workers in `__startHeartBeatWorkers`.
pub beat : (Url → Bool) → Bool → ℕ → List (Name × Url) → Db → Db
beat answers up now [] db = db
beat answers up now ((name, url) ∷ ws) db =
    beat answers up now ws
      (if answers url then (ControlDatabase.heartbeat up name now db).1 else db)

pub heartbeat_workers : (Url → Bool) → Bool → ℕ → Db → Db
unfolding beat
heartbeat_workers answers up now db =
    let (workers, db') = ControlDatabase.get_workers up db in
    elim workers [ none ↦ db' | some ws ↦ beat answers up now ws db' ]

module _ {C A : Type 0} (emit : ℕ → Bool) (dumps : Name → C → Option A)
    (event_named : String → C) where
  pub send_failures : List TimedOut → Sender A → Sender A
  send_failures [] e = e
  send_failures (row ∷ rows) e =
      send_failures rows (send_device_failure emit dumps event_named row.serial row.client_id e)

  pub worker_timeouts : Bool → ℕ → Server A → Server A
  unfolding send_failures
  worker_timeouts up now c =
      let (rows, db') = ControlDatabase.get_worker_timeouts up timeout_duration_seconds now c.db in
      record c {
        db = db';
        event_sender = elim rows [
          | none ↦ c.event_sender
          | some l ↦ send_failures l c.event_sender
        ];
      }

  -- `Heartbeat.__notifyEnd`, whose parameters are in another order than those of `Control`'s
  unfoldable pub notify_end : Name → Target → Name → Server A → Server A
  notify_end client_id worker_url serial c = record c {
    event_sender =
        send_device_reservation_end emit dumps event_named serial client_id c.event_sender;
    unreserves = c.unreserves ++ record { worker_url = worker_url; serial = serial } ∷ [];
  }

  -- The call is `__notifyEnd(row["serial"], row["workerip"], row["workerport"])`; `str` is the text
  -- of a port.
  pub notify_rows : (ℕ → Name) → List Ended → Server A → Server A
  unfolding notify_end
  notify_rows str [] c = c
  notify_rows str (row ∷ rows) c =
      notify_rows str rows (notify_end row.serial (text row.worker_ip) (str row.worker_port) c)

  -- The rows that the database gives, or `False`.
  pub end_rows : (ℕ → Name) → Option (List Ended) × Db → Server A → Server A
  unfolding notify_rows
  end_rows str (none, db) c = record c { db = db }
  end_rows str (some rows, db) c = notify_rows str rows (record c { db = db })

  pub reservation_timeouts : (ℕ → Name) → Bool → ℕ → Server A → Server A
  unfolding end_rows
  reservation_timeouts str up now c =
      end_rows str (ControlDatabase.get_reservation_timeouts up now c.db) c

  -- The loop of `__startReservationEndingSoon`
  pub send_ending_soon : Bool → Db → List Name → Sender A → Sender A
  send_ending_soon up db [] e = e
  send_ending_soon up db (serial ∷ l) e =
      send_ending_soon up db l
        (send_device_reservation_ending_soon emit dumps event_named up db serial e)

  unfoldable pub reservation_ending_soon : Bool → ℕ → Server A → Server A
  unfolding send_ending_soon
  reservation_ending_soon up now c =
      let (rows, db') =
        ControlDatabase.get_reservation_ending_soon up reservation_expiring_notify_at_seconds now
          c.db in
      record c {
        db = db';
        event_sender = elim rows [
          | none ↦ c.event_sender
          | some l ↦ send_ending_soon up db' l c.event_sender
        ];
      }
