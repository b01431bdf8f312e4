-- ===== src/Events/Package.antt =====
-- The JSON methods of `class EventSender` (src/usbipice/utils/EventSender.py) and
-- src/usbipice/control/ControlEventSender.py. `dumps serial contents` is `json.dumps` of
-- {serial, contents with the serial}, `none` where it raises; `event_named` is {"event": name}.
use usbip_ice.Base.{
  ℕ, Name, Bool, true, false, Option, none, some, [], ◌∷◌, String, ◌==◌, if◌then◌else◌,
}
use usbip_ice.Schema.{Db}
use usbip_ice.Reservations.{get_device_callback}
use usbip_ice.Access.{execute}
use usbip_ice.Events.{Sender}
use usbip_ice.Events.Sockets.{send_client}

-- `__getReservationClientId`: `none` for `False` and for `None`, which the caller treats alike.
pub reservation_client_id : Bool → Name → Db → Option Name
unfolding execute
reservation_client_id up serial db = elim (execute up (get_device_callback serial) db).0 [
  | none ↦ none
  | some rows ↦ elim rows [ [] ↦ none | client ∷ _ ↦ some client ]
]

module _ {A : Type 0} (emit : ℕ → Bool) where
  -- `sendSerial`: with no client, or an empty identifier, the event is dropped.
  pub send_to : Option Name → A → Sender A → Sender A
  send_to none contents e = e
  send_to (some client) contents e = if client == 0 then e else send_client emit client contents e

  pub send_serial : Bool → Db → Name → A → Sender A → Sender A
  unfolding send_to reservation_client_id
  send_serial up db serial = send_to (reservation_client_id up serial db)

module _ {C A : Type 0} (emit : ℕ → Bool) (dumps : Name → C → Option A) where
  unfoldable pub send_client_json : Name → Name → C → Sender A → Bool × Sender A
  send_client_json serial client_id contents e = elim (dumps serial contents) [
    | none ↦ (false, e)
    | some m ↦ (true, send_client emit client_id m e)
  ]

  pub send_serial_json : Bool → Db → Name → C → Sender A → Bool × Sender A
  unfolding send_serial
  send_serial_json up db serial contents e = elim (dumps serial contents) [
    | none ↦ (false, e)
    | some m ↦ (true, send_serial emit up db serial m e)
  ]

-- `class ControlEventSender`. A failure is only logged.
module _ {C A : Type 0} (emit : ℕ → Bool) (dumps : Name → C → Option A)
    (event_named : String → C) where
  unfoldable pub send_device_reservation_end : Name → Name → Sender A → Sender A
  unfolding send_client_json
  send_device_reservation_end serial client_id e =
      (send_client_json emit dumps serial client_id (event_named "reservation end") e).1

  unfoldable pub send_device_failure : Name → Name → Sender A → Sender A
  unfolding send_client_json
  send_device_failure serial client_id e =
      (send_client_json emit dumps serial client_id (event_named "failure") e).1

  unfoldable pub send_device_reservation_ending_soon : Bool → Db → Name → Sender A → Sender A
  unfolding send_serial_json
  send_device_reservation_ending_soon up db serial e =
      (send_serial_json emit dumps up db serial (event_named "reservation ending soon") e).1

-- `class DeviceEventSender` of src/usbipice/worker/device/DeviceEventSender.py
module _ {C A : Type 0} (emit : ℕ → Bool) (dumps : Name → C → Option A) where
  -- `sendDeviceEvent`; `up` and the tables are those of the worker's database.
  pub send_device_event : Bool → Db → Name → C → Sender A → Bool × Sender A
  unfolding send_serial_json
  send_device_event up db serial contents e =
      let (done, e') = send_serial_json emit dumps up db serial contents e in
      (if done then true else false, e')

  -- `sendDeviceInitialized`, `sendDeviceReservationEnd` and `sendDeviceFailure`
  unfoldable pub send_device_named :
      (String → C) → String → Bool → Db → Name → Sender A → Bool × Sender A
  unfolding send_device_event
  send_device_named event_named name up db serial e =
      send_device_event up db serial (event_named name) e
