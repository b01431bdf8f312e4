-- ===== src/Usbip.antt =====
-- The client's watch over usbip connections: `DeviceStatus` and `UsbipHandler` of
-- src/usbipice/client/drivers/usbip/UsbipHandler.py. Times count in one unit, and a step reads the
-- clock once. `info` is the result of `usbip_port`, the buses that are attached of each address.
pub mod Polls
pub mod Unbinds
use usbip_ice.Base.{
  ℕ, Name, ◌+◌, Bool, true, false, ◌&&◌, Option, none, some, List, [], ◌∷◌, ◌++◌, map, ltb, ◌==◌,
  if◌then◌else◌, contains,
}
use usbip_ice.Base.Dict.{Dict, lookup, has_key, insert, erase}
use usbip_ice.Device.Manager.{Props, Action, add, get_serial}

pub record DeviceStatus : Type 0 where
  pub ip : Name
  pub bus : Name
  pub last_event : ℕ
  pub timeout : ℕ
  pub delay : ℕ
  pub timed_out : Bool

abbrev pub max : ℕ → ℕ → ℕ
max a b = if ltb a b then b else a

abbrev pub update_bus : Name → ℕ → DeviceStatus → DeviceStatus
update_bus bus now d = record d { bus = bus; last_event = max now d.last_event }

abbrev pub device_event : ℕ → DeviceStatus → DeviceStatus
device_event now d = record d { last_event = max now d.last_event }

-- `self.ip in info` and `self.bus in info[self.ip]`
abbrev pub is_attached : Dict (List Name) → DeviceStatus → Bool
is_attached info d = elim (lookup d.ip info) [ none ↦ false | some buses ↦ contains d.bus buses ]

pub check_timeout : ℕ → Dict (List Name) → DeviceStatus → DeviceStatus
check_timeout now info d =
    let last = if is_attached info d then now else d.last_event in
    record d { last_event = last; timed_out = ltb (last + d.timeout) now }

pub had_timeout : ℕ → DeviceStatus → Bool × DeviceStatus
had_timeout now d =
    (d.timed_out, if d.timed_out then record d { last_event = now + d.delay } else d)

-- `polling` is false once the polling thread has returned; `timeout` is given to each new status.
pub record UsbipHandler : Type 0 where
  pub devices : Dict DeviceStatus
  pub timeout : ℕ
  pub polling : Bool

abbrev pub put : Name → DeviceStatus → UsbipHandler → UsbipHandler
put serial d h = record h { devices = insert serial d h.devices }

-- The part of `__handleDevEvent` that has found the serial, and its status if there is one
abbrev pub event_of : ℕ → Name → Option DeviceStatus → UsbipHandler → UsbipHandler
event_of now serial none h = h
event_of now serial (some d) h = put serial (device_event now d) h

abbrev pub event_named : ℕ → Option Name → UsbipHandler → UsbipHandler
event_named now none h = h
event_named now (some serial) h = event_of now serial (lookup serial h.devices) h

-- `__handleDevEvent`
unfoldable pub handle_dev_event : ℕ → Action → Props → UsbipHandler → UsbipHandler
handle_dev_event now add dev h = event_named now (get_serial dev) h
handle_dev_event now _ dev h = h

-- The first loop of `__pollUsbipPort`
pub check_all : ℕ → Dict (List Name) → Dict DeviceStatus → Dict DeviceStatus
unfolding check_timeout
check_all now info [] = []
check_all now info ((serial, d) ∷ l) = (serial, check_timeout now info d) ∷ check_all now info l

-- The body of its second loop: whether the device is unbound, and its status
pub trigger : ℕ → DeviceStatus → Bool × DeviceStatus
unfolding had_timeout
trigger now d =
    let (timed_out, d') = had_timeout now d in
    (timed_out, if timed_out then device_event now d' else d')

-- The second loop: the statuses, and the serials given to `api.unbind`
pub trigger_all : ℕ → Dict DeviceStatus → Dict DeviceStatus × List Name
unfolding trigger
trigger_all now [] = ([], [])
trigger_all now ((serial, d) ∷ l) =
    let (unbound, d') = trigger now d in
    let (l', serials) = trigger_all now l in
    ((serial, d') ∷ l', if unbound then serial ∷ serials else serials)

-- A round of `__pollUsbipPort`: where `usbip port` fails the thread returns.
pub poll_usbip_port : ℕ → Option (Dict (List Name)) → UsbipHandler → UsbipHandler × List Name
unfolding check_all trigger_all
poll_usbip_port now none h = (record h { polling = false }, [])
poll_usbip_port now (some info) h =
    let (devices, serials) = trigger_all now (check_all now info h.devices) in
    (record h { devices = devices }, serials)

abbrev pub new_status : Name → Name → ℕ → ℕ → DeviceStatus
new_status server_ip busid now timeout = record {
  ip = server_ip;
  bus = busid;
  last_event = now;
  timeout = timeout;
  delay = 15;
  timed_out = false;
}

-- `export`; the result of `usbip_attach` is only logged.
abbrev pub export_of : ℕ → Name → Name → Name → Option DeviceStatus → UsbipHandler → UsbipHandler
export_of now serial busid server_ip none h =
    put serial (new_status server_ip busid now h.timeout) h
export_of now serial busid server_ip (some d) h = put serial (update_bus busid now d) h

pub export : ℕ → Name → Name → Name → UsbipHandler → UsbipHandler
export now serial busid server_ip h =
    export_of now serial busid server_ip (lookup serial h.devices) h

-- `handleReservationEnd` and `handleFailure`: `__removeDevice`
pub remove_device : Name → UsbipHandler → UsbipHandler
remove_device serial h = record h { devices = erase serial h.devices }

pub data Event : Type 0 where
  dev_event : Action → Props → Event
  poll : Option (Dict (List Name)) → Event
  exported : Name → Name → Name → Event
  removed : Name → Event

-- A stopped thread polls no more.
abbrev pub poll_if : Bool → ℕ → Option (Dict (List Name)) → UsbipHandler → UsbipHandler × List Name
poll_if true now info h = poll_usbip_port now info h
poll_if false now info h = (h, [])

-- What an event does at a time, and the unbinds that it asks for.
unfoldable pub step : ℕ → Event → UsbipHandler → UsbipHandler × List Name
unfolding handle_dev_event poll_usbip_port export remove_device
step now (dev_event action dev) h = (handle_dev_event now action dev h, [])
step now (poll info) h = poll_if h.polling now info h
step now (exported serial busid server_ip) h = (export now serial busid server_ip h, [])
step now (removed serial) h = (remove_device serial h, [])

-- The times at which the device is unbound
abbrev pub unbind_times : Name → List (ℕ × Event) → UsbipHandler → List ℕ
unbind_times serial [] h = []
unbind_times serial ((now, e) ∷ events) h =
    let rest = unbind_times serial events (step now e h).0 in
    if contains serial (step now e h).1 then now ∷ rest else rest
