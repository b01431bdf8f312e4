-- ===== src/Device/Manager.antt =====
-- `class DeviceManager` of src/usbipice/worker/device/DeviceManager.py, `get_serial` of
-- src/usbipice/utils/dev.py, and `handleReserve` of src/usbipice/worker/device/Device.py with
-- src/usbipice/worker/device/state/reservable/utils.py. The thread of an event runs at once.
pub mod Routing
use text.Mathlib.Text.{starts_with}
use usbip_ice.Base.{
  ℕ, Name, Bool, true, false, not, ◌&&◌, ◌||◌, Option, none, some, List, [], ◌∷◌, String, str_eq,
  ◌==◌, if◌then◌else◌,
}
use usbip_ice.Base.Dict.{Dict, lookup, insert}
use usbip_ice.Schema.{DeviceState, Db}
use usbip_ice.Access.WorkerDatabase
use usbip_ice.Device.{DevFile, Device, Env}
use usbip_ice.Requests.{Members}
use usbip_ice.Device.Ops.{
  handle_add, flash_default, flash_default_raises, reserve_pulse_count, reserve_raises,
}

-- The properties of a device file that the worker reads.
pub record Props : Type 0 where
  pub devname : Option String
  pub id_vendor_id : Option String
  pub id_model : Option String
  pub id_serial_short : Option Name
  pub file : DevFile

abbrev pub one_of : List String → Option String → Bool
one_of l none = false
one_of [] (some s) = false
one_of (x ∷ l) (some s) = if str_eq s x then true else one_of l (some s)

-- A path under /dev that is not under /dev/bus
abbrev is_dev_file : String → Bool
is_dev_file devname = starts_with devname "/dev/" && not (starts_with devname "/dev/bus/")

abbrev truthy : Option Name → Option Name
truthy none = none
truthy (some s) = if s == 0 then none else some s

-- `none` is `False`.
unfoldable pub get_serial : Props → Option Name
get_serial dev = elim dev.devname [
  | none ↦ none
  | some devname ↦
      if is_dev_file devname && one_of ("RP2350" ∷ "pico-ice" ∷ "Pico" ∷ []) dev.id_model
      then truthy dev.id_serial_short
      else none
]

pub record Manager : Type 0 where
  pub worker_name : Name
  pub devs : Dict Device
  pub exiting : Bool
  pub db : Db

pub data Action : Type 0 where
  add remove other : Action

-- `Device.__init__`: no state yet, and then the default firmware
unfoldable pub new_device : Env → Device
new_device env = flash_default env (record {
  current = none;
  old = [];
  status = DeviceState.await_flash_default;
  events = [];
  signals = [];
})

-- Its `FlashState.start` raises.
unfoldable pub new_device_raises : Env → Bool
new_device_raises env = flash_default_raises env (record {
  current = none;
  old = [];
  status = DeviceState.await_flash_default;
  events = [];
  signals = [];
})

-- `Device.handleDeviceEvent`; `handleRemove` does nothing in these states.
pub handle_device_event : Env → Action → DevFile → Device → Device
handle_device_event env add dev d = (handle_add env dev d).0
handle_device_event env _ dev d = d

-- The device of the serial. If it is not known it is added to the database and made; `none` where
-- its constructor raises, and then it is not stored.
pub find_or_add : Bool → Env → Name → Option Device → Manager → Option Device × Manager
find_or_add up env serial (some d) m = (some d, m)
find_or_add up env serial none m =
    let m' = record m { db = (WorkerDatabase.add_device up m.worker_name serial m.db).1 } in
    if new_device_raises env
    then (none, m')
    else (some (new_device env), record m' { devs = insert serial (new_device env) m.devs })

abbrev pub put_device : Name → Device → Manager → Manager
put_device serial d m = record m { devs = insert serial d m.devs }

-- The thread of the event, if there is a device for it; `true` is an exception.
pub started : Env → Action → DevFile → Name → Option Device × Manager → Manager × Bool
unfolding handle_device_event
started env action file serial (none, m) = (m, true)
started env action file serial (some d, m) =
    (put_device serial (handle_device_event env action file d) m, false)

pub route : Bool → Env → Action → DevFile → Option Name → Manager → Manager × Bool
unfolding find_or_add started
route up env action file none m = (m, false)
route up env action file (some serial) m =
    started env action file serial (find_or_add up env serial (lookup serial m.devs) m)

-- `handleDevEvent`; `true` is an exception.
unfoldable pub handle_dev_event : Bool → Env → Action → Props → Manager → Manager × Bool
unfolding route
handle_dev_event up env action dev m =
    if m.exiting
    then (m, false)
    else if one_of ("2e8a" ∷ "1209" ∷ []) dev.id_vendor_id
    then route up env action dev.file (get_serial dev) m
    else (m, false)

-- `scan`, given the devices that udev lists; an exception ends it.
unfoldable pub scan : Bool → Env → List Props → Manager → Manager × Bool
unfolding handle_dev_event
scan up env [] m = (m, false)
scan up env (dev ∷ devs) m =
    let (m', raised) = handle_dev_event up env add dev m in
    let rest = scan up env devs m' in if raised then (m', true) else rest

-- The result of a request to a device. UsbipState's constructor calls `getEventSender`, which a
-- state does not have, and raises.
pub data Reply : Type 0 where
  done failed raised : Reply

-- `Device.handleReserve`, with the constructors that `@reservable` registers: neither has keys, so
-- `make_state_fac` takes nothing from `args`.
unfoldable pub handle_reserve : Env → String → Members → Device → Reply × Device
handle_reserve env kind args d =
    if str_eq kind "pulsecount"
    then (if reserve_raises env d then raised else done, reserve_pulse_count env d)
    else if str_eq kind "usbip"
    then (raised, d)
    else (failed, d)

pub reserve_at : Env → Name → String → Members → Option Device → Manager → Reply × Manager
reserve_at env serial kind args none m = (failed, m)
reserve_at env serial kind args (some d) m =
    let (reply, d') = handle_reserve env kind args d in (reply, put_device serial d' m)

-- `reserve`
unfoldable pub reserve : Env → Name → String → Members → Manager → Reply × Manager
unfolding reserve_at
reserve env serial kind args m = reserve_at env serial kind args (lookup serial m.devs) m

-- `Device.handleUnreserve` may raise too.
pub unreserve_at : Env → Name → Option Device → Manager → Reply × Manager
unreserve_at env serial none m = (failed, m)
unreserve_at env serial (some d) m =
    (if flash_default_raises env d then raised else done, put_device serial (flash_default env d) m)

-- `unreserve`
unfoldable pub unreserve : Env → Name → Manager → Reply × Manager
unfolding unreserve_at
unreserve env serial m = unreserve_at env serial (lookup serial m.devs) m

-- `onExit`; `handleExit` does nothing in these states.
pub on_exit : Bool → Manager → Manager
unfolding WorkerDatabase.on_exit
on_exit up m = record m { db = WorkerDatabase.on_exit up m.worker_name m.db }
