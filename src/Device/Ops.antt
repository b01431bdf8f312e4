-- ===== src/Device/Ops.antt =====
-- The operations of src/usbipice/worker/device/Device.py and of the states, as functions on a
-- device.
use usbip_ice.Base.{
  ℕ, zero, suc, Name, Bool, true, false, not, ◌&&◌, Option, none, some, List, [], ◌∷◌, ◌++◌,
  if◌then◌else◌, get_elem?,
}
use usbip_ice.Schema.{DeviceState}
use usbip_ice.Device.{
  Firmware, default_firmware, pulse_firmware, Plain, Kind, Object, DevFile, failure, initialized,
  Device, Upload, uploaded, refused, raised, Env,
}

-- `upload_firmware_path` of utils/dev.py
unfoldable pub upload_firmware_path : Env → Name → Upload
upload_firmware_path env partition =
    if env.mounts partition
    then (if env.is_bootloader partition
        then (if env.copies partition then uploaded else raised)
        else refused)
    else refused

abbrev pub retired : Bool → Option Object → List Object
retired asked none = []
retired asked (some o) = record o { switching = if asked then true else o.switching } ∷ []

-- The current object is replaced; `asked` says that its own `switch` was called.
unfoldable pub retire : Bool → Device → Device
retire asked d = record d { current = none; old = d.old ++ retired asked d.current }

abbrev object : Kind → Bool → Option Object
object kind timer = some (record { kind = kind; switching = false; timer = timer })

unfoldable pub enter_broken : Device → Device
enter_broken d = record d {
  current = object Kind.broken false;
  status = DeviceState.broken;
  events = d.events ++ failure ∷ [];
}

-- `state_factory()` and its `start`, where that does nothing. A PulseCountState that finds no port
-- switches to BrokenState in its constructor and then raises.
unfoldable pub enter_plain : Env → Plain → Device → Device
unfolding enter_broken
enter_plain env Plain.test d = record d {
  current = object (Kind.test false) true;
  status = DeviceState.testing;
}
enter_plain env Plain.ready d = record d {
  current = object Kind.ready false;
  status = DeviceState.available;
}
enter_plain env Plain.broken d = enter_broken d
enter_plain env Plain.pulse_count d =
    if env.has_port
    then record d { current = object Kind.pulse_count false; events = d.events ++ initialized ∷ [] }
    else enter_broken d

-- `AbstractState.switch` of the current object `o`
unfoldable pub state_switch : Env → Plain → Object → Device → Device
unfolding retire enter_plain
state_switch env next o d =
    if o.switching
    then record d { current = some o }
    else enter_plain env next (retire true (record d { current = some o }))

abbrev pub cancel : Object → Object
cancel o = record o { timer = false }

-- The constructor of the next state raises.
abbrev pub raises : Env → Plain → Bool
raises env Plain.pulse_count = not env.has_port
raises env _ = false

-- `FlashState.handleAdd` for a partition; `true` is an exception.
unfoldable pub flash_partition : Env → Plain → Upload → Object → Device → Device × Bool
unfolding state_switch
flash_partition env next uploaded o d =
    (state_switch env next (cancel o) d, raises env next && not o.switching)
flash_partition env next refused o d = (state_switch env Plain.broken (cancel o) d, false)
flash_partition env next raised o d = (d, true)

unfoldable pub flash_add : Env → Plain → Option Name → DevFile → Object → Device → Device × Bool
unfolding flash_partition upload_firmware_path
flash_add env next none dev o d = (d, false)
flash_add env next (some devname) dev o d =
    if dev.is_tty
    then (record d { signals = d.signals ++ devname ∷ [] }, false)
    else if dev.is_partition
    then flash_partition env next (upload_firmware_path env devname) o d
    else (d, false)

-- `TestState.handleAdd`
unfoldable pub test_add : Env → Bool → Option Name → Object → Device → Device
unfolding state_switch
test_add env exiting none o d = d
test_add env true (some path) o d = d
test_add env false (some path) o d =
    let tried = record o { kind = Kind.test true } in
    if env.runs_default path
    then state_switch env Plain.ready (cancel tried) d
    else record d { current = some tried }

unfoldable pub object_add : Env → Kind → DevFile → Object → Device → Device × Bool
unfolding flash_add test_add
object_add env (Kind.flash firmware next) dev o d = flash_add env next dev.devname dev o d
object_add env (Kind.test exiting) dev o d = (test_add env exiting dev.devname o d, false)
object_add env _ dev o d = (d, false)

unfoldable pub current_add : Env → DevFile → Option Object → Device → Device × Bool
unfolding object_add
current_add env dev none d = (d, false)
current_add env dev (some o) d = object_add env o.kind dev o d

-- `handleDeviceEvent("add", dev)`
unfoldable pub handle_add : Env → DevFile → Device → Device × Bool
unfolding current_add
handle_add env dev d = current_add env dev d.current d

abbrev pub is_flashing : Option Object → Bool
is_flashing none = false
is_flashing (some o) = elim o.kind [ Kind.flash _ _ ↦ true | _ ↦ false ]

-- `FlashState.start`: the files are added until one of them makes the state switch, or raises.
unfoldable pub scan : Env → List DevFile → Device → Device
unfolding handle_add
scan env [] d = d
scan env (file ∷ files) d =
    let (d', failed) = handle_add env file d in
    let rest = scan env files d' in
    if is_flashing d.current then (if failed then d' else rest) else d

-- Whether `FlashState.start` raises
pub scan_raises : Env → List DevFile → Device → Bool
unfolding handle_add
scan_raises env [] d = false
scan_raises env (file ∷ files) d =
    let (d', failed) = handle_add env file d in
    let rest = scan_raises env files d' in
    if is_flashing d.current then (if failed then true else rest) else false

abbrev pub flashing : Firmware → Plain → Bool → Device → Device
flashing firmware next timeout d = record d { current = object (Kind.flash firmware next) timeout }

unfoldable pub enter_flash : Env → Firmware → Plain → Bool → Device → Device
unfolding scan
enter_flash env firmware next timeout d = scan env env.devs (flashing firmware next timeout d)

-- `handleUnreserve`, and the constructor: `__flashDefault`
unfoldable pub flash_default : Env → Device → Device
unfolding enter_flash retire
flash_default env d =
    enter_flash env default_firmware Plain.test true
      (retire false (record d { status = DeviceState.flashing_default }))

-- Whether it raises; the device is then as `flash_default` leaves it.
unfoldable pub flash_default_raises : Env → Device → Bool
unfolding scan_raises retire
flash_default_raises env d = scan_raises env env.devs (
    flashing default_firmware Plain.test true
      (retire false (record d { status = DeviceState.flashing_default })))

-- `handleReserve("pulsecount", …)`: PulseCountStateFlasher switches to FlashState as it starts.
unfoldable pub reserve_pulse_count : Env → Device → Device
unfolding enter_flash retire
reserve_pulse_count env d =
    enter_flash env pulse_firmware Plain.pulse_count false
      (retire true (record (retire false d) { current = object Kind.pulse_flasher false }))

unfoldable pub reserve_raises : Env → Device → Bool
unfolding scan_raises retire
reserve_raises env d = scan_raises env env.devs (
    flashing pulse_firmware Plain.pulse_count false
      (retire true (record (retire false d) { current = object Kind.pulse_flasher false })))

unfoldable pub fire_state : Env → Option Object → Device → Device
unfolding state_switch
fire_state env none d = d
fire_state env (some o) d = if o.timer then state_switch env Plain.broken (cancel o) d else d

-- The running timer of the current object fires: it switches to BrokenState.
unfoldable pub fire_current : Env → Device → Device
unfolding fire_state
fire_current env d = fire_state env d.current d

-- The running timer of a replaced object fires. Its `switch` is ignored only if that object has
-- itself switched before; otherwise the device's current state is replaced.
pub fire_object : Object → Device → Device
unfolding enter_broken retire
fire_object o d = if o.timer then (if o.switching then d else enter_broken (retire false d)) else d

abbrev pub silence : ℕ → List Object → List Object
silence n [] = []
silence zero (o ∷ os) =
    record o { timer = false; switching = if o.timer then true else o.switching } ∷ os
silence (suc n) (o ∷ os) = o ∷ silence n os

unfoldable pub fire_found : Option Object → Device → Device
unfolding fire_object
fire_found none d = d
fire_found (some o) d = fire_object o d

unfoldable pub fire_old : ℕ → Device → Device
unfolding fire_found
fire_old n d = fire_found (get_elem? d.old n) (record d { old = silence n d.old })
