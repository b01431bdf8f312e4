-- ===== src/Device/Reports.antt =====
-- The status in the database follows the state of the device.
use usbip_ice.Base.{
  get_elem?, ℕ, Name, ◌≡◌, refl, Bool, true, false, Option, none, some, List, [], ◌∷◌, Bool-cases,
  inl, inr,
}
use usbip_ice.Schema.{DeviceState}
use usbip_ice.Device.{Plain, Kind, Object, DevFile, Device, Upload, uploaded, refused, raised, Env}
use usbip_ice.Device.Ops.{
  upload_firmware_path, enter_broken, enter_plain, state_switch, cancel, flash_partition, flash_add,
  test_add, object_add, current_add, handle_add, is_flashing, scan, enter_flash, flash_default,
  reserve_pulse_count, fire_current, fire_state, fire_found, fire_old,
}

abbrev pub KindReports : Kind → DeviceState → Type 0
KindReports (Kind.test _) s = s ≡ DeviceState.testing
KindReports Kind.ready s = s ≡ DeviceState.available
KindReports Kind.broken s = s ≡ DeviceState.broken
KindReports _ s = Unit

abbrev pub ObjectReports : Option Object → DeviceState → Type 0
ObjectReports none s = Unit
ObjectReports (some o) s = KindReports o.kind s

-- Under test, ready and broken devices are reported as testing, available and broken.
abbrev pub Reports : Device → Type 0
Reports d = ObjectReports d.current d.status

enter_plain-Reports : (env : Env) (p : Plain) (d : Device) → Reports (enter_plain env p d)
unfolding enter_plain
enter_plain-Reports env Plain.test d = refl
enter_plain-Reports env Plain.ready d = refl
enter_plain-Reports env Plain.broken d = refl
enter_plain-Reports env Plain.pulse_count d = elim (Bool-cases env.has_port) [
  | inl e ↦ rw e tt
  | inr e ↦ rw e refl
]

state_switch-Reports :
    (env : Env) (p : Plain) (o : Object) (d : Device)
    → KindReports o.kind d.status
    → Reports (state_switch env p o d)
unfolding state_switch
state_switch-Reports env p o d h = elim (Bool-cases o.switching) [
  | inl e ↦ rw e h
  | inr e ↦ rw e (enter_plain-Reports env p _)
]

flash_partition-Reports :
    (env : Env) (next : Plain) (u : Upload) (o : Object) (d : Device)
    → KindReports o.kind d.status
    → Reports d
    → Reports (flash_partition env next u o d).0
unfolding flash_partition
flash_partition-Reports env next uploaded o d h r = state_switch-Reports env next (cancel o) d h
flash_partition-Reports env next refused o d h r =
    state_switch-Reports env Plain.broken (cancel o) d h
flash_partition-Reports env next raised o d h r = r

flash_add-Reports :
    (env : Env) (next : Plain) (path : Option Name) (dev : DevFile) (o : Object) (d : Device)
    → KindReports o.kind d.status
    → Reports d
    → Reports (flash_add env next path dev o d).0
unfolding flash_add
flash_add-Reports env next none dev o d h r = r
flash_add-Reports env next (some path) dev o d h r = elim (Bool-cases dev.is_tty) [
  | inl e ↦ rw e r
  | inr e ↦ elim (Bool-cases dev.is_partition) [
    | inl f ↦ rw (e, f) (flash_partition-Reports env next (upload_firmware_path env path) o d h r)
    | inr f ↦ rw (e, f) r
  ]
]

test_add-Reports :
    (env : Env) (exiting : Bool) (path : Option Name) (o : Object) (d : Device)
    → d.status ≡ DeviceState.testing
    → Reports d
    → Reports (test_add env exiting path o d)
unfolding test_add
test_add-Reports env exiting none o d h r = r
test_add-Reports env true (some path) o d h r = r
test_add-Reports env false (some path) o d h r = elim (Bool-cases (env.runs_default path)) [
  | inl e ↦
      rw e (state_switch-Reports env Plain.ready (cancel (record o { kind = Kind.test true })) d h)
  | inr e ↦ rw e h
]

object_add-Reports :
    (env : Env) (k : Kind) (dev : DevFile) (o : Object) (d : Device)
    → o.kind ≡ k
    → KindReports k d.status
    → Reports d
    → Reports (object_add env k dev o d).0
unfolding object_add
object_add-Reports env (Kind.flash firmware next) dev o d e h r =
    flash_add-Reports env next dev.devname dev o d (rw e h) r
object_add-Reports env (Kind.test exiting) dev o d e h r =
    test_add-Reports env exiting dev.devname o d h r
object_add-Reports env _ dev o d e h r = r

current_add-Reports :
    (env : Env) (dev : DevFile) (c : Option Object) (d : Device)
    → ObjectReports c d.status
    → Reports d
    → Reports (current_add env dev c d).0
unfolding current_add
current_add-Reports env dev none d h r = r
current_add-Reports env dev (some o) d h r = object_add-Reports env o.kind dev o d refl h r

handle_add-Reports :
    (env : Env) (dev : DevFile) (d : Device) → Reports d → Reports (handle_add env dev d).0
unfolding handle_add
handle_add-Reports env dev d r = current_add-Reports env dev d.current d r r

scan-Reports :
    (env : Env) (files : List DevFile) (d : Device) → Reports d → Reports (scan env files d)
unfolding scan
scan-Reports env [] d r = r
scan-Reports env (file ∷ files) d r =
    let next = handle_add-Reports env file d r in
    elim (Bool-cases (is_flashing d.current)) [
      | inr e ↦ rw e r
      | inl e ↦ elim (Bool-cases (handle_add env file d).1) [
        | inl f ↦ rw (e, f) next
        | inr f ↦ rw (e, f) (scan-Reports env files (handle_add env file d).0 next)
      ]
    ]

flash_default-Reports : (env : Env) (d : Device) → Reports (flash_default env d)
unfolding flash_default enter_flash
flash_default-Reports env d = scan-Reports env env.devs _ tt

reserve_pulse_count-Reports : (env : Env) (d : Device) → Reports (reserve_pulse_count env d)
unfolding reserve_pulse_count enter_flash
reserve_pulse_count-Reports env d = scan-Reports env env.devs _ tt

fire_state-Reports :
    (env : Env) (c : Option Object) (d : Device)
    → ObjectReports c d.status
    → Reports d
    → Reports (fire_state env c d)
unfolding fire_state
fire_state-Reports env none d h r = r
fire_state-Reports env (some o) d h r = elim (Bool-cases o.timer) [
  | inl e ↦ rw e (state_switch-Reports env Plain.broken (cancel o) d h)
  | inr e ↦ rw e r
]

fire_found-Reports : (c : Option Object) (d : Device) → Reports d → Reports (fire_found c d)
unfolding fire_found enter_broken
fire_found-Reports none d r = r
fire_found-Reports (some o) d r = elim (Bool-cases o.timer) [
  | inr e ↦ rw e r
  | inl e ↦ elim (Bool-cases o.switching) [ inl f ↦ rw (e, f) r | inr f ↦ rw (e, f) refl ]
]

-- What can happen to a device.
pub data Step : Type 0 where
  added : Env → DevFile → Step
  unreserved reserved timed_out : Env → Step
  old_timed_out : ℕ → Step

pub device_step : Step → Device → Device
device_step (added env dev) d = (handle_add env dev d).0
device_step (unreserved env) d = flash_default env d
device_step (reserved env) d = reserve_pulse_count env d
device_step (timed_out env) d = fire_current env d
device_step (old_timed_out n) d = fire_old n d

abbrev pub device_steps : List Step → Device → Device
device_steps [] d = d
device_steps (s ∷ ss) d = device_steps ss (device_step s d)

device_step-Reports : (s : Step) (d : Device) → Reports d → Reports (device_step s d)
unfolding device_step fire_current fire_old
device_step-Reports (added env dev) d r = handle_add-Reports env dev d r
device_step-Reports (unreserved env) d r = flash_default-Reports env d
device_step-Reports (reserved env) d r = reserve_pulse_count-Reports env d
device_step-Reports (timed_out env) d r = fire_state-Reports env d.current d r r
device_step-Reports (old_timed_out n) d r = fire_found-Reports (get_elem? d.old n) _ r

-- Whatever device files appear, reservations begin or end, and timers fire, in whatever order, a
-- device that is being tested, ready or broken has last been reported to the database as testing,
-- available or broken.
pub device_steps-Reports : (ss : List Step) (d : Device) → Reports d → Reports (device_steps ss d)
device_steps-Reports [] d r = r
device_steps-Reports (s ∷ ss) d r =
    device_steps-Reports ss (device_step s d) (device_step-Reports s d r)
