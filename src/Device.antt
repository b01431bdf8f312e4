-- ===== src/Device.antt =====
-- A device of a worker and its states: src/usbipice/worker/device/Device.py, and
-- src/usbipice/worker/device/state (core and reservable). An object of a state is its kind, its
-- `_switching` flag, and whether its timer runs. `old` holds the objects that were replaced.
pub mod Ops
pub mod Reservable
pub mod Manager
pub mod Reports
pub mod Timers
use usbip_ice.Base.{ℕ, Name, Bool, true, false, Option, none, some, List, [], ◌∷◌, ◌++◌, String}
use usbip_ice.Schema.{DeviceState}

pub data Firmware : Type 0 where
  default_firmware pulse_firmware : Firmware

-- The states whose `start` does nothing.
pub data Plain : Type 0 where
  test ready broken pulse_count : Plain

pub data Kind : Type 0 where
  flash : Firmware → Plain → Kind
  test : Bool → Kind
  ready broken pulse_flasher pulse_count : Kind

pub record Object : Type 0 where
  pub kind : Kind
  pub switching : Bool
  pub timer : Bool

-- A device file: DEVNAME, `SUBSYSTEM == "tty"`, `DEVTYPE == "partition"`.
pub record DevFile : Type 0 where
  pub devname : Option Name
  pub is_tty : Bool
  pub is_partition : Bool

pub data Event : Type 0 where
  failure initialized : Event

-- What a device has told the database and its client, and the ports that it sent the bootloader
-- signal to.
pub record Device : Type 0 where
  pub current : Option Object
  pub old : List Object
  pub status : DeviceState
  pub events : List Event
  pub signals : List Name

-- What `upload_firmware_path` does: it returns True, returns False, or raises FirmwareUploadFail.
pub data Upload : Type 0 where
  uploaded refused raised : Upload

-- The world at one step: the files of `get_devs().get(serial)`, the outcomes of the upload's
-- commands, `check_default`, and whether a port with interface number 00 is found.
pub record Env : Type 0 where
  pub devs : List DevFile
  pub mounts : Name → Bool
  pub is_bootloader : Name → Bool
  pub copies : Name → Bool
  pub runs_default : Name → Bool
  pub has_port : Bool
