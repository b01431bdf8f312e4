-- ===== src/Flasher.antt =====
-- `class FirmwareFlasher` of src/usbipice/utils/FirmwareFlasher.py. The observer's thread looks a
-- device up and then exports the file to the object that it found, so that the main thread may act
-- in between: an export names an object by the order in which the objects were made.
pub mod Reports
use usbip_ice.Base.{
  ℕ, zero, suc, Name, Bool, true, false, not, Option, none, some, List, [], ◌∷◌, ◌++◌, ◌==◌,
  if◌then◌else◌, contains, is_empty, length, get_elem?, set,
}
use usbip_ice.Base.Dict.{Dict, lookup, has_key, insert, erase, keys}
use usbip_ice.Device.{DevFile, Upload}
use usbip_ice.Device.Manager.{Props, Action, add, get_serial}

-- `class Device`
pub record Device : Type 0 where
  pub serial : Name
  pub firmware_path : Name
  pub upload_finished : Bool

-- `devices` has every object that was made; `remaining_serials` has their places in it.
-- `bootloader_signals` are the paths given to `send_bootloader`.
pub record FirmwareFlasher : Type 0 where
  pub remaining_serials : Dict ℕ
  pub failed_serials : List Name
  pub devices : List Device
  pub bootloader_signals : List Name

-- What a step tells: `markDone` was called for a serial and went through, `markFailed` or
-- `markDone` raised a KeyError, or the wait returned the failed serials.
pub data Report : Type 0 where
  nothing raised : Report
  done : Name → Report
  returned : List Name → Report

-- `handleDone`: a KeyError, here `none`, where the serial is not in the queue
pub handle_done : Name → FirmwareFlasher → Option FirmwareFlasher
handle_done serial f =
    if has_key serial f.remaining_serials
    then some (record f { remaining_serials = erase serial f.remaining_serials })
    else none

-- `handleFailed`; a popped object is always true.
pub handle_failed : Name → FirmwareFlasher → Option FirmwareFlasher
handle_failed serial f =
    if has_key serial f.remaining_serials
    then some (record f {
      remaining_serials = erase serial f.remaining_serials;
      failed_serials = f.failed_serials ++ serial ∷ [];
    })
    else none

-- `markDone` and `markFailed`
pub mark_done : Name → FirmwareFlasher → FirmwareFlasher × Report
unfolding handle_done
mark_done serial f = elim (handle_done serial f) [
  | none ↦ (f, Report.raised)
  | some f' ↦ (f', done serial)
]

pub mark_failed : Name → FirmwareFlasher → FirmwareFlasher × Report
unfolding handle_failed
mark_failed serial f = elim (handle_failed serial f) [
  | none ↦ (f, Report.raised)
  | some f' ↦ (f', nothing)
]

pub tty_export : Name → Device → FirmwareFlasher → FirmwareFlasher × Report
unfolding mark_done
tty_export path d f =
    if d.upload_finished
    then mark_done d.serial f
    else (record f { bootloader_signals = f.bootloader_signals ++ path ∷ [] }, nothing)

-- The result of the upload: an upload that returns False counts as finished.
pub part_export : Upload → ℕ → Device → FirmwareFlasher → FirmwareFlasher × Report
unfolding mark_failed
part_export Upload.raised n d f = mark_failed d.serial f
part_export _ n d f =
    (record f { devices = set f.devices n (record d { upload_finished = true }) }, nothing)

pub other_export : Device → FirmwareFlasher → FirmwareFlasher × Report
unfolding mark_done
other_export d f = if d.upload_finished then mark_done d.serial f else (f, nothing)

-- `__handle_event` up to the lookup: the object and the path
pub find_device : Action → Props → FirmwareFlasher → Option (ℕ × Name)
find_device add dev f = elim (get_serial dev) [
  | none ↦ none
  | some serial ↦ elim dev.file.devname [
    | none ↦ none
    | some path ↦ elim (lookup serial f.remaining_serials) [ none ↦ none | some n ↦ some (n, path) ]
  ]
]
find_device _ dev f = none

-- `__handle_event` from there on
pub export_file : Upload → DevFile → Name → ℕ → Device → FirmwareFlasher → FirmwareFlasher × Report
unfolding tty_export part_export other_export
export_file outcome file path n d f =
    if file.is_tty
    then tty_export path d f
    else if file.is_partition
    then part_export outcome n d f
    else other_export d f

pub export_found :
    Upload → DevFile → Name → ℕ → Option Device → FirmwareFlasher → FirmwareFlasher × Report
unfolding export_file
export_found outcome file path n none f = (f, nothing)
export_found outcome file path n (some d) f = export_file outcome file path n d f

-- The first loop of `flash`
pub add_devices : List Name → Name → FirmwareFlasher → FirmwareFlasher
add_devices [] path f = f
add_devices (serial ∷ serials) path f = add_devices serials path (record f {
  remaining_serials = insert serial (length f.devices) f.remaining_serials;
  devices =
      f.devices ++ record { serial = serial; firmware_path = path; upload_finished = false } ∷ [];
})

-- The files of the devices to flash, in the order of `get_devs()`
abbrev pub files_of : List Name → Dict (List DevFile) → List DevFile
files_of serials [] = []
files_of serials ((serial, files) ∷ info) =
    if contains serial serials then files ++ files_of serials info else files_of serials info

abbrev pub named : Option Name → List Name
named none = []
named (some path) = path ∷ []

-- The last loop of `flash`: the first file that is not a tty ends it.
pub signal_all : List DevFile → FirmwareFlasher → FirmwareFlasher
signal_all [] f = f
signal_all (file ∷ files) f =
    if file.is_tty
    then signal_all files
        (record f { bootloader_signals = f.bootloader_signals ++ named file.devname })
    else f

pub flash : List Name → Name → Dict (List DevFile) → FirmwareFlasher → FirmwareFlasher
unfolding add_devices signal_all
flash serials path info f = signal_all (files_of serials info) (add_devices serials path f)

-- `ontimeout` of `waitUntilFlashingFinished`, and `stopFlasher`
pub fail_remaining : FirmwareFlasher → FirmwareFlasher
fail_remaining f = record f {
  failed_serials = f.failed_serials ++ keys f.remaining_serials;
  remaining_serials = [];
}

-- `waitUntilFlashingFinished`: `none` while it waits
pub wait_until_finished : FirmwareFlasher → Option (List Name × FirmwareFlasher)
wait_until_finished f =
    if is_empty f.remaining_serials
    then some (f.failed_serials, record f { failed_serials = [] })
    else none

-- `__handle_event` where nothing happens between its lookup and the rest
pub handle_found : Upload → DevFile → Option (ℕ × Name) → FirmwareFlasher → FirmwareFlasher × Report
unfolding export_found
handle_found outcome file none f = (f, nothing)
handle_found outcome file (some (n, path)) f =
    export_found outcome file path n (get_elem? f.devices n) f

unfoldable pub handle_event : Upload → Action → Props → FirmwareFlasher → FirmwareFlasher × Report
unfolding find_device handle_found
handle_event outcome action dev f = handle_found outcome dev.file (find_device action dev f) f

pub data Act : Type 0 where
  flash_all : List Name → Name → Dict (List DevFile) → Act
  event : Upload → Action → Props → Act
  export : Upload → DevFile → Name → ℕ → Act
  time_out wait : Act

abbrev pub answer :
    Option (List Name × FirmwareFlasher) → FirmwareFlasher → FirmwareFlasher × Report
answer none f = (f, nothing)
answer (some (failed, f')) f = (f', returned failed)

unfoldable pub act : Act → FirmwareFlasher → FirmwareFlasher × Report
unfolding flash handle_event export_found fail_remaining wait_until_finished
act (flash_all serials path info) f = (flash serials path info f, nothing)
act (event outcome action dev) f = handle_event outcome action dev f
act (export outcome file path n) f = export_found outcome file path n (get_elem? f.devices n) f
act time_out f = (fail_remaining f, nothing)
act wait f = answer (wait_until_finished f) f

abbrev pub run : List Act → FirmwareFlasher → FirmwareFlasher
run [] f = f
run (a ∷ acts) f = run acts (act a f).0

abbrev pub reports : List Act → FirmwareFlasher → List Report
reports [] f = []
reports (a ∷ acts) f = (act a f).1 ∷ reports acts (act a f).0
