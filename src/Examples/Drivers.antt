-- ===== src/Examples/Drivers.antt =====
-- The flasher and the client's drivers.
use usbip_ice.Base.{
  ◌+◌, ℕ, Name, ◌≡◌, refl, true, false, ◌||◌, some, List, [], ◌∷◌, arith, contains,
}
use usbip_ice.Base.Dict.{Dict, lookup}
use usbip_ice.Device.{DevFile, Upload}
use usbip_ice.Flasher
use usbip_ice.Flasher.{
  FirmwareFlasher, flash_all, time_out, wait, fail_remaining, wait_until_finished, run, reports,
}
use usbip_ice.Flasher.Reports.{is_known, is_reported, is_flashed, new, run-accounts}
use usbip_ice.Usbip.{
  DeviceStatus, UsbipHandler, Event, poll, exported, poll_usbip_port, unbind_times,
}
use usbip_ice.Files.{usbip_port}
use usbip_ice.Files.Groups.{matched, poll-unbinds}
use usbip_ice.Usbip.Unbinds.{IsOrdered, AreSpaced, unbinds-AreSpaced}
use usbip_ice.Usbip.Unbinds
use usbip_ice.Evaluation.{PulseCountClient, start, has_finished, values}
use usbip_ice.Client.Waiting.{all_in}
use usbip_ice.Pulses.{act, request}
use usbip_ice.Evaluation.Boards.{measure, idle, over, evaluate-measures}
use usbip_ice.Evaluation.Answers.{add_results, answered, add_results-finishes}

abbrev partition : DevFile
partition = record { devname = some 5; is_tty = false; is_partition = true }

-- Two boards are flashed; the first one's upload fails, and then the wait times out.
abbrev acts : List Flasher.Act
acts =
    flash_all (7 ∷ 8 ∷ []) 3 [] ∷ Flasher.export Upload.raised partition 5 0 ∷ time_out ∷ wait ∷ []

run-accounts_example :
    (is_known 8 (run acts new) || is_reported 8 (reports acts new)) ≡ is_flashed 8 acts
run-accounts_example = run-accounts acts 8

abbrev device_status : DeviceStatus
device_status = record {
  ip = 2;
  bus = 4;
  last_event = 100;
  timeout = 15;
  delay = 15;
  timed_out = false;
}

abbrev handler : UsbipHandler
handler = record { devices = (7, device_status) ∷ []; timeout = 15; polling = true }

poll-unbinds_example :
    contains 7 (poll_usbip_port 120 (usbip_port (matched ((2, 3) ∷ []))) handler).1 ≡ true
poll-unbinds_example = poll-unbinds 120 ((2, 3) ∷ []) handler 7 (refl, tt)

abbrev events : List (ℕ × Event)
events =
    (100, exported 7 4 2)
    ∷ (116, poll (some []))
    ∷ (120, poll (some []))
    ∷ (150, poll (some []))
    ∷ []

unbinds-AreSpaced_example : AreSpaced 15 100 (unbind_times 7 events (Unbinds.new 15))
unbinds-AreSpaced_example =
    unbinds-AreSpaced 15 100 events 7 (omega arith, (omega arith, (omega arith, (omega arith, tt))))

abbrev client : PulseCountClient Name
client = record { results = []; uuid_map = []; remaining_serials = [] }

abbrev files : List (Name × Name)
files = (11, 21) ∷ (12, 22) ∷ []

abbrev answers : List (Name × Dict Name)
answers = (7, (12, 50) ∷ (11, 40) ∷ []) ∷ (9, []) ∷ []

add_results-finishes_example :
    has_finished (add_results answers (start (7 ∷ 8 ∷ []) files client))
    ≡ all_in (7 ∷ 8 ∷ []) (answered answers)
add_results-finishes_example =
    add_results-finishes (7 ∷ 8 ∷ []) files answers client (refl, (refl, tt))

-- The board counts 29 more than the identifier, after a timeout.
abbrev count : Name → Name
count k = k + 29

evaluate-measures_example :
    (d r : Dict Name) × (measure count
        (false ∷ true ∷ true ∷ [])
        (act (request (11 ∷ 12 ∷ [])) idle)
      ≡ over d)
    × (lookup 7 (values (add_results ((7, d) ∷ (9, []) ∷ []) (start (7 ∷ 8 ∷ []) files client)))
        ≡ some r)
    × (lookup 23 r ≡ some 41)
evaluate-measures_example =
    evaluate-measures count (false ∷ true ∷ true ∷ []) (7 ∷ 8 ∷ []) (11, 21) ((12, 22) ∷ []) 7 12 22
      [] ((9, []) ∷ []) client (refl, (refl, tt)) (refl, (refl, tt)) (omega arith) refl refl
