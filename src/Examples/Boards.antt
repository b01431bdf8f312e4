-- ===== src/Examples/Boards.antt =====
-- Devices of a worker, and the files that appear for them.
use usbip_ice.Base.{
  Name, ◌≡◌, refl, true, false, ◌||◌, none, some, List, [], ◌∷◌, length, contains, arith,
}
use usbip_ice.Schema.{DeviceState}
use usbip_ice.Device.{Kind, Object, DevFile, Device, Env}
use usbip_ice.Device.Ops.{flash_default, fire_old}
use usbip_ice.Device.Reports.{Step, Reports, device_steps, device_steps-Reports}
use usbip_ice.Device.Timers.{handle_adds, stale_timer-breaks}
use usbip_ice.Device.Manager.{Props, get_serial, Manager, Action, handle_dev_event}
use usbip_ice.Device.Manager.Routing.{Routes, handle_dev_event-Routes}
use usbip_ice.Pulses
use usbip_ice.Pulses.Threads
use usbip_ice.Pulses.Threads.{acts}
use usbip_ice.Pulses.Threads.Keeps.{is_held, requested, acts-hold}
use usbip_ice.Pulses.Threads.Exits.Blocking.{awaits, silent-blocks}
use usbip_ice.Pulses.Threads.Exits.Returning.{rounds, answered-returns}
use usbip_ice.Examples.Tables.{tables}

-- No file is there yet; an upload succeeds, and the default firmware answers.
abbrev pub env : Env
env = record {
  devs = [];
  mounts = λ p. true;
  is_bootloader = λ p. true;
  copies = λ p. true;
  runs_default = λ p. true;
  has_port = true;
}

abbrev part : DevFile
part = record { devname = some 3; is_tty = false; is_partition = true }

abbrev port : DevFile
port = record { devname = some 4; is_tty = true; is_partition = false }

-- A device under test, whose timer runs.
abbrev tested : Object
tested = record { kind = Kind.test false; switching = false; timer = true }

abbrev board : Device
board = record {
  current = some tested;
  old = [];
  status = DeviceState.testing;
  events = [];
  signals = [];
}

abbrev pub props : Props
props = record {
  devname = some "/dev/ttyACM0";
  id_vendor_id = some "2e8a";
  id_model = some "Pico";
  id_serial_short = some 7;
  file = port;
}

abbrev pub manager : Manager
manager = record { worker_name = 1; devs = (7, board) ∷ []; exiting = false; db = tables }

props-get_serial : get_serial props ≡ some 7
unfolding get_serial
props-get_serial = refl

device_steps-Reports_example :
    Reports
      (device_steps (Step.unreserved env ∷ Step.added env part ∷ Step.old_timed_out 0 ∷ []) board)
device_steps-Reports_example =
    device_steps-Reports (Step.unreserved env ∷ Step.added env part ∷ Step.old_timed_out 0 ∷ [])
      board refl

stale_timer-breaks_example :
    let d' =
      fire_old
        (length board.old)
        (handle_adds ((env, part) ∷ (env, port) ∷ []) (flash_default env board)) in
    (d'.current ≡ some (record { kind = Kind.broken; switching = false; timer = false }))
    × (d'.status ≡ DeviceState.broken)
stale_timer-breaks_example =
    stale_timer-breaks env board tested ((env, part) ∷ (env, port) ∷ []) refl refl refl

handle_dev_event-Routes_example :
    Routes true env Action.add props 7 manager (handle_dev_event true env Action.add props manager)
handle_dev_event-Routes_example =
    handle_dev_event-Routes true env Action.add props 7 manager refl refl props-get_serial

-- A file is requested, and `run` takes it and waits for the board, which is not ready again.
abbrev uploading : List Threads.Act
uploading =
    Threads.Act.request (5 ∷ [])
    ∷ Threads.Act.run
    ∷ Threads.Act.run
    ∷ Threads.Act.run
    ∷ Threads.Act.run
    ∷ Threads.Act.run
    ∷ []

acts-hold_example :
    is_held 5 (acts uploading Threads.init)
    ≡ (is_held 5 Threads.init || contains 5 (requested uploading))
acts-hold_example = acts-hold uploading Threads.init 5

abbrev nothing_read : List Threads.Act
nothing_read =
    Threads.Act.reads none false false ∷ Threads.Act.run ∷ Threads.Act.exits ∷ Threads.Act.run ∷ []

uploading-exit : (acts uploading Threads.init).exit ≡ Threads.Exit.uncalled
unfolding Threads.init Threads.act Pulses.queue Pulses.wait_until_ready
uploading-exit = refl

uploading-awaits :
    awaits (acts uploading Threads.init).reader (acts uploading Threads.init).phase ≡ true
unfolding Threads.init Threads.act Pulses.queue Pulses.wait_until_ready
uploading-awaits = refl

silent-blocks_example :
    (acts nothing_read (Threads.act Threads.Act.exits (acts uploading Threads.init))).exit
    ≡ Threads.Exit.joining
silent-blocks_example = silent-blocks uploading nothing_read uploading-exit uploading-awaits refl

abbrev counts : List Name
counts = 1 ∷ 2 ∷ 3 ∷ 4 ∷ 5 ∷ 6 ∷ 7 ∷ []

answered-returns_example :
    let s = acts (rounds counts) (Threads.act Threads.Act.exits (acts uploading Threads.init)) in
    (s.exit ≡ Threads.Exit.closed)
    × (s.phase ≡ Threads.Phase.stopped)
    × (s.reading ≡ false)
    × (s.nulls ≡ [])
answered-returns_example = answered-returns uploading counts uploading-exit (omega arith)
