-- ===== src/Pulses/Threads.antt =====
-- The threads of `class PulseCountState` in
-- src/usbipice/worker/device/state/reservable/PulseCountState.py: `run`, `Reader.read` and the
-- caller of `handleExit`. A thread that is blocked leaves the state as it is.
pub mod Exits
pub mod Keeps
pub mod Turns
use usbip_ice.Base.{Name, Bool, true, false, Option, none, some, List, [], ◌∷◌, ◌++◌, if◌then◌else◌}
use usbip_ice.Pulses.{
  Pulse, Evaluator, queue, pop, finish, record_pulse, Reader, read, wait_until_ready,
  wait_until_pulse,
}

-- Where `run` is: it sleeps, tests its loop's condition, waits for a bitstream, waits for the
-- board, uploads, waits for the pulse, has its result (`none` is `None`), or has returned.
pub data Phase : Type 0 where
  starting checking picking : Phase
  awaiting_ready uploading awaiting_pulse : Name → Phase
  recording : Name → Option Pulse → Phase
  stopped : Phase

-- Where `handleExit` is: it has not been called, joins the thread of `run`, joins the thread of the
-- reader, or has returned.
pub data Exit : Type 0 where
  uncalled joining joining_reader closed : Exit

-- `nulls` has the names with the result `None`, which `results` leaves out; `reading` says that the
-- reader's thread runs.
pub record System : Type 0 where
  pub phase : Phase
  pub exit : Exit
  pub exiting : Bool
  pub evaluator : Evaluator
  pub nulls : List Name
  pub reader : Reader
  pub reader_exiting : Bool
  pub reading : Bool

-- The constructor, for a device with a port
unfoldable pub init : System
init = record {
  phase = starting;
  exit = uncalled;
  exiting = false;
  evaluator = record { bitstream_queue = []; results = []; sent = [] };
  nulls = [];
  reader = record { ready = true; last_pulse = none };
  reader_exiting = false;
  reading = true;
}

-- With the condition variable: waits for a bitstream or the exit, and takes the last bitstream.
pub pick : List Name → System → System
pick [] s = if s.exiting then record s { phase = stopped } else s
pick (b ∷ l) s =
    let (bitstream, rest) = pop b l in
    if s.exiting then record s { phase = stopped } else record s {
      phase = awaiting_ready bitstream;
      evaluator = record s.evaluator { bitstream_queue = rest };
    }

-- `waitUntilReady` and `waitUntilPulse`: the latter also ends when the reader exits.
pub await_ready : Name → Option Reader → System → System
await_ready b none s = s
await_ready b (some r) s = record s { phase = uploading b; reader = r }

pub await_pulse : Name → Option (Pulse × Reader) → System → System
await_pulse b none s = if s.reader_exiting then record s { phase = recording b none } else s
await_pulse b (some (p, r)) s = record s { phase = recording b (some p); reader = r }

pub record_result : Name → Option Pulse → System → System
record_result b none s = record s {
  phase = checking;
  nulls = s.nulls ++ b ∷ [];
  evaluator = finish s.evaluator;
}
record_result b (some p) s = record s { phase = checking; evaluator = record_pulse b p s.evaluator }

-- A step of `run`
pub run_step : Phase → System → System
unfolding pick await_ready await_pulse record_result
run_step starting s = record s { phase = checking }
run_step checking s = record s { phase = if s.exiting then stopped else picking }
run_step picking s = pick s.evaluator.bitstream_queue s
run_step (awaiting_ready b) s = await_ready b (wait_until_ready s.reader) s
run_step (uploading b) s = record s { phase = awaiting_pulse b }
run_step (awaiting_pulse b) s = await_pulse b (wait_until_pulse s.reader) s
run_step (recording b result) s = record_result b result s
run_step stopped s = s

abbrev is_stopped : Phase → Bool
is_stopped stopped = true
is_stopped _ = false

-- A step of `handleExit`, with `Reader.exit`
pub exit_step : Exit → System → System
exit_step uncalled s = record s { exit = joining; exiting = true }
exit_step joining s =
    if is_stopped s.phase then record s { exit = joining_reader; reader_exiting = true } else s
exit_step joining_reader s = if s.reading then s else record s { exit = closed }
exit_step closed s = s

-- What the threads do: a request queues files, or `run`, the reader or `handleExit` makes a step.
-- The reader's step has what `read` finds in the data.
pub data Act : Type 0 where
  request : List Name → Act
  run : Act
  reads : Option Name → Bool → Bool → Act
  exits : Act

unfoldable pub act : Act → System → System
unfolding run_step exit_step
act (request files) s = record s { evaluator = queue files s.evaluator }
act run s = run_step s.phase s
act (reads counted timed_out waits) s =
    if s.reading
    then (if s.reader_exiting
        then record s { reading = false }
        else record s { reader = read counted timed_out waits s.reader })
    else s
act exits s = exit_step s.exit s

abbrev pub acts : List Act → System → System
acts [] s = s
acts (a ∷ l) s = acts l (act a s)
