-- ===== src/Pulses.antt =====
-- The evaluation of bitstreams: `queue`, `run` and the reader of `class PulseCountState` in
-- src/usbipice/worker/device/state/reservable/PulseCountState.py. Bitstreams are known by name.
pub mod Results
pub mod Upload
pub mod Threads
use usbip_ice.Base.{
  ℕ, zero, suc, Name, Bool, true, false, ◌||◌, Option, none, some, List, [], ◌∷◌, ◌++◌, map, ◌==◌,
  if◌then◌else◌, is_empty,
}
use usbip_ice.Base.Dict.{Dict, insert}

-- What `waitUntilPulse` returns: the text of a number, or `False` after a watchdog timeout.
pub data Pulse : Type 0 where
  pulses : Name → Pulse
  timeout : Pulse

-- `sent` holds the results handed to the sender, the latest last.
pub record Evaluator : Type 0 where
  pub bitstream_queue : List Name
  pub results : Dict Name
  pub sent : List (Dict Name)

-- `queue`
unfoldable pub queue : List Name → Evaluator → Evaluator
queue files e = record e { bitstream_queue = e.bitstream_queue ++ files }

-- `list.pop`, the last element and the others
abbrev pub pop : Name → List Name → Name × List Name
pop b [] = (b, [])
pop b (c ∷ l) = let (last, rest) = pop c l in (last, b ∷ rest)

-- The results go out when the queue is empty, and start anew whether or not they were sent.
unfoldable pub finish : Evaluator → Evaluator
finish e =
    if is_empty e.bitstream_queue
    then record e { results = []; sent = e.sent ++ e.results ∷ [] }
    else e

-- What follows the pulse of a bitstream that was taken from the queue
unfoldable pub record_pulse : Name → Pulse → Evaluator → Evaluator
unfolding finish
record_pulse bitstream timeout e = record e {
  bitstream_queue = e.bitstream_queue ++ bitstream ∷ [];
}
record_pulse bitstream (pulses n) e = finish (record e { results = insert bitstream n e.results })

-- A turn of the loop of `run`; with an empty queue it waits.
unfoldable pub evaluate : Pulse → List Name → Evaluator → Evaluator
unfolding record_pulse
evaluate pulse [] e = e
evaluate pulse (b ∷ l) e =
    let (bitstream, rest) = pop b l in
    record_pulse bitstream pulse (record e { bitstream_queue = rest })

-- What the state does: a request queues files, or the loop makes a turn.
pub data Act : Type 0 where
  request : List Name → Act
  turn : Pulse → Act

unfoldable pub act : Act → Evaluator → Evaluator
unfolding queue evaluate
act (request files) e = queue files e
act (turn pulse) e = evaluate pulse e.bitstream_queue e

abbrev pub run : List Act → Evaluator → Evaluator
run [] e = e
run (a ∷ acts) e = run acts (act a e)

-- `Reader`: whether the board waits for a bitstream, and the last pulse that nobody has taken.
pub record Reader : Type 0 where
  pub ready : Bool
  pub last_pulse : Option Pulse

-- A turn of `Reader.read` on data: the number in "pulses: …", "Watchdog timeout", and "Waiting for
-- bitstream transfer".
pub read : Option Name → Bool → Bool → Reader → Reader
read counted timed_out waits r = record {
  ready = if waits then true else r.ready;
  last_pulse =
      if timed_out
      then some timeout
      else elim counted [ none ↦ r.last_pulse | some n ↦ some (pulses n) ];
}

-- `waitUntilReady` and `waitUntilPulse`, where they need not wait
unfoldable pub wait_until_ready : Reader → Option Reader
wait_until_ready r = if r.ready then some (record r { ready = false }) else none

pub wait_until_pulse : Reader → Option (Pulse × Reader)
wait_until_pulse r = elim r.last_pulse [
  | none ↦ none
  | some p ↦ some (p, record r { last_pulse = none })
]
