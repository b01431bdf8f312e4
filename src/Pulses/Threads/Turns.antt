-- ===== src/Pulses/Threads/Turns.antt =====
-- The threads do what the turns of `usbip_ice.Pulses` say.
use mathlib.Core.Path.{subst}
use usbip_ice.Base.{
  Name, ◌≡◌, refl, sym, Bool, true, false, not, ◌&&◌, none, some, List, [], ◌∷◌, ◌++◌, arith,
  is_empty,
}
use usbip_ice.Pulses
use usbip_ice.Pulses.{
  Pulse, pulses, timeout, Evaluator, queue, pop, record_pulse, evaluate, turn, Reader, read,
  wait_until_ready, wait_until_pulse,
}
use usbip_ice.Pulses.Threads.{System, Act, request, run, reads, act, acts, checking}

-- The reader finds the pulse in the data.
abbrev pub reads_pulse : Pulse → Act
reads_pulse (pulses n) = reads (some n) false false
reads_pulse timeout = reads none true false

-- A turn of the loop, in which the board answers: `run` tests its condition and takes a bitstream,
-- the board waits for it, `run` uploads it, the pulse comes, and `run` takes it and records it.
abbrev pub turn_acts : Pulse → List Act
turn_acts p = run ∷ run ∷ reads none false true ∷ run ∷ run ∷ reads_pulse p ∷ run ∷ run ∷ []

abbrev pub thread_acts : List Pulses.Act → List Act
thread_acts [] = []
thread_acts (Pulses.Act.request files ∷ l) = request files ∷ thread_acts l
thread_acts (turn p ∷ l) = turn_acts p ++ thread_acts l

-- A bitstream is queued at each turn.
abbrev pub is_busy : List Pulses.Act → Evaluator → Bool
is_busy [] e = true
is_busy (Pulses.Act.request files ∷ l) e = is_busy l (Pulses.act (Pulses.Act.request files) e)
is_busy (turn p ∷ l) e = not (is_empty e.bitstream_queue) && is_busy l (Pulses.act (turn p) e)

-- `run` is about to test its condition, nobody leaves the state, and no pulse is left to take.
pub record AwaitsTurn (s : System) : Type 0 where
  pub loops : s.phase ≡ checking
  pub stays : s.exiting ≡ false
  pub reader_stays : s.reader_exiting ≡ false
  pub reading : s.reading ≡ true
  pub no_pulse : s.reader.last_pulse ≡ none

-- The state with these parts, in which the loop goes on and no pulse is left
abbrev pub looping : Evaluator → Bool → System → System
looping e ready s = record s {
  phase = checking;
  exiting = false;
  evaluator = e;
  reader = record { ready = ready; last_pulse = none };
  reader_exiting = false;
  reading = true;
}

AwaitsTurn-looping : (s : System) → AwaitsTurn s → s ≡ looping s.evaluator s.reader.ready s
AwaitsTurn-looping s w = λ i. record s {
  phase = w.loops i;
  exiting = w.stays i;
  reader = record s.reader { last_pulse = w.no_pulse i };
  reader_exiting = w.reader_stays i;
  reading = w.reading i;
}

looping-AwaitsTurn : (e : Evaluator) (ready : Bool) (s : System) → AwaitsTurn (looping e ready s)
looping-AwaitsTurn e ready s = record {
  loops = refl;
  stays = refl;
  reader_stays = refl;
  reading = refl;
  no_pulse = refl;
}

abbrev with_queue : List Name → Evaluator → Evaluator
with_queue l e = record e { bitstream_queue = l }

-- One turn
turn_acts-queue :
    (p : Pulse) (b : Name) (l : List Name) (e : Evaluator) (ready : Bool) (s : System)
    → acts (turn_acts p) (looping (with_queue (b ∷ l) e) ready s)
      ≡ looping (evaluate p (b ∷ l) (with_queue (b ∷ l) e)) false s
unfolding act read wait_until_ready wait_until_pulse evaluate
turn_acts-queue (pulses n) b l e ready s = refl
turn_acts-queue timeout b l e ready s = refl

acts-append : (l m : List Act) (s : System) → acts (l ++ m) s ≡ acts m (acts l s)
acts-append [] m s = refl
acts-append (a ∷ l) m s = acts-append l m (act a s)

turn_acts-evaluates :
    (p : Pulse) (e : Evaluator) (ready : Bool) (s : System)
    → not (is_empty e.bitstream_queue) ≡ true
    → acts (turn_acts p) (looping e ready s) ≡ looping (Pulses.act (turn p) e) false s
unfolding Pulses.act
turn_acts-evaluates p e ready s h = at_queue e.bitstream_queue h
  where
    at_queue :
        (q : List Name)
        → not (is_empty q) ≡ true
        → acts (turn_acts p) (looping (with_queue q e) ready s)
          ≡ looping (evaluate p q (with_queue q e)) false s
    at_queue [] h = cc
    at_queue (b ∷ l) h = turn_acts-queue p b l e ready s

request-queues :
    (files : List Name) (e : Evaluator) (ready : Bool) (s : System)
    → act (request files) (looping e ready s)
      ≡ looping (Pulses.act (Pulses.Act.request files) e) ready s
unfolding act Pulses.act
request-queues files e ready s = refl

-- What the threads do in these turns
abbrev Runs : List Pulses.Act → Evaluator → System → Type 0
Runs l e s = (s.evaluator ≡ Pulses.run l e) × AwaitsTurn s

looping-Runs :
    (l : List Pulses.Act) (e : Evaluator) (ready : Bool) (s : System)
    → is_busy l e ≡ true
    → Runs l e (acts (thread_acts l) (looping e ready s))
looping-Runs [] e ready s h = (refl, looping-AwaitsTurn e ready s)
looping-Runs (Pulses.Act.request files ∷ l) e ready s h =
    let e' = Pulses.act (Pulses.Act.request files) e in
    subst (λ t. Runs l e' (acts (thread_acts l) t)) (sym (request-queues files e ready s))
      (looping-Runs l e' ready s h)
looping-Runs (turn p ∷ l) e ready s h =
    let e' = Pulses.act (turn p) e in
    subst (λ t. Runs l e' t) (sym (acts-append (turn_acts p) (thread_acts l) (looping e ready s)))
      (subst (λ t. Runs l e' (acts (thread_acts l) t))
        (sym (turn_acts-evaluates p e ready s (ground arith)))
        (looping-Runs l e' false s (ground arith)))

-- The threads implement the turns: from a state that nobody leaves, in which `run` is about to test
-- its condition and no pulse is left to take, let there be requests and turns, where at each turn a
-- bitstream is queued, the board waits for it and then answers with the turn's pulse or timeout.
-- Then the queue, the results and what was sent are those of the turns taken as single steps, and
-- `run` is about to test its condition again, with no pulse left.
thread_acts-run :
    (l : List Pulses.Act) (s : System)
    → AwaitsTurn s
    → is_busy l s.evaluator ≡ true
    → let s' = acts (thread_acts l) s in (s'.evaluator ≡ Pulses.run l s.evaluator) × AwaitsTurn s'
thread_acts-run l s w h =
    subst (λ t. Runs l s.evaluator (acts (thread_acts l) t)) (sym (AwaitsTurn-looping s w))
      (looping-Runs l s.evaluator s.reader.ready s h)
