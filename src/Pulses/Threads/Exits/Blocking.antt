-- ===== src/Pulses/Threads/Exits/Blocking.antt =====
-- A board that does not answer while the state is left.
use usbip_ice.Base.{
  Name, ◌≡◌, refl, Bool, true, false, not, Option, none, some, List, [], ◌∷◌, arith,
}
use usbip_ice.Pulses.{Pulse, Reader, read, wait_until_ready, wait_until_pulse}
use usbip_ice.Pulses.Threads.{
  Phase, awaiting_ready, uploading, awaiting_pulse, recording, System, init, await_ready,
  await_pulse, run_step, exit_step, Act, request, run, reads, exits, act, acts, starting, checking,
  picking, stopped, uncalled, joining,
}
use usbip_ice.Pulses.Threads.Exits.{IsOrdered, init-IsOrdered, acts-IsOrdered}

abbrev is_none : Option Pulse → Bool
is_none none = true
is_none (some p) = false

-- `run` is blocked until the board answers.
abbrev pub awaits : Reader → Phase → Bool
awaits r (awaiting_ready b) = not r.ready
awaits r (awaiting_pulse b) = is_none r.last_pulse
awaits r _ = false

-- The reader finds nothing in the data.
abbrev pub is_silent : List Act → Bool
is_silent [] = true
is_silent (reads none false false ∷ l) = is_silent l
is_silent (reads _ _ _ ∷ l) = false
is_silent (_ ∷ l) = is_silent l

record IsBlocked (s : System) : Type 0 where
  awaiting : awaits s.reader s.phase ≡ true
  joins : s.exit ≡ joining
  stays : s.reader_exiting ≡ false

module _ (s : System) (h : IsBlocked s) where
  run_step-IsBlocked : (p : Phase) → s.phase ≡ p → IsBlocked (run_step p s)
  unfolding run_step await_ready wait_until_ready await_pulse wait_until_pulse
  run_step-IsBlocked starting e = ground (arith, e)
  run_step-IsBlocked checking e = ground (arith, e)
  run_step-IsBlocked picking e = absurd (ground (arith, e))
  run_step-IsBlocked (awaiting_ready b) e = ground (arith, e)
  run_step-IsBlocked (uploading b) e = ground (arith, e)
  run_step-IsBlocked (awaiting_pulse b) e = ground (arith, e)
  run_step-IsBlocked (recording b r) e = absurd (ground (arith, e))
  run_step-IsBlocked stopped e = ground (arith, e)

  exits-IsBlocked : IsBlocked (act exits s)
  unfolding act exit_step
  exits-IsBlocked = ground arith

  reads-IsBlocked : IsBlocked (act (reads none false false) s)
  unfolding act read
  reads-IsBlocked = ground arith

  request-IsBlocked : (files : List Name) → IsBlocked (act (request files) s)
  unfolding act
  request-IsBlocked files = record { awaiting = h.awaiting; joins = h.joins; stays = h.stays }

  run-IsBlocked : IsBlocked (act run s)
  unfolding act
  run-IsBlocked = run_step-IsBlocked s.phase refl

acts-IsBlocked :
    (l : List Act) (s : System) → IsBlocked s → is_silent l ≡ true → IsBlocked (acts l s)
acts-IsBlocked [] s h q = h
acts-IsBlocked (request files ∷ l) s h q =
    acts-IsBlocked l (act (request files) s) (request-IsBlocked s h files) q
acts-IsBlocked (run ∷ l) s h q = acts-IsBlocked l (act run s) (run-IsBlocked s h) q
acts-IsBlocked (reads none false false ∷ l) s h q =
    acts-IsBlocked l (act (reads none false false) s) (reads-IsBlocked s h) q
acts-IsBlocked (reads none false true ∷ l) s h q = cc
acts-IsBlocked (reads none true w ∷ l) s h q = cc
acts-IsBlocked (reads (some c) t w ∷ l) s h q = cc
acts-IsBlocked (exits ∷ l) s h q = acts-IsBlocked l (act exits s) (exits-IsBlocked s h) q

called-IsBlocked :
    (s : System)
    → IsOrdered s
    → s.exit ≡ uncalled
    → awaits s.reader s.phase ≡ true
    → IsBlocked (act exits s)
unfolding act exit_step
called-IsBlocked s o e w = ground arith

-- Leaving the state waits for the board: if `handleExit` is called, after anything the threads have
-- done since the constructor, while `run` waits for a board that is not ready or for a pulse that
-- has not come, and from then on the reader finds nothing in the data, then `handleExit` has not
-- returned, whatever else the threads do: it is joining the thread of `run`.
pub silent-blocks :
    (before after : List Act)
    → (acts before init).exit ≡ uncalled
    → awaits (acts before init).reader (acts before init).phase ≡ true
    → is_silent after ≡ true
    → (acts after (act exits (acts before init))).exit ≡ joining
silent-blocks before after e w q =
    (acts-IsBlocked after (act exits (acts before init))
      (called-IsBlocked (acts before init) (acts-IsOrdered before init init-IsOrdered) e w) q).joins
