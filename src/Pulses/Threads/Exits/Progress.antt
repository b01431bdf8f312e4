-- ===== src/Pulses/Threads/Exits/Progress.antt =====
-- How far `run` and `handleExit` have come.
use usbip_ice.Base.{
  ℕ, ◌+◌, ◌-◌, ◌≤◌, Name, ◌≡◌, refl, true, Option, none, some, List, [], ◌∷◌, arith,
}
use usbip_ice.Pulses.{Pulse, pulses, Reader, wait_until_ready, wait_until_pulse}
use usbip_ice.Pulses.Threads.{
  Phase, awaiting_ready, uploading, awaiting_pulse, recording, System, pick, await_ready,
  await_pulse, record_result, run_step, exit_step, Exit, exits, act, starting, checking, picking,
  stopped, uncalled, joining, joining_reader, closed,
}

-- The steps that `run` still makes once the state is left
abbrev pub remaining : Phase → ℕ
remaining starting = 2
remaining checking = 1
remaining picking = 1
remaining (awaiting_ready b) = 5
remaining (uploading b) = 4
remaining (awaiting_pulse b) = 3
remaining (recording b r) = 2
remaining stopped = 0

abbrev pub remaining_rounds : Exit → Phase → ℕ
remaining_rounds uncalled p = 8
remaining_rounds joining p = remaining p + 2
remaining_rounds joining_reader p = 1
remaining_rounds closed p = 0

-- The board has answered.
pub record IsAnswered (s : System) : Type 0 where
  pub is_ready : s.reader.ready ≡ true
  pub counted : (n : Name) × (s.reader.last_pulse ≡ some (pulses n))

module _ (s : System) (left : s.exiting ≡ true) (r : IsAnswered s) where
  pick-remaining : (l : List Name) → s.phase ≡ picking → (pick l s).phase ≡ stopped
  unfolding pick
  pick-remaining [] e = ground arith
  pick-remaining (b ∷ l) e = ground arith

  pub run_step-remaining :
      (p : Phase) → s.phase ≡ p → remaining (run_step p s).phase ≤ remaining p - 1
  unfolding run_step await_ready wait_until_ready await_pulse wait_until_pulse
  run_step-remaining starting e = ground arith
  run_step-remaining checking e = ground arith
  run_step-remaining picking e = ground (arith, pick-remaining s.evaluator.bitstream_queue e)
  run_step-remaining (awaiting_ready b) e = ground (arith, r.is_ready)
  run_step-remaining (uploading b) e = ground arith
  run_step-remaining (awaiting_pulse b) e = rw (r.counted.1) (omega arith)
  run_step-remaining (recording b none) e = ground arith
  run_step-remaining (recording b (some n)) e = ground arith
  run_step-remaining stopped e = ground (arith, e)

pub run_step-exit :
    (p : Phase) (s : System) → ((run_step p s).exit ≡ s.exit) × ((run_step p s).reading ≡ s.reading)
unfolding run_step pick await_ready await_pulse record_result
run_step-exit starting s = (refl, refl)
run_step-exit checking s = (refl, refl)
run_step-exit picking s = pick-exit s.evaluator.bitstream_queue
  where
    pick-exit : (l : List Name) → ((pick l s).exit ≡ s.exit) × ((pick l s).reading ≡ s.reading)
    pick-exit [] = ground arith
    pick-exit (b ∷ l) = ground arith
run_step-exit (awaiting_ready b) s = ready-exit (wait_until_ready s.reader)
  where
    ready-exit :
        (r : Option Reader)
        → ((await_ready b r s).exit ≡ s.exit) × ((await_ready b r s).reading ≡ s.reading)
    ready-exit none = (refl, refl)
    ready-exit (some r) = (refl, refl)
run_step-exit (uploading b) s = (refl, refl)
run_step-exit (awaiting_pulse b) s = pulse-exit (wait_until_pulse s.reader)
  where
    pulse-exit :
        (r : Option (Pulse × Reader))
        → ((await_pulse b r s).exit ≡ s.exit) × ((await_pulse b r s).reading ≡ s.reading)
    pulse-exit none = ground arith
    pulse-exit (some (p, r)) = (refl, refl)
run_step-exit (recording b none) s = (refl, refl)
run_step-exit (recording b (some p)) s = (refl, refl)
run_step-exit stopped s = (refl, refl)

-- `handleExit` and the reader go on once `run` has returned.
pub exit-joins :
    (s : System)
    → s.exit ≡ joining
    → remaining_rounds (act exits s).exit (act exits s).phase ≤ remaining s.phase + 2
unfolding act exit_step
exit-joins s e = ground arith

pub exit-joins_stopped :
    (s : System)
    → s.exit ≡ joining
    → remaining s.phase ≡ 0
    → remaining_rounds (act exits s).exit (act exits s).phase ≡ 1
unfolding act exit_step
exit-joins_stopped s e z = rw e (ground arith)

pub remaining_bound : (p : Phase) → remaining p ≤ 5
remaining_bound starting = omega arith
remaining_bound checking = omega arith
remaining_bound picking = omega arith
remaining_bound (awaiting_ready b) = omega arith
remaining_bound (uploading b) = omega arith
remaining_bound (awaiting_pulse b) = omega arith
remaining_bound (recording b r) = omega arith
remaining_bound stopped = omega arith
