-- ===== src/Pulses/Threads/Exits.antt =====
-- When `handleExit` returns.
pub mod Blocking
pub mod Progress
pub mod Returning
use usbip_ice.Base.{
  Name, ◌≡◌, refl, Bool, true, false, not, Option, none, some, List, [], ◌∷◌, arith,
}
use usbip_ice.Pulses.{Pulse, Reader, wait_until_pulse, Evaluator}
use usbip_ice.Pulses.Threads.{
  Phase, awaiting_ready, uploading, awaiting_pulse, recording, System, init, pick, await_ready,
  await_pulse, record_result, run_step, exit_step, Exit, Act, request, run, reads, exits, act, acts,
  starting, checking, picking, stopped, uncalled, joining, joining_reader, closed, is_stopped,
}

abbrev pub is_called : Exit → Bool
is_called uncalled = false
is_called _ = true

-- `run` has returned, as `handleExit` knows.
abbrev pub is_joined : Exit → Bool
is_joined joining_reader = true
is_joined closed = true
is_joined _ = false

abbrev pub is_closed : Exit → Bool
is_closed closed = true
is_closed _ = false

abbrev pub is_null : Phase → Bool
is_null (recording b none) = true
is_null _ = false

-- The reader exits only after `run` has returned, so no result is `None`; `run` returns only
-- because of `handleExit`, which returns after the reader.
pub record IsOrdered (s : System) : Type 0 where
  pub called : s.exiting ≡ is_called s.exit
  pub joined : s.reader_exiting ≡ is_joined s.exit
  pub returned : is_joined s.exit ≡ true → is_stopped s.phase ≡ true
  pub goes_on : is_called s.exit ≡ false → is_stopped s.phase ≡ false
  pub reading : is_joined s.exit ≡ false → s.reading ≡ true
  pub read : is_closed s.exit ≡ true → s.reading ≡ false
  pub no_null : is_null s.phase ≡ false
  pub no_nulls : s.nulls ≡ []

init-IsOrdered : IsOrdered init
unfolding init
init-IsOrdered = record {
  called = refl;
  joined = refl;
  returned = λ h. cc;
  goes_on = λ h. refl;
  reading = λ h. refl;
  read = λ h. cc;
  no_null = refl;
  no_nulls = refl;
}

module _ (s : System) (o : IsOrdered s) where
  pick-IsOrdered : (l : List Name) → s.phase ≡ picking → IsOrdered (pick l s)
  unfolding pick
  pick-IsOrdered [] p = grind arith
  pick-IsOrdered (b ∷ l) p = grind arith

  await_ready-IsOrdered :
      (b : Name) (r : Option Reader) → s.phase ≡ awaiting_ready b → IsOrdered (await_ready b r s)
  unfolding await_ready
  await_ready-IsOrdered b none p = o
  await_ready-IsOrdered b (some r) p = grind arith

  await_pulse-IsOrdered :
      (b : Name) (r : Option (Pulse × Reader))
      → s.phase ≡ awaiting_pulse b
      → IsOrdered (await_pulse b r s)
  unfolding await_pulse
  await_pulse-IsOrdered b none p = grind arith
  await_pulse-IsOrdered b (some (n, r)) p = grind arith

  record_result-IsOrdered :
      (b : Name) (r : Option Pulse) → s.phase ≡ recording b r → IsOrdered (record_result b r s)
  unfolding record_result
  record_result-IsOrdered b none p = grind arith
  record_result-IsOrdered b (some n) p = grind arith

  run_step-IsOrdered : (p : Phase) → s.phase ≡ p → IsOrdered (run_step p s)
  unfolding run_step
  run_step-IsOrdered starting e = grind arith
  run_step-IsOrdered checking e = grind arith
  run_step-IsOrdered picking e = pick-IsOrdered s.evaluator.bitstream_queue e
  run_step-IsOrdered (awaiting_ready b) e = await_ready-IsOrdered b _ e
  run_step-IsOrdered (uploading b) e = grind arith
  run_step-IsOrdered (awaiting_pulse b) e = await_pulse-IsOrdered b _ e
  run_step-IsOrdered (recording b r) e = record_result-IsOrdered b r e
  run_step-IsOrdered stopped e = o

  exit_step-IsOrdered : (e : Exit) → s.exit ≡ e → IsOrdered (exit_step e s)
  unfolding exit_step
  exit_step-IsOrdered uncalled e = grind arith
  exit_step-IsOrdered joining e = grind arith
  exit_step-IsOrdered joining_reader e = grind arith
  exit_step-IsOrdered closed e = o

  pub act-IsOrdered : (a : Act) → IsOrdered (act a s)
  unfolding act
  act-IsOrdered (request files) = record {
    called = o.called;
    joined = o.joined;
    returned = o.returned;
    goes_on = o.goes_on;
    reading = o.reading;
    read = o.read;
    no_null = o.no_null;
    no_nulls = o.no_nulls;
  }
  act-IsOrdered run = run_step-IsOrdered s.phase refl
  act-IsOrdered (reads c t w) = grind arith
  act-IsOrdered exits = exit_step-IsOrdered s.exit refl

pub acts-IsOrdered : (l : List Act) (s : System) → IsOrdered s → IsOrdered (acts l s)
acts-IsOrdered [] s o = o
acts-IsOrdered (a ∷ l) s o = acts-IsOrdered l (act a s) (act-IsOrdered s o a)
