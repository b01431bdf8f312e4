-- ===== src/Pulses/Threads/Exits/Returning.antt =====
-- A board that answers while the state is left.
use usbip_ice.Base.{
  ℕ, ◌+◌, ◌-◌, ◌≤◌, Name, ◌≡◌, refl, ap, ◌∙◌, true, false, some, List, [], ◌∷◌, ◌++◌, arith, length,
}
use usbip_ice.Pulses.{read}
use usbip_ice.Pulses.Threads.{
  Phase, awaiting_ready, uploading, awaiting_pulse, recording, System, init, run_step, exit_step,
  Exit, Act, run, reads, exits, act, acts, starting, checking, picking, stopped, uncalled, joining,
  joining_reader, closed, is_stopped,
}
use usbip_ice.Pulses.Threads.Exits.{
  IsOrdered, init-IsOrdered, acts-IsOrdered, act-IsOrdered, is_called, is_joined, is_closed,
}
use usbip_ice.Pulses.Threads.Exits.Progress.{
  remaining, remaining_rounds, IsAnswered, run_step-remaining, run_step-exit, exit-joins,
  exit-joins_stopped, remaining_bound,
}

-- The reader finds a count and that the board waits for the next bitstream, and then `run` and
-- `handleExit` make a step.
abbrev pub round : Name → List Act
round n = reads (some n) false true ∷ run ∷ exits ∷ []

abbrev pub rounds : List Name → List Act
rounds [] = []
rounds (n ∷ counts) = round n ++ rounds counts

abbrev rounds_left : System → ℕ
rounds_left s = remaining_rounds s.exit s.phase

answer : Name → System → System
answer n s = act (reads (some n) false true) s

answered :
    (n : Name) (s : System)
    → IsOrdered s
    → s.exit ≡ joining
    → ((answer n s).phase ≡ s.phase) × ((answer n s).exit ≡ joining) × IsAnswered (answer n s)
unfolding answer act read
answered n s o e =
    let reads_on = o.reading (rw e refl) in
    let stays = o.joined in
    rw (reads_on, stays, e) (refl, refl, record { is_ready = refl; counted = (n, refl) })

-- Before `run` has returned
joining-round :
    (n : Name) (s : System)
    → IsOrdered s
    → s.exit ≡ joining
    → rounds_left (acts (round n) s) ≤ remaining s.phase + 1
unfolding answer act
joining-round n s o e =
    let s' = answer n s in
    let o' : IsOrdered s' = act-IsOrdered s o (reads (some n) false true) in
    let (same, e', r) = answered n s o e in
    let less = run_step-remaining s' (ground (arith, o'.called, e')) r s'.phase refl in
    let (joined, _) = run_step-exit s'.phase s' in
    ground (
      arith,
      less,
      joined,
      same,
      e',
      exit-joins (run_step s'.phase s'),
      exit-joins_stopped (run_step s'.phase s'),
    )

-- Once it has, the reader sees that it is to exit.
reads-ends :
    (n : Name) (s : System)
    → IsOrdered s
    → s.exit ≡ joining_reader
    → ((answer n s).exit ≡ joining_reader) × ((answer n s).reading ≡ false)
unfolding answer act
reads-ends n s o e = ground (arith, o.joined, e)

exit-closes :
    (s : System) → s.exit ≡ joining_reader → s.reading ≡ false → rounds_left (act exits s) ≡ 0
unfolding act exit_step
exit-closes s e r = rw (e, r) refl

joined-round :
    (n : Name) (s : System)
    → IsOrdered s
    → s.exit ≡ joining_reader
    → rounds_left (acts (round n) s) ≡ 0
unfolding answer act
joined-round n s o e =
    let s' = answer n s in
    let (e', r) = reads-ends n s o e in
    let (joined, reads_not) = run_step-exit s'.phase s' in
    exit-closes (run_step s'.phase s') (joined ∙ e') (reads_not ∙ r)

reads-exit : (n : Name) (s : System) → (answer n s).exit ≡ s.exit
unfolding answer act
reads-exit n s = ground arith

exit-stays : (s : System) → s.exit ≡ closed → rounds_left (act exits s) ≡ 0
unfolding act exit_step
exit-stays s e = ground (arith, e)

closed-round : (n : Name) (s : System) → s.exit ≡ closed → rounds_left (acts (round n) s) ≡ 0
unfolding answer act
closed-round n s e =
    let s' = answer n s in
    exit-stays (run_step s'.phase s') ((run_step-exit s'.phase s').0 ∙ reads-exit n s ∙ e)

exit_step-is_called :
    (e : Exit) (s : System)
    → s.exit ≡ e
    → is_called s.exit ≡ true
    → is_called (exit_step e s).exit ≡ true
unfolding exit_step
exit_step-is_called uncalled s e c = refl
exit_step-is_called joining s e c = ground arith
exit_step-is_called joining_reader s e c = ground arith
exit_step-is_called closed s e c = c

is_called-round :
    (n : Name) (s : System) → is_called s.exit ≡ true → is_called (acts (round n) s).exit ≡ true
unfolding answer act
is_called-round n s c =
    let s' = answer n s in
    let e = (run_step-exit s'.phase s').0 ∙ reads-exit n s in
    let s'' = run_step s'.phase s' in exit_step-is_called s''.exit s'' refl (ap is_called e ∙ c)

round-fewer :
    (n : Name) (s : System) (e : Exit)
    → IsOrdered s
    → s.exit ≡ e
    → is_called e ≡ true
    → rounds_left (acts (round n) s) ≤ rounds_left s - 1
round-fewer n s uncalled o e c = cc
round-fewer n s joining o e c =
    omega (arith, joining-round n s o e, ap (λ x. remaining_rounds x s.phase) e)
round-fewer n s joining_reader o e c = omega (arith, joined-round n s o e)
round-fewer n s closed o e c = omega (arith, closed-round n s e)

rounds-close :
    (counts : List Name) (s : System)
    → IsOrdered s
    → is_called s.exit ≡ true
    → rounds_left s ≤ length counts
    → (acts (rounds counts) s).exit ≡ closed
rounds-close [] s o c h = none_left s.exit s.phase c (omega (arith, h))
  where
    none_left : (e : Exit) (p : Phase) → is_called e ≡ true → remaining_rounds e p ≡ 0 → e ≡ closed
    none_left uncalled p c h = cc
    none_left joining p c h = absurd (omega (arith, h))
    none_left joining_reader p c h = absurd (omega (arith, h))
    none_left closed p c h = refl
rounds-close (n ∷ counts) s o c h =
    rounds-close counts (acts (round n) s) (acts-IsOrdered (round n) s o) (is_called-round n s c)
      (omega (arith, h, round-fewer n s s.exit o refl c))

phase-stopped : (p : Phase) → is_stopped p ≡ true → p ≡ stopped
phase-stopped stopped h = refl
phase-stopped starting h = cc
phase-stopped checking h = cc
phase-stopped picking h = cc
phase-stopped (awaiting_ready b) h = cc
phase-stopped (uploading b) h = cc
phase-stopped (awaiting_pulse b) h = cc
phase-stopped (recording b r) h = cc

call-left :
    (s : System)
    → s.exit ≡ uncalled
    → (is_called (act exits s).exit ≡ true) × (rounds_left (act exits s) ≤ 7)
unfolding act exit_step
call-left s e = rw e (refl, omega (arith, remaining_bound s.phase))

-- Leaving the state ends if the board answers: if `handleExit` is called after anything the threads
-- have done since the constructor, and from then on seven times the reader finds a count and that
-- the board waits for a bitstream, and then `run` and `handleExit` make a step, then `handleExit`
-- has returned, `run` has, the reader's thread has ended, and no result is `None`.
pub answered-returns :
    (before : List Act) (counts : List Name)
    → (acts before init).exit ≡ uncalled
    → 7 ≤ length counts
    → let s = acts (rounds counts) (act exits (acts before init)) in
      (s.exit ≡ closed) × (s.phase ≡ stopped) × (s.reading ≡ false) × (s.nulls ≡ [])
answered-returns before counts e h =
    let s = act exits (acts before init) in
    let o : IsOrdered s = act-IsOrdered _ (acts-IsOrdered before init init-IsOrdered) exits in
    let (called, left) = call-left (acts before init) e in
    let done = rounds-close counts s o called (omega (arith, left, h)) in
    let o' = acts-IsOrdered (rounds counts) s o in
    (
      done,
      phase-stopped _ (o'.returned (ap is_joined done)),
      o'.read (ap is_closed done),
      o'.no_nulls,
    )
