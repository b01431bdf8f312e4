-- ===== src/Pulses/Results.antt =====
-- Where the bitstreams of a request end up.
use usbip_ice.Base.{
  suc, Name, ◌-◌, ◌≤◌, ◌≡◌, refl, ap, ◌∙◌, Bool, true, false, ◌||◌, List, [], ◌∷◌, ◌++◌, map, arith,
  ◌==◌, contains, contains-append, length,
}
use usbip_ice.Base.Dict.{Dict, has_key, insert, has_key-insert}
use usbip_ice.Pulses.{
  Pulse, pulses, timeout, Evaluator, queue, pop, finish, record_pulse, evaluate, Act, request, turn,
  act, run,
}

-- Some results that were sent have the bitstream.
abbrev pub in_sent : Name → List (Dict Name) → Bool
in_sent k [] = false
in_sent k (d ∷ l) = has_key k d || in_sent k l

-- The bitstream waits in the queue, or has a result that waits or was sent.
abbrev pub is_kept : Name → Evaluator → Bool
is_kept k e = contains k e.bitstream_queue || (has_key k e.results || in_sent k e.sent)

abbrev pub requested : List Act → List Name
requested [] = []
requested (request files ∷ acts) = files ++ requested acts
requested (turn pulse ∷ acts) = requested acts

in_sent-append :
    (k : Name) (l m : List (Dict Name)) → in_sent k (l ++ m) ≡ (in_sent k l || in_sent k m)
in_sent-append k [] m = refl
in_sent-append k (d ∷ l) m = ground (arith, in_sent-append k l m)

pub contains-pop :
    (k b : Name) (l : List Name) → contains k (b ∷ l) ≡ (k == (pop b l).0 || contains k (pop b l).1)
contains-pop k b [] = refl
contains-pop k b (c ∷ l) = ground (arith, contains-pop k c l)

pub length-pop : (b : Name) (l : List Name) → length (pop b l).1 ≡ length l
length-pop b [] = refl
length-pop b (c ∷ l) = ap suc (length-pop c l)

pub is_kept-finish : (k : Name) (e : Evaluator) → is_kept k (finish e) ≡ is_kept k e
unfolding finish
is_kept-finish k e = ground (arith, in_sent-append k e.sent (e.results ∷ []))

pub is_kept-record_pulse :
    (k b : Name) (p : Pulse) (e : Evaluator)
    → is_kept k (record_pulse b p e) ≡ (k == b || is_kept k e)
unfolding record_pulse
is_kept-record_pulse k b timeout e = ground (arith, contains-append k e.bitstream_queue (b ∷ []))
is_kept-record_pulse k b (pulses n) e =
    is_kept-finish k (record e { results = insert b n e.results })
    ∙ ground (arith, has_key-insert k b n e.results)

is_kept-evaluate :
    (k : Name) (p : Pulse) (l : List Name) (e : Evaluator)
    → e.bitstream_queue ≡ l
    → is_kept k (evaluate p l e) ≡ is_kept k e
unfolding evaluate
is_kept-evaluate k p [] e h = refl
is_kept-evaluate k p (b ∷ l) e h =
    is_kept-record_pulse k (pop b l).0 p (record e { bitstream_queue = (pop b l).1 })
    ∙ ground (arith, contains-pop k b l, h)

is_kept-act :
    (k : Name) (a : Act) (e : Evaluator)
    → is_kept k (act a e) ≡ (is_kept k e || contains k (requested (a ∷ [])))
unfolding act queue
is_kept-act k (request files) e =
    ground (arith, contains-append k e.bitstream_queue files, contains-append k files [])
is_kept-act k (turn p) e = ground (arith, is_kept-evaluate k p e.bitstream_queue e refl)

-- Whatever the requests, the pulses and the timeouts, no bitstream is lost: one is in the queue, in
-- the results that wait or in results that were sent exactly if it was before or was requested.
pub run-keeps :
    (acts : List Act) (e : Evaluator) (k : Name)
    → is_kept k (run acts e) ≡ (is_kept k e || contains k (requested acts))
run-keeps [] e k = ground arith
run-keeps (request files ∷ acts) e k = ground (
  arith,
  run-keeps acts (act (request files) e) k,
  is_kept-act k (request files) e,
  contains-append k files [],
  contains-append k files (requested acts),
)
run-keeps (turn p ∷ acts) e k =
    ground (arith, run-keeps acts (act (turn p) e) k, is_kept-act k (turn p) e)

-- Turns in each of which the board counts.
abbrev pub turns : List Name → List Act
turns counts = map (λ n. turn (pulses n)) counts

finish_queue : (e : Evaluator) → (finish e).bitstream_queue ≡ e.bitstream_queue
unfolding finish
finish_queue e = ground arith

-- With nothing queued, no results wait.
abbrev pub IsIdle : Evaluator → Type 0
IsIdle e = e.bitstream_queue ≡ [] → e.results ≡ []

finish-IsIdle : (e : Evaluator) → IsIdle (finish e)
unfolding finish
finish-IsIdle e = λ h. ground (arith, h)

evaluate_queue :
    (n : Name) (l : List Name) (e : Evaluator)
    → e.bitstream_queue ≡ l
    → length (evaluate (pulses n) l e).bitstream_queue ≡ length l - 1
unfolding evaluate record_pulse
evaluate_queue n [] e h = ground (arith, h)
evaluate_queue n (b ∷ l) e h = omega (
  arith,
  ap length (
      finish_queue
        (record e { bitstream_queue = (pop b l).1; results = insert (pop b l).0 n e.results })),
  length-pop b l,
)

evaluate-IsIdle :
    (n : Name) (l : List Name) (e : Evaluator) → IsIdle e → IsIdle (evaluate (pulses n) l e)
unfolding evaluate record_pulse
evaluate-IsIdle n [] e i = i
evaluate-IsIdle n (b ∷ l) e i =
    finish-IsIdle
      (record e { bitstream_queue = (pop b l).1; results = insert (pop b l).0 n e.results })

empty_of : (l : List Name) → length l ≡ 0 → l ≡ []
empty_of [] h = refl
empty_of (b ∷ l) h = absurd (omega (arith, h))

turns-empty :
    (counts : List Name) (e : Evaluator)
    → IsIdle e
    → length e.bitstream_queue ≤ length counts
    → ((run (turns counts) e).bitstream_queue ≡ []) × ((run (turns counts) e).results ≡ [])
unfolding act
turns-empty [] e i h =
    let none_left = empty_of e.bitstream_queue (omega (arith, h)) in (none_left, i none_left)
turns-empty (n ∷ counts) e i h =
    turns-empty counts (evaluate (pulses n) e.bitstream_queue e)
      (evaluate-IsIdle n e.bitstream_queue e i)
      (omega (arith, h, evaluate_queue n e.bitstream_queue e refl))

-- From a state in which no results wait for an empty queue, as many turns with a count as there are
-- bitstreams in the queue send a result for each of them, whatever the counts are; nothing waits
-- afterwards.
pub turns-send :
    (counts : List Name) (e : Evaluator) (k : Name)
    → IsIdle e
    → length e.bitstream_queue ≤ length counts
    → contains k e.bitstream_queue ≡ true
    → ((run (turns counts) e).bitstream_queue ≡ [])
      × ((run (turns counts) e).results ≡ [])
      × (in_sent k (run (turns counts) e).sent ≡ true)
turns-send counts e k i h c =
    let (none_left, idle) = turns-empty counts e i h in
    (none_left, idle, ground (arith, run-keeps (turns counts) e k, none_left, idle, c))
