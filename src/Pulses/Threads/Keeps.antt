-- ===== src/Pulses/Threads/Keeps.antt =====
-- Where the bitstreams are while the threads run.
use usbip_ice.Base.{
  Name, ◌≡◌, refl, ap, ◌∙◌, Bool, false, ◌||◌, Option, none, some, List, [], ◌∷◌, ◌++◌, arith, ◌==◌,
  contains, contains-append,
}
use usbip_ice.Pulses.{Pulse, queue, Reader}
use usbip_ice.Pulses.Results.{is_kept, contains-pop, is_kept-finish, is_kept-record_pulse}
use usbip_ice.Pulses.Threads.{
  Phase, awaiting_ready, uploading, awaiting_pulse, recording, System, pick, await_ready,
  await_pulse, record_result, run_step, exit_step, Exit, Act, request, run, reads, exits, act, acts,
  starting, checking, picking, stopped, uncalled, joining, joining_reader, closed,
}

-- `run` has the bitstream in hand.
abbrev pub in_hand : Name → Phase → Bool
in_hand k (awaiting_ready b) = k == b
in_hand k (uploading b) = k == b
in_hand k (awaiting_pulse b) = k == b
in_hand k (recording b result) = k == b
in_hand k _ = false

-- It is in hand, or has the result `None`, or waits, or has a result.
abbrev pub is_held : Name → System → Bool
is_held k s = in_hand k s.phase || (contains k s.nulls || is_kept k s.evaluator)

abbrev pub requested : List Act → List Name
requested [] = []
requested (request files ∷ l) = files ++ requested l
requested (_ ∷ l) = requested l

is_held-queue :
    (k : Name) (files : List Name) (s : System)
    → is_held k (act (request files) s) ≡ (is_held k s || contains k files)
unfolding act queue
is_held-queue k files s = ground (arith, contains-append k s.evaluator.bitstream_queue files)

is_held-pick :
    (k : Name) (l : List Name) (s : System)
    → s.evaluator.bitstream_queue ≡ l
    → s.phase ≡ picking
    → is_held k (pick l s) ≡ is_held k s
unfolding pick
is_held-pick k [] s e p = ground (arith, e, p)
is_held-pick k (b ∷ l) s e p = ground (arith, e, p, contains-pop k b l)

is_held-await_ready :
    (k b : Name) (r : Option Reader) (s : System)
    → s.phase ≡ awaiting_ready b
    → is_held k (await_ready b r s) ≡ is_held k s
unfolding await_ready
is_held-await_ready k b none s p = refl
is_held-await_ready k b (some r) s p = ground (arith, p)

is_held-await_pulse :
    (k b : Name) (r : Option (Pulse × Reader)) (s : System)
    → s.phase ≡ awaiting_pulse b
    → is_held k (await_pulse b r s) ≡ is_held k s
unfolding await_pulse
is_held-await_pulse k b none s p = ground (arith, p)
is_held-await_pulse k b (some (n, r)) s p = ground (arith, p)

is_held-record_result :
    (k b : Name) (r : Option Pulse) (s : System)
    → s.phase ≡ recording b r
    → is_held k (record_result b r s) ≡ is_held k s
unfolding record_result
is_held-record_result k b none s p =
    ground (arith, p, contains-append k s.nulls (b ∷ []), is_kept-finish k s.evaluator)
is_held-record_result k b (some n) s p = ground (arith, p, is_kept-record_pulse k b n s.evaluator)

is_held-run_step :
    (k : Name) (p : Phase) (s : System) → s.phase ≡ p → is_held k (run_step p s) ≡ is_held k s
unfolding run_step
is_held-run_step k starting s p = ground (arith, p)
is_held-run_step k checking s p = ground (arith, p)
is_held-run_step k picking s p = is_held-pick k s.evaluator.bitstream_queue s refl p
is_held-run_step k (awaiting_ready b) s p = is_held-await_ready k b _ s p
is_held-run_step k (uploading b) s p = ground (arith, p)
is_held-run_step k (awaiting_pulse b) s p = is_held-await_pulse k b _ s p
is_held-run_step k (recording b r) s p = is_held-record_result k b r s p
is_held-run_step k stopped s p = refl

is_held-exit_step : (k : Name) (e : Exit) (s : System) → is_held k (exit_step e s) ≡ is_held k s
unfolding exit_step
is_held-exit_step k uncalled s = refl
is_held-exit_step k joining s = ground arith
is_held-exit_step k joining_reader s = ground arith
is_held-exit_step k closed s = refl

is_held-reads :
    (k : Name) (counted : Option Name) (timed_out waits : Bool) (s : System)
    → is_held k (act (reads counted timed_out waits) s) ≡ is_held k s
unfolding act
is_held-reads k counted timed_out waits s = ground arith

is_held-run : (k : Name) (s : System) → is_held k (act run s) ≡ is_held k s
unfolding act
is_held-run k s = is_held-run_step k s.phase s refl

is_held-exits : (k : Name) (s : System) → is_held k (act exits s) ≡ is_held k s
unfolding act
is_held-exits k s = is_held-exit_step k s.exit s

-- Whatever the threads do, in any order, and whenever the state is left: a bitstream is in the
-- queue, in the hand of `run`, or has a result, exactly if it was so before or was requested.
pub acts-hold :
    (l : List Act) (s : System) (k : Name)
    → is_held k (acts l s) ≡ (is_held k s || contains k (requested l))
acts-hold [] s k = ground arith
acts-hold (request files ∷ l) s k = ground (
  arith,
  acts-hold l (act (request files) s) k,
  is_held-queue k files s,
  contains-append k files (requested l),
)
acts-hold (run ∷ l) s k =
    acts-hold l (act run s) k ∙ ap (λ b. b || contains k (requested l)) (is_held-run k s)
acts-hold (reads c t w ∷ l) s k =
    acts-hold l (act (reads c t w) s) k
    ∙ ap (λ b. b || contains k (requested l)) (is_held-reads k c t w s)
acts-hold (exits ∷ l) s k =
    acts-hold l (act exits s) k ∙ ap (λ b. b || contains k (requested l)) (is_held-exits k s)
