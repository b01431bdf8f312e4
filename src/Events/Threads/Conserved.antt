-- ===== src/Events/Threads/Conserved.antt =====
-- What becomes of the events of a session whose methods run in several threads.
use usbip_ice.Base.{
  ℕ, zero, suc, ◌+◌, Name, ◌≡◌, refl, ◌∙◌, Bool, true, Option, none, some, List, [], ◌∷◌, ◌++◌,
  arith, if◌then◌else◌, map-append,
}
use usbip_ice.Events.Delivery.{payloads}
use usbip_ice.Events.Threads.{
  Thread, to_flush, emitting, putting_back, finished, Shared, System, Act, send, set_socket,
  remove_socket, proceed, take, emit_one, advance, advance_at, act, run,
}

module _ {A : Type 0} where
  -- What the calls send
  abbrev pub sent_by : Act A → List A
  sent_by (send m) = m ∷ []
  sent_by _ = []

  abbrev pub sends : List (Act A) → List A
  sends [] = []
  sends (a ∷ acts) = sent_by a ++ sends acts

module _ {A : Type 0} (p : A → Bool) where
  -- How many of the messages pass the test
  abbrev pub count : List A → ℕ
  count [] = 0
  count (m ∷ ms) = (if p m then 1 else 0) + count ms

  count-append : (l l' : List A) → count (l ++ l') ≡ count l + count l'
  count-append [] l' = omega arith
  count-append (m ∷ l) l' = ground (arith, count-append l l')

  -- Those that a thread has taken off the queue
  abbrev pub held : Thread A → ℕ
  held to_flush = 0
  held (emitting sock ms) = count ms
  held (putting_back m) = count (m ∷ [])
  held finished = 0

  abbrev pub all_held : List (Thread A) → ℕ
  all_held [] = 0
  all_held (t ∷ ts) = held t + all_held ts

  all_held-append :
      (ts : List (Thread A)) (t : Thread A) → all_held (ts ++ t ∷ []) ≡ all_held ts + held t
  all_held-append [] t = ground arith
  all_held-append (u ∷ ts) t = ground (arith, all_held-append ts t)

  -- Those that went out or are queued
  abbrev pub stored : Shared A → ℕ
  stored c = count (payloads c.wire) + count c.message_queue

  -- Those that went out, are queued or are held by a thread
  abbrev pub total : System A → ℕ
  total s = stored s.shared + all_held s.threads

  module _ (emit : ℕ → Bool) (works : (n : ℕ) → emit n ≡ true) where
    take-total :
        (sock : Option Name) (queue : List A) (c : Shared A)
        → c.message_queue ≡ queue
        → let (t, c') = take sock queue c in stored c' + held t ≡ stored c
    unfolding take
    take-total sock [] c e = ground arith
    take-total none (m ∷ ms) c e = ground arith
    take-total (some sock) (m ∷ ms) c e = rw e (ground arith)

    advance-total :
        (t : Thread A) (c : Shared A)
        → let (t', c') = advance emit t c in stored c' + held t' ≡ stored c + held t
    unfolding advance emit_one
    advance-total to_flush c = take-total c.sock_id c.message_queue c refl ∙ ground arith
    advance-total (emitting sock []) c = refl
    advance-total (emitting sock (m ∷ ms)) c =
        rw (works, map-append) (ground (arith, count-append (payloads c.wire) (m ∷ [])))
    advance-total (putting_back m) c = ground (arith, count-append c.message_queue (m ∷ []))
    advance-total finished c = refl

    advance_at-total :
        (n : ℕ) (ts : List (Thread A)) (c : Shared A)
        → let (ts', c') = advance_at emit n ts c in
          stored c' + all_held ts' ≡ stored c + all_held ts
    unfolding advance_at
    advance_at-total n [] c = refl
    advance_at-total zero (t ∷ ts) c = ground (arith, advance-total t c)
    advance_at-total (suc n) (t ∷ ts) c = ground (arith, advance_at-total n ts c)

    act-total : (a : Act A) (s : System A) → total (act emit a s) ≡ total s + count (sent_by a)
    unfolding act
    act-total (send m) s =
        ground
          (arith, count-append s.shared.message_queue (m ∷ []), all_held-append s.threads to_flush)
    act-total (set_socket sock) s = ground (arith, all_held-append s.threads to_flush)
    act-total remove_socket s = ground arith
    act-total (proceed n) s = ground (arith, advance_at-total n s.threads s.shared)

    -- Where every emit goes through, no event of a session is lost or repeated, in whatever order
    -- calls of its methods and steps of their threads follow one another: of the messages that pass
    -- a test, as many have gone out, are queued or are held by a thread as before and were sent
    -- since.
    pub run-total :
        (acts : List (Act A)) (s : System A)
        → total (run emit acts s) ≡ total s + count (sends acts)
    run-total [] s = ground arith
    run-total (a ∷ acts) s =
        ground (
          arith,
          run-total acts (act emit a s),
          act-total a s,
          count-append (sent_by a) (sends acts),
        )
