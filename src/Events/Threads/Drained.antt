-- ===== src/Events/Threads/Drained.antt =====
-- When the events of a session whose methods run in several threads have all gone out.
use usbip_ice.Base.{
  ℕ, zero, suc, ◌+◌, Name, ◌≡◌, refl, ap, Bool, true, false, not, ◌||◌, Option, none, some, List,
  [], ◌∷◌, ◌++◌, arith, is_empty,
}
use usbip_ice.Events.Delivery.{payloads}
use usbip_ice.Events.Threads.Conserved.{count, all_held, stored, sends, run-total}
use usbip_ice.Events.Threads.{
  Thread, to_flush, emitting, putting_back, finished, Shared, System, Act, send, set_socket,
  remove_socket, proceed, take, emit_one, advance, advance_at, act, run,
}

-- Some thread is before its `flush`.
abbrev pub is_pending : {A : Type 0} → List (Thread A) → Bool
is_pending [] = false
is_pending (to_flush ∷ ts) = true
is_pending (_ ∷ ts) = is_pending ts

abbrev pub are_finished : {A : Type 0} → List (Thread A) → Bool
are_finished [] = true
are_finished (finished ∷ ts) = are_finished ts
are_finished (_ ∷ ts) = false

abbrev pub has_socket : Option Name → Bool
has_socket none = false
has_socket (some sock) = true

-- No thread is about to put a message back.
abbrev pub are_calm : {A : Type 0} → List (Thread A) → Bool
are_calm [] = true
are_calm (putting_back m ∷ ts) = false
are_calm (_ ∷ ts) = are_calm ts

module _ {A : Type 0} where
  is_pending-append : (ts : List (Thread A)) → is_pending (ts ++ to_flush ∷ []) ≡ true
  is_pending-append [] = refl
  is_pending-append (to_flush ∷ ts) = refl
  is_pending-append (emitting sock ms ∷ ts) = is_pending-append ts
  is_pending-append (putting_back m ∷ ts) = is_pending-append ts
  is_pending-append (finished ∷ ts) = is_pending-append ts

  finished-held : (p : A → Bool) (ts : List (Thread A)) → are_finished ts ≡ true → all_held p ts ≡ 0
  finished-held p [] h = refl
  finished-held p (to_flush ∷ ts) h = cc
  finished-held p (emitting sock ms ∷ ts) h = cc
  finished-held p (putting_back m ∷ ts) h = cc
  finished-held p (finished ∷ ts) h = omega (arith, finished-held p ts h)

  finished-pending : (ts : List (Thread A)) → are_finished ts ≡ true → is_pending ts ≡ false
  finished-pending [] h = refl
  finished-pending (to_flush ∷ ts) h = cc
  finished-pending (emitting sock ms ∷ ts) h = cc
  finished-pending (putting_back m ∷ ts) h = cc
  finished-pending (finished ∷ ts) h = finished-pending ts h

  -- No socket, or nothing queued
  abbrev pub idle : Shared A → Bool
  idle c = not (has_socket c.sock_id) || is_empty c.message_queue

  take-idle :
      (sock : Option Name) (queue : List A) (c : Shared A)
      → c.sock_id ≡ sock
      → c.message_queue ≡ queue
      → let (t, c') = take sock queue c in (are_calm (t ∷ []) ≡ true) × (idle c' ≡ true)
  unfolding take
  take-idle sock [] c e f = (refl, rw f (ground arith))
  take-idle none (m ∷ ms) c e f = (refl, rw e refl)
  take-idle (some sock) (m ∷ ms) c e f = (refl, ground arith)

  are_calm-cons :
      (t : Thread A) (ts : List (Thread A))
      → are_calm (t ∷ []) ≡ true
      → are_calm ts ≡ true
      → are_calm (t ∷ ts) ≡ true
  are_calm-cons to_flush ts h k = k
  are_calm-cons (emitting sock ms) ts h k = k
  are_calm-cons (putting_back m) ts h k = h
  are_calm-cons finished ts h k = k

  is_pending-cons :
      (t : Thread A) (ts : List (Thread A)) (b : Bool)
      → b ≡ true
      → (is_pending (t ∷ ts) || b) ≡ true
  is_pending-cons t ts b h = ground (arith, h)

  are_calm-append :
      (ts : List (Thread A)) → are_calm ts ≡ true → are_calm (ts ++ to_flush ∷ []) ≡ true
  are_calm-append [] h = refl
  are_calm-append (to_flush ∷ ts) h = are_calm-append ts h
  are_calm-append (emitting sock ms ∷ ts) h = are_calm-append ts h
  are_calm-append (putting_back m ∷ ts) h = cc
  are_calm-append (finished ∷ ts) h = are_calm-append ts h

  -- A session with a socket that has messages queued has a thread that will flush them.
  abbrev IsDriven : List (Thread A) → Shared A → Type 0
  IsDriven ts c = (are_calm ts ≡ true) × ((is_pending ts || idle c) ≡ true)

  module _ (emit : ℕ → Bool) (works : (n : ℕ) → emit n ≡ true) where
    advance_at-calm :
        (n : ℕ) (ts : List (Thread A)) (c : Shared A)
        → are_calm ts ≡ true
        → are_calm (advance_at emit n ts c).0 ≡ true
    unfolding advance_at advance emit_one
    advance_at-calm n [] c h = h
    advance_at-calm zero (to_flush ∷ ts) c h =
        are_calm-cons (take c.sock_id c.message_queue c).0 ts
          (take-idle c.sock_id c.message_queue c refl refl).0 h
    advance_at-calm zero (emitting sock [] ∷ ts) c h = h
    advance_at-calm zero (emitting sock (m ∷ ms) ∷ ts) c h = rw works h
    advance_at-calm zero (putting_back m ∷ ts) c h = cc
    advance_at-calm zero (finished ∷ ts) c h = h
    advance_at-calm (suc n) (to_flush ∷ ts) c h = advance_at-calm n ts c h
    advance_at-calm (suc n) (emitting sock ms ∷ ts) c h = advance_at-calm n ts c h
    advance_at-calm (suc n) (putting_back m ∷ ts) c h = cc
    advance_at-calm (suc n) (finished ∷ ts) c h = advance_at-calm n ts c h

    advance_at-IsDriven :
        (n : ℕ) (ts : List (Thread A)) (c : Shared A)
        → IsDriven ts c
        → let (ts', c') = advance_at emit n ts c in IsDriven ts' c'
    unfolding advance_at advance emit_one
    advance_at-IsDriven n [] c h = h
    advance_at-IsDriven zero (to_flush ∷ ts) c (calm, driven) =
        let (one, over) = take-idle c.sock_id c.message_queue c refl refl in
        let (t, c') = take c.sock_id c.message_queue c in
        (are_calm-cons t ts one calm, is_pending-cons t ts (idle c') over)
    advance_at-IsDriven zero (emitting sock [] ∷ ts) c h = h
    advance_at-IsDriven zero (emitting sock (m ∷ ms) ∷ ts) c h = rw works h
    advance_at-IsDriven zero (putting_back m ∷ ts) c h = cc
    advance_at-IsDriven zero (finished ∷ ts) c h = h
    advance_at-IsDriven (suc n) (to_flush ∷ ts) c (calm, driven) =
        (advance_at-calm n ts c calm, refl)
    advance_at-IsDriven (suc n) (emitting sock ms ∷ ts) c h = advance_at-IsDriven n ts c h
    advance_at-IsDriven (suc n) (putting_back m ∷ ts) c h = cc
    advance_at-IsDriven (suc n) (finished ∷ ts) c h = advance_at-IsDriven n ts c h

    act-IsDriven :
        (a : Act A) (s : System A)
        → IsDriven s.threads s.shared
        → let s' = act emit a s in IsDriven s'.threads s'.shared
    unfolding act
    act-IsDriven (send m) s (calm, driven) =
        (are_calm-append s.threads calm, rw (is_pending-append s.threads) refl)
    act-IsDriven (set_socket sock) s (calm, driven) =
        (are_calm-append s.threads calm, rw (is_pending-append s.threads) refl)
    act-IsDriven remove_socket s (calm, driven) = (calm, ground arith)
    act-IsDriven (proceed n) s h = advance_at-IsDriven n s.threads s.shared h

    run-IsDriven :
        (acts : List (Act A)) (s : System A)
        → IsDriven s.threads s.shared
        → let s' = run emit acts s in IsDriven s'.threads s'.shared
    run-IsDriven [] s h = h
    run-IsDriven (a ∷ acts) s h = run-IsDriven acts (act emit a s) (act-IsDriven a s h)

    drained :
        (ts : List (Thread A)) (sock : Option Name) (queue : List A)
        → are_finished ts ≡ true
        → has_socket sock ≡ true
        → (is_pending ts || (not (has_socket sock) || is_empty queue)) ≡ true
        → queue ≡ []
    drained ts sock [] done h k = refl
    drained ts sock (m ∷ ms) done h k = ground (arith, finished-pending ts done, h, k)

    -- Where every emit goes through, let a session that has no socket or nothing queued start with
    -- no thread in its methods, and let calls and steps of their threads follow in any order. When
    -- all threads are done and the session has a socket, nothing is queued, and of the messages
    -- that pass a test as many have gone out as had gone out or were queued before and were sent
    -- since.
    pub run-drains :
        (p : A → Bool) (acts : List (Act A)) (c : Shared A)
        → idle c ≡ true
        → are_finished (run emit acts (record { shared = c; threads = [] })).threads ≡ true
        → has_socket (run emit acts (record { shared = c; threads = [] })).shared.sock_id ≡ true
        → let s' = run emit acts (record { shared = c; threads = [] }) in
          (s'.shared.message_queue ≡ [])
          × (count p (payloads s'.shared.wire) ≡ stored p c + count p (sends acts))
    run-drains p acts c start done connected =
        let s : System A = record { shared = c; threads = [] } in
        let s' = run emit acts s in
        let empty =
          drained s'.threads s'.shared.sock_id s'.shared.message_queue done connected
            (run-IsDriven acts s (refl, start)).1 in
        (
          empty,
          omega (
            arith,
            run-total p emit works acts s,
            finished-held p s'.threads done,
            ap (count p) empty,
          ),
        )
