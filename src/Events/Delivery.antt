-- ===== src/Events/Delivery.antt =====
-- What becomes of the events sent to a client.
use native.Mathlib.Nat.{add-zero}
use usbip_ice.Base.{
  ℕ, suc, Name, ◌+◌, ◌<◌, ◌≡◌, refl, ◌∙◌, Bool, true, false, Option, none, some, List, [], ◌∷◌,
  ◌++◌, map, arith, length, append-nil, append_assoc, map-append,
}
use usbip_ice.Events.{Session, Wire}
use usbip_ice.Events.Queue.{emit_all, flush, flush_queue, send, set_socket, remove_socket}

-- What happens to a session.
pub data Op (A : Type 0) : Type 0 where
  send_op : A → Op A
  connect_op : Name → Op A
  disconnect_op : Op A

module _ {A : Type 0} where
  -- The messages that went out, in order.
  abbrev pub payloads : Wire A → List A
  payloads w = map (λ p. p.1) w.sent

  abbrev pub sent_by : Op A → List A
  sent_by (send_op m) = m ∷ []
  sent_by _ = []

  abbrev pub sends : List (Op A) → List A
  sends [] = []
  sends (op ∷ ops) = sent_by op ++ sends ops

module _ {A : Type 0} (emit : ℕ → Bool) where
  unfoldable pub step : Op A → Session A × Wire A → Session A × Wire A
  unfolding send set_socket remove_socket
  step (send_op m) (s, w) = send emit m s w
  step (connect_op sock) (s, w) = set_socket emit sock s w
  step disconnect_op (s, w) = (remove_socket s, w)

  abbrev pub steps : List (Op A) → Session A × Wire A → Session A × Wire A
  steps [] sw = sw
  steps (op ∷ ops) sw = steps ops (step op sw)

-- A session with a socket has nothing left to send.
abbrev pub IsSettled : {A : Type 0} → Session A → Type 0
IsSettled s = (sock : Name) → s.sock_id ≡ some sock → s.message_queue ≡ []

module _ {A : Type 0} (emit : ℕ → Bool) (works : (n : ℕ) → emit n ≡ true) where
  emit_all_lem :
      (sock : Name) (queue ms : List A) (w : Wire A)
      → ((emit_all emit sock queue ms w).0 ≡ queue)
        × (payloads (emit_all emit sock queue ms w).1 ≡ payloads w ++ ms)
  unfolding emit_all
  emit_all_lem sock queue [] w = (refl, rw append-nil)
  emit_all_lem sock queue (m ∷ ms) w =
      let (kept, out) =
        emit_all_lem sock queue ms
          (record { emits = suc w.emits; sent = w.sent ++ (sock, m) ∷ [] }) in
      rw works (kept, out ∙ rw (map-append, append_assoc) refl)

  -- A flush over emits that work moves messages from the queue to the wire, in order.
  pub flush_queue_lem :
      (sock : Option Name) (queue : List A) (w : Wire A)
      → let (queue', w') = flush_queue emit sock queue w in
        (payloads w' ++ queue' ≡ payloads w ++ queue) × ((k : Name) → sock ≡ some k → queue' ≡ [])
  unfolding flush_queue
  flush_queue_lem sock [] w = (refl, λ k e. refl)
  flush_queue_lem none (m ∷ ms) w = (refl, λ k e. cc)
  flush_queue_lem (some sock) (m ∷ ms) w =
      let (kept, out) = emit_all_lem sock [] (m ∷ ms) w in
      (rw kept (append-nil _ ∙ out), λ k e. kept)

  step-conserves :
      (op : Op A) (s : Session A) (w : Wire A)
      → IsSettled s
      → let (s', w') = step emit op (s, w) in
        (payloads w' ++ s'.message_queue ≡ (payloads w ++ s.message_queue) ++ sent_by op)
        × IsSettled s'
  unfolding step
  step-conserves (send_op m) s w h =
      let (moved, settled) = flush_queue_lem s.sock_id (s.message_queue ++ m ∷ []) w in
      (rw append_assoc moved, settled)
  step-conserves (connect_op sock) s w h =
      let (moved, settled) = flush_queue_lem (some sock) s.message_queue w in
      (rw append-nil moved, settled)
  step-conserves disconnect_op s w h = (rw append-nil refl, λ k e. cc)

  -- Where every emit goes through and each call runs to its end before the next, from a session
  -- whose queue is empty if it has a socket, no event of a session is lost, repeated or
  -- reordered, however sends, connections and disconnections follow one another: what went out
  -- and then what is queued are what went out and was queued before and then what was sent
  -- since; and while the session has a socket its queue is empty.
  steps-conserve :
      (ops : List (Op A)) (s : Session A) (w : Wire A)
      → IsSettled s
      → let (s', w') = steps emit ops (s, w) in
        (payloads w' ++ s'.message_queue ≡ (payloads w ++ s.message_queue) ++ sends ops)
        × IsSettled s'
  steps-conserve [] s w h = (rw append-nil refl, h)
  steps-conserve (op ∷ ops) s w h =
      let (s', w') = step emit op (s, w) in
      let (moved, settled) = step-conserves op s w h in
      let (rest, last) = steps-conserve ops s' w' settled in
      (rest ∙ rw (moved, append_assoc) refl, last)

module _ {A : Type 0} (emit : ℕ → Bool) (sock : Name) where
  emit_all_drops :
      (before after queue : List A) (m : A) (w : Wire A)
      → ((n : ℕ) → n < length before → emit (w.emits + n) ≡ true)
      → emit (w.emits + length before) ≡ false
      → let (queue', w') = emit_all emit sock queue (before ++ m ∷ after) w in
        (queue' ≡ queue ++ m ∷ []) × (payloads w' ≡ payloads w ++ before)
  unfolding emit_all
  emit_all_drops [] after queue m w works fails =
      let e : emit w.emits ≡ false = rw (add-zero w.emits) at fails in
      rw e (refl, rw append-nil refl)
  emit_all_drops (b ∷ before) after queue m w works fails =
      let e : emit w.emits ≡ true = rw (add-zero w.emits) at (works 0 (omega arith)) in
      let next : Wire A = record { emits = suc w.emits; sent = w.sent ++ (sock, b) ∷ [] } in
      let (kept, out) =
        emit_all_drops before after queue m next (λ n h. rw (shift n) (works (suc n) (omega arith)))
          (rw (shift (length before)) fails) in
      rw e (kept, out ∙ rw (map-append, append_assoc) refl)
    where
      shift : (n : ℕ) → suc w.emits + n ≡ w.emits + suc n
      shift n = omega arith

  flush_queue_drops :
      (before after : List A) (m : A) (w : Wire A)
      → ((n : ℕ) → n < length before → emit (w.emits + n) ≡ true)
      → emit (w.emits + length before) ≡ false
      → let (queue', w') = flush_queue emit (some sock) (before ++ m ∷ after) w in
        (queue' ≡ m ∷ []) × (payloads w' ≡ payloads w ++ before)
  unfolding flush_queue
  flush_queue_drops [] after m w works fails = emit_all_drops [] after [] m w works fails
  flush_queue_drops (b ∷ before) after m w works fails =
      emit_all_drops (b ∷ before) after [] m w works fails

  -- If a session with a socket has `before`, `m` and `after` queued, and the emits of `before` go
  -- through and that of `m` fails, a flush sends `before` and leaves
  -- `m` alone in the queue: the messages `after` are neither sent nor queued.
  pub flush_drops :
      (before after : List A) (m : A) (s : Session A) (w : Wire A)
      → s.sock_id ≡ some sock
      → s.message_queue ≡ before ++ m ∷ after
      → ((n : ℕ) → n < length before → emit (w.emits + n) ≡ true)
      → emit (w.emits + length before) ≡ false
      → let (s', w') = flush emit s w in
        (s'.message_queue ≡ m ∷ []) × (payloads w' ≡ payloads w ++ before)
  unfolding flush
  flush_drops before after m s w es eq works fails =
      rw (es, eq) (flush_queue_drops before after m w works fails)
