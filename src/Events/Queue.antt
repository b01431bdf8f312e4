-- ===== src/Events/Queue.antt =====
-- `class Session` of src/usbipice/utils/EventSender.py, where each method runs to its end before
-- the next one of the session starts. `Events.Threads` has the methods in several threads.
use usbip_ice.Base.{
  ℕ, suc, Name, Bool, true, false, Option, none, some, List, [], ◌∷◌, ◌++◌, if◌then◌else◌,
}
use usbip_ice.Events.{Session, Wire}

module _ {A : Type 0} where
  -- A timer that runs is not cancelled by a new one.
  unfoldable pub start_timeout : Session A → Session A
  start_timeout s = record s { armed = true; stray = if s.armed then suc s.stray else s.stray }

  pub stop_timeout : Session A → Session A
  stop_timeout s = record s { armed = false }

  -- `Session(…)`
  unfoldable pub new_session : Session A
  unfolding start_timeout
  new_session =
      start_timeout (record { sock_id = none; message_queue = []; armed = false; stray = 0 })

module _ {A : Type 0} (emit : ℕ → Bool) where
  -- The loop of `flush` over the messages taken off the queue: on the first failure that message
  -- goes back to the queue, and the loop returns.
  unfoldable pub emit_all : Name → List A → List A → Wire A → List A × Wire A
  emit_all sock queue [] w = (queue, w)
  emit_all sock queue (m ∷ ms) w =
      let rest =
        emit_all sock queue ms (record { emits = suc w.emits; sent = w.sent ++ (sock, m) ∷ [] }) in
      if emit w.emits then rest else (queue ++ m ∷ [], record w { emits = suc w.emits })

  -- The queue after `flush`: nothing to send, no socket, or the loop.
  unfoldable pub flush_queue : Option Name → List A → Wire A → List A × Wire A
  unfolding emit_all
  flush_queue sock [] w = ([], w)
  flush_queue none (m ∷ ms) w = (m ∷ ms, w)
  flush_queue (some sock) (m ∷ ms) w = emit_all sock [] (m ∷ ms) w

  unfoldable pub flush : Session A → Wire A → Session A × Wire A
  unfolding flush_queue
  flush s w =
      let (queue, w') = flush_queue s.sock_id s.message_queue w in
      (record s { message_queue = queue }, w')

  unfoldable pub send : A → Session A → Wire A → Session A × Wire A
  unfolding flush
  send m s w = flush (record s { message_queue = s.message_queue ++ m ∷ [] }) w

  unfoldable pub set_socket : Name → Session A → Wire A → Session A × Wire A
  unfolding flush stop_timeout
  set_socket sock s w = flush (stop_timeout (record s { sock_id = some sock })) w

module _ {A : Type 0} where
  unfoldable pub remove_socket : Session A → Session A
  unfolding start_timeout
  remove_socket s = start_timeout (record s { sock_id = none })
