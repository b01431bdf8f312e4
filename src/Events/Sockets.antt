-- ===== src/Events/Sockets.antt =====
-- `class EventSender` of src/usbipice/utils/EventSender.py, and the socket handlers of the two
-- apps.
pub mod Connections
use usbip_ice.Base.{ℕ, Name, Bool, true, false, Option, none, some, ◌==◌, if◌then◌else◌}
use usbip_ice.Base.Dict.{Dict, lookup, insert, erase}
use usbip_ice.Events.{Session, Wire, Sender}
use usbip_ice.Events.Queue
use usbip_ice.Events.Queue.{new_session}

module _ {A : Type 0} where
  -- `startSession`, with the session that it returns
  unfoldable pub start_session : Name → Sender A → Session A × Sender A
  start_session client e = elim (lookup client e.sessions) [
    | some s ↦ (s, e)
    | none ↦ (new_session, record e { sessions = insert client new_session e.sessions })
  ]

  -- A session's object is updated in place.
  abbrev pub store : Name → Sender A → Session A × Wire A → Sender A
  store client e (s, w) = record { sessions = insert client s e.sessions; wire = w }

  pub end_session : Name → Sender A → Sender A
  end_session client e = record e { sessions = erase client e.sessions }

  unfoldable pub remove_socket : Name → Sender A → Sender A
  remove_socket client e = elim (lookup client e.sessions) [
    | none ↦ e
    | some s ↦ store client e (Queue.remove_socket s, e.wire)
  ]

module _ {A : Type 0} (emit : ℕ → Bool) where
  pub add_socket : Name → Name → Sender A → Sender A
  add_socket sock client e =
      let (s, e') = start_session client e in store client e' (Queue.set_socket emit sock s e'.wire)

  unfoldable pub send_client : Name → A → Sender A → Sender A
  send_client client contents e =
      let (s, e') = start_session client e in store client e' (Queue.send emit contents s e'.wire)

-- The state that the handlers of an app share.
pub record App (A : Type 0) : Type 0 where
  pub sock_id_to_client_id : Dict Name
  pub event_sender : Sender A

module _ {A : Type 0} (emit : ℕ → Bool) where
  -- `connection`, with `auth.get("client_id")`
  pub connection : Name → Name → App A → App A
  connection sid client_id app = if client_id == 0 then app else record {
    sock_id_to_client_id = insert sid client_id app.sock_id_to_client_id;
    event_sender = add_socket emit sid client_id app.event_sender;
  }

module _ {A : Type 0} where
  -- `if not client_id: return`, and otherwise the session loses its socket.
  pub drop_socket : Option Name → Sender A → Sender A
  drop_socket none e = e
  drop_socket (some client_id) e = if client_id == 0 then e else remove_socket client_id e

  -- `disconnect`, which pops the socket's client
  pub disconnect : Name → App A → App A
  unfolding drop_socket
  disconnect sid app = record {
    sock_id_to_client_id = erase sid app.sock_id_to_client_id;
    event_sender = drop_socket (lookup sid app.sock_id_to_client_id) app.event_sender;
  }

  -- A running timer of a client's session fires.
  unfoldable pub session_timeout : Name → App A → App A
  unfolding end_session
  session_timeout client_id app = record app {
    event_sender = end_session client_id app.event_sender;
  }
