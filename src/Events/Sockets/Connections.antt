-- ===== src/Events/Sockets/Connections.antt =====
-- What the socket handlers leave of a client's session.
use usbip_ice.Base.{
  ℕ, Name, ◌≡◌, ◌≢◌, refl, sym, ◌∙◌, Bool, true, false, Option, none, some, [], arith, ◌==◌,
  if◌then◌else◌,
}
use usbip_ice.Base.Dict.{lookup, lookup-insert, lookup-erase}
use usbip_ice.Events.{Session, Wire, Sender}
use usbip_ice.Events.Queue
use usbip_ice.Events.Queue.{
  flush, flush_queue, set_socket, new_session, stop_timeout, start_timeout,
}
use usbip_ice.Events.Delivery.{flush_queue_lem}
use usbip_ice.Events.Sockets.{App, start_session, add_socket, remove_socket, connection, disconnect}

module _ {A : Type 0} where
  abbrev pub session_of : Name → App A → Option (Session A)
  session_of c app = lookup c app.event_sender.sessions

  abbrev pub client_of : Name → App A → Option Name
  client_of sid app = lookup sid app.sock_id_to_client_id

-- The session stands, has the socket, nothing to send and no timer for its end.
pub record IsConnected {A : Type 0} (client sid : Name) (app : App A) : Type 0 where
  pub session : Session A
  pub found : session_of client app ≡ some session
  pub socket : session.sock_id ≡ some sid
  pub settled : session.message_queue ≡ []
  pub disarmed : session.armed ≡ false

module _ {A : Type 0} (emit : ℕ → Bool) (client sid : Name) (named : client ≢ 0) where
  set_socket_lem :
      ((n : ℕ) → emit n ≡ true)
      → (s : Session A) (w : Wire A)
      → let s' = (set_socket emit sid s w).0 in
        (s'.sock_id ≡ some sid) × (s'.message_queue ≡ []) × (s'.armed ≡ false)
  unfolding set_socket
  set_socket_lem works s w =
      (refl, (flush_queue_lem emit works (some sid) s.message_queue w).1 sid refl, refl)

  start_session-sessions :
      (c : Name) (e : Sender A)
      → c ≢ client
      → lookup c (start_session client e).1.sessions ≡ lookup c e.sessions
  unfolding start_session
  start_session-sessions c e h =
      ground (arith, lookup-insert c client (new_session {A = A}) e.sessions)

  -- The session and the wire that a connection leaves.
  abbrev reconnected : Sender A → Session A × Wire A
  reconnected e = set_socket emit sid (start_session client e).0 (start_session client e).1.wire

  add_socket-sessions :
      (c : Name) (e : Sender A)
      → lookup c (add_socket emit sid client e).sessions
        ≡ (if c == client then some (reconnected e).0 else lookup c e.sessions)
  unfolding add_socket
  add_socket-sessions c e = ground (
    arith,
    lookup-insert c client (reconnected e).0 (start_session client e).1.sessions,
    start_session-sessions c e,
  )

  -- After a client with an identifier connects, over emits that work, its session has that socket,
  -- an empty queue and no timer, and the socket is known as the client's; the sessions of all other
  -- clients and the other sockets are as before.
  pub connection-IsConnected :
      ((n : ℕ) → emit n ≡ true)
      → (app : App A)
      → let app' = connection emit sid client app in
        IsConnected client sid app'
        × (client_of sid app' ≡ some client)
        × ((c : Name) → c ≢ client → session_of c app' ≡ session_of c app)
        × ((k : Name) → k ≢ sid → client_of k app' ≡ client_of k app)
  unfolding connection
  connection-IsConnected works app =
      let e = app.event_sender in
      let (socket, settled, disarmed) =
        set_socket_lem works (start_session client e).0 (start_session client e).1.wire in
      let known : (client == 0) ≡ false = ground arith in
      rw known (
        record {
          session = (reconnected e).0;
          found = ground (arith, add_socket-sessions client e);
          socket = socket;
          settled = settled;
          disarmed = disarmed;
        },
        ground (arith, lookup-insert sid sid client app.sock_id_to_client_id),
        λ c h. ground (arith, add_socket-sessions c e),
        λ k h. ground (arith, lookup-insert k sid client app.sock_id_to_client_id),
      )

-- The session stands with no socket, and a timer runs for its end.
pub record IsLapsing {A : Type 0} (client : Name) (app : App A) : Type 0 where
  pub session : Session A
  pub found : session_of client app ≡ some session
  pub no_socket : session.sock_id ≡ none
  pub armed : session.armed ≡ true

module _ {A : Type 0} (client sid : Name) (named : client ≢ 0) where
  remove_socket-sessions :
      (c : Name) (e : Sender A) (s : Session A)
      → lookup client e.sessions ≡ some s
      → lookup c (remove_socket client e).sessions
        ≡ (if c == client then some (Queue.remove_socket s) else lookup c e.sessions)
  unfolding remove_socket
  remove_socket-sessions c e s found =
      ground (arith, found, lookup-insert c client (Queue.remove_socket s) e.sessions)

  -- When a socket that is known as that of a client with an identifier and a session disconnects,
  -- the client's session has no socket any more and a timer for its end runs; the sessions of all
  -- other clients and the other sockets are as before.
  pub disconnect-IsLapsing :
      (app : App A) (s : Session A)
      → client_of sid app ≡ some client
      → session_of client app ≡ some s
      → let app' = disconnect sid app in
        IsLapsing client app'
        × ((c : Name) → c ≢ client → session_of c app' ≡ session_of c app)
        × ((k : Name) → k ≢ sid → client_of k app' ≡ client_of k app)
  unfolding disconnect Queue.remove_socket
  disconnect-IsLapsing app s known found =
      let e : (client == 0) ≡ false = ground arith in
      rw (known, e)
        (
          record {
            session = Queue.remove_socket s;
            found = ground (arith, remove_socket-sessions client app.event_sender s found);
            no_socket = refl;
            armed = refl;
          },
          λ c h. ground (arith, remove_socket-sessions c app.event_sender s found),
          λ k h. ground (arith, lookup-erase k sid app.sock_id_to_client_id),
        )

module _ {A : Type 0} (emit : ℕ → Bool) (works : (n : ℕ) → emit n ≡ true) where
  -- Where every emit goes through, a client with an identifier that has two different sockets, as
  -- after a reconnection whose old socket is still open, is cut
  -- off when the first one closes: the second one is still known as the client's, but its session
  -- has no socket and a timer for its end runs.
  pub second_socket-IsLapsing :
      (client first second : Name)
      → client ≢ 0
      → first ≢ second
      → (app : App A)
      → let app' =
          disconnect first (connection emit second client (connection emit first client app)) in
        (client_of second app' ≡ some client) × IsLapsing client app'
  second_socket-IsLapsing client first second named other app =
      let a = connection emit first client app in
      let (_, known_first, _, _) = connection-IsConnected emit client first named works app in
      let (up, known_second, _, keep) = connection-IsConnected emit client second named works a in
      let (down, _, rest) =
        disconnect-IsLapsing client first named (connection emit second client a) up.session
          (keep first other ∙ known_first) up.found in
      (rest second (λ e. other (sym e)) ∙ known_second, down)
