-- ===== src/Events/Inbox.antt =====
-- What each client has been sent or has queued, where the sockets of the clients are known.
use usbip_ice.Base.{
  ℕ, Name, ◌≡◌, refl, ◌∙◌, Bool, true, false, Option, none, some, List, [], ◌∷◌, ◌++◌, arith,
  append-nil, append_assoc, ◌==◌, if◌then◌else◌, Option-cases, Bool-cases, ==_iff, inl, inr, sym,
}
use usbip_ice.Base.Dict.{Dict, lookup, insert, lookup-insert}
use usbip_ice.Events.{Session, Wire, Sender}
use usbip_ice.Events.Queue.{emit_all, flush, flush_queue, send, new_session, start_timeout}
use usbip_ice.Events.Sockets.{start_session, send_client, store}

module _ {A : Type 0} where
  -- What went out to a socket, in order
  abbrev pub sent_to : Name → List (Name × A) → List A
  sent_to k [] = []
  sent_to k ((j, m) ∷ l) = if k == j then m ∷ sent_to k l else sent_to k l

  sent_to-append :
      (k : Name) (l l' : List (Name × A)) → sent_to k (l ++ l') ≡ sent_to k l ++ sent_to k l'
  sent_to-append k [] l' = refl
  sent_to-append k ((j, m) ∷ l) l' = ground (arith, sent_to-append k l l')

  abbrev pub queue_of : Option (Session A) → List A
  queue_of none = []
  queue_of (some s) = s.message_queue

module _ {A : Type 0} (sock_of : Name → Name) where
  -- A session has no socket, or that of its client and nothing queued.
  abbrev pub IsAt : Name → Option Name → List A → Type 0
  IsAt c none queue = Unit
  IsAt c (some k) [] = k ≡ sock_of c
  IsAt c (some k) (m ∷ queue) = ⊥

  abbrev pub IsAtIts : Name → Option (Session A) → Type 0
  IsAtIts c none = Unit
  IsAtIts c (some s) = IsAt c s.sock_id s.message_queue

  abbrev pub IsConnected : Sender A → Type 0
  IsConnected e = (c : Name) → IsAtIts c (lookup c e.sessions)

  -- The messages for a client that went out or are queued
  abbrev pub inbox : Name → Sender A → List A
  inbox c e = sent_to (sock_of c) e.wire.sent ++ queue_of (lookup c e.sessions)

new_session-message_queue : (A : Type 0) → (new_session {A = A}).message_queue ≡ []
unfolding new_session start_timeout
new_session-message_queue A = refl

new_session-IsAt :
    (A : Type 0) (sock_of : Name → Name) (c : Name) → IsAtIts sock_of c (some (new_session {A = A}))
unfolding new_session start_timeout
new_session-IsAt A sock_of c = tt

module _ {A : Type 0} (sock_of : Name → Name)
    (apart : (c d : Name) → (sock_of c == sock_of d) ≡ (c == d)) (emit : ℕ → Bool)
    (works : (n : ℕ) → emit n ≡ true) where
  sent_to-own :
      (c k : Name) (m : A) (l : List (Name × A))
      → k ≡ sock_of c
      → sent_to (sock_of c) (l ++ (k, m) ∷ []) ≡ sent_to (sock_of c) l ++ m ∷ []
  sent_to-own c k m l h = ground (arith, sent_to-append (sock_of c) l ((k, m) ∷ []))

  sent_to-other :
      (c d k : Name) (m : A) (l : List (Name × A))
      → k ≡ sock_of c
      → (d == c) ≡ false
      → sent_to (sock_of d) (l ++ (k, m) ∷ []) ≡ sent_to (sock_of d) l
  sent_to-other c d k m l h e =
      sent_to-append (sock_of d) l ((k, m) ∷ []) ∙ rw (h, apart d c, e) (append-nil _)

  -- `queue` and `w` become `queue'` and `w'` on a message to the client.
  record Sends (c : Name) (sock : Option Name) (queue : List A) (m : A) (w : Wire A)
      (queue' : List A) (w' : Wire A) : Type 0 where
    stays : IsAt sock_of c sock queue'
    gets : sent_to (sock_of c) w'.sent ++ queue' ≡ (sent_to (sock_of c) w.sent ++ queue) ++ m ∷ []
    others :
        (d : Name) → (d == c) ≡ false → sent_to (sock_of d) w'.sent ≡ sent_to (sock_of d) w.sent

  flush_queue-Sends :
      (c : Name) (sock : Option Name) (queue : List A) (m : A) (w : Wire A)
      → IsAt sock_of c sock queue
      → let (queue', w') = flush_queue emit sock (queue ++ m ∷ []) w in
        Sends c sock queue m w queue' w'
  unfolding flush_queue emit_all
  flush_queue-Sends c none [] m w h = record {
    stays = tt;
    gets = rw append-nil refl;
    others = λ d e. refl;
  }
  flush_queue-Sends c none (x ∷ queue) m w h = record {
    stays = tt;
    gets = sym (append_assoc (sent_to (sock_of c) w.sent) (x ∷ queue) (m ∷ []));
    others = λ d e. refl;
  }
  flush_queue-Sends c (some k) [] m w h = rw works (record {
    stays = h;
    gets = append-nil _ ∙ sent_to-own c k m w.sent h ∙ rw append-nil refl;
    others = λ d e. sent_to-other c d k m w.sent h e;
  })
  flush_queue-Sends c (some k) (x ∷ queue) m w h = elim h [ ]

  -- A message to the client `c`
  pub record Sent (c : Name) (m : A) (e e' : Sender A) : Type 0 where
    pub connected : IsConnected sock_of e'
    pub arrives :
        (d : Name) → inbox sock_of d e' ≡ inbox sock_of d e ++ (if d == c then m ∷ [] else [])

  store-Sent :
      (c : Name) (m : A) (e : Sender A) (s : Session A) (sessions : Dict (Session A))
      → IsConnected sock_of e
      → IsAt sock_of c s.sock_id s.message_queue
      → s.message_queue ≡ queue_of (lookup c e.sessions)
      → ((d : Name) → (d == c) ≡ false → lookup d sessions ≡ lookup d e.sessions)
      → Sent c m e (store c (record { sessions = sessions; wire = e.wire }) (send emit m s e.wire))
  unfolding send flush
  store-Sent c m e s sessions h at q same =
      let (queue, w) = flush_queue emit s.sock_id (s.message_queue ++ m ∷ []) e.wire in
      let sends : Sends c s.sock_id s.message_queue m e.wire queue w =
        flush_queue-Sends c s.sock_id s.message_queue m e.wire at in
      let s' : Session A = record s { message_queue = queue } in
      record {
        connected = λ d. rw (lookup-insert d c s' sessions) (elim (Bool-cases (d == c)) [
          | inl here ↦ rw here (rw ((==_iff d c).0 here) sends.stays)
          | inr away ↦ rw (away, same d away) (h d)
        ]);
        arrives = λ d. rw (lookup-insert d c s' sessions) (elim (Bool-cases (d == c)) [
          | inl here ↦ rw here (rw ((==_iff d c).0 here, ← q) sends.gets)
          | inr away ↦ rw (away, same d away, sends.others d away) (sym (append-nil _))
        ]);
      }

  pub send_client-Sent :
      (c : Name) (m : A) (e : Sender A)
      → IsConnected sock_of e
      → Sent c m e (send_client emit c m e)
  unfolding send_client start_session
  send_client-Sent c m e h = elim (Option-cases (lookup c e.sessions)) [
    | inl absent ↦
        rw (absent, start_session)
          (store-Sent c m e new_session (insert c new_session e.sessions) h
            (new_session-IsAt A sock_of c) (rw absent (new_session-message_queue A))
            (λ d away. rw (lookup-insert d c new_session e.sessions, away) refl))
    | inr (s, there) ↦
        rw (there, start_session)
          (store-Sent c m e s e.sessions h (rw there at (h c)) (rw there refl) (λ d away. refl))
  ]
