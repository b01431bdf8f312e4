-- ===== src/Heartbeat/Notices.antt =====
-- Which clients `__startWorkerTimeouts` of src/usbipice/control/Heartbeat.py tells of the devices
-- that are lost.
use usbip_ice.Base.{
  ℕ, Name, ◌≡◌, refl, ap, ◌∙◌, Bool, true, false, ◌&&◌, Option, none, some, List, [], ◌∷◌, ◌++◌,
  String, arith, append_assoc, append-nil, ◌==◌, if◌then◌else◌, filter_map, Option-cases, inl, inr,
  sym,
}
use usbip_ice.Schema.{Reservation, Db}
use usbip_ice.Procedures.{TimedOut, timed_out_row, is_silent, handle_worker_timeouts}
use usbip_ice.Procedures.Cascade.{lost_device}
use usbip_ice.Access.{execute, get_data}
use usbip_ice.Access.ControlDatabase
use usbip_ice.Events.{Sender}
use usbip_ice.Events.Package.{send_client_json, send_device_failure}
use usbip_ice.Events.Inbox.{IsConnected, inbox, send_client-Sent}
use usbip_ice.Control.{Server}
use usbip_ice.Heartbeat.{timeout_duration_seconds, send_failures, worker_timeouts}
use usbip_ice.Heartbeat.Survival.{timeouts, run_task}

module _ {C A : Type 0} (dumps : Name → C → Option A) (event_named : String → C) where
  -- The text of a failure, if there is one
  abbrev pub failure : Name → List A
  failure serial = elim (dumps serial (event_named "failure")) [ none ↦ [] | some m ↦ m ∷ [] ]

  abbrev failures : Name → List TimedOut → List A
  failures c [] = []
  failures c (row ∷ rows) =
      (if c == row.client_id then failure row.serial else []) ++ failures c rows

  -- The failures of the devices that the client has reserved and that silent workers have
  abbrev pub losses : Name → ℕ → Db → List Reservation → List A
  losses c now db [] = []
  losses c now db (r ∷ rs) =
      (if c == r.client_name && lost_device (is_silent timeout_duration_seconds now) db r.device
        then failure r.device
        else [])
      ++ losses c now db rs

  failures-filter_map :
      (c : Name) (now : ℕ) (db : Db) (rs : List Reservation)
      → failures c (filter_map (timed_out_row timeout_duration_seconds now db) rs)
        ≡ losses c now db rs
  failures-filter_map c now db [] = refl
  failures-filter_map c now db (r ∷ rs) = ground (arith, failures-filter_map c now db rs)

-- Each client gets its news, behind what was sent to it or queued.
abbrev pub Told : {A : Type 0} → (Name → Name) → (Name → List A) → Sender A → Sender A → Type 0
Told sock_of news e e' =
    IsConnected sock_of e' × ((c : Name) → inbox sock_of c e' ≡ inbox sock_of c e ++ news c)

no_news : {A : Type 0} (l x : List A) (b : Bool) → x ≡ [] → l ≡ l ++ (if b then x else [])
no_news l x true e = rw e (sym (append-nil l))
no_news l x false e = sym (append-nil l)

module _ {C A : Type 0} (dumps : Name → C → Option A) (event_named : String → C)
    (sock_of : Name → Name) (apart : (c d : Name) → (sock_of c == sock_of d) ≡ (c == d))
    (emit : ℕ → Bool) (works : (n : ℕ) → emit n ≡ true) where
  send_device_failure-Told :
      (serial client : Name) (e : Sender A)
      → IsConnected sock_of e
      → Told sock_of
          (λ c. if c == client then failure dumps event_named serial else [])
          e
          (send_device_failure emit dumps event_named serial client e)
  unfolding send_device_failure send_client_json
  send_device_failure-Told serial client e h =
      elim (Option-cases (dumps serial (event_named "failure"))) [
        | inl fails ↦
            rw (send_device_failure, send_client_json, fails)
              (
                h,
                λ c.
                    no_news (inbox sock_of c e) (failure dumps event_named serial) (c == client)
                      (rw (failure, fails) refl),
              )
        | inr (m, goes) ↦
            let sent = send_client-Sent sock_of apart emit works client m e h in
            let texts : failure dumps event_named serial ≡ m ∷ [] = rw (failure, goes) refl in
            rw (send_device_failure, send_client_json, goes)
              (
                sent.connected,
                λ c.
                    sent.arrives c
                    ∙ ap (λ l. inbox sock_of c e ++ (if c == client then l else [])) (sym texts),
              )
      ]

  send_failures-Told :
      (rows : List TimedOut) (e : Sender A)
      → IsConnected sock_of e
      → Told sock_of
          (λ c. failures dumps event_named c rows)
          e
          (send_failures emit dumps event_named rows e)
  unfolding send_failures
  send_failures-Told [] e h = (h, λ c. sym (append-nil _))
  send_failures-Told (row ∷ rows) e h =
      let sent = send_device_failure-Told row.serial row.client_id e h in
      let rest =
        send_failures-Told rows
          (send_device_failure emit dumps event_named row.serial row.client_id e) sent.0 in
      (rest.0, λ c. rest.1 c ∙ rw (sent.1 c, append_assoc (inbox sock_of c e)) refl)

  -- If every emit goes through and every session's socket, if it has one, is that of its client,
  -- no two clients having the same, and nothing is queued for a session that has one, then a run
  -- of the timeouts that reaches the database sends or queues for each client, behind what was
  -- sent or queued, if no other thread sends meanwhile, one failure, if it can be written as
  -- JSON, for each device that the client has reserved and whose worker's last heartbeat is more
  -- than a minute old, in the order of the reservations, and nothing else. The sessions stay so,
  -- the tables become what the run makes of them, and the requests to workers stay as they were.
  pub worker_timeouts-Told :
      (now : ℕ) (c : Server A)
      → IsConnected sock_of c.event_sender
      → let c' = worker_timeouts emit dumps event_named true now c in
        Told sock_of
          (λ client. losses dumps event_named client now c.db c.db.reservations)
          c.event_sender
          c'.event_sender
        × (c'.db ≡ run_task true now timeouts c.db)
        × (c'.unreserves ≡ c.unreserves)
  unfolding worker_timeouts run_task ControlDatabase.get_worker_timeouts get_data execute
      handle_worker_timeouts
  worker_timeouts-Told now c h =
      let rows = filter_map (timed_out_row timeout_duration_seconds now c.db) c.db.reservations in
      let (connected, told) = send_failures-Told rows c.event_sender h in
      (
        rw (ControlDatabase.map-same_row rows) (
          connected,
          λ client.
              told client
              ∙ ap (λ l. inbox sock_of client c.event_sender ++ l)
                  (failures-filter_map dumps event_named client now c.db c.db.reservations),
        ),
        refl,
        refl,
      )
