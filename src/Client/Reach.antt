-- ===== src/Client/Reach.antt =====
-- A reservation of `BaseClient` connects to each worker that it needs.
use usbip_ice.Base.{
  Name, ◌≡◌, refl, ◌∙◌, Bool, true, false, Option, none, some, List, [], ◌∷◌, arith, if◌then◌else◌,
  contains, Option-cases, inl, inr,
}
use usbip_ice.Base.Dict.{lookup, has_key, insert, lookup-insert}
use usbip_ice.Client.Tracking.{row_serials, add_rows-has_key, add_rows-control, add_rows-sockets}
use usbip_ice.Client.Waiting.{Handler, start_waiting, all_in, start_waiting-finishes}
use usbip_ice.Client.{
  has_returned, Value, ConnectionInfo, Row, Client, get_connection_info, add_rows, api_reserve,
  connect_worker, send_worker, url, connect_all, reserve, request_worker,
}

-- No connection to a worker has failed.
abbrev pub IsReached : Client → Type 0
IsReached c = (u : Name) (b : Bool) → lookup u c.worker_sockets ≡ some b → b ≡ true

module _ (format : Value → Value → Name) where
  -- What connecting to the workers of the serials leaves.
  pub record Connects (l : List Name) (c c' : Client) : Type 0 where
    pub same_devices : c'.connection_info ≡ c.connection_info
    pub reached : IsReached c'
    pub kept :
        (u : Name) → lookup u c.worker_sockets ≡ some true → lookup u c'.worker_sockets ≡ some true
    pub requested : (s : Name) → contains s l ≡ true → request_worker format s c' ≡ true

  -- What a reservation of these rows leaves, if it waits with the handler `w`.
  pub record Reserved (rows : List Row) (c c' : Client) (w : Option Handler) : Type 0 where
    pub returns :
        (initialized : List Name)
        → has_returned initialized w ≡ all_in (row_serials rows) initialized
    pub requested :
        (s : Name) → contains s (row_serials rows) ≡ true → request_worker format s c' ≡ true
    pub sockets_kept :
        (u : Name) → lookup u c.worker_sockets ≡ some true → lookup u c'.worker_sockets ≡ some true

module _ (connects : Name → Bool) (up : (u : Name) → connects u ≡ true) where
  -- The client when the socket of a URL is there.
  opened : Name → Client → Client
  opened u c =
      if has_key u c.worker_sockets
      then c
      else record c { worker_sockets = insert u (connects u) c.worker_sockets }

  opened-connects :
      (u : Name) (c : Client)
      → c.control_socket ≡ true
      → connect_worker connects u c ≡ some (opened u c)
  unfolding connect_worker opened
  opened-connects u c h = ground (arith, h)

  opened-kept :
      (u v : Name) (c : Client)
      → lookup v c.worker_sockets ≡ some true
      → lookup v (opened u c).worker_sockets ≡ some true
  unfolding opened
  opened-kept u v c h = ground (arith, lookup-insert v u (connects u) c.worker_sockets, up u)

  opened-IsReached : (u : Name) (c : Client) → IsReached c → IsReached (opened u c)
  unfolding opened
  opened-IsReached u c r v b h =
      ground (arith, lookup-insert v u (connects u) c.worker_sockets, up u, r v b)

  opened-open :
      (u : Name) (c : Client) → IsReached c → lookup u (opened u c).worker_sockets ≡ some true
  unfolding opened
  opened-open u c r =
      ground (arith, lookup-insert u u (connects u) c.worker_sockets, up u, r u true, r u false)

  opened-same :
      (u : Name) (c : Client)
      → ((opened u c).connection_info ≡ c.connection_info)
        × ((opened u c).control_socket ≡ c.control_socket)
  unfolding opened
  opened-same u c = ground arith

  module _ (format : Value → Value → Name) where
    -- Each serial is tracked.
    IsTracked : List Name → Client → Type 0
    IsTracked l c = (s : Name) → contains s l ≡ true → has_key s c.connection_info ≡ true

    connect_step :
        (s : Name) (l : List Name) (i : ConnectionInfo) (c : Client)
        → get_connection_info s c ≡ some i
        → c.control_socket ≡ true
        → connect_all format connects (s ∷ l) c
          ≡ connect_all format connects l (opened (url format i) c)
    unfolding connect_all
    connect_step s l i c e h = ground (arith, opened-connects (url format i) c h, e)

    step_Connects :
        (s : Name) (l : List Name) (i : ConnectionInfo) (c c' : Client)
        → get_connection_info s c ≡ some i
        → IsReached c
        → Connects format l (opened (url format i) c) c'
        → Connects format (s ∷ l) c c'
    unfolding request_worker send_worker
    step_Connects s l i c c' e r k = record {
      same_devices = k.same_devices ∙ (opened-same (url format i) c).0;
      reached = k.reached;
      kept = λ u h. k.kept u (opened-kept (url format i) u c h);
      requested = λ t h. ground (
        arith,
        k.requested t,
        k.kept (url format i) (opened-open (url format i) c r),
        k.same_devices,
        (opened-same (url format i) c).0,
      );
    }

    connect_all-Connects :
        (l : List Name) (c : Client)
        → c.control_socket ≡ true
        → IsReached c
        → IsTracked l c
        → (c' : Client) × (connect_all format connects l c ≡ some c') × Connects format l c c'
    unfolding connect_all IsTracked
    connect_all-Connects [] c h r t = (
      c,
      refl,
      record {
        same_devices = refl;
        reached = r;
        kept = λ u e. e;
        requested = λ s e. ground (arith, e);
      },
    )
    connect_all-Connects (s ∷ l) c h r t = elim (Option-cases (get_connection_info s c)) [
      | inl e ↦ ground (arith, t s, e)
      | inr (i, e) ↦
          let (c', q, k) =
            connect_all-Connects l (opened (url format i) c) ((opened-same (url format i) c).1 ∙ h)
              (opened-IsReached (url format i) c r)
              (λ v w. ground (arith, t v, (opened-same (url format i) c).0)) in
          (c', connect_step s l i c e h ∙ q, step_Connects s l i c c' e r k)
    ]

    reserve_connected :
        (row : Row) (rows : List Row) (c c' : Client) (eh : Handler)
        → connect_all format connects (row_serials (row ∷ rows)) (add_rows (row ∷ rows) c) ≡ some c'
        → reserve format connects (some (row ∷ rows)) c eh
          ≡ some (
            some (row_serials (row ∷ rows)),
            c',
            some (start_waiting (row_serials (row ∷ rows)) eh),
          )
    unfolding reserve api_reserve
    reserve_connected row rows c c' eh e = ground (arith, e)

    -- When the control socket is there, every connection to a worker succeeds and none has failed
    -- before, `reserve` raises nothing. It then waits, and returns the serials of the answer's rows
    -- in order exactly once an "initialized" event that is handled during the wait has named each
    -- of them. When the wait begins the client can send a request to each of these devices, and
    -- still has every socket it had.
    pub reserve-requests :
        (rows : List Row) (c : Client) (eh : Handler)
        → c.control_socket ≡ true
        → IsReached c
        → (c' : Client) × (w : Option Handler) × (reserve format connects (some rows) c eh
            ≡ some (some (row_serials rows), c', w))
          × Reserved format rows c c' w
    unfolding reserve api_reserve IsTracked
    reserve-requests [] c eh h r = (
      c,
      none,
      refl,
      record { returns = λ l. refl; requested = λ s e. ground (arith, e); sockets_kept = λ u e. e },
    )
    reserve-requests (row ∷ rows) c eh h r =
        let (c', q, k) =
          connect_all-Connects (row_serials (row ∷ rows)) (add_rows (row ∷ rows) c)
            (add_rows-control (row ∷ rows) c ∙ h)
            (λ u b. ground (arith, add_rows-sockets (row ∷ rows) c, r u b))
            (λ s e. ground (arith, add_rows-has_key (row ∷ rows) c s, e)) in
        (
          c',
          some (start_waiting (row_serials (row ∷ rows)) eh),
          reserve_connected row rows c c' eh q,
          record {
            returns = λ l. start_waiting-finishes [] l (row_serials (row ∷ rows)) eh;
            requested = k.requested;
            sockets_kept = λ u e. k.kept u (rw add_rows-sockets e);
          },
        )
