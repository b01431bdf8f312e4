-- ===== src/Examples/Clients.antt =====
-- A client with devices on two workers.
use usbip_ice.Base.{ℕ, Name, ◌≡◌, refl, true, false, Option, some, [], ◌∷◌, ◌+◌, ◌*◌, arith}
use usbip_ice.Client.{Value, text, number, ConnectionInfo, Row, Client, reserve}
use usbip_ice.Client.Sharing.{AreLocated}
use usbip_ice.Client.Reach.{IsReached, Reserved, reserve-requests}
use usbip_ice.Client.Waiting.{
  Handler, handle_all, start_waiting, has_finished, start_waiting-finishes,
}

abbrev pub format : Value → Value → Name
format (text ip) (number port) = ip * 10000 + port
format _ _ = 0

abbrev row_of : Name → Name → Row
row_of s ip = record { serial = s; ip = text ip; serverport = number 8081 }

abbrev info_of : ℕ → Name → ConnectionInfo
info_of n ip = record { ident = n; ip = text ip; server_port = number 8081 }

-- Devices 7 and 8 are on one worker, and the client is connected to it.
abbrev pub client : Client
client = record {
  connection_info = (7, info_of 0 10) ∷ (8, info_of 1 10) ∷ [];
  worker_sockets = (108081, true) ∷ [];
  control_socket = true;
  next = 2;
}

client-IsReached : IsReached client
client-IsReached u b h = ground (arith, h)

client-AreLocated : AreLocated 7 (info_of 0 10) client.connection_info
client-AreLocated = (refl, refl, (λ h. ground (arith, h)), (refl, refl, (λ h. refl), tt))

reserve-requests_example :
    (c' : Client) × (w : Option Handler) × (reserve format
        (λ u. true)
        (some (row_of 9 20 ∷ row_of 6 10 ∷ []))
        client
        (record { awaiting_serials = [] })
      ≡ some (some (9 ∷ 6 ∷ []), c', w))
    × Reserved format (row_of 9 20 ∷ row_of 6 10 ∷ []) client c' w
reserve-requests_example =
    reserve-requests (λ u. true) (λ u. refl) format (row_of 9 20 ∷ row_of 6 10 ∷ []) client
      (record { awaiting_serials = [] }) refl client-IsReached

start_waiting-finishes_example :
    has_finished (
      handle_all
        (7 ∷ [])
        (start_waiting (7 ∷ 8 ∷ []) (handle_all (8 ∷ []) (record { awaiting_serials = [] }))))
    ≡ false
start_waiting-finishes_example =
    start_waiting-finishes (8 ∷ []) (7 ∷ []) (7 ∷ 8 ∷ []) (record { awaiting_serials = [] })
