-- ===== src/Client/Closing.antt =====
-- The end of a client.
use usbip_ice.Base.{Name, ◌≡◌, refl, false, not, ◌&&◌, List, [], ◌∷◌, arith, ◌==◌, contains}
use usbip_ice.Base.Dict.{keys, lookup-erase, has_key-keys}
use usbip_ice.Client.{Client, disconnect_worker, disconnect_all, exit, send_worker}

send_worker-disconnect_worker :
    (u url : Name) (c : Client)
    → send_worker u (disconnect_worker url c) ≡ (not (u == url) && send_worker u c)
unfolding send_worker disconnect_worker
send_worker-disconnect_worker u url c = ground (arith, lookup-erase u url c.worker_sockets)

send_worker-disconnect_all :
    (u : Name) (urls : List Name) (c : Client)
    → send_worker u (disconnect_all urls c) ≡ (not (contains u urls) && send_worker u c)
unfolding disconnect_all
send_worker-disconnect_all u [] c = refl
send_worker-disconnect_all u (url ∷ urls) c = ground (
  arith,
  send_worker-disconnect_all u urls (disconnect_worker url c),
  send_worker-disconnect_worker u url c,
)

-- After `EventServer.exit` nothing can be sent to any worker: each open socket has been closed.
pub exit-closes : (c : Client) (u : Name) → send_worker u (exit c) ≡ false
unfolding exit send_worker
exit-closes c u =
    ground (
      arith,
      send_worker-disconnect_all u (keys c.worker_sockets) c,
      has_key-keys u c.worker_sockets,
    )
