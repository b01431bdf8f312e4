-- ===== src/Examples/Sessions.antt =====
-- Sessions of clients and their sockets.
use usbip_ice.Events.Threads.{
  System, Shared, Act, proceed, act, advance, advance_at, take, emit_one, run,
}
use usbip_ice.Events.Threads.Conserved.{total, stored, count, sends, run-total}
use usbip_ice.Events.Threads.Drained.{run-drains}
use usbip_ice.Base.{
  ℕ, ◌+◌, ◌≡◌, refl, Bool, true, false, none, some, List, [], ◌∷◌, arith, ◌==◌, not,
}
use usbip_ice.Events.{Session, Wire}
use usbip_ice.Events.Queue.{flush}
use usbip_ice.Events.Sockets.{App}
use usbip_ice.Events.Delivery.{payloads, flush_drops}

abbrev all_pass : ℕ → Bool
all_pass n = true

-- Messages 3 and 4 wait for a socket.
abbrev session : Session ℕ
session = record { sock_id = none; message_queue = 3 ∷ 4 ∷ []; armed = true; stray = 0 }

abbrev wire : Wire ℕ
wire = record { emits = 0; sent = [] }

abbrev app : App ℕ
app = record {
  event_sender = record { sessions = (9, session) ∷ []; wire = wire };
  sock_id_to_client_id = (60, 9) ∷ [];
}

flush_drops_example :
    let (s', w') =
      flush
        (λ n. not (n == 1))
        (record { sock_id = some 50; message_queue = 3 ∷ 4 ∷ 5 ∷ []; armed = false; stray = 0 })
        wire in
    (s'.message_queue ≡ 4 ∷ []) × (payloads w' ≡ 3 ∷ [])
flush_drops_example =
    flush_drops (λ n. not (n == 1)) 50 (3 ∷ []) (5 ∷ []) 4
      (record { sock_id = some 50; message_queue = 3 ∷ 4 ∷ 5 ∷ []; armed = false; stray = 0 }) wire
      refl refl (λ n h. ground (arith, h)) refl

-- Two threads send; the second one's message goes out first.
abbrev acts : List (Act ℕ)
acts =
    Act.send 1
    ∷ proceed 0
    ∷ Act.send 2
    ∷ proceed 1
    ∷ proceed 1
    ∷ proceed 0
    ∷ proceed 0
    ∷ proceed 1
    ∷ []

abbrev shared : Shared ℕ
shared = record { sock_id = some 50; message_queue = []; wire = record { emits = 0; sent = [] } }

abbrev is_first : ℕ → Bool
is_first m = m == 1

overtaken :
    (run all_pass acts (record { shared = shared; threads = [] })).shared.wire.sent
    ≡ (50, 2) ∷ (50, 1) ∷ []
unfolding act advance_at advance take emit_one
overtaken = refl

run-total_example :
    let s : System ℕ = record { shared = shared; threads = [] } in
    total is_first (run all_pass acts s) ≡ total is_first s + count is_first (sends acts)
run-total_example =
    run-total is_first all_pass (λ n. refl) acts (record { shared = shared; threads = [] })

run-drains_example :
    let s' = run all_pass acts (record { shared = shared; threads = [] }) in
    (s'.shared.message_queue ≡ [])
    × (count is_first (payloads s'.shared.wire)
        ≡ stored is_first shared + count is_first (sends acts))
unfolding act advance_at advance take emit_one
run-drains_example = run-drains all_pass (λ n. refl) is_first acts shared refl refl refl
