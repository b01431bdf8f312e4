-- ===== src/Examples/Servers.antt =====
-- Calls of the control server and runs of its tasks.
use usbip_ice.Base.{
  arith, ◌+◌, ==_iff, Bool-cases, inl, inr, ◌≡◌, refl, ℕ, Name, Bool, true, false, Option, some,
  List, [], ◌∷◌, String, ◌==◌,
}
use usbip_ice.Reservations.{Granted}
use usbip_ice.Access.{Url}
use usbip_ice.Control.{Server}
use usbip_ice.Control.Threads.{Act, advance, read}
use usbip_ice.Schema.{Worker, Device, reserved, find_worker, find_device, find_reservation}
use usbip_ice.Events.Inbox.{IsConnected}
use usbip_ice.Heartbeat.{worker_timeouts}
use usbip_ice.Heartbeat.Notices.{Told, losses, worker_timeouts-Told}
use usbip_ice.Heartbeat.Survival.{Task, beats, timeouts, run_task, run_tasks}
use usbip_ice.Heartbeat.Survival.Kept.{run_tasks-kept}
use usbip_ice.Examples.Tables.{tables, tables-IsValid}

abbrev pub all_pass : ℕ → Bool
all_pass n = true

-- The contents' text, here themselves with the serial.
abbrev pub dumped : Name → Name → Option (Name × Name)
dumped serial contents = some (serial, contents)

abbrev pub named : String → Name
named s = 1

abbrev pub server : Server (Name × Name)
server = record {
  db = tables;
  event_sender = record {
    sessions = (5, record { sock_id = some 50; message_queue = []; armed = false; stray = 0 }) ∷ [];
    wire = record { emits = 0; sent = [] };
  };
  unreserves = [];
  reserves = [];
}

abbrev granted : Name → Granted
granted s = record { serial = s; ip = 10; server_port = 8081 }

-- Two turns, and a thread that reads after each.
abbrev acts : List Act
acts = advance ∷ read ∷ advance ∷ read ∷ []

abbrev answering : Url → Bool
answering u = u.ip == 10

-- The worker answers in time; the last run does not reach the database.
abbrev turns : List (Bool × ℕ × Task)
turns =
    (true, 150, timeouts)
    ∷ (true, 155, beats answering)
    ∷ (true, 200, timeouts)
    ∷ (false, 500, timeouts)
    ∷ []

abbrev first_worker : Worker
first_worker = record { worker_name = 1; host = 10; server_port = 8081; last_heartbeat = 100 }

abbrev first_device : Device
first_device = record { serial_id = 7; worker = 1; device_status = reserved }

run_tasks-kept_example :
    (find_worker 1 (run_tasks turns tables).workers
      ≡ some (record first_worker { last_heartbeat = 155 }))
    × (find_device 7 (run_tasks turns tables).devices ≡ some first_device)
    × (find_reservation 7 (run_tasks turns tables).reservations
        ≡ some (record { device = 7; client_name = 5; until = 900 }))
run_tasks-kept_example =
    run_tasks-kept turns 1 7 first_worker first_device tables tables-IsValid refl refl refl

abbrev sock_of : Name → Name
sock_of client = client + 45

sock_of-apart : (c d : Name) → (sock_of c == sock_of d) ≡ (c == d)
sock_of-apart c d = ground arith

server-IsConnected : IsConnected sock_of server.event_sender
server-IsConnected c = elim (Bool-cases (c == 5)) [
  | inl here ↦ rw here (rw ((==_iff c 5).0 here) refl)
  | inr away ↦ rw away tt
]

worker_timeouts-Told_example :
    let c = worker_timeouts all_pass dumped named true 1000 server in
    Told sock_of
      (λ client. losses dumped named client 1000 tables tables.reservations)
      server.event_sender
      c.event_sender
    × (c.db ≡ run_task true 1000 timeouts tables)
    × (c.unreserves ≡ [])
worker_timeouts-Told_example =
    worker_timeouts-Told dumped named sock_of sock_of-apart all_pass (λ n. refl) 1000 server
      server-IsConnected
