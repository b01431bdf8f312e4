-- ===== src/Events.antt =====
-- Events to clients: src/usbipice/utils/EventSender.py, and the socket handlers `connection` and
-- `disconnect` of src/usbipice/control/app.py and src/usbipice/worker/app.py. `emit n` says whether
-- the n-th `socketio.emit` of the process goes through. But for Events.Threads,
-- a method runs to its end before the next.
pub mod Queue
pub mod Sockets
pub mod Delivery
pub mod Inbox
pub mod Threads
pub mod Package
use usbip_ice.Base.{
  ℕ, Name, ◌+◌, Bool, true, false, Option, none, some, List, [], ◌∷◌, ◌++◌, if◌then◌else◌, is_empty,
}
use usbip_ice.Base.Dict.{Dict, lookup, has_key, insert, erase}

-- `armed`: the timer in `self.timeout` runs; `stray`: older timers that still run.
pub record Session (A : Type 0) : Type 0 where
  pub sock_id : Option Name
  pub message_queue : List A
  pub armed : Bool
  pub stray : ℕ

-- The emits made, and what went through, to which socket.
pub record Wire (A : Type 0) : Type 0 where
  pub emits : ℕ
  pub sent : List (Name × A)

pub record Sender (A : Type 0) : Type 0 where
  pub sessions : Dict (Session A)
  pub wire : Wire A
