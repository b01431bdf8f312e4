-- ===== src/Events/Threads.antt =====
-- `class Session` of src/usbipice/utils/EventSender.py with the threads that call its methods. Only
-- the parts under `self.lock` run as one step: `flush` takes the messages off the queue, and then
-- emits them one by one while other threads may run.
pub mod Conserved
pub mod Drained
pub mod Alone
use usbip_ice.Base.{
  ℕ, zero, suc, Name, Bool, Option, none, some, List, [], ◌∷◌, ◌++◌, if◌then◌else◌,
}
use usbip_ice.Events.{Wire}

-- A thread in `send` or `setSocket` behind the first lock: before `flush`, in the loop of `flush`
-- over the messages that are left, before a message is put back, or done.
pub data Thread (A : Type 0) : Type 0 where
  to_flush : Thread A
  emitting : Name → List A → Thread A
  putting_back : A → Thread A
  finished : Thread A

-- What the threads share
pub record Shared (A : Type 0) : Type 0 where
  pub sock_id : Option Name
  pub message_queue : List A
  pub wire : Wire A

pub record System (A : Type 0) : Type 0 where
  pub shared : Shared A
  pub threads : List (Thread A)

-- A call of a method, up to the end of its first lock, or the next step of a thread.
pub data Act (A : Type 0) : Type 0 where
  send : A → Act A
  set_socket : Name → Act A
  remove_socket : Act A
  proceed : ℕ → Act A

module _ {A : Type 0} where
  -- The part of `flush` under the lock
  unfoldable pub take : Option Name → List A → Shared A → Thread A × Shared A
  take sock [] c = (finished, c)
  take none (m ∷ ms) c = (finished, c)
  take (some sock) (m ∷ ms) c = (emitting sock (m ∷ ms), record c { message_queue = [] })

module _ {A : Type 0} (emit : ℕ → Bool) where
  unfoldable pub emit_one : Name → A → List A → Shared A → Thread A × Shared A
  emit_one sock m ms c =
      if emit c.wire.emits
      then (
        emitting sock ms,
        record c {
          wire = record { emits = suc c.wire.emits; sent = c.wire.sent ++ (sock, m) ∷ [] };
        },
      )
      else (putting_back m, record c { wire = record c.wire { emits = suc c.wire.emits } })

  unfoldable pub advance : Thread A → Shared A → Thread A × Shared A
  unfolding take emit_one
  advance to_flush c = take c.sock_id c.message_queue c
  advance (emitting sock []) c = (finished, c)
  advance (emitting sock (m ∷ ms)) c = emit_one sock m ms c
  advance (putting_back m) c = (finished, record c { message_queue = c.message_queue ++ m ∷ [] })
  advance finished c = (finished, c)

  unfoldable pub advance_at : ℕ → List (Thread A) → Shared A → List (Thread A) × Shared A
  unfolding advance
  advance_at n [] c = ([], c)
  advance_at zero (t ∷ ts) c = let (t', c') = advance t c in (t' ∷ ts, c')
  advance_at (suc n) (t ∷ ts) c = let (ts', c') = advance_at n ts c in (t ∷ ts', c')

  unfoldable pub act : Act A → System A → System A
  unfolding advance_at
  act (send m) s = record {
    shared = record s.shared { message_queue = s.shared.message_queue ++ m ∷ [] };
    threads = s.threads ++ to_flush ∷ [];
  }
  act (set_socket sock) s = record {
    shared = record s.shared { sock_id = some sock };
    threads = s.threads ++ to_flush ∷ [];
  }
  act remove_socket s = record s { shared = record s.shared { sock_id = none } }
  act (proceed n) s =
      let (threads, shared) = advance_at n s.threads s.shared in
      record { shared = shared; threads = threads }

  abbrev pub run : List (Act A) → System A → System A
  run [] s = s
  run (a ∷ acts) s = run acts (act a s)
