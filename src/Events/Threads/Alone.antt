-- ===== src/Events/Threads/Alone.antt =====
-- A `flush` during which no other method of the session runs.
use usbip_ice.Base.{
  ℕ, zero, suc, Name, ◌≡◌, refl, ap, ◌∙◌, Bool, Option, none, some, List, [], ◌∷◌, ◌++◌, length,
  Bool-cases, inl, inr,
}
use usbip_ice.Events.{Wire}
use usbip_ice.Events.Queue.{emit_all, flush_queue}
use usbip_ice.Events.Threads.{
  Thread, to_flush, emitting, putting_back, finished, Shared, take, emit_one, advance,
}

module _ {A : Type 0} (emit : ℕ → Bool) where
  -- The thread makes some steps.
  abbrev alone : ℕ → Thread A × Shared A → Thread A × Shared A
  alone zero tc = tc
  alone (suc n) tc = alone n (advance emit tc.0 tc.1)

  -- The thread is done, and has left this queue and wire.
  abbrev done : Shared A → List A × Wire A → Thread A × Shared A
  done c r = (finished, record c { message_queue = r.0; wire = r.1 })

  alone-finished : (n : ℕ) (c : Shared A) → alone n (finished, c) ≡ (finished, c)
  unfolding advance
  alone-finished zero c = refl
  alone-finished (suc n) c = alone-finished n c

  alone-emitting :
      (sock : Name) (ms : List A) (c : Shared A)
      → alone (suc (suc (length ms))) (emitting sock ms, c)
        ≡ done c (emit_all emit sock c.message_queue ms c.wire)
  unfolding advance emit_one emit_all
  alone-emitting sock [] c = refl
  alone-emitting sock (m ∷ ms) c = elim (Bool-cases (emit c.wire.emits)) [
    | inl e ↦
        let c' : Shared A = record c {
          wire = record { emits = suc c.wire.emits; sent = c.wire.sent ++ (sock, m) ∷ [] };
        } in
        let goes : advance emit (emitting sock (m ∷ ms)) c ≡ (emitting sock ms, c') =
          rw (emit_one, e) refl in
        ap (alone (suc (suc (length ms)))) goes ∙ alone-emitting sock ms c' ∙ rw e refl
    | inr e ↦
        let c' : Shared A = record c { wire = record c.wire { emits = suc c.wire.emits } } in
        let fails : advance emit (emitting sock (m ∷ ms)) c ≡ (putting_back m, c') =
          rw (emit_one, e) refl in
        ap (alone (suc (suc (length ms)))) fails
        ∙ alone-finished (suc (length ms)) (record c' { message_queue = c.message_queue ++ m ∷ [] })
        ∙ rw e refl
  ]

  alone-take :
      (sock : Option Name) (queue : List A) (c : Shared A)
      → c.message_queue ≡ queue
      → alone (suc (suc (length queue))) (take sock queue c)
        ≡ done c (flush_queue emit sock queue c.wire)
  unfolding take flush_queue
  alone-take sock [] c e = alone-finished 2 c ∙ rw (← e) refl
  alone-take none (m ∷ ms) c e = alone-finished (suc (suc (suc (length ms)))) c ∙ rw (← e) refl
  alone-take (some sock) (m ∷ ms) c e =
      alone-emitting sock (m ∷ ms) (record c { message_queue = [] })

  -- A thread that flushes with nothing between its steps does to the queue and the wire what
  -- `flush` as one step does, with one step for the lock and at most two more than there are
  -- messages.
  alone-flush_queue :
      (c : Shared A)
      → alone (suc (suc (suc (length c.message_queue)))) (to_flush, c)
        ≡ done c (flush_queue emit c.sock_id c.message_queue c.wire)
  unfolding advance
  alone-flush_queue c = alone-take c.sock_id c.message_queue c refl
