-- ===== src/Procedures/Beats.antt =====
-- What `heartbeatWorker` does to the rows of the workers.
use usbip_ice.Base.{
  ℕ, Name, ◌≡◌, refl, Bool, false, Option, none, some, List, [], ◌∷◌, map, arith, contains,
  Bool-cases, inl, inr, if◌then◌else◌, ◌==◌,
}
use usbip_ice.Schema.{Worker, Db, worker_names, find_worker}
use usbip_ice.Procedures.{heartbeat_worker}

-- A worker's row after a heartbeat, if there is one.
abbrev pub beat_if : ℕ → Bool → Option Worker → Option Worker
beat_if now b none = none
beat_if now b (some w) = some (if b then record w { last_heartbeat = now } else w)

-- A heartbeat leaves the other tables as they were.
abbrev pub OthersOf : Db → Option (Unit {0} × Db) → Type 0
OthersOf db none = Unit
OthersOf db (some (_, db')) = (db'.devices ≡ db.devices) × (db'.reservations ≡ db.reservations)

module _ (wname : Name) (now : ℕ) where
  find_worker-map :
      (n : Name) (ws : List Worker)
      → find_worker n (
          map
            (λ (w : Worker).
              if w.worker_name == wname then record w { last_heartbeat = now } else w)
            ws)
        ≡ beat_if now (n == wname) (find_worker n ws)
  find_worker-map n [] = refl
  find_worker-map n (w ∷ ws) = ground (arith, find_worker-map n ws)

  find_worker-unknown :
      (n : Name) (ws : List Worker)
      → contains wname (worker_names ws) ≡ false
      → find_worker n ws ≡ beat_if now (n == wname) (find_worker n ws)
  find_worker-unknown n [] h = refl
  find_worker-unknown n (w ∷ ws) h = ground (arith, find_worker-unknown n ws)

  -- The tables after a heartbeat of a worker, whether or not it is known.
  abbrev pub HeartbeatOf : Name → Db → Option (Unit {0} × Db) → Type 0
  HeartbeatOf n db none =
      find_worker n db.workers ≡ beat_if now (n == wname) (find_worker n db.workers)
  HeartbeatOf n db (some (_, db')) =
      find_worker n db'.workers ≡ beat_if now (n == wname) (find_worker n db.workers)

  pub heartbeat_worker_lem : (n : Name) (db : Db) → HeartbeatOf n db (heartbeat_worker wname now db)
  unfolding heartbeat_worker
  heartbeat_worker_lem n db = elim (Bool-cases (contains wname (worker_names db.workers))) [
    | inl old ↦ rw old (find_worker-map n db.workers)
    | inr new ↦ rw new (find_worker-unknown n db.workers new)
  ]

  pub heartbeat_worker-OthersOf : (db : Db) → OthersOf db (heartbeat_worker wname now db)
  unfolding heartbeat_worker
  heartbeat_worker-OthersOf db = elim (Bool-cases (contains wname (worker_names db.workers))) [
    | inl old ↦ rw old (refl, refl)
    | inr new ↦ rw new tt
  ]
