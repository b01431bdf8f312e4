-- ===== src/Procedures/Keeps.antt =====
-- Each procedure on workers and devices, and the two invariants of the tables.
use usbip_ice.Base.{
  ℕ, Name, ◌≡◌, refl, true, false, Option, none, some, List, [], ◌∷◌, ◌++◌, map, arith, contains,
  Unique, Unique-append, contains-append, map-append, Bool-cases, inl, inr, if◌then◌else◌, ◌==◌,
}
use usbip_ice.Schema.{DeviceState, Worker, Device, Db, serials, worker_names}
use usbip_ice.Schema.Keys.{IsValid, IsFree, status_of, device_workers, find_device-contains}
use usbip_ice.Procedures.{
  Query, add_worker, remove_worker, heartbeat_worker, add_device, handle_worker_timeouts, is_silent,
}
use usbip_ice.Procedures.Cascade.{delete_workers-Cascades}

-- What holds of the tables that a call leaves, if it does not raise.
abbrev pub After {ℓ} : {A : Type 0} → (Db → Type ℓ) → Option (A × Db) → Type ℓ
After P none = Unit
After P (some (a, db')) = P db'

pub record Keeps {A : Type 0} (q : Query A) : Type 0 where
  pub valid : (db : Db) → IsValid db → After IsValid (q db)
  pub free : (db : Db) → IsValid db → IsFree db → After IsFree (q db)

Unique-one : (xs : List ℕ) (k : ℕ) → Unique xs → contains k xs ≡ false → Unique (xs ++ k ∷ [])
Unique-one xs k u h = Unique-append xs (k ∷ []) u (refl, tt) (λ j e. ground arith)

module _ (wname host : Name) (port now : ℕ) where
  add_worker-IsValid : (db : Db) → IsValid db → After IsValid (add_worker wname host port now db)
  unfolding add_worker
  add_worker-IsValid db v = elim (Bool-cases (contains wname (worker_names db.workers))) [
    | inl old ↦ rw old tt
    | inr new ↦ rw new (record {
      worker_key = rw map-append (Unique-one (worker_names db.workers) wname v.worker_key new);
      device_key = v.device_key;
      reservation_key = v.reservation_key;
      device_worker = λ k h. rw (map-append, contains-append) (ground (arith, v.device_worker k));
      reservation_device = v.reservation_device;
    })
  ]

  pub add_worker-Keeps : Keeps (add_worker wname host port now)
  unfolding add_worker
  add_worker-Keeps = record {
    valid = add_worker-IsValid;
    free = λ db v f. elim (Bool-cases (contains wname (worker_names db.workers))) [
      | inl old ↦ rw old tt
      | inr new ↦ rw new f
    ];
  }

pub remove_worker-none : (wname : Name) (db : Db) → remove_worker wname db ≡ none
unfolding remove_worker
remove_worker-none wname db = ground arith

pub remove_worker-Keeps : (wname : Name) → Keeps (remove_worker wname)
remove_worker-Keeps wname = record {
  valid = λ db v. rw remove_worker-none tt;
  free = λ db v f. rw remove_worker-none tt;
}

module _ (wname : Name) (now : ℕ) where
  worker_names-heartbeat :
      (ws : List Worker)
      → worker_names (
          map
            (λ (w : Worker).
              if w.worker_name == wname then record w { last_heartbeat = now } else w)
            ws)
        ≡ worker_names ws
  worker_names-heartbeat [] = refl
  worker_names-heartbeat (w ∷ ws) = ground (arith, worker_names-heartbeat ws)

  pub heartbeat_worker-Keeps : Keeps (heartbeat_worker wname now)
  unfolding heartbeat_worker
  heartbeat_worker-Keeps = record {
    valid = λ db v. elim (Bool-cases (contains wname (worker_names db.workers))) [
      | inr new ↦ rw new tt
      | inl old ↦ rw old (record {
        worker_key = rw worker_names-heartbeat v.worker_key;
        device_key = v.device_key;
        reservation_key = v.reservation_key;
        device_worker = rw worker_names-heartbeat v.device_worker;
        reservation_device = v.reservation_device;
      })
    ];
    free = λ db v f. elim (Bool-cases (contains wname (worker_names db.workers))) [
      | inr new ↦ rw new tt
      | inl old ↦ rw old f
    ];
  }

module _ (s now : ℕ) where
  pub handle_worker_timeouts-Keeps : Keeps (handle_worker_timeouts s now)
  unfolding handle_worker_timeouts
  handle_worker_timeouts-Keeps = record {
    valid = λ db v. (delete_workers-Cascades (is_silent s now) db v).valid_after;
    free = λ db v f. (delete_workers-Cascades (is_silent s now) db v).free_after f;
  }

module _ (deviceserial worker : Name) where
  status_of-append :
      (s : Name) (ds : List Device) (d : Device)
      → status_of s (ds ++ d ∷ []) ≡ (
          if contains s (serials ds)
          then status_of s ds
          else if s == d.serial_id
          then some d.device_status
          else none)
  status_of-append s [] d = ground arith
  status_of-append s (x ∷ ds) d = ground (arith, status_of-append s ds d, find_device-contains s ds)

  device_workers-added :
      (ds : List Device)
      → device_workers (
          ds
          ++ record {
            serial_id = deviceserial;
            worker = worker;
            device_status = DeviceState.await_flash_default;
          }
            ∷ [])
        ≡ device_workers ds ++ worker ∷ []
  device_workers-added ds = rw map-append refl

  abbrev added : Db → Db
  added db = record db {
    devices =
        db.devices
        ++ record {
          serial_id = deviceserial;
          worker = worker;
          device_status = DeviceState.await_flash_default;
        }
          ∷ [];
  }

  added-IsValid :
      (db : Db)
      → contains worker (worker_names db.workers) ≡ true
      → contains deviceserial (serials db.devices) ≡ false
      → IsValid db
      → IsValid (added db)
  added-IsValid db known new v = record {
    worker_key = v.worker_key;
    device_key = rw map-append (Unique-one (serials db.devices) deviceserial v.device_key new);
    reservation_key = v.reservation_key;
    device_worker = λ k h. ground (
      arith,
      v.device_worker k,
      contains-append k (device_workers db.devices) (worker ∷ []),
      device_workers-added db.devices,
    );
    reservation_device =
        λ k h. rw (map-append, contains-append) (ground (arith, v.reservation_device k));
  }

  added-IsFree : (db : Db) → IsFree db → IsFree (added db)
  added-IsFree db f s h = ground (
    arith,
    status_of-append s db.devices (record {
      serial_id = deviceserial;
      worker = worker;
      device_status = DeviceState.await_flash_default;
    }),
    f s,
  )

  pub add_device-Keeps : Keeps (add_device deviceserial worker)
  unfolding add_device
  add_device-Keeps = record {
    valid = λ db v. elim (Bool-cases (contains worker (worker_names db.workers))) [
      | inr unknown ↦ rw unknown tt
      | inl known ↦ elim (Bool-cases (contains deviceserial (serials db.devices))) [
        | inl old ↦ rw (known, old) tt
        | inr new ↦ rw (known, new) (added-IsValid db known new v)
      ]
    ];
    free = λ db v f. elim (Bool-cases (contains worker (worker_names db.workers))) [
      | inr unknown ↦ rw unknown tt
      | inl known ↦ elim (Bool-cases (contains deviceserial (serials db.devices))) [
        | inl old ↦ rw (known, old) tt
        | inr new ↦ rw (known, new) (added-IsFree db f)
      ]
    ];
  }
