-- ===== src/Reservations/Reserve.antt =====
-- What `makeReservations` does.
use usbip_ice.Base.{
  ℕ, Name, ◌+◌, ◌≡◌, refl, true, some, List, [], ◌∷◌, ◌++◌, map, arith, if◌then◌else◌, contains,
  contains-append, Unique, Within, length, filter, filter_map, min, contains-map-take,
  Unique-map-take, length-take, map-append, Option-cases, ◌||◌, inl, inr,
}
use usbip_ice.Schema.{
  DeviceState, Worker, Device, Db, worker_names, serials, reserved_serials, is_available,
  find_reservation, set_status,
}
use usbip_ice.Schema.Keys.{
  IsValid, IsFree, device_workers, status_of, serials-set_status, device_workers-set_status,
  status_of-set_status, find_worker-eq-some, find_device-contains, find_reservation-append,
  find_reservation-contains,
}
use usbip_ice.Procedures.{hour}
use usbip_ice.Reservations.{
  Granted, available_row, granted_serials, grants, new_reservation, insert_rows, make_reservations,
}
use usbip_ice.Reservations.Insert.{
  insert_rows-append, insert_rows-some, reserved_serials-new, find_reservation-new,
}

module _ (ws : List Worker) where
  abbrev candidates : List Device → List Granted
  candidates = filter_map (available_row ws)

  contains-candidates :
      (k : Name) (ds : List Device)
      → contains k (granted_serials (candidates ds)) ≡ true
      → contains k (serials ds) ≡ true
  contains-candidates k [] h = h
  contains-candidates k (d ∷ ds) h = ground (arith, contains-candidates k ds)

  Unique-candidates :
      (ds : List Device) → Unique (serials ds) → Unique (granted_serials (candidates ds))
  Unique-candidates [] u = u
  Unique-candidates (d ∷ ds) u =
      ground (arith, contains-candidates d.serial_id ds, Unique-candidates ds u.1)

  candidates-available :
      (k : Name) (ds : List Device)
      → Unique (serials ds)
      → contains k (granted_serials (candidates ds)) ≡ true
      → status_of k ds ≡ some DeviceState.available
  candidates-available k [] u h = cc
  candidates-available k (d ∷ ds) u h =
      ground (arith, contains-candidates k ds, candidates-available k ds u.1)

  length-candidates :
      (ds : List Device)
      → Within (device_workers ds) (worker_names ws)
      → length (candidates ds) ≡ length (filter (λ d. is_available d.device_status) ds)
  length-candidates [] h = refl
  length-candidates (d ∷ ds) h =
      let (w, e, _) = find_worker-eq-some d.worker ws (h d.worker (ground arith)) in
      ground (arith, e, length-candidates ds λ k m. h k (ground arith))

-- What `makeReservations` leaves, where the rows can be inserted.
abbrev pub reserved_db : ℕ → Name → ℕ → Db → Db
reserved_db amount client now db = record db {
  devices = set_status DeviceState.reserved (granted_serials (grants amount db)) db.devices;
  reservations = db.reservations ++ map (new_reservation client now) (grants amount db);
}

module _ (amount : ℕ) (client : Name) (now : ℕ) (db : Db) (v : IsValid db) (free : IsFree db) where
  Unique-grants : Unique (granted_serials (grants amount db))
  unfolding grants
  Unique-grants = Unique-map-take _ amount _ (Unique-candidates db.workers db.devices v.device_key)

  -- Every device that is granted was available.
  pub grants-available :
      (k : Name)
      → contains k (granted_serials (grants amount db)) ≡ true
      → status_of k db.devices ≡ some DeviceState.available
  unfolding grants
  grants-available k h =
      candidates-available db.workers k db.devices v.device_key
        (contains-map-take _ k amount (candidates db.workers db.devices) h)

  make_reservations_lem :
      make_reservations amount client now db
      ≡ some (grants amount db, reserved_db amount client now db)
  unfolding make_reservations
  make_reservations_lem =
      rw
        (
          insert_rows-append (map (new_reservation client now) (grants amount db)) db.reservations
              (rw reserved_serials-new Unique-grants)
              (rw reserved_serials-new (λ k h. free k (grants-available k h))),
          make_reservations,
        )
        refl

-- `gs` and `db'` are what a reservation by `client` returns and leaves.
pub record Reserves (amount : ℕ) (client : Name) (now : ℕ) (db : Db) (gs : List Granted) (db' : Db)
    : Type 0 where
  pub returned : make_reservations amount client now db ≡ some (gs, db')
  pub amount_granted :
      length gs ≡ min amount (length (filter (λ d. is_available d.device_status) db.devices))
  pub were_available :
      (s : Name)
      → contains s (granted_serials gs) ≡ true
      → status_of s db.devices ≡ some DeviceState.available
  pub status_after :
      (s : Name)
      → status_of s db'.devices ≡ (
          if contains s (granted_serials gs)
          then some DeviceState.reserved
          else status_of s db.devices)
  pub reservation_after :
      (s : Name)
      → find_reservation s db'.reservations ≡ (
          if contains s (granted_serials gs)
          then some (record { device = s; client_name = client; until = now + hour })
          else find_reservation s db.reservations)

status_of-contains :
    (s : Name) (ds : List Device) {t : DeviceState}
    → status_of s ds ≡ some t
    → contains s (serials ds) ≡ true
status_of-contains s ds h = ground (arith, find_device-contains s ds)

module _ (amount : ℕ) (client : Name) (now : ℕ) (db : Db) (v : IsValid db) (free : IsFree db) where
  length-grants :
      length (grants amount db)
      ≡ min amount (length (filter (λ d. is_available d.device_status) db.devices))
  unfolding grants
  length-grants = rw (length-take, length-candidates db.workers db.devices v.device_worker) refl

  status_after :
      (s : Name)
      → status_of s (reserved_db amount client now db).devices ≡ (
          if contains s (granted_serials (grants amount db))
          then some DeviceState.reserved
          else status_of s db.devices)
  status_after s = ground (
    arith,
    status_of-set_status DeviceState.reserved (granted_serials (grants amount db)) s db.devices,
    grants-available amount client now db v free s,
    status_of-contains s db.devices {t = DeviceState.available},
  )

  reservation_after :
      (s : Name)
      → find_reservation s (reserved_db amount client now db).reservations ≡ (
          if contains s (granted_serials (grants amount db))
          then some (record { device = s; client_name = client; until = now + hour })
          else find_reservation s db.reservations)
  reservation_after s = ground (
    arith,
    find_reservation-append s db.reservations (map (new_reservation client now) (grants amount db)),
    find_reservation-new client now s (grants amount db),
    find_reservation-contains s db.reservations,
    grants-available amount client now db v free s,
    free s,
  )

-- From tables that meet their constraints and list no reserved device as available, a reservation
-- of `amount` devices succeeds: it grants as many as are available, up to `amount`; each granted
-- device was available, becomes reserved and is held by the client for an hour, and the status and
-- the reservation of every other device stay as they were.
pub make_reservations-Reserves :
    (amount : ℕ) (client : Name) (now : ℕ) (db : Db)
    → IsValid db
    → IsFree db
    → Reserves amount client now db (grants amount db) (reserved_db amount client now db)
make_reservations-Reserves amount client now db v free = record {
  returned = make_reservations_lem amount client now db v free;
  amount_granted = length-grants amount client now db v free;
  were_available = grants-available amount client now db v free;
  status_after = status_after amount client now db v free;
  reservation_after = reservation_after amount client now db v free;
}

contains-grants :
    (amount : ℕ) (db : Db) (k : Name)
    → contains k (granted_serials (grants amount db)) ≡ true
    → contains k (serials db.devices) ≡ true
unfolding grants
contains-grants amount db k h =
    contains-candidates db.workers k db.devices
      (contains-map-take _ k amount (candidates db.workers db.devices) h)

-- Any successful reservation leaves this.
make_reservations-some :
    (amount : ℕ) (client : Name) (now : ℕ) (db db' : Db) (gs : List Granted)
    → make_reservations amount client now db ≡ some (gs, db')
    → (db' ≡ reserved_db amount client now db)
      × (Unique (reserved_serials db.reservations) → Unique (reserved_serials db'.reservations))
unfolding make_reservations
make_reservations-some amount client now db db' gs e =
    let new = map (new_reservation client now) (grants amount db) in
    elim (Option-cases (insert_rows new db.reservations)) [
      | inl f ↦ ground arith
      | inr (out, f) ↦
          let (g, u) = insert_rows-some new db.reservations out f in ground (arith, g, u)
    ]

module _ (amount : ℕ) (client : Name) (now : ℕ) (db : Db) where
  contains-reserved :
      (k : Name)
      → contains k (reserved_serials (reserved_db amount client now db).reservations) ≡ (
          contains k (reserved_serials db.reservations)
          || contains k (granted_serials (grants amount db)))
  contains-reserved k = rw (map-append, contains-append, reserved_serials-new) refl

  reserved_db-IsValid :
      IsValid db
      → Unique (reserved_serials (reserved_db amount client now db).reservations)
      → IsValid (reserved_db amount client now db)
  reserved_db-IsValid v u = record {
    worker_key = v.worker_key;
    device_key = rw serials-set_status v.device_key;
    reservation_key = u;
    device_worker = rw device_workers-set_status v.device_worker;
    reservation_device = λ k h.
        rw serials-set_status (
          ground (arith, contains-reserved k, v.reservation_device k, contains-grants amount db k));
  }

  reserved_db-IsFree : IsFree db → IsFree (reserved_db amount client now db)
  reserved_db-IsFree free s h = ground (
    arith,
    contains-reserved s,
    contains-grants amount db s,
    status_of-set_status DeviceState.reserved (granted_serials (grants amount db)) s db.devices,
    free s,
  )

pub make_reservations-IsValid :
    (amount : ℕ) (client : Name) (now : ℕ) (db db' : Db) (gs : List Granted)
    → make_reservations amount client now db ≡ some (gs, db')
    → (IsValid db → IsValid db') × (IsFree db → IsFree db')
make_reservations-IsValid amount client now db db' gs e =
    let (same, u) = make_reservations-some amount client now db db' gs e in
    (
      λ v. rw same (reserved_db-IsValid amount client now db v (rw same at (u v.reservation_key))),
      λ free. rw same (reserved_db-IsFree amount client now db free),
    )
