-- ===== src/Reservations/Release.antt =====
-- What `endReservations` and `endAllReservations` do, by their shared part.
use usbip_ice.Base.{
  ℕ, ◌∙◌, ◌==◌, ==_iff, Bool-cases, inl, inr, Name, ◌≡◌, refl, false, not, ◌&&◌, Bool, Option, none,
  some, List, [], ◌∷◌, map, arith, if◌then◌else◌, contains, Unique, Within, filter, filter_map,
  contains-map-filter, Unique-map-filter,
}
use usbip_ice.Schema.{
  DeviceState, Worker, Device, find_device, find_worker, Reservation, Db, serials, reserved_serials,
  find_reservation, set_status,
}
use usbip_ice.Schema.Keys.{
  IsValid, IsFree, status_of, serials-set_status, device_workers-set_status, status_of-set_status,
  find_device_and_worker, find_reservation-contains, find_reservation-filter,
}
use usbip_ice.Reservations.{
  Ended, ended_row, owned, owned_by, release, end_reservations, end_all_reservations,
}

-- The device has a reservation that `ends` selects.
abbrev pub ending : (Reservation → Bool) → List Reservation → Name → Bool
ending ends rs s = elim (find_reservation s rs) [ none ↦ false | some r ↦ ends r ]

abbrev pub ended_serials : List Ended → List Name
ended_serials = map (λ e. e.serial)

abbrev pub released_db : (Reservation → Bool) → Db → Db
released_db ends db =
    let res : List Name = reserved_serials (filter ends db.reservations) in
    record db {
      devices = set_status DeviceState.await_flash_default res db.devices;
      reservations = filter (λ (r : Reservation). not (contains r.device res)) db.reservations;
    }

module _ (ends : Reservation → Bool) where
  contains-ending :
      (s : Name) (rs : List Reservation)
      → Unique (reserved_serials rs)
      → contains s (reserved_serials (filter ends rs)) ≡ ending ends rs s
  contains-ending s [] u = refl
  contains-ending s (r ∷ rs) u = ground (
    arith,
    contains-ending s rs u.1,
    find_reservation-contains s rs,
    contains-map-filter (λ (r : Reservation). r.device) ends s rs,
  )

contains-filter :
    (res : List Name) (s : Name) (rs : List Reservation)
    → contains s (reserved_serials (filter (λ (r : Reservation). contains r.device res) rs))
      ≡ (contains s res && contains s (reserved_serials rs))
contains-filter res s [] = ground arith
contains-filter res s (r ∷ rs) = ground (arith, contains-filter res s rs)

-- With the foreign keys met, every selected reservation has its row.
ended_serials-rows :
    (db : Db)
    → IsValid db
    → (rs : List Reservation) → Within (reserved_serials rs) (serials db.devices)
    → ended_serials (filter_map (ended_row db) rs) ≡ reserved_serials rs
ended_serials-rows db v [] w = refl
ended_serials-rows db v (r ∷ rs) w =
    let (d, x, e, f) = find_device_and_worker db r.device v (w r.device (ground arith)) in
    ground (arith, e, f, ended_serials-rows db v rs λ k h. w k (ground arith))

-- The workers' addresses in the rows of a device
abbrev pub addresses : Name → List Ended → List (Name × ℕ)
addresses s [] = []
addresses s (e ∷ rows) =
    if s == e.serial then (e.worker_ip, e.worker_port) ∷ addresses s rows else addresses s rows

-- `rows` and `db'` are what a call that ends the reservations selected by `ends` returns and
-- leaves.
pub record Releases (ends : Reservation → Bool) (db : Db) (rows : List Ended) (db' : Db)
    : Type 0 where
  pub rows_ended : (s : Name) → contains s (ended_serials rows) ≡ ending ends db.reservations s
  -- A device that is released has one row, with the address of the worker that has it.
  pub at_worker :
      (s : Name) (d : Device) (w : Worker)
      → find_device s db.devices ≡ some d
      → find_worker d.worker db.workers ≡ some w
      → addresses s rows
        ≡ (if ending ends db.reservations s then (w.host, w.server_port) ∷ [] else [])
  pub reservation_after :
      (s : Name)
      → find_reservation s db'.reservations
        ≡ (if ending ends db.reservations s then none else find_reservation s db.reservations)
  pub status_after :
      (s : Name)
      → status_of s db'.devices ≡ (
          if ending ends db.reservations s
          then some DeviceState.await_flash_default
          else status_of s db.devices)
  pub workers_after : db'.workers ≡ db.workers
  pub valid_after : IsValid db'
  pub free_after : IsFree db → IsFree db'

abbrev pub Ends : (Reservation → Bool) → Db → Option (List Ended × Db) → Type 0
Ends ends db none = ⊥
Ends ends db (some (rows, db')) = Releases ends db rows db'

addresses-rows :
    (db : Db) (res : List Name) (s : Name) (d : Device) (w : Worker)
    → find_device s db.devices ≡ some d
    → find_worker d.worker db.workers ≡ some w
    → (rs : List Reservation) → Unique (reserved_serials rs)
    → addresses s
        (filter_map (ended_row db) (filter (λ (r : Reservation). contains r.device res) rs))
      ≡ (if contains s res && contains s (reserved_serials rs)
          then (w.host, w.server_port) ∷ []
          else [])
addresses-rows db res s d w e f [] u = ground arith
addresses-rows db res s d w e f (r ∷ rs) u = elim (Bool-cases (s == r.device)) [
  | inl same ↦
      let e' : find_device r.device db.devices ≡ some d = rw (← (==_iff s r.device).0 same) e in
      ground (arith, e, e', f, addresses-rows db res s d w e f rs u.1)
  | inr apart ↦ ground (arith, apart, addresses-rows db res s d w e f rs u.1)
]

module _ (ends : Reservation → Bool) (db : Db) (v : IsValid db) where
  abbrev res : List Name
  res = reserved_serials (filter ends db.reservations)

  abbrev ended_reservations : List Reservation
  ended_reservations = filter (λ (r : Reservation). contains r.device res) db.reservations

  rows_ended :
      (s : Name)
      → contains s (ended_serials (filter_map (ended_row db) ended_reservations))
        ≡ ending ends db.reservations s
  rows_ended s =
      rw
        (ended_serials-rows db v ended_reservations
          (λ k h. v.reservation_device k (contains-map-filter _ _ k db.reservations h)))
        (ground (
          arith,
          contains-filter res s db.reservations,
          contains-ending ends s db.reservations v.reservation_key,
          find_reservation-contains s db.reservations,
        ))

  at_worker :
      (s : Name) (d : Device) (w : Worker)
      → find_device s db.devices ≡ some d
      → find_worker d.worker db.workers ≡ some w
      → addresses s (filter_map (ended_row db) ended_reservations)
        ≡ (if ending ends db.reservations s then (w.host, w.server_port) ∷ [] else [])
  at_worker s d w e f =
      addresses-rows db res s d w e f db.reservations v.reservation_key
      ∙ ground (
        arith,
        contains-ending ends s db.reservations v.reservation_key,
        find_reservation-contains s db.reservations,
      )

  reservation_after :
      (s : Name)
      → find_reservation s (released_db ends db).reservations
        ≡ (if ending ends db.reservations s then none else find_reservation s db.reservations)
  reservation_after s =
      rw
        (
          find_reservation-filter res s db.reservations,
          contains-ending ends s db.reservations v.reservation_key,
        )
        refl

  status_after :
      (s : Name)
      → status_of s (released_db ends db).devices ≡ (
          if ending ends db.reservations s
          then some DeviceState.await_flash_default
          else status_of s db.devices)
  status_after s = ground (
    arith,
    status_of-set_status DeviceState.await_flash_default res s db.devices,
    contains-ending ends s db.reservations v.reservation_key,
    find_reservation-contains s db.reservations,
    v.reservation_device s,
  )

  released_db-IsValid : IsValid (released_db ends db)
  released_db-IsValid = record {
    worker_key = v.worker_key;
    device_key = rw serials-set_status v.device_key;
    reservation_key = Unique-map-filter _ _ db.reservations v.reservation_key;
    device_worker = rw device_workers-set_status v.device_worker;
    reservation_device = λ k h.
        rw serials-set_status
          (v.reservation_device k (contains-map-filter _ _ k db.reservations h));
  }

  released_db-IsFree : IsFree db → IsFree (released_db ends db)
  released_db-IsFree free s h = ground (
    arith,
    status_after s,
    reservation_after s,
    find_reservation-contains s db.reservations,
    find_reservation-contains s (released_db ends db).reservations,
    free s,
  )

  pub release-Ends : Ends ends db (release ends db)
  unfolding release
  release-Ends = record {
    rows_ended = rows_ended;
    at_worker = at_worker;
    reservation_after = reservation_after;
    status_after = status_after;
    workers_after = refl;
    valid_after = released_db-IsValid;
    free_after = released_db-IsFree;
  }

-- With the tables' constraints met, `endReservations` succeeds and ends exactly the reservations
-- that the client holds among the serials: it returns those devices, they lose their reservation
-- and await the default firmware, every other device keeps its status and its reservation, no
-- worker changes, the constraints stay met, and no reserved device becomes available.
pub end_reservations-Ends :
    (client : Name) (chosen : List Name) (db : Db)
    → IsValid db
    → Ends (owned client chosen) db (end_reservations client chosen db)
unfolding end_reservations
end_reservations-Ends client chosen db v = release-Ends (owned client chosen) db v

-- With the tables' constraints met, `endAllReservations` succeeds and ends exactly the reservations
-- that the client holds: it returns those devices, they lose their reservation and await the
-- default firmware, every other device keeps its status and its reservation, no worker changes, the
-- constraints stay met, and no reserved device becomes available.
pub end_all_reservations-Ends :
    (client : Name) (db : Db)
    → IsValid db
    → Ends (owned_by client) db (end_all_reservations client db)
unfolding end_all_reservations
end_all_reservations-Ends client db v = release-Ends (owned_by client) db v
