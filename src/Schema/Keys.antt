-- ===== src/Schema/Keys.antt =====
-- The constraints of the tables: primary keys, and foreign keys with ON DELETE CASCADE.
use usbip_ice.Base.{
  not, filter, Bool-cases, Option-cases, inl, inr, ◌&&◌, Name, ◌≡◌, refl, true, false, Option, none,
  some, List, [], ◌∷◌, ◌++◌, map, arith, ◌==◌, if◌then◌else◌, contains, Unique, Within,
}
use usbip_ice.Schema.{
  DeviceState, Worker, Device, Reservation, Db, worker_names, serials, reserved_serials,
  find_worker, find_device, find_reservation, set_status,
}

abbrev pub device_workers : List Device → List Name
device_workers = map (λ d. d.worker)

pub record IsValid (db : Db) : Type 0 where
  pub worker_key : Unique (worker_names db.workers)
  pub device_key : Unique (serials db.devices)
  pub reservation_key : Unique (reserved_serials db.reservations)
  pub device_worker : Within (device_workers db.devices) (worker_names db.workers)
  pub reservation_device : Within (reserved_serials db.reservations) (serials db.devices)

abbrev pub status_of : Name → List Device → Option DeviceState
status_of s ds = elim (find_device s ds) [ none ↦ none | some d ↦ some d.device_status ]

-- No device that is listed as available is reserved.
abbrev pub IsFree : Db → Type 0
IsFree db =
    (s : Name)
    → status_of s db.devices ≡ some DeviceState.available
    → contains s (reserved_serials db.reservations) ≡ false

module _ (state : DeviceState) (chosen : List Name) where
  pub serials-set_status : (ds : List Device) → serials (set_status state chosen ds) ≡ serials ds
  serials-set_status [] = refl
  serials-set_status (d ∷ ds) = ground (arith, serials-set_status ds)

  pub device_workers-set_status :
      (ds : List Device) → device_workers (set_status state chosen ds) ≡ device_workers ds
  device_workers-set_status [] = refl
  device_workers-set_status (d ∷ ds) = ground (arith, device_workers-set_status ds)

  -- An update gives the chosen devices the state, and leaves the others as they were.
  pub status_of-set_status :
      (s : Name) (ds : List Device)
      → status_of s (set_status state chosen ds)
        ≡ (if contains s (serials ds) && contains s chosen then some state else status_of s ds)
  status_of-set_status s [] = refl
  status_of-set_status s (d ∷ ds) = ground (arith, status_of-set_status s ds)

pub find_device-contains :
    (s : Name) (ds : List Device)
    → contains s (serials ds) ≡ (elim (find_device s ds) [ none ↦ false | some _ ↦ true ])
find_device-contains s [] = refl
find_device-contains s (d ∷ ds) = ground (arith, find_device-contains s ds)

pub find_worker-eq-some :
    (n : Name) (ws : List Worker)
    → contains n (worker_names ws) ≡ true
    → (w : Worker) × (find_worker n ws ≡ some w) × (w.worker_name ≡ n)
find_worker-eq-some n [] h = cc
find_worker-eq-some n (w ∷ ws) h = elim (Bool-cases (n == w.worker_name)) [
  | inl e ↦ (w, ground arith, ground arith)
  | inr e ↦ let (v, f, g) = find_worker-eq-some n ws (ground arith) in (v, ground arith, g)
]

pub find_reservation-append :
    (s : Name) (xs ys : List Reservation)
    → find_reservation s (xs ++ ys)
      ≡ (elim (find_reservation s xs) [ none ↦ find_reservation s ys | some r ↦ some r ])
find_reservation-append s [] ys = refl
find_reservation-append s (x ∷ xs) ys = ground (arith, find_reservation-append s xs ys)

pub find_reservation-contains :
    (s : Name) (rs : List Reservation)
    → contains s (reserved_serials rs)
      ≡ (elim (find_reservation s rs) [ none ↦ false | some _ ↦ true ])
find_reservation-contains s [] = refl
find_reservation-contains s (r ∷ rs) = ground (arith, find_reservation-contains s rs)

pub find_device-worker :
    (s : Name) (ds : List Device) (d : Device)
    → find_device s ds ≡ some d
    → contains d.worker (device_workers ds) ≡ true
find_device-worker s [] d h = cc
find_device-worker s (x ∷ ds) d h = ground (arith, find_device-worker s ds d)

-- With the foreign keys met, a listed device has its row and its worker's.
pub find_device_and_worker :
    (db : Db) (s : Name)
    → IsValid db
    → contains s (serials db.devices) ≡ true
    → (d : Device) × (w : Worker) × (find_device s db.devices ≡ some d)
      × (find_worker d.worker db.workers ≡ some w)
find_device_and_worker db s v h = elim (Option-cases (find_device s db.devices)) [
  | inl e ↦ absurd (ground (arith, find_device-contains s db.devices))
  | inr (d, e) ↦
      let (w, f, _) =
        find_worker-eq-some d.worker db.workers
          (v.device_worker d.worker (find_device-worker s db.devices d e)) in
      (d, w, e, f)
]

pub find_worker-contains :
    (n : Name) (ws : List Worker)
    → contains n (worker_names ws) ≡ (elim (find_worker n ws) [ none ↦ false | some _ ↦ true ])
find_worker-contains n [] = refl
find_worker-contains n (w ∷ ws) = ground (arith, find_worker-contains n ws)

pub find_reservation-filter :
    (res : List Name) (s : Name) (rs : List Reservation)
    → find_reservation s (filter (λ (r : Reservation). not (contains r.device res)) rs)
      ≡ (if contains s res then none else find_reservation s rs)
find_reservation-filter res s [] = ground arith
find_reservation-filter res s (r ∷ rs) = ground (arith, find_reservation-filter res s rs)
