-- ===== src/Procedures/Cascade.antt =====
-- The deletion of workers, as `handleWorkerTimeouts` does it.
use usbip_ice.Base.{
  ℕ, Name, ◌≡◌, refl, false, not, ◌&&◌, Bool, Option, none, some, List, [], ◌∷◌, map, arith,
  if◌then◌else◌, contains, Unique, filter, filter_map, contains-map-filter, Unique-map-filter,
  Option-cases, inl, inr,
}
use usbip_ice.Schema.{
  Worker, Device, Reservation, Db, serials, reserved_serials, worker_names, find_reservation,
  find_device, find_worker,
}
use usbip_ice.Schema.Keys.{
  IsValid, IsFree, device_workers, find_worker-contains, find_device-contains,
  find_reservation-contains, find_reservation-filter,
}
use usbip_ice.Procedures.{
  TimedOut, is_silent, timed_out_row, delete_workers, handle_worker_timeouts,
}

-- The worker is there, and `doomed` selects it.
abbrev pub lost_worker : (Worker → Bool) → Db → Name → Bool
lost_worker doomed db n = elim (find_worker n db.workers) [ none ↦ false | some w ↦ doomed w ]

abbrev pub lost_device : (Worker → Bool) → Db → Name → Bool
lost_device doomed db s = elim (find_device s db.devices) [
  | none ↦ false
  | some d ↦ lost_worker doomed db d.worker
]

abbrev pub timed_out_serials : List TimedOut → List Name
timed_out_serials = map (λ t. t.serial)

contains-doomed :
    (doomed : Worker → Bool) (n : Name) (ws : List Worker)
    → Unique (worker_names ws)
    → contains n (worker_names (filter doomed ws))
      ≡ (elim (find_worker n ws) [ none ↦ false | some w ↦ doomed w ])
contains-doomed doomed n [] u = refl
contains-doomed doomed n (w ∷ ws) u = ground (
  arith,
  contains-doomed doomed n ws u.1,
  find_worker-contains n ws,
  contains-map-filter (λ (w : Worker). w.worker_name) doomed n ws,
)

find_worker-filter :
    (doomed : Worker → Bool) (n : Name) (ws : List Worker)
    → Unique (worker_names ws)
    → find_worker n (filter (λ w. not (doomed w)) ws)
      ≡ (elim (find_worker n ws) [ none ↦ none | some w ↦ if doomed w then none else some w ])
find_worker-filter doomed n [] u = refl
find_worker-filter doomed n (w ∷ ws) u =
    ground (arith, find_worker-filter doomed n ws u.1, find_worker-contains n ws)

contains-lost :
    (gone : List Name) (s : Name) (ds : List Device)
    → Unique (serials ds)
    → contains s (serials (filter (λ (d : Device). contains d.worker gone) ds))
      ≡ (elim (find_device s ds) [ none ↦ false | some d ↦ contains d.worker gone ])
contains-lost gone s [] u = refl
contains-lost gone s (d ∷ ds) u = ground (
  arith,
  contains-lost gone s ds u.1,
  find_device-contains s ds,
  contains-map-filter (λ (d : Device). d.serial_id) (λ d. contains d.worker gone) s ds,
)

find_device-filter :
    (gone : List Name) (s : Name) (ds : List Device)
    → Unique (serials ds)
    → find_device s (filter (λ (d : Device). not (contains d.worker gone)) ds)
      ≡ (elim (find_device s ds) [
        | none ↦ none
        | some d ↦ if contains d.worker gone then none else some d
      ])
find_device-filter gone s [] u = refl
find_device-filter gone s (d ∷ ds) u =
    ground (arith, find_device-filter gone s ds u.1, find_device-contains s ds)

contains-kept_workers :
    (gone : List Name) (k : Name) (ds : List Device)
    → contains k (device_workers (filter (λ (d : Device). not (contains d.worker gone)) ds))
      ≡ (not (contains k gone) && contains k (device_workers ds))
contains-kept_workers gone k [] = ground arith
contains-kept_workers gone k (d ∷ ds) = ground (arith, contains-kept_workers gone k ds)

contains-kept_reservations :
    (lost : List Name) (k : Name) (rs : List Reservation)
    → contains k (reserved_serials (filter (λ (r : Reservation). not (contains r.device lost)) rs))
      ≡ (not (contains k lost) && contains k (reserved_serials rs))
contains-kept_reservations lost k [] = ground arith
contains-kept_reservations lost k (r ∷ rs) = ground (arith, contains-kept_reservations lost k rs)

-- `db'` is what the deletion of the doomed workers leaves.
pub record Cascades (doomed : Worker → Bool) (db db' : Db) : Type 0 where
  pub worker_after :
      (n : Name)
      → find_worker n db'.workers
        ≡ (if lost_worker doomed db n then none else find_worker n db.workers)
  pub device_after :
      (s : Name)
      → find_device s db'.devices
        ≡ (if lost_device doomed db s then none else find_device s db.devices)
  pub reservation_after :
      (s : Name)
      → find_reservation s db'.reservations
        ≡ (if lost_device doomed db s then none else find_reservation s db.reservations)
  pub valid_after : IsValid db'
  pub free_after : IsFree db → IsFree db'

module _ (doomed : Worker → Bool) (db : Db) (v : IsValid db) where
  abbrev gone : List Name
  gone = worker_names (filter doomed db.workers)

  abbrev lost : List Name
  lost = serials (filter (λ (d : Device). contains d.worker gone) db.devices)

  worker_after :
      (n : Name)
      → find_worker n (delete_workers doomed db).workers
        ≡ (if lost_worker doomed db n then none else find_worker n db.workers)
  unfolding delete_workers
  worker_after n = ground (arith, find_worker-filter doomed n db.workers v.worker_key)

  contains-gone : (n : Name) → contains n gone ≡ lost_worker doomed db n
  contains-gone n = contains-doomed doomed n db.workers v.worker_key

  device_after :
      (s : Name)
      → find_device s (delete_workers doomed db).devices
        ≡ (if lost_device doomed db s then none else find_device s db.devices)
  unfolding delete_workers
  device_after s = elim (Option-cases (find_device s db.devices)) [
    | inl e ↦ rw (find_device-filter gone s db.devices v.device_key) (rw (e, lost_device) refl)
    | inr (d, e) ↦
        rw (find_device-filter gone s db.devices v.device_key)
          (ground (arith, e, contains-gone d.worker))
  ]

  contains-lost_device : (s : Name) → contains s lost ≡ lost_device doomed db s
  contains-lost_device s = elim (Option-cases (find_device s db.devices)) [
    | inl e ↦ ground (arith, e, contains-lost gone s db.devices v.device_key)
    | inr (d, e) ↦
        ground (arith, e, contains-lost gone s db.devices v.device_key, contains-gone d.worker)
  ]

  reservation_after :
      (s : Name)
      → find_reservation s (delete_workers doomed db).reservations
        ≡ (if lost_device doomed db s then none else find_reservation s db.reservations)
  unfolding delete_workers
  reservation_after s =
      rw (find_reservation-filter lost s db.reservations, contains-lost_device s) refl

  delete_workers-IsValid : IsValid (delete_workers doomed db)
  unfolding delete_workers
  delete_workers-IsValid = record {
    worker_key = Unique-map-filter _ _ db.workers v.worker_key;
    device_key = Unique-map-filter _ _ db.devices v.device_key;
    reservation_key = Unique-map-filter _ _ db.reservations v.reservation_key;
    device_worker = λ k h. ground (
      arith,
      contains-kept_workers gone k db.devices,
      contains-gone k,
      v.device_worker k,
      find_worker-contains k db.workers,
      find_worker-contains k (filter (λ w. not (doomed w)) db.workers),
      find_worker-filter doomed k db.workers v.worker_key,
    );
    reservation_device = λ k h. ground (
      arith,
      contains-kept_reservations lost k db.reservations,
      contains-lost gone k db.devices v.device_key,
      v.reservation_device k,
      find_device-contains k db.devices,
      find_device-contains k (filter (λ (d : Device). not (contains d.worker gone)) db.devices),
      find_device-filter gone k db.devices v.device_key,
    );
  }

  delete_workers-IsFree : IsFree db → IsFree (delete_workers doomed db)
  delete_workers-IsFree free s h = ground (
    arith,
    device_after s,
    reservation_after s,
    find_reservation-contains s (delete_workers doomed db).reservations,
    find_reservation-contains s db.reservations,
    free s,
  )

  pub delete_workers-Cascades : Cascades doomed db (delete_workers doomed db)
  delete_workers-Cascades = record {
    worker_after = worker_after;
    device_after = device_after;
    reservation_after = reservation_after;
    valid_after = delete_workers-IsValid;
    free_after = delete_workers-IsFree;
  }

contains-timed_out :
    (s now : ℕ) (db : Db) (k : Name) (rs : List Reservation)
    → contains k (timed_out_serials (filter_map (timed_out_row s now db) rs))
      ≡ (contains k (reserved_serials rs) && lost_device (is_silent s now) db k)
contains-timed_out s now db k [] = refl
contains-timed_out s now db k (r ∷ rs) = ground (arith, contains-timed_out s now db k rs)

abbrev pub TimesOut : ℕ → ℕ → Db → Option (List TimedOut × Db) → Type 0
TimesOut s now db none = ⊥
TimesOut s now db (some (rows, db')) =
    Cascades (is_silent s now) db db'
    × ((k : Name)
        → contains k (timed_out_serials rows)
          ≡ (contains k (reserved_serials db.reservations) && lost_device (is_silent s now) db k))

-- With the tables' constraints met, `handleWorkerTimeouts` succeeds: exactly the workers whose last
-- heartbeat is more than `s` seconds old go, with their devices and those devices' reservations;
-- everything else stays as it was, the constraints stay met, no reserved device becomes available,
-- and the rows returned name exactly the reserved devices that are lost.
pub handle_worker_timeouts-TimesOut :
    (s now : ℕ) (db : Db) → IsValid db → TimesOut s now db (handle_worker_timeouts s now db)
unfolding handle_worker_timeouts
handle_worker_timeouts-TimesOut s now db v = (
  delete_workers-Cascades (is_silent s now) db v,
  λ k. contains-timed_out s now db k db.reservations,
)
