-- ===== src/Reservations/Keeps.antt =====
-- Each procedure on reservations, and the two invariants of the tables.
use usbip_ice.Base.{
  ℕ, Name, ◌+◌, ◌≡◌, refl, Bool, Option, none, some, List, [], ◌∷◌, map, arith, if◌then◌else◌,
}
use usbip_ice.Schema.{Reservation, Db, reserved_serials}
use usbip_ice.Schema.Keys.{IsValid, IsFree}
use usbip_ice.Procedures.{hour}
use usbip_ice.Procedures.Keeps.{After, Keeps}
use usbip_ice.Reservations.{
  Ended, make_reservations, extend_where, extend_reservations, extend_all_reservations, release,
  end_reservations, end_all_reservations, handle_reservation_timeouts, owned, owned_by,
}
use usbip_ice.Reservations.Reserve.{make_reservations-IsValid}
use usbip_ice.Reservations.Release.{Ends, release-Ends}

-- From what holds of a result to what holds after it.
After-some :
    {A : Type 0} (Q : Db → Type 0) (r : Option (A × Db))
    → ((a : A) (db' : Db) → r ≡ some (a, db') → Q db')
    → After Q r
After-some Q none h = tt
After-some Q (some (a, db')) h = h a db' refl

module _ (amount : ℕ) (client : Name) (now : ℕ) where
  pub make_reservations-Keeps : Keeps (make_reservations amount client now)
  make_reservations-Keeps = record {
    valid = λ db v.
        After-some IsValid (make_reservations amount client now db)
          (λ gs db' e. (make_reservations-IsValid amount client now db db' gs e).0 v);
    free = λ db v f.
        After-some IsFree (make_reservations amount client now db)
          (λ gs db' e. (make_reservations-IsValid amount client now db db' gs e).1 f);
  }

module _ (mine : Reservation → Bool) (now : ℕ) where
  reserved_serials-extended :
      (rs : List Reservation)
      → reserved_serials
          (map (λ (r : Reservation). if mine r then record r { until = now + hour } else r) rs)
        ≡ reserved_serials rs
  reserved_serials-extended [] = refl
  reserved_serials-extended (r ∷ rs) = ground (arith, reserved_serials-extended rs)

  pub extend_where-Keeps : Keeps (extend_where mine now)
  unfolding extend_where
  extend_where-Keeps = record {
    valid = λ db v. record {
      worker_key = v.worker_key;
      device_key = v.device_key;
      reservation_key = rw reserved_serials-extended v.reservation_key;
      device_worker = v.device_worker;
      reservation_device = rw reserved_serials-extended v.reservation_device;
    };
    free = λ db v f. rw reserved_serials-extended f;
  }

Ends-IsValid :
    (ends : Reservation → Bool) (db : Db) (r : Option (List Ended × Db))
    → Ends ends db r
    → After IsValid r × (IsFree db → After IsFree r)
Ends-IsValid ends db none e = absurd e
Ends-IsValid ends db (some (rows, db')) e = (e.valid_after, e.free_after)

pub release-Keeps : (ends : Reservation → Bool) → Keeps (release ends)
release-Keeps ends = record {
  valid = λ db v. (Ends-IsValid ends db (release ends db) (release-Ends ends db v)).0;
  free = λ db v f. (Ends-IsValid ends db (release ends db) (release-Ends ends db v)).1 f;
}

pub handle_reservation_timeouts-none :
    (now : ℕ) (db : Db) → handle_reservation_timeouts now db ≡ none
unfolding handle_reservation_timeouts
handle_reservation_timeouts-none now db = ground arith

pub extend_reservations-Keeps :
    (client : Name) (chosen : List Name) (now : ℕ) → Keeps (extend_reservations client chosen now)
unfolding extend_reservations
extend_reservations-Keeps client chosen now = extend_where-Keeps (owned client chosen) now

pub extend_all_reservations-Keeps :
    (client : Name) (now : ℕ) → Keeps (extend_all_reservations client now)
unfolding extend_all_reservations
extend_all_reservations-Keeps client now = extend_where-Keeps (owned_by client) now

pub end_reservations-Keeps :
    (client : Name) (chosen : List Name) → Keeps (end_reservations client chosen)
unfolding end_reservations
end_reservations-Keeps client chosen = release-Keeps (owned client chosen)

pub end_all_reservations-Keeps : (client : Name) → Keeps (end_all_reservations client)
unfolding end_all_reservations
end_all_reservations-Keeps client = release-Keeps (owned_by client)

pub handle_reservation_timeouts-Keeps : (now : ℕ) → Keeps (handle_reservation_timeouts now)
handle_reservation_timeouts-Keeps now = record {
  valid = λ db v. rw handle_reservation_timeouts-none tt;
  free = λ db v f. rw handle_reservation_timeouts-none tt;
}
