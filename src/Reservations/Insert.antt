-- ===== src/Reservations/Insert.antt =====
-- `INSERT INTO Reservations` of rows whose keys are new.
use mathlib.Core.Path.{subst}
use mathlib.Core.Option.{some-injective}
use usbip_ice.Base.{
  Bool-cases, inl, inr, Unique-append, ◌∙◌, ℕ, ◌+◌, if◌then◌else◌, Name, ◌≡◌, refl, false, none,
  some, List, [], ◌∷◌, ◌++◌, map, append-nil, append_assoc, Apart, arith, contains, contains-append,
  Unique, map-append, Bool-cases, inl, inr,
}
use usbip_ice.Schema.{Reservation, reserved_serials, find_reservation}
use usbip_ice.Procedures.{hour}
use usbip_ice.Reservations.{Granted, granted_serials, new_reservation, insert_rows}

pub insert_rows-append :
    (new rs : List Reservation)
    → Unique (reserved_serials new)
    → Apart (reserved_serials new) (reserved_serials rs)
    → insert_rows new rs ≡ some (rs ++ new)
unfolding insert_rows
insert_rows-append [] rs u a = rw append-nil
insert_rows-append (r ∷ new) rs u a =
    let fresh : contains r.device (reserved_serials rs) ≡ false = a r.device (ground arith) in
    rw (fresh, insert_rows-append new (rs ++ r ∷ []) u.1 apart) (rw append_assoc refl)
  where
    apart : Apart (reserved_serials new) (reserved_serials (rs ++ r ∷ []))
    apart k h = rw (map-append, contains-append) (ground (arith, a k, u.0, h))

-- A successful insertion appends the rows, and keeps the primary key.
pub insert_rows-some :
    (new rs out : List Reservation)
    → insert_rows new rs ≡ some out
    → (out ≡ rs ++ new) × (Unique (reserved_serials rs) → Unique (reserved_serials out))
unfolding insert_rows
insert_rows-some [] rs out e =
    (cc (append-nil rs), subst (λ l. Unique (reserved_serials l)) (some-injective _ _ e))
insert_rows-some (r ∷ new) rs out e = elim (Bool-cases (contains r.device (reserved_serials rs))) [
  | inl old ↦ cc
  | inr fresh ↦
      let (f, g) = insert_rows-some new (rs ++ r ∷ []) out (ground arith) in
      (
        f ∙ append_assoc rs (r ∷ []) new,
        λ u. g (
            rw map-append
              (Unique-append (reserved_serials rs) (r.device ∷ []) u (refl, tt) (ground arith))),
      )
]

module _ (client : Name) (now : ℕ) where
  pub reserved_serials-new :
      (gs : List Granted)
      → reserved_serials (map (new_reservation client now) gs) ≡ granted_serials gs
  reserved_serials-new [] = refl
  reserved_serials-new (g ∷ gs) = ground (arith, reserved_serials-new gs)

  pub find_reservation-new :
      (s : Name) (gs : List Granted)
      → find_reservation s (map (new_reservation client now) gs) ≡ (
          if contains s (granted_serials gs)
          then some (record { device = s; client_name = client; until = now + hour })
          else none)
  find_reservation-new s [] = refl
  find_reservation-new s (g ∷ gs) = ground (arith, find_reservation-new s gs)
