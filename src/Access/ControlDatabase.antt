-- ===== src/Access/ControlDatabase.antt =====
-- `class ControlDatabase` of src/usbipice/control/ControlDatabase.py. `now` is the database's
-- clock.
use mathlib.Core.Option
use usbip_ice.Base.{
  ℕ, Name, ◌≡◌, refl, ap, Bool, Option, none, some, List, [], ◌∷◌, map, if◌then◌else◌, is_empty,
}
use usbip_ice.Schema.{Worker, Db}
use usbip_ice.Procedures.{TimedOut, heartbeat_worker, handle_worker_timeouts}
use usbip_ice.Reservations.{
  Granted, Ended, make_reservations, extend_reservations, extend_all_reservations, end_reservations,
  end_all_reservations, handle_reservation_timeouts, get_reservations_ending_soon,
  get_device_worker,
}
use usbip_ice.Access.{execute, proc, get_data, Url}

-- An empty result is falsy too.
unfoldable pub get_device_worker_url : Bool → Name → Db → Option Url × Db
unfolding execute
get_device_worker_url up serial db =
    let (rows, db') = execute up (get_device_worker serial) db in
    (
      elim rows [
        | none ↦ none
        | some l ↦ elim l [ [] ↦ none | row ∷ _ ↦ some (record { ip = row.0; port = row.1 }) ]
      ],
      db',
    )

-- The dict {serial, ip, serverport} of a row.
abbrev pub same_row {ℓ} : {A : Type ℓ} → A → A
same_row row = row

pub map-same_row : {A : Type 0} (rows : List A) → map same_row rows ≡ rows
map-same_row [] = refl
map-same_row (r ∷ rows) = ap (λ l. r ∷ l) (map-same_row rows)

unfoldable pub reserve : Bool → ℕ → Name → ℕ → Db → Option (List Granted) × Db
unfolding get_data
reserve up amount client now = get_data up (make_reservations amount client now) same_row

-- `fetchall` gives a list of rows, and a row of one column is a list of one.
abbrev pub rows_of : Option (List Name) × Db → Option (List (List Name)) × Db
rows_of (rows, db) = (Option.map (map (λ s. s ∷ [])) rows, db)

unfoldable pub extend : Bool → Name → List Name → ℕ → Db → Option (List (List Name)) × Db
unfolding execute
extend up name chosen now db = rows_of (execute up (extend_reservations name chosen now) db)

unfoldable pub extend_all : Bool → Name → ℕ → Db → Option (List (List Name)) × Db
unfolding execute
extend_all up name now db = rows_of (execute up (extend_all_reservations name now) db)

-- `end`
unfoldable pub end_chosen : Bool → Name → List Name → Db → Option (List Ended) × Db
unfolding get_data
end_chosen up name chosen = get_data up (end_reservations name chosen) same_row

unfoldable pub end_all : Bool → Name → Db → Option (List Ended) × Db
unfolding get_data
end_all up name = get_data up (end_all_reservations name) same_row

-- The view WorkerHeartbeats, as {name, ip, port}.
unfoldable pub get_workers : Bool → Db → Option (List (Name × Url)) × Db
unfolding get_data
get_workers up =
    get_data up (λ db. some (db.workers, db))
      (λ (w : Worker). (w.worker_name, record { ip = w.host; port = w.server_port }))

unfoldable pub heartbeat : Bool → Name → ℕ → Db → Bool × Db
unfolding proc
heartbeat up name now = proc up (heartbeat_worker name now)

unfoldable pub get_worker_timeouts : Bool → ℕ → ℕ → Db → Option (List TimedOut) × Db
unfolding get_data
get_worker_timeouts up timeout_dur now =
    get_data up (handle_worker_timeouts timeout_dur now) same_row

-- No row gives `False` as well.
unfoldable pub get_reservation_ending_soon : Bool → ℕ → ℕ → Db → Option (List Name) × Db
unfolding execute
get_reservation_ending_soon up minutes now db =
    let (rows, db') = execute up (get_reservations_ending_soon minutes now) db in
    (elim rows [ none ↦ none | some l ↦ if is_empty l then none else some l ], db')

unfoldable pub get_reservation_timeouts : Bool → ℕ → Db → Option (List Ended) × Db
unfolding get_data
get_reservation_timeouts up now = get_data up (handle_reservation_timeouts now) same_row
