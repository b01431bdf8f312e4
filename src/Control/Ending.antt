-- ===== src/Control/Ending.antt =====
-- What `Control.end` does.
use mathlib.Core.Option
use usbip_ice.Base.{
  ℕ, Name, ◌≡◌, refl, ◌∙◌, Bool, true, Option, none, some, List, [], ◌∷◌, ◌++◌, map, String,
  append-nil, append_assoc,
}
use usbip_ice.Schema.{Reservation, Db}
use usbip_ice.Schema.Keys.{IsValid}
use usbip_ice.Reservations.{Ended, owned, owned_by, end_reservations, end_all_reservations}
use usbip_ice.Reservations.Release.{
  Ends, Releases, ended_serials, end_reservations-Ends, end_all_reservations-Ends,
}
use usbip_ice.Access.{settle, execute, get_data}
use usbip_ice.Access.ControlDatabase
use usbip_ice.Control.{http, Unreserve, Server, notify_end, notify_all, finish, end_chosen, end_all}

-- The GET that tells a worker of a row.
abbrev pub unreserve_of : Ended → Unreserve
unreserve_of row = record {
  worker_url = http (record { ip = row.worker_ip; port = row.worker_port });
  serial = row.serial;
}

module _ {C A : Type 0} (emit : ℕ → Bool) (dumps : Name → C → Option A)
    (event_named : String → C) where
  notify_all-lem :
      (client : Name) (rows : List Ended) (c : Server A)
      → let c' = notify_all emit dumps event_named client rows c in
        (c'.db ≡ c.db) × (c'.unreserves ≡ c.unreserves ++ map unreserve_of rows)
  unfolding notify_all notify_end
  notify_all-lem client [] c = (refl, rw append-nil refl)
  notify_all-lem client (row ∷ rows) c =
      let c' =
        notify_end emit dumps event_named client row.serial
          (http (record { ip = row.worker_ip; port = row.worker_port })) c in
      let (kept, told) = notify_all-lem client rows c' in
      (kept, told ∙ append_assoc c.unreserves (unreserve_of row ∷ []) (map unreserve_of rows))

  -- What a call that ends the reservations selected by `ends` makes of the server.
  pub record Ending (ends : Reservation → Bool) (c : Server A) (r : Option (List Name) × Server A)
      : Type 0 where
    pub rows : List Ended
    pub db_after : Releases ends c.db rows r.1.db
    pub returned : r.0 ≡ some (ended_serials rows)
    pub told : r.1.unreserves ≡ c.unreserves ++ map unreserve_of rows

  finish-Ending :
      (ends : Reservation → Bool) (client : Name) (c : Server A) (r : Option (List Ended × Db))
      → Ends ends c.db r
      → Ending ends c (
          finish emit dumps event_named client
            (Option.map (map ControlDatabase.same_row) (settle c.db r).0, (settle c.db r).1)
            c)
  unfolding finish
  finish-Ending ends client c none e = absurd e
  finish-Ending ends client c (some (rows, db')) e =
      let (kept, told) = notify_all-lem client rows (record c { db = db' }) in
      record {
        rows = rows;
        db_after = rw (ControlDatabase.map-same_row rows, kept) e;
        returned = rw (ControlDatabase.map-same_row rows) refl;
        told = rw (ControlDatabase.map-same_row rows) told;
      }

  -- With the tables' constraints met and the database reachable, `end` ends exactly the client's
  -- reservations among the serials, returns their devices, and sends each one's worker, at that
  -- row's address, one request to unreserve it, and no other request.
  pub end_chosen-Ending :
      (client : Name) (chosen : List Name) (c : Server A)
      → IsValid c.db
      → Ending (owned client chosen) c (end_chosen emit dumps event_named true client chosen c)
  unfolding end_chosen ControlDatabase.end_chosen get_data execute
  end_chosen-Ending client chosen c v =
      finish-Ending (owned client chosen) client c (end_reservations client chosen c.db)
        (end_reservations-Ends client chosen c.db v)

  -- With the tables' constraints met and the database reachable, `endAll` ends exactly the client's
  -- reservations, returns their devices, and sends each one's worker, at that row's address, one
  -- request to unreserve it, and no other request.
  pub end_all-Ending :
      (client : Name) (c : Server A)
      → IsValid c.db
      → Ending (owned_by client) c (end_all emit dumps event_named true client c)
  unfolding end_all ControlDatabase.end_all get_data execute
  end_all-Ending client c v =
      finish-Ending (owned_by client) client c (end_all_reservations client c.db)
        (end_all_reservations-Ends client c.db v)
