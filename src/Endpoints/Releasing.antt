-- ===== src/Endpoints/Releasing.antt =====
-- What a client's `end` and `endAll` do to the client, to the tables and to the workers.
use mathlib.Core.Option
use usbip_ice.Base.{
  ℕ, Name, ◌≡◌, refl, ap, ◌∙◌, Bool, true, Option, none, some, List, ◌++◌, map, String,
  if◌then◌else◌, ◌==◌, [], ◌∷◌, false, arith,
}
use usbip_ice.Schema.{Reservation, Device, Worker, find_device, find_worker}
use usbip_ice.Schema.Keys.{IsValid}
use usbip_ice.Reservations.{Ended, owned, owned_by}
use usbip_ice.Reservations.Release.{Releases, ending, ended_serials, addresses}
use usbip_ice.Requests.{Items}
use usbip_ice.Control.Threads.{Act}
use usbip_ice.Control.{Target, http, Unreserve, Server, end_chosen, end_all}
use usbip_ice.Control.Ending.{Ending, unreserve_of, end_chosen-Ending, end_all-Ending}
use usbip_ice.Client.{Value, Client, get_connection_info, end_answered}
use usbip_ice.Client.Tracking.{remove_all-untracks}
use usbip_ice.Endpoints.ControlApp.{Answer, ended, end_some, end_each, texts, request_control}
use usbip_ice.Endpoints.Serving.{perform, request_control-performs}

abbrev pub serials_of : Option Answer → Option (List Name)
serials_of (some (ended l)) = some l
serials_of _ = none

-- The workers that are asked to unreserve a device
abbrev pub targets : Name → List Unreserve → List Target
targets s [] = []
targets s (u ∷ l) = if s == u.serial then u.worker_url ∷ targets s l else targets s l

abbrev pub http_of : Name × ℕ → Target
http_of p = http (record { ip = p.0; port = p.1 })

targets-addresses :
    (s : Name) (rows : List Ended)
    → targets s (map unreserve_of rows) ≡ map http_of (addresses s rows)
targets-addresses s [] = refl
targets-addresses s (row ∷ rows) = ground (arith, targets-addresses s rows)

map-if :
    (b : Bool) (p : Name × ℕ)
    → map http_of (if b then p ∷ [] else []) ≡ (if b then http_of p ∷ [] else [])
map-if true p = refl
map-if false p = refl

module _ {A : Type 0} (format : Value → Value → Name) where
  -- What a call that ends the reservations selected by `ends` leaves of the server and of the
  -- client.
  pub record ReleasesFor (ends : Reservation → Bool) (c : Server A) (k : Client)
      (r : Option Answer × Server A) : Type 0 where
    pub rows : List Ended
    pub db_after : Releases ends c.db rows r.1.db
    pub told : r.1.unreserves ≡ c.unreserves ++ map unreserve_of rows
    pub asked :
        (s : Name) (d : Device) (w : Worker)
        → find_device s c.db.devices ≡ some d
        → find_worker d.worker c.db.workers ≡ some w
        → targets s (map unreserve_of rows) ≡ (
            if ending ends c.db.reservations s
            then http (record { ip = w.host; port = w.server_port }) ∷ []
            else [])
    pub returned : (end_answered format (serials_of r.0) k).0 ≡ some (ended_serials rows)
    pub untracked :
        (s : Name)
        → get_connection_info s (end_answered format (serials_of r.0) k).1
          ≡ (if ending ends c.db.reservations s then none else get_connection_info s k)

  answered-ReleasesFor :
      {C : Type 0} (emit : ℕ → Bool) (dumps : Name → C → Option A) (event_named : String → C)
      (ends : Reservation → Bool) (c : Server A) (k : Client) (r : Option (List Name) × Server A)
      → Ending emit dumps event_named ends c r
      → ReleasesFor ends c k (Option.map ended r.0, r.1)
  unfolding end_answered
  answered-ReleasesFor emit dumps event_named ends c k r e = record {
    rows = e.rows;
    db_after = e.db_after;
    told = e.told;
    asked = λ s d w has known.
        targets-addresses s e.rows
        ∙ ap (map http_of) (e.db_after.at_worker s d w has known)
        ∙ map-if (ending ends c.db.reservations s) (w.host, w.server_port);
    returned = rw e.returned refl;
    untracked = λ s. rw e.returned (
        remove_all-untracks format (ended_serials e.rows) k s
        ∙ ap (λ b. if b then none else get_connection_info s k) (e.db_after.rows_ended s));
  }

  module _ {C : Type 0} (emit : ℕ → Bool) (dumps : Name → C → Option A) (event_named : String → C)
      (cast : Items → Option (List Name)) (acts : List Act) (now : ℕ) where
    -- Let the tables meet their constraints, the database and the control server be reached, and
    -- the driver take a list of texts for these texts. Then a client's `end` ends in the tables
    -- exactly its reservations among the serials, and returns their devices; the control server
    -- makes requests to unreserve for these devices and no others, for each of them exactly one, at
    -- the address of the worker that has it; and the client stops tracking exactly these devices.
    pub end_some-ReleasesFor :
        (name : Name) (serials : List Name) (c : Server A) (k : Client)
        → ((l : List Name) → cast (texts l) ≡ some l)
        → IsValid c.db
        → ReleasesFor
            (owned name serials)
            c
            k
            (request_control emit dumps event_named cast acts true now name (end_some serials) c)
    unfolding perform
    end_some-ReleasesFor name serials c k h v =
        rw
          (request_control-performs emit dumps event_named cast acts true now name
            (end_some serials) c h)
          (answered-ReleasesFor emit dumps event_named (owned name serials) c k
            (end_chosen emit dumps event_named true name serials c)
            (end_chosen-Ending emit dumps event_named name serials c v))

    -- On the same conditions a client's `endAll` does so for all of its reservations.
    pub end_each-ReleasesFor :
        (name : Name) (c : Server A) (k : Client)
        → ((l : List Name) → cast (texts l) ≡ some l)
        → IsValid c.db
        → ReleasesFor
            (owned_by name)
            c
            k
            (request_control emit dumps event_named cast acts true now name end_each c)
    unfolding perform
    end_each-ReleasesFor name c k h v =
        rw (request_control-performs emit dumps event_named cast acts true now name end_each c h) (
          answered-ReleasesFor emit dumps event_named (owned_by name) c k
            (end_all emit dumps event_named true name c)
            (end_all-Ending emit dumps event_named name c v))
