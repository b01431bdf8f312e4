-- ===== src/Endpoints/Granting.antt =====
-- What a client's `reserve` does to the client, to the tables and to the workers.
use usbip_ice.Base.{ℕ, Name, ◌≡◌, refl, ◌∙◌, Bool, true, Option, some, List, ◌++◌, map, String}
use usbip_ice.Schema.{Db}
use usbip_ice.Reservations.{Granted}
use usbip_ice.Requests.{Items, Members}
use usbip_ice.Access.ControlDatabase
use usbip_ice.Control
use usbip_ice.Control.{Server, Reserve, requests}
use usbip_ice.Control.Threads.{prompt, prompt-sends_each}
use usbip_ice.Endpoints.ControlApp.{granted, Call, request_control}
use usbip_ice.Endpoints.Serving.{perform, request_control-reserves}

-- The request that a granted device needs
abbrev pub request_for : Name → Members → Granted → Reserve
request_for kind args row = record {
  worker_url = record { ip = row.ip; port = row.server_port };
  serial = row.serial;
  kind = kind;
  args = args;
}

module _ {C A : Type 0} (emit : ℕ → Bool) (dumps : Name → C → Option A) (event_named : String → C)
    (cast : Items → Option (List Name)) (now : ℕ) where
  -- Let the database grant these rows to a client's request to reserve, and let each thread read the
  -- loop's row before the next turn. Then the client gets these rows, the tables become what the
  -- database makes of them, and the control server asks for each row, in order, the worker at the
  -- row's address to reserve the row's device with the kind and the arguments that the client gave;
  -- nothing else changes.
  pub reserve-asks :
      (name : Name) (amount : ℕ) (kind : Name) (args : Members) (rows : List Granted) (db' : Db)
      (c : Server A)
      → ControlDatabase.reserve true amount name now c.db ≡ (some rows, db')
      → request_control emit dumps event_named cast
          (prompt rows)
          true
          now
          name
          (Call.reserve amount kind args)
          c
        ≡ (
          some (granted rows),
          record c { db = db'; reserves = c.reserves ++ map (request_for kind args) rows },
        )
  unfolding perform Control.reserve
  reserve-asks name amount kind args rows db' c e =
      request_control-reserves emit dumps event_named cast (prompt rows) true now name amount kind
        args c
      ∙ rw (e, prompt-sends_each rows) refl
