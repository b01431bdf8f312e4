-- ===== src/Examples/Wires.antt =====
-- Requests, batches, log rows and configurations.
use usbip_ice.Base.{
  arith, ℕ, Name, ◌≡◌, refl, true, Option, none, some, List, [], ◌∷◌, ◌++◌, map, ◌==◌,
  if◌then◌else◌, length, replicate,
}
use usbip_ice.Base.Dict.{Dict}
use usbip_ice.Control.Threads.{Act, advance, read, prompt, late}
use usbip_ice.Requests.{
  Json, text, Items, nil, cons, Members, end, member, EventMethod, Annotation, forward_request,
}
use usbip_ice.Schema.{Db}
use usbip_ice.Reservations.{Granted, make_reservations, grants, insert_rows}
use usbip_ice.Access.{get_data, execute}
use usbip_ice.Access.ControlDatabase
use usbip_ice.Endpoints.Granting.{reserve-asks}
use usbip_ice.Endpoints.ControlApp.{granted, Call, end_some, request_control, texts}
use usbip_ice.Endpoints.Releasing.{ReleasesFor, end_some-ReleasesFor}
use usbip_ice.Reservations.{owned}
use usbip_ice.Examples.Tables.{tables-IsValid}
use usbip_ice.Endpoints.Serving.{perform, request_control-performs}
use usbip_ice.Endpoints.Socket.{handle, batch_body, unbind_body, request_body}
use usbip_ice.Endpoints.Batching.{jsons, handle-batch, unbind-dropped}
use usbip_ice.Logs
use usbip_ice.Logs.{Row, logged, sent, run}
use usbip_ice.Logs.Delivery.{new, line_of, rows_of, run-delivers}
use usbip_ice.Circuit.{increment, cycles}
use usbip_ice.Circuit.Periods.{cycles-raise}
use usbip_ice.Device.Reservable.{Decorator}
use usbip_ice.Config.Text
use usbip_ice.Config.{Parser, config, read_file}
use usbip_ice.Config.Sources.{chosen, config-chooses}
use usbip_ice.Examples.Servers.{all_pass, dumped, named, server}
use usbip_ice.Examples.Clients.{format, client}

-- The driver's conversion of a list, where every element is a text.
abbrev cast_onto : Name → Option (List Name) → Option (List Name)
cast_onto s none = none
cast_onto s (some l) = some (s ∷ l)

abbrev cast : Items → Option (List Name)
cast nil = some []
cast (cons (text s) l) = cast_onto s (cast l)
cast (cons _ l) = none

cast-texts : (l : List Name) → cast (texts l) ≡ some l
cast-texts [] = refl
cast-texts (s ∷ l) = rw (cast-texts l) refl

abbrev threads : List Act
threads = advance ∷ read ∷ []

abbrev call : Call
call = Call.reserve 1 3 (member 8 (text 9) end)

request_control-performs_example :
    request_control all_pass dumped named cast threads true 1000 5 call server
    ≡ perform all_pass dumped named cast threads true 1000 5 call server
request_control-performs_example =
    request_control-performs all_pass dumped named cast threads true 1000 5 call server cast-texts

end_some-ReleasesFor_example :
    ReleasesFor format
      (owned 5 (7 ∷ []))
      server
      client
      (request_control all_pass dumped named cast threads true 1000 5 (end_some (7 ∷ [])) server)
end_some-ReleasesFor_example =
    end_some-ReleasesFor format all_pass dumped named cast threads 1000 5 (7 ∷ []) server client
      cast-texts tables-IsValid

-- The states of class 3 have a method for the event 4; the devices 7 and 8 are in such states.
abbrev methods : Dict (Dict (EventMethod ℕ))
methods =
    (3, (4, record { method = length; parms = 1 ∷ []; annotations = Annotation.empty ∷ [] }) ∷ [])
    ∷ []

abbrev devs : Dict Name
devs = (7, 3) ∷ (8, 3) ∷ []

abbrev contents : Members
contents = member 1 (text 20) end

handle-batch_example :
    (handle methods devs
        (prompt (jsons (7 ∷ 8 ∷ [])))
        (some 5)
        (some (batch_body (texts (7 ∷ 8 ∷ [])) 4 contents))
      ≡ map (λ s. forward_request methods devs s 4 contents) (7 ∷ 8 ∷ []))
    × (handle methods devs
          (late (jsons (7 ∷ 8 ∷ [])))
          (some 5)
          (some (batch_body (texts (7 ∷ 8 ∷ [])) 4 contents))
        ≡ replicate 2 (forward_request methods devs 8 4 contents))
handle-batch_example = handle-batch methods devs 5 4 8 (7 ∷ []) contents refl refl refl

abbrev acts : List Logs.Act
acts =
    logged (record { level = 20; msg = 3 })
    ∷ logged (record { level = 40; msg = 4 })
    ∷ sent true
    ∷ logged (record { level = 10; msg = 5 })
    ∷ []

run-delivers_example :
    let (r, lines) = run (λ s. none) 9 acts (new, []) in
    (r.local ≡ rows_of acts) × (lines ++ map (line_of 9) r.backlog ≡ map (line_of 9) (rows_of acts))
run-delivers_example = run-delivers (λ s. none) 9 acts refl

-- The file 30 names the worker and the firmware, and the environment has the rest.
abbrev files : Name → Option Parser
files p =
    if p == 30
    then some (
        (Text.connection, (Text.worker_name, 40) ∷ [])
        ∷ (Text.firmware, (Text.default, 41) ∷ (Text.pulse_count, 42) ∷ [])
        ∷ [])
    else none

abbrev environ : Dict Name
environ = (Text.control_server, 43) ∷ (Text.database, 44) ∷ []

config-chooses_example :
    config files environ (some (some 45)) (some 30) ≡ (elim (read_file files (some 30)) [
      | none ↦ none
      | some parser ↦ chosen environ (some (some 45)) parser
    ])
config-chooses_example = config-chooses files environ (some (some 45)) (some 30)

cycles-raise_example : (cycles (increment 3 9) 3 (record { counter = 0; out = true })).out ≡ true
cycles-raise_example = cycles-raise 3 9 2 true (omega arith)

-- States that are known by their values.
abbrev decorators : List (Decorator (List Json))
decorators =
    record { name = 1; args = []; cls = λ values. values }
    ∷ record { name = 2; args = 5 ∷ 6 ∷ []; cls = λ values. values }
    ∷ []

unbind-dropped_example :
    (handle methods devs [] (some 5) (some (unbind_body 7)) ≡ [])
    × (handle methods devs [] (some 5) (some (request_body 7 4 contents))
        ≡ forward_request methods devs 7 4 contents ∷ [])
unbind-dropped_example = unbind-dropped methods devs [] 5 7 4 contents refl refl refl refl

abbrev row : Granted
row = record { serial = 8; ip = 10; server_port = 8081 }

abbrev after : Db
after = (ControlDatabase.reserve true 1 6 1000 server.db).1

server-grants : ControlDatabase.reserve true 1 6 1000 server.db ≡ (some (row ∷ []), after)
unfolding ControlDatabase.reserve get_data execute make_reservations grants insert_rows
server-grants = refl

reserve-asks_example :
    request_control all_pass dumped named cast
      (prompt (row ∷ []))
      true
      1000
      6
      (Call.reserve 1 3 (member 8 (text 9) end))
      server
    ≡ (
      some (granted (row ∷ [])),
      record server {
        db = after;
        reserves =
            record {
              worker_url = record { ip = 10; port = 8081 };
              serial = 8;
              kind = 3;
              args = member 8 (text 9) end;
            }
            ∷ [];
      },
    )
reserve-asks_example =
    reserve-asks all_pass dumped named cast 1000 6 1 3 (member 8 (text 9) end) (row ∷ []) after
      server server-grants
