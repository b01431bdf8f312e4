-- ===== src/Examples/Calls.antt =====
-- Requests, events of handlers and pulse counts.
use usbip_ice.Base.{
  ◌≤◌, some, ℕ, Name, ◌≡◌, refl, List, [], ◌∷◌, arith, ◌==◌, if◌then◌else◌, length,
}
use usbip_ice.Base.Dict.{Dict}
use usbip_ice.Requests
use usbip_ice.Requests.{
  Json, null, integer, text, array, object, Items, Members, end, member, get, Annotation,
  EventMethod, Result, Response, status, reply, respond, handle_request,
}
use usbip_ice.Handlers.Messages.{set_member, package_contents, message-handled}
use usbip_ice.Handlers.{
  JsonMethodCall, Received, receive, Class, no_bases, base, Registry, handle_event, call_found,
  size,
}
use usbip_ice.Handlers.Order.{find_method, handle_event_lem}
use usbip_ice.Pulses.{Evaluator, Pulse, Act}
use usbip_ice.Pulses.Results.{IsIdle}

-- The handler of `/unreserve`, which knows the serial 7.
abbrev unreserves : List Json → Result ℕ
unreserves (text s ∷ []) = if s == 7 then Result.returned_true else Result.returned_false
unreserves _ = Result.returned_false

abbrev params : List (Name × Annotation)
params = (1, Annotation.class Requests.Class.str) ∷ []

abbrev body : Members
body = member 1 (text 7) end

-- The states of class 3 have a method for the event 4.
abbrev methods : Dict (Dict (EventMethod ℕ))
methods =
    (3, (4, record { method = length; parms = 1 ∷ []; annotations = Annotation.empty ∷ [] }) ∷ [])
    ∷ []

-- Class 5 is derived from 6, and only 6 has a method for the event 4.
abbrev derived : Class
derived = Class.class 5 (base (Class.class 6 no_bases) no_bases)

abbrev registered : Registry ℕ
registered =
    (5, (8, record { fn = length; parms = [] }) ∷ [])
    ∷ (6, (4, record { fn = length; parms = 1 ∷ [] }) ∷ [])
    ∷ []

abbrev evaluator : Evaluator
evaluator = record { bitstream_queue = 2 ∷ 3 ∷ []; results = (9, 100) ∷ []; sent = [] }

abbrev acts : List Act
acts = Act.turn Pulse.timeout ∷ Act.request (4 ∷ []) ∷ Act.turn (Pulse.pulses 50) ∷ []

evaluator-IsIdle : IsIdle evaluator
evaluator-IsIdle h = ground (arith, h)

handle_event_lem_example :
    handle_event 2 registered derived 4 body ≡ call_found (find_method registered 4 derived) body
unfolding size
handle_event_lem_example = handle_event_lem 2 registered derived 4 body (omega arith)

abbrev method : JsonMethodCall ℕ
method = record { fn = length; parms = 1 ∷ 2 ∷ [] }

abbrev handled : Registry ℕ
handled = (6, (4, method) ∷ []) ∷ []

abbrev handler : Class
handler = Class.class 6 no_bases

found : find_method handled 4 handler ≡ some method
unfolding find_method
found = refl

abbrev sent_contents : Members
sent_contents = member 5 (text 4) (member 1 (text 7) end)

size-handler : size handler ≤ 1
unfolding size
size-handler = omega arith

message-handled_example :
    let sent = set_member 2 (text 9) sent_contents in
    (receive 2 3 5 (some (package_contents 2 3 9 sent_contents))
      ≡ Received.event_of (text 9) (text 4) sent)
    × (handle_event 1 handled handler 4 sent ≡ some 2)
message-handled_example =
    message-handled 2 3 5 refl refl 1 handled handler method 9 4 sent_contents refl refl refl
      size-handler found
