-- ===== src/Endpoints/ControlApp.antt =====
-- The endpoints of src/usbipice/control/app.py that reserve, extend and end, and the requests that
-- src/usbipice/client/lib/BaseAPI.py makes to them.
use mathlib.Core.Option
use usbip_ice.Base.{ℕ, Name, Bool, true, false, Option, none, some, List, [], ◌∷◌, String}
use usbip_ice.Reservations.{Granted}
use usbip_ice.Requests.{
  Json, boolean, integer, text, array, object, Items, nil, cons, Members, end, member, Annotation,
  class, int, str, list, dict, Result, returned_false, value, Response,
}
use usbip_ice.Control
use usbip_ice.Control.{Server}
use usbip_ice.Control.Threads.{Act}
use usbip_ice.Endpoints.{amount_key, name_key, kind_key, args_key, serials_key, serve, parsed}

-- What `jsonify` is given.
pub data Answer : Type 0 where
  granted : List Granted → Answer
  extended : List (List Name) → Answer
  ended : List Name → Answer

abbrev pub answer : Option Answer → Result Answer
answer none = returned_false
answer (some a) = value a

-- Where the database fails, `Control.end` raises.
abbrev pub answer_ended : Option (List Name) → Option (Result Answer)
answer_ended none = none
answer_ended (some l) = some (value (ended l))

-- `%s::int` of a number or a bool
abbrev pub amount_of : Json → ℕ
amount_of (integer n) = n
amount_of (boolean true) = 1
amount_of _ = 0

-- The endpoints, by the names of their paths
pub data Route : Type 0 where
  to_reserve to_extend to_extendall to_end to_endall : Route

-- The parameters of their handlers
abbrev pub params : Route → List (Name × Annotation)
params to_reserve =
    (amount_key, class int)
    ∷ (name_key, class str)
    ∷ (kind_key, class str)
    ∷ (args_key, class dict)
    ∷ []
params to_extend = (name_key, class str) ∷ (serials_key, class list) ∷ []
params to_extendall = (name_key, class str) ∷ []
params to_end = (name_key, class str) ∷ (serials_key, class list) ∷ []
params to_endall = (name_key, class str) ∷ []

-- The methods of `BaseAPI` that make a request
pub data Call : Type 0 where
  reserve : ℕ → Name → Members → Call
  extend_some end_some : List Name → Call
  extend_each end_each : Call

abbrev pub route_of : Call → Route
route_of (reserve amount kind args) = to_reserve
route_of (extend_some serials) = to_extend
route_of extend_each = to_extendall
route_of (end_some serials) = to_end
route_of end_each = to_endall

abbrev pub texts : List Name → Items
texts [] = nil
texts (s ∷ l) = cons (text s) (texts l)

-- The body of a request of the client `name`
abbrev pub body_of : Name → Call → Members
body_of name (reserve amount kind args) =
    member amount_key (integer amount) (
      member name_key (text name) (member kind_key (text kind) (member args_key (object args) end)))
body_of name (extend_some serials) =
    member name_key (text name) (member serials_key (array (texts serials)) end)
body_of name extend_each = member name_key (text name) end
body_of name (end_some serials) =
    member name_key (text name) (member serials_key (array (texts serials)) end)
body_of name end_each = member name_key (text name) end

-- `acts` is the order in which the threads of a reservation run. `cast` is the database driver's
-- `%s::varchar(255)[]` of a list, `none` where it raises; then the call of the database fails as
-- it does without a connection.
module _ {C A : Type 0} (emit : ℕ → Bool) (dumps : Name → C → Option A) (event_named : String → C)
    (cast : Items → Option (List Name)) (acts : List Act) (up : Bool) (now : ℕ) where
  -- `make_reservations`; no other values pass the check of types, here and below.
  unfoldable pub make_reservations : List Json → Server A → Option (Result Answer) × Server A
  make_reservations (amount ∷ text name ∷ text kind ∷ object args ∷ []) c =
      let (rows, c') = Control.reserve acts up name (amount_of amount) kind args now c in
      (some (answer (Option.map granted rows)), c')
  make_reservations _ c = (none, c)

  abbrev pub extend_cast :
      Name → Option (List Name) → Server A → Option (List (List Name)) × Server A
  extend_cast name none c = Control.extend false name [] now c
  extend_cast name (some chosen) c = Control.extend up name chosen now c

  unfoldable pub extend : List Json → Server A → Option (Result Answer) × Server A
  extend (text name ∷ array serials ∷ []) c =
      let (rows, c') = extend_cast name (cast serials) c in
      (some (answer (Option.map extended rows)), c')
  extend _ c = (none, c)

  unfoldable pub extendall : List Json → Server A → Option (Result Answer) × Server A
  extendall (text name ∷ []) c =
      let (rows, c') = Control.extend_all up name now c in
      (some (answer (Option.map extended rows)), c')
  extendall _ c = (none, c)

  abbrev pub end_cast : Name → Option (List Name) → Server A → Option (List Name) × Server A
  end_cast name none c = Control.end_chosen emit dumps event_named false name [] c
  end_cast name (some chosen) c = Control.end_chosen emit dumps event_named up name chosen c

  -- `end`
  unfoldable pub end_chosen : List Json → Server A → Option (Result Answer) × Server A
  end_chosen (text name ∷ array serials ∷ []) c =
      let (l, c') = end_cast name (cast serials) c in (answer_ended l, c')
  end_chosen _ c = (none, c)

  unfoldable pub endall : List Json → Server A → Option (Result Answer) × Server A
  endall (text name ∷ []) c =
      let (l, c') = Control.end_all emit dumps event_named up name c in (answer_ended l, c')
  endall _ c = (none, c)

  abbrev pub handler : Route → List Json → Server A → Option (Result Answer) × Server A
  handler to_reserve = make_reservations
  handler to_extend = extend
  handler to_extendall = extendall
  handler to_end = end_chosen
  handler to_endall = endall

  -- What the control server does on a GET
  unfoldable pub get_control : Route → Bool → Option Json → Server A → Response Answer × Server A
  unfolding serve make_reservations extend extendall end_chosen endall
  get_control route is_json body c = serve (handler route) (params route) is_json body c

  -- `BaseAPI.requestControl` by a client, whose request reaches the server
  unfoldable pub request_control : Name → Call → Server A → Option Answer × Server A
  unfolding get_control
  request_control name call c =
      parsed (get_control (route_of call) true (some (object (body_of name call))) c)
