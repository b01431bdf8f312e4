-- ===== src/Handlers.antt =====
-- The event handlers of clients: `register`, `JsonMethodCall` and
-- `AbstractEventHandler.handleEvent` of src/usbipice/client/lib/AbstractEventHandler.py, and the
-- dispatch of messages in src/usbipice/client/lib/EventServer.py.
pub mod Order
pub mod Messages
use usbip_ice.Base.{
  ℕ, zero, suc, Name, ◌+◌, Bool, true, false, not, ◌&&◌, ◌||◌, Option, none, some, List, [], ◌∷◌,
  map, ◌==◌, if◌then◌else◌, is_empty,
}
use usbip_ice.Base.Dict.{Dict, lookup, insert}
use usbip_ice.Requests
use usbip_ice.Requests.{
  boolean, integer, array, Json, null, object, text, Members, get, is_true, has_null,
}

-- A class with its bases, which are written out below it.
mutual
  pub data Class : Type 0 where
    class : Name → Bases → Class

  pub data Bases : Type 0 where
    no_bases : Bases
    base : Class → Bases → Bases

-- A method and its keys; a handler has every method that is registered for its class.
pub record JsonMethodCall (A : Type 0) : Type 0 where
  pub fn : List Json → A
  pub parms : List Name

-- `search.insert(0, cls)` for the reversed bases
abbrev pub prepend : Bases → Bases → Bases
prepend no_bases rest = rest
prepend (base c bs) rest = base c (prepend bs rest)

-- `REGISTERED_METHODS`
abbrev pub Registry : Type 0 → Type 0
Registry A = Dict (Dict (JsonMethodCall A))

module _ {A : Type 0} where
  -- `Register.__set_name__` of a method of the class `owner`
  unfoldable pub register : Name → Name → JsonMethodCall A → Registry A → Registry A
  register owner key m registered = elim (lookup owner registered) [
    | none ↦ insert owner ((key, m) ∷ []) registered
    | some ms ↦ insert owner (insert key m ms) registered
  ]

  -- The methods of a class, where it has any.
  abbrev pub methods_of : Registry A → Name → Option (Dict (JsonMethodCall A))
  methods_of registered name = elim (lookup name registered) [
    | none ↦ none
    | some ms ↦ if is_empty ms then none else some ms
  ]

  -- A turn of the `while search` loop, with what the loop finds after `continue` and after the
  -- bases are put in front.
  abbrev pub take_turn :
      Option (Dict (JsonMethodCall A))
      → Name
      → Option (JsonMethodCall A)
      → Option (JsonMethodCall A)
      → Option (JsonMethodCall A)
  take_turn none event skipped above = skipped
  take_turn (some ms) event skipped above = elim (lookup event ms) [
    | none ↦ above
    | some m ↦ some m
  ]

  -- The `while search` loop of `handleEvent`, on fuel
  pub search_method : ℕ → Registry A → Name → Bases → Option (JsonMethodCall A)
  search_method zero registered event classes = none
  search_method (suc n) registered event no_bases = none
  search_method (suc n) registered event (base (class name bases) classes) =
      take_turn (methods_of registered name) event (search_method n registered event classes)
        (search_method n registered event (prepend bases classes))

  -- `JsonMethodCall.__call__`: `none` stands for `False`.
  pub call : JsonMethodCall A → Members → Option A
  call m data_ =
      let args = map (get data_) m.parms in if has_null args then none else some (m.fn args)

  -- `if not attr: return False`
  abbrev pub call_found : Option (JsonMethodCall A) → Members → Option A
  call_found none contents = none
  call_found (some m) contents = call m contents

  -- `handleEvent` of a handler of the class `type_`
  unfoldable pub handle_event : ℕ → Registry A → Class → Name → Members → Option A
  unfolding search_method call
  handle_event fuel registered type_ event contents =
      call_found (search_method fuel registered event (base type_ no_bases)) contents

  -- `EventServer.handleEvent`: every handler gets the event, in order.
  abbrev pub handle_with : ℕ → Registry A → List Class → Name → Members → List (Option A)
  handle_with fuel registered eventhandlers event contents =
      map (λ type_. handle_event fuel registered type_ event contents) eventhandlers

-- The number of classes that a search can meet.
unfoldable mutual
  pub size : Class → ℕ
  size (class name bases) = suc (size_bases bases)

  pub size_bases : Bases → ℕ
  size_bases no_bases = 0
  size_bases (base c bs) = size c + size_bases bs

-- `class Event`; `raised` is an exception in the callback of the socket.
pub data Received : Type 0 where
  event_of : Json → Json → Members → Received
  ignored raised : Received

-- `contents.get("event")`, where the contents are true
abbrev with_contents : Json → Json → Json → Received
with_contents key_event serial (object contents) =
    if is_true serial && is_true key_event then event_of serial key_event contents else ignored
with_contents key_event serial _ = raised

abbrev event_in : Name → Json → Json
event_in key (object contents) = get contents key
event_in key _ = null

-- The callback `event(data)` of a socket up to `handleEvent`, with the three keys; the data does
-- not parse, or is no object, or is a message.
pub receive : Name → Name → Name → Option Json → Received
receive serial_key contents_key event_key none = ignored
receive serial_key contents_key event_key (some (object msg)) =
    let contents = get msg contents_key in
    if is_true contents
    then with_contents (event_in event_key contents) (get msg serial_key) contents
    else ignored
receive serial_key contents_key event_key (some _) = raised
