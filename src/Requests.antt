-- ===== src/Requests.antt =====
-- Requests with JSON bodies: `typecheck` and `json_to_args` of src/usbipice/utils/utils.py,
-- `inject_and_return_json` of src/usbipice/utils/web.py, and the registered methods of states in
-- src/usbipice/worker/device/state/core/AbstractState.py.
pub mod Checks
pub mod Types
pub mod Registration
use usbip_ice.Base.{
  not, ℕ, Name, Bool, true, false, ◌&&◌, Option, none, some, List, [], ◌∷◌, map, ◌==◌,
  if◌then◌else◌, length, is_empty,
}
use usbip_ice.Base.Dict.{Dict, lookup}

-- A parsed JSON value. A number is an integer that is not negative.
mutual
  pub data Json : Type 0 where
    null : Json
    boolean : Bool → Json
    integer : ℕ → Json
    text : Name → Json
    array : Items → Json
    object : Members → Json

  pub data Items : Type 0 where
    nil : Items
    cons : Json → Items → Items

  pub data Members : Type 0 where
    end : Members
    member : Name → Json → Members → Members

-- `json.get(key)`: `None` for a missing key
abbrev pub get : Members → Name → Json
get end key = null
get (member k v m) key = if key == k then v else get m key

abbrev pub has_member : Members → Name → Bool
has_member end key = false
has_member (member k v m) key = if key == k then true else has_member m key

-- A value as a condition
abbrev pub is_true : Json → Bool
is_true null = false
is_true (boolean b) = b
is_true (integer n) = not (n == 0)
is_true (text s) = not (s == 0)
is_true (array nil) = false
is_true (array _) = true
is_true (object end) = false
is_true (object _) = true

pub data Class : Type 0 where
  bool int str list dict : Class

-- The annotation of a parameter: none, a class, `list[c]`, `dict[…]`, or any other.
pub data Annotation : Type 0 where
  empty : Annotation
  class : Class → Annotation
  list_of : Class → Annotation
  dict_of other : Annotation

-- `isinstance`; in Python a bool is an int.
unfoldable pub is_instance : Class → Json → Bool
is_instance bool (boolean b) = true
is_instance int (boolean b) = true
is_instance int (integer n) = true
is_instance str (text s) = true
is_instance list (array l) = true
is_instance dict (object m) = true
is_instance _ _ = false

pub all_instances : Class → Items → Bool
unfolding is_instance
all_instances c nil = true
all_instances c (cons v l) = is_instance c v && all_instances c l

-- One turn of the loop of `typecheck`
unfoldable pub fits : Annotation → Json → Bool
unfolding is_instance all_instances
fits empty v = true
fits (class c) v = is_instance c v
fits dict_of v = true
fits (list_of c) (array l) = all_instances c l
fits (list_of c) _ = false
fits other v = false

-- The loop over `zip(args, params)`
unfoldable pub all_fit : List Annotation → List Json → Bool
unfolding fits
all_fit (a ∷ l) (v ∷ vs) = fits a v && all_fit l vs
all_fit _ _ = true

unfoldable pub typecheck : List Annotation → List Json → Bool
unfolding all_fit
typecheck params args = if length params == length args then all_fit params args else false

-- The names of parameters are never `None`, so the values are always returned.
unfoldable pub json_to_args : Members → List Name → List Json
json_to_args json parameters = map (get json) parameters

-- What a handler returns: `True`, `None`, `False` or another value.
pub data Result (A : Type 0) : Type 0 where
  returned_true returned_none returned_false : Result A
  value : A → Result A

-- What the web server answers; `raised` stands for an exception that reaches it.
pub data Response (A : Type 0) : Type 0 where
  status : ℕ → Response A
  json : A → Response A
  raised : Response A

module _ {A : Type 0} where
  abbrev pub reply : Result A → Response A
  reply returned_true = status 200
  reply returned_none = status 200
  reply returned_false = status 500
  reply (value a) = json a

  -- `handler_wrapper`: the body, `none` where it does not parse. Only an object has `get`.
  unfoldable pub respond :
      (List Json → Result A) → List (Name × Annotation) → Bool → Option Json → Response A
  unfolding json_to_args typecheck
  respond func params false body = status 400
  respond func params true none = status 400
  respond func params true (some (object m)) =
      let args = json_to_args m (map (λ p. p.0) params) in
      if typecheck (map (λ p. p.1) params) args then reply (func args) else status 400
  respond func params true (some _) = raised

-- `None in args`
abbrev pub has_null : List Json → Bool
has_null [] = false
has_null (null ∷ l) = true
has_null (_ ∷ l) = has_null l

-- A method with its keys and the annotations of its parameters after `self`.
pub record EventMethod (A : Type 0) : Type 0 where
  pub method : List Json → A
  pub parms : List Name
  pub annotations : List Annotation

module _ {A : Type 0} where
  -- `EventMethod.__call__`; `null` stands for the state, whose parameter `self` has no annotation.
  unfoldable pub call_method : EventMethod A → Members → Option A
  unfolding typecheck
  call_method m data_ =
      let args = map (get data_) m.parms in
      if has_null args
      then none
      else if typecheck (empty ∷ m.annotations) (null ∷ args)
      then some (m.method args)
      else none

  -- `AbstractState.handleRequest` of a state of the class `type_`
  unfoldable pub handle_request : Dict (Dict (EventMethod A)) → Name → Name → Members → Option A
  unfolding call_method
  handle_request methods type_ event data_ = elim (lookup type_ methods) [
    | none ↦ none
    | some ms ↦ elim (lookup event ms) [ none ↦ none | some m ↦ call_method m data_ ]
  ]

  -- `DeviceManager.handleRequest` and `Device.handleRequest`, where `devs` has the class of the
  -- state that each device is in
  unfoldable pub forward_request :
      Dict (Dict (EventMethod A)) → Dict Name → Name → Name → Members → Option A
  unfolding handle_request
  forward_request methods devs serial event contents = elim (lookup serial devs) [
    | none ↦ none
    | some type_ ↦ handle_request methods type_ event contents
  ]
