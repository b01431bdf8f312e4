-- ===== src/Requests/Types.antt =====
-- The Python types of a handler's parameters.
pub mod Handlers
use usbip_ice.Base.{
  ℕ, Name, ◌≡◌, refl, ap, ◌∙◌, Bool, true, false, ◌&&◌, Option, none, some, List, [], ◌∷◌, map,
  arith, ◌⊎◌, inl, inr,
}
use usbip_ice.Requests.{
  Json, null, boolean, integer, text, array, object, Items, nil, cons, Members, end, member, get,
  Class, Annotation, empty, class, list_of, dict_of, other, is_instance, all_instances, fits,
  all_fit, typecheck, json_to_args, Result, Response, status, reply, respond,
}
use usbip_ice.Requests.Checks.{admits, typecheck-admits, json_to_args-map, respond_lem}

-- The values of a class; in Python a bool is an int.
abbrev pub Value : Class → Type 0
Value Class.bool = Bool
Value Class.int = Bool ⊎ ℕ
Value Class.str = Name
Value Class.list = Items
Value Class.dict = Members

abbrev pub to_json : (c : Class) → Value c → Json
to_json Class.bool b = boolean b
to_json Class.int (inl b) = boolean b
to_json Class.int (inr n) = integer n
to_json Class.str s = text s
to_json Class.list l = array l
to_json Class.dict m = object m

abbrev pub from_json : (c : Class) → Json → Option (Value c)
from_json Class.bool (boolean b) = some b
from_json Class.int (boolean b) = some (inl b)
from_json Class.int (integer n) = some (inr n)
from_json Class.str (text s) = some s
from_json Class.list (array l) = some l
from_json Class.dict (object m) = some m
from_json _ _ = none

-- The elements of a list of a class
abbrev pub to_items : (c : Class) → List (Value c) → Items
to_items c [] = nil
to_items c (v ∷ vs) = cons (to_json c v) (to_items c vs)

abbrev pub from_items : (c : Class) → Items → Option (List (Value c))
from_items c nil = some []
from_items c (cons v l) = elim (from_json c v) [
  | none ↦ none
  | some x ↦ elim (from_items c l) [ none ↦ none | some xs ↦ some (x ∷ xs) ]
]

-- The values that an annotation declares: any value without one.
abbrev pub Declared : Annotation → Type 0
Declared empty = Json
Declared (class c) = Value c
Declared (list_of c) = List (Value c)
Declared dict_of = Members
Declared other = ⊥

abbrev pub from_arg : (a : Annotation) → Json → Option (Declared a)
from_arg empty v = some v
from_arg (class c) v = from_json c v
from_arg (list_of c) (array l) = from_items c l
from_arg (list_of c) _ = none
from_arg dict_of (object m) = some m
from_arg dict_of _ = none
from_arg other v = none

abbrev pub to_arg : (a : Annotation) → Declared a → Json
to_arg empty v = v
to_arg (class c) v = to_json c v
to_arg (list_of c) vs = array (to_items c vs)
to_arg dict_of m = object m
to_arg other v = elim v [ ]

-- No parameter is annotated with `dict[…]`, for which the check lets any value pass.
abbrev pub has_no_dict_of : List (Name × Annotation) → Bool
has_no_dict_of [] = true
has_no_dict_of ((key, dict_of) ∷ params) = false
has_no_dict_of ((key, _) ∷ params) = has_no_dict_of params

-- The arguments of a function with these parameters
abbrev pub Arguments : List (Name × Annotation) → Type 0
Arguments [] = Unit {0}
Arguments ((key, a) ∷ params) = Declared a × Arguments params

abbrev pub to_args : (params : List (Name × Annotation)) → Arguments params → List Json
to_args [] t = []
to_args ((key, a) ∷ params) (x, t) = to_arg a x ∷ to_args params t

-- The arguments in an object, by the parameters' keys
abbrev pub from_members : (params : List (Name × Annotation)) → Members → Option (Arguments params)
from_members [] m = some tt
from_members ((key, a) ∷ params) m = elim (from_arg a (get m key)) [
  | none ↦ none
  | some x ↦ elim (from_members params m) [ none ↦ none | some t ↦ some (x, t) ]
]
