-- ===== src/Requests/Checks.antt =====
-- What the checks of a request let through.
use usbip_ice.Base.{
  Name, ◌≡◌, refl, ap, not, ◌||◌, ◌∙◌, Bool, true, false, ◌&&◌, none, some, List, [], ◌∷◌, ◌++◌,
  map, if◌then◌else◌, arith,
}
use usbip_ice.Base.Dict.{Dict, lookup}
use usbip_ice.Requests.{
  Json, null, boolean, integer, text, array, object, Members, end, member, get, has_member, Class,
  Annotation, empty, class, is_instance, fits, all_fit, typecheck, json_to_args, Result, status,
  reply, respond, has_null, EventMethod, call_method, handle_request,
}

-- Each parameter's key has a value that the parameter's annotation admits.
abbrev pub admits : List (Name × Annotation) → Members → Bool
admits [] m = true
admits ((key, a) ∷ params) m = fits a (get m key) && admits params m

pub typecheck-admits :
    (params : List (Name × Annotation)) (m : Members)
    → typecheck (map (λ p. p.1) params) (json_to_args m (map (λ p. p.0) params)) ≡ admits params m
unfolding typecheck json_to_args all_fit
typecheck-admits [] m = refl
typecheck-admits ((key, a) ∷ params) m = ground (arith, typecheck-admits params m)

pub json_to_args-map :
    (params : List (Name × Annotation)) (m : Members)
    → json_to_args m (map (λ p. p.0) params) ≡ map (λ p. get m p.0) params
unfolding json_to_args
json_to_args-map [] m = refl
json_to_args-map (p ∷ params) m = ap (λ l. get m p.0 ∷ l) (json_to_args-map params m)

-- A handler's answer to a JSON request: anything that does not parse gives status 400; for an
-- object the handler is called, with the value of each parameter's key in order, exactly if every
-- value is there and admitted by its parameter's annotation, and else the status is 400 too.
pub respond_lem :
    {A : Type 0} (func : List Json → Result A) (params : List (Name × Annotation)) (m : Members)
    → (respond func params true none ≡ status 400)
      × (respond func params false (some (object m)) ≡ status 400)
      × (respond func params true (some (object m))
          ≡ (if admits params m then reply (func (map (λ p. get m p.0) params)) else status 400))
unfolding respond
respond_lem func params m =
    (refl, refl, rw (typecheck-admits params m, json_to_args-map params m) refl)

get-missing : (m : Members) (key : Name) → has_member m key ≡ false → get m key ≡ null
get-missing end key h = refl
get-missing (member k v m) key h = ground (arith, get-missing m key)

null-not_admitted : (c : Class) → fits (class c) null ≡ false
unfolding fits is_instance
null-not_admitted Class.bool = refl
null-not_admitted Class.int = refl
null-not_admitted Class.str = refl
null-not_admitted Class.list = refl
null-not_admitted Class.dict = refl

admits-missing :
    (before after : List (Name × Annotation)) (key : Name) (c : Class) (m : Members)
    → has_member m key ≡ false
    → admits (before ++ (key, class c) ∷ after) m ≡ false
admits-missing [] after key c m h = ground (arith, get-missing m key h, null-not_admitted c)
admits-missing ((k, a) ∷ before) after key c m h =
    ground (arith, admits-missing before after key c m h)

-- A request that lacks the key of a parameter annotated with a class is refused, wherever the
-- parameter stands and whatever the other values are.
pub missing_key-refused :
    {A : Type 0} (func : List Json → Result A) (before after : List (Name × Annotation))
    (key : Name) (c : Class) (m : Members)
    → has_member m key ≡ false
    → respond func (before ++ (key, class c) ∷ after) true (some (object m)) ≡ status 400
missing_key-refused func before after key c m h =
    (respond_lem func (before ++ (key, class c) ∷ after) m).2
    ∙ rw (admits-missing before after key c m h) refl

abbrev pub is_null : Json → Bool
is_null null = true
is_null _ = false

-- Each key has a value, which its parameter's annotation admits.
abbrev pub supplies : List Name → List Annotation → Members → Bool
supplies [] [] m = true
supplies (key ∷ keys) (a ∷ l) m =
    not (is_null (get m key)) && (fits a (get m key) && supplies keys l m)
supplies _ _ m = false

has_null-cons : (v : Json) (l : List Json) → has_null (v ∷ l) ≡ (is_null v || has_null l)
has_null-cons null l = refl
has_null-cons (boolean b) l = refl
has_null-cons (integer n) l = refl
has_null-cons (text s) l = refl
has_null-cons (array a) l = refl
has_null-cons (object o) l = refl

typecheck-cons :
    (a : Annotation) (l : List Annotation) (v : Json) (vs : List Json)
    → typecheck (a ∷ l) (v ∷ vs) ≡ (fits a v && typecheck l vs)
unfolding typecheck all_fit
typecheck-cons a l v vs = ground arith

regroup :
    (null_here null_later fit checked : Bool)
    → (not null_here && (fit && (not null_later && checked)))
      ≡ (not (null_here || null_later) && (fit && checked))
regroup null_here null_later fit checked = ground arith

supplies_lem :
    (keys : List Name) (l : List Annotation) (m : Members)
    → supplies keys l m ≡ (not (has_null (map (get m) keys)) && typecheck l (map (get m) keys))
unfolding typecheck
supplies_lem [] [] m = refl
supplies_lem [] (a ∷ l) m = ground arith
supplies_lem (key ∷ keys) [] m = ground arith
supplies_lem (key ∷ keys) (a ∷ l) m =
    rw
      (
        supplies_lem keys l m,
        has_null-cons (get m key) (map (get m) keys),
        typecheck-cons a l (get m key) (map (get m) keys),
      )
      (regroup (is_null (get m key)) (has_null (map (get m) keys)) (fits a (get m key))
        (typecheck l (map (get m) keys)))

typecheck_self :
    (l : List Annotation) (vs : List Json) → typecheck (empty ∷ l) (null ∷ vs) ≡ typecheck l vs
unfolding typecheck all_fit fits
typecheck_self l vs = ground arith

module _ {A : Type 0} where
  call_method_lem :
      (m : EventMethod A) (data_ : Members)
      → call_method m data_ ≡ (
          if supplies m.parms m.annotations data_
          then some (m.method (map (get data_) m.parms))
          else none)
  unfolding call_method
  call_method_lem m data_ = ground (
    arith,
    supplies_lem m.parms m.annotations data_,
    typecheck_self m.annotations (map (get data_) m.parms),
  )

  -- A request to a state calls the method registered for that event on the state's own class, with
  -- the values of the keys in order, exactly if there is such a method, each key has a value, and
  -- there are as many parameters, each admitting its value; otherwise nothing is called.
  pub handle_request_lem :
      (methods : Dict (Dict (EventMethod A))) (type_ event : Name) (data_ : Members)
      → handle_request methods type_ event data_ ≡ (elim (lookup type_ methods) [
        | none ↦ none
        | some ms ↦ elim (lookup event ms) [
          | none ↦ none
          | some m ↦
              if supplies m.parms m.annotations data_
              then some (m.method (map (get data_) m.parms))
              else none
        ]
      ])
  unfolding handle_request
  handle_request_lem methods type_ event data_ = grind (arith, call_method_lem)
