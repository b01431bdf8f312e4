-- ===== src/Requests/Registration.antt =====
-- The registration of a state's methods: `AbstractState.register` in
-- src/usbipice/worker/device/state/core/AbstractState.py.
pub mod Calls
use usbip_ice.Base.{Name, Option, none, some, List, [], ◌∷◌, if◌then◌else◌}
use usbip_ice.Base.Dict.{Dict, lookup, insert, has_key}
use usbip_ice.Requests.{EventMethod}

-- A method of a class that is decorated with `register(event, …)`, and its name
pub record Decorated (A : Type 0) : Type 0 where
  pub name : Name
  pub event : Name
  pub event_method : EventMethod A

module _ {A : Type 0} where
  -- The methods of a class, none where the class has no entry
  abbrev pub methods_of : Name → Dict (Dict (EventMethod A)) → Dict (EventMethod A)
  methods_of owner methods = elim (lookup owner methods) [ none ↦ [] | some ms ↦ ms ]

  -- `__set_name__`: `none` is an exception, after which there is no class `owner`.
  pub set_name :
      Name → Decorated A → Dict (Dict (EventMethod A)) → Option (Dict (Dict (EventMethod A)))
  set_name owner d methods =
      if has_key d.name (methods_of owner methods)
      then none
      else some (insert owner (insert d.event d.event_method (methods_of owner methods)) methods)

  -- The class is made: each decorated method is registered, in their order.
  pub register_all :
      Name → List (Decorated A) → Dict (Dict (EventMethod A)) → Option (Dict (Dict (EventMethod A)))
  unfolding set_name
  register_all owner [] methods = some methods
  register_all owner (d ∷ ds) methods = elim (set_name owner d methods) [
    | none ↦ none
    | some methods' ↦ register_all owner ds methods'
  ]
