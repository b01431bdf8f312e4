-- ===== src/Device/Reservable.antt =====
-- The registry of states that can be reserved:
-- src/usbipice/worker/device/state/reservable/utils.py.
pub mod Factories
use usbip_ice.Base.{
  Name, Bool, true, false, ◌&&◌, Option, none, some, List, [], ◌∷◌, map, if◌then◌else◌,
}
use usbip_ice.Base.Dict.{Dict, lookup, has_key, insert}
use usbip_ice.Requests.{Json, Members, get, is_true}

-- `STATE_RESERVATION_CONSTRUCTORS`: the factory of each name, here of a value of `S`; and
-- `STATE_VALUE_CHECKERS`
pub record Registry (S : Type 0) : Type 0 where
  pub constructors : Dict (Members → S)
  pub checkers : Dict (Members → Bool)

-- `check_state` of a class with these keys
pub check_state : List Name → Members → Bool
check_state [] event = true
check_state (arg ∷ args) event = if is_true (get event arg) then check_state args event else false

-- A use of the decorator `reservable` on a class
pub record Decorator (S : Type 0) : Type 0 where
  pub name : Name
  pub args : List Name
  pub cls : List Json → S

module _ {S : Type 0} where
  -- `make_state_fac` of the class `cls`, which is called with the values
  pub make_state_fac : List Name → (List Json → S) → Members → S
  make_state_fac args cls event = cls (map (get event) args)

  -- `reservable(name, *args)` of the class `cls`: `none` is the exception.
  pub reservable : Name → List Name → (List Json → S) → Registry S → Option (Registry S)
  unfolding check_state make_state_fac
  reservable name args cls r =
      if has_key name r.constructors
      then none
      else some (record {
        constructors = insert name (make_state_fac args cls) r.constructors;
        checkers = insert name (check_state args) r.checkers;
      })

  -- `get_reservation_state_fac`
  pub get_reservation_state_fac : Registry S → Name → Members → Option S
  get_reservation_state_fac r kind args = elim (lookup kind r.constructors) [
    | none ↦ none
    | some fn ↦ some (fn args)
  ]

  -- The decorators in the order in which they run
  abbrev pub register_all : List (Decorator S) → Registry S → Option (Registry S)
  register_all [] r = some r
  register_all (d ∷ ds) r = elim (reservable d.name d.args d.cls r) [
    | none ↦ none
    | some r' ↦ register_all ds r'
  ]

  abbrev pub no_states : Registry S
  no_states = record { constructors = []; checkers = [] }
