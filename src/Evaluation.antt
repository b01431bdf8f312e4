-- ===== src/Evaluation.antt =====
-- The client's side of pulse counts: `PulseCountClient` with its `ResultHandler`, of
-- src/usbipice/client/drivers/pulse_count/PulseCountClient.py.
pub mod Answers
pub mod Boards
pub mod Batch
use usbip_ice.Base.{
  ℕ, suc, Name, Bool, true, false, Option, none, some, List, [], ◌∷◌, map, ◌==◌, if◌then◌else◌,
  contains, is_empty,
}
use usbip_ice.Base.Dict.{Dict, lookup, insert}

-- `P` is the type of a pulse count. `remaining_serials` is a list, as `getSerials` gives it.
pub record PulseCountClient (P : Type 0) : Type 0 where
  pub results : Dict (Dict P)
  pub uuid_map : Dict Name
  pub remaining_serials : List Name

-- `list.remove`: the first occurrence, and otherwise a ValueError, here `none`
abbrev pub remove : Name → List Name → Option (List Name)
remove x [] = none
remove x (y ∷ l) =
    if x == y then some l else elim (remove x l) [ none ↦ none | some m ↦ some (y ∷ m) ]

abbrev pub or_same : Option (List Name) → List Name → List Name
or_same none l = l
or_same (some m) l = m

-- The first loop of `evaluate`, over the paths with their new identifiers
abbrev pub add_paths : List (Name × Name) → Dict Name → Dict Name
add_paths [] m = m
add_paths ((iden, path) ∷ files) m = add_paths files (insert iden path m)

-- The key `self.uuid_map.get(iden)`: `None` is 0, and a path is its successor.
abbrev pub path_key : Option Name → ℕ
path_key none = 0
path_key (some path) = suc path

module _ {P : Type 0} where
  -- `evaluate` up to the requests. What they return is not used.
  pub start : List Name → List (Name × Name) → PulseCountClient P → PulseCountClient P
  start serials files c = record {
    results = [];
    uuid_map = add_paths files [];
    remaining_serials = serials;
  }

  -- `_addResult`, called by `ResultHandler.results`: the result is stored before the ValueError.
  pub add_result : Name → Dict P → PulseCountClient P → PulseCountClient P
  add_result serial value c = record c {
    results = insert serial value c.results;
    remaining_serials = or_same (remove serial c.remaining_serials) c.remaining_serials;
  }

  -- The condition on which the wait of `evaluate` ends
  abbrev pub has_finished : PulseCountClient P → Bool
  has_finished c = is_empty c.remaining_serials

  -- `dict(zip(paths, value.values()))`
  abbrev pub zip_paths : Dict Name → Dict P → Dict P → Dict P
  zip_paths uuid_map [] d = d
  zip_paths uuid_map ((iden, n) ∷ value) d =
      zip_paths uuid_map value (insert (path_key (lookup iden uuid_map)) n d)

  -- The last loop of `evaluate`. The keys of `results` are different, so each is put in anew.
  pub values : PulseCountClient P → Dict (Dict P)
  values c = map (λ e. (e.0, zip_paths c.uuid_map e.1 [])) c.results
