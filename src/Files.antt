-- ===== src/Files.antt =====
-- Collections of what the system lists: `get_devs` and `get_dev_paths` of
-- src/usbipice/utils/dev.py, and `usbip_port` of src/usbipice/utils/usbip.py.
pub mod Groups
pub mod Busid
pub mod Mounts
pub mod Ports
use usbip_ice.Base.{
  Name, Bool, true, false, not, Option, none, some, List, [], ◌∷◌, ◌++◌, map, String, str_eq,
  if◌then◌else◌, filter_map,
}
use usbip_ice.Base.Dict.{Dict, lookup, insert}
use usbip_ice.Device.Manager.{Props, get_serial}

module _ {A : Type 0} where
  -- `out[k].append(x)`, where a missing key is first given an empty list
  abbrev pub append_to : Name → A → Dict (List A) → Dict (List A)
  append_to k x out = insert k ((elim (lookup k out) [ none ↦ [] | some l ↦ l ]) ++ x ∷ []) out

abbrev pub truthy : Option String → Option String
truthy none = none
truthy (some s) = if str_eq s "" then none else some s

-- A turn of the loop of `get_devs`
pub add_dev : Props → Dict (List Props) → Dict (List Props)
add_dev dev out = elim (get_serial dev) [
  | none ↦ out
  | some serial ↦ elim (truthy dev.devname) [ none ↦ out | some _ ↦ append_to serial dev out ]
]

pub add_devs : List Props → Dict (List Props) → Dict (List Props)
unfolding add_dev
add_devs [] out = out
add_devs (dev ∷ devs) out = add_devs devs (add_dev dev out)

-- `get_devs`, given the devices that udev lists
pub get_devs : List Props → Dict (List Props)
unfolding add_devs
get_devs devs = add_devs devs []

abbrev pub paths : List Props → List String
paths files = filter_map (λ (d : Props). truthy d.devname) files

-- `get_dev_paths`
unfoldable pub get_dev_paths : List Props → Dict (List String)
unfolding get_devs
get_dev_paths devs = map (λ e. (e.0, paths e.1)) (get_devs devs)

-- The loop of `usbip_port` over the connections that it finds, each with its address and its bus if
-- they match; otherwise it returns `None`, here `none`.
pub add_connections :
    List (Option Name × Option Name) → Dict (List Name) → Option (Dict (List Name))
add_connections [] info = some info
add_connections ((some ip, some bus) ∷ connections) info =
    add_connections connections (append_to ip bus info)
add_connections ((_, _) ∷ connections) info = none

-- `usbip_port` once the command has succeeded
pub usbip_port : List (Option Name × Option Name) → Option (Dict (List Name))
unfolding add_connections
usbip_port connections = add_connections connections []
