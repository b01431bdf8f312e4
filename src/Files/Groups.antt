-- ===== src/Files/Groups.antt =====
-- What is listed under each key.
use usbip_ice.Base.{
  ℕ, ltb, ◌+◌, Unique, refl, inl, inr, Option-cases, not, none, Name, ◌≡◌, ◌∙◌, Bool, false, ◌&&◌,
  ◌||◌, Option, some, List, [], ◌∷◌, ◌++◌, map, arith, ◌==◌, contains, contains-append, ==_iff,
}
use usbip_ice.Base.Dict.{keys, Dict, lookup, lookup-insert}
use usbip_ice.Usbip.Polls.{poll_usbip_port-unbinds}
use usbip_ice.Usbip.{poll_usbip_port, UsbipHandler, DeviceStatus, is_attached}
use usbip_ice.Files.{append_to, add_connections, usbip_port}

-- One of the connections is to the bus at the address.
abbrev pub connects : Name → Name → List (Name × Name) → Bool
connects ip bus [] = false
connects ip bus ((i, b) ∷ l) = (ip == i && bus == b) || connects ip bus l

abbrev pub matched : List (Name × Name) → List (Option Name × Option Name)
matched l = map (λ c. (some c.0, some c.1)) l

has_bus : Name → Name → Dict (List Name) → Bool
has_bus ip bus info = elim (lookup ip info) [ none ↦ false | some buses ↦ contains bus buses ]

abbrev or_none : Option (List Name) → List Name
or_none none = []
or_none (some l) = l

has_bus-append_to :
    (ip bus i b : Name) (info : Dict (List Name))
    → has_bus ip bus (append_to i b info) ≡ ((ip == i && bus == b) || has_bus ip bus info)
unfolding has_bus
has_bus-append_to ip bus i b info = ground (
  arith,
  lookup-insert ip i (or_none (lookup i info) ++ b ∷ []) info,
  contains-append bus (or_none (lookup i info)) (b ∷ []),
  ==_iff ip i,
)

add_connections-lists :
    (ip bus : Name) (l : List (Name × Name)) (info : Dict (List Name))
    → (info' : Dict (List Name)) × (add_connections (matched l) info ≡ some info')
      × (has_bus ip bus info' ≡ (connects ip bus l || has_bus ip bus info))
unfolding add_connections
add_connections-lists ip bus [] info = (info, refl, refl)
add_connections-lists ip bus ((i, b) ∷ l) info =
    let (info', e, h) = add_connections-lists ip bus l (append_to i b info) in
    (info', e, ground (arith, h, has_bus-append_to ip bus i b info))

-- Where each connection that `usbip port` prints has an address and a bus, the handler of
-- timeouts takes a device for attached exactly if one of the connections is to the device's bus
-- at its address.
pub usbip_port-attached :
    (l : List (Name × Name)) (d : DeviceStatus)
    → (info : Dict (List Name)) × (usbip_port (matched l) ≡ some info)
      × (is_attached info d ≡ connects d.ip d.bus l)
unfolding usbip_port has_bus
usbip_port-attached l d =
    let (info, e, h) = add_connections-lists d.ip d.bus l [] in (info, e, h ∙ ground arith)

any_status : DeviceStatus
any_status = record { ip = 0; bus = 0; last_event = 0; timeout = 0; delay = 0; timed_out = false }

-- With a key for each device, and where each connection that `usbip port` prints has an address
-- and a bus, a poll asks to unbind exactly the devices that have no such connection, at their
-- address and on their bus, and that have had no event for longer than the timeout.
pub poll-unbinds :
    (now : ℕ) (l : List (Name × Name)) (h : UsbipHandler) (k : Name)
    → Unique (keys h.devices)
    → contains k (poll_usbip_port now (usbip_port (matched l)) h).1 ≡ (elim (lookup k h.devices) [
      | none ↦ false
      | some d ↦ not (connects d.ip d.bus l) && ltb (d.last_event + d.timeout) now
    ])
poll-unbinds now l h k u = elim (Option-cases (lookup k h.devices)) [
  | inl e ↦
      let (info, port, _) = usbip_port-attached l any_status in
      rw (port, e) ((poll_usbip_port-unbinds now info h k u).0 ∙ rw e refl)
  | inr (d, e) ↦
      let (info, port, attached) = usbip_port-attached l d in
      rw (port, e) ((poll_usbip_port-unbinds now info h k u).0 ∙ rw (e, attached) refl)
]
