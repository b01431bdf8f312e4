-- ===== src/Usbip/Polls.antt =====
-- What a poll decides.
use usbip_ice.Base.{
  ℕ, Name, ◌+◌, ◌≡◌, refl, ◌∙◌, Bool, false, not, ◌&&◌, ◌||◌, none, some, List, [], ◌∷◌, arith, ltb,
  ◌==◌, if◌then◌else◌, contains, Unique, Bool-cases, inl, inr,
}
use usbip_ice.Base.Dict.{Dict, lookup, keys, has_key-keys}
use usbip_ice.Usbip.{
  DeviceStatus, is_attached, check_timeout, UsbipHandler, check_all, trigger, trigger_all,
  poll_usbip_port,
}

-- The status has seen nothing for longer than the timeout, and its bus is not attached.
abbrev pub is_lost : ℕ → Dict (List Name) → DeviceStatus → Bool
is_lost now info d = not (is_attached info d) && ltb (d.last_event + d.timeout) now

-- A status after a poll.
unfoldable pub polled : ℕ → Dict (List Name) → DeviceStatus → DeviceStatus
unfolding trigger check_timeout
polled now info d = (trigger now (check_timeout now info d)).1

unfoldable pub poll_all : ℕ → Dict (List Name) → Dict DeviceStatus → Dict DeviceStatus × List Name
unfolding trigger_all check_all
poll_all now info l = trigger_all now (check_all now info l)

pub keys-poll_all :
    (now : ℕ) (info : Dict (List Name)) (l : Dict DeviceStatus)
    → keys (poll_all now info l).0 ≡ keys l
unfolding poll_all
keys-poll_all now info [] = refl
keys-poll_all now info ((s, d) ∷ l) = ground (arith, keys-poll_all now info l)

pub lookup-poll_all :
    (now : ℕ) (info : Dict (List Name)) (k : Name) (l : Dict DeviceStatus)
    → lookup k (poll_all now info l).0
      ≡ (elim (lookup k l) [ none ↦ none | some d ↦ some (polled now info d) ])
unfolding poll_all polled
lookup-poll_all now info k [] = refl
lookup-poll_all now info k ((s, d) ∷ l) = elim (Bool-cases (k == s)) [
  | inl e ↦ rw e refl
  | inr e ↦ rw e (lookup-poll_all now info k l)
]

-- What the first loop decides.
timed_out-is_lost :
    (now : ℕ) (info : Dict (List Name)) (d : DeviceStatus)
    → (trigger now (check_timeout now info d)).0 ≡ is_lost now info d
unfolding trigger check_timeout
timed_out-is_lost now info d = elim (Bool-cases (is_attached info d)) [
  | inl e ↦ rw e (ground arith)
  | inr e ↦ rw e (ground arith)
]

contains-if :
    (k s : Name) (b : Bool) (l : List Name)
    → contains k (if b then s ∷ l else l) ≡ ((b && k == s) || contains k l)
contains-if k s b l = ground arith

head_or_tail :
    (lost : DeviceStatus → Bool) (k s : Name) (d : DeviceStatus) (l : Dict DeviceStatus)
    → contains s (keys l) ≡ false
    → ((lost d && k == s) || (elim (lookup k l) [ none ↦ false | some c ↦ lost c ]))
      ≡ (elim (if k == s then some d else lookup k l) [ none ↦ false | some c ↦ lost c ])
head_or_tail lost k s d l new = ground (arith, has_key-keys s l, new)

pub contains-poll_all :
    (now : ℕ) (info : Dict (List Name)) (k : Name) (l : Dict DeviceStatus)
    → Unique (keys l)
    → contains k (poll_all now info l).1
      ≡ (elim (lookup k l) [ none ↦ false | some d ↦ is_lost now info d ])
unfolding poll_all
contains-poll_all now info k [] u = refl
contains-poll_all now info k ((s, d) ∷ l) u =
    contains-if k s (trigger now (check_timeout now info d)).0 (poll_all now info l).1
    ∙ rw (timed_out-is_lost now info d, contains-poll_all now info k l u.1)
        (head_or_tail (is_lost now info) k s d l u.0)

-- With a key for each device, a poll asks to unbind exactly the devices whose bus is not
-- attached and that have had no event for longer than the timeout; and each device stays known.
pub poll_usbip_port-unbinds :
    (now : ℕ) (info : Dict (List Name)) (h : UsbipHandler) (k : Name)
    → Unique (keys h.devices)
    → let (h', serials) = poll_usbip_port now (some info) h in
      (contains k serials
        ≡ (elim (lookup k h.devices) [ none ↦ false | some d ↦ is_lost now info d ]))
      × (keys h'.devices ≡ keys h.devices)
unfolding poll_usbip_port poll_all
poll_usbip_port-unbinds now info h k u =
    (contains-poll_all now info k h.devices u, keys-poll_all now info h.devices)
