-- ===== src/Usbip/Unbinds.antt =====
-- When the handler unbinds a device.
use usbip_ice.Base.{
  ℕ, Name, ◌+◌, ◌≤◌, ◌<◌, ◌≡◌, refl, sym, ◌∙◌, ==_iff, Bool, true, false, Option, none, some, List,
  [], ◌∷◌, arith, ◌==◌, if◌then◌else◌, contains, Unique, Bool-cases, inl, inr,
}
use usbip_ice.Base.Dict.{
  Dict, lookup, erase, keys, lookup-insert, lookup-erase, Unique-insert, Unique-erase,
}
use usbip_ice.Device.Manager.{Action, add, get_serial}
use usbip_ice.Usbip.{
  DeviceStatus, update_bus, device_event, is_attached, check_timeout, UsbipHandler,
  handle_dev_event, trigger, poll_usbip_port, export, put, event_of, event_named, new_status,
  export_of, poll_if, remove_device, Event, dev_event, poll, exported, removed, step, unbind_times,
}
use usbip_ice.Usbip.Polls.{
  is_lost, polled, poll_all, keys-poll_all, lookup-poll_all, contains-poll_all,
}

-- The status, where there is one, has an event at `low` or later, and has the timeout.
abbrev IsRecent : ℕ → ℕ → Option DeviceStatus → Type 0
IsRecent low timeout none = Unit
IsRecent low timeout (some d) = (low ≤ d.last_event) × (d.timeout ≡ timeout)

polled-IsRecent :
    (low now timeout : ℕ) (info : Dict (List Name)) (o : Option DeviceStatus)
    → low ≤ now
    → IsRecent low timeout o
    → IsRecent
        (if (elim o [ none ↦ false | some d ↦ is_lost now info d ]) then now else low)
        timeout
        (elim o [ none ↦ none | some d ↦ some (polled now info d) ])
      × ((elim o [ none ↦ false | some d ↦ is_lost now info d ]) ≡ true → low + timeout < now)
unfolding polled trigger check_timeout
polled-IsRecent low now timeout info none h r = (tt, λ e. ground (arith, e))
polled-IsRecent low now timeout info (some d) h r = elim (Bool-cases (is_attached info d)) [
  | inl e ↦ rw e (ground arith)
  | inr e ↦ rw e (ground arith)
]

-- The devices have a key each, and new ones get the timeout.
pub record IsKeyed (timeout : ℕ) (h : UsbipHandler) : Type 0 where
  pub unique : Unique (keys h.devices)
  pub same_timeout : h.timeout ≡ timeout

-- What a step at a time leaves of a device that had its last event at `low` or later.
pub record Spaces (timeout low now : ℕ) (k : Name) (r : UsbipHandler × List Name) : Type 0 where
  pub keyed : IsKeyed timeout r.0
  pub recent : IsRecent (if contains k r.1 then now else low) timeout (lookup k r.0.devices)
  pub spaced : contains k r.1 ≡ true → low + timeout < now

module _ (timeout low now : ℕ) (k : Name) (later : low ≤ now) where
  -- A step that unbinds nothing.
  kept :
      (h : UsbipHandler)
      → IsKeyed timeout h
      → IsRecent low timeout (lookup k h.devices)
      → Spaces timeout low now k (h, [])
  kept h v r = record { keyed = v; recent = r; spaced = λ e. ground (arith, e) }

  event-IsRecent :
      (d : DeviceStatus)
      → IsRecent low timeout (some d)
      → IsRecent low timeout (some (device_event now d))
  event-IsRecent d r = ground arith

  put-Spaces :
      (s : Name) (d : DeviceStatus) (h : UsbipHandler)
      → IsKeyed timeout h
      → IsRecent low timeout (lookup k h.devices)
      → ((k == s) ≡ true → IsRecent low timeout (some d))
      → Spaces timeout low now k (put s d h, [])
  put-Spaces s d h v r given =
      kept (put s d h)
        (record { unique = Unique-insert s d h.devices v.unique; same_timeout = v.same_timeout })
        (rw (lookup-insert k s d h.devices)
          (elim (Bool-cases (k == s)) [ inl e ↦ rw e (given e) | inr e ↦ rw e r ]))

  -- The device that is looked up is the one that is watched.
  found-IsRecent :
      (s : Name) (o : Option DeviceStatus) (h : UsbipHandler)
      → IsRecent low timeout (lookup k h.devices)
      → lookup s h.devices ≡ o
      → (k == s) ≡ true
      → IsRecent low timeout o
  found-IsRecent s o h r found e = rw (← found) (rw (← (==_iff k s).0 e) r)

  event_of-Spaces :
      (s : Name) (o : Option DeviceStatus) (h : UsbipHandler)
      → lookup s h.devices ≡ o
      → IsKeyed timeout h
      → IsRecent low timeout (lookup k h.devices)
      → Spaces timeout low now k (event_of now s o h, [])
  event_of-Spaces s none h f v r = kept h v r
  event_of-Spaces s (some d) h f v r =
      put-Spaces s (device_event now d) h v r
        (λ same. event-IsRecent d (found-IsRecent s (some d) h r f same))

  event_named-Spaces :
      (o : Option Name) (h : UsbipHandler)
      → IsKeyed timeout h
      → IsRecent low timeout (lookup k h.devices)
      → Spaces timeout low now k (event_named now o h, [])
  event_named-Spaces none h v r = kept h v r
  event_named-Spaces (some s) h v r = event_of-Spaces s (lookup s h.devices) h refl v r

  export_of-Spaces :
      (s busid server_ip : Name) (o : Option DeviceStatus) (h : UsbipHandler)
      → lookup s h.devices ≡ o
      → IsKeyed timeout h
      → IsRecent low timeout (lookup k h.devices)
      → Spaces timeout low now k (export_of now s busid server_ip o h, [])
  export_of-Spaces s busid server_ip none h f v r =
      put-Spaces s (new_status server_ip busid now h.timeout) h v r
        (λ same. (later, v.same_timeout))
  export_of-Spaces s busid server_ip (some d) h f v r =
      put-Spaces s (update_bus busid now d) h v r
        (λ same. event-IsRecent d (found-IsRecent s (some d) h r f same))

  remove-Spaces :
      (s : Name) (h : UsbipHandler)
      → IsKeyed timeout h
      → IsRecent low timeout (lookup k h.devices)
      → Spaces timeout low now k (remove_device s h, [])
  unfolding remove_device
  remove-Spaces s h v r =
      kept (record h { devices = erase s h.devices })
        (record { unique = Unique-erase s h.devices v.unique; same_timeout = v.same_timeout })
        (rw (lookup-erase k s h.devices)
          (elim (Bool-cases (k == s)) [ inl e ↦ rw e tt | inr e ↦ rw e r ]))

  poll-Spaces :
      (info : Dict (List Name)) (h : UsbipHandler)
      → IsKeyed timeout h
      → IsRecent low timeout (lookup k h.devices)
      → Spaces timeout low now k (poll_usbip_port now (some info) h)
  unfolding poll_usbip_port poll_all
  poll-Spaces info h v r =
      let (recent, spaced) = polled-IsRecent low now timeout info (lookup k h.devices) later r in
      let same = contains-poll_all now info k h.devices v.unique in
      record {
        keyed = record {
          unique = rw (keys-poll_all now info h.devices) v.unique;
          same_timeout = v.same_timeout;
        };
        recent = rw (same, lookup-poll_all now info k h.devices) recent;
        spaced = λ e. spaced (sym same ∙ e);
      }

  poll_if-Spaces :
      (polling : Bool) (info : Option (Dict (List Name))) (h : UsbipHandler)
      → IsKeyed timeout h
      → IsRecent low timeout (lookup k h.devices)
      → Spaces timeout low now k (poll_if polling now info h)
  unfolding poll_usbip_port
  poll_if-Spaces false info h v r = kept h v r
  poll_if-Spaces true (some info) h v r = poll-Spaces info h v r
  poll_if-Spaces true none h v r =
      kept (record h { polling = false })
        (record { unique = v.unique; same_timeout = v.same_timeout }) r

  step-Spaces :
      (e : Event) (h : UsbipHandler)
      → IsKeyed timeout h
      → IsRecent low timeout (lookup k h.devices)
      → Spaces timeout low now k (step now e h)
  unfolding step handle_dev_event export
  step-Spaces (dev_event add dev) h v r = event_named-Spaces (get_serial dev) h v r
  step-Spaces (dev_event Action.remove dev) h v r = kept h v r
  step-Spaces (dev_event Action.other dev) h v r = kept h v r
  step-Spaces (poll info) h v r = poll_if-Spaces h.polling info h v r
  step-Spaces (exported s busid server_ip) h v r =
      export_of-Spaces s busid server_ip (lookup s h.devices) h refl v r
  step-Spaces (removed s) h v r = remove-Spaces s h v r

-- The clock does not run backwards.
abbrev pub IsOrdered : ℕ → List (ℕ × Event) → Type 0
IsOrdered low [] = Unit
IsOrdered low ((now, e) ∷ events) = (low ≤ now) × IsOrdered now events

-- Each time is more than the timeout after the one before it.
abbrev pub AreSpaced : ℕ → ℕ → List ℕ → Type 0
AreSpaced timeout low [] = Unit
AreSpaced timeout low (t ∷ times) = (low + timeout < t) × AreSpaced timeout t times

unbind_times-AreSpaced :
    (timeout : ℕ) (k : Name) (events : List (ℕ × Event)) (low clock : ℕ) (h : UsbipHandler)
    → low ≤ clock
    → IsOrdered clock events
    → IsKeyed timeout h
    → IsRecent low timeout (lookup k h.devices)
    → AreSpaced timeout low (unbind_times k events h)
unbind_times-AreSpaced timeout k [] low clock h le o v r = tt
unbind_times-AreSpaced timeout k ((now, e) ∷ events) low clock h le o v r =
    let s = step-Spaces timeout low now k (omega arith) e h v r in
    elim (Bool-cases (contains k (step now e h).1)) [
      | inl unbound ↦ rw unbound (
        s.spaced unbound,
        unbind_times-AreSpaced timeout k events now now (step now e h).0 (omega arith) o.1 s.keyed
            (rw unbound at s.recent),
      )
      | inr quiet ↦ rw quiet (
          unbind_times-AreSpaced timeout k events low now (step now e h).0 (omega arith) o.1 s.keyed
            (rw quiet at s.recent))
    ]

-- `UsbipHandler(…)`
abbrev pub new : ℕ → UsbipHandler
new timeout = record { devices = []; timeout = timeout; polling = true }

-- While the clock does not run backwards, the unbinds that a handler asks for of one device are
-- more than the timeout apart, and the first comes more than the timeout after the handler's
-- start: also where the device is removed and exported anew in between, and whatever `usbip
-- port` shows.
pub unbinds-AreSpaced :
    (timeout start : ℕ) (events : List (ℕ × Event)) (k : Name)
    → IsOrdered start events
    → AreSpaced timeout start (unbind_times k events (new timeout))
unbinds-AreSpaced timeout start events k o =
    unbind_times-AreSpaced timeout k events start start (new timeout) (omega arith) o
      (record { unique = tt; same_timeout = refl }) tt
