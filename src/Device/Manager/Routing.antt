-- ===== src/Device/Manager/Routing.antt =====
-- Events and requests reach the one device that they name.
use usbip_ice.Base.{
  Name, ◌≡◌, refl, Bool, true, false, Option, none, some, [], ◌∷◌, arith, ◌==◌, ==_iff,
  if◌then◌else◌, Bool-cases, inl, inr, ◌⊎◌,
}
use usbip_ice.Base.Dict.{lookup, insert, lookup-insert}
use usbip_ice.Access.WorkerDatabase
use usbip_ice.Device.{Device, Env}
use usbip_ice.Device.Ops.{flash_default, flash_default_raises}
use usbip_ice.Device.Manager.{
  Props, get_serial, one_of, Manager, Action, new_device, handle_device_event, find_or_add, route,
  handle_dev_event, done, failed, unreserve_at, unreserve, started, new_device_raises, raised,
}

-- The device that an event leaves, if any: a device that is not known is made first, and there is
-- none if that raises.
abbrev pub device_after : Env → Action → Props → Option Device → Option Device
device_after env action dev (some d) = some (handle_device_event env action dev.file d)
device_after env action dev none =
    if new_device_raises env
    then none
    else some (handle_device_event env action dev.file (new_device env))

-- What an event of a device file does to the devices; `r.1` says whether it raises.
pub record Routes (up : Bool) (env : Env) (action : Action) (dev : Props) (serial : Name)
    (m : Manager) (r : Manager × Bool) : Type 0 where
  pub devices_after :
      (s : Name)
      → lookup s r.0.devs ≡ (
          if s == serial
          then device_after env action dev (lookup serial m.devs)
          else lookup s m.devs)
  pub db_after : r.0.db ≡ (elim (lookup serial m.devs) [
    | none ↦ (WorkerDatabase.add_device up m.worker_name serial m.db).1
    | some _ ↦ m.db
  ])
  pub raises : r.1 ≡ (elim (lookup serial m.devs) [ none ↦ new_device_raises env | some _ ↦ false ])

module _ (up : Bool) (env : Env) (action : Action) (dev : Props) (serial : Name) (m : Manager) where
  routed : Option Device → Manager × Bool
  unfolding find_or_add started
  routed c = started env action dev.file serial (find_or_add up env serial c m)

  routed-devs :
      (c : Option Device) (s : Name)
      → lookup serial m.devs ≡ c
      → lookup s (routed c).0.devs
        ≡ (if s == serial then device_after env action dev c else lookup s m.devs)
  unfolding routed
  routed-devs (some d) s e =
      lookup-insert s serial (handle_device_event env action dev.file d) m.devs
  routed-devs none s e = elim (Bool-cases (new_device_raises env)) [
    | inl f ↦ ground (arith, f, e, ==_iff s serial)
    | inr f ↦ rw f (
        ground (
          arith,
          lookup-insert s serial (handle_device_event env action dev.file (new_device env))
              (insert serial (new_device env) m.devs),
          lookup-insert s serial (new_device env) m.devs,
        ))
  ]

  routed-db :
      (c : Option Device)
      → (routed c).0.db ≡ (elim c [
        | none ↦ (WorkerDatabase.add_device up m.worker_name serial m.db).1
        | some _ ↦ m.db
      ])
  unfolding routed
  routed-db (some d) = refl
  routed-db none = elim (Bool-cases (new_device_raises env)) [
    | inl f ↦ rw f refl
    | inr f ↦ rw f refl
  ]

  routed-raises :
      (c : Option Device)
      → (routed c).1 ≡ (elim c [ none ↦ new_device_raises env | some _ ↦ false ])
  unfolding routed
  routed-raises (some d) = refl
  routed-raises none = elim (Bool-cases (new_device_raises env)) [
    | inl f ↦ rw f refl
    | inr f ↦ rw f refl
  ]

  route-Routes : Routes up env action dev serial m (route up env action dev.file (some serial) m)
  unfolding route routed
  route-Routes = record {
    devices_after = λ s. routed-devs (lookup serial m.devs) s refl;
    db_after = routed-db (lookup serial m.devs);
    raises = routed-raises (lookup serial m.devs);
  }

  -- While the worker is not exiting, a device event of a board's vendor with a serial reaches the
  -- device of that serial and no other. A device that is not known is first added to the database
  -- and made, which starts to flash it; if that raises, then so does the event, which reaches no
  -- device, and the device stays unknown. A known device is not added again, and its event raises
  -- nothing.
  pub handle_dev_event-Routes :
      m.exiting ≡ false
      → one_of ("2e8a" ∷ "1209" ∷ []) dev.id_vendor_id ≡ true
      → get_serial dev ≡ some serial
      → Routes up env action dev serial m (handle_dev_event up env action dev m)
  unfolding handle_dev_event
  handle_dev_event-Routes running vendor named = simp (running, vendor, named) route-Routes

  -- An event of any other file changes nothing: while exiting, of another vendor, or with no
  -- serial.
  pub handle_dev_event-ignored :
      (m.exiting ≡ true)
        ⊎ (one_of ("2e8a" ∷ "1209" ∷ []) dev.id_vendor_id ≡ false)
        ⊎ (get_serial dev ≡ none)
      → handle_dev_event up env action dev m ≡ (m, false)
  unfolding handle_dev_event
  handle_dev_event-ignored (inl exiting) = simp exiting
  handle_dev_event-ignored (inr (inl vendor)) = elim (Bool-cases m.exiting) [
    | inl e ↦ simp e
    | inr e ↦ simp (e, vendor)
  ]
  handle_dev_event-ignored (inr (inr named)) = elim (Bool-cases m.exiting) [
    | inl e ↦ simp e
    | inr e ↦ elim (Bool-cases (one_of ("2e8a" ∷ "1209" ∷ []) dev.id_vendor_id)) [
      | inl f ↦ simp (e, f, named)
      | inr f ↦ simp (e, f)
    ]
  ]

unreserve_at_lem :
    (env : Env) (serial : Name) (m : Manager) (c : Option Device)
    → lookup serial m.devs ≡ c
    → let (reply, m') = unreserve_at env serial c m in
      (reply
        ≡ (elim c [ none ↦ failed | some d ↦ if flash_default_raises env d then raised else done ]))
      × ((s : Name)
          → lookup s m'.devs ≡ (
              if s == serial
              then elim c [ none ↦ none | some d ↦ some (flash_default env d) ]
              else lookup s m.devs))
      × (m'.db ≡ m.db)
unfolding unreserve_at
unreserve_at_lem env serial m none e = (refl, λ s. ground arith, refl)
unreserve_at_lem env serial m (some d) e =
    (refl, λ s. ground (arith, lookup-insert s serial (flash_default env d) m.devs), refl)

-- A request to unreserve reaches exactly the device that it names: a known device is flashed
-- with the default firmware, and if that raises so does the request; for an unknown serial the
-- request fails, and all else stays as it was.
pub unreserve_lem :
    (env : Env) (serial : Name) (m : Manager)
    → let (reply, m') = unreserve env serial m in
      (reply ≡ (elim (lookup serial m.devs) [
        | none ↦ failed
        | some d ↦ if flash_default_raises env d then raised else done
      ]))
      × ((s : Name)
          → lookup s m'.devs ≡ (
              if s == serial
              then elim (lookup serial m.devs) [ none ↦ none | some d ↦ some (flash_default env d) ]
              else lookup s m.devs))
      × (m'.db ≡ m.db)
unfolding unreserve
unreserve_lem env serial m = unreserve_at_lem env serial m (lookup serial m.devs) refl
