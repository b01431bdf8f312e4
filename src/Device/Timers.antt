-- ===== src/Device/Timers.antt =====
-- Timers of replaced states.
use usbip_ice.Base.{
  get_elem?, Name, ◌≡◌, refl, sym, ap, ◌∙◌, append-nil, Bool, true, false, Option, none, some, List,
  [], ◌∷◌, ◌++◌, arith, Bool-cases, inl, inr, length, append_assoc,
}
use usbip_ice.Schema.{DeviceState}
use usbip_ice.Device.{Plain, Kind, Object, DevFile, Device, Upload, uploaded, refused, raised, Env}
use usbip_ice.Device.Ops.{
  upload_firmware_path, retire, retired, enter_broken, enter_plain, state_switch, cancel,
  flash_partition, flash_add, test_add, object_add, current_add, handle_add, is_flashing, scan,
  enter_flash, flash_default, fire_old,
}

-- The replaced objects of the first device are still among those of the second.
abbrev Extends : List Object → List Object → Type 0
Extends xs ys = (more : List Object) × (ys ≡ xs ++ more)

same : (xs : List Object) → Extends xs xs
same xs = ([], sym (append-nil xs))

trans : (xs ys zs : List Object) → Extends xs ys → Extends ys zs → Extends xs zs
trans xs ys zs (m, p) (n, q) = (m ++ n, q ∙ ap (λ l. l ++ n) p ∙ append_assoc xs m n)

abbrev Keeps : Device → Device → Type 0
Keeps d d' = Extends d.old d'.old

enter_plain-old : (env : Env) (p : Plain) (d : Device) → (enter_plain env p d).old ≡ d.old
unfolding enter_plain
enter_plain-old env Plain.pulse_count d = ground arith
enter_plain-old env _ d = refl

state_switch-Keeps :
    (env : Env) (p : Plain) (o : Object) (d : Device) → Keeps d (state_switch env p o d)
unfolding state_switch
state_switch-Keeps env p o d = elim (Bool-cases o.switching) [
  | inl e ↦ rw e (same _)
  | inr e ↦ rw e (_, enter_plain-old env p _)
]

flash_partition-Keeps :
    (env : Env) (next : Plain) (u : Upload) (o : Object) (d : Device)
    → Keeps d (flash_partition env next u o d).0
unfolding flash_partition
flash_partition-Keeps env next uploaded o d = state_switch-Keeps env next (cancel o) d
flash_partition-Keeps env next refused o d = state_switch-Keeps env Plain.broken (cancel o) d
flash_partition-Keeps env next raised o d = same _

flash_add-Keeps :
    (env : Env) (next : Plain) (path : Option Name) (dev : DevFile) (o : Object) (d : Device)
    → Keeps d (flash_add env next path dev o d).0
unfolding flash_add
flash_add-Keeps env next none dev o d = same _
flash_add-Keeps env next (some path) dev o d = elim (Bool-cases dev.is_tty) [
  | inl e ↦ rw e (same _)
  | inr e ↦ elim (Bool-cases dev.is_partition) [
    | inl f ↦ rw (e, f) (flash_partition-Keeps env next (upload_firmware_path env path) o d)
    | inr f ↦ rw (e, f) (same _)
  ]
]

test_add-Keeps :
    (env : Env) (exiting : Bool) (path : Option Name) (o : Object) (d : Device)
    → Keeps d (test_add env exiting path o d)
unfolding test_add
test_add-Keeps env exiting none o d = same _
test_add-Keeps env true (some path) o d = same _
test_add-Keeps env false (some path) o d = elim (Bool-cases (env.runs_default path)) [
  | inl e ↦
      rw e (state_switch-Keeps env Plain.ready (cancel (record o { kind = Kind.test true })) d)
  | inr e ↦ rw e (same _)
]

object_add-Keeps :
    (env : Env) (k : Kind) (dev : DevFile) (o : Object) (d : Device)
    → Keeps d (object_add env k dev o d).0
unfolding object_add
object_add-Keeps env (Kind.flash firmware next) dev o d =
    flash_add-Keeps env next dev.devname dev o d
object_add-Keeps env (Kind.test exiting) dev o d = test_add-Keeps env exiting dev.devname o d
object_add-Keeps env _ dev o d = same _

handle_add-Keeps : (env : Env) (dev : DevFile) (d : Device) → Keeps d (handle_add env dev d).0
unfolding handle_add
handle_add-Keeps env dev d = go d.current
  where
    go : (c : Option Object) → Keeps d (current_add env dev c d).0
    go none = same _
    go (some o) = object_add-Keeps env o.kind dev o d

scan-Keeps : (env : Env) (files : List DevFile) (d : Device) → Keeps d (scan env files d)
unfolding scan
scan-Keeps env [] d = same _
scan-Keeps env (file ∷ files) d =
    let next = handle_add-Keeps env file d in
    elim (Bool-cases (is_flashing d.current)) [
      | inr e ↦ rw e (same _)
      | inl e ↦ elim (Bool-cases (handle_add env file d).1) [
        | inl f ↦ rw (e, f) next
        | inr f ↦ rw (e, f) (trans _ _ _ next (scan-Keeps env files (handle_add env file d).0))
      ]
    ]

-- The device files that appear one after another.
abbrev pub handle_adds : List (Env × DevFile) → Device → Device
handle_adds [] d = d
handle_adds ((env, dev) ∷ l) d = handle_adds l (handle_add env dev d).0

handle_adds-Keeps : (l : List (Env × DevFile)) (d : Device) → Keeps d (handle_adds l d)
handle_adds-Keeps [] d = same _
handle_adds-Keeps ((env, dev) ∷ l) d =
    trans _ _ _ (handle_add-Keeps env dev d) (handle_adds-Keeps l (handle_add env dev d).0)

get_elem?-append :
    (xs : List Object) (o : Object) (ys : List Object)
    → get_elem? ((xs ++ o ∷ []) ++ ys) (length xs) ≡ some o
get_elem?-append [] o ys = refl
get_elem?-append (x ∷ xs) o ys = get_elem?-append xs o ys

found_lem :
    (xs more later : List Object) {ys zs : List Object} (c : Option Object) (o : Object)
    → c ≡ some o
    → ys ≡ (xs ++ retired false c) ++ more
    → zs ≡ ys ++ later
    → get_elem? zs (length xs) ≡ some o
found_lem xs more later c o now e f =
    rw (f, e, now) (rw append_assoc (get_elem?-append xs o (more ++ later)))

flash_default-Keeps :
    (env : Env) (d : Device)
    → (more : List Object) × ((flash_default env d).old
        ≡ (d.old ++ retired false d.current) ++ more)
unfolding flash_default enter_flash retire
flash_default-Keeps env d = scan-Keeps env env.devs _

-- A timer that a replaced state has left running breaks the device: if a device whose state has a
-- running timer, for flashing or for the test, and has not asked for a switch is unreserved, then
-- whatever device files appear afterwards, when that timer fires the device goes to BrokenState and
-- is reported as broken.
pub stale_timer-breaks :
    (env : Env) (d : Device) (o : Object) (l : List (Env × DevFile))
    → d.current ≡ some o
    → o.timer ≡ true
    → o.switching ≡ false
    → let d' = fire_old (length d.old) (handle_adds l (flash_default env d)) in
      (d'.current ≡ some (record { kind = Kind.broken; switching = false; timer = false }))
      × (d'.status ≡ DeviceState.broken)
unfolding fire_old enter_broken
stale_timer-breaks env d o l now running unasked =
    let (more, e) = flash_default-Keeps env d in
    let (later, f) = handle_adds-Keeps l (flash_default env d) in
    let found : get_elem? (handle_adds l (flash_default env d)).old (length d.old) ≡ some o =
      found_lem d.old more later d.current o now e f in
    rw (found, running, unasked) (refl, refl)
