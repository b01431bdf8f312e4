-- ===== src/Flasher/Reports.antt =====
-- What becomes of the serials that are flashed.
use usbip_ice.Base.{
  ℕ, Name, ◌≡◌, refl, ◌∙◌, Bool, false, ◌||◌, Option, none, some, List, [], ◌∷◌, ◌++◌, arith, ◌==◌,
  contains, contains-append, length, get_elem?,
}
use usbip_ice.Base.Dict.{has_key, insert, keys, has_key-keys, has_key-insert, has_key-erase}
use usbip_ice.Device.{DevFile, Upload}
use usbip_ice.Flasher.{
  find_device, handle_found, handle_event, event, Device, FirmwareFlasher, Report, nothing, raised,
  done, returned, handle_done, handle_failed, mark_done, mark_failed, tty_export, part_export,
  other_export, export_file, export_found, add_devices, files_of, named, signal_all, flash,
  fail_remaining, wait_until_finished, Act, flash_all, export, time_out, wait, act, run, reports,
}

-- The serial is in the queue or among the failed ones.
abbrev pub is_known : Name → FirmwareFlasher → Bool
is_known k f = has_key k f.remaining_serials || contains k f.failed_serials

abbrev pub mentions : Name → Report → Bool
mentions k nothing = false
mentions k raised = false
mentions k (done serial) = k == serial
mentions k (returned failed) = contains k failed

abbrev pub is_reported : Name → List Report → Bool
is_reported k [] = false
is_reported k (r ∷ rs) = mentions k r || is_reported k rs

abbrev pub flashes : Name → Act → Bool
flashes k (flash_all serials path info) = contains k serials
flashes k _ = false

abbrev pub is_flashed : Name → List Act → Bool
is_flashed k [] = false
is_flashed k (a ∷ acts) = flashes k a || is_flashed k acts

-- What a step keeps of one serial: nothing is forgotten that is not reported.
abbrev Accounts : Name → Bool → FirmwareFlasher → FirmwareFlasher × Report → Type 0
Accounts k added f (f', r) = (is_known k f' || mentions k r) ≡ (is_known k f || added)

module _ (k : Name) where
  mark_done-Accounts : (s : Name) (f : FirmwareFlasher) → Accounts k false f (mark_done s f)
  unfolding mark_done handle_done
  mark_done-Accounts s f = ground (arith, has_key-erase k s f.remaining_serials)

  mark_failed-Accounts : (s : Name) (f : FirmwareFlasher) → Accounts k false f (mark_failed s f)
  unfolding mark_failed handle_failed
  mark_failed-Accounts s f =
      ground
        (arith, has_key-erase k s f.remaining_serials, contains-append k f.failed_serials (s ∷ []))

  export_found-Accounts :
      (outcome : Upload) (file : DevFile) (path : Name) (n : ℕ) (o : Option Device)
      (f : FirmwareFlasher)
      → Accounts k false f (export_found outcome file path n o f)
  unfolding export_found export_file tty_export part_export other_export
  export_found-Accounts outcome file path n none f = ground arith
  export_found-Accounts Upload.raised file path n (some d) f =
      ground (arith, mark_done-Accounts d.serial f, mark_failed-Accounts d.serial f)
  export_found-Accounts _ file path n (some d) f = ground (arith, mark_done-Accounts d.serial f)

  signal_all-known :
      (files : List DevFile) (f : FirmwareFlasher) → is_known k (signal_all files f) ≡ is_known k f
  unfolding signal_all
  signal_all-known [] f = refl
  signal_all-known (file ∷ files) f = ground (
    arith,
    signal_all-known files
        (record f { bootloader_signals = f.bootloader_signals ++ named file.devname }),
  )

  add_devices-known :
      (serials : List Name) (path : Name) (f : FirmwareFlasher)
      → is_known k (add_devices serials path f) ≡ (is_known k f || contains k serials)
  unfolding add_devices
  add_devices-known [] path f = ground arith
  add_devices-known (s ∷ serials) path f = ground (
    arith,
    add_devices-known serials path (record f {
      remaining_serials = insert s (length f.devices) f.remaining_serials;
      devices =
          f.devices ++ record { serial = s; firmware_path = path; upload_finished = false } ∷ [];
    }),
    has_key-insert k s (length f.devices) f.remaining_serials,
  )

  fail_remaining-known : (f : FirmwareFlasher) → is_known k (fail_remaining f) ≡ is_known k f
  unfolding fail_remaining
  fail_remaining-known f = ground (
    arith,
    contains-append k f.failed_serials (keys f.remaining_serials),
    has_key-keys k f.remaining_serials,
  )

  handle_found-Accounts :
      (outcome : Upload) (file : DevFile) (o : Option (ℕ × Name)) (f : FirmwareFlasher)
      → Accounts k false f (handle_found outcome file o f)
  unfolding handle_found
  handle_found-Accounts outcome file none f = ground arith
  handle_found-Accounts outcome file (some (n, path)) f =
      export_found-Accounts outcome file path n (get_elem? f.devices n) f

  act-Accounts : (a : Act) (f : FirmwareFlasher) → Accounts k (flashes k a) f (act a f)
  unfolding act flash wait_until_finished handle_event
  act-Accounts (flash_all serials path info) f = ground (
    arith,
    signal_all-known (files_of serials info) (add_devices serials path f),
    add_devices-known serials path f,
  )
  act-Accounts (event outcome action dev) f =
      handle_found-Accounts outcome dev.file (find_device action dev f) f
  act-Accounts (export outcome file path n) f =
      export_found-Accounts outcome file path n (get_elem? f.devices n) f ∙ ground arith
  act-Accounts time_out f = ground (arith, fail_remaining-known f)
  act-Accounts wait f = ground arith

  run-accounts_from :
      (acts : List Act) (f : FirmwareFlasher)
      → (is_known k (run acts f) || is_reported k (reports acts f))
        ≡ (is_known k f || is_flashed k acts)
  run-accounts_from [] f = ground arith
  run-accounts_from (a ∷ acts) f =
      ground (arith, run-accounts_from acts (act a f).0, act-Accounts a f)

-- `FirmwareFlasher()`
abbrev pub new : FirmwareFlasher
new = record { remaining_serials = []; failed_serials = []; devices = []; bootloader_signals = [] }

-- Whatever is flashed, whatever files appear and however their uploads end, and whenever a wait
-- times out or returns: a serial was flashed exactly if it is in the queue, is among the failed
-- ones, was done, or was returned as failed by a wait. None is forgotten, and no other one
-- appears.
pub run-accounts :
    (acts : List Act) (k : Name)
    → (is_known k (run acts new) || is_reported k (reports acts new)) ≡ is_flashed k acts
run-accounts acts k = run-accounts_from k acts new

-- After any run, the timeout of a wait or the end of the flasher makes a wait return at once, and a
-- serial was flashed exactly if it was done before, or was returned by an earlier wait, or is
-- returned by this one; afterwards no serial is in the queue or among the failed ones.
pub fail_remaining-returns :
    (acts : List Act) (k : Name)
    → (failed : List Name) × (f' : FirmwareFlasher) × (wait_until_finished
          (fail_remaining (run acts new))
        ≡ some (failed, f'))
      × ((is_reported k (reports acts new) || contains k failed) ≡ is_flashed k acts)
      × (is_known k f' ≡ false)
unfolding wait_until_finished fail_remaining
fail_remaining-returns acts k =
    let f = run acts new in
    (
      f.failed_serials ++ keys f.remaining_serials,
      record (fail_remaining f) { failed_serials = [] },
      refl,
      ground (
        arith,
        run-accounts acts k,
        contains-append k f.failed_serials (keys f.remaining_serials),
        has_key-keys k f.remaining_serials,
      ),
      refl,
    )
