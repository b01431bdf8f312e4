-- ===== src/Procedures/Status.antt =====
-- `updateDeviceStatus`, and the two invariants of the tables.
use usbip_ice.Base.{Name, ◌≡◌, false, [], ◌∷◌, arith, contains, Bool-cases, inl, inr}
use usbip_ice.Schema.{DeviceState, available, Db, serials, reserved_serials, set_status}
use usbip_ice.Schema.Keys.{
  IsValid, IsFree, serials-set_status, device_workers-set_status, status_of-set_status,
}
use usbip_ice.Procedures.{update_device_status}
use usbip_ice.Procedures.Keeps.{After}

module _ (deviceserial : Name) (dstate : DeviceState) (db : Db) where
  pub update_device_status-IsValid :
      IsValid db → After IsValid (update_device_status deviceserial dstate db)
  unfolding update_device_status
  update_device_status-IsValid v = elim (Bool-cases (contains deviceserial (serials db.devices))) [
    | inr unknown ↦ rw unknown tt
    | inl known ↦ rw known (record {
      worker_key = v.worker_key;
      device_key = rw serials-set_status v.device_key;
      reservation_key = v.reservation_key;
      device_worker = rw device_workers-set_status v.device_worker;
      reservation_device = rw serials-set_status v.reservation_device;
    })
  ]

  set_status-IsFree :
      IsFree db
      → (dstate ≡ available → contains deviceserial (reserved_serials db.reservations) ≡ false)
      → IsFree (record db { devices = set_status dstate (deviceserial ∷ []) db.devices })
  set_status-IsFree f unless s h =
      ground (arith, status_of-set_status dstate (deviceserial ∷ []) s db.devices, f s, unless)

  -- A status other than `available`, or of a device with no reservation, keeps reserved devices
  -- from being listed as available.
  pub update_device_status-IsFree :
      IsFree db
      → (dstate ≡ available → contains deviceserial (reserved_serials db.reservations) ≡ false)
      → After IsFree (update_device_status deviceserial dstate db)
  unfolding update_device_status
  update_device_status-IsFree f unless =
      elim (Bool-cases (contains deviceserial (serials db.devices))) [
        | inr unknown ↦ rw unknown tt
        | inl known ↦ rw known (set_status-IsFree f unless)
      ]
