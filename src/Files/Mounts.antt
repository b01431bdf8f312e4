-- ===== src/Files/Mounts.antt =====
-- Uploads of firmware: `mount`, `umount`, `upload_firmware` and `upload_firmware_path` of
-- src/usbipice/utils/dev.py. The commands of the system are parameters.
pub mod Unmounted
use usbip_ice.Base.{
  Name, Bool, true, false, ◌&&◌, ◌||◌, Option, none, some, List, [], ◌∷◌, String, str_eq, ◌==◌,
  if◌then◌else◌,
}
use usbip_ice.Device.{Upload, uploaded, refused, raised}

-- What `umount` is given: the location, or the path of the partition.
pub data Target : Type 0 where
  location partition : Name → Target

-- What is run, on a state `W` of the system: each gives the next state, and whether it raises no
-- exception. `listdir` gives `none` where it raises.
pub record Commands (W : Type 0) : Type 0 where
  pub run_mount : Name → Name → W → W × Bool
  pub run_umount : Target → W → W × Bool
  pub listdir : Name → W → Option (List String)
  pub write_firmware : Name → W → W × Bool
  pub run_cp : Name → W → W × Bool

abbrev pub is_bootloader : List String → Bool
is_bootloader (a ∷ b ∷ []) = str_eq a "INDEX.HTM" && str_eq b "INFO_UF2.TXT"
is_bootloader _ = false

module _ {W : Type 0} (commands : Commands W) where
  unfoldable pub mount : Name → Name → W → W × Bool
  mount drive loc w = commands.run_mount drive loc w

  pub umount : Target → W → W × Bool
  umount loc w = commands.run_umount loc w

  -- The write or the copy, whose exception becomes `FirmwareUploadFail`
  pub copied : Name → W × Bool → W × Option Upload
  unfolding umount
  copied partition_path (w, wrote) =
      let (w', _) = umount (partition partition_path) w in
      (w', some (if wrote then uploaded else raised))

  -- What follows the mount, given what the location holds; `none` is the exception of `listdir`,
  -- which is not caught.
  pub check_files :
      (Name → W → W × Bool) → Name → Name → Option (List String) → W → W × Option Upload
  unfolding copied umount
  check_files copy partition_path mount_location none w = (w, none)
  check_files copy partition_path mount_location (some files) w =
      if is_bootloader files
      then copied partition_path (copy mount_location w)
      else let (w', _) = umount (location mount_location) w in (w', some refused)

  unfoldable pub upload : (Name → W → W × Bool) → Name → Name → W → W × Option Upload
  unfolding mount check_files
  upload copy partition_path mount_location w =
      let (w', mounted) = mount partition_path mount_location w in
      if mounted
      then check_files copy partition_path mount_location (commands.listdir mount_location w') w'
      else (w', some refused)

  pub upload_firmware : Name → Name → W → W × Option Upload
  unfolding upload
  upload_firmware partition_path mount_location w =
      upload commands.write_firmware partition_path mount_location w

  unfoldable pub upload_firmware_path : Name → Name → W → W × Option Upload
  unfolding upload
  upload_firmware_path partition_path mount_location w =
      upload commands.run_cp partition_path mount_location w
