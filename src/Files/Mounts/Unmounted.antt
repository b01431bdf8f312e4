-- ===== src/Files/Mounts/Unmounted.antt =====
-- What is mounted after an upload.
use usbip_ice.Base.{
  Name, ◌≡◌, refl, Bool, true, false, not, ◌&&◌, ◌||◌, Option, none, some, List, String, arith, ◌∙◌,
  ◌==◌, if◌then◌else◌, Bool-cases, inl, inr,
}
use usbip_ice.Device.{uploaded, refused, raised, Env}
use usbip_ice.Device.Ops
use usbip_ice.Files.Mounts.{
  Target, location, partition, Commands, is_bootloader, mount, check_files, upload, upload_firmware,
  upload_firmware_path,
}

-- `listdir` raises.
abbrev pub is_unlisted : Option (List String) → Bool
is_unlisted none = true
is_unlisted (some files) = false

abbrev pub concerns : Target → Name → Name → Bool
concerns (location l) drive loc = loc == l
concerns (partition p) drive loc = drive == p

-- What the commands' manuals say: which drives are mounted, and where, after each command. A
-- command that fails changes nothing.
pub record AreDocumented {W : Type 0} (commands : Commands W) (is_mounted : W → Name → Name → Bool)
    : Type 0 where
  pub after_mount :
      (drive loc : Name) (w : W) (d l : Name)
      → is_mounted (commands.run_mount drive loc w).0 d l
        ≡ (is_mounted w d l || ((commands.run_mount drive loc w).1 && (d == drive && l == loc)))
  pub after_umount :
      (target : Target) (w : W) (d l : Name)
      → is_mounted (commands.run_umount target w).0 d l
        ≡ (is_mounted w d l && not ((commands.run_umount target w).1 && concerns target d l))
  pub after_write :
      (loc : Name) (w : W) (d l : Name)
      → is_mounted (commands.write_firmware loc w).0 d l ≡ is_mounted w d l
  pub after_cp :
      (loc : Name) (w : W) (d l : Name)
      → is_mounted (commands.run_cp loc w).0 d l ≡ is_mounted w d l

-- The upload, with this write or copy, succeeds in unmounting, given what the location holds.
abbrev pub unmounts :
    {W : Type 0}
    → Commands W
    → (Name → W → W × Bool)
    → Name
    → Name
    → Option (List String)
    → W
    → Bool
unmounts commands copy partition_path mount_location none w = false
unmounts commands copy partition_path mount_location (some files) w =
    if is_bootloader files
    then (commands.run_umount (partition partition_path) (copy mount_location w).0).1
    else (commands.run_umount (location mount_location) w).1

-- The upload's mount succeeds, and is not undone.
abbrev pub stays : {W : Type 0} → Commands W → (Name → W → W × Bool) → Name → Name → W → Bool
stays commands copy partition_path mount_location w =
    let (w', ok) = mount commands partition_path mount_location w in
    ok
    && not (
        unmounts commands copy partition_path mount_location (commands.listdir mount_location w')
          w')

module _ {W : Type 0} (commands : Commands W) (is_mounted : W → Name → Name → Bool)
    (documented : AreDocumented commands is_mounted) where
  module _ (copy : Name → W → W × Bool)
      (after_copy : (loc : Name) (w : W) (d l : Name)
        → is_mounted (copy loc w).0 d l ≡ is_mounted w d l)
      (partition_path mount_location : Name) where
    check_files-mounted :
        (files : List String) (w : W) (d l : Name)
        → is_mounted (check_files commands copy partition_path mount_location (some files) w).0 d l
          ≡ (is_mounted w d l
              && not (
                  unmounts commands copy partition_path mount_location (some files) w
                  && (if is_bootloader files then d == partition_path else l == mount_location)))
    unfolding check_files
    check_files-mounted files w d l = elim (Bool-cases (is_bootloader files)) [
      | inl e ↦ rw e (
          ground (
            arith,
            documented.after_umount (partition partition_path) (copy mount_location w).0 d l,
            after_copy mount_location w d l,
          ))
      | inr e ↦ rw e (documented.after_umount (location mount_location) w d l)
    ]

    -- The drive has been mounted, and what was mounted before was elsewhere.
    check-mounted :
        (files : Option (List String)) (w w' : W) (d l : Name)
        → is_mounted w' d l
          ≡ (is_mounted w d l || (true && (d == partition_path && l == mount_location)))
        → is_mounted w partition_path l ≡ false
        → is_mounted w d mount_location ≡ false
        → is_mounted (check_files commands copy partition_path mount_location files w').0 d l ≡ (
            is_mounted w d l
            || (not (unmounts commands copy partition_path mount_location files w')
                && (d == partition_path && l == mount_location)))
    unfolding check_files
    check-mounted none w w' d l now free free' = now
    check-mounted (some files) w w' d l now free free' =
        check_files-mounted files w' d l ∙ elim (Bool-cases (is_bootloader files)) [
          | inl e ↦ rw e (ground (arith, now, free))
          | inr e ↦ rw e (ground (arith, now, free'))
        ]

    upload-mounted :
        (w : W) (d l : Name)
        → is_mounted w partition_path l ≡ false
        → is_mounted w d mount_location ≡ false
        → is_mounted (upload commands copy partition_path mount_location w).0 d l ≡ (
            is_mounted w d l
            || (stays commands copy partition_path mount_location w
                && (d == partition_path && l == mount_location)))
    unfolding upload mount
    upload-mounted w d l free free' = ground (
      arith,
      documented.after_mount partition_path mount_location w d l,
      check-mounted
          (commands.listdir mount_location (mount commands partition_path mount_location w).0) w
          (mount commands partition_path mount_location w).0 d l,
      free,
      free',
    )

  -- If the partition is not mounted and nothing is mounted at the location, then after
  -- `upload_firmware` and after `upload_firmware_path` exactly the drives are mounted that were
  -- before, and also the partition at the location if the mount succeeds and either `listdir`
  -- raises or the one `umount` that follows fails: on a refusal that of the location, and otherwise
  -- that of the partition, whether or not the write or the copy raised.
  pub uploads-unmount :
      (partition_path mount_location : Name) (w : W) (d l : Name)
      → ((at : Name) → is_mounted w partition_path at ≡ false)
      → ((drive : Name) → is_mounted w drive mount_location ≡ false)
      → (is_mounted (upload_firmware commands partition_path mount_location w).0 d l ≡ (
          is_mounted w d l
          || (stays commands commands.write_firmware partition_path mount_location w
              && (d == partition_path && l == mount_location))))
        × (is_mounted (upload_firmware_path commands partition_path mount_location w).0 d l ≡ (
            is_mounted w d l
            || (stays commands commands.run_cp partition_path mount_location w
                && (d == partition_path && l == mount_location))))
  unfolding upload_firmware upload_firmware_path
  uploads-unmount partition_path mount_location w d l free free' = (
    upload-mounted commands.write_firmware documented.after_write partition_path mount_location w d
        l (free l) (free' d),
    upload-mounted commands.run_cp documented.after_cp partition_path mount_location w d l (free l)
        (free' d),
  )

module _ {W : Type 0} (commands : Commands W) (mount_location : Name) (w : W) where
  -- The outcomes of the commands that an upload of a partition runs.
  abbrev pub listing : Name → Option (List String)
  listing p = commands.listdir mount_location (mount commands p mount_location w).0

  abbrev pub holds_bootloader : Option (List String) → Bool
  holds_bootloader none = false
  holds_bootloader (some files) = is_bootloader files

  abbrev pub outcomes : Env → Env
  outcomes env = record env {
    mounts = λ p. (mount commands p mount_location w).1;
    is_bootloader = λ p. holds_bootloader (listing p);
    copies = λ p. (commands.run_cp mount_location (mount commands p mount_location w).0).1;
  }

  check_files-outcome :
      (p : Name) (files : Option (List String)) (w' : W)
      → is_unlisted files ≡ false
      → (check_files commands commands.run_cp p mount_location files w').1
        ≡ some (
            if holds_bootloader files
            then (if (commands.run_cp mount_location w').1 then uploaded else raised)
            else refused)
  unfolding check_files
  check_files-outcome p none w' h = cc
  check_files-outcome p (some files) w' h = ground arith

  -- Where `listdir` does not raise, the upload's outcome is that of the devices' uploads, given
  -- what its commands do.
  pub upload_firmware_path-outcome :
      (env : Env) (partition_path : Name)
      → is_unlisted (listing partition_path) ≡ false
      → (upload_firmware_path commands partition_path mount_location w).1
        ≡ some (Ops.upload_firmware_path (outcomes env) partition_path)
  unfolding upload_firmware_path Ops.upload_firmware_path
  upload_firmware_path-outcome env partition_path listed =
      elim (Bool-cases (mount commands partition_path mount_location w).1) [
        | inl e ↦ rw e (check_files-outcome partition_path (listing partition_path) _ listed)
        | inr e ↦ rw e refl
      ]
