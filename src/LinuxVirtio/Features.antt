-- ===== src/LinuxVirtio/Features.antt =====
-- Feature negotiation: the fold of a driver's table, `linuxkpi_virtio_init_transport` of the bridge
-- against the COMMON_CFG of a device, and the tests of the negotiated set.
use field_os.Prelude.{
  ℕ, ◌+◌, ◌-◌, ◌*◌, ◌/◌, ◌%◌, ◌^◌, bit_and, bit_or, Bool, false, not, ◌&&◌, Option, none, some, ltb,
  leb, ◌==◌, if◌then◌else◌,
}
use field_os.Prelude.Loops.{for_range}
use field_os.Prelude.Outcome.{Outcome, returned, panic}

abbrev pub virtio_f_version_1 : ℕ
virtio_f_version_1 = 32

-- The loop that folds the table; `none` is a null pointer.
unfoldable pub fold_entry : (ℕ → ℕ) → ℕ → ℕ → ℕ
fold_entry table i mask = if ltb (table i) 64 then bit_or mask (2 ^ table i) else mask

unfoldable pub fold_features : Option (ℕ → ℕ) → ℕ → ℕ
fold_features none size = 2 ^ virtio_f_version_1
fold_features (some table) size = for_range size 0 (fold_entry table) (2 ^ virtio_f_version_1)

-- The registers of COMMON_CFG that the negotiation uses, and the features that the device offers.
pub record Common : Type 0 where
  pub status : ℕ
  pub offered : ℕ
  pub device_select : ℕ
  pub driver_select : ℕ
  pub driver_features : ℕ
  pub msix_config : ℕ

-- The two windows on 64 bits.
abbrev pub device_feature : Common → ℕ
device_feature c =
    if c.device_select == 0
    then c.offered % 2 ^ 32
    else if c.device_select == 1
    then c.offered / 2 ^ 32
    else 0

pub write_driver_feature : ℕ → Common → Common
write_driver_feature v c =
    if c.driver_select == 0
    then record c { driver_features = c.driver_features / 2 ^ 32 * 2 ^ 32 + v }
    else if c.driver_select == 1
    then record c { driver_features = v * 2 ^ 32 + c.driver_features % 2 ^ 32 }
    else c

-- A device that is written 0 is reset; one that does not accept the features clears FEATURES_OK,
-- bit 3. Which features it accepts is a parameter.
module _ (accepts : ℕ → ℕ → Bool) where
  pub write_status : ℕ → Common → Common
  write_status v c =
      if v == 0
      then record c {
        status = 0;
        device_select = 0;
        driver_select = 0;
        driver_features = 0;
        msix_config = 0xFFFF;
      }
      else if (v / 8 % 2 == 1) && not (accepts c.offered c.driver_features)
      then record c { status = v - 8 }
      else record c { status = v }

  -- The bounded wait after the reset only reads.
  unfoldable pub init_transport : Common → ℕ → Outcome (ℕ × Common)
  unfolding write_status write_driver_feature
  init_transport c driver_features =
      let driver = write_status 3 (write_status 1 (write_status 0 c)) in
      let low : Common = record driver { device_select = 0 } in
      let high : Common = record low { device_select = 1 } in
      let device_features = bit_or (device_feature high * 2 ^ 32) (device_feature low) in
      let negotiated = bit_and driver_features device_features in
      let first =
        write_driver_feature (bit_and negotiated 0xFFFFFFFF) (record high { driver_select = 0 }) in
      let second =
        write_driver_feature (negotiated / 2 ^ 32) (record first { driver_select = 1 }) in
      let done = write_status 11 second in
      if bit_and done.status 8 == 8 then returned (negotiated, done) else panic

  unfoldable pub reset_device : Common → Common
  unfolding write_status
  reset_device c = write_status 0 c

-- `linuxkpi_virtio_set_msix_config_vector`; what the device then gives is a parameter.
unfoldable pub set_msix_config_vector : (ℕ → ℕ) → Common → ℕ → ℕ × Common
set_msix_config_vector echoes c vector = (echoes vector, record c { msix_config = echoes vector })

-- The bit tests, on the `features` of a device.
unfoldable pub virtio_has_feature : ℕ → ℕ → Bool
virtio_has_feature features fbit =
    if leb 64 fbit then false else not (bit_and features (2 ^ fbit) == 0)

-- `features & !(1 << fbit)`.
unfoldable pub virtio_clear_bit : ℕ → ℕ → ℕ
virtio_clear_bit features fbit =
    if leb 64 fbit then features else bit_and features (2 ^ 64 - 1 - 2 ^ fbit)
