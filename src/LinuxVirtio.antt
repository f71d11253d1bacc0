-- ===== src/LinuxVirtio.antt =====
-- linuxkpi/src/virtio.rs, the virtio bus of the inherited drivers: finding the devices and matching
-- them against a driver's table.
pub mod Attach
pub mod Bridge
pub mod Probe
pub mod Queue
pub mod Resolve
pub mod Setup
pub mod Count
pub mod Features
pub mod Negotiated
mod Tests
use field_os.Prelude.{
  ℕ, zero, suc, ◌+◌, ◌-◌, ◌*◌, ◌/◌, ◌%◌, ◌^◌, Bool, true, false, ◌&&◌, ◌||◌, Option, none, some,
  ltb, leb, ◌==◌, if◌then◌else◌,
}
use field_os.Prelude.Loops.{for_range}
use field_os.Pci.{Config, config_read32, vendor_of, is_absent, is_multi_function}

-- The closure's effects are a state `S`, which also says what the configuration space now is; it is
-- given the bus, the device, the function and the PCI device id.
module _ {S : Type 0} (config : S → Config) (f : ℕ → ℕ → ℕ → ℕ → S → S) where
  pub visit_func : ℕ → ℕ → ℕ → ℕ → S → S
  visit_func bus dev func id_dword s =
      if vendor_of id_dword == 0x1AF4 then f bus dev func (id_dword / 2 ^ 16 % 2 ^ 16) s else s

  pub walk_func : ℕ → ℕ → ℕ → S → S
  walk_func bus dev func s =
      let id = config_read32 (config s) bus dev func 0x00 in
      if is_absent id then s else visit_func bus dev func id s

  pub walk_rest : ℕ → ℕ → S → S
  walk_rest bus dev s =
      if is_multi_function (config_read32 (config s) bus dev 0 0x0C)
      then for_range 7 1 (walk_func bus dev) s
      else s

  pub walk_device : ℕ → ℕ → S → S
  walk_device bus dev s =
      let id = config_read32 (config s) bus dev 0 0x00 in
      if is_absent id then s else walk_rest bus dev (visit_func bus dev 0 id s)

  pub walk_virtio_devices : S → S
  walk_virtio_devices s = for_range 256 0 (λ bus. for_range 32 0 (walk_device bus)) s

pub count_present : Config → ℕ
count_present cfg = walk_virtio_devices {S = ℕ} (λ _. cfg) (λ _ _ _ _ n. n + 1) 0

-- The virtio id of a PCI device id: of a transitional device, its subsystem id.
pub pci_to_virtio_id : Config → ℕ → ℕ → ℕ → ℕ → ℕ
pci_to_virtio_id cfg bus dev func pci_device_id =
    if leb 0x1000 pci_device_id && leb pci_device_id 0x103F
    then config_read32 cfg bus dev func 0x2C / 2 ^ 16 % 2 ^ 16
    else if leb 0x1040 pci_device_id && leb pci_device_id 0x107F
    then pci_device_id - 0x1040
    else 0

-- `virtio_device_id`
pub record DeviceId : Type 0 where
  pub device : ℕ
  pub vendor : ℕ

-- The loop of `match_id_table` from the entry `i` on.
pub match_from : ℕ → (ℕ → DeviceId) → ℕ → ℕ → Bool
match_from zero id_table virtio_id i = false
match_from (suc rounds) id_table virtio_id i =
    let e = id_table i in
    let rest = match_from rounds id_table virtio_id (i + 1) in
    if (e.device == 0) && (e.vendor == 0)
    then false
    else if (e.device == 0xFFFFFFFF) || (e.device == virtio_id)
    then true
    else rest

pub match_id_table : Option (ℕ → DeviceId) → ℕ → Bool
match_id_table none virtio_id = false
match_id_table (some id_table) virtio_id = match_from 256 id_table virtio_id 0
