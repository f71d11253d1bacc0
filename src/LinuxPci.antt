-- ===== src/LinuxPci.antt =====
-- linuxkpi/src/pci.rs, the PCI bus of the inherited drivers: finding the devices and matching them
-- against a driver's table. It reads the configuration space through the kernel's functions.
pub mod Bars
pub mod Vectors
pub mod Count
pub mod Register
mod Tests
use field_os.Prelude.{
  ℕ, zero, suc, ◌+◌, ◌-◌, ◌*◌, ◌/◌, ◌%◌, ◌^◌, bit_and, Bool, true, false, ◌&&◌, ◌||◌, not, List, [],
  ◌∷◌, ◌++◌, Option, none, some, leb, ◌==◌, if◌then◌else◌, filter_ne,
}
use field_os.Prelude.Loops.{for_range}
use field_os.Pci.{Config, config_read32, vendor_of, is_absent, is_multi_function}

-- What `pci_walk` hands to its closure.
pub record Found : Type 0 where
  pub bus : ℕ
  pub dev : ℕ
  pub func : ℕ
  pub vendor : ℕ
  pub device : ℕ
  pub class : ℕ
  pub subsys_vendor : ℕ
  pub subsys_device : ℕ

unfoldable pub found_at : Config → ℕ → ℕ → ℕ → Found
found_at cfg bus dev func =
    let id = config_read32 cfg bus dev func 0x00 in
    let subsys = config_read32 cfg bus dev func 0x2C in
    record {
      bus = bus;
      dev = dev;
      func = func;
      vendor = vendor_of id;
      device = id / 2 ^ 16 % 2 ^ 16;
      class = config_read32 cfg bus dev func 0x08;
      subsys_vendor = subsys % 2 ^ 16;
      subsys_device = subsys / 2 ^ 16 % 2 ^ 16;
    }

-- The closure's effects are a state `S`, which also says what the configuration space now is.
module _ {S : Type 0} (config : S → Config) (f : Found → S → S) where
  unfoldable pub visit_func : ℕ → ℕ → ℕ → S → S
  visit_func bus dev func s = f (found_at (config s) bus dev func) s

  unfoldable pub walk_func : ℕ → ℕ → ℕ → S → S
  walk_func bus dev func s =
      if is_absent (config_read32 (config s) bus dev func 0x00)
      then s
      else visit_func bus dev func s

  -- The test of the header is made on what the closure left.
  unfoldable pub walk_rest : ℕ → ℕ → S → S
  walk_rest bus dev s =
      if is_multi_function (config_read32 (config s) bus dev 0 0x0C)
      then for_range 7 1 (walk_func bus dev) s
      else s

  unfoldable pub walk_device : ℕ → ℕ → S → S
  walk_device bus dev s =
      if is_absent (config_read32 (config s) bus dev 0 0x00)
      then s
      else walk_rest bus dev (visit_func bus dev 0 s)

  unfoldable pub pci_walk : S → S
  pci_walk s = for_range 256 0 (λ bus. for_range 32 0 (walk_device bus)) s

-- `count_present`; its closure only counts.
pub count_present : Config → ℕ
count_present cfg = pci_walk {S = ℕ} (λ _. cfg) (λ _ n. n + 1) 0

-- `pci_device_id`, without the driver's own data.
pub record DeviceId : Type 0 where
  pub vendor : ℕ
  pub device : ℕ
  pub subvendor : ℕ
  pub subdevice : ℕ
  pub class : ℕ
  pub class_mask : ℕ

abbrev pub pci_any_id : ℕ
pci_any_id = 0xFFFFFFFF

abbrev pub is_sentinel : DeviceId → Bool
is_sentinel e = (e.vendor == 0) && (e.device == 0)

abbrev pub accepts : ℕ → ℕ → Bool
accepts wanted value = (wanted == pci_any_id) || (wanted == value)

abbrev pub id_matches : DeviceId → Found → Bool
id_matches e d =
    accepts e.vendor d.vendor
    && accepts e.device d.device
    && accepts e.subvendor d.subsys_vendor
    && accepts e.subdevice d.subsys_device
    && ((e.class_mask == 0) || (bit_and d.class e.class_mask == bit_and e.class e.class_mask))

-- The loop of `match_id_table` from the entry `i` on; the result is the index of the entry.
pub match_from : ℕ → (ℕ → DeviceId) → Found → ℕ → Option ℕ
match_from zero id_table d i = none
match_from (suc rounds) id_table d i =
    let rest = match_from rounds id_table d (i + 1) in
    if is_sentinel (id_table i) then none else if id_matches (id_table i) d then some i else rest

pub match_id_table : Option (ℕ → DeviceId) → Found → Option ℕ
match_id_table none d = none
match_id_table (some id_table) d = match_from 1024 id_table d 0

-- A driver is named by its address; REGISTRY.
pub register : List ℕ → ℕ → List ℕ
register registry drv = registry ++ drv ∷ []

pub pci_unregister_driver : List ℕ → ℕ → List ℕ
pci_unregister_driver registry drv = if drv == 0 then registry else filter_ne drv registry
