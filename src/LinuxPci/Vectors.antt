-- ===== src/LinuxPci/Vectors.antt =====
-- linuxkpi/src/pci.rs: the MSI-X vectors of a device, over the slot table of linuxkpi/src/irq.rs.
pub mod Table
pub mod Alloc
pub mod Release
use field_os.Prelude.{
  ℕ, zero, suc, ◌+◌, ◌-◌, ◌*◌, ◌/◌, ◌%◌, ◌^◌, min, bit_and, bit_or, Bool, true, false, not, ◌&&◌,
  ◌||◌, Option, none, some, ltb, leb, ◌==◌, if◌then◌else◌, update,
}
use field_os.Prelude.Outcome.{add64}
use field_os.Prelude.Loops.{for_range}
use field_os.Irq.{Slots, alloc_slots, free_irq}
use field_os.Pci.{Config, config_read32, config_write32, bar_address, msix_info, MsixInfo}
use field_os.LinuxPci.{Found}
use field_os.LinuxPci.Bars.{PciDev}

-- The configuration space, the dwords of the mapped memory, and the slot table.
pub record Machine : Type 0 where
  pub config : Config
  pub memory : ℕ → ℕ
  pub irq : Slots

abbrev pub msix_flag : ℕ → Bool
msix_flag flags = flags / 4 % 2 == 1

-- `slot_idt_vector` is a parameter, the table that the kernel filled at boot.
module _ (slot_idt_vector : ℕ → ℕ) where
  -- An entry of the MSI-X table: address, upper address, data, and the mask bit cleared.
  pub write_entry : ℕ → ℕ → ℕ → (ℕ → ℕ) → ℕ → ℕ
  write_entry table first_slot i memory =
      let at = table + i * 16 in
      update
        (update (update (update memory at 0xFEE00000) (at + 4) 0) (at + 8)
          (slot_idt_vector (first_slot + i)))
        (at + 12) 0

  pub write_table : ℕ → ℕ → ℕ → (ℕ → ℕ) → ℕ → ℕ
  write_table table first_slot count memory =
      for_range count 0 (write_entry table first_slot) memory

-- Set the enable bit and clear the function mask; and the other way round.
abbrev pub enabled : ℕ → ℕ
enabled cur = bit_and (bit_or cur (2 ^ 31)) (2 ^ 32 - 1 - 2 ^ 30)

abbrev pub disabled : ℕ → ℕ
disabled cur = bit_or (bit_and cur (2 ^ 31 - 1)) (2 ^ 30)

pub record Result : Type 0 where
  pub count : Option ℕ
  pub device : PciDev
  pub machine : Machine

module _ (respond : ℕ → ℕ → ℕ) (slot_idt_vector : ℕ → ℕ) (hhdm : ℕ) where
  abbrev pub write_cap : Config → Found → ℕ → (ℕ → ℕ) → Config
  write_cap cfg d cap_offset change =
      config_write32 respond cfg d.bus d.dev d.func cap_offset
        (change (config_read32 cfg d.bus d.dev d.func cap_offset))

  -- From the mapping of the table on, for `count` slots from `first_slot`.
  pub enable_vectors : Machine → PciDev → MsixInfo → ℕ → ℕ → Result
  enable_vectors m dev info count first_slot =
      let d = dev.found in
      let base = bar_address m.config d.bus d.dev d.func info.table_bar in
      let table = add64 (add64 base info.table_offset) hhdm in
      if base == 0 then record { count = none; device = dev; machine = m } else record {
        count = some count;
        device = record dev { msix_first_slot = some first_slot; msix_vector_count = count };
        machine = record m {
          config = write_cap m.config d info.cap_offset enabled;
          memory = write_table slot_idt_vector table first_slot count m.memory;
        };
      }

  pub with_slots : Machine → PciDev → MsixInfo → ℕ → Option ℕ × Slots → Result
  unfolding enable_vectors
  with_slots m dev info count (none, irq) = record {
    count = none;
    device = dev;
    machine = record m { irq = irq };
  }
  with_slots m dev info count (some first_slot, irq) =
      enable_vectors (record m { irq = irq }) dev info count first_slot

  -- From the found capability on; `none` is a device without one.
  pub with_info : Machine → PciDev → ℕ → ℕ → Option MsixInfo → Result
  unfolding with_slots
  with_info m dev min_vecs max_vecs none = record { count = none; device = dev; machine = m }
  with_info m dev min_vecs max_vecs (some info) =
      let want = min max_vecs info.table_size in
      if ltb want min_vecs
      then record { count = none; device = dev; machine = m }
      else with_slots m dev info want (alloc_slots m.irq want)

  pub pci_alloc_irq_vectors : Machine → PciDev → ℕ → ℕ → ℕ → Result
  unfolding with_info
  pci_alloc_irq_vectors m dev min_vecs max_vecs flags =
      let d = dev.found in
      let refused : Result = record { count = none; device = dev; machine = m } in
      let go = with_info m dev min_vecs max_vecs (msix_info m.config d.bus d.dev d.func) in
      if not (msix_flag flags)
      then refused
      else if (min_vecs == 0) || ltb max_vecs min_vecs
      then refused
      else go

  -- The loop of `pci_free_irq_vectors`, and its write to the capability.
  pub free_slots : ℕ → ℕ → Slots → Slots
  free_slots first count irq = for_range count 0 (λ i s. (free_irq s (first + i)).1) irq

  pub disable_cap : Config → Found → Option MsixInfo → Config
  disable_cap cfg d none = cfg
  disable_cap cfg d (some info) = write_cap cfg d info.cap_offset disabled

  pub free_from : Machine → PciDev → Option ℕ → PciDev × Machine
  unfolding free_slots disable_cap
  free_from m dev none = (dev, m)
  free_from m dev (some first) =
      let d = dev.found in
      if dev.msix_vector_count == 0 then (dev, m) else (
        record dev { msix_first_slot = none; msix_vector_count = 0 },
        record m {
          irq = free_slots first dev.msix_vector_count m.irq;
          config = disable_cap m.config d (msix_info m.config d.bus d.dev d.func);
        },
      )

  pub pci_free_irq_vectors : Machine → PciDev → PciDev × Machine
  unfolding free_from
  pci_free_irq_vectors m dev = free_from m dev dev.msix_first_slot

-- The irq number of a vector; `none` is a negative number. An index from 2^31 on is read as a
-- negative number, so it passes the test against the count.
pub vector_at : Option ℕ → ℕ → ℕ → Option ℕ
vector_at none count idx = none
vector_at (some first) count idx =
    if leb (2 ^ 31) idx
    then (if ltb (first + idx) (2 ^ 32) then none else some (first + idx - 2 ^ 32))
    else if leb count idx
    then none
    else some (first + idx)

pub pci_irq_vector : PciDev → ℕ → Option ℕ
unfolding vector_at
pci_irq_vector dev idx = vector_at dev.msix_first_slot dev.msix_vector_count idx
