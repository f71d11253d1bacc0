-- ===== src/Acpi.antt =====
-- arsenal-kernel/src/acpi.rs, the walk from the RSDP to the entries of the MADT.
-- Memory is a function from physical addresses to bytes: `map_table` maps a table at a fixed offset
-- and leaves its bytes as they are.
pub mod Encode
pub mod Walk
pub mod Local
pub mod Search
mod Tests
use field_os.Prelude.{
  ℕ, zero, suc, ◌+◌, ◌-◌, ◌*◌, ◌/◌, ◌%◌, ◌^◌, Bool, true, false, ◌&&◌, ◌||◌, not, List, [], ◌∷◌,
  ◌++◌, Option, none, some, ltb, leb, ◌==◌, if◌then◌else◌,
}
use field_os.Prelude.Outcome.{Outcome, returned, panic, ◌>>=◌, sub64}

abbrev pub Memory : Type 0
Memory = ℕ → ℕ

abbrev pub read_u8 : Memory → ℕ → ℕ → ℕ
read_u8 mem base offset = mem (base + offset)

abbrev pub read_u16 : Memory → ℕ → ℕ → ℕ
read_u16 mem base offset = mem (base + offset) + mem (base + offset + 1) * 256

abbrev pub read_u32 : Memory → ℕ → ℕ → ℕ
read_u32 mem base offset =
    mem (base + offset)
    + mem (base + offset + 1) * 256
    + mem (base + offset + 2) * 65536
    + mem (base + offset + 3) * 16777216

abbrev pub read_u64 : Memory → ℕ → ℕ → ℕ
read_u64 mem base offset = read_u32 mem base offset + read_u32 mem base (offset + 4) * 2 ^ 32

-- Whether the bytes at an offset are those of a list.
abbrev pub bytes_are : Memory → ℕ → List ℕ → Bool
bytes_are mem at [] = true
bytes_are mem at (b ∷ bs) = (mem at == b) && bytes_are mem (at + 1) bs

pub record CpuInfo : Type 0 where
  pub acpi_processor_id : ℕ
  pub apic_id : ℕ
  pub flags : ℕ

pub record IoapicInfo : Type 0 where
  pub ioapic_id : ℕ
  pub base : ℕ
  pub gsi_base : ℕ

pub record IrqOverride : Type 0 where
  pub bus : ℕ
  pub source : ℕ
  pub gsi : ℕ
  pub flags : ℕ

-- CPUS, IOAPICS and IRQ_OVERRIDES
pub record Tables : Type 0 where
  pub cpus : List CpuInfo
  pub ioapics : List IoapicInfo
  pub overrides : List IrqOverride

abbrev pub no_tables : Tables
no_tables = record { cpus = []; ioapics = []; overrides = [] }

-- The `match` on an entry's type, with its guards on the entry's length.
pub add_entry : Memory → ℕ → ℕ → ℕ → Tables → Tables
add_entry mem madt cursor entry_len t =
    let entry_type = read_u8 mem madt cursor in
    if (entry_type == 0) && leb 8 entry_len
    then record t {
      cpus =
          t.cpus
          ++ (record {
            acpi_processor_id = read_u8 mem madt (cursor + 2);
            apic_id = read_u8 mem madt (cursor + 3);
            flags = read_u32 mem madt (cursor + 4);
          }
              ∷ []);
    }
    else if (entry_type == 1) && leb 12 entry_len
    then record t {
      ioapics =
          t.ioapics
          ++ (record {
            ioapic_id = read_u8 mem madt (cursor + 2);
            base = read_u32 mem madt (cursor + 4);
            gsi_base = read_u32 mem madt (cursor + 8);
          }
              ∷ []);
    }
    else if (entry_type == 2) && leb 10 entry_len
    then record t {
      overrides =
          t.overrides
          ++ (record {
            bus = read_u8 mem madt (cursor + 2);
            source = read_u8 mem madt (cursor + 3);
            gsi = read_u32 mem madt (cursor + 4);
            flags = read_u16 mem madt (cursor + 8);
          }
              ∷ []);
    }
    else t

-- The loop over the entries; `none` means that the fuel ran out.
pub walk : ℕ → Memory → ℕ → ℕ → ℕ → Tables → Option (Outcome Tables)
walk zero mem madt madt_length cursor t = none
walk (suc fuel) mem madt madt_length cursor t =
    let entry_len = read_u8 mem madt (cursor + 1) in
    let rest =
      walk fuel mem madt madt_length (cursor + entry_len) (add_entry mem madt cursor entry_len t) in
    if ltb madt_length (cursor + 2)
    then some (returned t)
    else if ltb entry_len 2
    then some panic
    else if ltb madt_length (cursor + entry_len)
    then some panic
    else rest

-- The signatures "RSD PTR ", "XSDT", "RSDT" and "APIC"
abbrev pub rsd_ptr_signature : List ℕ
rsd_ptr_signature = 82 ∷ 83 ∷ 68 ∷ 32 ∷ 80 ∷ 84 ∷ 82 ∷ 32 ∷ []

abbrev pub xsdt_signature : List ℕ
xsdt_signature = 88 ∷ 83 ∷ 68 ∷ 84 ∷ []

abbrev pub rsdt_signature : List ℕ
rsdt_signature = 82 ∷ 83 ∷ 68 ∷ 84 ∷ []

abbrev pub apic_signature : List ℕ
apic_signature = 65 ∷ 80 ∷ 73 ∷ 67 ∷ []

-- The address in the entry `i` of the (X|R)SDT.
abbrev pub table_phys : Memory → ℕ → ℕ → ℕ → ℕ
table_phys mem sdt entry_width i =
    if entry_width == 8
    then read_u64 mem sdt (36 + i * entry_width)
    else read_u32 mem sdt (36 + i * entry_width)

-- The search for the MADT, with `left` entries to go from the entry `i` on.
pub find_madt : ℕ → Memory → ℕ → ℕ → ℕ → Option ℕ
find_madt zero mem sdt entry_width i = none
find_madt (suc left) mem sdt entry_width i =
    let phys = table_phys mem sdt entry_width i in
    let later = find_madt left mem sdt entry_width (i + 1) in
    if bytes_are mem phys apic_signature then some phys else later

-- `cpus.iter().any(|c| c.apic_id == bsp_apic_id)`
abbrev pub lists_bsp : ℕ → List CpuInfo → Bool
lists_bsp bsp_apic_id [] = false
lists_bsp bsp_apic_id (c ∷ cs) = (c.apic_id == bsp_apic_id) || lists_bsp bsp_apic_id cs

pub rsdp_phys_from : ℕ → ℕ → ℕ
rsdp_phys_from hhdm addr = if leb hhdm addr then addr - hhdm else addr

-- The end of `init`: the boot processor must be among the processors.
abbrev pub check_bsp : ℕ → ℕ → Option (Outcome Tables) → Option (Outcome (ℕ × Tables))
check_bsp bsp_apic_id lapic_base none = none
check_bsp bsp_apic_id lapic_base (some panic) = some panic
check_bsp bsp_apic_id lapic_base (some (returned t)) =
    some (if lists_bsp bsp_apic_id t.cpus then returned (lapic_base, t) else panic)

-- `init` from the found MADT on: the LAPIC base and the tables.
pub read_madt : ℕ → Memory → ℕ → Option ℕ → Option (Outcome (ℕ × Tables))
read_madt fuel mem bsp_apic_id none = some panic
read_madt fuel mem bsp_apic_id (some madt) =
    check_bsp bsp_apic_id (read_u32 mem madt 36)
      (walk fuel mem madt (read_u32 mem madt 4) 44 no_tables)

-- `init`, for the offset of the physical memory and the LAPIC ID of the boot processor.
pub init : ℕ → Memory → ℕ → ℕ → ℕ → Option (Outcome (ℕ × Tables))
init fuel mem hhdm bsp_apic_id rsdp_addr =
    let rsdp = rsdp_phys_from hhdm rsdp_addr in
    let extended = leb 2 (read_u8 mem rsdp 15) in
    let sdt = if extended then read_u64 mem rsdp 24 else read_u32 mem rsdp 16 in
    let entry_width = if extended then 8 else 4 in
    let count = sub64 (read_u32 mem sdt 4) 36 / entry_width in
    let found = read_madt fuel mem bsp_apic_id (find_madt count mem sdt entry_width 0) in
    if not (bytes_are mem rsdp rsd_ptr_signature)
    then some panic
    else if not (bytes_are mem sdt (if extended then xsdt_signature else rsdt_signature))
    then some panic
    else found

pub irq_override : Tables → ℕ → Option IrqOverride
irq_override t isa_irq = find t.overrides
  where
    find : List IrqOverride → Option IrqOverride
    find [] = none
    find (o ∷ os) = let later = find os in if o.source == isa_irq then some o else later
