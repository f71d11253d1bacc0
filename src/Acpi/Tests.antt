-- ===== src/Acpi/Tests.antt =====
-- A machine with revision 0 tables: an RSDT that points at another table and then at a MADT.
use field_os.Prelude.{
  ℕ, zero, suc, ◌+◌, ◌-◌, ◌<◌, ◌≡◌, refl, arith, List, [], ◌∷◌, ◌++◌, some, false, leb, ltb, ◌&&◌,
  if◌then◌else◌, get_or, length, inr,
}
use field_os.Prelude.Outcome.{Outcome, returned, panic}
use field_os.Acpi.{
  Memory, Tables, no_tables, rsd_ptr_signature, rsdt_signature, apic_signature, walk, init,
  irq_override, lists_bsp, add_entry, find_madt, read_madt, rsdp_phys_from, IrqOverride,
}
use field_os.Acpi.Encode.{
  Holds, Holds-of_bytes_are, MadtEntry, processor, ioapic, irq, other, le32, encode_all, cpus_of,
}
use field_os.Acpi.Walk.{with_entries, walk-encode_all}
use field_os.Acpi.Local.{Agree, walk_lem}
use field_os.Acpi.Search.{is_madt, IsFirst, AreTables, tables_of, init-AreTables}

abbrev place : ℕ → List ℕ → Memory → Memory
place at bs mem a = if leb at a && ltb a (at + length bs) then get_or bs (a - at) 0 else mem a

abbrev irq_1 : IrqOverride
irq_1 = record { bus = 0; source = 1; gsi = 9; flags = 5 }

abbrev entries : List MadtEntry
entries =
    processor (record { acpi_processor_id = 0; apic_id = 3; flags = 1 })
    ∷ (other 4 (255 ∷ (5 ∷ (0 ∷ (1 ∷ []))))
        ∷ (ioapic (record { ioapic_id = 1; base = 0xFEC00000; gsi_base = 0 }) ∷ (irq irq_1 ∷ [])))

abbrev zeros : List ℕ
zeros = le32 0 ++ (le32 0 ++ (le32 0 ++ (le32 0 ++ (le32 0 ++ (le32 0 ++ le32 0)))))

abbrev madt_bytes : List ℕ
madt_bytes =
    apic_signature ++ (le32 80 ++ (zeros ++ (le32 0xFEE00000 ++ (le32 1 ++ encode_all entries))))

abbrev machine : Memory
machine = place 0x100 (rsd_ptr_signature ++ (le32 0 ++ (le32 0 ++ le32 0x200))) (
    place 0x200 (rsdt_signature ++ (le32 44 ++ (zeros ++ (le32 0x400 ++ le32 0x300))))
      (place 0x300 madt_bytes (λ _. 0)))

-- The physical memory is mapped at 0x80000000.
init_runs : init 5 machine 0x80000000 3 0x80000100 ≡ some (returned (0xFEE00000, tables_of entries))
unfolding init find_madt read_madt walk add_entry rsdp_phys_from
init_runs = refl

irq_override_runs : irq_override (tables_of entries) 1 ≡ some irq_1
unfolding irq_override
irq_override_runs = refl

machine_first : IsFirst machine 0x200 4 2 1
machine_first = record { inside = omega arith; found = refl; before = none_before }
  where
    none_before : (j : ℕ) → j < 1 → is_madt machine 0x200 4 j ≡ false
    none_before zero h = refl
    none_before (suc j) h = absurd (omega arith)

machine_tables : AreTables machine 0x100 0x200 4 1 0x300 0xFEE00000 entries
machine_tables = record {
  rsdp_signed = refl;
  kind = inr (omega arith, refl, refl, refl);
  first = machine_first;
  madt_at = refl;
  madt_length = refl;
  lapic = refl;
  entries = holds;
  others = (omega arith, tt);
}
  where
    holds : Holds machine (0x300 + 44) (encode_all entries)
    holds = Holds-of_bytes_are machine (0x300 + 44) (encode_all entries) refl

walk-encode_all_example :
    walk 5 machine 0x300 (44 + length (encode_all entries)) 44 no_tables
    ≡ some (returned (with_entries no_tables entries))
walk-encode_all_example =
    walk-encode_all machine 0x300 entries 44 5 no_tables (omega arith, tt) machine_tables.entries
      (omega arith)

init-AreTables_example :
    init 5 machine 0x80000000 3 0x80000100
    ≡ some
        (if lists_bsp 3 (cpus_of entries) then returned (0xFEE00000, tables_of entries) else panic)
init-AreTables_example =
    init-AreTables machine 0x80000000 3 0x80000100 0x200 4 1 0x300 0xFEE00000 5 entries
      (unfold rsdp_phys_from in machine_tables) (omega arith)

-- The same table with other bytes behind it.
abbrev other_machine : Memory
other_machine = place 0x350 (1 ∷ (2 ∷ (3 ∷ []))) machine

machines_Agree : Agree machine other_machine 0x300 80
machines_Agree a from upto = ground arith

walk_lem_example :
    (r : Outcome Tables) × (walk 37 machine 0x300 80 44 no_tables ≡ some r)
    × (walk 37 other_machine 0x300 80 44 no_tables ≡ some r)
walk_lem_example =
    walk_lem machine other_machine 0x300 80 machines_Agree 37 44 no_tables (omega arith)
      (omega arith)
