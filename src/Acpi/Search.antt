-- ===== src/Acpi/Search.antt =====
-- From the RSDP to the tables.
use field_os.Prelude.{
  ℕ, zero, suc, ◌+◌, ◌/◌, ◌≤◌, ◌<◌, ◌≡◌, ◌⊎◌, refl, ap, ap₂, ◌∙◌, subst, arith, List, some, Bool,
  Bool-cases, inl, inr, true, false, leb, ◌==◌, if◌then◌else◌, length,
}
use field_os.Prelude.Outcome.{returned, panic, sub64}
use field_os.Acpi.{
  Memory, read_u8, read_u32, read_u64, bytes_are, Tables, no_tables, walk, rsd_ptr_signature,
  xsdt_signature, rsdt_signature, apic_signature, table_phys, find_madt, lists_bsp, rsdp_phys_from,
  check_bsp, read_madt, init,
}
use field_os.Acpi.Encode.{
  MadtEntry, encode_all, AreOthers, cpus_of, ioapics_of, overrides_of, Holds,
}
use field_os.Acpi.Walk.{walk-encode_all}

abbrev pub is_madt : Memory → ℕ → ℕ → ℕ → Bool
is_madt mem sdt entry_width i = bytes_are mem (table_phys mem sdt entry_width i) apic_signature

-- Among the first `count` entries of the (X|R)SDT, the entry `i` is the first one that points at a
-- MADT.
pub record IsFirst (mem : Memory) (sdt entry_width count i : ℕ) : Type 0 where
  pub inside : i < count
  pub found : is_madt mem sdt entry_width i ≡ true
  pub before : (j : ℕ) → j < i → is_madt mem sdt entry_width j ≡ false

find_madt_from :
    (mem : Memory) (sdt w left i k : ℕ)
    → i ≤ k
    → k < i + left
    → is_madt mem sdt w k ≡ true
    → ((j : ℕ) → j < k → is_madt mem sdt w j ≡ false)
    → find_madt left mem sdt w i ≡ some (table_phys mem sdt w k)
unfolding find_madt
find_madt_from mem sdt w zero i k from upto found before = absurd (omega arith)
find_madt_from mem sdt w (suc left) i k from upto found before = elim (Bool-cases (k == i)) [
  | inl e ↦ let same : k ≡ i = ground arith in rw (← same, found) refl
  | inr n ↦
      rw (before i (ground arith))
        (find_madt_from mem sdt w left (i + 1) k (ground arith) (omega arith) found before)
]

-- The search finds the first MADT that the (X|R)SDT points at.
pub find_madt_lem :
    (mem : Memory) (sdt entry_width count i : ℕ)
    → IsFirst mem sdt entry_width count i
    → find_madt count mem sdt entry_width 0 ≡ some (table_phys mem sdt entry_width i)
find_madt_lem mem sdt w count i first =
    find_madt_from mem sdt w count 0 i (omega arith) (omega (arith, first.inside)) first.found
      first.before

-- Well-formed tables in memory: an RSDP at `rsdp`, of revision 2 or more and with an XSDT, or older
-- and with an RSDT; a table at `sdt` with its signature, whose entry `i` is the first to point at a
-- MADT; there the MADT, with the LAPIC base and the entries `es`.
pub record AreTables (mem : Memory) (rsdp sdt width i madt lapic_base : ℕ) (es : List MadtEntry)
    : Type 0 where
  pub rsdp_signed : bytes_are mem rsdp rsd_ptr_signature ≡ true
  pub kind :
      ((1 < read_u8 mem rsdp 15)
        × (width ≡ 8)
        × (read_u64 mem rsdp 24 ≡ sdt)
        × (bytes_are mem sdt xsdt_signature ≡ true))
      ⊎ ((read_u8 mem rsdp 15 < 2)
          × (width ≡ 4)
          × (read_u32 mem rsdp 16 ≡ sdt)
          × (bytes_are mem sdt rsdt_signature ≡ true))
  pub first : IsFirst mem sdt width (sub64 (read_u32 mem sdt 4) 36 / width) i
  pub madt_at : table_phys mem sdt width i ≡ madt
  pub madt_length : read_u32 mem madt 4 ≡ 44 + length (encode_all es)
  pub lapic : read_u32 mem madt 36 ≡ lapic_base
  pub entries : Holds mem (madt + 44) (encode_all es)
  pub others : AreOthers es

abbrev pub tables_of : List MadtEntry → Tables
tables_of es = record { cpus = cpus_of es; ioapics = ioapics_of es; overrides = overrides_of es }

read_madt_lem :
    (mem : Memory) (bsp madt lapic_base fuel : ℕ) (es : List MadtEntry)
    → walk fuel mem madt (read_u32 mem madt 4) 44 no_tables ≡ some (returned (tables_of es))
    → read_u32 mem madt 36 ≡ lapic_base
    → read_madt fuel mem bsp (some madt)
      ≡ some (if lists_bsp bsp (cpus_of es) then returned (lapic_base, tables_of es) else panic)
unfolding read_madt
read_madt_lem mem bsp madt lapic_base fuel es walked base = ap₂ (check_bsp bsp) base walked

-- On well-formed tables `init` gives the LAPIC base of the MADT and exactly its processors, I/O
-- APICs and overrides if one of the processors has the boot processor's APIC ID, and panics if not;
-- one round for each entry and one more are enough.
pub init-AreTables :
    (mem : Memory) (hhdm bsp rsdp_addr sdt width i madt lapic_base fuel : ℕ) (es : List MadtEntry)
    → AreTables mem (rsdp_phys_from hhdm rsdp_addr) sdt width i madt lapic_base es
    → length es < fuel
    → init fuel mem hhdm bsp rsdp_addr
      ≡ some (if lists_bsp bsp (cpus_of es) then returned (lapic_base, tables_of es) else panic)
unfolding init
init-AreTables mem hhdm bsp rsdp_addr sdt width i madt lapic_base fuel es ok enough =
    let found : find_madt (sub64 (read_u32 mem sdt 4) 36 / width) mem sdt width 0 ≡ some madt =
      find_madt_lem mem sdt width _ i ok.first ∙ ap some ok.madt_at in
    let walked : walk fuel mem madt (read_u32 mem madt 4) 44 no_tables
        ≡ some (returned (tables_of es)) =
      rw ok.madt_length
        (walk-encode_all mem madt es 44 fuel no_tables ok.others ok.entries enough) in
    let at_width : (v : ℕ)
        → width ≡ v
        → find_madt (sub64 (read_u32 mem sdt 4) 36 / v) mem sdt v 0 ≡ some madt =
      λ v w.
        subst (λ u. find_madt (sub64 (read_u32 mem sdt 4) 36 / u) mem sdt u 0 ≡ some madt) w
          found in
    let done = read_madt_lem mem bsp madt lapic_base fuel es walked ok.lapic in
    elim ok.kind [
      | inl (new, w, at, signed) ↦
          let e : leb 2 (read_u8 mem (rsdp_phys_from hhdm rsdp_addr) 15) ≡ true = ground arith in
          rw (e, at, ok.rsdp_signed, signed, at_width 8 w) done
      | inr (old, w, at, signed) ↦
          let e : leb 2 (read_u8 mem (rsdp_phys_from hhdm rsdp_addr) 15) ≡ false = ground arith in
          rw (e, at, ok.rsdp_signed, signed, at_width 4 w) done
    ]
