-- ===== src/LinuxPci/Vectors/Alloc.antt =====
-- All outcomes of `pci_alloc_irq_vectors`.
use field_os.Prelude.{
  ℕ, ◌+◌, ◌*◌, ◌^◌, ◌≤◌, ◌<◌, ◌≡◌, ◌⊎◌, inl, inr, refl, min, arith, false, ◌||◌, Option, none, some,
  ltb, ◌==◌, Bool-cases, Option-cases,
}
use field_os.Prelude.Outcome.{add64}
use field_os.Irq.{Slots, alloc_slots}
use field_os.Irq.Ranges.{alloc_slots-cases}
use field_os.Pci.{MsixInfo, msix_info, bar_address}
use field_os.LinuxPci.Bars.{PciDev}
use field_os.LinuxPci.Vectors.{
  Machine, Result, msix_flag, enabled, write_cap, enable_vectors, with_slots, with_info,
  pci_alloc_irq_vectors, pci_irq_vector, vector_at,
}
use field_os.LinuxPci.Vectors.Table.{
  Delivers, write_table-Delivers, write_table_before, write_table_after,
}

module _ (respond : ℕ → ℕ → ℕ) (slot_idt_vector : ℕ → ℕ) (hhdm : ℕ) (m : Machine)
    (dev : PciDev) where
  -- The capability and the table of the device.
  abbrev pub info_of : Option MsixInfo
  info_of = msix_info m.config dev.found.bus dev.found.dev dev.found.func

  abbrev pub base_of : MsixInfo → ℕ
  base_of info = bar_address m.config dev.found.bus dev.found.dev dev.found.func info.table_bar

  abbrev pub table_of : MsixInfo → ℕ
  table_of info = add64 (add64 (base_of info) info.table_offset) hhdm

  -- The call failed and left the device and the machine as they were, but for the slots.
  abbrev pub failed : Slots → Result
  failed irq = record { count = none; device = dev; machine = record m { irq = irq } }

  abbrev pub taken : ℕ → Slots
  taken n = record m.irq { next_slot = m.irq.next_slot + n }

  -- The device has the `n` slots from the old `next_slot` on: the driver sees them, the table sends
  -- each of them its vector, and nothing else was written but the capability's enable bit.
  pub record Granted (info : MsixInfo) (n : ℕ) (r : Result) : Type 0 where
    pub count : r.count ≡ some n
    pub fits : m.irq.next_slot + n ≤ 16
    pub pool : r.machine.irq ≡ taken n
    pub vector : (i : ℕ) → (n ≤ i) ⊎ (pci_irq_vector r.device i ≡ some (m.irq.next_slot + i))
    pub entry :
        (i : ℕ)
        → (n ≤ i)
          ⊎ Delivers r.machine.memory (table_of info) i (slot_idt_vector (m.irq.next_slot + i))
    pub before : (a : ℕ) → (table_of info ≤ a) ⊎ (r.machine.memory a ≡ m.memory a)
    pub after : (a : ℕ) → (a < table_of info + n * 16) ⊎ (r.machine.memory a ≡ m.memory a)
    pub cap :
        r.machine.config
        ≡ write_cap respond slot_idt_vector hhdm m.config dev.found info.cap_offset enabled
    pub found : r.device.found ≡ dev.found

  -- What `n` vectors end in, once the capability is found and the request is sound.
  pub data Served (info : MsixInfo) (n : ℕ) (r : Result) : Type 0 where
    no_slots : (n ≡ 0) ⊎ (16 < m.irq.next_slot + n) → r ≡ failed m.irq → Served info n r
    no_table : base_of info ≡ 0 → r ≡ failed (taken n) → Served info n r
    granted : Granted info n r → Served info n r

  enable_vectors-Served :
      (info : MsixInfo) (n : ℕ)
      → m.irq.next_slot + n ≤ 16
      → Served info n (
          enable_vectors respond slot_idt_vector hhdm
            (record m { irq = taken n })
            dev
            info
            n
            m.irq.next_slot)
  unfolding enable_vectors pci_irq_vector vector_at
  enable_vectors-Served info n fits = elim (Bool-cases (base_of info == 0)) [
    | inl null ↦ no_table (ground arith) (rw null refl)
    | inr there ↦ rw there (
        granted (record {
          count = refl;
          fits = fits;
          pool = refl;
          vector = λ i. ground arith;
          entry = λ i.
              write_table-Delivers slot_idt_vector (table_of info) m.irq.next_slot n i m.memory;
          before =
              λ a. write_table_before slot_idt_vector (table_of info) m.irq.next_slot n a m.memory;
          after =
              λ a. write_table_after slot_idt_vector (table_of info) m.irq.next_slot n a m.memory;
          cap = refl;
          found = refl;
        }))
  ]

  with_slots-Served :
      (info : MsixInfo) (n : ℕ)
      → m.irq.next_slot ≤ 16
      → n < 2 ^ 64
      → Served info n (with_slots respond slot_idt_vector hhdm m dev info n (alloc_slots m.irq n))
  unfolding with_slots
  with_slots-Served info n small word = elim (alloc_slots-cases m.irq n small word) [
    | inl (some_asked, fits, e) ↦ rw e (enable_vectors-Served info n fits)
    | inr (why, e) ↦ rw e (no_slots why refl)
  ]

  -- How a call of `pci_alloc_irq_vectors` ends.
  pub data Outcome (min_vecs max_vecs flags : ℕ) (r : Result) : Type 0 where
    not_msix : msix_flag flags ≡ false → r ≡ failed m.irq → Outcome min_vecs max_vecs flags r
    bad_request :
        (min_vecs ≡ 0) ⊎ (max_vecs < min_vecs)
        → r ≡ failed m.irq
        → Outcome min_vecs max_vecs flags r
    no_capability : info_of ≡ none → r ≡ failed m.irq → Outcome min_vecs max_vecs flags r
    small_table :
        (info : MsixInfo)
        → info_of ≡ some info
        → info.table_size < min_vecs
        → r ≡ failed m.irq
        → Outcome min_vecs max_vecs flags r
    served :
        (info : MsixInfo)
        → info_of ≡ some info
        → 0 < min_vecs
        → min_vecs ≤ min max_vecs info.table_size
        → Served info (min max_vecs info.table_size) r
        → Outcome min_vecs max_vecs flags r

  -- A call of `pci_alloc_irq_vectors` on a pool with at most sixteen slots given out fails and
  -- changes nothing if the flags do not ask for MSI-X, if the request is empty or contradicts
  -- itself, if the device has no MSI-X capability, if its table has fewer entries than the least
  -- number asked for, or if the pool has too few slots left; it fails and keeps the slots if the
  -- table is in an unset BAR; and else it grants the greatest number asked for or the table's size,
  -- whichever is less: the driver's vectors are the next slots of the pool, the entries of the
  -- table deliver them, the memory outside of these entries is as before, and the capability is
  -- enabled.
  pub pci_alloc_irq_vectors_lem :
      (min_vecs max_vecs flags : ℕ)
      → m.irq.next_slot ≤ 16
      → max_vecs < 2 ^ 32
      → Outcome min_vecs max_vecs flags
          (pci_alloc_irq_vectors respond slot_idt_vector hhdm m dev min_vecs max_vecs flags)
  unfolding pci_alloc_irq_vectors with_info
  pci_alloc_irq_vectors_lem min_vecs max_vecs flags small word =
      elim (Bool-cases (msix_flag flags)) [
        | inr off ↦ not_msix off (rw off refl)
        | inl on ↦ elim (Bool-cases ((min_vecs == 0) || ltb max_vecs min_vecs)) [
          | inl bad ↦ bad_request (ground arith) (rw (on, bad) refl)
          | inr good ↦ elim (Option-cases info_of) [
            | inl absent ↦ no_capability absent (rw (on, good, absent) refl)
            | inr (info, e) ↦ elim (Bool-cases (ltb (min max_vecs info.table_size) min_vecs)) [
              | inl few ↦ small_table info e (ground arith) (rw (on, good, e, few) refl)
              | inr enough ↦ served info e (ground arith) (ground arith) (
                  rw (on, good, e, enough)
                    (with_slots-Served info (min max_vecs info.table_size) small (ground arith)))
            ]
          ]
        ]
      ]
