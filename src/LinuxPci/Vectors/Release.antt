-- ===== src/LinuxPci/Vectors/Release.antt =====
-- The release of the vectors of a device.
use field_os.Prelude.{
  ℕ, zero, suc, ◌+◌, ◌≤◌, ◌<◌, ◌≡◌, ◌≢◌, ◌⊎◌, inl, inr, refl, sym, ap, ◌∙◌, arith, false, none,
  some, leb, ◌==◌, Bool-cases, update_self, update_ne, eqb→eq,
}
use field_os.Prelude.Loops.{for_range}
use field_os.Irq.{Slots, free_irq, dispatch_common, call_of}
use field_os.LinuxPci.Bars.{PciDev}
use field_os.LinuxPci.Vectors.{
  Machine, free_slots, free_from, pci_free_irq_vectors, pci_irq_vector, vector_at,
}

-- One release.
free_irq_self : (s : Slots) (irq : ℕ) → irq < 16 → (free_irq s irq).1.slots irq ≡ none
unfolding free_irq
free_irq_self s irq small =
    let legal : leb 16 irq ≡ false = ground arith in rw legal (update_self s.slots irq none)

free_irq_other :
    (s : Slots) (irq other : ℕ) → irq ≢ other → (free_irq s irq).1.slots other ≡ s.slots other
unfolding free_irq
free_irq_other s irq other differs = elim (Bool-cases (leb 16 irq)) [
  | inl out ↦ rw out refl
  | inr legal ↦ rw legal (update_ne s.slots irq other none differs)
]

free_irq_pool : (s : Slots) (irq : ℕ) → (free_irq s irq).1.next_slot ≡ s.next_slot
unfolding free_irq
free_irq_pool s irq = elim (Bool-cases (leb 16 irq)) [
  | inl out ↦ rw out refl
  | inr legal ↦ rw legal refl
]

module _ (first : ℕ) where
  abbrev round : ℕ → Slots → Slots
  round i s = (free_irq s (first + i)).1

  rounds_outside :
      (n i slot : ℕ) (s : Slots)
      → (slot < first + i) ⊎ (first + i + n ≤ slot)
      → (for_range n i round s).slots slot ≡ s.slots slot
  unfolding for_range
  rounds_outside zero i slot s out = refl
  rounds_outside (suc n) i slot s out =
      rounds_outside n (i + 1) slot (round i s) (ground arith)
      ∙ free_irq_other s (first + i) slot (ground arith)

  rounds_within :
      (n i slot : ℕ) (s : Slots)
      → first + i ≤ slot
      → slot < first + i + n
      → first + i + n ≤ 16
      → (for_range n i round s).slots slot ≡ none
  unfolding for_range
  rounds_within zero i slot s from upto small = absurd (omega arith)
  rounds_within (suc n) i slot s from upto small = elim (Bool-cases (first + i == slot)) [
    | inl here ↦
        let same = eqb→eq (first + i) slot here in
        rounds_outside n (i + 1) slot (round i s) (ground arith)
        ∙ rw (sym same) (free_irq_self s (first + i) (ground arith))
    | inr later ↦
        rounds_within n (i + 1) slot (round i s) (ground arith) (ground arith) (ground arith)
  ]

  rounds_pool : (n i : ℕ) (s : Slots) → (for_range n i round s).next_slot ≡ s.next_slot
  unfolding for_range
  rounds_pool zero i s = refl
  rounds_pool (suc n) i s = rounds_pool n (i + 1) (round i s) ∙ free_irq_pool s (first + i)

module _ (respond : ℕ → ℕ → ℕ) (slot_idt_vector : ℕ → ℕ) (hhdm : ℕ) where
  -- For a device that has `count` slots from `first` on, at least one and all of the sixteen: after
  -- `pci_free_irq_vectors` an interrupt on one of its slots calls nothing, and on any other slot it
  -- calls what it called before; the device has no vector at any index; no slot goes back to the
  -- pool; and a second call changes nothing.
  pub pci_free_irq_vectors_lem :
      (m : Machine) (dev : PciDev) (first slot idx : ℕ)
      → dev.msix_first_slot ≡ some first
      → 0 < dev.msix_vector_count
      → first + dev.msix_vector_count ≤ 16
      → let out = pci_free_irq_vectors respond slot_idt_vector hhdm m dev in
        (((first ≤ slot)
            × (slot < first + dev.msix_vector_count)
            × (dispatch_common out.1.irq slot ≡ none))
          ⊎ (((slot < first) ⊎ (first + dev.msix_vector_count ≤ slot))
              × (dispatch_common out.1.irq slot ≡ dispatch_common m.irq slot)))
        × (pci_irq_vector out.0 idx ≡ none)
        × (out.1.irq.next_slot ≡ m.irq.next_slot)
        × (pci_free_irq_vectors respond slot_idt_vector hhdm out.1 out.0 ≡ (out.0, out.1))
  unfolding pci_free_irq_vectors free_from free_slots dispatch_common call_of pci_irq_vector
      vector_at
  pci_free_irq_vectors_lem m dev first slot idx has some_given small =
      let given : (dev.msix_vector_count == 0) ≡ false = ground arith in
      let n = dev.msix_vector_count in
      let split : ((first ≤ slot) × (slot < first + n)) ⊎ ((slot < first) ⊎ (first + n ≤ slot)) =
        ground arith in
      rw (has, given)
        (
          elim split [
            | inl (from, upto) ↦ inl (
              from,
              upto,
              ap call_of
                  (rounds_within first n 0 slot m.irq (omega arith) (omega arith) (omega arith)),
            )
            | inr out ↦ inr (out, ap call_of (rounds_outside first n 0 slot m.irq (ground arith)))
          ],
          refl,
          rounds_pool first n 0 m.irq,
          refl,
        )
