-- ===== src/Irq/Ranges.antt =====
-- The ranges that `alloc_slots` gives out one after the other.
use field_os.Prelude.{
  ℕ, ◌+◌, ◌^◌, ◌≤◌, ◌<◌, ◌≡◌, ◌⊎◌, refl, arith, List, [], ◌∷◌, none, some, Bool-cases, inl, inr,
  ltb, ◌==◌, ◌||◌,
}
use field_os.Prelude.Outcome.{add64, sub64}
use field_os.Irq.{Slots, bump, unbump, alloc_slots}

-- The ranges, first slot and length, newest first, fill the slots below `n` without a gap and
-- without an overlap.
abbrev pub Tiles : ℕ → List (ℕ × ℕ) → Type 0
Tiles n [] = n ≡ 0
Tiles n ((first, count) ∷ rs) = (n ≡ first + count) × (0 < count) × Tiles first rs

-- The two outcomes of `alloc_slots`.
pub alloc_slots-cases :
    (s : Slots) (count : ℕ)
    → s.next_slot ≤ 16
    → count < 2 ^ 64
    → ((0 < count)
        × (s.next_slot + count ≤ 16)
        × (alloc_slots s count ≡ (some s.next_slot, record s { next_slot = s.next_slot + count })))
      ⊎ (((count ≡ 0) ⊎ (16 < s.next_slot + count)) × (alloc_slots s count ≡ (none, s)))
unfolding alloc_slots bump unbump
alloc_slots-cases s count small word =
    let back : sub64 (add64 s.next_slot count) count ≡ s.next_slot = omega arith in
    elim (Bool-cases ((count == 0) || ltb 16 count)) [
      | inl bad ↦ inr (ground arith, rw bad refl)
      | inr good ↦ elim (Bool-cases (ltb 16 (add64 s.next_slot count))) [
        | inl full ↦ inr (ground arith, rw (good, full, back) refl)
        | inr fits ↦
            let sum : add64 s.next_slot count ≡ s.next_slot + count = ground arith in
            inl (ground arith, ground arith, rw (good, fits, sum) refl)
      ]
    ]

-- On a pool whose ranges fill the slots below `next_slot`, `alloc_slots` gives the next `count`
-- slots if `count` is not 0 and they are there, and the ranges with the new one fill the slots
-- below the new `next_slot`; else it gives nothing and leaves the pool as it was.
pub alloc_slots_lem :
    (s : Slots) (rs : List (ℕ × ℕ)) (count : ℕ)
    → s.next_slot ≤ 16
    → Tiles s.next_slot rs
    → count < 2 ^ 64
    → ((0 < count)
        × (s.next_slot + count ≤ 16)
        × (t : Slots) × (alloc_slots s count ≡ (some s.next_slot, t))
        × (t.slots ≡ s.slots)
        × (t.next_slot ≤ 16)
        × Tiles t.next_slot ((s.next_slot, count) ∷ rs))
      ⊎ (((count ≡ 0) ⊎ (16 < s.next_slot + count)) × (alloc_slots s count ≡ (none, s)))
alloc_slots_lem s rs count small tiles word = elim (alloc_slots-cases s count small word) [
  | inl (some_asked, fits, e) ↦ inl (
    some_asked,
    fits,
    record s { next_slot = s.next_slot + count },
    e,
    refl,
    fits,
    (refl, some_asked, tiles),
  )
  | inr refused ↦ inr refused
]
