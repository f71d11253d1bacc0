-- ===== src/LinuxPci/Vectors/Table.antt =====
-- The programming of an MSI-X table.
use field_os.Prelude.{
  ℕ, zero, suc, ◌+◌, ◌*◌, ◌≤◌, ◌<◌, ◌≡◌, ◌⊎◌, inl, inr, refl, ◌∙◌, arith, ◌==◌, Bool-cases, subst,
  eqb→eq,
}
use field_os.Prelude.Loops.{for_range}
use field_os.LinuxPci.Vectors.{write_entry, write_table}

-- The entry `i` of the table delivers the vector `v` to the boot processor, unmasked.
pub record Delivers (memory : ℕ → ℕ) (table i v : ℕ) : Type 0 where
  pub low : memory (table + i * 16) ≡ 0xFEE00000
  pub high : memory (table + i * 16 + 4) ≡ 0
  pub data_word : memory (table + i * 16 + 8) ≡ v
  pub unmasked : memory (table + i * 16 + 12) ≡ 0

module _ (vector : ℕ → ℕ) (table first : ℕ) where
  write_entry-Delivers :
      (i : ℕ) (memory : ℕ → ℕ)
      → Delivers (write_entry vector table first i memory) table i (vector (first + i))
  unfolding write_entry
  write_entry-Delivers i memory = record {
    low = ground arith;
    high = ground arith;
    data_word = ground arith;
    unmasked = ground arith;
  }

  write_entry-outside :
      (i a : ℕ) (memory : ℕ → ℕ)
      → (a < table + i * 16) ⊎ (table + i * 16 + 12 < a)
      → write_entry vector table first i memory a ≡ memory a
  unfolding write_entry
  write_entry-outside i a memory out = ground arith

  entries_outside :
      (rounds i a : ℕ) (memory : ℕ → ℕ)
      → (a < table + i * 16) ⊎ (table + (i + rounds) * 16 ≤ a)
      → for_range rounds i (write_entry vector table first) memory a ≡ memory a
  unfolding for_range
  entries_outside zero i a memory out = refl
  entries_outside (suc rounds) i a memory out =
      entries_outside rounds (i + 1) a (write_entry vector table first i memory) (ground arith)
      ∙ write_entry-outside i a memory (ground arith)

  -- Later rounds leave an earlier entry as it is.
  entries-Delivers :
      (rounds i j v : ℕ) (memory : ℕ → ℕ)
      → j < i
      → Delivers memory table j v
      → Delivers (for_range rounds i (write_entry vector table first) memory) table j v
  entries-Delivers rounds i j v memory before d = record {
    low = entries_outside rounds i (table + j * 16) memory (ground arith) ∙ d.low;
    high = entries_outside rounds i (table + j * 16 + 4) memory (ground arith) ∙ d.high;
    data_word = entries_outside rounds i (table + j * 16 + 8) memory (ground arith) ∙ d.data_word;
    unmasked = entries_outside rounds i (table + j * 16 + 12) memory (ground arith) ∙ d.unmasked;
  }

  entries_within :
      (rounds i j : ℕ) (memory : ℕ → ℕ)
      → i ≤ j
      → j < i + rounds
      → Delivers
          (for_range rounds i (write_entry vector table first) memory)
          table
          j
          (vector (first + j))
  unfolding for_range
  entries_within zero i j memory from upto = absurd (omega arith)
  entries_within (suc rounds) i j memory from upto = elim (Bool-cases (i == j)) [
    | inl same ↦
        entries-Delivers rounds (i + 1) j (vector (first + j))
          (write_entry vector table first i memory) (ground arith)
          (subst
            (λ k. Delivers (write_entry vector table first i memory) table k (vector (first + k)))
            (eqb→eq i j same) (write_entry-Delivers i memory))
    | inr other ↦
        entries_within rounds (i + 1) j (write_entry vector table first i memory) (ground arith)
          (ground arith)
  ]

  -- A table of `n` entries.
  pub write_table-Delivers :
      (n i : ℕ) (memory : ℕ → ℕ)
      → (n ≤ i) ⊎ Delivers (write_table vector table first n memory) table i (vector (first + i))
  unfolding write_table
  write_table-Delivers n i memory =
      let split : (n ≤ i) ⊎ (i < n) = ground arith in
      elim split [
        | inl out ↦ inl out
        | inr within ↦ inr (entries_within n 0 i memory (ground arith) (omega arith))
      ]

  pub write_table_before :
      (n a : ℕ) (memory : ℕ → ℕ)
      → (table ≤ a) ⊎ (write_table vector table first n memory a ≡ memory a)
  unfolding write_table
  write_table_before n a memory =
      let split : (table ≤ a) ⊎ (a < table) = ground arith in
      elim split [
        | inl from ↦ inl from
        | inr below ↦ inr (entries_outside n 0 a memory (ground arith))
      ]

  pub write_table_after :
      (n a : ℕ) (memory : ℕ → ℕ)
      → (a < table + n * 16) ⊎ (write_table vector table first n memory a ≡ memory a)
  unfolding write_table
  write_table_after n a memory =
      let split : (a < table + n * 16) ⊎ (table + n * 16 ≤ a) = ground arith in
      elim split [
        | inl below ↦ inl below
        | inr from ↦ inr (entries_outside n 0 a memory (ground arith))
      ]
