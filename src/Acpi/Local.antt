-- ===== src/Acpi/Local.antt =====
-- The walk ends, and reads no byte outside the table.
use field_os.Prelude.{
  ℕ, zero, suc, ◌+◌, ◌≤◌, ◌<◌, ◌≡◌, refl, arith, some, Bool-cases, inl, inr, false, ltb, leb, ◌==◌,
  ◌&&◌,
}
use field_os.Prelude.Outcome.{Outcome, returned, panic}
use field_os.Acpi.{Memory, read_u16, read_u32, Tables, add_entry, walk}

-- Two memories that have the same bytes in a table.
abbrev pub Agree : Memory → Memory → ℕ → ℕ → Type 0
Agree mem mem' madt madt_length = (a : ℕ) → madt ≤ a → a < madt + madt_length → mem a ≡ mem' a

-- A round of the loop over an entry that passes the assertions.
walk-next :
    (mem : Memory) (madt madt_length fuel cursor n : ℕ) (t t' : Tables) (r : Outcome Tables)
    → mem (madt + (cursor + 1)) ≡ n
    → 2 ≤ n
    → cursor + n ≤ madt_length
    → add_entry mem madt cursor n t ≡ t'
    → walk fuel mem madt madt_length (cursor + n) t' ≡ some r
    → walk (suc fuel) mem madt madt_length cursor t ≡ some r
unfolding walk
walk-next mem madt madt_length fuel cursor n t t' r len header inside added later =
    let a : ltb madt_length (cursor + 2) ≡ false = ground arith in
    let b : ltb n 2 ≡ false = ground arith in
    let c : ltb madt_length (cursor + n) ≡ false = ground arith in rw (len, a, b, c, added) later

module _ (mem mem' : Memory) (madt madt_length : ℕ) (agree : Agree mem mem' madt madt_length) where
  byte :
      (cursor i : ℕ)
      → cursor + i < madt_length
      → mem (madt + (cursor + i)) ≡ mem' (madt + (cursor + i))
  byte cursor i inside = agree (madt + (cursor + i)) (omega arith) (omega arith)

  word :
      (offset : ℕ) → offset + 4 ≤ madt_length → read_u32 mem madt offset ≡ read_u32 mem' madt offset
  word offset inside =
      rw
        (
          agree (madt + offset) (omega arith) (omega arith),
          agree (madt + offset + 1) (omega arith) (omega arith),
          agree (madt + offset + 2) (omega arith) (omega arith),
          agree (madt + offset + 3) (omega arith) (omega arith),
        )
        refl

  half :
      (offset : ℕ) → offset + 2 ≤ madt_length → read_u16 mem madt offset ≡ read_u16 mem' madt offset
  half offset inside =
      rw
        (
          agree (madt + offset) (omega arith) (omega arith),
          agree (madt + offset + 1) (omega arith) (omega arith),
        )
        refl

  add_entry-local :
      (cursor n : ℕ) (t : Tables)
      → 2 ≤ n
      → cursor + n ≤ madt_length
      → add_entry mem madt cursor n t ≡ add_entry mem' madt cursor n t
  unfolding add_entry
  add_entry-local cursor n t two inside =
      let ty : mem (madt + cursor) ≡ mem' (madt + cursor) =
        agree (madt + cursor) (omega arith) (omega arith) in
      elim (Bool-cases ((mem' (madt + cursor) == 0) && leb 8 n)) [
        | inl h ↦
            let size : 8 ≤ n = ground arith in
            rw
              (
                ty,
                h,
                byte cursor 2 (omega arith),
                byte cursor 3 (omega arith),
                word (cursor + 4) (omega arith),
              )
              refl
        | inr not0 ↦ elim (Bool-cases ((mem' (madt + cursor) == 1) && leb 12 n)) [
          | inl h ↦
              let size : 12 ≤ n = ground arith in
              rw
                (
                  ty,
                  not0,
                  h,
                  byte cursor 2 (omega arith),
                  word (cursor + 4) (omega arith),
                  word (cursor + 8) (omega arith),
                )
                refl
          | inr not1 ↦ elim (Bool-cases ((mem' (madt + cursor) == 2) && leb 10 n)) [
            | inl h ↦
                let size : 10 ≤ n = ground arith in
                rw
                  (
                    ty,
                    not0,
                    not1,
                    h,
                    byte cursor 2 (omega arith),
                    byte cursor 3 (omega arith),
                    word (cursor + 4) (omega arith),
                    half (cursor + 8) (omega arith),
                  )
                  refl
            | inr not2 ↦ rw (ty, not0, not1, not2) refl
          ]
        ]
      ]

  -- With more fuel than there are bytes from the cursor on the walk ends, with the tables or with a
  -- panic, and on two memories with the same bytes in the table it ends in the same way: what lies
  -- outside the table is not read.
  pub walk_lem :
      (fuel cursor : ℕ) (t : Tables)
      → 0 < fuel
      → madt_length < cursor + fuel
      → (r : Outcome Tables) × (walk fuel mem madt madt_length cursor t ≡ some r)
        × (walk fuel mem' madt madt_length cursor t ≡ some r)
  unfolding walk
  walk_lem zero cursor t some_fuel enough = absurd (omega arith)
  walk_lem (suc fuel) cursor t some_fuel enough =
      let n = mem' (madt + (cursor + 1)) in
      elim (Bool-cases (ltb madt_length (cursor + 2))) [
        | inl ends ↦ (returned t, rw ends refl, rw ends refl)
        | inr more ↦
            let len : mem (madt + (cursor + 1)) ≡ n = byte cursor 1 (ground arith) in
            elim (Bool-cases (ltb n 2)) [
              | inl short ↦ (panic, rw (len, more, short) refl, rw (more, short) refl)
              | inr two ↦ elim (Bool-cases (ltb madt_length (cursor + n))) [
                | inl long ↦ (panic, rw (len, more, two, long) refl, rw (more, two, long) refl)
                | inr fits ↦
                    let inside : cursor + n ≤ madt_length = ground arith in
                    let header : 2 ≤ n = ground arith in
                    let (r, e, e') =
                      walk_lem fuel (cursor + n) (add_entry mem' madt cursor n t) (omega arith)
                        (omega arith) in
                    (
                      r,
                      walk-next mem madt madt_length fuel cursor n t
                          (add_entry mem' madt cursor n t) r len header inside
                          (add_entry-local cursor n t header inside) e,
                      walk-next mem' madt madt_length fuel cursor n t
                          (add_entry mem' madt cursor n t) r refl header inside refl e',
                    )
              ]
            ]
      ]
