-- ===== src/Console/Paint.antt =====
-- The pixels after a loop that paints a rectangle.
use field_os.Prelude.{
  ℕ, zero, suc, ◌+◌, ◌-◌, ◌*◌, ◌<◌, ◌≤◌, ◌≡◌, refl, ◌∙◌, arith, Bool, true, false, ◌&&◌, Bool-cases,
  inl, inr, ltb, leb, ◌==◌, if◌then◌else◌, update,
}
use field_os.Prelude.Loops.{for_range}

-- Whether `a` is in the interval of length `n` from `from` on.
abbrev pub within : ℕ → ℕ → ℕ → Bool
within from n a = leb from a && ltb a (from + n)

-- A row: the pixels from `start + i` on, as many as there are rounds.
fill_from :
    (rounds i start : ℕ) (address v : ℕ → ℕ) (p : ℕ → ℕ) (a : ℕ)
    → ((k : ℕ) → address k ≡ start + k)
    → for_range rounds i (λ k q. update q (address k) (v k)) p a
      ≡ (if within (start + i) rounds a then v (a - start) else p a)
unfolding for_range
fill_from zero i start address v p a h = ground arith
fill_from (suc rounds) i start address v p a h =
    let later = fill_from rounds (i + 1) start address v (update p (address i) (v i)) a h in
    elim (Bool-cases (start + i == a)) [
      | inl e ↦
          let is : a ≡ start + i = ground arith in
          let off : a - start ≡ i = omega arith in
          let outside : within (start + (i + 1)) rounds a ≡ false = ground arith in
          let inside : within (start + i) (suc rounds) a ≡ true = ground arith in
          later ∙ rw (outside, h i, e, inside, off) refl
      | inr n ↦
          let same : within (start + (i + 1)) rounds a ≡ within (start + i) (suc rounds) a =
            ground arith in
          later ∙ rw (same, h i, n) refl
    ]

pub fill_lem :
    (rounds start : ℕ) (address v : ℕ → ℕ) (p : ℕ → ℕ) (a : ℕ)
    → ((k : ℕ) → address k ≡ start + k)
    → for_range rounds 0 (λ k q. update q (address k) (v k)) p a
      ≡ (if within start rounds a then v (a - start) else p a)
fill_lem rounds start address v p a h =
    let from : start + 0 ≡ start = omega arith in
    fill_from rounds 0 start address v p a h ∙ rw from refl

pub rows_apart : (y row pitch : ℕ) → y < row → y * pitch + pitch ≤ row * pitch
rows_apart y row pitch h = grind arith

-- Where a pixel of a row is, on rows of `pitch` pixels.
pub within_row :
    (pitch y x w row col : ℕ)
    → x + w ≤ pitch
    → col < pitch
    → within (y * pitch + x) w (row * pitch + col) ≡ ((y == row) && within x w col)
within_row pitch y x w row col fits inside = elim (Bool-cases (y == row)) [
  | inl same ↦ let is : y ≡ row = ground arith in rw (same, is) (ground arith)
  | inr other ↦ elim (Bool-cases (ltb y row)) [
    | inl below ↦
        let apart = rows_apart y row pitch (ground arith) in rw other (ground (arith, apart))
    | inr above ↦
        let apart = rows_apart row y pitch (ground arith) in rw other (ground (arith, apart))
  ]
]

-- Rows on top of each other: when each writes the pixel `a`, with `v` of its number, only if it is
-- the row of the pixel and the pixel is `inside`.
rows_from :
    (rounds i off row a : ℕ) (inside : Bool) (v : ℕ → ℕ) (body : ℕ → (ℕ → ℕ) → ℕ → ℕ) (p : ℕ → ℕ)
    → ((y : ℕ) (q : ℕ → ℕ)
        → y < i + rounds
        → body y q a ≡ (if (off + y == row) && inside then v y else q a))
    → for_range rounds i body p a
      ≡ (if within (off + i) rounds row && inside then v (row - off) else p a)
unfolding for_range
rows_from zero i off row a inside v body p h =
    let none_in : within (off + i) zero row ≡ false = ground arith in rw none_in refl
rows_from (suc rounds) i off row a inside v body p h =
    let later =
      rows_from rounds (i + 1) off row a inside v body (body i p) (λ y q l. h y q (omega arith)) in
    elim (Bool-cases (off + i == row)) [
      | inl here ↦
          let is : row ≡ off + i = ground arith in
          let outside : within (off + (i + 1)) rounds row ≡ false = ground arith in
          let in_it : within (off + i) (suc rounds) row ≡ true = ground arith in
          let index : row - off ≡ i = omega arith in
          later ∙ rw (outside, in_it, index) (h i p (omega arith) ∙ rw here refl)
      | inr other ↦
          let same : within (off + (i + 1)) rounds row ≡ within (off + i) (suc rounds) row =
            ground arith in
          later ∙ rw (same, h i p (omega arith), other) refl
    ]

module _ (row a : ℕ) (inside : Bool) (v : ℕ → ℕ) (body : ℕ → (ℕ → ℕ) → ℕ → ℕ) (p : ℕ → ℕ) where
  pub rows_lem :
      (rounds i : ℕ)
      → ((y : ℕ) (q : ℕ → ℕ) → body y q a ≡ (if (y == row) && inside then v y else q a))
      → for_range rounds i body p a ≡ (if within i rounds row && inside then v row else p a)
  rows_lem rounds i h =
      let shift : (y : ℕ) → 0 + y ≡ y = λ y. omega arith in
      let index : row - 0 ≡ row = omega arith in
      rows_from rounds i 0 row a inside v body p (λ y q l. h y q ∙ rw (shift y) refl)
      ∙ rw (shift i, index) refl

  pub rows_at :
      (rounds off : ℕ)
      → ((y : ℕ) (q : ℕ → ℕ)
          → y < rounds
          → body y q a ≡ (if (off + y == row) && inside then v y else q a))
      → for_range rounds 0 body p a
        ≡ (if within off rounds row && inside then v (row - off) else p a)
  rows_at rounds off h =
      let start : off + 0 ≡ off = omega arith in
      rows_from rounds 0 off row a inside v body p (λ y q l. h y q (omega arith)) ∙ rw start refl
