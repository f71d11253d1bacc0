-- ===== src/Console/Pixels.antt =====
-- What each painting function of the console leaves in the pixel of a row and a column.
use field_os.Prelude.{
  ℕ, ◌+◌, ◌-◌, ◌*◌, ◌<◌, ◌≤◌, ◌≡◌, refl, sym, ap, ◌∙◌, arith, true, false, ◌&&◌, Bool-cases, inl,
  inr, ltb, leb, ◌==◌, if◌then◌else◌, update,
}
use field_os.Prelude.Loops.{for_range, for_until-for_range}
use field_os.Console.{FbInfo, navy, paint_rows, scrolled, lit, render_row, render_glyph_inner}
use field_os.Console.Paint.{within, fill_lem, within_row, rows_lem, rows_at, rows_apart}

-- A framebuffer of `rows` lines of text, which is as wide as one character at least.
pub record Geometry (rows : ℕ) (info : FbInfo) : Type 0 where
  pub some_row : 1 ≤ rows
  pub some_column : 8 ≤ info.width
  pub padded : info.width ≤ info.pitch_pixels
  pub height : info.height ≡ rows * 16

abbrev pub pixel : FbInfo → ℕ → ℕ → ℕ
pixel info row col = info.pixels (row * info.pitch_pixels + col)

module _ (info : FbInfo) (padded : info.width ≤ info.pitch_pixels) (row col : ℕ)
    (inside : col < info.pitch_pixels) where
  abbrev at : ℕ
  at = row * info.pitch_pixels + col

  pub paint_rows_lem :
      (rows from rgb : ℕ) (p : ℕ → ℕ)
      → paint_rows rows from rgb info p at
        ≡ (if within from rows row && ltb col info.width then rgb else p at)
  unfolding paint_rows
  paint_rows_lem rows from rgb p =
      let pitch = info.pitch_pixels in
      rows_lem row at (ltb col info.width) (λ y. rgb) _ p rows from
        (λ y q.
          let start : y * pitch + 0 ≡ y * pitch = omega arith in
          let left : within 0 info.width col ≡ ltb col info.width = ground arith in
          let there : within (y * pitch) info.width at ≡ ((y == row) && ltb col info.width) =
            ap (λ b. within b info.width at) (sym start)
            ∙ within_row pitch y 0 info.width row col (omega arith) inside
            ∙ ap (λ b. (y == row) && b) left in
          fill_lem info.width (y * pitch) _ (λ x. rgb) q at (λ k. refl) ∙ rw there refl)

  -- The row `r` of a glyph.
  glyph_row :
      (y x r : ℕ) (v : ℕ → ℕ) (q : ℕ → ℕ)
      → x + 8 ≤ info.width
      → for_range 8 0 (λ k p. update p ((y + r) * info.pitch_pixels + (x + k)) (v k)) q at
        ≡ (if (y + r == row) && within x 8 col then v (col - x) else q at)
  glyph_row y x r v q wide =
      let pitch = info.pitch_pixels in
      let start = (y + r) * pitch + x in
      fill_lem 8 start _ v q at (λ k. omega arith)
      ∙ rw (within_row pitch (y + r) x 8 row col (omega arith) inside)
          (elim (Bool-cases ((y + r == row) && within x 8 col)) [
            | inl hit ↦
                let here : y + r ≡ row = ground arith in
                let index : at - start ≡ col - x = rw here (ground arith) in rw (hit, index) refl
            | inr miss ↦ rw miss refl
          ])

  pub render_glyph_lem :
      (font : ℕ → ℕ) (c x y fg bg : ℕ)
      → x + 8 ≤ info.width
      → y + 16 ≤ info.height
      → (render_glyph_inner font info c x y fg bg).pixels at ≡ (
          if within y 16 row && within x 8 col
          then (if lit font c (row - y) (col - x) then fg else bg)
          else info.pixels at)
  unfolding render_glyph_inner render_row
  render_glyph_lem font c x y fg bg wide high =
      ap (λ f. f at)
        (for_until-for_range 16 0 (λ r. leb info.height (y + r)) (render_row font info c x y fg bg)
          info.pixels (λ k h. ground arith))
      ∙ rows_at row at (within x 8 col) (λ r. if lit font c r (col - x) then fg else bg) _
          info.pixels 16 y
          (λ r q l.
            ap (λ f. f at)
              (for_until-for_range 8 0 (λ k. leb info.width (x + k)) _ q (λ k h. ground arith))
            ∙ glyph_row y x r (λ k. if lit font c r k then fg else bg) q wide)

-- After a scroll, the pixels of a row below the last sixteen are those of the row sixteen below.
pub scrolled_lem :
    (rows : ℕ) (info : FbInfo) (row col : ℕ)
    → Geometry rows info
    → col < info.width
    → row < info.height
    → pixel (scrolled info) row col
      ≡ (if ltb (row + 16) info.height then pixel info (row + 16) col else navy)
unfolding scrolled
scrolled_lem rows info row col g inside shown =
    let pitch = info.pitch_pixels in
    let keep = info.height - 16 in
    let count : info.height - keep ≡ 16 = omega (arith, g.height, g.some_row) in
    paint_rows_lem info g.padded row col (omega (arith, g.padded)) (info.height - keep) keep navy _
    ∙ elim (Bool-cases (ltb (row + 16) info.height)) [
      | inl copied ↦
          let apart = rows_apart row keep pitch (ground arith) in
          let early : ltb (row * pitch + col) (keep * pitch) ≡ true = ground (arith, g.padded) in
          let out : within keep (info.height - keep) row ≡ false = ground arith in
          rw (copied, early, out) (ap info.pixels (grind arith))
      | inr freed ↦
          let band : within keep (info.height - keep) row ≡ true = ground arith in
          let painted : ltb col info.width ≡ true = ground arith in rw (freed, band, painted) refl
    ]

pub scrolled_outside :
    (rows : ℕ) (info : FbInfo) (row col : ℕ)
    → Geometry rows info
    → col < info.pitch_pixels
    → info.height ≤ row
    → pixel (scrolled info) row col ≡ pixel info row col
unfolding scrolled
scrolled_outside rows info row col g inside past =
    let pitch = info.pitch_pixels in
    let keep = info.height - 16 in
    let apart = rows_apart keep row pitch (omega (arith, g.height, g.some_row)) in
    let late : ltb (row * pitch + col) (keep * pitch) ≡ false = ground arith in
    let out : within keep (info.height - keep) row ≡ false = ground arith in
    paint_rows_lem info g.padded row col inside (info.height - keep) keep navy _
    ∙ rw (out, late) refl
