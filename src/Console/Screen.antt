-- ===== src/Console/Screen.antt =====
-- The console against the text: what a new row does to the screen.
use field_os.Prelude.{
  ℕ, ◌+◌, ◌*◌, ◌/◌, ◌%◌, ◌<◌, ◌≤◌, ◌≡◌, refl, sym, ap, ◌∙◌, arith, Bool-cases, inl, inr, none, ltb,
  leb,
}
use field_os.Console.{FbInfo, scrolled, maybe_scroll, newline}
use field_os.Console.Pixels.{Geometry, pixel, scrolled_lem, scrolled_outside}
use field_os.Console.Text.{Text, next_row, ink, paper}

-- The screen has the rows of the text from `top` on, and the cursor is where the text goes on.
pub record Shows (font : ℕ → ℕ) (rows : ℕ) (info : FbInfo) (t : Text) : Type 0 where
  pub top : ℕ
  pub line : ℕ
  pub here : t.row ≡ top + line
  pub shown : line < rows
  pub late : line + 1 < rows → top ≡ 0
  pub cursor_y : info.cursor_y ≡ line * 16
  pub cursor_x : info.cursor_x ≡ t.col * 8
  pub fits : t.col * 8 ≤ info.width
  pub empty : (r c : ℕ) → t.row < r → t.cells r c ≡ none
  pub points :
      (y x : ℕ) → y < info.height → x < info.width → pixel info y x ≡ paper font t (top * 16 + y) x

-- The same framebuffer, with the same memory past its end.
pub record SameFrame (info info' : FbInfo) : Type 0 where
  pub width : info'.width ≡ info.width
  pub height : info'.height ≡ info.height
  pub pitch : info'.pitch_pixels ≡ info.pitch_pixels
  pub outside :
      (y x : ℕ) → info.height ≤ y → x < info.pitch_pixels → pixel info' y x ≡ pixel info y x

module _ (font : ℕ → ℕ) (rows : ℕ) where
  abbrev pub Goes : FbInfo → FbInfo → Text → Type 0
  Goes info info' t = Shows font rows info' t × SameFrame info info'

  moved_up :
      (info : FbInfo)
      → Geometry rows info
      → Geometry rows (record info { cursor_x = 0; cursor_y = info.cursor_y + 16 })
  moved_up info g = record {
    some_row = g.some_row;
    some_column = g.some_column;
    padded = g.padded;
    height = g.height;
  }

  scrolled-Shows :
      (info : FbInfo) (t : Text)
      → Geometry rows info
      → (s : Shows font rows info t) → s.line + 1 ≡ rows
      → Shows font rows
          (scrolled (record info { cursor_x = 0; cursor_y = info.cursor_y + 16 }))
          (next_row t)
  unfolding scrolled
  scrolled-Shows info t g s last =
      let moved = record info { cursor_x = 0; cursor_y = info.cursor_y + 16 } in
      record {
        top = s.top + 1;
        line = s.line;
        here = omega (arith, s.here);
        shown = s.shown;
        late = λ h. absurd (omega arith);
        cursor_y = omega (arith, g.height);
        cursor_x = refl;
        fits = omega arith;
        empty = λ r c h. s.empty r c (omega arith);
        points = λ y x high wide.
            scrolled_lem rows moved y x (moved_up info g) wide high
            ∙ elim (Bool-cases (ltb (y + 16) info.height)) [
              | inl old ↦ rw old (
                  s.points (y + 16) x (ground arith) wide
                  ∙ ap (λ k. paper font t k x) (omega arith))
              | inr new ↦
                  let full : info.height ≤ y + 16 = ground arith in
                  let below : t.row < ((s.top + 1) * 16 + y) / 16 =
                    omega (arith, s.here, g.height) in
                  rw new (
                    sym (
                      ap (λ o. ink font o (((s.top + 1) * 16 + y) % 16) (x % 8))
                        (s.empty _ (x / 8) below)))
            ];
      }

  scrolled-SameFrame :
      (info : FbInfo)
      → Geometry rows info
      → SameFrame info (scrolled (record info { cursor_x = 0; cursor_y = info.cursor_y + 16 }))
  unfolding scrolled
  scrolled-SameFrame info g = record {
    width = refl;
    height = refl;
    pitch = refl;
    outside = λ y x past inside.
        scrolled_outside rows (record info { cursor_x = 0; cursor_y = info.cursor_y + 16 }) y x
          (moved_up info g) inside past;
  }

  pub newline-Goes :
      (info : FbInfo) (t : Text)
      → Geometry rows info
      → Shows font rows info t
      → Goes info (newline info) (next_row t)
  unfolding newline maybe_scroll
  newline-Goes info t g s =
      let moved : FbInfo = record info { cursor_x = 0; cursor_y = info.cursor_y + 16 } in
      elim (Bool-cases (leb (moved.cursor_y + 16) info.height)) [
        | inl room ↦ rw room (
          record {
            top = s.top;
            line = s.line + 1;
            here = omega (arith, s.here);
            shown = ground (arith, g.height, s.cursor_y);
            late = λ h. s.late (omega arith);
            cursor_y = omega (arith, s.cursor_y);
            cursor_x = refl;
            fits = omega arith;
            empty = λ r c h. s.empty r c (omega arith);
            points = s.points;
          },
          record { width = refl; height = refl; pitch = refl; outside = λ y x h i. refl },
        )
        | inr full ↦
            let last : s.line + 1 ≡ rows = ground (arith, g.height, s.cursor_y, s.shown) in
            rw full (scrolled-Shows info t g s last, scrolled-SameFrame info g)
      ]
