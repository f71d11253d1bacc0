-- ===== src/Console.antt =====
-- arsenal-kernel/src/fb.rs, the framebuffer and the console on it.
-- The memory of the framebuffer is a function from the number of a pixel, counted from `base`. The
-- font, a table of bytes that is a copy of Spleen, is a parameter: the byte of row `r` of the glyph
-- `c` is `font (c * 16 + r)`.
pub mod Paint
pub mod Pixels
pub mod Text
pub mod Screen
pub mod Printing
mod Tests
use field_os.Prelude.{
  ℕ, ◌+◌, ◌-◌, ◌*◌, ◌/◌, ◌%◌, ◌^◌, Bool, true, false, not, ◌&&◌, List, [], ◌∷◌, Option, none, some,
  ltb, leb, ◌==◌, if◌then◌else◌, update,
}
use field_os.Prelude.Loops.{for_range, for_until}
use field_os.Prelude.Outcome.{Outcome, returned, panic}

abbrev pub navy : ℕ
navy = 0x000A1A2A

abbrev pub amber : ℕ
amber = 0x00FFB200

abbrev pub glyph_w : ℕ
glyph_w = 8

abbrev pub glyph_h : ℕ
glyph_h = 16

-- `FbInfo`
pub record FbInfo : Type 0 where
  pub pixels : ℕ → ℕ
  pub width : ℕ
  pub height : ℕ
  pub pitch_pixels : ℕ
  pub cursor_x : ℕ
  pub cursor_y : ℕ

-- What the boot loader says of a framebuffer; `pitch` is in bytes.
pub record Framebuffer : Type 0 where
  pub memory : ℕ → ℕ
  pub bpp : ℕ
  pub is_rgb : Bool
  pub red_mask_shift : ℕ
  pub green_mask_shift : ℕ
  pub blue_mask_shift : ℕ
  pub pitch : ℕ
  pub width : ℕ
  pub height : ℕ

pub init : Framebuffer → Outcome FbInfo
init fb =
    let info : FbInfo = record {
      pixels = fb.memory;
      width = fb.width;
      height = fb.height;
      pitch_pixels = fb.pitch / 4;
      cursor_x = 0;
      cursor_y = 0;
    } in
    let shifts =
      (fb.red_mask_shift == 16) && ((fb.green_mask_shift == 8) && (fb.blue_mask_shift == 0)) in
    if not (fb.bpp == 32)
    then panic
    else if not fb.is_rgb
    then panic
    else if not shifts
    then panic
    else if not (fb.pitch % 4 == 0)
    then panic
    else returned info

-- The rows from `from` on, `rows` of them, are painted.
unfoldable pub paint_rows : ℕ → ℕ → ℕ → FbInfo → (ℕ → ℕ) → ℕ → ℕ
paint_rows rows from rgb info =
    for_range rows from
      (λ y. for_range info.width 0 (λ x p. update p (y * info.pitch_pixels + x) rgb))

unfoldable pub clear : ℕ → FbInfo → FbInfo
clear rgb info = record info { pixels = paint_rows info.height 0 rgb info info.pixels }

pub put_pixel : ℕ → ℕ → ℕ → FbInfo → FbInfo
put_pixel x y rgb info =
    if leb info.width x
    then info
    else if leb info.height y
    then info
    else record info { pixels = update info.pixels (y * info.pitch_pixels + x) rgb }

-- `maybe_scroll`: the `copy`, the cleared band and the cursor. A framebuffer of fewer than 16 rows, on
-- which the subtraction of the source wraps, is left out.
unfoldable pub scrolled : FbInfo → FbInfo
scrolled info =
    let keep_rows = info.height - glyph_h in
    let copied = λ (a : ℕ).
      info.pixels
        (if ltb a (keep_rows * info.pitch_pixels) then a + glyph_h * info.pitch_pixels else a) in
    record info {
      pixels = paint_rows (info.height - keep_rows) keep_rows navy info copied;
      cursor_y = keep_rows;
    }

unfoldable pub maybe_scroll : FbInfo → FbInfo
maybe_scroll info = if leb (info.cursor_y + glyph_h) info.height then info else scrolled info

unfoldable pub newline : FbInfo → FbInfo
newline info = maybe_scroll (record info { cursor_x = 0; cursor_y = info.cursor_y + glyph_h })

module _ (font : ℕ → ℕ) where
  -- `(bits >> (7 - col)) & 1 == 1`
  abbrev pub lit : ℕ → ℕ → ℕ → Bool
  lit c row col = font (c * glyph_h + row) / 2 ^ (7 - col) % 2 == 1

  unfoldable pub render_row : FbInfo → ℕ → ℕ → ℕ → ℕ → ℕ → ℕ → (ℕ → ℕ) → ℕ → ℕ
  render_row info c x y fg bg row =
      let start = (y + row) * info.pitch_pixels in
      for_until glyph_w 0 (λ col. leb info.width (x + col))
        (λ col p. update p (start + (x + col)) (if lit c row col then fg else bg))

  unfoldable pub render_glyph_inner : FbInfo → ℕ → ℕ → ℕ → ℕ → ℕ → FbInfo
  render_glyph_inner info c x y fg bg = record info {
    pixels =
        for_until glyph_h 0 (λ row. leb info.height (y + row)) (render_row info c x y fg bg)
          info.pixels;
  }

  -- The loop of `render_string` from the `i`th byte on.
  pub render_from : ℕ → List ℕ → ℕ → ℕ → ℕ → ℕ → FbInfo → FbInfo
  render_from i [] x y fg bg info = info
  render_from i (b ∷ s) x y fg bg info =
      let gx = x + i * glyph_w in
      let rest = render_from (i + 1) s x y fg bg (render_glyph_inner info b gx y fg bg) in
      if leb info.width gx then info else rest

  pub render_string : List ℕ → ℕ → ℕ → ℕ → ℕ → FbInfo → FbInfo
  render_string s x y fg bg info = render_from 0 s x y fg bg info

  unfoldable pub print_byte : ℕ → FbInfo → FbInfo
  print_byte b info =
      let wrapped = if ltb info.width (info.cursor_x + glyph_w) then newline info else info in
      let drawn = render_glyph_inner wrapped b wrapped.cursor_x wrapped.cursor_y amber navy in
      if b == 10
      then newline info
      else if b == 13
      then record info { cursor_x = 0 }
      else record drawn { cursor_x = drawn.cursor_x + glyph_w }

  unfoldable pub print_str_inner : List ℕ → FbInfo → FbInfo
  print_str_inner [] info = info
  print_str_inner (b ∷ s) info = print_str_inner s (print_byte b info)

  -- FB_READY, and whether another holds the lock.
  unfoldable pub print_str : Bool → Bool → List ℕ → Option FbInfo → Option FbInfo
  print_str ready busy s none = none
  print_str ready busy s (some info) =
      if not ready then some info else if busy then some info else some (print_str_inner s info)
