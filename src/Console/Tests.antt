-- ===== src/Console/Tests.antt =====
-- A framebuffer of two rows of three characters.
use field_os.Prelude.{ℕ, ◌/◌, ◌≡◌, refl, arith, List, [], ◌∷◌, some, flatten}
use field_os.Console.{FbInfo, clear, navy}
use field_os.Console.Text.{blank, type_text}
use field_os.Console.Screen.{Goes}
use field_os.Console.Printing.{prints, prints_refine}

-- A font in which a glyph has the same byte in each row, the number of the glyph.
abbrev bars : ℕ → ℕ
bars i = i / 16

abbrev small : FbInfo
small = record {
  pixels = λ a. 7;
  width = 26;
  height = 32;
  pitch_pixels = 30;
  cursor_x = 0;
  cursor_y = 0;
}

abbrev written : List (List ℕ)
written = (65 ∷ (66 ∷ (10 ∷ []))) ∷ ((67 ∷ (68 ∷ (69 ∷ (70 ∷ [])))) ∷ [])

prints_refine_example :
    (info' : FbInfo) × (prints bars 2 written (some (clear navy small)) ≡ some info')
    × Goes bars 2 small info' (type_text (26 / 8) (flatten written) blank)
prints_refine_example =
    prints_refine bars 2 written small
      (record {
        some_row = omega arith;
        some_column = omega arith;
        padded = omega arith;
        height = refl;
      })
      refl refl

-- The fourth character of the second line starts a third one.
wraps : (type_text 3 (flatten written) blank).row ≡ 2
unfolding type_text
wraps = refl
