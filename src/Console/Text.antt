-- ===== src/Console/Text.antt =====
-- Text on paper of a given number of columns: what a console prints, without a screen that scrolls.
use field_os.Prelude.{
  ℕ, ◌+◌, ◌/◌, ◌%◌, List, [], ◌∷◌, ◌++◌, ◌≡◌, refl, Option, none, some, leb, ◌==◌, if◌then◌else◌,
  update,
}
use field_os.Console.{navy, amber, lit}

-- The byte at each row and column, and where the next one goes.
pub record Text : Type 0 where
  pub cells : ℕ → ℕ → Option ℕ
  pub row : ℕ
  pub col : ℕ

abbrev pub blank : Text
blank = record { cells = λ r c. none; row = 0; col = 0 }

abbrev pub next_row : Text → Text
next_row t = record t { row = t.row + 1; col = 0 }

abbrev pub put : ℕ → Text → Text
put b t = record t {
  cells = update t.cells t.row (update (t.cells t.row) t.col (some b));
  col = t.col + 1;
}

-- A line feed starts a row, a carriage return goes back to its start, and any other byte takes the
-- next place, in a new row if this one is full.
abbrev pub type_byte : ℕ → ℕ → Text → Text
type_byte columns b t =
    let here = put b (if leb columns t.col then next_row t else t) in
    if b == 10 then next_row t else if b == 13 then record t { col = 0 } else here

unfoldable pub type_text : ℕ → List ℕ → Text → Text
type_text columns [] t = t
type_text columns (b ∷ s) t = type_text columns s (type_byte columns b t)

pub type_text-append :
    (columns : ℕ) (s r : List ℕ) (t : Text)
    → type_text columns (s ++ r) t ≡ type_text columns r (type_text columns s t)
unfolding type_text
type_text-append columns [] r t = refl
type_text-append columns (b ∷ s) r t = type_text-append columns s r (type_byte columns b t)

-- The colour of a point of the paper, with cells of 8 by 16 points.
abbrev pub ink : (ℕ → ℕ) → Option ℕ → ℕ → ℕ → ℕ
ink font none y x = navy
ink font (some b) y x = if lit font b y x then amber else navy

abbrev pub paper : (ℕ → ℕ) → Text → ℕ → ℕ → ℕ
paper font t y x = ink font (t.cells (y / 16) (x / 8)) (y % 16) (x % 8)
