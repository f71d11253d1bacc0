-- ===== src/Xhci/Layout.antt =====
-- The characters that the USB keyboard can give, and their keys.
use field_os.Prelude.{
  ℕ, ◌+◌, ◌-◌, ◌<◌, ◌≡◌, ◌≢◌, refl, ap, arith, Bool, true, false, ◌&&◌, ◌||◌, Option, none, some,
  leb, ◌==◌, eqb→eq, if◌then◌else◌, every, every_lem,
}
use field_os.Xhci.Hid.{hid_usage_to_ascii}

abbrev within : ℕ → ℕ → ℕ → Bool
within lo hi c = leb lo c && leb c hi

-- The key of the US layout on which a character stands, and whether it takes shift.
unfoldable pub key_of : ℕ → ℕ × Bool
key_of c =
    if within b'a' b'z' c
    then (c - b'a' + 4, false)
    else if within b'A' b'Z' c
    then (c - b'A' + 4, true)
    else if within b'1' b'9' c
    then (c - b'1' + 0x1E, false)
    else if c == b'0'
    then (0x27, false)
    else if c == b'\n'
    then (0x28, false)
    else if c == 8
    then (0x2A, false)
    else if c == b'\t'
    then (0x2B, false)
    else if c == b' '
    then (0x2C, false)
    else if c == b'-'
    then (0x2D, false)
    else if c == b'_'
    then (0x2D, true)
    else if c == b'='
    then (0x2E, false)
    else if c == b'+'
    then (0x2E, true)
    else if c == b','
    then (0x36, false)
    else if c == b'<'
    then (0x36, true)
    else if c == b'.'
    then (0x37, false)
    else if c == b'>'
    then (0x37, true)
    else if c == b'/'
    then (0x38, false)
    else if c == b'?'
    then (0x38, true)
    else (0, false)

is_char : Option ℕ → ℕ → Bool
is_char none c = false
is_char (some a) c = a == c

is_char-some : (o : Option ℕ) (c : ℕ) → is_char o c ≡ true → o ≡ some c
unfolding is_char
is_char-some none c h = cc
is_char-some (some a) c h = ap some (eqb→eq a c h)

gives : ℕ → Bool
gives c = ((key_of c).0 == 0) || is_char (hid_usage_to_ascii (key_of c).0 (key_of c).1) c

all_give : every gives 128 ≡ true
unfolding every gives hid_usage_to_ascii key_of is_char
all_give = refl

||-right : (a b : Bool) → (a || b) ≡ true → a ≡ false → b ≡ true
||-right true b h e = cc
||-right false b h e = h

pub gives_lem :
    (c : ℕ) → c < 128 → (key_of c).0 ≢ 0 → hid_usage_to_ascii (key_of c).0 (key_of c).1 ≡ some c
unfolding gives
gives_lem c small has =
    let known = every_lem gives 128 c all_give small in
    let pressed : ((key_of c).0 == 0) ≡ false = ground (arith, has) in
    is_char-some _ c (||-right _ _ known pressed)
