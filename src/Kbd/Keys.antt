-- ===== src/Kbd/Keys.antt =====
-- What a stream of scancodes means, without a decoder's state: the extended sequences are cut out
-- first, and then each key stands for a character or for a change of a shift key.
use field_os.Prelude.{
  ℕ, Bool, true, false, ◌||◌, List, [], ◌∷◌, Option, none, some, ◌==◌, if◌then◌else◌, get_or,
}
use field_os.Kbd.{
  sc_extended_e0, sc_extended_e1, sc_lshift_press, sc_lshift_release, sc_rshift_press,
  sc_rshift_release,
}
use field_os.Kbd.Tables.{sc_to_ascii, sc_to_ascii_shifted}

-- The stream without the extended sequences: E0 and the byte after it, E1 and the two after it.
unfoldable pub keys : List ℕ → List ℕ
keys [] = []
keys (x ∷ []) = if (x == sc_extended_e0) || (x == sc_extended_e1) then [] else x ∷ []
keys (x ∷ (y ∷ [])) =
    let rest = keys (y ∷ []) in
    if (x == sc_extended_e0) || (x == sc_extended_e1) then [] else x ∷ rest
keys (x ∷ (y ∷ (z ∷ r))) =
    let after_e0 = keys (z ∷ r) in
    let after_e1 = keys r in
    let rest = keys (y ∷ (z ∷ r)) in
    if x == sc_extended_e0 then after_e0 else if x == sc_extended_e1 then after_e1 else x ∷ rest

-- The character of a press code: the table's byte at it, if the code is in the table and the byte
-- is not 0.
abbrev pub character : Bool → ℕ → Option ℕ
character shifted sc =
    let byte = get_or (if shifted then sc_to_ascii_shifted else sc_to_ascii) sc 0 in
    if byte == 0 then none else some byte

abbrev pub put : Option ℕ → List ℕ → List ℕ
put none xs = xs
put (some x) xs = x ∷ xs

-- The left shift key after a key, and the right one.
abbrev pub lshift_after : Bool → ℕ → Bool
lshift_after down k =
    if k == sc_lshift_press then true else if k == sc_lshift_release then false else down

abbrev pub rshift_after : Bool → ℕ → Bool
rshift_after down k =
    if k == sc_rshift_press then true else if k == sc_rshift_release then false else down

-- The characters that the keys type, with the two shift keys up or down at the start.
unfoldable pub typed : Bool → Bool → List ℕ → List ℕ
typed lshift rshift [] = []
typed lshift rshift (k ∷ ks) =
    put (character (lshift || rshift) k) (typed (lshift_after lshift k) (rshift_after rshift k) ks)
