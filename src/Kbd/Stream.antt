-- ===== src/Kbd/Stream.antt =====
-- The decoder over a whole stream of scancodes.
use field_os.Prelude.{
  every, every_lem, ℕ, ◌<◌, ◌≡◌, refl, arith, Bool, true, false, ◌||◌, Bool-cases, inl, inr, List,
  [], ◌∷◌, Option, none, some, ◌==◌,
}
use field_os.Kbd.{
  Decoder, decoder_init, sc_extended_e0, sc_extended_e1, lookup_key, decode_key, decode_scancode,
}
use field_os.Kbd.Keys.{keys, character, put, typed, lshift_after, rshift_after}

-- The bytes that the decoder gives for a stream.
unfoldable pub decode_stream : Decoder → List ℕ → List ℕ
decode_stream s [] = []
decode_stream s (sc ∷ scs) = let (out, s') = decode_scancode s sc in put out (decode_stream s' scs)

abbrev pub AreBytes : List ℕ → Type 0
AreBytes [] = Unit {0}
AreBytes (x ∷ xs) = (x < 256) × AreBytes xs

abbrev same : Option ℕ → Option ℕ → Bool
same none none = true
same (some a) (some b) = a == b
same _ _ = false

same→eq : (a b : Option ℕ) → same a b ≡ true → a ≡ b
same→eq none none h = refl
same→eq (some a) none h = cc
same→eq none (some b) h = cc
same→eq (some a) (some b) h = ground arith

abbrev agrees : Bool → ℕ → Bool
agrees shifted n = same (lookup_key shifted n) (character shifted n)

lookup_table : (shifted : Bool) → every (agrees shifted) 256 ≡ true
unfolding every lookup_key
lookup_table true = refl
lookup_table false = refl

-- The guards of the lookup keep it inside the tables, and leave out nothing that is in them.
lookup_key_lem : (shifted : Bool) (sc : ℕ) → sc < 256 → lookup_key shifted sc ≡ character shifted sc
lookup_key_lem shifted sc h =
    same→eq (lookup_key shifted sc) (character shifted sc)
      (every_lem (agrees shifted) 256 sc (lookup_table shifted) h)

-- The decoder outside every extended sequence.
abbrev plain : Bool → Bool → Decoder
plain l r = record { in_e0 = false; e1_remaining = 0; lshift_down = l; rshift_down = r }

decode_stream-e0 :
    (l r : Bool) (y : ℕ) (s : List ℕ)
    → decode_stream (plain l r) (sc_extended_e0 ∷ (y ∷ s)) ≡ decode_stream (plain l r) s
unfolding decode_stream decode_scancode decode_key
decode_stream-e0 l r y s = refl

decode_stream-e1 :
    (l r : Bool) (y z : ℕ) (s : List ℕ)
    → decode_stream (plain l r) (sc_extended_e1 ∷ (y ∷ (z ∷ s))) ≡ decode_stream (plain l r) s
unfolding decode_stream decode_scancode decode_key
decode_stream-e1 l r y z s = refl

decode_key-typed :
    (l r : Bool) (x : ℕ) (s : List ℕ)
    → x < 256
    → (x == sc_extended_e0) ≡ false
    → (x == sc_extended_e1) ≡ false
    → decode_stream (plain l r) (x ∷ s)
      ≡ put (character (l || r) x) (decode_stream (plain (lshift_after l x) (rshift_after r x)) s)
unfolding decode_stream decode_scancode decode_key
decode_key-typed l r x s h n0 n1 = ground (arith, lookup_key_lem (l || r) x)

decode_stream-plain :
    (l r : Bool) (s : List ℕ) → AreBytes s → decode_stream (plain l r) s ≡ typed l r (keys s)
unfolding keys typed decode_stream decode_scancode decode_key
decode_stream-plain l r [] hs = refl
decode_stream-plain l r (x ∷ []) hs = elim (Bool-cases (x == sc_extended_e0)) [
  | inl e ↦ ground arith
  | inr n ↦ elim (Bool-cases (x == sc_extended_e1)) [
    | inl e ↦ ground arith
    | inr m ↦ ground (arith, decode_key-typed l r x [] hs.0 n m)
  ]
]
decode_stream-plain l r (x ∷ (y ∷ [])) hs =
    let ih = decode_stream-plain (lshift_after l x) (rshift_after r x) (y ∷ []) hs.1 in
    elim (Bool-cases (x == sc_extended_e0)) [
      | inl e ↦ ground arith
      | inr n ↦ elim (Bool-cases (x == sc_extended_e1)) [
        | inl e ↦ ground arith
        | inr m ↦ ground (arith, decode_key-typed l r x (y ∷ []) hs.0 n m)
      ]
    ]
decode_stream-plain l r (x ∷ (y ∷ (z ∷ s))) hs =
    let ih0 = decode_stream-plain l r (z ∷ s) hs.1.1 in
    let ih1 = decode_stream-plain l r s hs.1.1.1 in
    let ih = decode_stream-plain (lshift_after l x) (rshift_after r x) (y ∷ (z ∷ s)) hs.1 in
    elim (Bool-cases (x == sc_extended_e0)) [
      | inl e ↦ ground arith
      | inr n ↦ elim (Bool-cases (x == sc_extended_e1)) [
        | inl e ↦ ground arith
        | inr m ↦ ground (arith, decode_key-typed l r x (y ∷ (z ∷ s)) hs.0 n m)
      ]
    ]

-- From the reset state the decoder gives, for any stream of bytes, exactly the characters that the
-- stream types: E0 and E1 sequences are skipped whole, whatever their bytes are, the shift keys
-- choose the table, and every other key gives its table's byte or nothing.
pub decode_stream-typed :
    (s : List ℕ) → AreBytes s → decode_stream decoder_init s ≡ typed false false (keys s)
decode_stream-typed = decode_stream-plain false false
