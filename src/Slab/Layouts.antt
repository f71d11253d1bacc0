-- ===== src/Slab/Layouts.antt =====
-- What the driver holds against what the allocator has given out.
use field_os.Prelude.{
  ℕ, ◌+◌, ◌-◌, ◌^◌, ◌<◌, ◌≤◌, ◌≡◌, ◌≢◌, inl, inr, refl, sym, ap, ◌∙◌, arith, true, false,
  Bool-cases, leb, ◌==◌, if◌then◌else◌, update,
}
use field_os.Prelude.Outcome.{add64, sub64}

-- `blocks` are the sizes of the allocator's blocks, `sizes` the headers, and `held` the sizes of the
-- driver's payloads, each by address.
pub record Agrees (blocks sizes held : ℕ → ℕ) : Type 0 where
  pub same : (a : ℕ) → blocks a ≡ (if held (a + 16) == 0 then 0 else held (a + 16) + 16)
  pub low : (p : ℕ) → p ≤ 16 → held p ≡ 0
  pub header : (a : ℕ) → held (a + 16) ≢ 0 → sizes a ≡ held (a + 16)
  pub room : (p : ℕ) → held p ≢ 0 → p + held p ≤ 2 ^ 64

-- A new block at `raw`, in which the driver holds `size` bytes.
pub give :
    {blocks sizes held : ℕ → ℕ} (raw size : ℕ)
    → Agrees blocks sizes held
    → raw ≢ 0
    → size ≢ 0
    → raw + (size + 16) ≤ 2 ^ 64
    → Agrees (update blocks raw (size + 16)) (update sizes raw size) (update held (raw + 16) size)
give raw size agrees there large fits = record {
  same = λ a. elim (Bool-cases (raw == a)) [
    | inl e ↦
        let is : raw ≡ a = ground arith in
        let e' : (raw + 16 == a + 16) ≡ true = ground arith in
        let some_size : (size == 0) ≡ false = ground arith in rw (e, e', some_size) refl
    | inr n ↦ let n' : (raw + 16 == a + 16) ≡ false = ground arith in rw (n, n') (agrees.same a)
  ];
  low = λ p h. let n : (raw + 16 == p) ≡ false = ground arith in rw n (agrees.low p h);
  header = λ a h. elim (Bool-cases (raw == a)) [
    | inl e ↦ let e' : (raw + 16 == a + 16) ≡ true = ground arith in rw (e, e') refl
    | inr n ↦
        let n' : (raw + 16 == a + 16) ≡ false = ground arith in
        rw (n, n') (agrees.header a (λ none_held. h (rw n' none_held)))
  ];
  room = λ p h. elim (Bool-cases (raw + 16 == p)) [
    | inl e ↦ rw e (ground arith)
    | inr n ↦ rw n (agrees.room p (λ none_held. h (rw n none_held)))
  ];
}

-- The block of the payload at `a + 16` is given back.
pub take :
    {blocks sizes held : ℕ → ℕ} (a : ℕ)
    → Agrees blocks sizes held
    → Agrees (update blocks a 0) sizes (update held (a + 16) 0)
take a agrees = record {
  same = λ b. elim (Bool-cases (a == b)) [
    | inl e ↦ let e' : (a + 16 == b + 16) ≡ true = ground arith in rw (e, e') refl
    | inr n ↦ let n' : (a + 16 == b + 16) ≡ false = ground arith in rw (n, n') (agrees.same b)
  ];
  low =
      λ p h. elim (Bool-cases (a + 16 == p)) [ inl e ↦ rw e refl | inr n ↦ rw n (agrees.low p h) ];
  header = λ b h. elim (Bool-cases (a + 16 == b + 16)) [
    | inl e ↦ absurd (h (rw e refl))
    | inr n ↦ rw n (agrees.header b (λ none_held. h (rw n none_held)))
  ];
  room = λ p h. elim (Bool-cases (a + 16 == p)) [
    | inl e ↦ absurd (h (rw e refl))
    | inr n ↦ rw n (agrees.room p (λ none_held. h (rw n none_held)))
  ];
}

-- Where a payload's block is, and its layout.
pub placed :
    {blocks sizes held : ℕ → ℕ} (p : ℕ)
    → Agrees blocks sizes held
    → held p ≢ 0
    → (a : ℕ) × (p ≡ a + 16)
      × (sub64 p 16 ≡ a)
      × (blocks a ≡ held p + 16)
      × (add64 (sizes a) 16 ≡ held p + 16)
placed {blocks} {sizes} {held} p agrees there = elim (Bool-cases (leb p 16)) [
  | inl small ↦ absurd (there (agrees.low p (ground arith)))
  | inr large ↦
      let a = p - 16 in
      let past : 16 < p = ground arith in
      let at : p ≡ a + 16 = omega arith in
      let at_a : held (a + 16) ≡ held p = ap held (sym at) in
      let there' : held (a + 16) ≢ 0 = ground (arith, at_a) in
      let is_there : (held (a + 16) == 0) ≡ false = ground arith in
      let same : blocks a ≡ held (a + 16) + 16 = agrees.same a ∙ rw is_there refl in
      let header = agrees.header a there' in
      let room = agrees.room p there in
      (a, at, omega arith, same ∙ ap (λ x. x + 16) at_a, omega arith)
]
