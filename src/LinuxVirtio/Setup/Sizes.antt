-- ===== src/LinuxVirtio/Setup/Sizes.antt =====
-- The size of a queue.
use field_os.Prelude.{
  ℕ, ◌-◌, ◌*◌, ◌%◌, ◌^◌, ◌≤◌, ◌<◌, ◌≡◌, ◌⊎◌, inl, inr, refl, min, arith, Bool, Bool-cases, true,
  false, leb, ltb, ◌==◌, every, every_lem, ◌||◌, ◌&&◌,
}
use field_os.LinuxVirtio.Setup.{leading_zeros, pow2_at_most}

-- The size for a capped maximum.
abbrev pow2 : ℕ → ℕ
pow2 capped = 2 ^ (15 - leading_zeros 16 capped)

abbrev is_right : ℕ → Bool
is_right capped =
    (capped == 0)
    || ((128 % pow2 capped == 0)
        && leb (pow2 capped) capped
        && ltb capped (2 * pow2 capped)
        && ltb 0 (pow2 capped)
        && leb (pow2 capped) 128)

all_right : every is_right 129 ≡ true
unfolding leading_zeros every
all_right = refl

-- The greatest size that divides 128 and is at most the device's.
pub pow2_at_most_lem :
    (n : ℕ)
    → 0 < n
    → (128 % pow2_at_most n ≡ 0)
      × (pow2_at_most n ≤ n)
      × ((n < 2 * pow2_at_most n) ⊎ (pow2_at_most n ≡ 128))
      × (0 < pow2_at_most n)
      × (pow2_at_most n ≤ 128)
unfolding pow2_at_most leading_zeros
pow2_at_most_lem n pos =
    let named : (n == 0) ≡ false = ground arith in
    elim (Bool-cases (leb 128 n)) [
      | inl large ↦
          let capped : min n 128 ≡ 128 = ground arith in
          rw (named, capped) (refl, ground arith, inr refl, omega arith, omega arith)
      | inr small ↦
          let capped : min n 128 ≡ n = ground arith in
          let right = every_lem is_right 129 n all_right (ground arith) in
          rw (named, capped)
            (
              ground (arith, right),
              ground (arith, right),
              inl (ground (arith, right)),
              ground (arith, right),
              ground (arith, right),
            )
    ]

pub pow2_at_most_zero : pow2_at_most 0 ≡ 0
unfolding pow2_at_most
pow2_at_most_zero = refl
