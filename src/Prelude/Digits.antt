-- ===== src/Prelude/Digits.antt =====
-- The binary digits of numbers, and what the bit operations do to them.
use Prim.Native.Nat.{ℕ, zero, suc, ◌-◌, ◌*◌, ◌/◌, ◌%◌, ◌^◌, ◌≤◌, ◌<◌, min, max, bit_and, bit_or}
use mathlib.Core.Path.{◌≡◌, refl}
use native.Mathlib.Nat.{pow-suc, one-le-pow}
use mathlib.Core.Bool.{false}
use native.Mathlib.Omega.{arith}
use field_os.Prelude.Bits.{bit_and_halves, bit_or_halves, bit_and-zero, shift_scale}
use field_os.Prelude.Tests.{◌==◌, if◌then◌else◌}

-- The digit of weight `2 ^ k`.
abbrev pub digit : ℕ → ℕ → ℕ
digit a zero = a % 2
digit a (suc k) = digit (a / 2) k

pub digit_small : (a k : ℕ) → digit a k ≤ 1
digit_small a zero = omega arith
digit_small a (suc k) = digit_small (a / 2) k

pub digit-bit_and : (a b k : ℕ) → digit (bit_and a b) k ≡ min (digit a k) (digit b k)
digit-bit_and a b zero = omega (arith, bit_and_halves a b)
digit-bit_and a b (suc k) =
    let half : bit_and a b / 2 ≡ bit_and (a / 2) (b / 2) = omega (arith, bit_and_halves a b) in
    rw half (digit-bit_and (a / 2) (b / 2) k)

pub digit-bit_or : (a b k : ℕ) → digit (bit_or a b) k ≡ max (digit a k) (digit b k)
digit-bit_or a b zero = omega (arith, bit_or_halves a b)
digit-bit_or a b (suc k) =
    let half : bit_or a b / 2 ≡ bit_or (a / 2) (b / 2) = omega (arith, bit_or_halves a b) in
    rw half (digit-bit_or (a / 2) (b / 2) k)

digit_none : (k : ℕ) → digit 0 k ≡ 0
digit_none zero = refl
digit_none (suc k) = digit_none k

half_power : (f : ℕ) → 2 ^ suc f / 2 ≡ 2 ^ f
half_power f = omega (arith, pow-suc 2 f)

pub digit_power : (f k : ℕ) → digit (2 ^ f) k ≡ (if f == k then 1 else 0)
digit_power zero zero = refl
digit_power zero (suc k) = ground (arith, digit_none k)
digit_power (suc f) zero = ground (arith, pow-suc 2 f)
digit_power (suc f) (suc k) = rw (half_power f) (ground (arith, digit_power f k))

-- A mask of one digit.
pub bit_and_power : (a f : ℕ) → bit_and a (2 ^ f) ≡ digit a f * 2 ^ f
bit_and_power a zero = omega (arith, bit_and_halves a 1, bit_and-zero (a / 2))
bit_and_power a (suc f) =
    let half : bit_and (a / 2) (2 ^ suc f / 2) ≡ digit (a / 2) f * 2 ^ f =
      rw (half_power f) (bit_and_power (a / 2) f) in
    omega (arith, bit_and_halves a (2 ^ suc f), half, pow-suc 2 f, shift_scale (digit (a / 2) f) f)

half_ones : (n : ℕ) → (2 ^ suc n - 1) / 2 ≡ 2 ^ n - 1
half_ones n = omega (arith, pow-suc 2 n, one-le-pow n 2)

digit_ones : (n k : ℕ) → k < n → digit (2 ^ n - 1) k ≡ 1
digit_ones zero k h = absurd (omega arith)
digit_ones (suc n) zero h = omega (arith, pow-suc 2 n, one-le-pow n 2)
digit_ones (suc n) (suc k) h = rw (half_ones n) (digit_ones n k (omega arith))

power_le : (f n : ℕ) → f < n → 2 ^ f ≤ 2 ^ n - 1
power_le f zero h = absurd (omega arith)
power_le zero (suc n) h = omega (arith, pow-suc 2 n, one-le-pow n 2)
power_le (suc f) (suc n) h = omega (arith, pow-suc 2 n, pow-suc 2 f, power_le f n (omega arith))

-- The mask of every digit below `n` but one.
pub digit_but :
    (n f k : ℕ) → f < n → k < n → digit (2 ^ n - 1 - 2 ^ f) k ≡ (if f == k then 0 else 1)
digit_but zero f k hf hk = absurd (omega arith)
digit_but (suc n) zero zero hf hk = omega (arith, pow-suc 2 n, one-le-pow n 2)
digit_but (suc n) zero (suc k) hf hk =
    let half : (2 ^ suc n - 1 - 2 ^ 0) / 2 ≡ 2 ^ n - 1 =
      omega (arith, pow-suc 2 n, one-le-pow n 2) in
    rw half (ground (arith, digit_ones n k))
digit_but (suc n) (suc f) zero hf hk =
    let differ : (suc f == 0) ≡ false = ground arith in
    let odd : (2 ^ suc n - 1 - 2 ^ suc f) % 2 ≡ 1 = omega (
      arith,
      pow-suc 2 n,
      pow-suc 2 f,
      one-le-pow n 2,
      one-le-pow f 2,
      power_le f n (omega arith),
    ) in
    rw differ odd
digit_but (suc n) (suc f) (suc k) hf hk =
    let half : (2 ^ suc n - 1 - 2 ^ suc f) / 2 ≡ 2 ^ n - 1 - 2 ^ f = omega (
      arith,
      pow-suc 2 n,
      pow-suc 2 f,
      one-le-pow n 2,
      one-le-pow f 2,
      power_le f n (omega arith),
    ) in
    rw half (ground (arith, digit_but n f k))
