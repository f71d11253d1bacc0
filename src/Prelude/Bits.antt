-- ===== src/Prelude/Bits.antt =====
-- Masks as arithmetic: `x & (2^k - 1)` is a remainder, and `x & !(2^k - 1)` rounds down.
use Prim.Native.Nat.{ℕ, zero, suc, ◌+◌, ◌-◌, ◌*◌, ◌/◌, ◌%◌, ◌^◌, ◌≤◌, ◌<◌, min}
use Prim.Native.Nat.{bit_and, bit_or, digits, bit_and-bitwise, bit_or-bitwise, max}
use mathlib.Core.Path.{◌≡◌, refl, ap, sym, ◌∙◌}
use native.Mathlib.Nat.{pow-suc, one-le-pow, add-zero, mul-one}
use native.Mathlib.Omega.{arith}

-- An operation on binary digits: `z` gives the result over no digits of the first number, and `f`
-- the result's lowest digit.
module _ (z : ℕ → ℕ) (f : ℕ → ℕ → ℕ) where
  more_fuel : (n m a b : ℕ) → a ≤ n → n ≤ m → digits z f m a b ≡ digits z f n a b
  more_fuel n m zero b few more = no_digits m ∙ sym (no_digits n)
    where
      no_digits : (k : ℕ) → digits z f k 0 b ≡ z b
      no_digits zero = refl
      no_digits (suc k) = refl
  more_fuel zero m (suc a) b few more = absurd (omega arith)
  more_fuel (suc n) zero (suc a) b few more = absurd (omega arith)
  more_fuel (suc n) (suc m) (suc a) b few more =
      let halves = more_fuel n m (suc a / 2) (b / 2) (omega arith) (omega arith) in rw halves

  -- One equation for the lowest digit.
  lowest_digit :
      (a b : ℕ)
      → digits z f (suc a) (suc a) b
        ≡ digits z f (suc a / 2) (suc a / 2) (b / 2) * 2 + f (suc a % 2) (b % 2)
  lowest_digit a b =
      let halves = more_fuel (suc a / 2) a (suc a / 2) (b / 2) (omega arith) (omega arith) in
      rw halves

pub zero-bit_and : (b : ℕ) → bit_and 0 b ≡ 0
zero-bit_and = bit_and-bitwise 0

pub zero-bit_or : (b : ℕ) → bit_or 0 b ≡ b
zero-bit_or = bit_or-bitwise 0

pub bit_and_halves : (a b : ℕ) → bit_and a b ≡ bit_and (a / 2) (b / 2) * 2 + min (a % 2) (b % 2)
bit_and_halves zero b = omega (arith, zero-bit_and b, zero-bit_and (b / 2))
bit_and_halves (suc a) b =
    let whole = bit_and-bitwise (suc a) b in
    let half = bit_and-bitwise (suc a / 2) (b / 2) in
    whole ∙ lowest_digit (λ _. zero) min a b ∙ ap (λ t. t * 2 + min (suc a % 2) (b % 2)) (sym half)

pub bit_or_halves : (a b : ℕ) → bit_or a b ≡ bit_or (a / 2) (b / 2) * 2 + max (a % 2) (b % 2)
bit_or_halves zero b = omega (arith, zero-bit_or b, zero-bit_or (b / 2))
bit_or_halves (suc a) b =
    let whole = bit_or-bitwise (suc a) b in
    let half = bit_or-bitwise (suc a / 2) (b / 2) in
    whole ∙ lowest_digit (λ y. y) max a b ∙ ap (λ t. t * 2 + max (suc a % 2) (b % 2)) (sym half)

-- What holds of 0, and of a number when it holds of its half, holds of every number.
by_halves :
    (P : ℕ → Type 0) → P 0 → ((a : ℕ) → P (suc a / 2) → P (suc a)) → (limit a : ℕ) → a < limit → P a
by_halves P base step limit zero few = base
by_halves P base step zero (suc a) few = absurd (omega arith)
by_halves P base step (suc limit) (suc a) few =
    step a (by_halves P base step limit (suc a / 2) (omega arith))

pub bit_and-zero : (a : ℕ) → bit_and a 0 ≡ 0
bit_and-zero a =
    by_halves (λ x. bit_and x 0 ≡ 0) refl (λ x half. omega (arith, bit_and_halves (suc x) 0, half))
      (suc a) a (omega arith)

pub bit_or-zero : (a : ℕ) → bit_or a 0 ≡ a
bit_or-zero a =
    by_halves (λ x. bit_or x 0 ≡ x) refl (λ x half. omega (arith, bit_or_halves (suc x) 0, half))
      (suc a) a (omega arith)

pub shift_scale : (q k : ℕ) → q * 2 ^ suc k ≡ 2 * (q * 2 ^ k)
shift_scale q k = omega (arith, ap (λ (t : ℕ). q * t) (pow-suc 2 k))

-- A mask of `k` low ones keeps the low `k` bits.
bit_and_split : (k q r : ℕ) → r < 2 ^ k → bit_and (q * 2 ^ k + r) (2 ^ k - 1) ≡ r
bit_and_split zero q r h = omega (arith, bit_and-zero (q * 2 ^ 0 + r))
bit_and_split (suc k) q r h = ground (
  arith,
  bit_and_halves (q * 2 ^ suc k + r) (2 ^ suc k - 1),
  shift_scale q k,
  pow-suc 2 k,
  bit_and_split k q (r / 2) (omega (arith, pow-suc 2 k)),
)

-- A mask of `k` low ones is the remainder by `2 ^ k`.
pub bit_and_low : (k a : ℕ) → bit_and a (2 ^ k - 1) ≡ a % 2 ^ k
bit_and_low k a = ground (arith, one-le-pow k 2, bit_and_split k (a / 2 ^ k) (a % 2 ^ k))

-- A mask that is a multiple of `2 ^ k` drops the low `k` bits.
pub bit_and_shifted :
    (k c q r : ℕ) → r < 2 ^ k → bit_and (q * 2 ^ k + r) (c * 2 ^ k) ≡ bit_and q c * 2 ^ k
bit_and_shifted zero c q r h = let e : r ≡ 0 = omega arith in rw e (simp (add-zero, mul-one))
bit_and_shifted (suc k) c q r h = ground (
  arith,
  bit_and_halves (q * 2 ^ suc k + r) (c * 2 ^ suc k),
  shift_scale q k,
  shift_scale c k,
  shift_scale (bit_and q c) k,
  pow-suc 2 k,
  bit_and_shifted k c q (r / 2) (omega (arith, pow-suc 2 k)),
)

-- `x & !0xFFF` on a 64-bit word rounds down to a 4-KiB boundary.
pub bit_and_page : (a : ℕ) → a < 2 ^ 64 → bit_and a (2 ^ 64 - 4096) ≡ a / 4096 * 4096
bit_and_page a h =
    ground (arith, bit_and_shifted 12 (2 ^ 52 - 1) (a / 4096) (a % 4096), bit_and_low 52 (a / 4096))

-- The lowest bit of a word with that bit cleared, and set.
pub low-clear : (a : ℕ) → bit_and (bit_and a 0xFFFE) 1 ≡ 0
low-clear a = omega (arith, bit_and_low 1 (bit_and a 0xFFFE), bit_and_halves a 0xFFFE)

pub low-set : (a : ℕ) → bit_and (bit_or a 1) 1 ≡ 1
low-set a = omega (arith, bit_and_low 1 (bit_or a 1), bit_or_halves a 1)

-- `x & !1` on a 16-bit word, and the same after `| 1`.
pub bit_and_even : (a : ℕ) → a < 2 ^ 16 → bit_and a 0xFFFE ≡ a / 2 * 2
bit_and_even a h = ground (arith, bit_and_shifted 1 0x7FFF (a / 2) (a % 2), bit_and_low 15 (a / 2))

pub bit_or_odd : (a : ℕ) → bit_or (a / 2 * 2) 1 ≡ a / 2 * 2 + 1
bit_or_odd a = ground (arith, bit_or_halves (a / 2 * 2) 1, bit_or-zero (a / 2))

-- `|` of a multiple of `2 ^ k` and a number below it is their sum.
pub bit_or_shifted : (k q r : ℕ) → r < 2 ^ k → bit_or (q * 2 ^ k) r ≡ q * 2 ^ k + r
bit_or_shifted zero q r h =
    let e : r ≡ 0 = omega arith in rw e (omega (arith, bit_or-zero (q * 2 ^ 0)))
bit_or_shifted (suc k) q r h = ground (
  arith,
  bit_or_halves (q * 2 ^ suc k) r,
  shift_scale q k,
  pow-suc 2 k,
  bit_or_shifted k q (r / 2) (omega (arith, pow-suc 2 k)),
)

pub bit_or_add : (k q x r : ℕ) → x ≡ q * 2 ^ k → r < 2 ^ k → bit_or x r ≡ x + r
bit_or_add k q x r e h = rw e (bit_or_shifted k q r h)

-- The same with the small number first.
pub bit_or_below : (k q r : ℕ) → r < 2 ^ k → bit_or r (q * 2 ^ k) ≡ q * 2 ^ k + r
bit_or_below zero q r h =
    let e : r ≡ 0 = omega arith in rw e (omega (arith, zero-bit_or (q * 2 ^ 0)))
bit_or_below (suc k) q r h = ground (
  arith,
  bit_or_halves r (q * 2 ^ suc k),
  shift_scale q k,
  pow-suc 2 k,
  bit_or_below k q (r / 2) (omega (arith, pow-suc 2 k)),
)
