-- ===== src/LinuxVirtio/Negotiated.antt =====
-- What the negotiation gives.
use field_os.Prelude.{
  ℕ, zero, suc, ◌+◌, ◌-◌, ◌*◌, ◌/◌, ◌%◌, ◌^◌, ◌<◌, ◌≤◌, ◌≡◌, refl, ap, ◌∙◌, arith, max, bit_and,
  bit_or, Bool, true, false, not, ◌&&◌, ◌||◌, Bool-cases, inl, inr, Option, none, some, ltb, leb,
  ◌==◌, if◌then◌else◌,
}
use native.Mathlib.Nat.{one-le-pow}
use field_os.Prelude.Bits.{bit_and_low, bit_or_shifted}
use field_os.Prelude.Digits.{
  digit, digit_small, digit-bit_and, digit-bit_or, digit_power, bit_and_power, digit_but,
}
use field_os.Prelude.Loops.{for_range}
use field_os.Prelude.Outcome.{returned}
use field_os.LinuxVirtio.Features.{
  fold_entry, fold_features, Common, init_transport, virtio_has_feature, virtio_clear_bit,
}

-- Whether the entries from `i` on name the feature `f`.
abbrev pub claims_from : ℕ → ℕ → (ℕ → ℕ) → ℕ → Bool
claims_from zero i table f = false
claims_from (suc rounds) i table f = (table i == f) || claims_from rounds (i + 1) table f

-- The features that a driver supports: those of its table, and version 1.
abbrev pub claims : Option (ℕ → ℕ) → ℕ → ℕ → Bool
claims none size f = 32 == f
claims (some table) size f = (32 == f) || claims_from size 0 table f

abbrev one_if : Bool → ℕ
one_if b = if b then 1 else 0

claims_version : (table : Option (ℕ → ℕ)) (size : ℕ) → claims table size 32 ≡ true
claims_version none size = refl
claims_version (some table) size = refl

digit-fold_entry :
    (table : ℕ → ℕ) (i m f : ℕ)
    → f < 64
    → digit (fold_entry table i m) f ≡ max (digit m f) (if table i == f then 1 else 0)
unfolding fold_entry
digit-fold_entry table i m f small = elim (Bool-cases (ltb (table i) 64)) [
  | inl low ↦
      rw low (digit-bit_or m (2 ^ table i) f ∙ ap (max (digit m f)) (digit_power (table i) f))
  | inr high ↦ let differ : (table i == f) ≡ false = ground arith in rw (high, differ) (omega arith)
]

digit-fold_entries :
    (table : ℕ → ℕ) (rounds i m f : ℕ)
    → f < 64
    → digit (for_range rounds i (fold_entry table) m) f
      ≡ max (digit m f) (if claims_from rounds i table f then 1 else 0)
unfolding for_range
digit-fold_entries table zero i m f small = omega arith
digit-fold_entries table (suc rounds) i m f small = ground (
  arith,
  digit-fold_entries table rounds (i + 1) (fold_entry table i m) f small,
  digit-fold_entry table i m f small,
)

digit-fold_features :
    (table : Option (ℕ → ℕ)) (size f : ℕ)
    → f < 64
    → digit (fold_features table size) f ≡ (if claims table size f then 1 else 0)
unfolding fold_features
digit-fold_features none size f small = digit_power 32 f
digit-fold_features (some table) size f small =
    ground (arith, digit-fold_entries table size 0 (2 ^ 32) f small, digit_power 32 f)

one_digit : (d f : ℕ) → d ≤ 1 → not (d * 2 ^ f == 0) ≡ (d == 1)
one_digit zero f h = ground arith
one_digit (suc zero) f h = ground (arith, one-le-pow f 2)
one_digit (suc (suc d)) f h = absurd (omega arith)

has_feature_lem :
    (features f : ℕ) → virtio_has_feature features f ≡ (ltb f 64 && (digit features f == 1))
unfolding virtio_has_feature
has_feature_lem features f =
    rw (bit_and_power features f, one_digit (digit features f) f (digit_small features f))
      (elim (Bool-cases (leb 64 f)) [
        | inl past ↦ let no : ltb f 64 ≡ false = ground arith in rw (past, no) refl
        | inr within ↦ let fits : ltb f 64 ≡ true = ground arith in rw (within, fits) refl
      ])

clear_bit_lem :
    (features f g : ℕ)
    → virtio_has_feature (virtio_clear_bit features f) g
      ≡ (virtio_has_feature features g && not (f == g))
unfolding virtio_clear_bit
clear_bit_lem features f g = elim (Bool-cases (leb 64 f)) [
  | inl past ↦ rw past (ground (arith, has_feature_lem features g))
  | inr within ↦
      let mask = 2 ^ 64 - 1 - 2 ^ f in
      rw within (
        ground (
          arith,
          has_feature_lem features g,
          has_feature_lem (bit_and features mask) g,
          digit-bit_and features mask g,
          digit_but 64 f g,
          digit_small features g,
        ))
]

-- A device that offers version 1 accepts every part of its offer that has version 1.
abbrev pub AcceptsOffers : (ℕ → ℕ → Bool) → ℕ → Type 0
AcceptsOffers accepts offered =
    (g : ℕ) → ((k : ℕ) → digit g k ≤ digit offered k) → digit g 32 ≡ 1 → accepts offered g ≡ true

module _ (accepts : ℕ → ℕ → Bool) (c : Common) (mask : ℕ) (small : c.offered < 2 ^ 64) where
  abbrev negotiated : ℕ
  negotiated = bit_and mask c.offered

  -- What the driver reads through the two windows.
  windows : bit_or (c.offered / 2 ^ 32 * 2 ^ 32) (c.offered % 2 ^ 32) ≡ c.offered
  windows = bit_or_shifted 32 (c.offered / 2 ^ 32) (c.offered % 2 ^ 32) (omega arith) ∙ omega arith

  abbrev final : Common
  final = record {
    status = 11;
    offered = c.offered;
    device_select = 1;
    driver_select = 1;
    driver_features = negotiated;
    msix_config = 0xFFFF;
  }

  runs :
      accepts c.offered negotiated ≡ true
      → init_transport accepts c mask ≡ returned (negotiated, final)
  unfolding init_transport
  runs ok =
      let n = bit_and mask c.offered in
      let low : bit_and n 0xFFFFFFFF ≡ n % 2 ^ 32 = bit_and_low 32 n in
      let whole : n / 2 ^ 32 * 2 ^ 32 + (0 + n % 2 ^ 32) % 2 ^ 32 ≡ n = omega arith in
      rw (windows, low, whole, ok) refl

-- A device that offers version 1 agrees to what the bus asks for: the negotiation ends with FEATURES_OK
-- and without a panic, and what it returns is what the device was told. A driver then sees a feature
-- exactly if it is below 64, the device offers it, and the driver's table names it or it is version
-- 1; and when the driver clears a bit, this feature is gone and every other is as before.
pub init_transport_lem :
    (accepts : ℕ → ℕ → Bool) (c : Common) (table : Option (ℕ → ℕ)) (size f g : ℕ)
    → c.offered < 2 ^ 64
    → digit c.offered 32 ≡ 1
    → AcceptsOffers accepts c.offered
    → (features : ℕ) × (c' : Common) × (init_transport accepts c (fold_features table size)
        ≡ returned (features, c'))
      × (c'.status ≡ 11)
      × (c'.driver_features ≡ features)
      × (virtio_has_feature features f
          ≡ (ltb f 64 && (claims table size f && (digit c.offered f == 1))))
      × (virtio_has_feature (virtio_clear_bit features g) f
          ≡ (virtio_has_feature features f && not (g == f)))
init_transport_lem accepts c table size f g small version accepted =
    let mask = fold_features table size in
    let n = negotiated accepts c mask small in
    let supported : digit mask 32 ≡ 1 =
      digit-fold_features table size 32 (omega arith) ∙ ap one_if (claims_version table size) in
    let agreed : (b : Bool)
        → (f < 64 → digit mask f ≡ (if b then 1 else 0))
        → (ltb f 64 && (digit n f == 1)) ≡ (ltb f 64 && (b && (digit c.offered f == 1))) =
      λ b h. ground (arith, digit-bit_and mask c.offered f, h, digit_small c.offered f) in
    (
      n,
      final accepts c mask small,
      runs accepts c mask small (
          accepted n (λ k. omega (arith, digit-bit_and mask c.offered k))
            (omega (arith, digit-bit_and mask c.offered 32, supported, version))),
      refl,
      refl,
      has_feature_lem n f ∙ agreed (claims table size f) (digit-fold_features table size f),
      clear_bit_lem n g f,
    )
