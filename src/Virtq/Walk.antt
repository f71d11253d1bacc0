-- ===== src/Virtq/Walk.antt =====
-- What the device reads off a chain that `push_chain` has written.
use mathlib.Core.Option
use field_os.Prelude.{
  ℕ, zero, suc, ◌+◌, ◌*◌, ◌/◌, ◌^◌, ◌≤◌, ◌<◌, ◌≡◌, refl, ◌∙◌, arith, bit_and, bit_or, List, [], ◌∷◌,
  Option, none, some, map, ◌==◌, if◌then◌else◌, length, occurs,
}
use field_os.Prelude.Bits.{low-clear, low-set, bit_or-zero, bit_and_even, bit_or_odd}
use field_os.Virtq.{Desc, Part, next_flag, without_next, write_part, write_chain}
use field_os.Virtq.Chains.{write_chain-head, write_chain-cons}

-- The device's reading of a chain: the parts of its descriptors, in order, without the NEXT flag.
abbrev pub part_at : (ℕ → Desc) → ℕ → Part
part_at d cur = record {
  addr = (d cur).addr;
  len = (d cur).len;
  flags = without_next (d cur).flags;
}

unfoldable pub walk : (ℕ → Desc) → ℕ → ℕ → Option (List Part)
walk d zero cur = none
walk d (suc fuel) cur =
    let rest = Option.map (λ ps. part_at d cur ∷ ps) (walk d fuel (d cur).next) in
    if bit_and (d cur).flags next_flag == 0 then some (part_at d cur ∷ []) else rest

walk_last :
    (d : ℕ → Desc) (fuel cur : ℕ)
    → bit_and (d cur).flags next_flag ≡ 0
    → walk d (suc fuel) cur ≡ some (part_at d cur ∷ [])
unfolding walk
walk_last d fuel cur h = rw h

walk_next :
    (d : ℕ → Desc) (fuel cur next : ℕ) (ps : List Part)
    → bit_and (d cur).flags next_flag ≡ 1
    → (d cur).next ≡ next
    → walk d fuel next ≡ some ps
    → walk d (suc fuel) cur ≡ some (part_at d cur ∷ ps)
unfolding walk
walk_next d fuel cur next ps h e rest = rw (h, e, rest) refl

-- A part as the device sees it: `push_chain` takes the NEXT flag off.
abbrev pub plain : Part → Part
plain p = record p { flags = without_next p.flags }

abbrev pub AreWords : List Part → Type 0
AreWords [] = Unit {0}
AreWords (p ∷ ps) = (p.flags < 2 ^ 16) × AreWords ps

without_next-flag : (f : ℕ) → f < 2 ^ 16 → without_next (bit_or (without_next f) 1) ≡ without_next f
without_next-flag f h =
    rw (bit_and_even f h, bit_or_odd f, bit_and_even (f / 2 * 2 + 1) (omega arith)) (omega arith)

without_next_twice : (f : ℕ) → f < 2 ^ 16 → without_next (without_next f) ≡ without_next f
without_next_twice f h = rw (bit_and_even f h, bit_and_even (f / 2 * 2) (omega arith)) (omega arith)

pub walk-write_chain :
    (d : ℕ → Desc) (i : ℕ) (is : List ℕ) (p : Part) (ps : List Part)
    → length is ≡ length ps
    → ((a : ℕ) → occurs a (i ∷ is) ≤ 1)
    → AreWords (p ∷ ps)
    → walk (write_chain d (i ∷ is) (p ∷ ps)) (length (p ∷ ps)) i ≡ some (map plain (p ∷ ps))
walk-write_chain d i [] p [] e once w =
    let head = write_chain-head d i [] p [] refl in
    let none_after = bit_or-zero (without_next p.flags) in
    walk_last _ 0 i (rw head (rw none_after (low-clear p.flags)))
    ∙ rw head (rw (none_after, without_next_twice p.flags w.0))
walk-write_chain d i [] p (p' ∷ ps) e once w = absurd (omega arith)
walk-write_chain d i (j ∷ is) p [] e once w = absurd (omega arith)
walk-write_chain d i (j ∷ is) p (p' ∷ ps) e once w =
    let fresh : occurs i (j ∷ is) ≡ 0 = ground (arith, once i) in
    let head = write_chain-head d i (j ∷ is) p (p' ∷ ps) fresh in
    let rest : walk (write_chain d (i ∷ (j ∷ is)) (p ∷ (p' ∷ ps))) (suc (length ps)) j
        ≡ some (map plain (p' ∷ ps)) =
      rw (write_chain-cons d i (j ∷ is) p (p' ∷ ps)) (
        walk-write_chain (write_part d i (j ∷ is) p) j is p' ps (omega arith)
          (λ a. omega (arith, once a)) w.1) in
    walk_next _ (suc (length ps)) i j (map plain (p' ∷ ps))
      (rw head (low-set (without_next p.flags))) (rw head) rest
    ∙ rw head (rw (without_next-flag p.flags w.0))
