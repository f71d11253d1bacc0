-- ===== src/Virtq/Ring.antt =====
-- The used ring as a queue: its slots go round the ring, and its index round 2^16.
use native.Mathlib.Nat.{mod-mod_of_dvd, mod-add-mod, mod-eq_of_lt, mod-eq-sub-mod, mod-lt}
use Prim.Native.Nat.{◌∣◌}
use field_os.Prelude.{
  ℕ, suc, ◌+◌, ◌-◌, ◌%◌, ◌^◌, ◌<◌, ◌≡◌, ◌≢◌, sym, subst, ◌∙◌, arith, List, [], ◌∷◌, ◌++◌,
  Bool-cases, ltb, inl, inr, length, update, update_self, update_ne,
}
use field_os.Virtq.{UsedElem, next_of, add16}

-- The device has put the heads of `cs` into the used ring of `size` slots from `idx` on.
abbrev pub InRing : ℕ → (ℕ → UsedElem) → ℕ → List (List ℕ) → Type 0
InRing size ring idx [] = Unit {0}
InRing size ring idx (c ∷ cs) =
    ((ring (idx % size)).id ≡ next_of c) × InRing size ring (add16 idx 1) cs

module _ (size : ℕ) (divides : size ∣ 2 ^ 16) where
  slot-add16 : (a b : ℕ) → add16 a b % size ≡ (a + b) % size
  slot-add16 a b = mod-mod_of_dvd size (a + b) divides

  -- Fewer than `size` steps round the ring do not come back to the start.
  add-mod-ne : (h k : ℕ) → h < size → suc k < size → (h + suc k) % size ≢ h
  add-mod-ne h k hh hk = elim (Bool-cases (ltb (h + suc k) size)) [
    | inl p ↦ ground (arith, mod-eq_of_lt {n = h + suc k} {m = size})
    | inr p ↦ ground (
      arith,
      mod-eq-sub-mod {n = h + suc k} {m = size},
      mod-eq_of_lt {n = h + suc k - size} {m = size},
    )
  ]

  other_slot : (idx k : ℕ) → suc k < size → add16 idx (suc k) % size ≢ idx % size
  other_slot idx k h e =
      add-mod-ne (idx % size) k (mod-lt idx (omega arith)) h
        (mod-add-mod idx size (suc k) ∙ sym (slot-add16 idx (suc k)) ∙ e)

  pub InRing-append :
      (ring : ℕ → UsedElem) (idx : ℕ) (cs : List (List ℕ)) (c : List ℕ) (elem : UsedElem)
      → idx < 2 ^ 16
      → length cs < size
      → elem.id ≡ next_of c
      → InRing size ring idx cs
      → InRing size (update ring (add16 idx (length cs) % size) elem) idx (cs ++ (c ∷ []))
  InRing-append ring idx [] c elem small few e r =
      let here : add16 idx 0 ≡ idx = omega arith in
      (rw here (rw (update_self ring (idx % size) elem) e), tt)
  InRing-append ring idx (b ∷ cs) c elem small few e r =
      let shift : add16 idx (suc (length cs)) ≡ add16 (add16 idx 1) (length cs) = omega arith in
      (
        rw (update_ne ring _ (idx % size) elem (other_slot idx (length cs) few)) r.0,
        subst (λ k. InRing size (update ring (k % size) elem) (add16 idx 1) (cs ++ (c ∷ [])))
            (sym shift)
            (InRing-append ring (add16 idx 1) cs c elem (omega arith) (omega arith) e r.1),
      )
