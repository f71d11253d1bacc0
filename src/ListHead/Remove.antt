-- ===== src/ListHead/Remove.antt =====
-- An entry that leaves a list.
use field_os.Prelude.{
  ℕ, ◌+◌, ◌≤◌, ◌≡◌, ◌≢◌, refl, sym, ap, ◌∙◌, arith, List, [], ◌∷◌, ◌++◌, occurs, append-nil,
}
use field_os.ListHead.{Store, unlink}
use field_os.ListHead.Segments.{Seg, last, first, Seg-ext, Seg-join, last_occurs}

module _ (s : Store) where
  next_else : (p n c : ℕ) → c ≢ p → (unlink s p n).next c ≡ s.next c
  unfolding unlink
  next_else p n c other = ground arith

  prev_else : (p n c : ℕ) → c ≢ n → (unlink s p n).prev c ≡ s.prev c
  unfolding unlink
  prev_else p n c other = ground arith

  closes : (p n : ℕ) → ((unlink s p n).next p ≡ n) × ((unlink s p n).prev n ≡ p)
  unfolding unlink
  closes p n = ground arith

  -- The segment up to the entry `x` now ends at `n`.
  Seg-redirect :
      (a p : ℕ) (xs : List ℕ) (x n : ℕ)
      → p ≡ last a xs
      → Seg s a xs x
      → ((c : ℕ) → occurs c (a ∷ xs) ≤ 1)
      → occurs n xs ≡ 0
      → Seg (unlink s p n) a xs n
  Seg-redirect a p [] x n e seg once apart =
      let (next, prev) = closes p n in (ap (unlink s p n).next (sym e) ∙ next, prev ∙ e)
  Seg-redirect a p (y ∷ xs) x n e (next, prev, seg) once apart = (
    next_else p n a (ground (arith, once a, last_occurs y xs, e)) ∙ next,
    prev_else p n y (ground arith) ∙ prev,
    Seg-redirect y p xs x n e seg (λ c. ground (arith, once c)) (ground arith),
  )

  -- The entry `x` is out.
  pub Seg-unlink :
      (h : ℕ) (before : List ℕ) (x : ℕ) (after : List ℕ)
      → Seg s h before x
      → Seg s x after h
      → ((c : ℕ) → occurs c (h ∷ before) + occurs c (x ∷ after) ≤ 1)
      → Seg (unlink s (last h before) (first after h)) h (before ++ after) h
  Seg-unlink h before x [] seg seg' once =
      let whole = append-nil before in
      rw whole (
        Seg-redirect h (last h before) before x h refl seg (λ c. ground (arith, once c))
          (ground (arith, once h)))
  Seg-unlink h before x (n ∷ after) seg (next, prev, seg') once =
      let p = last h before in
      Seg-join (unlink s p n) h before n after h
        (Seg-redirect h p before x n refl seg (λ c. ground (arith, once c))
          (ground (arith, once n)))
        (Seg-ext s (unlink s p n) n after h
          (λ c occ. next_else p n c (ground (arith, once c, last_occurs h before)))
          (λ c occ. prev_else p n c (ground (arith, once n, once h))) seg')
