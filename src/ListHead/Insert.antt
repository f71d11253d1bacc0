-- ===== src/ListHead/Insert.antt =====
-- A new entry, at the end of a segment and at its start.
use field_os.Prelude.{ℕ, ◌≤◌, ◌≡◌, ◌≢◌, sym, ap, ◌∙◌, arith, List, [], ◌∷◌, ◌++◌, occurs}
use field_os.ListHead.{Store, list_add_between}
use field_os.ListHead.Segments.{Seg, last, first, Seg-ext, last_occurs}

module _ (s : Store) (new : ℕ) where
  -- The writes around the new entry.
  joined :
      (p n : ℕ)
      → new ≢ p
      → new ≢ n
      → let t = list_add_between s new p n in
        (t.next p ≡ new) × (t.prev new ≡ p) × (t.next new ≡ n) × (t.prev n ≡ new)
  unfolding list_add_between
  joined p n fresh fresh' = ground arith

  next_else : (p n c : ℕ) → c ≢ p → c ≢ new → (list_add_between s new p n).next c ≡ s.next c
  unfolding list_add_between
  next_else p n c other other' = ground arith

  prev_else : (p n c : ℕ) → c ≢ n → c ≢ new → (list_add_between s new p n).prev c ≡ s.prev c
  unfolding list_add_between
  prev_else p n c other other' = ground arith

  pub Seg-insert_end :
      (a p : ℕ) (xs : List ℕ) (b : ℕ)
      → p ≡ last a xs
      → Seg s a xs b
      → occurs new (b ∷ (a ∷ xs)) ≡ 0
      → ((c : ℕ) → occurs c (a ∷ xs) ≤ 1)
      → occurs b xs ≡ 0
      → Seg (list_add_between s new p b) a (xs ++ (new ∷ [])) b
  Seg-insert_end a p [] b e seg fresh once apart =
      let (n, q, n', q') = joined p b (ground arith) (ground arith) in
      (ap (list_add_between s new p b).next (sym e) ∙ n, q ∙ e, (n', q'))
  Seg-insert_end a p (x ∷ xs) b e (n, q, seg) fresh once apart = (
    next_else p b a (ground (arith, once a, last_occurs x xs, e)) (ground arith) ∙ n,
    prev_else p b x (ground arith) (ground arith) ∙ q,
    Seg-insert_end x p xs b e seg (ground arith) (λ c. ground (arith, once c)) (ground arith),
  )

  pub Seg-insert_start :
      (a : ℕ) (xs : List ℕ) (b : ℕ)
      → Seg s a xs b
      → occurs new (b ∷ (a ∷ xs)) ≡ 0
      → ((c : ℕ) → occurs c (a ∷ xs) ≤ 1)
      → occurs b xs ≡ 0
      → Seg (list_add_between s new a (first xs b)) a (new ∷ xs) b
  Seg-insert_start a [] b seg fresh once apart =
      let (n, q, n', q') = joined a b (ground arith) (ground arith) in (n, q, (n', q'))
  Seg-insert_start a (x ∷ xs) b (n, q, seg) fresh once apart =
      let (n', q', m, r) = joined a x (ground arith) (ground arith) in
      (
        n',
        q',
        (
          m,
          r,
          Seg-ext s (list_add_between s new a x) x xs b
              (λ c h. next_else a x c (ground (arith, once a)) (ground arith))
              (λ c h. prev_else a x c (ground (arith, once x)) (ground arith)) seg,
        ),
      )
