-- ===== src/ListHead/Segments.antt =====
-- A part of a list, from one entry to another.
use field_os.Prelude.{ℕ, ◌<◌, ◌≡◌, ◌∙◌, arith, List, [], ◌∷◌, ◌++◌, occurs}
use field_os.ListHead.{Store}

-- From `a` through `xs` to `b`, by both fields.
abbrev pub Seg : Store → ℕ → List ℕ → ℕ → Type 0
Seg s a [] b = (s.next a ≡ b) × (s.prev b ≡ a)
Seg s a (x ∷ xs) b = (s.next a ≡ x) × (s.prev x ≡ a) × Seg s x xs b

-- The last entry before the end.
abbrev pub last : ℕ → List ℕ → ℕ
last a [] = a
last a (x ∷ xs) = last x xs

abbrev pub first : List ℕ → ℕ → ℕ
first [] b = b
first (x ∷ xs) b = x

module _ (s : Store) where
  pub Seg-append :
      (a : ℕ) (xs : List ℕ) (y : ℕ) (ys : List ℕ) (b : ℕ)
      → Seg s a (xs ++ (y ∷ ys)) b
      → Seg s a xs y × Seg s y ys b
  Seg-append a [] y ys b (n, p, seg) = ((n, p), seg)
  Seg-append a (x ∷ xs) y ys b (n, p, seg) =
      let (l, r) = Seg-append x xs y ys b seg in ((n, p, l), r)

  pub Seg-join :
      (a : ℕ) (xs : List ℕ) (y : ℕ) (ys : List ℕ) (b : ℕ)
      → Seg s a xs y
      → Seg s y ys b
      → Seg s a (xs ++ (y ∷ ys)) b
  Seg-join a [] y ys b (n, p) right = (n, p, right)
  Seg-join a (x ∷ xs) y ys b (n, p, seg) right = (n, p, Seg-join x xs y ys b seg right)

  pub Seg-ends :
      (a : ℕ) (xs : List ℕ) (b : ℕ)
      → Seg s a xs b
      → (s.next a ≡ first xs b) × (s.prev b ≡ last a xs)
  Seg-ends a [] b seg = seg
  Seg-ends a (x ∷ xs) b (n, p, seg) = (n, (Seg-ends x xs b seg).1)

-- A segment depends on `next` before its end and on `prev` after its start.
pub Seg-ext :
    (s t : Store) (a : ℕ) (xs : List ℕ) (b : ℕ)
    → ((c : ℕ) → 0 < occurs c (a ∷ xs) → t.next c ≡ s.next c)
    → ((c : ℕ) → 0 < occurs c (b ∷ xs) → t.prev c ≡ s.prev c)
    → Seg s a xs b
    → Seg t a xs b
Seg-ext s t a [] b same same' (n, p) = (same a (ground arith) ∙ n, same' b (ground arith) ∙ p)
Seg-ext s t a (x ∷ xs) b same same' (n, p, seg) = (
  same a (ground arith) ∙ n,
  same' x (ground arith) ∙ p,
  Seg-ext s t x xs b (λ c h. same c (ground arith)) (λ c h. same' c (ground arith)) seg,
)

-- The last entry is one of the entries.
pub last_occurs : (a : ℕ) (xs : List ℕ) → 0 < occurs (last a xs) (a ∷ xs)
last_occurs a [] = ground arith
last_occurs a (x ∷ xs) = ground (arith, last_occurs x xs)
