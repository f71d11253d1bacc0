-- ===== src/Virtq/Chains.antt =====
-- The free list and the chains that are threaded through the descriptor table.
use field_os.Prelude.{
  ◌↔◌, subst, ℕ, ◌≤◌, ◌<◌, ◌≡◌, ◌≢◌, refl, sym, ◌∙◌, arith, bit_and, bit_or, List, [], ◌∷◌, ◌++◌,
  length, occurs, occurs-append, update_self, update_ne, flatten,
}
use field_os.Prelude.Bits.{low-clear, low-set, bit_or-zero}
use field_os.Virtq.{
  write_part, Desc, Part, next_flag, without_next, take_free, next_of, chain_flag, write_chain,
}

-- The free list that starts at `h` goes through `xs`, by the `next` fields.
abbrev pub IsFreeList : (ℕ → Desc) → ℕ → List ℕ → Type 0
IsFreeList d h [] = Unit {0}
IsFreeList d h (x ∷ xs) = (h ≡ x) × IsFreeList d (d x).next xs

-- A chain: every descriptor but the last has the NEXT flag and points to the one after it.
abbrev pub IsChain : (ℕ → Desc) → List ℕ → Type 0
IsChain d [] = ⊥
IsChain d (x ∷ []) = bit_and (d x).flags next_flag ≡ 0
IsChain d (x ∷ (y ∷ r)) = (bit_and (d x).flags next_flag ≢ 0) × ((d x).next ≡ y) × IsChain d (y ∷ r)

abbrev pub AreChains : (ℕ → Desc) → List (List ℕ) → Type 0
AreChains d [] = Unit {0}
AreChains d (c ∷ cs) = IsChain d c × AreChains d cs

-- Each of these depends only on the descriptors that it goes through.
module _ (d d' : ℕ → Desc) where
  pub IsFreeList-ext :
      (h : ℕ) (xs : List ℕ)
      → ((a : ℕ) → 0 < occurs a xs → d' a ≡ d a)
      → IsFreeList d h xs
      → IsFreeList d' h xs
  IsFreeList-ext h [] same f = tt
  IsFreeList-ext h (x ∷ xs) same f = (
    f.0,
    IsFreeList-ext (d' x).next xs (λ a p. same a (omega arith)) (rw (same x (ground arith)) f.1),
  )

  pub IsChain-ext :
      (xs : List ℕ) → ((a : ℕ) → 0 < occurs a xs → d' a ≡ d a) → IsChain d xs → IsChain d' xs
  IsChain-ext [] same c = c
  IsChain-ext (x ∷ []) same c = rw (same x (ground arith)) c
  IsChain-ext (x ∷ (y ∷ r)) same c = (
    rw (same x (ground arith)) c.0,
    rw (same x (ground arith)) c.1,
    IsChain-ext (y ∷ r) (λ a p. same a (ground arith)) c.2,
  )

  pub AreChains-ext :
      (cs : List (List ℕ))
      → ((a : ℕ) → 0 < occurs a (flatten cs) → d' a ≡ d a)
      → AreChains d cs
      → AreChains d' cs
  AreChains-ext [] same h = tt
  AreChains-ext (c ∷ cs) same h = (
    IsChain-ext c (λ a p. same a (omega (arith, occurs-append a c (flatten cs)))) h.0,
    AreChains-ext cs (λ a p. same a (omega (arith, occurs-append a c (flatten cs)))) h.1,
  )

pub AreChains-append :
    (d : ℕ → Desc) (cs ds : List (List ℕ))
    → AreChains d (cs ++ ds) ↔ (AreChains d cs × AreChains d ds)
AreChains-append d [] ds = (λ h. (tt, h), λ h. h.1)
AreChains-append d (c ∷ cs) ds =
    let (split, join) = AreChains-append d cs ds in
    (λ h. ((h.0, (split h.1).0), (split h.1).1), λ h. (h.0.0, join (h.0.1, h.1)))

-- The first loop of `push_chain` reads the free list off.
pub take_free_lem :
    (d : ℕ → Desc) (h : ℕ) (xs ys : List ℕ)
    → IsFreeList d h (xs ++ ys)
    → ((take_free d (length xs) h).0 ≡ xs) × IsFreeList d (take_free d (length xs) h).1 ys
unfolding take_free
take_free_lem d h [] ys f = (refl, f)
take_free_lem d h (x ∷ xs) ys f =
    let (e, g) = take_free_lem d (d h).next xs ys (rw f.0 f.1) in (rw (e, f.0), g)

-- The second loop writes no descriptor but those of the chain.
pub write_chain_outside :
    (d : ℕ → Desc) (is : List ℕ) (ps : List Part) (a : ℕ)
    → occurs a is ≡ 0
    → write_chain d is ps a ≡ d a
unfolding write_chain
write_chain_outside d [] ps a h = refl
write_chain_outside d (i ∷ is) [] a h = refl
write_chain_outside d (i ∷ is) (p ∷ ps) a h =
    write_chain_outside (write_part d i is p) is ps a (omega arith)
    ∙ update_ne d i a _ (λ e. absurd (ground arith))

-- What the second loop leaves in the first descriptor of the chain.
pub write_chain-head :
    (d : ℕ → Desc) (i : ℕ) (is : List ℕ) (p : Part) (ps : List Part)
    → occurs i is ≡ 0
    → write_chain d (i ∷ is) (p ∷ ps) i ≡ record {
      addr = p.addr;
      len = p.len;
      flags = bit_or (without_next p.flags) (chain_flag is);
      next = next_of is;
    }
unfolding write_chain
write_chain-head d i is p ps h =
    write_chain_outside (write_part d i is p) is ps i h ∙ update_self d i _

pub write_chain-cons :
    (d : ℕ → Desc) (i : ℕ) (is : List ℕ) (p : Part) (ps : List Part)
    → write_chain d (i ∷ is) (p ∷ ps) ≡ write_chain (write_part d i is p) is ps
unfolding write_chain
write_chain-cons d i is p ps = refl

-- The second loop leaves a chain.
pub write_chain-IsChain :
    (d : ℕ → Desc) (i : ℕ) (is : List ℕ) (p : Part) (ps : List Part)
    → length is ≡ length ps
    → ((a : ℕ) → occurs a (i ∷ is) ≤ 1)
    → IsChain (write_chain d (i ∷ is) (p ∷ ps)) (i ∷ is)
write_chain-IsChain d i [] p [] e once =
    rw (write_chain-head d i [] p [] refl)
      (rw (bit_or-zero (without_next p.flags)) (low-clear p.flags))
write_chain-IsChain d i [] p (p' ∷ ps) e once = absurd (omega arith)
write_chain-IsChain d i (j ∷ is) p [] e once = absurd (omega arith)
write_chain-IsChain d i (j ∷ is) p (p' ∷ ps) e once =
    let fresh : occurs i (j ∷ is) ≡ 0 = ground (arith, once i) in
    (
      rw (write_chain-head d i (j ∷ is) p (p' ∷ ps) fresh)
          (omega (arith, low-set (without_next p.flags))),
      rw (write_chain-head d i (j ∷ is) p (p' ∷ ps) fresh),
      subst (λ t. IsChain t (j ∷ is)) (sym (write_chain-cons d i (j ∷ is) p (p' ∷ ps)))
          (write_chain-IsChain (write_part d i (j ∷ is) p) j is p' ps (omega arith)
            (λ a. omega (arith, once a))),
    )
