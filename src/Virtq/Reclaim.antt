-- ===== src/Virtq/Reclaim.antt =====
-- The loop of `pop_used`, which gives a used chain back to the free list.
use field_os.Prelude.{
  ℕ, zero, suc, ◌+◌, ◌^◌, ◌≤◌, ◌<◌, ◌≡◌, ◌≢◌, refl, ◌∙◌, arith, bit_and, List, [], ◌∷◌, some,
  length, occurs, update, update_self, update_ne,
}
use field_os.Virtq.{Virtqueue, next_flag, add16, free_chain}
use field_os.Virtq.Chains.{IsFreeList, IsChain, IsFreeList-ext, IsChain-ext}

-- The chain `c`, turned round, in front of `free`.
abbrev pub rev_onto : List ℕ → List ℕ → List ℕ
rev_onto [] free = free
rev_onto (x ∷ xs) free = rev_onto xs (x ∷ free)

pub occurs-rev_onto :
    (a : ℕ) (c free : List ℕ) → occurs a (rev_onto c free) ≡ occurs a c + occurs a free
occurs-rev_onto a [] free = omega arith
occurs-rev_onto a (x ∷ c) free = omega (arith, occurs-rev_onto a c (x ∷ free))

pub length-rev_onto : (c free : List ℕ) → length (rev_onto c free) ≡ length c + length free
length-rev_onto [] free = omega arith
length-rev_onto (x ∷ c) free = omega (arith, length-rev_onto c (x ∷ free))

-- What the loop of `pop_used` does to the queue, when it has gone through the chain `c`.
pub record Freed (q q' : Virtqueue) (c free : List ℕ) : Type 0 where
  pub free_list : IsFreeList q'.desc q'.free_head (rev_onto c free)
  pub counted : q'.num_free ≡ q.num_free + length c
  pub outside : (a : ℕ) → occurs a c ≡ 0 → q'.desc a ≡ q.desc a
  pub same : q' ≡ record q { desc = q'.desc; free_head = q'.free_head; num_free = q'.num_free }

-- One round of the loop.
abbrev freed_one : Virtqueue → ℕ → Virtqueue
freed_one q cur = record q {
  desc = update q.desc cur (record (q.desc cur) { next = q.free_head });
  free_head = cur;
  num_free = add16 q.num_free 1;
}

free_chain_last :
    (fuel : ℕ) (q : Virtqueue) (x : ℕ)
    → bit_and (q.desc x).flags next_flag ≡ 0
    → free_chain (suc fuel) q x ≡ some (freed_one q x)
unfolding free_chain
free_chain_last fuel q x h = rw h

free_chain_next :
    (fuel : ℕ) (q : Virtqueue) (x : ℕ)
    → bit_and (q.desc x).flags next_flag ≢ 0
    → free_chain (suc fuel) q x ≡ free_chain fuel (freed_one q x) (q.desc x).next
unfolding free_chain
free_chain_next fuel q x h = ground arith

freed_one-IsFreeList :
    (q : Virtqueue) (x : ℕ) (free : List ℕ)
    → occurs x free ≡ 0
    → IsFreeList q.desc q.free_head free
    → IsFreeList (freed_one q x).desc x (x ∷ free)
freed_one-IsFreeList q x free fresh f = (
  refl,
  rw (update_self q.desc x (record (q.desc x) { next = q.free_head })) (
      IsFreeList-ext q.desc (freed_one q x).desc q.free_head free
        (λ a p. update_ne q.desc x a _ (λ e. absurd (ground arith))) f),
)

-- The loop over a chain whose descriptors are distinct and none of them free: it ends within as
-- many rounds as the chain is long.
pub free_chain_lem :
    (fuel : ℕ) (q : Virtqueue) (x : ℕ) (xs free : List ℕ)
    → length xs < fuel
    → IsChain q.desc (x ∷ xs)
    → IsFreeList q.desc q.free_head free
    → ((a : ℕ) → occurs a (x ∷ xs) + occurs a free ≤ 1)
    → q.num_free + length (x ∷ xs) < 2 ^ 16
    → (q' : Virtqueue) × (free_chain fuel q x ≡ some q') × Freed q q' (x ∷ xs) free
free_chain_lem zero q x xs free enough chain f once room = absurd (omega arith)
free_chain_lem (suc fuel) q x [] free enough chain f once room = (
  freed_one q x,
  free_chain_last fuel q x chain,
  record {
    free_list = freed_one-IsFreeList q x free (ground (arith, once x)) f;
    counted = omega arith;
    outside = λ a p. update_ne q.desc x a _ (λ e. absurd (ground arith));
    same = refl;
  },
)
free_chain_lem (suc fuel) q x (y ∷ r) free enough chain f once room =
    let q1 = freed_one q x in
    let (q', e, freed) =
      free_chain_lem fuel q1 y r (x ∷ free) (omega arith)
        (IsChain-ext q.desc q1.desc (y ∷ r)
          (λ a p. update_ne q.desc x a _ (λ e. absurd (ground (arith, once x)))) chain.2)
        (freed_one-IsFreeList q x free (ground (arith, once x)) f) (λ a. omega (arith, once a))
        (omega arith) in
    (
      q',
      free_chain_next fuel q x chain.0 ∙ rw chain.1 e,
      record {
        free_list = freed.free_list;
        counted = omega (arith, freed.counted);
        outside = λ a p.
            freed.outside a (omega arith) ∙ update_ne q.desc x a _ (λ e. absurd (ground arith));
        same = freed.same;
      },
    )
