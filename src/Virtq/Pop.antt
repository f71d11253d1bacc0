-- ===== src/Virtq/Pop.antt =====
-- `pop_used`: the chain that the device has used goes back onto the free list, whole.
use field_os.Prelude.{
  ℕ, ◌+◌, ◌%◌, ◌^◌, ◌≡◌, ◌≢◌, ap, arith, List, [], ◌∷◌, ◌++◌, some, ltb, if◌then◌else◌, length,
  occurs, occurs-append, flatten, length-append, length-flatten-append, occurs-flatten-append,
}
use field_os.Virtq.{Desc, Virtqueue, add16, pop_elem, pop_used}
use field_os.Virtq.Chains.{IsChain, AreChains, AreChains-ext}
use field_os.Virtq.Push.{Owns}
use field_os.Virtq.Reclaim.{rev_onto, occurs-rev_onto, length-rev_onto, free_chain_lem}

-- `pop_used` returned `elem` and took the chain `c` back: it is on the free list again, and the
-- other chains and the rings are as they were.
pub record Popped (q q' : Virtqueue) (c free : List ℕ) (held : List (List ℕ)) : Type 0 where
  pub owns : Owns q' (rev_onto c free) held
  pub last : q'.last_used_idx ≡ add16 q.last_used_idx 1
  pub same_size : q'.size ≡ q.size
  pub avail : (q'.avail_idx ≡ q.avail_idx) × (q'.avail_ring ≡ q.avail_ring)
  pub used : (q'.used_idx ≡ q.used_idx) × (q'.used_ring ≡ q.used_ring)
  pub untouched : (a : ℕ) → occurs a c ≡ 0 → q'.desc a ≡ q.desc a

AreChains-remove :
    (d : ℕ → Desc) (before after : List (List ℕ)) (c : List ℕ)
    → AreChains d (before ++ (c ∷ after))
    → IsChain d c × AreChains d (before ++ after)
AreChains-remove d [] after c h = h
AreChains-remove d (b ∷ before) after c h =
    let (here, rest) = AreChains-remove d before after c h.1 in (here, (h.0, rest))

module _ (q : Virtqueue) (x : ℕ) (xs free : List ℕ) (before after : List (List ℕ))
    (owns : Owns q free (before ++ ((x ∷ xs) ∷ after))) where
  abbrev others : List (List ℕ)
  others = before ++ after

  share :
      (a : ℕ)
      → occurs a (x ∷ xs) + occurs a free + occurs a (flatten others)
        ≡ (if ltb a q.size then 1 else 0)
  share a = omega (
    arith,
    owns.once a,
    occurs-flatten-append a before ((x ∷ xs) ∷ after),
    occurs-flatten-append a before after,
    occurs-append a xs (flatten after),
  )

  lengths : length (x ∷ xs) + length free + length (flatten others) ≡ q.size
  lengths = omega (
    arith,
    owns.total,
    length-flatten-append before ((x ∷ xs) ∷ after),
    length-flatten-append before after,
    length-append xs (flatten after),
  )

  -- The descriptors of a chain that the device has used, whatever its place among the held ones.
  pub pop_used_lem :
      q.used_idx ≢ q.last_used_idx
      → (q.used_ring (q.last_used_idx % q.size)).id % 2 ^ 16 ≡ x
      → (q' : Virtqueue) × (pop_used q.size q
          ≡ some (some (q.used_ring (q.last_used_idx % q.size)), q'))
        × Popped q q' (x ∷ xs) free others
  pop_used_lem fresh id =
      let q0 : Virtqueue = record q { last_used_idx = add16 q.last_used_idx 1 } in
      let (chain, rest) = AreChains-remove q.desc before after (x ∷ xs) owns.chains in
      let (q', e, freed) =
        free_chain_lem q.size q0 x xs free (omega (arith, lengths)) chain owns.free_list
          (λ a. ground (arith, share a)) (omega (arith, lengths, owns.counted, owns.small)) in
      let size : q'.size ≡ q.size = ap (λ r. r.size) freed.same in
      (
        q',
        unfold pop_used pop_elem in ground (arith, e),
        record {
          owns = record {
            positive = rw size owns.positive;
            small = rw size owns.small;
            free_list = freed.free_list;
            counted = omega (arith, freed.counted, length-rev_onto (x ∷ xs) free, owns.counted);
            chains =
                AreChains-ext q.desc q'.desc others
                  (λ a p. freed.outside a (ground (arith, share a))) rest;
            total = omega (arith, length-rev_onto (x ∷ xs) free, lengths, size);
            once = λ a. rw size (omega (arith, occurs-rev_onto a (x ∷ xs) free, share a));
          };
          last = ap (λ r. r.last_used_idx) freed.same;
          same_size = size;
          avail = (ap (λ r. r.avail_idx) freed.same, ap (λ r. r.avail_ring) freed.same);
          used = (ap (λ r. r.used_idx) freed.same, ap (λ r. r.used_ring) freed.same);
          untouched = freed.outside;
        },
      )
