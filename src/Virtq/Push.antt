-- ===== src/Virtq/Push.antt =====
-- `push_chain` and `push_descriptor`: what they take from the free list, and what they publish.
use field_os.Prelude.{
  subst, ℕ, suc, ◌+◌, ◌-◌, ◌%◌, ◌^◌, ◌≤◌, ◌<◌, ◌≡◌, ◌⊎◌, inl, inr, refl, sym, ap, arith, Bool-cases,
  List, [], ◌∷◌, ◌++◌, none, some, map, ltb, if◌then◌else◌, ltb→lt, false, length, take, drop,
  length-append, take-append-drop, length-take, occurs, occurs-append, update, flatten,
}
use field_os.Prelude.Outcome.{returned, panic}
use field_os.Virtq.{
  Desc, Part, Virtqueue, take_free, next_of, write_chain, publish, push_chain, add16,
}
use field_os.Virtq.Chains.{
  IsFreeList, AreChains, IsFreeList-ext, AreChains-ext, take_free_lem, write_chain_outside,
  write_chain-IsChain,
}
use field_os.Virtq.Walk.{walk, walk-write_chain, plain, AreWords}

-- Every descriptor of the table is either on the free list, which goes through `free` and has
-- `num_free` members, or on exactly one of the chains in `held`.
pub record Owns (q : Virtqueue) (free : List ℕ) (held : List (List ℕ)) : Type 0 where
  pub positive : 0 < q.size
  pub small : q.size ≤ 2 ^ 15
  pub free_list : IsFreeList q.desc q.free_head free
  pub counted : q.num_free ≡ length free
  pub chains : AreChains q.desc held
  pub total : length free + length (flatten held) ≡ q.size
  pub once : (a : ℕ) → occurs a free + occurs a (flatten held) ≡ (if ltb a q.size then 1 else 0)

-- `push_chain` gave `head` to the device: the chain that starts there, read by the device, is
-- `parts`; it is taken off the front of the free list; its head is in the next slot of the
-- available ring; and what the device has published is as it was.
pub record Pushed (q q' : Virtqueue) (parts : List Part) (head : ℕ) (free : List ℕ)
    (held : List (List ℕ)) : Type 0 where
  pub chain : List ℕ
  pub rest : List ℕ
  pub taken : free ≡ chain ++ rest
  pub starts : next_of chain ≡ head
  pub as_long : length chain ≡ length parts
  pub owns : Owns q' rest (chain ∷ held)
  pub reads : walk q'.desc (length parts) head ≡ some (map plain parts)
  pub ring : q'.avail_ring ≡ update q.avail_ring (q.avail_idx % q.size) head
  pub idx : q'.avail_idx ≡ add16 q.avail_idx 1
  pub same_size : q'.size ≡ q.size
  pub device : (q'.used_idx ≡ q.used_idx) × (q'.last_used_idx ≡ q.last_used_idx)
  pub used : q'.used_ring ≡ q.used_ring

-- The state that `push_chain` leaves, for the indices and the new free head of its first loop.
abbrev pub push_state : Virtqueue → List Part → List ℕ → ℕ → Virtqueue
push_state q parts chain rest_head =
    publish
      (record q {
        free_head = rest_head;
        num_free = q.num_free - length parts % 2 ^ 16;
        desc = write_chain q.desc chain parts;
      })
      (next_of chain)

module _ (q : Virtqueue) (p : Part) (ps : List Part) (i : ℕ) (is rest : List ℕ)
    (held : List (List ℕ)) (e : length is ≡ length ps) (words : AreWords (p ∷ ps))
    (owns : Owns q (i ∷ (is ++ rest)) held) where
  abbrev written : ℕ → Desc
  written = write_chain q.desc (i ∷ is) (p ∷ ps)

  split :
      (a : ℕ)
      → occurs a (i ∷ is) + occurs a rest + occurs a (flatten held)
        ≡ (if ltb a q.size then 1 else 0)
  split a = omega (arith, owns.once a, occurs-append a is rest)

  distinct : (a : ℕ) → occurs a (i ∷ is) ≤ 1
  distinct a = ground (arith, split a)

  same_rest : (a : ℕ) → 0 < occurs a rest → written a ≡ q.desc a
  same_rest a h = write_chain_outside q.desc (i ∷ is) (p ∷ ps) a (ground (arith, split a))

  same_held : (a : ℕ) → 0 < occurs a (flatten held) → written a ≡ q.desc a
  same_held a h = write_chain_outside q.desc (i ∷ is) (p ∷ ps) a (ground (arith, split a))

  pub push_state-Owns :
      (rest_head : ℕ)
      → IsFreeList q.desc rest_head rest
      → Owns (push_state q (p ∷ ps) (i ∷ is) rest_head) rest ((i ∷ is) ∷ held)
  unfolding publish
  push_state-Owns rest_head left = record {
    positive = owns.positive;
    small = owns.small;
    free_list = IsFreeList-ext q.desc written rest_head rest same_rest left;
    counted = omega (arith, owns.counted, owns.total, owns.small, length-append is rest, e);
    chains = (
      write_chain-IsChain q.desc i is p ps e distinct,
      AreChains-ext q.desc written held same_held owns.chains,
    );
    total = omega (arith, owns.total, length-append is rest, length-append is (flatten held));
    once = λ a. omega (arith, split a, occurs-append a is (flatten held));
  }

  push_state-Pushed :
      (rest_head : ℕ)
      → IsFreeList q.desc rest_head rest
      → Pushed q (push_state q (p ∷ ps) (i ∷ is) rest_head) (p ∷ ps) i (i ∷ (is ++ rest)) held
  unfolding publish
  push_state-Pushed rest_head left = record {
    chain = i ∷ is;
    rest = rest;
    taken = refl;
    starts = refl;
    as_long = omega arith;
    owns = push_state-Owns rest_head left;
    reads = walk-write_chain q.desc i is p ps e distinct words;
    ring = refl;
    idx = refl;
    same_size = refl;
    device = (refl, refl);
    used = refl;
  }

  push_chain-ok :
      length ps ≤ 7
      → (q' : Virtqueue) × (push_chain q (p ∷ ps) ≡ returned (some i, q'))
        × Pushed q q' (p ∷ ps) i (i ∷ (is ++ rest)) held
  unfolding push_chain
  push_chain-ok few =
      let (taken, left) = take_free_lem q.desc q.free_head (i ∷ is) rest owns.free_list in
      let n : suc (length is) ≡ suc (length ps) = omega arith in
      let room : ltb q.num_free (suc (length ps) % 2 ^ 16) ≡ false =
        ground (arith, owns.counted, length-append is rest) in
      let short : ltb 8 (suc (length ps)) ≡ false = ground arith in
      (
        push_state q (p ∷ ps) (i ∷ is) (take_free q.desc (suc (length is)) q.free_head).1,
        rw (room, short) (rw (← n) (rw taken)),
        push_state-Pushed _ left,
      )

split_first :
    (n : ℕ) (free : List ℕ)
    → suc n ≤ length free
    → (i : ℕ) × (is : List ℕ) × (rest : List ℕ) × (free ≡ i ∷ (is ++ rest)) × (length is ≡ n)
split_first n [] h = absurd (omega arith)
split_first n (i ∷ free) h = (
  i,
  take n free,
  drop n free,
  ap (λ t. i ∷ t) (sym (take-append-drop n free)),
  omega (arith, length-take n free),
)

-- `push_chain` on every branch, on a queue whose descriptors stand on its free list and on its
-- chains, each once, and for fewer than 2^16 parts of machine words: it refuses an empty chain and one that is
-- longer than the free list, and then changes nothing; it panics at more than eight parts that the
-- free list could hold; otherwise it publishes a chain that the device reads as `parts`.
pub push_chain_lem :
    (q : Virtqueue) (parts : List Part) (free : List ℕ) (held : List (List ℕ))
    → Owns q free held
    → AreWords parts
    → length parts < 2 ^ 16
    → ((push_chain q parts ≡ returned (none, q))
        × ((length parts ≡ 0) ⊎ (length free < length parts)))
      ⊎ ((push_chain q parts ≡ panic) × (8 < length parts) × (length parts ≤ length free))
      ⊎ ((head : ℕ) × (q' : Virtqueue) × (push_chain q parts ≡ returned (some head, q'))
          × Pushed q q' parts head free held)
push_chain_lem q [] free held owns words few = inl (unfold push_chain in refl, inl refl)
push_chain_lem q (p ∷ ps) free held owns words few =
    elim (Bool-cases (ltb (length free) (suc (length ps)))) [
      | inl long ↦ inl (unfold push_chain in ground (arith, owns.counted), inr (ltb→lt _ _ long))
      | inr fits ↦ elim (Bool-cases (ltb 8 (suc (length ps)))) [
        | inl many ↦
            inr (
              inl
                (unfold push_chain in ground (arith, owns.counted), ltb→lt _ _ many, ground arith))
        | inr some_parts ↦
            let (i, is, rest, e, n) = split_first (length ps) free (ground arith) in
            let owns' = subst (λ t. Owns q t held) e owns in
            let (q', ok, pushed) =
              push_chain-ok q p ps i is rest held n words owns' (ground arith) in
            inr (inr (i, q', ok, subst (λ t. Pushed q q' (p ∷ ps) i t held) (sym e) pushed))
      ]
    ]
