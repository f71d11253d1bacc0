-- ===== src/LinuxVirtio/Queue/Add.antt =====
-- A buffer that the driver adds.
use field_os.Prelude.{
  ℕ, ◌+◌, ◌-◌, ◌%◌, ◌^◌, ◌≤◌, ◌<◌, ◌≡◌, ◌⊎◌, inl, inr, refl, sym, ap, ap₂, ◌∙◌, subst, arith, true,
  false, ◌||◌, List, [], ◌∷◌, ◌++◌, map, some, ltb, leb, ◌==◌, Bool-cases, occurs, flatten,
  occurs-flatten-append, length, update, update_self, length-map, length-append,
}
use field_os.Prelude.Outcome.{returned}
use field_os.Virtq.{Virtqueue, Part, push_chain}
use field_os.Virtq.Chains.{AreChains-append}
use field_os.Virtq.Walk.{AreWords, walk, plain}
use field_os.Virtq.Single.{push_chain-single}
use field_os.Virtq.Push.{Pushed, push_chain_lem}
use field_os.Virtq.Device.{head-lt}
use field_os.Virtq.Driver.{Pushed-Holds}
use field_os.LinuxVirtio.Bridge.{linuxkpi_virtqueue_push_chain}
use field_os.LinuxVirtio.Queue.{
  Scatterlist, ShimVirtqueue, part_of, finish_add, push_entries, vq_add,
}
use field_os.LinuxVirtio.Queue.Buffers.{Agrees, tokens_of-update, off_others}

-- The push of a buffer of one to eight entries, whichever of the two functions makes it.
push_entries-push_chain :
    (q : Virtqueue) (sg : List Scatterlist) (sg_flags : ℕ)
    → 0 < length sg
    → length sg ≤ 8
    → push_entries q sg sg_flags ≡ push_chain q (map (part_of sg_flags) sg)
unfolding push_entries linuxkpi_virtqueue_push_chain
push_entries-push_chain q [] sg_flags pos few = absurd (omega arith)
push_entries-push_chain q (e ∷ []) sg_flags pos few = sym (push_chain-single q (part_of sg_flags e))
push_entries-push_chain q (e ∷ (f ∷ sg)) sg_flags pos few =
    let fits : (length (map (part_of sg_flags) (e ∷ (f ∷ sg))) == 0
          || ltb 8 (length (map (part_of sg_flags) (e ∷ (f ∷ sg)))))
        ≡ false =
      ground (arith, length-map sg (part_of sg_flags)) in
    rw fits refl

parts-AreWords :
    (sg : List Scatterlist) (sg_flags : ℕ)
    → sg_flags < 2 ^ 16
    → AreWords (map (part_of sg_flags) sg)
parts-AreWords [] sg_flags word = tt
parts-AreWords (e ∷ sg) sg_flags word = (word, parts-AreWords sg sg_flags word)

-- The state after a push of `sg` at `head`.
abbrev pub added : ShimVirtqueue → Virtqueue → ℕ → ℕ → ℕ → ShimVirtqueue
added vq q head token num = record vq {
  queue = q;
  tokens = update vq.tokens head token;
  num_free = vq.num_free - num;
}

-- A push that succeeded.
added-Agrees :
    (vq : ShimVirtqueue) (q : Virtqueue) (parts : List Part) (token head num : ℕ)
    (heads pending used : List ℕ) (agrees : Agrees vq heads pending used)
    → Pushed vq.queue q parts head agrees.free (agrees.device ++ agrees.done)
    → Agrees (added vq q head token num) (head ∷ heads) (token ∷ pending) used
added-Agrees vq q parts token head num heads pending used agrees pushed =
    let device = agrees.device in
    let done = agrees.done in
    let off =
      subst (λ h. occurs h (flatten (device ++ done)) ≡ 0) pushed.starts
        (off_others pushed.chain (device ++ done) pushed.owns) in
    let (on_device, on_done) = (AreChains-append q.desc device done).0 pushed.owns.chains.1 in
    let split = occurs-flatten-append head device done in
    record {
      free = pushed.rest;
      device = pushed.chain ∷ device;
      done = done;
      holds = Pushed-Holds vq.queue q parts head heads agrees.free device done pushed agrees.holds;
      sized = agrees.sized ∙ sym pushed.same_size;
      at_device =
          ap₂ ◌∷◌
            (ap (update vq.tokens head token) pushed.starts ∙ update_self vq.tokens head token)
            (tokens_of-update q.desc vq.tokens head token device on_device
                (omega (arith, split, off))
              ∙ agrees.at_device);
      at_driver =
          tokens_of-update q.desc vq.tokens head token done on_done (omega (arith, split, off))
          ∙ agrees.at_driver;
    }

-- `vq_add` took the buffer: the device reads its entries at `head`, whose token is the buffer's, and
-- the counts of free descriptors of the kernel's queue and of the driver's go down by its length.
pub record Added (vq vq' : ShimVirtqueue) (sg : List Scatterlist) (token sg_flags : ℕ)
    (heads pending used : List ℕ) : Type 0 where
  pub head : ℕ
  pub agrees : Agrees vq' (head ∷ heads) (token ∷ pending) used
  pub reads : walk vq'.queue.desc (length sg) head ≡ some (map plain (map (part_of sg_flags) sg))
  pub kernel_free : vq'.queue.num_free + length sg ≡ vq.queue.num_free
  pub driver_free : vq'.num_free ≡ vq.num_free - length sg
  pub published : vq'.queue.avail_ring (vq.queue.avail_idx % vq.queue.size) ≡ head

-- The result of the push, when the head is in the token array.
finish_add_lem :
    (vq : ShimVirtqueue) (num token head : ℕ) (q : Virtqueue)
    → head < vq.size
    → finish_add vq num token (some head, q) ≡ returned (true, added vq q head token num)
unfolding finish_add
finish_add_lem vq num token head q small =
    let within : leb vq.size head ≡ false = ground arith in rw within refl

Pushed-Added :
    (vq : ShimVirtqueue) (q : Virtqueue) (sg : List Scatterlist) (token sg_flags head : ℕ)
    (heads pending used : List ℕ) (agrees : Agrees vq heads pending used)
    → Pushed vq.queue q (map (part_of sg_flags) sg) head agrees.free (agrees.device ++ agrees.done)
    → Added vq (added vq q head token (length sg)) sg token sg_flags heads pending used
Pushed-Added vq q sg token sg_flags head heads pending used agrees pushed =
    let parts = map (part_of sg_flags) sg in
    let as_long = length-map sg (part_of sg_flags) in
    record {
      head = head;
      agrees = added-Agrees vq q parts token head (length sg) heads pending used agrees pushed;
      reads = subst (λ n. walk q.desc n head ≡ some (map plain parts)) as_long pushed.reads;
      kernel_free = omega (
        arith,
        pushed.owns.counted,
        agrees.holds.owns.counted,
        pushed.as_long,
        as_long,
        ap length pushed.taken,
        length-append pushed.chain pushed.rest,
      );
      driver_free = refl;
      published =
          rw pushed.ring
            (update_self vq.queue.avail_ring (vq.queue.avail_idx % vq.queue.size) head);
    }

-- On a queue whose buffers have the tokens `pending` and `used`, and for flags that are a word:
-- `vq_add` never panics; it returns -1 and changes nothing if the buffer has no entry, more than
-- eight, or more than the kernel's queue has free descriptors; and else it returns 0, the device
-- reads the entries in order, and the buffer's token is the newest of the pending ones.
pub vq_add_lem :
    (vq : ShimVirtqueue) (sg : List Scatterlist) (token sg_flags : ℕ) (heads pending used : List ℕ)
    → Agrees vq heads pending used
    → sg_flags < 2 ^ 16
    → ((vq_add vq sg token sg_flags ≡ returned (false, vq))
        × ((length sg ≡ 0) ⊎ (8 < length sg) ⊎ (vq.queue.num_free < length sg)))
      ⊎ ((0 < length sg)
          × (length sg ≤ 8)
          × (length sg ≤ vq.queue.num_free)
          × (vq' : ShimVirtqueue) × (vq_add vq sg token sg_flags ≡ returned (true, vq'))
          × Added vq vq' sg token sg_flags heads pending used)
unfolding vq_add
vq_add_lem vq sg token sg_flags heads pending used agrees word =
    let parts = map (part_of sg_flags) sg in
    let as_long = length-map sg (part_of sg_flags) in
    elim (Bool-cases ((length sg == 0) || ltb 8 (length sg))) [
      | inl bad ↦ inl (rw bad refl, ground arith)
      | inr good ↦
          let pos : 0 < length sg = ground arith in
          let few : length sg ≤ 8 = ground arith in
          let same = push_entries-push_chain vq.queue sg sg_flags pos few in
          let owns = agrees.holds.owns in
          elim (push_chain_lem vq.queue parts agrees.free (agrees.device ++ agrees.done) owns
            (parts-AreWords sg sg_flags word) (omega (arith, as_long))) [
              | inl (e, why) ↦ inl (
                rw (good, same, e) (unfold finish_add in refl),
                ground (arith, owns.counted, as_long),
              )
              | inr (inl (e, many, room)) ↦ absurd (omega (arith, as_long))
              | inr (inr (head, q, e, pushed)) ↦
                  let more =
                    Pushed-Added vq q sg token sg_flags head heads pending used agrees pushed in
                  let small : head < vq.size =
                    subst (λ h. h < vq.size) pushed.starts
                      (rw agrees.sized (
                        rw (sym pushed.same_size)
                          (head-lt [] (agrees.device ++ agrees.done) pushed.chain pushed.owns))) in
                  inr (
                    pos,
                    few,
                    omega (arith, more.kernel_free),
                    added vq q head token (length sg),
                    rw (good, same, e) (finish_add_lem vq (length sg) token head q small),
                    more,
                  )
            ]
    ]
