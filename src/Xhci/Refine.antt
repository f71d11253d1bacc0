-- ===== src/Xhci/Refine.antt =====
-- The controller and the consumer together behave as a queue.
use field_os.Prelude.{
  ℕ, ◌+◌, ◌%◌, ◌<◌, ◌≡◌, refl, sym, subst, ap, ap₂, none, ◌∙◌, arith, List, [], ◌∷◌, ◌++◌, some,
  Bool-cases, inl, inr, ltb, length, drop,
}
use field_os.Xhci.{Trb, advance, try_event}
use field_os.Xhci.EventRing.{
  Shared, post, post_all, take, Op, posts, takes, run, queue_post, queue_posts, type_of, code_of,
  HasCodes, codes_take, codes_post, codes_posts, codes_next, answer, run_queue, Sees, Holds,
}
use field_os.Xhci.Fifo.{
  try_event-none, try_event-late, Sees-code, advance-Sees, advance_base, advance_deq, advance_ccs,
  advance-freed,
}
use field_os.Xhci.Post.{post_full, post_room, post-Holds}

post_refines :
    (s : Shared) (t : Trb) (ts : List Trb) → Holds s ts → Holds (post s t) (queue_post ts t)
post_refines s t ts holds = elim (Bool-cases (ltb (length ts) 15)) [
  | inl room ↦ rw room (post-Holds s t ts holds (ground arith))
  | inr full ↦ let e = post_full s t ts holds (ground (arith, holds.sees.few)) in rw (full, e) holds
]

post_all_refines :
    (s : Shared) (ms ts : List Trb) → Holds s ts → Holds (post_all s ms) (queue_posts ts ms)
unfolding post_all
post_all_refines s [] ts holds = holds
post_all_refines s (m ∷ ms) ts holds =
    post_all_refines (post s m) ms (queue_post ts m) (post_refines s m ts holds)

-- Posting leaves the consumer alone, and the oldest pending block where it is.
post-consumer : (s : Shared) (t : Trb) → (post s t).consumer ≡ s.consumer
unfolding post
post-consumer s t = ground arith

post_all-consumer : (s : Shared) (ms : List Trb) → (post_all s ms).consumer ≡ s.consumer
unfolding post_all
post_all-consumer s [] = refl
post_all-consumer s (m ∷ ms) = post_all-consumer (post s m) ms ∙ post-consumer s m

queue_post-cons : (t m : Trb) (ts : List Trb) → (us : List Trb) × (queue_post (t ∷ ts) m ≡ t ∷ us)
queue_post-cons t m ts = elim (Bool-cases (ltb (length (t ∷ ts)) 15)) [
  | inl room ↦ (ts ++ (m ∷ []), rw room refl)
  | inr full ↦ (ts, rw full refl)
]

queue_posts-cons :
    (t : Trb) (ts ms : List Trb) → queue_posts (t ∷ ts) ms ≡ t ∷ drop 1 (queue_posts (t ∷ ts) ms)
queue_posts-cons t ts [] = refl
queue_posts-cons t ts (m ∷ ms) =
    let (us, e) = queue_post-cons t m ts in rw e (queue_posts-cons t us ms)

-- What a call leaves: the blocks posted during it, and the consumer one block further.
taken : Shared → Shared
taken s = record s { consumer = advance s.consumer }

taken-Holds : (s : Shared) (t : Trb) (ts : List Trb) → Holds s (t ∷ ts) → Holds (taken s) ts
unfolding taken
taken-Holds s t ts holds =
    let deq = advance_deq s.consumer holds.sees.deq_small in
    let ccs = advance_ccs s.consumer holds.sees.bit in
    record {
      sees = advance-Sees s.ring s.consumer t ts holds.sees;
      aligned = rw (advance_base s.consumer) holds.aligned;
      fits = rw (advance_base s.consumer) holds.fits;
      freed = advance-freed s.consumer holds.sees.deq_small holds.aligned holds.fits;
      at = omega (arith, holds.at, deq);
      pass = ground (arith, holds.pass, deq, ccs, holds.sees.few, holds.sees.bit);
    }

-- The codes in the slots, as blocks are posted and as the consumer goes on.
post-HasCodes :
    (s : Shared) (t : Trb) (ts : List Trb) (codes : ℕ → ℕ)
    → Holds s ts
    → HasCodes s codes
    → HasCodes (post s t) (codes_post codes (length ts) t)
post-HasCodes s t ts codes holds has k small = elim (Bool-cases (ltb (length ts) 15)) [
  | inl room ↦
      rw (room, post_room s t ts holds (ground arith))
        (ground (arith, holds.at, has k small, holds.sees.deq_small))
  | inr full ↦
      let e = post_full s t ts holds (ground (arith, holds.sees.few)) in rw (full, e) (has k small)
]

post_all-HasCodes :
    (s : Shared) (ms ts : List Trb) (codes : ℕ → ℕ)
    → Holds s ts
    → HasCodes s codes
    → HasCodes (post_all s ms) (codes_posts codes ts ms)
unfolding post_all
post_all-HasCodes s [] ts codes holds has = has
post_all-HasCodes s (m ∷ ms) ts codes holds has =
    post_all-HasCodes (post s m) ms (queue_post ts m) (codes_post codes (length ts) m)
      (post_refines s m ts holds) (post-HasCodes s m ts codes holds has)

taken-HasCodes :
    (s : Shared) (codes : ℕ → ℕ)
    → s.consumer.event_deq < 16
    → HasCodes s codes
    → HasCodes (taken s) (codes_next codes)
unfolding taken
taken-HasCodes s codes deq_small has k small =
    let deq = advance_deq s.consumer deq_small in
    let e : ((advance s.consumer).event_deq + k) % 16 ≡ (s.consumer.event_deq + (k + 1) % 16) % 16 =
      omega (arith, deq, deq_small, small) in
    rw e (has ((k + 1) % 16) (omega arith))

-- A call that finds the block `t` at its second read.
take-cons :
    (s : Shared) (ms : List Trb) (t : Trb) (us : List Trb) (event : ℕ × ℕ) (codes : ℕ → ℕ)
    → try_event s.ring (post_all s ms).ring s.consumer ≡ (some event, advance s.consumer)
    → Holds (post_all s ms) (t ∷ us)
    → HasCodes (post_all s ms) codes
    → ((take s ms).0 ≡ some event)
      × Holds (take s ms).1 us
      × HasCodes (take s ms).1 (codes_next codes)
unfolding take taken
take-cons s ms t us event codes e holds has =
    let same : taken (post_all s ms) ≡ (take s ms).1 =
      ap (λ c. record (post_all s ms) { consumer = c })
        (ap advance (post_all-consumer s ms) ∙ ap (λ r. r.1) (sym e)) in
    (
      ap (λ r. r.0) e,
      subst (λ s'. Holds s' us) same (taken-Holds (post_all s ms) t us holds),
      subst (λ s'. HasCodes s' (codes_next codes)) same
          (taken-HasCodes (post_all s ms) codes holds.sees.deq_small has),
    )

-- A call that finds the block `t` at its second read, and the code `code` at its first.
take-late :
    (s : Shared) (ms ts : List Trb) (t : Trb) (us : List Trb) (codes : ℕ → ℕ) (code : ℕ)
    → Holds s ts
    → HasCodes s codes
    → queue_posts ts ms ≡ t ∷ us
    → code_of (s.ring s.consumer.event_deq) ≡ code
    → ((take s ms).0 ≡ some (type_of t, code))
      × Holds (take s ms).1 (drop 1 (queue_posts ts ms))
      × HasCodes (take s ms).1 (codes_take (queue_posts ts ms) (codes_posts codes ts ms))
take-late s ms ts t us codes code holds has there known =
    let held : Holds (post_all s ms) (t ∷ us) =
      subst (Holds (post_all s ms)) there (post_all_refines s ms ts holds) in
    let sees =
      subst (λ c. Sees (post_all s ms).ring c (t ∷ us)) (post_all-consumer s ms) held.sees in
    let e =
      try_event-late s.ring (post_all s ms).ring s.consumer t us sees
      ∙ ap (λ code. (some (type_of t, code), advance s.consumer)) known in
    rw there (
      take-cons s ms t us (type_of t, code) (codes_posts codes ts ms) e held
        (post_all-HasCodes s ms ts codes holds has))

first_code :
    (s : Shared) (codes : ℕ → ℕ)
    → s.consumer.event_deq < 16
    → HasCodes s codes
    → code_of (s.ring s.consumer.event_deq) ≡ codes 0
first_code s codes deq_small has =
    let e : (s.consumer.event_deq + 0) % 16 ≡ s.consumer.event_deq = omega (arith, deq_small) in
    subst (λ i. code_of (s.ring i) ≡ codes 0) e (has 0 (omega arith))

take_refines :
    (s : Shared) (ms ts : List Trb) (codes : ℕ → ℕ)
    → Holds s ts
    → HasCodes s codes
    → ((take s ms).0 ≡ answer ts codes ms)
      × Holds (take s ms).1 (drop 1 (queue_posts ts ms))
      × HasCodes (take s ms).1 (codes_take (queue_posts ts ms) (codes_posts codes ts ms))
take_refines s [] [] codes holds has =
    let e : take s [] ≡ (none, s) =
      unfold take post_all in rw (try_event-none s.ring s.ring s.consumer holds.sees) refl in
    rw e (refl, holds, has)
take_refines s (m ∷ ms) [] codes holds has =
    take-late s (m ∷ ms) [] m (drop 1 (queue_posts (m ∷ []) ms)) codes (codes 0) holds has
      (queue_posts-cons m [] ms) (first_code s codes holds.sees.deq_small has)
take_refines s ms (t ∷ ts) codes holds has =
    take-late s ms (t ∷ ts) t (drop 1 (queue_posts (t ∷ ts) ms)) codes (code_of t) holds has
      (queue_posts-cons t ts ms) (Sees-code s.ring s.consumer t ts holds.sees)

-- From a state in which the controller and the consumer agree on the pending blocks, with the codes
-- `codes` in the slots: whatever blocks the controller posts, before, after and during calls of
-- `try_event`, the calls give one event for each block, in the order in which the blocks were posted,
-- as a queue of at most fifteen blocks does, however often the ring starts over, and `None` when no
-- block is pending. The type of an event is the one of its block, and so is the completion code if
-- the block was pending when the call began. When nothing was pending and a block comes between the
-- two reads of the call, the completion code is the one that was in its slot before.
pub run_refines :
    (ops : List Op) (s : Shared) (ts : List Trb) (codes : ℕ → ℕ)
    → Holds s ts
    → HasCodes s codes
    → run ops s ≡ run_queue ops ts codes
unfolding run
run_refines [] s ts codes holds has = refl
run_refines (posts t ∷ ops) s ts codes holds has =
    run_refines ops (post s t) (queue_post ts t) (codes_post codes (length ts) t)
      (post_refines s t ts holds) (post-HasCodes s t ts codes holds has)
run_refines (takes ms ∷ ops) s ts codes holds has =
    let (same, holds', has') = take_refines s ms ts codes holds has in
    let there = queue_posts ts ms in
    ap₂ ◌∷◌ same (
      run_refines ops (take s ms).1 (drop 1 there) (codes_take there (codes_posts codes ts ms))
        holds' has')
