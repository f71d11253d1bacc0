-- ===== src/LinuxVirtio/Queue/Get.antt =====
-- A buffer that the driver gets back.
use field_os.Prelude.{
  ℕ, ◌%◌, ◌+◌, ◌<◌, ◌≡◌, refl, ap, ◌∙◌, subst, arith, false, List, [], ◌∷◌, ◌++◌, none, some, leb,
  occurs, flatten, occurs-flatten-append, length, update, cons_head, cons_tail,
  length-flatten-append, length-append,
}
use field_os.Prelude.Outcome.{returned}
use field_os.Virtq.{pop_used, Desc, Virtqueue, UsedElem, next_of}
use field_os.Virtq.Chains.{IsChain, AreChains-append}
use field_os.Virtq.Reclaim.{rev_onto, occurs-rev_onto, length-rev_onto}
use field_os.Virtq.System.{Holds}
use field_os.Virtq.Device.{head-lt}
use field_os.Virtq.Driver.{pop_used-none, pop_used-oldest}
use field_os.LinuxVirtio.Queue.{ShimVirtqueue, add_sat, take_token, after_pop, virtqueue_get_buf}
use field_os.LinuxVirtio.Queue.Buffers.{tokens_of, Agrees, tokens_of-update}

-- The state after a pop of the element `id`.
abbrev pub taken : ShimVirtqueue → Virtqueue → ℕ → ShimVirtqueue
taken vq q id = record vq {
  queue = q;
  tokens = update vq.tokens id 0;
  num_free = add_sat vq.num_free 1;
}

-- What the end of `virtqueue_get_buf` does with an element whose id is in the token array.
take_token_lem :
    (vq : ShimVirtqueue) (elem : UsedElem) (q : Virtqueue)
    → elem.id < vq.size
    → take_token vq (some elem, q)
      ≡ returned (some (vq.tokens elem.id, elem.len), taken vq q elem.id)
unfolding take_token
take_token_lem vq elem q small =
    let within : leb vq.size elem.id ≡ false = ground arith in rw within refl

none_done : (tokens : ℕ → ℕ) (done : List (List ℕ)) → tokens_of tokens done ≡ [] → done ≡ []
none_done tokens [] e = refl
none_done tokens (c ∷ done) e = cc

some_done :
    (tokens : ℕ → ℕ) (done : List (List ℕ)) (t : ℕ) (used : List ℕ)
    → tokens_of tokens done ≡ t ∷ used
    → (c : List ℕ) × (rest : List (List ℕ)) × (done ≡ c ∷ rest)
some_done tokens [] t used e = cc
some_done tokens (c ∷ done) t used e = (c, done, refl)

chain_pos : (d : ℕ → Desc) (c : List ℕ) → IsChain d c → 0 < length c
chain_pos d [] chain = absurd chain
chain_pos d (x ∷ c) chain = omega arith

-- On a queue whose buffers have the tokens `pending`, and none of which is used and not yet got
-- back, `virtqueue_get_buf` returns null and changes nothing.
pub get_buf-none :
    (vq : ShimVirtqueue) (heads pending : List ℕ) (fuel : ℕ)
    → Agrees vq heads pending []
    → virtqueue_get_buf fuel vq ≡ some (returned (none, vq))
unfolding virtqueue_get_buf after_pop take_token
get_buf-none vq heads pending fuel agrees =
    let holds =
      subst (Holds vq.queue heads agrees.free agrees.device)
        (none_done vq.tokens agrees.done agrees.at_driver) agrees.holds in
    rw (pop_used-none fuel vq.queue heads agrees.free agrees.device holds) refl

got-Agrees :
    (vq : ShimVirtqueue) (q : Virtqueue) (id : ℕ) (heads pending used : List ℕ) (free c : List ℕ)
    (device done : List (List ℕ))
    → id ≡ next_of c
    → 0 < length c
    → vq.size ≡ q.size
    → Holds q heads (rev_onto c free) device done
    → tokens_of vq.tokens device ≡ pending
    → tokens_of vq.tokens done ≡ used
    → Agrees (taken vq q id) heads pending used
got-Agrees vq q id heads pending used free [] device done e pos sized holds pend us =
    absurd (omega arith)
got-Agrees vq q id heads pending used free (x ∷ c) device done e pos sized holds pend us =
    let (on_device, on_done) = (AreChains-append q.desc device done).0 holds.owns.chains in
    let split = occurs-flatten-append id device done in
    let off : occurs id (flatten (device ++ done)) ≡ 0 =
      ground (arith, holds.owns.once id, occurs-rev_onto id (x ∷ c) free) in
    record {
      free = rev_onto (x ∷ c) free;
      device = device;
      done = done;
      holds = holds;
      sized = sized;
      at_device =
          tokens_of-update q.desc vq.tokens id 0 device on_device (omega (arith, split, off))
          ∙ pend;
      at_driver =
          tokens_of-update q.desc vq.tokens id 0 done on_done (omega (arith, split, off)) ∙ us;
    }

-- `virtqueue_get_buf` gave the oldest used buffer's token `t` back: the kernel's queue has the
-- `count` descriptors of its chain again, and the driver's count goes up by one.
pub record Got (vq : ShimVirtqueue) (t : ℕ) (heads pending used : List ℕ) : Type 0 where
  pub len : ℕ
  pub vq' : ShimVirtqueue
  pub result : virtqueue_get_buf vq.size vq ≡ some (returned (some (t, len), vq'))
  pub agrees : Agrees vq' heads pending used
  pub count : ℕ
  pub some_freed : 0 < count
  pub kernel_free : vq'.queue.num_free ≡ vq.queue.num_free + count
  pub driver_free : vq'.num_free ≡ add_sat vq.num_free 1

Popped-Got :
    (vq : ShimVirtqueue) (t : ℕ) (heads pending used : List ℕ) (free c : List ℕ)
    (device done : List (List ℕ))
    → Holds vq.queue heads free device (c ∷ done)
    → vq.size ≡ vq.queue.size
    → tokens_of vq.tokens device ≡ pending
    → tokens_of vq.tokens (c ∷ done) ≡ t ∷ used
    → Got vq t heads pending used
unfolding virtqueue_get_buf after_pop
Popped-Got vq t heads pending used free c device done holds sized pend us =
    let elem = vq.queue.used_ring (vq.queue.last_used_idx % vq.queue.size) in
    let (q, e, id, last, holds') = pop_used-oldest vq.queue heads free device done c holds in
    let owns = holds.owns in
    let owns' = holds'.owns in
    let chain = ((AreChains-append vq.queue.desc device (c ∷ done)).0 owns.chains).1.0 in
    let pos = chain_pos vq.queue.desc c chain in
    let longer = length-rev_onto c free in
    let same_size : vq.queue.size ≡ q.size = omega (
      arith,
      owns.total,
      owns'.total,
      longer,
      length-flatten-append device (c ∷ done),
      length-flatten-append device done,
      length-append c (flatten done),
    ) in
    let small : elem.id < vq.size = rw (id, sized) (head-lt device done c owns) in
    let token : vq.tokens elem.id ≡ t = ap vq.tokens id ∙ cons_head us in
    record {
      len = elem.len;
      vq' = taken vq q elem.id;
      result =
          ap (after_pop vq) (ap (λ n. pop_used n vq.queue) sized ∙ e)
          ∙ ap some (
              take_token_lem vq elem q small
              ∙ ap (λ k. returned (some (k, elem.len), taken vq q elem.id)) token);
      agrees =
          got-Agrees vq q elem.id heads pending used free c device done id pos (sized ∙ same_size)
            holds' pend (cons_tail us);
      count = length c;
      some_freed = pos;
      kernel_free = omega (arith, owns.counted, owns'.counted, longer);
      driver_free = refl;
    }

-- On a queue whose oldest used buffer has the token `t`, `virtqueue_get_buf` returns `t`, within as
-- many rounds as the queue has descriptors; the other buffers stay as they are.
pub get_buf-Got :
    (vq : ShimVirtqueue) (t : ℕ) (heads pending used : List ℕ)
    → Agrees vq heads pending (t ∷ used)
    → Got vq t heads pending used
get_buf-Got vq t heads pending used agrees =
    let (c, done, e) = some_done vq.tokens agrees.done t used agrees.at_driver in
    let at = subst (λ ds. tokens_of vq.tokens ds ≡ t ∷ used) e agrees.at_driver in
    let holds = subst (Holds vq.queue heads agrees.free agrees.device) e agrees.holds in
    Popped-Got vq t heads pending used agrees.free c agrees.device done holds agrees.sized
      agrees.at_device at
