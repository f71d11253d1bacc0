-- ===== src/Virtq/Driver.antt =====
-- The driver's steps, and what holds of every reachable state of a queue.
use field_os.Prelude.{
  ℕ, ◌+◌, ◌%◌, ◌^◌, ◌<◌, ◌≡◌, ◌≢◌, sym, ap₂, subst₂, subst, arith, List, [], ◌∷◌, ◌++◌, Option,
  none, some, inl, inr, length, length-append,
}
use field_os.Prelude.Outcome.{returned}
use field_os.Virtq.{UsedElem, Part, Virtqueue, next_of, push_chain, pop_used}
use field_os.Virtq.Chains.{AreChains-append}
use field_os.Virtq.Walk.{AreWords}
use field_os.Virtq.Push.{Owns, Pushed, push_chain_lem}
use field_os.Virtq.Reclaim.{rev_onto}
use field_os.Virtq.Pop.{pop_used_lem}
use field_os.Virtq.System.{State, Step, push, use_chain, pop, Reach, here, next, Holds, IsSound}
use field_os.Virtq.Device.{head-lt, length-le-flatten, use_chain-Holds}

push_chain-Pushed :
    (q q' : Virtqueue) (parts : List Part) (head : ℕ) (free : List ℕ) (held : List (List ℕ))
    → Owns q free held
    → AreWords parts
    → length parts < 2 ^ 16
    → push_chain q parts ≡ returned (some head, q')
    → Pushed q q' parts head free held
push_chain-Pushed q q' parts head free held owns words few ok =
    elim (push_chain_lem q parts free held owns words few) [
      | inl (e, why) ↦ cc
      | inr (inl (e, many, room)) ↦ cc
      | inr (inr (head', q'', e, pushed)) ↦
          let eh : head' ≡ head = cc in
          let eq : q'' ≡ q' = cc in subst₂ (λ h t. Pushed q t parts h free held) eh eq pushed
    ]

pub Pushed-Holds :
    (q q' : Virtqueue) (parts : List Part) (head : ℕ) (heads free : List ℕ)
    (device done : List (List ℕ))
    → (pushed : Pushed q q' parts head free (device ++ done)) → Holds q heads free device done
    → Holds q' (head ∷ heads) pushed.rest (pushed.chain ∷ device) done
Pushed-Holds q q' parts head heads free device done pushed holds = record {
  divides = rw pushed.same_size holds.divides;
  owns = pushed.owns;
  small_idx = omega (arith, pushed.device.1, holds.small_idx);
  used_idx = rw (pushed.device.0, pushed.device.1) holds.used_idx;
  ring = rw (pushed.same_size, pushed.used, pushed.device.1) holds.ring;
  at_device = ap₂ ◌∷◌ (sym pushed.starts) holds.at_device;
}

push-Holds :
    (q q' : Virtqueue) (parts : List Part) (head : ℕ) (heads free : List ℕ)
    (device done : List (List ℕ))
    → AreWords parts
    → length parts < 2 ^ 16
    → push_chain q parts ≡ returned (some head, q')
    → Holds q heads free device done
    → (chain : List ℕ) × (rest : List ℕ) × Holds q' (head ∷ heads) rest (chain ∷ device) done
push-Holds q q' parts head heads free device done words few ok holds =
    let pushed = push_chain-Pushed q q' parts head free (device ++ done) holds.owns words few ok in
    (pushed.chain, pushed.rest, Pushed-Holds q q' parts head heads free device done pushed holds)

-- On a queue on which nothing is used and not yet popped, `pop_used` returns `None` and changes
-- nothing.
pub pop_used-none :
    (fuel : ℕ) (q : Virtqueue) (heads free : List ℕ) (device : List (List ℕ))
    → Holds q heads free device []
    → pop_used fuel q ≡ some (none, q)
unfolding pop_used
pop_used-none fuel q heads free device holds = ground (arith, holds.used_idx, holds.small_idx)

-- On a queue with used chains that were not yet popped, `pop_used` returns the entry of the used ring
-- at its cursor, id and length as they stand there, within as many rounds as the queue has
-- descriptors; the id is the head of the oldest of these chains, the cursor moves on by one, and that
-- chain is free again.
pub pop_used-oldest :
    (q : Virtqueue) (heads free : List ℕ) (device done : List (List ℕ)) (c : List ℕ)
    → Holds q heads free device (c ∷ done)
    → (q' : Virtqueue) × (pop_used q.size q
        ≡ some (some (q.used_ring (q.last_used_idx % q.size)), q'))
      × ((q.used_ring (q.last_used_idx % q.size)).id ≡ next_of c)
      × (q'.last_used_idx ≡ (q.last_used_idx + 1) % 2 ^ 16)
      × Holds q' heads (rev_onto c free) device done
pop_used-oldest q heads free device done [] holds =
    absurd ((AreChains-append q.desc device ([] ∷ done)).0 holds.owns.chains).1.0
pop_used-oldest q heads free device done (x ∷ xs) holds =
    let owns = holds.owns in
    let few = length-le-flatten q.desc (device ++ ((x ∷ xs) ∷ done)) owns.chains in
    let fresh : q.used_idx ≢ q.last_used_idx = λ e. omega (
      arith,
      few,
      owns.total,
      owns.small,
      holds.used_idx,
      holds.small_idx,
      length-append device ((x ∷ xs) ∷ done),
    ) in
    let id : (q.used_ring (q.last_used_idx % q.size)).id % 2 ^ 16 ≡ x =
      omega (arith, holds.ring.0, head-lt device done (x ∷ xs) owns, owns.small) in
    let (q', e, popped) = pop_used_lem q x xs free device done owns fresh id in
    (
      q',
      e,
      holds.ring.0,
      popped.last,
      record {
        divides = rw popped.same_size holds.divides;
        owns = popped.owns;
        small_idx = omega (arith, popped.last);
        used_idx = rw (popped.used.0, popped.last) (omega (arith, holds.used_idx));
        ring = rw (popped.same_size, popped.used.1, popped.last) holds.ring.1;
        at_device = holds.at_device;
      },
    )

-- What `pop_used` does on a queue on which the chains `done` are used and not yet popped.
abbrev pub Popped :
    Virtqueue
    → List ℕ
    → List ℕ
    → List (List ℕ)
    → List (List ℕ)
    → Option (Option UsedElem × Virtqueue)
    → Type 0
Popped q heads free device [] r = r ≡ some (none, q)
Popped q heads free device (c ∷ done) r =
    (q' : Virtqueue) × (r ≡ some (some (q.used_ring (q.last_used_idx % q.size)), q'))
    × ((q.used_ring (q.last_used_idx % q.size)).id ≡ next_of c)
    × (q'.last_used_idx ≡ (q.last_used_idx + 1) % 2 ^ 16)
    × Holds q' heads (rev_onto c free) device done

-- When nothing is used and not yet popped, `pop_used` returns `None` and changes nothing. Otherwise it
-- returns the entry of the used ring at its cursor, id and length as they stand there, within as many
-- rounds as the queue has descriptors; the id is the head of the oldest of the used chains, the cursor
-- moves on by one, modulo 2^16, and that chain is free again.
pub pop_used-Popped :
    (q : Virtqueue) (heads free : List ℕ) (device done : List (List ℕ))
    → Holds q heads free device done
    → Popped q heads free device done (pop_used q.size q)
pop_used-Popped q heads free device [] holds = pop_used-none q.size q heads free device holds
pop_used-Popped q heads free device (c ∷ done) holds =
    pop_used-oldest q heads free device done c holds

pop-Holds :
    (q q' : Virtqueue) (elem : UsedElem) (heads free : List ℕ) (device done : List (List ℕ))
    → pop_used q.size q ≡ some (some elem, q')
    → Holds q heads free device done
    → (free' : List ℕ) × (done' : List (List ℕ)) × Holds q' heads free' device done'
pop-Holds q q' elem heads free device [] e holds =
    let e' = pop_used-none q.size q heads free device holds in cc
pop-Holds q q' elem heads free device (c ∷ done) e holds =
    let (q'', e', id, last, holds') = pop_used-oldest q heads free device done c holds in
    let same : q'' ≡ q' = cc in
    (rev_onto c free, done, subst (λ t. Holds t heads (rev_onto c free) device done) same holds')

Step-IsSound : {s t : State} → Step s t → IsSound s → IsSound t
Step-IsSound (push {q} {q'} {heads} parts head words few ok) sound =
    let (chain, rest, holds) =
      push-Holds q q' parts head heads sound.free sound.device sound.done words few ok
        sound.holds in
    record { free = rest; device = chain ∷ sound.device; done = sound.done; holds = holds }
Step-IsSound (use_chain {q} {heads} {heads'} before after elem e e') sound =
    let (bs, c, cs, split, holds) =
      use_chain-Holds q heads heads' before after sound.free sound.device sound.done elem e e'
        sound.holds in
    record { free = sound.free; device = bs ++ cs; done = sound.done ++ (c ∷ []); holds = holds }
Step-IsSound (pop {q} {q'} {heads} elem e) sound =
    let (free', done', holds) =
      pop-Holds q q' elem heads sound.free sound.device sound.done e sound.holds in
    record { free = free'; device = sound.device; done = done'; holds = holds }

-- From a sound state, whatever the driver pushes and pops, and in whatever order the device uses the chains that it
-- was given: every descriptor stays on the free list or on one chain, and the used ring holds the
-- used chains in order.
pub Reach-IsSound : {s t : State} → Reach s t → IsSound s → IsSound t
Reach-IsSound here sound = sound
Reach-IsSound (next r st) sound = Step-IsSound st (Reach-IsSound r sound)
