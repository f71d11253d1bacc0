-- ===== src/Nvme/Commands.antt =====
-- Commands that are submitted and polled for, one after the other.
use native.Mathlib.Nat.{mod-eq_of_lt, mod_self, mod-lt}
use field_os.Prelude.{
  ℕ, zero, suc, ◌+◌, ◌-◌, ◌*◌, ◌/◌, ◌%◌, ◌^◌, ◌<◌, ◌≤◌, ◌≡◌, ◌≢◌, ◌⊎◌, inl, inr, refl, sym, ap, ◌∙◌,
  arith, bit_xor, List, [], ◌∷◌, Bool-cases, true, false, ltb, ◌==◌, if◌then◌else◌, update_self,
}
use field_os.Prelude.Bits.{bit_or_below}
use field_os.Prelude.Outcome.{returned}
use field_os.Nvme.{
  SqEntry, NvmeQueue, Command, sqe_of, Submitted, Polled, submit_qe, consume, poll_from, poll_qe,
  csts_poll_limit,
}
use field_os.Nvme.Device.{Device, complete, Job, seen, run, Synced}

-- The position after `i` in a ring of `size` slots.
next_within : (i size : ℕ) → i + 1 < size → (i + 1) % size ≡ i + 1
next_within i size h = mod-eq_of_lt h

next_wraps : (i size : ℕ) → i + 1 ≡ size → (i + 1) % size ≡ 0
next_wraps i size h = rw h (mod_self size)

flip : (p : ℕ) → p ≤ 1 → bit_xor p 1 ≡ 1 - p
flip zero h = refl
flip (suc zero) h = refl
flip (suc (suc p)) h = absurd (omega arith)

-- Polling, when the completion is there from the round `delay` on.
poll_from_lem :
    (d d' : Device) (delay dstrd : ℕ) (q : NvmeQueue) (cid gap left i : ℕ)
    → (d.cq q.cq_head).status % 2 ≢ q.cq_phase
    → (d'.cq q.cq_head).status % 2 ≡ q.cq_phase
    → (d'.cq q.cq_head).cid ≡ cid
    → i + gap ≡ delay
    → gap < left
    → poll_from left (seen d d' delay) dstrd q cid i ≡ returned (consume dstrd q (d'.cq q.cq_head))
unfolding poll_from
poll_from_lem d d' delay dstrd q cid gap zero i stale hit same e few = absurd (omega arith)
poll_from_lem d d' delay dstrd q cid zero (suc left) i stale hit same e few =
    let now : ltb i delay ≡ false = ground arith in
    let found : ((d'.cq q.cq_head).status % 2 == q.cq_phase) ≡ true = ground (arith, hit) in
    let mine : ((d'.cq q.cq_head).cid == cid) ≡ true = ground (arith, same) in
    rw (now, found, mine) refl
poll_from_lem d d' delay dstrd q cid (suc gap) (suc left) i stale hit same e few =
    let later : ltb i delay ≡ true = ground arith in
    let missed : ((d.cq q.cq_head).status % 2 == q.cq_phase) ≡ false = ground (arith, stale) in
    rw (later, missed)
      (poll_from_lem d d' delay dstrd q cid gap left (i + 1) stale hit same (omega arith)
        (omega arith))

-- The command id comes back out of the entry.
sqe_of-cid : (cid : ℕ) (c : Command) → c.opc < 2 ^ 16 → (sqe_of cid c).cdw0 / 2 ^ 16 ≡ cid
sqe_of-cid cid c small = omega (arith, bit_or_below 16 cid c.opc small)

-- One command.
module _ (dstrd : ℕ) (q : NvmeQueue) (d : Device) (j : Job) (synced : Synced q d) where
  abbrev s : Submitted
  s = submit_qe dstrd q j.command

  abbrev d' : Device
  d' = complete s.queue d j.status

  abbrev p : Polled
  p = consume dstrd s.queue (d'.cq q.cq_head)

  -- What the completion queue holds afterwards.
  entry_at :
      (i : ℕ)
      → ((i ≡ q.cq_head) × ((d'.cq i).status ≡ j.status * 2 + q.cq_phase))
        ⊎ ((i ≢ q.cq_head) × ((d'.cq i).status ≡ (d.cq i).status))
  unfolding complete submit_qe
  entry_at i = elim (Bool-cases (d.cq_tail == i)) [
    | inl here ↦
        inl
          (ground (arith, synced.same_tail), rw here (ap (λ t. j.status * 2 + t) synced.same_phase))
    | inr other ↦ inr (ground (arith, synced.same_tail), rw other refl)
  ]

  -- Both sides move on by one, and flip the phase where they start over.
  moves :
      (p.queue.cq_head ≡ (q.cq_head + 1) % q.size)
      × (d'.cq_tail ≡ (q.cq_head + 1) % q.size)
      × (p.queue.cq_phase ≡ (if (q.cq_head + 1) % q.size == 0 then 1 - q.cq_phase else q.cq_phase))
      × (d'.phase ≡ (if (q.cq_head + 1) % q.size == 0 then 1 - q.cq_phase else q.cq_phase))
  unfolding complete submit_qe consume
  moves =
      rw (synced.same_tail, synced.same_phase, flip q.cq_phase synced.phase_bit)
        (refl, refl, refl, refl)

  sends :
      (p.queue.sq_tail ≡ (q.sq_tail + 1) % q.size)
      × (d'.sq_head ≡ (q.sq_tail + 1) % q.size)
      × (p.queue.next_cid ≡ (q.next_cid + 1) % 2 ^ 16)
      × (p.queue.size ≡ q.size)
  unfolding complete submit_qe consume
  sends = rw synced.same_head (refl, refl, refl, refl)

  consumed-Synced : Synced p.queue d'
  consumed-Synced =
      let (head, tail, phase, phase') = moves in
      let (sq_tail, sq_head, cid, size) = sends in
      let pos : 0 < q.size = omega (arith, synced.head_small) in
      let small = mod-lt (q.sq_tail + 1) pos in
      let small' = mod-lt (q.cq_head + 1) pos in
      elim (Bool-cases (ltb (q.cq_head + 1) q.size)) [
        | inl within ↦
            let next = next_within q.cq_head q.size (ground arith) in
            record {
              head_small = omega (arith, head, size, small');
              tail_small = omega (arith, sq_tail, size, small);
              phase_bit = ground (arith, phase, next, synced.phase_bit);
              word = omega (arith, cid);
              same_head = sq_head ∙ sym sq_tail;
              same_tail = tail ∙ sym head;
              same_phase = phase' ∙ sym phase;
              before = λ i.
                  ground (arith, head, phase, next, entry_at i, synced.before i, synced.phase_bit);
              from = λ i. ground (arith, head, phase, next, size, entry_at i, synced.from i);
            }
        | inr last ↦
            let next = next_wraps q.cq_head q.size (ground (arith, synced.head_small)) in
            record {
              head_small = omega (arith, head, size, small');
              tail_small = omega (arith, sq_tail, size, small);
              phase_bit = ground (arith, phase, next, synced.phase_bit);
              word = omega (arith, cid);
              same_head = sq_head ∙ sym sq_tail;
              same_tail = tail ∙ sym head;
              same_phase = phase' ∙ sym phase;
              before = λ i. inl (omega (arith, head, next));
              from = λ i.
                  ground (arith, phase, next, size, entry_at i, synced.before i, synced.phase_bit);
            }
      ]

  -- The controller takes the entry that was written.
  takes : s.queue.sq d.sq_head ≡ sqe_of q.next_cid j.command
  unfolding submit_qe
  takes = rw synced.same_head (update_self q.sq q.sq_tail (sqe_of q.next_cid j.command))

  posted_status : (d'.cq q.cq_head).status ≡ j.status * 2 + q.cq_phase
  posted_status = ground (arith, entry_at q.cq_head)

  posted_cid : j.command.opc < 2 ^ 16 → (d'.cq q.cq_head).cid ≡ q.next_cid
  unfolding complete
  posted_cid small = rw synced.same_tail (
      ap (λ e. e.cid) (update_self d.cq q.cq_head _)
      ∙ ap (λ e. e.cdw0 / 2 ^ 16) takes
      ∙ sqe_of-cid q.next_cid j.command small)

  polled :
      j.command.opc < 2 ^ 16
      → j.delay < csts_poll_limit
      → (poll_qe (seen d d' j.delay) dstrd s.queue s.cid ≡ returned p) × (p.status ≡ j.status)
  unfolding poll_qe submit_qe consume
  polled small soon = (
    poll_from_lem d d' j.delay dstrd s.queue s.cid j.delay csts_poll_limit 0
        (ground (arith, synced.from q.cq_head, synced.head_small))
        (ground (arith, posted_status, synced.phase_bit)) (posted_cid small) (omega arith) soon,
    omega (arith, posted_status, synced.phase_bit),
  )

-- Each operation code is a byte, and each completion is there before the limit of the polling.
abbrev pub AreTimely : List Job → Type 0
AreTimely [] = Unit {0}
AreTimely (j ∷ js) = (j.command.opc < 2 ^ 8) × (j.delay < csts_poll_limit) × AreTimely js

-- The entries to be taken and the statuses to be got, for command ids from `cid` on.
abbrev pub outcomes : ℕ → List Job → List (SqEntry × ℕ)
outcomes cid [] = []
outcomes cid (j ∷ js) = (sqe_of cid j.command, j.status) ∷ outcomes ((cid + 1) % 2 ^ 16) js

-- From a state in which the queue and the controller agree, any number of commands run one after the
-- other, however often the rings start over: when each completion comes before the limit of the
-- polling, none panics, the controller takes each command's entry, with the next command id, and the
-- driver gets each command's own status; and the queue and the controller agree again.
pub run_lem :
    (dstrd : ℕ) (q : NvmeQueue) (d : Device) (js : List Job)
    → Synced q d
    → AreTimely js
    → (q' : NvmeQueue) × (d' : Device) × (run dstrd q d js
        ≡ returned (outcomes q.next_cid js, q', d'))
      × Synced q' d'
unfolding run
run_lem dstrd q d [] synced timely = (q, d, refl, synced)
run_lem dstrd q d (j ∷ js) synced (small, soon, timely) =
    let after = consumed-Synced dstrd q d j synced in
    let (done, status) = polled dstrd q d j synced (omega arith) soon in
    let cid = (sends dstrd q d j synced).2 in
    let (q', d', rest, synced') =
      run_lem dstrd (p dstrd q d j synced).queue (d' dstrd q d j synced) js after timely in
    (q', d', rw (done, rest, takes dstrd q d j synced, status, cid) refl, synced')
