-- ===== src/Nvme/Device.antt =====
-- The controller's side of a queue pair.
use field_os.Prelude.{
  ℕ, ◌+◌, ◌-◌, ◌*◌, ◌/◌, ◌%◌, ◌^◌, ◌<◌, ◌≤◌, ◌≡◌, ◌≢◌, ◌⊎◌, List, [], ◌∷◌, ltb, ◌==◌, if◌then◌else◌,
  update,
}
use field_os.Prelude.Outcome.{Outcome, returned, ◌>>=◌}
use field_os.Nvme.{SqEntry, CqEntry, NvmeQueue, Command, submit_qe, poll_qe}

pub record Device : Type 0 where
  pub sq_head : ℕ
  pub cq : ℕ → CqEntry
  pub cq_tail : ℕ
  pub phase : ℕ

-- The controller takes the command at its head of the submission queue and posts its completion,
-- with its phase.
unfoldable pub complete : NvmeQueue → Device → ℕ → Device
complete q d status =
    let new_tail = (d.cq_tail + 1) % q.size in
    let new_head = (d.sq_head + 1) % q.size in
    record {
      sq_head = new_head;
      cq = update d.cq d.cq_tail (record {
        dw0 = 0;
        sq_head = new_head;
        sq_id = q.qid;
        cid = (q.sq d.sq_head).cdw0 / 2 ^ 16;
        status = status * 2 + d.phase;
      });
      cq_tail = new_tail;
      phase = if new_tail == 0 then 1 - d.phase else d.phase;
    }

-- A command, the rounds of polling that pass before its completion is there, and its status.
pub record Job : Type 0 where
  pub command : Command
  pub delay : ℕ
  pub status : ℕ

-- The memory of the completion queue as the rounds of polling see it.
abbrev pub seen : Device → Device → ℕ → ℕ → ℕ → CqEntry
seen d d' delay i = if ltb i delay then d.cq else d'.cq

-- A driver that runs the commands one after the other: for each, the entry that the controller took
-- and the status that the driver got.
unfoldable pub run :
    ℕ → NvmeQueue → Device → List Job → Outcome (List (SqEntry × ℕ) × NvmeQueue × Device)
run dstrd q d [] = returned ([], q, d)
run dstrd q d (j ∷ js) =
    let s = submit_qe dstrd q j.command in
    let d' = complete s.queue d j.status in
    poll_qe (seen d d' j.delay) dstrd s.queue s.cid >>= (λ p.
      run dstrd p.queue d' js
      >>= (λ (out, q', end). returned ((s.queue.sq d.sq_head, p.status) ∷ out, q', end)))

-- The queue and the controller agree on where they are, no completion waits, and an entry of the
-- completion queue has the current phase exactly if it stands before the head.
pub record Synced (q : NvmeQueue) (d : Device) : Type 0 where
  pub head_small : q.cq_head < q.size
  pub tail_small : q.sq_tail < q.size
  pub phase_bit : q.cq_phase ≤ 1
  pub word : q.next_cid < 2 ^ 16
  pub same_head : d.sq_head ≡ q.sq_tail
  pub same_tail : d.cq_tail ≡ q.cq_head
  pub same_phase : d.phase ≡ q.cq_phase
  pub before : (i : ℕ) → (q.cq_head ≤ i) ⊎ ((d.cq i).status % 2 ≡ q.cq_phase)
  pub from : (i : ℕ) → (i < q.cq_head) ⊎ (q.size ≤ i) ⊎ ((d.cq i).status % 2 ≢ q.cq_phase)
