-- ===== src/Nvme.antt =====
-- arsenal-kernel/src/nvme.rs, the queue pairs of the controller: submission and polling.
pub mod Admin
pub mod Bringup
pub mod Device
pub mod Commands
mod Tests
use field_os.Prelude.{
  ℕ, zero, suc, ◌+◌, ◌-◌, ◌*◌, ◌/◌, ◌%◌, ◌^◌, bit_and, bit_or, bit_xor, Bool, true, false, not,
  ◌==◌, if◌then◌else◌, update,
}
use field_os.Prelude.Outcome.{Outcome, returned, panic}

pub record SqEntry : Type 0 where
  pub cdw0 : ℕ
  pub nsid : ℕ
  pub mptr : ℕ
  pub prp1 : ℕ
  pub prp2 : ℕ
  pub cdw10 : ℕ
  pub cdw11 : ℕ
  pub cdw12 : ℕ
  pub cdw13 : ℕ
  pub cdw14 : ℕ
  pub cdw15 : ℕ

pub record CqEntry : Type 0 where
  pub dw0 : ℕ
  pub sq_head : ℕ
  pub sq_id : ℕ
  pub cid : ℕ
  pub status : ℕ

-- `sq` is the memory at `sq_phys`.
pub record NvmeQueue : Type 0 where
  pub qid : ℕ
  pub size : ℕ
  pub sq : ℕ → SqEntry
  pub sq_tail : ℕ
  pub cq_head : ℕ
  pub cq_phase : ℕ
  pub next_cid : ℕ

abbrev pub zero_sqe : SqEntry
zero_sqe = record {
  cdw0 = 0;
  nsid = 0;
  mptr = 0;
  prp1 = 0;
  prp2 = 0;
  cdw10 = 0;
  cdw11 = 0;
  cdw12 = 0;
  cdw13 = 0;
  cdw14 = 0;
  cdw15 = 0;
}

-- A queue as `setup_admin` and `setup_io_queue` leave it, over a frame of zeros.
abbrev pub new_queue : ℕ → ℕ → NvmeQueue
new_queue qid size = record {
  qid = qid;
  size = size;
  sq = λ _. zero_sqe;
  sq_tail = 0;
  cq_head = 0;
  cq_phase = 1;
  next_cid = 0;
}

-- The arguments of `submit_qe` that go into the entry.
pub record Command : Type 0 where
  pub opc : ℕ
  pub nsid : ℕ
  pub prp1 : ℕ
  pub cdw10 : ℕ
  pub cdw11 : ℕ
  pub cdw12 : ℕ

abbrev pub sqe_of : ℕ → Command → SqEntry
sqe_of cid c = record {
  cdw0 = bit_or c.opc (cid * 2 ^ 16);
  nsid = c.nsid;
  mptr = 0;
  prp1 = c.prp1;
  prp2 = 0;
  cdw10 = c.cdw10;
  cdw11 = c.cdw11;
  cdw12 = c.cdw12;
  cdw13 = 0;
  cdw14 = 0;
  cdw15 = 0;
}

abbrev pub doorbell_base : ℕ
doorbell_base = 0x1000

-- The register of a doorbell: an even number for a submission queue, an odd one for a completion
-- queue.
abbrev pub doorbell : ℕ → ℕ → ℕ
doorbell dstrd n = doorbell_base + n * (4 * 2 ^ dstrd)

-- The result of `submit_qe`, the queue, and the register write.
pub record Submitted : Type 0 where
  pub cid : ℕ
  pub queue : NvmeQueue
  pub write : ℕ × ℕ

pub submit_qe : ℕ → NvmeQueue → Command → Submitted
submit_qe dstrd q c =
    let new_tail = (q.sq_tail + 1) % q.size in
    record {
      cid = q.next_cid;
      queue = record q {
        next_cid = (q.next_cid + 1) % 2 ^ 16;
        sq = update q.sq q.sq_tail (sqe_of q.next_cid c);
        sq_tail = new_tail;
      };
      write = (doorbell dstrd (2 * q.qid), new_tail);
    }

pub record Polled : Type 0 where
  pub status : ℕ
  pub queue : NvmeQueue
  pub write : ℕ × ℕ

-- A completion with the expected phase, from the queue's head on.
pub consume : ℕ → NvmeQueue → CqEntry → Polled
consume dstrd q cqe =
    let new_head = (q.cq_head + 1) % q.size in
    record {
      status = cqe.status / 2;
      queue = record q {
        cq_head = new_head;
        cq_phase = if new_head == 0 then bit_xor q.cq_phase 1 else q.cq_phase;
      };
      write = (doorbell dstrd (2 * q.qid + 1), new_head);
    }

abbrev pub csts_poll_limit : ℕ
csts_poll_limit = 100000000

-- The loop of `poll_qe` with `left` rounds to go; `cq i` is the completion queue's memory in the
-- round `i`.
pub poll_from : ℕ → (ℕ → ℕ → CqEntry) → ℕ → NvmeQueue → ℕ → ℕ → Outcome Polled
poll_from zero cq dstrd q expected_cid i = panic
poll_from (suc left) cq dstrd q expected_cid i =
    let cqe = cq i q.cq_head in
    let rest = poll_from left cq dstrd q expected_cid (i + 1) in
    if not (cqe.status % 2 == q.cq_phase)
    then rest
    else if cqe.cid == expected_cid
    then returned (consume dstrd q cqe)
    else panic

pub poll_qe : (ℕ → ℕ → CqEntry) → ℕ → NvmeQueue → ℕ → Outcome Polled
poll_qe cq dstrd q expected_cid = poll_from csts_poll_limit cq dstrd q expected_cid 0

-- The test that the callers make on the status.
abbrev pub is_success : ℕ → Bool
is_success status = bit_and status 0xFFFE == 0
