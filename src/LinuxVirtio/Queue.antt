-- ===== src/LinuxVirtio/Queue.antt =====
-- linuxkpi/src/virtio.rs: a virtqueue of an inherited driver, over the kernel's virtqueue.
pub mod Buffers
pub mod Add
pub mod Get
pub mod Runs
use field_os.Prelude.{
  ℕ, zero, suc, ◌+◌, ◌-◌, ◌^◌, min, Bool, true, false, ◌||◌, List, [], ◌∷◌, map, Option, none, some,
  ltb, leb, ◌==◌, if◌then◌else◌, length, update,
}
use field_os.Prelude.Outcome.{Outcome, returned, panic, ◌>>=◌}
use field_os.Virtq.{Virtqueue, UsedElem, Part}
use field_os.LinuxVirtio.Bridge.{
  linuxkpi_virtqueue_push_descriptor, linuxkpi_virtqueue_push_chain, linuxkpi_virtqueue_pop_used,
}

pub record Scatterlist : Type 0 where
  pub page_link : ℕ
  pub offset : ℕ
  pub length : ℕ
  pub dma_address : ℕ
  pub dma_length : ℕ

-- `virtqueue` with its `ShimVirtqueueState` and the kernel's queue behind it; the tokens are the
-- driver's pointers, and 0 is the null pointer. The notify pointer is left out.
pub record ShimVirtqueue : Type 0 where
  pub queue : Virtqueue
  pub tokens : ℕ → ℕ
  pub queue_idx : ℕ
  pub size : ℕ
  pub num_free : ℕ

pub virtqueue_get_vring_size : ShimVirtqueue → ℕ
virtqueue_get_vring_size vq = vq.size

abbrev pub desc_f_write : ℕ
desc_f_write = 2

abbrev pub part_of : ℕ → Scatterlist → Part
part_of sg_flags e = record { addr = e.dma_address; len = e.dma_length; flags = sg_flags }

-- The end of `vq_add`, for what the push gave; the token array is checked. Whether 0 is returned.
pub finish_add : ShimVirtqueue → ℕ → ℕ → Option ℕ × Virtqueue → Outcome (Bool × ShimVirtqueue)
finish_add vq num token (none, q) = returned (false, record vq { queue = q })
finish_add vq num token (some head, q) =
    if leb vq.size head
    then panic
    else returned (
      true,
      record vq { queue = q; tokens = update vq.tokens head token; num_free = vq.num_free - num },
    )

-- The push itself: one entry is a descriptor, more are a chain.
pub push_entries : Virtqueue → List Scatterlist → ℕ → Outcome (Option ℕ × Virtqueue)
push_entries q (e ∷ []) sg_flags =
    returned (linuxkpi_virtqueue_push_descriptor q e.dma_address e.dma_length sg_flags)
push_entries q sg sg_flags = linuxkpi_virtqueue_push_chain q (map (part_of sg_flags) sg)

-- `num` is the length of `sg`.
pub vq_add : ShimVirtqueue → List Scatterlist → ℕ → ℕ → Outcome (Bool × ShimVirtqueue)
vq_add vq sg token sg_flags =
    let num = length sg in
    if (num == 0) || ltb 8 num
    then returned (false, vq)
    else push_entries vq.queue sg sg_flags >>= finish_add vq num token

abbrev pub virtqueue_add_outbuf :
    ShimVirtqueue → List Scatterlist → ℕ → Outcome (Bool × ShimVirtqueue)
virtqueue_add_outbuf vq sg token = vq_add vq sg token 0

abbrev pub virtqueue_add_inbuf :
    ShimVirtqueue → List Scatterlist → ℕ → Outcome (Bool × ShimVirtqueue)
virtqueue_add_inbuf vq sg token = vq_add vq sg token desc_f_write

-- `saturating_add` on a `c_uint`.
abbrev pub add_sat : ℕ → ℕ → ℕ
add_sat a b = min (a + b) (2 ^ 32 - 1)

-- The end of `virtqueue_get_buf`, for what the pop gave: the token and the length, and `none` is
-- the null pointer of an empty queue.
pub take_token :
    ShimVirtqueue → Option UsedElem × Virtqueue → Outcome (Option (ℕ × ℕ) × ShimVirtqueue)
take_token vq (none, q) = returned (none, record vq { queue = q })
take_token vq (some elem, q) =
    if leb vq.size elem.id
    then panic
    else returned (
      some (vq.tokens elem.id, elem.len),
      record vq {
        queue = q;
        tokens = update vq.tokens elem.id 0;
        num_free = add_sat vq.num_free 1;
      },
    )

-- The fuel is that of the loop of `pop_used`; `none` is that it ran out.
pub after_pop :
    ShimVirtqueue
    → Option (Option UsedElem × Virtqueue)
    → Option (Outcome (Option (ℕ × ℕ) × ShimVirtqueue))
after_pop vq none = none
after_pop vq (some popped) = some (take_token vq popped)

pub virtqueue_get_buf : ℕ → ShimVirtqueue → Option (Outcome (Option (ℕ × ℕ) × ShimVirtqueue))
virtqueue_get_buf fuel vq = after_pop vq (linuxkpi_virtqueue_pop_used fuel vq.queue)

-- The write that `virtqueue_kick` makes to the notify register.
pub virtqueue_kick : ShimVirtqueue → ℕ
virtqueue_kick vq = vq.queue_idx
