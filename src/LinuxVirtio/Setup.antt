-- ===== src/LinuxVirtio/Setup.antt =====
-- linuxkpi/src/virtio.rs, `virtio_find_vqs`: the virtqueues of a device, over the kernel's
-- `Virtqueue::new` and `activate_queue` (arsenal-kernel/src/virtio.rs).
pub mod Sizes
pub mod Ready
use field_os.Prelude.{
  ℕ, zero, suc, ◌+◌, ◌-◌, ◌*◌, ◌%◌, ◌^◌, min, Bool, true, false, List, [], ◌∷◌, Option, none, some,
  ltb, leb, ◌==◌, if◌then◌else◌,
}
use field_os.Prelude.Outcome.{Outcome, returned, panic, ◌>>=◌}
use field_os.Virtq.{Virtqueue, Areas, new}
use field_os.LinuxVirtio.Queue.{ShimVirtqueue}

-- `leading_zeros` of a number of `bits` bits.
unfoldable pub leading_zeros : ℕ → ℕ → ℕ
leading_zeros zero n = 0
leading_zeros (suc bits) n =
    let rest = leading_zeros bits n in if leb (2 ^ bits) n then 0 else rest + 1

unfoldable pub pow2_at_most : ℕ → ℕ
unfolding leading_zeros
pow2_at_most n = if n == 0 then 0 else 2 ^ (15 - leading_zeros 16 (min n 128))

-- The offsets in the common configuration that `activate_queue` writes.
abbrev pub cc_queue_select : ℕ
cc_queue_select = 0x16

abbrev pub cc_queue_size : ℕ
cc_queue_size = 0x18

abbrev pub cc_queue_enable : ℕ
cc_queue_enable = 0x1C

abbrev pub cc_queue_desc : ℕ
cc_queue_desc = 0x20

abbrev pub cc_queue_driver : ℕ
cc_queue_driver = 0x28

abbrev pub cc_queue_device : ℕ
cc_queue_device = 0x30

-- The writes of `activate_queue`, offset and value, in order, for a queue of at most `max` entries;
-- it panics if the queue is larger. The notify pointer that it returns is left out.
pub activate_queue : ℕ → ℕ → ℕ → Areas → Outcome (List (ℕ × ℕ))
activate_queue max idx size areas =
    let writes : List (ℕ × ℕ) =
      (cc_queue_select, idx)
      ∷ ((cc_queue_size, size)
          ∷ ((cc_queue_desc, areas.desc_phys)
              ∷ ((cc_queue_driver, areas.avail_phys)
                  ∷ ((cc_queue_device, areas.used_phys) ∷ ((cc_queue_enable, 1) ∷ []))))) in
    if ltb max size then panic else returned writes

-- A queue, with the writes that activated it.
pub record Found : Type 0 where
  pub vq : ShimVirtqueue
  pub writes : List (ℕ × ℕ)

-- `max idx` is what the device's size register says for the queue `idx`, and `frame i` the frame that
-- the allocator gives for the element `i` of the list.
module _ (max : ℕ → ℕ) (frame : ℕ → Option ℕ) where
  pub set_up : ℕ → ℕ → Virtqueue × Areas → Outcome Found
  set_up i size (q, areas) = activate_queue (max (i % 2 ^ 16)) (i % 2 ^ 16) size areas >>= λ writes.
      returned (record {
        vq = record {
          queue = q;
          tokens = λ _. 0;
          queue_idx = i % 2 ^ 16;
          size = size;
          num_free = size;
        };
        writes = writes;
      })

  -- The rest of the list, after the first queue.
  pub prepend : Option Found → Bool × List (Option Found) → Outcome (Bool × List (Option Found))
  prepend vq (ok, vqs) = returned (ok, vq ∷ vqs)

  -- The loop of `virtio_find_vqs` from the queue `i` on, which `i as u16` names to the device; each element says whether the queue has a
  -- name. The result: whether 0 is returned, and the pointers stored.
  pub find_from : ℕ → List Bool → Outcome (Bool × List (Option Found))
  find_from i [] = returned (true, [])
  find_from i (false ∷ names) = find_from (i + 1) names >>= prepend none
  find_from i (true ∷ names) =
      let size = pow2_at_most (max (i % 2 ^ 16)) in
      let rest = find_from (i + 1) names in
      let made = new size (frame i) >>= set_up i size >>= (λ vq. rest >>= prepend (some vq)) in
      if size == 0 then returned (false, []) else made

  pub virtio_find_vqs : List Bool → Outcome (Bool × List (Option Found))
  virtio_find_vqs [] = returned (false, [])
  virtio_find_vqs (name ∷ names) = find_from 0 (name ∷ names)
