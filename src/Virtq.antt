-- ===== src/Virtq.antt =====
-- arsenal-kernel/src/virtio.rs, the split virtqueue (`Virtqueue`) that every virtio driver shares.
-- The three areas of its frame are tables: descriptors, the available ring (written by the driver)
-- and the used ring (written by the device). A table is a function of the index.
pub mod Layout
pub mod Chains
pub mod Walk
pub mod Push
pub mod Single
pub mod Reclaim
pub mod Pop
pub mod Ring
pub mod System
pub mod Device
pub mod Driver
pub mod Tests
use field_os.Prelude.{
  ℕ, zero, suc, ◌+◌, ◌-◌, ◌*◌, ◌%◌, ◌^◌, bit_and, bit_or, Bool, true, false, not, ◌&&◌, ◌||◌, ◌*◌,
  List, [], ◌∷◌, Option, none, some, ltb, leb, ◌==◌, if◌then◌else◌, length, update,
}
use field_os.Prelude.Outcome.{Outcome, returned, panic}

-- VIRTQ_DESC_F_NEXT is 1, and `flags & !VIRTQ_DESC_F_NEXT` on a `u16` is `flags & 0xFFFE`.
abbrev pub next_flag : ℕ
next_flag = 1

abbrev pub without_next : ℕ → ℕ
without_next flags = bit_and flags 0xFFFE

abbrev pub add16 : ℕ → ℕ → ℕ
add16 a b = (a + b) % 2 ^ 16

pub record Desc : Type 0 where
  pub addr : ℕ
  pub len : ℕ
  pub flags : ℕ
  pub next : ℕ

pub record UsedElem : Type 0 where
  pub id : ℕ
  pub len : ℕ

-- One element of `parts` in `push_chain`.
pub record Part : Type 0 where
  pub addr : ℕ
  pub len : ℕ
  pub flags : ℕ

pub record Virtqueue : Type 0 where
  pub size : ℕ
  pub desc : ℕ → Desc
  pub avail_idx : ℕ
  pub avail_ring : ℕ → ℕ
  pub used_idx : ℕ
  pub used_ring : ℕ → UsedElem
  pub free_head : ℕ
  pub num_free : ℕ
  pub last_used_idx : ℕ

-- The end of `push_descriptor` and of `push_chain`: the head goes into the available ring.
pub publish : Virtqueue → ℕ → Virtqueue
publish q head = record q {
  avail_ring = update q.avail_ring (q.avail_idx % q.size) head;
  avail_idx = add16 q.avail_idx 1;
}

pub push_descriptor : Virtqueue → ℕ → ℕ → ℕ → Option ℕ × Virtqueue
push_descriptor q addr len flags =
    let idx = q.free_head in
    let q' : Virtqueue = record q {
      free_head = (q.desc idx).next;
      desc =
          update q.desc idx
            (record { addr = addr; len = len; flags = without_next flags; next = 0 });
      num_free = q.num_free - 1;
    } in
    if q.num_free == 0 then (none, q) else (some idx, publish q' idx)

-- The first loop of `push_chain`: the first `n` indices of the free list from `cur`, and the
-- head of what is left of it.
pub take_free : (ℕ → Desc) → ℕ → ℕ → List ℕ × ℕ
take_free d zero cur = ([], cur)
take_free d (suc n) cur = let (indices, rest) = take_free d n (d cur).next in (cur ∷ indices, rest)

-- `next_idx` and `chain_flag` of the second loop, from the indices that follow.
abbrev pub next_of : List ℕ → ℕ
next_of [] = 0
next_of (i ∷ is) = i

abbrev pub chain_flag : List ℕ → ℕ
chain_flag [] = 0
chain_flag (i ∷ is) = next_flag

-- The body of the second loop: the descriptor `i`, where `is` are the indices that follow.
abbrev pub write_part : (ℕ → Desc) → ℕ → List ℕ → Part → ℕ → Desc
write_part d i is p = update d i (record {
  addr = p.addr;
  len = p.len;
  flags = bit_or (without_next p.flags) (chain_flag is);
  next = next_of is;
})

-- The second loop: one descriptor for each part.
pub write_chain : (ℕ → Desc) → List ℕ → List Part → ℕ → Desc
write_chain d (i ∷ is) (p ∷ ps) = write_chain (write_part d i is p) is ps
write_chain d is ps = d

abbrev pub is_empty : List Part → Bool
is_empty [] = true
is_empty (p ∷ ps) = false

pub push_chain : Virtqueue → List Part → Outcome (Option ℕ × Virtqueue)
push_chain q parts =
    let n = length parts in
    let (indices, rest) = take_free q.desc n q.free_head in
    let q' : Virtqueue = record q {
      free_head = rest;
      num_free = q.num_free - n % 2 ^ 16;
      desc = write_chain q.desc indices parts;
    } in
    if is_empty parts || ltb q.num_free (n % 2 ^ 16)
    then returned (none, q)
    else if ltb 8 n
    then panic
    else returned (some (next_of indices), publish q' (next_of indices))

-- The loop at the end of `pop_used`: the chain from `cur` goes back onto the free list.
-- `none` means that the fuel ran out before a descriptor without the NEXT flag was met.
pub free_chain : ℕ → Virtqueue → ℕ → Option Virtqueue
free_chain zero q cur = none
free_chain (suc fuel) q cur =
    let d = q.desc cur in
    let q' : Virtqueue = record q {
      desc = update q.desc cur (record d { next = q.free_head });
      free_head = cur;
      num_free = add16 q.num_free 1;
    } in
    let rest = free_chain fuel q' d.next in if bit_and d.flags next_flag == 0 then some q' else rest

-- The loop of `pop_used` over an element of the used ring.
pub pop_elem : ℕ → Virtqueue → UsedElem → Option (Option UsedElem × Virtqueue)
pop_elem fuel q elem = elim (free_chain fuel q (elem.id % 2 ^ 16)) [
  | none ↦ none
  | some q' ↦ some (some elem, q')
]

-- `pop_used`; the outer option is that of the loop's fuel.
pub pop_used : ℕ → Virtqueue → Option (Option UsedElem × Virtqueue)
pop_used fuel q =
    let elem = q.used_ring (q.last_used_idx % q.size) in
    let popped = pop_elem fuel (record q { last_used_idx = add16 q.last_used_idx 1 }) elem in
    if q.used_idx == q.last_used_idx then some (none, q) else popped

-- The physical addresses of the three areas.
pub record Areas : Type 0 where
  pub desc_phys : ℕ
  pub avail_phys : ℕ
  pub used_phys : ℕ

-- `u16::is_power_of_two` and its guard `size > 0`
pub is_power_of_two : ℕ → Bool
is_power_of_two size = ltb 0 size && (bit_and size (size - 1) == 0)

pub used_offset : ℕ → ℕ
used_offset n = bit_and (16 * n + (4 + 2 * n) + 3) (2 ^ 64 - 4)

-- The body of the loop of `new` that threads the free list.
abbrev pub link_one : ℕ → ℕ → (ℕ → Desc) → ℕ → Desc
link_one n i d = update d i (record (d i) { next = if i == n - 1 then 0 else (i + 1) % 2 ^ 16 })

-- That loop, with `left` rounds to go at `i`.
pub link_free : ℕ → ℕ → ℕ → (ℕ → Desc) → ℕ → Desc
link_free n zero i d = d
link_free n (suc left) i d = link_free n left (i + 1) (link_one n i d)

abbrev pub zero_desc : Desc
zero_desc = record { addr = 0; len = 0; flags = 0; next = 0 }

-- `new`, for the frame that the allocator returns.
pub new : ℕ → Option ℕ → Outcome (Virtqueue × Areas)
new size none = panic
new size (some phys) =
    let q : Virtqueue = record {
      size = size;
      desc = link_free size size 0 (λ _. zero_desc);
      avail_idx = 0;
      avail_ring = λ _. 0;
      used_idx = 0;
      used_ring = λ _. record { id = 0; len = 0 };
      free_head = 0;
      num_free = size;
      last_used_idx = 0;
    } in
    let areas : Areas = record {
      desc_phys = phys;
      avail_phys = phys + 16 * size;
      used_phys = phys + used_offset size;
    } in
    if not (is_power_of_two size)
    then panic
    else if ltb 4096 (used_offset size + (4 + 8 * size))
    then panic
    else returned (q, areas)
