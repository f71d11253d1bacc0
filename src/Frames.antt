-- ===== src/Frames.antt =====
-- arsenal-kernel/src/frames.rs, the stack of free physical 4-KiB frames.
-- `Vec<u64>` is a list whose first element is the top of the stack, where `push` and `pop` work.
pub mod Region
pub mod Boot
pub mod Alloc
mod Tests
use field_os.Prelude.{
  ℕ, zero, suc, ◌+◌, ◌-◌, ◌*◌, ◌/◌, ◌%◌, ◌^◌, ◌<◌, ◌≡◌, min, max, bit_and, List, [], ◌∷◌, Option,
  none, some, ltb, leb, ◌==◌, if◌then◌else◌, length,
}
use field_os.Prelude.Outcome.{Outcome, returned, panic, add64, sub64, ◌>>=◌}

abbrev pub frame_size : ℕ
frame_size = 4096

-- The crate `x86_64`: `frame_of a` is `PhysFrame::containing_address(PhysAddr::new(a))`, and `none`
-- is the panic of `PhysAddr::new` on an address of more than 52 bits.
pub record FrameApi : Type 1 where
  pub PhysFrame : Type 0
  pub frame_of : ℕ → Option PhysFrame
  pub start_address : PhysFrame → ℕ
  pub frame_of_valid :
      (a : ℕ)
      → a < 2 ^ 52
      → (f : PhysFrame) × (frame_of a ≡ some f) × (start_address f ≡ a / 4096 * 4096)

pub record FrameAllocator : Type 0 where
  pub free : List ℕ
  pub total_added : ℕ

pub new : FrameAllocator
new = record { free = []; total_added = 0 }

-- `x & !(FRAME_SIZE - 1)`
abbrev pub page_floor : ℕ → ℕ
page_floor x = bit_and x (2 ^ 64 - frame_size)

-- The `for` loop of `add_region`, with `left` rounds to go at the counter `i`.
pub push_frames : ℕ → ℕ → ℕ → List ℕ → List ℕ
push_frames aligned_base zero i free = free
push_frames aligned_base (suc left) i free =
    push_frames aligned_base left (i + 1) (add64 aligned_base (i * frame_size % 2 ^ 64) ∷ free)

pub add_region : FrameAllocator → ℕ → ℕ → FrameAllocator
add_region s base length =
    let aligned_base = page_floor (sub64 (add64 base frame_size) 1) in
    let aligned_end = page_floor (add64 base length) in
    let count = (aligned_end - aligned_base) / frame_size in
    if leb aligned_end aligned_base then s else record {
      free = push_frames aligned_base count 0 s.free;
      total_added = add64 s.total_added count;
    }

pub free_count : FrameAllocator → ℕ
free_count s = length s.free

-- An entry of the bootloader's memory map.
pub record Entry : Type 0 where
  pub base : ℕ
  pub length : ℕ
  pub entry_type : ℕ

-- LIMINE_MEMMAP_USABLE and LIMINE_MEMMAP_BOOTLOADER_RECLAIMABLE of vendor/limine/limine.h
abbrev pub usable : ℕ
usable = 0

abbrev pub bootloader_reclaimable : ℕ
bootloader_reclaimable = 5

-- The part of a region that ends at or before the heap.
pub add_below_heap : ℕ → FrameAllocator → ℕ → ℕ → FrameAllocator
add_below_heap heap_start s region_start region_end =
    if ltb region_start heap_start
    then add_region s region_start (sub64 (min region_end heap_start) region_start)
    else s

-- The part that starts at or after the heap.
pub add_above_heap : ℕ → FrameAllocator → ℕ → ℕ → FrameAllocator
add_above_heap heap_end s region_start region_end =
    let start = max region_start heap_end in
    if ltb heap_end region_end then add_region s start (sub64 region_end start) else s

-- The body of the loop of `init` for a usable entry.
pub add_around_heap : ℕ → ℕ → FrameAllocator → Entry → FrameAllocator
add_around_heap heap_start heap_end s e =
    let region_end = add64 e.base e.length in
    add_above_heap heap_end (add_below_heap heap_start s e.base region_end) e.base region_end

pub add_entries : ℕ → ℕ → FrameAllocator → List Entry → FrameAllocator
add_entries heap_start heap_end s [] = s
add_entries heap_start heap_end s (e ∷ es) =
    add_entries heap_start heap_end
      (if e.entry_type == usable then add_around_heap heap_start heap_end s e else s) es

pub reclaim_entries : FrameAllocator → List Entry → FrameAllocator
reclaim_entries s [] = s
reclaim_entries s (e ∷ es) =
    reclaim_entries
      (if e.entry_type == bootloader_reclaimable then add_region s e.base e.length else s) es

-- The number of frames added, and the new pool.
pub reclaim_bootloader : FrameAllocator → List Entry → ℕ × FrameAllocator
reclaim_bootloader s es =
    let s' = reclaim_entries s es in (sub64 (free_count s') (free_count s), s')

module _ (api : FrameApi) where
  open api use {PhysFrame, frame_of, start_address}

  take_frame : ℕ → FrameAllocator → Option PhysFrame → Outcome (Option PhysFrame × FrameAllocator)
  take_frame addr s none = panic
  take_frame addr s (some f) = returned (some f, s)

  -- `pop()?` on an empty stack is the `None` of the caller.
  pop_frame : FrameAllocator → List ℕ → Outcome (Option PhysFrame × FrameAllocator)
  unfolding take_frame
  pop_frame s [] = returned (none, s)
  pop_frame s (addr ∷ rest) = take_frame addr (record s { free = rest }) (frame_of addr)

  pub alloc_frame : FrameAllocator → Outcome (Option PhysFrame × FrameAllocator)
  unfolding pop_frame
  alloc_frame s = pop_frame s s.free

  pub free_frame : FrameAllocator → PhysFrame → FrameAllocator
  free_frame s f = record s { free = start_address f ∷ s.free }

  -- The end of `init`: one frame is taken, and given back.
  self_test : Option PhysFrame × FrameAllocator → Outcome FrameAllocator
  self_test (none, s) = panic
  self_test (some f, s) = returned (free_frame s f)

  pub init : FrameAllocator → List Entry → ℕ → ℕ → Outcome FrameAllocator
  unfolding self_test
  init s es heap_start heap_end = alloc_frame (add_entries heap_start heap_end s es) >>= self_test
