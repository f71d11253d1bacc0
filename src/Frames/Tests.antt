-- ===== src/Frames/Tests.antt =====
-- The frame allocator at a small memory map: two usable regions, and a heap inside the first.
use field_os.Prelude.{
  occurs, ℕ, ◌/◌, ◌*◌, ◌^◌, ◌≤◌, ◌<◌, ◌≡◌, refl, arith, List, [], ◌∷◌, Option, none, some, ltb,
  if◌then◌else◌,
}
use field_os.Prelude.Outcome.{returned, panic}
use field_os.Frames.{
  FrameApi, FrameAllocator, Entry, new, add_region, add_entries, add_around_heap, add_above_heap,
  add_below_heap, push_frames, reclaim_entries, free_count, alloc_frame, free_frame, init,
  reclaim_bootloader,
}
use field_os.Frames.Boot.{available_in}
use field_os.Frames.Alloc.{is_empty, init_lem, init-alloc_frame}

abbrev floor_frame : ℕ → Option ℕ
floor_frame a = if ltb a (2 ^ 52) then some (a / 4096 * 4096) else none

floor_frame_valid :
    (a : ℕ) → a < 2 ^ 52 → (f : ℕ) × (floor_frame a ≡ some f) × (f ≡ a / 4096 * 4096)
floor_frame_valid a h = (a / 4096 * 4096, ground arith, refl)

-- A frame as its start address.
abbrev numbers : FrameApi
numbers = record {
  PhysFrame = ℕ;
  frame_of = floor_frame;
  start_address = λ f. f;
  frame_of_valid = floor_frame_valid;
}

abbrev map : List Entry
map =
    record { base = 0x1000; length = 0x5000; entry_type = 0 }
    ∷ record { base = 0x8000; length = 0x1000; entry_type = 5 }
    ∷ record { base = 0xa800; length = 0x2000; entry_type = 0 }
    ∷ []

abbrev booted : FrameAllocator
booted = record { free = 0xb000 ∷ 0x5000 ∷ 0x1000 ∷ []; total_added = 3 }

-- The heap takes the frames 0x2000, 0x3000 and 0x4000.
init_runs : init numbers new map 0x2000 0x5000 ≡ returned booted
unfolding init new alloc_frame add_entries add_around_heap add_above_heap add_region push_frames
    free_frame add_below_heap
init_runs = refl

reclaim_runs : (reclaim_bootloader booted map).0 ≡ 1
unfolding reclaim_bootloader free_count reclaim_entries add_region push_frames
reclaim_runs = refl

init_lem_example :
    (s : FrameAllocator) × ((a : ℕ) → occurs a s.free ≡ available_in 0x2000 0x5000 map a)
    × (init numbers new map 0x2000 0x5000 ≡ (if is_empty s.free then panic else returned s))
init_lem_example = init_lem numbers map 0x2000 0x5000 (omega arith) (omega arith)

map_disjoint : (a : ℕ) → available_in 0x2000 0x5000 map a ≤ 1
map_disjoint a = ground arith

takes_top :
    alloc_frame numbers booted
    ≡ returned (some 0xb000, record booted { free = 0x5000 ∷ 0x1000 ∷ [] })
unfolding alloc_frame
takes_top = refl

init-alloc_frame_example :
    (available_in 0x2000 0x5000 map 0xb000 ≡ 1) × (occurs 0xb000 (0x5000 ∷ 0x1000 ∷ []) ≡ 0)
init-alloc_frame_example =
    init-alloc_frame numbers map 0x2000 0x5000 booted
      (record booted { free = 0x5000 ∷ 0x1000 ∷ [] }) 0xb000 (omega arith) (omega arith)
      map_disjoint init_runs takes_top
