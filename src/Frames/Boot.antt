-- ===== src/Frames/Boot.antt =====
-- What the walk over the memory map pushes onto the pool.
use field_os.Prelude.{
  occurs, ℕ, ◌+◌, ◌-◌, ◌%◌, ◌^◌, ◌≤◌, ◌<◌, ◌≡◌, inl, inr, arith, List, [], ◌∷◌, true, Bool-cases,
  leb, ◌==◌, ◌&&◌, ◌||◌, if◌then◌else◌, min, max,
}
use field_os.Prelude.Outcome.{add64}
use field_os.Frames.{
  FrameAllocator, Entry, usable, add_around_heap, add_below_heap, add_above_heap, add_entries,
}
use field_os.Frames.Region.{frame_within, occurs-add_region}

-- 1 if the entry is usable memory and `a` is a frame of it that does not meet the heap, else 0.
abbrev pub available : ℕ → ℕ → Entry → ℕ → ℕ
available heap_start heap_end e a =
    if (e.entry_type == usable)
      && (a % 4096 == 0)
      && leb e.base a
      && leb (a + 4096) (e.base + e.length)
      && (leb (a + 4096) heap_start || leb heap_end a)
    then 1
    else 0

abbrev pub available_in : ℕ → ℕ → List Entry → ℕ → ℕ
available_in heap_start heap_end [] a = 0
available_in heap_start heap_end (e ∷ es) a =
    available heap_start heap_end e a + available_in heap_start heap_end es a

-- Every region ends in the 52 bits of a physical address.
abbrev pub AreBounded : List Entry → Type 0
AreBounded [] = Unit {0}
AreBounded (e ∷ es) = (e.base + e.length ≤ 2 ^ 52) × AreBounded es

occurs-add_below_heap :
    (heap_start : ℕ) (s : FrameAllocator) (base length a : ℕ)
    → base + length ≤ 2 ^ 52
    → occurs a (add_below_heap heap_start s base (add64 base length)).free
      ≡ occurs a s.free + frame_within base (min (base + length) heap_start) a
unfolding add_below_heap
occurs-add_below_heap heap_start s base length a h =
    let end = min ((base + length) % 2 ^ 64) heap_start in
    ground (arith, occurs-add_region s base ((end + 2 ^ 64 - base) % 2 ^ 64) a)

occurs-add_above_heap :
    (heap_end : ℕ) (s : FrameAllocator) (base length a : ℕ)
    → base + length ≤ 2 ^ 52
    → occurs a (add_above_heap heap_end s base (add64 base length)).free
      ≡ occurs a s.free + frame_within (max base heap_end) (base + length) a
unfolding add_above_heap
occurs-add_above_heap heap_end s base length a h =
    let start = max base heap_end in
    let end = (base + length) % 2 ^ 64 in
    ground (arith, occurs-add_region s start ((end + 2 ^ 64 - start) % 2 ^ 64) a)

module _ (heap_start heap_end : ℕ) (ordered : heap_start ≤ heap_end) where
  occurs-add_around_heap :
      (s : FrameAllocator) (e : Entry) (a : ℕ)
      → e.base + e.length ≤ 2 ^ 52
      → (e.entry_type == usable) ≡ true
      → occurs a (add_around_heap heap_start heap_end s e).free
        ≡ occurs a s.free + available heap_start heap_end e a
  unfolding add_around_heap
  occurs-add_around_heap s e a h u =
      let s' = add_below_heap heap_start s e.base ((e.base + e.length) % 2 ^ 64) in
      rw
        (
          occurs-add_above_heap heap_end s' e.base e.length a h,
          occurs-add_below_heap heap_start s e.base e.length a h,
          u,
        )
        (ground arith)

  occurs-add_entry :
      (s : FrameAllocator) (e : Entry) (a : ℕ)
      → e.base + e.length ≤ 2 ^ 52
      → occurs a
          (if e.entry_type == usable then add_around_heap heap_start heap_end s e else s).free
        ≡ occurs a s.free + available heap_start heap_end e a
  occurs-add_entry s e a h = elim (Bool-cases (e.entry_type == usable)) [
    | inl u ↦ ground (arith, occurs-add_around_heap s e a h u)
    | inr n ↦ ground arith
  ]

  pub occurs-add_entries :
      (s : FrameAllocator) (es : List Entry) (a : ℕ)
      → AreBounded es
      → occurs a (add_entries heap_start heap_end s es).free
        ≡ occurs a s.free + available_in heap_start heap_end es a
  unfolding add_entries
  occurs-add_entries s [] a h = omega arith
  occurs-add_entries s (e ∷ es) a h = omega (
    arith,
    occurs-add_entries
        (if e.entry_type == usable then add_around_heap heap_start heap_end s e else s) es a h.1,
    occurs-add_entry s e a h.0,
  )

-- A pool of page-aligned addresses below `2 ^ 52`.
abbrev pub ArePages : List ℕ → Type 0
ArePages [] = Unit {0}
ArePages (x ∷ xs) = (x % 4096 ≡ 0) × (x < 2 ^ 52) × ArePages xs

-- An address that the pool holds at all is aligned and small, so all its members are.
pub ArePages-of_occurs :
    (xs : List ℕ) → ((a : ℕ) → 0 < occurs a xs → (a % 4096 ≡ 0) × (a < 2 ^ 52)) → ArePages xs
ArePages-of_occurs [] h = tt
ArePages-of_occurs (x ∷ xs) h =
    let here : (x % 4096 ≡ 0) × (x < 2 ^ 52) = h x (ground arith) in
    (here.0, here.1, ArePages-of_occurs xs (λ a p. h a (omega arith)))

pub available-lt :
    (hs he : ℕ) (es : List Entry) (a : ℕ)
    → AreBounded es
    → 0 < available_in hs he es a
    → (a % 4096 ≡ 0) × (a < 2 ^ 52)
available-lt hs he [] a b h = absurd (omega arith)
available-lt hs he (e ∷ es) a b h = ground (arith, available-lt hs he es a b.1)
