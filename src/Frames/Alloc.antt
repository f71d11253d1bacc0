-- ===== src/Frames/Alloc.antt =====
-- `alloc_frame`, `free_frame` and `init` over the crate's frame type.
use field_os.Prelude.{
  occurs, ℕ, ◌+◌, ◌%◌, ◌^◌, ◌≤◌, ◌<◌, ◌≡◌, ◌⊎◌, inl, inr, refl, arith, Bool, true, false, List, [],
  ◌∷◌, none, some, if◌then◌else◌, ◌∙◌, ap, sym,
}
use field_os.Prelude.Outcome.{returned, panic}
use field_os.Frames.{
  FrameApi, FrameAllocator, Entry, new, add_entries, alloc_frame, free_frame, init,
}
use field_os.Frames.Boot.{
  available_in, AreBounded, ArePages, ArePages-of_occurs, available-lt, occurs-add_entries,
}

abbrev pub is_empty : List ℕ → Bool
is_empty [] = true
is_empty (x ∷ xs) = false

abbrev pool : List ℕ → ℕ → FrameAllocator
pool free total = record { free = free; total_added = total }

module _ (api : FrameApi) where
  open api use {PhysFrame, frame_of, start_address, frame_of_valid}

  alloc_frame-cons :
      (x : ℕ) (xs : List ℕ) (total : ℕ)
      → x % 4096 ≡ 0
      → x < 2 ^ 52
      → (f : PhysFrame) × (alloc_frame api (pool (x ∷ xs) total) ≡ returned (some f, pool xs total))
        × (free_frame api (pool xs total) f ≡ pool (x ∷ xs) total)
        × (start_address f ≡ x)
  unfolding alloc_frame free_frame
  alloc_frame-cons x xs total aligned small =
      let (f, e, start) = frame_of_valid x small in
      let e' : start_address f ≡ x = start ∙ omega arith in (f, rw e, rw e', e')

  -- On a pool of pages `alloc_frame` never panics. It returns `None`, and changes nothing, exactly
  -- when the pool is empty; otherwise it returns a frame that `free_frame` puts back to give the
  -- pool as it was.
  pub alloc_frame_lem :
      (free : List ℕ) (total : ℕ)
      → ArePages free
      → ((free ≡ []) × (alloc_frame api (pool free total) ≡ returned (none, pool free total)))
        ⊎ ((f : PhysFrame) × (s' : FrameAllocator) × (alloc_frame api (pool free total)
              ≡ returned (some f, s'))
            × (free_frame api s' f ≡ pool free total)
            × (free ≡ start_address f ∷ s'.free))
  alloc_frame_lem [] total h = inl (refl, unfold alloc_frame in refl)
  alloc_frame_lem (x ∷ xs) total h =
      let (f, e, back, start) = alloc_frame-cons x xs total h.0 h.1 in
      inr (f, pool xs total, e, back, rw start)

  init-pool :
      (es : List Entry) (heap_start heap_end total : ℕ) (free : List ℕ)
      → add_entries heap_start heap_end new es ≡ pool free total
      → ArePages free
      → init api new es heap_start heap_end
        ≡ (if is_empty free then panic else returned (pool free total))
  unfolding init
  init-pool es hs he total [] e h = rw e (unfold alloc_frame in refl)
  init-pool es hs he total (x ∷ xs) e h =
      let (f, took, back, start) = alloc_frame-cons x xs total h.0 h.1 in
      rw e (rw took (ap returned back))

  -- `init` over a memory map of 52-bit regions: the pool then holds each usable 4-KiB frame that
  -- does not meet the heap, once for every entry that it lies in, and nothing else; the call
  -- panics exactly when there is no such frame.
  pub init_lem :
      (es : List Entry) (heap_start heap_end : ℕ)
      → heap_start ≤ heap_end
      → AreBounded es
      → (s : FrameAllocator) × ((a : ℕ) → occurs a s.free ≡ available_in heap_start heap_end es a)
        × (init api new es heap_start heap_end ≡ (if is_empty s.free then panic else returned s))
  init_lem es hs he ordered bounded =
      let s = add_entries hs he new es in
      let counts : (a : ℕ) → occurs a s.free ≡ available_in hs he es a =
        λ a. unfold new in omega (arith, occurs-add_entries hs he ordered new es a bounded) in
      (
        s,
        counts,
        init-pool es hs he s.total_added s.free refl (
            ArePages-of_occurs s.free
              (λ a p. available-lt hs he es a bounded (omega (arith, counts a)))),
      )

  free_of_alloc_frame :
      (s s' : FrameAllocator) (f : PhysFrame)
      → ArePages s.free
      → alloc_frame api s ≡ returned (some f, s')
      → s.free ≡ start_address f ∷ s'.free
  free_of_alloc_frame s s' f pages took = elim (alloc_frame_lem s.free s.total_added pages) [
    | inl (e, failed) ↦ cc
    | inr (g, t, took', back, e) ↦
        let fst : g ≡ f = cc in let snd : t ≡ s' = cc in rw (← fst, ← snd) e
  ]

  -- After `init` over regions that do not overlap (no frame is available twice), a frame that
  -- `alloc_frame` hands out was available and is no longer in the pool.
  pub init-alloc_frame :
      (es : List Entry) (heap_start heap_end : ℕ) (s s' : FrameAllocator) (f : PhysFrame)
      → heap_start ≤ heap_end
      → AreBounded es
      → ((a : ℕ) → available_in heap_start heap_end es a ≤ 1)
      → init api new es heap_start heap_end ≡ returned s
      → alloc_frame api s ≡ returned (some f, s')
      → (available_in heap_start heap_end es (start_address f) ≡ 1)
        × (occurs (start_address f) s'.free ≡ 0)
  init-alloc_frame es hs he s s' f ordered bounded disjoint booted took =
      let (t, counts, booted') = init_lem es hs he ordered bounded in
      let e : t ≡ s = same t.free t (sym booted' ∙ booted) in
      let pages : ArePages s.free =
        ArePages-of_occurs s.free (λ a p. available-lt hs he es a bounded (rw (← counts a, e) p)) in
      let top : s.free ≡ start_address f ∷ s'.free = free_of_alloc_frame s s' f pages took in
      let here : occurs (start_address f) s.free ≡ 1 + occurs (start_address f) s'.free =
        rw top (ground arith) in
      let seen : available_in hs he es (start_address f) ≡ 1 + occurs (start_address f) s'.free =
        rw (← counts (start_address f), e) here in
      omega (arith, disjoint (start_address f))
    where
      same :
          (free : List ℕ) (t : FrameAllocator)
          → (if is_empty free then panic else returned t) ≡ returned s
          → t ≡ s
      same [] t h = cc
      same (x ∷ xs) t h = cc
