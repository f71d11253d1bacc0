-- ===== src/Slab/Calls.antt =====
-- Any calls of a driver, over an allocator that keeps the contract of `GlobalAlloc`.
use field_os.Prelude.{ℕ, ◌+◌, ◌≤◌, ◌≡◌, ◌≢◌, refl, ◌==◌, if◌then◌else◌, update}
use field_os.Prelude.Outcome.{add64, sub64}
use field_os.Slab.{Memory, kmalloc, kzalloc, kfree, krealloc}
use field_os.Slab.Layouts.{placed}
use field_os.Slab.Operations.{
  resized, layout_max, Contract, Fits, kmalloc-Agrees, kzalloc-Agrees, kfree-Agrees,
  krealloc-Agrees, krealloc_away,
}

module _ {E : Type 0} {alloc : ℕ → E → ℕ × E} {realloc : ℕ → ℕ → ℕ → E → ℕ × E}
    {dealloc : ℕ → ℕ → E → E} {blocks : E → ℕ → ℕ}
    (contract : Contract alloc realloc dealloc blocks) where
  -- What a driver does: `held` are the sizes of its payloads.
  pub data Calls : (ℕ → ℕ) → Memory alloc realloc dealloc → Type 0 where
    start : {m : Memory alloc realloc dealloc} → blocks m.env ≡ (λ a. 0) → Calls (λ p. 0) m
    writes :
        {held : ℕ → ℕ} {m : Memory alloc realloc dealloc} (bytes : ℕ → ℕ)
        → Calls held m
        → Calls held (record m { bytes = bytes })
    mallocs :
        {held : ℕ → ℕ} {m : Memory alloc realloc dealloc} (size : ℕ)
        → Calls held m
        → Calls
            (resized held held (kmalloc alloc realloc dealloc size m).0 size)
            (kmalloc alloc realloc dealloc size m).1
    zallocs :
        {held : ℕ → ℕ} {m : Memory alloc realloc dealloc} (size : ℕ)
        → Calls held m
        → Calls
            (resized held held (kzalloc alloc realloc dealloc size m).0 size)
            (kzalloc alloc realloc dealloc size m).1
    reallocs :
        {held : ℕ → ℕ} {m : Memory alloc realloc dealloc} (p size : ℕ)
        → Calls held m
        → held p ≢ 0
        → size ≢ 0
        → size + 16 ≤ layout_max
        → Calls
            (resized held (update held p 0) (krealloc alloc realloc dealloc p size m).0 size)
            (krealloc alloc realloc dealloc p size m).1
    reallocs_null :
        {held : ℕ → ℕ} {m : Memory alloc realloc dealloc} (size : ℕ)
        → Calls held m
        → Calls
            (resized held held (krealloc alloc realloc dealloc 0 size m).0 size)
            (krealloc alloc realloc dealloc 0 size m).1
    reallocs_away :
        {held : ℕ → ℕ} {m : Memory alloc realloc dealloc} (p : ℕ)
        → Calls held m
        → held p ≢ 0
        → Calls (update held p 0) (krealloc alloc realloc dealloc p 0 m).1
    frees :
        {held : ℕ → ℕ} {m : Memory alloc realloc dealloc} (p : ℕ)
        → Calls held m
        → held p ≢ 0
        → Calls (update held p 0) (kfree alloc realloc dealloc p m)
    frees_null :
        {held : ℕ → ℕ} {m : Memory alloc realloc dealloc}
        → Calls held m
        → Calls held (kfree alloc realloc dealloc 0 m)

  runs : {held : ℕ → ℕ} {m : Memory alloc realloc dealloc} → Calls held m → Fits contract m held
  unfolding krealloc kfree
  runs (start none_given) = rw none_given (record {
    same = λ a. refl;
    low = λ p h. refl;
    header = λ a h. absurd (h refl);
    room = λ p h. absurd (h refl);
  })
  runs (writes bytes before) = runs before
  runs (mallocs {held} {m} size before) = kmalloc-Agrees contract size m held (runs before)
  runs (zallocs {held} {m} size before) = kzalloc-Agrees contract size m held (runs before)
  runs (reallocs {held} {m} p size before there large fits) =
      krealloc-Agrees contract p size m held (runs before) there large fits
  runs (reallocs_null {held} {m} size before) = kmalloc-Agrees contract size m held (runs before)
  runs (reallocs_away {held} {m} p before there) =
      krealloc_away contract p m held (runs before) there
  runs (frees {held} {m} p before there) = kfree-Agrees contract p m held (runs before) there
  runs (frees_null before) = runs before

  -- However a driver calls `kmalloc`, `kzalloc`, `krealloc` and `kfree`, from a state in which nothing
  -- is given out, if it writes its own payloads only, gives back what it holds, each once, and asks
  -- `krealloc` for less than the largest layout: the blocks that the allocator has given out are those
  -- of the payloads that the driver holds, with 16 bytes more each, and no others; and `kfree` of a
  -- payload names its block with the layout that the block was given out with. This is so for every
  -- allocator that keeps its contract.
  pub Calls-Agrees :
      {held : ℕ → ℕ} {m : Memory alloc realloc dealloc}
      → Calls held m
      → ((a : ℕ) → blocks m.env a ≡ (if held (a + 16) == 0 then 0 else held (a + 16) + 16))
        × ((p : ℕ)
            → held p ≢ 0
            → (blocks m.env (sub64 p 16) ≡ held p + 16)
              × (add64 (m.sizes (sub64 p 16)) 16 ≡ held p + 16))
  Calls-Agrees {held} {m} calls =
      let agrees = runs calls in
      (
        agrees.same,
        λ p there.
            let (a, at, header, block, layout) = placed p agrees there in rw header (block, layout),
      )
