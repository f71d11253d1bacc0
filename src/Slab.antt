-- ===== src/Slab.antt =====
-- linuxkpi/src/slab.rs: `kmalloc`, `kzalloc`, `krealloc` and `kfree` over the kernel's allocator.
pub mod Calls
pub mod Layouts
pub mod Operations
mod Tests
use field_os.Prelude.{ℕ, ◌+◌, ◌-◌, ◌^◌, ◌&&◌, Bool, not, ltb, leb, ◌==◌, if◌then◌else◌, update, min}
use field_os.Prelude.Outcome.{add64, sub64}

abbrev pub header_size : ℕ
header_size = 16

-- `Layout::from_size_align` with the alignment 16: the size, rounded up, is at most `isize::MAX`.
abbrev pub is_layout : ℕ → Bool
is_layout total = leb total (2 ^ 63 - 16)

-- `write_bytes`, and what `realloc` keeps of the bytes of a block.
pub zeroed : ℕ → ℕ → (ℕ → ℕ) → ℕ → ℕ
zeroed p size bytes a = if leb p a && ltb a (p + size) then 0 else bytes a

pub moved : ℕ → ℕ → ℕ → (ℕ → ℕ) → ℕ → ℕ
moved from to size bytes a =
    if leb to a && ltb a (to + size) then bytes (a - to + from) else bytes a

-- The global allocator is a parameter, with its state: a call takes the size of the layout, whose
-- alignment is always 16, and the null pointer is 0.
module _ {E : Type 0} (alloc : ℕ → E → ℕ × E) (realloc : ℕ → ℕ → ℕ → E → ℕ × E)
    (dealloc : ℕ → ℕ → E → E) where
  -- The field `size` of each header, by the header's address, stands apart from the bytes of the
  -- payloads.
  pub record Memory : Type 0 where
    pub env : E
    pub sizes : ℕ → ℕ
    pub bytes : ℕ → ℕ

  -- From the answer of the allocator on.
  pub write_header : ℕ → ℕ × E → Memory → ℕ × Memory
  write_header size (raw, env) m =
      if raw == 0
      then (0, record m { env = env })
      else (add64 raw header_size, record m { env = env; sizes = update m.sizes raw size })

  pub kmalloc : ℕ → Memory → ℕ × Memory
  kmalloc size m =
      let total = size + header_size in
      if size == 0
      then (0, m)
      else if leb (2 ^ 64) total
      then (0, m)
      else if not (is_layout total)
      then (0, m)
      else write_header size (alloc total m.env) m

  pub kzalloc : ℕ → Memory → ℕ × Memory
  kzalloc size m =
      let (p, m') = kmalloc size m in
      if p == 0 then (0, m') else (p, record m' { bytes = zeroed p size m'.bytes })

  pub kfree : ℕ → Memory → Memory
  kfree p m =
      let header_ptr = sub64 p header_size in
      let total = add64 (m.sizes header_ptr) header_size in
      if p == 0 then m else record m { env = dealloc header_ptr total m.env }

  pub krealloc : ℕ → ℕ → Memory → ℕ × Memory
  krealloc p new_size m =
      let new_total = new_size + header_size in
      let header_ptr = sub64 p header_size in
      let old_total = add64 (m.sizes header_ptr) header_size in
      let (raw, env) = realloc header_ptr old_total new_total m.env in
      let kept = moved header_ptr raw (min old_total new_total) m.bytes in
      let moved_to = record m { bytes = if raw == 0 then m.bytes else kept } in
      if p == 0
      then kmalloc new_size m
      else if new_size == 0
      then (0, kfree p m)
      else if leb (2 ^ 64) new_total
      then (0, m)
      else write_header new_size (raw, env) moved_to
