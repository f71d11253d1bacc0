-- ===== src/Slab/Tests.antt =====
-- An allocator that never uses a block twice, and a driver that resizes a buffer and frees it.
use field_os.Prelude.Outcome.{add64, sub64}
use field_os.Prelude.{
  ◌≢◌, ℕ, ◌+◌, ◌*◌, ◌/◌, ◌^◌, ◌≡◌, refl, arith, Bool, ◌&&◌, not, Bool-cases, inl, inr, leb, ◌==◌,
  if◌then◌else◌, update,
}
use field_os.Slab.{Memory, write_header, kmalloc, krealloc}
use field_os.Slab.Calls.{Calls, start, mallocs, reallocs, Calls-Agrees}
use field_os.Slab.Operations.{resized, Answer, refused, granted, Contract}

record Bump : Type 0 where
  next : ℕ
  sizes : ℕ → ℕ

abbrev room : ℕ → Bump → Bool
room n e = not (e.next == 0) && leb (e.next + n) (2 ^ 63)

abbrev put : ℕ → (ℕ → ℕ) → Bump → ℕ × Bump
put n rest e =
    if room n e
    then (e.next, record { next = e.next + (n + 15) / 16 * 16; sizes = update rest e.next n })
    else (0, e)

abbrev alloc : ℕ → Bump → ℕ × Bump
alloc n e = put n e.sizes e

abbrev realloc : ℕ → ℕ → ℕ → Bump → ℕ × Bump
realloc p old n e = put n (update e.sizes p 0) e

abbrev dealloc : ℕ → ℕ → Bump → Bump
dealloc p n e = record e { sizes = update e.sizes p 0 }

put-Answer :
    (n : ℕ) (rest : ℕ → ℕ) (e : Bump)
    → Answer e.sizes rest (put n rest e).1.sizes n (put n rest e).0
put-Answer n rest e = elim (Bool-cases (room n e)) [
  | inl fits ↦ rw fits (granted (ground arith) (ground arith) refl)
  | inr full ↦ rw full (refused refl refl)
]

bump-Contract : Contract alloc realloc dealloc (λ e. e.sizes)
bump-Contract = record {
  allocates = λ n e some_bytes fits. put-Answer n e.sizes e;
  reallocates = λ p n e there some_bytes fits. put-Answer n (update e.sizes p 0) e;
  deallocates = λ p e there. refl;
}

abbrev empty : Memory alloc realloc dealloc
empty = record { env = record { next = 0x1000; sizes = λ a. 0 }; sizes = λ a. 0; bytes = λ a. 0 }

-- 100 bytes at 0x1010, then 300 at 0x1090.
first : (kmalloc alloc realloc dealloc 100 empty).0 ≡ 0x1010
unfolding kmalloc write_header
first = refl

abbrev one : Memory alloc realloc dealloc
one = (kmalloc alloc realloc dealloc 100 empty).1

second : (krealloc alloc realloc dealloc 0x1010 300 one).0 ≡ 0x1090
unfolding kmalloc krealloc write_header
second = refl

abbrev two : Memory alloc realloc dealloc
two = (krealloc alloc realloc dealloc 0x1010 300 one).1

abbrev held_one : ℕ → ℕ
held_one = resized (λ p. 0) (λ p. 0) (kmalloc alloc realloc dealloc 100 empty).0 100

abbrev held_two : ℕ → ℕ
held_two =
    resized held_one (update held_one 0x1010 0) (krealloc alloc realloc dealloc 0x1010 300 one).0
      300

allocated : Calls bump-Contract held_one one
allocated = mallocs 100 (start refl)

grown : Calls bump-Contract held_two two
unfolding kmalloc write_header
grown = reallocs 0x1010 300 allocated (omega arith) (omega arith) (omega arith)

Calls-Agrees_example :
    ((a : ℕ) → two.env.sizes a ≡ (if held_two (a + 16) == 0 then 0 else held_two (a + 16) + 16))
    × ((p : ℕ)
        → held_two p ≢ 0
        → (two.env.sizes (sub64 p 16) ≡ held_two p + 16)
          × (add64 (two.sizes (sub64 p 16)) 16 ≡ held_two p + 16))
Calls-Agrees_example = Calls-Agrees bump-Contract grown
