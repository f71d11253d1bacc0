-- ===== src/Kbd/Ring.antt =====
-- The keyboard ring as a queue of at most 255 bytes.
use field_os.Prelude.{
  ℕ, ◌+◌, ◌%◌, ◌≤◌, ◌<◌, ◌≡◌, refl, sym, ap, ◌∙◌, arith, List, [], ◌∷◌, ◌++◌, Option, none, some,
  Bool-cases, inl, inr, ltb, ltb→lt, true, false, ◌==◌, if◌then◌else◌, length, length-append,
  update, update_self, update_ne,
}
use field_os.Prelude.Outcome.{add64}
use field_os.Kbd.{KbdRing, push_loaded, ring_push, ring_pop}

-- The bytes `xs` stand in the array from the index `i` on, going round at 256.
abbrev pub Window : (ℕ → ℕ) → ℕ → List ℕ → Type 0
Window buf i [] = Unit {0}
Window buf i (x ∷ xs) = (buf i ≡ x) × Window buf ((i + 1) % 256) xs

-- The ring holds the unread bytes `xs`, oldest first.
pub record Contains (r : KbdRing) (xs : List ℕ) : Type 0 where
  pub tail_in : r.tail < 256
  pub few : length xs ≤ 255
  pub head_at : r.head ≡ (r.tail + length xs) % 256
  pub window : Window r.buf r.tail xs

-- A write just past the window extends it.
pub Window-write :
    (buf : ℕ → ℕ) (i b j : ℕ) (xs : List ℕ)
    → i < 256
    → length xs ≤ 255
    → j ≡ (i + length xs) % 256
    → Window buf i xs
    → Window (update buf j b) i (xs ++ (b ∷ []))
Window-write buf i b j [] small few e w =
    let here : j ≡ i = omega arith in (rw here (update_self buf i b), tt)
Window-write buf i b j (x ∷ xs) small few e w = (
  update_ne buf j i b (λ p. omega arith) ∙ w.0,
  Window-write buf ((i + 1) % 256) b j xs (omega arith) (omega arith) (omega arith) w.1,
)

-- A write outside the window leaves it.
pub Window-outside :
    (buf : ℕ → ℕ) (i b j : ℕ) (xs : List ℕ)
    → i < 256
    → length xs ≤ 255
    → j ≡ (i + length xs) % 256
    → Window buf i xs
    → Window (update buf j b) i xs
Window-outside buf i b j [] small few e w = tt
Window-outside buf i b j (x ∷ xs) small few e w = (
  update_ne buf j i b (λ p. omega arith) ∙ w.0,
  Window-outside buf ((i + 1) % 256) b j xs (omega arith) (omega arith) (omega arith) w.1,
)

-- A window whose next slot holds `b` is one byte longer.
pub Window-extend :
    (buf : ℕ → ℕ) (i b j : ℕ) (xs : List ℕ)
    → j ≡ (i + length xs) % 256
    → i < 256
    → buf j ≡ b
    → Window buf i xs
    → Window buf i (xs ++ (b ∷ []))
Window-extend buf i b j [] e small h w =
    let here : j ≡ i = omega arith in (ap buf (sym here) ∙ h, tt)
Window-extend buf i b j (x ∷ xs) e small h w =
    (w.0, Window-extend buf ((i + 1) % 256) b j xs (omega arith) (omega arith) h w.1)

-- The queue that the ring stands for: a push on 255 unread bytes is dropped.
abbrev pub queue_push : List ℕ → ℕ → List ℕ
queue_push xs b = if ltb (length xs) 255 then xs ++ (b ∷ []) else xs

abbrev pub queue_head : List ℕ → Option ℕ
queue_head [] = none
queue_head (x ∷ xs) = some x

abbrev pub queue_tail : List ℕ → List ℕ
queue_tail [] = []
queue_tail (x ∷ xs) = xs

pub push_room :
    (r : KbdRing) (xs : List ℕ) (b : ℕ)
    → Contains r xs
    → length xs < 255
    → ring_push r b ≡ record r { buf = update r.buf r.head b; head = (r.head + 1) % 256 }
unfolding ring_push push_loaded
push_room r xs b c room =
    let differs : ((r.head + 1) % 256 == r.tail) ≡ false = ground (arith, c.head_at, c.tail_in) in
    rw differs

push_full :
    (r : KbdRing) (xs : List ℕ) (b : ℕ)
    → Contains r xs
    → length xs ≡ 255
    → ring_push r b ≡ record r { dropped = add64 r.dropped 1 }
unfolding ring_push push_loaded
push_full r xs b c full =
    let meets : ((r.head + 1) % 256 == r.tail) ≡ true = ground (arith, c.head_at, c.tail_in) in
    rw meets

pub Contains-write :
    (r : KbdRing) (xs : List ℕ) (b : ℕ)
    → Contains r xs
    → length xs < 255
    → Contains
        (record r { buf = update r.buf r.head b; head = (r.head + 1) % 256 })
        (xs ++ (b ∷ []))
Contains-write r xs b c room = record {
  tail_in = c.tail_in;
  few = omega (arith, length-append xs (b ∷ []));
  head_at = omega (arith, length-append xs (b ∷ []), c.head_at);
  window = Window-write r.buf r.tail b r.head xs c.tail_in c.few c.head_at c.window;
}

-- On a ring that holds a queue of unread bytes, `ring_push` appends the byte, unless 255 bytes are unread: then it only counts a dropped byte.
ring_push_refines :
    (r : KbdRing) (xs : List ℕ) (b : ℕ)
    → Contains r xs
    → Contains (ring_push r b) (queue_push xs b)
      × ((ring_push r b).dropped ≡ (if ltb (length xs) 255 then r.dropped else add64 r.dropped 1))
ring_push_refines r xs b c = elim (Bool-cases (ltb (length xs) 255)) [
  | inl room ↦
      let fits = ltb→lt (length xs) 255 room in
      rw (push_room r xs b c fits, room) (Contains-write r xs b c fits, refl)
  | inr full ↦
      let e : length xs ≡ 255 = ground (arith, c.few) in
      rw (push_full r xs b c e, full)
        (record { tail_in = c.tail_in; few = c.few; head_at = c.head_at; window = c.window }, refl)
]

-- On a ring that holds a queue of unread bytes, `ring_pop` returns the oldest unread byte, and takes it off; on an empty ring it returns `None`
-- and changes nothing.
ring_pop_refines :
    (r : KbdRing) (xs : List ℕ)
    → Contains r xs
    → ((ring_pop r).0 ≡ queue_head xs) × Contains (ring_pop r).1 (queue_tail xs)
unfolding ring_pop
ring_pop_refines r [] c =
    let meets : (r.head == r.tail) ≡ true = ground (arith, c.head_at, c.tail_in) in
    rw meets (refl, c)
ring_pop_refines r (x ∷ xs) c =
    let differs : (r.head == r.tail) ≡ false = ground (arith, c.head_at, c.tail_in, c.few) in
    rw differs (
      ap some c.window.0,
      record {
        tail_in = omega arith;
        few = omega (arith, c.few);
        head_at = omega (arith, c.head_at, c.few, c.tail_in);
        window = c.window.1;
      },
    )

-- On a ring that holds a queue of unread bytes: `ring_push` appends the byte, unless 255 bytes are
-- unread, and then it only counts a dropped byte; `ring_pop` returns the oldest unread byte and takes
-- it off, and on an empty ring it returns `None` and changes nothing.
pub ring_refines :
    (r : KbdRing) (xs : List ℕ) (b : ℕ)
    → Contains r xs
    → Contains (ring_push r b) (queue_push xs b)
      × ((ring_push r b).dropped ≡ (if ltb (length xs) 255 then r.dropped else add64 r.dropped 1))
      × ((ring_pop r).0 ≡ queue_head xs)
      × Contains (ring_pop r).1 (queue_tail xs)
ring_refines r xs b c =
    let (pushed, dropped) = ring_push_refines r xs b c in
    let (oldest, popped) = ring_pop_refines r xs c in (pushed, dropped, oldest, popped)
