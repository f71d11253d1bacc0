-- ===== src/Kbd/Race.antt =====
-- `inject` called from a task, with the keyboard interrupt between its loads and its stores.
use field_os.Prelude.{
  ℕ, ◌+◌, ◌%◌, ◌<◌, ◌≡◌, refl, arith, List, [], ◌∷◌, ◌++◌, ◌==◌, false, length, update,
}
use field_os.Kbd.{KbdRing, push_loaded, ring_push}
use field_os.Kbd.Ring.{Contains, push_room, Contains-write, Window-outside}

-- `inject b` has loaded `head` and `tail`; the interrupt handler pushes `k`; `inject` goes on.
abbrev pub interrupted : KbdRing → ℕ → ℕ → KbdRing
interrupted r k b = push_loaded (ring_push r k) r.head r.tail b

-- If the ring has room for one more byte at the least, the byte that the handler pushed is lost: after the handler the ring holds
-- it, after `inject` the ring holds the injected byte in its place, and no drop is counted.
pub interrupted_lem :
    (r : KbdRing) (xs : List ℕ) (k b : ℕ)
    → Contains r xs
    → length xs < 255
    → Contains (ring_push r k) (xs ++ (k ∷ []))
      × Contains (interrupted r k b) (xs ++ (b ∷ []))
      × ((interrupted r k b).dropped ≡ r.dropped)
unfolding push_loaded
interrupted_lem r xs k b c room =
    let differs : ((r.head + 1) % 256 == r.tail) ≡ false = ground (arith, c.head_at, c.tail_in) in
    let handled = push_room r xs k c room in
    rw (handled, differs)
      (
        Contains-write r xs k c room,
        Contains-write (record r { buf = update r.buf r.head k }) xs b
            (record {
              tail_in = c.tail_in;
              few = c.few;
              head_at = c.head_at;
              window = Window-outside r.buf r.tail k r.head xs c.tail_in c.few c.head_at c.window;
            })
            room,
        refl,
      )
