-- ===== src/Kbd/Atomic.antt =====
-- `ring_push` and `ring_pop` as runs of their atomic accesses.
use field_os.Prelude.{
  ℕ, ◌+◌, ◌%◌, refl, List, [], ◌∷◌, ◌++◌, append-nil, Bool-cases, inl, inr, ◌==◌, eqb→eq, eqb→ne,
  if◌then◌else◌, update,
}
use field_os.Kbd.{KbdRing, push_loaded, ring_push, ring_pop}
use field_os.Kbd.Keys.{put}
use field_os.Kbd.Interleaving.{
  Producer, Consumer, ready, loaded_head, has_room, written, waiting, loaded_tail, not_empty,
  has_read, System, load_head, drop_byte, check_room, write_slot, store_head, load_tail, find_empty,
  check_some, read_slot, store_tail, Reach, here, next,
}

-- The bytes that a push adds to the accepted ones: none if the ring is full.
abbrev pub accepted_by : KbdRing → ℕ → List ℕ
accepted_by r b = if (r.head + 1) % 256 == r.tail then [] else b ∷ []

abbrev pub at : KbdRing → Producer → Consumer → List ℕ → List ℕ → System
at r p c acc rec = record { ring = r; producer = p; consumer = c; accepted = acc; received = rec }

-- Uninterrupted, the producer's accesses for a byte do what `ring_push` does.
pub ring_push-Reach :
    (r : KbdRing) (b : ℕ) (acc rec : List ℕ)
    → Reach
        (at r ready waiting acc rec)
        (at (ring_push r b) ready waiting (acc ++ accepted_by r b) rec)
unfolding ring_push push_loaded
ring_push-Reach r b acc rec =
    let loaded : Reach (at r ready waiting acc rec) (at r (loaded_head b r.head) waiting acc rec) =
      next here (load_head (at r ready waiting acc rec) b refl) in
    let s = at r (loaded_head b r.head) waiting acc rec in
    elim (Bool-cases ((r.head + 1) % 256 == r.tail)) [
      | inl full ↦
          rw (full, append-nil acc)
            (next loaded (drop_byte s b r.head refl (eqb→eq ((r.head + 1) % 256) r.tail full)))
      | inr room ↦
          let r' = record r { buf = update r.buf r.head b } in
          rw room (
            next
              (next
                (next loaded (check_room s b r.head refl (eqb→ne ((r.head + 1) % 256) r.tail room)))
                (write_slot (at r (has_room b r.head) waiting acc rec) b r.head refl))
              (store_head (at r' (written b r.head) waiting acc rec) b r.head refl))
    ]

-- Uninterrupted, the consumer's accesses do what `ring_pop` does.
ring_pop-Reach :
    (r : KbdRing) (acc rec : List ℕ)
    → Reach
        (at r ready waiting acc rec)
        (at (ring_pop r).1 ready waiting acc (rec ++ put (ring_pop r).0 []))
unfolding ring_pop
ring_pop-Reach r acc rec =
    let loaded : Reach (at r ready waiting acc rec) (at r ready (loaded_tail r.tail) acc rec) =
      next here (load_tail (at r ready waiting acc rec) refl) in
    let s = at r ready (loaded_tail r.tail) acc rec in
    elim (Bool-cases (r.head == r.tail)) [
      | inl empty ↦
          rw (empty, append-nil rec)
            (next loaded (find_empty s r.tail refl (eqb→eq r.head r.tail empty)))
      | inr some_left ↦ rw some_left (
          next
            (next (next loaded (check_some s r.tail refl (eqb→ne r.head r.tail some_left)))
              (read_slot (at r ready (not_empty r.tail) acc rec) r.tail refl))
            (store_tail (at r ready (has_read r.tail (r.buf r.tail)) acc rec) r.tail (r.buf r.tail)
              refl))
    ]

-- Uninterrupted, the accesses of the two sides do what `ring_push` and `ring_pop` do, from every
-- state of the ring in which neither of them is in the middle of an operation.
pub accesses-Reach :
    (r : KbdRing) (b : ℕ) (acc rec : List ℕ)
    → Reach
        (at r ready waiting acc rec)
        (at (ring_push r b) ready waiting (acc ++ accepted_by r b) rec)
      × Reach
          (at r ready waiting acc rec)
          (at (ring_pop r).1 ready waiting acc (rec ++ put (ring_pop r).0 []))
accesses-Reach r b acc rec = (ring_push-Reach r b acc rec, ring_pop-Reach r acc rec)
