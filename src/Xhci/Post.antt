-- ===== src/Xhci/Post.antt =====
-- The controller posts a block on the event ring.
use field_os.Prelude.{
  ℕ, ◌+◌, ◌-◌, ◌%◌, ◌<◌, ◌≡◌, ◌≢◌, inl, inr, refl, arith, List, [], ◌∷◌, ◌++◌, Bool-cases, false,
  ◌==◌, if◌then◌else◌, length, length-append, get_elem?, update, update_self, update_ne,
}
use field_os.Xhci.{Trb}
use field_os.Xhci.EventRing.{Shared, stamp, freed_up_to, post, Slot, cycle_at, Holds}
use field_os.Xhci.Fifo.{get_elem?-append_left, get_elem?-append_end}

-- Posting on a ring that is not full.
module _ (s : Shared) (t : Trb) (ts : List Trb) (holds : Holds s ts) where
  pub post_full : length ts ≡ 15 → post s t ≡ s
  unfolding post
  post_full full = ground (arith, holds.freed, holds.at, full, holds.sees.deq_small)

  module _ (room : length ts < 15) where
    abbrev pub posted_state : Shared
    posted_state = record s {
      ring = update s.ring s.enqueue (stamp t s.cycle);
      enqueue = (s.enqueue + 1) % 16;
      cycle = if (s.enqueue + 1) % 16 == 0 then 1 - s.cycle else s.cycle;
    }

    pub post_room : post s t ≡ posted_state
    unfolding post
    post_room =
        let free : ((s.enqueue + 1) % 16 == freed_up_to s.consumer) ≡ false =
          ground (arith, holds.freed, holds.at, holds.sees.deq_small, room) in
        rw free refl

    new_slot :
        (k : ℕ)
        → k < 16
        → Slot
            (posted_state.ring ((s.consumer.event_deq + k) % 16))
            (get_elem? (ts ++ (t ∷ [])) k)
            (cycle_at s.consumer k)
    new_slot k small = elim (Bool-cases (k == length ts)) [
      | inl here ↦
          let e : k ≡ length ts = ground arith in
          rw (e, get_elem?-append_end ts t, ← holds.at, ← holds.pass)
            (update_self s.ring s.enqueue (stamp t s.cycle))
      | inr other ↦
          let ne : k ≢ length ts = ground arith in
          let apart : s.enqueue ≢ (s.consumer.event_deq + k) % 16 =
            λ e. omega (arith, holds.at, ne, holds.sees.deq_small, holds.sees.few) in
          rw
            (
              get_elem?-append_left ts t k ne,
              update_ne s.ring s.enqueue ((s.consumer.event_deq + k) % 16) (stamp t s.cycle) apart,
            )
            (holds.sees.slots k small)
    ]

    pub post-Holds : Holds (post s t) (ts ++ (t ∷ []))
    post-Holds = rw post_room (record {
      sees = record {
        deq_small = holds.sees.deq_small;
        bit = holds.sees.bit;
        few = omega (arith, length-append ts (t ∷ []), room);
        slots = new_slot;
      };
      aligned = holds.aligned;
      fits = holds.fits;
      freed = holds.freed;
      at = omega (arith, length-append ts (t ∷ []), holds.at);
      pass = ground (
        arith,
        length-append ts (t ∷ []),
        holds.at,
        holds.pass,
        room,
        holds.sees.deq_small,
        holds.sees.bit,
      );
    })
