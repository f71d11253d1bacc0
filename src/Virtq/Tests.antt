-- ===== src/Virtq/Tests.antt =====
-- A queue of four descriptors: a request of two parts is pushed, used and popped.
use field_os.Prelude.{
  ℕ, ◌%◌, ◌≤◌, ◌<◌, ◌≡◌, ◌≢◌, ◌⊎◌, refl, arith, List, [], ◌∷◌, none, some, length,
}
use field_os.Prelude.Outcome.{returned, panic}
use field_os.Virtq.{
  UsedElem, Part, Virtqueue, Areas, new, take_free, push_chain, publish, pop_used, link_free,
}
use field_os.Virtq.Push.{Owns, Pushed, push_state, push_state-Owns, push_chain_lem}
use field_os.Virtq.System.{push, use_chain, Reach, here, next, Holds, IsSound, complete}
use field_os.Virtq.Device.{complete-Owns}
use field_os.Virtq.Layout.{Fits, first, first-Holds, range, new_lem}
use field_os.Virtq.Driver.{Popped, pop_used-Popped, Reach-IsSound}

-- A header to read, and a buffer that the device writes.
abbrev header : Part
header = record { addr = 0x10000; len = 16; flags = 0 }

abbrev buffer : Part
buffer = record { addr = 0x20000; len = 512; flags = 2 }

abbrev request : List Part
request = header ∷ buffer ∷ []

abbrev pub queue : Virtqueue
queue = first 4

queue-Holds : Holds queue [] (range 0 4) [] []
queue-Holds = first-Holds 4 (omega arith) (omega arith) refl

-- The queue with the request at the device.
abbrev pub asked : Virtqueue
asked = push_state queue request (0 ∷ 1 ∷ []) 2

push_chain_runs : push_chain queue request ≡ returned (some 0, asked)
unfolding push_chain take_free link_free
push_chain_runs = refl

abbrev pub answer : UsedElem
answer = record { id = 0; len = 512 }

abbrev pub answered : Virtqueue
answered = complete asked answer

asked-Owns : Owns asked (2 ∷ 3 ∷ []) ((0 ∷ 1 ∷ []) ∷ [])
unfolding link_free
asked-Owns =
    push_state-Owns queue header (buffer ∷ []) 0 (1 ∷ []) (2 ∷ 3 ∷ []) [] refl (omega arith)
      queue-Holds.owns 2 (refl, (refl, tt))

pub answered-Holds : Holds answered [] (2 ∷ 3 ∷ []) [] ((0 ∷ 1 ∷ []) ∷ [])
unfolding complete publish
answered-Holds = record {
  divides = queue-Holds.divides;
  owns = complete-Owns asked answer (2 ∷ 3 ∷ []) [] [] [] (0 ∷ 1 ∷ []) asked-Owns;
  small_idx = omega arith;
  used_idx = refl;
  ring = (refl, tt);
  at_device = refl;
}

pub answered_size : 4 ≡ answered.size
unfolding complete publish
answered_size = refl

new_lem_example :
    ((128 % 4 ≢ 0) × (new 4 (some 0x7000) ≡ panic))
    ⊎ ((128 % 4 ≡ 0)
        × (q : Virtqueue) × (areas : Areas) × (new 4 (some 0x7000) ≡ returned (q, areas))
        × Fits 4 0x7000 areas
        × IsSound (record { q = q; heads = [] }))
new_lem_example = new_lem 4 0x7000 (omega arith)

push_chain_lem_example :
    ((push_chain queue request ≡ returned (none, queue))
      × ((length request ≡ 0) ⊎ (4 < length request)))
    ⊎ ((push_chain queue request ≡ panic) × (8 < length request) × (length request ≤ 4))
    ⊎ ((head : ℕ) × (q' : Virtqueue) × (push_chain queue request ≡ returned (some head, q'))
        × Pushed queue q' request head (range 0 4) [])
push_chain_lem_example =
    push_chain_lem queue request (range 0 4) [] queue-Holds.owns (omega arith) (omega arith)

pop_used-Popped_example :
    Popped answered [] (2 ∷ 3 ∷ []) [] ((0 ∷ 1 ∷ []) ∷ []) (pop_used answered.size answered)
pop_used-Popped_example =
    pop_used-Popped answered [] (2 ∷ 3 ∷ []) [] ((0 ∷ 1 ∷ []) ∷ []) answered-Holds

asked_and_answered : Reach (record { q = queue; heads = [] }) (record { q = answered; heads = [] })
asked_and_answered =
    next (next here (push request 0 (omega arith) (omega arith) push_chain_runs))
      (use_chain [] [] answer refl refl)

queue-IsSound : IsSound (record { q = queue; heads = [] })
queue-IsSound = record { free = range 0 4; device = []; done = []; holds = queue-Holds }

Reach-IsSound_example : IsSound (record { q = answered; heads = [] })
Reach-IsSound_example = Reach-IsSound asked_and_answered queue-IsSound
