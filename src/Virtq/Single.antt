-- ===== src/Virtq/Single.antt =====
-- `push_descriptor` is `push_chain` at one part.
use field_os.Prelude.{◌≡◌, arith, [], ◌∷◌}
use field_os.Prelude.Outcome.{returned}
use field_os.Prelude.Bits.{bit_or-zero}
use field_os.Virtq.{
  Part, Virtqueue, push_chain, push_descriptor, take_free, write_chain, without_next,
}

-- On every state of the queue, the empty free list included, `push_chain` with one part and
-- `push_descriptor` agree on the result and on the queue that they leave.
pub push_chain-single :
    (q : Virtqueue) (p : Part)
    → push_chain q (p ∷ []) ≡ returned (push_descriptor q p.addr p.len p.flags)
unfolding push_chain push_descriptor take_free write_chain
push_chain-single q p = rw (bit_or-zero (without_next p.flags)) (ground arith)
