-- ===== src/LinuxVirtio/Queue/Buffers.antt =====
-- The buffers that a driver has in a virtqueue, as the queues of their tokens.
use field_os.Prelude.{
  ℕ, ◌≡◌, refl, ap₂, arith, List, [], ◌∷◌, map, occurs, flatten, occurs-append, update, update_ne,
}
use field_os.Virtq.{Desc, Virtqueue, next_of}
use field_os.Virtq.Chains.{AreChains}
use field_os.Virtq.Push.{Owns}
use field_os.Virtq.System.{Holds}
use field_os.LinuxVirtio.Queue.{ShimVirtqueue}

-- The tokens of the chains `cs`, in order.
abbrev pub tokens_of : (ℕ → ℕ) → List (List ℕ) → List ℕ
tokens_of tokens cs = map (λ c. tokens (next_of c)) cs

-- The queue is sound; the buffers at the device have the tokens `pending`, the newest first; those
-- that it has used and the driver has not yet got back have the tokens `used`, the oldest first.
pub record Agrees (vq : ShimVirtqueue) (heads pending used : List ℕ) : Type 0 where
  pub free : List ℕ
  pub device : List (List ℕ)
  pub done : List (List ℕ)
  pub holds : Holds vq.queue heads free device done
  pub sized : vq.size ≡ vq.queue.size
  pub at_device : tokens_of vq.tokens device ≡ pending
  pub at_driver : tokens_of vq.tokens done ≡ used

-- A write to the slot of a descriptor that is on none of the chains.
pub tokens_of-update :
    (d : ℕ → Desc) (tokens : ℕ → ℕ) (x v : ℕ) (cs : List (List ℕ))
    → AreChains d cs
    → occurs x (flatten cs) ≡ 0
    → tokens_of (update tokens x v) cs ≡ tokens_of tokens cs
tokens_of-update d tokens x v [] chains off = refl
tokens_of-update d tokens x v ([] ∷ cs) chains off = absurd chains.0
tokens_of-update d tokens x v ((y ∷ c) ∷ cs) chains off =
    ap₂ ◌∷◌ (update_ne tokens x y v (ground (arith, occurs-append x (y ∷ c) (flatten cs)))) (
      tokens_of-update d tokens x v cs chains.1
        (omega (arith, occurs-append x (y ∷ c) (flatten cs))))

-- The first descriptor of a chain is on no other one.
pub off_others :
    {q : Virtqueue} {free : List ℕ} (chain : List ℕ) (cs : List (List ℕ))
    → Owns q free (chain ∷ cs)
    → occurs (next_of chain) (flatten cs) ≡ 0
off_others [] cs owns = absurd owns.chains.0
off_others (x ∷ c) cs owns = ground (arith, owns.once x, occurs-append x (x ∷ c) (flatten cs))
