-- ===== src/Virtq/System.antt =====
-- The driver and the device together, as a step relation: what holds of a queue at any time.
use Prim.Native.Nat.{◌∣◌}
use field_os.Prelude.{ℕ, ◌%◌, ◌^◌, ◌<◌, ◌≡◌, List, ◌∷◌, ◌++◌, map, some, length, update}
use field_os.Prelude.Outcome.{returned}
use field_os.Virtq.{UsedElem, Part, Virtqueue, next_of, add16, push_chain, pop_used}
use field_os.Virtq.Walk.{AreWords}
use field_os.Virtq.Push.{Owns}
use field_os.Virtq.Ring.{InRing}

-- The device writes an element into the next slot of the used ring.
unfoldable pub complete : Virtqueue → UsedElem → Virtqueue
complete q elem = record q {
  used_ring = update q.used_ring (q.used_idx % q.size) elem;
  used_idx = add16 q.used_idx 1;
}

-- A queue and the heads that were published and that the device has not yet used.
pub record State : Type 0 where
  pub q : Virtqueue
  pub heads : List ℕ

-- The driver pushes and pops; the device uses a chain of its choice, once.
pub data Step : State → State → Type 0 where
  push :
      {q q' : Virtqueue} {heads : List ℕ} (parts : List Part) (head : ℕ)
      → AreWords parts
      → length parts < 2 ^ 16
      → push_chain q parts ≡ returned (some head, q')
      → Step (record { q = q; heads = heads }) (record { q = q'; heads = head ∷ heads })
  use_chain :
      {q : Virtqueue} {heads heads' : List ℕ} (before after : List ℕ) (elem : UsedElem)
      → heads ≡ before ++ (elem.id ∷ after)
      → heads' ≡ before ++ after
      → Step (record { q = q; heads = heads }) (record { q = complete q elem; heads = heads' })
  pop :
      {q q' : Virtqueue} {heads : List ℕ} (elem : UsedElem)
      → pop_used q.size q ≡ some (some elem, q')
      → Step (record { q = q; heads = heads }) (record { q = q'; heads = heads })

pub data Reach (s : State) : State → Type 0 where
  here : Reach s s
  next : {t u : State} → Reach s t → Step t u → Reach s u

-- The chains at the device, and those used and not yet popped, oldest first.
pub record Holds (q : Virtqueue) (heads : List ℕ) (free : List ℕ) (device done : List (List ℕ))
    : Type 0 where
  pub divides : q.size ∣ 2 ^ 16
  pub owns : Owns q free (device ++ done)
  pub small_idx : q.last_used_idx < 2 ^ 16
  pub used_idx : q.used_idx ≡ add16 q.last_used_idx (length done)
  pub ring : InRing q.size q.used_ring q.last_used_idx done
  pub at_device : heads ≡ map next_of device

pub record IsSound (s : State) : Type 0 where
  pub free : List ℕ
  pub device : List (List ℕ)
  pub done : List (List ℕ)
  pub holds : Holds s.q s.heads free device done
