-- ===== src/Xhci/EventRing.antt =====
-- The event ring between the controller, which posts blocks, and the consumer in the kernel.
use field_os.Prelude.{
  ℕ, ◌+◌, ◌-◌, ◌*◌, ◌/◌, ◌%◌, ◌^◌, ◌<◌, ◌≤◌, ◌≡◌, ◌≢◌, List, [], ◌∷◌, ◌++◌, Option, none, some, ltb,
  ◌==◌, if◌then◌else◌, length, get_elem?, update, drop,
}
use field_os.Xhci.{Trb, Consumer, event_ring_trbs, try_event}

-- The ring in memory, the controller's position and cycle state, and the consumer.
pub record Shared : Type 0 where
  pub ring : ℕ → Trb
  pub enqueue : ℕ
  pub cycle : ℕ
  pub consumer : Consumer

-- A block with the cycle bit of the controller's current pass.
abbrev pub stamp : Trb → ℕ → Trb
stamp t c = record t { d3 = t.d3 / 2 * 2 + c }

-- The slot that ERDP names: the controller goes no further than to the slot before it.
abbrev pub freed_up_to : Consumer → ℕ
freed_up_to c = c.erdp / 16 - c.event_ring_phys / 16

-- The controller posts a block, unless the ring is full.
unfoldable pub post : Shared → Trb → Shared
post s t =
    let next = (s.enqueue + 1) % event_ring_trbs in
    if next == freed_up_to s.consumer then s else record s {
      ring = update s.ring s.enqueue (stamp t s.cycle);
      enqueue = next;
      cycle = if next == 0 then 1 - s.cycle else s.cycle;
    }

unfoldable pub post_all : Shared → List Trb → Shared
post_all s [] = s
post_all s (t ∷ ts) = post_all (post s t) ts

-- A call of `try_event` between whose two reads the controller posts the blocks `between`.
unfoldable pub take : Shared → List Trb → Option (ℕ × ℕ) × Shared
unfolding try_event
take s between =
    let s' = post_all s between in
    let (event, consumer) = try_event s.ring s'.ring s.consumer in
    (event, record s' { consumer = consumer })

pub data Op : Type 0 where
  posts : Trb → Op
  takes : List Trb → Op

-- The events that the consumer gets, in a run of the two sides.
unfoldable pub run : List Op → Shared → List (Option (ℕ × ℕ))
run [] s = []
run (posts t ∷ ops) s = run ops (post s t)
run (takes between ∷ ops) s = let (event, s') = take s between in event ∷ run ops s'

-- A queue of at most fifteen blocks.
abbrev pub queue_post : List Trb → Trb → List Trb
queue_post ts t = if ltb (length ts) 15 then ts ++ (t ∷ []) else ts

abbrev pub queue_posts : List Trb → List Trb → List Trb
queue_posts ts [] = ts
queue_posts ts (m ∷ ms) = queue_posts (queue_post ts m) ms

-- The type of a block is in bits 10 to 15 of its last word, and the completion code in the highest
-- byte of the word before.
abbrev pub type_of : Trb → ℕ
type_of t = t.d3 / 1024 % 64

abbrev pub code_of : Trb → ℕ
code_of t = t.d2 / 16777216 % 256

abbrev pub event_of : Trb → ℕ × ℕ
event_of t = (type_of t, code_of t)

-- The completion codes in the sixteen slots, counted from the consumer's slot on: a posted block puts
-- its own behind the pending blocks, and a call that returns a block moves on by one slot.
abbrev pub codes_post : (ℕ → ℕ) → ℕ → Trb → ℕ → ℕ
codes_post codes pending t = if ltb pending 15 then update codes pending (code_of t) else codes

abbrev pub codes_posts : (ℕ → ℕ) → List Trb → List Trb → ℕ → ℕ
codes_posts codes ts [] = codes
codes_posts codes ts (m ∷ ms) = codes_posts (codes_post codes (length ts) m) (queue_post ts m) ms

abbrev pub codes_next : (ℕ → ℕ) → ℕ → ℕ
codes_next codes k = codes ((k + 1) % 16)

abbrev pub codes_take : List Trb → (ℕ → ℕ) → ℕ → ℕ
codes_take [] codes = codes
codes_take (t ∷ ts) codes = codes_next codes

-- What a call gives when `ts` are pending at its first read, and the blocks `between` come before its
-- second: the event of the oldest pending block. Of a block that only came between the reads it gives
-- the type, with the completion code of the block that was in the slot before.
abbrev pub answer : List Trb → (ℕ → ℕ) → List Trb → Option (ℕ × ℕ)
answer (t ∷ ts) codes between = some (event_of t)
answer [] codes [] = none
answer [] codes (m ∷ between) = some (type_of m, codes 0)

-- What the calls of a run give, one after the other.
abbrev pub run_queue : List Op → List Trb → (ℕ → ℕ) → List (Option (ℕ × ℕ))
run_queue [] ts codes = []
run_queue (posts t ∷ ops) ts codes =
    run_queue ops (queue_post ts t) (codes_post codes (length ts) t)
run_queue (takes between ∷ ops) ts codes =
    let there = queue_posts ts between in
    answer ts codes between
    ∷ run_queue ops (drop 1 there) (codes_take there (codes_posts codes ts between))

-- A slot that holds a pending block, or one that does not have the cycle bit `c`.
abbrev pub Slot : Trb → Option Trb → ℕ → Type 0
Slot t (some e) c = t ≡ stamp e c
Slot t none c = t.d3 % 2 ≢ c

-- The cycle bit of the slot `k` places on.
abbrev pub cycle_at : Consumer → ℕ → ℕ
cycle_at c k = if ltb (c.event_deq + k) 16 then c.event_ccs else 1 - c.event_ccs

-- The consumer sees the pending blocks `ts`, and nothing behind them.
pub record Sees (ring : ℕ → Trb) (c : Consumer) (ts : List Trb) : Type 0 where
  pub deq_small : c.event_deq < 16
  pub bit : c.event_ccs ≤ 1
  pub few : length ts ≤ 15
  pub slots :
      (k : ℕ) → k < 16 → Slot (ring ((c.event_deq + k) % 16)) (get_elem? ts k) (cycle_at c k)

-- The controller agrees with the consumer.
pub record Holds (s : Shared) (ts : List Trb) : Type 0 where
  pub sees : Sees s.ring s.consumer ts
  pub aligned : s.consumer.event_ring_phys % 16 ≡ 0
  pub fits : s.consumer.event_ring_phys + 256 ≤ 2 ^ 64
  pub freed : freed_up_to s.consumer ≡ s.consumer.event_deq
  pub at : s.enqueue ≡ (s.consumer.event_deq + length ts) % 16
  pub pass : s.cycle ≡ cycle_at s.consumer (length ts)

-- The slots hold these codes.
abbrev pub HasCodes : Shared → (ℕ → ℕ) → Type 0
HasCodes s codes = (k : ℕ) → k < 16 → code_of (s.ring ((s.consumer.event_deq + k) % 16)) ≡ codes k
