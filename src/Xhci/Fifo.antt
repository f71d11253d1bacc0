-- ===== src/Xhci/Fifo.antt =====
-- The event ring is a queue.
use field_os.Prelude.{
  ℕ, zero, suc, ◌+◌, ◌-◌, ◌*◌, ◌/◌, ◌%◌, ◌^◌, ◌<◌, ◌≤◌, ◌≡◌, ◌≢◌, inl, inr, refl, ap, ◌∙◌, arith,
  bit_and, bit_or, bit_xor, List, [], ◌∷◌, ◌++◌, none, some, Bool-cases, true, false, ltb, ◌==◌,
  if◌then◌else◌, length, get_elem?, subst,
}
use field_os.Prelude.Bits.{bit_or_add, bit_and_low}
use field_os.Prelude.Outcome.{add64}
use field_os.Xhci.{Trb, Consumer, posted, ev_type, completion_code, advance, try_event, try_event}
use field_os.Xhci.EventRing.{stamp, freed_up_to, type_of, code_of, event_of, Slot, cycle_at, Sees}

pub get_elem?-append_left :
    (ts : List Trb) (t : Trb) (k : ℕ)
    → k ≢ length ts
    → get_elem? (ts ++ (t ∷ [])) k ≡ get_elem? ts k
get_elem?-append_left [] t zero ne = absurd (ne refl)
get_elem?-append_left [] t (suc k) ne = refl
get_elem?-append_left (x ∷ ts) t zero ne = refl
get_elem?-append_left (x ∷ ts) t (suc k) ne = get_elem?-append_left ts t k (λ e. ne (ap suc e))

pub get_elem?-append_end :
    (ts : List Trb) (t : Trb) → get_elem? (ts ++ (t ∷ [])) (length ts) ≡ some t
get_elem?-append_end [] t = refl
get_elem?-append_end (x ∷ ts) t = get_elem?-append_end ts t

pub get_elem?-past : (ts : List Trb) (k : ℕ) → length ts ≤ k → get_elem? ts k ≡ none
get_elem?-past [] k few = refl
get_elem?-past (x ∷ ts) zero few = absurd (omega arith)
get_elem?-past (x ∷ ts) (suc k) few = get_elem?-past ts k (omega arith)

flip : (p : ℕ) → p ≤ 1 → bit_xor p 1 ≡ 1 - p
flip zero h = refl
flip (suc zero) h = refl
flip (suc (suc p)) h = absurd (omega arith)

low_bit : (t : Trb) → bit_and t.d3 1 ≡ t.d3 % 2
low_bit t = bit_and_low 1 t.d3

-- Where the consumer goes.
pub advance_deq : (c : Consumer) → c.event_deq < 16 → (advance c).event_deq ≡ (c.event_deq + 1) % 16
unfolding advance
advance_deq c small = ground arith

pub advance_ccs :
    (c : Consumer)
    → c.event_ccs ≤ 1
    → (advance c).event_ccs ≡ (if c.event_deq + 1 == 16 then 1 - c.event_ccs else c.event_ccs)
unfolding advance
advance_ccs c bit = rw (flip c.event_ccs bit) refl

pub advance_base : (c : Consumer) → (advance c).event_ring_phys ≡ c.event_ring_phys
unfolding advance
advance_base c = refl

-- The slots from the consumer's next position on are the same ones, with the same cycle bits.
advance-slot :
    (c : Consumer) (k : ℕ)
    → c.event_deq < 16
    → c.event_ccs ≤ 1
    → k < 15
    → (((advance c).event_deq + k) % 16 ≡ (c.event_deq + suc k) % 16)
      × (cycle_at (advance c) k ≡ cycle_at c (suc k))
advance-slot c k small bit few =
    let deq = advance_deq c small in
    let ccs = advance_ccs c bit in (omega (arith, deq), ground (arith, deq, ccs))

-- The slot just read is the last one in the next pass.
advance-last :
    (c : Consumer)
    → c.event_deq < 16
    → c.event_ccs ≤ 1
    → (((advance c).event_deq + 15) % 16 ≡ c.event_deq)
      × (cycle_at (advance c) 15 ≡ 1 - c.event_ccs)
advance-last c small bit =
    let deq = advance_deq c small in
    let ccs = advance_ccs c bit in (omega (arith, deq), ground (arith, deq, ccs))

module _ (ring : ℕ → Trb) (c : Consumer) where
  first : (ts : List Trb) → Sees ring c ts → Slot (ring c.event_deq) (get_elem? ts 0) c.event_ccs
  first ts sees =
      let e : (c.event_deq + 0) % 16 ≡ c.event_deq = omega (arith, sees.deq_small) in
      let b : cycle_at c 0 ≡ c.event_ccs = ground (arith, sees.deq_small) in
      subst (λ b. Slot (ring c.event_deq) (get_elem? ts 0) b) b
        (subst (λ i. Slot (ring i) (get_elem? ts 0) (cycle_at c 0)) e (sees.slots 0 (omega arith)))

  pub Sees-none : Sees ring c [] → posted c (ring c.event_deq) ≡ false
  unfolding posted
  Sees-none sees =
      let stale : (ring c.event_deq).d3 % 2 ≢ c.event_ccs = first [] sees in
      ground (arith, low_bit (ring c.event_deq), stale)

  module _ (t : Trb) (ts : List Trb) (sees : Sees ring c (t ∷ ts)) where
    hit : ring c.event_deq ≡ stamp t c.event_ccs
    hit = first (t ∷ ts) sees

    pub Sees-posted : posted c (ring c.event_deq) ≡ true
    unfolding posted
    Sees-posted = rw hit (ground (arith, low_bit (stamp t c.event_ccs), sees.bit))

    -- What the consumer reads off the block does not depend on its cycle bit.
    pub Sees-type : ev_type (ring c.event_deq) ≡ type_of t
    unfolding ev_type
    Sees-type =
        let same : (t.d3 / 2 * 2 + c.event_ccs) / 1024 ≡ t.d3 / 1024 = omega (arith, sees.bit) in
        rw (bit_and_low 6 ((ring c.event_deq).d3 / 1024), hit, same) refl

    pub Sees-code : code_of (ring c.event_deq) ≡ code_of t
    Sees-code = rw hit refl

    last_slot : Slot (ring (((advance c).event_deq + 15) % 16)) none (cycle_at (advance c) 15)
    last_slot =
        let (deq, bit) = advance-last c sees.deq_small sees.bit in
        rw (deq, bit, hit) (λ e. omega (arith, sees.bit))

    pub advance-Sees : Sees ring (advance c) ts
    advance-Sees = record {
      deq_small = omega (arith, advance_deq c sees.deq_small);
      bit = ground (arith, advance_ccs c sees.bit, sees.bit);
      few = omega (arith, sees.few);
      slots = λ k small. elim (Bool-cases (ltb k 15)) [
        | inl within ↦
            let (deq, bit) = advance-slot c k sees.deq_small sees.bit (ground arith) in
            rw (deq, bit) (sees.slots (suc k) (ground arith))
        | inr last ↦
            let e : k ≡ 15 = ground arith in
            rw (e, get_elem?-past ts 15 (omega (arith, sees.few))) last_slot
      ];
    }

pub try_event-none :
    (ring later : ℕ → Trb) (c : Consumer) → Sees later c [] → try_event ring later c ≡ (none, c)
unfolding try_event posted
try_event-none ring later c sees = rw (Sees-none later c sees) refl

-- The block is there at the second read; its completion code is what the slot held at the first.
pub try_event-late :
    (ring later : ℕ → Trb) (c : Consumer) (t : Trb) (ts : List Trb)
    → Sees later c (t ∷ ts)
    → try_event ring later c ≡ (some (type_of t, code_of (ring c.event_deq)), advance c)
unfolding try_event posted ev_type completion_code
try_event-late ring later c t ts sees =
    rw
      (
        Sees-posted later c t ts sees,
        Sees-type later c t ts sees,
        bit_and_low 8 ((ring c.event_deq).d2 / 16777216),
      )
      refl

-- The block is there at both reads.
pub try_event-some :
    (ring later : ℕ → Trb) (c : Consumer) (t : Trb) (ts us : List Trb)
    → Sees ring c (t ∷ ts)
    → Sees later c (t ∷ us)
    → try_event ring later c ≡ (some (event_of t), advance c)
try_event-some ring later c t ts us first second =
    try_event-late ring later c t us second
    ∙ ap (λ code. (some (type_of t, code), advance c)) (Sees-code ring c t ts first)

-- ERDP names the slot to which the consumer went.
pub advance-freed :
    (c : Consumer)
    → c.event_deq < 16
    → c.event_ring_phys % 16 ≡ 0
    → c.event_ring_phys + 256 ≤ 2 ^ 64
    → freed_up_to (advance c) ≡ (advance c).event_deq
unfolding advance
advance-freed c small aligned fits =
    let deq = if c.event_deq + 1 == 16 then 0 else c.event_deq + 1 in
    let room : deq < 16 = ground arith in
    let sum : add64 c.event_ring_phys (deq * 16) ≡ c.event_ring_phys + deq * 16 =
      omega (arith, room) in
    let joined : bit_or (c.event_ring_phys + deq * 16) 8 ≡ c.event_ring_phys + deq * 16 + 8 =
      bit_or_add 4 (c.event_ring_phys / 16 + deq) (c.event_ring_phys + deq * 16) 8 (omega arith)
        (omega arith) in
    rw (sum, joined) (omega (arith, aligned))
