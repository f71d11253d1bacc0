-- ===== src/Xhci/Armed.antt =====
-- One report armed, and the start over at the Link block.
use field_os.Prelude.{
  ℕ, zero, suc, ◌+◌, ◌-◌, ◌*◌, ◌/◌, ◌%◌, ◌^◌, ◌<◌, ◌≤◌, ◌≡◌, ◌≢◌, refl, ◌∙◌, arith, bit_or, bit_xor,
  none, some, Bool-cases, inl, inr, true, false, ◌==◌, update_self, update_ne, eqb→ne,
}
use field_os.Xhci.{Trb}
use field_os.Xhci.Control.{flag, type_of}
use field_os.Xhci.Hid.{HidState, trb_type_link, wrap, enqueue_report}
use field_os.Xhci.Rearm.{Endpoint, fetch_here, link_slot, fetch, Idle, IsReport}

-- The words of the two kinds of block.
pub normal_d3 : ℕ → ℕ
normal_d3 c = bit_or (bit_or (bit_or c (2 ^ 5)) (2 ^ 2)) (1 * 2 ^ 10)

normal_d3_lem : (c : ℕ) → c ≤ 1 → normal_d3 c ≡ 0x424 + c
unfolding normal_d3
normal_d3_lem zero h = refl
normal_d3_lem (suc zero) h = refl
normal_d3_lem (suc (suc c)) h = absurd (omega arith)

pub link_d3 : ℕ → ℕ
link_d3 c = bit_or (bit_or c (2 ^ 1)) (6 * 2 ^ 10)

link_d3_lem : (c : ℕ) → c ≤ 1 → link_d3 c ≡ 0x1802 + c
unfolding link_d3
link_d3_lem zero h = refl
link_d3_lem (suc zero) h = refl
link_d3_lem (suc (suc c)) h = absurd (omega arith)

flip : (p : ℕ) → p ≤ 1 → bit_xor p 1 ≡ 1 - p
flip zero h = refl
flip (suc zero) h = refl
flip (suc (suc p)) h = absurd (omega arith)

-- One block at a place that is not the last.
module _ (h : HidState) (e : Endpoint) (idle : Idle h e) (room : h.ep_enqueue < 255) where
  abbrev pub block : Trb
  block = record {
    d0 = h.report_phys % 2 ^ 32;
    d1 = h.report_phys / 2 ^ 32;
    d2 = 8;
    d3 = normal_d3 h.ep_cycle;
  }

  abbrev pub armed : HidState
  armed = enqueue_report h

  abbrev pub passed : Endpoint
  passed = record { slot = h.ep_enqueue + 1; ccs = h.ep_cycle }

  pub block_at : armed.ep_ring h.ep_enqueue ≡ block
  unfolding enqueue_report normal_d3
  block_at = update_self h.ep_ring h.ep_enqueue block

  pub elsewhere : (i : ℕ) → h.ep_enqueue ≢ i → armed.ep_ring i ≡ h.ep_ring i
  unfolding enqueue_report normal_d3
  elsewhere i ne = update_ne h.ep_ring h.ep_enqueue i block ne

  pub block-IsReport : IsReport block h.report_phys h.ep_cycle
  block-IsReport = omega (arith, normal_d3_lem h.ep_cycle idle.bit, idle.bit)

  -- Found where the controller looks, whether or not a Link block led there.
  pub fetch_here-block : fetch_here armed.ep_ring e ≡ (some block, passed)
  unfolding fetch_here
  fetch_here-block =
      let d3 = normal_d3_lem h.ep_cycle idle.bit in
      let hit : (normal_d3 h.ep_cycle % 2 == h.ep_cycle) ≡ true = ground (arith, d3, idle.bit) in
      rw (idle.at, idle.pass, block_at, hit) refl

  pub fetch-block : fetch h.ep_ring_phys armed.ep_ring e ≡ (some block, passed)
  unfolding fetch fetch_here
  fetch-block =
      let d3 = normal_d3_lem h.ep_cycle idle.bit in
      let hit : (normal_d3 h.ep_cycle % 2 == h.ep_cycle) ≡ true = ground (arith, d3, idle.bit) in
      let kind : (type_of block == trb_type_link) ≡ false = ground (arith, d3, idle.bit) in
      rw (idle.at, idle.pass, block_at, hit, kind) refl

  pub fetch_nothing : fetch h.ep_ring_phys armed.ep_ring passed ≡ (none, passed)
  unfolding fetch fetch_here
  fetch_nothing =
      let stale : ((armed.ep_ring (h.ep_enqueue + 1)).d3 % 2 == h.ep_cycle) ≡ false =
        rw (elsewhere (h.ep_enqueue + 1) (λ p. omega arith))
          (ground (arith, idle.from (h.ep_enqueue + 1) (omega arith) (omega (arith, room)))) in
      rw stale refl

  pub same_fields :
      (armed.ep_enqueue ≡ h.ep_enqueue + 1)
      × (armed.ep_cycle ≡ h.ep_cycle)
      × (armed.ep_ring_phys ≡ h.ep_ring_phys)
      × (armed.report_phys ≡ h.report_phys)
  unfolding enqueue_report
  same_fields = (refl, refl, refl, refl)

  pub armed-Idle : Idle armed passed
  armed-Idle =
      let (enqueue, cycle, ring, report) = same_fields in
      record {
        at = rw enqueue refl;
        pass = rw cycle refl;
        bit = rw cycle idle.bit;
        small = rw enqueue (omega (arith, room));
        before = λ i lt. elim (Bool-cases (h.ep_enqueue == i)) [
          | inl here ↦
              let is : h.ep_enqueue ≡ i = ground arith in
              rw (cycle, ← is, block_at)
                (omega (arith, normal_d3_lem h.ep_cycle idle.bit, idle.bit))
          | inr other ↦
              let ne : h.ep_enqueue ≢ i = eqb→ne h.ep_enqueue i other in
              rw (cycle, elsewhere i ne) (idle.before i (omega (arith, lt, ne, enqueue)))
        ];
        from = λ i past few.
            rw (cycle, elsewhere i (λ p. omega (arith, past, enqueue)))
              (idle.from i (omega (arith, past, enqueue)) few);
      }

-- The start over at the last place.
module _ (h : HidState) (e : Endpoint) (idle : Idle h e) (full : h.ep_enqueue ≡ 255) where
  abbrev pub link : Trb
  link = record {
    d0 = h.ep_ring_phys % 2 ^ 32;
    d1 = h.ep_ring_phys / 2 ^ 32;
    d2 = 0;
    d3 = link_d3 h.ep_cycle;
  }

  abbrev pub wrapped : HidState
  wrapped = wrap h

  abbrev pub restart : Endpoint
  restart = record { slot = 0; ccs = 1 - h.ep_cycle }

  pub link_at : wrapped.ep_ring 255 ≡ link
  unfolding wrap link_d3
  link_at = rw full (update_self h.ep_ring 255 link)

  not_link : (i : ℕ) → i < 255 → wrapped.ep_ring i ≡ h.ep_ring i
  unfolding wrap link_d3
  not_link i lt = update_ne h.ep_ring h.ep_enqueue i link (λ p. omega (arith, full))

  pub wrapped_fields :
      (wrapped.ep_enqueue ≡ 0)
      × (wrapped.ep_cycle ≡ 1 - h.ep_cycle)
      × (wrapped.ep_ring_phys ≡ h.ep_ring_phys)
      × (wrapped.report_phys ≡ h.report_phys)
  unfolding wrap
  wrapped_fields = (refl, flip h.ep_cycle idle.bit, refl, refl)

  pub wrapped-Idle : Idle wrapped restart
  wrapped-Idle =
      let (enqueue, cycle, ring, report) = wrapped_fields in
      record {
        at = rw enqueue refl;
        pass = rw cycle refl;
        bit = rw cycle (omega arith);
        small = rw enqueue (omega arith);
        before = λ i lt. absurd (omega (arith, lt, enqueue));
        from = λ i past few. elim (Bool-cases (255 == i)) [
          | inl here ↦
              let is : 255 ≡ i = ground arith in
              rw (cycle, ← is, link_at)
                (λ p. omega (arith, link_d3_lem h.ep_cycle idle.bit, idle.bit))
          | inr other ↦
              let lt : i < 255 = omega (arith, eqb→ne 255 i other, few) in
              rw (cycle, not_link i lt)
                (λ p. omega (arith, idle.before i (omega (arith, full)), idle.bit))
        ];
      }

  pub fetch-link :
      (ring : ℕ → Trb) → ring 255 ≡ link → fetch h.ep_ring_phys ring e ≡ fetch_here ring restart
  unfolding fetch link_slot
  fetch-link ring there =
      let d3 = link_d3_lem h.ep_cycle idle.bit in
      let at : e.slot ≡ 255 = idle.at ∙ full in
      let hit : (link_d3 h.ep_cycle % 2 == h.ep_cycle) ≡ true = ground (arith, d3, idle.bit) in
      let kind : (type_of link == trb_type_link) ≡ true = ground (arith, d3, idle.bit) in
      let toggles : (flag 1 link == 1) ≡ true = ground (arith, d3, idle.bit) in
      let slot : (h.ep_ring_phys % 2 ^ 32 + h.ep_ring_phys / 2 ^ 32 * 2 ^ 32 - h.ep_ring_phys) / 16
          ≡ 0 =
        omega arith in
      rw (at, idle.pass, there, hit, kind, toggles, slot) refl
