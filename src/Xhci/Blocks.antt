-- ===== src/Xhci/Blocks.antt =====
-- Blocks on the ring of the default endpoint.
use field_os.Prelude.{
  ℕ, ◌+◌, ◌<◌, ◌≤◌, ◌≡◌, refl, ◌∙◌, arith, bit_or, false, lt→ltb, ltb, update, update_self,
  update_ne,
}
use field_os.Xhci.{Trb, Device, finished, halted, push_transfer}

-- A device with one more block on its ring.
abbrev pub with_block : Device → Trb → Device
with_block dev t = record dev {
  ep0_ring = update dev.ep0_ring dev.ep0_enqueue t;
  ep0_enqueue = dev.ep0_enqueue + 1;
}

pub push_transfer_lem :
    (dev : Device) (d0 d1 d2 d3 : ℕ)
    → dev.ep0_enqueue < 255
    → push_transfer dev d0 d1 d2 d3
      ≡ finished
          (with_block dev (record { d0 = d0; d1 = d1; d2 = d2; d3 = bit_or d3 dev.ep0_cycle }))
unfolding push_transfer
push_transfer_lem dev d0 d1 d2 d3 room = rw (lt→ltb dev.ep0_enqueue 255 room) refl

pub push_transfer-full :
    (dev : Device) (d0 d1 d2 d3 : ℕ)
    → 255 ≤ dev.ep0_enqueue
    → push_transfer dev d0 d1 d2 d3 ≡ halted
unfolding push_transfer
push_transfer-full dev d0 d1 d2 d3 full =
    let differ : ltb dev.ep0_enqueue 255 ≡ false = ground arith in rw differ refl

-- What stays of the ring when blocks are added, and where the last two are.
module _ (dev : Device) (a b : Trb) where
  unfoldable pub two : Device
  two = with_block (with_block dev a) b

  pub second_of_two : two.ep0_ring (dev.ep0_enqueue + 1) ≡ b
  unfolding two
  second_of_two = update_self (with_block dev a).ep0_ring (dev.ep0_enqueue + 1) b

  pub first_of_two : two.ep0_ring dev.ep0_enqueue ≡ a
  unfolding two
  first_of_two =
      update_ne (with_block dev a).ep0_ring (dev.ep0_enqueue + 1) dev.ep0_enqueue b
        (λ e. omega arith)
      ∙ update_self dev.ep0_ring dev.ep0_enqueue a

  pub earlier_than_two : (i : ℕ) → i < dev.ep0_enqueue → two.ep0_ring i ≡ dev.ep0_ring i
  unfolding two
  earlier_than_two i h =
      update_ne (with_block dev a).ep0_ring (dev.ep0_enqueue + 1) i b (λ e. omega arith)
      ∙ update_ne dev.ep0_ring dev.ep0_enqueue i a (λ e. omega arith)

  pub counters_of_two :
      (two.ep0_enqueue ≡ dev.ep0_enqueue + 2)
      × (two.slot_id ≡ dev.slot_id)
      × (two.ep0_cycle ≡ dev.ep0_cycle)
  unfolding two
  counters_of_two = (omega arith, refl, refl)

module _ (dev : Device) (a b c : Trb) where
  abbrev before : Device
  before = two dev a b

  unfoldable pub three : Device
  three = with_block before c

  pub counters :
      (three.ep0_enqueue ≡ dev.ep0_enqueue + 3)
      × (three.slot_id ≡ dev.slot_id)
      × (three.ep0_cycle ≡ dev.ep0_cycle)
  unfolding three two
  counters = (omega arith, refl, refl)

  pub earlier : (i : ℕ) → i < dev.ep0_enqueue → three.ep0_ring i ≡ dev.ep0_ring i
  unfolding three
  earlier i h =
      update_ne before.ep0_ring before.ep0_enqueue i c
        (λ e. omega (arith, (counters_of_two dev a b).0))
      ∙ (earlier_than_two dev a b) i h

  pub first : three.ep0_ring dev.ep0_enqueue ≡ a
  unfolding three
  first =
      update_ne before.ep0_ring before.ep0_enqueue dev.ep0_enqueue c
        (λ e. omega (arith, (counters_of_two dev a b).0))
      ∙ (first_of_two dev a b)

  pub second : three.ep0_ring (dev.ep0_enqueue + 1) ≡ b
  unfolding three
  second =
      update_ne before.ep0_ring before.ep0_enqueue (dev.ep0_enqueue + 1) c
        (λ e. omega (arith, (counters_of_two dev a b).0))
      ∙ (second_of_two dev a b)

  pub third : three.ep0_ring (dev.ep0_enqueue + 2) ≡ c
  unfolding three
  third = rw (← (counters_of_two dev a b).0) (update_self before.ep0_ring before.ep0_enqueue c)
