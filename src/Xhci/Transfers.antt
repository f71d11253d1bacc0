-- ===== src/Xhci/Transfers.antt =====
-- Control transfers as a whole.
use field_os.Prelude.{
  ℕ, ◌+◌, ◌*◌, ◌/◌, ◌%◌, ◌^◌, ◌<◌, ◌≤◌, ◌≡◌, refl, sym, subst, arith, bit_or, List, [], ◌∷◌, ◌++◌,
  length,
}
use field_os.Xhci.{
  Trb, Consumer, ev_type, completion_code, Memory, Xhci, Device, finished, Request, setup_d0,
  ring_ep0, control_in, control_no_data, trb_type_transfer,
}
use field_os.Prelude.Bits.{bit_or_below}
use field_os.Xhci.Control.{
  IsRequest, IsSetup, IsDataIn, IsStatus, setup-IsSetup, data_in-IsDataIn, status-IsStatus,
}
use field_os.Xhci.Waits.{Schedule, NoneOf, wait_transfer_lem}
use field_os.Xhci.Blocks.{
  with_block, push_transfer_lem, two, second_of_two, first_of_two, earlier_than_two,
  counters_of_two, three, counters, earlier, first, second, third,
}

-- What a transfer of three blocks leaves: the Setup, Data and Status blocks, in this order, behind
-- what was there.
pub record Sent (dev dev' : Device) (r : Request) (buf_phys len : ℕ) : Type 0 where
  pub setup : IsSetup (dev'.ep0_ring dev.ep0_enqueue) r len 3 dev.ep0_cycle
  pub data_in : IsDataIn (dev'.ep0_ring (dev.ep0_enqueue + 1)) buf_phys len dev.ep0_cycle
  pub status : IsStatus (dev'.ep0_ring (dev.ep0_enqueue + 2)) 0 dev.ep0_cycle
  pub moved : dev'.ep0_enqueue ≡ dev.ep0_enqueue + 3
  pub kept : (i : ℕ) → i < dev.ep0_enqueue → dev'.ep0_ring i ≡ dev.ep0_ring i
  pub same_slot : dev'.slot_id ≡ dev.slot_id
  pub same_cycle : dev'.ep0_cycle ≡ dev.ep0_cycle

-- The same for a transfer without a data stage.
pub record SentNoData (dev dev' : Device) (r : Request) : Type 0 where
  pub setup : IsSetup (dev'.ep0_ring dev.ep0_enqueue) r 0 0 dev.ep0_cycle
  pub status : IsStatus (dev'.ep0_ring (dev.ep0_enqueue + 1)) 1 dev.ep0_cycle
  pub moved : dev'.ep0_enqueue ≡ dev.ep0_enqueue + 2
  pub kept : (i : ℕ) → i < dev.ep0_enqueue → dev'.ep0_ring i ≡ dev.ep0_ring i
  pub same_slot : dev'.slot_id ≡ dev.slot_id
  pub same_cycle : dev'.ep0_cycle ≡ dev.ep0_cycle

-- The state in which a transfer leaves the driver.
abbrev pub after : Xhci → Device → ℕ → Consumer → Xhci
after x dev n c = record x {
  events = c;
  reads = n;
  doorbells = (x.db_base + dev.slot_id * 4, 1) ∷ x.doorbells;
}

module _ (mem : Memory) (x : Xhci) (dev : Device) (r : Request) (is : IsRequest r)
    (bit : dev.ep0_cycle < 2) (ts : List Trb) (t : Trb) (n' : ℕ) (c' : Consumer) (fuel : ℕ)
    (schedule : Schedule mem x.reads x.events (ts ++ (t ∷ [])) n' c')
    (others : NoneOf trb_type_transfer ts) (event : ev_type t ≡ trb_type_transfer)
    (few : length ts < fuel) where
  module _ (buf_phys len : ℕ) (small : len < 2 ^ 16) (room : dev.ep0_enqueue ≤ 252) where
    abbrev setup : Trb
    setup = record {
      d0 = setup_d0 r;
      d1 = bit_or r.w_index (len * 2 ^ 16);
      d2 = 8;
      d3 = bit_or (bit_or (bit_or (3 * 2 ^ 16) (2 ^ 6)) (2 * 2 ^ 10)) dev.ep0_cycle;
    }

    abbrev data_in : Trb
    data_in = record {
      d0 = buf_phys % 2 ^ 32;
      d1 = buf_phys / 2 ^ 32;
      d2 = len;
      d3 = bit_or (bit_or (2 ^ 16) (3 * 2 ^ 10)) dev.ep0_cycle;
    }

    abbrev status : Trb
    status = record {
      d0 = 0;
      d1 = 0;
      d2 = 0;
      d3 = bit_or (bit_or (2 ^ 5) (4 * 2 ^ 10)) dev.ep0_cycle;
    }

    abbrev sent : Device
    sent = three dev setup data_in status

    runs :
        control_in fuel mem x dev r buf_phys len
        ≡ finished (completion_code t, after x dev n' c', sent)
    unfolding control_in ring_ep0 three two
    runs =
        let one = with_block dev setup in
        rw
          (
            push_transfer_lem dev setup.d0 setup.d1 8 0x30840 (omega (arith, room)),
            push_transfer_lem one data_in.d0 data_in.d1 len 0x10C00 (omega (arith, room)),
            push_transfer_lem (two dev setup data_in) 0 0 0 0x1020 (omega (arith, room)),
            wait_transfer_lem mem (ring_ep0 x sent) ts t n' c' fuel schedule others event few,
          )
          refl

    sent-Sent : Sent dev sent r buf_phys len
    sent-Sent =
        let counts = counters dev setup data_in status in
        record {
          setup =
              rw (first dev setup data_in status)
                (setup-IsSetup r is dev.ep0_cycle bit len 0x30840 3 small refl);
          data_in =
              rw (second dev setup data_in status)
                (data_in-IsDataIn buf_phys len dev.ep0_cycle bit);
          status =
              rw (third dev setup data_in status)
                (status-IsStatus 0x1020 0 dev.ep0_cycle bit (omega arith) refl);
          moved = counts.0;
          kept = earlier dev setup data_in status;
          same_slot = counts.1;
          same_cycle = counts.2;
        }

  module _ (room : dev.ep0_enqueue ≤ 253) where
    abbrev setup_only : Trb
    setup_only = record {
      d0 = setup_d0 r;
      d1 = r.w_index;
      d2 = 8;
      d3 = bit_or (bit_or (2 ^ 6) (2 * 2 ^ 10)) dev.ep0_cycle;
    }

    abbrev status_in : Trb
    status_in = record {
      d0 = 0;
      d1 = 0;
      d2 = 0;
      d3 = bit_or (bit_or (bit_or (2 ^ 16) (2 ^ 5)) (4 * 2 ^ 10)) dev.ep0_cycle;
    }

    abbrev sent_no_data : Device
    sent_no_data = two dev setup_only status_in

    no_data_runs :
        control_no_data fuel mem x dev r
        ≡ finished (completion_code t, after x dev n' c', sent_no_data)
    unfolding control_no_data ring_ep0 two
    no_data_runs =
        let one = with_block dev setup_only in
        rw
          (
            push_transfer_lem dev setup_only.d0 setup_only.d1 8 0x840 (omega (arith, room)),
            push_transfer_lem one 0 0 0 0x11020 (omega (arith, room)),
            wait_transfer_lem mem (ring_ep0 x sent_no_data) ts t n' c' fuel schedule others event
                few,
          )
          refl

    no_length : r.w_index ≡ bit_or r.w_index (0 * 2 ^ 16)
    no_length = omega (arith, bit_or_below 16 0 r.w_index is.w_index)

    sent_no_data-SentNoData : SentNoData dev sent_no_data r
    sent_no_data-SentNoData =
        let counts = counters_of_two dev setup_only status_in in
        let setup =
          subst
            (λ w.
              IsSetup (record { d0 = setup_d0 r; d1 = w; d2 = 8; d3 = setup_only.d3 }) r 0 0
                dev.ep0_cycle)
            (sym no_length) (setup-IsSetup r is dev.ep0_cycle bit 0 0x840 0 (omega arith) refl) in
        record {
          setup = rw (first_of_two dev setup_only status_in) setup;
          status =
              rw (second_of_two dev setup_only status_in)
                (status-IsStatus 0x11020 1 dev.ep0_cycle bit (omega arith) refl);
          moved = counts.0;
          kept = earlier_than_two dev setup_only status_in;
          same_slot = counts.1;
          same_cycle = counts.2;
        }

-- On a ring with room, and when the blocks `ts` and then the transfer event `t` arrive, each before
-- the limit of the polling, and none of `ts` is a transfer event: `control_in` lays the Setup, Data
-- and Status blocks behind those that were there, from which the controller reads back the request,
-- its length and the buffer, in this order and with the ring's cycle bit; it rings the doorbell of
-- the device's slot, and returns the completion code of `t`. `control_no_data` does the same with a
-- Setup and a Status block.
pub control_lem :
    (mem : Memory) (x : Xhci) (dev : Device) (r : Request) (buf_phys len : ℕ) (ts : List Trb)
    (t : Trb) (n' : ℕ) (c' : Consumer) (fuel : ℕ)
    → IsRequest r
    → len < 2 ^ 16
    → dev.ep0_cycle < 2
    → dev.ep0_enqueue ≤ 252
    → Schedule mem x.reads x.events (ts ++ (t ∷ [])) n' c'
    → NoneOf trb_type_transfer ts
    → ev_type t ≡ trb_type_transfer
    → length ts < fuel
    → ((dev' : Device) × (control_in fuel mem x dev r buf_phys len
          ≡ finished (completion_code t, after x dev n' c', dev'))
        × Sent dev dev' r buf_phys len)
      × ((dev' : Device) × (control_no_data fuel mem x dev r
            ≡ finished (completion_code t, after x dev n' c', dev'))
          × SentNoData dev dev' r)
control_lem mem x dev r buf_phys len ts t n' c' fuel is small bit room schedule others event few = (
  (
    _,
    runs mem x dev r is bit ts t n' c' fuel schedule others event few buf_phys len small room,
    sent-Sent mem x dev r is bit ts t n' c' fuel schedule others event few buf_phys len small room,
  ),
  (
    _,
    no_data_runs mem x dev r is bit ts t n' c' fuel schedule others event few (omega arith),
    sent_no_data-SentNoData mem x dev r is bit ts t n' c' fuel schedule others event few
        (omega arith),
  ),
)
