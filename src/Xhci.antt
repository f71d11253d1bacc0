-- ===== src/Xhci.antt =====
-- arsenal-kernel/src/xhci.rs, the USB host controller: the command ring, the event ring, and
-- control transfers on the default endpoint of a device.
pub mod Armed
pub mod Blocks
pub mod Bytes
pub mod Control
pub mod Descriptors
pub mod EventRing
pub mod Fifo
pub mod Found
pub mod Hid
pub mod Layout
pub mod Post
pub mod Rearm
pub mod Refine
pub mod Rounds
pub mod Service
pub mod Transfers
pub mod Trees
mod Tests
pub mod Typing
pub mod Waits
use field_os.Prelude.{
  ℕ, zero, suc, ◌+◌, ◌*◌, ◌/◌, ◌%◌, ◌^◌, bit_and, bit_or, bit_xor, Bool, List, ◌∷◌, Option, none,
  some, ltb, ◌==◌, if◌then◌else◌, update,
}
use field_os.Prelude.Outcome.{add64}

-- The four words of a transfer request block.
pub record Trb : Type 0 where
  pub d0 : ℕ
  pub d1 : ℕ
  pub d2 : ℕ
  pub d3 : ℕ

abbrev pub zero_trb : Trb
zero_trb = record { d0 = 0; d1 = 0; d2 = 0; d3 = 0 }

-- `halted` is an assertion that fires; `spinning` means that the fuel of a loop without a bound ran
-- out.
pub data Run {ℓ} (A : Type ℓ) : Type ℓ where
  finished : A → Run A
  halted : Run A
  spinning : Run A

infixl 5 ◌>>=◌
abbrev pub ◌>>=◌ {ℓ κ} : {A : Type ℓ} {B : Type κ} → Run A → (A → Run B) → Run B
finished a >>= f = f a
halted >>= f = halted
spinning >>= f = spinning

abbrev pub event_ring_trbs : ℕ
event_ring_trbs = 16

abbrev pub poll_limit : ℕ
poll_limit = 50_000_000

abbrev pub trb_type_setup_stage : ℕ
trb_type_setup_stage = 2

abbrev pub trb_type_data_stage : ℕ
trb_type_data_stage = 3

abbrev pub trb_type_status_stage : ℕ
trb_type_status_stage = 4

abbrev pub trb_type_transfer : ℕ
trb_type_transfer = 32

abbrev pub trb_type_cmd_completion : ℕ
trb_type_cmd_completion = 33

-- The fields of `Xhci` and of `HidState` for the event ring, and the two registers of interrupter 0
-- that its consumer writes.
pub record Consumer : Type 0 where
  pub event_ring_phys : ℕ
  pub event_deq : ℕ
  pub event_ccs : ℕ
  pub erdp : ℕ
  pub iman : ℕ

-- `(d3 & 1) == self.event_ccs`.
pub posted : Consumer → Trb → Bool
posted c t = bit_and t.d3 1 == c.event_ccs

pub ev_type : Trb → ℕ
ev_type t = bit_and (t.d3 / 2 ^ 10) 0x3F

pub completion_code : Trb → ℕ
completion_code t = bit_and (t.d2 / 2 ^ 24) 0xFF

-- The step to the next block, with the writes of ERDP and IMAN.
pub advance : Consumer → Consumer
advance c =
    let deq = c.event_deq + 1 in
    let wraps = deq == event_ring_trbs in
    let deq' = if wraps then 0 else deq in
    record c {
      event_deq = deq';
      event_ccs = if wraps then bit_xor c.event_ccs 1 else c.event_ccs;
      erdp = bit_or (add64 c.event_ring_phys (deq' * 16)) (2 ^ 3);
      iman = bit_or (2 ^ 1) (2 ^ 0);
    }

-- `HidState::try_event`. It reads the word `d2` first and then the word `d3` with the cycle bit:
-- `ring` is the memory of the event ring at the first read, and `later` at the second.
unfoldable pub try_event : (ℕ → Trb) → (ℕ → Trb) → Consumer → Option (ℕ × ℕ) × Consumer
unfolding posted advance
try_event ring later c =
    let t : Trb = record (later c.event_deq) { d2 = (ring c.event_deq).d2 } in
    if posted c t then (some (ev_type t, completion_code t), advance c) else (none, c)

-- The memory of the event ring, as the reads of it see it one after the other: the controller
-- writes there meanwhile, also between the reads of the words of a block.
abbrev pub Memory : Type 0
Memory = ℕ → ℕ → Trb

-- `struct Xhci`. `cmd_ring` is the memory at `cmd_ring_phys`, `reads` the number of reads of the event
-- ring so far, and `doorbells` the writes to doorbells, the newest first, each with its address.
pub record Xhci : Type 0 where
  pub db_base : ℕ
  pub cmd_ring : ℕ → Trb
  pub cmd_enqueue : ℕ
  pub cmd_cycle : ℕ
  pub events : Consumer
  pub reads : ℕ
  pub doorbells : List (ℕ × ℕ)

-- `struct Device`; `ep0_ring` is the memory at `ep0_ring_phys`.
pub record Device : Type 0 where
  pub slot_id : ℕ
  pub ep0_ring : ℕ → Trb
  pub ep0_enqueue : ℕ
  pub ep0_cycle : ℕ

unfoldable pub push_command : Xhci → ℕ → ℕ → ℕ → ℕ → Run Xhci
push_command x d0 d1 d2 d3 =
    let trb : Trb = record { d0 = d0; d1 = d1; d2 = d2; d3 = bit_or d3 x.cmd_cycle } in
    if ltb x.cmd_enqueue 255
    then finished (record x {
      cmd_ring = update x.cmd_ring x.cmd_enqueue trb;
      cmd_enqueue = x.cmd_enqueue + 1;
      doorbells = (x.db_base, 0) ∷ x.doorbells;
    })
    else halted

-- The loop of `next_event`, with the rounds that are left before the assertion fires. The block `t` has
-- each word as the round's read of it sees it.
unfoldable pub next_event_from : ℕ → Memory → Xhci → Run (Trb × Xhci)
next_event_from zero mem x = halted
next_event_from (suc left) mem x =
    let t = mem x.reads x.events.event_deq in
    let x' = record x { reads = x.reads + 1 } in
    let later = next_event_from left mem x' in
    if posted x.events t then finished (t, record x' { events = advance x.events }) else later

-- The source returns five numbers, each of which is read off the block.
unfoldable pub next_event : Memory → Xhci → Run (Trb × Xhci)
next_event = next_event_from poll_limit

-- The loop has no bound of its own. It returns the completion code and the slot.
unfoldable pub wait_command : ℕ → Memory → Xhci → Run (ℕ × ℕ × Xhci)
wait_command zero mem x = spinning
wait_command (suc fuel) mem x = next_event mem x >>= (λ (t, x').
    let later = wait_command fuel mem x' in
    if ev_type t == trb_type_cmd_completion
    then finished (completion_code t, bit_and (t.d3 / 2 ^ 24) 0xFF, x')
    else later)

unfoldable pub wait_transfer : ℕ → Memory → Xhci → Run (ℕ × Xhci)
wait_transfer zero mem x = spinning
wait_transfer (suc fuel) mem x = next_event mem x >>= (λ (t, x').
    let later = wait_transfer fuel mem x' in
    if ev_type t == trb_type_transfer then finished (completion_code t, x') else later)

unfoldable pub push_transfer : Device → ℕ → ℕ → ℕ → ℕ → Run Device
push_transfer dev d0 d1 d2 d3 =
    let trb : Trb = record { d0 = d0; d1 = d1; d2 = d2; d3 = bit_or d3 dev.ep0_cycle } in
    if ltb dev.ep0_enqueue 255
    then finished (record dev {
      ep0_ring = update dev.ep0_ring dev.ep0_enqueue trb;
      ep0_enqueue = dev.ep0_enqueue + 1;
    })
    else halted

unfoldable pub ring_ep0 : Xhci → Device → Xhci
ring_ep0 x dev = record x { doorbells = (x.db_base + dev.slot_id * 4, 1) ∷ x.doorbells }

-- The fields of a request.
pub record Request : Type 0 where
  pub bm_request_type : ℕ
  pub b_request : ℕ
  pub w_value : ℕ
  pub w_index : ℕ

abbrev pub setup_d0 : Request → ℕ
setup_d0 r = bit_or (bit_or r.bm_request_type (r.b_request * 2 ^ 8)) (r.w_value * 2 ^ 16)

unfoldable pub control_in :
    ℕ → Memory → Xhci → Device → Request → (buf_phys length : ℕ) → Run (ℕ × Xhci × Device)
control_in fuel mem x dev r buf_phys length = do
  setup ←
      push_transfer dev (setup_d0 r) (bit_or r.w_index (length * 2 ^ 16)) 8
        (bit_or (bit_or (3 * 2 ^ 16) (2 ^ 6)) (trb_type_setup_stage * 2 ^ 10))
  data_in ←
      push_transfer setup (buf_phys % 2 ^ 32) (buf_phys / 2 ^ 32) length
        (bit_or (2 ^ 16) (trb_type_data_stage * 2 ^ 10))
  status ← push_transfer data_in 0 0 0 (bit_or (2 ^ 5) (trb_type_status_stage * 2 ^ 10))
  (cc, x') ← wait_transfer fuel mem (ring_ep0 x status)
  finished (cc, x', status)

unfoldable pub control_no_data : ℕ → Memory → Xhci → Device → Request → Run (ℕ × Xhci × Device)
control_no_data fuel mem x dev r = do
  setup ←
      push_transfer dev (setup_d0 r) r.w_index 8 (bit_or (2 ^ 6) (trb_type_setup_stage * 2 ^ 10))
  status ←
      push_transfer setup 0 0 0 (bit_or (bit_or (2 ^ 16) (2 ^ 5)) (trb_type_status_stage * 2 ^ 10))
  (cc, x') ← wait_transfer fuel mem (ring_ep0 x status)
  finished (cc, x', status)
