-- ===== src/Xhci/Tests.antt =====
-- The USB host controller on small inputs.
use field_os.Prelude.{
  ℕ, zero, suc, get_elem?, ◌+◌, ◌*◌, ◌%◌, ◌^◌, ◌<◌, ◌≡◌, refl, arith, true, false, List, [], ◌∷◌,
  ◌++◌, none, some, ltb, ◌==◌, if◌then◌else◌,
}
use field_os.Kbd.{KbdRing}
use field_os.Kbd.Ring.{Contains}
use field_os.Xhci.{
  Trb, zero_trb, Consumer, Xhci, Device, Request, Memory, posted, ev_type, completion_code, advance,
  finished, control_in, control_no_data, trb_type_transfer,
}
use field_os.Xhci.Descriptors.{
  at, interface_at, first_interface_from, endpoint_at, find_interrupt_from, first_interface,
  find_interrupt_in_endpoint, find_bulk_endpoints,
}
use field_os.Xhci.EventRing.{
  Shared, Op, posts, takes, run, run_queue, post, post_all, take, Holds, HasCodes, Sees, Slot,
  cycle_at,
}
use field_os.Xhci.Found.{walks_lem}
use field_os.Xhci.Hid.{HidState, service}
use field_os.Xhci.Layout.{key_of}
use field_os.Xhci.Rearm.{Endpoint, rounds, Idle}
use field_os.Xhci.Refine.{run_refines}
use field_os.Xhci.Rounds.{AreReports, rounds_lem}
use field_os.Xhci.Service.{serve, service_lem}
use field_os.Xhci.Transfers.{Sent, SentNoData, after, control_lem}
use field_os.Xhci.Trees.{Descriptor, encode, IsStuck, interface_of, interrupt_of, bulk_of}
use field_os.Xhci.Typing.{Stroke, CanBeTyped, release, typed, text_of, decode_reports, typed_lem}
use field_os.Xhci.Waits.{Arrives, idle, later}

abbrev start : Consumer
start = record { event_ring_phys = 0x10000; event_deq = 0; event_ccs = 1; erdp = 0x10000; iman = 2 }

abbrev fresh : Shared
fresh = record { ring = λ _. zero_trb; enqueue = 0; cycle = 1; consumer = start }

fresh-Holds : Holds fresh []
fresh-Holds = record {
  sees = record {
    deq_small = omega arith;
    bit = omega arith;
    few = omega arith;
    slots = λ k h. ground arith;
  };
  aligned = refl;
  fits = omega arith;
  freed = refl;
  at = refl;
  pass = refl;
}

abbrev transfer : Trb
transfer = record { d0 = 0; d1 = 0; d2 = 2 ^ 24; d3 = 32 * 2 ^ 10 }

abbrev port_change : Trb
port_change = record { d0 = 0; d1 = 0; d2 = 2 ^ 24; d3 = 34 * 2 ^ 10 }

abbrev ops : List Op
ops =
    takes []
    ∷ posts port_change
    ∷ takes (transfer ∷ [])
    ∷ takes []
    ∷ takes []
    ∷ takes (transfer ∷ [])
    ∷ []

fresh-HasCodes : HasCodes fresh (λ _. 0)
fresh-HasCodes = λ k small. refl

run_refines_example : run ops fresh ≡ run_queue ops [] (λ _. 0)
run_refines_example = run_refines ops fresh [] (λ _. 0) fresh-Holds fresh-HasCodes

-- The last block came between the two reads: the completion code is what the slot held before.
three_events : run ops fresh ≡ none ∷ some (34, 1) ∷ some (32, 1) ∷ none ∷ some (32, 0) ∷ []
unfolding run post post_all take ev_type completion_code
three_events = refl

abbrev keyboard : HidState
keyboard = record {
  events = start;
  ep_ring = λ _. zero_trb;
  ep_ring_phys = 0x20000;
  ep_enqueue = 0;
  ep_cycle = 1;
  report_phys = 0x30000;
  prev = release;
  sentinel_fired = false;
  doorbells = 0;
}

abbrev endpoint : Endpoint
endpoint = record { slot = 0; ccs = 1 }

keyboard-Idle : Idle keyboard endpoint
keyboard-Idle = record {
  at = refl;
  pass = refl;
  bit = omega arith;
  small = omega arith;
  before = λ i h. absurd (omega arith);
  from = λ i low high. omega arith;
}

rounds_lem_example :
    AreReports 0x30000 300 (rounds 300 keyboard endpoint).0
    × Idle (rounds 300 keyboard endpoint).1 (rounds 300 keyboard endpoint).2
rounds_lem_example = rounds_lem 300 keyboard endpoint keyboard-Idle

abbrev empty_ring : KbdRing
empty_ring = record { buf = λ _. 0; head = 0; tail = 0; dropped = 0 }

empty_ring-Contains : Contains empty_ring []
empty_ring-Contains = record {
  tail_in = omega arith;
  few = omega arith;
  head_at = refl;
  window = tt;
}

-- "Ls", the second key held for three reports.
abbrev strokes : List Stroke
strokes = (b'L', 0) ∷ (b's', 2) ∷ []

strokes-CanBeTyped : CanBeTyped strokes
unfolding key_of
strokes-CanBeTyped = (omega arith, omega arith, (omega arith, omega arith, tt))

typed_lem_example :
    (h' : HidState) × (ring' : KbdRing) × (decode_reports keyboard empty_ring (typed strokes)
      ≡ (h', ring'))
    × Contains ring' ([] ++ text_of strokes)
    × (h'.prev ≡ release)
typed_lem_example =
    typed_lem strokes keyboard empty_ring [] strokes-CanBeTyped refl empty_ring-Contains
      (omega arith)

-- One transfer event is pending.
abbrev one_event : ℕ → Trb
one_event i =
    if i == 0 then record { d0 = 0; d1 = 0; d2 = 2 ^ 24; d3 = 32 * 2 ^ 10 + 1 } else zero_trb

one_event_slots :
    (k : ℕ)
    → k < 16
    → Slot (one_event ((0 + k) % 16)) (get_elem? (transfer ∷ []) k) (cycle_at start k)
one_event_slots zero h = refl
one_event_slots (suc k) h = ground arith

one_event-Sees : Sees one_event start (transfer ∷ [])
one_event-Sees = record {
  deq_small = omega arith;
  bit = omega arith;
  few = omega arith;
  slots = one_event_slots;
}

abbrev report : List ℕ
report = 0 ∷ 0 ∷ 4 ∷ 0 ∷ 0 ∷ 0 ∷ 0 ∷ 0 ∷ []

service_lem_example :
    (h' : HidState) × (ring' : KbdRing) × (service 17
        (λ _. one_event)
        (λ _. report)
        0
        keyboard
        empty_ring
      ≡ some (h', ring'))
    × (serve (transfer ∷ []) report keyboard empty_ring ≡ (h', ring'))
    × Sees one_event h'.events []
service_lem_example =
    service_lem 17 0 one_event report (transfer ∷ []) keyboard empty_ring one_event-Sees
      (omega arith)

-- A configuration of one interface with one interrupt IN endpoint, and a byte that is left over.
abbrev config : List ℕ
config =
    9 ∷ 2 ∷ 0 ∷ 0 ∷ 1 ∷ 1 ∷ 0 ∷ 0 ∷ 0 ∷ 9 ∷ 4 ∷ 0 ∷ 0 ∷ 1 ∷ 3 ∷ 1 ∷ 1 ∷ 0 ∷ 7 ∷ 5 ∷ 0x81 ∷ 3 ∷ 8 ∷ 0
    ∷ 7 ∷ 9 ∷ []

walks_lem_example :
    (ds : List Descriptor) × (tail : List ℕ) × (config ≡ encode ds ++ tail)
    × IsStuck tail
    × (first_interface 27 config ≡ finished (interface_of ds))
    × (find_interrupt_in_endpoint 27 config ≡ finished (interrupt_of ds))
    × (find_bulk_endpoints 27 config ≡ finished (bulk_of ds))
walks_lem_example = walks_lem config 27 (omega arith)

boot_keyboard : first_interface 27 config ≡ finished (3, 1, 1, 1)
unfolding first_interface first_interface_from interface_at at
boot_keyboard = refl

its_endpoint : find_interrupt_in_endpoint 27 config ≡ finished (some (0x81, 8, 7))
unfolding find_interrupt_in_endpoint find_interrupt_from endpoint_at at
its_endpoint = refl

abbrev driver : Xhci
driver = record {
  db_base = 0x2000;
  cmd_ring = λ _. zero_trb;
  cmd_enqueue = 0;
  cmd_cycle = 1;
  events = start;
  reads = 0;
  doorbells = [];
}

abbrev device : Device
device = record { slot_id = 1; ep0_ring = λ _. zero_trb; ep0_enqueue = 0; ep0_cycle = 1 }

-- GET_DESCRIPTOR for the device descriptor.
abbrev get_descriptor : Request
get_descriptor = record { bm_request_type = 0x80; b_request = 6; w_value = 0x100; w_index = 0 }

-- The event is there when the ring is read for the fourth time.
abbrev memory : Memory
memory n i = if ltb n 3 then zero_trb else one_event i

abbrev event : Trb
event = one_event 0

arrives : Arrives memory 0 start 3 event
unfolding posted
arrives = record {
  in_time = omega arith;
  misses = λ k h. let early : ltb (0 + k) 3 ≡ true = ground arith in rw early refl;
  block = refl;
  hit = refl;
}

is_transfer : ev_type event ≡ trb_type_transfer
unfolding ev_type
is_transfer = refl

control_lem_example :
    ((dev' : Device) × (control_in 1 memory driver device get_descriptor 0x40000 18
        ≡ finished (completion_code event, after driver device 4 (advance start), dev'))
      × Sent device dev' get_descriptor 0x40000 18)
    × ((dev' : Device) × (control_no_data 1 memory driver device get_descriptor
          ≡ finished (completion_code event, after driver device 4 (advance start), dev'))
        × SentNoData device dev' get_descriptor)
control_lem_example =
    control_lem memory driver device get_descriptor 0x40000 18 [] event 4 (advance start) 1
      (record {
        bm_request_type = omega arith;
        b_request = omega arith;
        w_value = omega arith;
        w_index = omega arith;
      })
      (omega arith) (omega arith) (omega arith) (later arrives idle) tt is_transfer (omega arith)
