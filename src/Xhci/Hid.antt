-- ===== src/Xhci/Hid.antt =====
-- `HidState`, the keyboard that the poller serves, and `hid_usage_to_ascii`.
use field_os.Prelude.{
  ℕ, zero, suc, ◌+◌, ◌-◌, ◌*◌, ◌/◌, ◌%◌, ◌^◌, bit_and, bit_or, bit_xor, Bool, true, false, not,
  ◌&&◌, ◌||◌, List, [], ◌∷◌, Option, none, some, leb, ◌==◌, if◌then◌else◌, get_or, drop, update,
}
use field_os.Kbd.{KbdRing, inject}
use field_os.Xhci.{Trb, Consumer, Memory, trb_type_transfer, try_event}

between : ℕ → ℕ → ℕ → Bool
between lo hi usage = leb lo usage && leb usage hi

-- `if shift && c.is_ascii_lowercase()`.
with_shift : Bool → ℕ → Option ℕ
unfolding between
with_shift shift c = if shift && between b'a' b'z' c then some (c - 32) else some c

unfoldable pub hid_usage_to_ascii : ℕ → Bool → Option ℕ
unfolding between with_shift
hid_usage_to_ascii usage shift =
    if between 0x04 0x1D usage
    then with_shift shift (b'a' + (usage - 0x04))
    else if between 0x1E 0x26 usage
    then with_shift shift (b'1' + (usage - 0x1E))
    else if usage == 0x27
    then with_shift shift b'0'
    else if usage == 0x28
    then with_shift shift b'\n'
    else if usage == 0x2A
    then with_shift shift 0x08
    else if usage == 0x2B
    then with_shift shift b'\t'
    else if usage == 0x2C
    then with_shift shift b' '
    else if usage == 0x2D
    then some (if shift then b'_' else b'-')
    else if usage == 0x2E
    then some (if shift then b'+' else b'=')
    else if usage == 0x36
    then some (if shift then b'<' else b',')
    else if usage == 0x37
    then some (if shift then b'>' else b'.')
    else if usage == 0x38
    then some (if shift then b'?' else b'/')
    else none

abbrev pub ep_ring_trbs : ℕ
ep_ring_trbs = 256

abbrev pub trb_type_normal : ℕ
trb_type_normal = 1

abbrev pub trb_type_link : ℕ
trb_type_link = 6

-- `struct HidState`. `ep_ring` is the memory at `ep_ring_phys`, and `doorbells` the number of rings
-- of the endpoint's doorbell. A report is a list of eight bytes.
pub record HidState : Type 0 where
  pub events : Consumer
  pub ep_ring : ℕ → Trb
  pub ep_ring_phys : ℕ
  pub ep_enqueue : ℕ
  pub ep_cycle : ℕ
  pub report_phys : ℕ
  pub prev : List ℕ
  pub sentinel_fired : Bool
  pub doorbells : ℕ

-- The Link block at the last slot, and the start over.
unfoldable pub wrap : HidState → HidState
wrap h = record h {
  ep_ring = update h.ep_ring h.ep_enqueue (record {
    d0 = h.ep_ring_phys % 2 ^ 32;
    d1 = h.ep_ring_phys / 2 ^ 32;
    d2 = 0;
    d3 = bit_or (bit_or h.ep_cycle (2 ^ 1)) (trb_type_link * 2 ^ 10);
  });
  ep_enqueue = 0;
  ep_cycle = bit_xor h.ep_cycle 1;
}

-- The Normal block for the next report, and the doorbell.
unfoldable pub enqueue_report : HidState → HidState
enqueue_report h = record h {
  ep_ring = update h.ep_ring h.ep_enqueue (record {
    d0 = h.report_phys % 2 ^ 32;
    d1 = h.report_phys / 2 ^ 32;
    d2 = 8;
    d3 = bit_or (bit_or (bit_or h.ep_cycle (2 ^ 5)) (2 ^ 2)) (trb_type_normal * 2 ^ 10);
  });
  ep_enqueue = h.ep_enqueue + 1;
  doorbells = h.doorbells + 1;
}

unfoldable pub arm_report : HidState → HidState
unfolding wrap enqueue_report
arm_report h = enqueue_report (if h.ep_enqueue == ep_ring_trbs - 1 then wrap h else h)

-- `self.prev[2..8].contains(&usage)`.
unfoldable pub contains : List ℕ → ℕ → Bool
contains [] usage = false
contains (x ∷ xs) usage = (x == usage) || contains xs usage

-- One round of the loop of `decode_report`.
unfoldable pub decode_key : HidState → KbdRing → Bool → ℕ → HidState × KbdRing
unfolding contains hid_usage_to_ascii
decode_key h ring shift usage =
    if (usage == 0) || contains (drop 2 h.prev) usage
    then (h, ring)
    else elim (hid_usage_to_ascii usage shift) [
      | none ↦ (h, ring)
      | some ascii ↦ (record h { sentinel_fired = true }, inject ring ascii)
    ]

unfoldable pub decode_keys : HidState → KbdRing → Bool → List ℕ → HidState × KbdRing
unfolding decode_key
decode_keys h ring shift [] = (h, ring)
decode_keys h ring shift (usage ∷ usages) =
    let (h', ring') = decode_key h ring shift usage in decode_keys h' ring' shift usages

unfoldable pub decode_report : HidState → KbdRing → List ℕ → HidState × KbdRing
unfolding decode_keys
decode_report h ring report =
    let shift = not (bit_and (get_or report 0 0) 0x22 == 0) in
    let (h', ring') = decode_keys h ring shift (drop 2 report) in
    (record h' { prev = report }, ring')

-- The loop of `service`. The two reads of round `i` see the event ring as `mem (2 * i)` and
-- `mem (2 * i + 1)`, and the report's buffer is `reports i`; `none` means that the fuel ran out.
unfoldable pub service :
    ℕ → Memory → (ℕ → List ℕ) → ℕ → HidState → KbdRing → Option (HidState × KbdRing)
service zero mem reports i h ring = none
service (suc fuel) mem reports i h ring =
    let (event, events) = try_event (mem (2 * i)) (mem (2 * i + 1)) h.events in
    let h' = record h { events = events } in
    let other = service fuel mem reports (i + 1) h' ring in
    let (decoded, ring') = decode_report h' ring (reports i) in
    let transfer = service fuel mem reports (i + 1) (arm_report decoded) ring' in
    elim event [
      | none ↦ some (h', ring)
      | some (kind, cc) ↦ if kind == trb_type_transfer then transfer else other
    ]
