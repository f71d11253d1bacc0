-- ===== src/Kbd.antt =====
-- arsenal-kernel/src/kbd.rs, the PS/2 keyboard: scancode decoder, byte ring and interrupt handler.
pub mod Tables
pub mod Ring
pub mod Race
pub mod Interleaving
pub mod Coherent
pub mod Atomic
pub mod Keys
pub mod Stream
mod Tests
use Tables.{sc_to_ascii, sc_to_ascii_shifted}
use field_os.Prelude.{
  ℕ, zero, suc, ◌+◌, ◌-◌, ◌%◌, ◌^◌, bit_and, Bool, true, false, not, ◌||◌, List, [], ◌∷◌, Option,
  none, some, ltb, leb, ◌==◌, if◌then◌else◌, length, get_or, update,
}
use field_os.Prelude.Outcome.{add64}

-- The decoder's statics: IN_E0_SEQUENCE, IN_E1_SEQUENCE_REMAINING, LSHIFT_DOWN, RSHIFT_DOWN.
pub record Decoder : Type 0 where
  pub in_e0 : Bool
  pub e1_remaining : ℕ
  pub lshift_down : Bool
  pub rshift_down : Bool

abbrev pub decoder_init : Decoder
decoder_init = record { in_e0 = false; e1_remaining = 0; lshift_down = false; rshift_down = false }

abbrev pub sc_extended_e0 : ℕ
sc_extended_e0 = 0xE0

abbrev pub sc_extended_e1 : ℕ
sc_extended_e1 = 0xE1

abbrev pub sc_lshift_press : ℕ
sc_lshift_press = 0x2A

abbrev pub sc_lshift_release : ℕ
sc_lshift_release = 0xAA

abbrev pub sc_rshift_press : ℕ
sc_rshift_press = 0x36

abbrev pub sc_rshift_release : ℕ
sc_rshift_release = 0xB6

-- The end of `decode_scancode`: the table lookup for a press code.
pub lookup_key : Bool → ℕ → Option ℕ
lookup_key shifted sc =
    let byte = if shifted then get_or sc_to_ascii_shifted sc 0 else get_or sc_to_ascii sc 0 in
    if not (bit_and sc 0x80 == 0)
    then none
    else if leb (length sc_to_ascii) sc
    then none
    else if byte == 0
    then none
    else some byte

-- The `match` of `decode_scancode` and what follows it.
pub decode_key : Decoder → ℕ → Option ℕ × Decoder
decode_key s sc =
    if sc == sc_extended_e0
    then (none, record s { in_e0 = true })
    else if sc == sc_extended_e1
    then (none, record s { e1_remaining = 2 })
    else if sc == sc_lshift_press
    then (none, record s { lshift_down = true })
    else if sc == sc_lshift_release
    then (none, record s { lshift_down = false })
    else if sc == sc_rshift_press
    then (none, record s { rshift_down = true })
    else if sc == sc_rshift_release
    then (none, record s { rshift_down = false })
    else (lookup_key (s.lshift_down || s.rshift_down) sc, s)

pub decode_scancode : Decoder → ℕ → Option ℕ × Decoder
decode_scancode s sc =
    if ltb 0 s.e1_remaining
    then (none, record s { e1_remaining = s.e1_remaining - 1 })
    else if s.in_e0
    then (none, record s { in_e0 = false })
    else decode_key s sc

abbrev pub ring_size : ℕ
ring_size = 256

-- `RING` and `DROPPED`; the array is a function of the index.
pub record KbdRing : Type 0 where
  pub buf : ℕ → ℕ
  pub head : ℕ
  pub tail : ℕ
  pub dropped : ℕ

-- `ring_push` from its two loads on: `head` and `tail` are the values that they gave.
pub push_loaded : KbdRing → ℕ → ℕ → ℕ → KbdRing
push_loaded r head tail b =
    let next_head = (head + 1) % ring_size in
    if next_head == tail
    then record r { dropped = add64 r.dropped 1 }
    else record r { buf = update r.buf head b; head = next_head }

pub ring_push : KbdRing → ℕ → KbdRing
ring_push r b = push_loaded r r.head r.tail b

pub ring_pop : KbdRing → Option ℕ × KbdRing
ring_pop r =
    if r.head == r.tail
    then (none, r)
    else (some (r.buf r.tail), record r { tail = (r.tail + 1) % ring_size })

unfoldable pub inject : KbdRing → ℕ → KbdRing
inject r b = ring_push r b

-- What the handler does with the outcome of the decoder.
push_decoded : KbdRing → Option ℕ → KbdRing
push_decoded r none = r
push_decoded r (some b) = ring_push r b

-- `keyboard_handler` for the byte `sc` that it reads from the data port.
pub keyboard_handler : Decoder → KbdRing → ℕ → Decoder × KbdRing
unfolding push_decoded
keyboard_handler s r sc = let (out, s') = decode_scancode s sc in (s', push_decoded r out)
