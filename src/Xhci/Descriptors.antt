-- ===== src/Xhci/Descriptors.antt =====
-- The walks over the descriptors of a configuration: `first_interface`,
-- `find_interrupt_in_endpoint` and `find_bulk_endpoints`. A byte out of range halts.
use field_os.Prelude.{
  ℕ, zero, suc, ◌+◌, ◌*◌, bit_and, Bool, not, ◌&&◌, ◌||◌, List, Option, none, some, ltb, leb, ◌==◌,
  if◌then◌else◌, length, get_elem?,
}
use field_os.Xhci.{Run, finished, halted, spinning, ◌>>=◌}

-- `cfg[i]`.
unfoldable pub at : List ℕ → ℕ → Run ℕ
at cfg i = elim (get_elem? cfg i) [ none ↦ halted | some b ↦ finished b ]

abbrev pub usb_desc_interface : ℕ
usb_desc_interface = 4

abbrev pub usb_desc_endpoint : ℕ
usb_desc_endpoint = 5

abbrev pub Interface : Type 0
Interface = ℕ × ℕ × ℕ × ℕ

-- The class, subclass, protocol and number of endpoints of the descriptor at `i`.
unfoldable pub interface_at : List ℕ → ℕ → Run Interface
unfolding at
interface_at cfg i = do
  class ← at cfg (i + 5)
  subclass ← at cfg (i + 6)
  protocol ← at cfg (i + 7)
  endpoints ← at cfg (i + 4)
  finished (class, subclass, protocol, endpoints)

unfoldable pub first_interface_from : ℕ → List ℕ → ℕ → Run Interface
first_interface_from zero cfg i = spinning
first_interface_from (suc fuel) cfg i =
    if ltb (length cfg) (i + 2)
    then finished (0, 0, 0, 0)
    else at cfg i >>= (λ len.
      if ltb len 2 || ltb (length cfg) (i + len)
      then finished (0, 0, 0, 0)
      else at cfg (i + 1) >>= (λ kind.
        let found = interface_at cfg i in
        let later = first_interface_from fuel cfg (i + len) in
        if (kind == usb_desc_interface) && leb 9 len then found else later))

unfoldable pub first_interface : ℕ → List ℕ → Run Interface
first_interface fuel cfg = first_interface_from fuel cfg 0

-- The address, attributes, `u16::from_le_bytes` of the largest packet, and interval of the endpoint
-- descriptor at `i`.
pub record Endpoint : Type 0 where
  pub addr : ℕ
  pub attrs : ℕ
  pub maxpkt : ℕ

unfoldable pub endpoint_at : List ℕ → ℕ → Run Endpoint
endpoint_at cfg i = do
  addr ← at cfg (i + 2)
  attrs ← at cfg (i + 3)
  low ← at cfg (i + 4)
  high ← at cfg (i + 5)
  finished (record { addr = addr; attrs = attrs; maxpkt = low + high * 256 })

abbrev pub is_in : Endpoint → Bool
is_in e = not (bit_and e.addr 0x80 == 0)

unfoldable pub find_interrupt_from : ℕ → List ℕ → ℕ → Run (Option (ℕ × ℕ × ℕ))
find_interrupt_from zero cfg i = spinning
find_interrupt_from (suc fuel) cfg i =
    if ltb (length cfg) (i + 2)
    then finished none
    else at cfg i >>= (λ len.
      if ltb len 2 || ltb (length cfg) (i + len)
      then finished none
      else at cfg (i + 1) >>= (λ kind.
        let later = find_interrupt_from fuel cfg (i + len) in
        let here = endpoint_at cfg i >>= (λ e. at cfg (i + 6) >>= (λ interval.
          if (bit_and e.attrs 3 == 3) && is_in e
          then finished (some (e.addr, e.maxpkt, interval))
          else later)) in
        if (kind == usb_desc_endpoint) && leb 7 len then here else later))

unfoldable pub find_interrupt_in_endpoint : ℕ → List ℕ → Run (Option (ℕ × ℕ × ℕ))
find_interrupt_in_endpoint fuel cfg = find_interrupt_from fuel cfg 0

-- `Option::or`.
abbrev pub or_else {ℓ} : {A : Type ℓ} → Option A → Option A → Option A
or_else (some a) b = some a
or_else none b = b

abbrev pub Found : Type 0
Found = Option (ℕ × ℕ)

-- What the bulk endpoint `e` makes of the two variables of the loop.
abbrev pub note : Endpoint → Found × Found → Found × Found
note e (bulk_in, bulk_out) =
    if is_in e
    then (or_else bulk_in (some (e.addr, e.maxpkt)), bulk_out)
    else (bulk_in, or_else bulk_out (some (e.addr, e.maxpkt)))

unfoldable pub find_bulk_from : ℕ → List ℕ → ℕ → Found × Found → Run (Found × Found)
find_bulk_from zero cfg i found = spinning
find_bulk_from (suc fuel) cfg i found =
    if ltb (length cfg) (i + 2)
    then finished found
    else at cfg i >>= (λ len.
      if ltb len 2 || ltb (length cfg) (i + len)
      then finished found
      else at cfg (i + 1) >>= (λ kind.
        let later = find_bulk_from fuel cfg (i + len) found in
        let here = endpoint_at cfg i >>= (λ e.
          find_bulk_from fuel cfg (i + len)
            (if bit_and e.attrs 3 == 2 then note e found else found)) in
        if (kind == usb_desc_endpoint) && leb 7 len then here else later))

abbrev pub both : Found × Found → Option (ℕ × ℕ × ℕ × ℕ)
both (some (ia, im), some (oa, om)) = some (ia, im, oa, om)
both (_, _) = none

unfoldable pub find_bulk_endpoints : ℕ → List ℕ → Run (Option (ℕ × ℕ × ℕ × ℕ))
find_bulk_endpoints fuel cfg =
    find_bulk_from fuel cfg 0 (none, none) >>= (λ found. finished (both found))
