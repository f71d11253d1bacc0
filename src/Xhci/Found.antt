-- ===== src/Xhci/Found.antt =====
-- The walks find what is in the list of descriptors.
use field_os.Prelude.{
  ℕ, zero, suc, ◌+◌, ◌≤◌, ◌<◌, ◌≡◌, inl, inr, refl, subst, ap, ◌∙◌, arith, bit_and, true, false,
  ◌&&◌, List, [], ◌∷◌, ◌++◌, none, leb, ◌==◌, length, length-append, Bool-cases,
}
use field_os.Xhci.{finished}
use field_os.Xhci.Descriptors.{
  usb_desc_interface, usb_desc_endpoint, Found, is_in, or_else, first_interface_from,
  first_interface, find_interrupt_from, find_interrupt_in_endpoint, find_bulk_from,
  find_bulk_endpoints,
}
use field_os.Xhci.Trees.{
  Descriptor, size, byte, encode, IsStuck, interface_of, endpoint_of, interrupt_of, first_bulk,
  bulk_of, split, Reads, more, len_at, fits, kind_at, skip, Reads-cons, Reads-start,
}
use field_os.Xhci.Bytes.{
  &&-true, if_finished, or_none, note_lem, over, broken, ending, here, interface_here,
  endpoint_here,
}

first_interface_from_lem :
    (fuel : ℕ) (cfg : List ℕ) (i : ℕ) (ds : List Descriptor) (tail : List ℕ)
    → length (encode ds ++ tail) < fuel
    → IsStuck tail
    → Reads cfg i (encode ds ++ tail)
    → first_interface_from fuel cfg i ≡ finished (interface_of ds)
unfolding first_interface_from
first_interface_from_lem zero cfg i ds tail few is reads = absurd (omega arith)
first_interface_from_lem (suc fuel) cfg i [] tail few is reads = elim (ending cfg i tail is reads) [
  | over e ↦ rw e refl
  | broken len e at_len wrong ↦ rw (e, at_len, wrong) refl
]
first_interface_from_lem (suc fuel) cfg i (d ∷ ds) tail few is whole =
    let reads = Reads-cons d ds tail whole in
    let rest = encode ds ++ tail in
    let later =
      first_interface_from_lem fuel cfg (i + size d) ds tail
        (omega (arith, whole.all, reads.all, length-append d.body rest, few)) is
        (skip cfg i d rest reads) in
    rw
      (
        more cfg i d rest reads,
        len_at cfg i d rest reads,
        fits cfg i d rest reads,
        kind_at cfg i d rest reads,
        later,
      )
      (elim (Bool-cases ((d.kind == usb_desc_interface) && leb 9 (size d))) [
        | inl is_kind ↦
            let large : 9 ≤ size d =
              ground (arith, &&-true (d.kind == usb_desc_interface) (leb 9 (size d)) is_kind) in
            rw (is_kind, interface_here cfg i d rest reads large) refl
        | inr other ↦ rw other refl
      ])

find_interrupt_from_lem :
    (fuel : ℕ) (cfg : List ℕ) (i : ℕ) (ds : List Descriptor) (tail : List ℕ)
    → length (encode ds ++ tail) < fuel
    → IsStuck tail
    → Reads cfg i (encode ds ++ tail)
    → find_interrupt_from fuel cfg i ≡ finished (interrupt_of ds)
unfolding find_interrupt_from
find_interrupt_from_lem zero cfg i ds tail few is reads = absurd (omega arith)
find_interrupt_from_lem (suc fuel) cfg i [] tail few is reads = elim (ending cfg i tail is reads) [
  | over e ↦ rw e refl
  | broken len e at_len wrong ↦ rw (e, at_len, wrong) refl
]
find_interrupt_from_lem (suc fuel) cfg i (d ∷ ds) tail few is whole =
    let reads = Reads-cons d ds tail whole in
    let rest = encode ds ++ tail in
    let later =
      find_interrupt_from_lem fuel cfg (i + size d) ds tail
        (omega (arith, whole.all, reads.all, length-append d.body rest, few)) is
        (skip cfg i d rest reads) in
    rw
      (
        more cfg i d rest reads,
        len_at cfg i d rest reads,
        fits cfg i d rest reads,
        kind_at cfg i d rest reads,
        later,
      )
      (elim (Bool-cases ((d.kind == usb_desc_endpoint) && leb 7 (size d))) [
        | inl is_kind ↦
            let large : 7 ≤ size d =
              ground (arith, &&-true (d.kind == usb_desc_endpoint) (leb 7 (size d)) is_kind) in
            rw
              (
                is_kind,
                endpoint_here cfg i d rest reads large,
                here cfg i d rest reads 6 (omega arith) (omega arith),
              )
              (if_finished ((bit_and (byte d 3) 3 == 3) && is_in (endpoint_of d)) _ _)
        | inr other ↦ rw other refl
      ])

find_bulk_from_lem :
    (fuel : ℕ) (cfg : List ℕ) (i : ℕ) (ds : List Descriptor) (tail : List ℕ) (found : Found × Found)
    → length (encode ds ++ tail) < fuel
    → IsStuck tail
    → Reads cfg i (encode ds ++ tail)
    → find_bulk_from fuel cfg i found
      ≡ finished (or_else found.0 (first_bulk true ds), or_else found.1 (first_bulk false ds))
unfolding find_bulk_from
find_bulk_from_lem zero cfg i ds tail found few is reads = absurd (omega arith)
find_bulk_from_lem (suc fuel) cfg i [] tail found few is reads = elim (ending cfg i tail is reads) [
  | over e ↦ rw e (or_none found)
  | broken len e at_len wrong ↦ rw (e, at_len, wrong) (or_none found)
]
find_bulk_from_lem (suc fuel) cfg i (d ∷ ds) tail found few is whole =
    let reads = Reads-cons d ds tail whole in
    let rest = encode ds ++ tail in
    let later : (f : Found × Found)
        → find_bulk_from fuel cfg (i + size d) f
          ≡ finished (or_else f.0 (first_bulk true ds), or_else f.1 (first_bulk false ds)) =
      λ f.
        find_bulk_from_lem fuel cfg (i + size d) ds tail f
          (omega (arith, whole.all, reads.all, length-append d.body rest, few)) is
          (skip cfg i d rest reads) in
    rw
      (
        more cfg i d rest reads,
        len_at cfg i d rest reads,
        fits cfg i d rest reads,
        kind_at cfg i d rest reads,
      )
      (elim (Bool-cases ((d.kind == usb_desc_endpoint) && leb 7 (size d))) [
        | inl is_kind ↦
            let large : 7 ≤ size d =
              ground (arith, &&-true (d.kind == usb_desc_endpoint) (leb 7 (size d)) is_kind) in
            rw (is_kind, endpoint_here cfg i d rest reads large)
              (later _
                ∙ ap finished (
                    note_lem (endpoint_of d) found (first_bulk true ds) (first_bulk false ds)
                      (bit_and (byte d 3) 3 == 2)))
        | inr other ↦ rw other (later found)
      ])

-- Any bytes are the bytes of a list of descriptors, and then bytes that do not begin with one; and
-- with more fuel than there are bytes, the three walks end without reading out of range:
-- `first_interface` returns the class, subclass, protocol and number of endpoints of the first
-- interface descriptor in the list, or zeros; `find_interrupt_in_endpoint` the address, packet size
-- and interval of the first interrupt IN endpoint; and `find_bulk_endpoints` the first bulk IN and the
-- first bulk OUT endpoint, unless one of the two is missing.
pub walks_lem :
    (cfg : List ℕ) (fuel : ℕ)
    → length cfg < fuel
    → (ds : List Descriptor) × (tail : List ℕ) × (cfg ≡ encode ds ++ tail)
      × IsStuck tail
      × (first_interface fuel cfg ≡ finished (interface_of ds))
      × (find_interrupt_in_endpoint fuel cfg ≡ finished (interrupt_of ds))
      × (find_bulk_endpoints fuel cfg ≡ finished (bulk_of ds))
unfolding first_interface find_interrupt_in_endpoint find_bulk_endpoints
walks_lem cfg fuel few =
    let (ds, tail, e, is) = split fuel cfg few in
    let reads = subst (Reads cfg 0) e (Reads-start cfg) in
    let enough : length (encode ds ++ tail) < fuel = subst (λ xs. length xs < fuel) e few in
    (
      ds,
      tail,
      e,
      is,
      first_interface_from_lem fuel cfg 0 ds tail enough is reads,
      find_interrupt_from_lem fuel cfg 0 ds tail enough is reads,
      rw (find_bulk_from_lem fuel cfg 0 ds tail (none, none) enough is reads) refl,
    )
