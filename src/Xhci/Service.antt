-- ===== src/Xhci/Service.antt =====
-- `HidState::service`, which drains the event ring.
use field_os.Prelude.{
  ℕ, zero, suc, ◌+◌, ◌<◌, ◌≡◌, refl, sym, subst, ap, ◌∙◌, arith, Bool, Bool-cases, inl, inr, List,
  [], ◌∷◌, not, bit_and, get_or, drop, some, ◌==◌, if◌then◌else◌, length,
}
use field_os.Kbd.{KbdRing}
use field_os.Xhci.{Trb, advance, trb_type_transfer}
use field_os.Xhci.EventRing.{type_of, Sees}
use field_os.Xhci.Fifo.{try_event-none, try_event-some, advance-Sees}
use field_os.Xhci.Hid.{HidState, decode_key, decode_keys, decode_report, arm_report, service}

decode_key-events :
    (h : HidState) (ring : KbdRing) (shift : Bool) (usage : ℕ)
    → (decode_key h ring shift usage).0.events ≡ h.events
unfolding decode_key
decode_key-events h ring shift usage = ground arith

decode_keys-events :
    (usages : List ℕ) (h : HidState) (ring : KbdRing) (shift : Bool)
    → (decode_keys h ring shift usages).0.events ≡ h.events
unfolding decode_keys
decode_keys-events [] h ring shift = refl
decode_keys-events (u ∷ us) h ring shift =
    decode_keys-events us (decode_key h ring shift u).0 (decode_key h ring shift u).1 shift
    ∙ decode_key-events h ring shift u

decode_report-events :
    (h : HidState) (ring : KbdRing) (report : List ℕ)
    → (decode_report h ring report).0.events ≡ h.events
unfolding decode_report
decode_report-events h ring report =
    decode_keys-events (drop 2 report) h ring (not (bit_and (get_or report 0 0) 0x22 == 0))

arm_report-events : (h : HidState) → (arm_report h).events ≡ h.events
unfolding arm_report
arm_report-events h = ground arith

-- The events `ts`, served one after the other: a transfer event brings the report and a new
-- transfer, and any other event nothing.
abbrev pub serve : List Trb → List ℕ → HidState → KbdRing → HidState × KbdRing
serve [] report h ring = (h, ring)
serve (t ∷ ts) report h ring =
    let h' = record h { events = advance h.events } in
    if type_of t == trb_type_transfer
    then serve ts report (arm_report (decode_report h' ring report).0)
        (decode_report h' ring report).1
    else serve ts report h' ring

-- When the consumer sees the pending blocks `ts`, and the controller posts nothing meanwhile: with
-- more rounds than there are blocks, `service` ends; it has served exactly these blocks, in order,
-- and none is pending any more.
pub service_lem :
    (fuel i : ℕ) (event_ring : ℕ → Trb) (report : List ℕ) (ts : List Trb) (h : HidState)
    (ring : KbdRing)
    → Sees event_ring h.events ts
    → length ts < fuel
    → (h' : HidState) × (ring' : KbdRing) × (service fuel (λ _. event_ring) (λ _. report) i h ring
        ≡ some (h', ring'))
      × (serve ts report h ring ≡ (h', ring'))
      × Sees event_ring h'.events []
unfolding service
service_lem zero i event_ring report ts h ring sees few = absurd (omega arith)
service_lem (suc fuel) i event_ring report [] h ring sees few =
    let hit = try_event-none event_ring event_ring h.events sees in
    (h, ring, rw (service, ap (λ r. r.0) hit, ap (λ r. r.1) hit) refl, refl, sees)
service_lem (suc fuel) i event_ring report (t ∷ ts) h ring sees few =
    let h' = record h { events = advance h.events } in
    let hit = try_event-some event_ring event_ring h.events t ts ts sees sees in
    let rest = advance-Sees event_ring h.events t ts sees in
    elim (Bool-cases (type_of t == trb_type_transfer)) [
      | inl transfer ↦
          let d = (decode_report h' ring report).0 in
          let ring' = (decode_report h' ring report).1 in
          let same = arm_report-events d ∙ decode_report-events h' ring report in
          let (end, ring_end, runs, is, none_left) =
            service_lem fuel (i + 1) event_ring report ts (arm_report d) ring'
              (subst (λ c. Sees event_ring c ts) (sym same) rest) (omega arith) in
          (
            end,
            ring_end,
            rw (service, ap (λ r. r.0) hit, ap (λ r. r.1) hit, transfer) runs,
            rw transfer is,
            none_left,
          )
      | inr other ↦
          let (end, ring_end, runs, is, none_left) =
            service_lem fuel (i + 1) event_ring report ts h' ring rest (omega arith) in
          (
            end,
            ring_end,
            rw (service, ap (λ r. r.0) hit, ap (λ r. r.1) hit, other) runs,
            rw other is,
            none_left,
          )
    ]
