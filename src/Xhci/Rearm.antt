-- ===== src/Xhci/Rearm.antt =====
-- The transfer ring of the keyboard, between `arm_report` and the controller.
use field_os.Prelude.{
  ℕ, zero, suc, ◌+◌, ◌-◌, ◌*◌, ◌/◌, ◌%◌, ◌^◌, ◌<◌, ◌≤◌, ◌≡◌, ◌≢◌, List, [], ◌∷◌, Option, none, some,
  ◌==◌, if◌then◌else◌, ◌&&◌,
}
use field_os.Xhci.{Trb}
use field_os.Xhci.Control.{flag, type_of}
use field_os.Xhci.Hid.{HidState, trb_type_link, arm_report}

-- The controller's position in the ring, and its cycle state.
pub record Endpoint : Type 0 where
  pub slot : ℕ
  pub ccs : ℕ

-- The block at the controller's position, if its cycle bit says that it is to be run.
unfoldable pub fetch_here : (ℕ → Trb) → Endpoint → Option Trb × Endpoint
fetch_here ring e =
    let t = ring e.slot in
    if t.d3 % 2 == e.ccs then (some t, record e { slot = e.slot + 1 }) else (none, e)

-- The slot to which a Link block leads, in a ring at `base`.
unfoldable pub link_slot : ℕ → Trb → ℕ
link_slot base t = (t.d0 + t.d1 * 2 ^ 32 - base) / 16

-- The controller follows a Link block, and toggles its cycle state where the block says so.
unfoldable pub fetch : ℕ → (ℕ → Trb) → Endpoint → Option Trb × Endpoint
fetch base ring e =
    let t = ring e.slot in
    if (t.d3 % 2 == e.ccs) && (type_of t == trb_type_link)
    then fetch_here ring
        (record { slot = link_slot base t; ccs = if flag 1 t == 1 then 1 - e.ccs else e.ccs })
    else fetch_here ring e

-- Rounds in which a report is armed, and the controller then looks twice.
unfoldable pub rounds :
    ℕ → HidState → Endpoint → List (Option Trb × Option Trb) × HidState × Endpoint
rounds zero h e = ([], h, e)
rounds (suc n) h e =
    let h' = arm_report h in
    let (got, e') = fetch h'.ep_ring_phys h'.ep_ring e in
    let (more, next) = fetch h'.ep_ring_phys h'.ep_ring e' in
    let (out, h_end, e_end) = rounds n h' next in ((got, more) ∷ out, h_end, e_end)

-- Nothing is armed, and the two sides are at the same place.
pub record Idle (h : HidState) (e : Endpoint) : Type 0 where
  pub at : e.slot ≡ h.ep_enqueue
  pub pass : e.ccs ≡ h.ep_cycle
  pub bit : h.ep_cycle ≤ 1
  pub small : h.ep_enqueue ≤ 255
  pub before : (i : ℕ) → i < h.ep_enqueue → (h.ep_ring i).d3 % 2 ≡ h.ep_cycle
  pub from : (i : ℕ) → h.ep_enqueue ≤ i → i ≤ 255 → (h.ep_ring i).d3 % 2 ≢ h.ep_cycle

-- A report's block, with the cycle bit `c`.
abbrev pub IsReport : Trb → ℕ → ℕ → Type 0
IsReport t report_phys c =
    (t.d0 + t.d1 * 2 ^ 32 ≡ report_phys)
    × (t.d2 ≡ 8)
    × (type_of t ≡ 1)
    × (flag 5 t ≡ 1)
    × (t.d3 % 2 ≡ c)
