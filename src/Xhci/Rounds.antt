-- ===== src/Xhci/Rounds.antt =====
-- Any number of reports, armed one after the other.
use field_os.Prelude.{
  ℕ, zero, suc, ◌-◌, ◌<◌, ◌≡◌, refl, sym, subst, ◌∙◌, arith, List, [], ◌∷◌, Option, none, some,
  Bool-cases, inl, inr, true, false, ltb, ◌==◌,
}
use field_os.Xhci.{Trb}
use field_os.Xhci.Hid.{HidState, ep_ring_trbs, wrap, enqueue_report, arm_report}
use field_os.Xhci.Rearm.{Endpoint, fetch, rounds, Idle, IsReport}
use field_os.Xhci.Armed.{
  block, armed, passed, link, wrapped, restart, elsewhere, block-IsReport, fetch_here-block,
  fetch-block, fetch_nothing, same_fields, armed-Idle, link_at, wrapped_fields, wrapped-Idle,
  fetch-link,
}

-- What one round does.
record Round (h : HidState) (e : Endpoint) : Type 0 where
  got : Trb
  next : Endpoint
  found : fetch (arm_report h).ep_ring_phys (arm_report h).ep_ring e ≡ (some got, next)
  no_more : fetch (arm_report h).ep_ring_phys (arm_report h).ep_ring next ≡ (none, next)
  report : IsReport got h.report_phys (arm_report h).ep_cycle
  idle : Idle (arm_report h) next
  same_report : (arm_report h).report_phys ≡ h.report_phys

arm_report-inner : (h : HidState) → h.ep_enqueue < 255 → arm_report h ≡ enqueue_report h
unfolding arm_report
arm_report-inner h room =
    let differ : (h.ep_enqueue == ep_ring_trbs - 1) ≡ false = ground arith in rw differ refl

arm_report-last : (h : HidState) → h.ep_enqueue ≡ 255 → arm_report h ≡ enqueue_report (wrap h)
unfolding arm_report
arm_report-last h full =
    let equal : (h.ep_enqueue == ep_ring_trbs - 1) ≡ true = ground arith in rw equal refl

inner : (h : HidState) (e : Endpoint) → Idle h e → h.ep_enqueue < 255 → Round h e
inner h e idle room =
    let same = arm_report-inner h room in
    let fields = same_fields h e idle room in
    record {
      got = block h e idle room;
      next = passed h e idle room;
      found = rw (same, fields.2) (fetch-block h e idle room);
      no_more = rw (same, fields.2) (fetch_nothing h e idle room);
      report = rw (same, fields.1) (block-IsReport h e idle room);
      idle = rw same (armed-Idle h e idle room);
      same_report = rw same fields.3;
    }

last : (h : HidState) (e : Endpoint) → Idle h e → h.ep_enqueue ≡ 255 → Round h e
last h e idle full =
    let same = arm_report-last h full in
    let (enqueue, cycle, base, report) = wrapped_fields h e idle full in
    let w = wrapped h e idle full in
    let again = wrapped-Idle h e idle full in
    let start = restart h e idle full in
    let room : w.ep_enqueue < 255 = omega (arith, enqueue) in
    let fields = same_fields w start again room in
    let kept : (armed w start again room).ep_ring 255 ≡ link h e idle full =
      elsewhere w start again room 255 (λ p. omega (arith, enqueue)) ∙ link_at h e idle full in
    record {
      got = block w start again room;
      next = passed w start again room;
      found =
          rw (same, fields.2)
            (subst
              (λ b.
                fetch b (armed w start again room).ep_ring e
                ≡ (some (block w start again room), passed w start again room))
              (sym base)
              (fetch-link h e idle full (armed w start again room).ep_ring kept
                ∙ fetch_here-block w start again room));
      no_more = rw (same, fields.2) (fetch_nothing w start again room);
      report =
          rw (same, fields.1)
            (subst (λ p. IsReport (block w start again room) p w.ep_cycle) report
              (block-IsReport w start again room));
      idle = rw same (armed-Idle w start again room);
      same_report = rw same (fields.3 ∙ report);
    }

round : (h : HidState) (e : Endpoint) → Idle h e → Round h e
round h e idle = elim (Bool-cases (ltb h.ep_enqueue 255)) [
  | inl room ↦ inner h e idle (ground arith)
  | inr full ↦ last h e idle (ground (arith, idle.small))
]

-- In each of the `n` rounds, a block for the report's buffer was found, and then nothing.
pub data AreReports (report_phys : ℕ) : ℕ → List (Option Trb × Option Trb) → Type 0 where
  nothing : AreReports report_phys 0 []
  one :
      {n c : ℕ} {t : Trb} {out : List (Option Trb × Option Trb)}
      → IsReport t report_phys c
      → AreReports report_phys n out
      → AreReports report_phys (suc n) ((some t, none) ∷ out)

-- From a state in which nothing is armed, in any number of rounds, however often the ring starts over
-- at its Link block: each call of `arm_report` arms exactly one transfer, into the buffer of the
-- report and with an event at its end, which the controller finds, and after which it finds nothing;
-- and then nothing is armed again.
pub rounds_lem :
    (n : ℕ) (h : HidState) (e : Endpoint)
    → Idle h e
    → AreReports h.report_phys n (rounds n h e).0 × Idle (rounds n h e).1 (rounds n h e).2
unfolding rounds
rounds_lem zero h e idle = (nothing, idle)
rounds_lem (suc n) h e idle =
    let r = round h e idle in
    let (reports, end) = rounds_lem n (arm_report h) r.next r.idle in
    let reports' =
      subst (λ p. AreReports p n (rounds n (arm_report h) r.next).0) r.same_report reports in
    rw (r.found, r.no_more) (one r.report reports', end)
