-- ===== src/Irq/Handlers.antt =====
-- A registered handler is the one that an interrupt calls.
use field_os.Prelude.{
  ℕ, ◌<◌, ◌≡◌, ◌≢◌, refl, sym, ap, ◌∙◌, arith, Option, none, some, true, false, leb, update,
  update_self, update_ne,
}
use field_os.Irq.{SlotEntry, Slots, request_irq, free_irq, dispatch_common, call_of, dev_of}

-- For one of the sixteen slots: after `request_irq` an interrupt on the slot calls the handler with
-- the irq and the device; `free_irq` then returns the device, and an interrupt calls nothing; an
-- interrupt on any other slot calls what it called before, after both.
pub request_irq-free_irq :
    (s : Slots) (irq handler dev_id other : ℕ)
    → irq < 16
    → other ≢ irq
    → let t = (request_irq s irq handler dev_id).1 in
      let u = (free_irq t irq).1 in
      ((request_irq s irq handler dev_id).0 ≡ true)
      × (dispatch_common t irq ≡ some (handler, irq, dev_id))
      × ((free_irq t irq).0 ≡ dev_id)
      × (dispatch_common u irq ≡ none)
      × (dispatch_common t other ≡ dispatch_common s other)
      × (dispatch_common u other ≡ dispatch_common s other)
unfolding request_irq free_irq dispatch_common call_of dev_of
request_irq-free_irq s irq handler dev_id other inside differs =
    let legal : leb 16 irq ≡ false = ground arith in
    let entry : Option SlotEntry =
      some (record { handler = handler; dev_id = dev_id; irq = irq }) in
    let set = update_self s.slots irq entry in
    let cleared = update_self (update s.slots irq entry) irq none in
    let kept = update_ne s.slots irq other entry (λ e. differs (sym e)) in
    let kept' = update_ne (update s.slots irq entry) irq other none (λ e. differs (sym e)) in
    rw legal (
      refl,
      ap call_of set,
      ap dev_of set,
      ap call_of cleared,
      ap call_of kept,
      ap call_of (kept' ∙ kept),
    )
