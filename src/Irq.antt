-- ===== src/Irq.antt =====
-- linuxkpi/src/irq.rs, the sixteen interrupt slots of the inherited drivers.
pub mod Ranges
pub mod Handlers
mod Tests
use field_os.Prelude.{
  ℕ, ◌+◌, ◌-◌, ◌%◌, ◌^◌, Bool, true, false, ◌||◌, Option, none, some, ltb, leb, ◌==◌, if◌then◌else◌,
  update,
}
use field_os.Prelude.Outcome.{add64, sub64}

-- A handler is named by its address; `dev_id` and the handler are opaque.
pub record SlotEntry : Type 0 where
  pub handler : ℕ
  pub dev_id : ℕ
  pub irq : ℕ

-- SLOTS and NEXT_SLOT
pub record Slots : Type 0 where
  pub slots : ℕ → Option SlotEntry
  pub next_slot : ℕ

abbrev pub slot_count : ℕ
slot_count = 16

-- The `fetch_add` of `alloc_slots`, and its `fetch_sub`.
pub bump : Slots → ℕ → Slots
bump s count = record s { next_slot = add64 s.next_slot count }

pub unbump : Slots → ℕ → Slots
unbump s count = record s { next_slot = sub64 s.next_slot count }

-- The test after the `fetch_add`, which gave `first`.
abbrev pub is_exhausted : ℕ → ℕ → Bool
is_exhausted first count = ltb slot_count (add64 first count)

pub alloc_slots : Slots → ℕ → Option ℕ × Slots
alloc_slots s count =
    if (count == 0) || ltb slot_count count
    then (none, s)
    else if is_exhausted s.next_slot count
    then (none, unbump (bump s count) count)
    else (some s.next_slot, bump s count)

-- Whether 0 was returned, and not -1.
pub request_irq : Slots → ℕ → ℕ → ℕ → Bool × Slots
request_irq s irq handler dev_id = if leb slot_count irq then (false, s) else (
  true,
  record s {
    slots = update s.slots irq (some (record { handler = handler; dev_id = dev_id; irq = irq }));
  },
)

-- The null pointer is 0.
pub dev_of : Option SlotEntry → ℕ
dev_of none = 0
dev_of (some e) = e.dev_id

unfoldable pub free_irq : Slots → ℕ → ℕ × Slots
free_irq s irq =
    if leb slot_count irq
    then (0, s)
    else (dev_of (s.slots irq), record s { slots = update s.slots irq none })

-- The call that an interrupt on a slot makes: the handler, the irq and the device.
unfoldable pub call_of : Option SlotEntry → Option (ℕ × ℕ × ℕ)
call_of none = none
call_of (some e) = some (e.handler, e.irq, e.dev_id)

unfoldable pub dispatch_common : Slots → ℕ → Option (ℕ × ℕ × ℕ)
dispatch_common s slot = call_of (s.slots slot)
