-- ===== src/Irq/Tests.antt =====
-- The slot pool with ten slots given out.
use field_os.Prelude.{ℕ, ◌≡◌, refl, none, some, true}
use field_os.Irq.{Slots, bump, unbump, is_exhausted, alloc_slots}

abbrev ten : Slots
ten = record { slots = λ _. none; next_slot = 10 }

abbrev four : ℕ
four = 4

-- Three callers that meet: one wants 16 slots and one wants 1, and both fail and have not yet taken
-- their `fetch_add` back. The first takes it back; a third caller then gets the slots 11 and 12; the
-- second takes its own back; and a fourth is given the slot 12 again.
abbrev two_failing : Slots
two_failing = bump (bump ten 16) 1

two_fail : is_exhausted 10 16 ≡ true
two_fail = refl

two_fail' : is_exhausted 26 1 ≡ true
two_fail' = refl

third_gets : (alloc_slots (unbump two_failing 16) 2).0 ≡ some 11
unfolding alloc_slots bump unbump
third_gets = refl

fourth_gets : (alloc_slots (unbump (alloc_slots (unbump two_failing 16) 2).1 1) 1).0 ≡ some 12
unfolding alloc_slots bump unbump
fourth_gets = refl
