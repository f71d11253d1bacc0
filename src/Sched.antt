-- ===== src/Sched.antt =====
-- arsenal-kernel/src/sched.rs, the round-robin scheduler of one CPU.
-- A task is named by the address of its `Task`; the switch of the stacks is assembly and is left
-- out, so that an operation ends where the code calls `switch_to`.
pub mod RoundRobin
pub mod Tasks
pub mod Slice
mod Tests
use field_os.Prelude.{
  ℕ, ◌+◌, ◌-◌, ◌%◌, ◌^◌, Bool, List, [], ◌∷◌, ◌++◌, Option, none, some, ltb, if◌then◌else◌,
}
use field_os.Prelude.Outcome.{Outcome, returned, panic, add64, sub64}

-- The fields of `CpuLocal` that the scheduler uses; a null pointer is `none`.
pub record Cpu : Type 0 where
  pub current : Option ℕ
  pub idle : Option ℕ
  pub runqueue : List ℕ
  pub ticks : ℕ
  pub preempt_count : ℕ
  pub last_switch_tick : ℕ

abbrev pub slice_ticks : ℕ
slice_ticks = 10

pub spawn : Cpu → ℕ → Cpu
spawn cpu task = record cpu { runqueue = cpu.runqueue ++ (task ∷ []) }

-- The swap of the current task for `next`, where `rest` is what the runqueue still holds.
pub swap_current : Cpu → ℕ → List ℕ → Option ℕ → Outcome Cpu
swap_current cpu next rest none = panic
swap_current cpu next rest (some prev) = returned (record cpu {
  current = some next;
  runqueue = rest ++ (prev ∷ []);
  last_switch_tick = cpu.ticks;
})

-- What `yield_now` does from `pop_front` on.
pub rotate : Cpu → List ℕ → Outcome Cpu
unfolding swap_current
rotate cpu [] = returned cpu
rotate cpu (next ∷ rest) = swap_current cpu next rest cpu.current

pub yield_now : Cpu → Outcome Cpu
yield_now cpu = rotate cpu cpu.runqueue

pub preempt : Cpu → Outcome Cpu
preempt cpu =
    if ltb 0 cpu.preempt_count
    then returned cpu
    else if ltb (sub64 cpu.ticks cpu.last_switch_tick) slice_ticks
    then returned cpu
    else rotate cpu cpu.runqueue

-- `timer_handler` of apic.rs
pub timer_handler : Cpu → Outcome Cpu
timer_handler cpu = preempt (record cpu { ticks = add64 cpu.ticks 1 })

-- `init`, for the address of the idle task that it builds.
pub init : Cpu → ℕ → Cpu
init cpu idle_task = record cpu { idle = some idle_task; current = some idle_task }
