-- ===== src/Sched/Tests.antt =====
-- The scheduler with three tasks.
use field_os.Prelude.{◌+◌, ◌-◌, ◌≡◌, refl, arith, [], ◌∷◌, ◌++◌, none, some}
use field_os.Prelude.Outcome.{returned, panic, add64}
use field_os.Sched.{Cpu, swap_current, rotate, yield_now, spawn, init}
use field_os.Sched.Tasks.{spawns, here, next, Keeps, Reach-Keeps}
use field_os.Sched.Slice.{timers, running_for, timers_lem}

abbrev booting : Cpu
booting = record {
  current = none;
  idle = none;
  runqueue = 11 ∷ 12 ∷ [];
  ticks = 40;
  preempt_count = 0;
  last_switch_tick = 0;
}

-- Before `init` a yield halts the kernel; after it the idle task runs.
yield_now_halts : yield_now booting ≡ panic
unfolding yield_now rotate swap_current
yield_now_halts = refl

abbrev booted : Cpu
booted = record {
  current = some 10;
  idle = some 10;
  runqueue = 11 ∷ 12 ∷ [];
  ticks = 40;
  preempt_count = 0;
  last_switch_tick = 0;
}

init_runs : init booting 10 ≡ booted
unfolding init
init_runs = refl

Reach-Keeps_example : Keeps booted (13 ∷ []) (spawn booted 13)
Reach-Keeps_example = Reach-Keeps {t = 10} (next here (spawns booted 13)) refl

-- The slice started one tick before the counter's last value, and lasts across the wrap.
timers_lem_example :
    (timers 5 (running_for booted 10 (11 ∷ (12 ∷ [])) 0xFFFFFFFFFFFFFFFE 2)
      ≡ returned (running_for booted 10 (11 ∷ (12 ∷ [])) 0xFFFFFFFFFFFFFFFE (5 + 2)))
    × (timers (10 - 2) (running_for booted 10 (11 ∷ (12 ∷ [])) 0xFFFFFFFFFFFFFFFE 2)
        ≡ returned (running_for booted 11 ((12 ∷ []) ++ (10 ∷ [])) (add64 0xFFFFFFFFFFFFFFFE 10) 0))
timers_lem_example =
    timers_lem booted 10 11 (12 ∷ []) 0xFFFFFFFFFFFFFFFE 5 2 (omega arith) (omega arith)
