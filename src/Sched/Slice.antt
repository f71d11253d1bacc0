-- ===== src/Sched/Slice.antt =====
-- A task that does not yield runs for one time slice.
use field_os.Prelude.{
  ℕ, zero, suc, ◌+◌, ◌-◌, ◌^◌, ◌≤◌, ◌<◌, ◌≡◌, refl, ap, ◌∙◌, arith, List, [], ◌∷◌, ◌++◌, some, ltb,
  true, false,
}
use field_os.Prelude.Outcome.{Outcome, returned, ◌>>=◌, add64, sub64}
use field_os.Sched.{Cpu, swap_current, rotate, preempt, timer_handler}

-- `n` timer interrupts, one after the other.
unfoldable pub timers : ℕ → Cpu → Outcome Cpu
timers zero cpu = returned cpu
timers (suc n) cpu = timer_handler cpu >>= timers n

-- The task `t` has run for `age` ticks since the switch at the tick `at`, and `ts` wait.
abbrev pub running_for : Cpu → ℕ → List ℕ → ℕ → ℕ → Cpu
running_for cpu t ts at age = record cpu {
  current = some t;
  runqueue = ts;
  preempt_count = 0;
  last_switch_tick = at;
  ticks = add64 at age;
}

early :
    (cpu : Cpu) (t : ℕ) (ts : List ℕ) (at age : ℕ)
    → at < 2 ^ 64
    → age < 9
    → timer_handler (running_for cpu t ts at age) ≡ returned (running_for cpu t ts at (suc age))
unfolding timer_handler preempt
early cpu t ts at age small young =
    let now : add64 (add64 at age) 1 ≡ add64 at (suc age) = omega arith in
    let inside : ltb (sub64 (add64 at (suc age)) at) 10 ≡ true = ground arith in
    rw (now, inside) refl

late :
    (cpu : Cpu) (t x : ℕ) (xs : List ℕ) (at : ℕ)
    → at < 2 ^ 64
    → timer_handler (running_for cpu t (x ∷ xs) at 9)
      ≡ returned (running_for cpu x (xs ++ (t ∷ [])) (add64 at 10) 0)
unfolding timer_handler preempt rotate swap_current
late cpu t x xs at small =
    let now : add64 (add64 at 9) 1 ≡ add64 at 10 = omega arith in
    let outside : ltb (sub64 (add64 at 10) at) 10 ≡ false = ground arith in
    let fresh : add64 (add64 at 10) 0 ≡ add64 at 10 = omega arith in rw (now, outside, fresh) refl

keeps_running :
    (cpu : Cpu) (t : ℕ) (ts : List ℕ) (at : ℕ) (n age : ℕ)
    → at < 2 ^ 64
    → n + age ≤ 9
    → timers n (running_for cpu t ts at age) ≡ returned (running_for cpu t ts at (n + age))
unfolding timers
keeps_running cpu t ts at zero age small few =
    let e : age ≡ 0 + age = omega arith in ap (λ k. returned (running_for cpu t ts at k)) e
keeps_running cpu t ts at (suc n) age small few =
    let e : n + suc age ≡ suc n + age = omega arith in
    rw (early cpu t ts at age small (omega arith)) (
      keeps_running cpu t ts at n (suc age) small (omega arith)
      ∙ ap (λ k. returned (running_for cpu t ts at k)) e)

loses_turn :
    (cpu : Cpu) (t x : ℕ) (xs : List ℕ) (at left age : ℕ)
    → at < 2 ^ 64
    → left + age ≡ 9
    → timers (suc left) (running_for cpu t (x ∷ xs) at age)
      ≡ returned (running_for cpu x (xs ++ (t ∷ [])) (add64 at 10) 0)
unfolding timers
loses_turn cpu t x xs at zero age small e =
    let last : age ≡ 9 = omega arith in rw last (rw (late cpu t x xs at small) refl)
loses_turn cpu t x xs at (suc left) age small e =
    rw (early cpu t (x ∷ xs) at age small (omega arith))
      (loses_turn cpu t x xs at left (suc age) small (omega arith))

-- With preemption enabled and another task waiting, a task that has run for `age` ticks of its
-- slice keeps the CPU at the timer interrupts before the tenth tick, also across the wrap of the
-- tick counter; at the tenth the first waiting task runs with a full slice, and the task that ran
-- waits behind the others.
pub timers_lem :
    (cpu : Cpu) (t x : ℕ) (xs : List ℕ) (at n age : ℕ)
    → at < 2 ^ 64
    → n + age ≤ 9
    → (timers n (running_for cpu t (x ∷ xs) at age)
        ≡ returned (running_for cpu t (x ∷ xs) at (n + age)))
      × (timers (10 - age) (running_for cpu t (x ∷ xs) at age)
          ≡ returned (running_for cpu x (xs ++ (t ∷ [])) (add64 at 10) 0))
timers_lem cpu t x xs at n age small few =
    let e : 10 - age ≡ suc (9 - age) = omega arith in
    (
      keeps_running cpu t (x ∷ xs) at n age small few,
      rw e (loses_turn cpu t x xs at (9 - age) age small (omega arith)),
    )
