-- ===== src/Sched/RoundRobin.antt =====
-- `yield_now` goes round the tasks in order.
use field_os.Prelude.{
  ℕ, zero, suc, ◌≡◌, refl, ap, ◌∙◌, List, [], ◌∷◌, ◌++◌, append_assoc, some, length,
}
use field_os.Prelude.Outcome.{Outcome, returned, ◌>>=◌}
use field_os.Sched.{Cpu, swap_current, rotate, yield_now}

-- `n` yields, one after the other.
unfoldable pub yields : ℕ → Cpu → Outcome Cpu
yields zero cpu = returned cpu
yields (suc n) cpu = yield_now cpu >>= yields n

-- The CPU with the task `t` running, the tasks `ts` waiting, and the last switch at `at`.
abbrev pub running : Cpu → ℕ → List ℕ → ℕ → Cpu
running cpu t ts at = record cpu { current = some t; runqueue = ts; last_switch_tick = at }

yield_now-running :
    (cpu : Cpu) (t x : ℕ) (xs : List ℕ) (at : ℕ)
    → yield_now (running cpu t (x ∷ xs) at) ≡ returned (running cpu x (xs ++ (t ∷ [])) cpu.ticks)
unfolding yield_now rotate swap_current
yield_now-running cpu t x xs at = refl

-- A task that waits behind the tasks `xs` runs after as many yields as it takes to pass them and
-- one more; the tasks behind it are then next, and those that ran wait behind them in order.
pub yields-running :
    (cpu : Cpu) (t x : ℕ) (xs ys : List ℕ) (at : ℕ)
    → yields (suc (length xs)) (running cpu t (xs ++ (x ∷ ys)) at)
      ≡ returned (running cpu x (ys ++ (t ∷ xs)) cpu.ticks)
unfolding yields
yields-running cpu t x [] ys at = rw (yield_now-running cpu t x ys at) refl
yields-running cpu t x (z ∷ xs) ys at =
    let go = yields-running cpu z x xs (ys ++ (t ∷ [])) cpu.ticks in
    rw (yield_now-running cpu t z (xs ++ (x ∷ ys)) at, append_assoc xs (x ∷ ys) (t ∷ []))
      (go ∙ ap (λ l. returned (running cpu x l cpu.ticks)) (append_assoc ys (t ∷ []) (z ∷ xs)))

-- A whole round of yields, one for each task, gives the turn back to the task that had it, and
-- leaves the others in their order.
pub yields-round :
    (cpu : Cpu) (t x : ℕ) (xs : List ℕ) (at : ℕ)
    → yields (suc (suc (length xs))) (running cpu t (x ∷ xs) at)
      ≡ returned (running cpu t (x ∷ xs) cpu.ticks)
yields-round cpu t x xs at =
    unfold yields in rw (yield_now-running cpu t x xs at) (yields-running cpu x t xs [] cpu.ticks)
