-- ===== src/Sched/Tasks.antt =====
-- No task is lost and none runs twice.
use field_os.Prelude.{
  ℕ, ◌+◌, ◌≡◌, refl, subst, arith, List, [], ◌∷◌, ◌++◌, Option, none, some, Bool-cases, inl, inr,
  ltb, occurs, occurs-append,
}
use field_os.Prelude.Outcome.{returned, add64, sub64}
use field_os.Sched.{Cpu, swap_current, rotate, yield_now, preempt, spawn, timer_handler}

-- An operation of the scheduler; the list is the tasks that it adds.
pub data Step : Cpu → List ℕ → Cpu → Type 0 where
  spawns : (c : Cpu) (t : ℕ) → Step c (t ∷ []) (spawn c t)
  yields : (c d : Cpu) → yield_now c ≡ returned d → Step c [] d
  timer : (c d : Cpu) → timer_handler c ≡ returned d → Step c [] d
  disables : (c : Cpu) (n : ℕ) → Step c [] (record c { preempt_count = n })

pub data Reach (c : Cpu) : List ℕ → Cpu → Type 0 where
  here : Reach c [] c
  next : {ts us : List ℕ} {d e : Cpu} → Reach c ts d → Step d us e → Reach c (ts ++ us) e

abbrev pub held : Option ℕ → ℕ → ℕ
held none x = 0
held (some t) x = occurs x (t ∷ [])

-- How often the CPU holds a task: as the current one, and in the runqueue.
abbrev pub holds : Cpu → ℕ → ℕ
holds c x = held c.current x + occurs x c.runqueue

-- There is a current task, and every task is there as often as before and in the tasks added.
pub record Keeps (c : Cpu) (added : List ℕ) (d : Cpu) : Type 0 where
  pub runs : (t : ℕ) × (d.current ≡ some t)
  pub same_tasks : (x : ℕ) → holds d x ≡ holds c x + occurs x added

-- With a current task no operation panics.
pub rotate-Keeps :
    (c : Cpu) (t : ℕ) (ts : List ℕ)
    → c.current ≡ some t
    → c.runqueue ≡ ts
    → (d : Cpu) × (rotate c ts ≡ returned d) × Keeps c [] d
unfolding rotate swap_current
rotate-Keeps c t [] e q = (c, refl, record { runs = (t, e); same_tasks = λ x. omega arith })
rotate-Keeps c t (u ∷ rest) e q = (
  record c { current = some u; runqueue = rest ++ (t ∷ []); last_switch_tick = c.ticks },
  rw e refl,
  record {
    runs = (u, refl);
    same_tasks = λ x. rw (e, q) (omega (arith, occurs-append x rest (t ∷ [])));
  },
)

timer_handler-Keeps :
    (c : Cpu) (t : ℕ)
    → c.current ≡ some t
    → (d : Cpu) × (timer_handler c ≡ returned d) × Keeps c [] d
unfolding timer_handler preempt
timer_handler-Keeps c t e =
    let c' : Cpu = record c { ticks = add64 c.ticks 1 } in
    let (d, rotated, keeps) = rotate-Keeps c' t c.runqueue e refl in
    let kept : Keeps c [] d = record { runs = keeps.runs; same_tasks = keeps.same_tasks } in
    let stays : Keeps c [] c' = record { runs = (t, e); same_tasks = λ x. omega arith } in
    elim (Bool-cases (ltb 0 c.preempt_count)) [
      | inl off ↦ (c', rw off refl, stays)
      | inr on ↦ elim (Bool-cases (ltb (sub64 c'.ticks c.last_switch_tick) 10)) [
        | inl early ↦ (c', rw (on, early) refl, stays)
        | inr late ↦ (d, rw (on, late) rotated, kept)
      ]
    ]

Step-Keeps : {c d : Cpu} {ts : List ℕ} {t : ℕ} → Step c ts d → c.current ≡ some t → Keeps c ts d
Step-Keeps {t = t} (spawns c u) e =
    unfold spawn in
    record { runs = (t, e); same_tasks = λ x. omega (arith, occurs-append x c.runqueue (u ∷ [])) }
Step-Keeps {t = t} (yields c d ran) e =
    let (d', ran', keeps) = rotate-Keeps c t c.runqueue e refl in
    let same : d' ≡ d = unfold yield_now in cc in subst (Keeps c []) same keeps
Step-Keeps {t = t} (timer c d ran) e =
    let (d', ran', keeps) = timer_handler-Keeps c t e in
    let same : d' ≡ d = cc in subst (Keeps c []) same keeps
Step-Keeps {t = t} (disables c n) e = record { runs = (t, e); same_tasks = λ x. omega arith }

-- From a CPU with a current task, whatever is spawned, yielded or preempted, and whenever the timer
-- fires: there is always a current task, and the tasks of the CPU, the current one and those in the
-- runqueue, are those of the start and the spawned ones, each as often as before.
pub Reach-Keeps :
    {c d : Cpu} {ts : List ℕ} {t : ℕ} → Reach c ts d → c.current ≡ some t → Keeps c ts d
Reach-Keeps {t = t} here e = record { runs = (t, e); same_tasks = λ x. omega arith }
Reach-Keeps (next {ts = ts} {us = us} r st) e =
    let before = Reach-Keeps r e in
    let (u, runs) = before.runs in
    let after = Step-Keeps st runs in
    record {
      runs = after.runs;
      same_tasks =
          λ x. omega (arith, before.same_tasks x, after.same_tasks x, occurs-append x ts us);
    }
