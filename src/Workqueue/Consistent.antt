-- ===== src/Workqueue/Consistent.antt =====
-- The queue holds the pending items.
use field_os.Prelude.{
  ℕ, ◌+◌, ◌≡◌, ◌≢◌, ◌⊎◌, refl, sym, ap, ◌∙◌, subst, arith, Bool-cases, inl, inr, List, [], ◌∷◌,
  ◌++◌, Option, some, ◌==◌, eqb→eq, if◌then◌else◌, occurs, occurs-append, update,
}
use field_os.Workqueue.{
  WorkState, idle, pending, running, Works, work_init, queue_work, cancel_work, take_from, take_one,
  finish_one, try_pending, try_idle, set_state, without,
}

abbrev pub count_of : WorkState → ℕ
count_of idle = 0
count_of pending = 1
count_of running = 0

-- Every item is on the queue once if it is pending, and else not at all.
abbrev pub IsConsistent : Works → Type 0
IsConsistent s = (w : ℕ) → occurs w s.queue ≡ count_of (s.state w)

-- The operations; the function of a running item may call any of them.
pub data Step : Works → Works → Type 0 where
  inits : (s : Works) (w : ℕ) (f : Option ℕ) → s.state w ≢ pending → Step s (work_init s w f)
  queues : (s : Works) (w : ℕ) → Step s (queue_work s w).1
  cancels : (s : Works) (w : ℕ) → Step s (cancel_work s w).1
  takes : (s t : Works) (w : ℕ) → take_one s ≡ some (w, t) → Step s t
  finishes : (s : Works) (w : ℕ) → s.state w ≡ running → Step s (finish_one s w)

pub data Reach (s : Works) : Works → Type 0 where
  here : Reach s s
  next : {t u : Works} → Reach s t → Step t u → Reach s u

pub occurs-without :
    (w x : ℕ) (ws : List ℕ) → occurs x (without w ws) ≡ (if x == w then 0 else occurs x ws)
unfolding without
occurs-without w x [] = ground arith
occurs-without w x (y ∷ ws) = ground (arith, occurs-without w x ws)

-- A state change that keeps an item off the queue.
set_state-IsConsistent :
    (s : Works) (w : ℕ) (st : WorkState)
    → IsConsistent s
    → count_of (s.state w) ≡ count_of st
    → IsConsistent (set_state s w st)
set_state-IsConsistent s w st c e x = elim (Bool-cases (w == x)) [
  | inl h ↦
      let same : w ≡ x = eqb→eq w x h in rw h (c x ∙ ap (λ y. count_of (s.state y)) (sym same) ∙ e)
  | inr h ↦ rw h (c x)
]

not_pending : (st : WorkState) → st ≢ pending → count_of st ≡ 0
not_pending idle h = refl
not_pending running h = refl
not_pending pending h = absurd (h refl)

WorkState-cases : (st : WorkState) → (st ≡ idle) ⊎ (st ≡ pending) ⊎ (st ≡ running)
WorkState-cases idle = inl refl
WorkState-cases pending = inr (inl refl)
WorkState-cases running = inr (inr refl)

queue_work-IsConsistent : (s : Works) (w : ℕ) → IsConsistent s → IsConsistent (queue_work s w).1
unfolding queue_work try_pending
queue_work-IsConsistent s w c = elim (WorkState-cases (s.state w)) [
  | inl e ↦ rw e (λ x. queued x e)
  | inr (inl e) ↦ rw e c
  | inr (inr e) ↦ rw e c
]
  where
    queued :
        (x : ℕ)
        → s.state w ≡ idle
        → occurs x (s.queue ++ (w ∷ [])) ≡ count_of (update s.state w pending x)
    queued x e = elim (Bool-cases (w == x)) [
      | inl h ↦
          let none_yet : occurs x s.queue ≡ 0 =
            c x ∙ ap (λ y. count_of (s.state y)) (sym (eqb→eq w x h)) ∙ ap count_of e in
          rw h (ground (arith, occurs-append x s.queue (w ∷ [])))
      | inr h ↦ rw h (ground (arith, occurs-append x s.queue (w ∷ []), c x))
    ]

cancel_work-IsConsistent : (s : Works) (w : ℕ) → IsConsistent s → IsConsistent (cancel_work s w).1
unfolding cancel_work try_idle
cancel_work-IsConsistent s w c = elim (WorkState-cases (s.state w)) [
  | inl e ↦ rw e c
  | inr (inl e) ↦ rw e cancelled
  | inr (inr e) ↦ rw e c
]
  where
    cancelled : (x : ℕ) → occurs x (without w s.queue) ≡ count_of (update s.state w idle x)
    cancelled x = elim (Bool-cases (w == x)) [
      | inl h ↦ rw h (ground (arith, occurs-without w x s.queue))
      | inr h ↦ rw h (ground (arith, occurs-without w x s.queue, c x))
    ]

-- The item at the front of the queue is not on it a second time.
pub front_once :
    (s : Works) (w : ℕ) (ws : List ℕ)
    → s.queue ≡ w ∷ ws
    → IsConsistent s
    → (s.state w ≡ pending) × (occurs w ws ≡ 0)
front_once s w ws q c =
    let count : 1 + occurs w ws ≡ count_of (s.state w) =
      (ground arith) ∙ ap (occurs w) (sym q) ∙ c w in
    elim (WorkState-cases (s.state w)) [
      | inl e ↦ absurd (omega (arith, ap count_of e))
      | inr (inl e) ↦ (e, omega (arith, ap count_of e))
      | inr (inr e) ↦ absurd (omega (arith, ap count_of e))
    ]

take_from-IsConsistent :
    (s : Works) (w : ℕ) (ws : List ℕ)
    → s.queue ≡ w ∷ ws
    → IsConsistent s
    → IsConsistent (set_state (record s { queue = ws }) w running)
take_from-IsConsistent s w ws q c x = elim (Bool-cases (w == x)) [
  | inl h ↦
      let same : w ≡ x = eqb→eq w x h in
      rw h (subst (λ y. occurs y ws ≡ 0) same (front_once s w ws q c).1)
  | inr h ↦ rw h (ground (arith, ap (occurs x) q, c x))
]

take_one-IsConsistent :
    (s t : Works) (w : ℕ) → take_one s ≡ some (w, t) → IsConsistent s → IsConsistent t
unfolding take_one take_from
take_one-IsConsistent s t w e c = go s.queue refl e
  where
    go : (ws : List ℕ) → s.queue ≡ ws → take_from s ws ≡ some (w, t) → IsConsistent t
    go [] q h = cc
    go (u ∷ ws) q h =
        let same : set_state (record s { queue = ws }) u running ≡ t = cc in
        subst IsConsistent same (take_from-IsConsistent s u ws q c)

Step-IsConsistent : {s t : Works} → Step s t → IsConsistent s → IsConsistent t
Step-IsConsistent (inits s w f h) c =
    unfold work_init in λ x. set_state-IsConsistent s w idle c (not_pending (s.state w) h) x
Step-IsConsistent (queues s w) c = queue_work-IsConsistent s w c
Step-IsConsistent (cancels s w) c = cancel_work-IsConsistent s w c
Step-IsConsistent (takes s t w e) c = take_one-IsConsistent s t w e c
Step-IsConsistent (finishes s w e) c =
    unfold finish_one in set_state-IsConsistent s w idle c (ap count_of e)

-- From a state in which the queue holds the pending items, whatever the drivers initialise (no pending item), queue and cancel, and whatever the runner
-- takes and finishes, each as a whole: every pending item is on the queue exactly once, and no
-- other item is.
pub Reach-IsConsistent : {s t : Works} → Reach s t → IsConsistent s → IsConsistent t
Reach-IsConsistent here c = c
Reach-IsConsistent (next r st) c = Step-IsConsistent st (Reach-IsConsistent r c)
