-- ===== src/Workqueue/Race.antt =====
-- Calls that meet in the middle: `cancel_work` inside `queue_work`, and an item that queues itself.
use field_os.Prelude.{
  ℕ, ◌≡◌, refl, arith, true, List, [], ◌∷◌, ◌++◌, Option, eqb_refl, occurs, occurs-append, update,
  update_self,
}
use field_os.Workqueue.{
  idle, pending, running, Works, queue_work, cancel_work, take_from, take_one, finish_one,
  drain_one, try_pending, try_idle, set_state, push_back, without,
}
use field_os.Workqueue.Consistent.{IsConsistent, occurs-without, front_once}

-- `queue_work` on an idle item has made its exchange; `cancel_work` runs on the same item; then
-- `queue_work` pushes the item.
abbrev pub cancelled_inside : Works → ℕ → Works
cancelled_inside s work = push_back (cancel_work (set_state s work pending) work).1 work

-- If `cancel_work` runs on an item between the exchange and the push of a `queue_work` on it, it
-- says that it cancelled the item; in the end the item is idle, yet once on the queue, and one more
-- `queue_work` puts it there a second time.
pub cancelled_inside_lem :
    (s : Works) (work : ℕ)
    → ((cancel_work (set_state s work pending) work).0 ≡ true)
      × ((cancelled_inside s work).state work ≡ idle)
      × (occurs work (cancelled_inside s work).queue ≡ 1)
      × (occurs work (queue_work (cancelled_inside s work) work).1.queue ≡ 2)
unfolding cancel_work queue_work try_idle try_pending
cancelled_inside_lem s work =
    let here = eqb_refl work in
    let gone = occurs-without work work s.queue in
    let others = without work s.queue in
    let now : update (update s.state work pending) work idle work ≡ idle =
      update_self (update s.state work pending) work idle in
    let once : occurs work (others ++ (work ∷ [])) ≡ 1 =
      ground (arith, occurs-append work others (work ∷ [])) in
    let twice : occurs work ((others ++ (work ∷ [])) ++ (work ∷ [])) ≡ 2 =
      ground (arith, occurs-append work (others ++ (work ∷ [])) (work ∷ [])) in
    rw (here, now) (refl, refl, once, twice)

-- What the function of an item does that queues the item again.
abbrev pub requeue : Option ℕ → ℕ → Works → Works
requeue func work s = (queue_work s work).1

-- A consistent queue forgets an item whose function queues it again: when `drain_one` is done with
-- the item, it is idle and not on the queue.
pub drain_one-requeue :
    (s : Works) (work : ℕ) (ws : List ℕ)
    → s.queue ≡ work ∷ ws
    → IsConsistent s
    → ((drain_one requeue s).0 ≡ true)
      × ((drain_one requeue s).1.state work ≡ idle)
      × (occurs work (drain_one requeue s).1.queue ≡ 0)
unfolding drain_one take_one take_from queue_work try_pending finish_one
drain_one-requeue s work ws q c =
    let taken = set_state (record s { queue = ws }) work running in
    let ran = requeue (taken.func work) work taken in
    let here = eqb_refl work in
    let once = front_once s work ws q c in
    let now : update s.state work running work ≡ running = update_self s.state work running in
    rw (q, now) (refl, update_self ran.state work idle, once.1)
