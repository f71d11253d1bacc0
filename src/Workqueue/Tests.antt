-- ===== src/Workqueue/Tests.antt =====
-- The work queue with the items 1 and 2.
use field_os.Prelude.{◌≡◌, refl, true, [], ◌∷◌, some, occurs}
use field_os.Workqueue.{
  idle, running, Works, queue_work, cancel_work, take_from, take_one, drain_one, try_pending,
  try_idle, set_state, without,
}
use field_os.Workqueue.Consistent.{
  IsConsistent, queues, cancels, takes, Reach, here, next, Reach-IsConsistent,
}
use field_os.Workqueue.Race.{requeue, drain_one-requeue}

abbrev fresh : Works
fresh = record { state = λ _. idle; func = λ _. some 7; queue = [] }

fresh-IsConsistent : IsConsistent fresh
fresh-IsConsistent w = refl

-- Both are queued, the first is taken, and the second is cancelled.
abbrev both : Works
both = (queue_work (queue_work fresh 1).1 2).1

both_runs : both.queue ≡ 1 ∷ 2 ∷ []
unfolding queue_work try_pending
both_runs = refl

abbrev taken : Works
taken = set_state (record both { queue = 2 ∷ [] }) 1 running

take_runs : take_one both ≡ some (1, taken)
unfolding take_one take_from queue_work try_pending
take_runs = refl

cancel_runs : (cancel_work taken 2).1.queue ≡ []
unfolding cancel_work try_idle queue_work try_pending without
cancel_runs = refl

worked : Reach fresh (cancel_work taken 2).1
worked =
    next
      (next (next (next here (queues fresh 1)) (queues (queue_work fresh 1).1 2))
        (takes both taken 1 take_runs))
      (cancels taken 2)

Reach-IsConsistent_example : IsConsistent (cancel_work taken 2).1
Reach-IsConsistent_example = Reach-IsConsistent worked fresh-IsConsistent

both-IsConsistent : IsConsistent both
both-IsConsistent =
    Reach-IsConsistent (next (next here (queues fresh 1)) (queues (queue_work fresh 1).1 2))
      fresh-IsConsistent

drain_one-requeue_example :
    ((drain_one requeue both).0 ≡ true)
    × ((drain_one requeue both).1.state 1 ≡ idle)
    × (occurs 1 (drain_one requeue both).1.queue ≡ 0)
drain_one-requeue_example = drain_one-requeue both 1 (2 ∷ []) both_runs both-IsConsistent
