-- ===== src/Workqueue.antt =====
-- linuxkpi/src/workqueue.rs, the shared work queue of the inherited drivers.
-- A work item is named by its address, which is not null: on a null pointer the functions do nothing.
pub mod Consistent
pub mod Race
mod Tests
use field_os.Prelude.{
  ℕ, ◌+◌, Bool, true, false, List, [], ◌∷◌, ◌++◌, Option, none, some, ◌==◌, if◌then◌else◌, update,
}

-- STATE_IDLE, STATE_PENDING and STATE_RUNNING
pub data WorkState : Type 0 where
  idle : WorkState
  pending : WorkState
  running : WorkState

-- The state and the function of every item, and PENDING. A function is named by its address.
pub record Works : Type 0 where
  pub state : ℕ → WorkState
  pub func : ℕ → Option ℕ
  pub queue : List ℕ

pub work_init : Works → ℕ → Option ℕ → Works
work_init s work func = record s {
  state = update s.state work idle;
  func = update s.func work func;
}

-- The compare-and-exchange of `queue_work`, and of `cancel_work`.
pub try_pending : WorkState → Bool
try_pending idle = true
try_pending _ = false

pub try_idle : WorkState → Bool
try_idle pending = true
try_idle _ = false

abbrev pub set_state : Works → ℕ → WorkState → Works
set_state s work state = record s { state = update s.state work state }

-- `PENDING.lock().push_back`, and `retain` with the other items.
abbrev pub push_back : Works → ℕ → Works
push_back s work = record s { queue = s.queue ++ (work ∷ []) }

pub without : ℕ → List ℕ → List ℕ
without work [] = []
without work (w ∷ ws) = let rest = without work ws in if w == work then rest else w ∷ rest

abbrev pub retain_others : Works → ℕ → Works
retain_others s work = record s { queue = without work s.queue }

pub queue_work : Works → ℕ → Bool × Works
queue_work s work =
    if try_pending (s.state work)
    then (true, push_back (set_state s work pending) work)
    else (false, s)

pub cancel_work : Works → ℕ → Bool × Works
cancel_work s work =
    if try_idle (s.state work)
    then (true, retain_others (set_state s work idle) work)
    else (false, s)

-- The first part of `drain_one`: the item that it takes off the queue and marks as running.
pub take_from : Works → List ℕ → Option (ℕ × Works)
take_from s [] = none
take_from s (w ∷ ws) = some (w, set_state (record s { queue = ws }) w running)

pub take_one : Works → Option (ℕ × Works)
unfolding take_from
take_one s = take_from s s.queue

-- Its last part, after the item's function returned.
pub finish_one : Works → ℕ → Works
finish_one s work = set_state s work idle

-- `drain_one`, where `call` is what the item's function does to the queue.
pub drain_one : (Option ℕ → ℕ → Works → Works) → Works → Bool × Works
drain_one call s = elim (take_one s) [
  | none ↦ (false, s)
  | some (w, s') ↦ (true, finish_one (call (s'.func w) w s') w)
]
