-- ===== src/Xhci/Waits.antt =====
-- The waits for a command's completion and for a transfer event.
use field_os.Prelude.{
  ℕ, zero, suc, ◌+◌, ◌<◌, ◌≡◌, ◌≢◌, refl, subst, arith, bit_and, ◌/◌, ◌^◌, List, [], ◌∷◌, ◌++◌,
  true, false, ◌==◌, length,
}
use field_os.Xhci.{
  Trb, Consumer, posted, ev_type, completion_code, advance, Memory, Xhci, finished, halted,
  poll_limit, trb_type_transfer, trb_type_cmd_completion, next_event_from, next_event, wait_command,
  wait_transfer,
}

-- From the read `n` of the event ring on, the consumer `c` misses `delay` times and then finds `t`.
pub record Arrives (mem : Memory) (n : ℕ) (c : Consumer) (delay : ℕ) (t : Trb) : Type 0 where
  pub in_time : delay < poll_limit
  pub misses : (k : ℕ) → k < delay → posted c (mem (n + k) c.event_deq) ≡ false
  pub block : mem (n + delay) c.event_deq ≡ t
  pub hit : posted c t ≡ true

-- The blocks `ts` arrive one after the other, and leave the consumer at `c'` and the count of reads
-- at `n'`.
pub data Schedule (mem : Memory) : ℕ → Consumer → List Trb → ℕ → Consumer → Type 0 where
  idle : {n : ℕ} {c : Consumer} → Schedule mem n c [] n c
  later :
      {n delay n' : ℕ} {c c' : Consumer} {t : Trb} {ts : List Trb}
      → Arrives mem n c delay t
      → Schedule mem (suc (n + delay)) (advance c) ts n' c'
      → Schedule mem n c (t ∷ ts) n' c'

Schedule-idle :
    {mem : Memory} {n n' : ℕ} {c c' : Consumer} → Schedule mem n c [] n' c' → (n ≡ n') × (c ≡ c')
Schedule-idle idle = (refl, refl)

next_event_from_lem :
    (mem : Memory) (x : Xhci) (t : Trb) (delay left : ℕ)
    → delay < left
    → ((k : ℕ) → k < delay → posted x.events (mem (x.reads + k) x.events.event_deq) ≡ false)
    → mem (x.reads + delay) x.events.event_deq ≡ t
    → posted x.events t ≡ true
    → next_event_from left mem x
      ≡ finished (t, record x { events = advance x.events; reads = suc (x.reads + delay) })
unfolding next_event_from
next_event_from_lem mem x t delay zero few misses block hit = absurd (omega arith)
next_event_from_lem mem x t zero (suc left) few misses block hit =
    let here : mem x.reads x.events.event_deq ≡ t =
      subst (λ n. mem n x.events.event_deq ≡ t) (omega arith) block in
    let count : x.reads + 1 ≡ suc (x.reads + 0) = omega arith in rw (here, hit, count) refl
next_event_from_lem mem x t (suc delay) (suc left) few misses block hit =
    let missed : posted x.events (mem x.reads x.events.event_deq) ≡ false =
      subst (λ n. posted x.events (mem n x.events.event_deq) ≡ false) (omega arith)
        (misses 0 (omega arith)) in
    let count : suc (x.reads + 1 + delay) ≡ suc (x.reads + suc delay) = omega arith in
    let rest =
      next_event_from_lem mem (record x { reads = x.reads + 1 }) t delay left (omega arith)
        (λ k h.
          subst (λ n. posted x.events (mem n x.events.event_deq) ≡ false) (omega arith)
            (misses (suc k) (omega arith)))
        (subst (λ n. mem n x.events.event_deq ≡ t) (omega arith) block) hit in
    rw (missed, ← count) rest

-- The loop gives up where the block does not come.
next_event_from-never :
    (mem : Memory) (x : Xhci) (left : ℕ)
    → ((k : ℕ) → k < left → posted x.events (mem (x.reads + k) x.events.event_deq) ≡ false)
    → next_event_from left mem x ≡ halted
unfolding next_event_from
next_event_from-never mem x zero misses = refl
next_event_from-never mem x (suc left) misses =
    let missed : posted x.events (mem x.reads x.events.event_deq) ≡ false =
      subst (λ n. posted x.events (mem n x.events.event_deq) ≡ false) (omega arith)
        (misses 0 (omega arith)) in
    let rest =
      next_event_from-never mem (record x { reads = x.reads + 1 }) left
        (λ k h.
          subst (λ n. posted x.events (mem n x.events.event_deq) ≡ false) (omega arith)
            (misses (suc k) (omega arith))) in
    rw missed rest

next_event_lem :
    (mem : Memory) (x : Xhci) (t : Trb) (delay : ℕ)
    → Arrives mem x.reads x.events delay t
    → next_event mem x
      ≡ finished (t, record x { events = advance x.events; reads = suc (x.reads + delay) })
unfolding next_event
next_event_lem mem x t delay arrives =
    next_event_from_lem mem x t delay poll_limit arrives.in_time arrives.misses arrives.block
      arrives.hit

next_event-never :
    (mem : Memory) (x : Xhci)
    → ((k : ℕ) → k < poll_limit → posted x.events (mem (x.reads + k) x.events.event_deq) ≡ false)
    → next_event mem x ≡ halted
unfolding next_event
next_event-never mem x misses = next_event_from-never mem x poll_limit misses

-- None of the blocks is an event of the given type.
abbrev pub NoneOf : ℕ → List Trb → Type 0
NoneOf type [] = Unit {0}
NoneOf type (t ∷ ts) = (ev_type t ≢ type) × NoneOf type ts

ne→eqb : (a b : ℕ) → a ≢ b → (a == b) ≡ false
ne→eqb a b h = ground arith

eq→eqb : (a b : ℕ) → a ≡ b → (a == b) ≡ true
eq→eqb a b h = ground arith

pub wait_transfer_lem :
    (mem : Memory) (x : Xhci) (ts : List Trb) (t : Trb) (n' : ℕ) (c' : Consumer) (fuel : ℕ)
    → Schedule mem x.reads x.events (ts ++ (t ∷ [])) n' c'
    → NoneOf trb_type_transfer ts
    → ev_type t ≡ trb_type_transfer
    → length ts < fuel
    → wait_transfer fuel mem x ≡ finished (completion_code t, record x { events = c'; reads = n' })
unfolding wait_transfer
wait_transfer_lem mem x ts t n' c' zero schedule others is few = absurd (omega arith)
wait_transfer_lem mem x [] t n' c' (suc fuel) (later {delay = delay} arrives rest) others is few =
    let (n, c) = Schedule-idle rest in
    rw (next_event_lem mem x t delay arrives, eq→eqb (ev_type t) trb_type_transfer is, n, c) refl
wait_transfer_lem mem x (s ∷ ts) t n' c' (suc fuel) (later {delay = delay} arrives rest)
      (ne, others) is few =
    let x' = record x { events = advance x.events; reads = suc (x.reads + delay) } in
    let again = wait_transfer_lem mem x' ts t n' c' fuel rest others is (omega arith) in
    rw (next_event_lem mem x s delay arrives, ne→eqb (ev_type s) trb_type_transfer ne) again

pub wait_command_lem :
    (mem : Memory) (x : Xhci) (ts : List Trb) (t : Trb) (n' : ℕ) (c' : Consumer) (fuel : ℕ)
    → Schedule mem x.reads x.events (ts ++ (t ∷ [])) n' c'
    → NoneOf trb_type_cmd_completion ts
    → ev_type t ≡ trb_type_cmd_completion
    → length ts < fuel
    → wait_command fuel mem x
      ≡ finished
          (completion_code t, bit_and (t.d3 / 2 ^ 24) 0xFF, record x { events = c'; reads = n' })
unfolding wait_command
wait_command_lem mem x ts t n' c' zero schedule others is few = absurd (omega arith)
wait_command_lem mem x [] t n' c' (suc fuel) (later {delay = delay} arrives rest) others is few =
    let (n, c) = Schedule-idle rest in
    rw (next_event_lem mem x t delay arrives, eq→eqb (ev_type t) trb_type_cmd_completion is, n, c)
      refl
wait_command_lem mem x (s ∷ ts) t n' c' (suc fuel) (later {delay = delay} arrives rest) (ne, others)
      is few =
    let x' = record x { events = advance x.events; reads = suc (x.reads + delay) } in
    let again = wait_command_lem mem x' ts t n' c' fuel rest others is (omega arith) in
    rw (next_event_lem mem x s delay arrives, ne→eqb (ev_type s) trb_type_cmd_completion ne) again
