-- ===== src/Nvme/Bringup.antt =====
-- How the bring-up of the admin queue ends.
use field_os.Prelude.{
  ℕ, zero, suc, ◌+◌, ◌-◌, ◌<◌, ◌≤◌, ◌≡◌, ◌≢◌, ◌⊎◌, refl, sym, ap, subst, ◌∙◌, arith, bit_and, Bool,
  true, false, not, Bool-cases, Option-cases, inl, inr, List, [], ◌∷◌, ◌++◌, append_assoc,
  append-nil, Option, none, some, ◌==◌, if◌then◌else◌,
}
use field_os.Prelude.Outcome.{Outcome, returned, panic, ◌>>=◌}
use field_os.Nvme.{new_queue, csts_poll_limit}
use field_os.Nvme.Admin.{
  Controller, write, wait_from, wait_csts, disable, enable, with_frames, with_admin, setup_admin,
  reg_cc, reg_aqa, reg_asq, reg_acq, enabled_cc,
}

-- Neither the fatal status nor what is waited for.
abbrev pub Quiet : (ℕ → ℕ) → ℕ → ℕ → ℕ → Type 0
Quiet csts mask expected j = (bit_and (csts j) 2 ≡ 0) × (bit_and (csts j) mask ≢ expected)

-- The first round, from `i` on, in which CSTS is not quiet, has what is waited for.
pub record Settles (left : ℕ) (csts : ℕ → ℕ) (mask expected i : ℕ) : Type 0 where
  pub round : ℕ
  pub late : i ≤ round
  pub soon : round < i + left
  pub quiet : (j : ℕ) → i ≤ j → j < round → Quiet csts mask expected j
  pub calm : bit_and (csts round) 2 ≡ 0
  pub is : bit_and (csts round) mask ≡ expected

-- That round has the fatal status, or there is no such round.
pub data Fails (left : ℕ) (csts : ℕ → ℕ) (mask expected i : ℕ) : Type 0 where
  fatal :
      (round : ℕ)
      → i ≤ round
      → round < i + left
      → ((j : ℕ) → i ≤ j → j < round → Quiet csts mask expected j)
      → bit_and (csts round) 2 ≢ 0
      → Fails left csts mask expected i
  timed_out :
      ((j : ℕ) → i ≤ j → j < i + left → Quiet csts mask expected j)
      → Fails left csts mask expected i

module _ {ℓ} {A : Type ℓ} (csts : ℕ → ℕ) (mask expected : ℕ) (a : A) where
  abbrev Ends : ℕ → ℕ → Type ℓ
  Ends left i =
      (Settles left csts mask expected i × (wait_from left csts mask expected i a ≡ returned a))
      ⊎ (Fails left csts mask expected i × (wait_from left csts mask expected i a ≡ panic))

  Quiet-from :
      {i bound : ℕ}
      → Quiet csts mask expected i
      → ((j : ℕ) → i + 1 ≤ j → j < bound → Quiet csts mask expected j)
      → (j : ℕ) → i ≤ j
      → j < bound
      → Quiet csts mask expected j
  Quiet-from {i} now later j low high = elim (Bool-cases (i == j)) [
    | inl e ↦ let is : i ≡ j = ground arith in subst (Quiet csts mask expected) is now
    | inr n ↦ later j (ground arith) high
  ]

  pub wait_lem : (left i : ℕ) → Ends left i
  unfolding wait_from
  wait_lem zero i = inr (timed_out (λ j low high. absurd (omega arith)), refl)
  wait_lem (suc left) i = elim (Bool-cases (bit_and (csts i) 2 == 0)) [
    | inr bad ↦ inr (
      fatal i (omega arith) (omega arith) (λ j low high. absurd (omega arith)) (ground arith),
      rw bad refl,
    )
    | inl calm ↦ elim (Bool-cases (bit_and (csts i) mask == expected)) [
      | inl hit ↦ inl (
        record {
          round = i;
          late = omega arith;
          soon = omega arith;
          quiet = λ j low high. absurd (omega arith);
          calm = ground arith;
          is = ground arith;
        },
        rw (calm, hit) refl,
      )
      | inr miss ↦
          let now : Quiet csts mask expected i = (ground arith, ground arith) in
          elim (wait_lem left (i + 1)) [
            | inl (s, runs) ↦ inl (
              record {
                round = s.round;
                late = omega (arith, s.late);
                soon = omega (arith, s.soon);
                quiet = Quiet-from now s.quiet;
                calm = s.calm;
                is = s.is;
              },
              rw (calm, miss) runs,
            )
            | inr (fatal round late soon quiet bad, runs) ↦ inr (
              fatal round (omega arith) (omega arith) (Quiet-from now quiet) bad,
              rw (calm, miss) runs,
            )
            | inr (timed_out quiet, runs) ↦ inr (
              timed_out (Quiet-from now (λ j low high. quiet j low (omega arith))),
              rw (calm, miss) runs,
            )
          ]
    ]
  ]

written {ℓ} :
    {A : Type ℓ} (xs : List A) (a b c d : A)
    → (((xs ++ (a ∷ [])) ++ (b ∷ [])) ++ (c ∷ [])) ++ (d ∷ []) ≡ xs ++ (a ∷ (b ∷ (c ∷ (d ∷ []))))
written [] a b c d = refl
written (x ∷ xs) a b c d = ap (λ l. x ∷ l) (written xs a b c d)

abbrev pub is_enabled : Controller → Bool
is_enabled c = not (bit_and c.cc 1 == 0)

-- The writes of a bring-up: CC without its enable bit if that was set, then the queues, then CC.
abbrev pub bringup_writes : Controller → ℕ → ℕ → List (ℕ × ℕ)
bringup_writes c sq cq =
    (if is_enabled c then (0x14, c.cc - 1) ∷ [] else [])
    ++ ((0x24, 0x3F003F) ∷ ((0x28, sq) ∷ ((0x30, cq) ∷ ((0x14, 0x460001) ∷ []))))

module _ {E : Type 0} (csts : ℕ → ℕ → ℕ) (alloc_frame : E → Option ℕ × E) where
  abbrev pub Ready : ℕ → ℕ → Type 0
  Ready cc expected = Settles csts_poll_limit (csts cc) 1 expected 0

  abbrev pub Stuck : ℕ → ℕ → Type 0
  Stuck cc expected = Fails csts_poll_limit (csts cc) 1 expected 0

  pub data Ended (c : Controller) (e : E) : Outcome (Controller × E) → Type 0 where
    up :
        {sq cq : ℕ} {e' e'' : E}
        → (is_enabled c ≡ false) ⊎ Ready (c.cc - 1) 0
        → alloc_frame e ≡ (some sq, e')
        → alloc_frame e' ≡ (some cq, e'')
        → Ready 0x460001 1
        → Ended c e (
            returned (
              record {
                cc = 0x460001;
                writes = c.writes ++ bringup_writes c sq cq;
                admin = some (new_queue 0 64, sq, cq);
              },
              e'',
            ))
    twice : c.admin ≢ none → Ended c e panic
    not_idle : is_enabled c ≡ true → Stuck (c.cc - 1) 0 → Ended c e panic
    no_frame :
        ((alloc_frame e).0 ≡ none) ⊎ ((alloc_frame (alloc_frame e).1).0 ≡ none) → Ended c e panic
    not_ready : Stuck 0x460001 1 → Ended c e panic

  -- From a controller that is disabled and idle, after `more` writes.
  idle_lem :
      (c idle : Controller) (e : E) (more : List (ℕ × ℕ))
      → (is_enabled c ≡ false) ⊎ Ready (c.cc - 1) 0
      → more ≡ (if is_enabled c then (0x14, c.cc - 1) ∷ [] else [])
      → idle.writes ≡ c.writes ++ more
      → Ended c e (
          with_frames csts alloc_frame (alloc_frame e).0 (alloc_frame (alloc_frame e).1).0 idle
          >>= (λ ready. returned (ready, (alloc_frame (alloc_frame e).1).1)))
  unfolding with_frames enable wait_csts
  idle_lem c idle e more was is so_far = elim (Option-cases (alloc_frame e).0) [
    | inl none_left ↦ rw none_left (no_frame (inl none_left))
    | inr (sq, first) ↦ elim (Option-cases (alloc_frame (alloc_frame e).1).0) [
      | inl none_left ↦ rw (first, none_left) (no_frame (inr none_left))
      | inr (cq, second) ↦
          elim (wait_lem (csts enabled_cc) 1 1
            (write reg_cc enabled_cc
              (write reg_acq cq (write reg_asq sq (write reg_aqa 0x3F003F idle))))
            csts_poll_limit 0) [
              | inr (fails, runs) ↦ rw (first, second, runs) (not_ready fails)
              | inl (settles, runs) ↦
                  let writes =
                    written idle.writes (reg_aqa, 0x3F003F) (reg_asq, sq) (reg_acq, cq)
                      (reg_cc, enabled_cc)
                    ∙ rw (so_far, is) (append_assoc c.writes _ _) in
                  rw (first, second, runs)
                    (subst
                      (λ w. Ended c e (
                        returned (
                          record {
                            cc = 0x460001;
                            writes = w;
                            admin = some (new_queue 0 64, sq, cq);
                          },
                          (alloc_frame (alloc_frame e).1).1,
                        )))
                      (sym writes)
                      (up was (ap (λ o. (o, (alloc_frame e).1)) first)
                        (ap (λ o. (o, (alloc_frame (alloc_frame e).1).1)) second) settles))
            ]
    ]
  ]

  none_lem : (c : Controller) (e : E) → Ended c e (with_admin csts alloc_frame none c e)
  unfolding with_admin disable wait_csts
  none_lem c e = elim (Bool-cases (is_enabled c)) [
    | inl on ↦
        let off = write reg_cc (c.cc - 1) c in
        elim (wait_lem (csts (c.cc - 1)) 1 0 off csts_poll_limit 0) [
          | inl (settles, runs) ↦
              rw (on, runs)
                (idle_lem c off e ((0x14, c.cc - 1) ∷ []) (inr settles) (rw on refl) refl)
          | inr (fails, runs) ↦ rw (on, runs) (not_idle on fails)
        ]
    | inr idle ↦ rw idle (idle_lem c c e [] (inl idle) (rw idle refl) (sym (append-nil c.writes)))
  ]

  -- `setup_admin` on every branch: it ends in a panic if the queue is there already, if the controller
  -- was enabled and does not become idle, if a frame is missing, or if the controller does not become
  -- ready; to become so, CSTS must show it within the limit of rounds, and no fatal status before.
  -- Otherwise the registers AQA, ASQ and ACQ were written, in this order, after the enable bit was
  -- cleared, if it was set, and the controller was idle, and CC after them, and the queue is empty
  -- and has the two frames.
  pub setup_admin_lem : (c : Controller) (e : E) → Ended c e (setup_admin csts alloc_frame c e)
  unfolding setup_admin with_admin
  setup_admin_lem c e = elim (Option-cases c.admin) [
    | inl fresh ↦
        subst (λ o. Ended c e (with_admin csts alloc_frame o c e)) (sym fresh) (none_lem c e)
    | inr (queue, there) ↦
        subst (λ o. Ended c e (with_admin csts alloc_frame o c e)) (sym there) (twice (λ h. cc))
  ]
