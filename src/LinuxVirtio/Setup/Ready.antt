-- ===== src/LinuxVirtio/Setup/Ready.antt =====
-- The virtqueues that `virtio_find_vqs` sets up.
use field_os.Prelude.{
  ℕ, ◌+◌, ◌*◌, ◌%◌, ◌^◌, ◌≤◌, ◌<◌, ◌≡◌, ◌⊎◌, inl, inr, refl, ap, ◌∙◌, arith, Bool, Bool-cases, true,
  false, eqb→eq, List, [], ◌∷◌, Option, none, some, ltb, ◌==◌,
}
use field_os.Prelude.Outcome.{Outcome, returned, ◌>>=◌}
use field_os.Virtq.{Areas, new}
use field_os.Virtq.Layout.{first, first-Holds, range, Fits, areas_at, new-first}
use field_os.LinuxVirtio.Queue.Buffers.{Agrees}
use field_os.LinuxVirtio.Setup.{
  Found, pow2_at_most, activate_queue, set_up, prepend, find_from, virtio_find_vqs, cc_queue_select,
  cc_queue_size, cc_queue_enable, cc_queue_desc, cc_queue_driver, cc_queue_device,
}
use field_os.LinuxVirtio.Setup.Sizes.{pow2_at_most_lem, pow2_at_most_zero}

module _ (max : ℕ → ℕ) (phys : ℕ → ℕ) where
  -- The queue `i`, with the index `i % 2 ^ 16` at the device: its size divides 128, is at most what the
  -- device allows for this index and is the greatest such one; its areas fit its frame, and the device
  -- was told them before it was enabled; and it holds no buffer.
  pub record IsReady (i : ℕ) (f : Found) : Type 0 where
    pub divides : 128 % f.vq.size ≡ 0
    pub at_most : f.vq.size ≤ max (i % 2 ^ 16)
    pub greatest : (max (i % 2 ^ 16) < 2 * f.vq.size) ⊎ (f.vq.size ≡ 128)
    pub index : f.vq.queue_idx ≡ i % 2 ^ 16
    pub count : f.vq.num_free ≡ f.vq.size
    pub areas : Areas
    pub fits : Fits f.vq.size (phys i) areas
    pub told :
        f.writes
        ≡ (cc_queue_select, i % 2 ^ 16)
          ∷ ((cc_queue_size, f.vq.size)
              ∷ ((cc_queue_desc, areas.desc_phys)
                  ∷ ((cc_queue_driver, areas.avail_phys)
                      ∷ ((cc_queue_device, areas.used_phys) ∷ ((cc_queue_enable, 1) ∷ [])))))
    pub empty : Agrees f.vq [] [] []

  -- A ready queue for each name from the queue `i` on, and nothing for a queue without a name.
  abbrev pub AreReady : ℕ → List Bool → List (Option Found) → Type 0
  AreReady i [] [] = Unit {0}
  AreReady i (false ∷ names) (none ∷ vqs) = AreReady (i + 1) names vqs
  AreReady i (true ∷ names) (some f ∷ vqs) = IsReady i f × AreReady (i + 1) names vqs
  AreReady i names vqs = ⊥

  -- Some queue with a name has no entries.
  abbrev pub HasMissing : ℕ → List Bool → Type 0
  HasMissing i [] = ⊥
  HasMissing i (false ∷ names) = HasMissing (i + 1) names
  HasMissing i (true ∷ names) = (max (i % 2 ^ 16) ≡ 0) ⊎ HasMissing (i + 1) names

  abbrev pub frame : ℕ → Option ℕ
  frame i = some (phys i)

  set_up-IsReady :
      (i : ℕ)
      → 0 < max (i % 2 ^ 16)
      → (f : Found) × (new (pow2_at_most (max (i % 2 ^ 16))) (frame i)
            >>= set_up max frame i (pow2_at_most (max (i % 2 ^ 16)))
          ≡ returned f)
        × IsReady i f
  unfolding set_up activate_queue
  set_up-IsReady i pos =
      let (divides, at_most, greatest, some_size, small) =
        pow2_at_most_lem (max (i % 2 ^ 16)) pos in
      let size = pow2_at_most (max (i % 2 ^ 16)) in
      let (made, fits) = new-first size (phys i) some_size small divides in
      let fine : ltb (max (i % 2 ^ 16)) size ≡ false = ground (arith, at_most) in
      (
        record {
          vq = record {
            queue = first size;
            tokens = λ _. 0;
            queue_idx = i % 2 ^ 16;
            size = size;
            num_free = size;
          };
          writes = _;
        },
        rw (made, fine) refl,
        record {
          divides = divides;
          at_most = at_most;
          greatest = greatest;
          index = refl;
          count = refl;
          areas = areas_at size (phys i);
          fits = fits;
          told = refl;
          empty = record {
            free = range 0 size;
            device = [];
            done = [];
            holds = first-Holds size some_size small divides;
            sized = refl;
            at_device = refl;
            at_driver = refl;
          };
        },
      )

  -- What a call ends in, from the queue `i` on.
  abbrev pub Ends : ℕ → List Bool → Outcome (Bool × List (Option Found)) → Type 0
  Ends i names r =
      ((vqs : List (Option Found)) × (r ≡ returned (true, vqs)) × AreReady i names vqs)
      ⊎ ((vqs : List (Option Found)) × (r ≡ returned (false, vqs)) × HasMissing i names)

  find_from-Ends : (i : ℕ) (names : List Bool) → Ends i names (find_from max frame i names)
  unfolding find_from prepend
  find_from-Ends i [] = inl ([], refl, tt)
  find_from-Ends i (false ∷ names) = elim (find_from-Ends (i + 1) names) [
    | inl (vqs, e, ready) ↦ inl (none ∷ vqs, rw e refl, ready)
    | inr (vqs, e, missing) ↦ inr (none ∷ vqs, rw e refl, missing)
  ]
  find_from-Ends i (true ∷ names) = elim (Bool-cases (max (i % 2 ^ 16) == 0)) [
    | inl unset ↦
        let zero_max = eqb→eq (max (i % 2 ^ 16)) 0 unset in
        let none_left : (pow2_at_most (max (i % 2 ^ 16)) == 0) ≡ true =
          ap (λ n. pow2_at_most n == 0) zero_max ∙ ap (λ n. n == 0) pow2_at_most_zero in
        inr ([], rw none_left refl, inl zero_max)
    | inr set ↦
        let pos : 0 < max (i % 2 ^ 16) = ground arith in
        let (f, made, ready) = set_up-IsReady i pos in
        let some_size = (pow2_at_most_lem (max (i % 2 ^ 16)) pos).3 in
        let some_left : (pow2_at_most (max (i % 2 ^ 16)) == 0) ≡ false =
          ground (arith, some_size) in
        elim (find_from-Ends (i + 1) names) [
          | inl (vqs, e, rest) ↦ inl (some f ∷ vqs, rw (some_left, made, e) refl, (ready, rest))
          | inr (vqs, e, missing) ↦ inr (some f ∷ vqs, rw (some_left, made, e) refl, inr missing)
        ]
  ]

  -- With a frame for each queue, `virtio_find_vqs` never panics. Asked for at least one queue, it
  -- returns 0 and a ready queue for each name, each of the greatest size that divides 128 and that
  -- the device allows, empty, and told to the device before it was enabled; or it returns -1, and
  -- then some queue with a name has no entries. The device sees the queue at the place `i` under the
  -- index `i % 2 ^ 16`, which is `i` for the first 65536 places.
  pub virtio_find_vqs_lem :
      (name : Bool) (names : List Bool)
      → ((vqs : List (Option Found)) × (virtio_find_vqs max frame (name ∷ names)
            ≡ returned (true, vqs))
          × AreReady 0 (name ∷ names) vqs)
        ⊎ ((vqs : List (Option Found)) × (virtio_find_vqs max frame (name ∷ names)
              ≡ returned (false, vqs))
            × HasMissing 0 (name ∷ names))
  unfolding virtio_find_vqs
  virtio_find_vqs_lem name names = find_from-Ends 0 (name ∷ names)
