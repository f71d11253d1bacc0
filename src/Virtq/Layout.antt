-- ===== src/Virtq/Layout.antt =====
-- `Virtqueue::new`: which sizes it accepts, where the three areas lie, and the free list it threads.
use native.Mathlib.Nat.{dvd_of_mod-eq-zero, mod-eq_of_lt, dvd_trans, le_of_dvd}
use field_os.Prelude.{
  every, every_lem, eqb→eq, eqb→ne, ℕ, zero, suc, ◌+◌, ◌-◌, ◌*◌, ◌/◌, ◌%◌, ◌^◌, ◌≤◌, ◌<◌, ◌≡◌, ◌≢◌,
  ◌⊎◌, inl, inr, refl, arith, Bool, true, false, Bool-cases, not, ◌&&◌, List, [], ◌∷◌, some, ltb,
  leb, ltb→lt, ◌==◌, if◌then◌else◌, length, occurs, update_self, update_ne, ◌∙◌, sym, ap, subst,
}
use field_os.Prelude.Bits.{bit_and_shifted, bit_and_low}
use field_os.Prelude.Outcome.{returned, panic}
use field_os.Virtq.{
  Desc, Virtqueue, Areas, is_power_of_two, used_offset, link_free, link_one, zero_desc, new,
}
use field_os.Virtq.Chains.{IsFreeList}
use field_os.Virtq.System.{Holds, IsSound}

-- `left` indices from `i` on.
abbrev pub range : ℕ → ℕ → List ℕ
range i zero = []
range i (suc left) = i ∷ range (i + 1) left

length-range : (i left : ℕ) → length (range i left) ≡ left
length-range i zero = refl
length-range i (suc left) = omega (arith, length-range (i + 1) left)

occurs-range :
    (a i left : ℕ) → occurs a (range i left) ≡ (if leb i a && ltb a (i + left) then 1 else 0)
occurs-range a i zero = ground arith
occurs-range a i (suc left) = ground (arith, occurs-range a (i + 1) left)

link_free_before : (n left i a : ℕ) (d : ℕ → Desc) → a < i → link_free n left i d a ≡ d a
unfolding link_free
link_free_before n zero i a d h = refl
link_free_before n (suc left) i a d h =
    link_free_before n left (i + 1) a (link_one n i d) (omega arith)
    ∙ update_ne d i a _ (λ e. omega arith)

link_free-IsFreeList :
    (n left i : ℕ) (d : ℕ → Desc)
    → i + left ≡ n
    → n ≤ 2 ^ 15
    → IsFreeList (link_free n left i d) i (range i left)
unfolding link_free
link_free-IsFreeList n zero i d e small = tt
link_free-IsFreeList n (suc zero) i d e small = (refl, tt)
link_free-IsFreeList n (suc (suc left)) i d e small =
    let d' = link_free n (suc left) (i + 1) (link_one n i d) in
    let here : d' i ≡ link_one n i d i =
      link_free_before n (suc left) (i + 1) i (link_one n i d) (omega arith) in
    let next : (d' i).next ≡ i + 1 = ap (λ r. r.next) (here ∙ update_self d i _) ∙ ground arith in
    (
      refl,
      subst (λ h. IsFreeList d' h (range (i + 1) (suc left))) (sym next)
          (link_free-IsFreeList n (suc left) (i + 1) (link_one n i d) (omega arith) small),
    )

used_offset_lem : (n : ℕ) → n < 2 ^ 16 → used_offset n ≡ (18 * n + 7) / 4 * 4
unfolding used_offset
used_offset_lem n h = ground (
  arith,
  bit_and_shifted 2 (2 ^ 62 - 1) ((18 * n + 7) / 4) ((18 * n + 7) % 4),
  bit_and_low 62 ((18 * n + 7) / 4),
)

-- The sizes that pass both assertions of `new`.
abbrev pub is_accepted : ℕ → Bool
is_accepted n = is_power_of_two n && not (ltb 4096 (used_offset n + (4 + 8 * n)))

abbrev agree : Bool → Bool → Bool
agree true b = b
agree false b = not b

sizes_table : every (λ n. agree (is_accepted n) (128 % n == 0)) 158 ≡ true
unfolding every is_power_of_two used_offset
sizes_table = refl

is_accepted_lem : (n : ℕ) → n < 2 ^ 16 → is_accepted n ≡ (128 % n == 0)
is_accepted_lem n h = elim (Bool-cases (ltb n 158)) [
  | inl small ↦
      let t =
        every_lem (λ n. agree (is_accepted n) (128 % n == 0)) 158 n sizes_table
          (ltb→lt n 158 small) in
      same _ _ t
  | inr large ↦
      let a = used_offset_lem n h in
      let b : ltb 4096 (used_offset n + (4 + 8 * n)) ≡ true = ground arith in
      let c : 128 % n ≡ 128 = mod-eq_of_lt (omega (arith, ltb→lt)) in rw (b, c) (ground arith)
]
  where
    same : (a b : Bool) → agree a b ≡ true → a ≡ b
    same true b h = sym h
    same false true h = cc
    same false false h = refl

-- The areas follow one another inside the frame at `phys`: the descriptors, the available ring of
-- 4 + 2 * size bytes, and the used ring of 4 + 8 * size bytes at an address that is a multiple of 4.
pub record Fits (size phys : ℕ) (areas : Areas) : Type 0 where
  pub desc : areas.desc_phys ≡ phys
  pub avail : areas.avail_phys ≡ areas.desc_phys + 16 * size
  pub apart : areas.avail_phys + 4 + 2 * size ≤ areas.used_phys
  pub in_frame : areas.used_phys + 4 + 8 * size ≤ phys + 4096
  pub aligned : phys % 4096 ≡ 0 → areas.used_phys % 4 ≡ 0

-- The first state of a queue: all descriptors free, nothing published, nothing used.
abbrev pub first : ℕ → Virtqueue
first size = record {
  size = size;
  desc = link_free size size 0 (λ _. zero_desc);
  avail_idx = 0;
  avail_ring = λ _. 0;
  used_idx = 0;
  used_ring = λ _. record { id = 0; len = 0 };
  free_head = 0;
  num_free = size;
  last_used_idx = 0;
}

pub first-Holds :
    (size : ℕ) → 0 < size → size ≤ 128 → 128 % size ≡ 0 → Holds (first size) [] (range 0 size) [] []
first-Holds size pos small whole = record {
  divides =
      dvd_trans size (dvd_of_mod-eq-zero size whole) (dvd_of_mod-eq-zero 128 {n = 65536} refl);
  owns = record {
    positive = pos;
    small = omega arith;
    free_list = link_free-IsFreeList size size 0 (λ _. zero_desc) (omega arith) (omega arith);
    counted = omega (arith, length-range 0 size);
    chains = tt;
    total = omega (arith, length-range 0 size);
    once = λ a. ground (arith, occurs-range a 0 size);
  };
  small_idx = omega arith;
  used_idx = refl;
  ring = tt;
  at_device = refl;
}

-- The two assertions in a row.
module _ {ℓ} {A : Type ℓ} (a b : Bool) (r : A) where
  accepted_runs :
      (a && not b) ≡ true → (if not a then panic else if b then panic else returned r) ≡ returned r
  accepted_runs h = ground arith

  rejected_runs :
      (a && not b) ≡ false → (if not a then panic else if b then panic else returned r) ≡ panic
  rejected_runs h = ground arith

-- The areas in the frame at `phys`.
abbrev pub areas_at : ℕ → ℕ → Areas
areas_at size phys = record {
  desc_phys = phys;
  avail_phys = phys + 16 * size;
  used_phys = phys + used_offset size;
}

pub new-first :
    (size phys : ℕ)
    → 0 < size
    → size ≤ 128
    → 128 % size ≡ 0
    → (new size (some phys) ≡ returned (first size, areas_at size phys))
      × Fits size phys (areas_at size phys)
new-first size phys pos small m =
    let h : size < 2 ^ 16 = omega (arith, small) in
    let whole : (128 % size == 0) ≡ true = ground (arith, m) in
    let accepted : is_accepted size ≡ true = is_accepted_lem size h ∙ whole in
    (
      unfold new in accepted_runs _ _ _ accepted,
      record {
        desc = refl;
        avail = refl;
        apart = omega (arith, used_offset_lem size h);
        in_frame = omega (arith, used_offset_lem size h);
        aligned = λ p. omega (arith, used_offset_lem size h, p);
      },
    )

-- With a frame from the allocator, `new` panics unless the size divides 128, that is, for every 16-bit size but 1, 2, 4, … 128. For
-- those the areas fit the frame, and the queue starts sound, with nothing at the device.
pub new_lem :
    (size phys : ℕ)
    → size < 2 ^ 16
    → ((128 % size ≢ 0) × (new size (some phys) ≡ panic))
      ⊎ ((128 % size ≡ 0)
          × (q : Virtqueue) × (areas : Areas) × (new size (some phys) ≡ returned (q, areas))
          × Fits size phys areas
          × IsSound (record { q = q; heads = [] }))
new_lem size phys h = elim (Bool-cases (128 % size == 0)) [
  | inl whole ↦
      let m : 128 % size ≡ 0 = eqb→eq _ _ whole in
      let pos : 0 < size = ground (arith, m) in
      let small : size ≤ 128 = le_of_dvd (omega arith) (dvd_of_mod-eq-zero size m) in
      let (runs, fits) = new-first size phys pos small m in
      inr (
        m,
        first size,
        areas_at size phys,
        runs,
        fits,
        record {
          free = range 0 size;
          device = [];
          done = [];
          holds = first-Holds size pos small m;
        },
      )
  | inr other ↦
      inl (eqb→ne _ _ other, unfold new in rejected_runs _ _ _ (is_accepted_lem size h ∙ other))
]
