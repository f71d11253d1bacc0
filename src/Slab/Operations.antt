-- ===== src/Slab/Operations.antt =====
-- What each function leaves, over an allocator that keeps the contract of `GlobalAlloc`.
use field_os.Prelude.{
  ℕ, ◌+◌, ◌-◌, ◌^◌, ◌≤◌, ◌≡◌, ◌≢◌, inl, inr, sym, subst, ◌∙◌, arith, true, false, Bool-cases, leb,
  ◌==◌, if◌then◌else◌, update,
}
use field_os.Prelude.Outcome.{add64, sub64}
use field_os.Slab.{Memory, write_header, kmalloc, kzalloc, kfree, krealloc}
use field_os.Slab.Layouts.{Agrees, give, take, placed}

-- What an allocator answers to a call for `n` bytes: null, or an address that fits, with the block
-- in the place of what the call gave back.
pub data Answer (before rest after : ℕ → ℕ) (n raw : ℕ) : Type 0 where
  refused : raw ≡ 0 → after ≡ before → Answer before rest after n raw
  granted : raw ≢ 0 → raw + n ≤ 2 ^ 64 → after ≡ update rest raw n → Answer before rest after n raw

abbrev pub layout_max : ℕ
layout_max = 2 ^ 63 - 16

-- The contract of `GlobalAlloc`: it holds for layouts that are not empty and not too large, and for
-- blocks that are given back with their own layout.
pub record Contract {E : Type 0} (alloc : ℕ → E → ℕ × E) (realloc : ℕ → ℕ → ℕ → E → ℕ × E)
    (dealloc : ℕ → ℕ → E → E) (blocks : E → ℕ → ℕ) : Type 0 where
  pub allocates :
      (n : ℕ) (e : E)
      → n ≢ 0
      → n ≤ layout_max
      → Answer (blocks e) (blocks e) (blocks (alloc n e).1) n (alloc n e).0
  pub reallocates :
      (p n : ℕ) (e : E)
      → blocks e p ≢ 0
      → n ≢ 0
      → n ≤ layout_max
      → Answer
          (blocks e)
          (update (blocks e) p 0)
          (blocks (realloc p (blocks e p) n e).1)
          n
          (realloc p (blocks e p) n e).0
  pub deallocates :
      (p : ℕ) (e : E) → blocks e p ≢ 0 → blocks (dealloc p (blocks e p) e) ≡ update (blocks e) p 0

abbrev pub resized : (ℕ → ℕ) → (ℕ → ℕ) → ℕ → ℕ → ℕ → ℕ
resized held rest p size = if p == 0 then held else update rest p size

module _ {E : Type 0} {alloc : ℕ → E → ℕ × E} {realloc : ℕ → ℕ → ℕ → E → ℕ × E}
    {dealloc : ℕ → ℕ → E → E} {blocks : E → ℕ → ℕ}
    (contract : Contract alloc realloc dealloc blocks) where
  abbrev pub Fits : Memory alloc realloc dealloc → (ℕ → ℕ) → Type 0
  Fits m held = Agrees (blocks m.env) m.sizes held

  write_header-Agrees :
      {before rest : ℕ → ℕ} {held held' : ℕ → ℕ} (size raw : ℕ) (e : E)
      (m : Memory alloc realloc dealloc)
      → Agrees before m.sizes held
      → Agrees rest m.sizes held'
      → size ≢ 0
      → Answer before rest (blocks e) (size + 16) raw
      → Fits
          (write_header alloc realloc dealloc size (raw, e) m).1
          (resized held held' (write_header alloc realloc dealloc size (raw, e) m).0 size)
  unfolding write_header
  write_header-Agrees size raw e m agrees other large (refused null same) =
      let is_null : (raw == 0) ≡ true = ground arith in rw (is_null, same) agrees
  write_header-Agrees size raw e m agrees other large (granted there fits is) =
      let is_there : (raw == 0) ≡ false = ground arith in
      let at : add64 raw 16 ≡ raw + 16 = omega arith in
      let at_there : (raw + 16 == 0) ≡ false = ground arith in
      rw (is_there, at, at_there, is) (give raw size other there large fits)

  pub kmalloc-Agrees :
      (size : ℕ) (m : Memory alloc realloc dealloc) (held : ℕ → ℕ)
      → Fits m held
      → Fits
          (kmalloc alloc realloc dealloc size m).1
          (resized held held (kmalloc alloc realloc dealloc size m).0 size)
  unfolding kmalloc
  kmalloc-Agrees size m held agrees = elim (Bool-cases (size == 0)) [
    | inl empty ↦ rw empty agrees
    | inr some_bytes ↦ elim (Bool-cases (leb (2 ^ 64) (size + 16))) [
      | inl huge ↦ rw (some_bytes, huge) agrees
      | inr word ↦ elim (Bool-cases (leb (size + 16) (2 ^ 63 - 16))) [
        | inl fits ↦
            let (raw, e) = alloc (size + 16) m.env in
            rw (some_bytes, word, fits)
              (write_header-Agrees size raw e m agrees agrees (ground arith)
                (contract.allocates (size + 16) m.env (omega arith) (ground arith)))
        | inr large ↦ rw (some_bytes, word, large) agrees
      ]
    ]
  ]

  pub kfree-Agrees :
      (p : ℕ) (m : Memory alloc realloc dealloc) (held : ℕ → ℕ)
      → Fits m held
      → held p ≢ 0
      → Fits (kfree alloc realloc dealloc p m) (update held p 0)
  unfolding kfree
  kfree-Agrees p m held agrees there =
      let (a, at, header, block, layout) = placed p agrees there in
      let is_there : (a + 16 == 0) ≡ false = ground arith in
      let is_block : blocks m.env a ≢ 0 = ground (arith, block) in
      let total : add64 (m.sizes (sub64 (a + 16) 16)) 16 ≡ blocks m.env a =
        subst (λ x. add64 (m.sizes (sub64 x 16)) 16 ≡ blocks m.env a) at
          (rw header (layout ∙ sym block)) in
      let from : sub64 (a + 16) 16 ≡ a = subst (λ x. sub64 x 16 ≡ a) at header in
      rw (at, is_there, total, from, contract.deallocates a m.env is_block) (take a agrees)

  pub kzalloc-Agrees :
      (size : ℕ) (m : Memory alloc realloc dealloc) (held : ℕ → ℕ)
      → Fits m held
      → Fits
          (kzalloc alloc realloc dealloc size m).1
          (resized held held (kzalloc alloc realloc dealloc size m).0 size)
  unfolding kzalloc
  kzalloc-Agrees size m held agrees =
      let (p, m') = kmalloc alloc realloc dealloc size m in
      let given = kmalloc-Agrees size m held agrees in
      elim (Bool-cases (p == 0)) [
        | inl null ↦
            rw null (subst (λ b. Fits m' (if b then held else update held p size)) null given)
        | inr there ↦ rw there given
      ]

  pub krealloc-Agrees :
      (p size : ℕ) (m : Memory alloc realloc dealloc) (held : ℕ → ℕ)
      → Fits m held
      → held p ≢ 0
      → size ≢ 0
      → size + 16 ≤ layout_max
      → Fits
          (krealloc alloc realloc dealloc p size m).1
          (resized held (update held p 0) (krealloc alloc realloc dealloc p size m).0 size)
  unfolding krealloc
  krealloc-Agrees p size m held agrees there large fits =
      let (a, at, header, block, layout) = placed p agrees there in
      let is_there : (a + 16 == 0) ≡ false = ground arith in
      let some_bytes : (size == 0) ≡ false = ground arith in
      let word : leb (2 ^ 64) (size + 16) ≡ false = ground arith in
      let is_block : blocks m.env a ≢ 0 = ground (arith, block) in
      let total : add64 (m.sizes (sub64 (a + 16) 16)) 16 ≡ blocks m.env a =
        subst (λ x. add64 (m.sizes (sub64 x 16)) 16 ≡ blocks m.env a) at
          (rw header (layout ∙ sym block)) in
      let from : sub64 (a + 16) 16 ≡ a = subst (λ x. sub64 x 16 ≡ a) at header in
      let (raw, e) = realloc a (blocks m.env a) (size + 16) m.env in
      rw (at, is_there, some_bytes, word, total, from)
        (write_header-Agrees size raw e _ agrees (take a agrees) large
          (contract.reallocates a (size + 16) m.env is_block (omega arith) fits))

  pub krealloc_away :
      (p : ℕ) (m : Memory alloc realloc dealloc) (held : ℕ → ℕ)
      → Fits m held
      → held p ≢ 0
      → Fits (krealloc alloc realloc dealloc p 0 m).1 (update held p 0)
  unfolding krealloc
  krealloc_away p m held agrees there = elim (Bool-cases (p == 0)) [
    | inl null ↦ absurd (there (agrees.low p (ground arith)))
    | inr other ↦ rw other (kfree-Agrees p m held agrees there)
  ]
