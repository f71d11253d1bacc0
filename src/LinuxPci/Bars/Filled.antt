-- ===== src/LinuxPci/Bars/Filled.antt =====
-- Arrays that a loop fills from the front: `bar_addr` and `bar_len` in linuxkpi/src/pci.rs.
use mathlib.Core.Path.{fun_ext}
use field_os.Prelude.{
  ℕ, suc, ◌+◌, ◌-◌, ◌≤◌, ◌<◌, ◌≡◌, refl, sym, ap, ◌∙◌, arith, List, [], ◌∷◌, Bool-cases, inl, inr,
  true, false, ltb, ltb→lt, ◌==◌, eqb→eq, if◌then◌else◌, update, update_self, update_ne, get_or,
}

-- An array whose entries from `i` on are those of a list.
abbrev pub filled : (ℕ → ℕ) → ℕ → List ℕ → ℕ → ℕ
filled f i xs k = if ltb k i then f k else get_or xs (k - i) 0

pub filled-cons :
    (f g : ℕ → ℕ) (i v : ℕ) (xs : List ℕ)
    → ((k : ℕ) → k < i → g k ≡ f k)
    → g i ≡ v
    → filled g (i + 1) xs ≡ filled f i (v ∷ xs)
filled-cons f g i v xs same at = fun_ext λ k. elim (Bool-cases (ltb k i)) [
  | inl below ↦
      let next : ltb k (i + 1) ≡ true = ground arith in rw (below, next) (same k (ltb→lt k i below))
  | inr above ↦ elim (Bool-cases (k == i)) [
    | inl here ↦
        let e : k ≡ i = eqb→eq k i here in
        let next : ltb i (i + 1) ≡ true = ground arith in
        let none_yet : ltb i i ≡ false = ground arith in
        let first : i - i ≡ 0 = omega arith in rw (e, next, none_yet, first) at
    | inr past ↦
        let next : ltb k (i + 1) ≡ false = ground arith in
        let rest : k - i ≡ suc (k - (i + 1)) = ground arith in rw (next, above, rest) refl
  ]
]

pub filled-pair :
    (f : ℕ → ℕ) (i v : ℕ) (xs : List ℕ)
    → ((k : ℕ) → i ≤ k → f k ≡ 0)
    → filled (update f i v) (i + 2) xs ≡ filled f i (v ∷ (0 ∷ xs))
filled-pair f i v xs rest =
    let g = update f i v in
    let next : i + 2 ≡ i + 1 + 1 = omega arith in
    let clear : g (i + 1) ≡ 0 =
      update_ne f i (i + 1) v (λ e. omega arith) ∙ rest (i + 1) (omega arith) in
    ap (λ n. filled g n xs) next
    ∙ filled-cons g g (i + 1) 0 xs (λ k h. refl) clear
    ∙ filled-cons f g i v (0 ∷ xs) (λ k h. update_ne f i k v (λ e. omega arith)) (update_self f i v)

pub filled-zero : (f : ℕ → ℕ) (xs : List ℕ) (k : ℕ) → filled f 0 xs k ≡ get_or xs k 0
filled-zero f xs k =
    let none_below : ltb k 0 ≡ false = ground arith in
    let whole : k - 0 ≡ k = omega arith in rw (none_below, whole) refl

pub filled-nil : (f : ℕ → ℕ) (i : ℕ) → ((k : ℕ) → i ≤ k → f k ≡ 0) → filled f i [] ≡ f
filled-nil f i rest = fun_ext λ k. elim (Bool-cases (ltb k i)) [
  | inl below ↦ rw below refl
  | inr above ↦ rw above (sym (rest k (ground arith)))
]
