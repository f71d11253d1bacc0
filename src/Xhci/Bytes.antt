-- ===== src/Xhci/Bytes.antt =====
-- What the walks read off one descriptor, and where they end.
use field_os.Prelude.{
  ℕ, ◌+◌, ◌≤◌, ◌<◌, ◌≡◌, inl, inr, refl, ap, arith, Bool, true, false, not, ◌&&◌, ◌||◌, List, ◌∷◌,
  ◌++◌, none, some, ltb, if◌then◌else◌, length, Bool-cases,
}
use field_os.Xhci.{finished}
use field_os.Xhci.Descriptors.{at, Endpoint, Found, is_in, or_else, note, interface_at, endpoint_at}
use field_os.Xhci.Trees.{
  Descriptor, size, bytes, byte, IsStuck, short, bad, endpoint_of, Reads, byte_at, Reads-first,
}

pub &&-true : (a b : Bool) → (a && b) ≡ true → b ≡ true
&&-true true b h = h
&&-true false b h = cc

pub if_finished {ℓ} :
    {A : Type ℓ} (b : Bool) (x y : A)
    → (if b then finished x else finished y) ≡ finished (if b then x else y)
if_finished true x y = refl
if_finished false x y = refl

pub or_none : (f : Found × Found) → finished f ≡ finished (or_else f.0 none, or_else f.1 none)
or_none (none, none) = refl
or_none (none, some b) = refl
or_none (some a, none) = refl
or_none (some a, some b) = refl

-- Noting a bulk endpoint first is the same as having it at the head of the list.
or_else-some :
    (x : Found) (p : ℕ × ℕ) (a : Found) → or_else (or_else x (some p)) a ≡ or_else x (some p)
or_else-some none p a = refl
or_else-some (some x) p a = refl

abbrev pub noted : Endpoint → Bool → Bool → Found → Found → Found
noted e bulk direction found later = or_else found (
    if bulk && (if is_in e then direction else not direction)
    then some (e.addr, e.maxpkt)
    else later)

abbrev pub after : Found × Found → Found → Found → Found × Found
after f a b = (or_else f.0 a, or_else f.1 b)

pub note_lem :
    (e : Endpoint) (f : Found × Found) (a b : Found) (bulk : Bool)
    → after (if bulk then note e f else f) a b ≡ (noted e bulk true f.0 a, noted e bulk false f.1 b)
note_lem e f a b false = refl
note_lem e (x, y) a b true = elim (Bool-cases (is_in e)) [
  | inl inward ↦ rw inward (ap (λ t. (t, or_else y b)) (or_else-some x (e.addr, e.maxpkt) a))
  | inr outward ↦ rw outward (ap (λ t. (or_else x a, t)) (or_else-some y (e.addr, e.maxpkt) b))
]

-- Where the walk ends.
pub data Ending (cfg : List ℕ) (i : ℕ) : Type 0 where
  over : ltb (length cfg) (i + 2) ≡ true → Ending cfg i
  broken :
      (len : ℕ)
      → ltb (length cfg) (i + 2) ≡ false
      → at cfg i ≡ finished len
      → (ltb len 2 || ltb (length cfg) (i + len)) ≡ true
      → Ending cfg i

at_head :
    {cfg : List ℕ} {i len : ℕ} {rest : List ℕ} → Reads cfg i (len ∷ rest) → at cfg i ≡ finished len
unfolding at
at_head reads = Reads-first reads

pub ending : (cfg : List ℕ) (i : ℕ) (tail : List ℕ) → IsStuck tail → Reads cfg i tail → Ending cfg i
ending cfg i tail (short few) reads = over (ground (arith, reads.all))
ending cfg i (len ∷ rest) (bad some_left wrong) reads =
    broken len (ground (arith, reads.all)) (at_head reads) (ground (arith, reads.all, wrong))

-- The bytes that the walks read off a descriptor.
module _ (cfg : List ℕ) (i : ℕ) (d : Descriptor) (rest : List ℕ)
    (reads : Reads cfg i (bytes d ++ rest)) where
  pub here : (k : ℕ) → 2 ≤ k → k < size d → at cfg (i + k) ≡ finished (byte d k)
  here = byte_at cfg i d rest reads

  pub interface_here :
      9 ≤ size d → interface_at cfg i ≡ finished (byte d 5, byte d 6, byte d 7, byte d 4)
  unfolding interface_at
  interface_here large =
      rw
        (
          here 5 (omega arith) (omega (arith, large)),
          here 6 (omega arith) (omega (arith, large)),
          here 7 (omega arith) (omega (arith, large)),
          here 4 (omega arith) (omega (arith, large)),
        )
        refl

  pub endpoint_here : 7 ≤ size d → endpoint_at cfg i ≡ finished (endpoint_of d)
  unfolding endpoint_at
  endpoint_here large =
      rw
        (
          here 2 (omega arith) (omega (arith, large)),
          here 3 (omega arith) (omega (arith, large)),
          here 4 (omega arith) (omega (arith, large)),
          here 5 (omega arith) (omega (arith, large)),
        )
        refl
