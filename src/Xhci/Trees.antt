-- ===== src/Xhci/Trees.antt =====
-- The bytes of a configuration as a list of descriptors, and what the three walks look for in it.
use field_os.Prelude.{
  ℕ, zero, suc, ◌+◌, ◌-◌, ◌*◌, ◌≤◌, ◌<◌, ◌≡◌, ◌⊎◌, inl, inr, refl, sym, subst, ap, ◌∙◌, arith,
  bit_and, Bool, true, false, not, ◌&&◌, ◌||◌, List, [], ◌∷◌, ◌++◌, append_assoc, Option, none,
  some, ltb, leb, ◌==◌, if◌then◌else◌, length, length-append, get_or, take, drop, length-take,
  take-append-drop, Bool-cases,
}
use field_os.Xhci.{finished}
use field_os.Xhci.Descriptors.{
  at, usb_desc_interface, usb_desc_endpoint, Interface, Endpoint, is_in, both,
}

-- A descriptor: its type, and what follows the type.
pub record Descriptor : Type 0 where
  pub kind : ℕ
  pub body : List ℕ

abbrev pub size : Descriptor → ℕ
size d = suc (suc (length d.body))

abbrev pub bytes : Descriptor → List ℕ
bytes d = size d ∷ d.kind ∷ d.body

abbrev pub encode : List Descriptor → List ℕ
encode [] = []
encode (d ∷ ds) = bytes d ++ encode ds

-- Bytes that do not begin with a descriptor: too few, or with a length that is too small or that
-- goes past the end.
pub data IsStuck : List ℕ → Type 0 where
  short : {tail : List ℕ} → length tail < 2 → IsStuck tail
  bad :
      {len : ℕ} {rest : List ℕ}
      → 1 ≤ length rest
      → (len < 2) ⊎ (suc (length rest) < len)
      → IsStuck (len ∷ rest)

-- The byte `k` of a descriptor, counted from its start.
abbrev pub byte : Descriptor → ℕ → ℕ
byte d k = get_or d.body (k - 2) 0

abbrev pub interface_of : List Descriptor → Interface
interface_of [] = (0, 0, 0, 0)
interface_of (d ∷ ds) =
    if (d.kind == usb_desc_interface) && leb 9 (size d)
    then (byte d 5, byte d 6, byte d 7, byte d 4)
    else interface_of ds

abbrev pub endpoint_of : Descriptor → Endpoint
endpoint_of d = record { addr = byte d 2; attrs = byte d 3; maxpkt = byte d 4 + byte d 5 * 256 }

-- An endpoint of the type `type`: 2 for bulk, 3 for interrupt.
abbrev pub is_endpoint : ℕ → Descriptor → Bool
is_endpoint type d =
    ((d.kind == usb_desc_endpoint) && leb 7 (size d)) && (bit_and (byte d 3) 3 == type)

abbrev pub interrupt_of : List Descriptor → Option (ℕ × ℕ × ℕ)
interrupt_of [] = none
interrupt_of (d ∷ ds) =
    if is_endpoint 3 d && is_in (endpoint_of d)
    then some (byte d 2, byte d 4 + byte d 5 * 256, byte d 6)
    else interrupt_of ds

-- The first bulk endpoint of one direction.
abbrev pub first_bulk : Bool → List Descriptor → Option (ℕ × ℕ)
first_bulk inward [] = none
first_bulk inward (d ∷ ds) =
    if is_endpoint 2 d && (if is_in (endpoint_of d) then inward else not inward)
    then some (byte d 2, byte d 4 + byte d 5 * 256)
    else first_bulk inward ds

abbrev pub bulk_of : List Descriptor → Option (ℕ × ℕ × ℕ × ℕ)
bulk_of ds = both (first_bulk true ds, first_bulk false ds)

-- The front of some bytes.
data Front : List ℕ → Type 0 where
  stuck : {cfg : List ℕ} → IsStuck cfg → Front cfg
  starts : (d : Descriptor) (rest : List ℕ) {cfg : List ℕ} → cfg ≡ bytes d ++ rest → Front cfg

front : (cfg : List ℕ) → Front cfg
front [] = stuck (short (omega arith))
front (len ∷ []) = stuck (short (omega arith))
front (zero ∷ kind ∷ rest) = stuck (bad (omega arith) (inl (omega arith)))
front (suc zero ∷ kind ∷ rest) = stuck (bad (omega arith) (inl (omega arith)))
front (suc (suc len) ∷ kind ∷ rest) = elim (Bool-cases (leb len (length rest))) [
  | inl fits ↦
      let same : length (take len rest) ≡ len = ground (arith, length-take len rest) in
      starts (record { kind = kind; body = take len rest }) (drop len rest)
        (rw (same, take-append-drop len rest) refl)
  | inr past ↦ stuck (bad (omega arith) (inr (ground arith)))
]

-- Any bytes are descriptors, and then bytes that do not begin with one.
pub split :
    (fuel : ℕ) (cfg : List ℕ)
    → length cfg < fuel
    → (ds : List Descriptor) × (tail : List ℕ) × (cfg ≡ encode ds ++ tail) × IsStuck tail
split zero cfg few = absurd (omega arith)
split (suc fuel) cfg few = elim (front cfg) [
  | stuck is ↦ ([], cfg, refl, is)
  | starts d rest e ↦
      let shorter : length rest < fuel =
        omega (arith, ap length e, length-append d.body rest, few) in
      let (ds, tail, e', is) = split fuel rest shorter in
      (
        d ∷ ds,
        tail,
        e
            ∙ ap (λ r. bytes d ++ r) e'
            ∙ ap (λ r. size d ∷ d.kind ∷ r) (sym (append_assoc d.body (encode ds) tail)),
        is,
      )
]

-- What `cfg` has from `i` on is `xs`.
pub record Reads (cfg : List ℕ) (i : ℕ) (xs : List ℕ) : Type 0 where
  pub all : length cfg ≡ i + length xs
  pub each : (k : ℕ) → at cfg (i + k) ≡ at xs k

at-drop : (a b : List ℕ) (k : ℕ) → at (a ++ b) (length a + k) ≡ at b k
unfolding at
at-drop [] b k = ap (at b) (omega arith)
at-drop (x ∷ a) b k =
    let e : suc (length a) + k ≡ suc (length a + k) = omega arith in rw e (at-drop a b k)

at_inside : (a b : List ℕ) (k : ℕ) → k < length a → at (a ++ b) k ≡ finished (get_or a k 0)
unfolding at
at_inside [] b k h = absurd (omega arith)
at_inside (x ∷ a) b zero h = refl
at_inside (x ∷ a) b (suc k) h = at_inside a b k (omega arith)

module _ (cfg : List ℕ) (i : ℕ) (d : Descriptor) (rest : List ℕ)
    (reads : Reads cfg i (bytes d ++ rest)) where
  pub more : ltb (length cfg) (i + 2) ≡ false
  more = ground (arith, reads.all, length-append d.body rest)

  pub len_at : at cfg i ≡ finished (size d)
  unfolding at
  len_at = ap (λ k. at cfg k) (omega arith) ∙ reads.each 0

  pub fits : (ltb (size d) 2 || ltb (length cfg) (i + size d)) ≡ false
  fits = ground (arith, reads.all, length-append d.body rest)

  pub kind_at : at cfg (i + 1) ≡ finished d.kind
  unfolding at
  kind_at = reads.each 1

  pub byte_at : (k : ℕ) → 2 ≤ k → k < size d → at cfg (i + k) ≡ finished (byte d k)
  unfolding at
  byte_at zero low high = absurd (omega arith)
  byte_at (suc zero) low high = absurd (omega arith)
  byte_at (suc (suc k)) low high =
      let here : suc (suc k) - 2 ≡ k = omega arith in
      rw here (reads.each (suc (suc k)) ∙ at_inside d.body rest k (omega arith))

  pub skip : Reads cfg (i + size d) rest
  skip = record {
    all = omega (arith, reads.all, length-append d.body rest);
    each = λ k.
        let e : i + size d + k ≡ i + (size d + k) = omega arith in
        rw e (reads.each (size d + k) ∙ at-drop (bytes d) rest k);
  }

pub Reads-cons :
    {cfg : List ℕ} {i : ℕ} (d : Descriptor) (ds : List Descriptor) (tail : List ℕ)
    → Reads cfg i (encode (d ∷ ds) ++ tail)
    → Reads cfg i (bytes d ++ (encode ds ++ tail))
Reads-cons {cfg} {i} d ds tail reads =
    subst (λ xs. Reads cfg i (size d ∷ d.kind ∷ xs)) (append_assoc d.body (encode ds) tail) reads

pub Reads-start : (cfg : List ℕ) → Reads cfg 0 cfg
Reads-start cfg = record {
  all = omega arith;
  each = λ k. let e : 0 + k ≡ k = omega arith in rw e refl;
}

pub Reads-first : {cfg : List ℕ} {i : ℕ} {xs : List ℕ} → Reads cfg i xs → at cfg i ≡ at xs 0
Reads-first {cfg} {i} {xs} reads =
    let e : i + 0 ≡ i = omega arith in subst (λ k. at cfg k ≡ at xs 0) e (reads.each 0)
