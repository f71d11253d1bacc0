-- ===== src/Acpi/Encode.antt =====
-- The entries of a MADT, and the bytes that stand for them.
use field_os.Prelude.{
  ℕ, zero, suc, ◌+◌, ◌/◌, ◌%◌, ◌<◌, ◌≡◌, refl, ap, ◌∙◌, subst, arith, List, [], ◌∷◌, ◌++◌, some,
  length, get_elem?, true,
}
use field_os.Acpi.{bytes_are, Memory, read_u16, read_u32, CpuInfo, IoapicInfo, IrqOverride}

-- An entry: the processors, I/O APICs and overrides that the kernel reads, and the other types.
pub data MadtEntry : Type 0 where
  processor : CpuInfo → MadtEntry
  ioapic : IoapicInfo → MadtEntry
  irq : IrqOverride → MadtEntry
  other : ℕ → List ℕ → MadtEntry

abbrev pub le16 : ℕ → List ℕ
le16 v = v % 256 ∷ v / 256 ∷ []

abbrev pub le32 : ℕ → List ℕ
le32 v = v % 256 ∷ v / 256 % 256 ∷ v / 65536 % 256 ∷ v / 16777216 ∷ []

-- Type, length, then the fields; a reserved byte is 0.
abbrev pub encode : MadtEntry → List ℕ
encode (processor c) = 0 ∷ 8 ∷ c.acpi_processor_id ∷ c.apic_id ∷ le32 c.flags
encode (ioapic o) = 1 ∷ 12 ∷ o.ioapic_id ∷ 0 ∷ (le32 o.base ++ le32 o.gsi_base)
encode (irq o) = 2 ∷ 10 ∷ o.bus ∷ o.source ∷ (le32 o.gsi ++ le16 o.flags)
encode (other ty payload) = ty ∷ (2 + length payload) ∷ payload

abbrev pub encode_all : List MadtEntry → List ℕ
encode_all [] = []
encode_all (e ∷ es) = encode e ++ encode_all es

-- The types 0, 1 and 2 are those that the kernel reads.
abbrev pub AreOthers : List MadtEntry → Type 0
AreOthers [] = Unit {0}
AreOthers (other ty payload ∷ es) = (2 < ty) × AreOthers es
AreOthers (e ∷ es) = AreOthers es

abbrev pub cpus_of : List MadtEntry → List CpuInfo
cpus_of [] = []
cpus_of (processor c ∷ es) = c ∷ cpus_of es
cpus_of (e ∷ es) = cpus_of es

abbrev pub ioapics_of : List MadtEntry → List IoapicInfo
ioapics_of [] = []
ioapics_of (ioapic o ∷ es) = o ∷ ioapics_of es
ioapics_of (e ∷ es) = ioapics_of es

abbrev pub overrides_of : List MadtEntry → List IrqOverride
overrides_of [] = []
overrides_of (irq o ∷ es) = o ∷ overrides_of es
overrides_of (e ∷ es) = overrides_of es

-- The bytes stand in memory from an address on.
abbrev pub Holds : Memory → ℕ → List ℕ → Type 0
Holds mem at [] = Unit {0}
Holds mem at (b ∷ bs) = (mem at ≡ b) × Holds mem (at + 1) bs

pub byte_at :
    (mem : Memory) (at : ℕ) (bs : List ℕ) (i a b : ℕ)
    → Holds mem at bs
    → get_elem? bs i ≡ some b
    → a ≡ at + i
    → mem a ≡ b
byte_at mem at [] i a b h found e = cc
byte_at mem at (x ∷ bs) zero a b h found e =
    let here : a ≡ at = omega arith in ap mem here ∙ h.0 ∙ ground arith
byte_at mem at (x ∷ bs) (suc i) a b h found e =
    byte_at mem (at + 1) bs i a b h.1 found (omega arith)

pub Holds-append :
    (mem : Memory) (at : ℕ) (xs ys : List ℕ)
    → Holds mem at (xs ++ ys)
    → Holds mem at xs × Holds mem (at + length xs) ys
Holds-append mem at [] ys h =
    let e : at ≡ at + 0 = omega arith in (tt, subst (λ a. Holds mem a ys) e h)
Holds-append mem at (x ∷ xs) ys h =
    let (left, right) = Holds-append mem (at + 1) xs ys h.1 in
    let e : at + 1 + length xs ≡ at + suc (length xs) = omega arith in
    ((h.0, left), subst (λ a. Holds mem a ys) e right)

-- Reading back a little-endian word.
pub read_u32-le32 :
    (mem : Memory) (base offset at v : ℕ)
    → Holds mem at (le32 v)
    → base + offset ≡ at
    → read_u32 mem base offset ≡ v
read_u32-le32 mem base offset at v h e =
    rw
      (
        byte_at mem at (le32 v) 0 (base + offset) (v % 256) h refl (omega arith),
        byte_at mem at (le32 v) 1 (base + offset + 1) (v / 256 % 256) h refl (omega arith),
        byte_at mem at (le32 v) 2 (base + offset + 2) (v / 65536 % 256) h refl (omega arith),
        byte_at mem at (le32 v) 3 (base + offset + 3) (v / 16777216) h refl (omega arith),
      )
      (omega arith)

pub read_u16-le16 :
    (mem : Memory) (base offset at v : ℕ)
    → Holds mem at (le16 v)
    → base + offset ≡ at
    → read_u16 mem base offset ≡ v
read_u16-le16 mem base offset at v h e =
    rw
      (
        byte_at mem at (le16 v) 0 (base + offset) (v % 256) h refl (omega arith),
        byte_at mem at (le16 v) 1 (base + offset + 1) (v / 256) h refl (omega arith),
      )
      (omega arith)

-- The code's comparison of bytes, as a test of what memory holds.
pub Holds-of_bytes_are :
    (mem : Memory) (at : ℕ) (bs : List ℕ) → bytes_are mem at bs ≡ true → Holds mem at bs
Holds-of_bytes_are mem at [] h = tt
Holds-of_bytes_are mem at (b ∷ bs) h =
    (ground arith, Holds-of_bytes_are mem (at + 1) bs (ground arith))
