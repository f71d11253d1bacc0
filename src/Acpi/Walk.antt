-- ===== src/Acpi/Walk.antt =====
-- The walk over a well-formed MADT gives its entries back.
use field_os.Prelude.{
  ℕ, zero, suc, ◌+◌, ◌≤◌, ◌<◌, ◌≡◌, refl, ap, ◌∙◌, subst, arith, List, [], ◌∷◌, ◌++◌, append_assoc,
  append-nil, some, true, false, ltb, ◌==◌, get_elem?, length, length-append,
}
use field_os.Prelude.Outcome.{returned}
use field_os.Acpi.{
  Memory, read_u16, read_u32, CpuInfo, IoapicInfo, IrqOverride, Tables, add_entry, walk,
}
use field_os.Acpi.Encode.{
  MadtEntry, processor, ioapic, irq, other, le16, le32, encode, encode_all, AreOthers, cpus_of,
  ioapics_of, overrides_of, Holds, byte_at, Holds-append, read_u32-le32, read_u16-le16,
}

-- The tables with those of some entries behind them.
abbrev pub with_entries : Tables → List MadtEntry → Tables
with_entries t es = record {
  cpus = t.cpus ++ cpus_of es;
  ioapics = t.ioapics ++ ioapics_of es;
  overrides = t.overrides ++ overrides_of es;
}

module _ (mem : Memory) (madt cursor : ℕ) where
  field :
      (bs : List ℕ) (i b : ℕ)
      → Holds mem (madt + cursor) bs
      → get_elem? bs i ≡ some b
      → mem (madt + (cursor + i)) ≡ b
  field bs i b h found =
      byte_at mem (madt + cursor) bs i (madt + (cursor + i)) b h found (omega arith)

  word :
      (xs ys : List ℕ) (i v : ℕ)
      → Holds mem (madt + cursor) (xs ++ (le32 v ++ ys))
      → length xs ≡ i
      → read_u32 mem madt (cursor + i) ≡ v
  word xs ys i v h e =
      let tail = (Holds-append mem (madt + cursor) xs (le32 v ++ ys) h).1 in
      let bytes = (Holds-append mem (madt + cursor + length xs) (le32 v) ys tail).0 in
      read_u32-le32 mem madt (cursor + i) (madt + cursor + length xs) v bytes (omega (arith, e))

  half :
      (xs : List ℕ) (i v : ℕ)
      → Holds mem (madt + cursor) (xs ++ le16 v)
      → length xs ≡ i
      → read_u16 mem madt (cursor + i) ≡ v
  half xs i v h e =
      read_u16-le16 mem madt (cursor + i) (madt + cursor + length xs) v
        (Holds-append mem (madt + cursor) xs (le16 v) h).1 (omega (arith, e))

  add_entry-processor :
      (t : Tables) (c : CpuInfo)
      → Holds mem (madt + cursor) (encode (processor c))
      → add_entry mem madt cursor 8 t ≡ with_entries t (processor c ∷ [])
  unfolding add_entry
  add_entry-processor t c h =
      let bs = encode (processor c) in
      rw
        (
          h.0,
          field bs 2 c.acpi_processor_id h refl,
          field bs 3 c.apic_id h refl,
          word (0 ∷ (8 ∷ (c.acpi_processor_id ∷ (c.apic_id ∷ [])))) [] 4 c.flags h refl,
          append-nil t.ioapics,
          append-nil t.overrides,
        )
        refl

  add_entry-ioapic :
      (t : Tables) (o : IoapicInfo)
      → Holds mem (madt + cursor) (encode (ioapic o))
      → add_entry mem madt cursor 12 t ≡ with_entries t (ioapic o ∷ [])
  unfolding add_entry
  add_entry-ioapic t o h =
      let bs = encode (ioapic o) in
      let head : List ℕ = 1 ∷ (12 ∷ (o.ioapic_id ∷ (0 ∷ []))) in
      rw
        (
          h.0,
          field bs 2 o.ioapic_id h refl,
          word head (le32 o.gsi_base) 4 o.base h refl,
          word (head ++ le32 o.base) [] 8 o.gsi_base h refl,
          append-nil t.cpus,
          append-nil t.overrides,
        )
        refl

  add_entry-irq :
      (t : Tables) (o : IrqOverride)
      → Holds mem (madt + cursor) (encode (irq o))
      → add_entry mem madt cursor 10 t ≡ with_entries t (irq o ∷ [])
  unfolding add_entry
  add_entry-irq t o h =
      let bs = encode (irq o) in
      let head : List ℕ = 2 ∷ (10 ∷ (o.bus ∷ (o.source ∷ []))) in
      rw
        (
          h.0,
          field bs 2 o.bus h refl,
          field bs 3 o.source h refl,
          word head (le16 o.flags) 4 o.gsi h refl,
          half (head ++ le32 o.gsi) 8 o.flags h refl,
          append-nil t.cpus,
          append-nil t.ioapics,
        )
        refl

  add_entry-other :
      (t : Tables) (ty : ℕ) (payload : List ℕ) (n : ℕ)
      → 2 < ty
      → Holds mem (madt + cursor) (encode (other ty payload))
      → add_entry mem madt cursor n t ≡ with_entries t (other ty payload ∷ [])
  unfolding add_entry
  add_entry-other t ty payload n unknown h =
      let a : (ty == 0) ≡ false = ground arith in
      let b : (ty == 1) ≡ false = ground arith in
      let c : (ty == 2) ≡ false = ground arith in
      rw (h.0, a, b, c, append-nil t.cpus, append-nil t.ioapics, append-nil t.overrides) refl

  -- What the walk reads of one entry.
  entry_lem :
      (t : Tables) (e : MadtEntry)
      → AreOthers (e ∷ [])
      → Holds mem (madt + cursor) (encode e)
      → (mem (madt + (cursor + 1)) ≡ length (encode e))
        × (2 ≤ length (encode e))
        × (add_entry mem madt cursor (length (encode e)) t ≡ with_entries t (e ∷ []))
  entry_lem t (processor c) o h =
      (field (encode (processor c)) 1 8 h refl, omega arith, add_entry-processor t c h)
  entry_lem t (ioapic i) o h =
      (field (encode (ioapic i)) 1 12 h refl, omega arith, add_entry-ioapic t i h)
  entry_lem t (irq i) o h = (field (encode (irq i)) 1 10 h refl, omega arith, add_entry-irq t i h)
  entry_lem t (other ty payload) o h = (
    field (encode (other ty payload)) 1 (2 + length payload) h refl ∙ omega arith,
    omega arith,
    add_entry-other t ty payload (length (encode (other ty payload))) o.0 h,
  )

with_entries-cons :
    (t : Tables) (e : MadtEntry) (es : List MadtEntry)
    → with_entries (with_entries t (e ∷ [])) es ≡ with_entries t (e ∷ es)
with_entries-cons t (processor c) es =
    rw (append_assoc t.cpus (c ∷ []) (cpus_of es), append-nil t.ioapics, append-nil t.overrides)
      refl
with_entries-cons t (ioapic o) es =
    rw (append_assoc t.ioapics (o ∷ []) (ioapics_of es), append-nil t.cpus, append-nil t.overrides)
      refl
with_entries-cons t (irq o) es =
    rw
      (append_assoc t.overrides (o ∷ []) (overrides_of es), append-nil t.cpus, append-nil t.ioapics)
      refl
with_entries-cons t (other ty payload) es =
    rw (append-nil t.cpus, append-nil t.ioapics, append-nil t.overrides) refl

AreOthers-head : (e : MadtEntry) (es : List MadtEntry) → AreOthers (e ∷ es) → AreOthers (e ∷ [])
AreOthers-head (processor c) es o = tt
AreOthers-head (ioapic i) es o = tt
AreOthers-head (irq i) es o = tt
AreOthers-head (other ty payload) es o = (o.0, tt)

AreOthers-tail : (e : MadtEntry) (es : List MadtEntry) → AreOthers (e ∷ es) → AreOthers es
AreOthers-tail (processor c) es o = o
AreOthers-tail (ioapic i) es o = o
AreOthers-tail (irq i) es o = o
AreOthers-tail (other ty payload) es o = o.1

-- Over the bytes of a list of entries, whose other types are not 0, 1 or 2, the walk ends within
-- one round for each entry and one more, and finds exactly the processors, the I/O APICs and the
-- overrides of the list, each in order, behind those that it had.
pub walk-encode_all :
    (mem : Memory) (madt : ℕ) (es : List MadtEntry) (cursor fuel : ℕ) (t : Tables)
    → AreOthers es
    → Holds mem (madt + cursor) (encode_all es)
    → length es < fuel
    → walk fuel mem madt (cursor + length (encode_all es)) cursor t
      ≡ some (returned (with_entries t es))
unfolding walk
walk-encode_all mem madt es cursor zero t o h enough = absurd (omega arith)
walk-encode_all mem madt [] cursor (suc fuel) t o h enough =
    let ends : ltb (cursor + 0) (cursor + 2) ≡ true = ground arith in
    rw (ends, append-nil t.cpus, append-nil t.ioapics, append-nil t.overrides) refl
walk-encode_all mem madt (e ∷ es) cursor (suc fuel) t o h enough =
    let n = length (encode e) in
    let (bytes, rest) = Holds-append mem (madt + cursor) (encode e) (encode_all es) h in
    let (len, two, added) = entry_lem mem madt cursor t e (AreOthers-head e es o) bytes in
    let total = length-append (encode e) (encode_all es) in
    let size : cursor + length (encode_all (e ∷ es)) ≡ cursor + n + length (encode_all es) =
      omega (arith, total) in
    let there : Holds mem (madt + (cursor + n)) (encode_all es) =
      subst (λ a. Holds mem a (encode_all es)) (omega arith) rest in
    let later =
      walk-encode_all mem madt es (cursor + n) fuel (with_entries t (e ∷ []))
        (AreOthers-tail e es o) there (omega arith) in
    let a : ltb (cursor + length (encode_all (e ∷ es))) (cursor + 2) ≡ false =
      ground (arith, total) in
    let b : ltb n 2 ≡ false = ground arith in
    let c : ltb (cursor + length (encode_all (e ∷ es))) (cursor + n) ≡ false =
      ground (arith, total) in
    rw (len, a, b, c, size, added) (later ∙ ap (λ u. some (returned u)) (with_entries-cons t e es))
