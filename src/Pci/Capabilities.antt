-- ===== src/Pci/Capabilities.antt =====
-- The walk over a function's capability list.
use field_os.Prelude.{
  ℕ, zero, suc, ◌+◌, ◌*◌, ◌/◌, ◌%◌, ◌<◌, ◌≤◌, ◌≡◌, ◌≢◌, ◌⊎◌, refl, ap, arith, List, [], ◌∷◌, ◌++◌,
  none, some, Bool-cases, inl, inr, false, ◌==◌, eqb→eq, eqb→ne, length,
}
use field_os.Pci.{
  Config, MsixInfo, config_read32, cap_id, next_cap, parse_msix, msix_walk, has_capabilities,
  caps_head, msix_info,
}

-- A capability as the PCI specification lays it out: the id in the first byte of its first dword, the
-- pointer to the next one in the second byte, whose two lowest bits are reserved, and 16 bits of its
-- own behind them.
pub record Capability : Type 0 where
  pub offset : ℕ
  pub id : ℕ
  pub reserved : ℕ
  pub control : ℕ

-- The pointer to a list of capabilities; 0 ends it.
abbrev pub pointer_to : List Capability → ℕ
pointer_to [] = 0
pointer_to (c ∷ cs) = c.offset

-- None of them is an MSI-X capability, which has the id 17.
abbrev pub NoneMsix : List Capability → Type 0
NoneMsix [] = Unit {0}
NoneMsix (c ∷ cs) = (c.id ≢ 17) × NoneMsix cs

module _ (cfg : Config) (bus dev func : ℕ) where
  -- The capabilities stand in the configuration space, behind its first 64 bytes, each with a pointer
  -- to the next; the three dwords of an MSI-X capability end within the 256 bytes.
  abbrev pub AreLaid : List Capability → Type 0
  AreLaid [] = Unit {0}
  AreLaid (c ∷ cs) =
      (64 ≤ c.offset)
      × (c.offset < 256)
      × (c.offset % 4 ≡ 0)
      × (c.id < 256)
      × (c.reserved < 4)
      × ((c.id ≢ 17) ⊎ (c.offset ≤ 244))
      × (config_read32 cfg bus dev func c.offset
          ≡ c.id + 256 * (pointer_to cs + c.reserved) + 65536 * c.control)
      × AreLaid cs

  -- What an MSI-X capability says: the lowest eleven bits of its control word are one less than the
  -- size of the table; the next two dwords give the table and the pending bits, each the number of a
  -- BAR in the lowest three bits and an offset in the others.
  pub record Says (c : Capability) (info : MsixInfo) : Type 0 where
    pub bdf : info.bdf ≡ record { bus = bus; dev = dev; func = func }
    pub cap_offset : info.cap_offset ≡ c.offset
    pub flags : ℕ
    pub size : c.control + 1 ≡ info.table_size + 2048 * flags
    pub size_pos : 0 < info.table_size
    pub size_most : info.table_size ≤ 2048
    pub table : config_read32 cfg bus dev func (c.offset + 4) ≡ info.table_offset + info.table_bar
    pub table_parts : (info.table_bar < 8) × (info.table_offset % 8 ≡ 0)
    pub pba : config_read32 cfg bus dev func (c.offset + 8) ≡ info.pba_offset + info.pba_bar
    pub pba_parts : (info.pba_bar < 8) × (info.pba_offset % 8 ≡ 0)

  -- The first MSI-X capability of `cs`, and what it says.
  pub record IsFirst (cs : List Capability) (info : MsixInfo) : Type 0 where
    pub before : List Capability
    pub c : Capability
    pub after : List Capability
    pub splits : cs ≡ before ++ c ∷ after
    pub none_before : NoneMsix before
    pub is_msix : c.id ≡ 17
    pub says : Says c info

  pointer_to-parts :
      (cs : List Capability) → AreLaid cs → (pointer_to cs < 256) × (pointer_to cs % 4 ≡ 0)
  pointer_to-parts [] laid = (omega arith, refl)
  pointer_to-parts (c ∷ cs) (far, small, aligned, id, low, room, e, rest) = (small, aligned)

  parse_msix-Says :
      (c : Capability) (cs : List Capability)
      → AreLaid (c ∷ cs)
      → c.id ≡ 17
      → Says c (parse_msix cfg bus dev func c.offset)
  unfolding parse_msix
  parse_msix-Says c cs (far, small, aligned, id, low, room, e, laid) is =
      let within : c.offset ≤ 244 = elim room [
        | inl other ↦ absurd (other is)
        | inr within ↦ within
      ] in
      let at4 : (c.offset + 4) % 256 ≡ c.offset + 4 = omega arith in
      let at8 : (c.offset + 8) % 256 ≡ c.offset + 8 = omega arith in
      let header = config_read32 cfg bus dev func c.offset in
      let (near, even) = pointer_to-parts cs laid in
      let control : header / 65536 ≡ c.control = omega (arith, e, near, even, id, low) in
      record {
        bdf = refl;
        cap_offset = refl;
        flags = c.control / 2048;
        size = omega (arith, control);
        size_pos = omega arith;
        size_most = omega arith;
        table = rw at4 (omega arith);
        table_parts = (omega arith, omega arith);
        pba = rw at8 (omega arith);
        pba_parts = (omega arith, omega arith);
      }

  msix_walk_lem :
      (rounds : ℕ) (cs : List Capability)
      → AreLaid cs
      → length cs ≤ rounds
      → (NoneMsix cs × (msix_walk rounds cfg bus dev func (pointer_to cs) ≡ none))
        ⊎ ((info : MsixInfo) × (msix_walk rounds cfg bus dev func (pointer_to cs) ≡ some info)
            × IsFirst cs info)
  unfolding msix_walk
  msix_walk_lem zero [] laid few = inl (tt, refl)
  msix_walk_lem (suc rounds) [] laid few = inl (tt, refl)
  msix_walk_lem zero (c ∷ cs) laid few = absurd (omega arith)
  msix_walk_lem (suc rounds) (c ∷ cs) (far, small, aligned, id, low, room, e, laid) few =
      let header = config_read32 cfg bus dev func c.offset in
      let (near, even) = pointer_to-parts cs laid in
      let more : (c.offset == 0) ≡ false = ground (arith, far) in
      let kind : cap_id header ≡ c.id = omega (arith, e, id) in
      let pointer : next_cap header ≡ pointer_to cs = omega (arith, e, near, even, id, low) in
      elim (Bool-cases (c.id == 17)) [
        | inl hit ↦ inr (
          parse_msix cfg bus dev func c.offset,
          rw (more, kind, hit) refl,
          record {
            before = [];
            c = c;
            after = cs;
            splits = refl;
            none_before = tt;
            is_msix = eqb→eq c.id 17 hit;
            says =
                parse_msix-Says c cs (far, small, aligned, id, low, room, e, laid)
                  (eqb→eq c.id 17 hit);
          },
        )
        | inr miss ↦ elim (msix_walk_lem rounds cs laid (omega arith)) [
          | inl (clear, none_there) ↦
              inl ((eqb→ne c.id 17 miss, clear), rw (more, kind, miss, pointer) none_there)
          | inr (info, found, first) ↦ inr (
            info,
            rw (more, kind, miss, pointer) found,
            record {
              before = c ∷ first.before;
              c = first.c;
              after = first.after;
              splits = ap (c ∷◌) first.splits;
              none_before = (eqb→ne c.id 17 miss, first.none_before);
              is_msix = first.is_msix;
              says = first.says;
            },
          )
        ]
      ]

  -- For a function whose capability pointer leads through the capabilities `cs`, at most 64 of them:
  -- `msix_info` returns `None` if bit 20 of the dword at 4 says that there is no list, or if none of
  -- `cs` is an MSI-X capability; and else what the first MSI-X capability says, field by field.
  pub msix_info_lem :
      (cs : List Capability) (reserved rest : ℕ)
      → AreLaid cs
      → length cs ≤ 64
      → reserved < 4
      → config_read32 cfg bus dev func 52 ≡ pointer_to cs + reserved + 256 * rest
      → ((config_read32 cfg bus dev func 4 / 1048576 % 2 ≡ 0) × (msix_info cfg bus dev func ≡ none))
        ⊎ (NoneMsix cs × (msix_info cfg bus dev func ≡ none))
        ⊎ ((config_read32 cfg bus dev func 4 / 1048576 % 2 ≡ 1)
            × (info : MsixInfo) × (msix_info cfg bus dev func ≡ some info)
            × IsFirst cs info)
  unfolding msix_info
  msix_info_lem cs reserved rest laid few low e =
      let (near, even) = pointer_to-parts cs laid in
      let head : caps_head (config_read32 cfg bus dev func 52) ≡ pointer_to cs =
        omega (arith, e, near, even, low) in
      elim (Bool-cases (has_capabilities (config_read32 cfg bus dev func 4))) [
        | inr off ↦ inl (ground arith, rw off refl)
        | inl on ↦ elim (msix_walk_lem 64 cs laid few) [
          | inl (clear, none_there) ↦ inr (inl (clear, rw (on, head) none_there))
          | inr (info, found, first) ↦ inr (inr (eqb→eq _ 1 on, info, rw (on, head) found, first))
        ]
      ]
