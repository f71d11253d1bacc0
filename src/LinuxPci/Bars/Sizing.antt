-- ===== src/LinuxPci/Bars/Sizing.antt =====
-- Sizing the BARs of a device.
use mathlib.Core.Path.{fun_ext}
use field_os.Prelude.{
  ℕ, zero, suc, ◌+◌, ◌-◌, ◌*◌, ◌/◌, ◌%◌, ◌^◌, ◌≤◌, ◌<◌, ◌≡◌, ◌≢◌, refl, ap, ◌∙◌, arith, List, [],
  ◌∷◌, Bool-cases, inl, inr, true, false, ltb, ◌==◌, eqb→eq, update, update_self, update_ne, get_or,
}
use field_os.Pci.{Config, config_address, bar_address, is_io_bar, is_64bit}
use field_os.LinuxPci.{Found}
use field_os.LinuxPci.Bars.Filled.{filled, filled-cons, filled-pair, filled-zero, filled-nil}
use field_os.LinuxPci.Bars.{
  Bars, all_ones, len_of_low, len_of_both, probe_bar, size_64, size_32, size_bars, build_pci_dev,
}

-- What a device has in its BARs: an I/O range, or memory of a size at an address, with 32-bit or
-- 64-bit registers; `flags` are the four low bits.
pub data Bar : Type 0 where
  io : ℕ → Bar
  mem32 : ℕ → ℕ → ℕ → Bar
  mem64 : ℕ → ℕ → ℕ → Bar

abbrev pub slots : Bar → ℕ
slots (io v) = 1
slots (mem32 base size flags) = 1
slots (mem64 base size flags) = 2

module _ (respond : ℕ → ℕ → ℕ) (cfg : Config) (bus dev func : ℕ) where
  abbrev pub register : ℕ → ℕ
  register i = config_address bus dev func (0x10 + i * 4)

  -- Written with what it holds, a register keeps it; written with all ones, it gives the mask of
  -- the bits that the size leaves to software, and the flags.
  abbrev pub AnswersAt : ℕ → ℕ → Type 0
  AnswersAt i mask =
      (respond (register i) (cfg (register i)) ≡ cfg (register i))
      × (respond (register i) all_ones ≡ mask)

  abbrev pub IsBar : ℕ → Bar → Type 0
  IsBar i (io v) = (cfg (register i) ≡ v) × (v % 2 ≡ 1)
  IsBar i (mem32 base size flags) =
      (cfg (register i) ≡ base + flags)
      × (base % 16 ≡ 0)
      × (flags < 16)
      × (flags % 2 ≡ 0)
      × (flags / 2 % 4 ≢ 2)
      × (0 < size)
      × (size ≤ 2 ^ 32)
      × (size % 16 ≡ 0)
      × AnswersAt i (2 ^ 32 - size + flags)
  IsBar i (mem64 base size flags) =
      (cfg (register i) ≡ base % 2 ^ 32 + flags)
      × (cfg (register (i + 1)) ≡ base / 2 ^ 32)
      × (base % 16 ≡ 0)
      × (flags < 16)
      × (flags % 2 ≡ 0)
      × (flags / 2 % 4 ≡ 2)
      × (0 < size)
      × (size < 2 ^ 64)
      × (size % 16 ≡ 0)
      × AnswersAt i ((2 ^ 64 - size) % 2 ^ 32 + flags)
      × AnswersAt (i + 1) ((2 ^ 64 - size) / 2 ^ 32)

  -- The BARs stand one after the other and fill the six registers.
  abbrev pub AreBars : ℕ → List Bar → Type 0
  AreBars i [] = i ≡ 6
  AreBars i (b ∷ bs) = (i + slots b ≤ 6) × IsBar i b × AreBars (i + slots b) bs

slots_pos : (b : Bar) → 0 < slots b
slots_pos (io v) = omega arith
slots_pos (mem32 base size flags) = omega arith
slots_pos (mem64 base size flags) = omega arith

-- What the six entries of `bar_addr` and of `bar_len` are to be.
abbrev pub addrs_of : List Bar → List ℕ
addrs_of [] = []
addrs_of (io v ∷ bs) = 0 ∷ addrs_of bs
addrs_of (mem32 base size flags ∷ bs) = base ∷ addrs_of bs
addrs_of (mem64 base size flags ∷ bs) = base ∷ (0 ∷ addrs_of bs)

abbrev pub lens_of : List Bar → List ℕ
lens_of [] = []
lens_of (io v ∷ bs) = 0 ∷ lens_of bs
lens_of (mem32 base size flags ∷ bs) = size ∷ lens_of bs
lens_of (mem64 base size flags ∷ bs) = size ∷ (0 ∷ lens_of bs)

module _ (respond : ℕ → ℕ → ℕ) (cfg : Config) (bus dev func : ℕ) where
  -- A probe leaves the space as it was.
  probe_bar_lem :
      (i mask : ℕ)
      → AnswersAt respond cfg bus dev func i mask
      → probe_bar respond bus dev func cfg i ≡ (mask, cfg)
  unfolding probe_bar
  probe_bar_lem i mask (keeps, gives) =
      let a = register respond cfg bus dev func i in
      let back : update (update cfg a (respond a all_ones)) a (respond a (cfg a)) ≡ cfg =
        fun_ext (λ q. elim (Bool-cases (a == q)) [
          | inl h ↦ rw h (keeps ∙ ap cfg (eqb→eq a q h))
          | inr h ↦ rw h refl
        ]) in
      rw (back, update_self cfg a (respond a all_ones), gives) refl

  abbrev with_arrays : (ℕ → ℕ) → (ℕ → ℕ) → Bars
  with_arrays addr len = record { config = cfg; bar_addr = addr; bar_len = len }

  size_32_lem :
      (i base size flags : ℕ) (addr len : ℕ → ℕ)
      → IsBar respond cfg bus dev func i (mem32 base size flags)
      → size_32 respond bus dev func i (with_arrays addr len)
        ≡ with_arrays (update addr i base) (update len i size)
  unfolding size_32 bar_address
  size_32_lem i base size flags addr len
        (holds, aligned, low, even, kind, pos, fits, whole, answers) =
      let memory : is_io_bar (base + flags) ≡ false = ground arith in
      let narrow : is_64bit (base + flags) ≡ false = ground arith in
      let at : (base + flags) / 16 * 16 ≡ base = omega arith in
      let len' : len_of_low ((2 ^ 32 - size + flags) / 16 * 16) ≡ size = omega arith in
      rw (probe_bar_lem i (2 ^ 32 - size + flags) answers, holds, memory, narrow, at, len') refl

  size_64_lem :
      (i base size flags : ℕ) (addr len : ℕ → ℕ)
      → IsBar respond cfg bus dev func i (mem64 base size flags)
      → size_64 respond bus dev func i (with_arrays addr len)
        ≡ with_arrays (update addr i base) (update len i size)
  unfolding size_64 bar_address
  size_64_lem i base size flags addr len
        (holds, high, aligned, low, even, kind, pos, fits, whole, answers, answers') =
      let lo = base % 2 ^ 32 + flags in
      let memory : is_io_bar lo ≡ false = ground arith in
      let wide : is_64bit lo ≡ true = ground arith in
      let at : base / 2 ^ 32 * 2 ^ 32 + lo / 16 * 16 ≡ base = omega arith in
      let mask = 2 ^ 64 - size in
      let len' : len_of_both (mask / 2 ^ 32) ((mask % 2 ^ 32 + flags) / 16 * 16) ≡ size =
        omega arith in
      rw
        (
          probe_bar_lem i (mask % 2 ^ 32 + flags) answers,
          probe_bar_lem (i + 1) (mask / 2 ^ 32) answers',
          holds,
          high,
          memory,
          wide,
          at,
          len',
        )
        refl

  -- The loop from the register `i` on, where the arrays hold nothing yet.
  size_bars_lem :
      (bs : List Bar) (i rounds : ℕ) (addr len : ℕ → ℕ)
      → AreBars respond cfg bus dev func i bs
      → 6 ≤ i + rounds
      → ((k : ℕ) → i ≤ k → addr k ≡ 0)
      → ((k : ℕ) → i ≤ k → len k ≡ 0)
      → size_bars respond bus dev func rounds i (with_arrays addr len)
        ≡ with_arrays (filled addr i (addrs_of bs)) (filled len i (lens_of bs))
  unfolding size_bars
  size_bars_lem [] i zero addr len e enough za zl =
      rw (filled-nil addr i za, filled-nil len i zl) refl
  size_bars_lem [] i (suc rounds) addr len e enough za zl =
      let done : ltb i 6 ≡ false = ground arith in
      rw (filled-nil addr i za, filled-nil len i zl, done) refl
  size_bars_lem (b ∷ bs) i zero addr len (fits, bar, rest) enough za zl =
      absurd (omega (arith, slots_pos b))
  size_bars_lem (io v ∷ bs) i (suc rounds) addr len (fits, bar, rest) enough za zl =
      let more : ltb i 6 ≡ true = ground arith in
      let ports : is_io_bar (cfg (register respond cfg bus dev func i)) ≡ true = ground arith in
      let go =
        size_bars_lem bs (i + 1) rounds addr len rest (omega arith) (λ k h. za k (omega arith))
          (λ k h. zl k (omega arith)) in
      rw
        (
          more,
          ports,
          ← filled-cons addr addr i 0 (addrs_of bs) (λ k h. refl) (za i (omega arith)),
          ← filled-cons len len i 0 (lens_of bs) (λ k h. refl) (zl i (omega arith)),
        )
        go
  size_bars_lem (mem32 base size flags ∷ bs) i (suc rounds) addr len (fits, bar, rest) enough za
        zl =
      let more : ltb i 6 ≡ true = ground arith in
      let memory : is_io_bar (base + flags) ≡ false = ground arith in
      let narrow : is_64bit (base + flags) ≡ false = ground arith in
      let addr' = update addr i base in
      let len' = update len i size in
      let go =
        size_bars_lem bs (i + 1) rounds addr' len' rest (omega arith)
          (λ k h. update_ne addr i k base (λ e. omega arith) ∙ za k (omega arith))
          (λ k h. update_ne len i k size (λ e. omega arith) ∙ zl k (omega arith)) in
      rw
        (
          more,
          bar.0,
          memory,
          narrow,
          size_32_lem i base size flags addr len bar,
          ← filled-cons addr addr' i base (addrs_of bs)
              (λ k h. update_ne addr i k base (λ e. omega arith)) (update_self addr i base),
          ← filled-cons len len' i size (lens_of bs)
              (λ k h. update_ne len i k size (λ e. omega arith)) (update_self len i size),
        )
        go
  size_bars_lem (mem64 base size flags ∷ bs) i (suc rounds) addr len (fits, bar, rest) enough za
        zl =
      let more : ltb i 6 ≡ true = ground arith in
      let lo = base % 2 ^ 32 + flags in
      let memory : is_io_bar lo ≡ false = ground arith in
      let wide : is_64bit lo ≡ true = ground arith in
      let room : ltb i 5 ≡ true = ground arith in
      let addr' = update addr i base in
      let len' = update len i size in
      let go =
        size_bars_lem bs (i + 2) rounds addr' len' rest (omega arith)
          (λ k h. update_ne addr i k base (λ e. omega arith) ∙ za k (omega arith))
          (λ k h. update_ne len i k size (λ e. omega arith) ∙ zl k (omega arith)) in
      rw
        (
          more,
          bar.0,
          memory,
          wide,
          room,
          size_64_lem i base size flags addr len bar,
          ← filled-pair addr i base (addrs_of bs) za,
          ← filled-pair len i size (lens_of bs) zl,
        )
        go

-- On a device with the BARs `bs`, `build_pci_dev` gives each memory BAR its address and its size and
-- each I/O BAR, and each upper half, 0 and 0, and it leaves the configuration space as it was.
pub build_pci_dev_lem :
    (respond : ℕ → ℕ → ℕ) (cfg : Config) (d : Found) (bs : List Bar)
    → AreBars respond cfg d.bus d.dev d.func 0 bs
    → ((build_pci_dev respond cfg d).1 ≡ cfg)
      × ((bar : ℕ) → (build_pci_dev respond cfg d).0.bar_addr bar ≡ get_or (addrs_of bs) bar 0)
      × ((bar : ℕ) → (build_pci_dev respond cfg d).0.bar_len bar ≡ get_or (lens_of bs) bar 0)
unfolding build_pci_dev
build_pci_dev_lem respond cfg d bs bars =
    let sized =
      size_bars_lem respond cfg d.bus d.dev d.func bs 0 6 (λ _. 0) (λ _. 0) bars (omega arith)
        (λ k h. refl) (λ k h. refl) in
    rw sized (
      refl,
      λ bar. filled-zero (λ _. 0) (addrs_of bs) bar,
      λ bar. filled-zero (λ _. 0) (lens_of bs) bar,
    )
