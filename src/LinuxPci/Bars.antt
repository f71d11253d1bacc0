-- ===== src/LinuxPci/Bars.antt =====
-- linuxkpi/src/pci.rs: the BARs of a device, their sizes, and what the driver asks of them.
pub mod Filled
pub mod Sizing
use field_os.Prelude.{
  ℕ, zero, suc, ◌+◌, ◌-◌, ◌*◌, ◌/◌, ◌%◌, ◌^◌, bit_or, Bool, true, false, ◌&&◌, ◌||◌, not, Option,
  none, some, ltb, leb, ◌==◌, if◌then◌else◌, update,
}
use field_os.Prelude.Outcome.{add64}
use field_os.Pci.{Config, config_read32, config_write32, bar_address, is_io_bar, is_64bit}
use field_os.LinuxPci.{Found}

-- The configuration space, and the arrays `bar_addr` and `bar_len` as functions of the BAR.
pub record Bars : Type 0 where
  pub config : Config
  pub bar_addr : ℕ → ℕ
  pub bar_len : ℕ → ℕ

abbrev pub all_ones : ℕ
all_ones = 0xFFFFFFFF

-- The length from the low half, and from both halves, of what a sizing write left.
abbrev pub len_of_low : ℕ → ℕ
len_of_low lo_size = (2 ^ 32 - 1 - lo_size) + 1

abbrev pub len_of_both : ℕ → ℕ → ℕ
len_of_both hi_size lo_size = (2 ^ 64 - 1 - (hi_size * 2 ^ 32 + lo_size) + 1) % 2 ^ 64

module _ (respond : ℕ → ℕ → ℕ) (bus dev func : ℕ) where
  -- Write all ones to a BAR's register, read it back, and restore it: what was read, and the space.
  pub probe_bar : Config → ℕ → ℕ × Config
  probe_bar cfg bar =
      let offset = 0x10 + bar * 4 in
      let orig = config_read32 cfg bus dev func offset in
      let probing = config_write32 respond cfg bus dev func offset all_ones in
      (
        config_read32 probing bus dev func offset,
        config_write32 respond probing bus dev func offset orig,
      )

  -- A round on a memory BAR of 64 bits, and on one of 32.
  pub size_64 : ℕ → Bars → Bars
  size_64 bar s =
      let (lo, cfg) = probe_bar s.config bar in
      let (hi_size, cfg') = probe_bar cfg (bar + 1) in
      record {
        config = cfg';
        bar_len = update s.bar_len bar (len_of_both hi_size (lo / 16 * 16));
        bar_addr = update s.bar_addr bar (bar_address cfg' bus dev func bar);
      }

  pub size_32 : ℕ → Bars → Bars
  size_32 bar s =
      let (lo, cfg) = probe_bar s.config bar in
      record {
        config = cfg;
        bar_len = update s.bar_len bar (len_of_low (lo / 16 * 16));
        bar_addr = update s.bar_addr bar (bar_address cfg bus dev func bar);
      }

  -- The loop of `build_pci_dev`; each round passes a BAR at the least, so that six are enough.
  pub size_bars : ℕ → ℕ → Bars → Bars
  size_bars zero bar s = s
  size_bars (suc rounds) bar s =
      let lo = config_read32 s.config bus dev func (0x10 + bar * 4) in
      let after_io = size_bars rounds (bar + 1) s in
      let after_64 = size_bars rounds (bar + 2) (size_64 bar s) in
      let after_32 = size_bars rounds (bar + 1) (size_32 bar s) in
      if not (ltb bar 6)
      then s
      else if is_io_bar lo
      then after_io
      else if is_64bit lo && ltb bar 5
      then after_64
      else after_32

-- `pci_dev`, without the driver's own pointer; the function's place is kept as its three numbers.
pub record PciDev : Type 0 where
  pub found : Found
  pub bar_addr : ℕ → ℕ
  pub bar_len : ℕ → ℕ
  pub msix_first_slot : Option ℕ
  pub msix_vector_count : ℕ

pub build_pci_dev : (ℕ → ℕ → ℕ) → Config → Found → PciDev × Config
build_pci_dev respond cfg d =
    let s =
      size_bars respond d.bus d.dev d.func 6 0
        (record { config = cfg; bar_addr = λ _. 0; bar_len = λ _. 0 }) in
    (
      record {
        found = d;
        bar_addr = s.bar_addr;
        bar_len = s.bar_len;
        msix_first_slot = none;
        msix_vector_count = 0;
      },
      s.config,
    )

-- The BAR numbers of a driver are signed; `none` is a negative one.
abbrev pub bar_or_zero : (ℕ → ℕ) → Option ℕ → ℕ
bar_or_zero values none = 0
bar_or_zero values (some bar) = if ltb bar 6 then values bar else 0

pub pci_resource_start : PciDev → Option ℕ → ℕ
pci_resource_start dev bar = bar_or_zero dev.bar_addr bar

pub pci_resource_len : PciDev → Option ℕ → ℕ
pci_resource_len dev bar = bar_or_zero dev.bar_len bar

-- The mapped range and the address that the driver gets; `none` is NULL.
pub pci_iomap : ℕ → PciDev → Option ℕ → ℕ → Option (ℕ × ℕ × ℕ)
pci_iomap hhdm dev bar max_len =
    let phys = pci_resource_start dev bar in
    let len = pci_resource_len dev bar in
    let map_len = if (max_len == 0) || ltb len max_len then len else max_len in
    if (phys == 0) || (len == 0) then none else some (phys, map_len, add64 phys hhdm)

-- The command register: bus mastering, and the memory and port spaces.
pub pci_set_master : (ℕ → ℕ → ℕ) → Config → Found → Config
pci_set_master respond cfg d =
    let cur = config_read32 cfg d.bus d.dev d.func 0x04 in
    config_write32 respond cfg d.bus d.dev d.func 0x04 (bit_or cur 4)

pub pci_enable_device : (ℕ → ℕ → ℕ) → Config → Found → Config
pci_enable_device respond cfg d =
    let cur = config_read32 cfg d.bus d.dev d.func 0x04 in
    config_write32 respond cfg d.bus d.dev d.func 0x04 (bit_or cur 3)
