-- ===== src/Pci.antt =====
-- arsenal-kernel/src/pci.rs, the configuration space of the PCI functions.
-- The space is a function from the dword that goes to port CF8 to the dword that port CFC then
-- gives. Shifts and masks of a word are written as quotients and remainders.
pub mod Address
pub mod Capabilities
pub mod Tests
use field_os.Prelude.{
  ℕ, zero, suc, ◌+◌, ◌-◌, ◌*◌, ◌/◌, ◌%◌, ◌^◌, bit_or, Bool, true, false, Option, none, some, ltb,
  ◌==◌, if◌then◌else◌, update,
}
use field_os.Prelude.Loops.{for_range}

abbrev pub Config : Type 0
Config = ℕ → ℕ

-- The address dword: the enable bit, the bus, the device, the function and the register.
unfoldable pub config_address : ℕ → ℕ → ℕ → ℕ → ℕ
config_address bus dev func offset =
    bit_or (bit_or (bit_or (bit_or (2 ^ 31) (bus * 2 ^ 16)) (dev % 32 * 2 ^ 11)) (func % 8 * 2 ^ 8))
      (offset / 4 * 4)

abbrev pub config_read32 : Config → ℕ → ℕ → ℕ → ℕ → ℕ
config_read32 cfg bus dev func offset = cfg (config_address bus dev func offset)

-- What a register holds after a write is up to the device: `respond a v` is what it then gives at
-- the address `a` for the value `v`.
abbrev pub config_write32 : (ℕ → ℕ → ℕ) → Config → ℕ → ℕ → ℕ → ℕ → ℕ → Config
config_write32 respond cfg bus dev func offset val =
    let a = config_address bus dev func offset in update cfg a (respond a val)

pub record Bdf : Type 0 where
  pub bus : ℕ
  pub dev : ℕ
  pub func : ℕ

pub record MsixInfo : Type 0 where
  pub bdf : Bdf
  pub cap_offset : ℕ
  pub table_size : ℕ
  pub table_bar : ℕ
  pub table_offset : ℕ
  pub pba_bar : ℕ
  pub pba_offset : ℕ

abbrev pub msix_id : ℕ
msix_id = 0x11

-- The id and the next pointer of a capability's header.
abbrev pub cap_id : ℕ → ℕ
cap_id header = header % 2 ^ 8

abbrev pub next_cap : ℕ → ℕ
next_cap header = header / 2 ^ 8 % 2 ^ 8 / 4 * 4

-- The MSI-X capability at an offset.
pub parse_msix : Config → ℕ → ℕ → ℕ → ℕ → MsixInfo
parse_msix cfg bus dev func cap_offset =
    let header = config_read32 cfg bus dev func cap_offset in
    let table_dword = config_read32 cfg bus dev func ((cap_offset + 4) % 2 ^ 8) in
    let pba_dword = config_read32 cfg bus dev func ((cap_offset + 8) % 2 ^ 8) in
    record {
      bdf = record { bus = bus; dev = dev; func = func };
      cap_offset = cap_offset;
      table_size = header / 2 ^ 16 % 2 ^ 11 + 1;
      table_bar = table_dword % 8;
      table_offset = table_dword / 8 * 8;
      pba_bar = pba_dword % 8;
      pba_offset = pba_dword / 8 * 8;
    }

-- The loop of `msix_info`, with `rounds` to go.
pub msix_walk : ℕ → Config → ℕ → ℕ → ℕ → ℕ → Option MsixInfo
msix_walk zero cfg bus dev func cap_offset = none
msix_walk (suc rounds) cfg bus dev func cap_offset =
    let header = config_read32 cfg bus dev func cap_offset in
    let rest = msix_walk rounds cfg bus dev func (next_cap header) in
    if cap_offset == 0
    then none
    else if cap_id header == msix_id
    then some (parse_msix cfg bus dev func cap_offset)
    else rest

-- Bit 20 of the status and command dword says whether there are capabilities.
abbrev pub has_capabilities : ℕ → Bool
has_capabilities status_command = status_command / 2 ^ 20 % 2 == 1

abbrev pub caps_head : ℕ → ℕ
caps_head caps_ptr_dword = caps_ptr_dword % 2 ^ 8 / 4 * 4

pub msix_info : Config → ℕ → ℕ → ℕ → Option MsixInfo
msix_info cfg bus dev func =
    if has_capabilities (config_read32 cfg bus dev func 0x04)
    then msix_walk 64 cfg bus dev func (caps_head (config_read32 cfg bus dev func 0x34))
    else none

-- `lo & 0x01` and `(lo & 0x06) == 0x04`
abbrev pub is_io_bar : ℕ → Bool
is_io_bar lo = lo % 2 == 1

abbrev pub is_64bit : ℕ → Bool
is_64bit lo = lo / 2 % 4 == 2

unfoldable pub bar_address : Config → ℕ → ℕ → ℕ → ℕ → ℕ
bar_address cfg bus dev func bar =
    let lo = config_read32 cfg bus dev func (0x10 + bar * 4) in
    let hi = config_read32 cfg bus dev func (0x10 + (bar + 1) * 4) in
    if is_io_bar lo then 0 else if is_64bit lo then hi * 2 ^ 32 + lo / 16 * 16 else lo / 16 * 16

-- Whether a function is there, and what `print_function` returns: whether it is a virtio device.
abbrev pub vendor_of : ℕ → ℕ
vendor_of id = id % 2 ^ 16

abbrev pub is_absent : ℕ → Bool
is_absent id = vendor_of id == 0xFFFF

abbrev pub is_multi_function : ℕ → Bool
is_multi_function header_dword = header_dword / 2 ^ 16 % 2 ^ 8 / 2 ^ 7 == 1

abbrev pub count_if : Bool → ℕ → ℕ
count_if true n = n + 1
count_if false n = n

unfoldable pub print_function : Config → ℕ → ℕ → ℕ → Bool
print_function cfg bus dev func = vendor_of (config_read32 cfg bus dev func 0x00) == 0x1AF4

-- The loop over the functions 1 to 7 of a device; the state is the two counts.
unfoldable pub scan_func : Config → ℕ → ℕ → ℕ → ℕ × ℕ → ℕ × ℕ
scan_func cfg bus dev func (total, virtio) =
    if is_absent (config_read32 cfg bus dev func 0x00)
    then (total, virtio)
    else (total + 1, count_if (print_function cfg bus dev func) virtio)

unfoldable pub scan_device : Config → ℕ → ℕ → ℕ × ℕ
scan_device cfg bus dev =
    let first : ℕ × ℕ = (1, count_if (print_function cfg bus dev 0) 0) in
    if is_absent (config_read32 cfg bus dev 0 0x00)
    then (0, 0)
    else if is_multi_function (config_read32 cfg bus dev 0 0x0C)
    then for_range 7 1 (scan_func cfg bus dev) first
    else first

unfoldable pub add_counts : ℕ × ℕ → ℕ × ℕ → ℕ × ℕ
add_counts (total, virtio) (added_total, added_virtio) =
    (total + added_total, virtio + added_virtio)

unfoldable pub scan_bus : Config → ℕ → ℕ × ℕ → ℕ × ℕ
scan_bus cfg bus s = for_range 32 0 (λ dev t. add_counts t (scan_device cfg bus dev)) s

unfoldable pub scan : Config → ℕ × ℕ
scan cfg = for_range 256 0 (scan_bus cfg) (0, 0)
