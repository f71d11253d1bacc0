-- ===== src/Pci/Address.antt =====
-- The address dword of a register.
use field_os.Prelude.{ℕ, ◌+◌, ◌*◌, ◌/◌, ◌%◌, ◌^◌, ◌<◌, ◌≡◌, refl, arith}
use field_os.Prelude.Bits.{bit_or_add}
use field_os.Pci.{config_address}

-- The fields do not meet, so that `|` adds them.
pub config_address_lem :
    (bus dev func offset : ℕ)
    → bus < 256
    → offset < 256
    → config_address bus dev func offset
      ≡ 2 ^ 31 + bus * 2 ^ 16 + dev % 32 * 2 ^ 11 + func % 8 * 2 ^ 8 + offset / 4 * 4
unfolding config_address
config_address_lem bus dev func offset b o =
    let with_bus = 2 ^ 31 + bus * 2 ^ 16 in
    let with_dev = with_bus + dev % 32 * 2 ^ 11 in
    let with_func = with_dev + func % 8 * 2 ^ 8 in
    rw
      (
        bit_or_add 31 1 (2 ^ 31) (bus * 2 ^ 16) (omega arith) (omega arith),
        bit_or_add 16 (2 ^ 15 + bus) with_bus (dev % 32 * 2 ^ 11) (omega arith) (omega arith),
        bit_or_add 11 (2 ^ 20 + bus * 32 + dev % 32) with_dev (func % 8 * 2 ^ 8) (omega arith)
            (omega arith),
        bit_or_add 8 (2 ^ 23 + bus * 256 + dev % 32 * 8 + func % 8) with_func (offset / 4 * 4)
            (omega arith) (omega arith),
      )
      refl

-- Two registers have the same address only if they are the same register of the same function.
pub config_address_inj :
    (bus dev func offset bus' dev' func' offset' : ℕ)
    → bus < 256
    → dev < 32
    → func < 8
    → offset < 256
    → bus' < 256
    → dev' < 32
    → func' < 8
    → offset' < 256
    → config_address bus dev func offset ≡ config_address bus' dev' func' offset'
    → (bus ≡ bus') × (dev ≡ dev') × (func ≡ func') × (offset / 4 ≡ offset' / 4)
config_address_inj bus dev func offset bus' dev' func' offset' b d f o b' d' f' o' e = omega (
  arith,
  config_address_lem bus dev func offset b o,
  config_address_lem bus' dev' func' offset' b' o',
)
