-- ===== src/Pci/Tests.antt =====
-- The function 0:3.0 with a vendor capability at 40 and an MSI-X capability at 50.
use field_os.Prelude.{
  ℕ, ◌-◌, ◌*◌, ◌/◌, ◌≡◌, ◌⊎◌, inr, ◌%◌, refl, arith, [], ◌∷◌, none, some, ◌==◌, if◌then◌else◌,
}
use field_os.Pci.{
  Config, config_address, config_read32, MsixInfo, parse_msix, msix_walk, msix_info, bar_address,
}
use field_os.Pci.Capabilities.{Capability, NoneMsix, IsFirst, msix_info_lem}

abbrev pub registers : ℕ → ℕ
registers offset =
    if offset == 0x00
    then 0x10411AF4
    else if offset == 0x04
    then 0x00100003
    else if offset == 0x10
    then 0xC001
    else if offset == 0x14
    then 0xFEB00000
    else if offset == 0x20
    then 0xFE004
    else if offset == 0x24
    then 8
    else if offset == 0x34
    then 0x40
    else if offset == 0x40
    then 0x5009
    else if offset == 0x50
    then 0x00020011
    else if offset == 0x54
    then 0x1004
    else if offset == 0x58
    then 0x2004
    else 0

-- All other functions are absent.
abbrev pub device_space : Config
device_space a = if a / 256 * 256 == 0x80001800 then registers (a - 0x80001800) else 0xFFFFFFFF

abbrev vendor : Capability
vendor = record { offset = 0x40; id = 9; reserved = 0; control = 0 }

abbrev msix : Capability
msix = record { offset = 0x50; id = 17; reserved = 0; control = 2 }

msix_info_lem_example :
    ((config_read32 device_space 0 3 0 4 / 1048576 % 2 ≡ 0) × (msix_info device_space 0 3 0 ≡ none))
    ⊎ (NoneMsix (vendor ∷ (msix ∷ [])) × (msix_info device_space 0 3 0 ≡ none))
    ⊎ ((config_read32 device_space 0 3 0 4 / 1048576 % 2 ≡ 1)
        × (info : MsixInfo) × (msix_info device_space 0 3 0 ≡ some info)
        × IsFirst device_space 0 3 0 (vendor ∷ (msix ∷ [])) info)
unfolding config_address
msix_info_lem_example =
    msix_info_lem device_space 0 3 0 (vendor ∷ (msix ∷ [])) 0 0
      (
        omega arith,
        omega arith,
        refl,
        omega arith,
        omega arith,
        inr (omega arith),
        refl,
        (omega arith, omega arith, refl, omega arith, omega arith, inr (omega arith), refl, tt),
      )
      (omega arith) (omega arith) refl

finds_second : msix_info device_space 0 3 0 ≡ some (parse_msix device_space 0 3 0 0x50)
unfolding config_address msix_info msix_walk parse_msix
finds_second = refl

table_bar : bar_address device_space 0 3 0 4 ≡ 0x8000FE000
unfolding config_address bar_address
table_bar = refl
