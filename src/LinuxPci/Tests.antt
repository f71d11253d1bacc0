-- ===== src/LinuxPci/Tests.antt =====
-- The function 0:3.0 with an I/O BAR, a 32-bit BAR, two BARs that are not there and a 64-bit BAR.
use field_os.Prelude.{
  ℕ, ◌+◌, ◌^◌, ◌≡◌, refl, arith, List, [], ◌∷◌, none, some, ◌==◌, if◌then◌else◌, get_or,
}
use field_os.Pci.{config_address}
use field_os.Pci.Tests.{device_space}
use field_os.LinuxPci.{Found}
use field_os.LinuxPci.Bars.{PciDev, build_pci_dev, all_ones}
use field_os.LinuxPci.Bars.Sizing.{
  Bar, io, mem32, mem64, AreBars, addrs_of, lens_of, build_pci_dev_lem,
}
use field_os.LinuxPci.Vectors.{Machine, pci_alloc_irq_vectors}
use field_os.LinuxPci.Vectors.Alloc.{Outcome, pci_alloc_irq_vectors_lem}

abbrev found : Found
found = record {
  bus = 0;
  dev = 3;
  func = 0;
  vendor = 0x1AF4;
  device = 0x1041;
  class = 0;
  subsys_vendor = 0;
  subsys_device = 0;
}

abbrev answer : ℕ → ℕ → ℕ
answer a v =
    if v == all_ones
    then (if a == 0x80001814
        then 0xFFFFF000
        else if a == 0x80001820
        then 0xFFFFC004
        else if a == 0x80001824
        then all_ones
        else 0)
    else v

abbrev bars : List Bar
bars =
    io 0xC001
    ∷ (mem32 0xFEB00000 4096 0
        ∷ (mem32 0 (2 ^ 32) 0 ∷ (mem32 0 (2 ^ 32) 0 ∷ (mem64 0x8000FE000 16384 4 ∷ []))))

bars-AreBars : AreBars answer device_space 0 3 0 0 bars
unfolding config_address
bars-AreBars = (
  omega arith,
  (refl, refl),
  (
    omega arith,
    (refl, refl, omega arith, refl, omega arith, omega arith, omega arith, refl, (refl, refl)),
    (
      omega arith,
      (refl, refl, omega arith, refl, omega arith, omega arith, omega arith, refl, (refl, refl)),
      (
        omega arith,
        (refl, refl, omega arith, refl, omega arith, omega arith, omega arith, refl, (refl, refl)),
        (
          omega arith,
          (
            refl,
            refl,
            refl,
            omega arith,
            refl,
            refl,
            omega arith,
            omega arith,
            refl,
            (refl, refl),
            (refl, refl),
          ),
          refl,
        ),
      ),
    ),
  ),
)

build_pci_dev_lem_example :
    ((build_pci_dev answer device_space found).1 ≡ device_space)
    × ((bar : ℕ)
        → (build_pci_dev answer device_space found).0.bar_addr bar ≡ get_or (addrs_of bars) bar 0)
    × ((bar : ℕ)
        → (build_pci_dev answer device_space found).0.bar_len bar ≡ get_or (lens_of bars) bar 0)
build_pci_dev_lem_example = build_pci_dev_lem answer device_space found bars bars-AreBars

abbrev device : PciDev
device = record {
  found = found;
  bar_addr = λ _. 0;
  bar_len = λ _. 0;
  msix_first_slot = none;
  msix_vector_count = 0;
}

abbrev machine : Machine
machine = record {
  config = device_space;
  memory = λ _. 0;
  irq = record { slots = λ _. none; next_slot = 5 };
}

abbrev given : PciDev
given = record device { msix_first_slot = some 5; msix_vector_count = 3 }

pci_alloc_irq_vectors_lem_example :
    Outcome answer
      (λ s. 64 + s)
      (2 ^ 47)
      machine
      device
      1
      8
      4
      (pci_alloc_irq_vectors answer (λ s. 64 + s) (2 ^ 47) machine device 1 8 4)
pci_alloc_irq_vectors_lem_example =
    pci_alloc_irq_vectors_lem answer (λ s. 64 + s) (2 ^ 47) machine device 1 8 4 (omega arith)
      (omega arith)
