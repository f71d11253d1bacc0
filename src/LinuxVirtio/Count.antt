-- ===== src/LinuxVirtio/Count.antt =====
-- The kernel's scan and the two walks of the shim over the same configuration space.
use field_os.Prelude.{
  ℕ, ◌+◌, ◌≡◌, refl, sym, ap, ◌∙◌, arith, List, [], ◌∷◌, ◌++◌, ◌==◌, if◌then◌else◌, length,
}
use field_os.Pci.{Config, scan}
use field_os.LinuxPci
use field_os.LinuxPci.{Found, found_at, pci_walk}
use field_os.LinuxPci.Count.{
  visited, virtio_count, virtio_count-append, pci_walk_view, scan-visited,
}
use field_os.LinuxVirtio.{
  visit_func, walk_func, walk_rest, walk_device, walk_virtio_devices, count_present,
}

abbrev count_virtio : Found → ℕ → ℕ
count_virtio d n = if d.vendor == 0x1AF4 then n + 1 else n

module _ (cfg : Config) where
  -- The virtio walk is the PCI walk with the test of the vendor in the closure.
  walk-pci_walk :
      walk_virtio_devices {S = ℕ} (λ _. cfg) (λ _ _ _ _ n. n + 1) 0
      ≡ pci_walk {S = ℕ} (λ _. cfg) count_virtio 0
  unfolding walk_virtio_devices walk_device walk_rest walk_func visit_func LinuxPci.pci_walk
      LinuxPci.walk_device LinuxPci.walk_rest LinuxPci.walk_func LinuxPci.visit_func found_at
  walk-pci_walk = refl

  count_present-virtio_count : count_present cfg ≡ virtio_count (visited cfg)
  unfolding count_present visited virtio_count
  count_present-virtio_count =
      let one : (d : Found) (ds : List Found)
          → virtio_count (ds ++ d ∷ []) ≡ count_virtio d (virtio_count ds) =
        λ d ds. ground (arith, virtio_count-append ds (d ∷ [])) in
      walk-pci_walk
      ∙ sym (pci_walk_view cfg (λ d ds. ds ++ d ∷ []) count_virtio virtio_count one [])

  -- The three ways of counting agree: the boot log's scan counts the functions that the shim's PCI
  -- walk visits, and the virtio devices among them; the PCI bus counts as many functions, and the
  -- virtio bus as many virtio devices.
  pub scan-count_present :
      (scan cfg ≡ (length (visited cfg), virtio_count (visited cfg)))
      × (LinuxPci.count_present cfg ≡ (scan cfg).0)
      × (count_present cfg ≡ (scan cfg).1)
  scan-count_present =
      let counted = scan-visited cfg in
      (counted.0, counted.1, count_present-virtio_count ∙ sym (ap (λ t. t.1) counted.0))
