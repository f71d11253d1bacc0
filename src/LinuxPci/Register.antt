-- ===== src/LinuxPci/Register.antt =====
-- linuxkpi/src/pci.rs, `pci_register_driver`: a driver's probe is called for each function that it
-- matches.
use field_os.Prelude.{ℕ, Bool, true, false, List, Option, some, ◌==◌, if◌then◌else◌}
use field_os.Pci.{Config}
use field_os.LinuxPci.{Found, DeviceId, pci_walk, match_id_table, register}
use field_os.LinuxPci.Bars.{PciDev, build_pci_dev}

-- The state `S` has the configuration space and all that a probe changes. A probe gets the device
-- and the index of the entry that it matched; its result is not looked at.
module _ {S : Type 0} (config : S → Config) (set_config : Config → S → S) (respond : ℕ → ℕ → ℕ)
    (id_table : Option (ℕ → DeviceId)) where
  pub probe_device : Option ℕ → Option (PciDev → ℕ → S → S) → Found → S → S
  probe_device (some matched_id) (some probe_fn) d s =
      let (pdev, cfg) = build_pci_dev respond (config s) d in
      probe_fn pdev matched_id (set_config cfg s)
  probe_device matched_id probe d s = s

  -- Whether 0 is returned, the registry, and the state.
  pub pci_register_driver : Option (PciDev → ℕ → S → S) → ℕ → List ℕ → S → Bool × List ℕ × S
  pci_register_driver probe drv registry s = if drv == 0 then (false, registry, s) else (
    true,
    register registry drv,
    pci_walk config (λ d t. probe_device (match_id_table id_table d) probe d t) s,
  )
