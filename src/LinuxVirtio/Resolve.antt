-- ===== src/LinuxVirtio/Resolve.antt =====
-- arsenal-kernel/src/virtio.rs, `try_resolve`: the registers of a virtio device, found through its
-- capabilities.
use field_os.Prelude.{
  ℕ, zero, suc, ◌+◌, ◌/◌, ◌%◌, ◌^◌, Bool, ◌&&◌, ◌||◌, Option, none, some, leb, ◌==◌, not,
  if◌then◌else◌,
}
use field_os.Prelude.Outcome.{add64}
use field_os.Pci.{
  Config, config_read32, bar_address, vendor_of, cap_id, next_cap, has_capabilities, caps_head,
}

-- `VirtioDevice`; an address 0 is the null pointer.
pub record Transport : Type 0 where
  pub common_cfg : ℕ
  pub notify_base : ℕ
  pub notify_off_multiplier : ℕ
  pub isr : ℕ
  pub device_cfg : ℕ

abbrev pub unresolved : Transport
unresolved = record {
  common_cfg = 0;
  notify_base = 0;
  notify_off_multiplier = 0;
  isr = 0;
  device_cfg = 0;
}

module _ (hhdm : ℕ) (cfg : Config) (bus dev func : ℕ) where
  -- A dword of the function; offsets are bytes, so they wrap.
  abbrev pub dword : ℕ → ℕ
  dword offset = config_read32 cfg bus dev func (offset % 2 ^ 8)

  -- The address in the kernel's map of what a capability describes. The mapping itself is left out.
  unfoldable pub cap_virt : ℕ → ℕ
  cap_virt cap =
      let bar_phys = bar_address cfg bus dev func (dword (cap + 4) % 2 ^ 8) in
      add64 (add64 bar_phys (dword (cap + 8))) hhdm

  -- The `match` on the type of a capability.
  unfoldable pub note_cap : ℕ → Transport → Transport
  unfolding cap_virt
  note_cap cap t =
      let cfg_type = dword cap / 2 ^ 24 % 2 ^ 8 in
      let virt = cap_virt cap in
      if cfg_type == 1
      then record t { common_cfg = virt }
      else if cfg_type == 2
      then record t { notify_base = virt; notify_off_multiplier = dword (cap + 16) }
      else if cfg_type == 3
      then record t { isr = virt }
      else if cfg_type == 4
      then record t { device_cfg = virt }
      else t

  abbrev pub is_virtio_cap : ℕ → Bool
  is_virtio_cap cap = (cap_id (dword cap) == 9) && leb 16 (dword cap / 2 ^ 16 % 2 ^ 8)

  -- The loop has no bound; `none` means that the fuel ran out.
  unfoldable pub walk_caps : ℕ → ℕ → Transport → Option Transport
  walk_caps zero cap t = none
  walk_caps (suc fuel) cap t =
      let t' = if is_virtio_cap cap then note_cap cap t else t in
      let rest = walk_caps fuel (next_cap (dword cap)) t' in if cap == 0 then some t else rest

  abbrev pub complete_only : Transport → Option Transport
  complete_only t =
      if (t.common_cfg == 0) || ((t.notify_base == 0) || (t.device_cfg == 0)) then none else some t

  -- The outer option is the fuel's.
  unfoldable pub try_resolve : ℕ → ℕ → Option (Option Transport)
  unfolding walk_caps
  try_resolve fuel want =
      let id = dword 0x00 in
      let walked = walk_caps fuel (caps_head (dword 0x34)) unresolved in
      if not (vendor_of id == 0x1AF4)
      then some none
      else if not (id / 2 ^ 16 % 2 ^ 16 == want)
      then some none
      else if not (has_capabilities (dword 0x04))
      then some none
      else elim walked [ none ↦ none | some t ↦ some (complete_only t) ]
