-- ===== src/LinuxVirtio/Attach.antt =====
-- What becomes of a device that a driver is tried on.
use field_os.Prelude.{
  ℕ, ◌+◌, ◌^◌, ◌<◌, ◌≤◌, ◌≡◌, ◌≢◌, refl, sym, ap, ◌∙◌, arith, bit_or, Bool, true, false, ◌&&◌,
  Bool-cases, inl, inr, Option, none, some, ltb, leb, ◌==◌, if◌then◌else◌, update, update_self,
}
use field_os.Prelude.Digits.{digit}
use field_os.Prelude.Outcome.{returned}
use field_os.Irq.{Slots, alloc_slots}
use field_os.Pci.{config_read32, config_write32, bar_address, MsixInfo, msix_info}
use field_os.LinuxVirtio.{match_id_table, pci_to_virtio_id}
use field_os.LinuxVirtio.Features.{reset_device, virtio_has_feature, set_msix_config_vector}
use field_os.LinuxVirtio.Negotiated.{AcceptsOffers, claims, init_transport_lem}
use field_os.LinuxVirtio.Probe.{
  Vdev, World, Callback, Driver, setup_config_changed_msix, set_config, wire_slot, with_slot,
  with_info, refuse, run_probe, run_validate, bind, attach_with, attach,
}
use field_os.LinuxVirtio.Resolve.{Transport, try_resolve}

-- `validate`, if there is one, let the device `p` pass and led from the world `c` to `w`.
abbrev pub Readied : Option Callback → ℕ → World → World → Type 0
Readied none p c w = w ≡ c
Readied (some validate) p c w = validate p c ≡ (0, w)

-- The device with registers at `at` was reset in the world `w`, and no other was changed.
abbrev pub IsReset : ℕ → World → World → Type 0
IsReset at w w' =
    ((w'.common at).status ≡ 0) × ((w'.common at).driver_features ≡ 0) × (w'.vdevs ≡ w.vdevs)

-- From the world `c` before the callbacks to the end.
pub data Tried (validate : Option Callback) (probe : Callback) (at p : ℕ) (c : World)
    : World → Type 0 where
  bound :
      {w w' : World} {rc : ℕ}
      → Readied validate p c w
      → probe p w ≡ (rc, w')
      → rc < 2 ^ 31
      → Tried validate probe at p c w'
  declined :
      {w seen w' : World} {rc : ℕ}
      → Readied validate p c w
      → probe p w ≡ (rc, seen)
      → 2 ^ 31 ≤ rc
      → IsReset at seen w'
      → Tried validate probe at p c w'
  invalid :
      {callback : Callback} {seen w' : World} {rc : ℕ}
      → validate ≡ some callback
      → callback p c ≡ (rc, seen)
      → rc ≢ 0
      → IsReset at seen w'
      → Tried validate probe at p c w'

-- The boxes of the devices, and what the device at `at` was told.
abbrev Keeps : ℕ → World → World → Type 0
Keeps at w w' =
    (w'.vdevs ≡ w.vdevs)
    × ((w'.common at).status ≡ (w.common at).status)
    × ((w'.common at).driver_features ≡ (w.common at).driver_features)

-- What the callbacks see: the new box has the negotiated features, the device was told the same, and
-- the feature `f` is there exactly if the driver's table has it, or it is version 1, and the device
-- offers it.
pub record IsReady (drv : Driver) (t : Transport) (w c : World) (f : ℕ) : Type 0 where
  pub status : (c.common t.common_cfg).status ≡ 11
  pub told : (c.common t.common_cfg).driver_features ≡ (c.vdevs w.next_vdev).features
  pub transport : (c.vdevs w.next_vdev).transport ≡ t
  pub has : virtio_has_feature (c.vdevs w.next_vdev).features f ≡ (
      ltb f 64
      && (claims drv.feature_table drv.feature_table_size f
          && (digit (w.common t.common_cfg).offered f == 1)))

either-Keeps : (at : ℕ) (w w' : World) (b : Bool) → Keeps at w w' → Keeps at w (if b then w' else w)
either-Keeps at w w' true kept = kept
either-Keeps at w w' false kept = (refl, refl, refl)

module _ (respond : ℕ → ℕ → ℕ) (accepts : ℕ → ℕ → Bool) (echoes : ℕ → ℕ) (slot_idt_vector : ℕ → ℕ)
    (hhdm fuel dispatch : ℕ) where
  refuse-IsReset :
      (at : ℕ) (w : World)
      → IsReset at w (refuse respond accepts echoes slot_idt_vector hhdm fuel dispatch at w)
  unfolding refuse reset_device
  refuse-IsReset at w =
      let here = update_self w.common at (reset_device accepts (w.common at)) in
      rw here (refl, refl, refl)

  run_probe-Tried :
      (validate : Option Callback) (probe : Callback) (at p : ℕ) (c w : World)
      → Readied validate p c w
      → Tried validate probe at p c
          (run_probe respond accepts echoes slot_idt_vector hhdm fuel dispatch probe at p w)
  unfolding run_probe
  run_probe-Tried validate probe at p c w readied =
      let rc = (probe p w).0 in
      let w' = (probe p w).1 in
      elim (Bool-cases (leb (2 ^ 31) rc)) [
        | inl negative ↦ rw negative (declined readied refl (ground arith) (refuse-IsReset at w'))
        | inr fine ↦ rw fine (bound readied refl (ground arith))
      ]

  run_validate-Tried :
      (validate : Option Callback) (probe : Callback) (at p : ℕ) (c : World)
      → Tried validate probe at p c (
          run_validate respond accepts echoes slot_idt_vector hhdm fuel dispatch validate probe at p
            c)
  unfolding run_validate
  run_validate-Tried none probe at p c = run_probe-Tried none probe at p c c refl
  run_validate-Tried (some validate) probe at p c =
      let rc = (validate p c).0 in
      let w' = (validate p c).1 in
      elim (Bool-cases (rc == 0)) [
        | inl passed ↦
            let is : rc ≡ 0 = ground arith in
            rw passed (run_probe-Tried (some validate) probe at p c w' (ap (λ r. (r, w')) is))
        | inr failed ↦ rw failed (invalid refl refl (ground arith) (refuse-IsReset at w'))
      ]

  wire_slot-Keeps :
      (bus dev func at : ℕ) (drv : Driver) (p : ℕ) (info : MsixInfo) (slot : ℕ) (w : World)
      → Keeps at w
          (wire_slot respond accepts echoes slot_idt_vector hhdm fuel dispatch bus dev func at drv p
            info slot w).1
  unfolding wire_slot set_msix_config_vector
  wire_slot-Keeps bus dev func at drv p info slot w =
      let claimed = update_self w.common at (record (w.common at) { msix_config = echoes 0 }) in
      elim (Bool-cases (bar_address w.machine.config bus dev func info.table_bar == 0)) [
        | inl unmapped ↦ rw unmapped (refl, refl, refl)
        | inr mapped ↦ elim (Bool-cases (echoes 0 == 0)) [
          | inl echoed ↦ rw (mapped, echoed, claimed) (refl, refl, refl)
          | inr silent ↦ rw (mapped, silent, claimed) (refl, refl, refl)
        ]
      ]

  with_slot-Keeps :
      (bus dev func at : ℕ) (drv : Driver) (p : ℕ) (info : MsixInfo) (slot : Option ℕ) (irq : Slots)
      (w : World)
      → Keeps at w
          (with_slot respond accepts echoes slot_idt_vector hhdm fuel dispatch bus dev func at drv p
            info
            (slot, irq)
            w).1
  unfolding with_slot
  with_slot-Keeps bus dev func at drv p info none irq w = (refl, refl, refl)
  with_slot-Keeps bus dev func at drv p info (some slot) irq w =
      wire_slot-Keeps bus dev func at drv p info slot
        (record w { machine = record w.machine { irq = irq } })

  with_info-Keeps :
      (bus dev func at : ℕ) (drv : Driver) (p : ℕ) (info : Option MsixInfo) (w : World)
      → Keeps at w
          (with_info respond accepts echoes slot_idt_vector hhdm fuel dispatch bus dev func at drv p
            info w).1
  unfolding with_info
  with_info-Keeps bus dev func at drv p none w = (refl, refl, refl)
  with_info-Keeps bus dev func at drv p (some info) w = elim (Bool-cases (info.table_size == 0)) [
    | inl empty ↦ rw empty (refl, refl, refl)
    | inr large ↦
        let (slot, irq) = alloc_slots w.machine.irq 1 in
        rw large (with_slot-Keeps bus dev func at drv p info slot irq w)
  ]

  -- The world that the callbacks see, from the one with the new box.
  wired : Driver → ℕ → ℕ → ℕ → ℕ → ℕ → World → World
  wired drv bus dev func at p boxed =
      if drv.config_changed
      then (setup_config_changed_msix respond accepts echoes slot_idt_vector hhdm fuel dispatch bus
          dev func at drv p boxed).1
      else boxed

  wired-Keeps :
      (drv : Driver) (bus dev func at p : ℕ) (boxed : World)
      → Keeps at boxed (wired drv bus dev func at p boxed)
  unfolding wired setup_config_changed_msix
  wired-Keeps drv bus dev func at p boxed =
      either-Keeps at boxed _ drv.config_changed
        (with_info-Keeps bus dev func at drv p (msix_info boxed.machine.config bus dev func) boxed)

  -- A driver with a probe meets a device that its table names, whose registers are found with the
  -- fuel given, and which offers version 1, 64 bits at most, and accepts every part of its offer that
  -- has version 1. Then nothing panics. When the callbacks run, the device has FEATURES_OK and was
  -- told the features in the box of the new device, which has the registers found; a feature is
  -- there exactly if it is below 64, the driver's table names it or it is version 1, and the device
  -- offers it. `validate`, if there is one, runs first: if it does not return 0, the device is reset
  -- and `probe` does not run; if `probe` then returns a negative number, the device is reset.
  pub attach_lem :
      (drv : Driver) (probe : Callback) (t : Transport) (bus dev func id : ℕ) (w : World) (f : ℕ)
      → match_id_table drv.id_table (pci_to_virtio_id w.machine.config bus dev func id) ≡ true
      → drv.probe ≡ some probe
      → try_resolve hhdm w.machine.config bus dev func fuel id ≡ some (some t)
      → (w.common t.common_cfg).offered < 2 ^ 64
      → digit (w.common t.common_cfg).offered 32 ≡ 1
      → AcceptsOffers accepts (w.common t.common_cfg).offered
      → (c w' : World) × (attach respond accepts echoes slot_idt_vector hhdm fuel dispatch drv bus
            dev func id w
          ≡ some (returned w'))
        × IsReady drv t w c f
        × Tried drv.validate probe t.common_cfg w.next_vdev c w'
  unfolding attach attach_with bind set_config wired
  attach_lem drv probe t bus dev func id w f matches has found small version accepted =
      let at = t.common_cfg in
      let (features, cc, runs, status, told, sees, clears) =
        init_transport_lem accepts (w.common at) drv.feature_table drv.feature_table_size f 0 small
          version accepted in
      let cfg = w.machine.config in
      let v : Vdev = record {
        id_device = pci_to_virtio_id cfg bus dev func id;
        bus = bus;
        pci_dev = dev;
        func = func;
        transport = t;
        features = features;
      } in
      let master = bit_or (config_read32 cfg bus dev func 0x04) (2 ^ 2) in
      let boxed = record w {
        machine = record w.machine { config = config_write32 respond cfg bus dev func 0x04 master };
        common = update w.common at cc;
        vdevs = update w.vdevs w.next_vdev v;
        next_vdev = w.next_vdev + 1;
      } in
      let ready = wired drv bus dev func at w.next_vdev boxed in
      let (same_vdevs, same_status, same_told) =
        wired-Keeps drv bus dev func at w.next_vdev boxed in
      let box : ready.vdevs w.next_vdev ≡ v =
        ap (λ g. g w.next_vdev) same_vdevs ∙ update_self w.vdevs w.next_vdev v in
      let registers : boxed.common at ≡ cc = update_self w.common at cc in
      (
        ready,
        run_validate respond accepts echoes slot_idt_vector hhdm fuel dispatch drv.validate probe at
            w.next_vdev ready,
        rw matches (
            ap
              (λ p.
                attach_with respond accepts echoes slot_idt_vector hhdm fuel dispatch p drv bus dev
                  func id w)
              has
            ∙ rw (attach_with, found, runs) refl),
        record {
          status = same_status ∙ ap (λ r. r.status) registers ∙ status;
          told =
              same_told
              ∙ ap (λ r. r.driver_features) registers
              ∙ told
              ∙ sym (ap (λ b. b.features) box);
          transport = ap (λ b. b.transport) box;
          has = ap (λ b. virtio_has_feature b.features f) box ∙ sees;
        },
        run_validate-Tried drv.validate probe at w.next_vdev ready,
      )
