-- ===== src/LinuxVirtio/Probe.antt =====
-- `register_virtio_driver`: a driver is tried on every device that its table names.
use field_os.Prelude.{
  ℕ, ◌+◌, ◌^◌, bit_or, Bool, true, false, not, List, [], ◌∷◌, ◌++◌, Option, none, some, leb, ◌==◌,
  if◌then◌else◌, update,
}
use field_os.Prelude.Outcome.{Outcome, returned, panic, ◌>>=◌, add64}
use field_os.Irq.{Slots, alloc_slots, request_irq}
use field_os.Pci.{Config, config_read32, config_write32, bar_address, MsixInfo, msix_info}
use field_os.LinuxPci.Vectors.{Machine, write_entry, enabled}
use field_os.LinuxVirtio.{DeviceId, match_id_table, pci_to_virtio_id, walk_virtio_devices}
use field_os.LinuxVirtio.Features.{
  Common, fold_features, init_transport, reset_device, set_msix_config_vector,
}
use field_os.LinuxVirtio.Resolve.{Transport, try_resolve}

-- `virtio_device`, without the fields that are constant or opaque to the shim.
pub record Vdev : Type 0 where
  pub id_device : ℕ
  pub bus : ℕ
  pub pci_dev : ℕ
  pub func : ℕ
  pub transport : Transport
  pub features : ℕ

-- `ConfigChangedCtx`
pub record Ctx : Type 0 where
  pub driver : ℕ
  pub vdev : ℕ

-- What the bus and the drivers change: the machine, the COMMON_CFG registers by address, and the
-- boxes of devices and handler contexts, which are numbered as they are made.
pub record World : Type 0 where
  pub machine : Machine
  pub common : ℕ → Common
  pub vdevs : ℕ → Vdev
  pub next_vdev : ℕ
  pub ctxs : ℕ → Ctx
  pub next_ctx : ℕ
  pub registry : List ℕ

-- A callback takes a device's pointer and returns a C `int`, a 32-bit pattern.
abbrev pub Callback : Type 0
Callback = ℕ → World → ℕ × World

-- `virtio_driver` at an address. Of `config_changed` only its presence matters here.
pub record Driver : Type 0 where
  pub address : ℕ
  pub id_table : Option (ℕ → DeviceId)
  pub feature_table : Option (ℕ → ℕ)
  pub feature_table_size : ℕ
  pub config_changed : Bool
  pub validate : Option Callback
  pub probe : Option Callback

-- The answers of the devices, the vectors of the interrupt slots, the offset of the kernel's map,
-- the fuel of the walk over capabilities, and the handler's address are parameters.
module _ (respond : ℕ → ℕ → ℕ) (accepts : ℕ → ℕ → Bool) (echoes : ℕ → ℕ) (slot_idt_vector : ℕ → ℕ)
    (hhdm fuel dispatch : ℕ) where
  unfoldable pub set_config : Config → World → World
  set_config cfg w = record w { machine = record w.machine { config = cfg } }

  -- From the slot on: the table entry, the enable bit, the claim of entry 0, and the handler.
  unfoldable pub wire_slot : ℕ → ℕ → ℕ → ℕ → Driver → ℕ → MsixInfo → ℕ → World → Bool × World
  wire_slot bus dev func common drv vdev info slot w =
      let cfg = w.machine.config in
      let base = bar_address cfg bus dev func info.table_bar in
      let table = add64 (add64 base info.table_offset) hhdm in
      let cur = config_read32 cfg bus dev func info.cap_offset in
      let programmed = record w {
        machine = record w.machine {
          memory = write_entry slot_idt_vector table slot 0 w.machine.memory;
          config = config_write32 respond cfg bus dev func info.cap_offset (enabled cur);
        };
      } in
      let (echoed, c) = set_msix_config_vector echoes (w.common common) 0 in
      let claimed = record programmed { common = update w.common common c } in
      let (ok, irq) = request_irq w.machine.irq slot dispatch w.next_ctx in
      let wired = record claimed {
        ctxs = update w.ctxs w.next_ctx (record { driver = drv.address; vdev = vdev });
        next_ctx = w.next_ctx + 1;
        machine = record claimed.machine { irq = irq };
      } in
      if base == 0 then (false, w) else if not (echoed == 0) then (false, claimed) else (ok, wired)

  unfoldable pub with_slot :
      ℕ → ℕ → ℕ → ℕ → Driver → ℕ → MsixInfo → Option ℕ × Slots → World → Bool × World
  with_slot bus dev func common drv vdev info (none, irq) w =
      (false, record w { machine = record w.machine { irq = irq } })
  with_slot bus dev func common drv vdev info (some slot, irq) w =
      wire_slot bus dev func common drv vdev info slot
        (record w { machine = record w.machine { irq = irq } })

  unfoldable pub with_info : ℕ → ℕ → ℕ → ℕ → Driver → ℕ → Option MsixInfo → World → Bool × World
  with_info bus dev func common drv vdev none w = (false, w)
  with_info bus dev func common drv vdev (some info) w =
      if info.table_size == 0
      then (false, w)
      else with_slot bus dev func common drv vdev info (alloc_slots w.machine.irq 1) w

  unfoldable pub setup_config_changed_msix : ℕ → ℕ → ℕ → ℕ → Driver → ℕ → World → Bool × World
  setup_config_changed_msix bus dev func common drv vdev w =
      with_info bus dev func common drv vdev (msix_info w.machine.config bus dev func) w

  -- A refusal: the device is reset.
  unfoldable pub refuse : ℕ → World → World
  refuse at w = record w { common = update w.common at (reset_device accepts (w.common at)) }

  -- `rc < 0`.
  abbrev pub is_negative : ℕ → Bool
  is_negative rc = leb (2 ^ 31) rc

  unfoldable pub run_probe : Callback → ℕ → ℕ → World → World
  run_probe probe at vdev w =
      let (rc, w') = probe vdev w in if is_negative rc then refuse at w' else w'

  unfoldable pub run_validate : Option Callback → Callback → ℕ → ℕ → World → World
  run_validate none probe at vdev w = run_probe probe at vdev w
  run_validate (some validate) probe at vdev w =
      let (rc, w') = validate vdev w in if rc == 0 then run_probe probe at vdev w' else refuse at w'

  -- From the negotiation on: the box of the device, its interrupt, and the callbacks.
  unfoldable pub bind : Driver → Callback → Vdev → World → Outcome World
  bind drv probe v w =
      let at = v.transport.common_cfg in
      let mask = fold_features drv.feature_table drv.feature_table_size in
      init_transport accepts (w.common at) mask >>= (λ (features, c).
        let vdev = w.next_vdev in
        let boxed = record w {
          common = update w.common at c;
          vdevs = update w.vdevs vdev (record v { features = features });
          next_vdev = vdev + 1;
        } in
        let wired = setup_config_changed_msix v.bus v.pci_dev v.func at drv vdev boxed in
        let ready = if drv.config_changed then wired.1 else boxed in
        returned (run_validate drv.validate probe at vdev ready))

  -- A device whose driver matches; the outer option is the fuel's.
  unfoldable pub attach_with :
      Option Callback → Driver → ℕ → ℕ → ℕ → ℕ → World → Option (Outcome World)
  attach_with none drv bus dev func pci_device_id w = some (returned w)
  attach_with (some probe) drv bus dev func pci_device_id w =
      let cfg = w.machine.config in
      let cur = config_read32 cfg bus dev func 0x04 in
      let master = config_write32 respond cfg bus dev func 0x04 (bit_or cur (2 ^ 2)) in
      elim (try_resolve hhdm cfg bus dev func fuel pci_device_id) [
        | none ↦ none
        | some none ↦ some (returned w)
        | some (some t) ↦
            let v : Vdev = record {
              id_device = pci_to_virtio_id cfg bus dev func pci_device_id;
              bus = bus;
              pci_dev = dev;
              func = func;
              transport = t;
              features = 0;
            } in
            some (bind drv probe v (set_config master w))
      ]

  -- The closure that the walk calls.
  unfoldable pub attach : Driver → ℕ → ℕ → ℕ → ℕ → World → Option (Outcome World)
  attach drv bus dev func pci_device_id w =
      if match_id_table drv.id_table (pci_to_virtio_id w.machine.config bus dev func pci_device_id)
      then attach_with drv.probe drv bus dev func pci_device_id w
      else some (returned w)

  -- The state of the walk; after a panic nothing more is read.
  abbrev pub config_of : Option (Outcome World) → Config
  config_of (some (returned w)) = w.machine.config
  config_of (some panic) = λ _. 0xFFFFFFFF
  config_of none = λ _. 0xFFFFFFFF

  unfoldable pub attach_next :
      Driver → ℕ → ℕ → ℕ → ℕ → Option (Outcome World) → Option (Outcome World)
  attach_next drv bus dev func pci_device_id (some (returned w)) =
      attach drv bus dev func pci_device_id w
  attach_next drv bus dev func pci_device_id (some panic) = some panic
  attach_next drv bus dev func pci_device_id none = none

  unfoldable pub push_registry : Driver → Option (Outcome World) → Option (Outcome (Bool × World))
  push_registry drv (some (returned w)) =
      some (returned (true, record w { registry = w.registry ++ (drv.address ∷ []) }))
  push_registry drv (some panic) = some panic
  push_registry drv none = none

  -- Whether 0 was returned, and not -1; `none` is the null pointer.
  unfoldable pub register_virtio_driver : Option Driver → World → Option (Outcome (Bool × World))
  register_virtio_driver none w = some (returned (false, w))
  register_virtio_driver (some drv) w = push_registry drv (
      walk_virtio_devices {S = Option (Outcome World)} config_of (attach_next drv)
        (some (returned w)))
