-- ===== src/LinuxVirtio/Tests.antt =====
-- A virtqueue of four descriptors of an inherited driver.
use field_os.Prelude.{
  some, ℕ, ◌+◌, ◌%◌, ◌≤◌, ◌<◌, ◌≡◌, ◌⊎◌, inl, inr, refl, arith, List, [], ◌∷◌, length, false, true,
  Option, ◌*◌, ◌==◌, ◌-◌, ◌/◌, ◌^◌, Bool, ◌&&◌, not, ltb, none, if◌then◌else◌,
}
use field_os.Prelude.Outcome.{returned}
use field_os.Pci.{Config, config_address, bar_address}
use field_os.Prelude.Digits.{digit}
use field_os.LinuxVirtio.{match_id_table, match_from, pci_to_virtio_id}
use field_os.LinuxVirtio.Features.{
  Common, fold_features, init_transport, virtio_has_feature, virtio_clear_bit,
}
use field_os.LinuxVirtio.Negotiated.{AcceptsOffers, claims, init_transport_lem}
use field_os.LinuxVirtio.Resolve.{Transport, unresolved, try_resolve, walk_caps, note_cap, cap_virt}
use field_os.LinuxVirtio.Probe.{World, Callback, Driver, attach}
use field_os.LinuxVirtio.Attach.{IsReady, Tried, attach_lem}
use field_os.LinuxVirtio.Setup.{Found, leading_zeros, pow2_at_most, virtio_find_vqs}
use field_os.LinuxVirtio.Setup.Ready.{AreReady, HasMissing, virtio_find_vqs_lem}
use field_os.Virtq.System.{complete}
use field_os.Virtq.Layout.{first-Holds, range}
use field_os.Virtq.Tests.{queue, answered, answered-Holds, answered_size}
use field_os.LinuxVirtio.Queue.{Scatterlist, ShimVirtqueue, vq_add}
use field_os.LinuxVirtio.Queue.Buffers.{Agrees}
use field_os.LinuxVirtio.Queue.Add.{Added, vq_add_lem}
use field_os.LinuxVirtio.Queue.Get.{Got, get_buf-Got}
use field_os.LinuxVirtio.Queue.Runs.{State, Run, here, add, use_chain, Conserves, Run-Conserves}

abbrev shim : ShimVirtqueue
shim = record { queue = queue; tokens = λ _. 0; queue_idx = 0; size = 4; num_free = 4 }

shim-Agrees : Agrees shim [] [] []
shim-Agrees = record {
  free = range 0 4;
  device = [];
  done = [];
  holds = first-Holds 4 (omega arith) (omega arith) refl;
  sized = refl;
  at_device = refl;
  at_driver = refl;
}

abbrev entry : Scatterlist
entry = record { page_link = 0; offset = 0; length = 64; dma_address = 0x30000; dma_length = 64 }

abbrev entries : List Scatterlist
entries = entry ∷ (entry ∷ [])

vq_add_lem_example :
    ((vq_add shim entries 7 2 ≡ returned (false, shim))
      × ((length entries ≡ 0) ⊎ (8 < length entries) ⊎ (4 < length entries)))
    ⊎ ((0 < length entries)
        × (length entries ≤ 8)
        × (length entries ≤ 4)
        × (vq' : ShimVirtqueue) × (vq_add shim entries 7 2 ≡ returned (true, vq'))
        × Added shim vq' entries 7 2 [] [] [])
vq_add_lem_example = vq_add_lem shim entries 7 2 [] [] [] shim-Agrees (omega arith)

-- The buffer with the token 7 was used.
abbrev used_shim : ShimVirtqueue
used_shim = record { queue = answered; tokens = λ _. 7; queue_idx = 0; size = 4; num_free = 2 }

used_shim-Agrees : Agrees used_shim [] [] (7 ∷ [])
used_shim-Agrees = record {
  free = 2 ∷ (3 ∷ []);
  device = [];
  done = (0 ∷ (1 ∷ [])) ∷ [];
  holds = answered-Holds;
  sized = answered_size;
  at_device = refl;
  at_driver = refl;
}

get_buf-Got_example : Got used_shim 7 [] [] []
get_buf-Got_example = get_buf-Got used_shim 7 [] [] [] used_shim-Agrees

accepted : (vq' : ShimVirtqueue) × (vq_add shim entries 7 2 ≡ returned (true, vq'))
accepted = elim (vq_add_lem shim entries 7 2 [] [] [] shim-Agrees (omega arith)) [
  | inl (e, why) ↦ absurd (ground (arith, why))
  | inr (pos, few, room, vq', e, more) ↦ (vq', e)
]

abbrev head : ℕ
head = accepted.0.queue.avail_ring (queue.avail_idx % 4)

abbrev start : State
start = record { vq = shim; heads = [] }

abbrev end : State
end = record {
  vq = record accepted.0 { queue = complete accepted.0.queue (record { id = head; len = 9 }) };
  heads = [];
}

added_and_used : Run start (7 ∷ []) [] end
added_and_used =
    use_chain [] [] (record { id = head; len = 9 }) (add entries 7 2 here (omega arith) accepted.1)
      refl refl

Run-Conserves_example : Conserves (7 ∷ []) [] [] [] end
Run-Conserves_example = Run-Conserves [] [] added_and_used shim-Agrees

-- Three queues, the second without a name; the device allows 256 and 10 entries in the others.
abbrev maxima : ℕ → ℕ
maxima i = if i == 0 then 256 else 10

abbrev frames : ℕ → ℕ
frames i = 0x7000 + i * 4096

virtio_find_vqs_lem_example :
    ((vqs : List (Option Found)) × (virtio_find_vqs maxima
          (λ i. some (frames i))
          (true ∷ (false ∷ (true ∷ [])))
        ≡ returned (true, vqs))
      × AreReady maxima frames 0 (true ∷ (false ∷ (true ∷ []))) vqs)
    ⊎ ((vqs : List (Option Found)) × (virtio_find_vqs maxima
            (λ i. some (frames i))
            (true ∷ (false ∷ (true ∷ [])))
          ≡ returned (false, vqs))
        × HasMissing maxima frames 0 (true ∷ (false ∷ (true ∷ []))))
virtio_find_vqs_lem_example = virtio_find_vqs_lem maxima frames true (false ∷ (true ∷ []))

sizes : (pow2_at_most 256 ≡ 128) × (pow2_at_most 10 ≡ 8) × (pow2_at_most 1 ≡ 1)
unfolding pow2_at_most leading_zeros
sizes = (refl, refl, refl)

-- A balloon with its capabilities, and a device that accepts what has version 1.
abbrev balloon_registers : ℕ → ℕ
balloon_registers r =
    if r == 0x00
    then 0x10451AF4
    else if r == 0x04
    then 0x00100006
    else if r == 0x10
    then 0xFE000000
    else if r == 0x34
    then 0x40
    else if r == 0x40
    then 0x01105009
    else if r == 0x50
    then 0x02146409
    else if r == 0x58
    then 0x3000
    else if r == 0x60
    then 4
    else if r == 0x64
    then 0x04107809
    else if r == 0x6C
    then 0x2000
    else if r == 0x78
    then 0x00020011
    else 0

abbrev balloon_space : Config
balloon_space a =
    if a / 256 * 256 == 0x80002000 then balloon_registers (a - 0x80002000) else 0xFFFFFFFF

abbrev balloon_transport : Transport
balloon_transport = record {
  common_cfg = 0xFE000000;
  notify_base = 0xFE003000;
  notify_off_multiplier = 4;
  isr = 0;
  device_cfg = 0xFE002000;
}

abbrev offering : Common
offering = record {
  status = 0;
  offered = 2 ^ 32 + 2 ^ 5 + 2;
  device_select = 0;
  driver_select = 0;
  driver_features = 0;
  msix_config = 0xFFFF;
}

abbrev accepts_version : ℕ → ℕ → Bool
accepts_version offered g = digit g 32 == 1

accepts_version-AcceptsOffers : AcceptsOffers accepts_version (2 ^ 32 + 2 ^ 5 + 2)
accepts_version-AcceptsOffers g part version = rw version refl

-- The driver knows the features 1 and 9.
abbrev known : Option (ℕ → ℕ)
known = some (λ i. if i == 0 then 1 else 9)

init_transport_lem_example :
    (features : ℕ) × (c' : Common) × (init_transport accepts_version offering
        (fold_features known 2)
      ≡ returned (features, c'))
    × (c'.status ≡ 11)
    × (c'.driver_features ≡ features)
    × (virtio_has_feature features 1
        ≡ (ltb 1 64 && (claims known 2 1 && (digit offering.offered 1 == 1))))
    × (virtio_has_feature (virtio_clear_bit features 5) 1
        ≡ (virtio_has_feature features 1 && not (5 == 1)))
init_transport_lem_example =
    init_transport_lem accepts_version offering known 2 1 5 (omega arith) refl
      accepts_version-AcceptsOffers

-- The probe declines.
abbrev declines : Callback
declines vdev w = (2 ^ 32 - 19, w)

abbrev balloon_driver : Driver
balloon_driver = record {
  address = 0x9000;
  id_table = some (λ i.
      if i == 0
      then record { device = 5; vendor = 0xFFFFFFFF }
      else record { device = 0; vendor = 0 });
  feature_table = known;
  feature_table_size = 2;
  config_changed = true;
  validate = some (λ vdev w. (0, w));
  probe = some declines;
}

abbrev booted : World
booted = record {
  machine = record {
    config = balloon_space;
    memory = λ _. 0;
    irq = record { slots = λ _. none; next_slot = 0 };
  };
  common = λ _. offering;
  vdevs = λ _. record {
    id_device = 0;
    bus = 0;
    pci_dev = 0;
    func = 0;
    transport = unresolved;
    features = 0;
  };
  next_vdev = 0;
  ctxs = λ _. record { driver = 0; vdev = 0 };
  next_ctx = 0;
  registry = [];
}

balloon_matches :
    match_id_table balloon_driver.id_table (pci_to_virtio_id balloon_space 0 4 0 0x1045) ≡ true
unfolding match_id_table match_from pci_to_virtio_id config_address
balloon_matches = refl

balloon_resolves : try_resolve 0 balloon_space 0 4 0 8 0x1045 ≡ some (some balloon_transport)
unfolding try_resolve walk_caps note_cap cap_virt bar_address config_address
balloon_resolves = refl

attach_lem_example :
    (c w' : World) × (attach
        (λ a v. v)
        accepts_version
        (λ v. v)
        (λ s. 0x40 + s)
        0
        8
        0xF000
        balloon_driver
        0
        4
        0
        0x1045
        booted
      ≡ some (returned w'))
    × IsReady balloon_driver balloon_transport booted c 1
    × Tried balloon_driver.validate declines 0xFE000000 0 c w'
attach_lem_example =
    attach_lem (λ a v. v) accepts_version (λ v. v) (λ s. 0x40 + s) 0 8 0xF000 balloon_driver
      declines balloon_transport 0 4 0 0x1045 booted 1 balloon_matches refl balloon_resolves
      (omega arith) refl accepts_version-AcceptsOffers
