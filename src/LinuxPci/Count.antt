-- ===== src/LinuxPci/Count.antt =====
-- The kernel's scan and the shim's walk over the same configuration space.
use field_os.Prelude.{
  ℕ, ◌+◌, ◌≡◌, refl, sym, ap, ◌∙◌, arith, Bool-cases, inl, inr, List, [], ◌∷◌, ◌++◌, ◌==◌,
  if◌then◌else◌, length, length-append,
}
use field_os.Prelude.Loops.{for_range, for_range_view}
use field_os.Pci.{
  Config, config_read32, is_absent, is_multi_function, count_if, print_function, scan_func,
  scan_device, add_counts, scan_bus, scan,
}
use field_os.LinuxPci.{
  Found, found_at, visit_func, walk_func, walk_rest, walk_device, pci_walk, count_present,
}

-- The functions that the walk visits, in order.
unfoldable pub visited : Config → List Found
visited cfg = pci_walk {S = List Found} (λ _. cfg) (λ d ds. ds ++ d ∷ []) []

unfoldable pub virtio_count : List Found → ℕ
virtio_count [] = 0
virtio_count (d ∷ ds) = (if d.vendor == 0x1AF4 then 1 else 0) + virtio_count ds

pub virtio_count-append :
    (ds es : List Found) → virtio_count (ds ++ es) ≡ virtio_count ds + virtio_count es
unfolding virtio_count
virtio_count-append [] es = omega arith
virtio_count-append (d ∷ ds) es = omega (arith, virtio_count-append ds es)

abbrev counts : List Found → ℕ × ℕ
counts ds = (length ds, virtio_count ds)

-- Two closures that keep a view in step see the same walk.
module _ {S T : Type 0} (cfg : Config) (f : Found → S → S) (g : Found → T → T) (view : S → T)
    (keep : (d : Found) (s : S) → view (f d s) ≡ g d (view s)) where
  walk_func_view :
      (bus dev func : ℕ) (s : S)
      → view (walk_func (λ _. cfg) f bus dev func s) ≡ walk_func (λ _. cfg) g bus dev func (view s)
  unfolding walk_func visit_func
  walk_func_view bus dev func s =
      elim (Bool-cases (is_absent (config_read32 cfg bus dev func 0x00))) [
        | inl absent ↦ rw absent refl
        | inr there ↦ rw there (keep (found_at cfg bus dev func) s)
      ]

  walk_device_view :
      (bus dev : ℕ) (s : S)
      → view (walk_device (λ _. cfg) f bus dev s) ≡ walk_device (λ _. cfg) g bus dev (view s)
  unfolding walk_device walk_rest visit_func
  walk_device_view bus dev s =
      let first = f (found_at cfg bus dev 0) s in
      let rest =
        for_range_view view (walk_func (λ _. cfg) f bus dev) (walk_func (λ _. cfg) g bus dev)
          (walk_func_view bus dev) 7 1 first in
      let start = keep (found_at cfg bus dev 0) s in
      elim (Bool-cases (is_absent (config_read32 cfg bus dev 0 0x00))) [
        | inl absent ↦ rw absent refl
        | inr there ↦ elim (Bool-cases (is_multi_function (config_read32 cfg bus dev 0 0x0C))) [
          | inl multi ↦
              rw (there, multi) (rest ∙ ap (for_range 7 1 (walk_func (λ _. cfg) g bus dev)) start)
          | inr single ↦ rw (there, single) start
        ]
      ]

  pub pci_walk_view : (s : S) → view (pci_walk (λ _. cfg) f s) ≡ pci_walk (λ _. cfg) g (view s)
  unfolding pci_walk
  pci_walk_view s =
      for_range_view view (λ bus. for_range 32 0 (walk_device (λ _. cfg) f bus))
        (λ bus. for_range 32 0 (walk_device (λ _. cfg) g bus))
        (λ bus t.
          for_range_view view (walk_device (λ _. cfg) f bus) (walk_device (λ _. cfg) g bus)
            (walk_device_view bus) 32 0 t)
        256 0 s

module _ (cfg : Config) where
  abbrev collect : Found → List Found → List Found
  collect d ds = ds ++ d ∷ []

  abbrev same : List Found → Config
  same ds = cfg

  counts-collect :
      (bus dev func : ℕ) (ds : List Found)
      → counts (visit_func same collect bus dev func ds)
        ≡ (length ds + 1, count_if (print_function cfg bus dev func) (virtio_count ds))
  unfolding visit_func found_at print_function virtio_count
  counts-collect bus dev func ds = ground (
    arith,
    length-append ds (found_at cfg bus dev func ∷ []),
    virtio_count-append ds (found_at cfg bus dev func ∷ []),
  )

  counts-walk_func :
      (bus dev func : ℕ) (ds : List Found)
      → counts (walk_func same collect bus dev func ds) ≡ scan_func cfg bus dev func (counts ds)
  unfolding walk_func scan_func
  counts-walk_func bus dev func ds = ground (arith, counts-collect bus dev func ds)

  -- Counting on from earlier counts is counting afresh and adding.
  scan_func-add_counts :
      (bus dev func : ℕ) (t u : ℕ × ℕ)
      → add_counts t (scan_func cfg bus dev func u) ≡ scan_func cfg bus dev func (add_counts t u)
  unfolding scan_func add_counts
  scan_func-add_counts bus dev func t u = ground arith

  counts-walk_device :
      (bus dev : ℕ) (ds : List Found)
      → counts (walk_device same collect bus dev ds)
        ≡ add_counts (counts ds) (scan_device cfg bus dev)
  unfolding walk_device walk_rest scan_device
  counts-walk_device bus dev ds =
      let v = count_if (print_function cfg bus dev 0) 0 in
      let first : ℕ × ℕ = (1, v) in
      let start : counts (visit_func same collect bus dev 0 ds) ≡ add_counts (counts ds) first =
        counts-collect bus dev 0 ds ∙ (unfold add_counts in ground arith) in
      let shifted =
        for_range_view (add_counts (counts ds)) (scan_func cfg bus dev) (scan_func cfg bus dev)
          (λ func u. scan_func-add_counts bus dev func (counts ds) u) 7 1 first in
      let rest =
        for_range_view counts (walk_func same collect bus dev) (scan_func cfg bus dev)
          (λ func es. counts-walk_func bus dev func es) 7 1
          (visit_func same collect bus dev 0 ds) in
      elim (Bool-cases (is_absent (config_read32 cfg bus dev 0 0x00))) [
        | inl absent ↦ rw absent (unfold add_counts in ground arith)
        | inr there ↦ elim (Bool-cases (is_multi_function (config_read32 cfg bus dev 0 0x0C))) [
          | inl multi ↦
              rw (there, multi)
                (rest ∙ ap (for_range 7 1 (scan_func cfg bus dev)) start ∙ sym shifted)
          | inr single ↦ rw (there, single) start
        ]
      ]

  scan-counts : scan cfg ≡ counts (visited cfg)
  unfolding scan visited pci_walk scan_bus virtio_count
  scan-counts = sym (
      for_range_view counts (λ bus. for_range 32 0 (walk_device same collect bus)) (scan_bus cfg)
        (λ bus ds.
          for_range_view counts (walk_device same collect bus)
            (λ dev t. add_counts t (scan_device cfg bus dev)) (counts-walk_device bus) 32 0 ds)
        256 0 [])

  -- The boot log's scan counts what the shim's walk visits: as many functions, and as many virtio
  -- devices among them; and the shim's own count agrees.
  pub scan-visited :
      (scan cfg ≡ (length (visited cfg), virtio_count (visited cfg)))
      × (count_present cfg ≡ (scan cfg).0)
  unfolding visited count_present
  scan-visited =
      let one : (d : Found) (ds : List Found) → length (collect d ds) ≡ length ds + 1 =
        λ d ds. omega (arith, length-append ds (d ∷ [])) in
      (
        scan-counts,
        sym (pci_walk_view cfg collect (λ _ n. n + 1) length one [])
            ∙ ap (λ t. t.0) (sym scan-counts),
      )
