-- ===== src/LinuxVirtio/Bridge.antt =====
-- arsenal-kernel/src/linuxkpi_bridge.rs: the kernel's virtqueue as the shim calls it. `none` is -1
-- from a push, and `false` from a pop.
use field_os.Prelude.{ℕ, List, Option, none, ltb, ◌==◌, ◌||◌, if◌then◌else◌, length}
use field_os.Prelude.Outcome.{Outcome, returned}
use field_os.Virtq.{Virtqueue, UsedElem, Part, push_descriptor, push_chain, pop_used}

abbrev pub linuxkpi_virtqueue_push_descriptor : Virtqueue → ℕ → ℕ → ℕ → Option ℕ × Virtqueue
linuxkpi_virtqueue_push_descriptor q addr len flags = push_descriptor q addr len flags

unfoldable pub linuxkpi_virtqueue_push_chain :
    Virtqueue → List Part → Outcome (Option ℕ × Virtqueue)
linuxkpi_virtqueue_push_chain q parts =
    if (length parts == 0) || ltb 8 (length parts) then returned (none, q) else push_chain q parts

-- The first argument is the fuel of the loop of `pop_used`.
abbrev pub linuxkpi_virtqueue_pop_used : ℕ → Virtqueue → Option (Option UsedElem × Virtqueue)
linuxkpi_virtqueue_pop_used fuel q = pop_used fuel q
