-- ===== src/Lib.antt =====
-- Arsenal, the kernel of fieldOS (arsenal-kernel/ and linuxkpi/): the models of its parts and their
-- proofs.
--
-- Prelude: shared names, Boolean tests, lists over native numbers, bit operations, and the outcome
-- of code that can panic. Machine integers are native numbers; additions and subtractions that can
-- wrap are written with add64, sub64 and add16, which wrap as a release build does.
--
-- Frames: arsenal-kernel/src/frames.rs, the stack of free physical frames. `FrameAllocator` is the
-- struct with its `Vec` as a list, the top of the stack first; `new`, `add_region`, `alloc_frame`,
-- `free_frame`, `free_count`, `init` and `reclaim_bootloader` are the functions of these names.
-- The frame and address types of the x86_64 crate are the parameter `FrameApi`. The spinlock is
-- left out: each operation takes it once and holds it throughout.
--
-- Virtq: the struct `Virtqueue` of arsenal-kernel/src/virtio.rs: `new`, `push_descriptor`,
-- `push_chain`, `pop_used`. The three areas of the backing frame are functions of an index, and
-- `new` takes the frame that the allocator gave as an argument. The loop of `pop_used` is on fuel;
-- a queue's size is enough, since a chain has no descriptor twice. Virtq/System has the device as
-- the other side of a step relation: it puts the chains that it was given into the used ring, in
-- any order. The PCI transport of that file is not modelled.
--
-- Kbd: arsenal-kernel/src/kbd.rs. `decode_scancode` with its statics as a record, `ring_push`,
-- `ring_pop`, `inject`, `keyboard_handler`. Kbd/Keys says what a stream of scancodes means without
-- a decoder's state. Kbd/Interleaving takes `ring_push` and `ring_pop` apart into their atomic
-- accesses, one producer and one consumer, in any order; an access of an atomic is taken at once
-- for both sides, which the acquire and release orderings of the code allow. Kbd/Race is about the
-- second producer.
--
-- Acpi: arsenal-kernel/src/acpi.rs, `init` with its walk over the (X|R)SDT and the MADT,
-- `irq_override` and the `read_` functions over a memory of bytes. The loop over the entries is on
-- fuel; a round passes at least two bytes, so the length of the table is enough.
--
-- Sched: arsenal-kernel/src/sched.rs, `spawn`, `yield_now`, `preempt` and `init` on the fields of
-- `CpuLocal` (arsenal-kernel/src/cpu.rs), and `timer_handler` of arsenal-kernel/src/apic.rs. Each
-- runs with interrupts off, so it is one step; the switch of the stacks is assembly.
--
-- Workqueue: linuxkpi/src/workqueue.rs. `Works` has the state and the function of every item and
-- the queue PENDING; `linuxkpi_work_init`, `queue_work`, `cancel_work` and `drain_one` are the
-- operations, `drain_one` in two parts, since the item's function runs between them.
--
-- Irq: linuxkpi/src/irq.rs, the slot table: `alloc_slots`, `request_irq`, `free_irq` and
-- `dispatch_common`, whose result is the call that it makes.
--
-- Pci: arsenal-kernel/src/pci.rs. The configuration space is a function from address dwords to
-- dwords; what a write leaves is a parameter, since the device decides it. The walk over the
-- capabilities has the 64 rounds of the source.
--
-- LinuxPci: linuxkpi/src/pci.rs, which reads the same space through the kernel's functions. LinuxPci
-- has `pci_walk` and `match_id_table`; LinuxPci.Register `pci_register_driver`; LinuxPci.Bars
-- `build_pci_dev` and the resource functions; LinuxPci.Vectors the MSI-X vectors, over the slots of
-- Irq, with the vector of each slot as a parameter. Each round over the BARs passes one at least, so
-- the six rounds given are enough.
--
-- LinuxVirtio: linuxkpi/src/virtio.rs. LinuxVirtio has `walk_virtio_devices` and `match_id_table`;
-- LinuxVirtio.Bridge the queue functions of arsenal-kernel/src/linuxkpi_bridge.rs; LinuxVirtio.Setup
-- `virtio_find_vqs`, over `Virtqueue::new` and `activate_queue`; LinuxVirtio.Queue `vq_add` and
-- `virtqueue_get_buf`, over Virtq. A token, a driver's pointer, is a number. What the size register
-- of a queue says does not change while the queue is set up; the index of a queue is cut to 16 bits,
-- as the source does.
--
-- LinuxVirtio.Features, LinuxVirtio.Resolve and LinuxVirtio.Probe have the registration of a driver:
-- `linuxkpi_virtio_init_transport` of the bridge against the registers of a device, `try_resolve` of
-- arsenal-kernel/src/virtio.rs, and `register_virtio_driver` with `setup_config_changed_msix`. Which
-- features a device accepts, what it echoes, and the callbacks of the driver are parameters. The walk
-- over the capabilities has no bound in the source, so its fuel is a parameter; one round more than
-- the capabilities of a device is enough. Offsets in a capability wrap at a byte, as in a release
-- build, and the mapping of a register into the page tables is left out. LinuxVirtio.Negotiated has
-- the negotiated features bit by bit, with Prelude.Digits, and LinuxVirtio.Attach the registration.
--
-- In LinuxPci and LinuxVirtio the pointers that the code tests for null are there: the functions
-- return before any effect when one is null.
--
-- Nvme: arsenal-kernel/src/nvme.rs, `submit_qe` and `poll_qe` on an `NvmeQueue`. The memory of the
-- completion queue is a function of the round of polling, since the controller writes it; the limit
-- of the rounds is the source's. Nvme.Device is the controller, and a driver that runs commands one
-- after the other, as the kernel does. `queue_mut` is left out: the queue is there. Nvme.Admin is
-- `setup_admin`; what CSTS gives in each round of a wait is a parameter.
--
-- ListHead: linuxkpi/src/list.rs, all functions. A store has the two fields of every address.
--
-- Pages: linuxkpi/src/page.rs, `alloc_pages` and `put_page` over allocators that are parameters, and
-- the list of a balloon over ListHead.
--
-- Xhci: arsenal-kernel/src/xhci.rs. Xhci has the command ring, the event ring and control transfers;
-- Xhci.Hid the keyboard, `HidState`; Xhci.Descriptors the walks over a configuration. The memory of
-- the event ring is a function of the number of reads, since the controller writes it; `try_event`
-- has the ring as it is at its first read and at its second. The loop of
-- `next_event` has the source's limit; `wait_command` and `wait_transfer` have fuel, one more than
-- the events that they drain; `service` has fuel, one more than the events that are pending; the
-- walks have fuel, one more than the bytes, since each round passes two bytes at least. Xhci.EventRing
-- and Xhci.Rearm have the controller's side of the event ring and of the keyboard's transfer ring,
-- Xhci.Control its reading of a control transfer, Xhci.Trees the descriptors as a list, and
-- Xhci.Layout the keys of the characters.
--
-- Slab: linuxkpi/src/slab.rs, all functions, over a global allocator that is a parameter.
-- Slab.Operations states its contract, that of `GlobalAlloc`; Slab.Layouts relates what the allocator
-- has given out to what a driver holds. The headers stand apart from the bytes of the payloads, since
-- a driver writes no bytes but those of its payloads.
--
-- Console: arsenal-kernel/src/fb.rs, the framebuffer and the console on it. The memory is a function
-- from the number of a pixel, and the table of the font is a parameter. Console.Text is text on paper
-- that does not scroll, and Console.Screen what the screen shows of it; Console.Paint and
-- Console.Pixels have the pixels after a painting loop. The rows of Console.Screen are those of a
-- height that is a multiple of 16: on another the rows shift against each other at the first scroll.
--
-- Shell: arsenal-kernel/src/shell.rs, the loop of `run` over the bytes that the keyboard gives, as the
-- events that it makes, and `dispatch`. Shell.Lines has the meaning of typed bytes and a terminal.
--
-- Not modelled: the interrupt controllers, the page tables, the boot sequence, the drivers of the
-- virtio devices, the output of the shell's commands, the rest of the LinuxKPI shim (its DMA
-- functions and its locks), and the vendored code (boot loader, Linux driver, font).
pub mod Prelude
pub mod Acpi
pub mod Console
pub mod Frames
pub mod Irq
pub mod Kbd
pub mod LinuxPci
pub mod LinuxVirtio
pub mod ListHead
pub mod Nvme
pub mod Pages
pub mod Pci
pub mod Sched
pub mod Shell
pub mod Slab
pub mod Virtq
pub mod Workqueue
pub mod Xhci
