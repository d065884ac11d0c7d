-- ===== src/Lib.antt =====
-- The Pinx kernel: a model of the parts of src/ that keep state and decide, and what holds of them.
--
-- The program is a kernel for x86-64 that Limine boots. `main.rs` sets up memory (`mm.rs`), the
-- interrupt tables, the other CPUs and the scheduler (`scheduler.rs`), then loads user programs
-- from an ext4 partition and runs them. Interrupt handlers call `keyboard::irq` and
-- `scheduler::schedule`; `crc.rs` serves the disk formats.
--
-- * Crc.antt models src/crc.rs: `build_table`, `update`, `crc32`, `crc32c`. A register is a number
--   below 2 ^ 32, the table a list of 256 of them. Crc/Linear has what shifting does to an xor,
--   Crc/Table the comparison with bitwise division, Crc/Detect changes of one byte.
-- * Keyboard.antt and Keyboard/ model src/keyboard.rs: the statics are the record `Keyboard`, the
--   array `KB_BUFFER` a function of its index. Keyboard/Scancodes has the tables, Keyboard/Irq the
--   handler `irq` with its three parts (after the 0xE0 prefix, a release, a make code). The
--   scancode that `inb` reads is an argument.
-- * Pmm.antt and Pmm/ model the physical memory manager of src/mm.rs: `BITMAP`, `BITMAP_ENTRIES`
--   and `ALLOC_HINT` are the record `Pmm`; Pmm/Init has `pmm_init` over the memory map of Limine.
--   A panic is `none`. The bitmap is a function from word indices; Pmm/Usable says which bits
--   `pmm_init` touches, Pmm/Placed which frames that leaves free, Pmm/Boot what
--   is then allocated. The mask of interrupts around each operation makes it one step.
-- * Heap.antt and Heap/ model the kernel heap of src/mm.rs: the headers are a function of their
--   address, `HEAP_HEAD` and `next` are addresses, 0 for null. Heap/Tiling has the list of blocks
--   and the live allocations that the headers stand for, Heap/Carve, Heap/Alloc, Heap/Merge and
--   Heap/Free what `kmalloc` and `kfree` do to them, Heap/Live both together.
-- * Vmm.antt and Vmm/ model the page tables of src/mm.rs: a table is known by its physical address,
--   which the code reaches through the HHDM, and new tables are frames of Pmm.antt. Vmm/Entry has
--   the bits of an entry, Vmm/Descend one level of the walk, Vmm/Map the walk and its leaf,
--   Vmm/Map/Unmap the way back.
-- * Scheduler.antt and Scheduler/ model src/scheduler.rs: `TASKS`, `IDLE`, `PERCPU` and
--   `INITIALIZED` are the record `Sched`, and a `*mut Task` is a `TaskPtr`. Each operation holds
--   the spinlock RUNQ from its first access to its last, so it is one step, and the CPU that runs
--   it is an argument. Scheduler/System has the histories, Scheduler/Sleep the wake-ups,
--   Scheduler/Race a step that comes between an operation and the `schedule` its caller must make,
--   with Scheduler/Chosen for that `schedule`.
--   Scheduler/Spawn has `spawn_user`, which takes a kernel stack from the heap before it locks RUNQ;
--   `fill_slot` of Scheduler/Ops is the part under the lock.
-- * User.antt and User/ model src/user.rs: the image of a program is the list of its bytes, memory
--   the page tables with the bytes of the frames by physical address. User/Header has the search
--   for the header, User/Spawn the way from a file to a task, with `spawn_user` of
--   src/scheduler.rs; the file that the file system returns is an argument.
-- * Syscall.antt and Syscall/ model src/syscall.rs: the statics that the calls reach are the record
--   `Kernel`. Syscall/Ranges, Syscall/Write and Syscall/Mmap are about the range check, `sys_write`
--   and `sys_mmap`; Syscall/Screen, Syscall/Events and Syscall/Spawn have the calls that reach the
--   framebuffer, the keyboard and the loader, Syscall/Dispatch the dispatch. An address that does
--   not resolve faults: the run panics. A call is one step.
-- * Block.antt models src/block.rs, Gpt.antt and Gpt/ model src/gpt.rs: `detect` in Gpt.antt,
--   partitions as block devices in Gpt/Window. The sectors that `ahci::read` returns are an
--   argument.
-- * Ext4.antt and Ext4/ model src/ext4.rs: a block is the list of its bytes, the device a parameter
--   (`Device`), and an operation takes a volume to an answer and the volume after it. Ext4/Codec
--   and Ext4/Roundtrip are about the fields of blocks, Ext4/Mount and Ext4/Mounted about `mount`,
--   Ext4/Inodes, Ext4/Extents and Ext4/Tree about inodes and their extent trees, Ext4/Reading about
--   `read_file`; Ext4/Entries, Ext4/Dirs, Ext4/Agree and Ext4/Rounds are about directories;
--   Ext4/Alloc and Ext4/Groups allocate, Ext4/Growing adds extents, and Ext4/Writing has
--   `write_file`, `add_dirent` and `create`.
-- * Prelude.antt and Prelude/ have what they share: numbers, Booleans, lists, and the bits of a
--   number, with `&`, `|`, `^` and `!` on them.
--
-- Machine words are natural numbers; a sum that may exceed 64 bits wraps in the model as it does
-- in a release build. The Makefile builds the development profile, in which such a sum panics;
-- where the wrap matters a theorem excludes it or names it. Loops over a fixed range are
-- structural recursions on the number of rounds left, so nothing runs out of fuel: `pick` and
-- `fill_slot` have 64 rounds, one for each slot, `pmm_alloc_page` one round for each word of the
-- bitmap. The loops of `kmalloc` and `coalesce` follow `next` pointers, and take fuel: one round
-- more than there are blocks is enough, so a heap of `n` bytes needs `n / 32 + 1` rounds. Code
-- that may panic or run out of rounds returns a `Run` (Prelude/Run); `map_segment` takes fuel, one
-- round for each page of the segment, and the other loops of the loader, the system calls and the
-- partition reader count their rounds. In the file system `map_block` takes fuel, one round for
-- each level of the extent tree, and the loops over a directory block have one round more than the
-- block has bytes.
--
-- Not modelled: device registers and port I/O (ahci.rs, apic.rs, pci.rs, io.rs, smp.rs, the 8042
-- commands of keyboard.rs), machine tables and assembly (gdt.rs, idt.rs, interrupts.rs, asm.rs,
-- exceptions.rs), drawing (terminal.rs, graphics.rs, font.rs), the shell, and the user programs.
-- Left out too are the mapping of the heap's pages in `kheap_init`, the TLB flush, the lock around
-- the one mounted volume (fs.rs), and the buffer that holds a program's image. The frames that the
-- scheduler builds on a new stack are arguments.
pub mod Prelude
pub mod Block
pub mod Crc
pub mod Ext4
pub mod Gpt
pub mod Heap
pub mod Keyboard
pub mod Pmm
pub mod Scheduler
pub mod Syscall
pub mod User
pub mod Vmm
