-- ===== src/Lib.antt =====
-- YOTOS, a 32-bit x86 kernel in C: a model of its allocators, its file system and its drivers.
--
-- The program's parts and the files that model them (C paths from the repository's root):
--   * kernel/pmm.c, the bitmap of physical frames: Pmm. Its static variables are the record `Pmm`;
--     `pmmngr_f` is `f`. kernel/kernel.c reserves the first 4 MiB: `deinit_special_regions`.
--   * kernel/kheap.c, the kernel heap: Kheap. Headers lie in a store from addresses to headers.
--     Kheap/Calloc has kcalloc and the pages of kheap_init; Kheap/Blocks and Kheap/Live are the
--     specification, on lists of blocks and of allocations.
--   * klibc/string.c and klibc/stdio.c: Klibc. A C string is the list of its bytes.
--   * include/vfs.h and fs/vfs.c: Vfs, the nodes that the file system hands out, and Vfs/Mounts, the
--     mount table and the walk of `vfs_open`, and Vfs/Dispatch, the other calls, over interfaces of a
--     file system. Handles is the record of open nodes with which the walk and the shell are specified.
--   * shell/shell.c: Shell, the line that is typed and its split into a command and an argument.
--   * shell/builtins.c: Shell/Paths, the helpers on paths, and Shell/Builtins, the commands over an
--     interface of what they call (`System`), a file for each group of commands; Shell/Builtins/Table
--     is the table of commands with the line that is run. Shell/Builtins/Handles keeps a record of
--     the nodes and processes that are open; a read of a field of one counts as a use.
--   * fs/fat16.c: Fat16 (boot sector and disk), Fat16/Table (the allocation table), Fat16/Names (8.3
--     names), Fat16/Dir (directories), Fat16/File (reading), Fat16/Write and Fat16/Create. A function
--     of the C file named `fat16_vfs_f` is `f`. A search or a read allocates
--     with `kmalloc`, so it takes the heap of Kheap.
--   * kernel/vmm.c: Vmm. Page tables lie in a memory of words that is reached through the recursive
--     slot; `walk` is the processor's translation. `vmm_f` is `f`. It takes its frames from Pmm.
--   * kernel/process.c and kernel/elf.c: Process and Process/Elf, over Kheap, Vmm and Kernel/Irq. A
--     file is a function from an offset and a size to bytes. Process/Kill is the state machine of
--     the running process and the kill that Ctrl+C asks for.
--   * user/snake.c: User/Snake, the game from its first state on; User/Snake/Screen, what is drawn
--     before and after it.
--   * drivers/vga.c, drivers/keyboard.c, drivers/timer.c: Drivers/Vga, Drivers/Keyboard,
--     Drivers/Timer. drivers/ata.c: Drivers/Ata, over the instructions for ports; Drivers/Ata/Drive are
--     the laws of a drive that reports no error and is ready after a bounded number of polls. What goes out through `outb` is a list of port writes, in order.
--   * kernel/isrs.c: Kernel/Isrs. kernel/irq.c: Kernel/Irq. kernel/gdt.c and kernel/tss.c: Kernel/Gdt. kernel/idt.c: Kernel/Idt.
--     kernel/syscall.c, on top of the drivers: Kernel/Idt/Syscall.
-- Base holds what they share: tests on numbers, lists, bits, machine words, counting loops. The
-- files called Tests apply the results below to concrete inputs.
--
-- Machine integers are natural numbers with their wrap-around written out (u8, u16, u32, sub32).
-- Memory is a function from indices to words or bytes, so an access out of bounds reads and writes
-- what lies there, as in C.
--
-- Loops without a bound in C run on fuel, and `none` says that it ran out. Enough fuel: 65537 for
-- `kmalloc`, whose heap of 1 MiB holds at most 65536 headers; 65540 for `fat_free_chain`, which
-- makes an entry zero in every round; the length of the memory map and one for its entries, each of
-- which is at least four bytes; one more than the sectors of the root directory for its search;
-- size + 1 for a read or a write of `size` bytes, for every round moves a byte at least. A
-- search of another directory takes its fuel as an argument, for its chain may be a circle.
--
-- The listing of a directory and the reading of a file by cat take their fuel as an argument: a file
-- needs more than its length, and nothing bounds what a file system lists.
--
-- The loader reads a byte at least in a round of its copying loop. The search for a place for the
-- food of the game takes its fuel as an argument, for nothing bounds it in C.
--
-- Not modelled: the sources of characters and the banner of shell/shell.c; user/hello.c; the
-- translations that the processor caches; drivers/uart.c, which is input and output; assembly and the
-- build. The stubs of cpu.asm are parameters. The file system reads and writes its disk as a function
-- from sector numbers to sectors, not through the ports of drivers/ata.c. A process_t and the headers
-- of the kernel heap are not part of the memory that programs are loaded into: a file with a segment
-- over the kernel heap is left aside, as `none`.
pub mod Base
pub mod Handles
pub mod Pmm
pub mod Kheap
pub mod Klibc
pub mod Vfs
pub mod Fat16
pub mod Drivers
pub mod Kernel
pub mod Shell
pub mod Vmm
pub mod Process
pub mod User
