-- ===== src/Lib.antt =====
-- Korolev64, a small kernel for 32-bit PC hardware: a model of its C code and the theorems about
-- it.
--
-- The parts. Every message of the kernel goes through kernel/text.c, which echoes each character to
-- the first serial port (dev/serial.c) before it draws it, and which reaches the machine by the
-- port functions of include/port.h. The interrupt handlers, such as that of dev/kbd.c, reach their
-- devices by the same functions. libc/stdlib.c holds the routines on memory and strings, and
-- malloc, which hands every request on to the page allocator of kernel/memory.c. The files:
--
-- - Mem: memory by bytes (or by the 16-bit cells of the screen) as a function from addresses.
-- - Libc: memcpy, kmemset, strncpy, strncat, reverse and strncmp of libc/stdlib.c; Libc/Copy,
--   Libc/Concat, Libc/Reverse and Libc/Compare hold the proofs. Number: itoa and atoi of the same
--   file.
-- - Port: inb, outb, inl, outl and outw of include/port.h. What the devices answer is a parameter,
--   a function of the number of accesses made so far and of the port; the writes are recorded in
--   order.
-- - Serial: dev/serial.c; serial_status is a list of four bytes.
-- - Text: kernel/text.c; the record Screen holds its global variables, the screen's cells and the
--   serial ports. draw is put without its serial echo. Text/Terminal is what the screen promises,
--   a tape of cells with one position.
-- - Kbd: kbd_interrupt, kbd_reset, kbd_avail and kbd_pop of dev/kbd.c; the pointer kbd_stack_sp is
--   an index. Kbd/Ps2: kbd_setup and the commands of the PS/2 controller.
-- - Int: kernel/int.c; the descriptor tables are lists of records, int_handlers a list of
--   functions on the kernel's state and the ports. What the assembly stubs and the linker choose
--   (addresses) are parameters.
-- - Timer: dev/timer.c; how many interrupts come between the looks of sleep at the counter is a
--   parameter.
-- - Pci: dev/pci.c; the kernel's state that handlers and drivers change is a type parameter.
--   Pci/Config is about the configuration space, Pci/Irq about the interrupt table, Pci/Scan about
--   the enumeration.
-- - Ethernet: net/ethernet.c. Net: net/network.c; pointers to devices and interfaces are indices
--   of the tables, and a list of addresses is a list. malloc is taken not to fail in both.
-- - Syscall: kernel/syscall.c, over the screen and the keyboard; the registers are the handler's
--   own copy, which run_call hands back and syscall_handler loses; a call that waits for a key
--   when none is there gives none, since only an interrupt ends its loop. Syscall/Runs is about
--   interrupts of the keyboard between calls.
-- - Kfs2: fs/kfs2.c; the disk is an interface, since ide_read_sector of dev/ide.c is a stub.
--   Kfs2/Cache is about the cluster in the buffer, Kfs2/Handles about the open files, Kfs2/Mount
--   about the set-up.
-- - Kssfs: fs/kssfs.c, over the same interface; its buffer stands in the memory that names and
--   destinations are in. Kssfs/Cache is about the cluster in the buffer, Kssfs/Files about the
--   search for a file, Kssfs/Mount about the set-up and about writing.
-- - Fuse: tools/kssfs_fuse.c over an image file; Fuse/Clusters is about reading, writing and
--   searching clusters, Fuse/Files and Fuse/Reopen about opening and making files, Fuse/Contents
--   about their bytes, Fuse/Kernel about the kernel that reads them, Fuse/Names about unlink and
--   rename, and Fuse/Listing models getattr and readdir. The calls of the C library are modelled
--   as its documentation has them; the identity of the user and the time are parameters.
-- - Ide: dev/ide.c, over the ports, the interrupt table and the timer; Ide/Native is about the
--   mode of a channel, Ide/Init about how the set-up ends.
-- - Boot: kernel/cmdline.c, and how kernel/multiboot.c cuts the command line into its commands;
--   Boot/Cut is about where one command is cut at its colons, Boot/Words about the words of the
--   command line, and Boot/Commands about which command runs.
-- - Format: tools/format.c; the image is that of Fuse, a file grows by what is written to it.
--   Format/Layout is about where the files stand, Format/Clusters about the fields of a cluster,
--   and Format/Boot about the kernel (Kssfs) that reads the image from its disk. Inspect:
--   tools/fsinspect.c; Inspect/Listing is about what it lists of an image that Format made. Mkfs:
--   tools/mkfs.kfs2.c; Mkfs/Header is about its header and Kfs2, which reads it.
-- - Virtio: dev/virtio-net.c; Virtio/Queue is about where the parts of its queue stand,
--   Virtio/Init about how the set-up ends. Net/Setup models network_setup and Net/Print
--   netdev_print; Net/Setup/Interfaces is about the interfaces that are made.
-- - E1000: dev/e1000.c; the card's memory is a parameter like the ports, and the writes to it are
--   recorded. E1000/Registers is about the two ways to the registers, E1000/Eeprom and
--   E1000/Detect about the memory with the card's address, E1000/Rings models the rings,
--   E1000/Transmit and E1000/Receive are about sending and taking frames, E1000/Setup models the
--   set-up and the interrupt handler, and E1000/Init is about how the set-up ends.
-- - Alloc: kernel/memory.c, and malloc and free of libc/stdlib.c.
-- - Prelude: shared names, Boolean tests, lists with native indices, the search for a free slot of
--   a table, and lemmas on bits.
--
-- Numbers are natural numbers, and each wrap-around of the C types is written out: a BYTE is a
-- number below 2 ^ 8, a WORD below 2 ^ 16, a LONG, an int or a size_t below 2 ^ 32, an int as its
-- bit pattern. An address computation does not wrap, since C keeps a pointer inside its object.
--
-- Loops. A loop that counts down is recursion on the rounds left. The waits of dev/serial.c and of
-- dev/kbd.c run on fuel, since a device may never be ready: the theorems about them assume when it
-- is, and that the fuel reaches so far. itoa has fuel for 33 rounds, one for each of the 32 digits
-- that a word can have and a last test, and itoa_lem shows that this is enough; putn10 has the 31
-- rounds of its own counter. strncat has fuel for the walk to the end of its first text, and its
-- theorem assumes that the end is within reach. atoi has fuel, and its theorem holds for any. sleep
-- has fuel for its looks at the counter; its theorem shows that one look more than the ticks to
-- wait is enough, and ide_init_lem that the fuel 2 is enough for the waits of the disk driver, of
-- one tick each. The loops of e1000_receive and e1000_write have the rounds that their theorems
-- show to be enough; the waits for the EEPROM run on fuel, and so do the loops over the command
-- line, for which split_loop_lem says how much is enough.
--
-- Not modelled: the assembly files (strlen is a parameter of reverse), memcpy_old, which is inline
-- assembly, the messages of the set-up routines and of the allocator, the registrations of handlers
-- in kmain and pci_setup; the walk of kernel/multiboot.c over the tags, and kernel/main.c, which
-- calls the parts in their order: their messages wait on the serial line, and their mallocs would
-- have to count the pages of one allocator; kernel/switch.c, a stub that nothing calls; and
-- tools/mount.kfs2.c, which does not compile.
pub mod Prelude
pub mod Mem
pub mod Libc
pub mod Number
pub mod Port
pub mod Serial
pub mod Text
pub mod Kbd
pub mod Alloc
pub mod Int
pub mod Timer
pub mod Pci
pub mod Ethernet
pub mod Net
pub mod Syscall
pub mod Kfs2
pub mod Kssfs
pub mod Fuse
pub mod E1000
pub mod Virtio
pub mod Ide
pub mod Boot
pub mod Format
pub mod Inspect
pub mod Mkfs
