-- ===== src/Lib.antt =====
-- A model of the Nadir kernel, an x86-64 kernel written in C and assembly, with the theorems that its
-- parts are correct. Numbers are natural numbers; a C expression of 64 or 8 bits keeps its
-- wrap-around.
--
-- Parts, files and what they model:
--
-- Base: words, single bits of a byte, the bytes of a memory of words, a memory of bytes (Ram), text
--   literals, tests, options and lists that the other modules share.
-- Io: inb, outb and io_wait, include/io.h. What is written and read is a log, newest event first;
--   what a port answers is a parameter of the model, a function of the log. Child: Writes (what a
--   stretch of the log writes, and what it sends on the serial line).
-- Pmm: the physical frame allocator, kernel/mm/pmm.c with include/pmm.h and include/e820.h. The
--   record Pmm holds the static variables `bitmap`, `g_usable` and `g_free`; the functions keep the
--   names of the C functions, and each loop is a function of the rounds left and the frame. The bounds
--   of the kernel image, which the linker script defines, are arguments of `pmm_init`. Children:
--   Bitmap (bit operations), Count (the number of free frames), Ranges (`reserve_range`), Release (the
--   first pass of `pmm_init`), Init, Alloc, Ledger (runs of allocations and releases), Sample and
--   Examples.
-- Kmalloc: the heap, kernel/mm/kmalloc.c with include/kmalloc.h. The record Heap holds
--   `g_free_list`, the two counters and the memory, a function from an address to the 64-bit word
--   there. The loop of `kmalloc` runs on fuel, one round more than the frames of the first gigabyte;
--   every free run has a frame, so that the free list is shorter. Children: Runs (runs as data, and
--   first fit on lists), Chain (runs in memory), Carve, Place and Walk (the loop), Alloc, Free, Churn,
--   Payload (writes to blocks), Traces (runs of calls and writes), Oversize, Pull (the frames that the
--   heap starts with), Init, Sample and Examples.
-- Pic: the interrupt controllers, kernel/arch/x86_64/pic.c with include/pic.h, over the port log.
--   Children: Lines (which lines are masked), Manual (when a controller holds its mask), Examples.
-- Idt: the gates of kernel/arch/x86_64/idt.c with include/idt.h. Children: Gates, Examples.
-- Irq: registration and dispatch of idt.c, the timer kernel/arch/x86_64/pit.c with include/pit.h,
--   and `keyboard_init`, on a record Machine of what interrupts change. The loop of `pit_sleep` runs
--   along the rounds that the interrupts allow, each with those between the test and `hlt`, the one
--   that ends `hlt`, and those up to the next test. Children: Dispatch, Sleep, Examples.
-- Keyboard: the driver, kernel/arch/x86_64/keyboard.c with include/keyboard.h. The record Keyboard
--   holds its static variables. Children: Ring (the buffer against a bounded queue), Race (an
--   interrupt in the middle of `keyboard_dequeue`), Typing (scancodes against an account of the keys),
--   Examples.
-- Console: the text display, kernel/arch/x86_64/console.c with include/console.h. The record Console
--   holds the cursor, video memory and the port log; the loops are functions of the rounds left.
--   Children: Scroll, Screen (characters against a screen with one position), Text (strings and
--   `console_clear`), Hex (hexadecimal output read back), Ports (which ports are written), Examples.
-- Klog: the logger, kernel/core/klog.c with include/klog.h, which prints through Console. The tick
--   count is an argument. Its digit loop has the 20 rounds of the source, its padding loop 12 and its
--   fraction loop 7; Decimal and Stamp (children) show that these are enough. Examples is the third
--   child.
-- Serial: the serial log, kernel/arch/x86_64/serial.c with include/serial.h, over the port log. The
--   wait for the transmitter has a number of polls, after which it counts as a wait without end; a
--   hypothesis on the hardware says that the transmitter empties within them. Children: Output,
--   Examples.
-- Fault: `exception_handler` of idt.c, up to the halt. Children: Report, Examples.
-- SelfTest: the self-test of the heap in `kmain`, kernel/core/kmain.c. Children: Bytes (the writes),
--   Blocks (the calls of `kmalloc`), Outcome.
-- Kmain: `kmain` on the state of all components, a record System. What boot code, linker and
--   hardware provide is a record Setup. `boot` is the part before `sti`, `announce` the lines after it
--   with the interrupts up to each of them, and `main_round` a round of the main loop with the
--   interrupts that arrive in it: those before `hlt`, the one that ends it, those up to each of the
--   two reads of the tick counter, and those before each test of `keyboard_has_key`. The loop there
--   runs on fuel, 128 rounds and one for each of the last: the ring holds at most 127 bytes, and an
--   interrupt adds at most one. Children: Print (the log lines), Keeps (what they leave alone),
--   Stages, Devices and Memory (the parts of the boot sequence), States (the conditions), Boot, Keys
--   (interrupts), Echo and Drain (the keys), Announce (the lines after `sti`), Poll (a round), Loop
--   (all of `kmain`), Examples.
--
-- Sector: the boot sector, kernel/arch/x86_64/boot.asm, with the BIOS as a parameter: what each call
--   for the memory map and each read of a sector returns. The loop of `query_e820` runs on fuel, 65
--   calls, as at most 64 count; the loop of `load_kernel` has the 2 ^ 16 rounds of its counter, more
--   than a kernel has sectors that ends below 0x70000, 768. Children: Regions (the memory map), Loop
--   and Query (`query_e820`), Staging and Frames (the way of the map to `pmm_init`), Disk (the loading
--   of the kernel), Geometry (sector numbers), Tries and Load (a kernel in memory), Start (the boot
--   sector as a whole), Handoff (what it leaves), Examples.
-- Entry: the stage-2 entry, kernel/arch/x86_64/entry.asm. Children: Paging (the page tables against
--   the walk of the processor), LongMode (the 32-bit part), MemoryMap (.bss and the copy of the memory
--   map), Examples. The addresses that the linker fixes are a record Layout.
-- Isr: the interrupt stubs, kernel/arch/x86_64/isr.asm, as lists of instructions for a processor
--   with its registers and stack, from the gate to the C handler and back. Children: Processor (the
--   instructions), Stack (pushes and pops), Tables (the stubs), Frame (what the handler sees),
--   Exception, Resume, Examples.
--
-- The components call each other as in the source: `kmalloc_init` takes frames from
-- `pmm_alloc_frame`, `keyboard_init` and `pit_init` register their handlers with
-- `irq_register_handler`, `irq_dispatch` calls them and `pic_eoi`, Klog prints through Console, and
-- `kmain` calls all of them. One log of port accesses runs through all parts: a print sets the
-- console's from the machine's, and back.
--
-- The boot sector stages a memory map, the stage-2 entry copies it to where `pmm_init` reads it, and
-- the interrupt stubs call `irq_dispatch` and `exception_handler`.
--
-- Not modelled: the linker script, whose results are arguments; what the processor does at `lidt`,
-- `sti`, `cli` and `hlt`, and the data segments of 64-bit mode, which it ignores; the loops that halt
-- for good. The lines of the C files that no definition models are comments, prototypes and includes.
-- After `sti` interrupts come wherever the code next reads what they change, the tick counter or the
-- ring of the keyboard: those that arrive in the middle of a print or of the serial output are taken
-- behind it, since these calls read neither, so that only their accesses to the ports of the
-- interrupt controllers and the keyboard stand later in the log. An interrupt in the middle of
-- `keyboard_dequeue` is treated apart in Keyboard.Race. Of the boot sector, its stack, its variables,
-- the screen and the BIOS's own data are not part of the memory that Sector models; a word of the
-- heap's memory stands at each address divisible by 8 only. The build files and the scripts for
-- continuous integration are left out.

pub mod Base
pub mod Pmm
pub mod Kmalloc
pub mod Io
pub mod Keyboard
pub mod Console
pub mod Klog
pub mod Pic
pub mod Idt
pub mod Irq
pub mod Serial
pub mod Fault
pub mod SelfTest
pub mod Kmain
pub mod Isr
pub mod Entry
pub mod Sector
