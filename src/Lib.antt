-- ===== src/Lib.antt =====
-- A model of the TrashOS kernel, for i386, and the theorems about it. Paths are those of the
-- repository, and every source file named here lies in kernel/arch/i386.
--
-- Math, Mem: `div64`, `ilog10u`, `ilog2u` and EXP10 of math.h, and `align` of mem.h.
-- Print: _print.c, which printk.c and init_printk.c include. Format reads a directive
--   (`_parse_format`), Numbers holds the routines for numbers, Directive `_print_format` (the model's
--   `print_format`), Print itself `_print`. They call Math. Their output is the list of characters
--   given to VGA_PUTC and the count returned. The proofs are in Digits, Decimal, Signed, Radix,
--   Parse and Total; Pieces is the specification of `_print`, a format string as a list of pieces.
-- Vga: vga.c, with its static variables as the record `Vga`. Vga.Sheet is the specification, an
--   endless sheet of which the screen shows a window.
-- InitVga: init_vga.c, the driver of the boot phase. Where its static functions have the names of
--   those in vga.c, they get the prefix `init_`.
-- InitPage: the page tables that init.c sets up before paging is on. Its functions keep their names,
--   its static variables lose the prefix `init_page_`; the loops over pages are `map_range`, and the
--   addresses that the linker chooses are the record `Symbols`.
-- Kernel: the state that page.c and alloc.c share. Page models page.c, Alloc models alloc.c under
--   its function names. The two call one another: in Page and Alloc the callee is an argument, and
--   Alloc.Knot ties them, with a bound on the depth of nested calls. Alloc.Chunks is the
--   specification of the heap, a row of chunks; Alloc.Place and Alloc.FreeRefine say what becomes of
--   the row. What alloc asks of the page functions is the record `Mapper` of Alloc.Pages, which
--   Alloc.Tables fills with `page_new`. Alloc.Cleanup is `page_init_cleanup` of page.c.
-- Cpu: the registers and ports of asm.h and io.h, as the record `Cpu`; Cpu.Cpuid the bit fields of
--   cpuid.h. The instructions `cpuid` and `rdmsr` are parameters.
-- Gdt: gdt.c and gdt.h, whose globals are the record `Segments`. Gdt.Fields reads a descriptor back.
-- Apic: apic.c, over Cpu and Kernel; the registers of the local APIC are words of memory, and a
--   static variable that `kalloc` calls back to is one, too.
-- Proc: proc.c. Its state is `Procs` of Proc.Table; it calls Page and, through the record `Memory`,
--   the allocator. Proc.Handler is the timer interrupt's handler of int_asm.s, which runs
--   `proc_next`. Proc.Spec is the specification, a round-robin scheduler, and Proc.Refine the
--   refinement; Proc.Plan says what the scheduler needs of the memory, Proc.Advance is one turn, and
--   Proc.Rounds whole rounds. Proc.Calls says what a registration asks of its calls of the allocator,
--   Proc.Register what it leaves in memory, and Proc.Joining, Proc.NewWords, Proc.NewNode and
--   Proc.Joined the schedule with one process more. Proc.KernelMemory fills `Memory` with the
--   functions of Alloc.Knot.
-- Int: the interrupt descriptor table of int.c, with the handlers' addresses as a parameter;
--   Int.Handlers the messages of the handlers, which Print prints.
-- Base: numbers of fixed width, bit operations, lists, and `Run`, the outcome of C code.
--
-- Integers are natural numbers, with every wrap-around of the C types written out. A pointer is its
-- address. Memory is a function from an address to the 32-bit word there; the words of different
-- addresses are independent, so overlapping accesses are left out, and address translation is left
-- out: a page that is mapped or unmapped changes no word but those of the page tables, and no access
-- faults. The theorem on aligned allocations stays within alignments of a page for that reason:
-- above that, `alloc` can write to a page that it has not mapped. The process table is a separate
-- function from the PID, and the arrays of `init_page_struct` are functions of their own. `Run` tells
-- a value from an undefined step, a processor that is stopped for good (`die`), and fuel that ran
-- out. The field `end` of the allocator's context is `limit`, and `PID` is `current`.
--
-- Fuel: `div64` takes a unit for each candidate, and 11 are enough for the digits of numbers below
-- 10 ^ 19; `ilog2u` takes 64, one for each bit; a directive has at most three characters, so
-- `parse_format` takes 3; `print` takes a round for each character and one for the terminator;
-- `alloc_search` takes one for each chunk of the free list and one for its end, and `map_loop` and
-- `map_range` take one for each page and one more; the other page loops, the walks
-- over page tables and the search for a PID take one for each round.
--
-- A format string is the list of its characters without the terminator; reading behind the
-- terminator is undefined, as is a variable argument of another size than the directive reads.
-- Counts of bytes do not wrap. The messages that alloc.c prints are left out.
--
-- `invlpg` is recorded with the argument it is called with, whatever TLB entry it drops. `hlt` is
-- followed by the rest of the code where an interrupt comes, and stops for good otherwise.
--
-- Not modelled: boot.s, `int_handle_interrupt`, which nothing uses, the rest of the boot phase
-- (`init` of init.c around its page tables, kernel.c), and routines that only print.
pub mod Alloc
pub mod Apic
pub mod Base
pub mod Cpu
pub mod Gdt
pub mod InitPage
pub mod InitVga
pub mod Int
pub mod Kernel
pub mod Math
pub mod Mem
pub mod Page
pub mod Print
pub mod Proc
pub mod Vga
