-- ===== src/Proc/KernelMemory.antt =====
-- The allocator of alloc.c and page.c, as the process code calls it.
use trash_os.Base.{ℕ}
use trash_os.Alloc.Knot.{ops, kalloc, kmalloc}
use trash_os.Proc.Table.{Memory}

-- `kmalloc`, `kalloc` with PAGE_GET_DEFAULT, and PAGE_GET_DEFAULT itself.
abbrev pub kernel_memory : ℕ → ℕ → Memory
kernel_memory fuel depth = record {
  kmalloc = kmalloc fuel depth;
  kalloc = kalloc fuel depth (ops fuel depth).page_new;
  page_new = (ops fuel depth).page_new;
}
