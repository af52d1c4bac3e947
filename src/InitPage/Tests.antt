-- ===== src/InitPage/Tests.antt =====
-- Runs of the boot phase's page tables, from an empty directory.
use trash_os.Base.{ℕ, ◌+◌, ◌/◌, ◌^◌, ◌<◌, ◌≡◌, refl, arith, [], ◌==◌, if◌then◌else◌}
use trash_os.Kernel.{Kernel}
use trash_os.InitPage.{Init, init_page_map, map_range}
use trash_os.InitPage.Mapping.{IsTabled, entry_of, mapped}
use trash_os.InitPage.Maps.{init_page_map-IsTabled}
use trash_os.InitPage.Ranges.{RangeMapped, map_range-Mapped}

abbrev blank : Kernel
blank = record {
  mem = λ a. 5;
  ctxt = record { free_list = 0; start = 0; limit = 0 };
  page_dir = 0;
  page_table_lookup = 0;
  page_free_list = 0;
  kernel_heap_end_pma = 0;
  kernel_heap_end_vma = 0;
  flushed = [];
}

abbrev boot : Init
boot = record {
  kernel = blank;
  page_dir = λ i. 0;
  page_table_lookup = λ i. 0;
  next_pma = 0x200000;
  next_vma = 0;
  vga_buffer_vma = 0;
  page_table_vma_offset = 4096;
}

boot-IsTabled : IsTabled boot
boot-IsTabled = record {
  below = λ i lt present. cc;
  apart = λ i j lt lt' present. cc;
  room = omega arith;
}

init_page_map-IsTabled_example :
    IsTabled (init_page_map 0xc0000000 0x100000 3 boot)
    × ((vma' : ℕ)
        → vma' < 2 ^ 32
        → entry_of vma' (init_page_map 0xc0000000 0x100000 3 boot) ≡ (
            if vma' / 4096 == 0xc0000000 / 4096
            then mapped (entry_of 0xc0000000 boot) 0x100000 3
            else entry_of vma' boot))
init_page_map-IsTabled_example =
    init_page_map-IsTabled 0xc0000000 0x100000 3 boot boot-IsTabled (omega arith) (omega arith)

map_range-Mapped_example :
    RangeMapped 2
      (0xc0000000 + 0)
      (0x100000 + 0)
      3
      boot
      (map_range 3 0 5000 0xc0000000 0x100000 3 boot)
map_range-Mapped_example =
    map_range-Mapped 2 0 5000 0xc0000000 0x100000 3 boot boot-IsTabled (omega arith, omega arith)
      (refl, omega arith) (omega arith)
