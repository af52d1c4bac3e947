-- ===== src/Page/Tests.antt =====
-- Runs of the page functions on a small memory.
use trash_os.Base.{
  ℕ, ◌*◌, ◌/◌, ◌%◌, ◌^◌, ◌<◌, ◌≡◌, refl, true, false, [], ◌==◌, if◌then◌else◌, arith,
}
use trash_os.Base.Runs.{Run, ok, ◌>>=◌}
use trash_os.Kernel.{Kernel, load}
use trash_os.Page.{
  page_remap, page_unmap, page_new, page_free, page_get_entry, page_get_pma, page_is_present,
  page_get_table, page_get_dir_idx, page_get_table_idx, entry_at,
}
use trash_os.Page.Entries.{IsSeparate, Updates, page_remap-Updates, page_unmap-Updates}
use trash_os.Page.FreePages.{Frees, IsNode, page_new-page_free}

-- The lookup table lies at 8192, the page table of the first 4 MiB at 12288, and a node of the free
-- pages at 1024. The page at 8192 has the entry 0x5003.
abbrev words : ℕ → ℕ
words a =
    if a == 8192 then 12288 else if a == 12296 then 0x5003 else if a == 1024 then 0x9000 else 0

abbrev small : Kernel
small = record {
  mem = words;
  ctxt = record { free_list = 0; start = 8; limit = 112 };
  page_dir = 4096;
  page_table_lookup = 8192;
  page_free_list = 1024;
  kernel_heap_end_pma = 65536;
  kernel_heap_end_vma = 65536;
  flushed = [];
}

abbrev vma : ℕ
vma = 8192

vma-IsSeparate : IsSeparate vma small
unfolding entry_at page_get_table page_get_dir_idx page_get_table_idx load
vma-IsSeparate = omega arith

vma_word : page_get_entry vma small < 2 ^ 32
unfolding page_get_entry entry_at page_get_table page_get_dir_idx page_get_table_idx load
vma_word = omega arith

page_remap-Updates_example :
    Updates vma 0x7000 (page_get_entry vma small % 4096) true small (page_remap vma 0x7000 small)
page_remap-Updates_example =
    page_remap-Updates vma small vma-IsSeparate vma_word 0x7000 refl (omega arith)

page_unmap-Updates_example :
    Updates vma
      (page_get_entry vma small / 4096 * 4096)
      (page_get_entry vma small % 4096 / 2 * 2)
      true
      small
      (page_unmap vma small)
page_unmap-Updates_example = page_unmap-Updates vma small vma-IsSeparate vma_word

abbrev keep : ℕ → Kernel → Run Kernel
keep node k = ok k

abbrev popped : Kernel
popped = record small { page_free_list = 0 }

keep-Frees : Frees keep 1024 popped []
keep-Frees = record { after = popped; returns = refl; list = refl; next_page = refl; pages = refl }

abbrev take_node : ℕ → Kernel → Run (ℕ × Kernel)
take_node bytes k = ok (2048, k)

vma-IsNode : IsNode 2048 vma small
unfolding entry_at page_get_table page_get_dir_idx page_get_table_idx load
vma-IsNode = record {
  not_null = omega arith;
  off_lookup = (omega arith, omega arith);
  off_entry = (omega arith, omega arith);
}

page_new-page_free_example :
    (k₅ : Kernel) × (page_free take_node vma small ≡ ok k₅)
    × (page_is_present vma k₅ ≡ false)
    × ((kfree : ℕ → Kernel → Run Kernel)
        → page_new kfree k₅ ≡ (
            kfree 2048 (record k₅ { page_free_list = 1024 }) >>= λ k'.
            ok (page_get_pma vma small, k')))
page_new-page_free_example =
    page_new-page_free take_node vma 2048 small small refl vma-IsNode vma-IsSeparate vma_word
