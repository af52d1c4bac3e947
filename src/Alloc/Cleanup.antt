-- ===== src/Alloc/Cleanup.antt =====
-- `page_init_cleanup` of page.c, which calls the allocator. The addresses that the linker chooses
-- are parameters.
use trash_os.Base.{ℕ, zero, suc, ◌+◌, ◌-◌, bit_and, bit_or, ltb, ◌==◌, if◌then◌else◌, u32}
use trash_os.Base.Runs.{Run, ok, out_of_fuel, ◌>>=◌}
use trash_os.Kernel.{Kernel, load, store}
use trash_os.Page.{
  page_size, page_entries, page_present, page_write, word_at, page_clear, page_unmap, page_get_pma,
  page_get_dir_idx,
}
use trash_os.Alloc.Knot.{ops, kalloc, kmalloc_init}

-- `for ( ; i < stop; i += PAGE_SIZE) { page_clear(i); page_free(i); }` and the last `i`.
unfoldable pub free_loop : ℕ → (ℕ → Kernel → Run Kernel) → ℕ → ℕ → Kernel → Run (ℕ × Kernel)
free_loop zero page_free i stop k = out_of_fuel
free_loop (suc fuel) page_free i stop k =
    let free_page : Run (ℕ × Kernel) = (do
      k' ← page_free i (page_clear i k)
      free_loop fuel page_free (u32 (i + page_size)) stop k') in
    if ltb i stop then free_page else ok (i, k)

-- The pages of `init_page_struct`, and the address behind them.
unfoldable pub keep_loop : ℕ → ℕ → ℕ → ℕ → Kernel → Run (ℕ × Kernel)
keep_loop zero j size i k = out_of_fuel
keep_loop (suc fuel) j size i k =
    let rest = keep_loop fuel (u32 (j + page_size)) size (u32 (i + page_size)) (page_unmap i k) in
    if ltb j size then rest else ok (i, k)

-- The page tables of the directory entries from `i` on.
unfoldable pub tables_loop : ℕ → (Kernel → Run (ℕ × Kernel)) → ℕ → Kernel → Run Kernel
tables_loop zero new_table i k = ok k
tables_loop (suc left) new_table i k =
    let add : Run Kernel = (do
      (table, k₁) ← new_table k
      let k₂ = store (word_at k₁.page_table_lookup i) table k₁
      let entry = bit_or (bit_or (page_get_pma table k₂) page_present) page_write
      tables_loop left new_table (i + 1) (store (word_at k₂.page_dir i) entry k₂)) in
    let rest = tables_loop left new_table (i + 1) k in
    if bit_and (load (word_at k.page_dir i) k) page_present == 0 then add else rest

-- `page_init_cleanup`
unfoldable pub page_init_cleanup : ℕ → ℕ → ℕ → ℕ → ℕ → ℕ → ℕ → Kernel → Run Kernel
page_init_cleanup fuel depth init_start init_struct struct_size init_bss_end kernel_start_vma k = do
  k₁ ← kmalloc_init fuel depth k.kernel_heap_end_vma k
  (i₁, k₂) ← free_loop fuel (ops fuel depth).page_free init_start init_struct k₁
  (i₂, k₃) ← keep_loop fuel 0 struct_size i₁ k₂
  (i₃, k₄) ← free_loop fuel (ops fuel depth).page_free i₂ init_bss_end k₃
  let first = page_get_dir_idx kernel_start_vma
  tables_loop (page_entries - first)
      (kalloc fuel depth (ops fuel depth).page_new page_size page_size) first k₄
