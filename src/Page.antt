-- ===== src/Page.antt =====
-- kernel/arch/i386/page.c and page.h: page directory, page tables and the list of free pages.
mod Tests
pub mod Entries
pub mod FreePages
pub mod Clear
use trash_os.Base.{
  ℕ, zero, suc, ◌+◌, ◌*◌, ◌/◌, ◌^◌, Bool, true, false, not, bit_and, bit_or, ◌==◌, if◌then◌else◌,
  u32, not32, ◌<<◌, ◌>>>◌,
}
use trash_os.Base.Runs.{Run, ok, ◌>>=◌}
use trash_os.Kernel.{Kernel, load, store, invlpg}

abbrev pub page_size : ℕ
page_size = 4096

abbrev pub page_entries : ℕ
page_entries = 1024

abbrev pub page_present : ℕ
page_present = 1

abbrev pub page_write : ℕ
page_write = 2

abbrev pub page_public : ℕ
page_public = 4

unfoldable pub page_get_dir_idx : ℕ → ℕ
page_get_dir_idx vma = vma >>> 22

unfoldable pub page_get_table_idx : ℕ → ℕ
page_get_table_idx vma = bit_and (vma >>> 12) 0x3ff

-- The address of element `idx` of an array of words.
abbrev pub word_at : ℕ → ℕ → ℕ
word_at array idx = u32 (array + 4 * idx)

unfoldable pub page_get_table : ℕ → Kernel → ℕ
page_get_table vma k = load (word_at k.page_table_lookup (page_get_dir_idx vma)) k

-- The address of `table[page_get_table_idx(vma)]`.
unfoldable pub entry_at : ℕ → Kernel → ℕ
entry_at vma k = word_at (page_get_table vma k) (page_get_table_idx vma)

unfoldable pub page_get_entry : ℕ → Kernel → ℕ
page_get_entry vma k = load (entry_at vma k) k

unfoldable pub page_get_pma : ℕ → Kernel → ℕ
page_get_pma vma k = bit_and (load (entry_at vma k) k) (not32 0xfff)

unfoldable pub page_get_flags : ℕ → Kernel → ℕ
page_get_flags vma k = bit_and (page_get_entry vma k) 0xfff

unfoldable pub page_is_present : ℕ → Kernel → Bool
page_is_present vma k = not (bit_and (page_get_entry vma k) page_present == 0)

unfoldable pub page_set_entry : ℕ → ℕ → Kernel → Kernel
page_set_entry vma entry k = store (entry_at vma k) entry k

unfoldable pub page_remap : ℕ → ℕ → Kernel → Kernel
page_remap vma pma k =
    let a = entry_at vma k in invlpg vma (store a (bit_or (bit_and (load a k) 0xfff) pma) k)

unfoldable pub page_unmap : ℕ → Kernel → Kernel
page_unmap vma k =
    let a = entry_at vma k in invlpg vma (store a (bit_and (load a k) (not32 page_present)) k)

unfoldable pub page_delete : ℕ → Kernel → Kernel
page_delete vma k = invlpg vma (store (entry_at vma k) 0 k)

unfoldable pub page_set_flags : ℕ → ℕ → Kernel → Kernel
page_set_flags vma flags k =
    let a = entry_at vma k in store a (bit_or (u32 ((load a k >>> 12) << 12)) flags) k

unfoldable pub page_set_dir_entry : ℕ → ℕ → ℕ → Kernel → Kernel
page_set_dir_entry idx table_vma entry k =
    let k' = store (word_at k.page_table_lookup idx) table_vma k in
    store (word_at k'.page_dir idx) entry k'

unfoldable pub page_table_map : ℕ → ℕ → ℕ → Kernel → Kernel
page_table_map table_vma vma flags k =
    let idx = page_get_dir_idx vma in
    let k' = store (word_at k.page_table_lookup idx) table_vma k in
    store (word_at k'.page_dir idx) (bit_or (page_get_pma table_vma k') flags) k'

unfoldable pub page_table_unmap_idx : ℕ → Kernel → Kernel
page_table_unmap_idx idx k =
    let k' = store (word_at k.page_table_lookup idx) 0 k in store (word_at k'.page_dir idx) 0 k'

unfoldable pub page_table_unmap : ℕ → Kernel → Kernel
page_table_unmap vma k =
    let idx = page_get_dir_idx vma in
    let k' = store (word_at k.page_table_lookup idx) 0 k in store (word_at k'.page_dir idx) 0 k'

-- `entry[i] = (uint64_t)0`, two words a round.
unfoldable pub clear_loop : ℕ → ℕ → ℕ → Kernel → Kernel
clear_loop zero vma i k = k
clear_loop (suc left) vma i k =
    clear_loop left vma (i + 1) (store (vma + 8 * i + 4) 0 (store (vma + 8 * i) 0 k))

unfoldable pub page_clear : ℕ → Kernel → Kernel
page_clear vma k = clear_loop (page_size / 8) vma 0 k

-- `page_new`, over the `kfree` that it calls. A `page_free_node_t` holds `pma`, then `next`.
unfoldable pub page_new : (ℕ → Kernel → Run Kernel) → Kernel → Run (ℕ × Kernel)
page_new kfree k =
    let pma = load k.page_free_list k in
    let old_node = k.page_free_list in
    let reuse : Run (ℕ × Kernel) = (do
      k' ← kfree old_node (record k { page_free_list = load (old_node + 4) k })
      ok (pma, k')) in
    let grow : Run (ℕ × Kernel) = ok (
      k.kernel_heap_end_pma,
      record k { kernel_heap_end_pma = u32 (k.kernel_heap_end_pma + page_size) },
    ) in
    if k.page_free_list == 0 then grow else reuse

-- `page_free`, over the `kmalloc` that it calls.
unfoldable pub page_free : (ℕ → Kernel → Run (ℕ × Kernel)) → ℕ → Kernel → Run Kernel
page_free kmalloc vma k = do
  (new_node, k₁) ← kmalloc 8 k
  let k₂ = store new_node (page_get_pma vma k₁) k₁
  let k₃ = store (new_node + 4) k₁.page_free_list k₂
  ok (record (page_unmap vma k₃) { page_free_list = new_node })
