-- ===== src/Alloc/Knot.antt =====
-- The allocator and the page functions call one another: `alloc` takes pages from `page_new`, which
-- frees a node by `kfree`, whose `free` gives pages back by `page_free`, which takes a node from
-- `kmalloc`. `depth` bounds how deep these calls nest.
use trash_os.Base.{ℕ, zero, suc, ◌+◌, bit_or, if◌then◌else◌, u32}
use trash_os.Base.Runs.{Run, ok, out_of_fuel, ◌>>=◌}
use trash_os.Kernel.{Kernel, Ctxt, store}
use trash_os.Mem.{align}
use trash_os.Page
use trash_os.Page.{page_present, page_write, page_set_entry, page_is_present}
use trash_os.Alloc.{alloc, free, km_min_alloc_size, desc_size}

-- The functions at one depth.
pub record Ops : Type 0 where
  pub alloc_from : (Kernel → Run (ℕ × Kernel)) → ℕ → ℕ → Kernel → Run (ℕ × Kernel)
  pub kfree : ℕ → Kernel → Run Kernel
  pub page_new : Kernel → Run (ℕ × Kernel)
  pub page_free : ℕ → Kernel → Run Kernel

unfoldable pub ops : ℕ → ℕ → Ops
ops fuel zero = record {
  alloc_from = λ get align bytes k. out_of_fuel;
  kfree = λ vma k. out_of_fuel;
  page_new = λ k. out_of_fuel;
  page_free = λ vma k. out_of_fuel;
}
ops fuel (suc depth) = record {
  alloc_from = alloc fuel;
  kfree = λ vma k. free fuel (ops fuel depth).page_free vma k;
  page_new = λ k. Page.page_new (ops fuel depth).kfree k;
  page_free = λ vma k.
      Page.page_free
        (λ bytes k'.
          (ops fuel depth).alloc_from (ops fuel depth).page_new km_min_alloc_size bytes k')
        vma k;
}

module _ (fuel depth : ℕ) where
  -- `kalloc`
  unfoldable pub kalloc : (Kernel → Run (ℕ × Kernel)) → ℕ → ℕ → Kernel → Run (ℕ × Kernel)
  kalloc get_page_pma alignment bytes k = (ops fuel depth).alloc_from get_page_pma alignment bytes k

  -- `kmalloc`
  unfoldable pub kmalloc : ℕ → Kernel → Run (ℕ × Kernel)
  kmalloc bytes k = kalloc (ops fuel depth).page_new km_min_alloc_size bytes k

  -- `kmalloc_aligned`
  unfoldable pub kmalloc_aligned : ℕ → ℕ → Kernel → Run (ℕ × Kernel)
  kmalloc_aligned bytes alignment k = kalloc (ops fuel depth).page_new alignment bytes k

  -- `kfree`
  unfoldable pub kfree : ℕ → Kernel → Run Kernel
  kfree vma k = (ops fuel depth).kfree vma k

  -- `alloc_new_heap`, which returns the context, and `kmalloc_init`, which stores it.
  unfoldable pub alloc_new_heap : ℕ → Kernel → Run (Ctxt × Kernel)
  alloc_new_heap heap_start k = do
    let first_chunk_addr = align heap_start km_min_alloc_size
    let ctxt : Ctxt = record {
      free_list = 0;
      start = heap_start;
      limit = u32 (first_chunk_addr + desc_size);
    }
    let map_first : Run Kernel = (do
      (pma, k') ← (ops fuel depth).page_new k
      ok (page_set_entry first_chunk_addr (bit_or (bit_or pma page_write) page_present) k'))
    k₁ ← if page_is_present first_chunk_addr k then ok k else map_first
    ok (ctxt, store first_chunk_addr 0 k₁)

  unfoldable pub kmalloc_init : ℕ → Kernel → Run Kernel
  kmalloc_init heap_start k = do
    (ctxt, k') ← alloc_new_heap heap_start k
    ok (record k' { ctxt = ctxt })
