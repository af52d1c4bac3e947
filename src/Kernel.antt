-- ===== src/Kernel.antt =====
-- The state that alloc.c and page.c share: the memory and their globals. `mem` holds the 32-bit word
-- at each virtual address; address translation is not modelled, so every address stands for
-- itself.
use trash_os.Base.{ℕ, List, ◌∷◌, update}

-- `alloc_ctxt_t`
pub record Ctxt : Type 0 where
  pub free_list : ℕ
  pub start : ℕ
  pub limit : ℕ

-- `kernel_ctxt` of alloc.c, the globals of page.c, and the addresses given to `invlpg`, the last
-- first. A context's field `end` is `limit` here.
pub record Kernel : Type 0 where
  pub mem : ℕ → ℕ
  pub ctxt : Ctxt
  pub page_dir : ℕ
  pub page_table_lookup : ℕ
  pub page_free_list : ℕ
  pub kernel_heap_end_pma : ℕ
  pub kernel_heap_end_vma : ℕ
  pub flushed : List ℕ

unfoldable pub load : ℕ → Kernel → ℕ
load a k = k.mem a

unfoldable pub store : ℕ → ℕ → Kernel → Kernel
store a v k = record k { mem = update k.mem a v }

-- `invlpg`
unfoldable pub invlpg : ℕ → Kernel → Kernel
invlpg vma k = record k { flushed = vma ∷ k.flushed }
