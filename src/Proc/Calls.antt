-- ===== src/Proc/Calls.antt =====
-- The calls of the allocator in `proc_register`.
use trash_os.Base.{ℕ, ◌+◌, ◌≡◌, bit_and, bit_or, u32, ◌>>>◌}
use trash_os.Base.Runs.{ok}
use trash_os.Kernel.{Kernel, store}
use trash_os.Page.{page_size, page_get_pma, word_at}
use trash_os.Proc.Table.{Memory}
use trash_os.Proc.Blocks.{With, Same, IsBlock}

-- The page table node at `node`, in front of the node `next`, for the table of the page at `stack`.
abbrev pub filled : ℕ → ℕ → ℕ → ℕ → ℕ → Kernel → Kernel
filled node next table stack flags k = store (u32 (node + 8)) table (
    store (u32 (node + 12)) (bit_or (page_get_pma table k) flags)
      (store (u32 (node + 4)) (stack >>> 22) (store node next k)))

abbrev pub entry_of : ℕ → ℕ → ℕ
entry_of table stack = word_at table (bit_and (stack >>> 12) 0x3ff)

-- From memory `k`, in which the addresses of `Held` are in use, the four calls of the allocator
-- return, in the states that `proc_register` makes them: a page for a table, a node of 16 bytes, a
-- physical page, and a node of 8 bytes. Each block lies apart from what is in use by then, and each
-- call keeps the words in use.
pub record Calls (memory : Memory) (Held : ℕ → Type 0) (next stack : ℕ) (k : Kernel) : Type 0 where
  pub table : ℕ
  pub k₁ : Kernel
  pub gives_table : memory.kalloc page_size page_size k ≡ ok (table, k₁)
  pub table_block : IsBlock Held table page_size k k₁
  pub table_node : ℕ
  pub k₂ : Kernel
  pub gives_table_node : memory.kmalloc 16 k₁ ≡ ok (table_node, k₂)
  pub table_node_block : IsBlock (With Held table page_size) table_node 16 k₁ k₂
  pub page : ℕ
  pub k₃ : Kernel
  pub gives_page : memory.page_new (filled table_node next table stack 7 k₂) ≡ ok (page, k₃)
  pub page_same :
      Same
        (With (With Held table page_size) table_node 16)
        (filled table_node next table stack 7 k₂)
        k₃
  pub node : ℕ
  pub k₄ : Kernel
  pub gives_node :
      memory.kmalloc 8 (store (entry_of table stack) (bit_or page 7) k₃) ≡ ok (node, k₄)
  pub node_block :
      IsBlock
        (With (With Held table page_size) table_node 16)
        node
        8
        (store (entry_of table stack) (bit_or page 7) k₃)
        k₄
