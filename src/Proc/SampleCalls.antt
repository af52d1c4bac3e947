-- ===== src/Proc/SampleCalls.antt =====
-- The calls of the kernel's allocator while a fourth process is registered.
use trash_os.Base.{ℕ, ◌≤◌, ◌<◌, ◌≡◌, refl, arith, inl, inr, sub32}
use trash_os.Base.Runs.{ok}
use trash_os.Kernel.{Kernel, load, store, invlpg}
use trash_os.Mem.{align}
use trash_os.Page
use trash_os.Page.{
  page_size, page_get_pma, page_get_entry, page_set_entry, entry_at, page_get_table,
  page_get_dir_idx, page_get_table_idx,
}
use trash_os.Alloc.{
  alloc, alloc_bytes, alloc_search, alloc_extend, alloc_pad, map_loop, alloc_get_desc,
  alloc_get_size, alloc_get_next_desc,
}
use trash_os.Alloc.Knot.{ops, kalloc, kmalloc}
use trash_os.Proc.Table.{Memory}
use trash_os.Proc.Blocks.{With, Same, Same-trans, Same-store, IsBlock}
use trash_os.Proc.Calls.{Calls, filled, entry_of}
use trash_os.Proc.KernelMemory.{kernel_memory}
use trash_os.Proc.Samples.{three_procs}

abbrev pub kernel_calls : Memory
kernel_calls = kernel_memory 3 1

-- The memory below 12288 is in use: the queue, the page table nodes and the page directory. Behind
-- it are a page table and the heap, which ends at 20480.
abbrev pub Low : ℕ → Type 0
Low a = a < 12288

abbrev pub WithTable : ℕ → Type 0
WithTable = With Low 20480 4096

abbrev pub WithNode : ℕ → Type 0
WithNode = With WithTable 24584 16

abbrev pub stack : ℕ
stack = 0xbffff000

abbrev pub table_words : Kernel
table_words =
    store 24580 0 (
      store 24576 4096
        (store 20476 4096 (store 12312 69635 (store 12308 65539 three_procs.kernel))))

abbrev pub k₁ : Kernel
k₁ = record table_words {
  ctxt = record { free_list = 0; start = 20472; limit = 24584 };
  kernel_heap_end_pma = 73728;
}

abbrev pub k₂ : Kernel
k₂ = record (store 24604 0 (store 24600 16 (store 24580 16 k₁))) {
  ctxt = record { free_list = 0; start = 20472; limit = 24608 };
}

abbrev pub listed : Kernel
listed = filled 24584 0 20480 stack 7 k₂

abbrev pub k₃ : Kernel
k₃ = record listed { kernel_heap_end_pma = 77824 }

abbrev pub entered : Kernel
entered = store (entry_of 20480 stack) 73735 k₃

abbrev pub k₄ : Kernel
k₄ = record (store 24620 0 (store 24616 8 (store 24604 8 entered))) {
  ctxt = record { free_list = 0; start = 20472; limit = 24624 };
}

pub gives_table : kernel_calls.kalloc page_size page_size three_procs.kernel ≡ ok (20480, k₁)
unfolding kalloc ops alloc alloc_bytes alloc_search alloc_extend alloc_pad map_loop alloc_get_desc
    alloc_get_size alloc_get_next_desc align Page.page_new page_set_entry entry_at page_get_table
    page_get_dir_idx page_get_table_idx load store invlpg
gives_table = refl

pub gives_table_node : kernel_calls.kmalloc 16 k₁ ≡ ok (24584, k₂)
unfolding kmalloc kalloc ops alloc alloc_bytes alloc_search alloc_extend alloc_pad map_loop
    alloc_get_desc alloc_get_size alloc_get_next_desc align load store
gives_table_node = refl

pub gives_page : kernel_calls.page_new listed ≡ ok (73728, k₃)
unfolding ops Page.page_new load store
gives_page = refl

pub gives_node : kernel_calls.kmalloc 8 entered ≡ ok (24608, k₄)
unfolding kmalloc kalloc ops alloc alloc_bytes alloc_search alloc_extend alloc_pad map_loop
    alloc_get_desc alloc_get_size alloc_get_next_desc align load store
gives_node = refl

-- A store behind what is in use.
behind :
    (Held : ℕ → Type 0) (end_ : ℕ) (below : (b : ℕ) → Held b → b < end_) (a v : ℕ) (k : Kernel)
    → end_ ≤ a
    → Same Held k (store a v k)
behind Held end_ below a v k le =
    Same-store Held a v k (λ b h e. (let lt = below b h in omega arith))

WithTable-below : (b : ℕ) → WithTable b → b < 24576
WithTable-below b (inl low) = omega arith
WithTable-below b (inr i) = i.1

WithNode-below : (b : ℕ) → WithNode b → b < 24600
WithNode-below b (inl h) = let lt = WithTable-below b h in omega arith
WithNode-below b (inr i) = i.1

table_same : Same Low three_procs.kernel table_words
table_same =
    let at = behind Low 12288 (λ b h. h) in
    let s₁ = store 12308 65539 three_procs.kernel in
    let s₂ = store 12312 69635 s₁ in
    let s₃ = store 20476 4096 s₂ in
    let s₄ = store 24576 4096 s₃ in
    Same-trans Low (at 12308 65539 three_procs.kernel (omega arith)) (
      Same-trans Low (at 12312 69635 s₁ (omega arith)) (
        Same-trans Low (at 20476 4096 s₂ (omega arith))
          (Same-trans Low (at 24576 4096 s₃ (omega arith)) (at 24580 0 s₄ (omega arith)))))

-- The three words of a chunk that is put behind the heap.
chunk_same :
    (Held : ℕ → Type 0) (end_ : ℕ) (below : (b : ℕ) → Held b → b < end_) (a b c u v w : ℕ)
    (k : Kernel)
    → end_ ≤ a
    → end_ ≤ b
    → end_ ≤ c
    → Same Held k (store c w (store b v (store a u k)))
chunk_same Held end_ below a b c u v w k in_a in_b in_c =
    Same-trans Held (behind Held end_ below a u k in_a) (
      Same-trans Held (behind Held end_ below b v (store a u k) in_b)
        (behind Held end_ below c w (store b v (store a u k)) in_c))

pub table-IsBlock : IsBlock Low 20480 4096 three_procs.kernel k₁
unfolding load
table-IsBlock = record {
  some_block = omega arith;
  inside = omega arith;
  unused = λ b i h. (let from = i.0 in omega arith);
  same = let r = table_same in record { lookup = r.lookup; dir = r.dir; words = r.words };
}

pub table_node-IsBlock : IsBlock WithTable 24584 16 k₁ k₂
unfolding load
table_node-IsBlock = record {
  some_block = omega arith;
  inside = omega arith;
  unused = λ b i h. (let from = i.0 in let lt = WithTable-below b h in omega arith);
  same =
      let r =
        chunk_same WithTable 24576 WithTable-below 24580 24600 24604 16 16 0 k₁ (omega arith)
          (omega arith) (omega arith) in
      record { lookup = r.lookup; dir = r.dir; words = r.words };
}

pub page_same : Same WithNode listed k₃
unfolding load
page_same = record { lookup = refl; dir = refl; words = λ b h. refl }

pub node-IsBlock : IsBlock WithNode 24608 8 entered k₄
unfolding load
node-IsBlock = record {
  some_block = omega arith;
  inside = omega arith;
  unused = λ b i h. (let from = i.0 in let lt = WithNode-below b h in omega arith);
  same =
      let r =
        chunk_same WithNode 24600 WithNode-below 24604 24616 24620 8 8 0 entered (omega arith)
          (omega arith) (omega arith) in
      record { lookup = r.lookup; dir = r.dir; words = r.words };
}

abbrev pub four_calls : Calls kernel_calls Low 0 (sub32 0xc0000000 page_size) three_procs.kernel
four_calls = record {
  table = 20480;
  k₁ = k₁;
  gives_table = gives_table;
  table_block = table-IsBlock;
  table_node = 24584;
  k₂ = k₂;
  gives_table_node = gives_table_node;
  table_node_block = table_node-IsBlock;
  page = 73728;
  k₃ = k₃;
  gives_page = gives_page;
  page_same = page_same;
  node = 24608;
  k₄ = k₄;
  gives_node = gives_node;
  node_block = node-IsBlock;
}
