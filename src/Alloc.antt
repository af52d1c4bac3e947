-- ===== src/Alloc.antt =====
-- kernel/arch/i386/alloc.c and alloc.h: the kernel's memory allocator. A chunk is named by the
-- address of its memory (`vma`), behind its descriptor of two words, `size_prev` and `size`. A free
-- chunk begins with a list node of two words, `prev` and `next`. The only context is `kernel_ctxt`.
mod Tests
pub mod FreeList
pub mod Unlink
pub mod Search
pub mod Release
pub mod Members
pub mod Chunks
pub mod Frames
pub mod Relink
pub mod Replace
pub mod Keep
pub mod Rewrite
pub mod Reads
pub mod Join
pub mod Nodes
pub mod Merge
pub mod FreeHeap
pub mod Mark
pub mod FreeRefine
pub mod Carve
pub mod Take
pub mod CarvedWords
pub mod CutWords
pub mod Split
pub mod Place
pub mod Pages
pub mod Grow
pub mod Pad
pub mod AllocRefine
pub mod Aligned
pub mod Tables
pub mod Safety
pub mod FreeSafety
pub mod Knot
pub mod Cleanup
use trash_os.Base.{
  ℕ, zero, suc, ◌+◌, ◌-◌, ◌*◌, ◌/◌, ◌^◌, Bool, true, false, Option, none, some, bit_and, bit_or,
  ltb, leb, ◌==◌, if◌then◌else◌, u32, sub32, not32, ◌<<◌,
}
use trash_os.Base.Runs.{Run, ok, halted, out_of_fuel, ◌>>=◌}
use trash_os.Kernel.{Kernel, Ctxt, load, store}
use trash_os.Mem.{align}
use trash_os.Page.{page_size, page_present, page_write, page_set_entry}

-- `sizeof(alloc_node_t)`
abbrev pub km_min_alloc_size : ℕ
km_min_alloc_size = 8

abbrev pub km_chunk_free : ℕ
km_chunk_free = 1

-- `sizeof(alloc_chunk_desc_t)`
abbrev pub desc_size : ℕ
desc_size = 8

-- Where a descriptor has its fields, and a node.
abbrev pub size_prev_of : ℕ → ℕ
size_prev_of chunk = chunk

abbrev pub size_of : ℕ → ℕ
size_of chunk = chunk + 4

abbrev pub prev_of : ℕ → ℕ
prev_of node = node

abbrev pub next_of : ℕ → ℕ
next_of node = node + 4

unfoldable pub alloc_get_desc : ℕ → ℕ
alloc_get_desc vma = sub32 vma desc_size

unfoldable pub alloc_get_size : ℕ → Kernel → ℕ
alloc_get_size node k = bit_and (load (size_of (alloc_get_desc node)) k) (not32 0x7)

unfoldable pub alloc_get_size_prev : ℕ → Kernel → ℕ
alloc_get_size_prev node k = bit_and (load (size_prev_of (alloc_get_desc node)) k) (not32 0x7)

unfoldable pub alloc_get_next_desc : ℕ → Kernel → ℕ
alloc_get_next_desc node k = u32 (node + alloc_get_size node k)

unfoldable pub alloc_get_size_next : ℕ → Kernel → ℕ
alloc_get_size_next node k = bit_and (load (size_of (alloc_get_next_desc node k)) k) (not32 0x7)

unfoldable pub alloc_get_prev_desc : ℕ → Kernel → ℕ
alloc_get_prev_desc node k = sub32 (sub32 node (alloc_get_size_prev node k)) (desc_size << 1)

unfoldable pub alloc_get_node : ℕ → ℕ
alloc_get_node chunk = u32 (chunk + desc_size)

abbrev pub set_free_list : ℕ → Kernel → Kernel
set_free_list p k = record k { ctxt = record k.ctxt { free_list = p } }

abbrev pub set_limit : ℕ → Kernel → Kernel
set_limit a k = record k { ctxt = record k.ctxt { limit = a } }

-- `if (prev) prev->next = next; else ctxt->free_list = next;`
unfoldable pub link_prev : ℕ → ℕ → Kernel → Kernel
link_prev prev next k = if prev == 0 then set_free_list next k else store (next_of prev) next k

-- `if (next) next->prev = prev;`
unfoldable pub link_next : ℕ → ℕ → Kernel → Kernel
link_next next prev k = if next == 0 then k else store (prev_of next) prev k

unfoldable pub alloc_node_unlink : ℕ → Kernel → Kernel
unfolding link_prev link_next
alloc_node_unlink node k =
    let k' = link_prev (load (prev_of node) k) (load (next_of node) k) k in
    link_next (load (next_of node) k') (load (prev_of node) k') k'

unfoldable pub alloc_node_add : ℕ → Kernel → Kernel
unfolding link_next
alloc_node_add node k =
    let k₁ = store (prev_of node) 0 k in
    let k₂ = store (next_of node) k₁.ctxt.free_list k₁ in
    set_free_list node (link_next k₂.ctxt.free_list node k₂)

unfoldable pub alloc_clear_free : ℕ → Kernel → Kernel
alloc_clear_free vma k =
    let size = size_of (alloc_get_desc vma) in
    let k₁ = store size (bit_and (load size k) (not32 km_chunk_free)) k in
    let size_prev = size_prev_of (alloc_get_next_desc vma k₁) in
    store size_prev (bit_and (load size_prev k₁) (not32 km_chunk_free)) k₁

unfoldable pub alloc_set_free : ℕ → Kernel → Kernel
alloc_set_free vma k =
    let size = size_of (alloc_get_desc vma) in
    let k₁ = store size (bit_or (load size k) km_chunk_free) k in
    let size_prev = size_prev_of (alloc_get_next_desc vma k₁) in
    store size_prev (bit_or (load size_prev k₁) km_chunk_free) k₁

-- The chunk `n` is cut to `bytes`, and the rest of it takes its place in the free list.
unfoldable pub alloc_split : ℕ → ℕ → Kernel → Kernel
alloc_split n bytes k =
    let chunk = alloc_get_desc n in
    let new_chunk = u32 (n + bytes) in
    let k₁ = store (size_prev_of new_chunk) bytes k in
    let k₂ =
      store (size_of new_chunk) (sub32 (sub32 (load (size_of chunk) k₁) bytes) desc_size) k₁ in
    let k₃ = store (size_of new_chunk) (bit_or (load (size_of new_chunk) k₂) km_chunk_free) k₂ in
    let k₄ =
      store (size_prev_of (alloc_get_next_desc n k₃))
        (bit_or (load (size_of new_chunk) k₃) km_chunk_free) k₃ in
    let k₅ = store (size_of chunk) bytes k₄ in
    let new_node = u32 (u32 (n + bytes) + desc_size) in
    let prev = load (prev_of n) k₅ in
    let next = load (next_of n) k₅ in
    let k₆ = store (next_of new_node) next (store (prev_of new_node) prev k₅) in
    let k₇ = link_prev (load (prev_of new_node) k₆) new_node k₆ in
    link_next (load (next_of new_node) k₇) new_node k₇

-- The walk over the free list, from node `n`: the address returned, if a chunk fits.
unfoldable pub alloc_search : ℕ → ℕ → ℕ → Kernel → Run (Option (ℕ × Kernel))
alloc_search zero bytes n k = out_of_fuel
alloc_search (suc fuel) bytes n k =
    let size = alloc_get_size n k in
    let rest = alloc_search fuel bytes (load (next_of n) k) k in
    if n == 0
    then ok none
    else if size == bytes
    then ok (some (n, alloc_clear_free n (alloc_node_unlink n k)))
    else if ltb (u32 (bytes + desc_size)) size
    then ok (some (n, alloc_split n bytes k))
    else rest

-- The loop that maps a page for each page address from `page_vma` up to `stop`.
unfoldable pub map_loop : ℕ → (Kernel → Run (ℕ × Kernel)) → ℕ → ℕ → Kernel → Run Kernel
map_loop zero get_page_pma page_vma stop k = out_of_fuel
map_loop (suc fuel) get_page_pma page_vma stop k =
    let map_page : Run Kernel = (do
      (page_pma, k') ← get_page_pma k
      map_loop fuel get_page_pma (u32 (page_vma + page_size)) stop
          (page_set_entry page_vma (bit_or (bit_or page_pma page_write) page_present) k')) in
    if ltb page_vma stop then map_page else ok k

-- The unused region before an aligned chunk: nothing, too small a region, or a free chunk. For an
-- alignment above `page_size` the region can reach pages that are not mapped, where the code faults;
-- here the words are written.
unfoldable pub alloc_pad : ℕ → Kernel → Run Kernel
alloc_pad alignment k =
    let limit = k.ctxt.limit in
    let free_block_size = sub32 (align limit alignment) limit in
    let free_chunk = alloc_get_desc limit in
    let k₁ = store (size_of free_chunk) (sub32 free_block_size desc_size) k in
    let k₂ = store (size_of free_chunk) (bit_or (load (size_of free_chunk) k₁) km_chunk_free) k₁ in
    let k₃ =
      store (size_prev_of (alloc_get_next_desc limit k₂)) (load (size_of free_chunk) k₂) k₂ in
    let k₄ = alloc_node_add limit k₃ in
    if free_block_size == 0
    then ok k
    else if leb free_block_size desc_size
    then halted
    else ok (set_limit (u32 (k₄.ctxt.limit + free_block_size)) k₄)

-- From `extend_heap:` on.
unfoldable pub alloc_extend : ℕ → (Kernel → Run (ℕ × Kernel)) → ℕ → ℕ → Kernel → Run (ℕ × Kernel)
unfolding alloc_pad map_loop
alloc_extend fuel get_page_pma alignment bytes k = do
  k₁ ← alloc_pad alignment k
  let old_end = k₁.ctxt.limit
  let stop = u32 (old_end + bytes + desc_size)
  let k₂ = set_limit stop k₁
  k₃ ← map_loop fuel get_page_pma (align old_end page_size) stop k₂
  let k₄ = store (size_of (alloc_get_desc old_end)) bytes k₃
  let next = alloc_get_next_desc old_end k₄
  ok (old_end, store (size_of next) 0 (store (size_prev_of next) bytes k₄))

-- `bytes ? align(bytes, KM_MIN_ALLOC_SIZE) : KM_MIN_ALLOC_SIZE`
unfoldable pub alloc_bytes : ℕ → ℕ
alloc_bytes bytes = if bytes == 0 then km_min_alloc_size else align bytes km_min_alloc_size

unfoldable pub alloc : ℕ → (Kernel → Run (ℕ × Kernel)) → ℕ → ℕ → Kernel → Run (ℕ × Kernel)
unfolding alloc_search alloc_extend alloc_bytes
alloc fuel get_page_pma alignment bytes k =
    let size = alloc_bytes bytes in
    let extend = alloc_extend fuel get_page_pma alignment size k in
    let search : Run (ℕ × Kernel) = (do
      found ← alloc_search fuel size k.ctxt.free_list k
      elim found [ none ↦ extend | some r ↦ ok r ]) in
    if alignment == km_min_alloc_size then search else extend

-- `free` joins the chunk with the next one, if that is free.
unfoldable pub free_join_next : ℕ → Kernel → Kernel
free_join_next vma k =
    let chunk = alloc_get_desc vma in
    let chunk_next = alloc_get_next_desc vma k in
    let k₁ = alloc_node_unlink (alloc_get_node chunk_next) k in
    let k₂ =
      store (size_of chunk)
        (u32 (load (size_of chunk) k₁ + (alloc_get_size_next vma k₁ + desc_size))) k₁ in
    let k₃ = store (size_prev_of (alloc_get_next_desc vma k₂)) (load (size_of chunk) k₂) k₂ in
    if bit_and (load (size_of chunk_next) k) km_chunk_free == 0 then k else k₃

-- `free` joins the chunk with the previous one, if that is free; the address is that of the whole.
-- `chunk_prev` was read before the join with the next chunk.
unfoldable pub free_join_prev : ℕ → ℕ → Kernel → ℕ × Kernel
free_join_prev vma chunk_prev k =
    let node = alloc_get_node chunk_prev in
    let k₁ = alloc_node_unlink node k in
    let k₂ =
      store (size_of chunk_prev)
        (u32 (alloc_get_size_prev vma k₁ + alloc_get_size vma k₁ + desc_size)) k₁ in
    let k₃ = store (size_prev_of (alloc_get_next_desc node k₂)) (load (size_of chunk_prev) k₂) k₂ in
    if bit_and (load (size_prev_of (alloc_get_desc vma)) k) km_chunk_free == 0
    then (vma, k)
    else (node, k₃)

-- The loop that frees the pages from `page` down to `vma`.
unfoldable pub unmap_loop : ℕ → (ℕ → Kernel → Run Kernel) → ℕ → ℕ → Kernel → Run Kernel
unmap_loop zero page_free page vma k = out_of_fuel
unmap_loop (suc fuel) page_free page vma k =
    let free_page : Run Kernel = (do
      k' ← page_free page k
      unmap_loop fuel page_free (sub32 page page_size) vma k') in
    if leb vma page then free_page else ok k

unfoldable pub free : ℕ → (ℕ → Kernel → Run Kernel) → ℕ → Kernel → Run Kernel
free fuel page_free vma k =
    let chunk_prev = alloc_get_prev_desc vma k in
    let (whole, k₂) = free_join_prev vma chunk_prev (free_join_next vma k) in
    let shrink : Run Kernel = (do
      k₃ ← unmap_loop fuel page_free (bit_and k₂.ctxt.limit (not32 0xfff)) whole k₂
      ok (set_limit whole k₃)) in
    if u32 (whole + alloc_get_size whole k₂ + desc_size) == k₂.ctxt.limit
    then shrink
    else ok (alloc_node_add whole (alloc_set_free whole k₂))
