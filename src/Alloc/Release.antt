-- ===== src/Alloc/Release.antt =====
-- `free` of a chunk that has no free neighbour and is not the last of the heap.
use trash_os.Base.{
  ℕ, ◌+◌, ◌*◌, ◌/◌, ◌%◌, ◌^◌, ◌<◌, ◌≡◌, ◌≢◌, refl, sym, ap, ◌∙◌, arith, bit_and, bit_or, not32, u32,
  eq→==, ne→==-false, List, ◌∷◌, All,
}
use trash_os.Base.Bits.{bit_and_page, bit_or_disjoint}
use trash_os.Base.Runs.{Run, ok}
use trash_os.Kernel.{Kernel, load, store}
use trash_os.Alloc.{
  free, alloc_get_desc, alloc_get_size, alloc_get_next_desc, alloc_get_prev_desc, alloc_set_free,
  alloc_node_add, size_of, size_prev_of, desc_size, free_join_next, free_join_prev, km_chunk_free,
}
use trash_os.Alloc.FreeList.{
  IsNodeAddr, IsOutside, IsFreeList, IsLinked-update, alloc_node_add-IsFreeList,
}

-- The `size` word of a chunk.
abbrev pub size_word : ℕ → ℕ
size_word n = size_of (alloc_get_desc n)

-- A chunk in use at `n`, between chunks in use, before the end of the heap. The words with its two
-- flags belong to no node of the free list `ns`.
pub record IsInner (n : ℕ) (ns : List ℕ) (k : Kernel) : Type 0 where
  pub addr : IsNodeAddr n
  pub unlisted : All (λ x. n ≢ x) ns
  pub used : (load (size_word n) k < 2 ^ 32) × (load (size_word n) k % 2 ≡ 0)
  pub next_used : bit_and (load (size_of (alloc_get_next_desc n k)) k) km_chunk_free ≡ 0
  pub prev_used : bit_and (load (size_prev_of (alloc_get_desc n)) k) km_chunk_free ≡ 0
  pub before_end : u32 (n + alloc_get_size n k + desc_size) ≢ k.ctxt.limit
  pub flag_apart : IsOutside (size_word n) ns
  pub next_flag_apart : IsOutside (size_prev_of (alloc_get_next_desc n k)) ns

raise_flag : (w : ℕ) → w % 2 ≡ 0 → bit_or w 1 ≡ w + 1
raise_flag w even =
    let half : w ≡ w / 2 * 2 ^ 1 = omega arith in
    ap (λ (t : ℕ). bit_or t 1) half ∙ bit_or_disjoint 1 (w / 2) 1 (omega arith) ∙ omega arith

-- The flag is none of the bits of the size.
size_bits : (w : ℕ) → w < 2 ^ 32 → w % 2 ≡ 0 → bit_and (bit_or w 1) (not32 7) ≡ bit_and w (not32 7)
size_bits w small even =
    ap (λ (t : ℕ). bit_and t (not32 7)) (raise_flag w even)
    ∙ bit_and_page 3 29 (w + 1) (omega arith)
    ∙ (let e : (w + 1) / 2 ^ 3 * 2 ^ 3 ≡ w / 2 ^ 3 * 2 ^ 3 = omega arith in e)
    ∙ sym (bit_and_page 3 29 w (omega arith))

module _ (n : ℕ) (ns : List ℕ) (k : Kernel) (is : IsInner n ns k) where
  flagged : Kernel
  flagged = store (size_word n) (bit_or (load (size_word n) k) km_chunk_free) k

  same_next : alloc_get_next_desc n flagged ≡ alloc_get_next_desc n k
  unfolding flagged alloc_get_next_desc alloc_get_size load store
  same_next =
      let w = k.mem (size_word n) in
      rw (eq→== (size_word n) (size_word n) refl)
        (ap (λ (t : ℕ). u32 (n + t)) (size_bits w is.used.0 is.used.1))

  set_free-IsFreeList : IsFreeList k ns → IsFreeList (alloc_set_free n k) ns
  unfolding flagged alloc_set_free load store
  set_free-IsFreeList list =
      let head = k.ctxt.free_list in
      let first =
        IsLinked-update k.mem (size_word n) (bit_or (load (size_word n) k) km_chunk_free) 0 head ns
          is.flag_apart list in
      let apart : IsOutside (size_prev_of (alloc_get_next_desc n flagged)) ns =
        rw same_next is.next_flag_apart in
      IsLinked-update flagged.mem _ _ 0 head ns apart first

  no_join_next : free_join_next n k ≡ k
  unfolding free_join_next
  no_join_next = rw is.next_used refl

  no_join_prev : (prev : ℕ) → free_join_prev n prev k ≡ (n, k)
  unfolding free_join_prev
  no_join_prev prev = rw is.prev_used refl

  -- `free` of a chunk in use, between chunks in use and before the end of the heap, returns without
  -- fuel and puts the chunk, its flags set, in front of the free list. The words with its flags lie
  -- in no node of that list.
  pub free-IsFreeList :
      (page_free : ℕ → Kernel → Run Kernel)
      → IsFreeList k ns
      → (k' : Kernel) × (free 0 page_free n k ≡ ok k')
        × (k' ≡ alloc_node_add n (alloc_set_free n k))
        × IsFreeList k' (n ∷ ns)
  unfolding free
  free-IsFreeList page_free list = (
    alloc_node_add n (alloc_set_free n k),
    rw
        (
          no_join_next,
          no_join_prev (alloc_get_prev_desc n k),
          ne→==-false (u32 (n + alloc_get_size n k + desc_size)) k.ctxt.limit is.before_end,
        )
        refl,
    refl,
    alloc_node_add-IsFreeList n ns (alloc_set_free n k) (set_free-IsFreeList list) is.addr
        is.unlisted,
  )
