-- ===== src/Page/FreePages.antt =====
-- `page_free` and `page_new` keep a stack of free physical pages in memory.
use trash_os.Base.{
  ℕ, ◌+◌, ◌*◌, ◌/◌, ◌%◌, ◌^◌, ◌<◌, ◌≡◌, ◌≢◌, refl, ap, ◌∙◌, false, not, arith, List, [], ◌∷◌, eq→==,
  ne→==-false, u32,
}
use trash_os.Base.Runs.{Run, ok, ◌>>=◌}
use trash_os.Kernel.{Kernel, load, store, invlpg}
use trash_os.Page.{
  page_size, page_get_pma, page_get_entry, page_is_present, page_unmap, page_new, page_free,
  entry_at, page_get_table,
}
use trash_os.Page.Entries.{lookup_at, IsSeparate, entry_at-store, load-store_ne, page_unmap-Updates}

-- From the node at `p` the list holds the physical pages `pmas`, in order.
abbrev pub IsFreePages : (ℕ → ℕ) → ℕ → List ℕ → Type 0
IsFreePages mem p [] = p ≡ 0
IsFreePages mem p (pma ∷ pmas) = (p ≢ 0) × (mem p ≡ pma) × IsFreePages mem (mem (p + 4)) pmas

-- What `page_new` relies on: `kfree` of the node that it took off returns, and touches neither the
-- list that is left nor the variables of page.c.
pub record Frees (kfree : ℕ → Kernel → Run Kernel) (node : ℕ) (k : Kernel) (pmas : List ℕ)
    : Type 0 where
  pub after : Kernel
  pub returns : kfree node k ≡ ok after
  pub list : after.page_free_list ≡ k.page_free_list
  pub next_page : after.kernel_heap_end_pma ≡ k.kernel_heap_end_pma
  pub pages : IsFreePages after.mem after.page_free_list pmas

-- The page that `page_new` is to return, from the free pages and the end of the physical heap.
abbrev pub next_pma : List ℕ → ℕ → ℕ
next_pma [] limit = limit
next_pma (pma ∷ pmas) limit = pma

abbrev pub pages_left : List ℕ → List ℕ
pages_left [] = []
pages_left (pma ∷ pmas) = pmas

abbrev pub limit_after : List ℕ → ℕ → ℕ
limit_after [] limit = u32 (limit + page_size)
limit_after (pma ∷ pmas) limit = limit

-- `page_new` returns the page freed last and takes it off the list, or the page at the end of the
-- heap, which it moves by a page; it does the second only if no page is free. Where a page is free,
-- `kfree` of its node must return and keep the rest of the list and the end of the heap.
pub page_new_lem :
    (kfree : ℕ → Kernel → Run Kernel) (k : Kernel) (pmas : List ℕ)
    → IsFreePages k.mem k.page_free_list pmas
    → (k.page_free_list ≢ 0
        → Frees kfree k.page_free_list
            (record k { page_free_list = k.mem (k.page_free_list + 4) })
            (pages_left pmas))
    → (k' : Kernel) × (page_new kfree k ≡ ok (next_pma pmas k.kernel_heap_end_pma, k'))
      × IsFreePages k'.mem k'.page_free_list (pages_left pmas)
      × (k'.kernel_heap_end_pma ≡ limit_after pmas k.kernel_heap_end_pma)
unfolding page_new load
page_new_lem kfree k [] empty frees = (
  record k { kernel_heap_end_pma = u32 (k.kernel_heap_end_pma + page_size) },
  rw (eq→== k.page_free_list 0 empty),
  empty,
  refl,
)
page_new_lem kfree k (pma ∷ pmas) (some_node, here, rest) frees =
    let freed = frees some_node in
    (
      freed.after,
      rw (ne→==-false k.page_free_list 0 some_node, freed.returns, here),
      freed.pages,
      freed.next_page,
    )

-- A node of the allocator that is apart from the page table entry of `vma` and from the element of
-- the lookup table that leads to it.
pub record IsNode (node vma : ℕ) (k : Kernel) : Type 0 where
  pub not_null : node ≢ 0
  pub off_lookup : (lookup_at vma k ≢ node) × (lookup_at vma k ≢ node + 4)
  pub off_entry : (entry_at vma k ≢ node) × (entry_at vma k ≢ node + 4)

module _ (kmalloc : ℕ → Kernel → Run (ℕ × Kernel)) (vma node : ℕ) (k k₁ : Kernel)
    (got : kmalloc 8 k ≡ ok (node, k₁)) (is : IsNode node vma k₁) (apart : IsSeparate vma k₁)
    (word : page_get_entry vma k₁ < 2 ^ 32) where
  k₂ : Kernel
  k₂ = store node (page_get_pma vma k₁) k₁

  k₃ : Kernel
  k₃ = store (node + 4) k₁.page_free_list k₂

  entry₃ : entry_at vma k₃ ≡ entry_at vma k₁
  unfolding k₂ k₃ store
  entry₃ =
      entry_at-store (node + 4) k₁.page_free_list vma k₂ is.off_lookup.1
      ∙ entry_at-store node (page_get_pma vma k₁) vma k₁ is.off_lookup.0

  value₃ : page_get_entry vma k₃ ≡ page_get_entry vma k₁
  unfolding page_get_entry k₂ k₃
  value₃ =
      ap (λ (a : ℕ). load a k₃) entry₃
      ∙ load-store_ne (node + 4) (entry_at vma k₁) k₁.page_free_list k₂ is.off_entry.1
      ∙ load-store_ne node (entry_at vma k₁) (page_get_pma vma k₁) k₁ is.off_entry.0

  k₄ : Kernel
  k₄ = record (page_unmap vma k₃) { page_free_list = node }

  -- The words of the node, after the entry of `vma` was written.
  words₄ : (k₄.mem node ≡ page_get_pma vma k₁) × (k₄.mem (node + 4) ≡ k₁.page_free_list)
  unfolding k₂ k₃ k₄ page_unmap store invlpg
  words₄ = (ground (arith, entry₃, is.off_entry.0), ground (arith, entry₃, is.off_entry.1))

  absent₄ : page_is_present vma k₄ ≡ false
  unfolding k₂ k₃ k₄ page_is_present page_get_entry entry_at page_get_table load store
  absent₄ =
      let sep : IsSeparate vma k₃ = rw entry₃ apart in
      let small : page_get_entry vma k₃ < 2 ^ 32 = rw value₃ word in
      let updated = page_unmap-Updates vma k₃ sep small in
      updated.entry.present
      ∙ ap not (eq→== (page_get_entry vma k₃ % 4096 / 2 * 2 % 2) 0 (omega arith))

  -- After `page_free` of a page, whose node `kmalloc` placed apart from the entry of `vma` and the
  -- lookup element that leads to it, the page is not present, and the next `page_new` frees that
  -- node and returns the physical page that was freed. The entry of `vma` is a 32-bit word and not
  -- that lookup element.
  pub page_new-page_free :
      (k₅ : Kernel) × (page_free kmalloc vma k ≡ ok k₅)
      × (page_is_present vma k₅ ≡ false)
      × ((kfree : ℕ → Kernel → Run Kernel)
          → page_new kfree k₅ ≡ (
              kfree node (record k₅ { page_free_list = k₁.page_free_list }) >>= λ k'.
              ok (page_get_pma vma k₁, k')))
  unfolding page_free page_new k₂ k₃ k₄ load
  page_new-page_free =
      (k₄, rw got, absent₄, λ kfree. rw (ne→==-false node 0 is.not_null, words₄.0, words₄.1))
