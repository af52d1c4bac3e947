-- ===== src/Alloc/Tests.antt =====
-- Runs of the allocator on a heap with two free chunks.
use trash_os.Base.{
  ℕ, ltb, ◌≡◌, ◌≢◌, Bool, true, false, List, refl, [], ◌∷◌, ◌==◌, if◌then◌else◌, arith,
}
use trash_os.Base.Runs.{Run, ok, halted}
use trash_os.Kernel.{Kernel}
use trash_os.Alloc.{free, alloc, alloc_node_add, alloc_node_unlink, alloc_bytes, km_min_alloc_size}
use trash_os.Alloc.FreeList.{IsFreeList, alloc_node_add-IsFreeList}
use trash_os.Alloc.Unlink.{alloc_node_unlink-IsFreeList}
use trash_os.Alloc.Chunks.{Chunk, IsHeap}
use trash_os.Alloc.FreeRefine.{released, free-IsHeap}
use trash_os.Alloc.Aligned.{Aligned}
use trash_os.Alloc.Safety.{InUse}
use trash_os.Alloc.FreeSafety.{free-InUse}
use trash_os.Alloc.Search.{first_fit, answer, alloc-first_fit}

-- The nodes lie at 16 and 48; their chunks have 24 and 64 bytes.
abbrev words : ℕ → ℕ
words a =
    if a == 12
    then 24
    else if a == 20
    then 48
    else if a == 44
    then 64
    else if a == 48
    then 16
    else 0

abbrev heap : Kernel
heap = record {
  mem = words;
  ctxt = record { free_list = 16; start = 8; limit = 112 };
  page_dir = 4096;
  page_table_lookup = 8192;
  page_free_list = 0;
  kernel_heap_end_pma = 65536;
  kernel_heap_end_vma = 65536;
  flushed = [];
}

heap-IsFreeList : IsFreeList heap (16 ∷ 48 ∷ [])
heap-IsFreeList = (
  refl,
  (omega arith, refl),
  refl,
  (omega arith, tt),
  (refl, (omega arith, refl), refl, tt, refl),
)

abbrev no_page : Kernel → Run (ℕ × Kernel)
no_page k = halted

alloc-first_fit_example :
    alloc 5 no_page km_min_alloc_size 32 heap
    ≡ answer 5 no_page (alloc_bytes 32) heap (first_fit (alloc_bytes 32) heap (16 ∷ 48 ∷ []))
alloc-first_fit_example =
    alloc-first_fit 5 no_page 32 (16 ∷ 48 ∷ []) heap heap-IsFreeList (omega arith)

alloc_node_unlink-IsFreeList_example : IsFreeList (alloc_node_unlink 48 heap) (16 ∷ [])
alloc_node_unlink-IsFreeList_example =
    alloc_node_unlink-IsFreeList (16 ∷ []) 48 [] heap heap-IsFreeList

alloc_node_add-IsFreeList_example : IsFreeList (alloc_node_add 80 heap) (80 ∷ 16 ∷ 48 ∷ [])
alloc_node_add-IsFreeList_example =
    alloc_node_add-IsFreeList 80 (16 ∷ 48 ∷ []) heap heap-IsFreeList (omega arith, refl)
      (omega arith, (omega arith, tt))

-- A chunk of 8 bytes in use at 32, between free chunks at 16 and 48, before one in use at 72.
abbrev row_words : ℕ → ℕ
row_words a =
    if a == 12
    then 9
    else if a == 20
    then 48
    else if a == 24
    then 9
    else if a == 28
    then 8
    else if a == 40
    then 8
    else if a == 44
    then 17
    else if a == 48
    then 16
    else if a == 64
    then 17
    else if a == 68
    then 8
    else if a == 80
    then 8
    else 0

abbrev row : Kernel
row = record heap { mem = row_words; ctxt = record { free_list = 16; start = 8; limit = 88 } }

abbrev chunk : ℕ → Bool → Chunk
chunk size is_free = record { size = size; is_free = is_free }

abbrev behind : List Chunk
behind = chunk 16 true ∷ chunk 8 false ∷ []

row-IsHeap : IsHeap 8 (chunk 8 true ∷ chunk 8 false ∷ behind) (16 ∷ 48 ∷ []) row
row-IsHeap = record {
  laid = (refl, refl, (refl, refl, (refl, refl, (refl, refl, (refl, refl)))));
  sized = (
    (omega arith, refl),
    ((omega arith, refl), ((omega arith, refl), ((omega arith, refl), tt))),
  );
  aligned = refl;
  fits = omega arith;
  limit = refl;
  list = (
    refl,
    (omega arith, refl),
    refl,
    (omega arith, tt),
    (refl, (omega arith, refl), refl, tt, refl),
  );
  nodes = λ x. refl;
}

row_goes_on : chunk 8 false ∷ [] ≢ []
row_goes_on h = cc

free-IsHeap_example :
    (k' : Kernel) × (fs : List ℕ) × (free 1 (λ vma k. halted) 32 row ≡ ok k')
    × IsHeap 8 (released (chunk 8 true ∷ []) (chunk 8 false) behind) fs k'
free-IsHeap_example =
    free-IsHeap 0 (λ vma k. halted) 8 (chunk 8 true ∷ []) (chunk 8 false) behind (16 ∷ 48 ∷ []) row
      row-IsHeap refl (λ none. absurd (row_goes_on none))

-- The same row, with the addresses of the page tables from 1 MB on.
abbrev tabled : Kernel
tabled = record row {
  mem = λ a. if ltb a 1048576 then row_words a else 1052672;
  page_table_lookup = 1048576;
}

free-InUse_example :
    (k' : Kernel) × (cs' : List Chunk) × (fs' : List ℕ) × (free 1 (λ vma k. halted) 32 row ≡ ok k')
    × IsHeap 8 cs' fs' k'
    × ((a s : ℕ) → InUse 8 (chunk 8 true ∷ chunk 8 false ∷ behind) a s → a ≢ 32 → InUse 8 cs' a s)
free-InUse_example =
    free-InUse 0 (λ vma k. halted) 8 (chunk 8 true ∷ []) (chunk 8 false) behind (16 ∷ 48 ∷ []) row
      row-IsHeap refl (λ none. absurd (row_goes_on none))
