-- ===== src/Alloc/Pad.antt =====
-- The free chunk that `alloc` leaves in front of an aligned one.
use trash_os.Base.{
  ℕ, ◌+◌, ◌%◌, ◌^◌, ◌≤◌, ◌<◌, ◌≡◌, ◌≢◌, refl, sym, ap, ◌∙◌, arith, true, u32, sub32, lt→leb-false,
  ◌==◌, List, [], ◌∷◌, ◌++◌, ne→==-false, inl, inr, Bool-cases,
}
use trash_os.Base.Runs.{ok, halted}
use trash_os.Kernel.{Kernel, Ctxt, store}
use trash_os.Mem.{align}
use trash_os.Alloc.{
  alloc_pad, alloc_get_desc, alloc_node_add, set_limit, alloc_get_next_desc, link_next,
}
use trash_os.Alloc.FreeList.{mem-link_next}
use trash_os.Alloc.Chunks.{Chunk, tag, IsHeap, end_of}
use trash_os.Alloc.Reads.{desc_of}
use trash_os.Alloc.Rewrite.{put}
use trash_os.Alloc.Join.{raise_flag, load-store, next-stored}
use trash_os.Alloc.Mark.{mark-IsHeap}
use trash_os.Alloc.CarvedWords.{taken_of}
use trash_os.Alloc.Grow.{grown, grown-IsHeap}

-- A free chunk of `size` bytes.
abbrev pub spare : ℕ → Chunk
spare size = record { size = size; is_free = true }

-- What `alloc_pad` writes for `size` bytes behind descriptor `e`.
abbrev pub padded : ℕ → ℕ → Kernel → Kernel
padded e size k =
    let word : ℕ = tag (spare size) in
    let k₃ = store (e + 8 + size) word (store (e + 4) word (store (e + 4) size k)) in
    set_limit (e + 8 + size + 8) (alloc_node_add (e + 8) k₃)

limit-add : (n : ℕ) (k : Kernel) → (alloc_node_add n k).ctxt.limit ≡ k.ctxt.limit
unfolding alloc_node_add store
limit-add n k =
    ap (λ c. c.limit)
      (mem-link_next k.ctxt.free_list n (store (n + 4) k.ctxt.free_list (store n 0 k))).1

limit-stores :
    (a v b w c x : ℕ) (k : Kernel) → (store a v (store b w (store c x k))).ctxt.limit ≡ k.ctxt.limit
unfolding store
limit-stores a v b w c x k = refl

-- Padding by more than a descriptor.
pub pad_some :
    (alignment e size : ℕ) (k : Kernel)
    → k.ctxt.limit ≡ e + 8
    → align k.ctxt.limit alignment ≡ k.ctxt.limit + (size + 8)
    → (8 ≤ size) × (size % 8 ≡ 0) × (e + 8 + size + 8 < 2 ^ 32)
    → alloc_pad alignment k ≡ ok (padded e size k)
unfolding alloc_pad
pad_some alignment e size k limit at (least, al, small) =
    let l : ℕ = k.ctxt.limit in
    let k₁ = store (e + 4) size k in
    let k₂ = store (e + 4) (size + 1) k₁ in
    let k₃ = store (e + 8 + size) (size + 1) k₂ in
    let desc : alloc_get_desc l ≡ e = ap alloc_get_desc limit ∙ desc_of e (omega arith) in
    let next : alloc_get_next_desc l k₂ ≡ e + 8 + size =
      ap (λ t. alloc_get_next_desc t k₂) limit ∙ next-stored e (spare size) k₁ (small, al) in
    let limit₃ : (alloc_node_add l k₃).ctxt.limit ≡ l =
      limit-add l k₃ ∙ limit-stores (e + 8 + size) (size + 1) (e + 4) (size + 1) (e + 4) size k in
    let up : u32 (l + (size + 8)) ≡ e + 8 + size + 8 = omega arith in
    rw
      (
        at,
        (let q : sub32 (l + (size + 8)) l ≡ size + 8 = omega arith in q),
        ne→==-false (size + 8) 0 (λ z. omega arith),
        lt→leb-false (size + 8) 8 (omega arith),
        desc,
        (let q : sub32 (size + 8) 8 ≡ size = omega arith in q),
        load-store (e + 4) size k,
        raise_flag size al,
        load-store (e + 4) (size + 1) k₁,
        next,
        limit₃,
        up,
      )
      (ap (λ n. ok (set_limit (e + 8 + size + 8) (alloc_node_add n k₃))) limit)

pub pad_short :
    (alignment : ℕ) (k : Kernel)
    → align k.ctxt.limit alignment ≡ k.ctxt.limit + 8
    → k.ctxt.limit + 8 < 2 ^ 32
    → alloc_pad alignment k ≡ halted
unfolding alloc_pad
pad_short alignment k at small =
    rw (at, (let q : sub32 (k.ctxt.limit + 8) k.ctxt.limit ≡ 8 = omega arith in q)) refl

pub pad_zero :
    (alignment : ℕ) (k : Kernel)
    → align k.ctxt.limit alignment ≡ k.ctxt.limit
    → k.ctxt.limit < 2 ^ 32
    → alloc_pad alignment k ≡ ok k
unfolding alloc_pad
pad_zero alignment k at small =
    rw (at, (let q : sub32 k.ctxt.limit k.ctxt.limit ≡ 0 = omega arith in q)) refl

-- `alloc_node_add` at a word reads that word and the head of the list.
node_add_same :
    (n a : ℕ) (k k' : Kernel)
    → k'.ctxt.free_list ≡ k.ctxt.free_list
    → k'.mem a ≡ k.mem a
    → (alloc_node_add n k').mem a ≡ (alloc_node_add n k).mem a
unfolding alloc_node_add link_next store
node_add_same n a k k' head same =
    let h : ℕ = k.ctxt.free_list in
    rw head (elim (Bool-cases (h == 0)) [
      | inl none ↦ rw (none, same) refl
      | inr some ↦ rw (some, same) refl
    ])

-- The chunk as the last one of the heap, its end marked used.
pub ideal : ℕ → ℕ → Kernel → Kernel
ideal e size k =
    alloc_node_add (e + 8) (put e (spare size) (grown e size (set_limit (e + 8 + size + 8) k)))

pub ideal-IsHeap :
    (d size : ℕ) (cs : List Chunk) (fs : List ℕ) (k : Kernel)
    → IsHeap d cs fs k
    → (8 ≤ size) × (size % 8 ≡ 0) × (end_of d cs + 8 + size + 8 < 2 ^ 32)
    → IsHeap d (cs ++ spare size ∷ []) ((end_of d cs + 8) ∷ fs) (ideal (end_of d cs) size k)
unfolding ideal
ideal-IsHeap d size cs fs k h (least, al, small) =
    let e : ℕ = end_of d cs in
    mark-IsHeap d cs (taken_of size) [] (grown e size (set_limit (e + 8 + size + 8) k)) (record {
      free_list = fs;
      heap =
          grown-IsHeap d size cs fs k (set_limit (e + 8 + size + 8) k) h (al, least, small)
            (λ a q ne. refl) refl;
      used = refl;
    })

pub ideal_same :
    (e size a : ℕ) (k : Kernel)
    → 8 ≤ size
    → a ≢ e + 8 + size + 4
    → (padded e size k).mem a ≡ (ideal e size k).mem a
unfolding ideal store
ideal_same e size a k least ne =
    let f : ℕ = e + 8 + size in
    let word : ℕ = size + 1 in
    node_add_same (e + 8) a (put e (spare size) (grown e size (set_limit (f + 8) k)))
      (store f word (store (e + 4) word (store (e + 4) size k))) refl
      (elim (Bool-cases (a == f)) [
        | inl at ↦ rw at refl
        | inr off ↦ elim (Bool-cases (a == e + 4)) [
          | inl at ↦ rw (off, at) refl
          | inr off' ↦ rw (off, off', ne→==-false a (f + 4) ne) refl
        ]
      ])

ctxt_of : ℕ → ℕ → ℕ → Ctxt
ctxt_of p start limit = record { free_list = p; start = start; limit = limit }

add-ctxt :
    (n stop : ℕ) (k : Kernel)
    → (set_limit stop (alloc_node_add n k)).ctxt ≡ ctxt_of n k.ctxt.start stop
unfolding alloc_node_add store ctxt_of
add-ctxt n stop k =
    ap (λ (c : Ctxt). ctxt_of n c.start stop)
      (mem-link_next k.ctxt.free_list n (store (n + 4) k.ctxt.free_list (store n 0 k))).1

same_start :
    (e size : ℕ) (k : Kernel)
    → (store (e + 8 + size) (size + 1) (store (e + 4) (size + 1) (store (e + 4) size k))).ctxt.start
      ≡ (put e (spare size) (grown e size (set_limit (e + 8 + size + 8) k))).ctxt.start
unfolding store
same_start e size k = refl

pub ideal_ctxt :
    (e size stop : ℕ) (k : Kernel)
    → (set_limit stop (padded e size k)).ctxt ≡ (set_limit stop (ideal e size k)).ctxt
unfolding ideal
ideal_ctxt e size stop k =
    let n : ℕ = e + 8 in
    let k₁ = store (n + size) (size + 1) (store (e + 4) (size + 1) (store (e + 4) size k)) in
    let k₂ = put e (spare size) (grown e size (set_limit (n + size + 8) k)) in
    add-ctxt n stop k₁ ∙ ap (λ t. ctxt_of n t stop) (same_start e size k) ∙ sym (add-ctxt n stop k₂)
