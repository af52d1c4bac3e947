-- ===== src/Alloc/Mark.antt =====
-- A chunk in use is marked free and its node put in front of the free list.
use trash_os.Base.{ℕ, ◌+◌, refl, sym, ap, ◌∙◌, arith, ◌||◌, List, [], ◌∷◌, ◌++◌, ◌==◌, eq→==}
use trash_os.Kernel.{Kernel}
use trash_os.Alloc.{alloc_node_add}
use trash_os.Alloc.Chunks.{Chunk, IsHeap, end_of, node-IsOff}
use trash_os.Alloc.Keep.{IsHeap-IsKept, add-IsKept}
use trash_os.Alloc.Rewrite.{put, put-IsKept}
use trash_os.Alloc.Reads.{kept-Placed}
use trash_os.Alloc.Join.{freed}
use trash_os.Alloc.Nodes.{nodes-freed, used-is_out}
use trash_os.Alloc.Merge.{Rest, kept-IsHeap}

pub mark-IsHeap :
    (d : ℕ) (before : List Chunk) (c : Chunk) (after : List Chunk) (k : Kernel)
    → (r : Rest d before c after k)
    → let e = end_of d before in
      IsHeap d
        (before ++ freed c ∷ after)
        ((e + 8) ∷ r.free_list)
        (alloc_node_add (e + 8) (put e (freed c) k))
mark-IsHeap d before c after k r =
    let e : ℕ = end_of d before in
    let h = IsHeap-IsKept r.heap in
    let p = kept-Placed d before c after r.free_list k h in
    let al = p.aligned in
    let free_h =
      put-IsKept d before (c ∷ []) after (freed c) r.free_list k refl (p.size_least, p.size_aligned)
        h in
    let freed_here = nodes-freed (e + 8) d before c after r.used in
    let off =
      node-IsOff (e + 8) d (before ++ freed c ∷ after) free_h.sized h.aligned
        (sym freed_here ∙ (rw (eq→== (e + 8) (e + 8) refl) refl)) in
    let new = r.heap.nodes (e + 8) ∙ used-is_out d before c after r.used in
    kept-IsHeap
      (add-IsKept (e + 8) d (before ++ freed c ∷ after) r.free_list (put e (freed c) k) free_h new
        (omega arith, omega arith) (off.2, off.3))
      (λ x. ap (λ t. x == e + 8 || t) (r.heap.nodes x) ∙ nodes-freed x d before c after r.used)
