-- ===== src/Alloc/Take.antt =====
-- The chunk that `alloc` found is taken out of the free list or split, and the heap stays a heap.
use trash_os.Base.{
  ℕ, ◌+◌, ◌≡◌, refl, sym, ap, ◌∙◌, Bool, true, false, not, ◌&&◌, ◌||◌, List, [], ◌∷◌, ◌++◌, All,
  ◌==◌, eq→==,
}
use mathlib.Core.Path.{subst}
use trash_os.Kernel.{Kernel}
use trash_os.Alloc.{alloc_node_unlink, alloc_clear_free}
use trash_os.Alloc.FreeList.{IsLinked}
use trash_os.Alloc.Members.{is_in}
use trash_os.Alloc.Chunks.{Chunk, IsHeap, end_of, last_tag, free_nodes}
use trash_os.Alloc.Keep.{IsHeap-IsKept, unlink-IsKept}
use trash_os.Alloc.Rewrite.{put-IsKept}
use trash_os.Alloc.Reads.{kept-Placed}
use trash_os.Alloc.Merge.{kept-IsHeap}
use trash_os.Alloc.Nodes.{in_nodes, nodes-busy}
use trash_os.Alloc.Carve.{busy, clear_free_put}

-- A free chunk's node is listed.
pub node_listed :
    (d : ℕ) (before : List Chunk) (c : Chunk) (after : List Chunk) (fs : List ℕ) (k : Kernel)
    → IsHeap d (before ++ c ∷ after) fs k
    → c.is_free ≡ true
    → is_in (end_of d before + 8) fs ≡ true
node_listed d before c after fs k h free =
    let n : ℕ = end_of d before + 8 in
    h.nodes n
    ∙ in_nodes n d before (c ∷ after)
    ∙ (rw (free, eq→== n n refl) (or_true (is_in n (free_nodes d before))))
  where
    or_true : (b : Bool) → (b || true) ≡ true
    or_true true = refl
    or_true false = refl

-- A chunk of the size asked for.
pub take_exact :
    (d : ℕ) (before : List Chunk) (c : Chunk) (after : List Chunk) (fs : List ℕ) (k : Kernel)
    → IsHeap d (before ++ c ∷ after) fs k
    → c.is_free ≡ true
    → let n = end_of d before + 8 in
      (fs' : List ℕ) × IsHeap d
        (before ++ busy c ∷ after)
        fs'
        (alloc_clear_free n (alloc_node_unlink n k))
take_exact d before c after fs k h free =
    let e : ℕ = end_of d before in
    let n : ℕ = e + 8 in
    let listed = node_listed d before c after fs k h free in
    let u = unlink-IsKept n d (before ++ c ∷ after) fs k (IsHeap-IsKept h) listed in
    let k₁ = alloc_node_unlink n k in
    let p = kept-Placed d before c after u.left k₁ u.kept in
    (
      u.left,
      subst (IsHeap d (before ++ busy c ∷ after) u.left)
          (sym (clear_free_put e (last_tag 0 before) c after k₁ p))
          (kept-IsHeap
            (put-IsKept d before (c ∷ []) after (busy c) u.left k₁ refl
              (p.size_least, p.size_aligned) u.kept)
            (λ x.
              u.members x
              ∙ ap (λ t. t && not (x == n)) (h.nodes x)
              ∙ nodes-busy x d before c after free)),
    )

-- A list at the same words in two memories.
pub IsLinked-same :
    (mem mem' : ℕ → ℕ) (prev p : ℕ) (xs : List ℕ)
    → All (λ x. (mem' x ≡ mem x) × (mem' (x + 4) ≡ mem (x + 4))) xs
    → IsLinked mem prev p xs
    → IsLinked mem' prev p xs
IsLinked-same mem mem' prev p [] same h = h
IsLinked-same mem mem' prev p (x ∷ xs) same (at, addr, back, apart, rest) = (
  at,
  addr,
  same.0.0 ∙ back,
  apart,
  subst (λ t. IsLinked mem' x t xs) (sym same.0.1)
      (IsLinked-same mem mem' x (mem (x + 4)) xs same.1 rest),
)
