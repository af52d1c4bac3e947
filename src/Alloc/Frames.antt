-- ===== src/Alloc/Frames.antt =====
-- What the operations on the free list leave alone.
use trash_os.Base.{
  ℕ, ◌+◌, ◌≡◌, ◌≢◌, refl, sym, ap, ◌∙◌, arith, List, [], ◌∷◌, ◌++◌, All, update, ne→==-false,
}
use trash_os.Kernel.{Kernel, store}
use trash_os.Alloc.{alloc_node_unlink, alloc_node_add, link_next}
use trash_os.Alloc.FreeList.{
  IsNodeAddr, IsOutside, IsLinked, IsFreeList, IsLinked-update, linked_addrs, node-IsOutside,
  head_elsewhere, mem-link_next,
}
use trash_os.Alloc.Unlink.{
  off_head, if_elsewhere, unlinked_elsewhere, predecessor_apart, unlink-mem, unlink_first-mem,
}

pub unlink_frame :
    (before : List ℕ) (n : ℕ) (after : List ℕ) (k : Kernel) (a : ℕ)
    → IsFreeList k (before ++ n ∷ after)
    → IsOutside a (before ++ n ∷ after)
    → (alloc_node_unlink n k).mem a ≡ k.mem a
unlink_frame [] n after k a (at, addr, back, apart, rest) out =
    let next : ℕ = k.mem (n + 4) in
    ap (λ (m : ℕ → ℕ). m a) (unlink_first-mem n k back).0
    ∙ if_elsewhere k.mem 0 a next (off_head k.mem a n next after out.1 rest)
unlink_frame (b ∷ bs) n after k a list out =
    let (addr, addr', ne) = predecessor_apart k.mem 0 k.ctxt.free_list b bs n after list in
    ap (λ (m : ℕ → ℕ). m a) (unlink-mem n k addr addr' ne).0
    ∙ unlinked_elsewhere k.mem 0 k.ctxt.free_list b bs n after a list out

pub unlink-limit : (n : ℕ) (k : Kernel) → (alloc_node_unlink n k).ctxt.limit ≡ k.ctxt.limit
unfolding alloc_node_unlink store
unlink-limit n k = ground arith

pub add_frame :
    (node : ℕ) (xs : List ℕ) (k : Kernel) (a : ℕ)
    → IsFreeList k xs
    → IsNodeAddr node
    → All (λ x. node ≢ x) xs
    → IsOutside a (node ∷ xs)
    → (alloc_node_add node k).mem a ≡ k.mem a
unfolding alloc_node_add store
add_frame node xs k a list addr apart out =
    let head : ℕ = k.ctxt.free_list in
    let (o, o') = node-IsOutside node xs addr (linked_addrs k.mem 0 head xs list) apart in
    let m₁ : ℕ → ℕ = update k.mem node 0 in
    let m₂ : ℕ → ℕ = update m₁ (node + 4) head in
    let list₂ : IsLinked m₂ 0 head xs =
      IsLinked-update m₁ (node + 4) head 0 head xs o'
        (IsLinked-update k.mem node 0 0 head xs o list) in
    let ne = ne→==-false a node (λ e. out.0.0 (sym e)) in
    let ne' = ne→==-false a (node + 4) (λ e. out.0.1 (sym e)) in
    ap (λ (m : ℕ → ℕ). m a) (mem-link_next head node (store (node + 4) head (store node 0 k))).0
    ∙ head_elsewhere m₂ node a 0 head xs out.1 list₂
    ∙ rw (ne', ne) refl

pub add-limit : (n : ℕ) (k : Kernel) → (alloc_node_add n k).ctxt.limit ≡ k.ctxt.limit
unfolding alloc_node_add link_next store
add-limit n k = ground arith
