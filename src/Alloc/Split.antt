-- ===== src/Alloc/Split.antt =====
-- `alloc_split` keeps the heap: the chunk is cut, and the rest of it is free.
use trash_os.Base.{
  ℕ, ◌+◌, ◌^◌, ◌<◌, ◌≡◌, ◌≢◌, refl, sym, ap, ◌∙◌, arith, Bool, true, false, not, ◌&&◌, ◌||◌, List,
  ◌∷◌, ◌++◌, ◌==◌,
}
use mathlib.Core.Path.{subst}
use trash_os.Kernel.{Kernel, store}
use trash_os.Alloc.{alloc_split}
use trash_os.Alloc.FreeList.{IsOutside, IsFreeList}
use trash_os.Alloc.Members.{is_in, All-of-is_in, split_at, is_in-append, is_in-without}
use trash_os.Alloc.Chunks.{
  Chunk, IsHeap, IsOff, end_of, end_of-append, last_tag, free_nodes, IsLaid-frame,
}
use trash_os.Alloc.Keep.{linked_distinct}
use trash_os.Alloc.Rewrite.{IsSized-replace}
use trash_os.Alloc.Nodes.{in_nodes, nodes_without}
use trash_os.Alloc.Relink.{IsCopy}
use trash_os.Alloc.Replace.{relink, relink-IsFreeList, relink_frame, relink-limit}
use trash_os.Alloc.Carve.{rest_of, carved, split_carved}
use trash_os.Alloc.CarvedWords.{taken_of, carved_words}
use trash_os.Alloc.Take.{node_listed}
use trash_os.Alloc.CutWords.{
  Cut, chunks, placed, clear, ends, same_node, carved_list, carved-IsLaid, IsOff-new,
}

module _ (d : ℕ) (before : List Chunk) (c : Chunk) (after : List Chunk) (bytes : ℕ) (fs : List ℕ)
    (k : Kernel) (s : Cut d before c after bytes fs k) where
  new_node : ℕ
  new_node = end_of d before + 8 + bytes + 8

  copied : IsCopy (carved (end_of d before) c bytes k).mem (end_of d before + 8) new_node fs
  unfolding new_node
  copied =
      let e : ℕ = end_of d before in
      let p = placed s in
      let al = p.aligned in
      let al' = s.aligned in
      let listed = node_listed d before c after fs k s.heap s.free in
      let (w₁, w₂, w₃, w₄, w₅, w₆) = carved_words e c bytes k (s.room, s.least) in
      let (same, same') = same_node s (e + 8) listed in
      (
        (omega arith, omega arith),
        All-of-is_in (λ y. e + 8 + bytes + 8 ≢ y) fs
            (λ y m. let far = (clear s y m).2 in λ q. far (sym q)),
        w₅ ∙ sym same,
        w₆ ∙ sym same',
      )

  end_kept : end_of d (chunks s) ≡ end_of d (before ++ c ∷ after)
  end_kept =
      end_of-append d before (taken_of bytes ∷ rest_of c bytes ∷ after)
      ∙ ap (λ t. end_of t after) (ends s)
      ∙ sym (end_of-append d before (c ∷ after))

  chunk_nodes :
      (x : ℕ)
      → is_in x (free_nodes d (chunks s)) ≡ (
          is_in x (free_nodes d before)
          || (x == new_node || is_in x (free_nodes (end_of d before + 8 + c.size) after)))
  unfolding new_node
  chunk_nodes x =
      in_nodes x d before (taken_of bytes ∷ rest_of c bytes ∷ after)
      ∙ ap
          (λ t.
            is_in x (free_nodes d before)
            || (x == end_of d before + 8 + bytes + 8 || is_in x (free_nodes t after)))
          (ends s)

  -- The list with the new node in the place of the old one holds the nodes of the new (chunks s).
  renamed :
      (x : ℕ) (front back : List ℕ)
      → fs ≡ front ++ (end_of d before + 8) ∷ back
      → is_in x (front ++ new_node ∷ back) ≡ is_in x (free_nodes d (chunks s))
  renamed x front back at =
      let n : ℕ = end_of d before + 8 in
      let list = subst (IsFreeList k) at s.heap.list in
      let (out, out') = linked_distinct k.mem 0 k.ctxt.free_list front n back list in
      let A : Bool = is_in x (free_nodes d before) in
      let R : Bool = is_in x (free_nodes (n + c.size) after) in
      let others : (is_in x front || is_in x back) ≡ (A || R) =
        sym (is_in-append x front back)
        ∙ is_in-without x front n back out out'
        ∙ ap (λ t. is_in x t && not (x == n)) (sym at)
        ∙ ap (λ t. t && not (x == n)) (s.heap.nodes x)
        ∙ ap (λ t. t && not (x == n)) (in_nodes x d before (c ∷ after))
        ∙ (rw s.free (nodes_without x n d (n + c.size) before after (omega arith) (omega arith))) in
      is_in-append x front (new_node ∷ back)
      ∙ inner (is_in x front) (x == new_node) (is_in x back)
      ∙ ap (λ t. x == new_node || t) others
      ∙ inner' A (x == new_node) R
      ∙ sym (chunk_nodes x)
    where
      inner : (a b c : Bool) → (a || (b || c)) ≡ (b || (a || c))
      inner true true c = refl
      inner true false c = refl
      inner false true c = refl
      inner false false c = refl

      inner' : (a b c : Bool) → (b || (a || c)) ≡ (a || (b || c))
      inner' a b c = sym (inner a b c)

  pub split_heap :
      (fs' : List ℕ) × IsHeap d (chunks s) fs' (alloc_split (end_of d before + 8) bytes k)
  unfolding new_node store
  split_heap =
      let e : ℕ = end_of d before in
      let n : ℕ = e + 8 in
      let r = s.room in
      let l = s.least in
      let al = s.aligned in
      let p = placed s in
      let al' = p.size_aligned in
      let k' = carved e c bytes k in
      let (front, back, at) = split_at n fs (node_listed d before c after fs k s.heap s.free) in
      let list = subst (IsFreeList k') at (carved_list s) in
      let copy = subst (IsCopy k'.mem n new_node) at copied in
      let off =
        All-of-is_in (λ x. IsOff x d (chunks s) × IsOff (x + 4) d (chunks s)) fs (IsOff-new s) in
      (
        front ++ new_node ∷ back,
        subst (IsHeap d (chunks s) (front ++ new_node ∷ back))
            (sym (split_carved e (last_tag 0 before) c after bytes k p s.free (omega arith, al, l)))
            (record {
              laid =
                  IsLaid-frame k'.mem (relink new_node k').mem d 0 (chunks s) fs off
                    (λ a out.
                      relink_frame front n new_node back k' a list copy
                        (subst (IsOutside a) at out))
                    (carved-IsLaid s);
              sized =
                  IsSized-replace before (c ∷ after) (taken_of bytes ∷ rest_of c bytes ∷ after)
                    s.heap.sized ((l, al), ((omega arith, omega arith), p.sized));
              aligned = s.heap.aligned;
              fits = subst (λ t. t + 8 < 2 ^ 32) (sym end_kept) s.heap.fits;
              limit = relink-limit new_node k' ∙ s.heap.limit ∙ ap (λ t. t + 8) (sym end_kept);
              list = relink-IsFreeList front n new_node back k' list copy;
              nodes = λ x. renamed x front back at;
            }),
      )
