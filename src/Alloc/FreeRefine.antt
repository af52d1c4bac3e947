-- ===== src/Alloc/FreeRefine.antt =====
-- What `free` does to the chunks of the heap.
use trash_os.Base.{
  ℕ, ◌+◌, ◌<◌, ◌≡◌, refl, sym, ap, ◌∙◌, arith, Bool, true, false, bit_and, List, [], ◌∷◌, ◌++◌,
  ◌||◌, if◌then◌else◌, ◌==◌, eq→==, ne→==-false, not32, u32, suc, lt→leb-false,
}
use mathlib.Core.Path.{subst}
use mathlib.Core.List.{append-nil}
use trash_os.Base.Runs.{Run, ok, ◌>>=◌}
use trash_os.Kernel.{Kernel}
use trash_os.Alloc.{
  free, free_join_next, free_join_prev, alloc_get_prev_desc, alloc_get_size, unmap_loop, set_limit,
  alloc_node_add, alloc_set_free,
}
use trash_os.Alloc.Chunks.{
  Chunk, flag, IsHeap, end_of, end_of-append, le-end_of, last_tag, IsLaid-replace, free_nodes,
  IsLaid,
}
use trash_os.Alloc.Keep.{IsHeap-IsKept}
use trash_os.Alloc.Members.{is_in}
use trash_os.Alloc.Rewrite.{IsSized-prefix, put}
use trash_os.Alloc.Reads.{kept-Placed, size-at}
use trash_os.Alloc.Join.{joined, freed, set_free_put}
use trash_os.Alloc.Nodes.{in_nodes}
use trash_os.Alloc.Mark.{mark-IsHeap}
use trash_os.Alloc.Merge.{with_next, with_prev, Rest, join_next-Rest}
use trash_os.Alloc.FreeHeap.{join_prev-Whole, prev_desc}

-- The chunk `c` behind `before`, marked free; the last chunk of the heap is cut off.
abbrev pub finish : List Chunk → Chunk → List Chunk → List Chunk
finish before c [] = before
finish before c (n ∷ ns) = before ++ freed c ∷ n ∷ ns

-- The chunks after `free` of `c`, which stood between `before` and `after`.
abbrev pub released : List Chunk → Chunk → List Chunk → List Chunk
released before c after =
    let next = with_next c after in
    let prev = with_prev before next.0 in finish prev.0 prev.1 next.1

-- `free` behind its two joins.
tail : ℕ → (ℕ → Kernel → Run Kernel) → ℕ → Kernel → Run Kernel
tail fuel page_free whole k =
    let shrink : Run Kernel = (do
      k' ← unmap_loop fuel page_free (bit_and k.ctxt.limit (not32 0xfff)) whole k
      ok (set_limit whole k')) in
    if u32 (whole + alloc_get_size whole k + 8) == k.ctxt.limit
    then shrink
    else ok (alloc_node_add whole (alloc_set_free whole k))

-- What `tail` gives.
Done : ℕ → (ℕ → Kernel → Run Kernel) → ℕ → ℕ → List Chunk → Kernel → Type 0
Done fuel page_free whole d cs k =
    (k' : Kernel) × (fs : List ℕ) × (tail fuel page_free whole k ≡ ok k') × IsHeap d cs fs k'

-- Before the end of the heap.
tail_inner :
    (fuel : ℕ) (page_free : ℕ → Kernel → Run Kernel) (d : ℕ) (before : List Chunk) (c n : Chunk)
    (after : List Chunk) (k : Kernel)
    → Rest d before c (n ∷ after) k
    → Done fuel page_free (end_of d before + 8) d (before ++ freed c ∷ n ∷ after) k
unfolding tail Done
tail_inner fuel page_free d before c n after k r =
    let e : ℕ = end_of d before in
    let h = IsHeap-IsKept r.heap in
    let p = kept-Placed d before c (n ∷ after) r.free_list k h in
    let al = p.aligned in
    let s = p.small in
    let le = le-end_of (e + 8 + c.size + 8 + n.size) after in
    let limit : k.ctxt.limit ≡ end_of (e + 8 + c.size + 8 + n.size) after + 8 =
      h.limit ∙ ap (λ t. t + 8) (end_of-append d before (c ∷ n ∷ after)) in
    (
      alloc_node_add (e + 8) (put e (freed c) k),
      (e + 8) ∷ r.free_list,
      rw
          (
            size-at e (last_tag 0 before) c (n ∷ after) k p,
            set_free_put e (last_tag 0 before) c (n ∷ after) k p r.used,
            ne→==-false (u32 (e + 8 + c.size + 8)) k.ctxt.limit (λ q. omega arith),
          )
          refl,
      mark-IsHeap d before c (n ∷ after) k r,
    )

last_nodes :
    (x d : ℕ) (before : List Chunk) (c : Chunk)
    → c.is_free ≡ false
    → is_in x (free_nodes d (before ++ c ∷ [])) ≡ is_in x (free_nodes d before)
last_nodes x d before c used =
    in_nodes x d before (c ∷ []) ∙ (rw used (or_false (is_in x (free_nodes d before))))
  where
    or_false : (b : Bool) → (b || false) ≡ b
    or_false true = refl
    or_false false = refl

-- At the end of the heap, where the chunk does not begin before the last page.
tail_last :
    (fuel : ℕ) (page_free : ℕ → Kernel → Run Kernel) (d : ℕ) (before : List Chunk) (c : Chunk)
    (k : Kernel)
    → Rest d before c [] k
    → bit_and k.ctxt.limit (not32 0xfff) < end_of d before + 8
    → Done (suc fuel) page_free (end_of d before + 8) d before k
unfolding tail Done unmap_loop
tail_last fuel page_free d before c k r in_page =
    let e : ℕ = end_of d before in
    let h = IsHeap-IsKept r.heap in
    let p = kept-Placed d before c [] r.free_list k h in
    let al = p.size_aligned in
    let s = p.small in
    let limit : k.ctxt.limit ≡ e + 8 + c.size + 8 =
      h.limit ∙ ap (λ t. t + 8) (end_of-append d before (c ∷ [])) in
    let word : k.mem (e + 4) ≡ c.size + 0 = p.word_size ∙ ap (λ t. c.size + flag t) r.used in
    (
      set_limit (e + 8) k,
      r.free_list,
      rw
          (
            size-at e (last_tag 0 before) c [] k p,
            eq→== (u32 (e + 8 + c.size + 8)) k.ctxt.limit (omega arith),
            lt→leb-false (e + 8) (bit_and k.ctxt.limit (not32 0xfff)) in_page,
          )
          refl,
      record {
        laid = subst (IsLaid k.mem d 0) (append-nil before) (
            IsLaid-replace k.mem k.mem d 0 before (c ∷ []) [] (λ a q. refl) h.laid
              (p.word_prev, omega arith));
        sized = IsSized-prefix before (c ∷ []) h.sized;
        aligned = h.aligned;
        fits = omega arith;
        limit = refl;
        list = h.list;
        nodes = λ x. r.heap.nodes x ∙ last_nodes x d before c r.used;
      },
    )

free-tail :
    (fuel : ℕ) (page_free : ℕ → Kernel → Run Kernel) (v whole : ℕ) (k k' : Kernel)
    → free_join_prev v (alloc_get_prev_desc v k) (free_join_next v k) ≡ (whole, k')
    → free fuel page_free v k ≡ tail fuel page_free whole k'
unfolding free tail
free-tail fuel page_free v whole k k' at = rw at refl

end-with_next :
    (e : ℕ) (c : Chunk) (after : List Chunk)
    → end_of e ((with_next c after).0 ∷ (with_next c after).1) ≡ end_of e (c ∷ after)
end-with_next e c [] = refl
end-with_next e c (n ∷ ns) = same n.is_free
  where
    same :
        (t : Bool)
        → let r : Chunk × List Chunk = if t then (joined c n, ns) else (c, n ∷ ns) in
          end_of e (r.0 ∷ r.1) ≡ end_of e (c ∷ n ∷ ns)
    same true =
        ap (λ t. end_of t ns)
          (let q : e + 8 + (c.size + 8 + n.size) ≡ e + 8 + c.size + 8 + n.size = omega arith in q)
    same false = refl

pub end-with_prev :
    (d : ℕ) (before : List Chunk) (c : Chunk) (rest : List Chunk)
    → end_of d ((with_prev before c).0 ++ (with_prev before c).1 ∷ rest)
      ≡ end_of d (before ++ c ∷ rest)
end-with_prev d [] c rest = refl
end-with_prev d (b ∷ []) c rest = same b.is_free
  where
    same :
        (t : Bool)
        → let r : List Chunk × Chunk = if t then ([], joined b c) else (b ∷ [], c) in
          end_of d (r.0 ++ r.1 ∷ rest) ≡ end_of d (b ∷ c ∷ rest)
    same true =
        ap (λ t. end_of t rest)
          (let q : d + 8 + (b.size + 8 + c.size) ≡ d + 8 + b.size + 8 + c.size = omega arith in q)
    same false = refl
end-with_prev d (b ∷ b' ∷ bs) c rest = end-with_prev (d + 8 + b.size) (b' ∷ bs) c rest

-- The joins leave the end of the heap.
same_limit :
    (d : ℕ) (before : List Chunk) (c : Chunk) (after : List Chunk)
    → let next = with_next c after in
      let prev = with_prev before next.0 in
      end_of d (prev.0 ++ prev.1 ∷ next.1) ≡ end_of d (before ++ c ∷ after)
same_limit d before c after =
    let next = with_next c after in
    end-with_prev d before next.0 next.1
    ∙ end_of-append d before (next.0 ∷ next.1)
    ∙ end-with_next (end_of d before) c after
    ∙ sym (end_of-append d before (c ∷ after))

tail-finish :
    (fuel : ℕ) (page_free : ℕ → Kernel → Run Kernel) (d : ℕ) (before : List Chunk) (c : Chunk)
    (after : List Chunk) (k : Kernel)
    → Rest d before c after k
    → (after ≡ []
        → bit_and (end_of d (before ++ c ∷ after) + 8) (not32 0xfff) < end_of d before + 8)
    → Done (suc fuel) page_free (end_of d before + 8) d (finish before c after) k
tail-finish fuel page_free d before c [] k r in_page =
    tail_last fuel page_free d before c k r
      (subst (λ t. bit_and t (not32 0xfff) < end_of d before + 8) (sym r.heap.limit) (in_page refl))
tail-finish fuel page_free d before c (n ∷ ns) k r in_page =
    tail_inner (suc fuel) page_free d before c n ns k r

-- `free` of a chunk in use returns, and the heap then holds the chunks `released`: the chunk is
-- joined with the free chunks before and behind it, and is marked free or, if it is then the last
-- one, cut off the heap. The free list holds again the free chunks, each once. In the last case no
-- page is freed: the joined chunk begins in the page in which the heap ends.
pub free-IsHeap :
    (fuel : ℕ) (page_free : ℕ → Kernel → Run Kernel) (d : ℕ) (before : List Chunk) (c : Chunk)
    (after : List Chunk) (fs : List ℕ) (k : Kernel)
    → IsHeap d (before ++ c ∷ after) fs k
    → c.is_free ≡ false
    → ((with_next c after).1 ≡ []
        → bit_and k.ctxt.limit (not32 0xfff)
          < end_of d (with_prev before (with_next c after).0).0 + 8)
    → (k' : Kernel) × (fs' : List ℕ) × (free (suc fuel) page_free (end_of d before + 8) k ≡ ok k')
      × IsHeap d (released before c after) fs' k'
unfolding Done
free-IsHeap fuel page_free d before c after fs k heap used in_page =
    let next = with_next c after in
    let r : Rest d before c after k = record { free_list = fs; heap = heap; used = used } in
    let v : ℕ = end_of d before + 8 in
    let w =
      join_prev-Whole d before next.0 next.1 (alloc_get_prev_desc v k) (free_join_next v k)
        (join_next-Rest d before c after k r) (prev_desc d before c after k r) in
    let prev = with_prev before next.0 in
    let (k', fs', at, done) =
      tail-finish fuel page_free d prev.0 prev.1 next.1 w.left w.rest (λ none.
        subst (λ t. bit_and t (not32 0xfff) < end_of d prev.0 + 8)
          (heap.limit ∙ ap (λ t. t + 8) (sym (same_limit d before c after))) (in_page none)) in
    (k', fs', free-tail (suc fuel) page_free v (end_of d prev.0 + 8) k w.left w.at ∙ at, done)
