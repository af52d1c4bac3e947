-- ===== src/Alloc/Merge.antt =====
-- The two joins of `free` keep the heap.
use trash_os.Base.{
  ℕ, ◌+◌, ◌≡◌, refl, sym, ap, ◌∙◌, arith, Bool, true, false, not, ◌&&◌, ◌||◌, List, [], ◌∷◌, ◌++◌,
  Bool-cases, inl, inr, if◌then◌else◌, ◌==◌, eq→==,
}
use mathlib.Core.Path.{subst, subst₂}
use mathlib.Core.List.{append_assoc}
use trash_os.Kernel.{Kernel}
use trash_os.Alloc.{alloc_node_unlink, free_join_next, free_join_prev}
use trash_os.Alloc.Members.{is_in}
use trash_os.Alloc.Chunks.{Chunk, IsHeap, end_of, last_tag, free_nodes}
use trash_os.Alloc.Keep.{IsKept, IsHeap-IsKept, unlink-IsKept}
use trash_os.Alloc.Rewrite.{put, put-IsKept}
use trash_os.Alloc.Reads.{Placed-next, kept-Placed}
use trash_os.Alloc.Join.{joined, join_next_free, join_next_used, join_prev_free}
use trash_os.Alloc.Nodes.{in_nodes, nodes-join_next, nodes-join_prev}

-- The chunk with the next one, if that is free, and the chunks behind.
abbrev pub with_next : Chunk → List Chunk → Chunk × List Chunk
with_next c [] = (c, [])
with_next c (n ∷ ns) = if n.is_free then (joined c n, ns) else (c, n ∷ ns)

-- The chunks in front, and the chunk with the previous one, if that is free.
abbrev pub with_prev : List Chunk → Chunk → List Chunk × Chunk
with_prev [] c = ([], c)
with_prev (b ∷ []) c = if b.is_free then ([], joined b c) else (b ∷ [], c)
with_prev (b ∷ b' ∷ bs) c = let rest = with_prev (b' ∷ bs) c in (b ∷ rest.0, rest.1)

pub kept-IsHeap :
    {d : ℕ} {cs : List Chunk} {fs : List ℕ} {k : Kernel}
    → IsKept d cs fs k
    → ((x : ℕ) → is_in x fs ≡ is_in x (free_nodes d cs))
    → IsHeap d cs fs k
kept-IsHeap h nodes = record {
  laid = h.laid;
  sized = h.sized;
  aligned = h.aligned;
  fits = h.fits;
  limit = h.limit;
  list = h.list;
  nodes = nodes;
}

-- A heap with the chunk `c` in use at the end of `before`.
pub record Rest (d : ℕ) (before : List Chunk) (c : Chunk) (after : List Chunk) (k : Kernel)
    : Type 0 where
  pub free_list : List ℕ
  pub heap : IsHeap d (before ++ c ∷ after) free_list k
  pub used : c.is_free ≡ false

or_true : (b : Bool) → (b || true) ≡ true
or_true true = refl
or_true false = refl

join_next_heap :
    (d : ℕ) (before : List Chunk) (c n : Chunk) (after : List Chunk) (k : Kernel)
    → Rest d before c (n ∷ after) k
    → n.is_free ≡ true
    → Rest d before (joined c n) after (free_join_next (end_of d before + 8) k)
join_next_heap d before c n after k r free =
    let e : ℕ = end_of d before in
    let node : ℕ = e + 8 + c.size + 8 in
    let kept = IsHeap-IsKept r.heap in
    let listed : is_in node r.free_list ≡ true =
      r.heap.nodes node
      ∙ in_nodes node d before (c ∷ n ∷ after)
      ∙ (rw (r.used, free, eq→== node node refl) (or_true (is_in node (free_nodes d before)))) in
    let u = unlink-IsKept node d (before ++ c ∷ n ∷ after) r.free_list k kept listed in
    let k₁ = alloc_node_unlink node k in
    let p = kept-Placed d before c (n ∷ after) r.free_list k kept in
    let p' = kept-Placed d before c (n ∷ after) u.left k₁ u.kept in
    let q = Placed-next e (last_tag 0 before) c n after k p in
    let al = p.size_aligned in
    let al' = q.size_aligned in
    let le = p.size_least in
    let done : IsKept d (before ++ joined c n ∷ after) u.left (put e (joined c n) k₁) =
      put-IsKept d before (c ∷ n ∷ []) after (joined c n) u.left k₁ (omega arith)
        (omega arith, omega arith) u.kept in
    record {
      free_list = u.left;
      heap =
          subst (IsHeap d (before ++ joined c n ∷ after) u.left)
            (sym (
              join_next_free e (last_tag 0 before) (last_tag 0 before) c n after k p p' r.used
                free))
            (kept-IsHeap done (λ x.
              u.members x
              ∙ ap (λ t. t && not (x == node)) (r.heap.nodes x)
              ∙ nodes-join_next x d before c n after r.used free));
      used = refl;
    }

pub join_prev_heap :
    (d : ℕ) (before : List Chunk) (b c : Chunk) (after : List Chunk) (k : Kernel)
    → Rest d (before ++ b ∷ []) c after k
    → b.is_free ≡ true
    → (k' : Kernel) × Rest d before (joined b c) after k'
      × (free_join_prev (end_of d before + 8 + b.size + 8) (end_of d before) k
          ≡ (end_of d before + 8, k'))
join_prev_heap d before b c after k r free =
    let e : ℕ = end_of d before in
    let node : ℕ = e + 8 in
    let heap : IsHeap d (before ++ b ∷ c ∷ after) r.free_list k =
      subst (λ t. IsHeap d t r.free_list k) (append_assoc before (b ∷ []) (c ∷ after)) r.heap in
    let kept = IsHeap-IsKept heap in
    let listed : is_in node r.free_list ≡ true =
      heap.nodes node
      ∙ in_nodes node d before (b ∷ c ∷ after)
      ∙ (rw (free, eq→== node node refl) (or_true (is_in node (free_nodes d before)))) in
    let u = unlink-IsKept node d (before ++ b ∷ c ∷ after) r.free_list k kept listed in
    let k₁ = alloc_node_unlink node k in
    let p = kept-Placed d before b (c ∷ after) r.free_list k kept in
    let p' = kept-Placed d before b (c ∷ after) u.left k₁ u.kept in
    let q = Placed-next e (last_tag 0 before) b c after k p in
    let al = p.size_aligned in
    let al' = q.size_aligned in
    let le = p.size_least in
    let done : IsKept d (before ++ joined b c ∷ after) u.left (put e (joined b c) k₁) =
      put-IsKept d before (b ∷ c ∷ []) after (joined b c) u.left k₁ (omega arith)
        (omega arith, omega arith) u.kept in
    (
      put e (joined b c) k₁,
      record {
        free_list = u.left;
        heap = kept-IsHeap done (λ x.
            u.members x
            ∙ ap (λ t. t && not (x == node)) (heap.nodes x)
            ∙ nodes-join_prev x d before b c after free r.used);
        used = refl;
      },
      join_prev_free e (last_tag 0 before) (last_tag 0 before) b c after k p p' free,
    )

pub join_next-Rest :
    (d : ℕ) (before : List Chunk) (c : Chunk) (after : List Chunk) (k : Kernel)
    → Rest d before c after k
    → Rest d before
        (with_next c after).0
        (with_next c after).1
        (free_join_next (end_of d before + 8) k)
join_next-Rest d before c [] k r =
    let p = kept-Placed d before c [] r.free_list k (IsHeap-IsKept r.heap) in
    subst (Rest d before c [])
      (sym (join_next_used (end_of d before) (last_tag 0 before) c [] k p p.laid.1)) r
join_next-Rest d before c (n ∷ after) k r = elim (Bool-cases n.is_free) [
  | inl free ↦ rw free (join_next_heap d before c n after k r free)
  | inr busy ↦
      let e : ℕ = end_of d before in
      let p = kept-Placed d before c (n ∷ after) r.free_list k (IsHeap-IsKept r.heap) in
      let q = Placed-next e (last_tag 0 before) c n after k p in
      let al = q.size_aligned in
      let word : k.mem (e + 8 + c.size + 4) ≡ n.size + 0 = q.word_size ∙ (rw busy refl) in
      subst₂ (λ (t : Chunk × List Chunk) (k' : Kernel). Rest d before t.0 t.1 k')
        (sym (ap (λ t. if t then (joined c n, after) else (c, n ∷ after)) busy))
        (sym (join_next_used e (last_tag 0 before) c (n ∷ after) k p (omega arith))) r
]
