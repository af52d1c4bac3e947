-- ===== src/Alloc/FreeHeap.antt =====
-- `free` on a heap of chunks: the freed chunk is joined with its free neighbours, and is either
-- marked free or, at the end of the heap, cut off.
use trash_os.Base.{
  ℕ, ◌+◌, ◌≡◌, ◌⊎◌, refl, sym, ap, ◌∙◌, Bool, true, false, bit_and, List, [], ◌∷◌, ◌++◌, Bool-cases,
  inl, inr, if◌then◌else◌,
}
use mathlib.Core.Path.{subst, subst₂}
use mathlib.Core.List.{append_assoc}
use trash_os.Kernel.{Kernel}
use trash_os.Alloc.{free, free_join_prev, alloc_get_prev_desc}
use trash_os.Alloc.Chunks.{Chunk, flag, tag, IsHeap, end_of, end_of-append, last_tag}
use trash_os.Alloc.Keep.{IsHeap-IsKept}
use trash_os.Alloc.Reads.{kept-Placed, tag-flag, prev-at}
use trash_os.Alloc.Join.{joined, join_prev_used}
use trash_os.Alloc.Merge.{with_prev, Rest, join_prev_heap}

snoc_cases : (xs : List Chunk) → (xs ≡ []) ⊎ ((bs : List Chunk) × (b : Chunk) × (xs ≡ bs ++ b ∷ []))
snoc_cases [] = inl refl
snoc_cases (x ∷ xs) = elim (snoc_cases xs) [
  | inl none ↦ inr ([], x, ap (λ t. x ∷ t) none)
  | inr (bs, b, at) ↦ inr (x ∷ bs, b, ap (λ t. x ∷ t) at)
]

put_front :
    (x : Chunk) (t : Bool) (bs bs' : List Chunk) (a b : Chunk)
    → let r : List Chunk × Chunk = if t then (bs, a) else (bs', b) in
      let front : List Chunk × Chunk = (x ∷ r.0, r.1) in
      front ≡ (if t then (x ∷ bs, a) else (x ∷ bs', b))
put_front x true bs bs' a b = refl
put_front x false bs bs' a b = refl

with_prev-snoc :
    (bs : List Chunk) (b c : Chunk)
    → with_prev (bs ++ b ∷ []) c ≡ (if b.is_free then (bs, joined b c) else (bs ++ b ∷ [], c))
with_prev-snoc [] b c = refl
with_prev-snoc (x ∷ []) b c = put_front x b.is_free [] (b ∷ []) (joined b c) c
with_prev-snoc (x ∷ y ∷ ys) b c =
    ap (λ t. (x ∷ t.0, t.1)) (with_prev-snoc (y ∷ ys) b c)
    ∙ put_front x b.is_free (y ∷ ys) (y ∷ ys ++ b ∷ []) (joined b c) c

last_tag-snoc : (w : ℕ) (bs : List Chunk) (b : Chunk) → last_tag w (bs ++ b ∷ []) ≡ tag b
last_tag-snoc w [] b = refl
last_tag-snoc w (x ∷ xs) b = last_tag-snoc (tag x) xs b

-- The heap after both joins.
pub record Whole (d : ℕ) (before : List Chunk) (c : Chunk) (after : List Chunk) (q : ℕ) (k : Kernel)
    : Type 0 where
  pub left : Kernel
  pub rest : Rest d (with_prev before c).0 (with_prev before c).1 after left
  pub at : free_join_prev (end_of d before + 8) q k ≡ (end_of d (with_prev before c).0 + 8, left)

Whole-same :
    (d : ℕ) (before : List Chunk) (c : Chunk) (after : List Chunk) (q : ℕ) (k : Kernel)
    → Rest d before c after k
    → with_prev before c ≡ (before, c)
    → bit_and (last_tag 0 before) 1 ≡ 0
    → Whole d before c after q k
Whole-same d before c after q k r same used =
    let p = kept-Placed d before c after r.free_list k (IsHeap-IsKept r.heap) in
    record {
      left = k;
      rest = subst (λ (t : List Chunk × Chunk). Rest d t.0 t.1 after k) (sym same) r;
      at =
          join_prev_used (end_of d before) (last_tag 0 before) c after q k p used
          ∙ ap (λ (t : List Chunk × Chunk). (end_of d t.0 + 8, k)) (sym same);
    }

Whole-snoc :
    (d : ℕ) (bs : List Chunk) (b c : Chunk) (after : List Chunk) (k : Kernel)
    → Rest d (bs ++ b ∷ []) c after k
    → Whole d (bs ++ b ∷ []) c after (end_of d bs) k
Whole-snoc d bs b c after k r = elim (Bool-cases b.is_free) [
  | inl free ↦
      let (k', rest, at) = join_prev_heap d bs b c after k r free in
      let same : with_prev (bs ++ b ∷ []) c ≡ (bs, joined b c) =
        with_prev-snoc bs b c ∙ ap (λ t. if t then (bs, joined b c) else (bs ++ b ∷ [], c)) free in
      record {
        left = k';
        rest = subst (λ (t : List Chunk × Chunk). Rest d t.0 t.1 after k') (sym same) rest;
        at =
            ap (λ t. free_join_prev (t + 8) (end_of d bs) k) (end_of-append d bs (b ∷ []))
            ∙ at
            ∙ ap (λ (t : List Chunk × Chunk). (end_of d t.0 + 8, k')) (sym same);
      }
  | inr busy ↦
      let heap : IsHeap d (bs ++ b ∷ c ∷ after) r.free_list k =
        subst (λ t. IsHeap d t r.free_list k) (append_assoc bs (b ∷ []) (c ∷ after)) r.heap in
      let p = kept-Placed d bs b (c ∷ after) r.free_list k (IsHeap-IsKept heap) in
      Whole-same d (bs ++ b ∷ []) c after (end_of d bs) k r
        (with_prev-snoc bs b c ∙ ap (λ t. if t then (bs, joined b c) else (bs ++ b ∷ [], c)) busy)
        (ap (λ t. bit_and t 1) (last_tag-snoc 0 bs b) ∙ tag-flag b p.size_aligned ∙ ap flag busy)
]

-- The join with the previous chunk, whose descriptor is `q`.
pub join_prev-Whole :
    (d : ℕ) (before : List Chunk) (c : Chunk) (after : List Chunk) (q : ℕ) (k : Kernel)
    → Rest d before c after k
    → ((bs : List Chunk) (b : Chunk) → before ≡ bs ++ b ∷ [] → q ≡ end_of d bs)
    → Whole d before c after q k
join_prev-Whole d before c after q k r prev = elim (snoc_cases before) [
  | inl none ↦
      Whole-same d before c after q k r (ap (λ t. with_prev t c) none ∙ ap (λ t. (t, c)) (sym none))
        (ap (λ t. bit_and (last_tag 0 t) 1) none)
  | inr (bs, b, at) ↦
      subst₂ (λ t u. Whole d t c after u k) (sym at) (sym (prev bs b at))
        (Whole-snoc d bs b c after k (subst (λ t. Rest d t c after k) at r))
]

-- The descriptor of the previous chunk, as `free` reads it.
pub prev_desc :
    (d : ℕ) (before : List Chunk) (c : Chunk) (after : List Chunk) (k : Kernel)
    → Rest d before c after k
    → (bs : List Chunk) (b : Chunk) → before ≡ bs ++ b ∷ []
    → alloc_get_prev_desc (end_of d before + 8) k ≡ end_of d bs
prev_desc d before c after k r bs b at =
    let heap : IsHeap d (bs ++ b ∷ c ∷ after) r.free_list k =
      subst (λ t. IsHeap d t r.free_list k)
        (ap (λ t. t ++ c ∷ after) at ∙ append_assoc bs (b ∷ []) (c ∷ after)) r.heap in
    let p = kept-Placed d bs b (c ∷ after) r.free_list k (IsHeap-IsKept heap) in
    prev-at (end_of d bs) (last_tag 0 bs) b c after k p (end_of d before)
      (ap (end_of d) at ∙ end_of-append d bs (b ∷ []))
