-- ===== src/Alloc/FreeSafety.antt =====
-- `free` leaves every other chunk in use where it is.
use trash_os.Base.{
  ℕ, suc, ◌+◌, ◌<◌, ◌≡◌, ◌≢◌, sym, ap, ◌∙◌, arith, true, false, bit_and, not32, List, [], ◌∷◌, ◌++◌,
  inl, inr, if◌then◌else◌, Bool-cases,
}
use mathlib.Core.Path.{subst}
use trash_os.Base.Runs.{Run, ok}
use trash_os.Kernel.{Kernel}
use trash_os.Alloc.{free}
use trash_os.Alloc.Chunks.{Chunk, IsHeap, end_of, end_of-append}
use trash_os.Alloc.Join.{joined, freed}
use trash_os.Alloc.Merge.{with_next, with_prev}
use trash_os.Alloc.FreeRefine.{finish, released, end-with_prev, free-IsHeap}
use trash_os.Alloc.Safety.{InUse, use_front, use_back, use_split}

next_use :
    (e : ℕ) (c : Chunk) (after : List Chunk) (a s : ℕ)
    → InUse (e + 8 + c.size) after a s
    → InUse (e + 8 + (with_next c after).0.size) (with_next c after).1 a s
next_use e c [] a s u = u
next_use e c (n ∷ ns) a s u = elim (Bool-cases n.is_free) [
  | inl free ↦
      subst (λ (t : Chunk × List Chunk). InUse (e + 8 + t.0.size) t.1 a s)
        (sym (ap (λ t. if t then (joined c n, ns) else (c, n ∷ ns)) free)) (skip free u)
  | inr busy ↦
      subst (λ (t : Chunk × List Chunk). InUse (e + 8 + t.0.size) t.1 a s)
        (sym (ap (λ t. if t then (joined c n, ns) else (c, n ∷ ns)) busy)) u
]
  where
    skip :
        n.is_free ≡ true
        → InUse (e + 8 + c.size) (n ∷ ns) a s
        → InUse (e + 8 + (c.size + 8 + n.size)) ns a s
    skip free (inl (used, at, size)) = let no : true ≡ false = sym free ∙ used in cc
    skip free (inr later) =
        subst (λ t. InUse t ns a s)
          (let q : e + 8 + c.size + 8 + n.size ≡ e + 8 + (c.size + 8 + n.size) = omega arith in q)
          later

prev_use :
    (d : ℕ) (before : List Chunk) (c : Chunk) (a s : ℕ)
    → InUse d before a s
    → InUse d (with_prev before c).0 a s
prev_use d [] c a s u = u
prev_use d (b ∷ []) c a s (inr later) = absurd later
prev_use d (b ∷ []) c a s (inl here) =
    subst (λ (t : List Chunk × Chunk). InUse d t.0 a s)
      (sym (ap (λ t. if t then ([], joined b c) else (b ∷ [], c)) here.0)) (inl here)
prev_use d (b ∷ b' ∷ bs) c a s (inl here) = inl here
prev_use d (b ∷ b' ∷ bs) c a s (inr later) = inr (prev_use (d + 8 + b.size) (b' ∷ bs) c a s later)

finish_front :
    (d : ℕ) (before : List Chunk) (c : Chunk) (after : List Chunk) (a s : ℕ)
    → InUse d before a s
    → InUse d (finish before c after) a s
finish_front d before c [] a s u = u
finish_front d before c (n ∷ ns) a s u = use_front d before (freed c ∷ n ∷ ns) a s u

finish_back :
    (d : ℕ) (before : List Chunk) (c : Chunk) (after : List Chunk) (a s : ℕ)
    → InUse (end_of d before + 8 + c.size) after a s
    → InUse d (finish before c after) a s
finish_back d before c [] a s u = absurd u
finish_back d before c (n ∷ ns) a s u = use_back d before (freed c ∷ n ∷ ns) a s (inr u)

-- Every chunk in use but `c` stays in use.
released-InUse :
    (d : ℕ) (before : List Chunk) (c : Chunk) (after : List Chunk) (a s : ℕ)
    → InUse d (before ++ c ∷ after) a s
    → a ≢ end_of d before + 8
    → InUse d (released before c after) a s
released-InUse d before c after a s u other =
    let next = with_next c after in
    let prev = with_prev before next.0 in
    elim (use_split d before (c ∷ after) a s u) [
      | inl front ↦ finish_front d prev.0 prev.1 next.1 a s (prev_use d before next.0 a s front)
      | inr (inl (used, at, size)) ↦ absurd (other at)
      | inr (inr back) ↦
          let ends : end_of d before + 8 + next.0.size ≡ end_of d prev.0 + 8 + prev.1.size =
            sym (end_of-append d before (next.0 ∷ []))
            ∙ sym (end-with_prev d before next.0 [])
            ∙ end_of-append d prev.0 (prev.1 ∷ []) in
          finish_back d prev.0 prev.1 next.1 a s
            (subst (λ t. InUse t next.1 a s) ends (next_use (end_of d before) c after a s back))
    ]

-- `free` of a chunk in use returns, and then every other chunk in use still is in use at its address
-- and with its size. If the freed chunk, joined with its free neighbours, is the last of the heap,
-- it begins in the page in which the heap ends.
pub free-InUse :
    (fuel : ℕ) (page_free : ℕ → Kernel → Run Kernel) (d : ℕ) (before : List Chunk) (c : Chunk)
    (after : List Chunk) (fs : List ℕ) (k : Kernel)
    → IsHeap d (before ++ c ∷ after) fs k
    → c.is_free ≡ false
    → ((with_next c after).1 ≡ []
        → bit_and k.ctxt.limit (not32 0xfff)
          < end_of d (with_prev before (with_next c after).0).0 + 8)
    → (k' : Kernel) × (cs' : List Chunk) × (fs' : List ℕ) × (free
          (suc fuel)
          page_free
          (end_of d before + 8)
          k
        ≡ ok k')
      × IsHeap d cs' fs' k'
      × ((a s : ℕ) → InUse d (before ++ c ∷ after) a s → a ≢ end_of d before + 8 → InUse d cs' a s)
free-InUse fuel page_free d before c after fs k h used in_page =
    let (k', fs', ran, heap) = free-IsHeap fuel page_free d before c after fs k h used in_page in
    (k', released before c after, fs', ran, heap, released-InUse d before c after)
