-- ===== src/Alloc/CutWords.antt =====
-- The words of the heap behind the first step of `alloc_split`, which cuts the chunk.
use trash_os.Base.{
  ℕ, ◌+◌, ◌%◌, ◌≤◌, ◌<◌, ◌≡◌, ◌≢◌, sym, ◌∙◌, arith, true, List, [], ◌∷◌, ◌++◌, inl, inr,
}
use mathlib.Core.Path.{subst}
use trash_os.Kernel.{Kernel, store}
use trash_os.Alloc.FreeList.{IsFreeList}
use trash_os.Alloc.Members.{is_in, All-of-is_in}
use trash_os.Alloc.Chunks.{
  Chunk, tag, IsLaid, IsHeap, IsOff, end_of, last_tag, IsLaid-replace, IsLaid-head,
}
use trash_os.Alloc.Keep.{IsHeap-IsKept}
use trash_os.Alloc.Rewrite.{IsOff-suffix, IsOff-replace}
use trash_os.Alloc.Reads.{Placed, kept-Placed}
use trash_os.Alloc.Nodes.{node_places}
use trash_os.Alloc.Carve.{rest_of, carved}
use trash_os.Alloc.CarvedWords.{taken_of, carved_elsewhere, carved_words}
use trash_os.Alloc.Take.{IsLinked-same}

-- A chunk in the heap that is split.
pub record Cut (d : ℕ) (before : List Chunk) (c : Chunk) (after : List Chunk) (bytes : ℕ)
    (fs : List ℕ) (k : Kernel) : Type 0 where
  pub heap : IsHeap d (before ++ c ∷ after) fs k
  pub free : c.is_free ≡ true
  pub room : bytes + 16 ≤ c.size
  pub least : 8 ≤ bytes
  pub aligned : bytes % 8 ≡ 0

module _ {d : ℕ} {before : List Chunk} {c : Chunk} {after : List Chunk} {bytes : ℕ} {fs : List ℕ}
    {k : Kernel} (s : Cut d before c after bytes fs k) where
  abbrev pub chunks : List Chunk
  chunks = before ++ taken_of bytes ∷ rest_of c bytes ∷ after

  pub placed : Placed (end_of d before) (last_tag 0 before) c after k
  placed = kept-Placed d before c after fs k (IsHeap-IsKept s.heap)

  -- A node of the list is away from the words that were written.
  pub clear :
      (x : ℕ)
      → is_in x fs ≡ true
      → let m = end_of d before + 8 + bytes in
        (x ≢ m)
        × (x ≢ m + 4)
        × (x ≢ m + 8)
        × (x + 4 ≢ m)
        × (x + 4 ≢ m + 4)
        × (x ≢ m + 8 + 4)
        × (x + 4 ≢ m + 8)
        × (x + 4 ≢ m + 8 + 4)
  clear x listed =
      let r = s.room in
      let l = s.least in
      elim (node_places x d before c after (sym (s.heap.nodes x) ∙ listed)) [
        | inl front ↦ (
          omega arith,
          omega arith,
          omega arith,
          omega arith,
          omega arith,
          omega arith,
          omega arith,
          omega arith,
        )
        | inr (inl own) ↦ (
          omega arith,
          omega arith,
          omega arith,
          omega arith,
          omega arith,
          omega arith,
          omega arith,
          omega arith,
        )
        | inr (inr back) ↦ (
          omega arith,
          omega arith,
          omega arith,
          omega arith,
          omega arith,
          omega arith,
          omega arith,
          omega arith,
        )
      ]

  -- The words of a listed node are no words of the old chunks, nor of the new ones.
  IsOff-old :
      (x : ℕ)
      → is_in x fs ≡ true
      → let e = end_of d before in IsOff x e (c ∷ after) × IsOff (x + 4) e (c ∷ after)
  IsOff-old x listed =
      let h = IsHeap-IsKept s.heap in
      let (o, o') = h.off x listed in
      (IsOff-suffix x d before (c ∷ after) o, IsOff-suffix (x + 4) d before (c ∷ after) o')

  pub ends : end_of d before + 8 + bytes + 8 + (rest_of c bytes).size ≡ end_of d before + 8 + c.size
  ends = let r = s.room in omega arith

  pub IsOff-new : (x : ℕ) → is_in x fs ≡ true → IsOff x d chunks × IsOff (x + 4) d chunks
  IsOff-new x listed =
      let h = IsHeap-IsKept s.heap in
      let e : ℕ = end_of d before in
      let new = taken_of bytes ∷ rest_of c bytes ∷ after in
      let (o, o') = h.off x listed in
      let (p, p') = IsOff-old x listed in
      let (n₁, n₂, n₃, n₄, n₅, n₆, n₇, n₈) = clear x listed in
      (
        IsOff-replace x d before (c ∷ after) new o
            (p.0, p.1, (n₁, n₂, subst (λ t. IsOff x t after) (sym ends) p.2)),
        IsOff-replace (x + 4) d before (c ∷ after) new o'
            (p'.0, p'.1, (n₄, n₅, subst (λ t. IsOff (x + 4) t after) (sym ends) p'.2)),
      )

  off_first_two : (a g : ℕ) (cs : List Chunk) → IsOff a g cs → a ≢ g
  off_first_two a g [] off = off.0
  off_first_two a g (x ∷ xs) off = off.0

  pub same_node :
      (x : ℕ)
      → is_in x fs ≡ true
      → let mem = (carved (end_of d before) c bytes k).mem in
        (mem x ≡ k.mem x) × (mem (x + 4) ≡ k.mem (x + 4))
  same_node x listed =
      let e : ℕ = end_of d before in
      let (p, p') = IsOff-old x listed in
      let f = off_first_two x (e + 8 + c.size) after p.2 in
      let f' = off_first_two (x + 4) (e + 8 + c.size) after p'.2 in
      let (n₁, n₂, n₃, n₄, n₅, n₆, n₇, n₈) = clear x listed in
      (
        carved_elsewhere e c bytes k x (n₁, n₂, n₃, n₆, f, p.1),
        carved_elsewhere e c bytes k (x + 4) (n₄, n₅, n₇, n₈, f', p'.1),
      )

  pub carved_list : IsFreeList (carved (end_of d before) c bytes k) fs
  unfolding store
  carved_list =
      let k' = carved (end_of d before) c bytes k in
      IsLinked-same k.mem k'.mem 0 k.ctxt.free_list fs
        (All-of-is_in (λ x. (k'.mem x ≡ k.mem x) × (k'.mem (x + 4) ≡ k.mem (x + 4))) fs same_node)
        s.heap.list

  pub carved-IsLaid : IsLaid (carved (end_of d before) c bytes k).mem d 0 chunks
  carved-IsLaid =
      let e : ℕ = end_of d before in
      let f : ℕ = e + 8 + c.size in
      let mem = (carved e c bytes k).mem in
      let r = s.room in
      let l = s.least in
      let p = placed in
      let (w₁, w₂, w₃, w₄, w₅, w₆) = carved_words e c bytes k (r, l) in
      let far : (a : ℕ) → f < a → mem a ≡ k.mem a = λ a q.
        carved_elsewhere e c bytes k a
          (omega arith, omega arith, omega arith, omega arith, omega arith, omega arith) in
      let near : (a : ℕ) → a ≤ e → mem a ≡ k.mem a = λ a q.
        carved_elsewhere e c bytes k a
          (omega arith, omega arith, omega arith, omega arith, omega arith, omega arith) in
      IsLaid-replace k.mem mem d 0 before (c ∷ after) (taken_of bytes ∷ rest_of c bytes ∷ after)
        (λ a q. near a (omega arith)) s.heap.laid
        (
          near e (omega arith) ∙ p.word_prev,
          w₁ ∙ omega arith,
          (
            w₂ ∙ omega arith,
            w₃,
            subst (λ t. IsLaid mem t (tag (rest_of c bytes)) after) (sym ends)
                (IsLaid-head k.mem mem f (tag c) (tag (rest_of c bytes)) after w₄ far p.laid),
          ),
        )
