-- ===== src/Alloc/Keep.antt =====
-- The operations on the free list keep the chunks.
use trash_os.Base.{
  ℕ, ◌+◌, ◌%◌, ◌^◌, ◌<◌, ◌≡◌, ◌≢◌, refl, sym, ap, ◌∙◌, Bool, true, false, not, ◌&&◌, List, [], ◌∷◌,
  ◌++◌, All, ◌==◌, ==→eq, ne→==-false, Bool-cases, inl, inr,
}
use mathlib.Core.Path.{subst}
use trash_os.Kernel.{Kernel}
use trash_os.Alloc.{alloc_node_unlink, alloc_node_add}
use trash_os.Alloc.FreeList.{IsNodeAddr, IsOutside, IsLinked, IsFreeList, alloc_node_add-IsFreeList}
use trash_os.Alloc.Unlink.{alloc_node_unlink-IsFreeList}
use trash_os.Alloc.Frames.{unlink_frame, unlink-limit, add_frame, add-limit}
use trash_os.Alloc.Members.{
  is_in, All-of-is_in, split_at, All-ne-is_in, is_in-All_ne, is_in-without,
}
use trash_os.Alloc.Chunks.{Chunk, IsLaid, IsSized, IsOff, IsHeap, end_of, node-IsOff, IsLaid-frame}

-- The chunks and the free list, where the list holds some nodes apart from the descriptors.
pub record IsKept (d : ℕ) (cs : List Chunk) (fs : List ℕ) (k : Kernel) : Type 0 where
  pub laid : IsLaid k.mem d 0 cs
  pub sized : IsSized cs
  pub aligned : d % 8 ≡ 0
  pub fits : end_of d cs + 8 < 2 ^ 32
  pub limit : k.ctxt.limit ≡ end_of d cs + 8
  pub list : IsFreeList k fs
  pub off : (x : ℕ) → is_in x fs ≡ true → IsOff x d cs × IsOff (x + 4) d cs

pub IsHeap-IsKept :
    {d : ℕ} {cs : List Chunk} {fs : List ℕ} {k : Kernel} → IsHeap d cs fs k → IsKept d cs fs k
IsHeap-IsKept {d} {cs} h = record {
  laid = h.laid;
  sized = h.sized;
  aligned = h.aligned;
  fits = h.fits;
  limit = h.limit;
  list = h.list;
  off = λ x m.
      let (le, al, off, off') = node-IsOff x d cs h.sized h.aligned (sym (h.nodes x) ∙ m) in
      (off, off');
}

All_mid : (P : ℕ → Type 0) (xs : List ℕ) (n : ℕ) (ys : List ℕ) → All P (xs ++ n ∷ ys) → P n
All_mid P [] n ys h = h.0
All_mid P (x ∷ xs) n ys h = All_mid P xs n ys h.1

pub linked_distinct :
    (mem : ℕ → ℕ) (prev p : ℕ) (before : List ℕ) (n : ℕ) (after : List ℕ)
    → IsLinked mem prev p (before ++ n ∷ after)
    → (is_in n before ≡ false) × (is_in n after ≡ false)
linked_distinct mem prev p [] n after (at, addr, back, apart, rest) =
    (refl, All-ne-is_in n after apart)
linked_distinct mem prev p (b ∷ bs) n after (at, addr, back, apart, rest) =
    let (out, out') = linked_distinct mem b (mem (b + 4)) bs n after rest in
    let ne : b ≢ n = All_mid (λ y. b ≢ y) bs n after apart in
    (rw (ne→==-false n b (λ e. ne (sym e)), out) refl, out')

and_left : (a b : Bool) → (a && b) ≡ true → a ≡ true
and_left true b h = refl
and_left false b h = cc

-- The list without the node that was taken out.
pub record Unlinked (x : ℕ) (d : ℕ) (cs : List Chunk) (fs : List ℕ) (k : Kernel) : Type 0 where
  pub left : List ℕ
  pub kept : IsKept d cs left (alloc_node_unlink x k)
  pub members : (y : ℕ) → is_in y left ≡ (is_in y fs && not (y == x))

pub unlink-IsKept :
    (x d : ℕ) (cs : List Chunk) (fs : List ℕ) (k : Kernel)
    → IsKept d cs fs k
    → is_in x fs ≡ true
    → Unlinked x d cs fs k
unlink-IsKept x d cs fs k h m =
    let (before, after, at) = split_at x fs m in
    let list : IsFreeList k (before ++ x ∷ after) = subst (IsFreeList k) at h.list in
    let (out, out') = linked_distinct k.mem 0 k.ctxt.free_list before x after list in
    let members : (y : ℕ) → is_in y (before ++ after) ≡ (is_in y fs && not (y == x)) =
      λ y. is_in-without y before x after out out' ∙ ap (λ t. is_in y t && not (y == x)) (sym at) in
    record {
      left = before ++ after;
      kept = record {
        laid =
            IsLaid-frame k.mem (alloc_node_unlink x k).mem d 0 cs fs
              (All-of-is_in (λ y. IsOff y d cs × IsOff (y + 4) d cs) fs h.off)
              (λ a off. unlink_frame before x after k a list (subst (IsOutside a) at off)) h.laid;
        sized = h.sized;
        aligned = h.aligned;
        fits = h.fits;
        limit = unlink-limit x k ∙ h.limit;
        list = alloc_node_unlink-IsFreeList before x after k list;
        off = λ y e. h.off y (and_left (is_in y fs) (not (y == x)) (sym (members y) ∙ e));
      };
      members = members;
    }

pub add-IsKept :
    (n d : ℕ) (cs : List Chunk) (fs : List ℕ) (k : Kernel)
    → IsKept d cs fs k
    → is_in n fs ≡ false
    → IsNodeAddr n
    → IsOff n d cs × IsOff (n + 4) d cs
    → IsKept d cs (n ∷ fs) (alloc_node_add n k)
add-IsKept n d cs fs k h new addr off =
    let apart = is_in-All_ne n fs new in
    let all = All-of-is_in (λ y. IsOff y d cs × IsOff (y + 4) d cs) fs h.off in
    record {
      laid =
          IsLaid-frame k.mem (alloc_node_add n k).mem d 0 cs (n ∷ fs) (off, all)
            (λ a out. add_frame n fs k a h.list addr apart out) h.laid;
      sized = h.sized;
      aligned = h.aligned;
      fits = h.fits;
      limit = add-limit n k ∙ h.limit;
      list = alloc_node_add-IsFreeList n fs k h.list addr apart;
      off = λ y e. elim (Bool-cases (y == n)) [
        | inl same ↦ subst (λ t. IsOff t d cs × IsOff (t + 4) d cs) (sym (==→eq y n same)) off
        | inr other ↦ h.off y (rw other at e)
      ];
    }
