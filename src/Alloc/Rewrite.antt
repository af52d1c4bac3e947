-- ===== src/Alloc/Rewrite.antt =====
-- Chunks next to each other are replaced by one chunk: the two writes that `free` makes for it.
use trash_os.Base.{
  ℕ, ◌+◌, ◌%◌, ◌^◌, ◌≤◌, ◌<◌, ◌≡◌, ◌≢◌, refl, sym, ap, ◌∙◌, arith, List, [], ◌∷◌, ◌++◌, update,
  eq→==, ne→==-false,
}
use mathlib.Core.Path.{subst}
use trash_os.Kernel.{Kernel, store}
use trash_os.Alloc.FreeList.{IsOutside, IsLinked-update}
use trash_os.Alloc.Members.{All-of-is_in}
use trash_os.Alloc.Chunks.{
  Chunk, tag, IsLaid, IsSized, IsOff, end_of, last_tag, end_of-append, IsLaid-suffix,
  IsLaid-replace, IsLaid-first, IsLaid-head,
}
use trash_os.Alloc.Keep.{IsKept}

-- The chunk `c` is written at descriptor `e`: its `size`, and the next one's `size_prev`.
abbrev pub put : ℕ → Chunk → Kernel → Kernel
put e c k = store (e + 8 + c.size) (tag c) (store (e + 4) (tag c) k)

pub IsOff-first : (a d : ℕ) (cs : List Chunk) → IsOff a d cs → (a ≢ d) × (a ≢ d + 4)
IsOff-first a d [] off = off
IsOff-first a d (c ∷ cs) off = (off.0, off.1)

pub IsOff-suffix : (a d : ℕ) (xs ys : List Chunk) → IsOff a d (xs ++ ys) → IsOff a (end_of d xs) ys
IsOff-suffix a d [] ys off = off
IsOff-suffix a d (x ∷ xs) ys off = IsOff-suffix a (d + 8 + x.size) xs ys off.2

pub IsOff-replace :
    (a d : ℕ) (xs ys ys' : List Chunk)
    → IsOff a d (xs ++ ys)
    → IsOff a (end_of d xs) ys'
    → IsOff a d (xs ++ ys')
IsOff-replace a d [] ys ys' off new = new
IsOff-replace a d (x ∷ xs) ys ys' off new =
    (off.0, off.1, IsOff-replace a (d + 8 + x.size) xs ys ys' off.2 new)

pub IsSized-suffix : (xs ys : List Chunk) → IsSized (xs ++ ys) → IsSized ys
IsSized-suffix [] ys sized = sized
IsSized-suffix (x ∷ xs) ys sized = IsSized-suffix xs ys sized.1

pub IsSized-prefix : (xs ys : List Chunk) → IsSized (xs ++ ys) → IsSized xs
IsSized-prefix [] ys sized = tt
IsSized-prefix (x ∷ xs) ys sized = (sized.0, IsSized-prefix xs ys sized.1)

pub IsSized-replace :
    (xs ys ys' : List Chunk) → IsSized (xs ++ ys) → IsSized ys' → IsSized (xs ++ ys')
IsSized-replace [] ys ys' sized new = new
IsSized-replace (x ∷ xs) ys ys' sized new = (sized.0, IsSized-replace xs ys ys' sized.1 new)

put-IsLaid :
    (mem : ℕ → ℕ) (e w : ℕ) (ys rest : List Chunk) (c : Chunk)
    → end_of e ys ≡ e + 8 + c.size
    → IsLaid mem e w (ys ++ rest)
    → IsLaid (update (update mem (e + 4) (tag c)) (e + 8 + c.size) (tag c)) e w (c ∷ rest)
put-IsLaid mem e w ys rest c at laid =
    let m : ℕ → ℕ = update (update mem (e + 4) (tag c)) (e + 8 + c.size) (tag c) in
    let f : ℕ = e + 8 + c.size in
    let behind : IsLaid mem f (last_tag w ys) rest =
      subst (λ t. IsLaid mem t (last_tag w ys) rest) at (IsLaid-suffix mem e w ys rest laid) in
    let far : (a : ℕ) → f < a → m a ≡ mem a = λ a h.
      rw (ne→==-false a f (λ e'. omega arith), ne→==-false a (e + 4) (λ e'. omega arith)) refl in
    let here : m e ≡ mem e =
      rw (ne→==-false e f (λ e'. omega arith), ne→==-false e (e + 4) (λ e'. omega arith)) refl in
    let size : m (e + 4) ≡ tag c =
      rw (ne→==-false (e + 4) f (λ e'. omega arith), eq→== (e + 4) (e + 4) refl) refl in
    let next : m f ≡ tag c = rw (eq→== f f refl) refl in
    (
      here ∙ IsLaid-first mem e w (ys ++ rest) laid,
      size,
      IsLaid-head mem m f (last_tag w ys) (tag c) rest next far behind,
    )

put-below :
    (mem : ℕ → ℕ) (e : ℕ) (c : Chunk) (a : ℕ)
    → a < e
    → update (update mem (e + 4) (tag c)) (e + 8 + c.size) (tag c) a ≡ mem a
put-below mem e c a h =
    rw
      (
        ne→==-false a (e + 8 + c.size) (λ e'. omega arith),
        ne→==-false a (e + 4) (λ e'. omega arith),
      )
      refl

-- In a heap where some nodes are listed, the chunks `ys` become the chunk `c` of the same extent.
pub put-IsKept :
    (d : ℕ) (before ys rest : List Chunk) (c : Chunk) (fs : List ℕ) (k : Kernel)
    → end_of (end_of d before) ys ≡ end_of d before + 8 + c.size
    → (8 ≤ c.size) × (c.size % 8 ≡ 0)
    → IsKept d (before ++ (ys ++ rest)) fs k
    → IsKept d (before ++ c ∷ rest) fs (put (end_of d before) c k)
unfolding store
put-IsKept d before ys rest c fs k at size h =
    let e = end_of d before in
    let same : end_of d (before ++ (ys ++ rest)) ≡ end_of d (before ++ c ∷ rest) =
      end_of-append d before (ys ++ rest)
      ∙ end_of-append e ys rest
      ∙ ap (λ t. end_of t rest) at
      ∙ sym (end_of-append d before (c ∷ rest)) in
    let sized : IsSized (ys ++ rest) = IsSized-suffix before (ys ++ rest) h.sized in
    let suffix : (a : ℕ)
        → IsOff a d (before ++ (ys ++ rest))
        → IsOff a e (ys ++ rest) × IsOff a (e + 8 + c.size) rest =
      λ a off.
        let o = IsOff-suffix a d before (ys ++ rest) off in
        (o, subst (λ t. IsOff a t rest) at (IsOff-suffix a e ys rest o)) in
    let apart : (a : ℕ)
        → IsOff a d (before ++ (ys ++ rest))
        → (a ≢ e + 4) × (a ≢ e + 8 + c.size) × IsOff a d (before ++ c ∷ rest) =
      λ a off.
        let (o, o') = suffix a off in
        let (ne, ne') = IsOff-first a e (ys ++ rest) o in
        let (ne'', ne''') = IsOff-first a (e + 8 + c.size) rest o' in
        (ne', ne'', IsOff-replace a d before (ys ++ rest) (c ∷ rest) off (ne, ne', o')) in
    let out : IsOutside (e + 4) fs =
      All-of-is_in (λ x. (x ≢ e + 4) × (x + 4 ≢ e + 4)) fs
        (λ x m. let (o, o') = h.off x m in ((apart x o).0, (apart (x + 4) o').0)) in
    let out' : IsOutside (e + 8 + c.size) fs =
      All-of-is_in (λ x. (x ≢ e + 8 + c.size) × (x + 4 ≢ e + 8 + c.size)) fs
        (λ x m. let (o, o') = h.off x m in ((apart x o).1, (apart (x + 4) o').1)) in
    let m₁ : ℕ → ℕ = update k.mem (e + 4) (tag c) in
    let head : ℕ = k.ctxt.free_list in
    record {
      laid =
          IsLaid-replace k.mem (update m₁ (e + 8 + c.size) (tag c)) d 0 before (ys ++ rest)
            (c ∷ rest) (put-below k.mem e c) h.laid
            (put-IsLaid k.mem e (last_tag 0 before) ys rest c at
              (IsLaid-suffix k.mem d 0 before (ys ++ rest) h.laid));
      sized =
          IsSized-replace before (ys ++ rest) (c ∷ rest) h.sized
            (size, IsSized-suffix ys rest sized);
      aligned = h.aligned;
      fits = subst (λ t. t + 8 < 2 ^ 32) same h.fits;
      limit = h.limit ∙ ap (λ t. t + 8) same;
      list =
          IsLinked-update m₁ (e + 8 + c.size) (tag c) 0 head fs out'
            (IsLinked-update k.mem (e + 4) (tag c) 0 head fs out h.list);
      off = λ x m. let (o, o') = h.off x m in ((apart x o).2, (apart (x + 4) o').2);
    }
