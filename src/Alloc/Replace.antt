-- ===== src/Alloc/Replace.antt =====
-- The end of `alloc_split`, on the free list of the context.
use mathlib.Core.Path.{subst, subst₂}
use trash_os.Base.{
  ℕ, ◌+◌, ◌≡◌, ◌≢◌, refl, sym, ap, ◌∙◌, arith, List, [], ◌∷◌, ◌++◌, All, update, ◌==◌,
  if◌then◌else◌, eq→==, ne→==-false, Bool-cases, inl, inr,
}
use trash_os.Kernel.{Kernel, Ctxt, load, store}
use trash_os.Alloc.{link_prev, link_next}
use trash_os.Alloc.FreeList.{
  IsNodeAddr, IsOutside, IsLinked, IsFreeList, linked_addrs, node-IsOutside, head_back,
  head_elsewhere,
}
use trash_os.Alloc.Unlink.{off_head, if_elsewhere, predecessor_apart}
use trash_os.Alloc.Relink.{relinked, IsCopy, relinked_elsewhere, relinked-IsLinked}

-- Both neighbours of `new` are pointed to it.
abbrev pub relink : ℕ → Kernel → Kernel
relink new k = let k' = link_prev (load new k) new k in link_next (load (new + 4) k') new k'

predecessor_in :
    (P : ℕ → Type 0) (mem : ℕ → ℕ) (prev p b : ℕ) (bs : List ℕ) (n : ℕ) (after : List ℕ)
    → IsLinked mem prev p ((b ∷ bs) ++ n ∷ after)
    → All P ((b ∷ bs) ++ n ∷ after)
    → P (mem n)
predecessor_in P mem prev p b [] n after (at, addr, back, apart, rest) all =
    let (at', addr', back', apart', rest') = rest in subst P (sym back') all.0
predecessor_in P mem prev p b (b' ∷ bs) n after (at, addr, back, apart, rest) all =
    predecessor_in P mem b (mem (b + 4)) b' bs n after rest all.1

-- What `relink` writes, where the node has a predecessor.
relink-mem :
    (n new : ℕ) (k : Kernel)
    → IsNodeAddr (k.mem n)
    → IsNodeAddr new
    → k.mem new ≡ k.mem n
    → k.mem (new + 4) ≡ k.mem (n + 4)
    → new ≢ k.mem n
    → ((relink new k).mem ≡ relinked k.mem (k.mem n) (k.mem (n + 4)) new)
      × ((relink new k).ctxt ≡ k.ctxt)
unfolding link_prev link_next relinked load store
relink-mem n new k addr addr' same same' ne =
    let some_node = ne→==-false (k.mem n) 0 addr.0 in
    let kept = ne→==-false (new + 4) (k.mem n + 4) (λ e. ne (omega arith)) in
    rw (same, some_node, kept, same')
      (elim (Bool-cases (k.mem (n + 4) == 0)) [
        | inl z ↦ rw z (refl, refl)
        | inr nz ↦ rw nz (refl, refl)
      ])

relink_first-mem :
    (n new : ℕ) (k : Kernel)
    → k.mem n ≡ 0
    → k.mem new ≡ k.mem n
    → k.mem (new + 4) ≡ k.mem (n + 4)
    → ((relink new k).mem
        ≡ (if k.mem (n + 4) == 0 then k.mem else update k.mem (k.mem (n + 4)) new))
      × ((relink new k).ctxt.free_list ≡ new)
unfolding link_prev link_next load store
relink_first-mem n new k first same same' =
    rw (same, eq→== (k.mem n) 0 first, same')
      (elim (Bool-cases (k.mem (n + 4) == 0)) [
        | inl z ↦ rw z (refl, refl)
        | inr nz ↦ rw nz (refl, refl)
      ])

pub relink-limit : (new : ℕ) (k : Kernel) → (relink new k).ctxt.limit ≡ k.ctxt.limit
unfolding link_prev link_next store
relink-limit new k = ground arith

pub relink-IsFreeList :
    (before : List ℕ) (n new : ℕ) (after : List ℕ) (k : Kernel)
    → IsFreeList k (before ++ n ∷ after)
    → IsCopy k.mem n new (before ++ n ∷ after)
    → IsFreeList (relink new k) (before ++ new ∷ after)
relink-IsFreeList [] n new after k (at, addr, back, apart, rest) (addr', ne, same, same') =
    let (mem, head) = relink_first-mem n new k back same same' in
    let next : ℕ = k.mem (n + 4) in
    let m : ℕ → ℕ = if next == 0 then k.mem else update k.mem next new in
    let (far, far') = node-IsOutside new after addr' (linked_addrs k.mem n next after rest) ne.1 in
    let at_new : m new ≡ 0 = head_elsewhere k.mem new new n next after far rest ∙ same ∙ back in
    let at_new' : m (new + 4) ≡ next =
      head_elsewhere k.mem new (new + 4) n next after far' rest ∙ same' in
    subst₂ (λ (m : ℕ → ℕ) (p : ℕ). IsLinked m 0 p (new ∷ after)) (sym mem) (sym head)
      (
        refl,
        addr',
        at_new,
        ne.1,
        subst (λ t. IsLinked m new t after) (sym at_new') (head_back k.mem n new next after rest),
      )
relink-IsFreeList (b ∷ bs) n new after k list copy =
    let (addr', ne, same, same') = copy in
    let head : ℕ = k.ctxt.free_list in
    let (addr, addr_n, ne_n) = predecessor_apart k.mem 0 head b bs n after list in
    let ne' = predecessor_in (λ y. new ≢ y) k.mem 0 head b bs n after list ne in
    let (mem, ctxt) = relink-mem n new k addr addr' same same' ne' in
    subst₂ (λ (m : ℕ → ℕ) (c : Ctxt). IsLinked m 0 c.free_list ((b ∷ bs) ++ new ∷ after)) (sym mem)
      (sym ctxt) (relinked-IsLinked k.mem 0 head b bs n new after copy list)

pub relink_frame :
    (before : List ℕ) (n new : ℕ) (after : List ℕ) (k : Kernel) (a : ℕ)
    → IsFreeList k (before ++ n ∷ after)
    → IsCopy k.mem n new (before ++ n ∷ after)
    → IsOutside a (before ++ n ∷ after)
    → (relink new k).mem a ≡ k.mem a
relink_frame [] n new after k a (at, addr, back, apart, rest) (addr', ne, same, same') out =
    let next : ℕ = k.mem (n + 4) in
    ap (λ (m : ℕ → ℕ). m a) (relink_first-mem n new k back same same').0
    ∙ if_elsewhere k.mem new a next (off_head k.mem a n next after out.1 rest)
relink_frame (b ∷ bs) n new after k a list copy out =
    let (addr', ne, same, same') = copy in
    let head : ℕ = k.ctxt.free_list in
    let (addr, addr_n, ne_n) = predecessor_apart k.mem 0 head b bs n after list in
    let ne' = predecessor_in (λ y. new ≢ y) k.mem 0 head b bs n after list ne in
    ap (λ (m : ℕ → ℕ). m a) (relink-mem n new k addr addr' same same' ne').0
    ∙ relinked_elsewhere k.mem 0 head b bs n after new a list out
