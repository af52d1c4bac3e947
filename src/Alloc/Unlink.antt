-- ===== src/Alloc/Unlink.antt =====
-- `alloc_node_unlink` takes a node out of the free list, wherever it stands.
use mathlib.Core.Path.{subst, subst₂}
use trash_os.Base.{
  ℕ, ◌+◌, ◌≡◌, ◌≢◌, refl, sym, ap, ◌∙◌, arith, List, [], ◌∷◌, ◌++◌, All, update, ◌==◌,
  if◌then◌else◌, eq→==, ne→==-false, Bool-cases, inl, inr,
}
use trash_os.Kernel.{Kernel, Ctxt, load, store}
use trash_os.Alloc.{alloc_node_unlink}
use trash_os.Alloc.FreeList.{
  IsNodeAddr, IsOutside, IsLinked, IsFreeList, IsLinked-update, linked_addrs, node-IsOutside,
  head_back, head_elsewhere,
}

-- The two writes of `alloc_node_unlink`, to memory only.
pub unlinked : (ℕ → ℕ) → ℕ → ℕ → ℕ → ℕ
unlinked mem prev next =
    let m = if prev == 0 then mem else update mem (prev + 4) next in
    if next == 0 then m else update m next prev

All-without :
    (P : ℕ → Type 0) (xs : List ℕ) (n : ℕ) (ys : List ℕ) → All P (xs ++ n ∷ ys) → All P (xs ++ ys)
All-without P [] n ys h = h.1
All-without P (x ∷ xs) n ys h = (h.0, All-without P xs n ys h.1)

-- The predecessor that `n` points back to is a node in front of it.
pub predecessor :
    (mem : ℕ → ℕ) (prev p b : ℕ) (bs : List ℕ) (n : ℕ) (after : List ℕ) (a : ℕ)
    → IsLinked mem prev p ((b ∷ bs) ++ n ∷ after)
    → IsOutside a ((b ∷ bs) ++ n ∷ after)
    → (mem n ≢ 0) × (mem n + 4 ≢ a) × IsLinked mem n (mem (n + 4)) after × IsOutside a after
predecessor mem prev p b [] n after a (at, addr, back, apart, rest) out =
    let (at', addr', back', apart', rest') = rest in
    (
      λ e. addr.0 (sym back' ∙ e),
      λ e. out.0.1 (ap (λ (t : ℕ). t + 4) (sym back') ∙ e),
      rest',
      out.1.1,
    )
predecessor mem prev p b (b' ∷ bs) n after a (at, addr, back, apart, rest) out =
    predecessor mem b (mem (b + 4)) b' bs n after a rest out.1

pub off_head :
    (mem : ℕ → ℕ) (a prev p : ℕ) (xs : List ℕ)
    → IsOutside a xs
    → IsLinked mem prev p xs
    → p ≢ 0
    → a ≢ p
off_head mem a prev p [] out h some_node = absurd (some_node h)
off_head mem a prev p (x ∷ xs) out h some_node = λ e. out.0.0 (sym (e ∙ h.0))

pub if_elsewhere :
    (mem : ℕ → ℕ) (v a p : ℕ) → (p ≢ 0 → a ≢ p) → (if p == 0 then mem else update mem p v) a ≡ mem a
if_elsewhere mem v a p off = elim (Bool-cases (p == 0)) [
  | inl z ↦ rw z
  | inr nz ↦ rw (nz, ne→==-false a p (off (λ e. cc (eq→== p 0 e))))
]

pub unlinked_elsewhere :
    (mem : ℕ → ℕ) (prev p b : ℕ) (bs : List ℕ) (n : ℕ) (after : List ℕ) (a : ℕ)
    → IsLinked mem prev p ((b ∷ bs) ++ n ∷ after)
    → IsOutside a ((b ∷ bs) ++ n ∷ after)
    → unlinked mem (mem n) (mem (n + 4)) a ≡ mem a
unfolding unlinked
unlinked_elsewhere mem prev p b bs n after a list out =
    let (some_node, off, rest, beyond) = predecessor mem prev p b bs n after a list out in
    let next : ℕ = mem (n + 4) in
    let m : ℕ → ℕ = update mem (mem n + 4) next in
    let far : m a ≡ mem a = rw (ne→==-false a (mem n + 4) (λ e. off (sym e))) in
    rw (ne→==-false (mem n) 0 some_node)
      (if_elsewhere m (mem n) a next (off_head mem a n next after beyond rest) ∙ far)

unlinked_here :
    (mem : ℕ → ℕ) (q b n : ℕ) (after : List ℕ)
    → IsNodeAddr b
    → All (λ y. b ≢ y) (n ∷ after)
    → IsLinked mem b q (n ∷ after)
    → let m = unlinked mem (mem n) (mem (n + 4)) in (m b ≡ mem b) × IsLinked m b (m (b + 4)) after
unfolding unlinked
unlinked_here mem q b n after addr apart (at, addr', back, apart', rest) =
    let next : ℕ = mem (n + 4) in
    let m₁ : ℕ → ℕ = update mem (b + 4) next in
    let (out, out') = node-IsOutside b after addr (linked_addrs mem n next after rest) apart.1 in
    let rest₁ : IsLinked m₁ n next after =
      IsLinked-update mem (b + 4) next n next after out' rest in
    let at_b : (if next == 0 then m₁ else update m₁ next b) b ≡ mem b =
      head_elsewhere m₁ b b n next after out rest₁
      ∙ (rw (ne→==-false b (b + 4) (λ e. omega arith))) in
    let at_next : (if next == 0 then m₁ else update m₁ next b) (b + 4) ≡ next =
      head_elsewhere m₁ b (b + 4) n next after out' rest₁ ∙ (rw (eq→== (b + 4) (b + 4) refl)) in
    rw (back, ne→==-false b 0 addr.0) (at_b, rw at_next (head_back m₁ n b next after rest₁))

-- Behind a node that stays, the two writes take the node `n` out.
unlinked-IsLinked :
    (mem : ℕ → ℕ) (prev p b : ℕ) (bs : List ℕ) (n : ℕ) (after : List ℕ)
    → IsLinked mem prev p ((b ∷ bs) ++ n ∷ after)
    → IsLinked (unlinked mem (mem n) (mem (n + 4))) prev p ((b ∷ bs) ++ after)
unlinked-IsLinked mem prev p b [] n after (at, addr, back, apart, rest) =
    let (same, linked) = unlinked_here mem (mem (b + 4)) b n after addr apart rest in
    (at, addr, same ∙ back, apart.1, linked)
unlinked-IsLinked mem prev p b (b' ∷ bs) n after (at, addr, back, apart, rest) =
    let nodes : List ℕ = (b' ∷ bs) ++ n ∷ after in
    let (out, out') =
      node-IsOutside b nodes addr (linked_addrs mem b (mem (b + 4)) nodes rest) apart in
    let same = unlinked_elsewhere mem b (mem (b + 4)) b' bs n after b rest out in
    let same' = unlinked_elsewhere mem b (mem (b + 4)) b' bs n after (b + 4) rest out' in
    (
      at,
      addr,
      same ∙ back,
      All-without (λ y. b ≢ y) (b' ∷ bs) n after apart,
      subst (λ (q : ℕ). IsLinked (unlinked mem (mem n) (mem (n + 4))) b q ((b' ∷ bs) ++ after))
          (sym same') (unlinked-IsLinked mem b (mem (b + 4)) b' bs n after rest),
    )

pub predecessor_apart :
    (mem : ℕ → ℕ) (prev p b : ℕ) (bs : List ℕ) (n : ℕ) (after : List ℕ)
    → IsLinked mem prev p ((b ∷ bs) ++ n ∷ after)
    → IsNodeAddr (mem n) × IsNodeAddr n × (mem n ≢ n)
predecessor_apart mem prev p b [] n after (at, addr, back, apart, rest) =
    let (at', addr', back', apart', rest') = rest in
    (subst IsNodeAddr (sym back') addr, addr', λ e. apart.0 (sym back' ∙ e))
predecessor_apart mem prev p b (b' ∷ bs) n after (at, addr, back, apart, rest) =
    predecessor_apart mem b (mem (b + 4)) b' bs n after rest

-- The function writes what `unlinked` writes, where the node has a predecessor.
pub unlink-mem :
    (n : ℕ) (k : Kernel)
    → IsNodeAddr (k.mem n)
    → IsNodeAddr n
    → k.mem n ≢ n
    → ((alloc_node_unlink n k).mem ≡ unlinked k.mem (k.mem n) (k.mem (n + 4)))
      × ((alloc_node_unlink n k).ctxt ≡ k.ctxt)
unfolding alloc_node_unlink unlinked load store
unlink-mem n k addr addr' ne =
    let some_node = ne→==-false (k.mem n) 0 addr.0 in
    let kept = ne→==-false n (k.mem n + 4) (λ e. omega (arith, addr.1, addr'.1)) in
    let kept' = ne→==-false (n + 4) (k.mem n + 4) (λ e. ne (omega arith)) in
    rw (some_node, kept, kept')
      (elim (Bool-cases (k.mem (n + 4) == 0)) [
        | inl z ↦ rw z (refl, refl)
        | inr nz ↦ rw nz (refl, refl)
      ])

-- Of the first node the context is the predecessor.
pub unlink_first-mem :
    (n : ℕ) (k : Kernel)
    → k.mem n ≡ 0
    → ((alloc_node_unlink n k).mem
        ≡ (if k.mem (n + 4) == 0 then k.mem else update k.mem (k.mem (n + 4)) 0))
      × ((alloc_node_unlink n k).ctxt.free_list ≡ k.mem (n + 4))
unfolding alloc_node_unlink load store
unlink_first-mem n k first = rw (eq→== (k.mem n) 0 first) (elim (Bool-cases (k.mem (n + 4) == 0)) [
  | inl z ↦ rw z (refl, refl)
  | inr nz ↦ rw (nz, first) (refl, refl)
])

-- `alloc_node_unlink` takes a node out of the free list, wherever it stands, and keeps the others in
-- order.
pub alloc_node_unlink-IsFreeList :
    (before : List ℕ) (n : ℕ) (after : List ℕ) (k : Kernel)
    → IsFreeList k (before ++ n ∷ after)
    → IsFreeList (alloc_node_unlink n k) (before ++ after)
alloc_node_unlink-IsFreeList [] n after k (at, addr, back, apart, rest) =
    let (mem, head) = unlink_first-mem n k back in
    subst₂ (λ (m : ℕ → ℕ) (p : ℕ). IsLinked m 0 p after) (sym mem) (sym head)
      (head_back k.mem n 0 (k.mem (n + 4)) after rest)
alloc_node_unlink-IsFreeList (b ∷ bs) n after k list =
    let (addr, addr', ne) = predecessor_apart k.mem 0 k.ctxt.free_list b bs n after list in
    let (mem, ctxt) = unlink-mem n k addr addr' ne in
    subst₂ (λ (m : ℕ → ℕ) (c : Ctxt). IsLinked m 0 c.free_list ((b ∷ bs) ++ after)) (sym mem)
      (sym ctxt) (unlinked-IsLinked k.mem 0 k.ctxt.free_list b bs n after list)
