-- ===== src/Alloc/FreeList.antt =====
-- The free list is a doubly linked list in memory, and `alloc_node_add` puts a node in front of it.
use mathlib.Core.Path.{subst}
use trash_os.Base.{
  ℕ, ◌+◌, ◌%◌, ◌≡◌, ◌≢◌, refl, sym, ◌∙◌, arith, List, [], ◌∷◌, All, update, ◌==◌, if◌then◌else◌,
  eq→==, ne→==-false, Bool-cases, inl, inr,
}
use trash_os.Kernel.{Kernel, store}
use trash_os.Alloc.{alloc_node_add, link_next}

-- A list node lies at a multiple of 8 other than 0.
abbrev pub IsNodeAddr : ℕ → Type 0
IsNodeAddr x = (x ≢ 0) × (x % 8 ≡ 0)

-- The words of the nodes at `xs` do not hold the address `a`.
abbrev pub IsOutside : ℕ → List ℕ → Type 0
IsOutside a xs = All (λ x. (x ≢ a) × (x + 4 ≢ a)) xs

-- From `p`, whose predecessor is `prev`, the `next` pointers lead through the distinct nodes `xs`
-- to the end, and each `prev` pointer leads back.
abbrev pub IsLinked : (ℕ → ℕ) → ℕ → ℕ → List ℕ → Type 0
IsLinked mem prev p [] = p ≡ 0
IsLinked mem prev p (x ∷ xs) =
    (p ≡ x) × IsNodeAddr x × (mem x ≡ prev) × All (λ y. x ≢ y) xs × IsLinked mem x (mem (x + 4)) xs

-- The free list of the context is `xs`, in order.
abbrev pub IsFreeList : Kernel → List ℕ → Type 0
IsFreeList k xs = IsLinked k.mem 0 k.ctxt.free_list xs

-- A write to any other word leaves the list.
pub IsLinked-update :
    (mem : ℕ → ℕ) (a v prev p : ℕ) (xs : List ℕ)
    → IsOutside a xs
    → IsLinked mem prev p xs
    → IsLinked (update mem a v) prev p xs
IsLinked-update mem a v prev p [] out h = h
IsLinked-update mem a v prev p (x ∷ xs) (out, outs) (at, addr, back, apart, rest) = (
  at,
  addr,
  rw (ne→==-false x a out.0) back,
  apart,
  rw (ne→==-false (x + 4) a out.1) (IsLinked-update mem a v x (mem (x + 4)) xs outs rest),
)

-- Every node of a list is a node address.
pub linked_addrs :
    (mem : ℕ → ℕ) (prev p : ℕ) (xs : List ℕ) → IsLinked mem prev p xs → All IsNodeAddr xs
linked_addrs mem prev p [] h = tt
linked_addrs mem prev p (x ∷ xs) (at, addr, back, apart, rest) =
    (addr, linked_addrs mem x (mem (x + 4)) xs rest)

-- The words of one node lie outside the other nodes.
pub node-IsOutside :
    (n : ℕ) (xs : List ℕ)
    → IsNodeAddr n
    → All IsNodeAddr xs
    → All (λ y. n ≢ y) xs
    → IsOutside n xs × IsOutside (n + 4) xs
node-IsOutside n [] addr addrs apart = (tt, tt)
node-IsOutside n (x ∷ xs) addr (a, addrs) (ne, apart) =
    let (here, there) = node-IsOutside n xs addr addrs apart in
    (
      ((λ e. ne (sym e), λ e. omega (arith, a.1, addr.1)), here),
      ((λ e. omega (arith, a.1, addr.1), λ e. ne (omega arith)), there),
    )

-- The nodes behind `x` are out of reach of a write to its words.
behind :
    (mem : ℕ → ℕ) (p x : ℕ) (xs : List ℕ)
    → IsNodeAddr x
    → All (λ y. x ≢ y) xs
    → IsLinked mem x p xs
    → IsOutside x xs × IsOutside (x + 4) xs
behind mem p x xs addr apart rest = node-IsOutside x xs addr (linked_addrs mem x p xs rest) apart

head_write :
    (mem : ℕ → ℕ) (prev prev' x : ℕ) (xs : List ℕ)
    → IsLinked mem prev x (x ∷ xs)
    → IsLinked (update mem x prev') prev' x (x ∷ xs)
head_write mem prev prev' x xs (at, addr, back, apart, rest) = (
  refl,
  addr,
  rw (eq→== x x refl),
  apart,
  rw (ne→==-false (x + 4) x (λ e. omega arith)) (
      IsLinked-update mem x prev' x (mem (x + 4)) xs
        (behind mem (mem (x + 4)) x xs addr apart rest).0 rest),
)

-- `if (p) p->prev = prev';` sets the pointer back of the head of a list.
pub head_back :
    (mem : ℕ → ℕ) (prev prev' p : ℕ) (xs : List ℕ)
    → IsLinked mem prev p xs
    → IsLinked (if p == 0 then mem else update mem p prev') prev' p xs
head_back mem prev prev' p [] h = h
head_back mem prev prev' p (x ∷ xs) (at, addr, back, apart, rest) =
    subst (λ (q : ℕ). IsLinked (if q == 0 then mem else update mem q prev') prev' q (x ∷ xs))
      (sym at)
      (subst (λ (m : ℕ → ℕ). IsLinked m prev' x (x ∷ xs)) (sym (if_false x addr.0))
        (head_write mem prev prev' x xs (refl, addr, back, apart, rest)))
  where
    if_false : (q : ℕ) → q ≢ 0 → (if q == 0 then mem else update mem q prev') ≡ update mem q prev'
    if_false q ne = rw (ne→==-false q 0 ne)

pub mem-link_next :
    (next prev : ℕ) (k : Kernel)
    → ((link_next next prev k).mem ≡ (if next == 0 then k.mem else update k.mem next prev))
      × ((link_next next prev k).ctxt ≡ k.ctxt)
unfolding link_next store
mem-link_next next prev k = elim (Bool-cases (next == 0)) [
  | inl z ↦ rw z (refl, refl)
  | inr nz ↦ rw nz (refl, refl)
]

-- The write to the head of a list does not reach a word outside the list.
pub head_elsewhere :
    (mem : ℕ → ℕ) (v a prev p : ℕ) (xs : List ℕ)
    → IsOutside a xs
    → IsLinked mem prev p xs
    → (if p == 0 then mem else update mem p v) a ≡ mem a
head_elsewhere mem v a prev p [] out h = rw (eq→== p 0 h)
head_elsewhere mem v a prev p (x ∷ xs) out h =
    let ne : a ≢ p = λ e. out.0.0 (sym (e ∙ h.0)) in
    let some_node : p ≢ 0 = λ e. h.1.0 (sym h.0 ∙ e) in
    rw (ne→==-false p 0 some_node, ne→==-false a p ne)

own_words :
    (mem : ℕ → ℕ) (node head : ℕ)
    → IsNodeAddr node
    → update (update mem node 0) (node + 4) head node ≡ 0
own_words mem node head addr =
    rw (ne→==-false node (node + 4) (λ e. omega arith), eq→== node node refl)

-- `alloc_node_add` puts the node in front of the free list. The node lies at a multiple of 8 other
-- than 0 and is not in the list.
pub alloc_node_add-IsFreeList :
    (node : ℕ) (xs : List ℕ) (k : Kernel)
    → IsFreeList k xs
    → IsNodeAddr node
    → All (λ x. node ≢ x) xs
    → IsFreeList (alloc_node_add node k) (node ∷ xs)
unfolding alloc_node_add store
alloc_node_add-IsFreeList node xs k list addr apart =
    let head : ℕ = k.ctxt.free_list in
    let addrs = linked_addrs k.mem 0 head xs list in
    let (out, out') = node-IsOutside node xs addr addrs apart in
    let m₁ : ℕ → ℕ = update k.mem node 0 in
    let m₂ : ℕ → ℕ = update m₁ (node + 4) head in
    let list₂ : IsLinked m₂ 0 head xs =
      IsLinked-update m₁ (node + 4) head 0 head xs out'
        (IsLinked-update k.mem node 0 0 head xs out list) in
    let k₂ = store (node + 4) head (store node 0 k) in
    let m₃ : ℕ → ℕ = if head == 0 then m₂ else update m₂ head node in
    let at_prev : m₃ node ≡ 0 =
      head_elsewhere m₂ node node 0 head xs out list₂ ∙ own_words k.mem node head addr in
    let at_next : m₃ (node + 4) ≡ head =
      head_elsewhere m₂ node (node + 4) 0 head xs out' list₂
      ∙ (rw (eq→== (node + 4) (node + 4) refl)) in
    subst (λ (m : ℕ → ℕ). IsLinked m 0 node (node ∷ xs)) (sym (mem-link_next head node k₂).0)
      (refl, addr, at_prev, apart, rw at_next (head_back m₂ 0 node head xs list₂))
