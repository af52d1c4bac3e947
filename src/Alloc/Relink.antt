-- ===== src/Alloc/Relink.antt =====
-- `alloc_split` puts the node of the rest of a chunk in the place of the chunk's node.
use mathlib.Core.Path.{subst}
use trash_os.Base.{
  ℕ, ◌+◌, ◌≡◌, ◌≢◌, refl, sym, ap, ◌∙◌, arith, List, [], ◌∷◌, ◌++◌, All, update, ◌==◌,
  if◌then◌else◌, eq→==, ne→==-false,
}
use trash_os.Alloc.FreeList.{
  IsNodeAddr, IsOutside, IsLinked, IsLinked-update, linked_addrs, node-IsOutside, head_back,
  head_elsewhere,
}
use trash_os.Alloc.Unlink.{predecessor, off_head, if_elsewhere}

-- The two writes that point the neighbours to the node `new`, to memory only.
unfoldable pub relinked : (ℕ → ℕ) → ℕ → ℕ → ℕ → ℕ → ℕ
relinked mem prev next new =
    let m = if prev == 0 then mem else update mem (prev + 4) new in
    if next == 0 then m else update m next new

All-replace :
    (P : ℕ → Type 0) (xs : List ℕ) (n new : ℕ) (ys : List ℕ)
    → P new
    → All P (xs ++ n ∷ ys)
    → All P (xs ++ new ∷ ys)
All-replace P [] n new ys p h = (p, h.1)
All-replace P (x ∷ xs) n new ys p h = (h.0, All-replace P xs n new ys p h.1)

pub relinked_elsewhere :
    (mem : ℕ → ℕ) (prev p b : ℕ) (bs : List ℕ) (n : ℕ) (after : List ℕ) (new a : ℕ)
    → IsLinked mem prev p ((b ∷ bs) ++ n ∷ after)
    → IsOutside a ((b ∷ bs) ++ n ∷ after)
    → relinked mem (mem n) (mem (n + 4)) new a ≡ mem a
unfolding relinked
relinked_elsewhere mem prev p b bs n after new a list out =
    let (some_node, off, rest, beyond) = predecessor mem prev p b bs n after a list out in
    let next : ℕ = mem (n + 4) in
    let m : ℕ → ℕ = update mem (mem n + 4) new in
    let far : m a ≡ mem a = rw (ne→==-false a (mem n + 4) (λ e. off (sym e))) in
    rw (ne→==-false (mem n) 0 some_node)
      (if_elsewhere m new a next (off_head mem a n next after beyond rest) ∙ far)

-- The node `new` has the pointers of `n` already.
abbrev pub IsCopy : (ℕ → ℕ) → ℕ → ℕ → List ℕ → Type 0
IsCopy mem n new xs =
    IsNodeAddr new × All (λ y. new ≢ y) xs × (mem new ≡ mem n) × (mem (new + 4) ≡ mem (n + 4))

relinked_here :
    (mem : ℕ → ℕ) (q b n new : ℕ) (after : List ℕ)
    → IsNodeAddr b
    → IsCopy mem n new (b ∷ n ∷ after)
    → All (λ y. b ≢ y) (n ∷ after)
    → IsLinked mem b q (n ∷ after)
    → let m = relinked mem (mem n) (mem (n + 4)) new in
      (m b ≡ mem b) × IsLinked m b (m (b + 4)) (new ∷ after)
unfolding relinked
relinked_here mem q b n new after addr (addr'', apart'', same, same') apart
      (at, addr', back, apart', rest) =
    let next : ℕ = mem (n + 4) in
    let m₁ : ℕ → ℕ = update mem (b + 4) new in
    let addrs = linked_addrs mem n next after rest in
    let (out, out') = node-IsOutside b after addr addrs apart.1 in
    let (far, far') = node-IsOutside new after addr'' addrs apart''.1.1 in
    let rest₁ : IsLinked m₁ n next after = IsLinked-update mem (b + 4) new n next after out' rest in
    let m₂ : ℕ → ℕ = if next == 0 then m₁ else update m₁ next new in
    let at_b : m₂ b ≡ mem b =
      head_elsewhere m₁ new b n next after out rest₁
      ∙ (rw (ne→==-false b (b + 4) (λ e. omega arith))) in
    let at_next : m₂ (b + 4) ≡ new =
      head_elsewhere m₁ new (b + 4) n next after out' rest₁ ∙ (rw (eq→== (b + 4) (b + 4) refl)) in
    let ne : new ≢ b = apart''.0 in
    let at_new : m₂ new ≡ b =
      head_elsewhere m₁ new new n next after far rest₁
      ∙ (rw (ne→==-false new (b + 4) (λ e. omega (arith, addr.1, addr''.1))) refl)
      ∙ same
      ∙ back in
    let at_new' : m₂ (new + 4) ≡ next =
      head_elsewhere m₁ new (new + 4) n next after far' rest₁
      ∙ (rw (ne→==-false (new + 4) (b + 4) (λ e. ne (omega arith))) refl)
      ∙ same' in
    let written : relinked mem (mem n) next new ≡ m₂ =
      ap (λ t. relinked mem t next new) back ∙ (rw (ne→==-false b 0 addr.0) refl) in
    subst (λ m. (m b ≡ mem b) × IsLinked m b (m (b + 4)) (new ∷ after)) (sym written)
      (
        at_b,
        (
          at_next,
          addr'',
          at_new,
          apart''.1.1,
          subst (λ t. IsLinked m₂ new t after) (sym at_new') (head_back m₁ n new next after rest₁),
        ),
      )

pub relinked-IsLinked :
    (mem : ℕ → ℕ) (prev p b : ℕ) (bs : List ℕ) (n new : ℕ) (after : List ℕ)
    → IsCopy mem n new ((b ∷ bs) ++ n ∷ after)
    → IsLinked mem prev p ((b ∷ bs) ++ n ∷ after)
    → IsLinked (relinked mem (mem n) (mem (n + 4)) new) prev p ((b ∷ bs) ++ new ∷ after)
relinked-IsLinked mem prev p b [] n new after copy (at, addr, back, apart, rest) =
    let (same, linked) = relinked_here mem (mem (b + 4)) b n new after addr copy apart rest in
    (at, addr, same ∙ back, (λ e. copy.1.0 (sym e), apart.1), linked)
relinked-IsLinked mem prev p b (b' ∷ bs) n new after (addr', ne, same, same')
      (at, addr, back, apart, rest) =
    let nodes : List ℕ = (b' ∷ bs) ++ n ∷ after in
    let (out, out') =
      node-IsOutside b nodes addr (linked_addrs mem b (mem (b + 4)) nodes rest) apart in
    let same_b = relinked_elsewhere mem b (mem (b + 4)) b' bs n after new b rest out in
    let same_b' = relinked_elsewhere mem b (mem (b + 4)) b' bs n after new (b + 4) rest out' in
    (
      at,
      addr,
      same_b ∙ back,
      All-replace (λ y. b ≢ y) (b' ∷ bs) n new after (λ e. ne.0 (sym e)) apart,
      subst
          (λ (q : ℕ).
            IsLinked (relinked mem (mem n) (mem (n + 4)) new) b q ((b' ∷ bs) ++ new ∷ after))
          (sym same_b')
          (relinked-IsLinked mem b (mem (b + 4)) b' bs n new after (addr', ne.1, same, same') rest),
    )
