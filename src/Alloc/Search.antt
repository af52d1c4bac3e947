-- ===== src/Alloc/Search.antt =====
-- `alloc` takes the first chunk of the free list that fits, and extends the heap only if none does.
use trash_os.Base.{
  ℕ, zero, suc, ◌+◌, ◌<◌, ◌≡◌, refl, sym, ap, Bool, true, false, ◌||◌, inl, inr, arith, List, [],
  ◌∷◌, length, Option, none, some, ltb, ◌==◌, if◌then◌else◌, u32, eq→==, ne→==-false, Bool-cases,
}
use trash_os.Base.Runs.{Run, ok}
use trash_os.Kernel.{Kernel, load}
use trash_os.Alloc.{
  alloc, alloc_bytes, alloc_search, alloc_split, alloc_extend, alloc_get_size, alloc_clear_free,
  alloc_node_unlink, km_min_alloc_size, desc_size,
}
use trash_os.Alloc.FreeList.{IsFreeList, IsLinked}

-- A chunk fits exactly, or with room behind it for a descriptor and at least a byte.
abbrev pub fits : ℕ → Kernel → ℕ → Bool
fits bytes k n = alloc_get_size n k == bytes || ltb (u32 (bytes + desc_size)) (alloc_get_size n k)

abbrev pub first_fit : ℕ → Kernel → List ℕ → Option ℕ
first_fit bytes k [] = none
first_fit bytes k (n ∷ ns) = if fits bytes k n then some n else first_fit bytes k ns

-- A chunk of the size asked for leaves the free list; a larger one is split.
abbrev pub take_chunk : ℕ → ℕ → Kernel → Kernel
take_chunk bytes n k =
    if alloc_get_size n k == bytes
    then alloc_clear_free n (alloc_node_unlink n k)
    else alloc_split n bytes k

abbrev pub taken : ℕ → Kernel → Option ℕ → Option (ℕ × Kernel)
taken bytes k none = none
taken bytes k (some n) = some (n, take_chunk bytes n k)

if_true : {A : Type 0} {b : Bool} (x y : A) → b ≡ true → (if b then x else y) ≡ x
if_true x y e = rw e

if_false : {A : Type 0} {b : Bool} (x y : A) → b ≡ false → (if b then x else y) ≡ y
if_false x y e = rw e

pub alloc_search_lem :
    (fuel bytes prev p : ℕ) (ns : List ℕ) (k : Kernel)
    → IsLinked k.mem prev p ns
    → length ns < fuel
    → alloc_search fuel bytes p k ≡ ok (taken bytes k (first_fit bytes k ns))
unfolding alloc_search load
alloc_search_lem zero bytes prev p ns k list h = absurd (omega arith)
alloc_search_lem (suc fuel) bytes prev p [] k list h = rw (eq→== p 0 list)
alloc_search_lem (suc fuel) bytes prev p (n ∷ ns) k (at, addr, back, apart, rest) h =
    let here : (n == 0) ≡ false = ne→==-false n 0 addr.0 in
    let later = alloc_search_lem fuel bytes n (k.mem (n + 4)) ns k rest (omega arith) in
    rw (at, here)
      (elim (Bool-cases (alloc_get_size n k == bytes)) [
        | inl exact ↦ rw exact (ap (λ (s : Kernel). ok (some (n, s))) (sym (if_true _ _ exact)))
        | inr other ↦ elim (Bool-cases (ltb (u32 (bytes + desc_size)) (alloc_get_size n k))) [
          | inl room ↦
              rw (other, room) (ap (λ (s : Kernel). ok (some (n, s))) (sym (if_false _ _ other)))
          | inr small ↦ rw (other, small) later
        ]
      ])

-- What `alloc` does with the chunk that was found, or without one.
abbrev pub answer : ℕ → (Kernel → Run (ℕ × Kernel)) → ℕ → Kernel → Option ℕ → Run (ℕ × Kernel)
answer fuel get_page_pma bytes k none = alloc_extend fuel get_page_pma km_min_alloc_size bytes k
answer fuel get_page_pma bytes k (some n) = ok (n, take_chunk bytes n k)

-- An allocation with the least alignment is answered by the first chunk of the free list that fits
-- the rounded size, unlinked if its size is exact and split if it is larger; the heap is extended
-- only if no chunk of the list fits. Fuel for each chunk of the list is enough for the search.
pub alloc-first_fit :
    (fuel : ℕ) (get_page_pma : Kernel → Run (ℕ × Kernel)) (bytes : ℕ) (ns : List ℕ) (k : Kernel)
    → IsFreeList k ns
    → length ns < fuel
    → alloc fuel get_page_pma km_min_alloc_size bytes k
      ≡ answer fuel get_page_pma (alloc_bytes bytes) k (first_fit (alloc_bytes bytes) k ns)
unfolding alloc
alloc-first_fit fuel get_page_pma bytes ns k list h =
    rw (alloc_search_lem fuel (alloc_bytes bytes) 0 k.ctxt.free_list ns k list h)
      (found (first_fit (alloc_bytes bytes) k ns))
  where
    size : ℕ
    size = alloc_bytes bytes

    found :
        (o : Option ℕ)
        → (elim (taken size k o) [
          | none ↦ alloc_extend fuel get_page_pma km_min_alloc_size size k
          | some r ↦ ok r
        ])
          ≡ answer fuel get_page_pma size k o
    found none = refl
    found (some n) = refl
