-- ===== src/Proc/Walk.antt =====
-- The walks over the page tables of a process, `proc_mem_map` and `proc_mem_unmap`.
use trash_os.Base.{
  ℕ, zero, suc, ◌+◌, ◌<◌, ◌≡◌, ◌≢◌, refl, ◌∙◌, arith, List, [], ◌∷◌, length, eq→==, ne→==-false,
  u32,
}
use trash_os.Base.Runs.{ok}
use trash_os.Kernel.{Kernel, load, store}
use trash_os.Page.{page_entries, page_set_dir_entry, word_at}
use trash_os.Proc.{proc_mem_map, proc_mem_unmap}

-- The address is no word of the lookup table and none of the page directory.
abbrev pub IsApart : Kernel → ℕ → Type 0
IsApart k a =
    (i : ℕ) → i < page_entries → (a ≢ word_at k.page_table_lookup i) × (a ≢ word_at k.page_dir i)

-- `k'` is `k` with other words in the lookup table and in the page directory.
pub record Remaps (k k' : Kernel) : Type 0 where
  pub lookup : k'.page_table_lookup ≡ k.page_table_lookup
  pub dir : k'.page_dir ≡ k.page_dir
  pub others : (a : ℕ) → IsApart k a → load a k' ≡ load a k

pub Remaps-IsApart : {k k' : Kernel} (a : ℕ) → Remaps k k' → IsApart k a → IsApart k' a
Remaps-IsApart a r apart i small = rw (r.lookup, r.dir) (apart i small)

Remaps-refl : (k : Kernel) → Remaps k k
Remaps-refl k = record { lookup = refl; dir = refl; others = λ a apart. refl }

pub Remaps-trans : {k k' k'' : Kernel} → Remaps k k' → Remaps k' k'' → Remaps k k''
Remaps-trans r r' = record {
  lookup = r'.lookup ∙ r.lookup;
  dir = r'.dir ∙ r.dir;
  others = λ a apart. r'.others a (Remaps-IsApart a r apart) ∙ r.others a apart;
}

page_set_dir_entry-Remaps :
    (idx table_vma entry : ℕ) (k : Kernel)
    → idx < page_entries
    → Remaps k (page_set_dir_entry idx table_vma entry k)
unfolding page_set_dir_entry load store
page_set_dir_entry-Remaps idx table_vma entry k small = record {
  lookup = refl;
  dir = refl;
  others = λ a apart.
      let (l, d) = apart idx small in
      rw
        (
          ne→==-false a (word_at k.page_dir idx) d,
          ne→==-false a (word_at k.page_table_lookup idx) l,
        )
        refl;
}

-- From `n` the page table nodes `ts` lead to the end. Their links and indices, at the addresses of
-- `Fixed`, are in `k`, and each index is one of the page directory.
abbrev pub IsTables : (ℕ → Type 0) → Kernel → ℕ → List ℕ → Type 0
IsTables Fixed k n [] = n ≡ 0
IsTables Fixed k n (t ∷ ts) =
    (n ≡ t)
    × (t ≢ 0)
    × Fixed t
    × Fixed (u32 (t + 4))
    × (load (u32 (t + 4)) k < page_entries)
    × IsTables Fixed k (load t k) ts

pub IsTables-frame :
    (Fixed : ℕ → Type 0) (k k' : Kernel) (n : ℕ) (ts : List ℕ)
    → ((a : ℕ) → Fixed a → load a k' ≡ load a k)
    → IsTables Fixed k n ts
    → IsTables Fixed k' n ts
IsTables-frame Fixed k k' n [] same h = h
IsTables-frame Fixed k k' n (t ∷ ts) same (at, on, fixed, fixed_idx, idx, rest) = (
  at,
  on,
  fixed,
  fixed_idx,
  rw (same (u32 (t + 4)) fixed_idx) idx,
  rw (same t fixed) (IsTables-frame Fixed k k' (load t k) ts same rest),
)

-- Where the words of the page table nodes lie outside the directory and the lookup table, both walks
-- return with more fuel than nodes, and they write nowhere else.
module _ (Fixed : ℕ → Type 0) where
  pub proc_mem_unmap-Remaps :
      (fuel n : ℕ) (ts : List ℕ) (k : Kernel)
      → ((a : ℕ) → Fixed a → IsApart k a)
      → IsTables Fixed k n ts
      → length ts < fuel
      → (k' : Kernel) × (proc_mem_unmap fuel n k ≡ ok k') × Remaps k k'
  unfolding proc_mem_unmap
  proc_mem_unmap-Remaps zero n ts k apart is more = absurd (omega arith)
  proc_mem_unmap-Remaps (suc fuel) n [] k apart is more = (k, rw (eq→== n 0 is) refl, Remaps-refl k)
  proc_mem_unmap-Remaps (suc fuel) n (t ∷ ts) k apart (at, on, fixed, fixed_idx, idx, rest) more =
      let k₁ = page_set_dir_entry (load (u32 (t + 4)) k) 0 0 k in
      let r : Remaps k k₁ = page_set_dir_entry-Remaps (load (u32 (t + 4)) k) 0 0 k idx in
      let same : (a : ℕ) → Fixed a → load a k₁ ≡ load a k = λ a f. r.others a (apart a f) in
      let (k', runs, r') =
        proc_mem_unmap-Remaps fuel (load t k₁) ts k₁ (λ a f. Remaps-IsApart a r (apart a f))
          (rw (same t fixed) (IsTables-frame Fixed k k₁ (load t k) ts same rest)) (omega arith) in
      (k', rw (at, ne→==-false t 0 on) runs, Remaps-trans r r')

  pub proc_mem_map-Remaps :
      (fuel n : ℕ) (ts : List ℕ) (k : Kernel)
      → ((a : ℕ) → Fixed a → IsApart k a)
      → IsTables Fixed k n ts
      → length ts < fuel
      → (k' : Kernel) × (proc_mem_map fuel n k ≡ ok k') × Remaps k k'
  unfolding proc_mem_map
  proc_mem_map-Remaps zero n ts k apart is more = absurd (omega arith)
  proc_mem_map-Remaps (suc fuel) n [] k apart is more = (k, rw (eq→== n 0 is) refl, Remaps-refl k)
  proc_mem_map-Remaps (suc fuel) n (t ∷ ts) k apart (at, on, fixed, fixed_idx, idx, rest) more =
      let k₁ =
        page_set_dir_entry (load (u32 (t + 4)) k) (load (u32 (t + 8)) k) (load (u32 (t + 12)) k)
          k in
      let r : Remaps k k₁ = page_set_dir_entry-Remaps (load (u32 (t + 4)) k) _ _ k idx in
      let same : (a : ℕ) → Fixed a → load a k₁ ≡ load a k = λ a f. r.others a (apart a f) in
      let (k', runs, r') =
        proc_mem_map-Remaps fuel (load t k₁) ts k₁ (λ a f. Remaps-IsApart a r (apart a f))
          (rw (same t fixed) (IsTables-frame Fixed k k₁ (load t k) ts same rest)) (omega arith) in
      (k', rw (at, ne→==-false t 0 on) runs, Remaps-trans r r')
