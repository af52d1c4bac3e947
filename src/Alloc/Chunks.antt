-- ===== src/Alloc/Chunks.antt =====
-- The heap as a row of chunks: the specification of what alloc.c keeps in memory. A chunk has a
-- descriptor of two words, `size_prev` and `size`; its own size and its flag stand in the `size` of
-- its descriptor and in the `size_prev` of the next one.
use trash_os.Base.{
  ℕ, ◌+◌, ◌%◌, ◌^◌, ◌≤◌, ◌<◌, ◌≡◌, ◌≢◌, ◌⊎◌, refl, sym, ap, ◌∙◌, arith, Bool, true, false, ◌||◌,
  inl, inr, List, [], ◌∷◌, ◌++◌, All, All-map, ◌==◌, ==→eq, ne→==-false, if◌then◌else◌, Bool-cases,
  update,
}
use trash_os.Kernel.{Kernel}
use trash_os.Alloc.FreeList.{IsFreeList, IsOutside}
use trash_os.Alloc.Members.{is_in}

pub record Chunk : Type 0 where
  pub size : ℕ
  pub is_free : Bool

abbrev pub flag : Bool → ℕ
flag true = 1
flag false = 0

abbrev pub tag : Chunk → ℕ
tag c = c.size + flag c.is_free

-- The descriptor behind the last chunk, of those from descriptor `d` on.
abbrev pub end_of : ℕ → List Chunk → ℕ
end_of d [] = d
end_of d (c ∷ cs) = end_of (d + 8 + c.size) cs

-- The `size_prev` word of that descriptor, from the one of `d`.
abbrev pub last_tag : ℕ → List Chunk → ℕ
last_tag w [] = w
last_tag w (c ∷ cs) = last_tag (tag c) cs

-- From descriptor `d`, whose `size_prev` is `w`, the memory holds the chunks; the descriptor behind
-- them is not marked free.
abbrev pub IsLaid : (ℕ → ℕ) → ℕ → ℕ → List Chunk → Type 0
IsLaid mem d w [] = (mem d ≡ w) × (mem (d + 4) % 2 ≡ 0)
IsLaid mem d w (c ∷ cs) =
    (mem d ≡ w) × (mem (d + 4) ≡ tag c) × IsLaid mem (d + 8 + c.size) (tag c) cs

abbrev pub IsSized : List Chunk → Type 0
IsSized cs = All (λ c. (8 ≤ c.size) × (c.size % 8 ≡ 0)) cs

-- The nodes of the free chunks, in the order of their addresses.
abbrev pub free_nodes : ℕ → List Chunk → List ℕ
free_nodes d [] = []
free_nodes d (c ∷ cs) =
    if c.is_free then (d + 8) ∷ free_nodes (d + 8 + c.size) cs else free_nodes (d + 8 + c.size) cs

-- The heap of the kernel is the chunks `cs` from descriptor `d` on, and `fs` is its free list: it
-- holds the free chunks, in any order.
pub record IsHeap (d : ℕ) (cs : List Chunk) (fs : List ℕ) (k : Kernel) : Type 0 where
  pub laid : IsLaid k.mem d 0 cs
  pub sized : IsSized cs
  pub aligned : d % 8 ≡ 0
  pub fits : end_of d cs + 8 < 2 ^ 32
  pub limit : k.ctxt.limit ≡ end_of d cs + 8
  pub list : IsFreeList k fs
  pub nodes : (x : ℕ) → is_in x fs ≡ is_in x (free_nodes d cs)

-- The address is none of the words of the descriptors.
abbrev pub IsOff : ℕ → ℕ → List Chunk → Type 0
IsOff a d [] = (a ≢ d) × (a ≢ d + 4)
IsOff a d (c ∷ cs) = (a ≢ d) × (a ≢ d + 4) × IsOff a (d + 8 + c.size) cs

pub le-end_of : (d : ℕ) (cs : List Chunk) → d ≤ end_of d cs
le-end_of d [] = omega arith
le-end_of d (c ∷ cs) = omega (arith, le-end_of (d + 8 + c.size) cs)

pub end_of-append : (d : ℕ) (xs ys : List Chunk) → end_of d (xs ++ ys) ≡ end_of (end_of d xs) ys
end_of-append d [] ys = refl
end_of-append d (x ∷ xs) ys = end_of-append (d + 8 + x.size) xs ys

pub end_of-aligned : (d : ℕ) (cs : List Chunk) → IsSized cs → d % 8 ≡ 0 → end_of d cs % 8 ≡ 0
end_of-aligned d [] sized h = h
end_of-aligned d (c ∷ cs) sized h =
    let s = sized.0.1 in end_of-aligned (d + 8 + c.size) cs sized.1 (omega arith)

pub below-IsOff : (a d : ℕ) (cs : List Chunk) → a < d → IsOff a d cs
below-IsOff a d [] h = omega arith
below-IsOff a d (c ∷ cs) h =
    (omega arith, omega arith, below-IsOff a (d + 8 + c.size) cs (omega arith))

pub node_cases :
    (x d : ℕ) (c : Chunk) (cs : List Chunk)
    → is_in x (free_nodes d (c ∷ cs)) ≡ true
    → ((x ≡ d + 8) × (c.is_free ≡ true)) ⊎ (is_in x (free_nodes (d + 8 + c.size) cs) ≡ true)
node_cases x d c cs h = elim (Bool-cases c.is_free) [
  | inl e ↦
      let m : (x == d + 8 || is_in x (free_nodes (d + 8 + c.size) cs)) ≡ true = rw e at h in
      elim (Bool-cases (x == d + 8)) [
        | inl here ↦ inl (==→eq x (d + 8) here, e)
        | inr other ↦ inr (rw other at m)
      ]
  | inr e ↦ inr (rw e at h)
]

-- The words of a free chunk's node are no words of a descriptor.
pub node-IsOff :
    (x d : ℕ) (cs : List Chunk)
    → IsSized cs
    → d % 8 ≡ 0
    → is_in x (free_nodes d cs) ≡ true
    → (d + 8 ≤ x) × (x % 8 ≡ 0) × IsOff x d cs × IsOff (x + 4) d cs
node-IsOff x d [] sized al h = cc
node-IsOff x d (c ∷ cs) sized al h =
    let s = sized.0.0 in
    let s' = sized.0.1 in
    elim (node_cases x d c cs h) [
      | inl (at, free) ↦ (
        omega arith,
        omega arith,
        (omega arith, omega arith, below-IsOff x (d + 8 + c.size) cs (omega arith)),
        (omega arith, omega arith, below-IsOff (x + 4) (d + 8 + c.size) cs (omega arith)),
      )
      | inr later ↦
          let (le, al', off, off') = node-IsOff x (d + 8 + c.size) cs sized.1 (omega arith) later in
          (omega arith, al', (omega arith, omega arith, off), (omega arith, omega arith, off'))
    ]

-- A memory with the same words outside the nodes holds the same chunks.
pub IsLaid-frame :
    (mem mem' : ℕ → ℕ) (d w : ℕ) (cs : List Chunk) (fs : List ℕ)
    → All (λ x. IsOff x d cs × IsOff (x + 4) d cs) fs
    → ((a : ℕ) → IsOutside a fs → mem' a ≡ mem a)
    → IsLaid mem d w cs
    → IsLaid mem' d w cs
IsLaid-frame mem mem' d w [] fs off same laid =
    let out : IsOutside d fs = All-map fs (λ x h. (h.0.0, h.1.0)) off in
    let out' : IsOutside (d + 4) fs = All-map fs (λ x h. (h.0.1, h.1.1)) off in
    (same d out ∙ laid.0, ap (λ t. t % 2) (same (d + 4) out') ∙ laid.1)
IsLaid-frame mem mem' d w (c ∷ cs) fs off same laid =
    let out : IsOutside d fs = All-map fs (λ x h. (h.0.0, h.1.0)) off in
    let out' : IsOutside (d + 4) fs = All-map fs (λ x h. (h.0.1, h.1.1)) off in
    (
      same d out ∙ laid.0,
      same (d + 4) out' ∙ laid.1,
      IsLaid-frame mem mem' (d + 8 + c.size) (tag c) cs fs (All-map fs (λ x h. (h.0.2, h.1.2)) off)
          same laid.2,
    )

-- A write to another word keeps the chunks.
pub IsLaid-update :
    (mem : ℕ → ℕ) (a v d w : ℕ) (cs : List Chunk)
    → IsOff a d cs
    → IsLaid mem d w cs
    → IsLaid (update mem a v) d w cs
IsLaid-update mem a v d w [] off laid =
    rw (ne→==-false d a (λ e. off.0 (sym e)), ne→==-false (d + 4) a (λ e. off.1 (sym e))) laid
IsLaid-update mem a v d w (c ∷ cs) off laid = (
  rw (ne→==-false d a (λ e. off.0 (sym e))) laid.0,
  rw (ne→==-false (d + 4) a (λ e. off.1 (sym e))) laid.1,
  IsLaid-update mem a v (d + 8 + c.size) (tag c) cs off.2 laid.2,
)

-- The chunks behind a prefix.
pub IsLaid-suffix :
    (mem : ℕ → ℕ) (d w : ℕ) (xs ys : List Chunk)
    → IsLaid mem d w (xs ++ ys)
    → IsLaid mem (end_of d xs) (last_tag w xs) ys
IsLaid-suffix mem d w [] ys laid = laid
IsLaid-suffix mem d w (x ∷ xs) ys laid = IsLaid-suffix mem (d + 8 + x.size) (tag x) xs ys laid.2

-- A change of the memory from the descriptor behind a prefix on.
pub IsLaid-replace :
    (mem mem' : ℕ → ℕ) (d w : ℕ) (xs ys ys' : List Chunk)
    → ((a : ℕ) → a < end_of d xs → mem' a ≡ mem a)
    → IsLaid mem d w (xs ++ ys)
    → IsLaid mem' (end_of d xs) (last_tag w xs) ys'
    → IsLaid mem' d w (xs ++ ys')
IsLaid-replace mem mem' d w [] ys ys' same laid new = new
IsLaid-replace mem mem' d w (x ∷ xs) ys ys' same laid new =
    let le = le-end_of (d + 8 + x.size) xs in
    (
      same d (omega arith) ∙ laid.0,
      same (d + 4) (omega arith) ∙ laid.1,
      IsLaid-replace mem mem' (d + 8 + x.size) (tag x) xs ys ys' same laid.2 new,
    )

pub IsLaid-first : (mem : ℕ → ℕ) (d w : ℕ) (cs : List Chunk) → IsLaid mem d w cs → mem d ≡ w
IsLaid-first mem d w [] laid = laid.0
IsLaid-first mem d w (c ∷ cs) laid = laid.0

-- A change of the memory up to the `size_prev` of the first descriptor.
pub IsLaid-head :
    (mem mem' : ℕ → ℕ) (d w w' : ℕ) (cs : List Chunk)
    → mem' d ≡ w'
    → ((a : ℕ) → d < a → mem' a ≡ mem a)
    → IsLaid mem d w cs
    → IsLaid mem' d w' cs
IsLaid-head mem mem' d w w' [] at same laid =
    (at, ap (λ t. t % 2) (same (d + 4) (omega arith)) ∙ laid.1)
IsLaid-head mem mem' d w w' (c ∷ cs) at same laid = (
  at,
  same (d + 4) (omega arith) ∙ laid.1,
  IsLaid-head mem mem' (d + 8 + c.size) (tag c) (tag c) cs
      (same (d + 8 + c.size) (omega arith) ∙ IsLaid-first mem (d + 8 + c.size) (tag c) cs laid.2)
      (λ a h. same a (omega arith)) laid.2,
)
