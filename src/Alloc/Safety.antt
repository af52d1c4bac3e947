-- ===== src/Alloc/Safety.antt =====
-- Memory that is in use stays in use, and no allocation is given any of it.
use trash_os.Base.{ℕ, ◌+◌, ◌≤◌, ◌≡◌, ◌⊎◌, arith, false, List, [], ◌∷◌, ◌++◌, inl, inr}
use trash_os.Kernel.{Kernel}
use trash_os.Alloc.Chunks.{Chunk, end_of, le-end_of}

-- A chunk of `s` bytes at `a` is in use.
abbrev pub InUse : ℕ → List Chunk → ℕ → ℕ → Type 0
InUse d [] a s = ⊥
InUse d (c ∷ cs) a s =
    ((c.is_free ≡ false) × (a ≡ d + 8) × (s ≡ c.size)) ⊎ InUse (d + 8 + c.size) cs a s

pub use_bounds :
    (d : ℕ) (cs : List Chunk) (a s : ℕ) → InUse d cs a s → (d + 8 ≤ a) × (a + s ≤ end_of d cs)
use_bounds d [] a s u = absurd u
use_bounds d (c ∷ cs) a s (inl (used, at, size)) =
    let le = le-end_of (d + 8 + c.size) cs in (omega arith, omega arith)
use_bounds d (c ∷ cs) a s (inr later) =
    let (lo, hi) = use_bounds (d + 8 + c.size) cs a s later in (omega arith, hi)

pub use_front : (d : ℕ) (xs ys : List Chunk) (a s : ℕ) → InUse d xs a s → InUse d (xs ++ ys) a s
use_front d [] ys a s u = absurd u
use_front d (x ∷ xs) ys a s (inl here) = inl here
use_front d (x ∷ xs) ys a s (inr later) = inr (use_front (d + 8 + x.size) xs ys a s later)

pub use_back :
    (d : ℕ) (xs ys : List Chunk) (a s : ℕ) → InUse (end_of d xs) ys a s → InUse d (xs ++ ys) a s
use_back d [] ys a s u = u
use_back d (x ∷ xs) ys a s u = inr (use_back (d + 8 + x.size) xs ys a s u)

pub use_split :
    (d : ℕ) (xs ys : List Chunk) (a s : ℕ)
    → InUse d (xs ++ ys) a s
    → InUse d xs a s ⊎ InUse (end_of d xs) ys a s
use_split d [] ys a s u = inr u
use_split d (x ∷ xs) ys a s (inl here) = inl (inl here)
use_split d (x ∷ xs) ys a s (inr later) = elim (use_split (d + 8 + x.size) xs ys a s later) [
  | inl front ↦ inl (inr front)
  | inr back ↦ inr back
]

-- What is in use before is in use afterwards, apart from the new chunk.
abbrev pub KeepsUse : ℕ → ℕ → List Chunk → ℕ → List Chunk → Type 0
KeepsUse bytes d cs n cs' =
    InUse d cs' n bytes
    × ((a s : ℕ) → InUse d cs a s → InUse d cs' a s × ((a + s ≤ n) ⊎ (n + bytes ≤ a)))
