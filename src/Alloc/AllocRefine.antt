-- ===== src/Alloc/AllocRefine.antt =====
-- What `alloc` does to the chunks of the heap.
use trash_os.Base.{ℕ, ◌+◌, ◌*◌, ◌^◌, ◌≤◌, ◌≡◌, List, length}
use trash_os.Base.Runs.{Run, ok}
use trash_os.Kernel.{Kernel}
use trash_os.Alloc.Chunks.{Chunk, IsHeap, end_of}
use trash_os.Alloc.Place.{Places}

-- Bounds under which an allocation of `bytes` bytes cannot fail: the heap stays below `top` and the
-- last page, and the fuel is enough for its pages and its free list.
pub record Fits (bytes top fuel d : ℕ) (cs : List Chunk) (fs : List ℕ) : Type 0 where
  pub end_small : end_of d cs + bytes + 24 + 4096 ≤ 2 ^ 32
  pub end_below : end_of d cs + bytes + 24 ≤ top
  pub pages : bytes + 16 ≤ 4096 * fuel
  pub nodes : length fs ≤ fuel

-- What an allocation gives.
abbrev pub Allocated : ℕ → ℕ → List Chunk → Run (ℕ × Kernel) → Type 0
Allocated bytes d cs run =
    (n : ℕ) × (k' : Kernel) × (cs' : List Chunk) × (fs' : List ℕ) × (run ≡ ok (n, k'))
    × Places bytes d cs n cs'
    × IsHeap d cs' fs' k'
