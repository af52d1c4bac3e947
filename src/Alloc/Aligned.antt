-- ===== src/Alloc/Aligned.antt =====
-- `alloc` at a larger alignment always extends the heap.
use trash_os.Base.{ℕ, ◌+◌, ◌-◌, ◌≡◌, ◌≢◌, ◌⊎◌, ◌==◌, if◌then◌else◌, List, [], ◌∷◌, ◌++◌}
use trash_os.Base.Runs.{Run, ok, halted}
use trash_os.Kernel.{Kernel}
use trash_os.Alloc.Chunks.{Chunk, IsHeap}
use trash_os.Alloc.CarvedWords.{taken_of}
use trash_os.Alloc.Pad.{spare}

-- The chunks with the padding of `bytes` bytes behind them.
abbrev pub with_padding : List Chunk → ℕ → List Chunk
with_padding cs bytes = if bytes == 0 then cs else cs ++ spare (bytes - 8) ∷ []

-- What an aligned allocation gives: it stops the processor where the padding is too short for a
-- chunk, and else returns the aligned end of the heap.
abbrev pub Aligned : ℕ → ℕ → ℕ → List Chunk → Kernel → Run (ℕ × Kernel) → Type 0
Aligned at bytes d cs k run =
    ((at ≡ k.ctxt.limit + 8) × (run ≡ halted))
    ⊎ ((at ≢ k.ctxt.limit + 8)
        × ((k' : Kernel) × (fs' : List ℕ) × (run ≡ ok (at, k'))
            × IsHeap d (with_padding cs (at - k.ctxt.limit) ++ taken_of bytes ∷ []) fs' k'))
