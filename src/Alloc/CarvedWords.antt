-- ===== src/Alloc/CarvedWords.antt =====
-- The memory after the writes of `alloc_split` to the descriptors.
use trash_os.Base.{ℕ, ◌+◌, ◌≤◌, ◌≡◌, ◌≢◌, refl, arith, false, ◌==◌, eq→==, ne→==-false}
use trash_os.Kernel.{Kernel, load, store}
use trash_os.Alloc.Chunks.{Chunk, tag}
use trash_os.Alloc.Carve.{rest_of, carved}

-- A chunk in use of `bytes` bytes.
abbrev pub taken_of : ℕ → Chunk
taken_of bytes = record { size = bytes; is_free = false }

pub carved_elsewhere :
    (e : ℕ) (c : Chunk) (bytes : ℕ) (k : Kernel) (a : ℕ)
    → let m = e + 8 + bytes in
      (a ≢ m) × (a ≢ m + 4) × (a ≢ m + 8) × (a ≢ m + 8 + 4) × (a ≢ e + 8 + c.size) × (a ≢ e + 4)
      → (carved e c bytes k).mem a ≡ k.mem a
unfolding store load
carved_elsewhere e c bytes k a (n₁, n₂, n₃, n₄, n₅, n₆) =
    let m : ℕ = e + 8 + bytes in
    rw
      (
        ne→==-false a (m + 8 + 4) n₄,
        ne→==-false a (m + 8) n₃,
        ne→==-false a (e + 4) n₆,
        ne→==-false a (e + 8 + c.size) n₅,
        ne→==-false a (m + 4) n₂,
        ne→==-false a m n₁,
      )
      refl

-- The words that were written.
pub carved_words :
    (e : ℕ) (c : Chunk) (bytes : ℕ) (k : Kernel)
    → (bytes + 16 ≤ c.size) × (8 ≤ bytes)
    → let m = e + 8 + bytes in
      let mem = (carved e c bytes k).mem in
      (mem (e + 4) ≡ bytes)
      × (mem m ≡ bytes)
      × (mem (m + 4) ≡ tag (rest_of c bytes))
      × (mem (e + 8 + c.size) ≡ tag (rest_of c bytes))
      × (mem (m + 8) ≡ k.mem (e + 8))
      × (mem (m + 8 + 4) ≡ k.mem (e + 8 + 4))
unfolding store load
carved_words e c bytes k (room, least) =
    let m : ℕ = e + 8 + bytes in
    let f : ℕ = e + 8 + c.size in
    let no : (a b : ℕ) → a ≢ b → (a == b) ≡ false = ne→==-false in
    (
      rw
          (
            no (e + 4) (m + 8 + 4) (λ q. omega arith),
            no (e + 4) (m + 8) (λ q. omega arith),
            eq→== (e + 4) (e + 4) refl,
          )
          refl,
      rw
          (
            no m (m + 8 + 4) (λ q. omega arith),
            no m (m + 8) (λ q. omega arith),
            no m (e + 4) (λ q. omega arith),
            no m f (λ q. omega arith),
            no m (m + 4) (λ q. omega arith),
            eq→== m m refl,
          )
          refl,
      rw
          (
            no (m + 4) (m + 8 + 4) (λ q. omega arith),
            no (m + 4) (m + 8) (λ q. omega arith),
            no (m + 4) (e + 4) (λ q. omega arith),
            no (m + 4) f (λ q. omega arith),
            eq→== (m + 4) (m + 4) refl,
          )
          refl,
      rw
          (
            no f (m + 8 + 4) (λ q. omega arith),
            no f (m + 8) (λ q. omega arith),
            no f (e + 4) (λ q. omega arith),
            eq→== f f refl,
          )
          refl,
      rw (no (m + 8) (m + 8 + 4) (λ q. omega arith), eq→== (m + 8) (m + 8) refl) refl,
      rw (eq→== (m + 8 + 4) (m + 8 + 4) refl) refl,
    )
