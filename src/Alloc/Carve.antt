-- ===== src/Alloc/Carve.antt =====
-- What `alloc_clear_free` and `alloc_split` write to a chunk.
use trash_os.Base.{
  ℕ, ◌+◌, ◌-◌, ◌*◌, ◌/◌, ◌%◌, ◌^◌, ◌≤◌, ◌<◌, ◌≡◌, ◌≢◌, refl, ◌∙◌, arith, true, false, bit_and, u32,
  sub32, not32, List,
}
use trash_os.Base.Bits.{bit_and_page, bit_or_one}
use trash_os.Kernel.{Kernel, load, store}
use trash_os.Alloc.{alloc_get_next_desc, alloc_clear_free, alloc_split, alloc_get_size}
use trash_os.Alloc.Chunks.{Chunk, tag, flag}
use trash_os.Alloc.Rewrite.{put}
use trash_os.Alloc.Reads.{Placed, flag-le, desc-at, size_bits}
use trash_os.Alloc.Join.{load_at, load-store, stored_elsewhere, next-stored}
use trash_os.Alloc.Replace.{relink}

-- A chunk marked in use.
abbrev pub busy : Chunk → Chunk
busy c = record { size = c.size; is_free = false }

lower_flag :
    (c : Chunk) → c.size % 8 ≡ 0 → c.size + 8 < 2 ^ 32 → bit_and (tag c) (not32 1) ≡ tag (busy c)
lower_flag c al small =
    let le = flag-le c.is_free in
    bit_and_page 1 31 (tag c) (omega arith)
    ∙ (let q : (c.size + flag c.is_free) / 2 ^ 1 * 2 ^ 1 ≡ c.size + 0 = omega arith in q)

pub clear_free_put :
    (e w : ℕ) (c : Chunk) (rest : List Chunk) (k : Kernel)
    → Placed e w c rest k
    → alloc_clear_free (e + 8) k ≡ put e (busy c) k
unfolding alloc_clear_free
clear_free_put e w c rest k p =
    let s = p.small in
    let al = p.size_aligned in
    let size : load (e + 4) k ≡ tag c = load_at (e + 4) (tag c) k p.word_size in
    let down = lower_flag c al (omega arith) in
    let behind : load (e + 8 + c.size) (store (e + 4) (tag (busy c)) k) ≡ tag c =
      load_at (e + 8 + c.size) (tag c) (store (e + 4) (tag (busy c)) k)
        (stored_elsewhere (e + 4) (tag (busy c)) (e + 8 + c.size) k (omega arith) ∙ p.word_next) in
    rw (desc-at e w c rest k p, size, down, next-stored e (busy c) k (s, al), behind, down) refl

pub load-other : (a v b : ℕ) (k : Kernel) → b ≢ a → load b (store a v k) ≡ load b k
unfolding load
load-other a v b k ne = stored_elsewhere a v b k ne

-- The part of the chunk `c` behind `bytes` bytes and a descriptor.
abbrev pub rest_of : Chunk → ℕ → Chunk
rest_of c bytes = record { size = c.size - (bytes + 8); is_free = true }

-- The words that `alloc_split` writes, before it changes the free list.
abbrev pub carved : ℕ → Chunk → ℕ → Kernel → Kernel
carved e c bytes k =
    let m : ℕ = e + 8 + bytes in
    let word : ℕ = tag (rest_of c bytes) in
    let k₂ = store (m + 4) word (store (m + 4) word (store m bytes k)) in
    let k₅ = store (e + 4) bytes (store (e + 8 + c.size) word k₂) in
    store (m + 8 + 4) (load (e + 8 + 4) k) (store (m + 8) (load (e + 8) k) k₅)

next_reads :
    (e w : ℕ) (c : Chunk) (rest : List Chunk) (k k' : Kernel)
    → Placed e w c rest k
    → load (e + 4) k' ≡ tag c
    → alloc_get_next_desc (e + 8) k' ≡ e + 8 + c.size
unfolding alloc_get_next_desc alloc_get_size
next_reads e w c rest k k' p at =
    let s = p.small in rw (desc-at e w c rest k p, at, size_bits e w c rest k p) (omega arith)

pub split_carved :
    (e w : ℕ) (c : Chunk) (rest : List Chunk) (bytes : ℕ) (k : Kernel)
    → Placed e w c rest k
    → c.is_free ≡ true
    → (bytes + 8 < c.size) × (bytes % 8 ≡ 0) × (8 ≤ bytes)
    → alloc_split (e + 8) bytes k ≡ relink (e + 8 + bytes + 8) (carved e c bytes k)
unfolding alloc_split
split_carved e w c rest bytes k p free (room, al', least) =
    let s = p.small in
    let al = p.size_aligned in
    let m : ℕ = e + 8 + bytes in
    let f : ℕ = e + 8 + c.size in
    let word : ℕ = tag (rest_of c bytes) in
    let k₁ = store m bytes k in
    let size : load (e + 4) k ≡ tag c = load_at (e + 4) (tag c) k p.word_size in
    let size₁ : load (e + 4) k₁ ≡ tag c = load-other m bytes (e + 4) k (omega arith) ∙ size in
    let k₃ = store (m + 4) word (store (m + 4) word k₁) in
    let k₅ = store (e + 4) bytes (store f word k₃) in
    let size₃ : load (e + 4) k₃ ≡ tag c =
      load-other (m + 4) word (e + 4) (store (m + 4) word k₁) (omega arith)
      ∙ load-other (m + 4) word (e + 4) k₁ (omega arith)
      ∙ size₁ in
    let kept : (a : ℕ) → a ≢ m → a ≢ m + 4 → a ≢ f → a ≢ e + 4 → load a k₅ ≡ load a k =
      λ a n₁ n₂ n₃ n₄.
        load-other (e + 4) bytes a (store f word k₃) n₄
        ∙ load-other f word a k₃ n₃
        ∙ load-other (m + 4) word a (store (m + 4) word k₁) n₂
        ∙ load-other (m + 4) word a k₁ n₂
        ∙ load-other m bytes a k n₁ in
    let word_at : sub32 (sub32 (c.size + 1) bytes) 8 ≡ word = omega arith in
    rw
      (
        desc-at e w c rest k p,
        (let q : u32 (e + 8 + bytes) ≡ m = omega arith in q),
        size₁,
        free,
        word_at,
        load-store (m + 4) word k₁,
        bit_or_one (rest_of c bytes).size (omega arith),
        next_reads e w c rest k k₃ p size₃,
        load-store (m + 4) word (store (m + 4) word k₁),
        bit_or_one (rest_of c bytes).size (omega arith),
        (let q : u32 (m + 8) ≡ m + 8 = omega arith in q),
        kept (e + 8) (omega arith) (omega arith) (omega arith) (omega arith),
        kept (e + 8 + 4) (omega arith) (omega arith) (omega arith) (omega arith),
      )
      refl
