-- ===== src/Alloc/Reads.antt =====
-- What the accessors of alloc.c read in a heap that holds chunks.
use trash_os.Base.{
  ℕ, ◌+◌, ◌*◌, ◌/◌, ◌%◌, ◌^◌, ◌≤◌, ◌<◌, ◌≡◌, ◌∙◌, arith, Bool, true, false, bit_and, not32, List,
  ◌∷◌, ◌++◌,
}
use mathlib.Core.Path.{subst}
use trash_os.Base.Bits.{bit_and_page, bit_and_low}
use trash_os.Kernel.{Kernel, load}
use trash_os.Alloc.{
  alloc_get_desc, alloc_get_size, alloc_get_next_desc, alloc_get_node, alloc_get_size_prev,
  alloc_get_prev_desc, alloc_get_size_next,
}
use trash_os.Alloc.Chunks.{
  Chunk, flag, tag, IsLaid, IsSized, end_of, last_tag, le-end_of, end_of-append, end_of-aligned,
  IsLaid-suffix, IsLaid-first,
}
use trash_os.Alloc.Keep.{IsKept}
use trash_os.Alloc.Rewrite.{IsSized-suffix, IsSized-prefix}

pub desc_of : (e : ℕ) → e < 2 ^ 32 → alloc_get_desc (e + 8) ≡ e
unfolding alloc_get_desc
desc_of e h = omega arith

pub node_of : (e : ℕ) → e + 8 < 2 ^ 32 → alloc_get_node e ≡ e + 8
unfolding alloc_get_node
node_of e h = omega arith

size_of_word : (s f : ℕ) → f ≤ 1 → s % 8 ≡ 0 → s + 8 < 2 ^ 32 → bit_and (s + f) (not32 7) ≡ s
size_of_word s f bit al small =
    bit_and_page 3 29 (s + f) (omega arith)
    ∙ (let e : (s + f) / 2 ^ 3 * 2 ^ 3 ≡ s = omega arith in e)

pub flag-le : (b : Bool) → flag b ≤ 1
flag-le true = omega arith
flag-le false = omega arith

pub tag-size :
    (c : Chunk) → c.size % 8 ≡ 0 → c.size + 8 < 2 ^ 32 → bit_and (tag c) (not32 7) ≡ c.size
tag-size c al small = size_of_word c.size (flag c.is_free) (flag-le c.is_free) al small

pub tag-flag : (c : Chunk) → c.size % 8 ≡ 0 → bit_and (tag c) 1 ≡ flag c.is_free
tag-flag c al =
    let le = flag-le c.is_free in
    bit_and_low 1 (tag c)
    ∙ (let e : (c.size + flag c.is_free) % 2 ^ 1 ≡ flag c.is_free = omega arith in e)

-- Where a chunk lies, and what is stored for it.
pub record Placed (e w : ℕ) (c : Chunk) (rest : List Chunk) (k : Kernel) : Type 0 where
  pub word_prev : k.mem e ≡ w
  pub word_size : k.mem (e + 4) ≡ tag c
  pub word_next : k.mem (e + 8 + c.size) ≡ tag c
  pub laid : IsLaid k.mem (e + 8 + c.size) (tag c) rest
  pub aligned : e % 8 ≡ 0
  pub size_least : 8 ≤ c.size
  pub size_aligned : c.size % 8 ≡ 0
  pub sized : IsSized rest
  pub fits : end_of (e + 8 + c.size) rest + 8 < 2 ^ 32
  pub small : e + 8 + c.size + 8 < 2 ^ 32

pub kept-Placed :
    (d : ℕ) (before : List Chunk) (c : Chunk) (rest : List Chunk) (fs : List ℕ) (k : Kernel)
    → IsKept d (before ++ c ∷ rest) fs k
    → Placed (end_of d before) (last_tag 0 before) c rest k
kept-Placed d before c rest fs k h =
    let e : ℕ = end_of d before in
    let laid : IsLaid k.mem e (last_tag 0 before) (c ∷ rest) =
      IsLaid-suffix k.mem d 0 before (c ∷ rest) h.laid in
    let sized : IsSized (c ∷ rest) = IsSized-suffix before (c ∷ rest) h.sized in
    let fits : end_of (e + 8 + c.size) rest + 8 < 2 ^ 32 =
      subst (λ t. t + 8 < 2 ^ 32) (end_of-append d before (c ∷ rest)) h.fits in
    let le = le-end_of (e + 8 + c.size) rest in
    record {
      word_prev = laid.0;
      word_size = laid.1;
      word_next = IsLaid-first k.mem (e + 8 + c.size) (tag c) rest laid.2;
      laid = laid.2;
      aligned = end_of-aligned d before (IsSized-prefix before (c ∷ rest) h.sized) h.aligned;
      size_least = sized.0.0;
      size_aligned = sized.0.1;
      sized = sized.1;
      fits = fits;
      small = omega arith;
    }

-- The chunk behind a chunk.
pub Placed-next :
    (e w : ℕ) (c n : Chunk) (rest : List Chunk) (k : Kernel)
    → Placed e w c (n ∷ rest) k
    → Placed (e + 8 + c.size) (tag c) n rest k
Placed-next e w c n rest k p =
    let f : ℕ = e + 8 + c.size in
    let al = p.aligned in
    let al' = p.size_aligned in
    let le = le-end_of (f + 8 + n.size) rest in
    let fits = p.fits in
    let laid : IsLaid k.mem f (tag c) (n ∷ rest) = p.laid in
    record {
      word_prev = laid.0;
      word_size = laid.1;
      word_next = IsLaid-first k.mem (f + 8 + n.size) (tag n) rest laid.2;
      laid = laid.2;
      aligned = omega arith;
      size_least = p.sized.0.0;
      size_aligned = p.sized.0.1;
      sized = p.sized.1;
      fits = fits;
      small = omega arith;
    }

module _ (e w : ℕ) (c : Chunk) (rest : List Chunk) (k : Kernel) (p : Placed e w c rest k) where
  pub desc-at : alloc_get_desc (e + 8) ≡ e
  desc-at = let s = p.small in desc_of e (omega arith)

  pub size_bits : bit_and (tag c) (not32 7) ≡ c.size
  size_bits = let s = p.small in tag-size c p.size_aligned (omega arith)

  pub size-at : alloc_get_size (e + 8) k ≡ c.size
  unfolding alloc_get_size load
  size-at = rw (desc-at, p.word_size) size_bits

  pub next-at : alloc_get_next_desc (e + 8) k ≡ e + 8 + c.size
  unfolding alloc_get_next_desc
  next-at = let s = p.small in rw size-at (omega arith)

module _ (e w : ℕ) (a b : Chunk) (rest : List Chunk) (k : Kernel) (p : Placed e w a (b ∷ rest) k)
    (f : ℕ) (at : f ≡ e + 8 + a.size) where
  pub size_next-at : alloc_get_size_next (e + 8) k ≡ b.size
  unfolding alloc_get_size_next load
  size_next-at =
      let q = Placed-next e w a b rest k p in
      rw (next-at e w a (b ∷ rest) k p, q.word_size) (size_bits (e + 8 + a.size) (tag a) b rest k q)

  pub size_prev-at : alloc_get_size_prev (f + 8) k ≡ a.size
  unfolding alloc_get_size_prev load
  size_prev-at =
      let s = p.small in
      rw (desc_of f (omega arith), at, p.word_next) (size_bits e w a (b ∷ rest) k p)

  pub prev-at : alloc_get_prev_desc (f + 8) k ≡ e
  unfolding alloc_get_prev_desc
  prev-at = let s = p.small in rw size_prev-at (omega arith)
