-- ===== src/Alloc/Place.antt =====
-- Where `alloc` places a chunk: the specification, and the case of a chunk of the free list.
use trash_os.Base.{
  ℕ, ◌+◌, ◌%◌, ◌^◌, ◌≤◌, ◌<◌, ◌≡◌, ◌⊎◌, ◌≢◌, refl, sym, ap, ◌∙◌, arith, Bool, true, false, ◌||◌,
  some, List, [], ◌∷◌, ◌++◌, ◌==◌, eq→==, ==→eq, inl, inr, Bool-cases, ltb, ltb→lt, u32,
  if◌then◌else◌,
}
use mathlib.Core.Path.{subst, subst₂}
use trash_os.Kernel.{Kernel}
use trash_os.Mem.Align.{align_least}
use trash_os.Alloc.{alloc_bytes, alloc_clear_free, alloc_node_unlink, alloc_split}
use trash_os.Alloc.Members.{is_in}
use trash_os.Alloc.Chunks.{Chunk, IsHeap, end_of, free_nodes, last_tag, node_cases}
use trash_os.Alloc.Keep.{IsHeap-IsKept}
use trash_os.Alloc.Reads.{kept-Placed, size-at}
use trash_os.Alloc.Search.{fits, first_fit, take_chunk}
use trash_os.Alloc.Carve.{busy, rest_of}
use trash_os.Alloc.CarvedWords.{taken_of}
use trash_os.Alloc.Take.{take_exact}
use trash_os.Alloc.Split.{split_heap}

-- What becomes of a free chunk that `bytes` bytes are taken from.
abbrev pub pieces : Chunk → ℕ → List Chunk → List Chunk
pieces c bytes after =
    if c.size == bytes then busy c ∷ after else taken_of bytes ∷ rest_of c bytes ∷ after

-- `Places bytes d cs n cs'`: the chunks `cs` become `cs'`, in which the chunk at `n` is given out.
pub data Places (bytes d : ℕ) : List Chunk → ℕ → List Chunk → Type 0 where
  reuse :
      (before : List Chunk) (c : Chunk) (after : List Chunk)
      → c.is_free ≡ true
      → (c.size ≡ bytes) ⊎ (bytes + 16 ≤ c.size)
      → Places bytes d (before ++ c ∷ after) (end_of d before + 8) (before ++ pieces c bytes after)
  extend : (cs : List Chunk) → Places bytes d cs (end_of d cs + 8) (cs ++ taken_of bytes ∷ [])

-- The chunk of a listed node.
pub record Found (n d : ℕ) (cs : List Chunk) : Type 0 where
  pub before : List Chunk
  pub c : Chunk
  pub after : List Chunk
  pub split : cs ≡ before ++ c ∷ after
  pub node : n ≡ end_of d before + 8
  pub free : c.is_free ≡ true

find_chunk : (n d : ℕ) (cs : List Chunk) → is_in n (free_nodes d cs) ≡ true → Found n d cs
find_chunk n d [] h = cc
find_chunk n d (c ∷ cs) h = elim (node_cases n d c cs h) [
  | inl (at, free) ↦ record { before = []; c = c; after = cs; split = refl; node = at; free = free }
  | inr later ↦
      let f = find_chunk n (d + 8 + c.size) cs later in
      record {
        before = c ∷ f.before;
        c = f.c;
        after = f.after;
        split = ap (λ t. c ∷ t) f.split;
        node = f.node;
        free = f.free;
      }
]

pub first_fit-fits :
    (bytes : ℕ) (k : Kernel) (ns : List ℕ) (n : ℕ)
    → first_fit bytes k ns ≡ some n
    → (is_in n ns ≡ true) × (fits bytes k n ≡ true)
first_fit-fits bytes k [] n h = cc
first_fit-fits bytes k (m ∷ ms) n h = elim (Bool-cases (fits bytes k m)) [
  | inl fit ↦
      let here : some m ≡ some n = rw fit at h in
      let same : m ≡ n = some_injective here in
      (rw (eq→== n m (sym same)) refl, subst (λ t. fits bytes k t ≡ true) same fit)
  | inr small ↦
      let (later, fit) = first_fit-fits bytes k ms n (rw small at h) in
      (rw later (or_true (n == m)), fit)
]
  where
    or_true : (b : Bool) → (b || true) ≡ true
    or_true true = refl
    or_true false = refl

    some_injective : some m ≡ some n → m ≡ n
    some_injective e = cc

-- The rounded size is a multiple of 8 and at least 8 and the size asked for.
pub alloc_bytes_lem :
    (bytes : ℕ)
    → bytes + 8 ≤ 2 ^ 32
    → (alloc_bytes bytes % 8 ≡ 0)
      × (8 ≤ alloc_bytes bytes)
      × (bytes ≤ alloc_bytes bytes)
      × (alloc_bytes bytes ≤ bytes + 8)
unfolding alloc_bytes
alloc_bytes_lem bytes small = elim (Bool-cases (bytes == 0)) [
  | inl zero ↦ let z = ==→eq bytes 0 zero in rw zero (refl, omega arith, omega arith, omega arith)
  | inr more ↦
      let (al, le, lt) = align_least 3 bytes (omega arith) small in
      let ne : bytes ≢ 0 = λ e. cc (eq→== bytes 0 e) in rw more (al, omega arith, le, omega arith)
]

pub record Taken (bytes n d : ℕ) (cs : List Chunk) (k : Kernel) : Type 0 where
  pub chunks : List Chunk
  pub free_list : List ℕ
  pub places : Places bytes d cs n chunks
  pub heap : IsHeap d chunks free_list (take_chunk bytes n k)

take_found :
    (bytes d : ℕ) (before : List Chunk) (c : Chunk) (after : List Chunk) (fs : List ℕ) (k : Kernel)
    → IsHeap d (before ++ c ∷ after) fs k
    → c.is_free ≡ true
    → (bytes % 8 ≡ 0) × (8 ≤ bytes) × (bytes + 8 < 2 ^ 32)
    → fits bytes k (end_of d before + 8) ≡ true
    → Taken bytes (end_of d before + 8) d (before ++ c ∷ after) k
take_found bytes d before c after fs k h free (al, least, small) fit =
    let e : ℕ = end_of d before in
    let n : ℕ = e + 8 in
    let p = kept-Placed d before c after fs k (IsHeap-IsKept h) in
    let al' = p.size_aligned in
    let size = size-at e (last_tag 0 before) c after k p in
    let fit' : (c.size == bytes || ltb (u32 (bytes + 8)) c.size) ≡ true = rw size at fit in
    elim (Bool-cases (c.size == bytes)) [
      | inl exact ↦
          let same = ==→eq c.size bytes exact in
          let (fs', heap) = take_exact d before c after fs k h free in
          let done : take_chunk bytes n k ≡ alloc_clear_free n (alloc_node_unlink n k) =
            rw (size, exact) refl in
          let cut : pieces c bytes after ≡ busy c ∷ after =
            ap (λ t. if t then busy c ∷ after else taken_of bytes ∷ rest_of c bytes ∷ after)
              exact in
          record {
            chunks = before ++ pieces c bytes after;
            free_list = fs';
            places = reuse before c after free (inl same);
            heap = subst₂ (λ t k'. IsHeap d (before ++ t) fs' k') (sym cut) (sym done) heap;
          }
      | inr more ↦
          let room : ltb (u32 (bytes + 8)) c.size ≡ true = rw more at fit' in
          let lt = ltb→lt (u32 (bytes + 8)) c.size room in
          let (fs', heap) =
            split_heap d before c after bytes fs k
              (record { heap = h; free = free; room = omega arith; least = least; aligned = al }) in
          let done : take_chunk bytes n k ≡ alloc_split n bytes k = rw (size, more) refl in
          let cut : pieces c bytes after ≡ taken_of bytes ∷ rest_of c bytes ∷ after =
            ap (λ t. if t then busy c ∷ after else taken_of bytes ∷ rest_of c bytes ∷ after) more in
          record {
            chunks = before ++ pieces c bytes after;
            free_list = fs';
            places = reuse before c after free (inr (omega arith));
            heap = subst₂ (λ t k'. IsHeap d (before ++ t) fs' k') (sym cut) (sym done) heap;
          }
    ]

-- The chunk that the search finds.
pub take-Taken :
    (bytes n d : ℕ) (cs : List Chunk) (fs : List ℕ) (k : Kernel)
    → IsHeap d cs fs k
    → (bytes % 8 ≡ 0) × (8 ≤ bytes) × (bytes + 8 < 2 ^ 32)
    → first_fit bytes k fs ≡ some n
    → Taken bytes n d cs k
take-Taken bytes n d cs fs k h size found =
    let (listed, fit) = first_fit-fits bytes k fs n found in
    let f = find_chunk n d cs (sym (h.nodes n) ∙ listed) in
    let heap : IsHeap d (f.before ++ f.c ∷ f.after) fs k = subst (λ t. IsHeap d t fs k) f.split h in
    subst₂ (λ t m. Taken bytes m d t k) (sym f.split) (sym f.node)
      (take_found bytes d f.before f.c f.after fs k heap f.free size
        (subst (λ t. fits bytes k t ≡ true) f.node fit))
