-- ===== src/Alloc/Grow.antt =====
-- `alloc` extends the heap by a chunk.
use trash_os.Base.{
  ℕ, suc, ◌+◌, ◌*◌, ◌%◌, ◌^◌, ◌≤◌, ◌<◌, ◌≡◌, ◌≢◌, refl, sym, ap, ◌∙◌, arith, Bool, true, false,
  ◌||◌, u32, sub32, ◌==◌, List, [], ◌∷◌, ◌++◌, eq→==, ne→==-false,
}
use mathlib.Core.Path.{subst}
use mathlib.Core.List.{append-nil}
use trash_os.Base.Runs.{Run, ok}
use trash_os.Kernel.{Kernel, store}
use trash_os.Mem.{align}
use trash_os.Mem.Align.{align_least}
use trash_os.Alloc.{alloc_pad, alloc_extend, set_limit, map_loop, alloc_get_next_desc}
use trash_os.Alloc.FreeList.{IsLinked}
use trash_os.Alloc.Members.{is_in, All-of-is_in}
use trash_os.Alloc.Chunks.{
  Chunk, IsLaid, IsHeap, IsSized, IsOff, end_of, end_of-append, end_of-aligned, free_nodes,
  IsLaid-suffix, IsLaid-replace,
}
use trash_os.Alloc.Keep.{IsHeap-IsKept}
use trash_os.Alloc.Reads.{desc_of}
use trash_os.Alloc.Join.{next-stored}
use trash_os.Alloc.Nodes.{in_nodes, node_bounds}
use trash_os.Alloc.CarvedWords.{taken_of}
use trash_os.Alloc.Take.{IsLinked-same}
use trash_os.Alloc.Pages.{Mapper, map_loop-Mapped}

align_same : (a : ℕ) → a % 8 ≡ 0 → a + 8 ≤ 2 ^ 32 → align a 8 ≡ a
align_same a al small = let (al', le, lt) = align_least 3 a (omega arith) small in omega arith

-- At a multiple of 8 there is nothing to pad.
pub pad_none :
    (k : Kernel) → k.ctxt.limit % 8 ≡ 0 → k.ctxt.limit + 8 ≤ 2 ^ 32 → alloc_pad 8 k ≡ ok k
unfolding alloc_pad
pad_none k al small =
    rw
      (
        align_same k.ctxt.limit al small,
        (let z : sub32 k.ctxt.limit k.ctxt.limit ≡ 0 = omega arith in z),
      )
      refl

off_end : (a d : ℕ) (cs : List Chunk) → IsOff a d cs → (a ≢ end_of d cs) × (a ≢ end_of d cs + 4)
off_end a d [] off = off
off_end a d (c ∷ cs) off = off_end a (d + 8 + c.size) cs off.2

-- The new chunk's words.
abbrev pub grown : ℕ → ℕ → Kernel → Kernel
grown e bytes k = store (e + 8 + bytes + 4) 0 (store (e + 8 + bytes) bytes (store (e + 4) bytes k))

-- Behind the chunks of a heap, whose words `k'` has, a chunk is written.
pub grown-IsHeap :
    (d bytes : ℕ) (cs : List Chunk) (fs : List ℕ) (k k' : Kernel)
    → IsHeap d cs fs k
    → (bytes % 8 ≡ 0) × (8 ≤ bytes) × (end_of d cs + 8 + bytes + 8 < 2 ^ 32)
    → ((a : ℕ) → a < end_of d cs + 8 → a ≢ end_of d cs + 4 → k'.mem a ≡ k.mem a)
    → k'.ctxt ≡ (set_limit (end_of d cs + 8 + bytes + 8) k).ctxt
    → IsHeap d (cs ++ taken_of bytes ∷ []) fs (grown (end_of d cs) bytes k')
unfolding store
grown-IsHeap d bytes cs fs k k' h (al, least, small) same ctxt =
    let e : ℕ = end_of d cs in
    let f : ℕ = e + 8 + bytes in
    let mem = (grown e bytes k').mem in
    let no : (a b : ℕ) → a ≢ b → (a == b) ≡ false = ne→==-false in
    let kept : (a : ℕ) → a < e + 8 → a ≢ e + 4 → mem a ≡ k.mem a = λ a q ne.
      rw (no a (f + 4) (λ z. omega arith), no a f (λ z. omega arith), no a (e + 4) ne)
        (same a q ne) in
    let laid : IsLaid k.mem d 0 (cs ++ []) =
      subst (IsLaid k.mem d 0) (sym (append-nil cs)) h.laid in
    let node : (x : ℕ) → is_in x fs ≡ true → (mem x ≡ k.mem x) × (mem (x + 4) ≡ k.mem (x + 4)) =
      λ x m.
        let (lo, hi) = node_bounds x d cs (sym (h.nodes x) ∙ m) in
        let (o, o') = (IsHeap-IsKept h).off x m in
        let (n₁, n₂) = off_end x d cs o in
        let (n₃, n₄) = off_end (x + 4) d cs o' in
        (kept x (omega arith) n₂, kept (x + 4) (omega arith) n₄) in
    let end_at = end_of-append d cs (taken_of bytes ∷ []) in
    record {
      laid =
          IsLaid-replace k.mem mem d 0 cs [] (taken_of bytes ∷ [])
            (λ a q. kept a (omega arith) (λ z. omega arith)) laid
            (
              kept e (omega arith) (λ z. omega arith) ∙ (IsLaid-suffix k.mem d 0 cs [] laid).0,
              (rw
                  (
                    no (e + 4) (f + 4) (λ z. omega arith),
                    no (e + 4) f (λ z. omega arith),
                    eq→== (e + 4) (e + 4) refl,
                  )
                  (omega arith)),
              (
                (rw (no f (f + 4) (λ z. omega arith), eq→== f f refl) (omega arith)),
                (rw (eq→== (f + 4) (f + 4) refl) refl),
              ),
            );
      sized = sized_end cs h.sized;
      aligned = h.aligned;
      fits = omega arith;
      limit = ap (λ c. c.limit) ctxt ∙ ap (λ t. t + 8) (sym end_at);
      list =
          subst (λ t. IsLinked mem 0 t fs) (sym (ap (λ c. c.free_list) ctxt))
            (IsLinked-same k.mem mem 0 k.ctxt.free_list fs
              (All-of-is_in (λ x. (mem x ≡ k.mem x) × (mem (x + 4) ≡ k.mem (x + 4))) fs node)
              h.list);
      nodes = λ x.
          h.nodes x
          ∙ sym (in_nodes x d cs (taken_of bytes ∷ []) ∙ or_false (is_in x (free_nodes d cs)));
    }
  where
    or_false : (b : Bool) → (b || false) ≡ b
    or_false true = refl
    or_false false = refl

    sized_end : (xs : List Chunk) → IsSized xs → IsSized (xs ++ taken_of bytes ∷ [])
    sized_end [] s = ((least, al), tt)
    sized_end (x ∷ xs) s = (s.0, sized_end xs s.1)

pub extend_grown :
    (fuel alignment bytes e : ℕ) (get_page_pma : Kernel → Run (ℕ × Kernel)) (k kp k₃ : Kernel)
    → alloc_pad alignment k ≡ ok kp
    → kp.ctxt.limit ≡ e + 8
    → (bytes % 8 ≡ 0) × (e + 8 + bytes + 8 < 2 ^ 32)
    → map_loop fuel get_page_pma
        (align (e + 8) 4096)
        (e + 8 + bytes + 8)
        (set_limit (e + 8 + bytes + 8) kp)
      ≡ ok k₃
    → alloc_extend fuel get_page_pma alignment bytes k ≡ ok (e + 8, grown e bytes k₃)
unfolding alloc_extend
extend_grown fuel alignment bytes e get_page_pma k kp k₃ pad limit (al', small) mapped =
    let next : alloc_get_next_desc (e + 8) (store (e + 4) bytes k₃) ≡ e + 8 + bytes =
      ap (λ t. alloc_get_next_desc (e + 8) (store (e + 4) t k₃))
        (let z : bytes ≡ bytes + 0 = omega arith in z)
      ∙ next-stored e (taken_of bytes) k₃ (omega arith, al') in
    rw
      (
        pad,
        limit,
        (let q : u32 (e + 8 + bytes + 8) ≡ e + 8 + bytes + 8 = omega arith in q),
        mapped,
        desc_of e (omega arith),
        next,
      )
      refl

-- The end of a heap needs no padding for the least alignment.
pub pad_least :
    (d : ℕ) (cs : List Chunk) (fs : List ℕ) (k : Kernel)
    → IsHeap d cs fs k
    → end_of d cs + 16 ≤ 2 ^ 32
    → alloc_pad 8 k ≡ ok k
pad_least d cs fs k h small =
    let at = h.limit in
    let al = end_of-aligned d cs h.sized h.aligned in pad_none k (omega arith) (omega arith)

-- An extension without padding gives the new chunk's memory, and the heap holds the chunk behind the others.
pub extend-IsHeap :
    (top : ℕ) (IsReady : Kernel → Type 0) (get_page_pma : Kernel → Run (ℕ × Kernel))
    → Mapper top IsReady get_page_pma
    → (fuel alignment bytes d : ℕ) (cs : List Chunk) (fs : List ℕ) (k : Kernel) → IsReady k
    → IsHeap d cs fs k
    → alloc_pad alignment k ≡ ok k
    → (bytes % 8 ≡ 0) × (8 ≤ bytes) × (end_of d cs + 8 + bytes + 8 + 4096 ≤ 2 ^ 32)
    → (end_of d cs + 8 + bytes + 8 ≤ top) × (bytes + 8 ≤ 4096 * fuel)
    → (k' : Kernel) × (alloc_extend (suc fuel) get_page_pma alignment bytes k
        ≡ ok (end_of d cs + 8, k'))
      × IsHeap d (cs ++ taken_of bytes ∷ []) fs k'
extend-IsHeap top IsReady get_page_pma m fuel alignment bytes d cs fs k ready h pad
      (al, least, small) (below, enough) =
    let e : ℕ = end_of d cs in
    let stop : ℕ = e + 8 + bytes + 8 in
    let (up, le, lt) = align_least 12 (e + 8) (omega arith) (omega arith) in
    let mapped =
      map_loop-Mapped top IsReady get_page_pma m fuel (align (e + 8) 4096) stop (set_limit stop k)
        (m.limit stop k ready) small (omega arith) in
    let k₃ = mapped.final in
    (
      grown e bytes k₃,
      extend_grown (suc fuel) alignment bytes e get_page_pma k k k₃ pad h.limit (al, omega arith)
          mapped.at,
      grown-IsHeap d bytes cs fs k k₃ h (al, least, omega arith)
          (λ a q ne. mapped.same a (omega arith)) mapped.ctxt,
    )
