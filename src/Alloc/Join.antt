-- ===== src/Alloc/Join.antt =====
-- `free` joins a chunk with its free neighbours, and marks it free.
use trash_os.Base.{
  ℕ, ◌+◌, ◌*◌, ◌/◌, ◌%◌, ◌^◌, ◌<◌, ◌≡◌, ◌≢◌, refl, ap, ◌∙◌, arith, true, false, bit_and, bit_or,
  u32, List, ◌∷◌, eq→==, ne→==-false,
}
use trash_os.Base.Bits.{bit_or_disjoint, bit_and_low}
use trash_os.Kernel.{Kernel, load, store}
use trash_os.Alloc.{
  alloc_get_size, alloc_get_next_desc, alloc_node_unlink, alloc_set_free, free_join_next,
  free_join_prev,
}
use trash_os.Alloc.Chunks.{Chunk, tag}
use trash_os.Alloc.Rewrite.{put}
use trash_os.Alloc.Reads.{
  Placed, Placed-next, desc_of, node_of, tag-size, tag-flag, desc-at, next-at, size-at,
  size_next-at, size_prev-at,
}

-- Two chunks and the descriptor between them, as one chunk in use.
abbrev pub joined : Chunk → Chunk → Chunk
joined a b = record { size = a.size + 8 + b.size; is_free = false }

-- A chunk marked free.
abbrev pub freed : Chunk → Chunk
freed c = record { size = c.size; is_free = true }

pub load_at : (a v : ℕ) (k : Kernel) → k.mem a ≡ v → load a k ≡ v
unfolding load
load_at a v k h = h

pub load-store : (a v : ℕ) (k : Kernel) → load a (store a v k) ≡ v
unfolding load store
load-store a v k = rw (eq→== a a refl) refl

pub stored_elsewhere : (a v b : ℕ) (k : Kernel) → b ≢ a → (store a v k).mem b ≡ k.mem b
unfolding store
stored_elsewhere a v b k ne = rw (ne→==-false b a ne) refl

pub next-stored :
    (e : ℕ) (c : Chunk) (k : Kernel)
    → (e + 8 + c.size + 8 < 2 ^ 32) × (c.size % 8 ≡ 0)
    → alloc_get_next_desc (e + 8) (store (e + 4) (tag c) k) ≡ e + 8 + c.size
unfolding alloc_get_next_desc alloc_get_size
next-stored e c k (room, al) =
    rw (desc_of e (omega arith), load-store (e + 4) (tag c) k, tag-size c al (omega arith))
      (omega arith)

-- The two writes of a chunk, the second where the first one leads.
write_chunk :
    (e w : ℕ) (c : Chunk) (k : Kernel)
    → (e + 8 + c.size + 8 < 2 ^ 32) × (c.size % 8 ≡ 0)
    → w ≡ tag c
    → let k' = store (e + 4) w k in
      store (alloc_get_next_desc (e + 8) k') (load (e + 4) k') k' ≡ put e c k
write_chunk e w c k room is = rw (is, load-store (e + 4) (tag c) k, next-stored e c k room) refl

pub join_next_free :
    (e w w' : ℕ) (c n : Chunk) (rest : List Chunk) (k : Kernel)
    → Placed e w c (n ∷ rest) k
    → Placed e w' c (n ∷ rest) (alloc_node_unlink (e + 8 + c.size + 8) k)
    → c.is_free ≡ false
    → n.is_free ≡ true
    → free_join_next (e + 8) k ≡ put e (joined c n) (alloc_node_unlink (e + 8 + c.size + 8) k)
unfolding free_join_next
join_next_free e w w' c n rest k p p' used free =
    let q = Placed-next e w c n rest k p in
    let s = q.small in
    let al = p.size_aligned in
    let al' = q.size_aligned in
    let k₁ = alloc_node_unlink (e + 8 + c.size + 8) k in
    let at : load (e + 8 + c.size + 4) k ≡ tag n =
      load_at (e + 8 + c.size + 4) (tag n) k q.word_size in
    let at' : load (e + 4) k₁ ≡ tag c = load_at (e + 4) (tag c) k₁ p'.word_size in
    rw
      (
        next-at e w c (n ∷ rest) k p,
        node_of (e + 8 + c.size) (omega arith),
        desc-at e w c (n ∷ rest) k p,
        at,
        at',
        tag-flag n al',
        free,
        used,
        size_next-at e w' c n rest k₁ p' (e + 8 + c.size) refl,
        write_chunk e (u32 (c.size + 0 + (n.size + 8))) (joined c n) k₁ (omega arith, omega arith)
            (omega arith),
      )
      refl

pub join_next_used :
    (e w : ℕ) (c : Chunk) (rest : List Chunk) (k : Kernel)
    → Placed e w c rest k
    → k.mem (e + 8 + c.size + 4) % 2 ≡ 0
    → free_join_next (e + 8) k ≡ k
unfolding free_join_next load
join_next_used e w c rest k p even =
    rw
      (
        next-at e w c rest k p,
        bit_and_low 1 (k.mem (e + 8 + c.size + 4)),
        (let z : k.mem (e + 8 + c.size + 4) % 2 ^ 1 ≡ 0 = even in z),
      )
      refl

pub join_prev_free :
    (e w w' : ℕ) (b c : Chunk) (rest : List Chunk) (k : Kernel)
    → Placed e w b (c ∷ rest) k
    → Placed e w' b (c ∷ rest) (alloc_node_unlink (e + 8) k)
    → b.is_free ≡ true
    → free_join_prev (e + 8 + b.size + 8) e k
      ≡ (e + 8, put e (joined b c) (alloc_node_unlink (e + 8) k))
unfolding free_join_prev
join_prev_free e w w' b c rest k p p' free =
    let q = Placed-next e w b c rest k p in
    let s = q.small in
    let al = p.size_aligned in
    let al' = q.size_aligned in
    let k₁ = alloc_node_unlink (e + 8) k in
    let q' = Placed-next e w' b c rest k₁ p' in
    let at : load (e + 8 + b.size) k ≡ tag b = load_at (e + 8 + b.size) (tag b) k q.word_prev in
    rw
      (
        desc-at (e + 8 + b.size) (tag b) c rest k q,
        at,
        tag-flag b al,
        free,
        node_of e (omega arith),
        size-at (e + 8 + b.size) (tag b) c rest k₁ q',
        size_prev-at e w' b c rest k₁ p' (e + 8 + b.size) refl,
        write_chunk e (u32 (b.size + c.size + 8)) (joined b c) k₁ (omega arith, omega arith)
            (omega arith),
      )
      refl

pub join_prev_used :
    (e w : ℕ) (c : Chunk) (rest : List Chunk) (q : ℕ) (k : Kernel)
    → Placed e w c rest k
    → bit_and w 1 ≡ 0
    → free_join_prev (e + 8) q k ≡ (e + 8, k)
unfolding free_join_prev load
join_prev_used e w c rest q k p used = rw (desc-at e w c rest k p, p.word_prev, used) refl

pub raise_flag : (s : ℕ) → s % 8 ≡ 0 → bit_or s 1 ≡ s + 1
raise_flag s al =
    let half : s ≡ s / 2 * 2 ^ 1 = omega arith in
    ap (λ (t : ℕ). bit_or t 1) half ∙ bit_or_disjoint 1 (s / 2) 1 (omega arith) ∙ omega arith

pub set_free_put :
    (e w : ℕ) (c : Chunk) (rest : List Chunk) (k : Kernel)
    → Placed e w c rest k
    → c.is_free ≡ false
    → alloc_set_free (e + 8) k ≡ put e (freed c) k
unfolding alloc_set_free
set_free_put e w c rest k p used =
    let s = p.small in
    let al = p.size_aligned in
    let size : load (e + 4) k ≡ tag c = load_at (e + 4) (tag c) k p.word_size in
    let up : bit_or (c.size + 0) 1 ≡ tag (freed c) =
      raise_flag (c.size + 0) (omega arith) ∙ omega arith in
    let behind : load (e + 8 + c.size) (store (e + 4) (tag (freed c)) k) ≡ tag c =
      load_at (e + 8 + c.size) (tag c) (store (e + 4) (tag (freed c)) k)
        (stored_elsewhere (e + 4) (tag (freed c)) (e + 8 + c.size) k (omega arith) ∙ p.word_next) in
    rw (desc-at e w c rest k p, size, used, up, next-stored e (freed c) k (s, al), behind, used, up)
      refl
