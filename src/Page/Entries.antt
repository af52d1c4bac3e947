-- ===== src/Page/Entries.antt =====
-- The functions of page.c that read and write one page table entry.
use trash_os.Base.{
  ℕ, ◌+◌, ◌*◌, ◌/◌, ◌%◌, ◌^◌, ◌<◌, ◌≡◌, ◌≢◌, refl, sym, ap, ◌∙◌, Bool, false, true, not, arith,
  bit_and, bit_or, ◌==◌, if◌then◌else◌, not32, ◌∷◌, eq→==, ne→==-false, u32, ◌<<◌, ◌>>>◌,
}
use trash_os.Base.Bits.{bit_or_disjoint, bit_or_comm, bit_and_low, bit_and_page}
use trash_os.Kernel.{Kernel, load, store, invlpg}
use trash_os.Page.{
  page_get_dir_idx, page_get_table, word_at, entry_at, page_get_entry, page_get_pma, page_get_flags,
  page_is_present, page_set_entry, page_remap, page_unmap, page_set_flags,
}

-- The element of the lookup table that leads to the page table of `vma`.
abbrev pub lookup_at : ℕ → Kernel → ℕ
lookup_at vma k = word_at k.page_table_lookup (page_get_dir_idx vma)

-- The page table entry of `vma` is not itself the element of the lookup table that leads to it.
abbrev pub IsSeparate : ℕ → Kernel → Type 0
IsSeparate vma k = lookup_at vma k ≢ entry_at vma k

pub entry_at-store :
    (a v vma : ℕ) (k : Kernel) → lookup_at vma k ≢ a → entry_at vma (store a v k) ≡ entry_at vma k
unfolding entry_at page_get_table load store
entry_at-store a v vma k apart = rw (ne→==-false (lookup_at vma k) a apart)

pub load-store : (a v : ℕ) (k : Kernel) → load a (store a v k) ≡ v
unfolding load store
load-store a v k = rw (eq→== a a refl)

pub load-store_ne : (a b v : ℕ) (k : Kernel) → b ≢ a → load b (store a v k) ≡ load b k
unfolding load store
load-store_ne a b v k ne = rw (ne→==-false b a ne)

-- The pages whose entry a write to the entry of `vma` cannot reach.
abbrev pub IsElsewhere : ℕ → ℕ → Kernel → Type 0
IsElsewhere vma other k = (lookup_at other k ≢ entry_at vma k) × (entry_at other k ≢ entry_at vma k)

module _ (vma v : ℕ) (k : Kernel) where
  written : Kernel
  written = store (entry_at vma k) v k

  entry-written : IsSeparate vma k → page_get_entry vma written ≡ v
  unfolding page_get_entry written
  entry-written apart = rw (entry_at-store (entry_at vma k) v vma k apart) (load-store _ v k)

  entry-elsewhere :
      (other : ℕ) → IsElsewhere vma other k → page_get_entry other written ≡ page_get_entry other k
  unfolding page_get_entry written
  entry-elsewhere other (outer, inner) =
      rw (entry_at-store (entry_at vma k) v other k outer) (load-store_ne _ _ v k inner)

-- A page table entry is the page's address, a multiple of 4096, and twelve flags.
page_bits : (e : ℕ) → e < 2 ^ 32 → bit_and e (not32 0xfff) ≡ e / 4096 * 4096
page_bits e small = bit_and_page 12 20 e (omega arith)

flag_bits : (e : ℕ) → bit_and e 0xfff ≡ e % 4096
flag_bits e = bit_and_low 12 e

join : (pma flags : ℕ) → pma % 4096 ≡ 0 → flags < 4096 → bit_or pma flags ≡ pma + flags
join pma flags aligned small =
    let whole : pma ≡ pma / 4096 * 4096 = omega arith in
    ap (λ (t : ℕ). bit_or t flags) whole
    ∙ bit_or_disjoint 12 (pma / 4096) flags small
    ∙ ap (λ (t : ℕ). t + flags) (sym whole)

-- What an entry says of a page: its address, its flags and whether it is present.
pub record Says (vma pma flags : ℕ) (k : Kernel) : Type 0 where
  pub address : page_get_pma vma k ≡ pma
  pub flag_bits : page_get_flags vma k ≡ flags
  pub present : page_is_present vma k ≡ not (flags % 2 == 0)

says :
    (vma e : ℕ) (k : Kernel)
    → page_get_entry vma k ≡ e
    → e < 2 ^ 32
    → Says vma (e / 4096 * 4096) (e % 4096) k
unfolding page_get_pma page_get_flags page_is_present page_get_entry
says vma e k is small = record {
  address = rw is (page_bits e small);
  flag_bits = rw is (flag_bits e);
  present = rw is (
      ap (λ (t : ℕ). not (t == 0))
        (bit_and_low 1 e ∙ (let m : e % 2 ≡ e % 4096 % 2 = omega arith in m)));
}

-- An update of the entry of `vma`: what the entry says afterwards, that `invlpg` is called
-- where it must be, and that the pages elsewhere keep their entries.
pub record Updates (vma pma flags : ℕ) (flush : Bool) (k k' : Kernel) : Type 0 where
  pub entry : Says vma pma flags k'
  pub tlb : k'.flushed ≡ (if flush then vma ∷ k.flushed else k.flushed)
  pub others :
      (other : ℕ) → IsElsewhere vma other k → page_get_entry other k' ≡ page_get_entry other k

module _ (vma : ℕ) (k : Kernel) (apart : IsSeparate vma k) where
  -- Where the entry of `vma` is not the lookup element that leads to it, `page_set_entry` with a
  -- 32-bit entry makes it say the address and the flags given, does not call `invlpg`, and keeps the
  -- entries elsewhere.
  pub page_set_entry-Updates :
      (entry : ℕ)
      → entry < 2 ^ 32
      → Updates vma (entry / 4096 * 4096) (entry % 4096) false k (page_set_entry vma entry k)
  unfolding page_set_entry written store
  page_set_entry-Updates entry small = record {
    entry = says vma entry _ (entry-written vma entry k apart) small;
    tlb = refl;
    others = entry-elsewhere vma entry k;
  }

  flushed-Updates :
      (v pma flags : ℕ)
      → v < 2 ^ 32
      → v / 4096 * 4096 ≡ pma
      → v % 4096 ≡ flags
      → Updates vma pma flags true k (invlpg vma (store (entry_at vma k) v k))
  unfolding invlpg written store load page_get_entry entry_at page_get_table
  flushed-Updates v pma flags small p f =
      let new : page_get_entry vma (invlpg vma (store (entry_at vma k) v k)) ≡ v =
        entry-written vma v k apart in
      let said = says vma v (invlpg vma (store (entry_at vma k) v k)) new small in
      record { entry = rw (p, f) at said; tlb = refl; others = entry-elsewhere vma v k }

  module _ (word : page_get_entry vma k < 2 ^ 32) where
    abbrev old_pma : ℕ
    old_pma = page_get_entry vma k / 4096 * 4096

    abbrev old_flags : ℕ
    old_flags = page_get_entry vma k % 4096

    -- Where the entry of `vma` is a 32-bit word and not the lookup element that leads to it,
    -- `page_remap` moves the page to another physical page, aligned and of 32 bits, keeps its flags
    -- and the entries elsewhere, and calls `invlpg` for it.
    pub page_remap-Updates :
        (pma : ℕ)
        → pma % 4096 ≡ 0
        → pma < 2 ^ 32
        → Updates vma pma (page_get_entry vma k % 4096) true k (page_remap vma pma k)
    unfolding page_remap page_get_entry
    page_remap-Updates pma aligned small =
        let e : ℕ = page_get_entry vma k in
        let v : bit_or (bit_and e 0xfff) pma ≡ pma + e % 4096 =
          ap (λ (t : ℕ). bit_or t pma) (flag_bits e)
          ∙ bit_or_comm (e % 4096) pma
          ∙ join pma (e % 4096) aligned (omega arith) in
        rw v (
          flushed-Updates (pma + e % 4096) pma (e % 4096) (omega arith) (omega arith) (omega arith))

    -- Where the entry of `vma` is a 32-bit word and not the lookup element that leads to it,
    -- `page_unmap` clears the present flag, keeps the address, every other flag and the entries
    -- elsewhere, and calls `invlpg` for it.
    pub page_unmap-Updates :
        Updates vma
          (page_get_entry vma k / 4096 * 4096)
          (page_get_entry vma k % 4096 / 2 * 2)
          true
          k
          (page_unmap vma k)
    unfolding page_unmap page_get_entry
    page_unmap-Updates =
        let e : ℕ = page_get_entry vma k in
        let v : bit_and e (not32 1) ≡ e / 2 * 2 = bit_and_page 1 31 e (omega arith) in
        rw v (
          flushed-Updates (e / 2 * 2) (e / 4096 * 4096) (e % 4096 / 2 * 2) (omega arith)
            (omega arith) (omega arith))

    -- Where the entry of `vma` is a 32-bit word and not the lookup element that leads to it,
    -- `page_set_flags` replaces the twelve flags, keeps the address and the entries elsewhere, and
    -- does not call `invlpg`.
    pub page_set_flags-Updates :
        (flags : ℕ)
        → flags < 4096
        → Updates vma
            (page_get_entry vma k / 4096 * 4096)
            flags
            false
            k
            (page_set_flags vma flags k)
    unfolding page_set_flags page_get_entry written store
    page_set_flags-Updates flags small =
        let e : ℕ = page_get_entry vma k in
        let base : u32 ((e >>> 12) << 12) ≡ e / 4096 * 4096 = omega arith in
        let v : bit_or (u32 ((e >>> 12) << 12)) flags ≡ e / 4096 * 4096 + flags =
          ap (λ (t : ℕ). bit_or t flags) base ∙ join (e / 4096 * 4096) flags (omega arith) small in
        let new : ℕ = e / 4096 * 4096 + flags in
        let said = says vma new (written vma new k) (entry-written vma new k apart) (omega arith) in
        let p : new / 4096 * 4096 ≡ e / 4096 * 4096 = omega arith in
        let f : new % 4096 ≡ flags = omega arith in
        rw v (record { entry = rw (p, f) at said; tlb = refl; others = entry-elsewhere vma new k })
