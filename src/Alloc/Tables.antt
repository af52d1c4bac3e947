-- ===== src/Alloc/Tables.antt =====
-- Page tables behind the heap, and `page_new` while no page was freed, give the pages for `alloc`.
use trash_os.Base.{ℕ, ◌+◌, ◌*◌, ◌^◌, ◌≤◌, ◌<◌, ◌≡◌, refl, arith, u32, ◌>>>◌, ne→==-false}
use trash_os.Base.Bits.{bit_and_low}
use trash_os.Base.Runs.{Run}
use trash_os.Kernel.{Kernel, load, store}
use trash_os.Page.{
  page_new, page_set_entry, entry_at, page_get_table, page_get_dir_idx, page_get_table_idx,
  page_size,
}
use trash_os.Alloc.Pages.{Mapper}

-- The array of the tables' addresses is at `lookup`, the tables are behind it.
pub record HasTables (lookup : ℕ) (table : ℕ → ℕ) (k : Kernel) : Type 0 where
  pub no_free : k.page_free_list ≡ 0
  pub at : k.page_table_lookup ≡ lookup
  pub tables : (i : ℕ) → i < 1024 → k.mem (lookup + 4 * i) ≡ table i

pub record IsPlaced (top lookup : ℕ) (table : ℕ → ℕ) : Type 0 where
  pub above : top ≤ lookup
  pub apart : (i : ℕ) → i < 1024 → lookup + 4096 ≤ table i
  pub inside : (i : ℕ) → i < 1024 → table i + 4096 ≤ 2 ^ 32

dir_idx-lt : (vma : ℕ) → vma < 2 ^ 32 → page_get_dir_idx vma < 1024
unfolding page_get_dir_idx
dir_idx-lt vma h = omega arith

table_idx-lt : (vma : ℕ) → page_get_table_idx vma < 1024
unfolding page_get_table_idx
table_idx-lt vma = omega (arith, bit_and_low 10 (vma >>> 12))

table_at :
    (top lookup : ℕ) (table : ℕ → ℕ)
    → IsPlaced top lookup table
    → (vma : ℕ) (k : Kernel) → vma < 2 ^ 32
    → HasTables lookup table k
    → entry_at vma k ≡ table (page_get_dir_idx vma) + 4 * page_get_table_idx vma
unfolding entry_at page_get_table load
table_at top lookup table p vma k small h =
    let i : ℕ = page_get_dir_idx vma in
    let lt = dir_idx-lt vma small in
    let lt' = table_idx-lt vma in
    let a = p.apart i lt in
    let b = p.inside i lt in
    rw (h.at, (let q : u32 (lookup + 4 * i) ≡ lookup + 4 * i = omega arith in q), h.tables i lt)
      (omega arith)

pub page_new-Mapper :
    (top lookup : ℕ) (table : ℕ → ℕ) (kfree : ℕ → Kernel → Run Kernel)
    → IsPlaced top lookup table
    → Mapper top (HasTables lookup table) (page_new kfree)
unfolding page_new page_set_entry load store
page_new-Mapper top lookup table kfree p = record {
  page = λ k h. (
    k.kernel_heap_end_pma,
    record k { kernel_heap_end_pma = u32 (k.kernel_heap_end_pma + page_size) },
    rw h.no_free refl,
    record { no_free = h.no_free; at = h.at; tables = h.tables },
    λ a q. refl,
    refl,
  );
  apart = λ vma k small h.
      let at = table_at top lookup table p vma k small h in
      let a = p.apart (page_get_dir_idx vma) (dir_idx-lt vma small) in
      let b = p.above in omega arith;
  entry = λ vma entry k small h.
      let at = table_at top lookup table p vma k small h in
      let a = p.apart (page_get_dir_idx vma) (dir_idx-lt vma small) in
      record {
        no_free = h.no_free;
        at = h.at;
        tables = λ i lt.
            rw (ne→==-false (lookup + 4 * i) (entry_at vma k) (λ e. omega arith)) (h.tables i lt);
      };
  limit = λ a k h. record { no_free = h.no_free; at = h.at; tables = h.tables };
  word = λ a v k low h. record {
    no_free = h.no_free;
    at = h.at;
    tables = λ i lt.
        let b = p.above in rw (ne→==-false (lookup + 4 * i) a (λ e. omega arith)) (h.tables i lt);
  };
  free_list = λ a k h. record { no_free = h.no_free; at = h.at; tables = h.tables };
}
