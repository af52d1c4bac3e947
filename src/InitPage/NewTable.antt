-- ===== src/InitPage/NewTable.antt =====
-- `init_page_map` where the page table is missing: it takes the next free page for a new one.
use trash_os.Base.{
  ℕ, ◌+◌, ◌*◌, ◌/◌, ◌%◌, ◌^◌, ◌≤◌, ◌<◌, ◌≡◌, ◌⊎◌, refl, ap, ◌∙◌, arith, true, false, bit_and,
  bit_or, ◌==◌, u32, update, ne→==-false,
}
use trash_os.Base.Bits.{bit_and_low, bit_or_disjoint}
use trash_os.Kernel.{Kernel, load, store}
use trash_os.Mem.{align}
use trash_os.Mem.Align.{align_least}
use trash_os.Page.{word_at, page_clear, page_size, page_present, page_write, page_public}
use trash_os.Page.Clear.{page_clear_lem}
use trash_os.InitPage.{Init, init_page_map, init_page_table_new, init_page_clear, table_of}
use trash_os.InitPage.Mapping.{dir_of, slot_of, is_absent, load_same}

abbrev pub new_table : Init → ℕ
new_table s = align s.next_pma page_size

abbrev pub dir_entry : ℕ → ℕ
dir_entry t = bit_or (bit_or (bit_or t page_public) page_write) page_present

dir_entry_lem : (t : ℕ) → t % 4096 ≡ 0 → dir_entry t ≡ t + 7
dir_entry_lem t al =
    let q₁ : t ≡ t / 8 * 2 ^ 3 = omega arith in
    let q₂ : t + 4 ≡ (t + 4) / 4 * 2 ^ 2 = omega arith in
    let q₃ : t + 6 ≡ (t + 6) / 2 * 2 ^ 1 = omega arith in
    let e₁ : bit_or t 4 ≡ t + 4 =
      ap (λ (x : ℕ). bit_or x 4) q₁ ∙ bit_or_disjoint 3 (t / 8) 4 (omega arith) ∙ omega arith in
    let e₂ : bit_or (t + 4) 2 ≡ t + 6 =
      ap (λ (x : ℕ). bit_or x 2) q₂
      ∙ bit_or_disjoint 2 ((t + 4) / 4) 2 (omega arith)
      ∙ omega arith in
    let e₃ : bit_or (t + 6) 1 ≡ t + 7 =
      ap (λ (x : ℕ). bit_or x 1) q₃
      ∙ bit_or_disjoint 1 ((t + 6) / 2) 1 (omega arith)
      ∙ omega arith in
    ap (λ (x : ℕ). bit_or (bit_or x 2) 1) e₁ ∙ ap (λ (x : ℕ). bit_or x 1) e₂ ∙ e₃

pub record NewTable (s : Init) : Type 0 where
  pub aligned : new_table s % 4096 ≡ 0
  pub from : s.next_pma ≤ new_table s
  pub near : new_table s < s.next_pma + 4096
  pub entry : table_of (dir_entry (new_table s)) ≡ new_table s
  pub present : (bit_and (dir_entry (new_table s)) 1 == 0) ≡ false

pub new_table_lem : (s : Init) → s.next_pma + 12288 ≤ 2 ^ 32 → NewTable s
new_table_lem s room =
    let (al, le, lt) = align_least 12 s.next_pma (omega arith) (omega arith) in
    let t : ℕ = new_table s in
    let word = dir_entry_lem t al in
    record {
      aligned = al;
      from = le;
      near = lt;
      entry = ap table_of word ∙ omega arith;
      present =
          rw (word, bit_and_low 1 (t + 7)) (ne→==-false ((t + 7) % 2 ^ 1) 0 (λ e. omega arith));
    }

-- The state after the call.
abbrev pub added : ℕ → ℕ → ℕ → Init → Init
added vma pma flags s =
    let t = new_table s in
    let b = word_at t (slot_of vma) in
    record s {
      kernel = store b (bit_or pma flags) (store b pma (init_page_clear t s.kernel));
      page_dir = update s.page_dir (dir_of vma) (dir_entry t);
      next_pma = u32 (t + page_size);
      page_table_lookup = update s.page_table_lookup (dir_of vma) s.page_table_vma_offset;
      page_table_vma_offset = u32 (s.page_table_vma_offset + page_size);
    }

pub map_absent :
    (vma pma flags : ℕ) (s : Init)
    → is_absent (dir_of vma) s ≡ true
    → init_page_map vma pma flags s ≡ added vma pma flags s
unfolding init_page_map init_page_table_new
map_absent vma pma flags s absent =
    let t = new_table s in
    let b = word_at t (slot_of vma) in
    rw (absent, load_same b pma (init_page_clear t s.kernel)) refl

pub cleared :
    (t : ℕ) (k : Kernel)
    → ((j : ℕ) → j < 1024 → load (t + 4 * j) (init_page_clear t k) ≡ 0)
      × ((q : ℕ) → (q < t) ⊎ (t + 4096 ≤ q) → load q (init_page_clear t k) ≡ load q k)
unfolding init_page_clear page_clear
cleared t k = page_clear_lem t k
