-- ===== src/InitPage.antt =====
-- kernel/arch/i386/init.c: the page tables of the boot phase. Paging is off, so an address is a
-- physical one. The static arrays of `init_page_struct` are functions of their own, apart from the
-- memory; the addresses that the linker chooses are the record `Symbols`.
mod Tests
pub mod Mapping
pub mod NewTable
pub mod Maps
pub mod Ranges
use trash_os.Base.{
  ℕ, zero, suc, ◌+◌, ◌-◌, ◌*◌, ◌/◌, ◌^◌, bit_and, bit_or, ltb, ◌==◌, if◌then◌else◌, u32, sub32,
  ◌<<◌, ◌>>>◌, update,
}
use trash_os.Base.Runs.{Run, ok, out_of_fuel, ◌>>=◌}
use trash_os.Kernel.{Kernel, load, store}
use trash_os.Mem.{align}
use trash_os.Page.{
  page_size, page_entries, page_present, page_write, page_public, word_at, clear_loop,
}
use trash_os.Vga.{vga_width, vga_height}

-- What the linker script places, and the static arrays' addresses.
pub record Symbols : Type 0 where
  pub init_start : ℕ
  pub init_bss_end : ℕ
  pub text_start_vma : ℕ
  pub rodata_end_vma : ℕ
  pub bss_end_vma : ℕ
  pub kernel_start_vma : ℕ
  pub kernel_end_vma : ℕ
  pub page_dir_pma : ℕ
  pub page_table_lookup_pma : ℕ
  pub stack_page_pma : ℕ

-- The static variables of init.c, and the state that it hands over.
pub record Init : Type 0 where
  pub kernel : Kernel
  pub page_dir : ℕ → ℕ
  pub page_table_lookup : ℕ → ℕ
  pub next_pma : ℕ
  pub next_vma : ℕ
  pub vga_buffer_vma : ℕ
  pub page_table_vma_offset : ℕ

abbrev pub vga_paddr_buffer : ℕ
vga_paddr_buffer = 0xb8000

-- `init_page_clear`
unfoldable pub init_page_clear : ℕ → Kernel → Kernel
init_page_clear pma k = clear_loop (page_size / 8) pma 0 k

-- `init_page_table_new`
unfoldable pub init_page_table_new : ℕ → Init → ℕ × Init
init_page_table_new vma s =
    let page_dir_idx = vma >>> 22 in
    let table_pma = align s.next_pma page_size in
    (
      table_pma,
      record s {
        kernel = init_page_clear table_pma s.kernel;
        next_pma = u32 (table_pma + page_size);
        page_table_lookup = update s.page_table_lookup page_dir_idx s.page_table_vma_offset;
        page_table_vma_offset = u32 (s.page_table_vma_offset + page_size);
      },
    )

-- The address in a directory entry, `entry >> 12 << 12`.
abbrev pub table_of : ℕ → ℕ
table_of entry = u32 ((entry >>> 12) << 12)

-- `init_page_map`
unfoldable pub init_page_map : ℕ → ℕ → ℕ → Init → Init
init_page_map vma pma flags s =
    let page_dir_idx = vma >>> 22 in
    let page_table_idx = bit_and (vma >>> 12) 0x3ff in
    let table = table_of (s.page_dir page_dir_idx) in
    let (new_table, s₁) = init_page_table_new vma s in
    let entry = bit_or (bit_or (bit_or new_table page_public) page_write) page_present in
    let added = record s₁ {
      page_dir = update s₁.page_dir page_dir_idx entry;
      kernel = store (word_at new_table page_table_idx) pma s₁.kernel;
    } in
    let a = word_at table page_table_idx in
    let changed = record s {
      kernel = store a (bit_or (bit_and (load a s.kernel) 0xfff) pma) s.kernel;
    } in
    let absent = bit_and (s.page_dir page_dir_idx) page_present == 0 in
    let s₂ = if absent then added else changed in
    let b = word_at (if absent then new_table else table) page_table_idx in
    record s₂ { kernel = store b (bit_or (load b s₂.kernel) flags) s₂.kernel }

-- `for ( ; i < stop; i += PAGE_SIZE) init_page_map(vma + i, pma + i, flags);` and the last `i`.
unfoldable pub map_range : ℕ → ℕ → ℕ → ℕ → ℕ → ℕ → Init → Run (ℕ × Init)
map_range zero i stop vma pma flags s = out_of_fuel
map_range (suc fuel) i stop vma pma flags s =
    let rest =
      map_range fuel (u32 (i + page_size)) stop vma pma flags
        (init_page_map (u32 (vma + i)) (u32 (pma + i)) flags s) in
    if ltb i stop then rest else ok (i, s)

-- The loop over `page_table_lookup`, whose entries become addresses.
unfoldable pub lookup_loop : ℕ → ℕ → ℕ → (ℕ → ℕ) → ℕ → ℕ
lookup_loop zero i start lookup = lookup
lookup_loop (suc left) i start lookup =
    lookup_loop left (i + 1) start
      (if lookup i == 0 then lookup else update lookup i (u32 (lookup i + sub32 start page_size)))

-- How many more page tables the mapping of the new tables takes.
unfoldable pub new_tables : ℕ → ℕ → ℕ
new_tables next_pma kernel_end_pma =
    let aligned = align kernel_end_pma (page_entries * page_size) in
    if ltb next_pma aligned then 0 else sub32 next_pma aligned / (page_entries * page_size)

-- `init_map_kernel`
unfoldable pub init_map_kernel : ℕ → Symbols → Init → Run Init
init_map_kernel fuel c s = do
  let kernel_end_pma = u32 (sub32 c.kernel_end_vma c.kernel_start_vma + c.init_bss_end)
  let rw_present = bit_or page_write page_present
  let rw_public = bit_or (bit_or page_public page_write) page_present
  (i₁, s₁) ←
      map_range fuel c.init_start c.init_bss_end 0 0 rw_present
        (record s { next_pma = kernel_end_pma })
  (i₂, s₂) ←
      map_range fuel 0 (sub32 c.rodata_end_vma c.text_start_vma) c.text_start_vma c.init_bss_end
        (bit_or page_public page_present) s₁
  (i₃, s₃) ←
      map_range fuel i₂ (sub32 c.bss_end_vma c.text_start_vma) c.text_start_vma c.init_bss_end
        rw_public s₂
  let dir_vma = c.bss_end_vma
  let s₄ = init_page_map dir_vma c.page_dir_pma rw_present s₃
  let lookup_vma = u32 (dir_vma + page_size)
  let s₅ = init_page_map lookup_vma c.page_table_lookup_pma rw_present s₄
  let s₆ = init_page_map (sub32 0 page_size) c.stack_page_pma rw_present s₅
  let buffer_vma = u32 (lookup_vma + page_size)
  (i₄, s₇) ← map_range fuel 0 (vga_width * vga_height * 2) buffer_vma vga_paddr_buffer rw_public s₆
  let start = u32 (buffer_vma + i₄)
  let alloc_size = sub32 s₇.next_pma kernel_end_pma
  let tables_size = u32 (alloc_size + new_tables s₇.next_pma kernel_end_pma * page_size)
  (i₅, s₈) ← map_range fuel 0 tables_size start kernel_end_pma rw_present s₇
  ok (record s₈ {
    vga_buffer_vma = buffer_vma;
    page_table_lookup = lookup_loop page_entries 0 start s₈.page_table_lookup;
    next_vma = u32 (start + tables_size);
  })

-- What `init` passes on to page.c.
unfoldable pub hand_over : Symbols → Init → Kernel
hand_over c s = record s.kernel {
  kernel_heap_end_vma = s.next_vma;
  kernel_heap_end_pma = s.next_pma;
  page_dir = c.bss_end_vma;
  page_table_lookup = u32 (c.bss_end_vma + page_size);
}
