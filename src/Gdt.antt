-- ===== src/Gdt.antt =====
-- kernel/arch/i386/gdt.c and gdt.h: segment descriptors, the table of them and the task state.
pub mod Fields
pub mod Entries
mod Tests
use trash_os.Base.{ℕ, ◌+◌, ◌*◌, ◌/◌, ◌%◌, ◌^◌, bit_and, bit_or, ◌<<◌, ◌>>>◌, u32, u64, update}
use trash_os.Cpu.{Cpu, load_gdt, set_cs, set_ds, set_es, set_fs, set_gs, set_ss, set_tr}

-- The bits 55:44 of a descriptor, relative to bit 40.
abbrev pub seg_priv : ℕ → ℕ
seg_priv x = bit_and x 0x3 << 5

abbrev pub seg_pres : ℕ → ℕ
seg_pres x = x << 7

abbrev pub seg_avls : ℕ → ℕ
seg_avls x = x << 12

abbrev pub seg_long : ℕ → ℕ
seg_long x = x << 13

abbrev pub seg_size : ℕ → ℕ
seg_size x = x << 14

abbrev pub seg_gran : ℕ → ℕ
seg_gran x = x << 15

abbrev pub seg_sys_tss : ℕ
seg_sys_tss = 9

-- SEG_DATA_ is the 16th constant from 0, SEG_CODE_ the 24th.
abbrev pub seg_data_w : ℕ
seg_data_w = 18

abbrev pub seg_code_r : ℕ
seg_code_r = 26

abbrev pub gdt_idx_null : ℕ
gdt_idx_null = 0

abbrev pub gdt_idx_code_pl0 : ℕ
gdt_idx_code_pl0 = 1

abbrev pub gdt_idx_data_pl0 : ℕ
gdt_idx_data_pl0 = 2

abbrev pub gdt_idx_tss_pl0 : ℕ
gdt_idx_tss_pl0 = 3

abbrev pub gdt_idx_code_pl3 : ℕ
gdt_idx_code_pl3 = 4

abbrev pub gdt_idx_data_pl3 : ℕ
gdt_idx_data_pl3 = 5

abbrev pub gdt_idx_tss_pl3 : ℕ
gdt_idx_tss_pl3 = 6

abbrev pub gdt_idx_limit : ℕ
gdt_idx_limit = 7

abbrev pub gdt_sel_code_pl0 : ℕ
gdt_sel_code_pl0 = bit_or (gdt_idx_code_pl0 << 3) 0

abbrev pub gdt_sel_data_pl0 : ℕ
gdt_sel_data_pl0 = bit_or (gdt_idx_data_pl0 << 3) 0

abbrev pub gdt_sel_tss_pl0 : ℕ
gdt_sel_tss_pl0 = bit_or (gdt_idx_tss_pl0 << 3) 0

abbrev pub gdt_sel_code_pl3 : ℕ
gdt_sel_code_pl3 = bit_or (gdt_idx_code_pl3 << 3) 3

abbrev pub gdt_sel_data_pl3 : ℕ
gdt_sel_data_pl3 = bit_or (gdt_idx_data_pl3 << 3) 3

abbrev pub gdt_sel_tss_pl3 : ℕ
gdt_sel_tss_pl3 = bit_or (gdt_idx_tss_pl3 << 3) 3

-- The macros for the flags differ in their size bit, their ring and their type.
abbrev pub flags_of : ℕ → ℕ → ℕ → ℕ
flags_of size ring type =
    let f₁ = bit_or (seg_pres 1) (seg_avls 0) in
    let f₂ = bit_or f₁ (seg_long 0) in
    let f₃ = bit_or f₂ (seg_size size) in
    let f₄ = bit_or f₃ (seg_gran 1) in let f₅ = bit_or f₄ (seg_priv ring) in bit_or f₅ type

abbrev pub gdt_code_pl0 : ℕ
gdt_code_pl0 = flags_of 1 0 seg_code_r

abbrev pub gdt_code_pl3 : ℕ
gdt_code_pl3 = flags_of 1 3 seg_code_r

abbrev pub gdt_data_pl0 : ℕ
gdt_data_pl0 = flags_of 1 0 seg_data_w

abbrev pub gdt_data_pl3 : ℕ
gdt_data_pl3 = flags_of 1 3 seg_data_w

abbrev pub gdt_tss_pl0 : ℕ
gdt_tss_pl0 = flags_of 0 0 seg_sys_tss

abbrev pub gdt_tss_pl3 : ℕ
gdt_tss_pl3 = flags_of 0 3 seg_sys_tss

-- `tss_t`, without its reserved fields; `trap` is its field `T`.
pub record Tss : Type 0 where
  pub prev_task_link : ℕ
  pub esp0 : ℕ
  pub ss0 : ℕ
  pub esp1 : ℕ
  pub ss1 : ℕ
  pub esp2 : ℕ
  pub ss2 : ℕ
  pub cr3 : ℕ
  pub eip : ℕ
  pub eflags : ℕ
  pub eax : ℕ
  pub ecx : ℕ
  pub edx : ℕ
  pub ebx : ℕ
  pub esp : ℕ
  pub ebp : ℕ
  pub esi : ℕ
  pub edi : ℕ
  pub es : ℕ
  pub cs : ℕ
  pub ss : ℕ
  pub ds : ℕ
  pub fs : ℕ
  pub gs : ℕ
  pub ldt_selector : ℕ
  pub trap : ℕ
  pub io_map_base : ℕ

-- `sizeof(TSS)`
abbrev pub tss_bytes : ℕ
tss_bytes = 104

-- `base << 16` is a product of 32 bits, widened afterwards.
unfoldable pub gdt_descriptor : ℕ → ℕ → ℕ → ℕ
gdt_descriptor base limit flags =
    let d₁ = bit_and limit 0x000f0000 in
    let d₂ = bit_or d₁ (bit_and (flags << 8) 0x00f0ff00) in
    let d₃ = bit_or d₂ (bit_and (base >>> 16) 0x000000ff) in
    let d₄ = bit_or d₃ (bit_and base 0xff000000) in
    let d₅ = u64 (d₄ << 32) in
    let d₆ = bit_or d₅ (bit_and limit 0x0000ffff) in bit_or d₆ (u32 (base << 16))

-- The globals of gdt.c, and the processor.
pub record Segments : Type 0 where
  pub gdt : ℕ → ℕ
  pub tss : Tss
  pub gdt_sel : ℕ
  pub cpu : Cpu

-- `gdt_at` and `tss_at` are the addresses of `GDT` and `TSS`, which the linker sets.
module _ (gdt_at tss_at : ℕ) where
  -- The entries that `gdt_init` writes, in its order.
  unfoldable pub fill_gdt : (ℕ → ℕ) → ℕ → ℕ
  fill_gdt gdt =
      let g₀ = update gdt gdt_idx_null (gdt_descriptor 0 0 0) in
      let g₁ = update g₀ gdt_idx_code_pl0 (gdt_descriptor 0 0xfffff gdt_code_pl0) in
      let g₂ = update g₁ gdt_idx_data_pl0 (gdt_descriptor 0 0xfffff gdt_data_pl0) in
      let g₃ = update g₂ gdt_idx_tss_pl0 (gdt_descriptor tss_at tss_bytes gdt_tss_pl0) in
      let g₄ = update g₃ gdt_idx_code_pl3 (gdt_descriptor 0 0xfffff gdt_code_pl3) in
      let g₅ = update g₄ gdt_idx_data_pl3 (gdt_descriptor 0 0xfffff gdt_data_pl3) in
      update g₅ gdt_idx_tss_pl3 (gdt_descriptor tss_at tss_bytes gdt_tss_pl3)

  unfoldable pub gdt_init : Segments → Segments
  gdt_init s =
      let tss = record (s.tss) { ss0 = gdt_sel_data_pl0; esp0 = 0 } in
      let gdt_sel = bit_or (u64 (gdt_at << 16)) (8 * gdt_idx_limit) in
      let c₁ = set_cs gdt_sel_code_pl0 (load_gdt gdt_sel s.cpu) in
      let c₂ = set_ds gdt_sel_data_pl0 c₁ in
      let c₃ = set_es gdt_sel_data_pl0 c₂ in
      let c₄ = set_fs gdt_sel_data_pl0 c₃ in
      let c₅ = set_gs gdt_sel_data_pl0 c₄ in
      let c₆ = set_ss gdt_sel_data_pl0 c₅ in
      let c₇ = set_tr gdt_sel_tss_pl3 c₆ in
      record s { gdt = fill_gdt s.gdt; tss = tss; gdt_sel = gdt_sel; cpu = c₇ }
