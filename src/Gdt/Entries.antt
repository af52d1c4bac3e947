-- ===== src/Gdt/Entries.antt =====
-- `gdt_init`: the table that the processor is given, and the segment registers.
use trash_os.Base.{
  ℕ, ◌+◌, ◌*◌, ◌^◌, ◌≤◌, ◌<◌, ◌≡◌, refl, ap, ◌∙◌, arith, bit_or, bits, u64, ◌<<◌, ne→==-false,
}
use trash_os.Base.Bits.{bit_or_disjoint}
use trash_os.Cpu.{Cpu, load_gdt, set_cs, set_ds, set_es, set_fs, set_gs, set_ss, set_tr}
use trash_os.Gdt.{
  Segments, gdt_init, fill_gdt, gdt_descriptor, tss_bytes, gdt_code_pl0, gdt_data_pl0, gdt_tss_pl0,
  gdt_code_pl3, gdt_data_pl3, gdt_tss_pl3,
}
use trash_os.Gdt.Fields.{Describes, gdt_descriptor-Describes}

-- The table: a null entry, present flat segments of 4 KiB blocks for the code and the data of rings
-- 0 and 3, and two descriptors of the task state at `tss_at`. An access byte holds, from the top,
-- the present bit, two bits of ring, and five bits of type.
pub record IsTable (tss_at : ℕ) (gdt : ℕ → ℕ) : Type 0 where
  pub null : gdt 0 ≡ 0
  pub code_pl0 : Describes (gdt 1) 0 0xfffff 0x9a 0xc
  pub data_pl0 : Describes (gdt 2) 0 0xfffff 0x92 0xc
  pub tss_pl0 : Describes (gdt 3) tss_at tss_bytes 0x89 0x8
  pub code_pl3 : Describes (gdt 4) 0 0xfffff 0xfa 0xc
  pub data_pl3 : Describes (gdt 5) 0 0xfffff 0xf2 0xc
  pub tss_pl3 : Describes (gdt 6) tss_at tss_bytes 0xe9 0x8

-- The registers: a selector is eight times an index, with a ring in its two low bits.
pub record IsLoaded (gdt_at : ℕ) (c : Cpu) : Type 0 where
  pub base : bits c.gdtr 16 32 ≡ gdt_at
  pub limit : bits c.gdtr 0 16 ≡ 7 * 8
  pub code : c.cs ≡ 1 * 8 + 0
  pub data_segments :
      (c.ds ≡ 2 * 8 + 0) × (c.es ≡ 2 * 8 + 0) × (c.fs ≡ 2 * 8 + 0) × (c.gs ≡ 2 * 8 + 0)
  pub stack : c.ss ≡ 2 * 8 + 0
  pub task : c.tr ≡ 6 * 8 + 3

module _ (gdt_at tss_at : ℕ) (gdt_word : gdt_at < 2 ^ 32) (tss_word : tss_at < 2 ^ 32) where
  fill_gdt-IsTable : (gdt : ℕ → ℕ) → IsTable tss_at (fill_gdt gdt_at tss_at gdt)
  unfolding fill_gdt
  fill_gdt-IsTable gdt = record {
    null = unfold gdt_descriptor in refl;
    code_pl0 =
        gdt_descriptor-Describes 0 0xfffff gdt_code_pl0 (omega arith) (omega arith) (omega arith);
    data_pl0 =
        gdt_descriptor-Describes 0 0xfffff gdt_data_pl0 (omega arith) (omega arith) (omega arith);
    tss_pl0 =
        gdt_descriptor-Describes tss_at tss_bytes gdt_tss_pl0 tss_word (omega arith) (omega arith);
    code_pl3 =
        gdt_descriptor-Describes 0 0xfffff gdt_code_pl3 (omega arith) (omega arith) (omega arith);
    data_pl3 =
        gdt_descriptor-Describes 0 0xfffff gdt_data_pl3 (omega arith) (omega arith) (omega arith);
    tss_pl3 =
        gdt_descriptor-Describes tss_at tss_bytes gdt_tss_pl3 tss_word (omega arith) (omega arith);
  }

  -- Where `GDT` and `TSS` have 32-bit addresses, `gdt_init` fills the table as `IsTable` says, keeps
  -- what is behind its seven entries, gives the processor the table's address with 56 as its limit,
  -- loads the ring 0 segments and the task register with ring 3's entry, and sets the stack segment of the
  -- task state to ring 0's data.
  pub gdt_init-IsTable :
      (s : Segments)
      → let s' = gdt_init gdt_at tss_at s in
        IsTable tss_at s'.gdt
        × ((q : ℕ) → 7 ≤ q → s'.gdt q ≡ s.gdt q)
        × IsLoaded gdt_at s'.cpu
        × (s'.tss.ss0 ≡ 2 * 8 + 0)
  unfolding gdt_init fill_gdt load_gdt set_cs set_ds set_es set_fs set_gs set_ss set_tr
  gdt_init-IsTable s =
      let wide : u64 (gdt_at << 16) ≡ gdt_at * 2 ^ 16 = omega arith in
      let sel : bit_or (u64 (gdt_at << 16)) 56 ≡ gdt_at * 2 ^ 16 + 56 =
        ap (λ (t : ℕ). bit_or t 56) wide ∙ bit_or_disjoint 16 gdt_at 56 (omega arith) in
      (
        fill_gdt-IsTable s.gdt,
        λ q behind.
            rw
              (
                ne→==-false q 0 (omega arith),
                ne→==-false q 1 (omega arith),
                ne→==-false q 2 (omega arith),
                ne→==-false q 3 (omega arith),
                ne→==-false q 4 (omega arith),
                ne→==-false q 5 (omega arith),
                ne→==-false q 6 (omega arith),
              )
              refl,
        record {
          base = rw sel (omega arith);
          limit = rw sel (omega arith);
          code = refl;
          data_segments = (refl, refl, refl, refl);
          stack = refl;
          task = refl;
        },
        refl,
      )
