-- ===== src/Gdt/Tests.antt =====
-- A descriptor, and the table for two concrete addresses.
use trash_os.Base.{ℕ, ◌*◌, ◌+◌, ◌≡◌, ◌≤◌, arith, []}
use trash_os.Cpu.{Cpu}
use trash_os.Gdt.{Segments, Tss, gdt_init, gdt_descriptor, tss_bytes, gdt_tss_pl3}
use trash_os.Gdt.Fields.{Describes, gdt_descriptor-Describes}
use trash_os.Gdt.Entries.{IsTable, IsLoaded, gdt_init-IsTable}

gdt_descriptor-Describes_example :
    Describes (gdt_descriptor 0x12345678 tss_bytes gdt_tss_pl3) 0x12345678 104 0xe9 0x8
gdt_descriptor-Describes_example =
    gdt_descriptor-Describes 0x12345678 tss_bytes gdt_tss_pl3 (omega arith) (omega arith)
      (omega arith)

abbrev no_cpu : Cpu
no_cpu = record {
  cr0 = 0;
  cr2 = 0;
  cr3 = 0;
  cr4 = 0;
  cs = 0;
  ds = 0;
  es = 0;
  fs = 0;
  gs = 0;
  ss = 0;
  tr = 0;
  esp = 0;
  eflags = 0;
  gdtr = 0;
  idtr = 0;
  ports = [];
}

abbrev no_tss : Tss
no_tss = record {
  prev_task_link = 0;
  esp0 = 0;
  ss0 = 0;
  esp1 = 0;
  ss1 = 0;
  esp2 = 0;
  ss2 = 0;
  cr3 = 0;
  eip = 0;
  eflags = 0;
  eax = 0;
  ecx = 0;
  edx = 0;
  ebx = 0;
  esp = 0;
  ebp = 0;
  esi = 0;
  edi = 0;
  es = 0;
  cs = 0;
  ss = 0;
  ds = 0;
  fs = 0;
  gs = 0;
  ldt_selector = 0;
  trap = 0;
  io_map_base = 0;
}

abbrev no_segments : Segments
no_segments = record { gdt = λ i. i; tss = no_tss; gdt_sel = 0; cpu = no_cpu }

gdt_init-IsTable_example :
    let s' = gdt_init 0xc0100000 0xc0200000 no_segments in
    IsTable 0xc0200000 s'.gdt
    × ((q : ℕ) → 7 ≤ q → s'.gdt q ≡ q)
    × IsLoaded 0xc0100000 s'.cpu
    × (s'.tss.ss0 ≡ 2 * 8 + 0)
gdt_init-IsTable_example =
    gdt_init-IsTable 0xc0100000 0xc0200000 (omega arith) (omega arith) no_segments
