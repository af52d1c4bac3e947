-- ===== src/Apic/Tests.antt =====
-- A processor with a local APIC at the usual address.
use trash_os.Base.{ℕ, ◌+◌, ◌*◌, ◌^◌, ◌≡◌, refl, arith, inl, false, [], ◌∷◌}
use trash_os.Base.Runs.{ok}
use trash_os.Kernel.{Kernel}
use trash_os.Cpu.{Cpu}
use trash_os.Apic.{Platform, Apic, apic_init}
use trash_os.Apic.Timer.{IsRegPage, IsProgrammed}
use trash_os.Apic.Start.{apic_init-IsProgrammed}

abbrev no_cpu : Cpu
no_cpu = record {
  cr0 = 0;
  cr2 = 0;
  cr3 = 0;
  cr4 = 0;
  cs = 0;
  ds = 0;
  es = 0;
  fs = 0;
  gs = 0;
  ss = 0;
  tr = 0;
  esp = 0;
  eflags = 0;
  gdtr = 0;
  idtr = 0;
  ports = [];
}

abbrev blank : Kernel
blank = record {
  mem = λ a. 0x50;
  ctxt = record { free_list = 0; start = 8; limit = 112 };
  page_dir = 4096;
  page_table_lookup = 8192;
  page_free_list = 0;
  kernel_heap_end_pma = 65536;
  kernel_heap_end_vma = 65536;
  flushed = [];
}

-- `base` is the low half of the MSR.
abbrev platform : ℕ → Platform
platform base = record {
  cpuid = λ eax. record { eax = 0; ebx = 0; ecx = 0; edx = 2 ^ 9 + 2 ^ 5 };
  rdmsr = λ msr. (base, 15);
  first_run_at = 512;
  page_new = λ k. ok (65536, k);
  kalloc = λ get alignment bytes k. ok (0x40000000, k);
}

page : IsRegPage 0x40000000
page = record { aligned = refl; inside = omega arith }

apic_init-IsProgrammed_example :
    (a : Apic) × (apic_init (platform 0xfee00900) (7 * 2 ^ 40) false no_cpu blank ≡ ok a)
    × (a.lapic_base_pma ≡ 0xfee00000)
    × (a.lapic_reg ≡ 0x40000000)
    × IsProgrammed 0x40000000 65536 a.kernel
    × (a.cpu.ports ≡ (0xa1, 0xff) ∷ (0x21, 0xff) ∷ [])
apic_init-IsProgrammed_example =
    apic_init-IsProgrammed (platform 0xfee00900) (7 * 2 ^ 40) false no_cpu blank (omega arith)
      (omega arith) 0x40000000 blank (omega arith) (omega arith) (inl (omega arith)) refl page
