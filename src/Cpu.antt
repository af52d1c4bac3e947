-- ===== src/Cpu.antt =====
-- kernel/arch/i386/asm.h and io.h: the registers of the processor, the instructions that read and
-- write them, and the ports.
pub mod Cpuid
use trash_os.Base.{
  ℕ, ◌+◌, ◌*◌, ◌/◌, ◌%◌, ◌^◌, List, ◌∷◌, Bool, bit_and, bit_or, if◌then◌else◌, bits, u32, u64,
  not32, ◌<<◌,
}
use trash_os.Base.Runs.{Run, ok, halted}

-- `ports` lists the bytes written to ports, the last first. The limit and the base of `gdtr` and
-- `idtr` are one number, as `lgdt` and `lidt` read it from memory.
pub record Cpu : Type 0 where
  pub cr0 : ℕ
  pub cr2 : ℕ
  pub cr3 : ℕ
  pub cr4 : ℕ
  pub cs : ℕ
  pub ds : ℕ
  pub es : ℕ
  pub fs : ℕ
  pub gs : ℕ
  pub ss : ℕ
  pub tr : ℕ
  pub esp : ℕ
  pub eflags : ℕ
  pub gdtr : ℕ
  pub idtr : ℕ
  pub ports : List (ℕ × ℕ)

-- `flags_reg_t`, without its reserved bits.
pub record FlagsReg : Type 0 where
  pub cf : ℕ
  pub pf : ℕ
  pub af : ℕ
  pub zf : ℕ
  pub sf : ℕ
  pub tf : ℕ
  pub ief : ℕ
  pub df : ℕ
  pub of : ℕ
  pub iopl : ℕ
  pub nt : ℕ
  pub rf : ℕ
  pub vm : ℕ
  pub ac : ℕ
  pub vif : ℕ
  pub vip : ℕ
  pub id : ℕ

-- The bit fields of `raw`.
unfoldable pub flags_reg : ℕ → FlagsReg
flags_reg raw = record {
  cf = bits raw 0 1;
  pf = bits raw 2 1;
  af = bits raw 4 1;
  zf = bits raw 6 1;
  sf = bits raw 7 1;
  tf = bits raw 8 1;
  ief = bits raw 9 1;
  df = bits raw 10 1;
  of = bits raw 11 1;
  iopl = bits raw 12 2;
  nt = bits raw 14 1;
  rf = bits raw 16 1;
  vm = bits raw 17 1;
  ac = bits raw 18 1;
  vif = bits raw 19 1;
  vip = bits raw 20 1;
  id = bits raw 21 1;
}

-- `die` loops for good.
unfoldable pub die : {A : Type 0} → Run A
die = halted

-- `halt` waits for an interrupt; `wakes` says whether one comes.
unfoldable pub halt : {A : Type 0} → Bool → Run A → Run A
halt wakes next = if wakes then next else halted

unfoldable pub cli : Cpu → Cpu
cli c = record c { eflags = bit_and c.eflags (not32 (2 ^ 9)) }

unfoldable pub sti : Cpu → Cpu
sti c = record c { eflags = bit_or c.eflags (2 ^ 9) }

unfoldable pub get_cr2 : Cpu → ℕ
get_cr2 c = c.cr2

unfoldable pub get_cr3 : Cpu → ℕ
get_cr3 c = c.cr3

unfoldable pub set_cr3 : ℕ → Cpu → Cpu
set_cr3 val c = record c { cr3 = val }

unfoldable pub get_sp : Cpu → ℕ
get_sp c = c.esp

unfoldable pub get_cr0 : Cpu → ℕ
get_cr0 c = c.cr0

unfoldable pub get_cr4 : Cpu → ℕ
get_cr4 c = c.cr4

unfoldable pub get_cs : Cpu → ℕ
get_cs c = c.cs

unfoldable pub get_ds : Cpu → ℕ
get_ds c = c.ds

unfoldable pub get_es : Cpu → ℕ
get_es c = c.es

unfoldable pub get_fs : Cpu → ℕ
get_fs c = c.fs

unfoldable pub get_gs : Cpu → ℕ
get_gs c = c.gs

unfoldable pub get_ss : Cpu → ℕ
get_ss c = c.ss

unfoldable pub set_sp : ℕ → Cpu → Cpu
set_sp val c = record c { esp = val }

unfoldable pub get_flags : Cpu → FlagsReg
get_flags c = flags_reg c.eflags

-- `set_flags`, by the value `raw` of the argument.
unfoldable pub set_flags : ℕ → Cpu → Cpu
set_flags raw c = record c { eflags = raw }

unfoldable pub set_cs : ℕ → Cpu → Cpu
set_cs cs c = record c { cs = cs }

unfoldable pub set_ds : ℕ → Cpu → Cpu
set_ds ds c = record c { ds = ds }

unfoldable pub set_es : ℕ → Cpu → Cpu
set_es es c = record c { es = es }

unfoldable pub set_fs : ℕ → Cpu → Cpu
set_fs fs c = record c { fs = fs }

unfoldable pub set_gs : ℕ → Cpu → Cpu
set_gs gs c = record c { gs = gs }

unfoldable pub set_ss : ℕ → Cpu → Cpu
set_ss ss c = record c { ss = ss }

unfoldable pub set_tr : ℕ → Cpu → Cpu
set_tr tr c = record c { tr = tr }

-- `lgdt` reads 48 of the 64 bits of `selector`.
unfoldable pub load_gdt : ℕ → Cpu → Cpu
load_gdt selector c = record c { gdtr = selector % 2 ^ 48 }

-- `rdmsr` gives the halves of a model-specific register, the low one first. The high half is or-ed
-- into what the caller's variable held, `old`.
unfoldable pub get_msr : (ℕ → ℕ × ℕ) → ℕ → ℕ → ℕ
get_msr rdmsr old msr =
    let (lo, hi) = rdmsr msr in bit_or (old / 2 ^ 32 * 2 ^ 32 + lo) (u64 (hi << 32))

unfoldable pub outb : ℕ → ℕ → Cpu → Cpu
outb port byte c = record c { ports = (port, byte) ∷ c.ports }

unfoldable pub io_wait : Cpu → Cpu
io_wait c = record c { ports = (0x80, 0) ∷ c.ports }
