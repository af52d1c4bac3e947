-- ===== src/Apic.antt =====
-- kernel/arch/i386/apic.c and apic.h: the local APIC, whose registers are words of memory, and its
-- timer.
pub mod Timer
pub mod Start
mod Tests
use trash_os.Base.{
  ℕ, ◌+◌, ◌*◌, ◌/◌, ◌%◌, ◌^◌, Bool, bit_or, ◌==◌, if◌then◌else◌, bits, set_bits, u32, u64, ◌<<◌,
  ◌>>>◌,
}
use trash_os.Base.Runs.{Run, ok, halted, ◌>>=◌}
use trash_os.Kernel.{Kernel, load, store}
use trash_os.Page.{page_size, word_at}
use trash_os.Cpu.{Cpu, die, halt, outb, get_msr}
use trash_os.Cpu.Cpuid.{Answer, cpuid_version}
use trash_os.Int.{idt_vector_timer}

-- The registers, named as in apic.h without the prefix `APIC_`.
pub data Reg : Type 0 where
  id ver tpr apr ppr eoi rrd : Reg
  ldr dfr svr isr tmr irr esr : Reg
  lvt_cmci icr lvt_tr lvt_tsr lvt_pmcr lvt_lint0 lvt_lint1 : Reg
  lvt_er init_count curr_count div_config : Reg

-- The offset of a register in bytes.
unfoldable pub offset : Reg → ℕ
offset id = 0x20
offset ver = 0x30
offset tpr = 0x80
offset apr = 0x90
offset ppr = 0xa0
offset eoi = 0xb0
offset rrd = 0xc0
offset ldr = 0xd0
offset dfr = 0xe0
offset svr = 0xf0
offset isr = 0x100
offset tmr = 0x180
offset irr = 0x200
offset esr = 0x280
offset lvt_cmci = 0x2f0
offset icr = 0x300
offset lvt_tr = 0x320
offset lvt_tsr = 0x330
offset lvt_pmcr = 0x340
offset lvt_lint0 = 0x350
offset lvt_lint1 = 0x360
offset lvt_er = 0x370
offset init_count = 0x380
offset curr_count = 0x390
offset div_config = 0x3e0

-- The constants `APIC_..._IDX`: the index of a register among the words.
unfoldable pub idx : Reg → ℕ
idx r = offset r >>> 2

abbrev pub apic_timer_div128 : ℕ
apic_timer_div128 = 0xa

abbrev pub apic_timer_periodic : ℕ
apic_timer_periodic = 1

abbrev pub ia32_apic_base_msr : ℕ
ia32_apic_base_msr = 0x1b

-- The fields of `lvt` in `apic_lvt_reg_t` that the code sets; the others are 0.
unfoldable pub lvt : ℕ → ℕ → ℕ
lvt vector timer_mode = set_bits (set_bits 0 0 8 vector) 17 2 timer_mode

-- `lapic_reg[index]`, where the registers start at `lapic_reg`.
unfoldable pub reg_at : ℕ → Reg → ℕ
reg_at lapic_reg r = word_at lapic_reg (idx r)

-- `lapic_timer_init` without its warning, which depends on the processor.
unfoldable pub lapic_timer_init : ℕ → ℕ → Kernel → Kernel
lapic_timer_init lapic_reg period k =
    let k₁ = store (reg_at lapic_reg lvt_tr) (lvt idt_vector_timer apic_timer_periodic) k in
    let div = reg_at lapic_reg div_config in
    let k₂ = store div (set_bits (load div k₁) 0 4 apic_timer_div128) k₁ in
    store (reg_at lapic_reg init_count) period k₂

unfoldable pub pic_disable : Cpu → Cpu
pic_disable c = outb 0xa1 0xff (outb 0x21 0xff c)

unfoldable pub lapic_send_eoi : ℕ → Kernel → Kernel
lapic_send_eoi lapic_reg k = store (reg_at lapic_reg eoi) 0 k

unfoldable pub lapic_get_esr : ℕ → Kernel → ℕ
lapic_get_esr lapic_reg k = load (reg_at lapic_reg esr) k

-- `first_run_at` is the address of the static variable `get_page_first_run`, and `page_new` the
-- function that PAGE_GET_DEFAULT names.
unfoldable pub lvt_get_page_pma : ℕ → (Kernel → Run (ℕ × Kernel)) → ℕ → Kernel → Run (ℕ × Kernel)
lvt_get_page_pma first_run_at page_new lapic_base_pma k =
    let again = page_new k in
    if load first_run_at k == 0 then again else ok (lapic_base_pma, store first_run_at 0 k)

-- What `apic_init` leaves: `lapic_base_pma`, `lapic_reg`, the processor and the memory.
pub record Apic : Type 0 where
  pub lapic_base_pma : ℕ
  pub lapic_reg : ℕ
  pub cpu : Cpu
  pub kernel : Kernel

-- The instructions `cpuid` and `rdmsr`, and the function `kalloc`.
pub record Platform : Type 0 where
  pub cpuid : ℕ → Answer
  pub rdmsr : ℕ → ℕ × ℕ
  pub first_run_at : ℕ
  pub page_new : Kernel → Run (ℕ × Kernel)
  pub kalloc : (Kernel → Run (ℕ × Kernel)) → ℕ → ℕ → Kernel → Run (ℕ × Kernel)

-- `apic_init` behind its checks, with the value of the MSR.
unfoldable pub apic_start : Platform → ℕ → Cpu → Kernel → Run Apic
apic_start p msr c k = do
  let lapic_base_pma = u32 (u32 (bits msr 12 32) << 12)
  (lapic_base_vma, k₁) ←
      p.kalloc (lvt_get_page_pma p.first_run_at p.page_new lapic_base_pma) page_size page_size k
  ok (record {
    lapic_base_pma = lapic_base_pma;
    lapic_reg = lapic_base_vma;
    cpu = c;
    kernel = lapic_timer_init lapic_base_vma 0x10000 k₁;
  })

-- `msr` is what the uninitialised variable of that name holds, and `wakes` says whether an interrupt
-- ends a `halt`.
unfoldable pub apic_init : Platform → ℕ → Bool → Cpu → Kernel → Run Apic
apic_init p msr wakes c k =
    let c₁ = pic_disable c in
    let ver = cpuid_version p.cpuid in
    let msr' = get_msr p.rdmsr msr ia32_apic_base_msr in
    let start = apic_start p msr' c₁ k in
    if ver.apic == 0
    then die
    else if ver.msr == 0
    then die
    else if bits msr' 8 1 == 0
    then halt wakes start
    else start
