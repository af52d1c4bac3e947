-- ===== src/Apic/Start.antt =====
-- `apic_init` as a whole.
use trash_os.Base.{
  ℕ, ◌+◌, ◌*◌, ◌/◌, ◌^◌, ◌<◌, ◌≡◌, ◌≢◌, ◌⊎◌, refl, sym, ap, ◌∙◌, arith, inl, inr, Bool, true,
  bit_or, ◌==◌, if◌then◌else◌, ◌∷◌, bits, u32, u64, ◌<<◌, ne→==-false, Bool-cases,
}
use trash_os.Base.Bits.Split.{bit_or_split}
use trash_os.Base.Bits.{bit_or-zero}
use trash_os.Base.Runs.{Run, ok}
use trash_os.Kernel.{Kernel}
use trash_os.Page.{page_size}
use trash_os.Cpu.{Cpu, halt, outb, get_msr}
use trash_os.Cpu.Cpuid.{cpuid_version}
use trash_os.Apic.{
  Platform, Apic, apic_init, apic_start, pic_disable, lapic_timer_init, lvt_get_page_pma,
  ia32_apic_base_msr,
}
use trash_os.Apic.Timer.{IsRegPage, IsProgrammed, lapic_timer_init-IsProgrammed}

-- The low half of the register survives what the variable held before.
get_msr-low :
    (rdmsr : ℕ → ℕ × ℕ) (old msr : ℕ)
    → (rdmsr msr).0 < 2 ^ 32
    → (rdmsr msr).1 < 2 ^ 32
    → (high : ℕ) × (get_msr rdmsr old msr ≡ high * 2 ^ 32 + (rdmsr msr).0)
unfolding get_msr
get_msr-low rdmsr old msr lo_word hi_word =
    let lo : ℕ = (rdmsr msr).0 in
    let hi : ℕ = (rdmsr msr).1 in
    let wide : u64 (hi << 32) ≡ hi * 2 ^ 32 + 0 = omega arith in
    let low : bit_or lo 0 ≡ lo = bit_or-zero lo in
    (
      bit_or (old / 2 ^ 32) hi,
      ap (λ (t : ℕ). bit_or (old / 2 ^ 32 * 2 ^ 32 + lo) t) wide
          ∙ bit_or_split 32 (old / 2 ^ 32) lo hi 0 lo_word (omega arith)
          ∙ ap (λ (t : ℕ). bit_or (old / 2 ^ 32) hi * 2 ^ 32 + t) low,
    )

-- A processor that is not halted, or that wakes, goes on.
goes_on :
    (flag : ℕ) (wakes : Bool) (next : Run Apic)
    → (flag ≢ 0) ⊎ (wakes ≡ true)
    → (if flag == 0 then halt wakes next else next) ≡ next
unfolding halt
goes_on flag wakes next (inl set) = rw (ne→==-false flag 0 set) refl
goes_on flag wakes next (inr w) = elim (Bool-cases (flag == 0)) [
  | inl t ↦ rw (t, w) refl
  | inr e ↦ rw e refl
]

module _ (p : Platform) (msr : ℕ) (wakes : Bool) (c : Cpu) (k : Kernel)
    (lo_word : (p.rdmsr ia32_apic_base_msr).0 < 2 ^ 32)
    (hi_word : (p.rdmsr ia32_apic_base_msr).1 < 2 ^ 32) where
  -- The flags that `cpuid` gives for the APIC and for the MSRs, and the MSR's flag of the bootstrap
  -- processor.
  abbrev has_apic : ℕ
  has_apic = bits (p.cpuid 1).edx 9 1

  abbrev has_msr : ℕ
  has_msr = bits (p.cpuid 1).edx 5 1

  abbrev base_lo : ℕ
  base_lo = (p.rdmsr ia32_apic_base_msr).0

  bsp_bit : bits (get_msr p.rdmsr msr ia32_apic_base_msr) 8 1 ≡ bits base_lo 8 1
  bsp_bit =
      let (high, e) = get_msr-low p.rdmsr msr ia32_apic_base_msr lo_word hi_word in
      ap (λ (t : ℕ). bits t 8 1) e ∙ omega arith

  base_bits :
      u32 (u32 (bits (get_msr p.rdmsr msr ia32_apic_base_msr) 12 32) << 12) ≡ base_lo / 4096 * 4096
  base_bits =
      let (high, e) = get_msr-low p.rdmsr msr ia32_apic_base_msr lo_word hi_word in
      ap (λ (t : ℕ). u32 (u32 (bits t 12 32) << 12)) e ∙ omega arith

  -- `apic_start` with the value that was read.
  started :
      (vma : ℕ) (k' : Kernel)
      → p.kalloc
          (lvt_get_page_pma p.first_run_at p.page_new (base_lo / 4096 * 4096))
          page_size
          page_size
          k
        ≡ ok (vma, k')
      → apic_start p (get_msr p.rdmsr msr ia32_apic_base_msr) (pic_disable c) k
        ≡ ok (record {
          lapic_base_pma = base_lo / 4096 * 4096;
          lapic_reg = vma;
          cpu = pic_disable c;
          kernel = lapic_timer_init vma 0x10000 k';
        })
  unfolding apic_start
  started vma k' gave = rw (base_bits, gave) refl

  -- Where the instructions answer with 32-bit words, there is a local APIC with MSRs, and this is the
  -- bootstrap processor or an interrupt ends its `hlt`: if `kalloc` gives a page for the registers,
  -- `apic_init` returns, whatever the variable for the MSR held. The physical address taken is that
  -- of the MSR's low half without its flags, the page given is where the timer is programmed, with
  -- a period of 65536, and both interrupt masks of the old controller are full.
  pub apic_init-IsProgrammed :
      (vma : ℕ) (k' : Kernel)
      → has_apic ≢ 0
      → has_msr ≢ 0
      → (bits base_lo 8 1 ≢ 0) ⊎ (wakes ≡ true)
      → p.kalloc
          (lvt_get_page_pma p.first_run_at p.page_new (base_lo / 4096 * 4096))
          page_size
          page_size
          k
        ≡ ok (vma, k')
      → IsRegPage vma
      → (a : Apic) × (apic_init p msr wakes c k ≡ ok a)
        × (a.lapic_base_pma ≡ base_lo / 4096 * 4096)
        × (a.lapic_reg ≡ vma)
        × IsProgrammed vma 65536 a.kernel
        × (a.cpu.ports ≡ (0xa1, 0xff) ∷ (0x21, 0xff) ∷ c.ports)
  unfolding apic_init halt cpuid_version pic_disable outb
  apic_init-IsProgrammed vma k' apic msrs boot gave page =
      let start = apic_start p (get_msr p.rdmsr msr ia32_apic_base_msr) (pic_disable c) k in
      let on : (bits (get_msr p.rdmsr msr ia32_apic_base_msr) 8 1 ≢ 0) ⊎ (wakes ≡ true) =
        elim boot [ inl bsp ↦ inl (λ e. bsp (sym bsp_bit ∙ e)) | inr w ↦ inr w ] in
      (
        record {
          lapic_base_pma = base_lo / 4096 * 4096;
          lapic_reg = vma;
          cpu = pic_disable c;
          kernel = lapic_timer_init vma 0x10000 k';
        },
        rw (ne→==-false has_apic 0 apic, ne→==-false has_msr 0 msrs)
            (goes_on (bits (get_msr p.rdmsr msr ia32_apic_base_msr) 8 1) wakes start on
              ∙ started vma k' gave),
        refl,
        refl,
        (lapic_timer_init-IsProgrammed vma page 65536 k').0,
        refl,
      )
