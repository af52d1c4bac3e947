-- ===== src/Cpu/Cpuid.antt =====
-- kernel/arch/i386/cpuid.h: the answers of the instruction `cpuid`, in the bit fields of the source.
use trash_os.Base.{ℕ, List, [], ◌∷◌, ◌++◌, bits}

-- The registers that `cpuid` fills for one value of eax.
pub record Answer : Type 0 where
  pub eax : ℕ
  pub ebx : ℕ
  pub ecx : ℕ
  pub edx : ℕ

-- `cpuid_version_t`, without its reserved bits.
pub record CpuidVersion : Type 0 where
  pub stepping_id : ℕ
  pub model : ℕ
  pub family_id : ℕ
  pub processor_type : ℕ
  pub extended_model_id : ℕ
  pub extended_family_id : ℕ
  pub brand_index : ℕ
  pub clflush_line_size : ℕ
  pub max_ids : ℕ
  pub initial_apic_id : ℕ
  pub sse3 : ℕ
  pub pclmulqdq : ℕ
  pub dtest64 : ℕ
  pub monitor : ℕ
  pub ds_cpl : ℕ
  pub vmx : ℕ
  pub smx : ℕ
  pub eist : ℕ
  pub tm2 : ℕ
  pub ssse3 : ℕ
  pub cnxt_id : ℕ
  pub sdbg : ℕ
  pub fma : ℕ
  pub cmpxchg16b : ℕ
  pub xtpr_update_control : ℕ
  pub pdcm : ℕ
  pub pcid : ℕ
  pub dca : ℕ
  pub sse4_1 : ℕ
  pub sse4_2 : ℕ
  pub x2apic : ℕ
  pub movbe : ℕ
  pub popcnt : ℕ
  pub tsc_deadline : ℕ
  pub aesni : ℕ
  pub xsave : ℕ
  pub osxsave : ℕ
  pub avx : ℕ
  pub f16c : ℕ
  pub rdrand : ℕ
  pub fpu : ℕ
  pub vme : ℕ
  pub de : ℕ
  pub pse : ℕ
  pub tsc : ℕ
  pub msr : ℕ
  pub pae : ℕ
  pub mce : ℕ
  pub cx8 : ℕ
  pub apic : ℕ
  pub sep : ℕ
  pub mtrr : ℕ
  pub pge : ℕ
  pub mca : ℕ
  pub cmov : ℕ
  pub pat : ℕ
  pub pse_36 : ℕ
  pub psn : ℕ
  pub clfsh : ℕ
  pub ds : ℕ
  pub acpi : ℕ
  pub mmx : ℕ
  pub fxsr : ℕ
  pub sse : ℕ
  pub sse2 : ℕ
  pub ss : ℕ
  pub htt : ℕ
  pub tm : ℕ
  pub pbe : ℕ

-- The structure lies over the four registers in memory; `cpuid` is the instruction.
unfoldable pub cpuid_version : (ℕ → Answer) → CpuidVersion
cpuid_version cpuid =
    let a = cpuid 1 in
    record {
      stepping_id = bits a.eax 0 4;
      model = bits a.eax 4 4;
      family_id = bits a.eax 8 4;
      processor_type = bits a.eax 12 2;
      extended_model_id = bits a.eax 16 4;
      extended_family_id = bits a.eax 20 8;
      brand_index = bits a.ebx 0 8;
      clflush_line_size = bits a.ebx 8 8;
      max_ids = bits a.ebx 16 8;
      initial_apic_id = bits a.ebx 24 8;
      sse3 = bits a.ecx 0 1;
      pclmulqdq = bits a.ecx 1 1;
      dtest64 = bits a.ecx 2 1;
      monitor = bits a.ecx 3 1;
      ds_cpl = bits a.ecx 4 1;
      vmx = bits a.ecx 5 1;
      smx = bits a.ecx 6 1;
      eist = bits a.ecx 7 1;
      tm2 = bits a.ecx 8 1;
      ssse3 = bits a.ecx 9 1;
      cnxt_id = bits a.ecx 10 1;
      sdbg = bits a.ecx 11 1;
      fma = bits a.ecx 12 1;
      cmpxchg16b = bits a.ecx 13 1;
      xtpr_update_control = bits a.ecx 14 1;
      pdcm = bits a.ecx 15 1;
      pcid = bits a.ecx 17 1;
      dca = bits a.ecx 18 1;
      sse4_1 = bits a.ecx 19 1;
      sse4_2 = bits a.ecx 20 1;
      x2apic = bits a.ecx 21 1;
      movbe = bits a.ecx 22 1;
      popcnt = bits a.ecx 23 1;
      tsc_deadline = bits a.ecx 24 1;
      aesni = bits a.ecx 25 1;
      xsave = bits a.ecx 26 1;
      osxsave = bits a.ecx 27 1;
      avx = bits a.ecx 28 1;
      f16c = bits a.ecx 29 1;
      rdrand = bits a.ecx 30 1;
      fpu = bits a.edx 0 1;
      vme = bits a.edx 1 1;
      de = bits a.edx 2 1;
      pse = bits a.edx 3 1;
      tsc = bits a.edx 4 1;
      msr = bits a.edx 5 1;
      pae = bits a.edx 6 1;
      mce = bits a.edx 7 1;
      cx8 = bits a.edx 8 1;
      apic = bits a.edx 9 1;
      sep = bits a.edx 11 1;
      mtrr = bits a.edx 12 1;
      pge = bits a.edx 13 1;
      mca = bits a.edx 14 1;
      cmov = bits a.edx 15 1;
      pat = bits a.edx 16 1;
      pse_36 = bits a.edx 17 1;
      psn = bits a.edx 18 1;
      clfsh = bits a.edx 19 1;
      ds = bits a.edx 21 1;
      acpi = bits a.edx 22 1;
      mmx = bits a.edx 23 1;
      fxsr = bits a.edx 24 1;
      sse = bits a.edx 25 1;
      sse2 = bits a.edx 26 1;
      ss = bits a.edx 27 1;
      htt = bits a.edx 28 1;
      tm = bits a.edx 29 1;
      pbe = bits a.edx 31 1;
    }

-- `cpuid_thermal_t`, without its reserved bits.
pub record CpuidThermal : Type 0 where
  pub temp_sensor : ℕ
  pub turbo_boost : ℕ
  pub arat : ℕ
  pub pln : ℕ
  pub ecmd : ℕ
  pub ptm : ℕ
  pub hwp : ℕ
  pub hwp_notification : ℕ
  pub hwp_activity_window : ℕ
  pub hwp_energy_perf_preference : ℕ
  pub hwp_package_level_request : ℕ
  pub hdc : ℕ
  pub turbo_boost3 : ℕ
  pub hwp_capabilities : ℕ
  pub hwp_peci_override : ℕ
  pub hwp_flexible : ℕ
  pub hwp_fast_access : ℕ
  pub hwp_request_ignore : ℕ
  pub num_interrupt_thresholds : ℕ
  pub hardware_coordination_feedback : ℕ
  pub perf_energy_bias_preference : ℕ

unfoldable pub cpuid_thermal : (ℕ → Answer) → CpuidThermal
cpuid_thermal cpuid =
    let a = cpuid 6 in
    record {
      temp_sensor = bits a.eax 0 1;
      turbo_boost = bits a.eax 1 1;
      arat = bits a.eax 2 1;
      pln = bits a.eax 4 1;
      ecmd = bits a.eax 5 1;
      ptm = bits a.eax 6 1;
      hwp = bits a.eax 7 1;
      hwp_notification = bits a.eax 8 1;
      hwp_activity_window = bits a.eax 9 1;
      hwp_energy_perf_preference = bits a.eax 10 1;
      hwp_package_level_request = bits a.eax 11 1;
      hdc = bits a.eax 13 1;
      turbo_boost3 = bits a.eax 14 1;
      hwp_capabilities = bits a.eax 15 1;
      hwp_peci_override = bits a.eax 16 1;
      hwp_flexible = bits a.eax 17 1;
      hwp_fast_access = bits a.eax 18 1;
      hwp_request_ignore = bits a.eax 20 1;
      num_interrupt_thresholds = bits a.ebx 0 4;
      hardware_coordination_feedback = bits a.ecx 0 1;
      perf_energy_bias_preference = bits a.ecx 3 1;
    }

-- The bytes of a register in memory.
abbrev reg_bytes : ℕ → List ℕ
reg_bytes r = bits r 0 8 ∷ bits r 8 8 ∷ bits r 16 8 ∷ bits r 24 8 ∷ []

-- The largest input and the string, with its terminator.
unfoldable pub cpuid_id_string : (ℕ → Answer) → ℕ × List ℕ
cpuid_id_string cpuid =
    let a = cpuid 0 in (a.eax, reg_bytes a.ebx ++ reg_bytes a.edx ++ reg_bytes a.ecx ++ 0 ∷ [])
