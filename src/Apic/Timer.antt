-- ===== src/Apic/Timer.antt =====
-- `lapic_timer_init` and `lapic_send_eoi` on the registers.
use trash_os.Base.{
  ℕ, ◌+◌, ◌%◌, ◌^◌, ◌≤◌, ◌≡◌, ◌≢◌, refl, sym, ◌∙◌, arith, bits, set_bits, eq→==, ne→==-false,
}
use trash_os.Kernel.{Kernel, load, store}
use trash_os.Apic.{
  eoi, lvt_tr, init_count, div_config, offset, idx, reg_at, lvt, lapic_timer_init, lapic_send_eoi,
  apic_timer_div128,
}
use trash_os.Int.{Handler, handler_of}

-- The timer at `lapic_reg`: its interrupt, of the vector whose handler switches processes, comes
-- periodically, with the fixed delivery mode and unmasked, after `period` ticks of a clock divided
-- by 128.
pub record IsProgrammed (lapic_reg period : ℕ) (k : Kernel) : Type 0 where
  pub handler : handler_of (bits (load (reg_at lapic_reg lvt_tr) k) 0 8) ≡ Handler.proc_switch
  pub periodic : bits (load (reg_at lapic_reg lvt_tr) k) 17 2 ≡ 1
  pub delivery : bits (load (reg_at lapic_reg lvt_tr) k) 8 3 ≡ 0
  pub unmasked : bits (load (reg_at lapic_reg lvt_tr) k) 16 1 ≡ 0
  pub divide : bits (load (reg_at lapic_reg div_config) k) 0 4 ≡ 0xa
  pub count : load (reg_at lapic_reg init_count) k ≡ period

-- A page of registers.
pub record IsRegPage (lapic_reg : ℕ) : Type 0 where
  pub aligned : lapic_reg % 4096 ≡ 0
  pub inside : lapic_reg + 4096 ≤ 2 ^ 32

module _ (l : ℕ) (page : IsRegPage l) where
  tr-at : reg_at l lvt_tr ≡ l + 0x320
  unfolding reg_at idx offset
  tr-at = let h = page.inside in omega arith

  div-at : reg_at l div_config ≡ l + 0x3e0
  unfolding reg_at idx offset
  div-at = let h = page.inside in omega arith

  count-at : reg_at l init_count ≡ l + 0x380
  unfolding reg_at idx offset
  count-at = let h = page.inside in omega arith

  eoi-at : reg_at l eoi ≡ l + 0xb0
  unfolding reg_at idx offset
  eoi-at = let h = page.inside in omega arith

  -- On a page of registers, `lapic_timer_init` programs the timer with the period, keeps the upper
  -- bits of the divide register, and writes no word but the three registers.
  pub lapic_timer_init-IsProgrammed :
      (period : ℕ) (k : Kernel)
      → IsProgrammed l period (lapic_timer_init l period k)
        × (bits (load (l + 0x3e0) (lapic_timer_init l period k)) 4 28
            ≡ bits (load (l + 0x3e0) k) 4 28)
        × ((a : ℕ)
            → a ≢ l + 0x320
            → a ≢ l + 0x380
            → a ≢ l + 0x3e0
            → load a (lapic_timer_init l period k) ≡ load a k)
  unfolding lapic_timer_init lvt store load handler_of
  lapic_timer_init-IsProgrammed period k =
      let old : ℕ = k.mem (l + 0x3e0) in
      let new : ℕ = set_bits old 0 4 apic_timer_div128 in
      let tr_div = ne→==-false (l + 0x320) (l + 0x3e0) (omega arith) in
      let tr_count = ne→==-false (l + 0x320) (l + 0x380) (omega arith) in
      let div_tr = ne→==-false (l + 0x3e0) (l + 0x320) (omega arith) in
      let div_count = ne→==-false (l + 0x3e0) (l + 0x380) (omega arith) in
      let tr = eq→== (l + 0x320) (l + 0x320) refl in
      let div = eq→== (l + 0x3e0) (l + 0x3e0) refl in
      let count = eq→== (l + 0x380) (l + 0x380) refl in
      let low : bits new 0 4 ≡ 0xa = omega arith in
      let high : bits new 4 28 ≡ bits old 4 28 = omega arith in
      (
        record {
          handler = rw (tr-at, div-at, count-at, tr_div, tr_count, tr) refl;
          periodic = rw (tr-at, div-at, count-at, tr_div, tr_count, tr) refl;
          delivery = rw (tr-at, div-at, count-at, tr_div, tr_count, tr) refl;
          unmasked = rw (tr-at, div-at, count-at, tr_div, tr_count, tr) refl;
          divide = rw (tr-at, div-at, count-at, div_count, div, div_tr) low;
          count = rw (tr-at, div-at, count-at, count) refl;
        },
        rw (tr-at, div-at, count-at, div_count, div, div_tr) high,
        λ a h₁ h₂ h₃.
            rw
              (
                tr-at,
                div-at,
                count-at,
                ne→==-false a (l + 0x380) h₂,
                ne→==-false a (l + 0x3e0) h₃,
                ne→==-false a (l + 0x320) h₁,
              )
              refl,
      )

  -- The end of an interrupt leaves the timer as it is programmed.
  pub lapic_send_eoi-IsProgrammed :
      (period : ℕ) (k : Kernel)
      → IsProgrammed l period k
      → IsProgrammed l period (lapic_send_eoi l k)
  unfolding lapic_send_eoi store load
  lapic_send_eoi-IsProgrammed period k is =
      let tr : reg_at l lvt_tr ≢ reg_at l eoi =
        λ e. let t = sym tr-at ∙ e ∙ eoi-at in omega arith in
      let div : reg_at l div_config ≢ reg_at l eoi =
        λ e. let t = sym div-at ∙ e ∙ eoi-at in omega arith in
      let count : reg_at l init_count ≢ reg_at l eoi =
        λ e. let t = sym count-at ∙ e ∙ eoi-at in omega arith in
      let tr' = ne→==-false _ _ tr in
      record {
        handler = rw tr' is.handler;
        periodic = rw tr' is.periodic;
        delivery = rw tr' is.delivery;
        unmasked = rw tr' is.unmasked;
        divide = rw (ne→==-false _ _ div) is.divide;
        count = rw (ne→==-false _ _ count) is.count;
      }
