-- ===== src/Int/Start.antt =====
-- `int_init`: the table filled and given to the processor.
use trash_os.Base.{ℕ, ◌+◌, ◌-◌, ◌*◌, ◌^◌, ◌≤◌, ◌<◌, ◌≡◌, ap, ◌∙◌, arith, bit_or, bits, u64, ◌<<◌}
use trash_os.Base.Bits.{bit_or_disjoint}
use trash_os.Cpu.{Cpu}
use trash_os.Int.{Handler, IdtDescriptor, handler_of, int_init, int_load_idt, idt_size}
use trash_os.Int.Vectors.{IsGate, int_init_vectors-IsGate}

-- `int_init` fills the 256 entries of the table and no other: each is a present interrupt gate of
-- ring 0 to the handler of its vector. The processor is given the table's address, and its last byte
-- as the limit. The addresses of the handlers and of the table have 32 bits.
pub int_init-IsGate :
    (address : Handler → ℕ) (idt_at : ℕ) (idt : ℕ → IdtDescriptor) (c : Cpu)
    → ((h : Handler) → address h < 2 ^ 32)
    → idt_at < 2 ^ 32
    → let (table, c') = int_init address idt_at (idt, c) in
      ((i : ℕ) → i < 256 → IsGate (address (handler_of i)) (table i))
      × ((q : ℕ) → 256 ≤ q → table q ≡ idt q)
      × (bits c'.idtr 16 32 ≡ idt_at)
      × (bits c'.idtr 0 16 ≡ 8 * 256 - 1)
unfolding int_init int_load_idt
int_init-IsGate address idt_at idt c words word =
    let wide : u64 (idt_at << 16) ≡ idt_at * 2 ^ 16 = omega arith in
    let sel : bit_or (u64 (idt_at << 16)) (8 * idt_size - 1) ≡ idt_at * 2 ^ 16 + 2047 =
      ap (λ (t : ℕ). bit_or t 2047) wide ∙ bit_or_disjoint 16 idt_at 2047 (omega arith) in
    let (gates, others) = int_init_vectors-IsGate address idt words in
    (gates, others, rw sel (omega arith), rw sel (omega arith))
