-- ===== src/Int.antt =====
-- kernel/arch/i386/int.c and int.h: the interrupt descriptor table.
pub mod Vectors
pub mod Handlers
pub mod Messages
pub mod Start
mod Tests
use trash_os.Base.{
  bit_or, u64, ◌<<◌, ◌*◌, ◌-◌, ℕ, zero, suc, ◌+◌, ◌^◌, ◌%◌, Bool, true, false, bit_and, ◌==◌,
  if◌then◌else◌, u8, u16, ◌>>>◌, update,
}
use trash_os.Gdt.{gdt_sel_code_pl0}
use trash_os.Cpu.{Cpu}

abbrev pub idt_size : ℕ
idt_size = 256

abbrev pub idt_vector_timer : ℕ
idt_vector_timer = 65

abbrev pub idt_gate_interrupt32 : ℕ
idt_gate_interrupt32 = 0x70

abbrev pub ring0 : ℕ
ring0 = 0

-- `idt_descriptor_t`; the names of the bit fields are those of the source.
pub record IdtDescriptor : Type 0 where
  pub offset_lo : ℕ
  pub selector : ℕ
  pub type : ℕ
  pub dpl : ℕ
  pub present : ℕ
  pub offset_hi : ℕ

-- The functions that int.c names in the table, without the prefix `int_handle_`.
pub data Handler : Type 0 where
  divide_error debug nmi_interrupt breakpoint overflow bound_range_exceeded : Handler
  invalid_opcode device_not_available double_fault coprocessor_segment_overrun : Handler
  invalid_tss segment_not_present stack_fault general_protection page_fault : Handler
  exception proc_switch unknown : Handler

unfoldable pub idt_descriptor : ℕ → ℕ → ℕ → ℕ → IdtDescriptor
idt_descriptor handler sel type dpl = record {
  offset_lo = bit_and handler 0xffff;
  selector = u16 sel;
  type = u8 type;
  dpl = dpl % 4;
  present = 1;
  offset_hi = u16 (handler >>> 16);
}

-- `switch (i)`
unfoldable pub handler_of : ℕ → Handler
handler_of i =
    if i == 0
    then divide_error
    else if i == 1
    then debug
    else if i == 2
    then nmi_interrupt
    else if i == 3
    then breakpoint
    else if i == 4
    then overflow
    else if i == 5
    then bound_range_exceeded
    else if i == 6
    then invalid_opcode
    else if i == 7
    then device_not_available
    else if i == 8
    then double_fault
    else if i == 9
    then coprocessor_segment_overrun
    else if i == 10
    then invalid_tss
    else if i == 11
    then segment_not_present
    else if i == 12
    then stack_fault
    else if i == 13
    then general_protection
    else if i == 14
    then page_fault
    else if i == 17
    then exception
    else if i == idt_vector_timer
    then proc_switch
    else unknown

-- Whether the function is declared with an error code.
unfoldable pub takes_error : Handler → Bool
takes_error double_fault = true
takes_error invalid_tss = true
takes_error segment_not_present = true
takes_error stack_fault = true
takes_error general_protection = true
takes_error page_fault = true
takes_error exception = true
takes_error _ = false

-- `address` gives the address of each function, which the linker sets.
module _ (address : Handler → ℕ) where
  -- The loop from vector `i` on, with `rounds` left.
  unfoldable pub vectors_loop : ℕ → ℕ → (ℕ → IdtDescriptor) → ℕ → IdtDescriptor
  vectors_loop zero i idt = idt
  vectors_loop (suc rounds) i idt = vectors_loop rounds (i + 1) (
      update idt i
        (idt_descriptor (address (handler_of i)) gdt_sel_code_pl0 idt_gate_interrupt32 ring0))

  unfoldable pub int_init_vectors : (ℕ → IdtDescriptor) → ℕ → IdtDescriptor
  int_init_vectors idt = vectors_loop idt_size 0 idt

  -- `idt_at` is the address of `idt`. `lidt` reads 48 of the 64 bits of `idtr`.
  unfoldable pub int_load_idt : ℕ → Cpu → Cpu
  int_load_idt idt_at c =
      let idtr = bit_or (u64 (idt_at << 16)) (8 * idt_size - 1) in record c { idtr = idtr % 2 ^ 48 }

  unfoldable pub int_init : ℕ → (ℕ → IdtDescriptor) × Cpu → (ℕ → IdtDescriptor) × Cpu
  int_init idt_at (idt, c) = (int_init_vectors idt, int_load_idt idt_at c)
