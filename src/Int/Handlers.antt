-- ===== src/Int/Handlers.antt =====
-- The handlers of int.c: each prints a message and waits.
use trash_os.Base.{
  ℕ, Bool, List, [], ◌∷◌, Option, none, some, ◌==◌, if◌then◌else◌, bits, codes, map,
}
use trash_os.Base.Runs.{Run, ok, ◌>>=◌}
use trash_os.Cpu.{Cpu, get_cr2, get_sp, halt}
use trash_os.Print.{print}
use trash_os.Print.Numbers.{Printed}
use trash_os.Print.Directive.{word}
use trash_os.Int.{
  Handler, divide_error, debug, nmi_interrupt, breakpoint, overflow, bound_range_exceeded,
  invalid_opcode, device_not_available, double_fault, coprocessor_segment_overrun, invalid_tss,
  segment_not_present, stack_fault, general_protection, page_fault, exception, proc_switch, unknown,
}

-- `interrupt_frame_t`
pub record Frame : Type 0 where
  pub ip : ℕ
  pub cs : ℕ
  pub flags : ℕ
  pub sp : ℕ
  pub ss : ℕ

-- `error_code_page_t`, without its reserved bits.
pub record ErrorCodePage : Type 0 where
  pub violation : ℕ
  pub write : ℕ
  pub user_mode : ℕ
  pub reserved : ℕ
  pub instruction : ℕ
  pub protection : ℕ
  pub sgx : ℕ

unfoldable pub error_code_page : ℕ → ErrorCodePage
error_code_page raw = record {
  violation = bits raw 0 1;
  write = bits raw 1 1;
  user_mode = bits raw 2 1;
  reserved = bits raw 3 1;
  instruction = bits raw 4 1;
  protection = bits raw 5 1;
  sgx = bits raw 15 1;
}

-- A call of `printk`: the format string, and the arguments, which all are words.
pub record Message : Type 0 where
  pub format : List ℕ
  pub words : List ℕ

abbrev pub message : List ℕ → List ℕ → Message
message format words = record { format = format; words = words }

-- `int_handle_page_fault`
unfoldable pub page_fault_message : Cpu → Frame → ℕ → Message
page_fault_message c frame error_raw =
    let error = error_code_page error_raw in
    let cr2 = get_cr2 c in
    let user =
      message (codes "USER PAGE FAULT (%p): ip: %p, error: %p\n")
        (cr2 ∷ frame.ip ∷ error_raw ∷ []) in
    let absent =
      message (codes "SUPERVISOR PAGE ABSENT (%p): ip: %p, error: %p, sp: %p\n")
        (cr2 ∷ frame.ip ∷ error_raw ∷ get_sp c ∷ []) in
    let other =
      message (codes "UNKNOWN PAGE FAULT (%p): ip: %p, error: %p\n")
        (cr2 ∷ frame.ip ∷ error_raw ∷ []) in
    if error.user_mode == 0 then (if error.violation == 0 then absent else other) else user

-- The message of a handler; `int_handle_proc_switch` has none. `at` is the address of the frame.
unfoldable pub message_of : Cpu → ℕ → Frame → ℕ → Handler → Option Message
unfolding page_fault_message
message_of c at frame error exception = some (
    message (codes "EXC: IP: %p CS: %p FLAGS: %p ERROR: %u\n")
      (frame.ip ∷ frame.cs ∷ frame.flags ∷ error ∷ []))
message_of c at frame error divide_error =
    some (message (codes "Divide Error Exception: ip: %p") (frame.ip ∷ []))
message_of c at frame error debug =
    some (message (codes "Debug Exception: ip: %p\n") (frame.ip ∷ []))
message_of c at frame error nmi_interrupt =
    some (message (codes "NMI Interrupt: ip: %p\n") (frame.ip ∷ []))
message_of c at frame error breakpoint =
    some (message (codes "Breakpoint Exception: ip: %p\n") (frame.ip ∷ []))
message_of c at frame error overflow =
    some (message (codes "Overflow Exception: ip: %p\n") (frame.ip ∷ []))
message_of c at frame error bound_range_exceeded =
    some (message (codes "BOUND Range Exceeded Exception: ip: %p\n") (frame.ip ∷ []))
message_of c at frame error invalid_opcode =
    some (message (codes "Invalid Opcode Exception: ip: %p\n") (frame.ip ∷ []))
message_of c at frame error device_not_available =
    some (message (codes "Device Not Available Exception: ip: %p\n") (frame.ip ∷ []))
message_of c at frame error double_fault =
    some (message (codes "Double Fault Exception: ip: %p, error: %p\n") (frame.ip ∷ error ∷ []))
message_of c at frame error coprocessor_segment_overrun =
    some (message (codes "Coprocessor Segment Overrun: ip: %p\n") (frame.ip ∷ []))
message_of c at frame error invalid_tss =
    some (message (codes "Invalid TSS Exception: ip: %p, error: %p\n") (frame.ip ∷ error ∷ []))
message_of c at frame error segment_not_present =
    some (message (codes "Segment Not present: ip: %p, error: %p\n") (frame.ip ∷ error ∷ []))
message_of c at frame error stack_fault =
    some (message (codes "Stack Fault Exception: ip: %p, error: %p\n") (frame.ip ∷ error ∷ []))
message_of c at frame error general_protection =
    some
      (message (codes "General Protection Exception: ip: %p, error: %p\n") (frame.ip ∷ error ∷ []))
message_of c at frame error unknown = some (message (codes "UNKNOWN INTERRUPT! %p") (at ∷ []))
message_of c at frame error page_fault = some (page_fault_message c frame error)
message_of c at frame error proc_switch = none

-- A handler that prints: `wakes` says whether an interrupt ends its `halt`, after which it returns.
unfoldable pub int_handle : ℕ → Bool → Message → Run Printed
int_handle fuel wakes m = do out ← print fuel m.format (map word m.words); halt wakes (ok out)
