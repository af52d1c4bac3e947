-- ===== src/Int/Tests.antt =====
-- A table whose handlers lie one behind the other.
use trash_os.Base.{
  bits, ℕ, ◌<◌, ◌≤◌, ◌≡◌, refl, arith, List, [], ◌∷◌, ◌++◌, map, codes, some, false,
}
use trash_os.Base.Runs.{ok, halted}
use trash_os.Cpu.{Cpu, get_cr2}
use trash_os.Print.{print}
use trash_os.Print.Numbers.{Printed}
use trash_os.Print.Directive.{word}
use trash_os.Int.Handlers.{Frame, Message, message, message_of, int_handle, error_code_page}
use trash_os.Int.Messages.{int_handle_lem, title}
use trash_os.Int.{Handler, IdtDescriptor, int_init, idt_descriptor, handler_of}
use trash_os.Int.Vectors.{IsGate}
use trash_os.Int.Start.{int_init-IsGate}

abbrev address : Handler → ℕ
address h = 0xe0001000

abbrev empty : ℕ → IdtDescriptor
empty i = idt_descriptor 0 0 0 0

abbrev no_cpu : Cpu
no_cpu = record {
  cr0 = 0;
  cr2 = 0;
  cr3 = 0;
  cr4 = 0;
  cs = 0;
  ds = 0;
  es = 0;
  fs = 0;
  gs = 0;
  ss = 0;
  tr = 0;
  esp = 0;
  eflags = 0;
  gdtr = 0;
  idtr = 0;
  ports = [];
}

abbrev frame : Frame
frame = record { ip = 0xc0100123; cs = 8; flags = 514; sp = 0; ss = 0 }

abbrev protection : Message
protection =
    message (codes "General Protection Exception: ip: %p, error: %p\n") (0xc0100123 ∷ 16 ∷ [])

int_handle_lem_example :
    (out : Printed) × (print 11 protection.format (map word protection.words) ≡ ok out)
    × (int_handle 11 false protection ≡ halted)
    × (rest : List ℕ) × (out.chars ≡ title false protection.format ++ rest)
int_handle_lem_example =
    int_handle_lem 11 false no_cpu 0xc0200000 frame 16 Handler.general_protection protection
      (omega arith) (unfold message_of in refl)

-- A page fault of a user process.
page_fault_user :
    message_of (record no_cpu { cr2 = 64 }) 0 frame 5 Handler.page_fault
    ≡ some (message (codes "USER PAGE FAULT (%p): ip: %p, error: %p\n") (64 ∷ 0xc0100123 ∷ 5 ∷ []))
unfolding message_of error_code_page get_cr2
page_fault_user = refl

int_init-IsGate_example :
    let (table, c') = int_init address 0xc0300000 (empty, no_cpu) in
    ((i : ℕ) → i < 256 → IsGate (address (handler_of i)) (table i))
    × ((q : ℕ) → 256 ≤ q → table q ≡ empty q)
    × (bits c'.idtr 16 32 ≡ 0xc0300000)
    × (bits c'.idtr 0 16 ≡ 2047)
int_init-IsGate_example =
    int_init-IsGate address 0xc0300000 empty no_cpu (λ h. omega arith) (omega arith)
