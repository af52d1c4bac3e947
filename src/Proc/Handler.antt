-- ===== src/Proc/Handler.antt =====
-- kernel/arch/i386/int_asm.s: the handler of the timer interrupt. The context that it lays out on
-- the stack, from the general registers and the frame that the processor pushed, is its argument;
-- the four segment registers are of 16 bits.
use trash_os.Base.{ℕ}
use trash_os.Base.Runs.{Run, ok, ◌>>=◌}
use trash_os.Apic.{lapic_send_eoi}
use trash_os.Proc.{proc_store_ctxt, proc_next, proc_load_ctxt, set_kernel}
use trash_os.Proc.Table.{ProcCtxt, Procs}

-- `lapic_reg` is where the registers of the local APIC are. The context returned is the one that is
-- loaded into the registers, and into the frame that `iret` pops.
unfoldable pub int_handle_proc_switch : ℕ → ℕ → ProcCtxt → Procs → Run (ProcCtxt × Procs)
int_handle_proc_switch fuel lapic_reg frame s = do
  s' ← proc_next fuel (proc_store_ctxt frame s)
  ok (proc_load_ctxt s', set_kernel (lapic_send_eoi lapic_reg s'.kernel) s')
