-- ===== src/Proc/Table.antt =====
-- proc.h: the process table, and the state of proc.c.
use trash_os.Base.{ℕ, Bool, true, false}
use trash_os.Base.Runs.{Run}
use trash_os.Kernel.{Kernel}

-- `proc_state_t`
pub data State : Type 0 where
  dead : State
  sleeping : State
  active : State
  running : State

-- `(bool)state`
unfoldable pub is_taken : State → Bool
is_taken dead = false
is_taken sleeping = true
is_taken active = true
is_taken running = true

-- `proc_ctxt_t`
pub record ProcCtxt : Type 0 where
  pub ds : ℕ
  pub es : ℕ
  pub fs : ℕ
  pub gs : ℕ
  pub eax : ℕ
  pub ecx : ℕ
  pub edx : ℕ
  pub ebx : ℕ
  pub ebp : ℕ
  pub esi : ℕ
  pub edi : ℕ
  pub eip : ℕ
  pub cs : ℕ
  pub eflags : ℕ
  pub esp : ℕ
  pub ss : ℕ

-- `proc_t`; `page_tables` is the address of the first page table node.
pub record Proc : Type 0 where
  pub inode_id : ℕ
  pub start_time : ℕ
  pub page_tables : ℕ
  pub state : State
  pub ctxt : ProcCtxt
  pub exec_count : ℕ
  pub priority : ℕ
  pub ppid : ℕ

-- The globals of proc.c. The process table is a function from the PID, apart from the memory of the
-- kernel; `current` is `PID`, `next_pid` the static variable of `proc_new_pid`, and `tlb_flushes`
-- counts the reloads of CR3.
pub record Procs : Type 0 where
  pub kernel : Kernel
  pub proc_table : ℕ → Proc
  pub proc_num : ℕ
  pub current : ℕ
  pub next_pid : ℕ
  pub queue_start : ℕ
  pub queue_end : ℕ
  pub tss_esp0 : ℕ
  pub tlb_flushes : ℕ

-- The functions of alloc.c and page.c that proc.c calls; Proc.KernelMemory has those of the model.
pub record Memory : Type 0 where
  pub kmalloc : ℕ → Kernel → Run (ℕ × Kernel)
  pub kalloc : ℕ → ℕ → Kernel → Run (ℕ × Kernel)
  pub page_new : Kernel → Run (ℕ × Kernel)

-- `sizeof(proc_t)`: 94 bytes of fields, padded to a multiple of 4.
abbrev pub proc_bytes : ℕ
proc_bytes = 96
