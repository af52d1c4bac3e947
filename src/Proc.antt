-- ===== src/Proc.antt =====
-- kernel/arch/i386/proc.c and proc.h: the process table and the round-robin scheduling queue.
mod Tests
mod Samples
mod SampleCalls
pub mod Table
pub mod Queue
pub mod Append
pub mod Ticks
pub mod Switch
pub mod Pids
pub mod Walk
pub mod Turn
pub mod Plan
pub mod Rounds
pub mod Blocks
pub mod Calls
pub mod KernelMemory
pub mod Tabled
pub mod Register
pub mod Joining
pub mod NewWords
pub mod NewNode
pub mod Joined
pub mod Advance
pub mod Handler
pub mod Spec
pub mod Next
pub mod Refine
use trash_os.Base.{
  ℕ, zero, suc, ◌+◌, ◌-◌, ◌*◌, ◌/◌, ◌%◌, ◌^◌, Bool, bit_and, bit_or, ◌==◌, if◌then◌else◌, u16, u32,
  sub32, ◌>>>◌, update, not,
}
use trash_os.Base.Runs.{Run, ok, out_of_fuel, ◌>>=◌}
use trash_os.Kernel.{Kernel, load, store}
use trash_os.Page.{
  page_size, page_present, page_write, page_public, page_get_pma, page_set_dir_entry, word_at,
}
use trash_os.Gdt.{gdt_sel_code_pl3, gdt_sel_data_pl3}
use trash_os.Proc.Table.{State, dead, active, running, ProcCtxt, Proc, Procs, Memory}

-- The row of `proc_table` for a process, changed.
unfoldable pub set_row : ℕ → Proc → Procs → Procs
set_row pid row s = record s { proc_table = update s.proc_table pid row }

abbrev pub set_kernel : Kernel → Procs → Procs
set_kernel k s = record s { kernel = k }

-- The field `next` of a queue node and of a page table node is its first word.
abbrev pub node_next : ℕ → ℕ
node_next n = n

-- `n->pid` is the low half of the second word.
unfoldable pub get_pid : ℕ → Kernel → ℕ
get_pid n k = u16 (load (u32 (n + 4)) k)

unfoldable pub set_pid : ℕ → ℕ → Kernel → Kernel
set_pid n pid k = let a = u32 (n + 4) in store a (load a k / 2 ^ 16 * 2 ^ 16 + pid) k

unfoldable pub proc_store_ctxt : ProcCtxt → Procs → Procs
proc_store_ctxt ctxt s = set_row s.current (record (s.proc_table s.current) { ctxt = ctxt }) s

unfoldable pub proc_load_ctxt : Procs → ProcCtxt
proc_load_ctxt s = (s.proc_table s.current).ctxt

-- The loops of `proc_mem_map` and of `proc_mem_unmap`, from node `n`.
unfoldable pub proc_mem_map : ℕ → ℕ → Kernel → Run Kernel
proc_mem_map zero n k = out_of_fuel
proc_mem_map (suc fuel) n k =
    let k' =
      page_set_dir_entry (load (u32 (n + 4)) k) (load (u32 (n + 8)) k) (load (u32 (n + 12)) k) k in
    let rest = proc_mem_map fuel (load (node_next n) k') k' in if n == 0 then ok k else rest

unfoldable pub proc_mem_unmap : ℕ → ℕ → Kernel → Run Kernel
proc_mem_unmap zero n k = out_of_fuel
proc_mem_unmap (suc fuel) n k =
    let k' = page_set_dir_entry (load (u32 (n + 4)) k) 0 0 k in
    let rest = proc_mem_unmap fuel (load (node_next n) k') k' in if n == 0 then ok k else rest

-- The first process of the queue goes behind the last one.
unfoldable pub queue_rotate : Procs → Procs
queue_rotate s =
    let k₁ = store (node_next s.queue_end) s.queue_start s.kernel in
    let new_end = s.queue_start in
    let new_start = load (node_next new_end) k₁ in
    record s {
      kernel = store (node_next new_end) 0 k₁;
      queue_start = new_start;
      queue_end = new_end;
    }

-- `proc_next` where the time of the current process is over.
unfoldable pub proc_switch : ℕ → Procs → Run Procs
proc_switch fuel s = do
  let old = s.current
  let s₁ = set_row old (record (s.proc_table old) { exec_count = (s.proc_table old).priority }) s
  let s₂ = queue_rotate s₁
  let s₃ = set_row old (record (s₂.proc_table old) { state = active }) s₂
  k ← proc_mem_unmap fuel (s₃.proc_table old).page_tables s₃.kernel
  let pid = get_pid s₃.queue_start k
  let s₄ = record s₃ { kernel = k; current = pid }
  k' ← proc_mem_map fuel (s₄.proc_table pid).page_tables k
  let s₅ = record s₄ { kernel = k'; tlb_flushes = suc s₄.tlb_flushes }
  ok (set_row pid (record (s₅.proc_table pid) { state = running }) s₅)

unfoldable pub proc_next : ℕ → Procs → Run Procs
proc_next fuel s =
    let row = s.proc_table s.current in
    let count = u16 (row.exec_count + (2 ^ 16 - 1)) in
    let s' = set_row s.current (record row { exec_count = count }) s in
    if count == 0 then proc_switch fuel s' else ok s'

unfoldable pub proc_pid_taken : ℕ → Procs → Bool
proc_pid_taken pid s = Table.is_taken (s.proc_table pid).state

-- The loop of `proc_new_pid`, and the PID it stops at.
unfoldable pub new_pid_loop : ℕ → ℕ → Procs → Run ℕ
new_pid_loop zero pid s = out_of_fuel
new_pid_loop (suc fuel) pid s =
    let rest = new_pid_loop fuel (u16 (pid + 1)) s in if proc_pid_taken pid s then rest else ok pid

unfoldable pub proc_new_pid : ℕ → Procs → Run (ℕ × Procs)
proc_new_pid fuel s = do
  pid ← new_pid_loop fuel s.next_pid s
  ok (pid, record s { next_pid = u16 (pid + 1) })

-- What the process code takes from the allocator: `kmalloc`, `kalloc` with PAGE_GET_DEFAULT, and
-- PAGE_GET_DEFAULT itself.
module _ (memory : Memory) where
  unfoldable pub proc_page_table_register : ℕ → ℕ → ℕ → ℕ → Procs → Run Procs
  proc_page_table_register pid table_vma space_vma flags s = do
    (node, k) ← memory.kmalloc 16 s.kernel
    let row = s.proc_table pid
    let k₁ = store (node_next node) row.page_tables k
    let k₂ = store (u32 (node + 4)) (space_vma >>> 22) k₁
    let k₃ = store (u32 (node + 12)) (bit_or (page_get_pma table_vma k) flags) k₂
    let k₄ = store (u32 (node + 8)) table_vma k₃
    ok (set_kernel k₄ (set_row pid (record row { page_tables = node }) s))

  unfoldable pub proc_page_register : ℕ → ℕ → ℕ → Kernel → Kernel
  proc_page_register table_vma vma entry k =
      store (word_at table_vma (bit_and (vma >>> 12) 0x3ff)) entry k

  unfoldable pub proc_queue_add : ℕ → Procs → Run Procs
  proc_queue_add pid s = do
    (node, k) ← memory.kmalloc 8 s.kernel
    let k₁ = if s.queue_end == 0 then k else store (node_next s.queue_end) node k
    let start = if s.queue_end == 0 then node else s.queue_start
    ok (record s {
      kernel = store (node_next node) 0 (set_pid node pid k₁);
      queue_start = start;
      queue_end = node;
      proc_num = u16 (s.proc_num + 1);
    })

  -- The context and the counters that `proc_register` gives a process.
  abbrev pub fresh_row : ℕ → ℕ → ℕ → Proc → Proc
  fresh_row kernel_start entry_point priority row = record row {
    ctxt = record (row.ctxt) {
      eip = entry_point;
      ss = gdt_sel_data_pl3;
      gs = gdt_sel_data_pl3;
      fs = gdt_sel_data_pl3;
      es = gdt_sel_data_pl3;
      ds = gdt_sel_data_pl3;
      cs = gdt_sel_code_pl3;
      esp = kernel_start;
      eflags = 0x3202;
    };
    state = active;
    exec_count = priority;
    priority = priority;
  }

  -- `kernel_start` is KERNEL_START_VMA, which the linker sets.
  unfoldable pub proc_register : ℕ → ℕ → ℕ → ℕ → Procs → Run (ℕ × Procs)
  proc_register fuel kernel_start entry_point priority s = do
    (pid, s₁) ← proc_new_pid fuel s
    let s₂ = set_row pid (fresh_row kernel_start entry_point priority (s₁.proc_table pid)) s₁
    (table, k) ← memory.kalloc page_size page_size s₂.kernel
    let stack_page_vma = sub32 (s₂.proc_table pid).ctxt.esp page_size
    let user_data_flags = bit_or (bit_or page_public page_write) page_present
    s₃ ← proc_page_table_register pid table stack_page_vma user_data_flags (set_kernel k s₂)
    (page, k') ← memory.page_new s₃.kernel
    let s₄ =
        set_kernel (proc_page_register table stack_page_vma (bit_or page user_data_flags) k') s₃
    s₅ ← proc_queue_add pid s₄
    ok (pid, s₅)

  -- `table` is the memory of the process table, which the code does not clear, and `proc1`, `proc2`
  -- and `proc3` are the addresses of the test processes.
  unfoldable pub proc_init : ℕ → ℕ → ℕ → ℕ → ℕ → Procs → Run Procs
  proc_init fuel kernel_start proc1 proc2 proc3 s = do
    (table, k) ← memory.kmalloc (2 ^ 16 * Table.proc_bytes) s.kernel
    (stack_page, k') ← memory.kalloc page_size page_size k
    let s₁ = record s {
      kernel = k';
      queue_start = 0;
      queue_end = 0;
      tss_esp0 = u32 (stack_page + page_size);
    }
    let row = s₁.proc_table 0
    let s₂ = set_row 0 (record row { ppid = 0; state = running; exec_count = 1; priority = 10 }) s₁
    s₃ ← proc_queue_add 0 s₂
    let s₄ = record s₃ { proc_num = u16 (s₃.proc_num + (2 ^ 16 - 1)) }
    (pid₁, s₅) ← proc_register fuel kernel_start proc1 30 s₄
    (pid₂, s₆) ← proc_register fuel kernel_start proc2 10 s₅
    (pid₃, s₇) ← proc_register fuel kernel_start proc3 10 s₆
    ok s₇
