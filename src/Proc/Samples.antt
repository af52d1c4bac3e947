-- ===== src/Proc/Samples.antt =====
-- States of the scheduler with two and with three processes.
use trash_os.Base.{
  ℕ, zero, suc, ◌⊎◌, inl, inr, ◌≢◌, ne→==-false, ◌<◌, ◌≡◌, refl, [], ◌∷◌, ◌==◌, if◌then◌else◌,
  arith,
}
use trash_os.Kernel.{Kernel, load}
use trash_os.Proc.{get_pid}
use trash_os.Proc.Table.{State, active, running, dead, ProcCtxt, Proc, Procs}
use trash_os.Proc.Queue.{IsQueue}
use trash_os.Proc.Ticks.{IsRunning}
use trash_os.Proc.Walk.{IsApart}
use trash_os.Proc.Plan.{Plan, IsRow, IsNode, IsTurn}

-- The queue nodes lie at 1024 and 2048, for the processes 0 and 1.
abbrev pub words : ℕ → ℕ
words a = if a == 1024 then 2048 else if a == 2052 then 1 else 0

abbrev pub memory : Kernel
memory = record {
  mem = words;
  ctxt = record { free_list = 0; start = 20472; limit = 20480 };
  page_dir = 4096;
  page_table_lookup = 8192;
  page_free_list = 0;
  kernel_heap_end_pma = 65536;
  kernel_heap_end_vma = 65536;
  flushed = [];
}

abbrev pub no_ctxt : ProcCtxt
no_ctxt = record {
  ds = 0;
  es = 0;
  fs = 0;
  gs = 0;
  eax = 0;
  ecx = 0;
  edx = 0;
  ebx = 0;
  ebp = 0;
  esi = 0;
  edi = 0;
  eip = 0;
  cs = 0;
  eflags = 0;
  esp = 0;
  ss = 0;
}

abbrev pub row : State → Proc
row st = record {
  inode_id = 0;
  start_time = 0;
  page_tables = 0;
  state = st;
  ctxt = no_ctxt;
  exec_count = 3;
  priority = 10;
  ppid = 0;
}

abbrev pub table : ℕ → Proc
table pid = if pid == 0 then row running else if pid == 1 then row active else row dead

abbrev pub two_procs : Procs
two_procs = record {
  kernel = memory;
  proc_table = table;
  proc_num = 1;
  current = 0;
  next_pid = 0;
  queue_start = 1024;
  queue_end = 2048;
  tss_esp0 = 0;
  tlb_flushes = 0;
}

pub two_procs-IsQueue : IsQueue 1024 (2048 ∷ []) two_procs
two_procs-IsQueue = record { start = refl; end_ = refl; chain = (refl, (omega arith, tt), refl) }

pub two_procs-IsRunning : IsRunning two_procs
two_procs-IsRunning = (refl, table_other)
  where
    table_other : (pid : ℕ) → pid ≢ 0 → (table pid).state ≢ running
    table_other zero h on = h refl
    table_other (suc zero) h on = cc
    table_other (suc (suc n)) h on =
        let not_0 = ne→==-false (suc (suc n)) 0 (omega arith) in
        let not_1 = ne→==-false (suc (suc n)) 1 (omega arith) in
        let state : dead ≡ running = rw (not_0, not_1) at on in cc

-- The queue nodes 1024, 2048 and 3072 of the processes 0, 1 and 2; process 1 has a page table, whose
-- node is at 3584, for element 5 of the directory.
abbrev pub busy_words : ℕ → ℕ
busy_words a =
    if a == 1024
    then 2048
    else if a == 2048
    then 3072
    else if a == 2052
    then 1
    else if a == 3076
    then 2
    else if a == 3588
    then 5
    else if a == 3592
    then 20480
    else if a == 3596
    then 20487
    else if a == 8192
    then 12288
    else 0

abbrev pub busy_table : ℕ → Proc
busy_table pid =
    if pid == 0
    then record (row running) { exec_count = 3 }
    else if pid == 1
    then record (row active) { page_tables = 3584; exec_count = 10 }
    else if pid == 2
    then record (row active) { exec_count = 10 }
    else row dead

abbrev pub three_procs : Procs
three_procs = record two_procs {
  kernel = record memory { mem = busy_words };
  proc_table = busy_table;
  queue_end = 3072;
}

abbrev pub Named : ℕ → Type 0
Named a = (a ≡ 1028) ⊎ (a ≡ 2052) ⊎ (a ≡ 3076) ⊎ (a ≡ 3584) ⊎ (a ≡ 3588)

abbrev pub plan : Plan
plan = record {
  fuel = 9;
  Fixed = Named;
  pid = λ m. if m == 1024 then 0 else if m == 2048 then 1 else 2;
  priority = λ m. 10;
}

pub low-IsApart : (a : ℕ) → a < 4096 → IsApart three_procs.kernel a
low-IsApart a low i small = (omega arith, omega arith)

pub Named-low : (a : ℕ) → Named a → a < 4096
Named-low a h = ground arith

pub three_procs-IsRunning : IsRunning three_procs
three_procs-IsRunning = (refl, busy_other)
  where
    busy_other : (pid : ℕ) → pid ≢ 0 → (busy_table pid).state ≢ running
    busy_other zero h on = h refl
    busy_other (suc zero) h on = cc
    busy_other (suc (suc zero)) h on = cc
    busy_other (suc (suc (suc n))) h on =
        let not_0 = ne→==-false (suc (suc (suc n))) 0 (omega arith) in
        let not_1 = ne→==-false (suc (suc (suc n))) 1 (omega arith) in
        let not_2 = ne→==-false (suc (suc (suc n))) 2 (omega arith) in
        let state : dead ≡ running = rw (not_0, not_1, not_2) at on in cc

pub plain_row :
    (m pid : ℕ)
    → (busy_table pid).page_tables ≡ 0
    → (busy_table pid).priority ≡ 10
    → IsRow plan three_procs.kernel m (busy_table pid)
plain_row m pid none_listed ten = record {
  tables = [];
  listed = none_listed;
  bounded = omega arith;
  rate = ten;
  some_rate = omega arith;
  word = omega arith;
}

pub paged_row : IsRow plan three_procs.kernel 2048 (busy_table 1)
unfolding load
paged_row = record {
  tables = 3584 ∷ [];
  listed = (
    refl,
    omega arith,
    inr (inr (inr (inl refl))),
    inr (inr (inr (inr refl))),
    omega arith,
    refl,
  );
  bounded = omega arith;
  rate = refl;
  some_rate = omega arith;
  word = omega arith;
}

pub first-IsNode : IsNode plan three_procs 1024
unfolding get_pid load
first-IsNode = record {
  apart = low-IsApart 1024 (omega arith);
  changing = λ h. ground arith;
  fixed = inl refl;
  pid = refl;
  row = plain_row 1024 0 refl refl;
}

pub second-IsNode : IsNode plan three_procs 2048
unfolding get_pid load
second-IsNode = record {
  apart = low-IsApart 2048 (omega arith);
  changing = λ h. ground arith;
  fixed = inr (inl refl);
  pid = refl;
  row = paged_row;
}

pub third-IsNode : IsNode plan three_procs 3072
unfolding get_pid load
third-IsNode = record {
  apart = low-IsApart 3072 (omega arith);
  changing = λ h. ground arith;
  fixed = inr (inr (inl refl));
  pid = refl;
  row = plain_row 3072 2 refl refl;
}

pub three_procs-IsTurn : IsTurn plan 1024 (2048 ∷ 3072 ∷ []) three_procs
three_procs-IsTurn = record {
  queue = record {
    start = refl;
    end_ = refl;
    chain = (refl, (omega arith, (omega arith, tt)), (refl, (omega arith, tt), refl));
  };
  nodes = (first-IsNode, (second-IsNode, (third-IsNode, tt)));
  fixed_apart = λ a h. low-IsApart a (Named-low a h);
  current = refl;
  alone = three_procs-IsRunning;
  some_left = omega arith;
  word = omega arith;
  rested = (λ h. refl, (λ h. refl, tt));
}
