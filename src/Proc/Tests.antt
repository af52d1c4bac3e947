-- ===== src/Proc/Tests.antt =====
-- Runs of the scheduler.
use trash_os.Base.{
  List, ℕ, zero, suc, ne→==-false, ◌+◌, ◌<◌, ◌≡◌, refl, true, false, [], ◌∷◌, arith, u16,
}
use trash_os.Base.Runs.{ok}
use trash_os.Kernel.{Kernel, load, store}
use trash_os.Proc.{
  proc_queue_add, proc_register, proc_new_pid, queue_rotate, proc_mem_map, get_pid, proc_pid_taken,
}
use trash_os.Proc.Table.{Memory, ProcCtxt, Procs, is_taken}
use trash_os.Proc.Queue.{IsQueue, IsRotated, queue_rotate-IsRotated}
use trash_os.Proc.Ticks.{slices, ticks}
use trash_os.Proc.Plan.{IsTurn}
use trash_os.Proc.Rounds.{ticks-IsTurn, ticks_round}
use trash_os.Apic.{reg_at, idx, offset}
use trash_os.Proc.Spec.{Sched, tick, turn_over, Refines}
use trash_os.Proc.Refine.{handle_all, ticks_all, all_resumed, handle_all-Refines}
use trash_os.Proc.Append.{IsNewNode, proc_queue_add-IsQueue}
use trash_os.Proc.Pids.{proc_new_pid-free}
use trash_os.Proc.SampleCalls.{kernel_calls, Low, four_calls}
use trash_os.Proc.Joining.{Holds, Grown, joined}
use trash_os.Proc.Joined.{proc_register-IsTurn}
use trash_os.Proc.Samples.{
  Named-low, busy_table, memory, no_ctxt, plan, table, three_procs, three_procs-IsTurn, two_procs,
  two_procs-IsQueue,
}

queue_rotate-IsRotated_example : IsRotated 1024 (2048 ∷ []) (queue_rotate two_procs)
queue_rotate-IsRotated_example = queue_rotate-IsRotated 1024 (2048 ∷ []) two_procs two_procs-IsQueue

first_rotated : Kernel
first_rotated = (queue_rotate two_procs).kernel

next_pid : get_pid (queue_rotate two_procs).queue_start first_rotated ≡ 1
unfolding first_rotated queue_rotate get_pid load store
next_pid = refl

next_mapped :
    proc_mem_map 9
      (table (get_pid (queue_rotate two_procs).queue_start first_rotated)).page_tables
      first_rotated
    ≡ ok first_rotated
unfolding proc_mem_map
next_mapped = rw next_pid refl

first_taken : (i : ℕ) → i < 2 → proc_pid_taken (u16 (0 + i)) two_procs ≡ true
unfolding proc_pid_taken is_taken
first_taken zero h = refl
first_taken (suc zero) h = refl
first_taken (suc (suc n)) h = absurd (omega arith)

third_free : proc_pid_taken 2 two_procs ≡ false
unfolding proc_pid_taken is_taken
third_free = refl

proc_new_pid-free_example : proc_new_pid 5 two_procs ≡ ok (2, record two_procs { next_pid = 3 })
proc_new_pid-free_example =
    proc_new_pid-free 2 5 two_procs (omega arith) (omega arith) first_taken third_free

abbrev gives_4096 : Memory
gives_4096 = record {
  kmalloc = λ bytes k. ok (4096, k);
  kalloc = λ alignment bytes k. ok (8192, k);
  page_new = λ k. ok (65536, k);
}

node_at_4096 : IsNewNode 4096 1024 (2048 ∷ []) memory
node_at_4096 = record {
  unlisted = (omega arith, (omega arith, tt));
  pid_apart = (omega arith, (omega arith, tt));
  own_pid = omega arith;
  kept = (refl, (omega arith, tt), refl);
}

proc_queue_add-IsQueue_example :
    (s' : Procs) × (proc_queue_add gives_4096 7 two_procs ≡ ok s')
    × IsQueue 1024 (2048 ∷ 4096 ∷ []) s'
    × (get_pid 4096 s'.kernel ≡ 7)
proc_queue_add-IsQueue_example =
    proc_queue_add-IsQueue gives_4096 7 4096 1024 (2048 ∷ []) two_procs memory two_procs-IsQueue
      (omega arith) (omega arith) refl node_at_4096

ticks-IsTurn_example :
    (s' : Procs) × (ticks 9 13 three_procs ≡ ok s')
    × IsTurn plan 3072 (1024 ∷ 2048 ∷ []) s'
    × (slices s' ≡ 10)
ticks-IsTurn_example = ticks-IsTurn plan 1024 (2048 ∷ []) 3072 [] three_procs three_procs-IsTurn

ticks_round_example :
    (s' : Procs) × (ticks 9 23 three_procs ≡ ok s')
    × IsTurn plan 1024 (2048 ∷ 3072 ∷ []) s'
    × (slices s' ≡ 10)
ticks_round_example = ticks_round plan 1024 (2048 ∷ []) 3072 three_procs three_procs-IsTurn

-- The registers of the local APIC.
abbrev lapic : ℕ
lapic = 0x40000000

abbrev start_sched : Sched
start_sched = record { head = 1024; rest = 2048 ∷ 3072 ∷ []; left = 3; saved = λ q. no_ctxt }

three_procs-Refines : Refines plan lapic start_sched three_procs
unfolding reg_at idx offset
three_procs-Refines = record {
  turn = three_procs-IsTurn;
  left = refl;
  saved = λ q. same q;
  eoi_free = λ h. (let low = Named-low _ h in omega arith);
  eoi_apart = (omega arith, (omega arith, (omega arith, tt)));
}
  where
    same : (q : ℕ) → (busy_table q).ctxt ≡ no_ctxt
    same zero = refl
    same (suc zero) = refl
    same (suc (suc zero)) = refl
    same (suc (suc (suc n))) =
        let not_0 = ne→==-false (suc (suc (suc n))) 0 (omega arith) in
        let not_1 = ne→==-false (suc (suc (suc n))) 1 (omega arith) in
        let not_2 = ne→==-false (suc (suc (suc n))) 2 (omega arith) in rw (not_0, not_1, not_2) refl

abbrev at_eip : ℕ → ProcCtxt
at_eip eip = record no_ctxt { eip = eip }

-- Process 0 is interrupted three times, and then process 1 once.
abbrev frames : List ProcCtxt
frames = at_eip 10 ∷ at_eip 20 ∷ at_eip 30 ∷ at_eip 40 ∷ []

frames_resumed :
    all_resumed plan frames start_sched ≡ at_eip 10 ∷ at_eip 20 ∷ no_ctxt ∷ at_eip 40 ∷ []
unfolding tick turn_over
frames_resumed = refl

handle_all-Refines_example :
    (s' : Procs) × (handle_all 9 lapic frames three_procs
      ≡ ok (all_resumed plan frames start_sched, s'))
    × Refines plan lapic (ticks_all plan frames start_sched) s'
handle_all-Refines_example =
    handle_all-Refines plan lapic frames start_sched three_procs three_procs-Refines

three_procs-Holds : Holds Low plan 1024 (2048 ∷ 3072 ∷ []) three_procs
three_procs-Holds = record {
  fixed = λ a h. (let low = Named-low a h in omega arith);
  nodes = (omega arith, (omega arith, (omega arith, tt)));
  slots = λ i small. (omega arith, omega arith);
}

three_taken : (i : ℕ) → i < 3 → proc_pid_taken (u16 (0 + i)) three_procs ≡ true
unfolding proc_pid_taken is_taken
three_taken zero h = refl
three_taken (suc zero) h = refl
three_taken (suc (suc zero)) h = refl
three_taken (suc (suc (suc n))) h = absurd (omega arith)

fourth_free : proc_pid_taken 3 three_procs ≡ false
unfolding proc_pid_taken is_taken
fourth_free = refl

fourth_pid : proc_new_pid 9 three_procs ≡ ok (3, record three_procs { next_pid = 4 })
fourth_pid = proc_new_pid-free 3 9 three_procs (omega arith) (omega arith) three_taken fourth_free

proc_register-IsTurn_example :
    (s' : Procs) × (proc_register kernel_calls 9 0xc0000000 4096 7 three_procs ≡ ok (3, s'))
    × IsTurn (joined plan 3 7 24584 24608) 1024 (2048 ∷ 3072 ∷ 24608 ∷ []) s'
    × Holds
        (Grown Low 20480 24584 24608)
        (joined plan 3 7 24584 24608)
        1024
        (2048 ∷ 3072 ∷ 24608 ∷ [])
        s'
proc_register-IsTurn_example =
    proc_register-IsTurn kernel_calls Low plan 1024 (2048 ∷ 3072 ∷ []) three_procs 9 0xc0000000 4096
      7 3 4 four_calls three_procs-IsTurn three_procs-Holds (omega arith)
      (
        three_taken 0 (omega arith),
        (three_taken 1 (omega arith), (three_taken 2 (omega arith), tt)),
      )
      fourth_pid fourth_free (omega arith) refl (omega arith) (omega arith) (omega arith)
