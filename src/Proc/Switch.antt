-- ===== src/Proc/Switch.antt =====
-- The switch to the next process, when the time of the current one is over.
use mathlib.Core.Path.{subst}
use trash_os.Base.{
  ℕ, suc, ◌≡◌, ◌≢◌, refl, sym, ap, ◌∙◌, update, ◌==◌, false, Bool-cases, inl, inr, eq→==, ==→eq,
  ne→==-false,
}
use trash_os.Base.Runs.{ok}
use trash_os.Kernel.{Kernel}
use trash_os.Proc.{proc_switch, set_row, queue_rotate, proc_mem_map, proc_mem_unmap, get_pid}
use trash_os.Proc.Table.{Proc, Procs, State, active, running}
use trash_os.Proc.Ticks.{IsRunning, update_self}

unfoldable pub with_state : State → Proc → Proc
with_state st row = record row { state = st }

unfoldable pub with_priority : Proc → Proc
with_priority row = record row { exec_count = row.priority }

-- The process table while no process is RUNNING.
unfoldable pub paused : Procs → ℕ → Proc
unfolding with_state with_priority
paused s =
    let old = s.current in
    let t = update s.proc_table old (with_priority (s.proc_table old)) in
    update t old (with_state active (t old))

pub paused-own :
    (s : Procs) → paused s s.current ≡ with_state active (with_priority (s.proc_table s.current))
unfolding paused
paused-own s =
    let old = s.current in
    let t = update s.proc_table old (with_priority (s.proc_table old)) in
    update_self t old (with_state active (t old))
    ∙ ap (with_state active) (update_self s.proc_table old (with_priority (s.proc_table old)))

pub paused-other : (s : Procs) (q : ℕ) → (q == s.current) ≡ false → paused s q ≡ s.proc_table q
unfolding paused
paused-other s q e = rw e refl

pub paused-page_tables :
    (s : Procs) (q : ℕ) → (paused s q).page_tables ≡ (s.proc_table q).page_tables
unfolding with_state with_priority
paused-page_tables s q = elim (Bool-cases (q == s.current)) [
  | inl t ↦
      subst (λ x. (paused s x).page_tables ≡ (s.proc_table x).page_tables)
        (sym (==→eq q s.current t)) (ap (λ (r : Proc). r.page_tables) (paused-own s))
  | inr e ↦ ap (λ (r : Proc). r.page_tables) (paused-other s q e)
]

active-else : active ≢ running
active-else = cc

pub false-apart : (q p : ℕ) → (q == p) ≡ false → q ≢ p
false-apart q p e same = let t = eq→== q p same in cc

pub paused-state : (s : Procs) → IsRunning s → (q : ℕ) → (paused s q).state ≢ running
unfolding with_state with_priority
paused-state s is q = elim (Bool-cases (q == s.current)) [
  | inl t ↦
      subst (λ x. (paused s x).state ≢ running) (sym (==→eq q s.current t))
        (λ h. active-else (sym (ap (λ (r : Proc). r.state) (paused-own s)) ∙ h))
  | inr e ↦ λ h.
      is.1 q (false-apart q s.current e) (sym (ap (λ (r : Proc). r.state) (paused-other s q e)) ∙ h)
]

pub paused-exec_count :
    (s : Procs) → (paused s s.current).exec_count ≡ (s.proc_table s.current).priority
unfolding with_state with_priority
paused-exec_count s = ap (λ (r : Proc). r.exec_count) (paused-own s)

-- `proc_switch` once the walks over the page tables returned.
pub switched :
    (fuel : ℕ) (s : Procs) (k k' : Kernel)
    → proc_mem_unmap fuel (s.proc_table s.current).page_tables (queue_rotate s).kernel ≡ ok k
    → proc_mem_map fuel (s.proc_table (get_pid (queue_rotate s).queue_start k)).page_tables k
      ≡ ok k'
    → let pid = get_pid (queue_rotate s).queue_start k in
      proc_switch fuel s
      ≡ ok (record (queue_rotate s) {
        kernel = k';
        proc_table = update (paused s) pid (with_state running (paused s pid));
        current = pid;
        tlb_flushes = suc s.tlb_flushes;
      })
unfolding proc_switch set_row queue_rotate with_state with_priority paused
switched fuel s k k' unmapped mapped =
    let own = paused-page_tables s s.current in
    let next = paused-page_tables s (get_pid (queue_rotate s).queue_start k) in
    rw (own, unmapped, next, mapped) refl

-- A table in which process `p` is set to RUNNING.
module _ (f : ℕ → Proc) (p : ℕ) where
  unfoldable pub started : ℕ → Proc
  started = update f p (with_state running (f p))

  pub started-own : started p ≡ with_state running (f p)
  unfolding started
  started-own = update_self f p (with_state running (f p))

  pub started-state : (started p).state ≡ running
  unfolding with_state
  started-state = ap (λ (r : Proc). r.state) started-own

  pub started-other : (q : ℕ) → q ≢ p → started q ≡ f q
  unfolding started
  started-other q h = rw (ne→==-false q p h) refl

  pub started-exec_count : (q : ℕ) → (started q).exec_count ≡ (f q).exec_count
  unfolding with_state
  started-exec_count q = elim (Bool-cases (q == p)) [
    | inl t ↦
        subst (λ x. (started x).exec_count ≡ (f x).exec_count) (sym (==→eq q p t))
          (ap (λ (r : Proc). r.exec_count) started-own)
    | inr e ↦ ap (λ (r : Proc). r.exec_count) (started-other q (false-apart q p e))
  ]

-- The process that is started alone is RUNNING.
pub started-alone :
    (s : Procs) (p : ℕ)
    → IsRunning s
    → ((started (paused s) p p).state ≡ running)
      × ((q : ℕ) → q ≢ p → (started (paused s) p q).state ≢ running)
started-alone s p is = (
  started-state (paused s) p,
  λ q h on.
      paused-state s is q (sym (ap (λ (r : Proc). r.state) (started-other (paused s) p q h)) ∙ on),
)

-- Where the current process alone is RUNNING, and the walks over the page tables of the old and of
-- the next process return, `proc_switch` returns: the process at the front of the rotated queue is
-- current and alone RUNNING, and the slices of the old process are its priority again.
pub proc_switch-IsRunning :
    (fuel : ℕ) (s : Procs) (k k' : Kernel)
    → IsRunning s
    → proc_mem_unmap fuel (s.proc_table s.current).page_tables (queue_rotate s).kernel ≡ ok k
    → proc_mem_map fuel (s.proc_table (get_pid (queue_rotate s).queue_start k)).page_tables k
      ≡ ok k'
    → (s' : Procs) × (proc_switch fuel s ≡ ok s')
      × (s'.current ≡ get_pid (queue_rotate s).queue_start k)
      × IsRunning s'
      × ((s'.proc_table s.current).exec_count ≡ (s.proc_table s.current).priority)
unfolding started
proc_switch-IsRunning fuel s k k' is unmapped mapped =
    let pid = get_pid (queue_rotate s).queue_start k in
    let t = update (paused s) pid (with_state running (paused s pid)) in
    let s' = record (queue_rotate s) {
      kernel = k';
      proc_table = t;
      current = pid;
      tlb_flushes = suc s.tlb_flushes;
    } in
    (
      s',
      switched fuel s k k' unmapped mapped,
      refl,
      started-alone s pid is,
      started-exec_count (paused s) pid s.current ∙ paused-exec_count s,
    )
