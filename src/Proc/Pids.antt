-- ===== src/Proc/Pids.antt =====
-- `proc_new_pid` finds the next PID that no process has.
use mathlib.Core.Path.{subst}
use trash_os.Base.{ℕ, zero, suc, ◌+◌, ◌^◌, ◌<◌, ◌≡◌, refl, sym, ap, ◌∙◌, arith, true, false, u16}
use trash_os.Base.Runs.{ok}
use trash_os.Proc.{proc_new_pid, new_pid_loop, proc_pid_taken}
use trash_os.Proc.Table.{Procs}

loop_finds :
    (d fuel p : ℕ) (s : Procs)
    → d < fuel
    → p < 2 ^ 16
    → ((i : ℕ) → i < d → proc_pid_taken (u16 (p + i)) s ≡ true)
    → proc_pid_taken (u16 (p + d)) s ≡ false
    → new_pid_loop fuel p s ≡ ok (u16 (p + d))
unfolding new_pid_loop
loop_finds d zero p s more small taken free = absurd (omega arith)
loop_finds zero (suc fuel) p s more small taken free =
    let at : u16 (p + 0) ≡ p = omega arith in
    let here : proc_pid_taken p s ≡ false = subst (λ q. proc_pid_taken q s ≡ false) at free in
    rw (here, at) refl
loop_finds (suc d) (suc fuel) p s more small taken free =
    let at : u16 (p + 0) ≡ p = omega arith in
    let here : proc_pid_taken p s ≡ true =
      subst (λ q. proc_pid_taken q s ≡ true) at (taken 0 (omega arith)) in
    let shift : (i : ℕ) → u16 (u16 (p + 1) + i) ≡ u16 (p + suc i) = λ i. omega arith in
    rw here (
      loop_finds d fuel (u16 (p + 1)) s (omega arith) (omega arith)
        (λ i h.
          subst (λ q. proc_pid_taken q s ≡ true) (sym (shift i)) (taken (suc i) (omega arith)))
        (subst (λ q. proc_pid_taken q s ≡ false) (sym (shift d)) free)
      ∙ ap ok (shift d))

-- When the `d` PIDs from `next_pid` on, counted with wrap-around, are taken and the one behind them
-- is not, `proc_new_pid` returns that one within `d + 1` rounds, and goes on behind it next time.
pub proc_new_pid-free :
    (d fuel : ℕ) (s : Procs)
    → d < fuel
    → s.next_pid < 2 ^ 16
    → ((i : ℕ) → i < d → proc_pid_taken (u16 (s.next_pid + i)) s ≡ true)
    → proc_pid_taken (u16 (s.next_pid + d)) s ≡ false
    → proc_new_pid fuel s
      ≡ ok (u16 (s.next_pid + d), record s { next_pid = u16 (s.next_pid + d + 1) })
unfolding proc_new_pid
proc_new_pid-free d fuel s more small taken free =
    let wrap : u16 (u16 (s.next_pid + d) + 1) ≡ u16 (s.next_pid + d + 1) = omega arith in
    rw (loop_finds d fuel s.next_pid s more small taken free, wrap) refl
