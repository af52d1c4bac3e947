-- ===== src/Proc/Spec.antt =====
-- What the scheduler promises: round robin among the queue, and contexts kept apart.
use trash_os.Base.{ℕ, ◌-◌, ◌≡◌, ◌≢◌, List, [], ◌∷◌, ◌++◌, All, update, ◌==◌, if◌then◌else◌}
use trash_os.Apic.{eoi, reg_at}
use trash_os.Proc.Table.{ProcCtxt, Procs}
use trash_os.Proc.Ticks.{slices}
use trash_os.Proc.Plan.{Plan, IsTurn}

-- The queue `head ∷ rest`, whose first process runs and has `left` slices, and the context with
-- which each process goes on.
pub record Sched : Type 0 where
  pub head : ℕ
  pub rest : List ℕ
  pub left : ℕ
  pub saved : ℕ → ProcCtxt

-- The next process has its turn.
unfoldable pub turn_over : Plan → ℕ → List ℕ → (ℕ → ProcCtxt) → Sched
turn_over p n [] saved = record { head = n; rest = []; left = p.priority n; saved = saved }
turn_over p n (m ∷ ms) saved = record {
  head = m;
  rest = ms ++ n ∷ [];
  left = p.priority m;
  saved = saved;
}

-- A timer interrupt, at which the current process has the context `frame`.
unfoldable pub tick : Plan → ProcCtxt → Sched → Sched
tick p frame a =
    let saved = update a.saved (p.pid a.head) frame in
    if a.left == 1
    then turn_over p a.head a.rest saved
    else record { head = a.head; rest = a.rest; left = a.left - 1; saved = saved }

-- The context that the current process goes on with.
abbrev pub resumed : Plan → Sched → ProcCtxt
resumed p a = a.saved (p.pid a.head)

-- The state of proc.c is that of the abstract scheduler, and the APIC's register for the end of an
-- interrupt, with `lapic_reg` for its page, is no word that the scheduler needs.
pub record Refines (p : Plan) (lapic_reg : ℕ) (a : Sched) (s : Procs) : Type 0 where
  pub turn : IsTurn p a.head a.rest s
  pub left : slices s ≡ a.left
  pub saved : (q : ℕ) → (s.proc_table q).ctxt ≡ a.saved q
  pub eoi_free : ¬ p.Fixed (reg_at lapic_reg eoi)
  pub eoi_apart : All (λ m. m ≢ reg_at lapic_reg eoi) (a.head ∷ a.rest)
