-- ===== src/Proc/Next.antt =====
-- One call of `proc_next` against the abstract scheduler, and what else the handler writes.
use mathlib.Core.Path.{subst}
use trash_os.Base.{
  ℕ, ◌-◌, ◌^◌, ◌<◌, ◌≡◌, ◌≢◌, refl, sym, ap, ◌∙◌, arith, List, [], ◌∷◌, All, All-map, update, ◌==◌,
  Bool-cases, inl, inr, eq→==, ==→eq, ne→==-false,
}
use trash_os.Base.Runs.{ok}
use trash_os.Kernel.{load, store}
use trash_os.Proc.{proc_next, set_row}
use trash_os.Proc.Table.{ProcCtxt, Proc, Procs}
use trash_os.Proc.Queue.{IsChain-frame}
use trash_os.Proc.Ticks.{slices, ticks, count_down, next_counts, ticks_one, update_self}
use trash_os.Proc.Turn.{update-field}
use trash_os.Proc.Plan.{Plan, IsTurn, Keeps, Keeps-refl, Keeps-IsApart, Keeps-IsNode}
use trash_os.Proc.Advance.{turn_cons, turn_single}
use trash_os.Proc.Spec.{Sched, turn_over, tick}

-- Another row for the current process, with the same page tables, priority and state.
pub set_row-IsTurn :
    (p : Plan) (n : ℕ) (ns : List ℕ) (s : Procs) (row : Proc)
    → row.page_tables ≡ (s.proc_table s.current).page_tables
    → row.priority ≡ (s.proc_table s.current).priority
    → row.state ≡ (s.proc_table s.current).state
    → 0 < row.exec_count
    → row.exec_count < 2 ^ 16
    → IsTurn p n ns s
    → IsTurn p n ns (set_row s.current row s)
unfolding set_row
set_row-IsTurn p n ns s row tables rate state some small is =
    let t = s.proc_table in
    let cur = s.current in
    let s' = set_row cur row s in
    let at_state = update-field (λ (r : Proc). r.state) t cur row state in
    let own : slices s' ≡ row.exec_count =
      ap (λ (r : Proc). r.exec_count) (update_self t cur row) in
    record {
      queue = record { start = is.queue.start; end_ = is.queue.end_; chain = is.queue.chain };
      nodes =
          All-map (n ∷ ns)
            (Keeps-IsNode p s s' (Keeps-refl s.kernel)
              (update-field (λ (r : Proc). r.page_tables) t cur row tables)
              (update-field (λ (r : Proc). r.priority) t cur row rate))
            is.nodes;
      fixed_apart = is.fixed_apart;
      current = is.current;
      alone = (at_state cur ∙ is.alone.0, λ q h on. is.alone.1 q h (sym (at_state q) ∙ on));
      some_left = rw own some;
      word = rw own small;
      rested = All-map ns (λ m h other. rw (ne→==-false (p.pid m) cur other) (h other)) is.rested;
    }

-- A write outside of what the scheduler needs.
pub store-IsTurn :
    (p : Plan) (n : ℕ) (ns : List ℕ) (s : Procs) (a v : ℕ)
    → ¬ p.Fixed a
    → All (λ m. m ≢ a) (n ∷ ns)
    → IsTurn p n ns s
    → IsTurn p n ns (record s { kernel = store a v s.kernel })
unfolding store load
store-IsTurn p n ns s a v free apart is =
    let s' = record s { kernel = store a v s.kernel } in
    let kept : Keeps p s.kernel s'.kernel = record {
      lookup = refl;
      dir = refl;
      words = λ b f. rw (ne→==-false b a (λ e. free (subst p.Fixed e f))) refl;
    } in
    record {
      queue = record {
        start = is.queue.start;
        end_ = is.queue.end_;
        chain =
            IsChain-frame s.kernel.mem s'.kernel.mem n ns
              (All-map (n ∷ ns) (λ m h. rw (ne→==-false m a h) refl) apart) is.queue.chain;
      };
      nodes = All-map (n ∷ ns) (Keeps-IsNode p s s' kept (λ q. refl) (λ q. refl)) is.nodes;
      fixed_apart = λ b f. Keeps-IsApart b kept (is.fixed_apart b f);
      current = is.current;
      alone = is.alone;
      some_left = is.some_left;
      word = is.word;
      rested = is.rested;
    }

-- `proc_next` against the abstract scheduler.
pub record Nexts (p : Plan) (a : Sched) (s : Procs) : Type 0 where
  pub after : Procs
  pub runs : proc_next p.fuel s ≡ ok after
  pub turn : IsTurn p a.head a.rest after
  pub left : slices after ≡ a.left
  pub same : (q : ℕ) → (after.proc_table q).ctxt ≡ (s.proc_table q).ctxt

last_tick : (fuel : ℕ) (s : Procs) → slices s ≡ 1 → proc_next fuel s ≡ ticks fuel (slices s) s
last_tick fuel s one =
    sym (ticks_one fuel (proc_next fuel s)) ∙ ap (λ (c : ℕ). ticks fuel c s) (sym one)

-- The last slice of a turn.
turn_over-Nexts :
    (p : Plan) (n : ℕ) (ns : List ℕ) (saved : ℕ → ProcCtxt) (s : Procs)
    → IsTurn p n ns s
    → slices s ≡ 1
    → Nexts p (turn_over p n ns saved) s
unfolding turn_over
turn_over-Nexts p n [] saved s is one =
    let (s', runs, next, count, same) = turn_single p n s is in
    record {
      after = s';
      runs = last_tick p.fuel s one ∙ runs;
      turn = next;
      left = count;
      same = same;
    }
turn_over-Nexts p n (m ∷ ms) saved s is one =
    let (s', runs, next, count, same) = turn_cons p n m ms s is in
    record {
      after = s';
      runs = last_tick p.fuel s one ∙ runs;
      turn = next;
      left = count;
      same = same;
    }

-- Any other slice.
counts-Nexts :
    (p : Plan) (a : Sched) (saved : ℕ → ProcCtxt) (s : Procs)
    → IsTurn p a.head a.rest s
    → slices s ≡ a.left
    → a.left ≢ 1
    → Nexts p (record { head = a.head; rest = a.rest; left = a.left - 1; saved = saved }) s
unfolding set_row
counts-Nexts p a saved s is left more =
    let row = s.proc_table s.current in
    let rest = record row { exec_count = slices s - 1 } in
    let some_left = is.some_left in
    let word = is.word in
    let wide : 1 < slices s = omega arith in
    record {
      after = count_down (slices s - 1) s;
      runs = next_counts p.fuel s wide word;
      turn = set_row-IsTurn p a.head a.rest s rest refl refl refl (omega arith) (omega arith) is;
      left =
          ap (λ (r : Proc). r.exec_count) (update_self s.proc_table s.current rest)
          ∙ ap (λ (c : ℕ). c - 1) left;
      same = update-field (λ (r : Proc). r.ctxt) s.proc_table s.current rest refl;
    }

pub next-Nexts :
    (p : Plan) (frame : ProcCtxt) (a : Sched) (s : Procs)
    → IsTurn p a.head a.rest s
    → slices s ≡ a.left
    → Nexts p (tick p frame a) s
unfolding tick
next-Nexts p frame a s is left =
    let saved = update a.saved (p.pid a.head) frame in
    elim (Bool-cases (a.left == 1)) [
      | inl t ↦ rw t (turn_over-Nexts p a.head a.rest saved s is (left ∙ ==→eq a.left 1 t))
      | inr e ↦ rw e (counts-Nexts p a saved s is left (λ h. let t = eq→== a.left 1 h in cc))
    ]
