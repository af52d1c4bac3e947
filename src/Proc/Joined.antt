-- ===== src/Proc/Joined.antt =====
-- A registered process joins the schedule.
use mathlib.Core.Path.{subst}
use trash_os.Base.{
  ℕ, ◌^◌, ◌<◌, ◌≡◌, ◌≢◌, refl, sym, ap, ◌∙◌, arith, inl, inr, true, false, sub32, List, [], ◌∷◌,
  ◌++◌, All, All-map, All-both, ◌==◌, eq→==, ne→==-false, Bool-cases, ==→eq,
}
use trash_os.Base.Runs.{ok}
use trash_os.Proc.{proc_new_pid, proc_register, proc_pid_taken}
use trash_os.Proc.Table.{Proc, Procs, Memory, State}
use trash_os.Proc.Queue.{last, append-All}
use trash_os.Proc.Ticks.{slices, IsRunning}
use trash_os.Proc.Walk.{IsApart}
use trash_os.Proc.Append.{queued}
use trash_os.Proc.Plan.{Plan, IsNode, IsTurn, Keeps-IsApart}
use trash_os.Page.{page_size}
use trash_os.Proc.Calls.{Calls}
use trash_os.Proc.Register.{proc_register-IsRegistered}
use trash_os.Proc.Joining.{Holds, Grown, joined, update-own, Join}
use trash_os.Proc.NewWords.{
  after_plan, after, at_pid, at_idx, old-node, kept, new-IsApart, free_pid, free_table, free_idx,
}
use trash_os.Proc.NewNode.{joined-IsQueue, joined-old, own_row, else_row, joined-new}

module _ {memory : Memory} (j : Join memory) where
  current_else : j.s.current ≢ j.pid
  current_else e = j.free.0 (sym j.is.current ∙ e)

  joined-slices : slices (after j) ≡ slices j.s
  unfolding queued
  joined-slices = ap (λ (r : Proc). r.exec_count) (else_row j j.s.current current_else)

  joined-IsRunning : IsRunning (after j)
  unfolding queued
  joined-IsRunning = (
    ap (λ (r : Proc). r.state) (else_row j j.s.current current_else) ∙ j.is.alone.0,
    λ q h on. elim (Bool-cases (q == j.pid)) [
      | inl t ↦
          let own : State.active ≡ State.running =
            ap (λ (r : Proc). r.state)
              (sym (own_row j) ∙ ap (after j).proc_table (sym (==→eq q j.pid t)))
            ∙ on in
          cc
      | inr e ↦ j.is.alone.1 q h (
          ap (λ (r : Proc). r.state) (sym (else_row j q (λ x. let t = eq→== q j.pid x in cc))) ∙ on)
    ],
  )

  joined-current : (after j).current ≡ (after_plan j).pid j.n
  unfolding queued
  joined-current = rw (ne→==-false j.n j.node (old-node j j.n (inl j.holds.nodes.0))) j.is.current

  rested-old :
      (m : ℕ)
      → j.Held m
      → j.p.pid m ≢ j.pid
      → (j.p.pid m ≢ j.s.current → (j.s.proc_table (j.p.pid m)).exec_count ≡ j.p.priority m)
      → (after_plan j).pid m ≢ (after j).current
      → ((after j).proc_table ((after_plan j).pid m)).exec_count ≡ (after_plan j).priority m
  unfolding queued
  rested-old m held other h differs =
      let same = ne→==-false m j.node (old-node j m (inl held)) in
      let same_pid = ne→==-false (j.p.pid m) j.pid other in
      let differs' : j.p.pid m ≢ j.s.current = rw same at differs in
      rw (same, same_pid) (h differs')

  rested-new :
      ((after j).proc_table ((after_plan j).pid j.node)).exec_count ≡ (after_plan j).priority j.node
  rested-new =
      rw (update-own j.p.pid j.node j.pid, (own_row j), update-own j.p.priority j.node j.priority)
        refl

  pub joined-IsTurn : IsTurn (after_plan j) j.n (j.ns ++ j.node ∷ []) (after j)
  joined-IsTurn =
      let held = j.holds.nodes in
      let is_slices : slices (after j) ≡ slices j.s = joined-slices in
      let olds = All-both _ _ (j.n ∷ j.ns) held (All-both _ _ (j.n ∷ j.ns) j.free j.is.nodes) in
      let rests = All-both _ _ j.ns held.1 (All-both _ _ j.ns j.free.1 j.is.rested) in
      record {
        queue = joined-IsQueue j;
        nodes =
            append-All (IsNode (after_plan j) (after j)) (j.n ∷ j.ns) j.node
              (All-map (j.n ∷ j.ns) (λ m h. joined-old j m h.0 h.1.0 h.1.1) olds) (joined-new j);
        fixed_apart = λ a f. elim f [
          | inl fixed ↦ Keeps-IsApart a (kept j) (j.is.fixed_apart a fixed)
          | inr (inl e) ↦ subst (IsApart (after j).kernel) (sym e) (new-IsApart j _ (free_pid j))
          | inr (inr (inl e)) ↦
              subst (IsApart (after j).kernel) (sym e) (new-IsApart j _ (free_table j))
          | inr (inr (inr e)) ↦
              subst (IsApart (after j).kernel) (sym e) (new-IsApart j _ (free_idx j))
        ];
        current = joined-current;
        alone = joined-IsRunning;
        some_left = rw is_slices j.is.some_left;
        word = rw is_slices j.is.word;
        rested =
            append-All
              (λ m.
                (after_plan j).pid m ≢ (after j).current
                → ((after j).proc_table ((after_plan j).pid m)).exec_count
                  ≡ (after_plan j).priority m)
              j.ns j.node (All-map j.ns (λ m h. rested-old m h.0 h.1.0 h.1.1) rests)
              (λ other. rested-new);
      }

  joined-Holds :
      Holds
        (Grown j.Held j.table j.table_node j.node)
        (after_plan j)
        j.n
        (j.ns ++ j.node ∷ [])
        (after j)
  unfolding queued
  joined-Holds = record {
    fixed = λ a f. elim f [
      | inl fixed ↦ inl (inl (inl (j.holds.fixed a fixed)))
      | inr (inl e) ↦ inr (let h = e ∙ at_pid j in (omega arith, omega arith))
      | inr (inr (inl e)) ↦ inl (inr (omega arith, omega arith))
      | inr (inr (inr e)) ↦ inl (inr (let h = e ∙ at_idx j in (omega arith, omega arith)))
    ];
    nodes =
        append-All (Grown j.Held j.table j.table_node j.node) (j.n ∷ j.ns) j.node
          (All-map (j.n ∷ j.ns) (λ m h. inl (inl (inl h))) j.holds.nodes)
          (inr (omega arith, omega arith));
    slots = λ i small.
        let (l, d) = j.holds.slots i small in
        rw (j.reg.same.lookup, j.reg.same.dir) (inl (inl (inl l)), inl (inl (inl d)));
  }

-- A process joins the schedule while another runs. Where the four calls of the allocator return
-- blocks apart from what the scheduler uses and keep the words in use, the last queue node is not at
-- address 0, the new PID is below 2^16 and of a dead process without page tables while every process
-- of the queue is alive, the fuel of the plan is above 1, and the priority is a positive 16-bit
-- number: `proc_register` returns that PID, the queue has the new node behind the others, and the
-- scheduler is at the same point of the same turn, with all it needs of the new process.
pub proc_register-IsTurn :
    (memory : Memory) (Held : ℕ → Type 0) (p : Plan) (n : ℕ) (ns : List ℕ) (s : Procs)
    (fuel start entry priority pid np : ℕ)
    (c : Calls memory Held 0 (sub32 start page_size) s.kernel)
    → IsTurn p n ns s
    → Holds Held p n ns s
    → last n ns ≢ 0
    → All (λ m. proc_pid_taken (p.pid m) s ≡ true) (n ∷ ns)
    → proc_new_pid fuel s ≡ ok (pid, record s { next_pid = np })
    → proc_pid_taken pid s ≡ false
    → pid < 2 ^ 16
    → (s.proc_table pid).page_tables ≡ 0
    → 1 < p.fuel
    → 0 < priority
    → priority < 2 ^ 16
    → (s' : Procs) × (proc_register memory fuel start entry priority s ≡ ok (pid, s'))
      × IsTurn (joined p pid priority c.table_node c.node) n (ns ++ c.node ∷ []) s'
      × Holds
          (Grown Held c.table c.table_node c.node)
          (joined p pid priority c.table_node c.node)
          n
          (ns ++ c.node ∷ [])
          s'
proc_register-IsTurn memory Held p n ns s fuel start entry priority pid np c is holds some_end taken
      new dead_pid pid_word clean more some word =
    let (k, runs, reg) =
      proc_register-IsRegistered memory Held fuel start entry priority s pid np (last n ns) new
        clean is.queue.end_ some_end c in
    let free : All (λ m. p.pid m ≢ pid) (n ∷ ns) =
      All-map (n ∷ ns) (λ m h e. let t = sym h ∙ ap (λ q. proc_pid_taken q s) e ∙ dead_pid in cc)
        taken in
    let j : Join memory = record {
      Held = Held;
      p = p;
      n = n;
      ns = ns;
      s = s;
      is = is;
      holds = holds;
      start = start;
      entry = entry;
      priority = priority;
      pid = pid;
      np = np;
      table = c.table;
      table_node = c.table_node;
      node = c.node;
      k = k;
      k' = c.k₄;
      reg = reg;
      free = free;
      pid_word = pid_word;
      fuel_more = more;
      some_priority = some;
      word = word;
    } in
    (after j, runs, joined-IsTurn j, joined-Holds j)
