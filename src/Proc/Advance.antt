-- ===== src/Proc/Advance.antt =====
-- A whole turn: the scheduler returns, and the next process of the queue is at the start of its turn.
use trash_os.Base.{
  ℕ, suc, ◌≡◌, ◌≢◌, refl, sym, ap, ◌∙◌, List, ◌∷◌, ◌++◌, [], All, All-map, All-both,
}
use trash_os.Base.Runs.{ok}
use trash_os.Kernel.{Kernel, load, store}
use trash_os.Proc.{queue_rotate, get_pid, proc_mem_map, proc_mem_unmap, set_row}
use trash_os.Proc.Table.{Proc, Procs}
use trash_os.Proc.Queue.{append-All, queue_rotate-IsRotated, IsQueue, IsChain-frame}
use trash_os.Proc.Ticks.{slices, ticks, count_down, ticks-proc_switch}
use trash_os.Proc.Switch.{switched, started, started-alone, with_state}
use trash_os.Proc.Walk.{
  IsApart, Remaps, IsTables, IsTables-frame, proc_mem_unmap-Remaps, proc_mem_map-Remaps,
  Remaps-trans,
}
use trash_os.Proc.Turn.{
  update-field, after_turn, after_turn-priority, after_turn-page_tables, after_turn-ctxt,
  after_turn-rested, count_down-IsRunning,
}
use trash_os.Proc.Plan.{
  Plan, IsRow, IsNode, IsTurn, Keeps, Keeps-IsApart, Keeps-remap, Keeps-get_pid, Keeps-IsNode,
  rotate-Keeps,
}

-- The current process, out of slices.
abbrev pub spent : Procs → Procs
spent s = count_down 0 s

-- The walk over the page tables of process `q`, from a memory that keeps what the plan needs.
module _ (p : Plan) (s : Procs) (apart : (a : ℕ) → p.Fixed a → IsApart s.kernel a) (k : Kernel)
    (kept : Keeps p s.kernel k) (m q : ℕ) (at : q ≡ p.pid m)
    (row : IsRow p s.kernel m (s.proc_table (p.pid m))) where
  fixed-IsApart : (a : ℕ) → p.Fixed a → IsApart k a
  fixed-IsApart a f = Keeps-IsApart a kept (apart a f)

  spent-page_tables : ((spent s).proc_table q).page_tables ≡ (s.proc_table (p.pid m)).page_tables
  unfolding set_row
  spent-page_tables =
      update-field (λ (r : Proc). r.page_tables) s.proc_table s.current
        (record (s.proc_table s.current) { exec_count = 0 }) refl q
      ∙ ap (λ x. (s.proc_table x).page_tables) at

  row_listed : IsTables p.Fixed k ((spent s).proc_table q).page_tables row.tables
  row_listed = rw spent-page_tables (
      IsTables-frame p.Fixed s.kernel k (s.proc_table (p.pid m)).page_tables row.tables kept.words
        row.listed)

  walk_unmap :
      (k' : Kernel) × (proc_mem_unmap p.fuel ((spent s).proc_table q).page_tables k ≡ ok k')
      × Remaps k k'
  walk_unmap =
      proc_mem_unmap-Remaps p.Fixed p.fuel _ row.tables k fixed-IsApart row_listed row.bounded

  walk_map :
      (k' : Kernel) × (proc_mem_map p.fuel ((spent s).proc_table q).page_tables k ≡ ok k')
      × Remaps k k'
  walk_map = proc_mem_map-Remaps p.Fixed p.fuel _ row.tables k fixed-IsApart row_listed row.bounded

-- A whole turn from `s` on: the scheduler returns, at the start of the turn of the first node of the
-- queue `m ∷ ms`, with its priority in slices and all contexts as they were.
abbrev pub Turned : Plan → ℕ → List ℕ → Procs → Type 0
Turned p m ms s =
    (s' : Procs) × (ticks p.fuel (slices s) s ≡ ok s')
    × IsTurn p m ms s'
    × (slices s' ≡ p.priority m)
    × ((q : ℕ) → (s'.proc_table q).ctxt ≡ (s.proc_table q).ctxt)

-- A turn, where `m ∷ ms` is the queue that the rotation leaves.
module _ (p : Plan) (n : ℕ) (ns : List ℕ) (s : Procs) (is : IsTurn p n ns s) (m : ℕ) (ms : List ℕ)
    (queue : IsQueue m ms (queue_rotate (spent s))) (nodes : All (IsNode p s) (m ∷ ms))
    (rested : All
      (λ x. p.pid x ≢ s.current → (s.proc_table (p.pid x)).exec_count ≡ p.priority x)
      (m ∷ ms)) where
  rotated-Keeps : Keeps p s.kernel (queue_rotate (spent s)).kernel
  unfolding set_row
  rotated-Keeps =
      rotate-Keeps p n ns (spent s)
        (record { start = is.queue.start; end_ = is.queue.end_; chain = is.queue.chain })
        (All-map (n ∷ ns) (λ x h. h.changing) is.nodes)

  -- The state after the turn, where process `g` runs with the memory `k'`.
  next_state : ℕ → Kernel → Procs
  next_state g k' = record (queue_rotate (spent s)) {
    kernel = k';
    proc_table = after_turn s g;
    current = g;
    tlb_flushes = suc s.tlb_flushes;
  }

  module _ (g : ℕ) (k' : Kernel) (at : g ≡ p.pid m) (kept : Keeps p s.kernel k')
      (r : Remaps (queue_rotate (spent s)).kernel k') where
    next_count :
        (x : ℕ)
        → IsNode p s x
        → (p.pid x ≢ s.current → (s.proc_table (p.pid x)).exec_count ≡ p.priority x)
        → (after_turn s g (p.pid x)).exec_count ≡ p.priority x
    next_count x node other =
        after_turn-rested s g (p.pid x) (λ h. other h ∙ sym node.row.rate) ∙ node.row.rate

    next_chain : IsQueue m ms (next_state g k')
    unfolding next_state load queue_rotate set_row store
    next_chain = record {
      start = queue.start;
      end_ = queue.end_;
      chain =
          IsChain-frame (queue_rotate (spent s)).kernel.mem k'.mem m ms
            (All-map (m ∷ ms) (λ x h. r.others x h.apart) nodes) queue.chain;
    }

    next_slices : slices (next_state g k') ≡ p.priority m
    unfolding next_state
    next_slices = ap (λ x. (after_turn s g x).exec_count) at ∙ next_count m nodes.0 rested.0

    next-IsTurn : IsTurn p m ms (next_state g k')
    unfolding next_state after_turn
    next-IsTurn =
        let is_slices : slices (next_state g k') ≡ p.priority m = next_slices in
        record {
          queue = next_chain;
          nodes =
              All-map (m ∷ ms)
                (Keeps-IsNode p s (next_state g k') kept (after_turn-page_tables s g)
                  (after_turn-priority s g))
                nodes;
          fixed_apart = λ a f. Keeps-IsApart a kept (is.fixed_apart a f);
          current = at;
          alone = started-alone (spent s) g (count_down-IsRunning s is.alone);
          some_left = rw (is_slices, sym nodes.0.row.rate) nodes.0.row.some_rate;
          word = rw (is_slices, sym nodes.0.row.rate) nodes.0.row.word;
          rested =
              All-map ms (λ x h other. next_count x h.0 h.1) (All-both _ _ ms nodes.1 rested.1);
        }

  turn : Turned p m ms s
  unfolding set_row next_state after_turn started with_state
  turn =
      let k₀ = (queue_rotate (spent s)).kernel in
      let (k, unmapped, r) =
        walk_unmap p s is.fixed_apart k₀ rotated-Keeps n s.current is.current is.nodes.0.row in
      let kept = Keeps-remap is.fixed_apart rotated-Keeps r in
      let g = get_pid (queue_rotate (spent s)).queue_start k in
      let at : g ≡ p.pid m =
        ap (λ x. get_pid x k) queue.start ∙ Keeps-get_pid m kept nodes.0.fixed ∙ nodes.0.pid in
      let (k', mapped, r') = walk_map p s is.fixed_apart k kept m g at nodes.0.row in
      let kept' = Keeps-remap is.fixed_apart kept r' in
      (
        next_state g k',
        ticks-proc_switch p.fuel s is.some_left is.word
            ∙ switched p.fuel (spent s) k k' unmapped mapped,
        next-IsTurn g k' at kept' (Remaps-trans r r'),
        next_slices g k' at kept' (Remaps-trans r r'),
        after_turn-ctxt s g,
      )

-- The first process of a queue of several goes to the end.
pub turn_cons :
    (p : Plan) (n m : ℕ) (ms : List ℕ) (s : Procs)
    → IsTurn p n (m ∷ ms) s
    → Turned p m (ms ++ n ∷ []) s
unfolding set_row
turn_cons p n m ms s is =
    turn p n (m ∷ ms) s is m (ms ++ n ∷ [])
      (queue_rotate-IsRotated n (m ∷ ms) (spent s)
        (record { start = is.queue.start; end_ = is.queue.end_; chain = is.queue.chain }))
      (append-All (IsNode p s) (m ∷ ms) n is.nodes.1 is.nodes.0)
      (append-All (λ x. p.pid x ≢ s.current → (s.proc_table (p.pid x)).exec_count ≡ p.priority x)
        (m ∷ ms) n is.rested (λ h. absurd (h (sym is.current))))

-- The only process goes on.
pub turn_single : (p : Plan) (n : ℕ) (s : Procs) → IsTurn p n [] s → Turned p n [] s
unfolding set_row
turn_single p n s is =
    turn p n [] s is n []
      (queue_rotate-IsRotated n [] (spent s)
        (record { start = is.queue.start; end_ = is.queue.end_; chain = is.queue.chain }))
      is.nodes (λ h. absurd (h (sym is.current)), tt)
