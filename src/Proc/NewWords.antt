-- ===== src/Proc/NewWords.antt =====
-- The new words of a process that joins the schedule, and the words that it leaves alone.
use mathlib.Core.Path.{subst}
use trash_os.Base.{ℕ, ◌+◌, ◌≡◌, ◌≢◌, refl, sym, ◌∙◌, arith, inl, inr, u32, ◌∷◌, All-map}
use trash_os.Kernel.{load}
use trash_os.Proc.{fresh_row}
use trash_os.Proc.Table.{Proc, Procs, Memory}
use trash_os.Proc.Queue.{last, last-All}
use trash_os.Proc.Walk.{IsApart}
use trash_os.Proc.Append.{queued, queued-else}
use trash_os.Proc.Plan.{Plan, Keeps}
use trash_os.Proc.Blocks.{InBlock, With}
use trash_os.Proc.Register.{new_table}
use trash_os.Proc.Joining.{joined, Join}

module _ {memory : Memory} (j : Join memory) where
  abbrev pub after_plan : Plan
  after_plan = joined j.p j.pid j.priority j.table_node j.node

  abbrev pub new_row : Proc
  new_row = fresh_row memory j.start j.entry j.priority (j.s.proc_table j.pid)

  abbrev pub after : Procs
  after =
      queued j.pid j.node (last j.n j.ns)
        (record j.s {
          kernel = j.k;
          proc_table = new_table j.pid new_row j.table_node j.s.proc_table;
          next_pid = j.np;
        })
        j.k'

  pub at_pid : u32 (j.node + 4) ≡ j.node + 4
  at_pid = let h = j.reg.node_inside in omega arith

  pub at_idx : u32 (j.table_node + 4) ≡ j.table_node + 4
  at_idx = let h = j.reg.table_inside in omega arith

  -- An address in use is none of the new words.
  pub old-node : (b : ℕ) → With j.Held j.table_node 16 b → b ≢ j.node
  old-node b h e =
      j.reg.node_unused j.node (omega arith, omega arith) (subst (With j.Held j.table_node 16) e h)

  pub old-pid : (b : ℕ) → With j.Held j.table_node 16 b → b ≢ u32 (j.node + 4)
  old-pid b h e =
      j.reg.node_unused (j.node + 4) (omega arith, omega arith)
        (subst (With j.Held j.table_node 16) (e ∙ at_pid) h)

  pub old-table : (b : ℕ) → j.Held b → b ≢ j.table_node
  old-table b h e = j.reg.table_unused j.table_node (omega arith, omega arith) (subst j.Held e h)

  pub old-idx : (b : ℕ) → j.Held b → b ≢ u32 (j.table_node + 4)
  old-idx b h e =
      j.reg.table_unused (j.table_node + 4) (omega arith, omega arith) (subst j.Held (e ∙ at_idx) h)

  pub tail_held : j.Held (last j.n j.ns)
  tail_held = last-All j.Held j.n j.ns j.holds.nodes

  fixed_tail : (a : ℕ) → j.p.Fixed a → a ≢ last j.n j.ns
  fixed_tail a f e =
      last-All (λ m. ¬ j.p.Fixed m) j.n j.ns (All-map (j.n ∷ j.ns) (λ m h. h.changing) j.is.nodes)
        (subst j.p.Fixed e f)

  -- The words in use, but for the link of the last node.
  old-word : (b : ℕ) → j.Held b → b ≢ last j.n j.ns → load b after.kernel ≡ load b j.s.kernel
  old-word b h other =
      queued-else j.pid j.node (last j.n j.ns) _ j.k' b (old-node b (inl h)) (old-pid b (inl h))
        other
      ∙ j.reg.same.words b h

  pub kept : Keeps j.p j.s.kernel after.kernel
  unfolding queued
  kept = record {
    lookup = j.reg.same.lookup;
    dir = j.reg.same.dir;
    words = λ a f. old-word a (j.holds.fixed a f) (fixed_tail a f);
  }

  pub table-word : (b : ℕ) → InBlock j.table_node 16 b → load b after.kernel ≡ load b j.k'
  table-word b i =
      queued-else j.pid j.node (last j.n j.ns) _ j.k' b (old-node b (inr i)) (old-pid b (inr i))
        (λ e. j.reg.table_unused b i (subst j.Held (sym e) tail_held))

  -- A new word is apart from the directory and the lookup table.
  pub new-IsApart : (a : ℕ) → ¬ j.Held a → IsApart after.kernel a
  unfolding queued
  new-IsApart a unused i small =
      let (l, d) = j.holds.slots i small in
      rw (j.reg.same.lookup, j.reg.same.dir)
        (λ e. unused (subst j.Held (sym e) l), λ e. unused (subst j.Held (sym e) d))

  pub free_node : ¬ j.Held j.node
  free_node h = j.reg.node_unused j.node (omega arith, omega arith) (inl h)

  pub free_pid : ¬ j.Held (u32 (j.node + 4))
  free_pid h = old-pid (u32 (j.node + 4)) (inl h) refl

  pub free_table : ¬ j.Held j.table_node
  free_table h = old-table j.table_node h refl

  pub free_idx : ¬ j.Held (u32 (j.table_node + 4))
  free_idx h = old-idx (u32 (j.table_node + 4)) h refl
