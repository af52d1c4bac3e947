-- ===== src/Proc/Register.antt =====
-- What `proc_register` leaves in memory.
use mathlib.Core.Path.{subst}
use trash_os.Base.{
  ℕ, ◌+◌, ◌%◌, ◌^◌, ◌≤◌, ◌<◌, ◌≡◌, ◌≢◌, refl, sym, ap, ◌∙◌, arith, inl, inr, bit_and, bit_or, sub32,
  ◌>>>◌, update,
}
use trash_os.Base.Bits.{bit_and_low}
use trash_os.Base.Runs.{ok}
use trash_os.Kernel.{Kernel, load, store}
use trash_os.Page.{page_size, word_at}
use trash_os.Page.Entries.{load-store_ne}
use trash_os.Proc.{proc_new_pid, proc_register, fresh_row, proc_page_register, set_row}
use trash_os.Proc.Table.{Proc, Procs, Memory}
use trash_os.Proc.Ticks.{update_self}
use trash_os.Proc.Append.{queued, queue_add_runs}
use trash_os.Proc.Blocks.{InBlock, With, Same, Same-trans, Same-weaken, Same-store}
use trash_os.Proc.Calls.{Calls, filled, entry_of}
use trash_os.Proc.Tabled.{proc_page_table_register_lem, filled-IsTabled}

-- The process table with the row of the new process, whose page table node is `table_node`.
abbrev pub new_table : ℕ → Proc → ℕ → (ℕ → Proc) → ℕ → Proc
new_table pid row table_node t =
    update (update t pid row) pid (record (update t pid row pid) { page_tables = table_node })

-- What the calls leave: two new nodes, apart from each other and from what is in use.
pub record IsRegistered (Held : ℕ → Type 0) (table_node node : ℕ) (k k' : Kernel) : Type 0 where
  pub same : Same Held k k'
  pub some_table : 0 < table_node
  pub table_inside : table_node + 16 ≤ 2 ^ 32
  pub table_unused : (b : ℕ) → InBlock table_node 16 b → ¬ Held b
  pub next : load table_node k' ≡ 0
  pub idx : load (table_node + 4) k' < 1024
  pub some_node : 0 < node
  pub node_inside : node + 8 ≤ 2 ^ 32
  pub node_unused : (b : ℕ) → InBlock node 8 b → ¬ With Held table_node 16 b

entry-InBlock :
    (table stack : ℕ)
    → table + page_size ≤ 2 ^ 32
    → InBlock table page_size (word_at table (bit_and (stack >>> 12) 0x3ff))
entry-InBlock table stack inside =
    let low : bit_and (stack >>> 12) 0x3ff ≡ (stack >>> 12) % 1024 =
      bit_and_low 10 (stack >>> 12) in
    rw low (omega arith, omega arith)

module _ (memory : Memory) (Held : ℕ → Type 0) (fuel kernel_start entry priority : ℕ) (s : Procs)
    (pid np tail : ℕ) where
  abbrev row : Proc
  row = fresh_row memory kernel_start entry priority (s.proc_table pid)

  -- The table with the new row, before its page table is listed.
  abbrev rowed : ℕ → Proc
  rowed = update s.proc_table pid row

  -- The state before the new process enters the queue.
  abbrev pub unqueued : ℕ → Kernel → Procs
  unqueued table_node k = record s {
    kernel = k;
    proc_table = new_table pid row table_node s.proc_table;
    next_pid = np;
  }

  abbrev stack_of : ℕ
  stack_of = sub32 (rowed pid).ctxt.esp page_size

  module _ (c : Calls memory Held (rowed pid).page_tables stack_of s.kernel) where
    abbrev entered : Kernel
    entered = store (entry_of c.table stack_of) (bit_or c.page 7) c.k₃

    register_runs :
        proc_new_pid fuel s ≡ ok (pid, record s { next_pid = np })
        → s.queue_end ≡ tail
        → tail ≢ 0
        → proc_register memory fuel kernel_start entry priority s
          ≡ ok (pid, queued pid c.node tail (unqueued c.table_node entered) c.k₄)
    unfolding proc_register proc_page_register set_row
    register_runs new end_ some_end =
        let s₂ = record s { kernel = c.k₁; proc_table = rowed; next_pid = np } in
        rw
          (
            new,
            c.gives_table,
            proc_page_table_register_lem memory pid c.table stack_of 7 c.table_node s₂ c.k₂
                c.gives_table_node,
            c.gives_page,
            queue_add_runs memory pid c.node tail (unqueued c.table_node entered) c.k₄ end_ some_end
                c.gives_node,
          )
          refl

    register-IsRegistered :
        (rowed pid).page_tables ≡ 0 → IsRegistered Held c.table_node c.node s.kernel c.k₄
    register-IsRegistered clean =
        let H₁ = With Held c.table page_size in
        let H₂ = With H₁ c.table_node 16 in
        let a = entry_of c.table stack_of in
        let v = bit_or c.page 7 in
        let tabled =
          filled-IsTabled H₁ c.table_node (rowed pid).page_tables c.table stack_of 7 c.k₁ c.k₂
            c.table_node_block in
        let in_table : InBlock c.table page_size a =
          entry-InBlock c.table stack_of c.table_block.inside in
        let other : (b : ℕ) → InBlock c.table_node 16 b → b ≢ a = λ b i e.
          c.table_node_block.unused b i
            (inr (subst (InBlock c.table page_size) (sym e) in_table)) in
        let keep : (b : ℕ)
            → InBlock c.table_node 16 b
            → load b c.k₄
              ≡ load b (filled c.table_node (rowed pid).page_tables c.table stack_of 7 c.k₂) =
          λ b i.
            c.node_block.same.words b (inr i)
            ∙ load-store_ne a b v c.k₃ (other b i)
            ∙ c.page_same.words b (inr i) in
        let inside = c.table_node_block.inside in
        let index = keep (c.table_node + 4) (omega arith, omega arith) ∙ tabled.idx in
        record {
          same = Same-trans Held c.table_block.same (
              Same-trans Held (Same-weaken Held H₁ (λ b h. inl h) tabled.same) (
                Same-trans Held (Same-weaken Held H₂ (λ b h. inl (inl h)) c.page_same) (
                  Same-trans Held
                    (Same-store Held a v c.k₃
                      (λ b h e. c.table_block.unused a in_table (subst Held e h)))
                    (Same-weaken Held H₂ (λ b h. inl (inl h)) c.node_block.same))));
          some_table = c.table_node_block.some_block;
          table_inside = inside;
          table_unused = λ b i h. c.table_node_block.unused b i (inl h);
          next = keep c.table_node (omega arith, omega arith) ∙ tabled.link ∙ clean;
          idx = rw index (omega arith);
          some_node = c.node_block.some_block;
          node_inside = c.node_block.inside;
          node_unused = λ b i h.
              c.node_block.unused b i (elim h [ inl held ↦ inl (inl held) | inr own ↦ inr own ]);
        }

  abbrev Registers : ℕ → ℕ → Type 0
  Registers next stack =
      (c : Calls memory Held next stack s.kernel)
      → (k : Kernel) × (proc_register memory fuel kernel_start entry priority s
          ≡ ok (pid, queued pid c.node tail (unqueued c.table_node k) c.k₄))
        × IsRegistered Held c.table_node c.node s.kernel c.k₄

  pub proc_register-IsRegistered :
      proc_new_pid fuel s ≡ ok (pid, record s { next_pid = np })
      → (s.proc_table pid).page_tables ≡ 0
      → s.queue_end ≡ tail
      → tail ≢ 0
      → Registers 0 (sub32 kernel_start page_size)
  proc_register-IsRegistered new clean end_ some_end =
      let own : rowed pid ≡ row = update_self s.proc_table pid row in
      let unlisted : (rowed pid).page_tables ≡ 0 = ap (λ (r : Proc). r.page_tables) own ∙ clean in
      let esp : (rowed pid).ctxt.esp ≡ kernel_start = ap (λ (r : Proc). r.ctxt.esp) own in
      let base : Registers (rowed pid).page_tables stack_of =
        λ c. (entered c, register_runs c new end_ some_end, register-IsRegistered c unlisted) in
      subst (λ x. Registers x (sub32 kernel_start page_size)) unlisted
        (subst (λ e. Registers (rowed pid).page_tables (sub32 e page_size)) esp base)
