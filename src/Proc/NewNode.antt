-- ===== src/Proc/NewNode.antt =====
-- The queue, the row and the node of a process that joins the schedule.
use trash_os.Base.{
  ℕ, ◌+◌, ◌<◌, ◌≡◌, ◌≢◌, refl, sym, ◌∙◌, arith, inl, inr, [], ◌∷◌, ◌++◌, All-map, ne→==-false,
}
use trash_os.Kernel.{load}
use trash_os.Proc.Table.{Memory}
use trash_os.Proc.Queue.{IsQueue, IsChain-frame, last}
use trash_os.Proc.Append.{queued, queued-pid, queued-IsQueue}
use trash_os.Proc.Plan.{IsRow, IsNode, Keeps-IsApart, Keeps-IsRow, Keeps-get_pid}
use trash_os.Proc.Joining.{IsTables-weaken, update-own, new_table-else, new_table-own, Join}
use trash_os.Proc.NewWords.{
  after_plan, new_row, after, at_pid, at_idx, old-node, old-pid, old-table, old-idx, kept,
  table-word, new-IsApart, free_node,
}

module _ {memory : Memory} (j : Join memory) where
  pub joined-IsQueue : IsQueue j.n (j.ns ++ j.node ∷ []) (after j)
  unfolding load
  joined-IsQueue = queued-IsQueue j.pid j.node j.n j.ns _ j.k' j.is.queue.start (record {
    unlisted = All-map (j.n ∷ j.ns) (λ m h. old-node j m (inl h)) j.holds.nodes;
    pid_apart = All-map (j.n ∷ j.ns) (λ m h. old-pid j m (inl h)) j.holds.nodes;
    own_pid = λ e. (let h = e ∙ at_pid j in omega arith);
    kept =
        IsChain-frame j.s.kernel.mem j.k'.mem j.n j.ns
          (All-map (j.n ∷ j.ns) (λ m h. j.reg.same.words m h) j.holds.nodes) j.is.queue.chain;
  })

  pub joined-old :
      (m : ℕ) → j.Held m → j.p.pid m ≢ j.pid → IsNode j.p j.s m → IsNode (after_plan j) (after j) m
  unfolding queued
  joined-old m held other h =
      let row_is : IsRow j.p (after j).kernel m (j.s.proc_table (j.p.pid m)) =
        Keeps-IsRow (kept j) refl refl h.row in
      let same = ne→==-false m j.node (old-node j m (inl held)) in
      let same_pid = ne→==-false (j.p.pid m) j.pid other in
      record {
        apart = Keeps-IsApart m (kept j) h.apart;
        changing = λ f. elim f [
          | inl fixed ↦ h.changing fixed
          | inr (inl e) ↦ old-pid j m (inl held) e
          | inr (inr (inl e)) ↦ old-table j m held e
          | inr (inr (inr e)) ↦ old-idx j m held e
        ];
        fixed = inl h.fixed;
        pid = Keeps-get_pid m (kept j) h.fixed ∙ h.pid ∙ (rw same refl);
        row =
            rw (same, same_pid)
              (record {
                tables = row_is.tables;
                listed =
                    IsTables-weaken j.p.Fixed (after_plan j).Fixed _ _ row_is.tables (λ a f. inl f)
                      row_is.listed;
                bounded = row_is.bounded;
                rate = rw same row_is.rate;
                some_rate = row_is.some_rate;
                word = row_is.word;
              });
      }

  -- The row of the new process.
  pub own_row : (after j).proc_table j.pid ≡ record (new_row j) { page_tables = j.table_node }
  unfolding queued
  own_row = new_table-own j.pid (new_row j) j.table_node j.s.proc_table

  pub else_row : (q : ℕ) → q ≢ j.pid → (after j).proc_table q ≡ j.s.proc_table q
  unfolding queued
  else_row = new_table-else j.pid (new_row j) j.table_node j.s.proc_table

  joined-row :
      IsRow
        (after_plan j)
        (after j).kernel
        j.node
        (record (new_row j) { page_tables = j.table_node })
  joined-row =
      let at_table = table-word j j.table_node (omega arith, omega arith) ∙ j.reg.next in
      let at_index : load (j.table_node + 4) (after j).kernel < 1024 =
        rw (table-word j (j.table_node + 4) (omega arith, omega arith)) j.reg.idx in
      record {
        tables = j.table_node ∷ [];
        listed = (
          refl,
          (λ e. (let h = j.reg.some_table in omega arith)),
          inr (inr (inl refl)),
          inr (inr (inr refl)),
          rw (at_idx j) at_index,
          at_table,
        );
        bounded = j.fuel_more;
        rate = sym (update-own j.p.priority j.node j.priority);
        some_rate = j.some_priority;
        word = j.word;
      }

  pub joined-new : IsNode (after_plan j) (after j) j.node
  joined-new = record {
    apart = new-IsApart j j.node (free_node j);
    changing = λ f. elim f [
      | inl fixed ↦ free_node j (j.holds.fixed j.node fixed)
      | inr (inl e) ↦ let h = e ∙ at_pid j in omega arith
      | inr (inr (inl e)) ↦
          (old-node j) j.node (inr (let h = j.reg.table_inside in (omega arith, omega arith))) refl
      | inr (inr (inr e)) ↦
          let h = e ∙ at_idx j in (old-node j) j.node (inr (omega arith, omega arith)) refl
    ];
    fixed = inr (inl refl);
    pid =
        queued-pid j.pid j.node (last j.n j.ns) _ j.k' j.pid_word
          (λ e. (let h = e ∙ at_pid j in omega arith))
        ∙ sym (update-own j.p.pid j.node j.pid);
    row = rw (update-own j.p.pid j.node j.pid, own_row) joined-row;
  }
