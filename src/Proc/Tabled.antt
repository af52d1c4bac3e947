-- ===== src/Proc/Tabled.antt =====
-- What `proc_page_table_register` writes.
use trash_os.Base.{ℕ, ◌+◌, ◌≡◌, refl, ◌∙◌, arith, bit_or, u32, ◌>>>◌}
use mathlib.Core.Path.{subst}
use trash_os.Base.Runs.{ok}
use trash_os.Kernel.{Kernel, load, store}
use trash_os.Page.{page_get_pma}
use trash_os.Page.Entries.{load-store, load-store_ne}
use trash_os.Proc.{proc_page_table_register, set_row, set_kernel}
use trash_os.Proc.Calls.{filled}
use trash_os.Proc.Table.{Procs, Memory}
use trash_os.Proc.Blocks.{InBlock, Same, Same-trans, Same-store, IsBlock}

-- The new page table node `node`, in front of the others.
pub record IsTabled (Held : ℕ → Type 0) (next stack node : ℕ) (k k' : Kernel) : Type 0 where
  pub same : Same Held k k'
  pub link : load node k' ≡ next
  pub idx : load (node + 4) k' ≡ stack >>> 22

pub proc_page_table_register_lem :
    (memory : Memory) (pid table stack flags node : ℕ) (s : Procs) (k : Kernel)
    → memory.kmalloc 16 s.kernel ≡ ok (node, k)
    → proc_page_table_register memory pid table stack flags s
      ≡ ok (
          set_kernel
            (filled node (s.proc_table pid).page_tables table stack flags k)
            (set_row pid (record (s.proc_table pid) { page_tables = node }) s))
unfolding proc_page_table_register
proc_page_table_register_lem memory pid table stack flags node s k runs = rw runs refl

pub filled-IsTabled :
    (Held : ℕ → Type 0) (node next table stack flags : ℕ) (k k' : Kernel)
    → IsBlock Held node 16 k k'
    → IsTabled Held next stack node k (filled node next table stack flags k')
filled-IsTabled Held node next table stack flags k k' block =
    let inside = block.inside in
    let at_4 : u32 (node + 4) ≡ node + 4 = omega arith in
    let at_8 : u32 (node + 8) ≡ node + 8 = omega arith in
    let at_12 : u32 (node + 12) ≡ node + 12 = omega arith in
    let entry = bit_or (page_get_pma table k') flags in
    let k₁ = store node next k' in
    let k₂ = store (node + 4) (stack >>> 22) k₁ in
    let k₃ = store (node + 12) entry k₂ in
    let out = λ (b : ℕ) (v : ℕ) (kk : Kernel) (i : InBlock node 16 b).
      Same-store Held b v kk (λ c h e. block.unused b i (subst Held e h)) in
    rw (at_4, at_8, at_12)
      (record {
        same = Same-trans Held block.same (
            Same-trans Held (out node next k' (omega arith, omega arith)) (
              Same-trans Held (out (node + 4) (stack >>> 22) k₁ (omega arith, omega arith)) (
                Same-trans Held (out (node + 12) entry k₂ (omega arith, omega arith))
                  (out (node + 8) table k₃ (omega arith, omega arith)))));
        link =
            load-store_ne (node + 8) node table k₃ (omega arith)
            ∙ load-store_ne (node + 12) node _ k₂ (omega arith)
            ∙ load-store_ne (node + 4) node _ k₁ (omega arith)
            ∙ load-store node next k';
        idx =
            load-store_ne (node + 8) (node + 4) table k₃ (omega arith)
            ∙ load-store_ne (node + 12) (node + 4) _ k₂ (omega arith)
            ∙ load-store (node + 4) (stack >>> 22) k₁;
      })
