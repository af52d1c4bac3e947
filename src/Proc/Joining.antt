-- ===== src/Proc/Joining.antt =====
-- What a process that joins the schedule adds to it.
use trash_os.Base.{
  ℕ, ◌+◌, ◌^◌, ◌<◌, ◌≡◌, ◌≢◌, refl, ap, ◌∙◌, u32, List, [], ◌∷◌, All, eq→==, ne→==-false, update,
  ◌⊎◌,
}
use trash_os.Kernel.{Kernel, load}
use trash_os.Proc.Table.{Proc, Procs, Memory}
use trash_os.Proc.Plan.{Plan, IsTurn}
use trash_os.Proc.Blocks.{With}
use trash_os.Proc.Register.{new_table, IsRegistered}
use trash_os.Page.{page_entries, word_at, page_size}
use trash_os.Proc.Ticks.{update_self}
use trash_os.Proc.Walk.{IsTables}

-- What the scheduler uses of the memory is in use for the allocator.
pub record Holds (Held : ℕ → Type 0) (p : Plan) (n : ℕ) (ns : List ℕ) (s : Procs) : Type 0 where
  pub fixed : (a : ℕ) → p.Fixed a → Held a
  pub nodes : All Held (n ∷ ns)
  pub slots :
      (i : ℕ)
      → i < page_entries
      → Held (word_at s.kernel.page_table_lookup i) × Held (word_at s.kernel.page_dir i)

-- What is in use once a process is registered.
abbrev pub Grown : (ℕ → Type 0) → ℕ → ℕ → ℕ → ℕ → Type 0
Grown Held table table_node node = With (With (With Held table page_size) table_node 16) node 8

-- The plan with a process more.
abbrev pub joined : Plan → ℕ → ℕ → ℕ → ℕ → Plan
joined p pid priority table_node node = record {
  fuel = p.fuel;
  Fixed = λ a. p.Fixed a ⊎ (a ≡ u32 (node + 4)) ⊎ (a ≡ table_node) ⊎ (a ≡ u32 (table_node + 4));
  pid = update p.pid node pid;
  priority = update p.priority node priority;
}

pub IsTables-weaken :
    (Fixed More : ℕ → Type 0) (k : Kernel) (n : ℕ) (ts : List ℕ)
    → ((a : ℕ) → Fixed a → More a)
    → IsTables Fixed k n ts
    → IsTables More k n ts
IsTables-weaken Fixed More k n [] sub h = h
IsTables-weaken Fixed More k n (t ∷ ts) sub (at, on, fixed, fixed_idx, idx, rest) = (
  at,
  on,
  sub t fixed,
  sub (u32 (t + 4)) fixed_idx,
  idx,
  IsTables-weaken Fixed More k (load t k) ts sub rest,
)

pub update-own : (f : ℕ → ℕ) (a v : ℕ) → update f a v a ≡ v
update-own f a v = rw (eq→== a a refl) refl

-- The rows of the new table.
module _ (pid : ℕ) (row : Proc) (table_node : ℕ) (t : ℕ → Proc) where
  pub new_table-else : (q : ℕ) → q ≢ pid → new_table pid row table_node t q ≡ t q
  new_table-else q h = rw (ne→==-false q pid h) refl

  pub new_table-own : new_table pid row table_node t pid ≡ record row { page_tables = table_node }
  new_table-own =
      update_self (update t pid row) pid
        (record (update t pid row pid) { page_tables = table_node })
      ∙ ap (λ (r : Proc). record r { page_tables = table_node }) (update_self t pid row)

-- A process of PID `pid` that joins the turn `is`: its row has the page table node `table_node`, and
-- `node` is its queue node. `k` is the memory before the queue node is allocated, and `k'` behind.
pub record Join (memory : Memory) : Type 1 where
  pub Held : ℕ → Type 0
  pub p : Plan
  pub n : ℕ
  pub ns : List ℕ
  pub s : Procs
  pub is : IsTurn p n ns s
  pub holds : Holds Held p n ns s
  pub start : ℕ
  pub entry : ℕ
  pub priority : ℕ
  pub pid : ℕ
  pub np : ℕ
  pub table : ℕ
  pub table_node : ℕ
  pub node : ℕ
  pub k : Kernel
  pub k' : Kernel
  pub reg : IsRegistered Held table_node node s.kernel k'
  pub free : All (λ m. p.pid m ≢ pid) (n ∷ ns)
  pub pid_word : pid < 2 ^ 16
  pub fuel_more : 1 < p.fuel
  pub some_priority : 0 < priority
  pub word : priority < 2 ^ 16
