-- ===== src/Proc/Plan.antt =====
-- The scheduler at the start of the turn of a process, and what a turn keeps of the memory.
use mathlib.Core.Path.{subst}
use trash_os.Base.{ℕ, ◌+◌, ◌^◌, ◌<◌, ◌≡◌, ◌≢◌, refl, ap, ◌∙◌, List, ◌∷◌, All, length, u16, u32}
use trash_os.Kernel.{Kernel, load, store}
use trash_os.Proc.{queue_rotate, get_pid}
use trash_os.Proc.Table.{Proc, Procs}
use trash_os.Proc.Queue.{IsQueue, last, last-All, two-else}
use trash_os.Proc.Ticks.{slices, IsRunning}
use trash_os.Proc.Walk.{IsApart, Remaps, IsTables, IsTables-frame}

-- What the scheduler leaves alone: the addresses of the PIDs and of the page table nodes, the PID of
-- each queue node and the priority of its process. `fuel` bounds the number of page tables.
pub record Plan : Type 1 where
  pub fuel : ℕ
  pub Fixed : ℕ → Type 0
  pub pid : ℕ → ℕ
  pub priority : ℕ → ℕ

-- The page tables and the priority in the row of a process, for the plan.
pub record IsRow (p : Plan) (k : Kernel) (m : ℕ) (row : Proc) : Type 0 where
  pub tables : List ℕ
  pub listed : IsTables p.Fixed k row.page_tables tables
  pub bounded : length tables < p.fuel
  pub rate : row.priority ≡ p.priority m
  pub some_rate : 0 < row.priority
  pub word : row.priority < 2 ^ 16

-- A node of the queue.
pub record IsNode (p : Plan) (s : Procs) (m : ℕ) : Type 0 where
  pub apart : IsApart s.kernel m
  pub changing : ¬ p.Fixed m
  pub fixed : p.Fixed (u32 (m + 4))
  pub pid : get_pid m s.kernel ≡ p.pid m
  pub row : IsRow p s.kernel m (s.proc_table (p.pid m))

-- The queue `n ∷ ns` at the start of the turn of its first process: that process is current, alone
-- RUNNING, and has slices left; every other one has as many as its priority.
pub record IsTurn (p : Plan) (n : ℕ) (ns : List ℕ) (s : Procs) : Type 0 where
  pub queue : IsQueue n ns s
  pub nodes : All (IsNode p s) (n ∷ ns)
  pub fixed_apart : (a : ℕ) → p.Fixed a → IsApart s.kernel a
  pub current : s.current ≡ p.pid n
  pub alone : IsRunning s
  pub some_left : 0 < slices s
  pub word : slices s < 2 ^ 16
  pub rested :
      All (λ m. p.pid m ≢ s.current → (s.proc_table (p.pid m)).exec_count ≡ p.priority m) ns

-- `queue_rotate` changes the links of the first and of the last node, and no other word.
rotate_keeps :
    (n : ℕ) (ns : List ℕ) (s : Procs) (a : ℕ)
    → IsQueue n ns s
    → a ≢ n
    → a ≢ last n ns
    → load a (queue_rotate s).kernel ≡ load a s.kernel
unfolding queue_rotate load store
rotate_keeps n ns s a is not_first not_last =
    let h : (s.queue_start ≡ n) × (s.queue_end ≡ last n ns) = (is.start, is.end_) in
    rw (h.1, h.0) (two-else s.kernel.mem (last n ns) n n 0 a not_last not_first)

-- What a turn keeps of the memory.
pub record Keeps (p : Plan) (k k' : Kernel) : Type 0 where
  pub lookup : k'.page_table_lookup ≡ k.page_table_lookup
  pub dir : k'.page_dir ≡ k.page_dir
  pub words : (a : ℕ) → p.Fixed a → load a k' ≡ load a k

pub Keeps-refl : {p : Plan} (k : Kernel) → Keeps p k k
Keeps-refl k = record { lookup = refl; dir = refl; words = λ a f. refl }

pub Keeps-IsApart : {p : Plan} {k k' : Kernel} (a : ℕ) → Keeps p k k' → IsApart k a → IsApart k' a
Keeps-IsApart a r apart i small = rw (r.lookup, r.dir) (apart i small)

pub Keeps-remap :
    {p : Plan} {k k' k'' : Kernel}
    → ((a : ℕ) → p.Fixed a → IsApart k a)
    → Keeps p k k'
    → Remaps k' k''
    → Keeps p k k''
Keeps-remap apart r r' = record {
  lookup = r'.lookup ∙ r.lookup;
  dir = r'.dir ∙ r.dir;
  words = λ a f. r'.others a (Keeps-IsApart a r (apart a f)) ∙ r.words a f;
}

pub Keeps-IsRow :
    {p : Plan} {k k' : Kernel} {m : ℕ} {row row' : Proc}
    → Keeps p k k'
    → row'.page_tables ≡ row.page_tables
    → row'.priority ≡ row.priority
    → IsRow p k m row
    → IsRow p k' m row'
Keeps-IsRow {p} {k} {k'} {m} {row} {row'} r same_tables same_rate is = record {
  tables = is.tables;
  listed = rw same_tables (IsTables-frame p.Fixed k k' row.page_tables is.tables r.words is.listed);
  bounded = is.bounded;
  rate = same_rate ∙ is.rate;
  some_rate = rw same_rate is.some_rate;
  word = rw same_rate is.word;
}

pub Keeps-get_pid :
    {p : Plan} {k k' : Kernel} (m : ℕ)
    → Keeps p k k'
    → p.Fixed (u32 (m + 4))
    → get_pid m k' ≡ get_pid m k
unfolding get_pid
Keeps-get_pid m r fixed = ap u16 (r.words (u32 (m + 4)) fixed)

module _ (p : Plan) (s s' : Procs) (r : Keeps p s.kernel s'.kernel) where
  pub Keeps-IsNode :
      ((q : ℕ) → (s'.proc_table q).page_tables ≡ (s.proc_table q).page_tables)
      → ((q : ℕ) → (s'.proc_table q).priority ≡ (s.proc_table q).priority)
      → (m : ℕ) → IsNode p s m
      → IsNode p s' m
  Keeps-IsNode same_tables same_rate m is = record {
    apart = Keeps-IsApart m r is.apart;
    changing = is.changing;
    fixed = is.fixed;
    pid = Keeps-get_pid m r is.fixed ∙ is.pid;
    row = Keeps-IsRow r (same_tables (p.pid m)) (same_rate (p.pid m)) is.row;
  }

pub rotate-Keeps :
    (p : Plan) (n : ℕ) (ns : List ℕ) (s : Procs)
    → IsQueue n ns s
    → All (λ m. ¬ p.Fixed m) (n ∷ ns)
    → Keeps p s.kernel (queue_rotate s).kernel
unfolding queue_rotate store
rotate-Keeps p n ns s is changing = record {
  lookup = refl;
  dir = refl;
  words = λ a f.
      rotate_keeps n ns s a is (λ e. changing.0 (subst p.Fixed e f))
        (λ e. last-All (λ m. ¬ p.Fixed m) n ns changing (subst p.Fixed e f));
}
