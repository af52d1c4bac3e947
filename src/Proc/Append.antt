-- ===== src/Proc/Append.antt =====
-- `proc_queue_add` puts a process at the end of the scheduling queue.
use trash_os.Base.{
  ℕ, ◌+◌, ◌*◌, ◌/◌, ◌^◌, ◌<◌, ◌≡◌, ◌≢◌, refl, sym, ap, ◌∙◌, arith, List, [], ◌∷◌, ◌++◌, All, update,
  ◌==◌, eq→==, ne→==-false, Bool-cases, inl, inr, u32, u16,
}
use trash_os.Base.Runs.{ok}
use trash_os.Kernel.{Kernel, load, store}
use trash_os.Proc.{proc_queue_add, get_pid, set_pid}
use trash_os.Proc.Table.{Procs, Memory}
use trash_os.Proc.Queue.{
  IsChain, IsChain-frame, IsQueue, last, two, append-All, IsChain-append, last-append,
}

-- A store between two others, to another address.
between :
    (mem : ℕ → ℕ) (a v b w c u p : ℕ)
    → p ≢ b
    → update (update (update mem a v) b w) c u p ≡ two mem a v c u p
between mem a v b w c u p h = elim (Bool-cases (p == c)) [
  | inl t ↦ rw t refl
  | inr e ↦ rw (e, ne→==-false p b h) refl
]

All-between :
    (mem : ℕ → ℕ) (a v b w c u : ℕ) (ns : List ℕ)
    → All (λ p. p ≢ b) ns
    → All (λ p. update (update (update mem a v) b w) c u p ≡ two mem a v c u p) ns
All-between mem a v b w c u [] h = tt
All-between mem a v b w c u (n ∷ ns) h =
    (between mem a v b w c u n h.0, All-between mem a v b w c u ns h.1)

-- A node that the allocator gave, apart from the nodes `n ∷ ns` of the queue, which it kept.
pub record IsNewNode (node n : ℕ) (ns : List ℕ) (k : Kernel) : Type 0 where
  pub unlisted : All (λ p. p ≢ node) (n ∷ ns)
  pub pid_apart : All (λ p. p ≢ u32 (node + 4)) (n ∷ ns)
  pub own_pid : node ≢ u32 (node + 4)
  pub kept : IsChain k.mem n ns

-- The state once node `node` with PID `pid` stands behind the last node `tail`, in a memory that the
-- allocator left as `k`.
unfoldable pub queued : ℕ → ℕ → ℕ → Procs → Kernel → Procs
queued pid node tail s k =
    let m₁ = update k.mem tail node in
    let b = u32 (node + 4) in
    let m₂ = update m₁ b (m₁ b / 2 ^ 16 * 2 ^ 16 + pid) in
    record s {
      kernel = record k { mem = update m₂ node 0 };
      queue_end = node;
      proc_num = u16 (s.proc_num + 1);
    }

pub queue_add_runs :
    (memory : Memory) (pid node tail : ℕ) (s : Procs) (k : Kernel)
    → s.queue_end ≡ tail
    → tail ≢ 0
    → memory.kmalloc 8 s.kernel ≡ ok (node, k)
    → proc_queue_add memory pid s ≡ ok (queued pid node tail s k)
unfolding proc_queue_add set_pid load store queued
queue_add_runs memory pid node tail s k e some_end got =
    let some_node = ne→==-false tail 0 some_end in rw (got, e, some_node) refl

pub queued-else :
    (pid node tail : ℕ) (s : Procs) (k : Kernel) (a : ℕ)
    → a ≢ node
    → a ≢ u32 (node + 4)
    → a ≢ tail
    → load a (queued pid node tail s k).kernel ≡ load a k
unfolding queued load
queued-else pid node tail s k a h h' h'' =
    rw (ne→==-false a node h, ne→==-false a (u32 (node + 4)) h', ne→==-false a tail h'') refl

pub queued-pid :
    (pid node tail : ℕ) (s : Procs) (k : Kernel)
    → pid < 2 ^ 16
    → node ≢ u32 (node + 4)
    → get_pid node (queued pid node tail s k).kernel ≡ pid
unfolding queued get_pid load
queued-pid pid node tail s k small own =
    let b : ℕ = u32 (node + 4) in
    let m₁ : ℕ → ℕ = update k.mem tail node in
    let word : ℕ = m₁ b / 2 ^ 16 * 2 ^ 16 + pid in
    let held : update (update m₁ b word) node 0 b ≡ word =
      rw (ne→==-false b node (λ h. own (sym h)), eq→== b b refl) refl in
    let low : u16 word ≡ pid = omega arith in ap (λ (t : ℕ). u16 t) held ∙ low

pub queued-IsQueue :
    (pid node n : ℕ) (ns : List ℕ) (s : Procs) (k : Kernel)
    → s.queue_start ≡ n
    → IsNewNode node n ns k
    → IsQueue n (ns ++ node ∷ []) (queued pid node (last n ns) s k)
unfolding queued
queued-IsQueue pid node n ns s k start new =
    let b : ℕ = u32 (node + 4) in
    let m₁ : ℕ → ℕ = update k.mem (last n ns) node in
    let word : ℕ = m₁ b / 2 ^ 16 * 2 ^ 16 + pid in
    let m₃ : ℕ → ℕ = update (update m₁ b word) node 0 in
    record {
      start = start;
      end_ = sym (last-append node n ns);
      chain =
          IsChain-frame (two k.mem (last n ns) node node 0) m₃ n (ns ++ node ∷ [])
            (All-between k.mem (last n ns) node b word node 0 (n ∷ ns ++ node ∷ [])
              (append-All (λ p. p ≢ b) (n ∷ ns) node new.pid_apart new.own_pid))
            (IsChain-append k.mem node n ns new.unlisted new.kept);
    }

-- `proc_queue_add` to a queue of the nodes `n ∷ ns`, whose last node is not at address 0: where
-- `kmalloc` returns a node apart from these and keeps them, the call returns, the queue has that
-- node behind the others, and the node holds the PID.
pub proc_queue_add-IsQueue :
    (memory : Memory) (pid node n : ℕ) (ns : List ℕ) (s : Procs) (k : Kernel)
    → IsQueue n ns s
    → last n ns ≢ 0
    → pid < 2 ^ 16
    → memory.kmalloc 8 s.kernel ≡ ok (node, k)
    → IsNewNode node n ns k
    → (s' : Procs) × (proc_queue_add memory pid s ≡ ok s')
      × IsQueue n (ns ++ node ∷ []) s'
      × (get_pid node s'.kernel ≡ pid)
proc_queue_add-IsQueue memory pid node n ns s k is some_end small got new = (
  queued pid node (last n ns) s k,
  queue_add_runs memory pid node (last n ns) s k is.end_ some_end got,
  queued-IsQueue pid node n ns s k is.start new,
  queued-pid pid node (last n ns) s k small new.own_pid,
)
