-- ===== src/Proc/Queue.antt =====
-- The scheduling queue is a singly linked list in memory, which `queue_rotate` turns by one process
-- and `proc_queue_add` extends.
use trash_os.Base.{
  ℕ, ◌≡◌, ◌≢◌, refl, sym, ◌∙◌, List, [], ◌∷◌, ◌++◌, All, update, eq→==, ne→==-false,
}
use trash_os.Kernel.{load, store}
use trash_os.Proc.{queue_rotate}
use trash_os.Proc.Table.{Procs}

-- From node `n` the `next` pointers lead through the nodes `ns`, all of them distinct, to the end.
abbrev pub IsChain : (ℕ → ℕ) → ℕ → List ℕ → Type 0
IsChain mem n [] = mem n ≡ 0
IsChain mem n (m ∷ ns) = (mem n ≡ m) × All (λ p. p ≢ n) (m ∷ ns) × IsChain mem m ns

-- The last node of the nodes `n ∷ ns`.
abbrev pub last : ℕ → List ℕ → ℕ
last n [] = n
last n (m ∷ ns) = last m ns

-- The queue consists of the nodes `n ∷ ns`, in order.
pub record IsQueue (n : ℕ) (ns : List ℕ) (s : Procs) : Type 0 where
  pub start : s.queue_start ≡ n
  pub end_ : s.queue_end ≡ last n ns
  pub chain : IsChain s.kernel.mem n ns

-- The words of a memory that two stores change.
abbrev pub two : (ℕ → ℕ) → ℕ → ℕ → ℕ → ℕ → ℕ → ℕ
two mem a v b w = update (update mem a v) b w

pub two-else : (mem : ℕ → ℕ) (a v b w q : ℕ) → q ≢ a → q ≢ b → two mem a v b w q ≡ mem q
two-else mem a v b w q h h' = rw (ne→==-false q b h', ne→==-false q a h) refl

two-fst : (mem : ℕ → ℕ) (a v b w : ℕ) → a ≢ b → two mem a v b w a ≡ v
two-fst mem a v b w h = rw (ne→==-false a b h, eq→== a a refl) refl

two-snd : (mem : ℕ → ℕ) (a v b w : ℕ) → two mem a v b w b ≡ w
two-snd mem a v b w = rw (eq→== b b refl) refl

pub last-All : (P : ℕ → Type 0) (n : ℕ) (ns : List ℕ) → All P (n ∷ ns) → P (last n ns)
last-All P n [] h = h.0
last-All P n (m ∷ ns) h = last-All P m ns h.1

pub append-All : (P : ℕ → Type 0) (ns : List ℕ) (x : ℕ) → All P ns → P x → All P (ns ++ x ∷ [])
append-All P [] x h hx = (hx, tt)
append-All P (n ∷ ns) x h hx = (h.0, append-All P ns x h.1 hx)

-- The new last node `x` behind a chain that it is not part of.
pub IsChain-append :
    (mem : ℕ → ℕ) (x n : ℕ) (ns : List ℕ)
    → All (λ p. p ≢ x) (n ∷ ns)
    → IsChain mem n ns
    → IsChain (two mem (last n ns) x x 0) n (ns ++ x ∷ [])
IsChain-append mem x n [] out h =
    (two-fst mem n x x 0 out.0, (λ e. out.0 (sym e), tt), two-snd mem n x x 0)
IsChain-append mem x n (m ∷ ns) out (next, apart, rest) = (
  two-else mem (last m ns) x x 0 n (λ e. last-All (λ p. p ≢ n) m ns apart (sym e)) out.0 ∙ next,
  append-All (λ p. p ≢ n) (m ∷ ns) x apart (λ e. out.0 (sym e)),
  IsChain-append mem x m ns out.1 rest,
)

pub last-append : (x n : ℕ) (ns : List ℕ) → last n (ns ++ x ∷ []) ≡ x
last-append x n [] = refl
last-append x n (m ∷ ns) = last-append x m ns

-- A memory with the same words at the nodes has the same chain.
pub IsChain-frame :
    (mem mem' : ℕ → ℕ) (n : ℕ) (ns : List ℕ)
    → All (λ p. mem' p ≡ mem p) (n ∷ ns)
    → IsChain mem n ns
    → IsChain mem' n ns
IsChain-frame mem mem' n [] same h = same.0 ∙ h
IsChain-frame mem mem' n (m ∷ ns) same (next, apart, rest) =
    (same.0 ∙ next, apart, IsChain-frame mem mem' m ns same.1 rest)

-- What the queue becomes: the first node goes to the end.
abbrev pub IsRotated : ℕ → List ℕ → Procs → Type 0
IsRotated n [] s = IsQueue n [] s
IsRotated n (m ∷ ns) s = IsQueue m (ns ++ n ∷ []) s

-- In a queue of distinct nodes `n ∷ ns`, `queue_rotate` moves the first node behind the last one and
-- keeps the order of the others, whatever the length of the queue.
pub queue_rotate-IsRotated :
    (n : ℕ) (ns : List ℕ) (s : Procs) → IsQueue n ns s → IsRotated n ns (queue_rotate s)
unfolding queue_rotate load store
queue_rotate-IsRotated n [] s is =
    let h : (s.queue_start ≡ n) × (s.queue_end ≡ n) = (is.start, is.end_) in
    let same : update s.kernel.mem s.queue_end s.queue_start s.queue_start ≡ n =
      rw (h.1, h.0, eq→== n n refl) refl in
    record { start = same; end_ = h.0; chain = rw (h.1, h.0) (two-snd s.kernel.mem n n n 0) }
queue_rotate-IsRotated n (m ∷ ns) s is =
    let h : (s.queue_start ≡ n) × (s.queue_end ≡ last m ns) = (is.start, is.end_) in
    let c : IsChain s.kernel.mem n (m ∷ ns) = is.chain in
    let apart : n ≢ last m ns = λ e. last-All (λ p. p ≢ n) m ns c.1 (sym e) in
    record {
      start = rw (h.1, h.0, ne→==-false n (last m ns) apart) c.0;
      end_ = h.0 ∙ sym (last-append n m ns);
      chain = rw (h.1, h.0) (IsChain-append s.kernel.mem n m ns c.1 c.2);
    }
