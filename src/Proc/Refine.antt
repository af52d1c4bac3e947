-- ===== src/Proc/Refine.antt =====
-- The handler of the timer interrupt does what the abstract scheduler does.
use trash_os.Base.{
  ℕ, ◌≡◌, ◌≢◌, refl, sym, ap, ◌∙◌, List, [], ◌∷◌, All, update, ◌==◌, Bool-cases, inl, inr,
}
use trash_os.Base.Runs.{Run, ok, ◌>>=◌}
use trash_os.Kernel.{store}
use trash_os.Apic.{eoi, reg_at, lapic_send_eoi}
use trash_os.Proc.{proc_store_ctxt, proc_load_ctxt, set_row}
use trash_os.Proc.Table.{ProcCtxt, Proc, Procs}
use trash_os.Proc.Queue.{append-All}
use trash_os.Proc.Ticks.{slices, update_self}
use trash_os.Proc.Plan.{Plan, IsTurn}
use trash_os.Proc.Handler.{int_handle_proc_switch}
use trash_os.Proc.Spec.{Sched, turn_over, tick, resumed, Refines}
use trash_os.Proc.Next.{set_row-IsTurn, store-IsTurn, next-Nexts}

-- What the abstract scheduler does to the contexts and to the queue.
turn_over-saved :
    (p : Plan) (n : ℕ) (ns : List ℕ) (saved : ℕ → ProcCtxt) → (turn_over p n ns saved).saved ≡ saved
unfolding turn_over
turn_over-saved p n [] saved = refl
turn_over-saved p n (m ∷ ms) saved = refl

tick-saved :
    (p : Plan) (frame : ProcCtxt) (a : Sched)
    → (tick p frame a).saved ≡ update a.saved (p.pid a.head) frame
unfolding tick
tick-saved p frame a = elim (Bool-cases (a.left == 1)) [
  | inl t ↦ rw t (turn_over-saved p a.head a.rest (update a.saved (p.pid a.head) frame))
  | inr e ↦ rw e refl
]

turn_over-All :
    (P : ℕ → Type 0) (p : Plan) (n : ℕ) (ns : List ℕ) (saved : ℕ → ProcCtxt)
    → All P (n ∷ ns)
    → All P ((turn_over p n ns saved).head ∷ (turn_over p n ns saved).rest)
unfolding turn_over
turn_over-All P p n [] saved h = h
turn_over-All P p n (m ∷ ms) saved h = append-All P (m ∷ ms) n h.1 h.0

tick-All :
    (P : ℕ → Type 0) (p : Plan) (frame : ProcCtxt) (a : Sched)
    → All P (a.head ∷ a.rest)
    → All P ((tick p frame a).head ∷ (tick p frame a).rest)
unfolding tick
tick-All P p frame a h = elim (Bool-cases (a.left == 1)) [
  | inl t ↦ rw t (turn_over-All P p a.head a.rest (update a.saved (p.pid a.head) frame) h)
  | inr e ↦ rw e h
]

-- The contexts once that of the current process is stored.
stored-ctxt :
    (s : Procs) (frame : ProcCtxt) (saved : ℕ → ProcCtxt)
    → ((q : ℕ) → (s.proc_table q).ctxt ≡ saved q)
    → (q : ℕ) → ((proc_store_ctxt frame s).proc_table q).ctxt ≡ update saved s.current frame q
unfolding proc_store_ctxt set_row
stored-ctxt s frame saved same q = elim (Bool-cases (q == s.current)) [
  | inl t ↦ rw t refl
  | inr e ↦ rw e (same q)
]

-- Where the state of proc.c is that of the abstract scheduler, the handler of the timer interrupt
-- returns, whatever the context `frame` it interrupts: the state is that of the abstract scheduler
-- after a tick, and the context that is loaded is the one with which its current process goes on.
pub int_handle_proc_switch-Refines :
    (p : Plan) (lapic_reg : ℕ) (frame : ProcCtxt) (a : Sched) (s : Procs)
    → Refines p lapic_reg a s
    → (s' : Procs) × (int_handle_proc_switch p.fuel lapic_reg frame s
        ≡ ok (resumed p (tick p frame a), s'))
      × Refines p lapic_reg (tick p frame a) s'
unfolding int_handle_proc_switch proc_store_ctxt proc_load_ctxt lapic_send_eoi set_row
int_handle_proc_switch-Refines p l frame a s r =
    let cur = s.current in
    let row = record (s.proc_table cur) { ctxt = frame } in
    let s₁ = set_row cur row s in
    let is = r.turn in
    let turn₁ : IsTurn p a.head a.rest s₁ =
      set_row-IsTurn p a.head a.rest s row refl refl refl is.some_left is.word is in
    let left₁ : slices s₁ ≡ a.left =
      ap (λ (x : Proc). x.exec_count) (update_self s.proc_table cur row) ∙ r.left in
    let n = next-Nexts p frame a s₁ turn₁ left₁ in
    let s' = record (n.after) { kernel = store (reg_at l eoi) 0 n.after.kernel } in
    let saved : (q : ℕ) → (n.after.proc_table q).ctxt ≡ (tick p frame a).saved q = λ q.
      n.same q
      ∙ stored-ctxt s frame a.saved r.saved q
      ∙ ap (λ (x : ℕ). update a.saved x frame q) is.current
      ∙ sym (ap (λ (f : ℕ → ProcCtxt). f q) (tick-saved p frame a)) in
    (
      s',
      rw n.runs
          (ap (λ c. ok (c, s')) (saved n.after.current ∙ ap (tick p frame a).saved n.turn.current)),
      record {
        turn =
            store-IsTurn p _ _ n.after (reg_at l eoi) 0 r.eoi_free
              (tick-All (λ m. m ≢ reg_at l eoi) p frame a r.eoi_apart) n.turn;
        left = n.left;
        saved = saved;
        eoi_free = r.eoi_free;
        eoi_apart = tick-All (λ m. m ≢ reg_at l eoi) p frame a r.eoi_apart;
      },
    )

-- Timer interrupts at the contexts `frames`, and the contexts loaded at the end of each.
abbrev pub handle_all : ℕ → ℕ → List ProcCtxt → Procs → Run (List ProcCtxt × Procs)
handle_all fuel l [] s = ok ([], s)
handle_all fuel l (frame ∷ frames) s = do
  (loaded, s₁) ← int_handle_proc_switch fuel l frame s
  (rest, s₂) ← handle_all fuel l frames s₁
  ok (loaded ∷ rest, s₂)

-- The same of the abstract scheduler.
abbrev pub ticks_all : Plan → List ProcCtxt → Sched → Sched
ticks_all p [] a = a
ticks_all p (frame ∷ frames) a = ticks_all p frames (tick p frame a)

abbrev pub all_resumed : Plan → List ProcCtxt → Sched → List ProcCtxt
all_resumed p [] a = []
all_resumed p (frame ∷ frames) a =
    resumed p (tick p frame a) ∷ all_resumed p frames (tick p frame a)

-- Where the state of proc.c is that of the abstract scheduler, any number of timer interrupts is
-- handled, whatever the contexts interrupted: the contexts loaded are those of the abstract
-- scheduler, tick by tick, and the states still match.
pub handle_all-Refines :
    (p : Plan) (lapic_reg : ℕ) (frames : List ProcCtxt) (a : Sched) (s : Procs)
    → Refines p lapic_reg a s
    → (s' : Procs) × (handle_all p.fuel lapic_reg frames s ≡ ok (all_resumed p frames a, s'))
      × Refines p lapic_reg (ticks_all p frames a) s'
handle_all-Refines p l [] a s r = (s, refl, r)
handle_all-Refines p l (frame ∷ frames) a s r =
    let (s₁, runs, r₁) = int_handle_proc_switch-Refines p l frame a s r in
    let (s', runs', r') = handle_all-Refines p l frames (tick p frame a) s₁ r₁ in
    (s', rw (runs, runs') refl, r')
