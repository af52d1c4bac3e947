-- ===== src/Proc/Rounds.antt =====
-- Fairness: the processes of the queue run one after the other.
use mathlib.Core.Path.{subst}
use mathlib.Core.List.{append_assoc}
use trash_os.Base.{ℕ, zero, suc, ◌+◌, ◌≡◌, sym, ap, ◌∙◌, arith, List, [], ◌∷◌, ◌++◌}
use trash_os.Base.Runs.{ok, ◌>>=◌}
use trash_os.Proc.{proc_next}
use trash_os.Proc.Table.{Procs}
use trash_os.Proc.Ticks.{slices, ticks, bind_step}
use trash_os.Proc.Plan.{Plan, IsTurn}
use trash_os.Proc.Advance.{turn_cons}

-- The number of slices of the processes of some nodes.
abbrev pub total : Plan → List ℕ → ℕ
total p [] = 0
total p (n ∷ ns) = p.priority n + total p ns

ticks-add : (fuel a b : ℕ) (s : Procs) → ticks fuel (a + b) s ≡ (ticks fuel a s >>= ticks fuel b)
ticks-add fuel zero b s = let z : 0 + b ≡ b = omega arith in ap (λ n. ticks fuel n s) z
ticks-add fuel (suc a) b s =
    let z : suc a + b ≡ suc (a + b) = omega arith in
    ap (λ n. ticks fuel n s) z
    ∙ bind_step (ticks fuel (a + b)) (ticks fuel a) (ticks fuel b) (ticks-add fuel a b)
        (proc_next fuel s)

-- At the start of a turn, every process of the queue gets its turn, after exactly as many timer
-- interrupts as the current process has slices left and the processes in between have priorities:
-- the scheduler returns, that process is current and alone RUNNING with its priority in slices, and
-- the queue is rotated to it.
pub ticks-IsTurn :
    (p : Plan) (n : ℕ) (before : List ℕ) (m : ℕ) (after : List ℕ) (s : Procs)
    → IsTurn p n (before ++ m ∷ after) s
    → (s' : Procs) × (ticks p.fuel (slices s + total p before) s ≡ ok s')
      × IsTurn p m (after ++ n ∷ before) s'
      × (slices s' ≡ p.priority m)
ticks-IsTurn p n [] m after s is =
    let (s', runs, next, count, same) = turn_cons p n m after s is in
    let z : slices s + 0 ≡ slices s = omega arith in
    (s', ap (λ c. ticks p.fuel c s) z ∙ runs, next, count)
ticks-IsTurn p n (b ∷ bs) m after s is =
    let (s₁, runs, next, count, same) = turn_cons p n b (bs ++ m ∷ after) s is in
    let (s', runs', next', count') =
      ticks-IsTurn p b bs m (after ++ n ∷ []) s₁
        (subst (λ l. IsTurn p b l s₁) (append_assoc bs (m ∷ after) (n ∷ [])) next) in
    (
      s',
      ticks-add p.fuel (slices s) (p.priority b + total p bs) s
          ∙ ap (λ r. r >>= ticks p.fuel (p.priority b + total p bs)) runs
          ∙ ap (λ c. ticks p.fuel (c + total p bs) s₁) (sym count)
          ∙ runs',
      subst (λ l. IsTurn p m l s') (append_assoc after (n ∷ []) (b ∷ bs)) next',
      count',
    )

total-append : (p : Plan) (bs : List ℕ) (m : ℕ) → total p (bs ++ m ∷ []) ≡ total p bs + p.priority m
total-append p [] m = omega arith
total-append p (b ∷ bs) m = let h = total-append p bs m in omega arith

-- From the start of a turn in a queue of two processes or more, after as many timer interrupts as the
-- current process has slices left and all the others have priorities, the queue is as it was: the
-- same process is current and alone RUNNING, now with its priority in slices.
pub ticks_round :
    (p : Plan) (n : ℕ) (ns : List ℕ) (m : ℕ) (s : Procs)
    → IsTurn p n (ns ++ m ∷ []) s
    → (s' : Procs) × (ticks p.fuel (slices s + total p (ns ++ m ∷ [])) s ≡ ok s')
      × IsTurn p n (ns ++ m ∷ []) s'
      × (slices s' ≡ p.priority n)
ticks_round p n ns m s is =
    let (s₁, runs, next, count) = ticks-IsTurn p n ns m [] s is in
    let (s', runs', next', count', same) = turn_cons p m n ns s₁ next in
    let e = total-append p ns m in
    let z : slices s + total p (ns ++ m ∷ []) ≡ slices s + total p ns + slices s₁ = omega arith in
    (
      s',
      ap (λ c. ticks p.fuel c s) z
          ∙ ticks-add p.fuel (slices s + total p ns) (slices s₁) s
          ∙ ap (λ r. r >>= ticks p.fuel (slices s₁)) runs
          ∙ runs',
      next',
      count',
    )
