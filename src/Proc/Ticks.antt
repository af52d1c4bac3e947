-- ===== src/Proc/Ticks.antt =====
-- `proc_next` counts the time of the current process down.
use mathlib.Core.Path.{fun_ext}
use trash_os.Base.{
  ℕ, zero, suc, ◌+◌, ◌-◌, ◌^◌, ◌<◌, ◌≡◌, ◌≢◌, refl, ap, ◌∙◌, arith, update, ◌==◌, Bool-cases, ◌⊎◌,
  inl, inr, eq→==, ne→==-false, u16,
}
use trash_os.Base.Runs.{Run, ok, undefined, halted, out_of_fuel, ◌>>=◌}
use trash_os.Proc.{proc_next, proc_switch, set_row}
use trash_os.Proc.Table.{Proc, Procs, running}

-- The number of time slices the current process has left.
abbrev pub slices : Procs → ℕ
slices s = (s.proc_table s.current).exec_count

-- `n` timer interrupts.
abbrev pub ticks : ℕ → ℕ → Procs → Run Procs
ticks fuel zero s = ok s
ticks fuel (suc n) s = proc_next fuel s >>= ticks fuel n

-- The state after some slices were used: the count of the current process is `c`.
abbrev pub count_down : ℕ → Procs → Procs
count_down c s = set_row s.current (record (s.proc_table s.current) { exec_count = c }) s

pub next_counts :
    (fuel : ℕ) (s : Procs)
    → 1 < slices s
    → slices s < 2 ^ 16
    → proc_next fuel s ≡ ok (count_down (slices s - 1) s)
unfolding proc_next set_row
next_counts fuel s more small =
    let wrap : u16 (slices s + (2 ^ 16 - 1)) ≡ slices s - 1 = omega arith in
    let on : slices s - 1 ≢ 0 = omega arith in rw (wrap, ne→==-false (slices s - 1) 0 on) refl

-- Exactly one process is RUNNING among those the table holds: the current one.
abbrev pub IsRunning : Procs → Type 0
IsRunning s =
    ((s.proc_table s.current).state ≡ running)
    × ((pid : ℕ) → pid ≢ s.current → (s.proc_table pid).state ≢ running)

pub update_self : {A : Type 0} (f : ℕ → A) (p : ℕ) (v : A) → update f p v p ≡ v
update_self f p v = rw (eq→== p p refl) refl

update_twice : {A : Type 0} (f : ℕ → A) (p : ℕ) (v w : A) → update (update f p v) p w ≡ update f p w
update_twice f p v w = fun_ext (λ q. at q)
  where
    at : (q : ℕ) → update (update f p v) p w q ≡ update f p w q
    at q = elim (Bool-cases (q == p)) [ inl t ↦ rw t refl | inr e ↦ rw e refl ]

with_count : ℕ → Proc → Proc
with_count c row = record row { exec_count = c }

pub count_down_twice : (c d : ℕ) (s : Procs) → count_down c (count_down d s) ≡ count_down c s
unfolding set_row with_count
count_down_twice c d s =
    let p = s.current in
    let t = s.proc_table in
    let t' = update t p (with_count d (t p)) in
    ap (λ (row : Proc). record s { proc_table = update t' p (with_count c row) })
      (update_self t p (with_count d (t p)))
    ∙ ap (λ (u : ℕ → Proc). record s { proc_table = u })
        (update_twice t p (with_count d (t p)) (with_count c (t p)))

pub slices-count_down : (c : ℕ) (s : Procs) → slices (count_down c s) ≡ c
unfolding set_row
slices-count_down c s =
    let row = s.proc_table s.current in
    ap (λ (r : Proc). r.exec_count)
      (update_self s.proc_table s.current (record row { exec_count = c }))

-- While more than `n + 1` slices are left, `n + 1` timer interrupts only take them off the count.
ticks_lem :
    (fuel n : ℕ) (s : Procs)
    → suc n < slices s
    → slices s < 2 ^ 16
    → ticks fuel (suc n) s ≡ ok (count_down (slices s - suc n) s)
ticks_lem fuel zero s more small = ap (λ r. r >>= ticks fuel 0) (next_counts fuel s more small)
ticks_lem fuel (suc n) s more small =
    let c = slices s - 1 in
    let e : slices (count_down c s) ≡ c = slices-count_down c s in
    let minus : slices (count_down c s) - suc n ≡ slices s - suc (suc n) = omega arith in
    ap (λ r. r >>= ticks fuel (suc n)) (next_counts fuel s (omega arith) small)
    ∙ ticks_lem fuel n (count_down c s) (omega arith) (omega arith)
    ∙ ap (λ x. ok (count_down x (count_down c s))) minus
    ∙ ap ok (count_down_twice (slices s - suc (suc n)) c s)

-- The interrupt at which the last slice is used.
pub next_over :
    (fuel : ℕ) (s : Procs) → slices s ≡ 1 → proc_next fuel s ≡ proc_switch fuel (count_down 0 s)
unfolding proc_next set_row
next_over fuel s one = let wrap : u16 (slices s + (2 ^ 16 - 1)) ≡ 0 = omega arith in rw wrap refl

pub ticks_one : (fuel : ℕ) (r : Run Procs) → (r >>= ticks fuel 0) ≡ r
ticks_one fuel (ok s) = refl
ticks_one fuel undefined = refl
ticks_one fuel halted = refl
ticks_one fuel out_of_fuel = refl

pub bind_step :
    (f g h : Procs → Run Procs)
    → ((s : Procs) → f s ≡ (g s >>= h))
    → (r : Run Procs) → (r >>= f) ≡ (r >>= g >>= h)
bind_step f g h at (ok s) = at s
bind_step f g h at undefined = refl
bind_step f g h at halted = refl
bind_step f g h at out_of_fuel = refl

ticks_end : (fuel n : ℕ) (s : Procs) → ticks fuel (suc n) s ≡ (ticks fuel n s >>= proc_next fuel)
ticks_end fuel zero s = ticks_one fuel (proc_next fuel s)
ticks_end fuel (suc n) s =
    bind_step (ticks fuel (suc n)) (ticks fuel n) (proc_next fuel) (ticks_end fuel n)
      (proc_next fuel s)

-- A process with at least one slice and fewer than 2 ^ 16 left keeps the processor for exactly these
-- slices: of `slices s` interrupts all but the last only count down, and the last one starts the
-- switch.
pub ticks-proc_switch :
    (fuel : ℕ) (s : Procs)
    → 0 < slices s
    → slices s < 2 ^ 16
    → ticks fuel (slices s) s ≡ proc_switch fuel (count_down 0 s)
ticks-proc_switch fuel s some_left small = elim (zero_or_more (slices s - 1)) [
  | inl none_left ↦
      let one : slices s ≡ 1 = omega arith in
      ap (λ m. ticks fuel m s) one ∙ ticks_one fuel (proc_next fuel s) ∙ next_over fuel s one
  | inr (n, e) ↦
      let all : slices s ≡ suc (suc n) = omega arith in
      let one : slices s - suc n ≡ 1 = omega arith in
      ap (λ m. ticks fuel m s) all
      ∙ ticks_end fuel (suc n) s
      ∙ ap (λ r. r >>= proc_next fuel) (ticks_lem fuel n s (omega arith) small)
      ∙ next_over fuel (count_down (slices s - suc n) s)
          (slices-count_down (slices s - suc n) s ∙ one)
      ∙ ap (proc_switch fuel) (count_down_twice 0 (slices s - suc n) s)
]
  where
    zero_or_more : (m : ℕ) → (m ≡ 0) ⊎ ((n : ℕ) × (m ≡ suc n))
    zero_or_more zero = inl refl
    zero_or_more (suc n) = inr (n, refl)
