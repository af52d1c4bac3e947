-- ===== src/Math/Logs.antt =====
-- `ilog10u` and `ilog2u` are the logarithms rounded down.
use trash_os.Base.{
  ℕ, zero, suc, ◌+◌, ◌/◌, ◌^◌, ◌≤◌, ◌<◌, ◌≡◌, refl, ap, inl, inr, arith, ◌==◌, Bool-cases, ◌∙◌,
  true, ◌≢◌, ◌⊎◌, if◌then◌else◌, ==→eq, eq→==, every, every-at, leb, leb→le, leb-false→lt,
}
use trash_os.Base.Runs.{ok}
use trash_os.Math.{exp10_at, ilog10u, ilog2u, ilog2u_loop}
use native.Mathlib.Nat.{pow-suc}

exp10-pow_table : every (λ j. exp10_at j == 10 ^ j) 20 ≡ true
unfolding every
exp10-pow_table = refl

-- The table holds the powers of ten.
pub exp10-pow : (j : ℕ) → j < 20 → exp10_at j ≡ 10 ^ j
exp10-pow j h = ==→eq _ _ (every-at (λ i. exp10_at i == 10 ^ i) j 20 h exp10-pow_table)

-- The ladder from rung `j` down.
ladder : ℕ → ℕ → ℕ
ladder zero v = 0
ladder (suc j) v = if leb (exp10_at (suc j)) v then suc j else ladder j v

ladder_bounds :
    (j v : ℕ)
    → j < 20
    → v < 10 ^ suc j
    → (ladder j v ≤ j) × (v < 10 ^ suc (ladder j v)) × ((ladder j v ≡ 0) ⊎ (10 ^ ladder j v ≤ v))
unfolding ladder
ladder_bounds zero v few small = (omega arith, small, inl refl)
ladder_bounds (suc j) v few small = elim (Bool-cases (leb (exp10_at (suc j)) v)) [
  | inl at ↦ rw at (
    omega arith,
    small,
    inr (omega (arith, leb→le (exp10_at (suc j)) v at, exp10-pow (suc j) few)),
  )
  | inr below ↦
      let lower : v < 10 ^ suc j =
        omega (arith, leb-false→lt (exp10_at (suc j)) v below, exp10-pow (suc j) few) in
      let (le, lt, ge) = ladder_bounds j v (omega arith) lower in
      rw below (omega (arith, le), lt, ge)
]

-- `ilog10u v` is below 20, `v` is below the next power of ten, and `10 ^ ilog10u v` is at most `v`
-- unless the logarithm is 0.
pub ilog10u_bounds :
    (v : ℕ)
    → v < 2 ^ 64
    → (ilog10u v < 20) × (v < 10 ^ suc (ilog10u v)) × ((ilog10u v ≡ 0) ⊎ (10 ^ ilog10u v ≤ v))
unfolding ilog10u ladder
ilog10u_bounds v h =
    let (le, lt, ge) = ladder_bounds 19 v (omega arith) (omega arith) in (omega (arith, le), lt, ge)

-- One more bit, where the half is not 0.
next_pow : (d v : ℕ) → (d ≡ 0) ⊎ (2 ^ d ≤ v / 2 ^ 1) → v / 2 ^ 1 ≢ 0 → 2 ^ suc d ≤ v
next_pow d v (inl z) some = rw z (omega arith)
next_pow d v (inr le) some = omega (arith, pow-suc 2 d)

-- The loop ends within the bits of `v`, `d` halvings after it began.
ilog2u_loop_bounds :
    (fuel v i : ℕ)
    → v < 2 ^ fuel
    → 0 < fuel
    → (d : ℕ) × (ilog2u_loop fuel v i ≡ ok (i + d))
      × (v < 2 ^ suc d)
      × ((d ≡ 0) ⊎ (2 ^ d ≤ v))
      × (d < fuel)
unfolding ilog2u_loop
ilog2u_loop_bounds zero v i small pos = absurd (omega arith)
ilog2u_loop_bounds (suc zero) v i small pos = (
  0,
  rw (eq→== (v / 2 ^ 1) 0 (omega arith)) (ap (λ (t : ℕ). ok t) (omega arith)),
  omega arith,
  inl refl,
  omega arith,
)
ilog2u_loop_bounds (suc (suc fuel)) v i small pos = elim (Bool-cases (v / 2 ^ 1 == 0)) [
  | inl done ↦ (
    0,
    rw done (ap (λ (t : ℕ). ok t) (omega arith)),
    omega (arith, ==→eq _ 0 done),
    inl refl,
    omega arith,
  )
  | inr more ↦
      let (d, runs, below, above, few) =
        ilog2u_loop_bounds (suc fuel) (v / 2 ^ 1) (i + 1) (omega (arith, pow-suc 2 (suc fuel)))
          (omega arith) in
      (
        suc d,
        rw more (runs ∙ ap (λ (t : ℕ). ok t) (omega arith)),
        omega (arith, below, pow-suc 2 (suc d)),
        inr (next_pow d v above (λ z. cc (eq→== _ 0 z))),
        omega (arith, few),
      )
]

-- With fuel for every bit of `v`, `ilog2u` returns a `d` below the fuel such that `v` is below
-- `2 ^ (d + 1)`, and `2 ^ d` is at most `v` unless `d` is 0.
pub ilog2u_bounds :
    (fuel v : ℕ)
    → v < 2 ^ fuel
    → 0 < fuel
    → (d : ℕ) × (ilog2u fuel v ≡ ok d) × (v < 2 ^ suc d) × ((d ≡ 0) ⊎ (2 ^ d ≤ v)) × (d < fuel)
unfolding ilog2u
ilog2u_bounds fuel v small pos =
    let (d, runs, below, above, few) = ilog2u_loop_bounds fuel v 0 small pos in
    (d, runs ∙ ap (λ (t : ℕ). ok t) (omega arith), below, above, few)
