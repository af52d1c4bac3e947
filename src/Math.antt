-- ===== src/Math.antt =====
-- kernel/arch/i386/math.h: the table of powers of ten and the integer arithmetic of the printing
-- routines. The loops of `div64` and `ilog2u` take fuel.
mod Tests
pub mod Divide
pub mod Logs
use trash_os.Base.{
  ℕ, zero, suc, ◌+◌, ◌*◌, ◌%◌, ◌^◌, List, [], ◌∷◌, leb, ◌==◌, if◌then◌else◌, get_or, u64, sub64,
  ◌>>>◌,
}
use trash_os.Base.Runs.{Run, ok, out_of_fuel, ◌>>=◌}

-- Powers of 10
abbrev pub exp10 : List ℕ
exp10 =
    1 ∷ 10 ∷ 100 ∷ 1000 ∷ 10000 ∷ 100000 ∷ 1000000 ∷ 10000000 ∷ 100000000 ∷ 1000000000 ∷ 10000000000
    ∷ 100000000000 ∷ 1000000000000 ∷ 10000000000000 ∷ 100000000000000 ∷ 1000000000000000
    ∷ 10000000000000000 ∷ 100000000000000000 ∷ 1000000000000000000 ∷ 10000000000000000000 ∷ []

abbrev pub exp10_at : ℕ → ℕ
exp10_at j = get_or exp10 j 0

-- Integral log base 10, a ladder over the table.
unfoldable pub ilog10u : ℕ → ℕ
ilog10u v =
    if leb (exp10_at 19) v
    then 19
    else if leb (exp10_at 18) v
    then 18
    else if leb (exp10_at 17) v
    then 17
    else if leb (exp10_at 16) v
    then 16
    else if leb (exp10_at 15) v
    then 15
    else if leb (exp10_at 14) v
    then 14
    else if leb (exp10_at 13) v
    then 13
    else if leb (exp10_at 12) v
    then 12
    else if leb (exp10_at 11) v
    then 11
    else if leb (exp10_at 10) v
    then 10
    else if leb (exp10_at 9) v
    then 9
    else if leb (exp10_at 8) v
    then 8
    else if leb (exp10_at 7) v
    then 7
    else if leb (exp10_at 6) v
    then 6
    else if leb (exp10_at 5) v
    then 5
    else if leb (exp10_at 4) v
    then 4
    else if leb (exp10_at 3) v
    then 3
    else if leb (exp10_at 2) v
    then 2
    else if leb (exp10_at 1) v
    then 1
    else 0

-- `for (res = 0; b * res <= a; res++);` on `uint64_t`.
unfoldable pub div64_loop : ℕ → ℕ → ℕ → ℕ → Run ℕ
div64_loop zero res a b = out_of_fuel
div64_loop (suc fuel) res a b =
    let rest = div64_loop fuel (u64 (res + 1)) a b in if leb (u64 (b * res)) a then rest else ok res

unfoldable pub div64 : ℕ → ℕ → ℕ → Run ℕ
unfolding div64_loop
div64 fuel a b = do res ← div64_loop fuel 0 a b; ok (sub64 res 1)

-- `while (v >>= 1) i++;`
unfoldable pub ilog2u_loop : ℕ → ℕ → ℕ → Run ℕ
ilog2u_loop zero v i = out_of_fuel
ilog2u_loop (suc fuel) v i =
    let rest = ilog2u_loop fuel (v >>> 1) (i + 1) in if (v >>> 1) == 0 then ok i else rest

unfoldable pub ilog2u : ℕ → ℕ → Run ℕ
unfolding ilog2u_loop
ilog2u fuel v = ilog2u_loop fuel v 0
