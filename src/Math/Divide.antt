-- ===== src/Math/Divide.antt =====
-- `div64` is division where no product wraps, and does not end at the largest dividend.
use trash_os.Base.{
  ℕ, zero, suc, ◌+◌, ◌-◌, ◌*◌, ◌/◌, ◌%◌, ◌^◌, ◌≤◌, ◌<◌, ◌≡◌, refl, ap, ◌∙◌, true, false, arith, leb,
  u64, le→leb, lt→leb-false,
}
use trash_os.Base.Runs.{ok, out_of_fuel}
use trash_os.Math.{div64, div64_loop}

-- `res` counts up to the first product above `a = b * q + r`.
div64_loop-stop :
    (fuel k b q r res : ℕ)
    → r < b
    → b * q + b < 2 ^ 64
    → q < 2 ^ 63
    → res + k ≡ q + 1
    → k < fuel
    → div64_loop fuel res (b * q + r) b ≡ ok (q + 1)
unfolding div64_loop
div64_loop-stop zero k b q r res small fits qs e h = absurd (omega arith)
div64_loop-stop (suc fuel) zero b q r res small fits qs e h =
    let at : res ≡ q + 1 = omega arith in
    let prod : b * (q + 1) ≡ b * q + b = omega arith in
    let above : leb (u64 (b * (q + 1))) (b * q + r) ≡ false =
      lt→leb-false _ _ (omega (arith, prod)) in
    rw (at, above)
div64_loop-stop (suc fuel) (suc k) b q r res small fits qs e h =
    let res_le : res ≤ q = omega arith in
    let prod : b * res ≤ b * q = grind arith in
    let within : leb (u64 (b * res)) (b * q + r) ≡ true = le→leb _ _ (omega arith) in
    let next : u64 (res + 1) ≡ res + 1 = omega arith in
    rw (within, next)
      (div64_loop-stop fuel k b q r (res + 1) small fits qs (omega arith) (omega arith))

-- With room for one more multiple of `b` below `2 ^ 64`, `div64` is the quotient.
pub div64-div :
    (fuel a b : ℕ)
    → 0 < b
    → b * (a / b) + b < 2 ^ 64
    → a / b < 2 ^ 63
    → a / b + 1 < fuel
    → div64 fuel a b ≡ ok (a / b)
unfolding div64
div64-div fuel a b pos fits qs enough =
    let split : a ≡ b * (a / b) + a % b = grind arith in
    let stop : div64_loop fuel 0 a b ≡ ok (a / b + 1) =
      ap (λ (t : ℕ). div64_loop fuel 0 t b) split
      ∙ div64_loop-stop fuel (a / b + 1) b (a / b) (a % b) 0 (omega arith) fits qs (omega arith)
          enough in
    rw stop (ap (λ (t : ℕ). ok t) (omega arith))

div64_loop-top : (fuel res b : ℕ) → div64_loop fuel res (2 ^ 64 - 1) b ≡ out_of_fuel
unfolding div64_loop
div64_loop-top zero res b = refl
div64_loop-top (suc fuel) res b =
    let within : leb (u64 (b * res)) (2 ^ 64 - 1) ≡ true = le→leb _ _ (omega arith) in
    rw within (div64_loop-top fuel (u64 (res + 1)) b)

-- No amount of fuel ends the loop on the dividend `2 ^ 64 - 1`: every wrapped product is below it.
pub div64-top : (fuel b : ℕ) → div64 fuel (2 ^ 64 - 1) b ≡ out_of_fuel
unfolding div64
div64-top fuel b = rw (div64_loop-top fuel 0 b)
