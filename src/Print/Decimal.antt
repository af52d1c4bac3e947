-- ===== src/Print/Decimal.antt =====
-- `_print_dec_unsigned` prints the decimal numeral, as long as the value is below 10 ^ 19.
use trash_os.Base.{
  ℕ, zero, suc, ◌+◌, ◌*◌, ◌/◌, ◌%◌, ◌^◌, ◌≤◌, ◌<◌, ◌≡◌, ◌⊎◌, refl, ap, ◌∙◌, inl, inr, arith, u32,
  u64, sub64, get_or, Bool-cases, leb, leb→le, leb-false→lt,
}
use trash_os.Base.Runs.{ok}
use trash_os.Math.{exp10_at, ilog10u, div64}
use trash_os.Math.Divide.{div64-div}
use trash_os.Math.Logs.{exp10-pow, ilog10u_bounds}
use trash_os.Print.Numbers.{Printed, printed, hex, dec_loop, print_dec_unsigned}
use trash_os.Print.Digits.{
  Row, Row-zero, Row-suc, Row-IsNumeral, IsNumeral, nibble-ok, hex-IsTable, load_num-bytes_of,
}
use trash_os.Print.Directive.{bytes_of}
use native.Mathlib.Nat.{
  one-le-pow, pow-suc, div-lt_iff_lt-mul, div-add-mod', pow-le-pow_right, mod-lt, mul_comm,
}

-- One decimal digit of a number with at most `j + 1 ≤ 19` of them.
module _ (fuel j num : ℕ) (enough : 11 ≤ fuel) (few : j < 19) (small : num < 10 ^ suc j) where
  pow_bound : 10 ^ j ≤ 10 ^ 18
  pow_bound = pow-le-pow_right {n = 10} (omega arith) {i = j} {j = 18} (omega arith)

  pow_pos : 1 ≤ 10 ^ j
  pow_pos = one-le-pow j 10 (omega arith)

  pub digit_small : num / 10 ^ j < 10
  digit_small = (div-lt_iff_lt-mul pow_pos).1 (omega (arith, pow-suc 10 j))

  pub num_bound : num < 10 ^ 19
  num_bound = omega (arith, pow-suc 10 j, pow_bound)

  pub div64-digit : div64 fuel num (exp10_at j) ≡ ok (num / 10 ^ j)
  div64-digit =
      ap (div64 fuel num) (exp10-pow j (omega arith))
      ∙ div64-div fuel num (10 ^ j) pow_pos
          (omega (
            arith,
            div-add-mod' num (10 ^ j),
            mul_comm (10 ^ j) (num / 10 ^ j),
            num_bound,
            pow_bound,
          ))
          (omega (arith, digit_small)) (omega (arith, digit_small))

  -- What is left are the digits below.
  pub sub64-digit : sub64 num (u64 (num / 10 ^ j * exp10_at j)) ≡ num % 10 ^ j
  sub64-digit =
      ap (λ (t : ℕ). sub64 num (u64 (num / 10 ^ j * t))) (exp10-pow j (omega arith))
      ∙ omega (arith, div-add-mod' num (10 ^ j), num_bound)

dec_loop-Row :
    (fuel j num : ℕ) → 11 ≤ fuel → j ≤ 19 → num < 10 ^ j → Row 10 j num (dec_loop fuel j num)
unfolding dec_loop
dec_loop-Row fuel zero num enough few small =
    let none : num ≡ 0 = omega arith in rw none (Row-zero 10)
dec_loop-Row fuel (suc j) num enough few small =
    let d : ℕ = num / 10 ^ j in
    let d_small : d < 10 = digit_small fuel j num enough few small in
    let cast : u32 d ≡ d = omega arith in
    let rest =
      dec_loop-Row fuel j (num % 10 ^ j) enough (omega arith)
        (mod-lt num (one-le-pow j 10 (omega arith))) in
    let row = Row-suc (get_or hex d 0) d (hex-IsTable d (omega arith)) d_small rest in
    rw
      (
        div64-digit fuel j num enough few small,
        cast,
        nibble-ok hex d (omega arith),
        sub64-digit fuel j num enough few small,
      )
      (rw (div-add-mod' num (10 ^ j)) at row)

-- A number below 10 ^ 19 has a logarithm below 19.
pub log_small :
    (num : ℕ) → (ilog10u num ≡ 0) ⊎ (10 ^ ilog10u num ≤ num) → num < 10 ^ 19 → ilog10u num < 19
log_small num (inl z) small = omega arith
log_small num (inr le) small = elim (Bool-cases (leb 19 (ilog10u num))) [
  | inl big ↦ absurd (
      omega (
        arith,
        pow-le-pow_right {n = 10} (omega arith) {i = 19} {j = ilog10u num} (leb→le _ _ big),
      ))
  | inr few ↦ leb-false→lt _ _ few
]

-- A value of at most 8 bytes that is below 10 ^ 19 is printed as its decimal numeral, and the
-- number of characters is returned. Eleven units of fuel are enough for each division.
pub print_dec_unsigned-IsNumeral :
    (fuel size v : ℕ)
    → 11 ≤ fuel
    → size ≤ 8
    → v % 2 ^ (8 * size) < 10 ^ 19
    → (out : Printed) × (print_dec_unsigned fuel (bytes_of size v) ≡ ok out)
      × IsNumeral 10 (v % 2 ^ (8 * size)) out
unfolding print_dec_unsigned
print_dec_unsigned-IsNumeral fuel size v enough fits small =
    let num : ℕ = v % 2 ^ (8 * size) in
    let (few, below, first) = ilog10u_bounds num (omega arith) in
    let j : ℕ = ilog10u num in
    let fewer : j < 19 = log_small num first small in
    let row = dec_loop-Row fuel (suc j) num enough fewer below in
    let more : j + 1 ≡ suc j = omega arith in
    rw (load_num-bytes_of size v fits, more, row.runs)
      (printed row.chars (suc j), refl, Row-IsNumeral j row first)
