-- ===== src/Print/Signed.antt =====
-- `_print_dec_signed` for the sizes up to an `int`.
use trash_os.Base.{
  ℕ, zero, suc, ◌+◌, ◌-◌, ◌*◌, ◌/◌, ◌%◌, ◌^◌, ◌≤◌, ◌<◌, ◌≡◌, ◌⊎◌, refl, sym, ap, ◌∙◌, inl, inr,
  arith, bit_and, bit_or, ◌∷◌, ◌==◌, if◌then◌else◌, ltb, u64, sub64, get_or, eq→==, ne→==-false,
  true, false, Bool-cases, ltb→lt, ltb-false→le,
}
use trash_os.Base.Bits.{bit_and_low, bit_and_page, bit_and_high, bit_or_disjoint, bit_or_comm}
use trash_os.Base.Runs.{Run, ok, ◌>>=◌}
use trash_os.Math.{ilog10u}
use trash_os.Math.Logs.{ilog10u_bounds}
use trash_os.Print.Numbers.{
  Printed, printed, hex, signed_loop, print_magnitude, sign_mask, print_dec_signed,
}
use trash_os.Print.Digits.{
  Row, Row-zero, Row-suc, Row-IsNumeral, IsNumeral, nibble-ok, hex-IsTable, load_num-bytes_of,
  length-bytes_of,
}
use trash_os.Print.Decimal.{digit_small, div64-digit, sub64-digit, log_small}
use trash_os.Print.Directive.{bytes_of}
use native.Mathlib.Nat.{
  one-le-pow, div-add-mod', mod-lt, mod-eq_of_lt, pow-suc, pow-le-pow_right, zero-mul, div-eq_of_lt,
  div-eq_of_lt-le,
}

signed_loop-Row :
    (fuel j num : ℕ) → 11 ≤ fuel → j ≤ 19 → num < 10 ^ j → Row 10 j num (signed_loop fuel j num)
unfolding signed_loop
signed_loop-Row fuel zero num enough few small =
    let none : num ≡ 0 = omega arith in rw none (Row-zero 10)
signed_loop-Row fuel (suc j) num enough few small =
    let d : ℕ = num / 10 ^ j in
    let d_small : d < 10 = digit_small fuel j num enough few small in
    let rest =
      signed_loop-Row fuel j (num % 10 ^ j) enough (omega arith)
        (mod-lt num (one-le-pow j 10 (omega arith))) in
    let row = Row-suc (get_or hex d 0) d (hex-IsTable d (omega arith)) d_small rest in
    rw
      (
        div64-digit fuel j num enough few small,
        nibble-ok hex d (omega arith),
        sub64-digit fuel j num enough few small,
      )
      (rw (div-add-mod' num (10 ^ j)) at row)

print_magnitude-IsNumeral :
    (fuel num : ℕ)
    → 11 ≤ fuel
    → num < 10 ^ 19
    → (out : Printed) × (print_magnitude fuel num ≡ ok out) × IsNumeral 10 num out
unfolding print_magnitude
print_magnitude-IsNumeral fuel num enough small =
    let (few, below, first) = ilog10u_bounds num (omega arith) in
    let j : ℕ = ilog10u num in
    let row = signed_loop-Row fuel (suc j) num enough (log_small num first small) below in
    let more : j + 1 ≡ suc j = omega arith in
    rw (more, row.runs) (printed row.chars (suc j), refl, Row-IsNumeral j row first)

-- The mask meets the sign bit, and the extension fills the bits above the value.
record Extends (size num : ℕ) : Type 0 where
  mask : ℕ
  masked : sign_mask size ≡ ok mask
  sign : bit_and num mask ≡ num / 2 ^ (8 * size - 1) * 2 ^ (8 * size - 1)
  wide :
      bit_or num (if size == 8 then 0 else u64 ((2 ^ 64 - 1) * 2 ^ (size * 8)))
      ≡ 2 ^ 64 - 2 ^ (8 * size) + num

one_bit : (k num : ℕ) → num / 2 ^ k < 2 → bit_and num (2 ^ k) ≡ num / 2 ^ k * 2 ^ k
one_bit k num small =
    let q : ℕ = num / 2 ^ k in
    ap (λ (t : ℕ). bit_and t (2 ^ k)) (sym (div-add-mod' num (2 ^ k)))
    ∙ ap (bit_and (q * 2 ^ k + num % 2 ^ k)) (let e : 2 ^ k ≡ 1 * 2 ^ k = omega arith in e)
    ∙ bit_and_high k q (num % 2 ^ k) 1 (mod-lt num (one-le-pow k 2 (omega arith)))
    ∙ ap (λ (t : ℕ). t * 2 ^ k) (bit_and_low 1 q ∙ mod-eq_of_lt small)

sizes_extend : (size num : ℕ) → 0 < size → size ≤ 4 → num < 2 ^ (8 * size) → Extends size num
unfolding sign_mask
sizes_extend zero num pos fits small = absurd (omega arith)
sizes_extend (suc zero) num pos fits small = record {
  mask = 2 ^ 7;
  masked = refl;
  sign = one_bit 7 num (omega arith);
  wide = bit_or_comm num _ ∙ bit_or_disjoint 8 (2 ^ 56 - 1) num (omega arith);
}
sizes_extend (suc (suc zero)) num pos fits small = record {
  mask = 2 ^ 15;
  masked = refl;
  sign = one_bit 15 num (omega arith);
  wide = bit_or_comm num _ ∙ bit_or_disjoint 16 (2 ^ 48 - 1) num (omega arith);
}
sizes_extend (suc (suc (suc zero))) num pos fits small = record {
  mask = 2 ^ 23;
  masked = refl;
  sign = one_bit 23 num (omega arith);
  wide = bit_or_comm num _ ∙ bit_or_disjoint 24 (2 ^ 40 - 1) num (omega arith);
}
sizes_extend (suc (suc (suc (suc zero)))) num pos fits small = record {
  mask = 2 ^ 64 - 2 ^ 31;
  masked = refl;
  sign = bit_and_page 31 33 num (omega arith);
  wide = bit_or_comm num _ ∙ bit_or_disjoint 32 (2 ^ 32 - 1) num (omega arith);
}
sizes_extend (suc (suc (suc (suc (suc size))))) num pos fits small = absurd (omega arith)

-- `out` is the two's complement number of `size` bytes with the pattern `num`: the numeral itself,
-- or a minus sign and the numeral of the absolute value.
abbrev pub IsSigned : ℕ → ℕ → Printed → Type 0
IsSigned size num out =
    ((num < 2 ^ (8 * size - 1)) × IsNumeral 10 num out)
    ⊎ ((2 ^ (8 * size - 1) ≤ num)
        × ((abs : Printed) × (out ≡ printed (b'-' ∷ abs.chars) (1 + abs.bytes))
            × IsNumeral 10 (2 ^ (8 * size) - num) abs))

-- The test of the sign bit, with the mask and the extension as arithmetic.
sign_split :
    (fuel size num : ℕ)
    → 11 ≤ fuel
    → (ext : Extends size num) → 2 ^ (8 * size) ≡ 2 ^ (8 * size - 1) * 2
    → 1 ≤ 2 ^ (8 * size - 1)
    → num < 2 ^ (8 * size)
    → 2 ^ (8 * size) ≤ 2 ^ 32
    → let wide = bit_or num (if size == 8 then 0 else u64 ((2 ^ 64 - 1) * 2 ^ (size * 8))) in
      let minus : Run Printed =
        print_magnitude fuel (sub64 0 wide) >>= λ r. ok (printed (b'-' ∷ r.chars) (1 + r.bytes)) in
      (out : Printed) × ((if bit_and num ext.mask == 0 then print_magnitude fuel num else minus)
        ≡ ok out)
      × IsSigned size num out
sign_split fuel size num enough ext full half_pos small top =
    elim (Bool-cases (ltb num (2 ^ (8 * size - 1)))) [
      | inl below ↦
          let lt : num < 2 ^ (8 * size - 1) = ltb→lt _ _ below in
          let (out, runs, is) = print_magnitude-IsNumeral fuel num enough (omega arith) in
          let off : (bit_and num ext.mask == 0) ≡ true = eq→== _ 0 (
            ext.sign
            ∙ ap (λ (t : ℕ). t * 2 ^ (8 * size - 1)) (div-eq_of_lt lt)
            ∙ zero-mul (2 ^ (8 * size - 1))) in
          rw off (out, runs, inl (lt, is))
      | inr above ↦
          let ge : 2 ^ (8 * size - 1) ≤ num = ltb-false→le _ _ above in
          let one : num / 2 ^ (8 * size - 1) ≡ 1 =
            div-eq_of_lt-le {k = 1} (2 ^ (8 * size - 1)) (omega arith) (omega arith) in
          let on : (bit_and num ext.mask == 0) ≡ false =
            ne→==-false _ 0
              (λ z. absurd (omega (arith, ext.sign, ap (λ (t : ℕ). t * 2 ^ (8 * size - 1)) one))) in
          let (abs, runs, is) =
            print_magnitude-IsNumeral fuel (2 ^ (8 * size) - num) enough (omega arith) in
          let flip : sub64 0 (2 ^ 64 - 2 ^ (8 * size) + num) ≡ 2 ^ (8 * size) - num = omega arith in
          rw (on, ext.wide, flip, runs)
            (printed (b'-' ∷ abs.chars) (1 + abs.bytes), refl, inr (ge, (abs, refl, is)))
    ]

-- The bytes of an `int` or a shorter type are printed as the two's complement number that they
-- hold. Eleven units of fuel are enough for each division.
pub print_dec_signed-IsSigned :
    (fuel size v : ℕ)
    → 11 ≤ fuel
    → 0 < size
    → size ≤ 4
    → (out : Printed) × (print_dec_signed fuel (bytes_of size v) ≡ ok out)
      × IsSigned size (v % 2 ^ (8 * size)) out
unfolding print_dec_signed
print_dec_signed-IsSigned fuel size v enough pos fits =
    let num : ℕ = v % 2 ^ (8 * size) in
    let full : 2 ^ (8 * size) ≡ 2 ^ (8 * size - 1) * 2 =
      ap (λ (t : ℕ). 2 ^ t) (let e : 8 * size ≡ suc (8 * size - 1) = omega arith in e)
      ∙ pow-suc 2 (8 * size - 1) in
    let half_pos : 1 ≤ 2 ^ (8 * size - 1) = one-le-pow (8 * size - 1) 2 (omega arith) in
    let small : num < 2 ^ (8 * size) = mod-lt v (one-le-pow (8 * size) 2 (omega arith)) in
    let top : 2 ^ (8 * size) ≤ 2 ^ 32 =
      pow-le-pow_right {n = 2} (omega arith) {i = 8 * size} {j = 32} (omega arith) in
    let ext = sizes_extend size num pos fits small in
    rw (load_num-bytes_of size v (omega arith), length-bytes_of size v, ext.masked)
      (sign_split fuel size num enough ext full half_pos small top)
