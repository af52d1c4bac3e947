-- ===== src/Print/Radix.antt =====
-- The octal, hexadecimal and pointer printers.
use trash_os.Base.{
  ℕ, zero, suc, ◌+◌, ◌-◌, ◌*◌, ◌/◌, ◌%◌, ◌^◌, ◌≤◌, ◌<◌, ◌≡◌, ◌⊎◌, refl, sym, ap, ◌∙◌, inl, inr,
  arith, bit_and, List, ◌∷◌, length, All, get_or,
}
use trash_os.Base.Bits.{bit_and_low, bit_and_page, mod-mul, pow_split}
use trash_os.Base.Runs.{ok}
use trash_os.Math.Logs.{ilog2u_bounds}
use trash_os.Print.Numbers.{
  Printed, printed, hex, big_hex, shift_loop, print_oct, print_nibbles, print_hex, print_big_hex,
  print_ptr,
}
use trash_os.Print.Digits.{
  Row, Row-zero, Row-suc, Row-IsNumeral, IsNumeral, IsTable, nibble-ok, hex-IsTable,
  big_hex-IsTable, load_num-bytes_of, length-bytes_of, digit_value, read_number,
}
use trash_os.Print.Directive.{bytes_of}
use native.Mathlib.Nat.{
  one-le-pow, pow-suc, pow-zero, pow-le-pow_right, mod-eq_of_lt, mod-lt, mul_comm, mod-one, mod-mod,
}

pow_pow : (w r : ℕ) → 2 ^ (w * r) ≡ (2 ^ w) ^ r
pow_pow w zero =
    ap (λ (t : ℕ). 2 ^ t) (let e : w * 0 ≡ 0 = omega arith in e) ∙ sym (pow-zero (2 ^ w))
pow_pow w (suc r) =
    ap (λ (t : ℕ). 2 ^ t) (let e : w * suc r ≡ w * r + w = omega arith in e)
    ∙ sym (pow_split (w * r) w)
    ∙ ap (λ (t : ℕ). t * 2 ^ w) (pow_pow w r)
    ∙ sym (pow-suc (2 ^ w) r)

base_le : (w : ℕ) → w ≤ 4 → 2 ^ w ≤ 16
base_le w narrow = pow-le-pow_right {n = 2} (omega arith) {i = w} {j = 4} narrow

module _ (table : List ℕ) (is : IsTable table) (w : ℕ) (narrow : w ≤ 4) where
  -- Each round takes the next `w` bits.
  pub shift_loop-Row :
      (r num : ℕ) → Row (2 ^ w) r (num % (2 ^ w) ^ r) (shift_loop table w (2 ^ w - 1) r num)
  unfolding shift_loop
  shift_loop-Row zero num =
      let none : num % (2 ^ w) ^ 0 ≡ 0 = ap (λ (t : ℕ). num % t) (pow-zero (2 ^ w)) ∙ mod-one num in
      rw none (Row-zero (2 ^ w))
  shift_loop-Row (suc r) num =
      let base : ℕ = 2 ^ w in
      let base_pos : 1 ≤ base = one-le-pow w 2 (omega arith) in
      let d : ℕ = num / base ^ r % base in
      let d_small : d < base = mod-lt (num / base ^ r) base_pos in
      let masked : bit_and (num / 2 ^ (w * r)) (base - 1) ≡ d =
        ap (λ (t : ℕ). bit_and (num / t) (base - 1)) (pow_pow w r)
        ∙ bit_and_low w (num / base ^ r) in
      let split : num % base ^ suc r ≡ d * base ^ r + num % base ^ r =
        ap (λ (t : ℕ). num % t) (pow-suc base r ∙ mul_comm (base ^ r) base)
        ∙ mod-mul (base ^ r) base num (one-le-pow r base base_pos) base_pos in
      let digit : d < 16 = omega (arith, base_le w narrow) in
      rw (masked, nibble-ok table d digit, split)
        (Row-suc (get_or table d 0) d (is d digit) d_small (shift_loop-Row r num))

-- The rounds for a logarithm `l` cover every bit, and no more than the first digit needs.
module _ (w l num : ℕ) (pos : 0 < w) where
  covers : num < 2 ^ suc l → num < (2 ^ w) ^ suc (l / w)
  covers below =
      let le : suc l ≤ w * suc (l / w) = grind (arith, div_floor) in
      let pow : 2 ^ suc l ≤ 2 ^ (w * suc (l / w)) =
        pow-le-pow_right {n = 2} (omega arith) {i = suc l} {j = w * suc (l / w)} le in
      omega (arith, pow, pow_pow w (suc (l / w)))
    where
      div_floor : l < w * (l / w) + w
      div_floor = grind arith

  fits_first : (l ≡ 0) ⊎ (2 ^ l ≤ num) → (l / w ≡ 0) ⊎ ((2 ^ w) ^ (l / w) ≤ num)
  fits_first (inl z) = inl (rw z (grind arith))
  fits_first (inr le) = inr (
      let under : w * (l / w) ≤ l = grind arith in
      let pow = pow-le-pow_right {n = 2} (omega arith) {i = w * (l / w)} {j = l} under in
      omega (arith, pow, pow_pow w (l / w)))

num_small : (size v : ℕ) → size ≤ 8 → v % 2 ^ (8 * size) < 2 ^ 64
num_small size v fits = omega (
  arith,
  mod-lt v (one-le-pow (8 * size) 2 (omega arith)),
  pow-le-pow_right {n = 2} (omega arith) {i = 8 * size} {j = 64} (omega arith),
)

-- A value of at most 8 bytes is printed as its octal numeral, and the number of characters is
-- returned.
pub print_oct-IsNumeral :
    (size v : ℕ)
    → size ≤ 8
    → (out : Printed) × (print_oct (bytes_of size v) ≡ ok out)
      × IsNumeral 8 (v % 2 ^ (8 * size)) out
unfolding print_oct
print_oct-IsNumeral size v fits =
    let num : ℕ = v % 2 ^ (8 * size) in
    let (l, runs, below, first, few) = ilog2u_bounds 64 num (num_small size v fits) (omega arith) in
    let whole : num % 8 ^ suc (l / 3) ≡ num = mod-eq_of_lt (covers 3 l num (omega arith) below) in
    let row : Row 8 (suc (l / 3)) num (shift_loop hex 3 7 (suc (l / 3)) num) =
      rw whole at (shift_loop-Row hex hex-IsTable 3 (omega arith) (suc (l / 3)) num) in
    let more : l / 3 + 1 ≡ suc (l / 3) = omega arith in
    rw (load_num-bytes_of size v fits, runs, more, row.runs, row.size)
      (
        printed row.chars (suc (l / 3)),
        refl,
        Row-IsNumeral (l / 3) row (fits_first 3 l num (omega arith) first),
      )

print_nibbles-IsNumeral :
    (table : List ℕ) (is : IsTable table) (size v : ℕ)
    → size ≤ 8
    → (out : Printed) × (print_nibbles table (bytes_of size v) ≡ ok out)
      × IsNumeral 16 (v % 2 ^ (8 * size)) out
unfolding print_nibbles
print_nibbles-IsNumeral table is size v fits =
    let num : ℕ = v % 2 ^ (8 * size) in
    let (l, runs, below, first, few) = ilog2u_bounds 64 num (num_small size v fits) (omega arith) in
    let whole : num % 16 ^ suc (l / 4) ≡ num = mod-eq_of_lt (covers 4 l num (omega arith) below) in
    let row : Row 16 (suc (l / 4)) num (shift_loop table 4 15 (suc (l / 4)) num) =
      rw whole at (shift_loop-Row table is 4 (omega arith) (suc (l / 4)) num) in
    let start : bit_and l (2 ^ 32 - 1 - 0x3) ≡ l / 4 * 4 = bit_and_page 2 30 l (omega arith) in
    let rounds : l / 4 * 4 / 4 + 1 ≡ suc (l / 4) = omega arith in
    rw (load_num-bytes_of size v fits, runs, start, rounds, row.runs)
      (
        printed row.chars (suc (l / 4)),
        refl,
        Row-IsNumeral (l / 4) row (fits_first 4 l num (omega arith) first),
      )

-- A value of at most 8 bytes is printed as its hexadecimal numeral, with either table of digits,
-- and the number of characters is returned.
pub print_hex-IsNumeral :
    (size v : ℕ)
    → size ≤ 8
    → ((out : Printed) × (print_hex (bytes_of size v) ≡ ok out)
        × IsNumeral 16 (v % 2 ^ (8 * size)) out)
      × ((out : Printed) × (print_big_hex (bytes_of size v) ≡ ok out)
          × IsNumeral 16 (v % 2 ^ (8 * size)) out)
unfolding print_hex print_big_hex
print_hex-IsNumeral size v fits = (
  print_nibbles-IsNumeral hex hex-IsTable size v fits,
  print_nibbles-IsNumeral big_hex big_hex-IsTable size v fits,
)

-- A pointer of `size` bytes is printed as `0x` and all its `2 * size` digits, and 18 is returned
-- for every size.
pub print_ptr_lem :
    (size v : ℕ)
    → size ≤ 8
    → (cs : List ℕ) × (print_ptr (bytes_of size v) ≡ ok (printed (b'0' ∷ b'x' ∷ cs) 18))
      × (length cs ≡ 2 * size)
      × All (λ c. digit_value c < 16) cs
      × (read_number 16 0 cs ≡ v % 2 ^ (8 * size))
unfolding print_ptr
print_ptr_lem size v fits =
    let num : ℕ = v % 2 ^ (8 * size) in
    let row = shift_loop-Row hex hex-IsTable 4 (omega arith) (2 * size) num in
    let pow : 16 ^ (2 * size) ≡ 2 ^ (8 * size) =
      sym (pow_pow 4 (2 * size))
      ∙ ap (λ (t : ℕ). 2 ^ t) (let e : 4 * (2 * size) ≡ 8 * size = omega arith in e) in
    let whole : num % 16 ^ (2 * size) ≡ num =
      ap (λ (t : ℕ). num % t) pow ∙ mod-mod v (2 ^ (8 * size)) in
    rw (load_num-bytes_of size v fits, length-bytes_of size v, row.runs)
      (row.chars, refl, row.size, row.digits, row.value 0 ∙ omega (arith, whole))
