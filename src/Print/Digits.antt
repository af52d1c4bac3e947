-- ===== src/Print/Digits.antt =====
-- What the character tables of _print.c stand for, and the value of a row of digits.
use trash_os.Base.{
  ℕ, zero, suc, ◌+◌, ◌-◌, ◌*◌, ◌/◌, ◌%◌, ◌^◌, ◌≤◌, ◌<◌, ◌≡◌, ◌⊎◌, refl, sym, true, ap, ◌∙◌, ◌&&◌,
  inl, inr, arith, List, [], ◌∷◌, length, All, leb, ◌==◌, if◌then◌else◌, get_or, every, every-at,
  ==→eq, bit_or, u64,
}
use trash_os.Base.Bits.{bit_or_disjoint, bit_or_comm, mod-mul, pow_split}
use trash_os.Base.Runs.{Run, ok, ◌>>=◌}
use trash_os.Print.Numbers.{Printed, printed, nibble, hex, big_hex, load_num}
use trash_os.Print.Directive.{bytes_of}
use native.Mathlib.Nat.{
  one-le-pow, mod-one, mod-eq_of_lt, pow-le-pow_right, mod-lt, mul-le-mul_right, pow-suc, pow-zero,
}

-- The digit that a character stands for, and 16 for any other character.
unfoldable pub digit_value : ℕ → ℕ
digit_value c =
    if leb b'0' c && leb c b'9'
    then c - b'0'
    else if leb b'a' c && leb c b'f'
    then c - b'a' + 10
    else if leb b'A' c && leb c b'F'
    then c - b'A' + 10
    else 16

-- The number that digits in a base denote, read from the left.
unfoldable pub read_number : ℕ → ℕ → List ℕ → ℕ
read_number base acc [] = acc
read_number base acc (c ∷ cs) = read_number base (acc * base + digit_value c) cs

-- `out` is `num` in the base: digits only, of that value, counted, and with no leading zero
-- unless there is one digit.
pub record IsNumeral (base num : ℕ) (out : Printed) : Type 0 where
  pub counted : out.bytes ≡ length out.chars
  pub digits : All (λ c. digit_value c < base) out.chars
  pub value : read_number base 0 out.chars ≡ num
  pub shortest :
      (length out.chars ≡ 1) ⊎ ((len : ℕ) × (length out.chars ≡ suc len) × (base ^ len ≤ num))

-- A table in which every nibble stands for itself.
abbrev pub IsTable : List ℕ → Type 0
IsTable table = (d : ℕ) → d < 16 → digit_value (get_or table d 0) ≡ d

hex_row : every (λ d. digit_value (get_or hex d 0) == d) 16 ≡ true
unfolding every digit_value
hex_row = refl

big_hex_row : every (λ d. digit_value (get_or big_hex d 0) == d) 16 ≡ true
unfolding every digit_value
big_hex_row = refl

pub hex-IsTable : IsTable hex
hex-IsTable d h = ==→eq _ _ (every-at (λ d. digit_value (get_or hex d 0) == d) d 16 h hex_row)

pub big_hex-IsTable : IsTable big_hex
big_hex-IsTable d h =
    ==→eq _ _ (every-at (λ d. digit_value (get_or big_hex d 0) == d) d 16 h big_hex_row)

pub nibble-ok : (table : List ℕ) (d : ℕ) → d < 16 → nibble table d ≡ ok (get_or table d 0)
unfolding nibble
nibble-ok table d h = ground arith

regroup : (h b p n : ℕ) → h * (2 ^ 8 * p) + (b * p + n) ≡ (h * 2 ^ 8 + b) * p + n
regroup h b p n = omega arith

-- The bytes are put together from the low end.
load_num-from :
    (size v i num : ℕ)
    → num < 2 ^ (8 * i)
    → i + size ≤ 8
    → load_num (bytes_of size v) i num ≡ v % 2 ^ (8 * size) * 2 ^ (8 * i) + num
unfolding load_num bytes_of
load_num-from zero v i num small fits =
    let none : v % 2 ^ (8 * 0) ≡ 0 = mod-one v in rw none (omega arith)
load_num-from (suc size) v i num small fits =
    let b : ℕ = v % 2 ^ 8 in
    let p : ℕ = 2 ^ (8 * i) in
    let p_pos = one-le-pow (8 * i) 2 in
    let next : 2 ^ (8 * (i + 1)) ≡ 2 ^ 8 * p =
      ap (λ (t : ℕ). 2 ^ t) (omega arith) ∙ sym (pow_split 8 (8 * i)) in
    let top : 2 ^ (8 * (i + 1)) ≤ 2 ^ 64 =
      pow-le-pow_right {n = 2} (omega arith) {i = 8 * (i + 1)} {j = 64} (omega arith) in
    let fits_byte : b * p + p ≤ 2 ^ 8 * p =
      omega (arith, mul-le-mul_right p (mod-lt v (let e : 0 < 2 ^ 8 = omega arith in e))) in
    let shifted : u64 (b * 2 ^ (i * 8)) ≡ b * p =
      ap (λ (t : ℕ). u64 (b * 2 ^ t)) (let e : i * 8 ≡ 8 * i = omega arith in e)
      ∙ mod-eq_of_lt (omega arith) in
    let joined : bit_or num (u64 (b * 2 ^ (i * 8))) ≡ b * p + num =
      ap (bit_or num) shifted ∙ bit_or_comm num (b * p) ∙ bit_or_disjoint (8 * i) b num small in
    let width : 2 ^ (8 * suc size) ≡ 2 ^ (8 * size) * 2 ^ 8 =
      ap (λ (t : ℕ). 2 ^ t) (omega arith) ∙ sym (pow_split (8 * size) 8) in
    let cut : v % 2 ^ (8 * suc size) ≡ v / 2 ^ 8 % 2 ^ (8 * size) * 2 ^ 8 + b =
      ap (λ (t : ℕ). v % t) width
      ∙ mod-mul (2 ^ 8) (2 ^ (8 * size)) v (omega arith) (one-le-pow (8 * size) 2 (omega arith)) in
    let high : ℕ = v / 2 ^ 8 % 2 ^ (8 * size) in
    ap (load_num (bytes_of size (v / 2 ^ 8)) (i + 1)) joined
    ∙ (load_num-from size (v / 2 ^ 8) (i + 1) (b * p + num) (omega arith) (omega arith)
        ∙ ap (λ (t : ℕ). high * t + (b * p + num)) next
        ∙ regroup high b p num
        ∙ ap (λ (t : ℕ). t * p + num) (sym cut))

-- A value written to memory and read back is cut to its size.
pub load_num-bytes_of :
    (size v : ℕ) → size ≤ 8 → load_num (bytes_of size v) 0 0 ≡ v % 2 ^ (8 * size)
load_num-bytes_of size v fits = load_num-from size v 0 0 (omega arith) (omega arith) ∙ omega arith

pub length-bytes_of : (size v : ℕ) → length (bytes_of size v) ≡ size
unfolding bytes_of
length-bytes_of zero v = refl
length-bytes_of (suc size) v = ap suc (length-bytes_of size (v / 2 ^ 8))

-- What a printing loop of some rounds puts out: as many digits, which denote `num`.
pub record Row (base rounds num : ℕ) (run : Run (List ℕ)) : Type 0 where
  pub chars : List ℕ
  pub runs : run ≡ ok chars
  pub size : length chars ≡ rounds
  pub digits : All (λ c. digit_value c < base) chars
  pub value : (acc : ℕ) → read_number base acc chars ≡ acc * base ^ rounds + num

one_time : (acc base : ℕ) → acc ≡ acc * base ^ 0 + 0
one_time acc base = rw (pow-zero base) (omega arith)

pub Row-zero : (base : ℕ) → Row base 0 0 (ok [])
unfolding read_number
Row-zero base = record {
  chars = [];
  runs = refl;
  size = refl;
  digits = tt;
  value = λ acc. one_time acc base;
}

carry : (acc base d p n : ℕ) → (acc * base + d) * p + n ≡ acc * (p * base) + (d * p + n)
carry acc base d p n = grind arith

-- A digit in front of a row.
pub Row-suc :
    {base rounds num : ℕ} {rest : Run (List ℕ)} (c d : ℕ)
    → digit_value c ≡ d
    → d < base
    → Row base rounds num rest
    → Row base (suc rounds) (d * base ^ rounds + num) (rest >>= λ cs. ok (c ∷ cs))
unfolding read_number
Row-suc {base} {rounds} {num} c d e small row = record {
  chars = c ∷ row.chars;
  runs = rw row.runs;
  size = ap suc row.size;
  digits = (rw e small, row.digits);
  value = λ acc.
      ap (λ (t : ℕ). read_number base (acc * base + t) row.chars) e
      ∙ row.value (acc * base + d)
      ∙ carry acc base d (base ^ rounds) num
      ∙ ap (λ (t : ℕ). acc * t + (d * base ^ rounds + num)) (sym (pow-suc base rounds));
}

-- A row with no leading zero is the numeral.
pub Row-IsNumeral :
    {base num : ℕ} {run : Run (List ℕ)} (len : ℕ) (row : Row base (suc len) num run)
    → (len ≡ 0) ⊎ (base ^ len ≤ num)
    → IsNumeral base num (printed row.chars (suc len))
Row-IsNumeral len row first = record {
  counted = sym row.size;
  digits = row.digits;
  value = row.value 0 ∙ omega arith;
  shortest = elim first [ inl z ↦ inl (row.size ∙ ap suc z) | inr le ↦ inr (len, row.size, le) ];
}
