-- ===== src/Base/Bits.antt =====
-- `&` with a mask and `|` of disjoint fields as arithmetic, at every width.
mod Digit
pub mod Split
use Digit.{bit_and_digit, bit_or_digit}
use Prim.Native.Nat.{
  ℕ, zero, suc, ◌+◌, ◌-◌, ◌*◌, ◌/◌, ◌%◌, ◌^◌, ◌≤◌, ◌<◌, bit_and, bit_or, bit_or-bitwise,
}
use mathlib.Core.Path.{◌≡◌, refl, sym, ap, ◌∙◌}
use native.Mathlib.Nat.{
  pow-suc, one-le-pow, mod-eq_of_lt, mod-lt, div-add-mod', mul-add-mod_self_left, mul-le-mul_right,
}
use native.Mathlib.Omega.{arith}

-- `2 ^ (n + k)` as a product, at a variable exponent.
pub pow_split : (n k : ℕ) → 2 ^ n * 2 ^ k ≡ 2 ^ (n + k)
pow_split zero k = ap (λ (t : ℕ). 1 * 2 ^ t) (let e : k ≡ 0 + k = omega arith in e) ∙ omega arith
pow_split (suc n) k =
    let shift : suc n + k ≡ suc (n + k) = omega arith in
    rw (shift, pow-suc 2 n, pow-suc 2 (n + k), ← pow_split n k) (grind arith)

bit_or-zero_below : (n a : ℕ) → a ≤ n → bit_or a 0 ≡ a
bit_or-zero_below n zero h = refl
bit_or-zero_below zero (suc a) h = absurd (omega arith)
bit_or-zero_below (suc n) (suc a) h =
    omega (arith, bit_or_digit (suc a) 0, bit_or-zero_below n (suc a / 2) (omega arith))

bit_and-zero_below : (n a : ℕ) → a ≤ n → bit_and a 0 ≡ 0
bit_and-zero_below n zero h = refl
bit_and-zero_below zero (suc a) h = absurd (omega arith)
bit_and-zero_below (suc n) (suc a) h =
    omega (arith, bit_and_digit (suc a) 0, bit_and-zero_below n (suc a / 2) (omega arith))

pub bit_or-zero : (a : ℕ) → bit_or a 0 ≡ a
bit_or-zero a = bit_or-zero_below a a (omega arith)

pub bit_and-zero : (a : ℕ) → bit_and a 0 ≡ 0
bit_and-zero a = bit_and-zero_below a a (omega arith)

double_pow : (q k : ℕ) → q * 2 ^ suc k ≡ 2 * (q * 2 ^ k)
double_pow q k = omega (arith, ap (λ (t : ℕ). q * t) (pow-suc 2 k))

-- `(q << k) | r` is a sum where `r` has at most `k` bits.
pub bit_or_disjoint : (k q r : ℕ) → r < 2 ^ k → bit_or (q * 2 ^ k) r ≡ q * 2 ^ k + r
bit_or_disjoint zero q r small = ground (arith, bit_or-zero q)
bit_or_disjoint (suc k) q r small = ground (
  arith,
  bit_or_digit (q * 2 ^ suc k) r,
  double_pow q k,
  bit_or_disjoint k q (r / 2) (omega arith),
)

-- A bit that is set stays.
pub bit_or_one : (s : ℕ) → s % 2 ≡ 0 → bit_or (s + 1) 1 ≡ s + 1
bit_or_one s even = omega (arith, bit_or_digit (s + 1) 1, zero_above)
  where
    zero_above : bit_or ((s + 1) / 2) (1 / 2) ≡ (s + 1) / 2
    zero_above = bit_or-zero ((s + 1) / 2)

-- A mask whose low `k` bits are clear keeps what it keeps of the high bits.
pub bit_and_high :
    (k q r m : ℕ) → r < 2 ^ k → bit_and (q * 2 ^ k + r) (m * 2 ^ k) ≡ bit_and q m * 2 ^ k
bit_and_high zero q r m small = omega (
  arith,
  ap (λ (t : ℕ). bit_and t (m * 2 ^ 0)) (let e : q * 2 ^ 0 + r ≡ q = omega arith in e),
  ap (λ (t : ℕ). bit_and q t) (let e : m * 2 ^ 0 ≡ m = omega arith in e),
)
bit_and_high (suc k) q r m small = ground (
  arith,
  bit_and_digit (q * 2 ^ suc k + r) (m * 2 ^ suc k),
  double_pow q k,
  double_pow m k,
  double_pow (bit_and q m) k,
  bit_and_high k q (r / 2) m (omega arith),
)

bit_and_low_field : (k q r : ℕ) → r < 2 ^ k → bit_and (q * 2 ^ k + r) (2 ^ k - 1) ≡ r
bit_and_low_field zero q r small = omega (arith, bit_and-zero (q * 2 ^ 0 + r))
bit_and_low_field (suc k) q r small = ground (
  arith,
  bit_and_digit (q * 2 ^ suc k + r) (2 ^ suc k - 1),
  double_pow q k,
  pow-suc 2 k,
  one-le-pow k 2,
  bit_and_low_field k q (r / 2) (omega arith),
)

-- A mask of `k` ones is the remainder by `2 ^ k`.
pub bit_and_low : (k a : ℕ) → bit_and a (2 ^ k - 1) ≡ a % 2 ^ k
bit_and_low k a = ground (arith, one-le-pow k 2, bit_and_low_field k (a / 2 ^ k) (a % 2 ^ k))

-- A mask of `n` ones above `k` zeros clears the low `k` bits of a number of `n + k` bits.
pub bit_and_page :
    (k n a : ℕ) → a / 2 ^ k < 2 ^ n → bit_and a ((2 ^ n - 1) * 2 ^ k) ≡ a / 2 ^ k * 2 ^ k
bit_and_page k n a small =
    let quot : ℕ = a / 2 ^ k in
    let rest : ℕ = a % 2 ^ k in
    let split : a ≡ quot * 2 ^ k + rest = grind (arith, one-le-pow k 2) in
    ap (λ (t : ℕ). bit_and t ((2 ^ n - 1) * 2 ^ k)) split
    ∙ bit_and_high k quot rest (2 ^ n - 1) (omega (arith, one-le-pow k 2))
    ∙ ap (λ (t : ℕ). t * 2 ^ k) (bit_and_low n quot ∙ mod-eq_of_lt small)

-- The remainder by a product, from the quotient.
pub mod-mul : (p w n : ℕ) → 0 < p → 0 < w → n % (w * p) ≡ n / p % w * p + n % p
mod-mul p w n pos_p pos_w =
    let q : ℕ = n / p in
    let low : ℕ = q % w * p + n % p in
    let split : n ≡ w * p * (q / w) + low =
      grind (arith, div-add-mod' n p, ap (λ (t : ℕ). t * p) (div-add-mod' q w)) in
    let small : low < w * p = omega (arith, mul-le-mul_right p (mod-lt q pos_w), mod-lt n pos_p) in
    ap (λ (t : ℕ). t % (w * p)) split
    ∙ mul-add-mod_self_left (w * p) (q / w) low
    ∙ mod-eq_of_lt small

bit_or_comm_below : (n a b : ℕ) → a ≤ n → bit_or a b ≡ bit_or b a
bit_or_comm_below n zero b h = bit_or-bitwise 0 b ∙ sym (bit_or-zero b)
bit_or_comm_below zero (suc a) b h = absurd (omega arith)
bit_or_comm_below (suc n) (suc a) b h = omega (
  arith,
  bit_or_digit (suc a) b,
  bit_or_digit b (suc a),
  bit_or_comm_below n (suc a / 2) (b / 2) (omega arith),
)

pub bit_or_comm : (a b : ℕ) → bit_or a b ≡ bit_or b a
bit_or_comm a b = bit_or_comm_below a a b (omega arith)
