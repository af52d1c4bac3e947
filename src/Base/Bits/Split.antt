-- ===== src/Base/Bits/Split.antt =====
-- `&` and `|` act on the high and on the low bits apart.
use trash_os.Base.Bits.Digit.{bit_and_digit, bit_or_digit}
use trash_os.Base.Bits.{bit_and-zero, bit_or-zero}
use Prim.Native.Nat.{ℕ, zero, suc, ◌+◌, ◌*◌, ◌/◌, ◌^◌, ◌<◌, bit_and, bit_or}
use mathlib.Core.Path.{◌≡◌, ap}
use native.Mathlib.Nat.{pow-suc}
use native.Mathlib.Omega.{arith}

double_pow : (q k : ℕ) → q * 2 ^ suc k ≡ 2 * (q * 2 ^ k)
double_pow q k = omega (arith, ap (λ (t : ℕ). q * t) (pow-suc 2 k))

pub bit_and_split :
    (k q r m s : ℕ)
    → r < 2 ^ k
    → s < 2 ^ k
    → bit_and (q * 2 ^ k + r) (m * 2 ^ k + s) ≡ bit_and q m * 2 ^ k + bit_and r s
bit_and_split zero q r m s small small' =
    let z : r ≡ 0 = omega arith in
    let z' : s ≡ 0 = omega arith in
    let e : q * 2 ^ 0 + r ≡ q = omega arith in
    let e' : m * 2 ^ 0 + s ≡ m = omega arith in rw (e, e', z, z', bit_and-zero 0) (omega arith)
bit_and_split (suc k) q r m s small small' = ground (
  arith,
  bit_and_digit (q * 2 ^ suc k + r) (m * 2 ^ suc k + s),
  bit_and_digit r s,
  double_pow q k,
  double_pow m k,
  double_pow (bit_and q m) k,
  bit_and_split k q (r / 2) m (s / 2) (omega arith) (omega arith),
)

pub bit_or_split :
    (k q r m s : ℕ)
    → r < 2 ^ k
    → s < 2 ^ k
    → bit_or (q * 2 ^ k + r) (m * 2 ^ k + s) ≡ bit_or q m * 2 ^ k + bit_or r s
bit_or_split zero q r m s small small' =
    let z : r ≡ 0 = omega arith in
    let z' : s ≡ 0 = omega arith in
    let e : q * 2 ^ 0 + r ≡ q = omega arith in
    let e' : m * 2 ^ 0 + s ≡ m = omega arith in rw (e, e', z, z', bit_or-zero 0) (omega arith)
bit_or_split (suc k) q r m s small small' = ground (
  arith,
  bit_or_digit (q * 2 ^ suc k + r) (m * 2 ^ suc k + s),
  bit_or_digit r s,
  double_pow q k,
  double_pow m k,
  double_pow (bit_or q m) k,
  bit_or_split k q (r / 2) m (s / 2) (omega arith) (omega arith),
)
