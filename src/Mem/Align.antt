-- ===== src/Mem/Align.antt =====
-- `align` rounds up to a power of two.
use trash_os.Base.{
  ℕ, zero, suc, ◌+◌, ◌-◌, ◌*◌, ◌/◌, ◌%◌, ◌^◌, ◌≤◌, ◌<◌, ◌≡◌, ap, ◌∙◌, arith, ◌==◌, if◌then◌else◌,
  u32, sub32, not32, inl, inr, Bool-cases, ==→eq, eq→==,
}
use trash_os.Base.Bits.{pow_split, bit_and_low, bit_and_page}
use trash_os.Mem.{align}
use native.Mathlib.Nat.{pow-suc, one-le-pow, div-lt_iff_lt-mul, div-add-mod', mul-mod_left, mod-lt}

pred_mul : (w p : ℕ) → 1 ≤ w → (w - 1) * p + p ≡ w * p
pred_mul zero p h = absurd (omega arith)
pred_mul (suc v) p h = let down : suc v - 1 ≡ v = omega arith in rw down (omega arith)

-- `~(byte - 1)` has ones above the zeros of `byte - 1`.
high_mask : (w p : ℕ) → 1 ≤ p → 2 ≤ w → w * p ≡ 2 ^ 32 → not32 (sub32 p 1) ≡ (w - 1) * p
high_mask w p one_p two_w e =
    let half : 2 * p ≤ w * p = grind arith in
    let less = pred_mul w p (omega arith) in omega (arith, half, less)

-- `byte - 1` is the mask of the low bits.
low_mask : (w p : ℕ) → 1 ≤ p → 2 ≤ w → w * p ≡ 2 ^ 32 → sub32 p 1 ≡ p - 1
low_mask w p one_p two_w e = let half : 2 * p ≤ w * p = grind arith in omega (arith, half)

-- `align` without bit operations, for a divisor `p = 2 ^ k` of `2 ^ 32`.
align_arith :
    (n k addr : ℕ)
    → suc n + k ≡ 32
    → addr < 2 ^ 32
    → align addr (2 ^ k) ≡ u32 (addr / 2 ^ k * 2 ^ k + 2 ^ k * (if addr % 2 ^ k == 0 then 0 else 1))
unfolding align
align_arith n k addr e small =
    let whole : 2 ^ suc n * 2 ^ k ≡ 2 ^ 32 = pow_split (suc n) k ∙ ap (λ (t : ℕ). 2 ^ t) e in
    let one_k : 1 ≤ 2 ^ k = one-le-pow k 2 (omega arith) in
    let two_n : 2 ≤ 2 ^ suc n = omega (arith, pow-suc 2 n, one-le-pow n 2) in
    let quot : addr / 2 ^ k < 2 ^ suc n = (div-lt_iff_lt-mul one_k).1 (rw whole small) in
    rw (
      high_mask (2 ^ suc n) (2 ^ k) one_k two_n whole,
      low_mask (2 ^ suc n) (2 ^ k) one_k two_n whole,
      bit_and_page k (suc n) addr quot,
      bit_and_low k addr,
    )

round_up :
    (p addr : ℕ)
    → 1 ≤ p
    → addr + p ≤ 2 ^ 32
    → let r = u32 (addr / p * p + p * (if addr % p == 0 then 0 else 1)) in
      (r % p ≡ 0) × (addr ≤ r) × (r < addr + p)
round_up p addr pos fits = elim (Bool-cases (addr % p == 0)) [
  | inl exact ↦
      let r0 : addr % p ≡ 0 = ==→eq _ 0 exact in
      let same : u32 (addr / p * p + p * 0) ≡ addr = omega (arith, div-add-mod' addr p) in
      rw (exact, same) (r0, omega arith, omega arith)
  | inr over ↦
      let next : u32 (addr / p * p + p * 1) ≡ (addr / p + 1) * p =
        ground (arith, div-add-mod' addr p, eq→== (addr % p) 0) in
      rw (over, next)
        (
          mul-mod_left (addr / p + 1) p,
          ground (arith, div-add-mod' addr p, mod-lt addr pos),
          ground (arith, div-add-mod' addr p, eq→== (addr % p) 0),
        )
]

-- Where the next multiple of `2 ^ k` is at most `2 ^ 32 - 1`, `align` is the least multiple of
-- `2 ^ k` from `addr` on: it divides, it is at least `addr`, and it is less than `2 ^ k` above.
pub align_least :
    (k addr : ℕ)
    → k < 32
    → addr + 2 ^ k ≤ 2 ^ 32
    → (align addr (2 ^ k) % 2 ^ k ≡ 0)
      × (addr ≤ align addr (2 ^ k))
      × (align addr (2 ^ k) < addr + 2 ^ k)
align_least k addr few fits =
    let one_k : 1 ≤ 2 ^ k = one-le-pow k 2 (omega arith) in
    rw (align_arith (31 - k) k addr (omega arith) (omega arith)) (round_up (2 ^ k) addr one_k fits)
