-- ===== src/Print/Numbers.antt =====
-- The number printers of _print.c. A routine is given the bytes at `num_addr`, `num_size` of them,
-- in memory order.
use trash_os.Base.{
  ℕ, zero, suc, ◌+◌, ◌-◌, ◌*◌, ◌/◌, ◌^◌, bit_and, bit_or, List, [], ◌∷◌, ltb, ◌==◌, if◌then◌else◌,
  get_or, length, u32, u64, sub64, ◌<<◌, ◌>>>◌,
}
use trash_os.Base.Runs.{Run, ok, undefined, ◌>>=◌}
use trash_os.Math.{exp10_at, ilog10u, div64, ilog2u}

-- The characters put out, and the number of bytes that the routine returns.
pub record Printed : Type 0 where
  pub chars : List ℕ
  pub bytes : ℕ

abbrev pub printed : List ℕ → ℕ → Printed
printed cs n = record { chars = cs; bytes = n }

-- The character tables for nibbles.
abbrev pub hex : List ℕ
hex =
    b'0' ∷ b'1' ∷ b'2' ∷ b'3' ∷ b'4' ∷ b'5' ∷ b'6' ∷ b'7' ∷ b'8' ∷ b'9' ∷ b'a' ∷ b'b' ∷ b'c' ∷ b'd'
    ∷ b'e' ∷ b'f' ∷ []

abbrev pub big_hex : List ℕ
big_hex =
    b'0' ∷ b'1' ∷ b'2' ∷ b'3' ∷ b'4' ∷ b'5' ∷ b'6' ∷ b'7' ∷ b'8' ∷ b'9' ∷ b'A' ∷ b'B' ∷ b'C' ∷ b'D'
    ∷ b'E' ∷ b'F' ∷ []

-- A read of a table of 16 characters.
unfoldable pub nibble : List ℕ → ℕ → Run ℕ
nibble table digit = if ltb digit 16 then ok (get_or table digit 0) else undefined

-- `num |= (uint64_t)((uint8_t*)num_addr)[i] << i * BITS_PER_BYTE` from index `i` on.
unfoldable pub load_num : List ℕ → ℕ → ℕ → ℕ
load_num [] i num = num
load_num (b ∷ bs) i num = load_num bs (i + 1) (bit_or num (u64 (b << (i * 8))))

-- The loop of `_print_dec_unsigned` from digit `j - 1` down, with `j` rounds left.
unfoldable pub dec_loop : ℕ → ℕ → ℕ → Run (List ℕ)
dec_loop fuel zero num = ok []
dec_loop fuel (suc j) num = do
  q ← div64 fuel num (exp10_at j)
  let digit = u32 q
  c ← nibble hex digit
  rest ← dec_loop fuel j (sub64 num (u64 (digit * exp10_at j)))
  ok (c ∷ rest)

unfoldable pub print_dec_unsigned : ℕ → List ℕ → Run Printed
unfolding load_num dec_loop
print_dec_unsigned fuel mem = do
  let num = load_num mem 0 0
  let j = ilog10u num
  cs ← dec_loop fuel (j + 1) num
  ok (printed cs (j + 1))

-- `for (j = w * (r - 1); j >= 0; j -= w) VGA_PUTC(table[num >> j & mask])`, with `r` rounds left.
unfoldable pub shift_loop : List ℕ → ℕ → ℕ → ℕ → ℕ → Run (List ℕ)
shift_loop table w mask zero num = ok []
shift_loop table w mask (suc r) num = do
  c ← nibble table (bit_and (num >>> (w * r)) mask)
  rest ← shift_loop table w mask r num
  ok (c ∷ rest)

-- The shift `j` starts at `(ilog2u(num) / 3) * 3`, so there are `ilog2u(num) / 3 + 1` rounds.
unfoldable pub print_oct : List ℕ → Run Printed
unfolding load_num shift_loop
print_oct mem = do
  let num = load_num mem 0 0
  l ← ilog2u 64 num
  cs ← shift_loop hex 3 0x7 (l / 3 + 1) num
  ok (printed cs (length cs))

-- The shift starts at `ilog2u(num) & ~0x3`.
unfoldable pub print_nibbles : List ℕ → List ℕ → Run Printed
unfolding load_num shift_loop
print_nibbles table mem = do
  let num = load_num mem 0 0
  l ← ilog2u 64 num
  let j = bit_and l (2 ^ 32 - 1 - 0x3)
  cs ← shift_loop table 4 0xf (j / 4 + 1) num
  ok (printed cs ((j >>> 2) + 1))

unfoldable pub print_hex : List ℕ → Run Printed
unfolding print_nibbles
print_hex mem = print_nibbles hex mem

unfoldable pub print_big_hex : List ℕ → Run Printed
unfolding print_nibbles
print_big_hex mem = print_nibbles big_hex mem

-- The shift starts at `num_size * BITS_PER_BYTE - 4`. `sizeof(num)` is 8, whatever the size.
unfoldable pub print_ptr : List ℕ → Run Printed
unfolding load_num shift_loop
print_ptr mem = do
  let num = load_num mem 0 0
  cs ← shift_loop hex 4 0xf (2 * length mem) num
  ok (printed (b'0' ∷ b'x' ∷ cs) (2 + (8 << 1)))

-- `1 << (num_size * BITS_PER_BYTE - 1)` as an `int`, widened to 64 bits: a shift by 32 or more is
-- undefined, and the shift by 31 is the least `int`.
unfoldable pub sign_mask : ℕ → Run ℕ
sign_mask size =
    if ltb size 4
    then ok (2 ^ (size * 8 - 1))
    else if size == 4
    then ok (2 ^ 64 - 2 ^ 31)
    else undefined

unfoldable pub signed_loop : ℕ → ℕ → ℕ → Run (List ℕ)
signed_loop fuel zero num = ok []
signed_loop fuel (suc j) num = do
  q ← div64 fuel num (exp10_at j)
  c ← nibble hex q
  q' ← div64 fuel num (exp10_at j)
  rest ← signed_loop fuel j (sub64 num (u64 (q' * exp10_at j)))
  ok (c ∷ rest)

unfoldable pub print_magnitude : ℕ → ℕ → Run Printed
unfolding signed_loop
print_magnitude fuel num = do
  let j = ilog10u num
  cs ← signed_loop fuel (j + 1) num
  ok (printed cs (j + 1))

unfoldable pub print_dec_signed : ℕ → List ℕ → Run Printed
unfolding load_num print_magnitude sign_mask
print_dec_signed fuel mem = do
  let num = load_num mem 0 0
  mask ← sign_mask (length mem)
  let wide = bit_or num (if length mem == 8 then 0 else u64 ((2 ^ 64 - 1) << (length mem * 8)))
  let minus = do
    r ← print_magnitude fuel (sub64 0 wide)
    ok (printed (b'-' ∷ r.chars) (1 + r.bytes))
  if bit_and num mask == 0 then print_magnitude fuel num else minus
