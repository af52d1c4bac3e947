-- ===== src/Base/Words.antt =====
-- Fixed-width unsigned integers of C as native numbers: casts, shifts, wrapping arithmetic.
use Prim.Native.Nat.{ℕ, ◌+◌, ◌-◌, ◌*◌, ◌/◌, ◌%◌, ◌^◌}

abbrev pub u8 : ℕ → ℕ
u8 n = n % 2 ^ 8

abbrev pub u16 : ℕ → ℕ
u16 n = n % 2 ^ 16

abbrev pub u32 : ℕ → ℕ
u32 n = n % 2 ^ 32

abbrev pub u64 : ℕ → ℕ
u64 n = n % 2 ^ 64

-- `a - b` on `uint32_t`.
abbrev pub sub32 : ℕ → ℕ → ℕ
sub32 a b = (a + 2 ^ 32 - b) % 2 ^ 32

-- `a - b` on `uint64_t`.
abbrev pub sub64 : ℕ → ℕ → ℕ
sub64 a b = (a + 2 ^ 64 - b) % 2 ^ 64

-- `~a` on `uint32_t`.
abbrev pub not32 : ℕ → ℕ
not32 a = 2 ^ 32 - 1 - a

infixl 60 ◌<<◌ ◌>>>◌
abbrev pub ◌<<◌ : ℕ → ℕ → ℕ
x << k = x * 2 ^ k

abbrev pub ◌>>>◌ : ℕ → ℕ → ℕ
x >>> k = x / 2 ^ k

-- A bit field of `width` bits, from bit `low` on.
abbrev pub bits : ℕ → ℕ → ℕ → ℕ
bits v low width = v / 2 ^ low % 2 ^ width

-- The word with another value in a bit field.
abbrev pub set_bits : ℕ → ℕ → ℕ → ℕ → ℕ
set_bits v low width field =
    v / 2 ^ (low + width) * 2 ^ (low + width) + field % 2 ^ width * 2 ^ low + v % 2 ^ low
