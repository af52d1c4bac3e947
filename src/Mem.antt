-- ===== src/Mem.antt =====
-- kernel/arch/i386/mem.h: `align`. Addresses are 32-bit; the linker's symbols are parameters of
-- the code that reads them.
mod Tests
pub mod Align
use trash_os.Base.{ℕ, ◌+◌, ◌*◌, ◌%◌, ◌^◌, bit_and, ◌==◌, if◌then◌else◌, u32, sub32, not32}

-- `(addr & ~((uintptr_t)byte - 1)) + byte * ((addr & (byte - 1)) != 0)`
unfoldable pub align : ℕ → ℕ → ℕ
align addr byte = u32 (
    bit_and addr (not32 (sub32 byte 1))
    + byte * (if bit_and addr (sub32 byte 1) == 0 then 0 else 1))
