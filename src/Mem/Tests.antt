-- ===== src/Mem/Tests.antt =====
-- A run of `align`.
use trash_os.Base.{◌+◌, ◌%◌, ◌^◌, ◌<◌, ◌≤◌, ◌≡◌, arith}
use trash_os.Mem.{align}
use trash_os.Mem.Align.{align_least}

align_least_example :
    (align 4097 (2 ^ 12) % 2 ^ 12 ≡ 0)
    × (4097 ≤ align 4097 (2 ^ 12))
    × (align 4097 (2 ^ 12) < 4097 + 2 ^ 12)
align_least_example = align_least 12 4097 (omega arith) (omega arith)
