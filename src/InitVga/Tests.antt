-- ===== src/InitVga/Tests.antt =====
-- Runs of the driver of the boot phase.
use trash_os.Base.{[], ◌∷◌, arith}
use trash_os.InitVga.{InitVga, init_scrolldown, init_vga_write}
use trash_os.InitVga.Rows.{IsScrolled, init_scrolldown-IsScrolled}
use trash_os.InitVga.Inside.{IsOnScreen, Stays, init_vga_write-Stays}

-- The cursor stands at the last place of the screen.
abbrev corner : InitVga
corner = record { row = 24; col = 79; color = 7; buffer = λ q. q }

corner-IsOnScreen : IsOnScreen corner
corner-IsOnScreen = record { row = omega arith; col = omega arith }

init_scrolldown-IsScrolled_example : IsScrolled corner (init_scrolldown 1 corner)
init_scrolldown-IsScrolled_example = init_scrolldown-IsScrolled corner (omega arith) (omega arith)

init_vga_write-Stays_example : Stays corner (init_vga_write (b'o' ∷ b'k' ∷ b'\n' ∷ []) corner)
init_vga_write-Stays_example =
    init_vga_write-Stays (b'o' ∷ b'k' ∷ b'\n' ∷ []) corner corner-IsOnScreen
