-- ===== src/InitVga.antt =====
-- kernel/arch/i386/init_vga.c: the text mode driver of the boot phase. Its static functions have the
-- names of those in vga.c, and get the prefix `init_` here.
pub mod Rows
pub mod Inside
mod Tests
use trash_os.Base.{
  ℕ, zero, suc, ◌+◌, ◌-◌, ◌*◌, ◌%◌, ◌^◌, List, [], ◌∷◌, ◌==◌, if◌then◌else◌, u32, sub32, update,
}
use trash_os.Vga.{vga_entry}

abbrev pub init_vga_height : ℕ
init_vga_height = 25

abbrev pub init_vga_width : ℕ
init_vga_width = 80

-- `vga_row`, `vga_col`, `vga_color` and the entries from `init_vga_buffer` on.
pub record InitVga : Type 0 where
  pub row : ℕ
  pub col : ℕ
  pub color : ℕ
  pub buffer : ℕ → ℕ

unfoldable pub init_putentryat : ℕ → ℕ → ℕ → ℕ → InitVga → InitVga
init_putentryat c color x y s = record s {
  buffer = update s.buffer (u32 (y * init_vga_width + x)) (vga_entry c color);
}

-- The loops of `vga_scrolldown` over `x`, with `rounds` left: the copy and the fill of a row.
unfoldable pub copy_row : ℕ → ℕ → ℕ → ℕ → (ℕ → ℕ) → ℕ → ℕ
copy_row zero x y lines buffer = buffer
copy_row (suc rounds) x y lines buffer =
    let to_index = u32 (y * init_vga_width + x) in
    let from_index = u32 (to_index + lines * init_vga_width) in
    copy_row rounds (x + 1) y lines (update buffer to_index (buffer from_index))

unfoldable pub fill_row : ℕ → ℕ → ℕ → ℕ → (ℕ → ℕ) → ℕ → ℕ
fill_row zero x y entry buffer = buffer
fill_row (suc rounds) x y entry buffer =
    fill_row rounds (x + 1) y entry (update buffer (u32 (y * init_vga_width + x)) entry)

-- The loops over `y`.
unfoldable pub copy_rows : ℕ → ℕ → ℕ → (ℕ → ℕ) → ℕ → ℕ
copy_rows zero y lines buffer = buffer
copy_rows (suc rounds) y lines buffer =
    copy_rows rounds (y + 1) lines (copy_row init_vga_width 0 y lines buffer)

unfoldable pub fill_rows : ℕ → ℕ → ℕ → (ℕ → ℕ) → ℕ → ℕ
fill_rows zero y entry buffer = buffer
fill_rows (suc rounds) y entry buffer =
    fill_rows rounds (y + 1) entry (fill_row init_vga_width 0 y entry buffer)

unfoldable pub init_scrolldown : ℕ → InitVga → InitVga
init_scrolldown lines s =
    let start = sub32 init_vga_height lines in
    let moved = copy_rows start 0 lines s.buffer in
    record s {
      buffer = fill_rows (init_vga_height - start) start b' ' moved;
      row = sub32 s.row lines;
    }

unfoldable pub init_linebreak : InitVga → InitVga
init_linebreak s =
    let s' = record s { col = 0; row = u32 (s.row + 1) } in
    if s'.row == init_vga_height then init_scrolldown 1 s' else s'

unfoldable pub init_vga_putc : ℕ → InitVga → InitVga
init_vga_putc c s =
    let s₁ = init_putentryat c s.color s.col s.row s in
    let s₂ = record s₁ { col = u32 (s₁.col + 1) } in
    if c == b'\n'
    then init_linebreak s
    else if s₂.col == init_vga_width
    then init_linebreak s₂
    else s₂

unfoldable pub init_vga_write : List ℕ → InitVga → InitVga
init_vga_write [] s = s
init_vga_write (c ∷ cs) s = init_vga_write cs (init_vga_putc c s)

unfoldable pub init_vga_clear : InitVga → InitVga
init_vga_clear s = record s {
  buffer = fill_rows init_vga_height 0 (vga_entry b' ' s.color) s.buffer;
}
