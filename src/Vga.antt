-- ===== src/Vga.antt =====
-- kernel/arch/i386/vga.c and vga.h: the text-mode driver. `VGA_WIDTH` and `VGA_SIZE` are never
-- written, so they are constants. The buffer is a function from the entry's index.
mod Tests
pub mod Scroll
pub mod Sheet
pub mod Writes
use trash_os.Base.{
  ℕ, zero, suc, ◌+◌, ◌-◌, ◌*◌, ◌%◌, ◌^◌, bit_or, List, [], ◌∷◌, leb, ◌==◌, if◌then◌else◌, u8, u16,
  u32, sub32, ◌<<◌, update,
}

abbrev pub vga_width : ℕ
vga_width = 80

abbrev pub vga_height : ℕ
vga_height = 25

abbrev pub vga_size : ℕ
vga_size = 2000

-- `VGA_COLOR_LIGHT_GREY | VGA_COLOR_BLACK << 4`
abbrev pub vga_color_default : ℕ
vga_color_default = 7

-- `vga_pos`, `vga_color`, the address in `vga_buffer`, and the entries that stand there.
pub record Vga : Type 0 where
  pub pos : ℕ
  pub color : ℕ
  pub base : ℕ
  pub buffer : ℕ → ℕ

unfoldable pub vga_entry_color : ℕ → ℕ → ℕ
vga_entry_color fg bg = u8 (bit_or fg (u8 bg << 4))

unfoldable pub vga_entry : ℕ → ℕ → ℕ
vga_entry uc color = u16 (bit_or (u8 uc) (color << 8))

unfoldable pub vga_putentryat : ℕ → ℕ → ℕ → Vga → Vga
vga_putentryat c color pos s = record s { buffer = update s.buffer pos (vga_entry c color) }

-- `vga_buffer[p] = vga_buffer[p + lines * VGA_WIDTH]`, rounds left and then the index.
unfoldable pub copy_loop : ℕ → ℕ → ℕ → (ℕ → ℕ) → ℕ → ℕ
copy_loop lines zero p b = b
copy_loop lines (suc left) p b =
    copy_loop lines left (p + 1) (update b p (b (p + lines * vga_width)))

-- `vga_putentryat(' ', vga_color, p)`
unfoldable pub fill_loop : ℕ → ℕ → Vga → Vga
fill_loop zero p s = s
fill_loop (suc left) p s = fill_loop left (p + 1) (vga_putentryat b' ' s.color p s)

unfoldable pub vga_scrolldown : ℕ → Vga → Vga
vga_scrolldown lines s =
    let kept = sub32 vga_size (u32 (vga_width * lines)) in
    let copied = record s { buffer = copy_loop lines kept 0 s.buffer } in
    let filled = fill_loop (vga_size - kept) kept copied in
    record filled { pos = sub32 s.pos (u32 (lines * vga_width)) }

unfoldable pub vga_linebreak : Vga → Vga
vga_linebreak s =
    let moved = record s { pos = u32 (s.pos + (vga_width - s.pos % vga_width)) } in
    if moved.pos == vga_size then vga_scrolldown 1 moved else moved

unfoldable pub vga_putc : ℕ → Vga → Vga
vga_putc c s =
    let room = if leb vga_size s.pos then vga_scrolldown 1 s else s in
    if c == b'\n'
    then vga_linebreak room
    else (let put = vga_putentryat c room.color room.pos room in
        record put { pos = u32 (put.pos + 1) })

-- The characters of `data`, one after another.
unfoldable pub vga_write : List ℕ → Vga → Vga
vga_write [] s = s
vga_write (c ∷ cs) s = vga_write cs (vga_putc c s)

-- `vga_clear`, and then the cursor at the top.
unfoldable pub vga_clear : Vga → Vga
vga_clear s = fill_loop vga_size 0 s

unfoldable pub vga_set_position : ℕ → ℕ → Vga → Vga
vga_set_position row col s = record s { pos = u32 (vga_width * row + col) }

unfoldable pub vga_reset : Vga → Vga
vga_reset s = vga_set_position 0 0 (vga_clear s)

unfoldable pub vga_map_buffer : ℕ → Vga → Vga
vga_map_buffer new_buffer s = record s { base = new_buffer }
