-- ===== src/Vga/Tests.antt =====
-- Runs of the text mode driver.
use trash_os.Base.{ℕ, ◌≡◌, refl, List, [], ◌∷◌, arith}
use trash_os.Vga.{Vga, vga_write, vga_reset, vga_color_default, vga_entry}
use trash_os.Vga.Sheet.{Sheet, Shows, type_text, blank_sheet, vga_write-Shows, vga_write-vga_reset}

abbrev screen : Vga
screen = record {
  pos = 1999;
  color = vga_color_default;
  base = 0xb8000;
  buffer = λ q. vga_entry b' ' vga_color_default;
}

abbrev hello : List ℕ
hello = b'h' ∷ b'i' ∷ b'\n' ∷ b'!' ∷ []

abbrev blank_page : Sheet
blank_page = record { cells = λ q. vga_entry b' ' vga_color_default; top = 0; cursor = 1999 }

screen-Shows : Shows screen blank_page
screen-Shows = record {
  window = λ q h. refl;
  blank = λ q h. refl;
  cursor = refl;
  inside = omega arith;
}

vga_write-vga_reset_example :
    Shows
      (vga_write hello (vga_reset screen))
      (type_text vga_color_default hello (blank_sheet vga_color_default))
vga_write-vga_reset_example = vga_write-vga_reset hello screen

vga_write-Shows_example :
    Shows (vga_write hello screen) (type_text vga_color_default hello blank_page)
    × ((vga_write hello screen).color ≡ vga_color_default)
vga_write-Shows_example = vga_write-Shows hello screen-Shows
