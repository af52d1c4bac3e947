-- ===== src/InitVga/Inside.antt =====
-- The driver of the boot phase writes inside the screen and keeps its cursor there.
use trash_os.Base.{
  ℕ, ◌+◌, ◌*◌, ◌≤◌, ◌<◌, ◌≡◌, ◌≢◌, refl, ◌∙◌, arith, List, [], ◌∷◌, inl, inr, Bool-cases, ◌==◌,
  ==→eq, eq→==, ne→==-false, u32,
}
use trash_os.InitVga.{InitVga, init_putentryat, init_linebreak, init_vga_putc, init_vga_write}
use trash_os.InitVga.Rows.{init_scrolldown-IsScrolled}

-- The cursor is on the screen.
pub record IsOnScreen (s : InitVga) : Type 0 where
  pub row : s.row < 25
  pub col : s.col < 80

-- From `s` to `s'` no entry behind the screen changed, and the cursor is on the screen.
pub record Stays (s s' : InitVga) : Type 0 where
  pub cursor : IsOnScreen s'
  pub outside : (q : ℕ) → 2000 ≤ q → s'.buffer q ≡ s.buffer q

linebreak-Stays : (s : InitVga) → s.row < 25 → Stays s (init_linebreak s)
unfolding init_linebreak
linebreak-Stays s low = elim (Bool-cases (u32 (s.row + 1) == 25)) [
  | inl last ↦
      let e = ==→eq (u32 (s.row + 1)) 25 last in
      let below = record s { col = 0; row = u32 (s.row + 1) } in
      let scrolled = init_scrolldown-IsScrolled below (omega arith) (omega arith) in
      rw last (record {
        cursor = record {
          row = omega (arith, scrolled.up, e);
          col = omega (arith, scrolled.same_col);
        };
        outside = scrolled.outside;
      })
  | inr more ↦
      let ne : u32 (s.row + 1) ≢ 25 = λ e. let t = eq→== (u32 (s.row + 1)) 25 e in cc in
      rw more
        (record { cursor = record { row = omega arith; col = omega arith }; outside = λ q h. refl })
]

-- The screen with a character at the cursor, before the test for the end of the row.
typed : ℕ → InitVga → InitVga
unfolding init_putentryat
typed c s = record (init_putentryat c s.color s.col s.row s) { col = u32 (s.col + 1) }

typed-outside :
    (c : ℕ) (s : InitVga) → IsOnScreen s → (q : ℕ) → 2000 ≤ q → (typed c s).buffer q ≡ s.buffer q
unfolding typed
typed-outside c s on q h =
    let low = on.row in
    let few = on.col in
    let ne : q ≢ u32 (s.row * 80 + s.col) = omega arith in
    rw (ne→==-false q (u32 (s.row * 80 + s.col)) ne) refl

putc-Stays : (c : ℕ) (s : InitVga) → IsOnScreen s → Stays s (init_vga_putc c s)
unfolding init_vga_putc typed
putc-Stays c s on =
    let low = on.row in
    let few = on.col in
    elim (Bool-cases (c == b'\n')) [
      | inl line ↦ rw line (linebreak-Stays s low)
      | inr other ↦ elim (Bool-cases (u32 (s.col + 1) == 80)) [
        | inl full ↦
            let broken = linebreak-Stays (typed c s) low in
            rw (other, full)
              (record {
                cursor = broken.cursor;
                outside = λ q h. broken.outside q h ∙ typed-outside c s on q h;
              })
        | inr room ↦
            let ne : u32 (s.col + 1) ≢ 80 = λ e. let t = eq→== (u32 (s.col + 1)) 80 e in cc in
            rw (other, room)
              (record {
                cursor = record { row = low; col = omega arith };
                outside = typed-outside c s on;
              })
      ]
    ]

-- A text of any length, written with the cursor on the screen, changes no memory behind the 2000
-- entries of the screen and leaves the cursor on the screen.
pub init_vga_write-Stays :
    (cs : List ℕ) (s : InitVga) → IsOnScreen s → Stays s (init_vga_write cs s)
unfolding init_vga_write
init_vga_write-Stays [] s on = record { cursor = on; outside = λ q h. refl }
init_vga_write-Stays (c ∷ cs) s on =
    let first = putc-Stays c s on in
    let rest = init_vga_write-Stays cs (init_vga_putc c s) first.cursor in
    record { cursor = rest.cursor; outside = λ q h. rest.outside q h ∙ first.outside q h }
