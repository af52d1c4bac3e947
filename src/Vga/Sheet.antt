-- ===== src/Vga/Sheet.antt =====
-- The specification of the text mode: an endless sheet of entries, of which the screen shows 25
-- lines. Scrolling moves the window and no entry.
use mathlib.Core.Path.{subst}
use trash_os.Base.{
  ℕ, update, ◌+◌, ◌-◌, ◌%◌, ◌≤◌, ◌<◌, ◌≡◌, ◌∙◌, refl, sym, true, false, inl, inr, ap, arith, List,
  [], ◌∷◌, leb, ltb, ◌==◌, if◌then◌else◌, u32, Bool-cases, leb→le, leb-false→lt, le→leb,
  lt→leb-false, ltb→lt, lt→ltb, ltb-false→le,
}
use trash_os.Vga.{
  Vga, vga_size, vga_entry, vga_putentryat, vga_linebreak, vga_scrolldown, vga_putc, vga_write,
  vga_clear, vga_reset, vga_set_position, fill_loop,
}
use trash_os.Vga.Scroll.{vga_scrolldown_lem, fill_loop_lem}

-- `top` is the first entry in the window, and `cursor` where the next character goes.
pub record Sheet : Type 0 where
  pub cells : ℕ → ℕ
  pub top : ℕ
  pub cursor : ℕ

-- The window follows a cursor that has left it.
unfoldable pub follow : Sheet → Sheet
follow t = if leb (t.top + 2000) t.cursor then record t { top = t.top + 80 } else t

-- The start of the next line. `top` is the start of a line.
unfoldable pub new_line : Sheet → Sheet
new_line t = follow (record t { cursor = t.cursor + (80 - (t.cursor - t.top) % 80) })

-- One character of colour `color`.
unfoldable pub type_char : ℕ → ℕ → Sheet → Sheet
type_char color c t =
    let room = follow t in
    if c == b'\n' then new_line room else record room {
      cells = update room.cells room.cursor (vga_entry c color);
      cursor = room.cursor + 1;
    }

unfoldable pub type_text : ℕ → List ℕ → Sheet → Sheet
type_text color [] t = t
type_text color (c ∷ cs) t = type_text color cs (type_char color c t)

-- The driver shows the window of the sheet, below which the sheet is blank.
pub record Shows (s : Vga) (t : Sheet) : Type 0 where
  pub window : (q : ℕ) → q < 2000 → s.buffer q ≡ t.cells (t.top + q)
  pub blank : (q : ℕ) → t.top + 2000 ≤ q → t.cells q ≡ vga_entry b' ' s.color
  pub cursor : t.cursor ≡ t.top + s.pos
  pub inside : s.pos ≤ 2000

omega_shift : (a q : ℕ) → a + (q + 80) ≡ a + 80 + q
omega_shift a q = omega arith

-- A scroll moves the window down by a line.
scroll-Shows :
    {s : Vga} {t : Sheet}
    → Shows s t
    → s.pos ≡ 2000
    → Shows (vga_scrolldown 1 s) (record t { top = t.top + 80 })
scroll-Shows {s} {t} h full =
    let (cells, color, pos, base) = vga_scrolldown_lem s in
    record {
      window = λ q lt. cells q ∙ elim (Bool-cases (ltb q 1920)) [
        | inl up ↦
            rw up
              (h.window (q + 80) (omega (arith, ltb→lt _ _ up)) ∙ ap t.cells (omega_shift t.top q))
        | inr new ↦
            let bottom : ltb q 2000 ≡ true = lt→ltb q 2000 lt in
            rw (new, bottom) (sym (h.blank (t.top + 80 + q) (omega (arith, ltb-false→le _ _ new))))
      ];
      blank = λ q le. rw color (h.blank q (omega arith));
      cursor = omega (arith, pos, h.cursor);
      inside = omega (arith, pos);
    }

room_of : Vga → Vga
room_of s = if leb vga_size s.pos then vga_scrolldown 1 s else s

-- Before a character is put there is room for it, on the screen and on the sheet alike.
follow-Shows :
    {s : Vga} {t : Sheet}
    → Shows s t
    → Shows (room_of s) (follow t) × ((room_of s).pos < 2000) × ((room_of s).color ≡ s.color)
unfolding follow room_of
follow-Shows {s} {t} h = elim (Bool-cases (leb vga_size s.pos)) [
  | inl full ↦
      let at : s.pos ≡ 2000 = omega (arith, leb→le _ _ full, h.inside) in
      let left : leb (t.top + 2000) t.cursor ≡ true = le→leb _ _ (omega (arith, h.cursor)) in
      let (cells, color, pos, base) = vga_scrolldown_lem s in
      rw (full, left) (scroll-Shows h at, omega (arith, pos), color)
  | inr free ↦
      let stays : leb (t.top + 2000) t.cursor ≡ false =
        lt→leb-false _ _ (omega (arith, h.cursor, leb-false→lt _ _ free)) in
      rw (free, stays) (h, leb-false→lt _ _ free, refl)
]

offset :
    (top p : ℕ) → p < 2000 → top + p + (80 - (top + p - top) % 80) ≡ top + u32 (p + (80 - p % 80))
offset top p h = let e : top + p - top ≡ p = omega arith in rw e (omega arith)

at_most : (d : ℕ) → d ≤ 2000 → (d == 2000) ≡ leb 2000 d
at_most d h = ground arith

linebreak-Shows :
    {s : Vga} {t : Sheet} → Shows s t → s.pos < 2000 → Shows (vga_linebreak s) (new_line t)
unfolding vga_linebreak new_line room_of
linebreak-Shows {s} {t} h below =
    let down : ℕ = u32 (s.pos + (80 - s.pos % 80)) in
    let moved : Vga = record s { pos = down } in
    let at : t.cursor + (80 - (t.cursor - t.top) % 80) ≡ t.top + down =
      rw h.cursor (offset t.top s.pos below) in
    let shown : Shows moved (record t { cursor = t.cursor + (80 - (t.cursor - t.top) % 80) }) =
      record { window = h.window; blank = h.blank; cursor = at; inside = omega arith } in
    let same : (down == 2000) ≡ leb 2000 down = at_most (down) (omega arith) in
    rw same (follow-Shows shown).0

-- The entry and the cursor, where there is room.
put_char : ℕ → Vga → Vga
put_char c s = record s {
  buffer = update s.buffer s.pos (vga_entry c s.color);
  pos = u32 (s.pos + 1);
}

type_entry : ℕ → ℕ → Sheet → Sheet
type_entry color c t = record t {
  cells = update t.cells t.cursor (vga_entry c color);
  cursor = t.cursor + 1;
}

put_char-Shows :
    {s : Vga} {t : Sheet} (c : ℕ)
    → Shows s t
    → s.pos < 2000
    → Shows (put_char c s) (type_entry s.color c t)
unfolding put_char type_entry
put_char-Shows {s} {t} c h below = record {
  window = λ q lt. ground (arith, h.window q lt, h.cursor);
  blank = λ q le. ground (arith, h.blank q le, h.cursor);
  cursor = omega (arith, h.cursor);
  inside = omega arith;
}

linebreak-color : (s : Vga) → (vga_linebreak s).color ≡ s.color
unfolding vga_linebreak
linebreak-color s =
    let moved : Vga = record s { pos = u32 (s.pos + (80 - s.pos % 80)) } in
    elim (Bool-cases (moved.pos == 2000)) [
      | inl full ↦ rw full (vga_scrolldown_lem moved).1
      | inr free ↦ rw free
    ]

-- One character on the screen is that character on the sheet.
pub vga_putc-Shows :
    {s : Vga} {t : Sheet} (c : ℕ)
    → Shows s t
    → Shows (vga_putc c s) (type_char s.color c t) × ((vga_putc c s).color ≡ s.color)
unfolding vga_putc type_char vga_putentryat room_of put_char type_entry
vga_putc-Shows {s} {t} c h =
    let (shown, below, color) = follow-Shows h in
    elim (Bool-cases (c == b'\n')) [
      | inl line ↦ rw line (linebreak-Shows shown below, linebreak-color (room_of s) ∙ color)
      | inr char ↦ rw char (
        subst (λ (k : ℕ). Shows (put_char c (room_of s)) (type_entry k c (follow t))) color
            (put_char-Shows c shown below),
        color,
      )
    ]

-- The driver shows the sheet: a text written to a screen that shows a sheet leaves a screen that
-- shows the sheet with the text typed on it, the cursor included, and keeps the colour.
pub vga_write-Shows :
    (cs : List ℕ) {s : Vga} {t : Sheet}
    → Shows s t
    → Shows (vga_write cs s) (type_text s.color cs t) × ((vga_write cs s).color ≡ s.color)
unfolding vga_write type_text
vga_write-Shows [] h = (h, refl)
vga_write-Shows (c ∷ cs) {s} {t} h =
    let (first, color) = vga_putc-Shows c h in
    let (shown, kept) = vga_write-Shows cs first in
    (
      subst
          (λ (k : ℕ). Shows (vga_write cs (vga_putc c s)) (type_text k cs (type_char s.color c t)))
          color shown,
      kept ∙ color,
    )

-- The sheet with nothing on it.
abbrev pub blank_sheet : ℕ → Sheet
blank_sheet color = record { cells = λ q. vga_entry b' ' color; top = 0; cursor = 0 }

-- From any state, `vga_reset` followed by a text shows that text typed on a blank sheet.
pub vga_write-vga_reset :
    (cs : List ℕ) (s : Vga)
    → Shows (vga_write cs (vga_reset s)) (type_text s.color cs (blank_sheet s.color))
unfolding vga_reset vga_clear vga_set_position
vga_write-vga_reset cs s =
    let (cells, color, pos, base) = fill_loop_lem 2000 0 s in
    let cleared : Vga = record (fill_loop 2000 0 s) { pos = 0 } in
    let shown : Shows cleared (blank_sheet s.color) = record {
      window = λ q lt. cells q ∙ ground arith;
      blank = λ q le. rw color;
      cursor = refl;
      inside = omega arith;
    } in
    subst (λ (k : ℕ). Shows (vga_write cs cleared) (type_text k cs (blank_sheet s.color))) color
      (vga_write-Shows cs shown).0
