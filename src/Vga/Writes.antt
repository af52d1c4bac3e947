-- ===== src/Vga/Writes.antt =====
-- The driver writes inside the 2000 entries of the buffer, and never moves it.
use trash_os.Base.{
  ℕ, ◌+◌, ◌-◌, ◌%◌, ◌≤◌, ◌<◌, ◌≡◌, ◌∙◌, refl, inl, inr, arith, List, [], ◌∷◌, leb, ◌==◌,
  if◌then◌else◌, u32, Bool-cases, leb→le, leb-false→lt, ==→eq,
}
use trash_os.Vga.{Vga, vga_putentryat, vga_linebreak, vga_scrolldown, vga_putc, vga_write}
use trash_os.Vga.Scroll.{vga_scrolldown_lem}

-- `s'` differs from `s` in the entries of the buffer and in a position on the screen only.
pub record Within (s s' : Vga) : Type 0 where
  pub outside : (q : ℕ) → 2000 ≤ q → s'.buffer q ≡ s.buffer q
  pub base : s'.base ≡ s.base
  pub inside : s'.pos ≤ 2000

scroll-Within : (s : Vga) → s.pos ≤ 2000 → 80 ≤ s.pos → Within s (vga_scrolldown 1 s)
scroll-Within s le ge =
    let (cells, color, pos, base) = vga_scrolldown_lem s in
    record { outside = λ q h. cells q ∙ ground arith; base = base; inside = omega (arith, pos) }

Within-trans : {a b c : Vga} → Within a b → Within b c → Within a c
Within-trans h k = record {
  outside = λ q le. k.outside q le ∙ h.outside q le;
  base = k.base ∙ h.base;
  inside = k.inside;
}

linebreak-Within : (s : Vga) → s.pos < 2000 → Within s (vga_linebreak s)
unfolding vga_linebreak
linebreak-Within s below =
    let down : ℕ = u32 (s.pos + (80 - s.pos % 80)) in
    let moved : Vga = record s { pos = down } in
    elim (Bool-cases (down == 2000)) [
      | inl full ↦ rw full (
          let up = scroll-Within moved (omega arith) (omega (arith, ==→eq down 2000 full)) in
          record { outside = up.outside; base = up.base; inside = up.inside })
      | inr free ↦ rw free (record { outside = λ q le. refl; base = refl; inside = omega arith })
    ]

putc-room :
    (c : ℕ) (s : Vga)
    → s.pos < 2000
    → Within s (
        if c == b'\n'
        then vga_linebreak s
        else (let put = vga_putentryat c s.color s.pos s in record put { pos = u32 (put.pos + 1) }))
unfolding vga_putentryat
putc-room c s below = elim (Bool-cases (c == b'\n')) [
  | inl line ↦ rw line (linebreak-Within s below)
  | inr char ↦
      rw char (record { outside = λ q le. ground arith; base = refl; inside = omega arith })
]

vga_putc-Within : (c : ℕ) (s : Vga) → s.pos ≤ 2000 → Within s (vga_putc c s)
unfolding vga_putc
vga_putc-Within c s le = elim (Bool-cases (leb 2000 s.pos)) [
  | inl full ↦
      let (cells, color, pos, base) = vga_scrolldown_lem s in
      rw full (
        Within-trans (scroll-Within s le (omega (arith, leb→le _ _ full)))
          (putc-room c (vga_scrolldown 1 s) (omega (arith, pos, leb→le _ _ full))))
  | inr free ↦ rw free (putc-room c s (leb-false→lt _ _ free))
]

-- From a position on the screen, or right behind it, a text of any length is written inside the
-- 2000 entries of the buffer: every entry from 2000 on stays, the buffer's address stays, and the
-- position is again at most 2000.
pub vga_write-Within : (cs : List ℕ) (s : Vga) → s.pos ≤ 2000 → Within s (vga_write cs s)
unfolding vga_write
vga_write-Within [] s le = record { outside = λ q h. refl; base = refl; inside = le }
vga_write-Within (c ∷ cs) s le =
    let first = vga_putc-Within c s le in
    Within-trans first (vga_write-Within cs (vga_putc c s) first.inside)
