-- ===== src/Vga/Scroll.antt =====
-- What the loops of vga.c leave in the buffer, entry by entry.
use trash_os.Base.{
  ℕ, update, zero, suc, ◌+◌, ◌*◌, ◌≡◌, ◌∙◌, refl, arith, leb, ltb, ◌&&◌, if◌then◌else◌, sub32,
}
use trash_os.Vga.{Vga, vga_entry, vga_putentryat, copy_loop, fill_loop, vga_scrolldown}

-- The copy of an entry from one line below is read before it is overwritten.
pub copy_loop_lem :
    (left p : ℕ) (b : ℕ → ℕ) (q : ℕ)
    → copy_loop 1 left p b q ≡ (if leb p q && ltb q (p + left) then b (q + 80) else b q)
unfolding copy_loop
copy_loop_lem zero p b q = ground arith
copy_loop_lem (suc left) p b q =
    copy_loop_lem left (p + 1) (update b p (b (p + 1 * 80))) q ∙ ground arith

pub fill_loop_lem :
    (left p : ℕ) (s : Vga)
    → ((q : ℕ)
        → (fill_loop left p s).buffer q
          ≡ (if leb p q && ltb q (p + left) then vga_entry b' ' s.color else s.buffer q))
      × ((fill_loop left p s).color ≡ s.color)
      × ((fill_loop left p s).pos ≡ s.pos)
      × ((fill_loop left p s).base ≡ s.base)
unfolding fill_loop vga_putentryat
fill_loop_lem zero p s = (λ q. ground arith, refl, refl, refl)
fill_loop_lem (suc left) p s =
    let (cells, color, pos, base) = fill_loop_lem left (p + 1) (vga_putentryat b' ' s.color p s) in
    (λ q. cells q ∙ ground arith, color, pos, base)

-- The screen moved up by one line, with a blank line at the bottom.
abbrev pub moved_up : Vga → ℕ → ℕ
moved_up s q =
    if ltb q 1920
    then s.buffer (q + 80)
    else if ltb q 2000
    then vga_entry b' ' s.color
    else s.buffer q

pub vga_scrolldown_lem :
    (s : Vga)
    → ((q : ℕ) → (vga_scrolldown 1 s).buffer q ≡ moved_up s q)
      × ((vga_scrolldown 1 s).color ≡ s.color)
      × ((vga_scrolldown 1 s).pos ≡ sub32 s.pos 80)
      × ((vga_scrolldown 1 s).base ≡ s.base)
unfolding vga_scrolldown
vga_scrolldown_lem s =
    let copied = record s { buffer = copy_loop 1 1920 0 s.buffer } in
    let (cells, color, pos, base) = fill_loop_lem 80 1920 copied in
    (λ q. cells q ∙ ground (arith, copy_loop_lem 1920 0 s.buffer q), color, refl, base)
