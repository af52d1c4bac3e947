-- ===== src/InitVga/Rows.antt =====
-- The nested loops over rows and columns, entry by entry.
use trash_os.Base.{
  ℕ, zero, suc, ◌+◌, ◌*◌, ◌^◌, ◌≤◌, ◌<◌, ◌≡◌, ◌≢◌, ◌⊎◌, refl, ap, ◌∙◌, arith, inl, inr, ltb, ltb→lt,
  ltb-false→le, Bool-cases, ◌==◌, ==→eq, eq→==, ne→==-false, u32, update,
}
use trash_os.InitVga.{InitVga, copy_row, fill_row, copy_rows, fill_rows, init_scrolldown}

-- Where an update of entry `to` is read.
update-else : (b : ℕ → ℕ) (to v q : ℕ) → q ≢ to → update b to v q ≡ b q
update-else b to v q h = rw (ne→==-false q to h) refl

update-at : (b : ℕ → ℕ) (to v : ℕ) → update b to v to ≡ v
update-at b to v = rw (eq→== to to refl) refl

copy_row-else :
    (n x y : ℕ) (b : ℕ → ℕ) (q : ℕ)
    → y < 25
    → x + n ≤ 80
    → (q + 1 ≤ 80 * y + x) ⊎ (80 * y + x + n ≤ q)
    → copy_row n x y 1 b q ≡ b q
unfolding copy_row
copy_row-else zero x y b q low fits out = refl
copy_row-else (suc n) x y b q low fits out =
    let out' : (q + 1 ≤ 80 * y + (x + 1)) ⊎ (80 * y + (x + 1) + n ≤ q) = omega arith in
    copy_row-else n (x + 1) y _ q low (omega arith) out'
    ∙ update-else b (u32 (y * 80 + x)) _ q (omega arith)

copy_row-at :
    (n x y : ℕ) (b : ℕ → ℕ) (q : ℕ)
    → y < 25
    → x + n ≤ 80
    → 80 * y + x ≤ q
    → q < 80 * y + x + n
    → copy_row n x y 1 b q ≡ b (q + 80)
unfolding copy_row
copy_row-at zero x y b q low fits from below = absurd (omega arith)
copy_row-at (suc n) x y b q low fits from below = elim (Bool-cases (q == 80 * y + x)) [
  | inl here ↦
      let e = ==→eq q (80 * y + x) here in
      let to : u32 (y * 80 + x) ≡ q = omega arith in
      let src : u32 (u32 (y * 80 + x) + 1 * 80) ≡ q + 80 = omega arith in
      copy_row-else n (x + 1) y _ q low (omega arith) (inl (omega arith))
      ∙ ap (λ t. update b t (b (u32 (u32 (y * 80 + x) + 1 * 80))) q) to
      ∙ update-at b q _
      ∙ ap b src
  | inr later ↦
      let ne : q ≢ 80 * y + x = λ e. let t = eq→== q (80 * y + x) e in cc in
      copy_row-at n (x + 1) y _ q low (omega arith) (omega arith) (omega arith)
      ∙ update-else b (u32 (y * 80 + x)) _ (q + 80) (omega arith)
]

fill_row-else :
    (n x y v : ℕ) (b : ℕ → ℕ) (q : ℕ)
    → y < 25
    → x + n ≤ 80
    → (q + 1 ≤ 80 * y + x) ⊎ (80 * y + x + n ≤ q)
    → fill_row n x y v b q ≡ b q
unfolding fill_row
fill_row-else zero x y v b q low fits out = refl
fill_row-else (suc n) x y v b q low fits out =
    let out' : (q + 1 ≤ 80 * y + (x + 1)) ⊎ (80 * y + (x + 1) + n ≤ q) = omega arith in
    fill_row-else n (x + 1) y v _ q low (omega arith) out'
    ∙ update-else b (u32 (y * 80 + x)) v q (omega arith)

fill_row-at :
    (n x y v : ℕ) (b : ℕ → ℕ) (q : ℕ)
    → y < 25
    → x + n ≤ 80
    → 80 * y + x ≤ q
    → q < 80 * y + x + n
    → fill_row n x y v b q ≡ v
unfolding fill_row
fill_row-at zero x y v b q low fits from below = absurd (omega arith)
fill_row-at (suc n) x y v b q low fits from below = elim (Bool-cases (q == 80 * y + x)) [
  | inl here ↦
      let e = ==→eq q (80 * y + x) here in
      let to : u32 (y * 80 + x) ≡ q = omega arith in
      fill_row-else n (x + 1) y v _ q low (omega arith) (inl (omega arith))
      ∙ ap (λ t. update b t v q) to
      ∙ update-at b q v
  | inr later ↦
      let ne : q ≢ 80 * y + x = λ e. let t = eq→== q (80 * y + x) e in cc in
      fill_row-at n (x + 1) y v _ q low (omega arith) (omega arith) (omega arith)
]

copy_rows-else :
    (n y : ℕ) (b : ℕ → ℕ) (q : ℕ)
    → y + n ≤ 25
    → (q + 1 ≤ 80 * y) ⊎ (80 * (y + n) ≤ q)
    → copy_rows n y 1 b q ≡ b q
unfolding copy_rows
copy_rows-else zero y b q low out = refl
copy_rows-else (suc n) y b q low out =
    let out' : (q + 1 ≤ 80 * (y + 1)) ⊎ (80 * (y + 1 + n) ≤ q) = omega arith in
    copy_rows-else n (y + 1) _ q (omega arith) out'
    ∙ copy_row-else 80 0 y b q (omega arith) (omega arith) (omega arith)

copy_rows-at :
    (n y : ℕ) (b : ℕ → ℕ) (q : ℕ)
    → y + n ≤ 25
    → 80 * y ≤ q
    → q < 80 * (y + n)
    → copy_rows n y 1 b q ≡ b (q + 80)
unfolding copy_rows
copy_rows-at zero y b q low from below = absurd (omega arith)
copy_rows-at (suc n) y b q low from below = elim (Bool-cases (ltb q (80 * (y + 1)))) [
  | inl this ↦
      let lt = ltb→lt _ _ this in
      copy_rows-else n (y + 1) _ q (omega arith) (inl (omega arith))
      ∙ copy_row-at 80 0 y b q (omega arith) (omega arith) (omega arith) (omega arith)
  | inr next ↦
      let ge = ltb-false→le _ _ next in
      copy_rows-at n (y + 1) _ q (omega arith) ge (omega arith)
      ∙ copy_row-else 80 0 y b (q + 80) (omega arith) (omega arith) (inr (omega arith))
]

fill_rows-else :
    (n y v : ℕ) (b : ℕ → ℕ) (q : ℕ)
    → y + n ≤ 25
    → (q + 1 ≤ 80 * y) ⊎ (80 * (y + n) ≤ q)
    → fill_rows n y v b q ≡ b q
unfolding fill_rows
fill_rows-else zero y v b q low out = refl
fill_rows-else (suc n) y v b q low out =
    let out' : (q + 1 ≤ 80 * (y + 1)) ⊎ (80 * (y + 1 + n) ≤ q) = omega arith in
    fill_rows-else n (y + 1) v _ q (omega arith) out'
    ∙ fill_row-else 80 0 y v b q (omega arith) (omega arith) (omega arith)

fill_rows-at :
    (n y v : ℕ) (b : ℕ → ℕ) (q : ℕ)
    → y + n ≤ 25
    → 80 * y ≤ q
    → q < 80 * (y + n)
    → fill_rows n y v b q ≡ v
unfolding fill_rows
fill_rows-at zero y v b q low from below = absurd (omega arith)
fill_rows-at (suc n) y v b q low from below = elim (Bool-cases (ltb q (80 * (y + 1)))) [
  | inl this ↦
      let lt = ltb→lt _ _ this in
      fill_rows-else n (y + 1) v _ q (omega arith) (inl (omega arith))
      ∙ fill_row-at 80 0 y v b q (omega arith) (omega arith) (omega arith) (omega arith)
  | inr next ↦
      let ge = ltb-false→le _ _ next in fill_rows-at n (y + 1) v _ q (omega arith) ge (omega arith)
]

-- The screen after `vga_scrolldown(1)`: every row holds the one below it, the last row blanks without
-- a colour, and the entries behind the screen and the column stay.
pub record IsScrolled (s s' : InitVga) : Type 0 where
  pub moved : (q : ℕ) → q < 1920 → s'.buffer q ≡ s.buffer (q + 80)
  pub blank : (q : ℕ) → 1920 ≤ q → q < 2000 → s'.buffer q ≡ b' '
  pub outside : (q : ℕ) → 2000 ≤ q → s'.buffer q ≡ s.buffer q
  pub up : s'.row + 1 ≡ s.row
  pub same_col : s'.col ≡ s.col

-- From a row other than the first, `vga_scrolldown(1)` of init_vga.c moves each row up by one, fills
-- the last row with blanks, leaves the memory behind the screen, and moves the cursor up by a row.
pub init_scrolldown-IsScrolled :
    (s : InitVga) → 1 ≤ s.row → s.row < 2 ^ 32 → IsScrolled s (init_scrolldown 1 s)
unfolding init_scrolldown
init_scrolldown-IsScrolled s low small =
    let moved = copy_rows 24 0 1 s.buffer in
    record {
      moved = λ q h.
          fill_rows-else 1 24 b' ' moved q (omega arith) (inl (omega arith))
          ∙ copy_rows-at 24 0 s.buffer q (omega arith) (omega arith) (omega arith);
      blank = λ q h h'. fill_rows-at 1 24 b' ' moved q (omega arith) (omega arith) (omega arith);
      outside = λ q h.
          fill_rows-else 1 24 b' ' moved q (omega arith) (inr (omega arith))
          ∙ copy_rows-else 24 0 s.buffer q (omega arith) (inr (omega arith));
      up = omega arith;
      same_col = refl;
    }
