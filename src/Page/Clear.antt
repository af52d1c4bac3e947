-- ===== src/Page/Clear.antt =====
-- `page_clear` overwrites the words of one page and no other.
use trash_os.Base.{
  ℕ, zero, suc, ◌+◌, ◌*◌, ◌≤◌, ◌<◌, ◌≡◌, ◌≢◌, ◌⊎◌, refl, ◌∙◌, arith, inl, inr, Bool-cases, ltb,
  ltb→lt, ltb-false→le, ◌==◌, eq→==, ne→==-false,
}
use trash_os.Kernel.{Kernel, load, store}
use trash_os.Page.{clear_loop, page_clear}

two_words : ℕ → ℕ → Kernel → Kernel
two_words vma i k = store (vma + 8 * i + 4) 0 (store (vma + 8 * i) 0 k)

two_words-else :
    (vma i : ℕ) (k : Kernel) (q : ℕ)
    → (q < vma + 8 * i) ⊎ (vma + 8 * i + 8 ≤ q)
    → load q (two_words vma i k) ≡ load q k
unfolding two_words load store
two_words-else vma i k q out =
    let ne : q ≢ vma + 8 * i = omega arith in
    let ne' : q ≢ vma + 8 * i + 4 = omega arith in
    rw (ne→==-false q (vma + 8 * i + 4) ne', ne→==-false q (vma + 8 * i) ne) refl

two_words-at :
    (vma i : ℕ) (k : Kernel) (j : ℕ)
    → 2 * i ≤ j
    → j < 2 * i + 2
    → load (vma + 4 * j) (two_words vma i k) ≡ 0
unfolding two_words load store
two_words-at vma i k j from below =
    let q : ℕ = vma + 4 * j in
    elim (Bool-cases (q == vma + 8 * i + 4)) [
      | inl high ↦ rw high refl
      | inr other ↦
          let ne : q ≢ vma + 8 * i + 4 = λ e. let t = eq→== q (vma + 8 * i + 4) e in cc in
          let low : q ≡ vma + 8 * i = omega arith in rw (other, eq→== q (vma + 8 * i) low) refl
    ]

clear_loop-else :
    (left vma i : ℕ) (k : Kernel) (q : ℕ)
    → (q < vma + 8 * i) ⊎ (vma + 8 * (i + left) ≤ q)
    → load q (clear_loop left vma i k) ≡ load q k
unfolding clear_loop two_words
clear_loop-else zero vma i k q out = refl
clear_loop-else (suc left) vma i k q out =
    let later : (q < vma + 8 * (i + 1)) ⊎ (vma + 8 * (i + 1 + left) ≤ q) = omega arith in
    clear_loop-else left vma (i + 1) (two_words vma i k) q later
    ∙ two_words-else vma i k q (omega arith)

clear_loop-at :
    (left vma i : ℕ) (k : Kernel) (j : ℕ)
    → 2 * i ≤ j
    → j < 2 * (i + left)
    → load (vma + 4 * j) (clear_loop left vma i k) ≡ 0
unfolding clear_loop two_words
clear_loop-at zero vma i k j from below = absurd (omega arith)
clear_loop-at (suc left) vma i k j from below = elim (Bool-cases (ltb j (2 * i + 2))) [
  | inl this ↦
      let lt = ltb→lt _ _ this in
      clear_loop-else left vma (i + 1) (two_words vma i k) (vma + 4 * j) (inl (omega arith))
      ∙ two_words-at vma i k j from lt
  | inr next ↦
      let ge = ltb-false→le _ _ next in
      clear_loop-at left vma (i + 1) (two_words vma i k) j (omega arith) (omega arith)
]

-- `page_clear` sets each of the 1024 words of the page at `vma` to 0, and leaves every word below
-- the page and behind it.
pub page_clear_lem :
    (vma : ℕ) (k : Kernel)
    → ((j : ℕ) → j < 1024 → load (vma + 4 * j) (page_clear vma k) ≡ 0)
      × ((q : ℕ) → (q < vma) ⊎ (vma + 4096 ≤ q) → load q (page_clear vma k) ≡ load q k)
unfolding page_clear
page_clear_lem vma k = (
  λ j small. clear_loop-at 512 vma 0 k j (omega arith) (omega arith),
  λ q out. clear_loop-else 512 vma 0 k q (omega arith),
)
