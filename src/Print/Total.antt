-- ===== src/Print/Total.antt =====
-- `_parse_format` ends within its three rounds and never reads behind the terminator.
use trash_os.Base.{
  ℕ, zero, suc, ◌+◌, ◌≤◌, ◌<◌, ◌≡◌, ◌≢◌, refl, ap, ◌∙◌, true, false, inl, inr, arith, List, [], ◌∷◌,
  length, get_or, leb, ◌==◌, Bool-cases, leb→le, le→leb, ==→eq,
}
use trash_os.Base.Runs.{ok}
use trash_os.Print.Format.{Format, Reading, char_at, read_char, parse_loop, parse_format}

-- The states in which a character is still to be read, with the rounds left after it.
data Reads : Format → ℕ → Type 0 where
  at_none : Reads Format.none 2
  at_short : Reads Format.short 1
  at_long : Reads Format.long 1
  at_short_short : Reads Format.short_short 0
  at_long_long : Reads Format.long_long 0

-- A character ends the directive, or is no terminator and leaves a round less.
data Advance (n c : ℕ) (r : Reading) : Type 0 where
  ends : r.more ≡ false → Advance n c r
  goes_on : (m : ℕ) → r.more ≡ true → Reads r.state m → m < n → c ≢ 0 → Advance n c r

is_letter : (c k : ℕ) → (c == k) ≡ true → 0 < k → c ≢ 0
is_letter c k e pos z = omega (arith, ==→eq c k e)

advance : {s : Format} {n : ℕ} → Reads s n → (c : ℕ) → Advance n c (read_char s c)
unfolding read_char
advance at_none c = elim (Bool-cases (c == b'h')) [
  | inl h ↦ goes_on 1 (rw h) (rw h at_short) (omega arith) (is_letter c b'h' h (omega arith))
  | inr e ↦ elim (Bool-cases (c == b'l')) [
    | inl l ↦
        goes_on 1 (rw (e, l)) (rw (e, l) at_long) (omega arith) (is_letter c b'l' l (omega arith))
    | inr e' ↦ ends (ground arith)
  ]
]
advance at_short c = elim (Bool-cases (c == b'h')) [
  | inl h ↦ goes_on 0 (rw h) (rw h at_short_short) (omega arith) (is_letter c b'h' h (omega arith))
  | inr e ↦ ends (ground arith)
]
advance at_long c = elim (Bool-cases (c == b'l')) [
  | inl l ↦ goes_on 0 (rw l) (rw l at_long_long) (omega arith) (is_letter c b'l' l (omega arith))
  | inr e ↦ ends (ground arith)
]
advance at_short_short c = ends (ground arith)
advance at_long_long c = ends (ground arith)

get_or-length : (xs : List ℕ) → get_or xs (length xs) 0 ≡ 0
get_or-length [] = refl
get_or-length (x ∷ xs) = get_or-length xs

-- A read within the text and its terminator returns, and only the terminator's index returns 0
-- for sure.
pub char_at-ok :
    (format : List ℕ) (i : ℕ)
    → i ≤ length format
    → (c : ℕ) × (char_at format i ≡ ok c) × (c ≢ 0 → i < length format)
unfolding char_at
char_at-ok format i h = (get_or format i 0, rw (le→leb i (length format) h), λ ne. inside ne)
  where
    inside : get_or format i 0 ≢ 0 → i < length format
    inside ne = elim (Bool-cases (leb (suc i) (length format))) [
      | inl lt ↦ leb→le _ _ lt
      | inr ge ↦
          absurd (ne (ap (λ (t : ℕ). get_or format t 0) (ground arith) ∙ get_or-length format))
    ]

parse_loop_total :
    (fuel : ℕ) {s : Format} {n : ℕ} (format : List ℕ) (i : ℕ)
    → Reads s n
    → n < fuel
    → i ≤ length format
    → (f : Format) × (parse_loop fuel s format i ≡ ok f)
unfolding parse_loop
parse_loop_total zero format i r h le = absurd (omega arith)
parse_loop_total (suc fuel) {s} format i r h le =
    let (c, got, inside) = char_at-ok format i le in
    rw got (elim (advance r c) [
      | ends e ↦ ((read_char s c).state, rw e)
      | goes_on m e next less ne ↦
          rw e (parse_loop_total fuel format (i + 1) next (omega arith) (omega (arith, inside ne)))
    ])

-- From every index of a format string, the terminator's included, a format code is returned.
pub parse_format_total :
    (format : List ℕ) (i : ℕ) → i ≤ length format → (f : Format) × (parse_format format i ≡ ok f)
unfolding parse_format
parse_format_total format i h = parse_loop_total 3 format i at_none (omega arith) h
