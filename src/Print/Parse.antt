-- ===== src/Print/Parse.antt =====
-- `_parse_format` reads back every length modifier and conversion, and ends on every text.
use trash_os.Base.{
  ℕ, zero, suc, ◌+◌, ◌≡◌, refl, ap, ◌∙◌, Bool, inl, inr, arith, List, ◌∷◌, ◌++◌, length, leb,
  if◌then◌else◌, Bool-cases, leb→le, le→leb, length-append, lt→leb-false, leb-false→lt,
  get_or-append_right,
}
use mathlib.Core.Path.{fun_ext}
use native.Mathlib.Nat.{add_assoc}
use trash_os.Base.Runs.{Run, ok, ◌>>=◌}
use trash_os.Print.Format.{Format, char_at, read_char, parse_loop, parse_format}

pub data Modifier : Type 0 where
  plain short short_short long long_long : Modifier

pub data Conversion : Type 0 where
  signed_i signed_d unsigned pointer octal hexadecimal big_hexadecimal : Conversion

-- A modifier and a conversion as they are written after `%`.
abbrev pub spell_modifier : Modifier → List ℕ → List ℕ
spell_modifier Modifier.plain rest = rest
spell_modifier Modifier.short rest = b'h' ∷ rest
spell_modifier Modifier.short_short rest = b'h' ∷ b'h' ∷ rest
spell_modifier Modifier.long rest = b'l' ∷ rest
spell_modifier Modifier.long_long rest = b'l' ∷ b'l' ∷ rest

abbrev pub spell_conversion : Conversion → ℕ
spell_conversion signed_i = b'i'
spell_conversion signed_d = b'd'
spell_conversion unsigned = b'u'
spell_conversion pointer = b'p'
spell_conversion octal = b'o'
spell_conversion hexadecimal = b'x'
spell_conversion big_hexadecimal = b'X'

abbrev pub select : Modifier → Format → Format → Format → Format → Format → Format
select Modifier.short_short a b c d e = a
select Modifier.short a b c d e = b
select Modifier.plain a b c d e = c
select Modifier.long a b c d e = d
select Modifier.long_long a b c d e = e

-- The format code that a modifier and a conversion are meant to have.
abbrev pub format_of : Modifier → Conversion → Format
format_of m signed_i =
    select m Format.short_short_int Format.short_int Format.int Format.long_int Format.long_long_int
format_of m signed_d =
    select m Format.short_short_int Format.short_int Format.int Format.long_int Format.long_long_int
format_of m unsigned =
    select m Format.short_short_uint Format.short_uint Format.uint Format.long_uint
      Format.long_long_uint
format_of m pointer =
    select m Format.short_short_ptr Format.short_ptr Format.ptr Format.long_ptr Format.long_long_ptr
format_of m octal =
    select m Format.short_short_oct Format.short_oct Format.oct Format.long_oct Format.long_long_oct
format_of m hexadecimal =
    select m Format.short_short_hex Format.short_hex Format.hex Format.long_hex Format.long_long_hex
format_of m big_hexadecimal =
    select m Format.short_short_big_hex Format.short_big_hex Format.big_hex Format.long_big_hex
      Format.long_long_big_hex

pub char_at-append : (pre xs : List ℕ) (k : ℕ) → char_at (pre ++ xs) (length pre + k) ≡ char_at xs k
unfolding char_at
char_at-append pre xs k = elim (Bool-cases (leb k (length xs))) [
  | inl at ↦ rw (
    get_or-append_right pre xs k 0,
    at,
    le→leb (length pre + k) (length (pre ++ xs))
        (omega (arith, length-append pre xs, leb→le _ _ at)),
  )
  | inr past ↦ rw (
    get_or-append_right pre xs k 0,
    past,
    lt→leb-false (length pre + k) (length (pre ++ xs))
        (omega (arith, length-append pre xs, leb-false→lt _ _ past)),
  )
]

-- Only the text from the index on matters.
parse_loop-append :
    (fuel : ℕ) (s : Format) (pre xs : List ℕ) (k : ℕ)
    → parse_loop fuel s (pre ++ xs) (length pre + k) ≡ parse_loop fuel s xs k
unfolding parse_loop
parse_loop-append zero s pre xs k = refl
parse_loop-append (suc fuel) s pre xs k =
    let round = λ (t : Format) (more : Bool) (format : List ℕ) (i : ℕ).
      if more then parse_loop fuel t format (i + 1) else ok t in
    let same = λ (c : ℕ).
      ap (λ (t : Run Format). if (read_char s c).more then t else ok (read_char s c).state)
        (ap (parse_loop fuel (read_char s c).state (pre ++ xs)) (add_assoc (length pre) k 1)
          ∙ parse_loop-append fuel (read_char s c).state pre xs (k + 1)) in
    ap
      (λ (m : Run ℕ).
        m >>= λ c. round (read_char s c).state (read_char s c).more (pre ++ xs) (length pre + k))
      (char_at-append pre xs k)
    ∙ ap (λ (f : ℕ → Run Format). char_at xs k >>= f) (fun_ext same)

pub char_at_zero : (c : ℕ) (xs : List ℕ) → char_at (c ∷ xs) 0 ≡ ok c
unfolding char_at
char_at_zero c xs = rw (le→leb 0 (suc (length xs)) (omega arith))

char_at_one : (b c : ℕ) (xs : List ℕ) → char_at (b ∷ c ∷ xs) 1 ≡ ok c
unfolding char_at
char_at_one b c xs = rw (le→leb 1 (suc (suc (length xs))) (omega arith))

char_at_two : (a b c : ℕ) (xs : List ℕ) → char_at (a ∷ b ∷ c ∷ xs) 2 ≡ ok c
unfolding char_at
char_at_two a b c xs = rw (le→leb 2 (suc (suc (suc (length xs)))) (omega arith))

ruleset reads = (char_at_zero, char_at_one, char_at_two)

spelled :
    (m : Modifier) (c : Conversion) (rest : List ℕ)
    → parse_format (spell_modifier m (spell_conversion c ∷ rest)) 0 ≡ ok (format_of m c)
unfolding parse_format read_char
spelled Modifier.plain signed_i rest = simp reads
spelled Modifier.plain signed_d rest = simp reads
spelled Modifier.plain unsigned rest = simp reads
spelled Modifier.plain pointer rest = simp reads
spelled Modifier.plain octal rest = simp reads
spelled Modifier.plain hexadecimal rest = simp reads
spelled Modifier.plain big_hexadecimal rest = simp reads
spelled Modifier.short signed_i rest = simp reads
spelled Modifier.short signed_d rest = simp reads
spelled Modifier.short unsigned rest = simp reads
spelled Modifier.short pointer rest = simp reads
spelled Modifier.short octal rest = simp reads
spelled Modifier.short hexadecimal rest = simp reads
spelled Modifier.short big_hexadecimal rest = simp reads
spelled Modifier.short_short signed_i rest = simp reads
spelled Modifier.short_short signed_d rest = simp reads
spelled Modifier.short_short unsigned rest = simp reads
spelled Modifier.short_short pointer rest = simp reads
spelled Modifier.short_short octal rest = simp reads
spelled Modifier.short_short hexadecimal rest = simp reads
spelled Modifier.short_short big_hexadecimal rest = simp reads
spelled Modifier.long signed_i rest = simp reads
spelled Modifier.long signed_d rest = simp reads
spelled Modifier.long unsigned rest = simp reads
spelled Modifier.long pointer rest = simp reads
spelled Modifier.long octal rest = simp reads
spelled Modifier.long hexadecimal rest = simp reads
spelled Modifier.long big_hexadecimal rest = simp reads
spelled Modifier.long_long signed_i rest = simp reads
spelled Modifier.long_long signed_d rest = simp reads
spelled Modifier.long_long unsigned rest = simp reads
spelled Modifier.long_long pointer rest = simp reads
spelled Modifier.long_long octal rest = simp reads
spelled Modifier.long_long hexadecimal rest = simp reads
spelled Modifier.long_long big_hexadecimal rest = simp reads

pub parse_format-append :
    (before rest : List ℕ) → parse_format (before ++ rest) (length before) ≡ parse_format rest 0
unfolding parse_format
parse_format-append before rest =
    ap (parse_loop 3 Format.none (before ++ rest))
      (let e : length before ≡ length before + 0 = omega arith in e)
    ∙ parse_loop-append 3 Format.none before rest 0

pub parsed_string : (rest : List ℕ) → parse_format (b's' ∷ rest) 0 ≡ ok Format.str
unfolding parse_format read_char
parsed_string rest = simp reads

pub parsed_percent : (rest : List ℕ) → parse_format (b'%' ∷ rest) 0 ≡ ok Format.escaped_percent
unfolding parse_format read_char
parsed_percent rest = simp reads

-- Wherever a modifier and a conversion stand in a format string, and whatever follows them, they
-- are read as their format code.
pub parse_format-spelling :
    (m : Modifier) (c : Conversion) (before rest : List ℕ)
    → parse_format (before ++ spell_modifier m (spell_conversion c ∷ rest)) (length before)
      ≡ ok (format_of m c)
unfolding parse_format
parse_format-spelling m c before rest =
    ap (parse_loop 3 Format.none (before ++ spell_modifier m (spell_conversion c ∷ rest)))
      (omega arith)
    ∙ parse_loop-append 3 Format.none before (spell_modifier m (spell_conversion c ∷ rest)) 0
    ∙ spelled m c rest
