-- ===== src/Print/Tests.antt =====
-- Runs of the printing routines.
use trash_os.Base.{ℕ, ◌≡◌, refl, List, [], ◌∷◌, ◌++◌, ◌^◌, ◌*◌, ◌%◌, ◌<◌, length, All, arith}
use trash_os.Base.Runs.{ok}
use trash_os.Math.{div64, ilog2u, ilog10u}
use trash_os.Print.{print}
use trash_os.Print.Format.{Format, parse_format, read_char, char_at}
use trash_os.Print.Directive.{text, word, print_format, bytes_of}
use trash_os.Print.Numbers.{
  Printed, printed, nibble, print_dec_unsigned, print_dec_signed, print_oct, print_hex, print_ptr,
  print_big_hex,
}
use trash_os.Print.Digits.{IsNumeral, digit_value, read_number}
use trash_os.Print.Decimal.{print_dec_unsigned-IsNumeral}
use trash_os.Print.Signed.{IsSigned, print_dec_signed-IsSigned}
use trash_os.Print.Radix.{print_oct-IsNumeral, print_hex-IsNumeral, print_ptr_lem}
use trash_os.Print.Pieces.{
  Piece, char, directive, number, string, percent, IsPiece, spell, print_pieces,
}
use trash_os.Print.Pieces.Rounds.{print-print_pieces}
use trash_os.Print.Parse.{
  Modifier, signed_d, unsigned, spell_modifier, spell_conversion, parse_format-spelling,
}

print_runs :
    print 12
      (b'a' ∷ b'%' ∷ b'u' ∷ b'%' ∷ b'h' ∷ b'h' ∷ b'd' ∷ b'%' ∷ b'x' ∷ b'%' ∷ b'o' ∷ b'%' ∷ b'p'
        ∷ [])
      (word 1203 ∷ word 255 ∷ word 0xab0 ∷ word 8 ∷ word 0x1f ∷ [])
    ≡ ok (
        printed
          (b'a' ∷ b'1' ∷ b'2' ∷ b'0' ∷ b'3' ∷ b'-' ∷ b'1' ∷ b'a' ∷ b'b' ∷ b'0' ∷ b'1' ∷ b'0' ∷ b'0'
            ∷ b'x' ∷ b'0' ∷ b'0' ∷ b'0' ∷ b'0' ∷ b'0' ∷ b'0' ∷ b'1' ∷ b'f' ∷ [])
          30)
unfolding print parse_format read_char char_at print_format nibble print_dec_unsigned
    print_dec_signed print_oct print_hex print_ptr print_big_hex div64 ilog2u ilog10u
print_runs = refl

print_dec_unsigned-IsNumeral_example :
    (out : Printed) × (print_dec_unsigned 11 (bytes_of 4 1203) ≡ ok out)
    × IsNumeral 10 (1203 % 2 ^ (8 * 4)) out
print_dec_unsigned-IsNumeral_example =
    print_dec_unsigned-IsNumeral 11 4 1203 (omega arith) (omega arith) (omega arith)

print_dec_signed-IsSigned_example :
    (out : Printed) × (print_dec_signed 11 (bytes_of 1 255) ≡ ok out)
    × IsSigned 1 (255 % 2 ^ (8 * 1)) out
print_dec_signed-IsSigned_example =
    print_dec_signed-IsSigned 11 1 255 (omega arith) (omega arith) (omega arith)

print_oct-IsNumeral_example :
    (out : Printed) × (print_oct (bytes_of 2 511) ≡ ok out) × IsNumeral 8 (511 % 2 ^ (8 * 2)) out
print_oct-IsNumeral_example = print_oct-IsNumeral 2 511 (omega arith)

print_hex-IsNumeral_example :
    ((out : Printed) × (print_hex (bytes_of 2 0xab0) ≡ ok out)
      × IsNumeral 16 (0xab0 % 2 ^ (8 * 2)) out)
    × ((out : Printed) × (print_big_hex (bytes_of 2 0xab0) ≡ ok out)
        × IsNumeral 16 (0xab0 % 2 ^ (8 * 2)) out)
print_hex-IsNumeral_example = print_hex-IsNumeral 2 0xab0 (omega arith)

print_ptr_lem_example :
    (cs : List ℕ) × (print_ptr (bytes_of 4 0x1f) ≡ ok (printed (b'0' ∷ b'x' ∷ cs) 18))
    × (length cs ≡ 2 * 4)
    × All (λ c. digit_value c < 16) cs
    × (read_number 16 0 cs ≡ 0x1f % 2 ^ (8 * 4))
print_ptr_lem_example = print_ptr_lem 4 0x1f (omega arith)

abbrev prefix : List ℕ
prefix = b'a' ∷ b'%' ∷ []

parse_format-spelling_example :
    parse_format
      (prefix ++ spell_modifier Modifier.short_short (spell_conversion unsigned ∷ b'!' ∷ []))
      (length prefix)
    ≡ ok Format.short_short_uint
parse_format-spelling_example =
    parse_format-spelling Modifier.short_short unsigned prefix (b'!' ∷ [])

-- `n=%hhd: %s%%`
abbrev mixed : List Piece
mixed =
    char b'n'
    ∷ char b'='
    ∷ directive (number Modifier.short_short signed_d)
    ∷ char b':'
    ∷ directive string
    ∷ directive percent
    ∷ []

mixed-IsPiece : All IsPiece mixed
mixed-IsPiece = (
  (omega arith, omega arith),
  ((omega arith, omega arith), (tt, ((omega arith, omega arith), (tt, (tt, tt))))),
)

print-print_pieces_example :
    print 12 (spell mixed) (word 255 ∷ text (b'o' ∷ b'k' ∷ []) ∷ [])
    ≡ print_pieces 12 mixed (word 255 ∷ text (b'o' ∷ b'k' ∷ []) ∷ [])
print-print_pieces_example =
    print-print_pieces 12 mixed (word 255 ∷ text (b'o' ∷ b'k' ∷ []) ∷ []) mixed-IsPiece

mixed_text :
    print_pieces 12 mixed (word 255 ∷ text (b'o' ∷ b'k' ∷ []) ∷ [])
    ≡ ok (printed (b'n' ∷ b'=' ∷ b'-' ∷ b'1' ∷ b':' ∷ b'o' ∷ b'k' ∷ b'%' ∷ []) 8)
unfolding print_format nibble print_dec_signed div64 ilog2u ilog10u
mixed_text = refl
