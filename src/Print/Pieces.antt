-- ===== src/Print/Pieces.antt =====
-- What a format string means: a list of pieces, each printed by itself.
pub mod Places
pub mod Rounds
use trash_os.Base.{ℕ, ◌+◌, ◌≡◌, ◌≢◌, ◌⊎◌, List, [], ◌∷◌, ◌++◌}
use trash_os.Base.Runs.{Run, ok, ◌>>=◌}
use trash_os.Print.Format.{Format}
use trash_os.Print.Numbers.{Printed, printed}
use trash_os.Print.Directive.{Arg, print_format}
use trash_os.Print.Parse.{
  Modifier, Conversion, signed_i, signed_d, unsigned, pointer, octal, hexadecimal, big_hexadecimal,
  spell_modifier, spell_conversion, format_of,
}

pub data Order : Type 0 where
  number : Modifier → Conversion → Order
  string : Order
  percent : Order

-- A character that is put out as it is, or `%` with what follows it.
pub data Piece : Type 0 where
  char : ℕ → Piece
  directive : Order → Piece

abbrev pub spell_order : Order → List ℕ → List ℕ
spell_order (number m c) rest = spell_modifier m (spell_conversion c ∷ rest)
spell_order string rest = b's' ∷ rest
spell_order percent rest = b'%' ∷ rest

abbrev pub order_format : Order → Format
order_format (number m c) = format_of m c
order_format string = Format.str
order_format percent = Format.escaped_percent

-- Pointers are of 32 or of 64 bits.
abbrev pub IsOrder : Order → Type 0
IsOrder (number m pointer) = (m ≡ Modifier.plain) ⊎ (m ≡ Modifier.long)
IsOrder _ = Unit

abbrev pub IsPiece : Piece → Type 0
IsPiece (char c) = (c ≢ 0) × (c ≢ b'%')
IsPiece (directive d) = IsOrder d

-- The format string.
abbrev pub spell : List Piece → List ℕ
spell [] = []
spell (char c ∷ ps) = c ∷ spell ps
spell (directive d ∷ ps) = b'%' ∷ spell_order d (spell ps)

-- What is put out, and the count: the pieces one after the other, each directive with the arguments
-- that those before it left.
abbrev pub print_pieces : ℕ → List Piece → List Arg → Run Printed
print_pieces fuel [] args = ok (printed [] 0)
print_pieces fuel (char c ∷ ps) args = do
  rest ← print_pieces fuel ps args
  ok (printed (c ∷ rest.chars) (1 + rest.bytes))
print_pieces fuel (directive d ∷ ps) args = do
  r ← print_format fuel 0 args (order_format d)
  rest ← print_pieces fuel ps r.args
  ok (printed (r.chars ++ rest.chars) (r.bytes + rest.bytes))
