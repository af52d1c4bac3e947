-- ===== src/Print/Format.antt =====
-- The format codes of _print.c and `_parse_format`, the state machine that reads one directive.
use trash_os.Base.{
  ℕ, zero, suc, ◌+◌, Bool, true, false, List, leb, ◌==◌, if◌then◌else◌, get_or, length,
}
use trash_os.Base.Runs.{Run, ok, undefined, out_of_fuel, ◌>>=◌}

pub data Format : Type 0 where
  invalid none : Format
  short short_short long long_long : Format
  short_short_int short_int int long_int long_long_int : Format
  short_short_uint short_uint uint long_uint long_long_uint : Format
  short_short_ptr short_ptr ptr long_ptr long_long_ptr : Format
  short_short_oct short_oct oct long_oct long_long_oct : Format
  short_short_hex short_hex hex long_hex long_long_hex : Format
  short_short_big_hex short_big_hex big_hex long_big_hex long_long_big_hex : Format
  str escaped_percent : Format

-- `format[i]` of a C string: the character, or the terminator behind the last one.
unfoldable pub char_at : List ℕ → ℕ → Run ℕ
char_at format i = if leb i (length format) then ok (get_or format i 0) else undefined

-- What a round of the loop leaves in `format_state` and `reading_format`.
pub record Reading : Type 0 where
  pub state : Format
  pub more : Bool

abbrev pub go : Format → Reading
go f = record { state = f; more = true }

abbrev pub stop : Format → Reading
stop f = record { state = f; more = false }

unfoldable pub read_none : ℕ → Reading
read_none c =
    if c == b'h'
    then go Format.short
    else if c == b'l'
    then go Format.long
    else if c == b'd'
    then stop Format.int
    else if c == b'i'
    then stop Format.int
    else if c == b'u'
    then stop Format.uint
    else if c == b'p'
    then stop Format.ptr
    else if c == b'o'
    then stop Format.oct
    else if c == b'x'
    then stop Format.hex
    else if c == b'X'
    then stop Format.big_hex
    else if c == b's'
    then stop Format.str
    else if c == b'%'
    then stop Format.escaped_percent
    else stop Format.invalid

unfoldable pub read_short : ℕ → Reading
read_short c =
    if c == b'h'
    then go Format.short_short
    else if c == b'd'
    then stop Format.short_int
    else if c == b'i'
    then stop Format.short_int
    else if c == b'u'
    then stop Format.short_uint
    else if c == b'p'
    then stop Format.short_ptr
    else if c == b'o'
    then stop Format.short_oct
    else if c == b'x'
    then stop Format.short_hex
    else if c == b'X'
    then stop Format.short_big_hex
    else stop Format.invalid

unfoldable pub read_short_short : ℕ → Reading
read_short_short c =
    if c == b'd'
    then stop Format.short_short_int
    else if c == b'i'
    then stop Format.short_short_int
    else if c == b'u'
    then stop Format.short_short_uint
    else if c == b'p'
    then stop Format.short_short_ptr
    else if c == b'o'
    then stop Format.short_short_oct
    else if c == b'x'
    then stop Format.short_short_hex
    else if c == b'X'
    then stop Format.short_short_big_hex
    else stop Format.invalid

unfoldable pub read_long : ℕ → Reading
read_long c =
    if c == b'l'
    then go Format.long_long
    else if c == b'd'
    then stop Format.long_int
    else if c == b'i'
    then stop Format.long_int
    else if c == b'u'
    then stop Format.long_uint
    else if c == b'p'
    then stop Format.long_ptr
    else if c == b'o'
    then stop Format.long_oct
    else if c == b'x'
    then stop Format.long_hex
    else if c == b'X'
    then stop Format.long_big_hex
    else stop Format.invalid

unfoldable pub read_long_long : ℕ → Reading
read_long_long c =
    if c == b'd'
    then stop Format.long_long_int
    else if c == b'i'
    then stop Format.long_long_int
    else if c == b'u'
    then stop Format.long_long_uint
    else if c == b'p'
    then stop Format.long_long_ptr
    else if c == b'o'
    then stop Format.long_long_oct
    else if c == b'x'
    then stop Format.long_long_hex
    else if c == b'X'
    then stop Format.long_long_big_hex
    else stop Format.invalid

-- `switch (format_state)`: no case is written for the final states.
unfoldable pub read_char : Format → ℕ → Reading
unfolding read_none read_short read_short_short read_long read_long_long
read_char Format.none c = read_none c
read_char Format.short c = read_short c
read_char Format.short_short c = read_short_short c
read_char Format.long c = read_long c
read_char Format.long_long c = read_long_long c
read_char f c = go f

-- `while (reading_format)`, a unit of fuel for each character read.
unfoldable pub parse_loop : ℕ → Format → List ℕ → ℕ → Run Format
parse_loop zero state format i = out_of_fuel
parse_loop (suc fuel) state format i = do
  c ← char_at format i
  let r = read_char state c
  let rest = parse_loop fuel r.state format (i + 1)
  if r.more then rest else ok r.state

-- `_parse_format`. Three characters are the longest directive.
unfoldable pub parse_format : List ℕ → ℕ → Run Format
unfolding parse_loop
parse_format format i = parse_loop 3 Format.none format i
