-- ===== src/Print/Directive.antt =====
-- `_print_format`: one directive, with the variable arguments as a list.
use trash_os.Base.{ℕ, zero, suc, ◌+◌, ◌/◌, ◌%◌, ◌^◌, List, [], ◌∷◌, length}
use trash_os.Base.Runs.{Run, ok, undefined, ◌>>=◌}
use trash_os.Print.Format.{Format}
use trash_os.Print.Numbers.{
  Printed, print_dec_unsigned, print_dec_signed, print_oct, print_hex, print_big_hex, print_ptr,
}

-- An argument as the caller pushed it: a 32-bit word, a 64-bit one, or a pointer to a C string.
pub data Arg : Type 0 where
  word : ℕ → Arg
  long_word : ℕ → Arg
  text : List ℕ → Arg

-- What a directive leaves behind: its output, `*i`, and the arguments that are left.
pub record Step : Type 0 where
  pub chars : List ℕ
  pub bytes : ℕ
  pub at : ℕ
  pub args : List Arg

-- The bytes of a value in memory, least significant first.
unfoldable pub bytes_of : ℕ → ℕ → List ℕ
bytes_of zero v = []
bytes_of (suc size) v = (v % 2 ^ 8) ∷ bytes_of size (v / 2 ^ 8)

module _ (printer : List ℕ → Run Printed) (size skip i : ℕ) where
  step : ℕ → List Arg → Run Step
  unfolding bytes_of
  step v args = do
    r ← printer (bytes_of size v)
    ok (record { chars = r.chars; bytes = r.bytes; at = i + skip; args = args })

  -- `va_arg(*arg, int)` or `va_arg(*arg, unsigned int)`, cut to `size` bytes and printed.
  unfoldable pub print_word : List Arg → Run Step
  unfolding step
  print_word (word v ∷ args) = step v args
  print_word _ = undefined

  -- `va_arg(*arg, uint64_t)`
  unfoldable pub print_long : List Arg → Run Step
  unfolding step
  print_long (long_word v ∷ args) = step v args
  print_long _ = undefined

unfoldable pub print_text : ℕ → List Arg → Run Step
print_text i (text s ∷ args) = ok (record { chars = s; bytes = length s; at = i; args = args })
print_text i _ = undefined

unfoldable pub print_format : ℕ → ℕ → List Arg → Format → Run Step
unfolding print_word print_long print_text
print_format fuel i args Format.short_short_int = print_word (print_dec_signed fuel) 1 2 i args
print_format fuel i args Format.short_int = print_word (print_dec_signed fuel) 2 1 i args
print_format fuel i args Format.int = print_word (print_dec_signed fuel) 4 0 i args
print_format fuel i args Format.long_int = print_long (print_dec_signed fuel) 8 1 i args
print_format fuel i args Format.long_long_int = print_long (print_dec_signed fuel) 8 2 i args
print_format fuel i args Format.short_short_uint = print_word (print_dec_unsigned fuel) 1 2 i args
print_format fuel i args Format.short_uint = print_word (print_dec_unsigned fuel) 2 1 i args
print_format fuel i args Format.uint = print_word (print_dec_unsigned fuel) 4 0 i args
print_format fuel i args Format.long_uint = print_long (print_dec_unsigned fuel) 8 1 i args
print_format fuel i args Format.long_long_uint = print_long (print_dec_unsigned fuel) 8 2 i args
print_format fuel i args Format.short_short_oct = print_word print_oct 1 2 i args
print_format fuel i args Format.short_oct = print_word print_oct 2 1 i args
print_format fuel i args Format.oct = print_word print_oct 4 0 i args
print_format fuel i args Format.long_oct = print_long print_oct 8 1 i args
print_format fuel i args Format.long_long_oct = print_long print_oct 8 2 i args
print_format fuel i args Format.short_short_hex = print_word print_hex 1 2 i args
print_format fuel i args Format.short_hex = print_word print_hex 2 1 i args
print_format fuel i args Format.hex = print_word print_hex 4 0 i args
print_format fuel i args Format.long_hex = print_long print_hex 8 1 i args
print_format fuel i args Format.long_long_hex = print_long print_hex 8 2 i args
print_format fuel i args Format.short_short_big_hex = print_word print_big_hex 1 2 i args
print_format fuel i args Format.short_big_hex = print_word print_big_hex 2 1 i args
print_format fuel i args Format.big_hex = print_word print_big_hex 4 0 i args
print_format fuel i args Format.long_big_hex = print_long print_big_hex 8 1 i args
print_format fuel i args Format.long_long_big_hex = print_long print_big_hex 8 2 i args
print_format fuel i args Format.ptr = print_word print_ptr 4 0 i args
print_format fuel i args Format.long_ptr = print_long print_ptr 8 1 i args
print_format fuel i args Format.str = print_text i args
print_format fuel i args Format.escaped_percent =
    ok (record { chars = b'%' ∷ []; bytes = 1; at = i; args = args })
print_format fuel i args _ =
    ok (record { chars = b'?' ∷ b'?' ∷ b'?' ∷ []; bytes = 3; at = i; args = args })
