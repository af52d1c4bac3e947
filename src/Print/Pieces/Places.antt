-- ===== src/Print/Pieces/Places.antt =====
-- Where `_print_format` leaves the index: behind its directive.
use trash_os.Base.{ℕ, ◌+◌, ◌≡◌, refl, arith, List, [], ◌∷◌, inl, inr}
use trash_os.Base.Runs.{Run, ok, undefined, halted, out_of_fuel, ◌>>=◌}
use trash_os.Print.Numbers.{
  Printed, print_dec_signed, print_dec_unsigned, print_oct, print_hex, print_big_hex, print_ptr,
}
use trash_os.Print.Directive.{
  Arg, word, long_word, text, Step, print_format, print_word, print_long, print_text, bytes_of,
}
use trash_os.Print.Parse.{
  Modifier, signed_i, signed_d, unsigned, pointer, octal, hexadecimal, big_hexadecimal,
}
use trash_os.Print.Pieces.{Order, number, string, percent, order_format, IsOrder}

-- The characters of a directive behind the first.
abbrev pub skip : Order → ℕ
skip (number Modifier.plain c) = 0
skip (number Modifier.short c) = 1
skip (number Modifier.short_short c) = 2
skip (number Modifier.long c) = 1
skip (number Modifier.long_long c) = 2
skip string = 0
skip percent = 0

-- A step, with another place to go on.
abbrev pub moved : ℕ → Step → Step
moved at r = record r { at = at }

module _ (printer : List ℕ → Run Printed) (size skip i : ℕ) where
  printed-at :
      (args : List Arg) (out : Run Printed)
      → (out >>= λ r. ok (record { chars = r.chars; bytes = r.bytes; at = i + skip; args = args }))
        ≡ ((out >>= λ r.
              ok (record { chars = r.chars; bytes = r.bytes; at = 0 + skip; args = args }))
            >>= λ (r : Step). ok (moved (i + skip) r))
  printed-at args (ok r) = refl
  printed-at args undefined = refl
  printed-at args halted = refl
  printed-at args out_of_fuel = refl

  print_word-at :
      (args : List Arg)
      → print_word printer size skip i args
        ≡ (print_word printer size skip 0 args >>= λ r. ok (moved (i + skip) r))
  unfolding print_word
  print_word-at [] = refl
  print_word-at (word v ∷ args) = printed-at args (printer (bytes_of size v))
  print_word-at (long_word v ∷ args) = refl
  print_word-at (text s ∷ args) = refl

  print_long-at :
      (args : List Arg)
      → print_long printer size skip i args
        ≡ (print_long printer size skip 0 args >>= λ r. ok (moved (i + skip) r))
  unfolding print_long
  print_long-at [] = refl
  print_long-at (word v ∷ args) = refl
  print_long-at (long_word v ∷ args) = printed-at args (printer (bytes_of size v))
  print_long-at (text s ∷ args) = refl

print_text-at :
    (i : ℕ) (args : List Arg) → print_text i args ≡ (print_text 0 args >>= λ r. ok (moved i r))
unfolding print_text
print_text-at i [] = refl
print_text-at i (word v ∷ args) = refl
print_text-at i (long_word v ∷ args) = refl
print_text-at i (text s ∷ args) = refl

-- A directive goes on behind its last character.
pub print_format-at :
    (fuel i : ℕ) (args : List Arg) (d : Order)
    → IsOrder d
    → print_format fuel i args (order_format d)
      ≡ (print_format fuel 0 args (order_format d) >>= λ r. ok (moved (i + skip d) r))
unfolding print_format
print_format-at fuel i args (number Modifier.plain signed_i) is =
    print_word-at (print_dec_signed fuel) 4 0 i args
print_format-at fuel i args (number Modifier.plain signed_d) is =
    print_word-at (print_dec_signed fuel) 4 0 i args
print_format-at fuel i args (number Modifier.plain unsigned) is =
    print_word-at (print_dec_unsigned fuel) 4 0 i args
print_format-at fuel i args (number Modifier.plain pointer) is = print_word-at print_ptr 4 0 i args
print_format-at fuel i args (number Modifier.plain octal) is = print_word-at print_oct 4 0 i args
print_format-at fuel i args (number Modifier.plain hexadecimal) is =
    print_word-at print_hex 4 0 i args
print_format-at fuel i args (number Modifier.plain big_hexadecimal) is =
    print_word-at print_big_hex 4 0 i args
print_format-at fuel i args (number Modifier.short signed_i) is =
    print_word-at (print_dec_signed fuel) 2 1 i args
print_format-at fuel i args (number Modifier.short signed_d) is =
    print_word-at (print_dec_signed fuel) 2 1 i args
print_format-at fuel i args (number Modifier.short unsigned) is =
    print_word-at (print_dec_unsigned fuel) 2 1 i args
print_format-at fuel i args (number Modifier.short pointer) is =
    absurd (elim is [ inl e ↦ cc | inr e ↦ cc ])
print_format-at fuel i args (number Modifier.short octal) is = print_word-at print_oct 2 1 i args
print_format-at fuel i args (number Modifier.short hexadecimal) is =
    print_word-at print_hex 2 1 i args
print_format-at fuel i args (number Modifier.short big_hexadecimal) is =
    print_word-at print_big_hex 2 1 i args
print_format-at fuel i args (number Modifier.short_short signed_i) is =
    print_word-at (print_dec_signed fuel) 1 2 i args
print_format-at fuel i args (number Modifier.short_short signed_d) is =
    print_word-at (print_dec_signed fuel) 1 2 i args
print_format-at fuel i args (number Modifier.short_short unsigned) is =
    print_word-at (print_dec_unsigned fuel) 1 2 i args
print_format-at fuel i args (number Modifier.short_short pointer) is =
    absurd (elim is [ inl e ↦ cc | inr e ↦ cc ])
print_format-at fuel i args (number Modifier.short_short octal) is =
    print_word-at print_oct 1 2 i args
print_format-at fuel i args (number Modifier.short_short hexadecimal) is =
    print_word-at print_hex 1 2 i args
print_format-at fuel i args (number Modifier.short_short big_hexadecimal) is =
    print_word-at print_big_hex 1 2 i args
print_format-at fuel i args (number Modifier.long signed_i) is =
    print_long-at (print_dec_signed fuel) 8 1 i args
print_format-at fuel i args (number Modifier.long signed_d) is =
    print_long-at (print_dec_signed fuel) 8 1 i args
print_format-at fuel i args (number Modifier.long unsigned) is =
    print_long-at (print_dec_unsigned fuel) 8 1 i args
print_format-at fuel i args (number Modifier.long pointer) is = print_long-at print_ptr 8 1 i args
print_format-at fuel i args (number Modifier.long octal) is = print_long-at print_oct 8 1 i args
print_format-at fuel i args (number Modifier.long hexadecimal) is =
    print_long-at print_hex 8 1 i args
print_format-at fuel i args (number Modifier.long big_hexadecimal) is =
    print_long-at print_big_hex 8 1 i args
print_format-at fuel i args (number Modifier.long_long signed_i) is =
    print_long-at (print_dec_signed fuel) 8 2 i args
print_format-at fuel i args (number Modifier.long_long signed_d) is =
    print_long-at (print_dec_signed fuel) 8 2 i args
print_format-at fuel i args (number Modifier.long_long unsigned) is =
    print_long-at (print_dec_unsigned fuel) 8 2 i args
print_format-at fuel i args (number Modifier.long_long pointer) is =
    absurd (elim is [ inl e ↦ cc | inr e ↦ cc ])
print_format-at fuel i args (number Modifier.long_long octal) is =
    print_long-at print_oct 8 2 i args
print_format-at fuel i args (number Modifier.long_long hexadecimal) is =
    print_long-at print_hex 8 2 i args
print_format-at fuel i args (number Modifier.long_long big_hexadecimal) is =
    print_long-at print_big_hex 8 2 i args
print_format-at fuel i args string is =
    let z : i + 0 ≡ i = omega arith in rw z (print_text-at i args)
print_format-at fuel i args percent is = let z : i + 0 ≡ i = omega arith in rw z refl
