-- ===== src/Print/Pieces/Rounds.antt =====
-- `_print` runs through the pieces of its format string.
use trash_os.Base.{
  ℕ, zero, suc, ◌+◌, ◌<◌, ◌≡◌, ◌≢◌, refl, ap, ◌∙◌, arith, false, true, List, [], ◌∷◌, ◌++◌, length,
  All, ne→==-false, length-append,
}
use mathlib.Core.List.{append_assoc}
use trash_os.Base.Runs.{Run, ok, undefined, halted, out_of_fuel, ◌>>=◌}
use trash_os.Print.{print, print_loop}
use trash_os.Print.Format.{Format, char_at, parse_format}
use trash_os.Print.Numbers.{Printed, printed}
use trash_os.Print.Directive.{Arg, Step, print_format}
use trash_os.Print.Parse.{
  Modifier, Conversion, signed_i, signed_d, unsigned, pointer, octal, hexadecimal, big_hexadecimal,
  spell_conversion, parse_format-spelling, parse_format-append, parsed_string, parsed_percent,
  char_at-append, char_at_zero,
}
use trash_os.Print.Pieces.{
  Order, number, string, percent, Piece, char, directive, spell_order, order_format, IsPiece, spell,
  print_pieces,
}
use trash_os.Print.Pieces.Places.{skip, moved, print_format-at}

-- A directive as it is read.
order_parsed :
    (d : Order) (before rest : List ℕ)
    → parse_format (before ++ spell_order d rest) (length before) ≡ ok (order_format d)
order_parsed (number m c) before rest = parse_format-spelling m c before rest
order_parsed string before rest = parse_format-append before (b's' ∷ rest) ∙ parsed_string rest
order_parsed percent before rest = parse_format-append before (b'%' ∷ rest) ∙ parsed_percent rest

conversion-set : (c : Conversion) → spell_conversion c ≢ 0
conversion-set signed_i = omega arith
conversion-set signed_d = omega arith
conversion-set unsigned = omega arith
conversion-set pointer = omega arith
conversion-set octal = omega arith
conversion-set hexadecimal = omega arith
conversion-set big_hexadecimal = omega arith

order_head :
    (d : Order) (rest : List ℕ)
    → (h : ℕ) × (tail : List ℕ) × (spell_order d rest ≡ h ∷ tail) × (h ≢ 0)
order_head (number Modifier.plain c) rest = (_, _, refl, conversion-set c)
order_head (number Modifier.short c) rest = (_, _, refl, omega arith)
order_head (number Modifier.short_short c) rest = (_, _, refl, omega arith)
order_head (number Modifier.long c) rest = (_, _, refl, omega arith)
order_head (number Modifier.long_long c) rest = (_, _, refl, omega arith)
order_head string rest = (_, _, refl, omega arith)
order_head percent rest = (_, _, refl, omega arith)

order-append : (d : Order) (rest : List ℕ) → spell_order d [] ++ rest ≡ spell_order d rest
order-append (number Modifier.plain c) rest = refl
order-append (number Modifier.short c) rest = refl
order-append (number Modifier.short_short c) rest = refl
order-append (number Modifier.long c) rest = refl
order-append (number Modifier.long_long c) rest = refl
order-append string rest = refl
order-append percent rest = refl

length-order : (d : Order) (rest : List ℕ) → length (spell_order d rest) ≡ skip d + 1 + length rest
length-order (number Modifier.plain c) rest = omega arith
length-order (number Modifier.short c) rest = omega arith
length-order (number Modifier.short_short c) rest = omega arith
length-order (number Modifier.long c) rest = omega arith
length-order (number Modifier.long_long c) rest = omega arith
length-order string rest = omega arith
length-order percent rest = omega arith

char_at_end : (pre : List ℕ) → char_at (pre ++ []) (length pre) ≡ ok 0
char_at_end pre =
    ap (char_at (pre ++ [])) (let e : length pre ≡ length pre + 0 = omega arith in e)
    ∙ char_at-append pre [] 0
    ∙ (unfold char_at in refl)

-- The character behind the text `pre`.
char_at_here : (pre : List ℕ) (x : ℕ) (xs : List ℕ) → char_at (pre ++ x ∷ xs) (length pre) ≡ ok x
char_at_here pre x xs =
    ap (char_at (pre ++ x ∷ xs)) (let e : length pre ≡ length pre + 0 = omega arith in e)
    ∙ char_at-append pre (x ∷ xs) 0
    ∙ char_at_zero x xs

-- A directive, and then the rest.
step_then :
    (at : ℕ) (out : Run Step) (f g : ℕ → List Arg → Run Printed)
    → ((args : List Arg) → f (at + 1) args ≡ g 0 args)
    → ((out >>= λ r. ok (moved at r)) >>= λ r.
        f (r.at + 1) r.args >>= λ rest. ok (printed (r.chars ++ rest.chars) (r.bytes + rest.bytes)))
      ≡ (out >>= λ r.
          g 0 r.args >>= λ rest. ok (printed (r.chars ++ rest.chars) (r.bytes + rest.bytes)))
step_then at (ok r) f g same =
    ap
      (λ (t : Run Printed).
        t >>= λ rest. ok (printed (r.chars ++ rest.chars) (r.bytes + rest.bytes)))
      (same r.args)
step_then at undefined f g same = refl
step_then at halted f g same = refl
step_then at out_of_fuel f g same = refl

-- The three kinds of rounds.
module _ (n fuel : ℕ) (format : List ℕ) (i : ℕ) (args : List Arg) where
  round_end :
      char_at format i ≡ ok 0 → print_loop (suc n) fuel format i false args ≡ ok (printed [] 0)
  unfolding print_loop
  round_end here = rw here

  round_char :
      (c : ℕ)
      → char_at format i ≡ ok c
      → c ≢ 0
      → c ≢ b'%'
      → print_loop (suc n) fuel format i false args ≡ (
          print_loop n fuel format (i + 1) false args >>= λ rest.
          ok (printed (c ∷ rest.chars) (1 + rest.bytes)))
  unfolding print_loop
  round_char c here set other = rw (here, ne→==-false c 0 set, ne→==-false c b'%' other)

  round_start :
      char_at format i ≡ ok b'%'
      → print_loop (suc n) fuel format i false args ≡ print_loop n fuel format (i + 1) true args
  unfolding print_loop
  round_start here = rw here

  round_directive :
      (c : ℕ) (f : Format)
      → char_at format i ≡ ok c
      → c ≢ 0
      → parse_format format i ≡ ok f
      → print_loop (suc n) fuel format i true args ≡ (
          print_format fuel i args f >>= λ r.
          print_loop n fuel format (r.at + 1) false r.args >>= λ rest.
          ok (printed (r.chars ++ rest.chars) (r.bytes + rest.bytes)))
  unfolding print_loop
  round_directive c f here set parsed = rw (here, ne→==-false c 0 set, parsed)

print_loop_pieces :
    (steps fuel : ℕ) (pre : List ℕ) (ps : List Piece) (args : List Arg)
    → length (spell ps) < steps
    → All IsPiece ps
    → print_loop steps fuel (pre ++ spell ps) (length pre) false args ≡ print_pieces fuel ps args
print_loop_pieces zero fuel pre ps args h all = absurd (omega arith)
print_loop_pieces (suc steps) fuel pre [] args h all =
    round_end steps fuel (pre ++ []) (length pre) args (char_at_end pre)
print_loop_pieces (suc steps) fuel pre (char c ∷ ps) args h all =
    let shift : (pre ++ c ∷ []) ++ spell ps ≡ pre ++ c ∷ spell ps =
      append_assoc pre (c ∷ []) (spell ps) in
    let next : length (pre ++ c ∷ []) ≡ length pre + 1 = length-append pre (c ∷ []) in
    let rest : print_loop steps fuel (pre ++ c ∷ spell ps) (length pre + 1) false args
        ≡ print_pieces fuel ps args =
      rw (← shift, ← next)
        (print_loop_pieces steps fuel (pre ++ c ∷ []) ps args (omega arith) all.1) in
    round_char steps fuel (pre ++ c ∷ spell ps) (length pre) args c (char_at_here pre c (spell ps))
      all.0.0 all.0.1
    ∙ ap (λ (t : Run Printed). t >>= λ rest. ok (printed (c ∷ rest.chars) (1 + rest.bytes))) rest
print_loop_pieces (suc zero) fuel pre (directive d ∷ ps) args h all = absurd (omega arith)
print_loop_pieces (suc (suc n)) fuel pre (directive d ∷ ps) args h all =
    let rest = spell ps in
    let order = spell_order d rest in
    let format = pre ++ b'%' ∷ order in
    let before = pre ++ b'%' ∷ [] in
    let behind = pre ++ b'%' ∷ spell_order d [] in
    let shift : before ++ order ≡ format = append_assoc pre (b'%' ∷ []) order in
    let next : length before ≡ length pre + 1 = length-append pre (b'%' ∷ []) in
    let shift' : behind ++ rest ≡ format =
      append_assoc pre (b'%' ∷ spell_order d []) rest
      ∙ ap (λ (l : List ℕ). pre ++ b'%' ∷ l) (order-append d rest) in
    let next' : length behind ≡ length pre + 1 + skip d + 1 =
      let e = length-append pre (b'%' ∷ spell_order d []) in
      let e' = length-order d [] in omega arith in
    let (c, tail, spelled, set) = order_head d rest in
    let here : char_at format (length pre + 1) ≡ ok c =
      rw (← shift, ← next)
        (ap (λ (l : List ℕ). char_at (before ++ l) (length before)) spelled
          ∙ char_at_here before c tail) in
    let parsed : parse_format format (length pre + 1) ≡ ok (order_format d) =
      rw (← shift, ← next) (order_parsed d before rest) in
    let short : length rest < n = let e = length-order d rest in omega arith in
    let loop = λ (i : ℕ) (more : List Arg). print_loop n fuel format i false more in
    let same : (more : List Arg)
        → loop (length pre + 1 + skip d + 1) more ≡ print_pieces fuel ps more =
      λ more. rw (← shift', ← next') (print_loop_pieces n fuel behind ps more short all.1) in
    round_start (suc n) fuel format (length pre) args (char_at_here pre b'%' order)
    ∙ round_directive n fuel format (length pre + 1) args c (order_format d) here set parsed
    ∙ ap
        (λ (t : Run Step). t >>= λ r. loop (r.at + 1) r.args >>= λ rest.
          ok (printed (r.chars ++ rest.chars) (r.bytes + rest.bytes)))
        (print_format-at fuel (length pre + 1) args d all.0)
    ∙ step_then (length pre + 1 + skip d) (print_format fuel 0 args (order_format d)) loop
        (λ i more. print_pieces fuel ps more) same

-- A format string made of plain characters and of directives, other than pointers of a size the
-- code does not know, is printed piece by piece: the characters as they are, each directive as its
-- format says, with the arguments that those before it left; the output is the pieces' one after
-- the other, and the count is the sum of theirs. Where a piece has no result, `_print` has none.
pub print-print_pieces :
    (fuel : ℕ) (ps : List Piece) (args : List Arg)
    → All IsPiece ps
    → print fuel (spell ps) args ≡ print_pieces fuel ps args
unfolding print
print-print_pieces fuel ps args all =
    print_loop_pieces (length (spell ps) + 1) fuel [] ps args (omega arith) all
