-- ===== src/Int/Messages.antt =====
-- The messages of the handlers are printed to their ends.
use trash_os.Base.{
  ℕ, ◌+◌, ◌≤◌, ◌≡◌, ◌≢◌, refl, sym, ap, ◌∙◌, arith, Bool, true, false, List, [], ◌∷◌, ◌++◌, All,
  Option, none, some, map, ◌==◌, if◌then◌else◌, eq→==, Bool-cases, inl, inr, bits,
}
use mathlib.Core.Path.{subst}
use trash_os.Base.Runs.{ok, halted}
use trash_os.Cpu.{Cpu, halt}
use trash_os.Print.{print}
use trash_os.Print.Numbers.{Printed, printed}
use trash_os.Print.Directive.{Arg, Step, word, print_format}
use trash_os.Print.Parse.{Modifier, pointer, unsigned}
use trash_os.Print.Radix.{print_ptr_lem}
use trash_os.Print.Decimal.{print_dec_unsigned-IsNumeral}
use trash_os.Print.Pieces.{
  order_format, Piece, char, directive, number, spell, IsPiece, print_pieces,
}
use trash_os.Print.Pieces.Rounds.{print-print_pieces}
use trash_os.Int.{
  Handler, divide_error, debug, nmi_interrupt, breakpoint, overflow, bound_range_exceeded,
  invalid_opcode, device_not_available, double_fault, coprocessor_segment_overrun, invalid_tss,
  segment_not_present, stack_fault, general_protection, page_fault, exception, proc_switch, unknown,
}
use trash_os.Int.Handlers.{
  Frame, Message, message_of, page_fault_message, error_code_page, int_handle,
}

-- The pieces of a format string with directives `%p` and `%u`; the flag says that `%` was read.
abbrev pieces : Bool → List ℕ → List Piece
pieces flag [] = []
pieces true (x ∷ xs) =
    directive (number Modifier.plain (if x == b'p' then pointer else unsigned)) ∷ pieces false xs
pieces false (x ∷ xs) =
    let after = pieces true xs in
    let next = char x ∷ pieces false xs in if x == b'%' then after else next

abbrev no_zero : List ℕ → Bool
no_zero [] = true
no_zero (x ∷ xs) = if x == 0 then false else no_zero xs

-- Every directive has a word.
abbrev enough : List Piece → List ℕ → Bool
enough [] ws = true
enough (char c ∷ ps) ws = enough ps ws
enough (directive d ∷ ps) [] = false
enough (directive d ∷ ps) (w ∷ ws) = enough ps ws

-- The text before the first directive.
abbrev pub title : Bool → List ℕ → List ℕ
title true xs = []
title false [] = []
title false (x ∷ xs) = let rest = x ∷ title false xs in if x == b'%' then [] else rest

order-IsPiece :
    (b : Bool) → IsPiece (directive (number Modifier.plain (if b then pointer else unsigned)))
order-IsPiece true = inl refl
order-IsPiece false = tt

false-else : (x y : ℕ) → (x == y) ≡ false → x ≢ y
false-else x y e same = let t = eq→== x y same in cc

no_zero-head : (x : ℕ) (xs : List ℕ) → no_zero (x ∷ xs) ≡ true → (x ≢ 0) × (no_zero xs ≡ true)
no_zero-head x xs set = elim (Bool-cases (x == 0)) [
  | inl t ↦ let h : false ≡ true = rw t at set in cc
  | inr e ↦ (false-else x 0 e, rw e at set)
]

pieces-IsPiece : (flag : Bool) (xs : List ℕ) → no_zero xs ≡ true → All IsPiece (pieces flag xs)
pieces-IsPiece flag [] set = tt
pieces-IsPiece true (x ∷ xs) set =
    (order-IsPiece (x == b'p'), pieces-IsPiece false xs (no_zero-head x xs set).1)
pieces-IsPiece false (x ∷ xs) set =
    let (on, set') = no_zero-head x xs set in
    elim (Bool-cases (x == b'%')) [
      | inl t ↦ rw t (pieces-IsPiece true xs set')
      | inr e ↦ rw e ((on, false-else x b'%' e), pieces-IsPiece false xs set')
    ]

-- `%p` and `%u` on a word.
word_printed :
    (fuel : ℕ) (b : Bool) (w : ℕ) (ws : List Arg)
    → 11 ≤ fuel
    → (r : Step) × (print_format fuel 0
          (word w ∷ ws)
          (order_format (number Modifier.plain (if b then pointer else unsigned)))
        ≡ ok r)
      × (r.args ≡ ws)
unfolding print_format
word_printed fuel true w ws more =
    let (cs, runs, size, digits, value) = print_ptr_lem 4 w (omega arith) in
    (record { chars = b'0' ∷ b'x' ∷ cs; bytes = 18; at = 0; args = ws }, rw runs refl, refl)
word_printed fuel false w ws more =
    let (out, runs, rest) =
      print_dec_unsigned-IsNumeral fuel 4 w more (omega arith) (omega arith) in
    (record { chars = out.chars; bytes = out.bytes; at = 0; args = ws }, rw runs refl, refl)

-- A format string with a word for each directive is printed, its title first.
printed_words :
    (fuel : ℕ) (flag : Bool) (xs ws : List ℕ)
    → 11 ≤ fuel
    → enough (pieces flag xs) ws ≡ true
    → (out : Printed) × (print_pieces fuel (pieces flag xs) (map word ws) ≡ ok out)
      × (rest : List ℕ) × (out.chars ≡ title flag xs ++ rest)
printed_words fuel true [] ws more have = (_, refl, [], refl)
printed_words fuel false [] ws more have = (_, refl, [], refl)
printed_words fuel true (x ∷ xs) [] more have = cc
printed_words fuel true (x ∷ xs) (w ∷ ws) more have =
    let (r, step, left) = word_printed fuel (x == b'p') w (map word ws) more in
    let (out, runs, rest, same) = printed_words fuel false xs ws more have in
    (printed (r.chars ++ out.chars) (r.bytes + out.bytes), rw (step, left, runs) refl, _, refl)
printed_words fuel false (x ∷ xs) ws more have = elim (Bool-cases (x == b'%')) [
  | inl t ↦
      let have' : enough (pieces true xs) ws ≡ true = rw t at have in
      rw t (printed_words fuel true xs ws more have')
  | inr e ↦
      let have' : enough (pieces false xs) ws ≡ true = rw e at have in
      let (out, runs, rest, same) = printed_words fuel false xs ws more have' in
      rw e (
        printed (x ∷ out.chars) (1 + out.bytes),
        rw runs refl,
        rest,
        ap (λ (l : List ℕ). x ∷ l) same,
      )
]

-- What a message is, for its printing to go well.
record IsGood (m : Message) : Type 0 where
  pub set : no_zero m.format ≡ true
  pub spelled : spell (pieces false m.format) ≡ m.format
  pub have : enough (pieces false m.format) m.words ≡ true

prints :
    (fuel : ℕ) (m : Message)
    → 11 ≤ fuel
    → IsGood m
    → (out : Printed) × (print fuel m.format (map word m.words) ≡ ok out)
      × (rest : List ℕ) × (out.chars ≡ title false m.format ++ rest)
prints fuel m more is =
    let (out, runs, rest, same) = printed_words fuel false m.format m.words more is.have in
    (
      out,
      ap (λ (f : List ℕ). print fuel f (map word m.words)) (sym is.spelled)
          ∙ print-print_pieces fuel (pieces false m.format) (map word m.words)
              (pieces-IsPiece false m.format is.set)
          ∙ runs,
      rest,
      same,
    )

good :
    (m : Message)
    → no_zero m.format ≡ true
    → spell (pieces false m.format) ≡ m.format
    → enough (pieces false m.format) m.words ≡ true
    → IsGood m
good m set spelled have = record { set = set; spelled = spelled; have = have }

page_fault-IsGood :
    (c : Cpu) (frame : Frame) (error : ℕ) → IsGood (page_fault_message c frame error)
unfolding page_fault_message error_code_page
page_fault-IsGood c frame error = elim (Bool-cases (bits error 2 1 == 0)) [
  | inl t ↦ elim (Bool-cases (bits error 0 1 == 0)) [
    | inl t' ↦ rw (t, t') (good _ refl refl refl)
    | inr e' ↦ rw (t, e') (good _ refl refl refl)
  ]
  | inr e ↦ rw e (good _ refl refl refl)
]

-- The message of a handler, where it has one.
abbrev OnSome : (Message → Type 0) → Option Message → Type 0
OnSome P none = Unit
OnSome P (some m) = P m

message_of-IsGood :
    (c : Cpu) (at : ℕ) (frame : Frame) (error : ℕ) (h : Handler)
    → OnSome IsGood (message_of c at frame error h)
unfolding message_of
message_of-IsGood c at frame error divide_error = good _ refl refl refl
message_of-IsGood c at frame error debug = good _ refl refl refl
message_of-IsGood c at frame error nmi_interrupt = good _ refl refl refl
message_of-IsGood c at frame error breakpoint = good _ refl refl refl
message_of-IsGood c at frame error overflow = good _ refl refl refl
message_of-IsGood c at frame error bound_range_exceeded = good _ refl refl refl
message_of-IsGood c at frame error invalid_opcode = good _ refl refl refl
message_of-IsGood c at frame error device_not_available = good _ refl refl refl
message_of-IsGood c at frame error double_fault = good _ refl refl refl
message_of-IsGood c at frame error coprocessor_segment_overrun = good _ refl refl refl
message_of-IsGood c at frame error invalid_tss = good _ refl refl refl
message_of-IsGood c at frame error segment_not_present = good _ refl refl refl
message_of-IsGood c at frame error stack_fault = good _ refl refl refl
message_of-IsGood c at frame error general_protection = good _ refl refl refl
message_of-IsGood c at frame error page_fault = page_fault-IsGood c frame error
message_of-IsGood c at frame error exception = good _ refl refl refl
message_of-IsGood c at frame error proc_switch = tt
message_of-IsGood c at frame error unknown = good _ refl refl refl

-- Every handler with a message, for every interrupted context and every error code, prints that
-- message to its end, beginning with the text before its first directive, if `div64` has fuel for 11
-- candidates. It returns then if an interrupt ends its `hlt`, and stops for good otherwise.
pub int_handle_lem :
    (fuel : ℕ) (wakes : Bool) (c : Cpu) (at : ℕ) (frame : Frame) (error : ℕ) (h : Handler)
    (m : Message)
    → 11 ≤ fuel
    → message_of c at frame error h ≡ some m
    → (out : Printed) × (print fuel m.format (map word m.words) ≡ ok out)
      × (int_handle fuel wakes m ≡ (if wakes then ok out else halted))
      × (rest : List ℕ) × (out.chars ≡ title false m.format ++ rest)
unfolding int_handle halt
int_handle_lem fuel wakes c at frame error h m more is =
    let is_good : IsGood m = subst (OnSome IsGood) is (message_of-IsGood c at frame error h) in
    let (out, runs, rest, same) = prints fuel m more is_good in
    (out, runs, rw runs refl, rest, same)
