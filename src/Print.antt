-- ===== src/Print.antt =====
-- kernel/arch/i386/_print.c, and printk.c which calls it: the printing routines over an abstract
-- `VGA_PUTC`. What a routine puts out is the list of its characters, in order.
pub mod Format
pub mod Numbers
pub mod Directive
pub mod Parse
pub mod Digits
pub mod Decimal
pub mod Signed
pub mod Radix
pub mod Total
pub mod Pieces
mod Tests
use trash_os.Base.{
  ℕ, zero, suc, ◌+◌, Bool, true, false, List, [], ◌++◌, ◌∷◌, ◌==◌, if◌then◌else◌, length,
}
use trash_os.Base.Runs.{Run, ok, out_of_fuel, ◌>>=◌}
use Format.{char_at, parse_format}
use Numbers.{Printed, printed}
use Directive.{Arg, print_format}

-- One round of the loop of `_print` is taken for each unit of `steps`; `fuel` is that of `div64`.
unfoldable pub print_loop : ℕ → ℕ → List ℕ → ℕ → Bool → List Arg → Run Printed
print_loop zero fuel format i pattern args = out_of_fuel
print_loop (suc steps) fuel format i pattern args = do
  c ← char_at format i
  let directive : Run Printed = do
    f ← parse_format format i
    r ← print_format fuel i args f
    rest ← print_loop steps fuel format (r.at + 1) false r.args
    ok (printed (r.chars ++ rest.chars) (r.bytes + rest.bytes))
  let start = print_loop steps fuel format (i + 1) true args
  let plain : Run Printed = do
    rest ← print_loop steps fuel format (i + 1) false args
    ok (printed (c ∷ rest.chars) (1 + rest.bytes))
  if c == 0
      then ok (printed [] 0)
      else (if pattern then directive else (if c == b'%' then start else plain))

-- `_print`: a round for each character and one for the terminator.
unfoldable pub print : ℕ → List ℕ → List Arg → Run Printed
unfolding print_loop
print fuel format args = print_loop (length format + 1) fuel format 0 false args
