-- ===== src/Base/Runs.antt =====
-- The outcome of C code: a value, an undefined step, a processor stopped for good, or fuel that ran
-- out in a loop.

pub data Run {ℓ} (A : Type ℓ) : Type ℓ where
  ok : A → Run A
  undefined : Run A
  halted : Run A
  out_of_fuel : Run A

infixl 5 ◌>>=◌
abbrev pub ◌>>=◌ {ℓ κ} : {A : Type ℓ} {B : Type κ} → Run A → (A → Run B) → Run B
ok a >>= f = f a
undefined >>= f = undefined
halted >>= f = halted
out_of_fuel >>= f = out_of_fuel
