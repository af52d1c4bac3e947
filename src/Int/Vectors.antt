-- ===== src/Int/Vectors.antt =====
-- `int_init_vectors` fills the whole table, and each vector gets a handler of the right shape.
use mathlib.Core.Path.{subst}
use trash_os.Base.{
  ℕ, zero, suc, ◌+◌, ◌*◌, ◌%◌, ◌^◌, ◌≤◌, ◌<◌, ◌≡◌, ◌≢◌, ◌⊎◌, refl, sym, ap, ◌∙◌, arith, Bool, true,
  false, ◌&&◌, ◌||◌, not, leb, bit_and, ◌==◌, ==→eq, eq→==, ne→==-false, Bool-cases, inl, inr,
  every, every-at,
}
use trash_os.Base.Bits.{bit_and_low}
use trash_os.Gdt.{gdt_sel_code_pl0}
use trash_os.Int.{
  IdtDescriptor, Handler, idt_descriptor, handler_of, takes_error, vectors_loop, int_init_vectors,
  idt_gate_interrupt32, ring0,
}

-- A present 32-bit interrupt gate of ring 0 into the kernel's code, to the function at `a`.
pub record IsGate (a : ℕ) (d : IdtDescriptor) : Type 0 where
  pub target : d.offset_hi * 2 ^ 16 + d.offset_lo ≡ a
  pub code : d.selector ≡ 8
  pub gate : d.type ≡ idt_gate_interrupt32
  pub ring : d.dpl ≡ 0
  pub present : d.present ≡ 1

descriptor-IsGate :
    (a : ℕ) → a < 2 ^ 32 → IsGate a (idt_descriptor a gdt_sel_code_pl0 idt_gate_interrupt32 ring0)
unfolding idt_descriptor
descriptor-IsGate a small =
    let low : bit_and a 0xffff ≡ a % 2 ^ 16 = bit_and_low 16 a in
    record { target = omega (arith, low); code = refl; gate = refl; ring = refl; present = refl }

module _ (address : Handler → ℕ) where
  entry : ℕ → IdtDescriptor
  entry i = idt_descriptor (address (handler_of i)) gdt_sel_code_pl0 idt_gate_interrupt32 ring0

  -- The loop leaves the vectors before it and behind it.
  vectors_loop-else :
      (rounds i : ℕ) (idt : ℕ → IdtDescriptor) (q : ℕ)
      → (q + 1 ≤ i) ⊎ (i + rounds ≤ q)
      → vectors_loop address rounds i idt q ≡ idt q
  unfolding vectors_loop
  vectors_loop-else zero i idt q out = refl
  vectors_loop-else (suc rounds) i idt q out =
      let ne : q ≢ i = omega arith in
      let out' : (q + 1 ≤ i + 1) ⊎ (i + 1 + rounds ≤ q) = omega arith in
      vectors_loop-else rounds (i + 1) _ q out' ∙ rw (ne→==-false q i ne) refl

  -- The loop fills the vectors that it runs through.
  vectors_loop-at :
      (rounds i : ℕ) (idt : ℕ → IdtDescriptor) (q : ℕ)
      → i ≤ q
      → q < i + rounds
      → vectors_loop address rounds i idt q ≡ entry q
  unfolding vectors_loop entry
  vectors_loop-at zero i idt q from below = absurd (omega arith)
  vectors_loop-at (suc rounds) i idt q from below = elim (Bool-cases (q == i)) [
    | inl here ↦
        let e = ==→eq q i here in
        vectors_loop-else rounds (i + 1) _ q (inl (omega arith)) ∙ rw here (ap entry (sym e))
    | inr later ↦
        let ne : q ≢ i = λ e. let t = eq→== q i e in cc in
        vectors_loop-at rounds (i + 1) _ q (omega arith) (omega arith)
  ]

  -- `int_init_vectors` writes the 256 entries of the table and no other: each is a present
  -- interrupt gate of ring 0 to the handler of its vector, if the addresses have 32 bits.
  pub int_init_vectors-IsGate :
      (idt : ℕ → IdtDescriptor)
      → ((h : Handler) → address h < 2 ^ 32)
      → ((i : ℕ) → i < 256 → IsGate (address (handler_of i)) (int_init_vectors address idt i))
        × ((q : ℕ) → 256 ≤ q → int_init_vectors address idt q ≡ idt q)
  unfolding int_init_vectors entry
  int_init_vectors-IsGate idt small = (
    λ i inside.
        subst (IsGate (address (handler_of i)))
          (sym (vectors_loop-at 256 0 idt i (omega arith) inside))
          (descriptor-IsGate (address (handler_of i)) (small (handler_of i))),
    λ q outside. vectors_loop-else 256 0 idt q (inr outside),
  )

-- The exceptions for which the processor pushes an error code, up to vector 20.
abbrev pub pushes_error : ℕ → Bool
pushes_error i = i == 8 || leb 10 i && leb i 14 || i == 17

same : Bool → Bool → Bool
same true b = b
same false b = not b

same-eq : (a b : Bool) → same a b ≡ true → a ≡ b
unfolding same
same-eq true b h = sym h
same-eq false true h = cc
same-eq false false h = refl

error_table : every (λ i. same (takes_error (handler_of i)) (pushes_error i)) 21 ≡ true
unfolding every same takes_error handler_of
error_table = refl

-- Up to vector 20, the handler in the table is declared with an error code exactly if the processor
-- pushes one.
pub takes_error-handler_of : (i : ℕ) → i < 21 → takes_error (handler_of i) ≡ pushes_error i
takes_error-handler_of i small =
    same-eq _ _
      (every-at (λ q. same (takes_error (handler_of q)) (pushes_error q)) i 21 small error_table)
