-- ===== src/Gdt/Fields.antt =====
-- The fields of a segment descriptor, read back as the processor reads them.
use trash_os.Base.{
  ℕ, ◌+◌, ◌*◌, ◌/◌, ◌%◌, ◌^◌, ◌<◌, ◌≡◌, refl, ap, ◌∙◌, arith, bit_and, bit_or, bits, u32, u64, ◌<<◌,
}
use trash_os.Base.Bits.{
  bit_or_disjoint, bit_or_comm, bit_and_low, bit_and_high, bit_and_page, bit_or-zero,
}
use trash_os.Base.Bits.Split.{bit_and_split, bit_or_split}
use trash_os.Gdt.{gdt_descriptor}

-- What the processor reads from a descriptor: the base, the limit, the bits 47:40 and 55:52.
pub record Describes (d segment top access_byte flag_bits : ℕ) : Type 0 where
  pub base : bits d 16 24 + bits d 56 8 * 2 ^ 24 ≡ segment
  pub limit : bits d 0 16 + bits d 48 4 * 2 ^ 16 ≡ top
  pub access : bits d 40 8 ≡ access_byte
  pub flags : bits d 52 4 ≡ flag_bits

-- The descriptor as a sum of fields.
abbrev layout : ℕ → ℕ → ℕ → ℕ
layout base limit flags =
    (base / 2 ^ 24 * 2 ^ 24
        + (flags / 2 ^ 12 * 2 ^ 20
            + limit / 2 ^ 16 * 2 ^ 16
            + flags % 2 ^ 8 * 2 ^ 8
            + base / 2 ^ 16 % 2 ^ 8))
      * 2 ^ 32
    + (base % 2 ^ 16 * 2 ^ 16 + limit % 2 ^ 16)

zero-bit_or : (a : ℕ) → bit_or 0 a ≡ a
zero-bit_or a = bit_or_comm 0 a ∙ bit_or-zero a

-- The flags under their mask: the bits 11:8 are dropped.
flag_mask :
    (f : ℕ) → f < 2 ^ 16 → bit_and (f << 8) 0x00f0ff00 ≡ f / 2 ^ 12 * 2 ^ 20 + f % 2 ^ 8 * 2 ^ 8
flag_mask f small =
    let shift : f << 8 ≡ f * 2 ^ 8 + 0 = omega arith in
    let split : f ≡ f / 2 ^ 12 * 2 ^ 12 + f % 2 ^ 12 = omega arith in
    let high : bit_and (f / 2 ^ 12) 15 ≡ f / 2 ^ 12 = bit_and_low 4 (f / 2 ^ 12) ∙ omega arith in
    let low : bit_and (f % 2 ^ 12) 255 ≡ f % 2 ^ 8 = bit_and_low 8 (f % 2 ^ 12) ∙ omega arith in
    ap (λ (t : ℕ). bit_and t 0x00f0ff00) shift
    ∙ bit_and_high 8 f 0 0xf0ff (omega arith)
    ∙ ap (λ (t : ℕ). bit_and t 0xf0ff * 2 ^ 8) split
    ∙ ap (λ (t : ℕ). t * 2 ^ 8)
        (bit_and_split 12 (f / 2 ^ 12) (f % 2 ^ 12) 15 255 (omega arith) (omega arith))
    ∙ (let e = high in let e' = low in omega arith)

-- The high word without the base: the flags around the limit's bits 19:16.
flags_limit :
    (l h a : ℕ)
    → l < 16
    → a < 2 ^ 8
    → bit_or (l * 2 ^ 16) (h * 2 ^ 20 + a * 2 ^ 8) ≡ h * 2 ^ 20 + l * 2 ^ 16 + a * 2 ^ 8
flags_limit l h a small small' =
    let wide : l * 2 ^ 16 ≡ 0 * 2 ^ 20 + l * 2 ^ 16 = omega arith in
    let low : bit_or (l * 2 ^ 16) (a * 2 ^ 8) ≡ l * 2 ^ 16 + a * 2 ^ 8 =
      bit_or_disjoint 16 l (a * 2 ^ 8) (omega arith) in
    let high : bit_or 0 h ≡ h = zero-bit_or h in
    ap (λ (t : ℕ). bit_or t (h * 2 ^ 20 + a * 2 ^ 8)) wide
    ∙ bit_or_split 20 0 (l * 2 ^ 16) h (a * 2 ^ 8) (omega arith) (omega arith)
    ∙ omega arith

low_word :
    (d lo base : ℕ)
    → lo < 2 ^ 16
    → bit_or (d * 2 ^ 32 + lo) (u32 (base << 16)) ≡ d * 2 ^ 32 + (base % 2 ^ 16 * 2 ^ 16 + lo)
low_word d lo base small =
    let cut : u32 (base << 16) ≡ 0 * 2 ^ 32 + base % 2 ^ 16 * 2 ^ 16 = omega arith in
    let low : bit_or lo (base % 2 ^ 16 * 2 ^ 16) ≡ base % 2 ^ 16 * 2 ^ 16 + lo =
      bit_or_comm lo _ ∙ bit_or_disjoint 16 (base % 2 ^ 16) lo small in
    let high : bit_or d 0 ≡ d = bit_or-zero d in
    ap (λ (t : ℕ). bit_or (d * 2 ^ 32 + lo) t) cut
    ∙ bit_or_split 32 d lo 0 (base % 2 ^ 16 * 2 ^ 16) (omega arith) (omega arith)
    ∙ omega arith

descriptor_layout :
    (base limit flags : ℕ)
    → base < 2 ^ 32
    → limit < 2 ^ 20
    → flags < 2 ^ 16
    → gdt_descriptor base limit flags ≡ layout base limit flags
unfolding gdt_descriptor
descriptor_layout base limit flags b l f =
    let h : ℕ = flags / 2 ^ 12 * 2 ^ 20 + limit / 2 ^ 16 * 2 ^ 16 + flags % 2 ^ 8 * 2 ^ 8 in
    let e₁ : bit_and limit 0xf0000 ≡ limit / 2 ^ 16 * 2 ^ 16 =
      bit_and_page 16 4 limit (omega arith) in
    let e₂ = flag_mask flags f in
    let e₃ =
      flags_limit (limit / 2 ^ 16) (flags / 2 ^ 12) (flags % 2 ^ 8) (omega arith) (omega arith) in
    let e₄ : bit_and (base / 2 ^ 16) 0xff ≡ base / 2 ^ 16 % 2 ^ 8 = bit_and_low 8 (base / 2 ^ 16) in
    let mid : bit_or h (base / 2 ^ 16 % 2 ^ 8) ≡ h + base / 2 ^ 16 % 2 ^ 8 =
      ap (λ (t : ℕ). bit_or t (base / 2 ^ 16 % 2 ^ 8))
        (let w : h ≡ h / 2 ^ 8 * 2 ^ 8 = omega arith in w)
      ∙ bit_or_disjoint 8 (h / 2 ^ 8) (base / 2 ^ 16 % 2 ^ 8) (omega arith)
      ∙ omega arith in
    let e₅ : bit_and base 0xff000000 ≡ base / 2 ^ 24 * 2 ^ 24 =
      bit_and_page 24 8 base (omega arith) in
    let r : ℕ = h + base / 2 ^ 16 % 2 ^ 8 in
    let top : bit_or r (base / 2 ^ 24 * 2 ^ 24) ≡ base / 2 ^ 24 * 2 ^ 24 + r =
      bit_or_comm r _ ∙ bit_or_disjoint 24 (base / 2 ^ 24) r (omega arith) in
    let d : ℕ = base / 2 ^ 24 * 2 ^ 24 + r in
    let wide : u64 (d << 32) ≡ d * 2 ^ 32 = omega arith in
    let e₆ : bit_and limit 0xffff ≡ limit % 2 ^ 16 = bit_and_low 16 limit in
    let e₇ = bit_or_disjoint 32 d (limit % 2 ^ 16) (omega arith) in
    let e₈ = low_word d (limit % 2 ^ 16) base (omega arith) in
    rw (e₁, e₂, e₃, e₄, mid, e₅, top, wide, e₆, e₇, e₈) refl

-- A descriptor built from a base of 32 bits, a limit of 20 bits and flags of 16 bits is read by the
-- processor as that base and that limit, with the flags' bits 7:0 as its access byte and their bits
-- 15:12 as its size and granularity.
pub gdt_descriptor-Describes :
    (base limit flags : ℕ)
    → base < 2 ^ 32
    → limit < 2 ^ 20
    → flags < 2 ^ 16
    → Describes (gdt_descriptor base limit flags) base limit (flags % 2 ^ 8) (flags / 2 ^ 12)
gdt_descriptor-Describes base limit flags b l f =
    rw (descriptor_layout base limit flags b l f) (record {
      base = omega arith;
      limit = omega arith;
      access = omega arith;
      flags = omega arith;
    })
