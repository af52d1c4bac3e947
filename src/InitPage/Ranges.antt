-- ===== src/InitPage/Ranges.antt =====
-- The loops of init.c that map a range of pages.
use trash_os.Base.{
  ℕ, zero, suc, ◌+◌, ◌-◌, ◌*◌, ◌/◌, ◌%◌, ◌^◌, ◌≤◌, ◌<◌, ◌≡◌, ◌≢◌, ◌⊎◌, refl, sym, ap, ◌∙◌, arith,
  Bool, ◌==◌, if◌then◌else◌, u32, lt→ltb, le→ltb-false, ==→eq, Bool-cases, eq→==, ne→==-false, inl,
  inr,
}
use mathlib.Core.Path.{subst, subst₂}
use trash_os.Base.Runs.{Run, ok}
use trash_os.InitPage.{Init, init_page_map, map_range}
use trash_os.InitPage.Mapping.{entry_of, IsTabled, mapped}
use trash_os.InitPage.Maps.{init_page_map-IsTabled, next_pma-init_page_map}

-- `n` pages from `vma` on are mapped to those from `pma` on, and no other page.
pub record RangeMapped (n vma pma flags : ℕ) (s : Init) (run : Run (ℕ × Init)) : Type 0 where
  pub last : ℕ
  pub final : Init
  pub at : run ≡ ok (last, final)
  pub tabled : IsTabled final
  pub inside :
      (j : ℕ)
      → j < n
      → entry_of (vma + 4096 * j) final
        ≡ mapped (entry_of (vma + 4096 * j) s) (u32 (pma + 4096 * j)) flags
  pub outside :
      (a : ℕ) → a < 2 ^ 32 → (a < vma) ⊎ (vma + 4096 * n ≤ a) → entry_of a final ≡ entry_of a s

range_step :
    (fuel i stop vma pma flags : ℕ) (s : Init)
    → i < stop
    → map_range (suc fuel) i stop vma pma flags s
      ≡ map_range fuel
          (u32 (i + 4096))
          stop
          vma
          pma
          flags
          (init_page_map (u32 (vma + i)) (u32 (pma + i)) flags s)
unfolding map_range
range_step fuel i stop vma pma flags s h = rw (lt→ltb i stop h) refl

range_stop :
    (fuel i stop vma pma flags : ℕ) (s : Init)
    → stop ≤ i
    → map_range (suc fuel) i stop vma pma flags s ≡ ok (i, s)
unfolding map_range
range_stop fuel i stop vma pma flags s h = rw (le→ltb-false i stop h) refl

-- A page in front of a range that is mapped after it.
range_more :
    (n vma pma flags : ℕ) (s : Init) (run : Run (ℕ × Init))
    → IsTabled s
    → (vma % 4096 ≡ 0) × (vma + 4096 * suc n < 2 ^ 32)
    → s.next_pma + 12288 ≤ 2 ^ 32
    → RangeMapped n (vma + 4096) (pma + 4096) flags (init_page_map vma (u32 pma) flags s) run
    → RangeMapped (suc n) vma pma flags s run
range_more n vma pma flags s run t (al, small) room rest =
    let s₁ = init_page_map vma (u32 pma) flags s in
    let (t₁, entries) = init_page_map-IsTabled vma (u32 pma) flags s t room (omega arith) in
    let other : (a : ℕ) → a < 2 ^ 32 → a / 4096 ≢ vma / 4096 → entry_of a s₁ ≡ entry_of a s =
      λ a h ne.
        entries a h
        ∙ ap (λ (b : Bool). if b then mapped (entry_of vma s) (u32 pma) flags else entry_of a s)
            (ne→==-false (a / 4096) (vma / 4096) ne) in
    let own : entry_of vma s₁ ≡ mapped (entry_of vma s) (u32 pma) flags =
      entries vma (omega arith)
      ∙ ap (λ (b : Bool). if b then mapped (entry_of vma s) (u32 pma) flags else entry_of vma s)
          (eq→== (vma / 4096) (vma / 4096) refl) in
    record {
      last = rest.last;
      final = rest.final;
      at = rest.at;
      tabled = rest.tabled;
      inside = λ j h. elim (Bool-cases (j == 0)) [
        | inl first ↦
            let z = ==→eq j 0 first in
            let here : vma + 4096 * j ≡ vma = omega arith in
            let here' : pma + 4096 * j ≡ pma = omega arith in
            rw (here, here') (rest.outside vma (omega arith) (inl (omega arith)) ∙ own)
        | inr more ↦
            let nz : j ≢ 0 = λ e. let z = eq→== j 0 e in cc in
            let here : vma + 4096 + 4096 * (j - 1) ≡ vma + 4096 * j = omega arith in
            let here' : pma + 4096 + 4096 * (j - 1) ≡ pma + 4096 * j = omega arith in
            let later = rest.inside (j - 1) (omega arith) in
            let kept = other (vma + 4096 * j) (omega arith) (λ e. omega arith) in
            ap (λ a. entry_of a rest.final) (sym here)
            ∙ later
            ∙ ap (λ a. mapped (entry_of a s₁) (u32 (pma + 4096 + 4096 * (j - 1))) flags) here
            ∙ ap (λ a. mapped (entry_of (vma + 4096 * j) s₁) (u32 a) flags) here'
            ∙ ap (λ a. mapped a (u32 (pma + 4096 * j)) flags) kept
      ];
      outside = λ a h out.
          rest.outside a h (elim out [ inl x ↦ inl (omega arith) | inr x ↦ inr (omega arith) ])
          ∙ other a h (elim out [ inl x ↦ λ e. omega arith | inr x ↦ λ e. omega arith ]);
    }

-- The loop returns, and maps each of the `n` pages of its range to the frame with the same offset,
-- and no other page. The range does not wrap and begins at a page, there are enough free pages for
-- the new tables, and the fuel is one more than the number of pages.
pub map_range-Mapped :
    (n i stop vma pma flags : ℕ) (s : Init)
    → IsTabled s
    → (stop ≤ i + 4096 * n) × (i + 4096 * n < stop + 4096)
    → ((vma + i) % 4096 ≡ 0) × (vma + i + 4096 * n < 2 ^ 32)
    → s.next_pma + 8192 * n + 12288 ≤ 2 ^ 32
    → RangeMapped n (vma + i) (pma + i) flags s (map_range (suc n) i stop vma pma flags s)
map_range-Mapped zero i stop vma pma flags s t (le, lt) (al, small) room = record {
  last = i;
  final = s;
  at = range_stop zero i stop vma pma flags s (omega arith);
  tabled = t;
  inside = λ j h. absurd (omega arith);
  outside = λ a h out. refl;
}
map_range-Mapped (suc n) i stop vma pma flags s t (le, lt) (al, small) room =
    let v : ℕ = u32 (vma + i) in
    let s₁ = init_page_map v (u32 (pma + i)) flags s in
    let (t₁, entries) =
      init_page_map-IsTabled v (u32 (pma + i)) flags s t (omega arith) (omega arith) in
    let grown = next_pma-init_page_map v (u32 (pma + i)) flags s (omega arith) in
    let rest =
      map_range-Mapped n (i + 4096) stop vma pma flags s₁ t₁ (omega arith, omega arith)
        (omega arith, omega arith) (omega arith) in
    let next : u32 (i + 4096) ≡ i + 4096 = omega arith in
    let here : v ≡ vma + i = omega arith in
    let ran =
      range_step (suc n) i stop vma pma flags s (omega arith)
      ∙ ap (λ x. map_range (suc n) x stop vma pma flags s₁) next in
    let moved : RangeMapped n (vma + i + 4096) (pma + i + 4096) flags s₁
        (map_range (suc (suc n)) i stop vma pma flags s) =
      subst₂ (λ x y. RangeMapped n x y flags s₁ (map_range (suc (suc n)) i stop vma pma flags s))
        (let q : vma + (i + 4096) ≡ vma + i + 4096 = omega arith in q)
        (let q : pma + (i + 4096) ≡ pma + i + 4096 = omega arith in q)
        (subst (RangeMapped n (vma + (i + 4096)) (pma + (i + 4096)) flags s₁) (sym ran) rest) in
    range_more n (vma + i) (pma + i) flags s (map_range (suc (suc n)) i stop vma pma flags s) t
      (al, small) (omega arith)
      (subst
        (λ x.
          RangeMapped n (vma + i + 4096) (pma + i + 4096) flags
            (init_page_map x (u32 (pma + i)) flags s)
            (map_range (suc (suc n)) i stop vma pma flags s))
        here moved)
