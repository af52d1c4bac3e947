-- ===== src/InitPage/Mapping.antt =====
-- `init_page_map` maps one page and keeps the page tables apart.
use trash_os.Base.{
  ℕ, ◌+◌, ◌*◌, ◌/◌, ◌%◌, ◌^◌, ◌≤◌, ◌<◌, ◌≡◌, ◌≢◌, refl, sym, ap, ◌∙◌, arith, Bool, false, bit_and,
  bit_or, ◌==◌, if◌then◌else◌, ◌>>>◌, eq→==, ==→eq, ne→==-false, Bool-cases, inl, inr,
}
use trash_os.Base.Bits.{bit_and_low}
use trash_os.Kernel.{Kernel, load, store}
use trash_os.Page.{word_at}
use trash_os.InitPage.{Init, init_page_map, table_of}

abbrev pub dir_of : ℕ → ℕ
dir_of vma = vma >>> 22

abbrev pub slot_of : ℕ → ℕ
slot_of vma = bit_and (vma >>> 12) 0x3ff

abbrev pub is_absent : ℕ → Init → Bool
is_absent i s = bit_and (s.page_dir i) 1 == 0

-- The address of the entry of `vma`, where its table is present.
abbrev pub entry_addr : ℕ → Init → ℕ
entry_addr vma s = word_at (table_of (s.page_dir (dir_of vma))) (slot_of vma)

-- The entry that the processor's walk over directory and table finds for `vma`, 0 without a table.
abbrev pub entry_of : ℕ → Init → ℕ
entry_of vma s = if is_absent (dir_of vma) s then 0 else load (entry_addr vma s) s.kernel

-- The tables that are present lie below the next free page, and no two are the same.
pub record IsTabled (s : Init) : Type 0 where
  pub below :
      (i : ℕ) → i < 1024 → is_absent i s ≡ false → table_of (s.page_dir i) + 4096 ≤ s.next_pma
  pub apart :
      (i j : ℕ)
      → i < 1024
      → j < 1024
      → is_absent i s ≡ false
      → is_absent j s ≡ false
      → i ≢ j
      → table_of (s.page_dir i) ≢ table_of (s.page_dir j)
  pub room : s.next_pma < 2 ^ 32

pub slot_lem : (vma : ℕ) → slot_of vma ≡ vma / 4096 % 1024
slot_lem vma = bit_and_low 10 (vma >>> 12)

pub table_aligned : (d : ℕ) → table_of d % 4096 ≡ 0
table_aligned d = omega arith

pub addr_lem :
    (s : Init) (vma : ℕ)
    → IsTabled s
    → vma < 2 ^ 32
    → is_absent (dir_of vma) s ≡ false
    → entry_addr vma s ≡ table_of (s.page_dir (dir_of vma)) + 4 * (vma / 4096 % 1024)
addr_lem s vma t small present =
    let le = t.below (dir_of vma) (omega arith) present in
    let r = t.room in rw (slot_lem vma) (omega arith)

-- The entries of different pages have different addresses.
addr_apart :
    (s : Init) (vma vma' : ℕ)
    → IsTabled s
    → vma < 2 ^ 32
    → vma' < 2 ^ 32
    → is_absent (dir_of vma) s ≡ false
    → is_absent (dir_of vma') s ≡ false
    → vma' / 4096 ≢ vma / 4096
    → entry_addr vma' s ≢ entry_addr vma s
addr_apart s vma vma' t small small' present present' other same =
    let at = addr_lem s vma t small present in
    let at' = addr_lem s vma' t small' present' in
    let al = table_aligned (s.page_dir (dir_of vma)) in
    let al' = table_aligned (s.page_dir (dir_of vma')) in
    elim (Bool-cases (dir_of vma' == dir_of vma)) [
      | inl one ↦
          let e = ==→eq (dir_of vma') (dir_of vma) one in
          let e' : table_of (s.page_dir (dir_of vma')) ≡ table_of (s.page_dir (dir_of vma)) =
            ap (λ i. table_of (s.page_dir i)) e in
          other (omega arith)
      | inr two ↦
          let ne : dir_of vma' ≢ dir_of vma =
            λ e. let z = eq→== (dir_of vma') (dir_of vma) e in cc in
          let far =
            t.apart (dir_of vma') (dir_of vma) (omega arith) (omega arith) present' present ne in
          far (omega arith)
    ]

pub load_twice :
    (a v w b : ℕ) (k : Kernel) → load b (store a v (store a w k)) ≡ (if b == a then v else load b k)
unfolding load store
load_twice a v w b k = elim (Bool-cases (b == a)) [ inl e ↦ rw e refl | inr e ↦ rw e refl ]

pub load_same : (a v : ℕ) (k : Kernel) → load a (store a v k) ≡ v
unfolding load store
load_same a v k = rw (eq→== a a refl) refl

-- The entry as the function writes it.
abbrev pub mapped : ℕ → ℕ → ℕ → ℕ
mapped old pma flags = bit_or (bit_or (bit_and old 0xfff) pma) flags

pub map_present :
    (vma pma flags : ℕ) (s : Init)
    → is_absent (dir_of vma) s ≡ false
    → let a = entry_addr vma s in
      init_page_map vma pma flags s ≡ record s {
        kernel =
            store a
              (mapped (load a s.kernel) pma flags)
              (store a (bit_or (bit_and (load a s.kernel) 0xfff) pma) s.kernel);
      }
unfolding init_page_map
map_present vma pma flags s present =
    let a = entry_addr vma s in
    rw (present, load_same a (bit_or (bit_and (load a s.kernel) 0xfff) pma) s.kernel) refl

pub present_entry :
    (vma pma flags vma' : ℕ) (s : Init)
    → IsTabled s
    → vma < 2 ^ 32
    → vma' < 2 ^ 32
    → is_absent (dir_of vma) s ≡ false
    → entry_of vma' (init_page_map vma pma flags s)
      ≡ (if vma' / 4096 == vma / 4096 then mapped (entry_of vma s) pma flags else entry_of vma' s)
present_entry vma pma flags vma' s t small small' present =
    let a = entry_addr vma s in
    let old : entry_of vma s ≡ load a s.kernel = rw present refl in
    rw
      (
        map_present vma pma flags s present,
        old,
        load_twice a (mapped (load a s.kernel) pma flags)
            (bit_or (bit_and (load a s.kernel) 0xfff) pma) (entry_addr vma' s) s.kernel,
      )
      (elim (Bool-cases (vma' / 4096 == vma / 4096)) [
        | inl one ↦
            let e = ==→eq (vma' / 4096) (vma / 4096) one in
            let dir : dir_of vma' ≡ dir_of vma = omega arith in
            let slot : slot_of vma' ≡ slot_of vma =
              slot_lem vma' ∙ ap (λ t. t % 1024) e ∙ sym (slot_lem vma) in
            rw (one, dir, slot, present, eq→== a a refl) refl
        | inr other ↦
            let ne : vma' / 4096 ≢ vma / 4096 =
              λ e. let z = eq→== (vma' / 4096) (vma / 4096) e in cc in
            elim (Bool-cases (is_absent (dir_of vma') s)) [
              | inl absent ↦ rw (other, absent) refl
              | inr present' ↦
                  rw
                    (
                      other,
                      present',
                      ne→==-false (entry_addr vma' s) a
                          (addr_apart s vma vma' t small small' present present' ne),
                    )
                    refl
            ]
      ])
