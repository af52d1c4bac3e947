-- ===== src/InitPage/Maps.antt =====
-- What `init_page_map` does to the walk over the page tables.
use trash_os.Base.{
  ℕ, ◌+◌, ◌*◌, ◌/◌, ◌%◌, ◌^◌, ◌≤◌, ◌<◌, ◌≡◌, ◌≢◌, refl, sym, ap, ◌∙◌, arith, Bool, true, false,
  bit_or, ◌==◌, if◌then◌else◌, eq→==, ==→eq, ne→==-false, Bool-cases, inl, inr,
}
use mathlib.Core.Path.{subst}
use trash_os.Base.Bits.{bit_or-zero, bit_or_comm}
use trash_os.Kernel.{load}
use trash_os.Page.{word_at}
use trash_os.InitPage.{Init, init_page_map, init_page_clear, table_of}
use trash_os.InitPage.Mapping.{
  dir_of, slot_of, is_absent, entry_addr, entry_of, IsTabled, slot_lem, addr_lem, load_twice,
  mapped, present_entry, map_present,
}
use trash_os.InitPage.NewTable.{NewTable, new_table, new_table_lem, added, map_absent, cleared}

-- In the same directory entry: the new table, with one entry.
added_same :
    (vma pma flags vma' : ℕ) (s : Init)
    → NewTable s
    → s.next_pma + 12288 ≤ 2 ^ 32
    → dir_of vma' ≡ dir_of vma
    → entry_of vma' (added vma pma flags s)
      ≡ (if vma' / 4096 == vma / 4096 then bit_or pma flags else 0)
added_same vma pma flags vma' s n room dir =
    let t : ℕ = new_table s in
    let b = word_at t (slot_of vma) in
    let le = n.near in
    let slot = slot_lem vma in
    let slot' = slot_lem vma' in
    let zero : load (word_at t (slot_of vma')) (init_page_clear t s.kernel) ≡ 0 =
      ap (λ q. load q (init_page_clear t s.kernel))
        (let q : word_at t (slot_of vma') ≡ t + 4 * slot_of vma' = omega arith in q)
      ∙ (cleared t s.kernel).0 (slot_of vma') (omega arith) in
    rw
      (
        eq→== (dir_of vma') (dir_of vma) dir,
        n.present,
        n.entry,
        load_twice b (bit_or pma flags) pma (word_at t (slot_of vma')) (init_page_clear t s.kernel),
        zero,
      )
      (elim (Bool-cases (vma' / 4096 == vma / 4096)) [
        | inl one ↦
            let e = ==→eq (vma' / 4096) (vma / 4096) one in
            let at : word_at t (slot_of vma') ≡ b =
              ap (word_at t) (slot' ∙ ap (λ x. x % 1024) e ∙ sym slot) in
            rw (one, eq→== (word_at t (slot_of vma')) b at) refl
        | inr other ↦
            let ne : word_at t (slot_of vma') ≢ b =
              λ e. let z = eq→== (vma' / 4096) (vma / 4096) (omega arith) in cc in
            rw (other, ne→==-false (word_at t (slot_of vma')) b ne) refl
      ])

-- Under another directory entry nothing changes.
added_other :
    (vma pma flags vma' : ℕ) (s : Init)
    → IsTabled s
    → NewTable s
    → s.next_pma + 12288 ≤ 2 ^ 32
    → vma' < 2 ^ 32
    → dir_of vma' ≢ dir_of vma
    → entry_of vma' (added vma pma flags s) ≡ entry_of vma' s
added_other vma pma flags vma' s tabled n room small dir =
    let t : ℕ = new_table s in
    let b = word_at t (slot_of vma) in
    let le = n.near in
    let from = n.from in
    let slot = slot_lem vma in
    rw (ne→==-false (dir_of vma') (dir_of vma) dir) (elim (Bool-cases (is_absent (dir_of vma') s)) [
      | inl absent ↦ rw absent refl
      | inr present ↦
          let a = entry_addr vma' s in
          let at = addr_lem s vma' tabled small present in
          let below = tabled.below (dir_of vma') (omega arith) present in
          let at_b : b ≡ t + 4 * slot_of vma = omega arith in
          rw
            (
              present,
              load_twice b (bit_or pma flags) pma a (init_page_clear t s.kernel),
              ne→==-false a b (λ e. omega arith),
            )
            ((cleared t s.kernel).1 a (inl (omega arith)))
    ])

absent_entry :
    (vma pma flags vma' : ℕ) (s : Init)
    → IsTabled s
    → s.next_pma + 12288 ≤ 2 ^ 32
    → vma' < 2 ^ 32
    → is_absent (dir_of vma) s ≡ true
    → entry_of vma' (init_page_map vma pma flags s)
      ≡ (if vma' / 4096 == vma / 4096 then mapped (entry_of vma s) pma flags else entry_of vma' s)
absent_entry vma pma flags vma' s tabled room small absent =
    let n = new_table_lem s room in
    let none : entry_of vma s ≡ 0 = rw absent refl in
    let plain : mapped 0 pma flags ≡ bit_or pma flags =
      ap (λ t. bit_or t flags) (bit_or_comm 0 pma ∙ bit_or-zero pma) in
    rw (map_absent vma pma flags s absent, none, plain)
      (elim (Bool-cases (dir_of vma' == dir_of vma)) [
        | inl one ↦
            let dir = ==→eq (dir_of vma') (dir_of vma) one in
            let none' : entry_of vma' s ≡ 0 =
              ap (λ (t : Bool). if t then 0 else load (entry_addr vma' s) s.kernel)
                (ap (λ i. is_absent i s) dir ∙ absent) in
            added_same vma pma flags vma' s n room dir
            ∙ ap (λ t. if vma' / 4096 == vma / 4096 then bit_or pma flags else t) (sym none')
        | inr other ↦
            let ne : dir_of vma' ≢ dir_of vma =
              λ e. let z = eq→== (dir_of vma') (dir_of vma) e in cc in
            added_other vma pma flags vma' s tabled n room small ne
            ∙ sym (
                ap (λ (t : Bool). if t then bit_or pma flags else entry_of vma' s)
                  (ne→==-false (vma' / 4096) (vma / 4096) (λ e. ne (omega arith))))
      ])

added-IsTabled :
    (vma pma flags : ℕ) (s : Init)
    → IsTabled s
    → s.next_pma + 12288 ≤ 2 ^ 32
    → IsTabled (added vma pma flags s)
added-IsTabled vma pma flags s t room =
    let n = new_table_lem s room in
    let new : ℕ = new_table s in
    let near = n.near in
    let from = n.from in
    let old : (i : ℕ) → i < 1024 → is_absent i s ≡ false → table_of (s.page_dir i) + 4096 ≤ new =
      λ i lt present. let b = t.below i lt present in omega arith in
    record {
      below = λ i lt. elim (Bool-cases (i == dir_of vma)) [
        | inl one ↦ rw one (λ present. let e = n.entry in omega arith)
        | inr other ↦ rw other (λ present. let b = old i lt present in omega arith)
      ];
      apart = λ i j lt lt'. elim (Bool-cases (i == dir_of vma)) [
        | inl one ↦ elim (Bool-cases (j == dir_of vma)) [
          | inl one' ↦
              rw (one, one')
                (λ p p' ne.
                  absurd (ne (==→eq i (dir_of vma) one ∙ sym (==→eq j (dir_of vma) one'))))
          | inr other' ↦
              rw (one, other')
                (λ p p' ne same. let b = old j lt' p' in let e = n.entry in absurd (omega arith))
        ]
        | inr other ↦ elim (Bool-cases (j == dir_of vma)) [
          | inl one' ↦
              rw (other, one')
                (λ p p' ne same. let b = old i lt p in let e = n.entry in absurd (omega arith))
          | inr other' ↦ rw (other, other') (λ p p' ne. t.apart i j lt lt' p p' ne)
        ]
      ];
      room = omega arith;
    }

-- `init_page_map` puts the frame and the flags in the entry of its page, keeping the low 12 bits of
-- an old one, and leaves the entry of every other page, also where it takes a new page table; and
-- the tables stay apart and below the next free page. At least 12288 bytes follow that page.
pub init_page_map-IsTabled :
    (vma pma flags : ℕ) (s : Init)
    → IsTabled s
    → s.next_pma + 12288 ≤ 2 ^ 32
    → vma < 2 ^ 32
    → IsTabled (init_page_map vma pma flags s)
      × ((vma' : ℕ)
          → vma' < 2 ^ 32
          → entry_of vma' (init_page_map vma pma flags s) ≡ (
              if vma' / 4096 == vma / 4096
              then mapped (entry_of vma s) pma flags
              else entry_of vma' s))
init_page_map-IsTabled vma pma flags s t room small = elim (Bool-cases (is_absent (dir_of vma) s)) [
  | inl absent ↦ (
    subst IsTabled (sym (map_absent vma pma flags s absent))
        (added-IsTabled vma pma flags s t room),
    λ vma' small'. absent_entry vma pma flags vma' s t room small' absent,
  )
  | inr present ↦ (
    subst IsTabled (sym (map_present vma pma flags s present))
        (record { below = t.below; apart = t.apart; room = t.room }),
    λ vma' small'. present_entry vma pma flags vma' s t small small' present,
  )
]

-- A call takes at most one page, which is the next one or starts inside it.
pub next_pma-init_page_map :
    (vma pma flags : ℕ) (s : Init)
    → s.next_pma + 12288 ≤ 2 ^ 32
    → (init_page_map vma pma flags s).next_pma ≤ s.next_pma + 8192
next_pma-init_page_map vma pma flags s room = elim (Bool-cases (is_absent (dir_of vma) s)) [
  | inl absent ↦
      let near = (new_table_lem s room).near in
      subst (λ (t : Init). t.next_pma ≤ s.next_pma + 8192) (sym (map_absent vma pma flags s absent))
        (omega arith)
  | inr present ↦
      subst (λ (t : Init). t.next_pma ≤ s.next_pma + 8192)
        (sym (map_present vma pma flags s present)) (omega arith)
]
