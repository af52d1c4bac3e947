-- ===== src/Alloc/Pages.antt =====
-- The pages that `alloc` maps when it extends the heap.
use trash_os.Base.{
  ℕ, zero, suc, ◌+◌, ◌*◌, ◌^◌, ◌≤◌, ◌<◌, ◌≡◌, refl, ap, ◌∙◌, arith, bit_or, ltb, u32, inl, inr,
  Bool-cases, ltb→lt, le→ltb-false, true, ne→==-false,
}
use trash_os.Base.Runs.{Run, ok}
use trash_os.Kernel.{Kernel, store}
use trash_os.Page.{page_set_entry, entry_at, page_write, page_present, page_size}
use trash_os.Alloc.{map_loop, set_limit, set_free_list}

-- `get_page_pma` gives a page in every state that `IsReady`, and in such a state the page tables lie
-- from `top` on; the state stays ready.
pub record Mapper (top : ℕ) (IsReady : Kernel → Type 0) (get_page_pma : Kernel → Run (ℕ × Kernel))
    : Type 0 where
  pub page :
      (k : Kernel)
      → IsReady k
      → (pma : ℕ) × (k' : Kernel) × (get_page_pma k ≡ ok (pma, k'))
        × IsReady k'
        × ((a : ℕ) → a < top → k'.mem a ≡ k.mem a)
        × (k'.ctxt ≡ k.ctxt)
  pub apart : (vma : ℕ) (k : Kernel) → vma < 2 ^ 32 → IsReady k → top ≤ entry_at vma k
  pub entry :
      (vma entry : ℕ) (k : Kernel) → vma < 2 ^ 32 → IsReady k → IsReady (page_set_entry vma entry k)
  pub limit : (a : ℕ) (k : Kernel) → IsReady k → IsReady (set_limit a k)
  pub word : (a v : ℕ) (k : Kernel) → a < top → IsReady k → IsReady (store a v k)
  pub free_list : (p : ℕ) (k : Kernel) → IsReady k → IsReady (set_free_list p k)

-- A state that has the same heap.
pub record Mapped (top : ℕ) (run : Run Kernel) (k : Kernel) : Type 0 where
  pub final : Kernel
  pub at : run ≡ ok final
  pub same : (a : ℕ) → a < top → final.mem a ≡ k.mem a
  pub ctxt : final.ctxt ≡ k.ctxt

set_entry_same :
    (vma entry a : ℕ) (k : Kernel)
    → a < entry_at vma k
    → (page_set_entry vma entry k).mem a ≡ k.mem a
unfolding page_set_entry store
set_entry_same vma entry a k h = rw (ne→==-false a (entry_at vma k) (λ e. omega arith)) refl

set_entry_ctxt : (vma entry : ℕ) (k : Kernel) → (page_set_entry vma entry k).ctxt ≡ k.ctxt
unfolding page_set_entry store
set_entry_ctxt vma entry k = refl

map_step :
    (fuel : ℕ) (get_page_pma : Kernel → Run (ℕ × Kernel)) (page_vma stop pma : ℕ) (k k₁ : Kernel)
    → ltb page_vma stop ≡ true
    → get_page_pma k ≡ ok (pma, k₁)
    → map_loop (suc fuel) get_page_pma page_vma stop k
      ≡ map_loop fuel get_page_pma
          (u32 (page_vma + page_size))
          stop
          (page_set_entry page_vma (bit_or (bit_or pma page_write) page_present) k₁)
unfolding map_loop
map_step fuel get_page_pma page_vma stop pma k k₁ more given = rw (more, given) refl

-- With fuel for each page, and one more, the loop maps the pages and leaves the heap.
pub map_loop-Mapped :
    (top : ℕ) (IsReady : Kernel → Type 0) (get_page_pma : Kernel → Run (ℕ × Kernel))
    → Mapper top IsReady get_page_pma
    → (fuel page_vma stop : ℕ) (k : Kernel) → IsReady k
    → stop + 4096 ≤ 2 ^ 32
    → stop ≤ page_vma + 4096 * fuel
    → Mapped top (map_loop (suc fuel) get_page_pma page_vma stop k) k
unfolding map_loop
map_loop-Mapped top IsReady get_page_pma m zero page_vma stop k ready small enough = record {
  final = k;
  at = rw (le→ltb-false page_vma stop (omega arith)) refl;
  same = λ a h. refl;
  ctxt = refl;
}
map_loop-Mapped top IsReady get_page_pma m (suc fuel) page_vma stop k ready small enough =
    elim (Bool-cases (ltb page_vma stop)) [
      | inr past ↦ record { final = k; at = rw past refl; same = λ a h. refl; ctxt = refl }
      | inl more ↦
          let lt = ltb→lt page_vma stop more in
          let (pma, k₁, given, ready₁, same₁, ctxt₁) = m.page k ready in
          let entry : ℕ = bit_or (bit_or pma page_write) page_present in
          let k₂ = page_set_entry page_vma entry k₁ in
          let far = m.apart page_vma k₁ (omega arith) ready₁ in
          let set : (a : ℕ) → a < top → k₂.mem a ≡ k₁.mem a =
            λ a h. set_entry_same page_vma entry a k₁ (omega arith) in
          let next : u32 (page_vma + 4096) ≡ page_vma + 4096 = omega arith in
          let rest =
            map_loop-Mapped top IsReady get_page_pma m fuel (page_vma + 4096) stop k₂
              (m.entry page_vma entry k₁ (omega arith) ready₁) small (omega arith) in
          record {
            final = rest.final;
            at =
                map_step (suc fuel) get_page_pma page_vma stop pma k k₁ more given
                ∙ ap (λ t. map_loop (suc fuel) get_page_pma t stop k₂) next
                ∙ rest.at;
            same = λ a h. rest.same a h ∙ set a h ∙ same₁ a h;
            ctxt = rest.ctxt ∙ set_entry_ctxt page_vma entry k₁ ∙ ctxt₁;
          }
    ]
