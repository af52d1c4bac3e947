-- ===== src/Proc/Turn.antt =====
-- The process table after one turn of the scheduler: the current process used its time up, and the
-- next one runs.
use mathlib.Core.Path.{subst}
use trash_os.Base.{
  ℕ, ◌≡◌, ◌≢◌, refl, sym, ap, ◌∙◌, update, ◌==◌, Bool-cases, inl, inr, ==→eq, ne→==-false,
}
use trash_os.Proc.{set_row}
use trash_os.Proc.Table.{State, active, running, Proc, Procs}
use trash_os.Proc.Ticks.{count_down, IsRunning}
use trash_os.Proc.Switch.{
  paused, with_state, started, paused-other, started-exec_count, paused-exec_count, with_priority,
  false-apart,
}

-- A field that the new row of a table keeps.
pub update-field :
    {A : Type 0} (F : Proc → A) (f : ℕ → Proc) (p : ℕ) (v : Proc)
    → F v ≡ F (f p)
    → (q : ℕ) → F (update f p v q) ≡ F (f q)
update-field F f p v same q = elim (Bool-cases (q == p)) [
  | inl t ↦ rw t (same ∙ ap (λ (x : ℕ). F (f x)) (sym (==→eq q p t)))
  | inr e ↦ rw e refl
]

-- The process table after the turn of the current process, where process `p` is next.
unfoldable pub after_turn : Procs → ℕ → ℕ → Proc
after_turn s p = started (paused (count_down 0 s)) p

module _ (s : Procs) (p : ℕ) where
  after_turn-field :
      {A : Type 0} (F : Proc → A)
      → ((st : State) (row : Proc) → F (with_state st row) ≡ F row)
      → ((c : ℕ) (row : Proc) → F (record row { exec_count = c }) ≡ F row)
      → (q : ℕ) → F (after_turn s p q) ≡ F (s.proc_table q)
  unfolding after_turn started paused set_row with_priority
  after_turn-field F any_state any_count q =
      let old = s.current in
      let t = s.proc_table in
      let t₁ = update t old (record (t old) { exec_count = 0 }) in
      let t₂ = update t₁ old (with_priority (t₁ old)) in
      let t₃ = update t₂ old (with_state active (t₂ old)) in
      update-field F t₃ p (with_state running (t₃ p)) (any_state running (t₃ p)) q
      ∙ update-field F t₂ old (with_state active (t₂ old)) (any_state active (t₂ old)) q
      ∙ update-field F t₁ old (with_priority (t₁ old)) (any_count (t₁ old).priority (t₁ old)) q
      ∙ update-field F t old (record (t old) { exec_count = 0 }) (any_count 0 (t old)) q

  pub after_turn-priority : (q : ℕ) → (after_turn s p q).priority ≡ (s.proc_table q).priority
  unfolding with_state
  after_turn-priority = after_turn-field (λ (r : Proc). r.priority) (λ st row. refl) (λ c row. refl)

  pub after_turn-page_tables :
      (q : ℕ) → (after_turn s p q).page_tables ≡ (s.proc_table q).page_tables
  unfolding with_state
  after_turn-page_tables =
      after_turn-field (λ (r : Proc). r.page_tables) (λ st row. refl) (λ c row. refl)

  pub after_turn-ctxt : (q : ℕ) → (after_turn s p q).ctxt ≡ (s.proc_table q).ctxt
  unfolding with_state
  after_turn-ctxt = after_turn-field (λ (r : Proc). r.ctxt) (λ st row. refl) (λ c row. refl)

  pub after_turn-own : (after_turn s p s.current).exec_count ≡ (s.proc_table s.current).priority
  unfolding after_turn set_row
  after_turn-own =
      let row = s.proc_table s.current in
      started-exec_count (paused (count_down 0 s)) p s.current
      ∙ paused-exec_count (count_down 0 s)
      ∙ update-field (λ (r : Proc). r.priority) s.proc_table s.current
          (record row { exec_count = 0 }) refl s.current

  pub after_turn-other :
      (q : ℕ) → q ≢ s.current → (after_turn s p q).exec_count ≡ (s.proc_table q).exec_count
  unfolding after_turn set_row
  after_turn-other q h =
      started-exec_count (paused (count_down 0 s)) p q
      ∙ ap (λ (r : Proc). r.exec_count)
          (paused-other (count_down 0 s) q (ne→==-false q s.current h))
      ∙ (rw (ne→==-false q s.current h) refl)

  -- A process that had as many slices as its priority, or used its slices up, has as many again.
  pub after_turn-rested :
      (q : ℕ)
      → (q ≢ s.current → (s.proc_table q).exec_count ≡ (s.proc_table q).priority)
      → (after_turn s p q).exec_count ≡ (s.proc_table q).priority
  after_turn-rested q other = elim (Bool-cases (q == s.current)) [
    | inl t ↦
        subst (λ x. (after_turn s p x).exec_count ≡ (s.proc_table x).priority)
          (sym (==→eq q s.current t)) after_turn-own
    | inr e ↦ let h = false-apart q s.current e in after_turn-other q h ∙ other h
  ]

-- Counting down changes no state.
pub count_down-IsRunning : (s : Procs) → IsRunning s → IsRunning (count_down 0 s)
unfolding set_row
count_down-IsRunning s is =
    let row = s.proc_table s.current in
    let same : (q : ℕ) → ((count_down 0 s).proc_table q).state ≡ (s.proc_table q).state =
      update-field (λ (r : Proc). r.state) s.proc_table s.current (record row { exec_count = 0 })
        refl in
    (same s.current ∙ is.0, λ q h on. is.1 q h (sym (same q) ∙ on))
