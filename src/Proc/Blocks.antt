-- ===== src/Proc/Blocks.antt =====
-- Blocks of memory that an allocation gives, and the words in use around it.
use trash_os.Base.{ℕ, ◌+◌, ◌^◌, ◌≤◌, ◌<◌, ◌≡◌, ◌≢◌, ◌⊎◌, refl, ◌∙◌, ne→==-false}
use trash_os.Kernel.{Kernel, load, store}

abbrev pub InBlock : ℕ → ℕ → ℕ → Type 0
InBlock a bytes b = (a ≤ b) × (b < a + bytes)

-- The addresses in use, with those of a block.
abbrev pub With : (ℕ → Type 0) → ℕ → ℕ → ℕ → Type 0
With Held a bytes b = Held b ⊎ InBlock a bytes b

-- The words at the addresses of `Held` are the same, and the directory stays where it is.
pub record Same (Held : ℕ → Type 0) (k k' : Kernel) : Type 0 where
  pub lookup : k'.page_table_lookup ≡ k.page_table_lookup
  pub dir : k'.page_dir ≡ k.page_dir
  pub words : (b : ℕ) → Held b → load b k' ≡ load b k

pub Same-trans :
    (Held : ℕ → Type 0) {k k' k'' : Kernel} → Same Held k k' → Same Held k' k'' → Same Held k k''
Same-trans Held r r' = record {
  lookup = r'.lookup ∙ r.lookup;
  dir = r'.dir ∙ r.dir;
  words = λ b h. r'.words b h ∙ r.words b h;
}

pub Same-weaken :
    (Held More : ℕ → Type 0) {k k' : Kernel}
    → ((b : ℕ) → Held b → More b)
    → Same More k k'
    → Same Held k k'
Same-weaken Held More sub r = record {
  lookup = r.lookup;
  dir = r.dir;
  words = λ b h. r.words b (sub b h);
}

pub Same-store :
    (Held : ℕ → Type 0) (a v : ℕ) (k : Kernel)
    → ((b : ℕ) → Held b → b ≢ a)
    → Same Held k (store a v k)
unfolding store load
Same-store Held a v k apart = record {
  lookup = refl;
  dir = refl;
  words = λ b h. rw (ne→==-false b a (apart b h)) refl;
}

-- A block that an allocation gave, with nothing in use inside it, and the words in use kept.
pub record IsBlock (Held : ℕ → Type 0) (a bytes : ℕ) (k k' : Kernel) : Type 0 where
  pub some_block : 0 < a
  pub inside : a + bytes ≤ 2 ^ 32
  pub unused : (b : ℕ) → InBlock a bytes b → ¬ Held b
  pub same : Same Held k k'
