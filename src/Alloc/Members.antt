-- ===== src/Alloc/Members.antt =====
-- Membership in a list of addresses as a test.
use trash_os.Base.{
  ℕ, ◌≡◌, ◌≢◌, refl, sym, ap, ◌∙◌, Bool, true, false, not, ◌&&◌, ◌||◌, List, [], ◌∷◌, ◌++◌, All,
  ◌==◌, ==→eq, eq→==, ne→==-false, Bool-cases, inl, inr,
}

abbrev pub is_in : ℕ → List ℕ → Bool
is_in x [] = false
is_in x (y ∷ ys) = x == y || is_in x ys

-- A property of every member holds along the list.
pub All-of-is_in {ℓ} :
    (P : ℕ → Type ℓ) (xs : List ℕ) → ((x : ℕ) → is_in x xs ≡ true → P x) → All P xs
All-of-is_in P [] h = tt
All-of-is_in P (y ∷ ys) h =
    (h y (rw (eq→== y y refl) refl), All-of-is_in P ys (λ x e. h x (rw e (or_true (x == y)))))
  where
    or_true : (b : Bool) → (b || true) ≡ true
    or_true true = refl
    or_true false = refl

-- Where a member stands.
pub split_at :
    (x : ℕ) (xs : List ℕ)
    → is_in x xs ≡ true
    → (before : List ℕ) × (after : List ℕ) × (xs ≡ before ++ x ∷ after)
split_at x [] h = cc
split_at x (y ∷ ys) h = elim (Bool-cases (x == y)) [
  | inl e ↦ ([], ys, ap (λ t. t ∷ ys) (sym (==→eq x y e)))
  | inr e ↦
      let rest : is_in x ys ≡ true = rw e at h in
      let (before, after, at) = split_at x ys rest in (y ∷ before, after, ap (λ t. y ∷ t) at)
]

pub is_in-append : (x : ℕ) (xs ys : List ℕ) → is_in x (xs ++ ys) ≡ (is_in x xs || is_in x ys)
is_in-append x [] ys = refl
is_in-append x (y ∷ xs) ys = rw (is_in-append x xs ys) (regroup (x == y) (is_in x xs) (is_in x ys))
  where
    regroup : (a b c : Bool) → (a || (b || c)) ≡ (a || b || c)
    regroup true b c = refl
    regroup false b c = refl

pub All-ne-is_in : (x : ℕ) (xs : List ℕ) → All (λ y. x ≢ y) xs → is_in x xs ≡ false
All-ne-is_in x [] h = refl
All-ne-is_in x (y ∷ ys) h = rw (ne→==-false x y h.0, All-ne-is_in x ys h.1) refl

pub is_in-All_ne : (x : ℕ) (xs : List ℕ) → is_in x xs ≡ false → All (λ y. x ≢ y) xs
is_in-All_ne x [] h = tt
is_in-All_ne x (y ∷ ys) h = elim (Bool-cases (x == y)) [
  | inl e ↦ let no : true ≡ false = rw e at h in cc
  | inr e ↦
      let rest : is_in x ys ≡ false = rw e at h in
      (λ same. let t = eq→== x y same in cc, is_in-All_ne x ys rest)
]

-- The members that are left when a node that stands once is taken out.
pub is_in-without :
    (x : ℕ) (before : List ℕ) (n : ℕ) (after : List ℕ)
    → is_in n before ≡ false
    → is_in n after ≡ false
    → is_in x (before ++ after) ≡ (is_in x (before ++ n ∷ after) && not (x == n))
is_in-without x before n after out out' =
    rw (is_in-append x before after, is_in-append x before (n ∷ after))
      (elim (Bool-cases (x == n)) [
        | inl e ↦
            let same = ==→eq x n e in
            let b : is_in x before ≡ false = ap (λ t. is_in t before) same ∙ out in
            let a : is_in x after ≡ false = ap (λ t. is_in t after) same ∙ out' in rw (e, b, a) refl
        | inr e ↦ rw e (tidy (is_in x before) (is_in x after))
      ])
  where
    tidy : (a b : Bool) → (a || b) ≡ ((a || b) && true)
    tidy true b = refl
    tidy false true = refl
    tidy false false = refl
