-- ===== src/Alloc/Nodes.antt =====
-- The free chunks when a chunk is joined with a free one, or is marked free.
use trash_os.Base.{
  ℕ, ◌+◌, ◌≤◌, ◌<◌, ◌≡◌, ◌≢◌, ◌⊎◌, refl, sym, ap, ◌∙◌, arith, Bool, true, false, not, ◌&&◌, ◌||◌,
  List, [], ◌∷◌, ◌++◌, ◌==◌, ==→eq, Bool-cases, inl, inr,
}
use trash_os.Alloc.Members.{is_in, is_in-append}
use trash_os.Alloc.Chunks.{Chunk, free_nodes, end_of, le-end_of, node_cases}
use trash_os.Alloc.Join.{joined, freed}

pub node_bounds :
    (x d : ℕ) (cs : List Chunk) → is_in x (free_nodes d cs) ≡ true → (d + 8 ≤ x) × (x ≤ end_of d cs)
node_bounds x d [] h = cc
node_bounds x d (c ∷ cs) h =
    let le = le-end_of (d + 8 + c.size) cs in
    elim (node_cases x d c cs h) [
      | inl (at, free) ↦ (omega arith, omega arith)
      | inr later ↦ let (lo, hi) = node_bounds x (d + 8 + c.size) cs later in (omega arith, hi)
    ]

not_in : (b : Bool) → b ≢ true → b ≡ false
not_in true h = absurd (h refl)
not_in false h = refl

free_nodes-append :
    (d : ℕ) (xs ys : List Chunk)
    → free_nodes d (xs ++ ys) ≡ free_nodes d xs ++ free_nodes (end_of d xs) ys
free_nodes-append d [] ys = refl
free_nodes-append d (x ∷ xs) ys = elim (Bool-cases x.is_free) [
  | inl e ↦ rw e (ap (λ t. (d + 8) ∷ t) (free_nodes-append (d + 8 + x.size) xs ys))
  | inr e ↦ rw e (free_nodes-append (d + 8 + x.size) xs ys)
]

pub in_nodes :
    (x d : ℕ) (xs ys : List Chunk)
    → is_in x (free_nodes d (xs ++ ys))
      ≡ (is_in x (free_nodes d xs) || is_in x (free_nodes (end_of d xs) ys))
in_nodes x d xs ys =
    ap (is_in x) (free_nodes-append d xs ys)
    ∙ is_in-append x (free_nodes d xs) (free_nodes (end_of d xs) ys)

-- A node between two parts of the heap is in neither of them.
pub nodes_without :
    (x n d g : ℕ) (before rest : List Chunk)
    → end_of d before < n
    → n < g + 8
    → ((is_in x (free_nodes d before) || (x == n || is_in x (free_nodes g rest))) && not (x == n))
      ≡ (is_in x (free_nodes d before) || is_in x (free_nodes g rest))
nodes_without x n d g before rest lo hi = elim (Bool-cases (x == n)) [
  | inl e ↦
      let same = ==→eq x n e in
      rw
        (
          e,
          not_in (is_in x (free_nodes d before))
              (λ m. let (a, b) = node_bounds x d before m in omega arith),
          not_in (is_in x (free_nodes g rest))
              (λ m. let (a, b) = node_bounds x g rest m in omega arith),
        )
        refl
  | inr e ↦ rw e (tidy (is_in x (free_nodes d before)) (is_in x (free_nodes g rest)))
]
  where
    tidy : (a b : Bool) → ((a || b) && true) ≡ (a || b)
    tidy true b = refl
    tidy false true = refl
    tidy false false = refl

pub nodes-join_next :
    (x d : ℕ) (before : List Chunk) (c n : Chunk) (rest : List Chunk)
    → c.is_free ≡ false
    → n.is_free ≡ true
    → (is_in x (free_nodes d (before ++ c ∷ n ∷ rest))
        && not (x == end_of d before + 8 + c.size + 8))
      ≡ is_in x (free_nodes d (before ++ joined c n ∷ rest))
nodes-join_next x d before c n rest used free =
    let e : ℕ = end_of d before in
    let g : ℕ = e + 8 + c.size + 8 + n.size in
    let at : g ≡ e + 8 + (c.size + 8 + n.size) = omega arith in
    rw
      (
        in_nodes x d before (c ∷ n ∷ rest),
        in_nodes x d before (joined c n ∷ rest),
        used,
        free,
        ← at,
      )
      (nodes_without x (e + 8 + c.size + 8) d g before rest (omega arith) (omega arith))

pub nodes-join_prev :
    (x d : ℕ) (before : List Chunk) (b c : Chunk) (rest : List Chunk)
    → b.is_free ≡ true
    → c.is_free ≡ false
    → (is_in x (free_nodes d (before ++ b ∷ c ∷ rest)) && not (x == end_of d before + 8))
      ≡ is_in x (free_nodes d (before ++ joined b c ∷ rest))
nodes-join_prev x d before b c rest free used =
    let e : ℕ = end_of d before in
    let g : ℕ = e + 8 + b.size + 8 + c.size in
    let at : g ≡ e + 8 + (b.size + 8 + c.size) = omega arith in
    rw
      (
        in_nodes x d before (b ∷ c ∷ rest),
        in_nodes x d before (joined b c ∷ rest),
        used,
        free,
        ← at,
      )
      (nodes_without x (e + 8) d g before rest (omega arith) (omega arith))

pub nodes-freed :
    (x d : ℕ) (before : List Chunk) (c : Chunk) (rest : List Chunk)
    → c.is_free ≡ false
    → (x == end_of d before + 8 || is_in x (free_nodes d (before ++ c ∷ rest)))
      ≡ is_in x (free_nodes d (before ++ freed c ∷ rest))
nodes-freed x d before c rest used =
    let e : ℕ = end_of d before in
    rw (in_nodes x d before (c ∷ rest), in_nodes x d before (freed c ∷ rest), used)
      (swap (x == e + 8) (is_in x (free_nodes d before))
        (is_in x (free_nodes (e + 8 + c.size) rest)))
  where
    swap : (a b c : Bool) → (a || (b || c)) ≡ (b || (a || c))
    swap true true c = refl
    swap true false c = refl
    swap false true c = refl
    swap false false c = refl

-- A chunk in use has no node.
pub used-is_out :
    (d : ℕ) (before : List Chunk) (c : Chunk) (rest : List Chunk)
    → c.is_free ≡ false
    → is_in (end_of d before + 8) (free_nodes d (before ++ c ∷ rest)) ≡ false
used-is_out d before c rest used =
    let e : ℕ = end_of d before in
    let n : ℕ = e + 8 in
    let out =
      not_in (is_in n (free_nodes d before))
        (λ m. let (a, b) = node_bounds n d before m in omega arith) in
    let out' =
      not_in (is_in n (free_nodes (n + c.size) rest))
        (λ m. let (a, b) = node_bounds n (n + c.size) rest m in omega arith) in
    rw (in_nodes n d before (c ∷ rest), used, out, out') refl

pub nodes-busy :
    (x d : ℕ) (before : List Chunk) (c : Chunk) (rest : List Chunk)
    → c.is_free ≡ true
    → (is_in x (free_nodes d (before ++ c ∷ rest)) && not (x == end_of d before + 8))
      ≡ is_in x (free_nodes d (before ++ record { size = c.size; is_free = false } ∷ rest))
nodes-busy x d before c rest free =
    let e : ℕ = end_of d before in
    rw
      (
        in_nodes x d before (c ∷ rest),
        in_nodes x d before (record { size = c.size; is_free = false } ∷ rest),
        free,
      )
      (nodes_without x (e + 8) d (e + 8 + c.size) before rest (omega arith) (omega arith))

-- A node lies in front of a free chunk, is its own, or lies behind it.
pub node_places :
    (x d : ℕ) (before : List Chunk) (c : Chunk) (rest : List Chunk)
    → is_in x (free_nodes d (before ++ c ∷ rest)) ≡ true
    → (x ≤ end_of d before) ⊎ (x ≡ end_of d before + 8) ⊎ (end_of d before + 8 + c.size + 8 ≤ x)
node_places x d before c rest m =
    let e : ℕ = end_of d before in
    elim (Bool-cases (is_in x (free_nodes d before))) [
      | inl early ↦ inl (node_bounds x d before early).1
      | inr late ↦
          let m' : is_in x (free_nodes e (c ∷ rest)) ≡ true =
            rw (late) at (sym (in_nodes x d before (c ∷ rest)) ∙ m) in
          elim (node_cases x e c rest m') [
            | inl (at, free) ↦ inr (inl at)
            | inr later ↦ inr (inr (node_bounds x (e + 8 + c.size) rest later).0)
          ]
    ]
