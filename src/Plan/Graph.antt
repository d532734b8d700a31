-- ===== src/Plan/Graph.antt =====
-- What Kahn's algorithm needs of a dependency graph, and what it promises, apart from the code.
use migra_go.Prelude.{ℕ, ◌+◌, ◌≤◌, ◌<◌, List, [], ◌∷◌, ◌++◌, ◌≡◌, arith, count}
use migra_go.Prelude.Counts.{count-append_one}

-- `deps y` holds the nodes that node y waits for, and `dependents x` those that wait for node x.
pub record IsGraph (n : ℕ) (deps dependents : ℕ → List ℕ) : Type 0 where
  pub mirrored : (x y : ℕ) → count x (deps y) ≡ count y (dependents x)
  pub simple : (x y : ℕ) → count x (deps y) ≤ 1
  pub bounded : (x y : ℕ) → n ≤ x → count x (deps y) ≡ 0
  pub outside : (x y : ℕ) → n ≤ y → count x (deps y) ≡ 0

-- Each node of a list stands behind all the nodes that it waits for, given those already `seen`.
abbrev pub IsTopological : (ℕ → List ℕ) → List ℕ → List ℕ → Type 0
IsTopological deps seen [] = Unit
IsTopological deps seen (x ∷ xs) =
    ((d : ℕ) → 0 < count d (deps x) → 0 < count d seen) × IsTopological deps (seen ++ x ∷ []) xs

-- Each node exactly once.
abbrev pub IsListing : ℕ → List ℕ → Type 0
IsListing n l = ((i : ℕ) → i < n → count i l ≡ 1) × ((i : ℕ) → n ≤ i → count i l ≡ 0)

-- A rank that grows from a node to those that wait for it: the graph has no cycle.
abbrev pub IsRanked : (ℕ → List ℕ) → (ℕ → ℕ) → Type 0
IsRanked deps rank = (x y : ℕ) → 0 < count x (deps y) → rank x < rank y

pub IsTopological-append_one :
    (deps : ℕ → List ℕ) (x : ℕ) (seen l : List ℕ)
    → IsTopological deps seen l
    → ((d : ℕ) → 0 < count d (deps x) → 0 < count d seen + count d l)
    → IsTopological deps seen (l ++ x ∷ [])
IsTopological-append_one deps x seen [] h ready = ((λ d m. omega (arith, ready d m)), tt)
IsTopological-append_one deps x seen (y ∷ l) h ready = (
  h.0,
  IsTopological-append_one deps x (seen ++ y ∷ []) l h.1
      (λ d m. ground (arith, ready d m, count-append_one d seen y)),
)
